-- ===== src/EventLoop/OneLoop.antt =====
-- The loops of one thread: `t_loopInThisThread`, the constructor and the destructor.
use my_net_lib.Common.{
  Bool, List, Option, [], ap, arith, false, if_true, if◌then◌else◌, inl, inr, none, refl, some,
  true, ℕ, ℤ, ◌==◌, ◌||◌, ◌∙◌, ◌∷◌, ◌≡◌, ◌⊎◌,
}
use my_net_lib.Channel.{Channel, new_channel, enable_read}
use my_net_lib.TimerManager.{TimerManager, add_timer}
use my_net_lib.Timer.{Timer}

-- The thread's pointer, and the loops that were constructed in it and not destroyed.
pub record LoopThread : Type 0 where
  pub loop_in_this_thread : Option ℕ
  pub alive : List ℕ

-- The wakeup channel, on the eventfd that the constructor opened, behind `EnableRead`.
unfoldable pub wakeup_channel : (wake_fd : ℕ) → Channel
unfolding enable_read
wakeup_channel wake_fd = enable_read (record (new_channel wake_fd) { has_read = true })

-- `none`: LOG_FATAL ends the program.
unfoldable pub construct : (this : ℕ) → LoopThread → Option LoopThread
construct this s = elim s.loop_in_this_thread [
  | none ↦ some (record { loop_in_this_thread = some this; alive = this ∷ s.alive })
  | some other ↦ none
]

abbrev pub without_loop : ℕ → List ℕ → List ℕ
without_loop this [] = []
without_loop this (l ∷ ls) = if l == this then without_loop this ls else l ∷ without_loop this ls

unfoldable pub destruct : (this : ℕ) → LoopThread → LoopThread
destruct this s = record { loop_in_this_thread = none; alive = without_loop this s.alive }

-- `RunAfter`
unfoldable pub run_after :
    (now initial_id : ℕ)
    → (repeated_times interval : ℤ) → (callback : ℕ) → TimerManager
    → Option Timer × ℕ × TimerManager
run_after now initial_id repeated_times interval callback q =
    add_timer now initial_id q repeated_times interval callback

abbrev pub is_among : ℕ → List ℕ → Bool
is_among this [] = false
is_among this (l ∷ ls) = (l == this) || is_among this ls

pub data ThreadReach : LoopThread → Type 0 where
  no_loop : ThreadReach (record { loop_in_this_thread = none; alive = [] })
  constructs :
      {s s' : LoopThread} (this : ℕ) → ThreadReach s → construct this s ≡ some s' → ThreadReach s'
  destructs :
      {s : LoopThread} (this : ℕ)
      → ThreadReach s
      → is_among this s.alive ≡ true
      → ThreadReach (destruct this s)

-- A thread has no loop, or one, which its pointer names.
pub one_loop :
    {s : LoopThread}
    → ThreadReach s
    → ((s.loop_in_this_thread ≡ none) × (s.alive ≡ []))
      ⊎ ((this : ℕ) × (s.loop_in_this_thread ≡ some this) × (s.alive ≡ this ∷ []))
unfolding construct destruct
one_loop no_loop = inl (refl, refl)
one_loop (constructs {s} {s'} this r h) = elim (one_loop r) [
  | inl e ↦ inr (this, ground arith, ground arith)
  | inr (other, e, a) ↦ absurd (ground arith)
]
one_loop (destructs {s} this r h) = inl (
  refl,
  elim (one_loop r) [
    | inl e ↦ ap (without_loop this) e.1
    | inr (other, e, a) ↦
        let named : is_among this (other ∷ []) ≡ true = rw a at h in
        let same : (other == this) ≡ true = ground arith in
        ap (without_loop this) a ∙ if_true _ _ same
  ],
)
