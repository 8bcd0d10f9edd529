-- ===== src/TimerManager/Remove.antt =====
-- `RemoveTimer` takes the timer off an ordered queue and leaves the others as they are.
use my_net_lib.Common.{
  Bool-cases, [], ap, append-nil, append_assoc, false, if◌then◌else◌, inl, inr, refl, sym, ℕ, ◌++◌,
  ◌==◌, ◌∙◌, ◌∷◌, ◌≡◌,
}
use my_net_lib.Timer.{Timer}
use my_net_lib.TimerManager.{TimerManager, cmp, push, remove_loop, remove_timer}
use my_net_lib.TimerManager.Order.{All, IsSorted}

abbrev pub without : ℕ → TimerManager → TimerManager
without timer [] = []
without timer (t ∷ q) = if t.id == timer then without timer q else t ∷ without timer q

-- No timer of `q` has a higher priority than one of `front`.
abbrev Before : TimerManager → TimerManager → Type 0
Before front q = All (λ x. All (λ y. cmp x y ≡ false) q) front

push_last : (t : Timer) (q : TimerManager) → All (λ x. cmp x t ≡ false) q → push t q ≡ q ++ t ∷ []
unfolding push
push_last t [] a = refl
push_last t (x ∷ q) a = rw a.0 (ap (◌∷◌ x) (push_last t q a.1))

Before-head :
    (front : TimerManager) (t : Timer) (q : TimerManager)
    → Before front (t ∷ q)
    → All (λ x. cmp x t ≡ false) front
Before-head [] t q b = tt
Before-head (x ∷ front) t q b = (b.0.0, Before-head front t q b.1)

Before-tail :
    (front : TimerManager) (t : Timer) (q : TimerManager) → Before front (t ∷ q) → Before front q
Before-tail [] t q b = tt
Before-tail (x ∷ front) t q b = (b.0.1, Before-tail front t q b.1)

Before-snoc :
    (front : TimerManager) (t : Timer) (q : TimerManager)
    → Before front q
    → All (λ y. cmp t y ≡ false) q
    → Before (front ++ t ∷ []) q
Before-snoc [] t q b a = (a, tt)
Before-snoc (x ∷ front) t q b a = (b.0, Before-snoc front t q b.1 a)

remove_loop_lem :
    (timer : ℕ) (q front : TimerManager)
    → IsSorted q
    → Before front q
    → remove_loop timer q front ≡ front ++ without timer q
unfolding remove_loop
remove_loop_lem timer [] front s b = sym (append-nil front)
remove_loop_lem timer (t ∷ q) front s b = elim (Bool-cases (t.id == timer)) [
  | inl e ↦ rw e (remove_loop_lem timer q front s.1 (Before-tail front t q b))
  | inr e ↦
      rw (e, push_last t front (Before-head front t q b))
        (remove_loop_lem timer q (front ++ t ∷ []) s.1
            (Before-snoc front t q (Before-tail front t q b) s.0)
          ∙ append_assoc front (t ∷ []) (without timer q))
]

-- `RemoveTimer` on an ordered queue takes off every entry of that timer, keeps all the others, and
-- keeps their order.
pub remove_timer_lem :
    (timer : ℕ) (q : TimerManager) → IsSorted q → remove_timer timer q ≡ without timer q
unfolding remove_timer
remove_timer_lem timer q s = remove_loop_lem timer q [] s tt
