-- ===== src/TimerManager/Check.antt =====
-- `CheckAndHandle` ends, runs each timer that is due once, and leaves none that is due.
use my_net_lib.Common.{
  Bool-cases, List, [], ap, ap₂, arith, false, if◌then◌else◌, inl, inr, is_zero, leb, length,
  le→leb, lt→leb, pos_part, refl, some, suc, zero, ℕ, ◌+◌, ◌<◌, ◌^◌, ◌∙◌, ◌∷◌, ◌≡◌, ◌≤◌,
}
use native.Mathlib.Decide.{dec_le}
use my_net_lib.Timer.{Timer}
use my_net_lib.TimerManager.{
  TimerManager, cmp, push, pushes, rearmed, rearm, check_loop, check_and_handle,
}
use my_net_lib.TimerManager.Order.{All, IsSorted, All-push, push-IsSorted, top_first}

-- The timers due at `now` that stand before the first that is not, and the others.
abbrev pub due : ℕ → TimerManager → List Timer
due now [] = []
due now (t ∷ q) = if leb t.expired_time now then t ∷ due now q else []

abbrev pub waiting : ℕ → TimerManager → TimerManager
waiting now [] = []
waiting now (t ∷ q) = if leb t.expired_time now then waiting now q else t ∷ q

abbrev pub callbacks : List Timer → List ℕ
callbacks [] = []
callbacks (t ∷ ts) = t.callback ∷ callbacks ts

abbrev pub IsLater : ℕ → Timer → Type 0
IsLater now t = now < t.expired_time

-- A timer whose next time lies in the future and in range. `AddTimer` takes no other interval.
abbrev pub IsTicking : ℕ → Timer → Type 0
IsTicking now t = (0 < pos_part t.interval) × (now + pos_part t.interval < 2 ^ 64)

-- Each due timer in turn: what its callback adds is queued, then the timer itself if it repeats.
pub handled : (adds : ℕ → List Timer) → ℕ → List Timer → TimerManager → TimerManager
handled adds now [] q = q
handled adds now (t ∷ ts) q = handled adds now ts (rearm now t (pushes (adds t.callback) q))

-- A timer that is not due goes behind those that are.
push_behind :
    (now : ℕ) (t x : Timer) (q : TimerManager)
    → IsLater now t
    → x.expired_time ≤ now
    → push t (x ∷ q) ≡ x ∷ push t q
unfolding push
push_behind now t x q h k = let front : cmp x t ≡ false = ground arith in rw front

module _ (now : ℕ) (t : Timer) (h : IsLater now t) where
  due-push : (q : TimerManager) → due now (push t q) ≡ due now q
  unfolding push
  due-push [] = rw (lt→leb t.expired_time now h)
  due-push (x ∷ q) = elim (dec_le x.expired_time now) [
    | yes is_due ↦
        rw (push_behind now t x q h is_due, le→leb x.expired_time now is_due)
          (ap (◌∷◌ x) (due-push q))
    | no later ↦ elim (Bool-cases (cmp x t)) [
      | inl e ↦ rw (e, lt→leb t.expired_time now h, lt→leb x.expired_time now (omega arith))
      | inr e ↦ rw (e, lt→leb x.expired_time now (omega arith))
    ]
  ]

  waiting-push : (q : TimerManager) → waiting now (push t q) ≡ push t (waiting now q)
  unfolding push
  waiting-push [] = rw (lt→leb t.expired_time now h)
  waiting-push (x ∷ q) = elim (dec_le x.expired_time now) [
    | yes is_due ↦
        rw (push_behind now t x q h is_due, le→leb x.expired_time now is_due) (waiting-push q)
    | no later ↦ elim (Bool-cases (cmp x t)) [
      | inl e ↦ rw (e, lt→leb t.expired_time now h, lt→leb x.expired_time now (omega arith), e)
      | inr e ↦ rw (e, lt→leb x.expired_time now (omega arith), e)
    ]
  ]

rearmed-IsLater : (now : ℕ) (t : Timer) → IsTicking now t → IsLater now (rearmed now t)
unfolding rearmed
rearmed-IsLater now t h = ground arith

module _ (now : ℕ) where
  pub due-pushes :
      (ts : List Timer) (q : TimerManager)
      → All (IsLater now) ts
      → due now (pushes ts q) ≡ due now q
  unfolding pushes
  due-pushes [] q h = refl
  due-pushes (t ∷ ts) q h = due-pushes ts (push t q) h.1 ∙ due-push now t h.0 q

  waiting-pushes :
      (ts : List Timer) (q : TimerManager)
      → All (IsLater now) ts
      → waiting now (pushes ts q) ≡ pushes ts (waiting now q)
  unfolding pushes
  waiting-pushes [] q h = refl
  waiting-pushes (t ∷ ts) q h =
      waiting-pushes ts (push t q) h.1 ∙ ap (pushes ts) (waiting-push now t h.0 q)

  pub pushes_behind :
      (ts : List Timer) (x : Timer) (q : TimerManager)
      → All (IsLater now) ts
      → x.expired_time ≤ now
      → pushes ts (x ∷ q) ≡ x ∷ pushes ts q
  unfolding pushes
  pushes_behind [] x q h k = refl
  pushes_behind (t ∷ ts) x q h k =
      ap (pushes ts) (push_behind now t x q h.0 k) ∙ pushes_behind ts x (push t q) h.1 k

  pub due-rearm :
      (t : Timer) (q : TimerManager) → IsTicking now t → due now (rearm now t q) ≡ due now q
  unfolding rearm
  due-rearm t q h = elim (Bool-cases (is_zero t.repeated_times)) [
    | inl e ↦ rw e
    | inr e ↦ rw e (due-push now (rearmed now t) (rearmed-IsLater now t h) q)
  ]

  waiting-rearm :
      (t : Timer) (q : TimerManager)
      → IsTicking now t
      → waiting now (rearm now t q) ≡ rearm now t (waiting now q)
  unfolding rearm
  waiting-rearm t q h = elim (Bool-cases (is_zero t.repeated_times)) [
    | inl e ↦ rw e
    | inr e ↦ rw e (waiting-push now (rearmed now t) (rearmed-IsLater now t h) q)
  ]

  pub length-due : (q : TimerManager) → length (due now q) ≤ length q
  length-due [] = omega arith
  length-due (t ∷ q) = ground (arith, length-due q)

pub All-IsLater :
    {now : ℕ} (t : Timer) (q : List Timer)
    → IsLater now t
    → All (λ x. t.expired_time ≤ x.expired_time) q
    → All (IsLater now) q
All-IsLater t [] h a = tt
All-IsLater t (x ∷ q) h a = (omega (arith, h, a.0), All-IsLater t q h a.1)

module _ (adds : ℕ → List Timer) (now : ℕ)
    (added_later : (c : ℕ) → All (IsLater now) (adds c)) where
  check_loop_lem :
      (fuel : ℕ) (q : TimerManager)
      → length (due now q) < fuel
      → All (IsTicking now) (due now q)
      → check_loop adds fuel now q
        ≡ some (callbacks (due now q), handled adds now (due now q) (waiting now q))
  unfolding check_loop handled
  check_loop_lem zero q enough ticking = absurd (omega arith)
  check_loop_lem (suc fuel) [] enough ticking = refl
  check_loop_lem (suc fuel) (t ∷ q) enough ticking = elim (dec_le t.expired_time now) [
    | yes is_due ↦
        let tick : IsTicking now t × All (IsTicking now) (due now q) =
          rw (le→leb t.expired_time now is_due) at ticking in
        let room : length (due now q) < fuel =
          let r : suc (length (due now q)) < suc fuel =
            rw (le→leb t.expired_time now is_due) at enough in
          omega arith in
        let later : All (IsLater now) (adds t.callback) = added_later t.callback in
        let q1 : TimerManager = pushes (adds t.callback) q in
        let q2 : TimerManager = rearm now t q1 in
        let same : due now q2 ≡ due now q =
          due-rearm now t q1 tick.0 ∙ due-pushes now (adds t.callback) q later in
        let moves : waiting now q2 ≡ rearm now t (pushes (adds t.callback) (waiting now q)) =
          waiting-rearm now t q1 tick.0
          ∙ ap (rearm now t) (waiting-pushes now (adds t.callback) q later) in
        rw
          (
            le→leb t.expired_time now is_due,
            pushes_behind now (adds t.callback) t q later is_due,
            check_loop_lem fuel q2 (rw same room) (rw same tick.1),
          )
          (ap₂ (λ ts w. some (t.callback ∷ callbacks ts, handled adds now ts w)) same moves)
    | no later ↦ rw (lt→leb t.expired_time now (omega arith))
  ]

  -- `CheckAndHandle` ends, with one round for each timer that is due: their callbacks run once each,
  -- in the order of the queue, and those that repeat are queued again. It needs that a callback adds
  -- only timers for later, and that the due timers' intervals are positive and in range.
  pub check_and_handle_lem :
      (q : TimerManager)
      → All (IsTicking now) (due now q)
      → check_and_handle adds now q
        ≡ some (callbacks (due now q), handled adds now (due now q) (waiting now q))
  unfolding check_and_handle
  check_and_handle_lem q ticking =
      check_loop_lem (length q + 1) q (omega (arith, length-due now q)) ticking

  pushes-All :
      (ts : List Timer) (q : TimerManager)
      → All (IsLater now) ts
      → All (IsLater now) q
      → All (IsLater now) (pushes ts q)
  unfolding pushes
  pushes-All [] q h a = a
  pushes-All (t ∷ ts) q h a = pushes-All ts (push t q) h.1 (All-push (IsLater now) t q h.0 a)

  rearm-All :
      (t : Timer) (q : TimerManager)
      → IsTicking now t
      → All (IsLater now) q
      → All (IsLater now) (rearm now t q)
  unfolding rearm
  rearm-All t q h a = elim (Bool-cases (is_zero t.repeated_times)) [
    | inl e ↦ rw e a
    | inr e ↦ rw e (All-push (IsLater now) (rearmed now t) q (rearmed-IsLater now t h) a)
  ]

  handled-All :
      (ts : List Timer) (q : TimerManager)
      → All (IsTicking now) ts
      → All (IsLater now) q
      → All (IsLater now) (handled adds now ts q)
  unfolding handled
  handled-All [] q h a = a
  handled-All (t ∷ ts) q h a = handled-All ts (rearm now t (pushes (adds t.callback) q)) h.1 (
      rearm-All t (pushes (adds t.callback) q) h.0
        (pushes-All (adds t.callback) q (added_later t.callback) a))

  waiting-All : (q : TimerManager) → IsSorted q → All (IsLater now) (waiting now q)
  waiting-All [] s = tt
  waiting-All (t ∷ q) s = elim (dec_le t.expired_time now) [
    | yes is_due ↦ rw (le→leb t.expired_time now is_due) (waiting-All q s.1)
    | no later ↦
        rw (lt→leb t.expired_time now (omega arith))
          (omega arith, All-IsLater t q (omega arith) (top_first t q s))
  ]

  pub pushes-IsSorted : (ts : List Timer) (q : TimerManager) → IsSorted q → IsSorted (pushes ts q)
  unfolding pushes
  pushes-IsSorted [] q s = s
  pushes-IsSorted (t ∷ ts) q s = pushes-IsSorted ts (push t q) (push-IsSorted t q s)

  pub rearm-IsSorted : (t : Timer) (q : TimerManager) → IsSorted q → IsSorted (rearm now t q)
  unfolding rearm
  rearm-IsSorted t q s = elim (Bool-cases (is_zero t.repeated_times)) [
    | inl e ↦ rw e s
    | inr e ↦ rw e (push-IsSorted (rearmed now t) q s)
  ]

  handled-IsSorted :
      (ts : List Timer) (q : TimerManager) → IsSorted q → IsSorted (handled adds now ts q)
  unfolding handled
  handled-IsSorted [] q s = s
  handled-IsSorted (t ∷ ts) q s =
      handled-IsSorted ts (rearm now t (pushes (adds t.callback) q))
        (rearm-IsSorted t (pushes (adds t.callback) q) (pushes-IsSorted (adds t.callback) q s))

  waiting-IsSorted : (q : TimerManager) → IsSorted q → IsSorted (waiting now q)
  waiting-IsSorted [] s = tt
  waiting-IsSorted (t ∷ q) s = elim (dec_le t.expired_time now) [
    | yes is_due ↦ rw (le→leb t.expired_time now is_due) (waiting-IsSorted q s.1)
    | no later ↦ rw (lt→leb t.expired_time now (omega arith)) s
  ]

  -- After `CheckAndHandle` on an ordered queue no timer is due, and the queue is ordered.
  pub check_and_handle-none_due :
      (q : TimerManager)
      → IsSorted q
      → All (IsTicking now) (due now q)
      → (ran : List ℕ) × (left : TimerManager) × (check_and_handle adds now q ≡ some (ran, left))
        × All (IsLater now) left
        × IsSorted left
  check_and_handle-none_due q s ticking = (
    callbacks (due now q),
    handled adds now (due now q) (waiting now q),
    check_and_handle_lem q ticking,
    handled-All (due now q) (waiting now q) ticking (waiting-All q s),
    handled-IsSorted (due now q) (waiting now q) (waiting-IsSorted q s),
  )
