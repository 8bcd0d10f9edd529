-- ===== src/TimerManager/Removing/Ends.antt =====
-- `CheckAndHandle` ends, whatever other timers the callbacks remove.
use my_net_lib.Common.{
  Bool-cases, List, [], ap, arith, false, inl, inr, length, le→leb, lt→leb, refl, suc, zero, ℕ, ◌+◌,
  ◌<◌, ◌==◌, ◌∷◌, ◌≡◌, ◌≤◌,
}
use native.Mathlib.Decide.{dec_le}
use my_net_lib.Timer.{Timer}
use my_net_lib.TimerManager.{TimerManager, cmp, pushes, rearm}
use my_net_lib.TimerManager.Order.{All, IsSorted, top_first}
use my_net_lib.TimerManager.Remove.{without, remove_timer_lem}
use my_net_lib.TimerManager.Check.{
  IsLater, IsTicking, due, All-IsLater, pushes_behind, due-pushes, due-rearm, length-due,
  pushes-IsSorted, rearm-IsSorted,
}
use my_net_lib.TimerManager.Removing.{
  Callbacks, remove_all, holds, Checked, returns, check_removing,
}

without-All {ℓ} :
    (P : Timer → Type ℓ) (timer : ℕ) (q : TimerManager) → All P q → All P (without timer q)
without-All P timer [] a = tt
without-All P timer (t ∷ q) a = elim (Bool-cases (t.id == timer)) [
  | inl e ↦ rw e (without-All P timer q a.1)
  | inr e ↦ rw e (a.0, without-All P timer q a.1)
]

without-IsSorted : (timer : ℕ) (q : TimerManager) → IsSorted q → IsSorted (without timer q)
without-IsSorted timer [] s = tt
without-IsSorted timer (t ∷ q) s = elim (Bool-cases (t.id == timer)) [
  | inl e ↦ rw e (without-IsSorted timer q s.1)
  | inr e ↦ rw e (without-All (λ y. cmp t y ≡ false) timer q s.0, without-IsSorted timer q s.1)
]

module _ (now : ℕ) where
  none_due : (q : TimerManager) → All (IsLater now) q → due now q ≡ []
  none_due [] a = refl
  none_due (t ∷ q) a = rw (lt→leb t.expired_time now a.0)

  -- Those that are due behind a removal were due before.
  due-without {ℓ} :
      (P : Timer → Type ℓ) (timer : ℕ) (q : TimerManager)
      → IsSorted q
      → All P (due now q)
      → All P (due now (without timer q))
        × (length (due now (without timer q)) ≤ length (due now q))
  due-without P timer [] s a = (tt, omega arith)
  due-without P timer (t ∷ q) s a = elim (dec_le t.expired_time now) [
    | yes is_due ↦
        let test = le→leb t.expired_time now is_due in
        let both : P t × All P (due now q) = rw test at a in
        let more = due-without P timer q s.1 both.1 in
        rw test (elim (Bool-cases (t.id == timer)) [
          | inl e ↦ rw e (more.0, omega (arith, more.1))
          | inr e ↦ rw (e, test) ((both.0, more.0), omega (arith, more.1))
        ])
    | no later ↦
        let after_ : All (IsLater now) (t ∷ q) =
          (omega arith, All-IsLater t q (omega arith) (top_first t q s)) in
        rw (none_due (without timer (t ∷ q)) (without-All (IsLater now) timer (t ∷ q) after_))
          (tt, omega arith)
  ]

  -- The same of several removals.
  due-remove_all {ℓ} :
      (P : Timer → Type ℓ) (timers : List ℕ) (q : TimerManager)
      → IsSorted q
      → All P (due now q)
      → IsSorted (remove_all timers q)
        × All P (due now (remove_all timers q))
        × (length (due now (remove_all timers q)) ≤ length (due now q))
  unfolding remove_all
  due-remove_all P [] q s a = (s, a, omega arith)
  due-remove_all P (timer ∷ timers) q s a =
      let one = due-without P timer q s a in
      let rest = due-remove_all P timers (without timer q) (without-IsSorted timer q s) one.0 in
      rw (remove_timer_lem timer q s) (rest.0, rest.1, omega (arith, one.1, rest.2))

  -- Whoever is not removed stays the top.
  top-remove_all :
      (timers : List ℕ) (t : Timer) (q : TimerManager)
      → IsSorted (t ∷ q)
      → holds t.id timers ≡ false
      → remove_all timers (t ∷ q) ≡ t ∷ remove_all timers q
  unfolding remove_all
  top-remove_all [] t q s h = refl
  top-remove_all (timer ∷ timers) t q s h =
      let other : (t.id == timer) ≡ false = ground arith in
      let others : holds t.id timers ≡ false = ground arith in
      let s' : IsSorted (without timer (t ∷ q)) = without-IsSorted timer (t ∷ q) s in
      let s'' : IsSorted (t ∷ without timer q) = rw other at s' in
      rw (remove_timer_lem timer (t ∷ q) s, remove_timer_lem timer q s.1, other)
        (top-remove_all timers t (without timer q) s'' others)

-- The callback of a timer does not remove that timer, whose interval is positive and in range.
abbrev pub IsGentle : Callbacks → ℕ → Timer → Type 0
IsGentle cs now t = (holds t.id (cs.removes t.callback) ≡ false) × IsTicking now t

-- A check that ends well: no timer is due behind it, and at most `n` callbacks ran.
abbrev pub EndsWell : ℕ → ℕ → Checked → Type 0
EndsWell now n r =
    (ran : List ℕ) × (left : TimerManager) × (r ≡ returns ran left)
    × All (IsLater now) left
    × IsSorted left
    × (length ran ≤ n)

module _ (cs : Callbacks) (now : ℕ) (added_later : (c : ℕ) → All (IsLater now) (cs.adds c)) where
  check_removing-EndsWell :
      (fuel : ℕ) (q : TimerManager)
      → length (due now q) < fuel
      → IsSorted q
      → All (IsGentle cs now) (due now q)
      → EndsWell now (length (due now q)) (check_removing cs fuel now q)
  unfolding check_removing
  check_removing-EndsWell zero q enough s gentle = absurd (omega arith)
  check_removing-EndsWell (suc fuel) [] enough s gentle = ([], [], refl, tt, tt, omega arith)
  check_removing-EndsWell (suc fuel) (t ∷ q) enough s gentle = elim (dec_le t.expired_time now) [
    | yes is_due ↦
        let test = le→leb t.expired_time now is_due in
        let both : IsGentle cs now t × All (IsGentle cs now) (due now q) = rw test at gentle in
        let later = added_later t.callback in
        let q1 : TimerManager = pushes (cs.adds t.callback) q in
        let s1 : IsSorted (t ∷ q1) =
          rw (pushes_behind now (cs.adds t.callback) t q later is_due) at
            (pushes-IsSorted cs.adds now added_later (cs.adds t.callback) (t ∷ q) s) in
        let all1 : All (IsGentle cs now) (due now q1) =
          rw (due-pushes now (cs.adds t.callback) q later) both.1 in
        let r = due-remove_all now (IsGentle cs now) (cs.removes t.callback) q1 s1.1 all1 in
        let q2 : TimerManager = remove_all (cs.removes t.callback) q1 in
        let same : due now (rearm now t q2) ≡ due now q2 = due-rearm now t q2 both.0.1 in
        let fewer : length (due now (rearm now t q2)) ≤ length (due now q) =
          omega
            (arith, ap length same, r.2, ap length (due-pushes now (cs.adds t.callback) q later)) in
        let more : suc (length (due now q)) < suc fuel = rw test at enough in
        let ih =
          check_removing-EndsWell fuel (rearm now t q2) (omega arith)
            (rearm-IsSorted cs.adds now added_later t q2 r.0) (rw same r.1) in
        rw
          (
            test,
            both.0.0,
            pushes_behind now (cs.adds t.callback) t q later is_due,
            top-remove_all now (cs.removes t.callback) t q1 s1 both.0.0,
            ih.2,
          )
          (t.callback ∷ ih.0, ih.1, refl, ih.3, ih.4, omega (arith, ih.5, fewer))
    | no later ↦ rw (lt→leb t.expired_time now (omega arith)) (
      [],
      t ∷ q,
      refl,
      (omega arith, All-IsLater t q (omega arith) (top_first t q s)),
      s,
      omega arith,
    )
  ]

  -- `CheckAndHandle` with callbacks that also remove timers: on an ordered queue it ends without using
  -- a timer that is gone, runs no more callbacks than there are due timers, and leaves an ordered
  -- queue in which none is due. No callback of a due timer may remove that timer; the timers that
  -- callbacks add are for later; and the due timers' intervals are positive and in range.
  pub check_ends :
      (q : TimerManager)
      → IsSorted q
      → All (IsGentle cs now) (due now q)
      → EndsWell now (length (due now q)) (check_removing cs (length q + 1) now q)
  check_ends q s gentle =
      check_removing-EndsWell (length q + 1) q (omega (arith, length-due now q)) s gentle
