-- ===== src/TimerManager/Removing.antt =====
-- `CheckAndHandle` when callbacks remove timers.
pub mod Ends
use my_net_lib.Common.{
  Bool, Bool-cases, List, Option, [], ap, arith, false, if◌then◌else◌, inl, inr, leb, length,
  le→leb, none, refl, some, suc, true, zero, ℕ, ◌+◌, ◌==◌, ◌>>=◌, ◌||◌, ◌∙◌, ◌∷◌, ◌≡◌, ◌≤◌,
}
use my_net_lib.Timer.{Timer}
use my_net_lib.TimerManager.{
  TimerManager, cmp, push, pushes, pop, rearmed, rearm, remove_timer, check_loop, check_and_handle,
}
use my_net_lib.TimerManager.Order.{All, IsSorted, top_first}
use my_net_lib.TimerManager.Remove.{without, remove_timer_lem}
use my_net_lib.TimerManager.Check.{
  IsLater, IsTicking, due, All-IsLater, pushes_behind, due-pushes, due-rearm, length-due,
  pushes-IsSorted, rearm-IsSorted,
}

-- What a callback does to the timers: those that it adds, and those that it removes then.
pub record Callbacks : Type 0 where
  pub adds : ℕ → List Timer
  pub removes : ℕ → List ℕ

unfoldable pub remove_all : List ℕ → TimerManager → TimerManager
unfolding remove_timer
remove_all [] q = q
remove_all (timer ∷ timers) q = remove_all timers (remove_timer timer q)

abbrev pub holds : ℕ → List ℕ → Bool
holds timer [] = false
holds timer (x ∷ xs) = (timer == x) || holds timer xs

-- The callbacks that ran, and the timers behind. `uses_freed`: a timer is used behind its `delete`.
pub data Checked : Type 0 where
  returns : List ℕ → TimerManager → Checked
  uses_freed : Checked
  no_fuel : Checked

abbrev pub also_ran : ℕ → Checked → Checked
also_ran callback (returns ran q) = returns (callback ∷ ran) q
also_ran callback uses_freed = uses_freed
also_ran callback no_fuel = no_fuel

-- The round of a timer behind `Run`: `RepeatTimes` reads the timer.
unfoldable pub check_removing : Callbacks → (fuel now : ℕ) → TimerManager → Checked
unfolding rearm pushes remove_all
check_removing cs zero now q = no_fuel
check_removing cs (suc fuel) now [] = returns [] []
check_removing cs (suc fuel) now (t ∷ q) =
    let c = t.callback in
    let q' = remove_all (cs.removes c) (pushes (cs.adds c) (t ∷ q)) in
    let rest = check_removing cs fuel now (rearm now t (pop q')) in
    if leb t.expired_time now
    then (if holds t.id (cs.removes c) then uses_freed else also_ran c rest)
    else returns [] (t ∷ q)

-- A callback that removes its own timer makes `CheckAndHandle` use it behind its `delete`.
pub removes_itself :
    (cs : Callbacks) (now : ℕ) (t : Timer) (q : TimerManager)
    → t.expired_time ≤ now
    → holds t.id (cs.removes t.callback) ≡ true
    → check_removing cs (length (t ∷ q) + 1) now (t ∷ q) ≡ uses_freed
unfolding check_removing
removes_itself cs now t q is_due own =
    let e : length (t ∷ q) + 1 ≡ suc (length (t ∷ q)) = omega arith in
    rw (e, le→leb t.expired_time now is_due, own)

abbrev to_checked : Option (List ℕ × TimerManager) → Checked
to_checked none = no_fuel
to_checked (some (ran, q)) = returns ran q

to_checked-also_ran :
    (c : ℕ) (r : Option (List ℕ × TimerManager))
    → also_ran c (to_checked r)
      ≡ to_checked (◌>>=◌ {B = List ℕ × TimerManager} r λ x. some (c ∷ x.0, x.1))
to_checked-also_ran c none = refl
to_checked-also_ran c (some (ran, q)) = refl

-- Where callbacks remove nothing, this is the check of the parent module.
pub check_removing_nothing :
    (adds : ℕ → List Timer) (fuel now : ℕ) (q : TimerManager)
    → check_removing (record { adds = adds; removes = λ c. [] }) fuel now q
      ≡ to_checked (check_loop adds fuel now q)
unfolding check_removing check_loop
check_removing_nothing adds zero now q = refl
check_removing_nothing adds (suc fuel) now [] = refl
check_removing_nothing adds (suc fuel) now (t ∷ q) = elim (Bool-cases (leb t.expired_time now)) [
  | inl e ↦ rw e (
      ap (also_ran t.callback) (
        check_removing_nothing adds fuel now (rearm now t (pop (pushes (adds t.callback) (t ∷ q)))))
      ∙ to_checked-also_ran t.callback
          (check_loop adds fuel now (rearm now t (pop (pushes (adds t.callback) (t ∷ q))))))
  | inr e ↦ rw e
]
