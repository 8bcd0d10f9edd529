-- ===== src/TimerManager/Repeats.antt =====
-- How often a timer runs.
use my_net_lib.Common.{
  List, Option, [], ap, arith, false, is_zero, length, le→leb, lt→leb, pos, refl, replicate, some,
  suc, zero, ℕ, ◌++◌, ◌+◌, ◌<◌, ◌>>=◌, ◌^◌, ◌∙◌, ◌∷◌, ◌≡◌, ◌≤◌,
}
use my_net_lib.Timer.{Timer}
use my_net_lib.TimerManager.{
  TimerManager, push, pushes, rearm, rearmed, check_loop, check_and_handle,
}

-- `CheckAndHandle` at each of the given times: the callbacks run, and the manager behind.
pub checks : (adds : ℕ → List Timer) → List ℕ → TimerManager → Option (List ℕ × TimerManager)
checks adds [] q = some ([], q)
checks adds (now ∷ times) q = do
  (ran, q') ← check_and_handle adds now q
  (ran', q'') ← checks adds times q'
  some (ran ++ ran', q'')

-- Each check comes when the timer is due, counted from `expired_time`, and within the clock's range.
abbrev pub AllDue : ℕ → ℕ → List ℕ → Type 0
AllDue interval expired_time [] = Unit {0}
AllDue interval expired_time (now ∷ times) =
    (expired_time ≤ now) × (now + interval < 2 ^ 64) × AllDue interval (now + interval) times

abbrev pub quiet : ℕ → List Timer
quiet c = []

check_once :
    (now : ℕ) (t : Timer)
    → t.expired_time ≤ now
    → t.repeated_times ≡ pos 0
    → check_and_handle quiet now (t ∷ []) ≡ some (t.callback ∷ [], [])
unfolding check_and_handle check_loop pushes rearm
check_once now t h e = rw (le→leb t.expired_time now h, e)

check_again :
    (now n : ℕ) (t : Timer)
    → t.expired_time ≤ now
    → t.repeated_times ≡ pos (suc n)
    → now < (rearmed now t).expired_time
    → check_and_handle quiet now (t ∷ []) ≡ some (t.callback ∷ [], rearmed now t ∷ [])
unfolding check_and_handle check_loop pushes rearm push
check_again now n t h e later =
    let more : is_zero t.repeated_times ≡ false = rw e (ground arith) in
    rw (le→leb t.expired_time now h, more, lt→leb (rearmed now t).expired_time now later)

rearmed-repeated_times :
    (now n : ℕ) (t : Timer)
    → t.repeated_times ≡ pos (suc n)
    → (rearmed now t).repeated_times ≡ pos n
unfolding rearmed
rearmed-repeated_times now n t e = rw e (ground arith)

rearmed-expired_time :
    (now k : ℕ) (t : Timer)
    → t.interval ≡ pos k
    → now + k < 2 ^ 64
    → (rearmed now t).expired_time ≡ now + k
unfolding rearmed
rearmed-expired_time now k t e h = rw e (omega arith)

rearmed-same :
    (now : ℕ) (t : Timer)
    → ((rearmed now t).callback ≡ t.callback) × ((rearmed now t).interval ≡ t.interval)
unfolding rearmed
rearmed-same now t = (refl, refl)

-- A timer made with `repeated_times` n, alone in the queue, runs at each of n + 1 checks that come
-- when it is due, and is gone behind the last.
pub checks_lem :
    (n k : ℕ) (t : Timer) (times : List ℕ)
    → 0 < k
    → t.interval ≡ pos k
    → t.repeated_times ≡ pos n
    → length times ≡ n + 1
    → AllDue k t.expired_time times
    → checks quiet times (t ∷ []) ≡ some (replicate (suc n) t.callback, [])
unfolding checks
checks_lem n k t [] hk i r l d = absurd (omega arith)
checks_lem zero k t (now ∷ []) hk i r l d = rw (check_once now t d.0 r)
checks_lem zero k t (now ∷ x ∷ times) hk i r l d = absurd (omega arith)
checks_lem (suc n) k t (now ∷ times) hk i r l d =
    let next : (rearmed now t).expired_time ≡ now + k = rearmed-expired_time now k t i d.1 in
    let again : check_and_handle quiet now (t ∷ []) ≡ some (t.callback ∷ [], rearmed now t ∷ []) =
      check_again now n t d.0 r (omega (arith, next, hk)) in
    let rest : checks quiet times (rearmed now t ∷ [])
        ≡ some (replicate (suc n) (rearmed now t).callback, []) =
      checks_lem n k (rearmed now t) times hk ((rearmed-same now t).1 ∙ i)
        (rearmed-repeated_times now n t r) (omega arith) (rw next d.2) in
    rw (again, rest) (ap (λ c. some (t.callback ∷ replicate (suc n) c, [])) (rearmed-same now t).0)
