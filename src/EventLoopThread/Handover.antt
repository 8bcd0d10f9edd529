-- ===== src/EventLoopThread/Handover.antt =====
-- `StartLoop` and `ThreadFunc`: the loop is handed over once its init callback has run.
use my_net_lib.Common.{
  Bool, List, Option, [], arith, false, none, not, refl, some, suc, true, zero, ℕ, ◌&&◌, ◌||◌, ◌∷◌,
  ◌≡◌,
}
use my_net_lib.EventLoopThread.{
  Owner, created, starting, checking, waiting, returned, destroying, quitting, waking, joining,
  gone, faulted, Runner, absent, spawned, ready, published, looping, polling, left, exited, System,
  initial, Act, owner_goes, runner_goes, wakes_up, poll_returns, user_quits, user_wakes, owner_step,
  runner_step, act, has_returned,
}

-- Where `loop_` points to the loop.
abbrev pub has_published : Runner → Bool
has_published published = true
has_published looping = true
has_published polling = true
has_published left = true
has_published _ = false

-- The thread is still before the section that publishes the loop.
abbrev pub is_early : Runner → Bool
is_early absent = true
is_early spawned = true
is_early ready = true
is_early _ = false

abbrev pub has_posted : Runner → Bool
has_posted absent = false
has_posted spawned = false
has_posted _ = true

-- The loop does not end before it is handed over.
abbrev is_running : Runner → Bool
is_running left = false
is_running exited = false
is_running _ = true

-- Where the thread can be while the owner stands at `o`.
abbrev pub may_be : Owner → Runner → Bool
may_be created absent = true
may_be created _ = false
may_be starting absent = false
may_be starting r = is_running r
may_be checking r = has_posted r && is_running r
may_be waiting ready = true
may_be waiting _ = false
may_be _ r = not (is_early r)

abbrev pub InvAt : Owner → Runner → System → Type 0
InvAt o r s =
    (s.has_loop ≡ has_published r)
    × (s.sem ≡ has_posted r)
    × (may_be o r ≡ true)
    × ((has_returned o || not s.quit_flag) ≡ true)

abbrev pub Inv : System → Type 0
Inv s = InvAt s.owner s.runner s

pub initial-Inv : Inv initial
initial-Inv = (refl, refl, refl, refl)

owner_step-Inv :
    (o : Owner) (s : System) {s' : System}
    → s.owner ≡ o
    → InvAt o s.runner s
    → owner_step o s ≡ some s'
    → Inv s'
unfolding owner_step
owner_step-Inv created s e i h = ground arith
owner_step-Inv starting s e i h = ground arith
owner_step-Inv checking s e i h = ground arith
owner_step-Inv waiting s e i h = cc
owner_step-Inv returned s e i h = ground arith
owner_step-Inv destroying s e i h = ground arith
owner_step-Inv quitting s e i h = ground arith
owner_step-Inv waking s e i h = ground arith
owner_step-Inv joining s e i h = ground arith
owner_step-Inv gone s e i h = cc
owner_step-Inv faulted s e i h = cc

runner_step-Inv :
    (r : Runner) (s : System) {s' : System}
    → s.runner ≡ r
    → InvAt s.owner r s
    → runner_step r s ≡ some s'
    → Inv s'
unfolding runner_step
runner_step-Inv absent s e i h = cc
runner_step-Inv spawned s e i h = ground arith
runner_step-Inv ready s e i h = ground arith
runner_step-Inv published s e i h = ground arith
runner_step-Inv looping s e i h = ground arith
runner_step-Inv polling s e i h = ground arith
runner_step-Inv left s e i h = ground arith
runner_step-Inv exited s e i h = cc

pub act-Inv : (a : Act) (s : System) {s' : System} → Inv s → act a s ≡ some s' → Inv s'
unfolding act
act-Inv owner_goes s i h = owner_step-Inv s.owner s refl i h
act-Inv runner_goes s i h = runner_step-Inv s.runner s refl i h
act-Inv wakes_up s i h = ground arith
act-Inv poll_returns s i h = ground arith
act-Inv user_quits s i h = ground arith
act-Inv user_wakes s i h = ground arith

-- The states that the two threads reach, in any order of their steps.
pub data Reach : System → Type 0 where
  start : Reach initial
  next : {s s' : System} (a : Act) → Reach s → act a s ≡ some s' → Reach s'

pub Reach-Inv : {s : System} → Reach s → Inv s
Reach-Inv start = initial-Inv
Reach-Inv (next {s} a r h) = act-Inv a s (Reach-Inv r) h

-- A thread that cannot go on stays where it is.
abbrev pub stays : System → Option System → System
stays s none = s
stays s (some s') = s'

-- One step of the thread, then one of the owner.
abbrev pub round : System → System
round s = let s' = stays s (act runner_goes s) in stays s' (act owner_goes s')

abbrev pub run : List Act → System → System
run [] s = s
run (a ∷ acts) s = run acts (stays s (act a s))

abbrev pub rounds : ℕ → System → System
rounds zero s = s
rounds (suc n) s = rounds n (round s)

returns :
    (o : Owner) (r : Runner) (sem has_loop exiting quit_flag woken : Bool)
    → InvAt o r (record {
      owner = o;
      runner = r;
      sem = sem;
      has_loop = has_loop;
      exiting = exiting;
      quit_flag = quit_flag;
      woken = woken;
    })
    → has_returned
        (rounds 3 (record {
          owner = o;
          runner = r;
          sem = sem;
          has_loop = has_loop;
          exiting = exiting;
          quit_flag = quit_flag;
          woken = woken;
        })).owner
      ≡ true
unfolding act owner_step runner_step
returns created r sem has_loop exiting quit_flag woken i = ground arith
returns o r sem has_loop exiting quit_flag woken i = ground arith

-- Wherever the two threads are, three rounds in which each goes once bring the owner out of
-- `StartLoop`: it does not sleep past the notification.
pub start_loop_ends : {s : System} → Reach s → has_returned (rounds 3 s).owner ≡ true
start_loop_ends {s} r =
    returns s.owner s.runner s.sem s.has_loop s.exiting s.quit_flag s.woken (Reach-Inv r)

-- The loop that `StartLoop` returns was published: the init callback has run on it.
pub handed_over : {s : System} → Reach s → has_returned s.owner ≡ true → is_early s.runner ≡ false
handed_over {s} r h = go s.owner (Reach-Inv r).2 h
  where
    go : (o : Owner) → may_be o s.runner ≡ true → has_returned o ≡ true → is_early s.runner ≡ false
    go o p h = ground arith
