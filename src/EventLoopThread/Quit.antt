-- ===== src/EventLoopThread/Quit.antt =====
-- The destructor: `Quit` and `Join`.
use my_net_lib.Common.{Bool, List, [], ap, ap₂, arith, false, not, refl, subst, sym, true, ◌∷◌, ◌≡◌}
use my_net_lib.EventLoopThread.{
  Owner, quitting, joining, gone, Runner, published, looping, polling, System, owner_step,
  runner_step, Act, owner_goes, runner_goes, wakes_up, poll_returns, user_quits, user_wakes, act,
}
use my_net_lib.EventLoopThread.Handover.{stays, run, rounds}

-- The loop tests `quit_` after the flag was set, or is in its poll.
abbrev pub is_in_loop : Runner → Bool
is_in_loop looping = true
is_in_loop polling = true
is_in_loop _ = false

ends :
    (r : Runner) (sem has_loop exiting woken : Bool)
    → is_in_loop r ≡ true
    → (rounds 5 (record {
      owner = quitting;
      runner = r;
      sem = sem;
      has_loop = has_loop;
      exiting = exiting;
      quit_flag = false;
      woken = woken;
    })).owner
      ≡ gone
unfolding act owner_step runner_step
ends looping sem has_loop exiting true h = refl
ends looping sem has_loop exiting false h = refl
ends polling sem has_loop exiting true h = refl
ends polling sem has_loop exiting false h = refl
ends _ sem has_loop exiting woken h = absurd (cc)

-- When the destructor comes to its `Quit` while the loop runs, also blocked in its poll, and nobody
-- else has called `Quit`: five rounds in which each thread goes once, and nothing else makes the poll
-- return, end the loop and bring the owner out of `Join`.
pub join_ends :
    (s : System)
    → s.owner ≡ quitting
    → is_in_loop s.runner ≡ true
    → s.quit_flag ≡ false
    → (rounds 5 s).owner ≡ gone
join_ends s e h q =
    subst
      (λ (p : Owner × Bool).
        (rounds 5 (record {
          owner = p.0;
          runner = s.runner;
          sem = s.sem;
          has_loop = s.has_loop;
          exiting = s.exiting;
          quit_flag = p.1;
          woken = s.woken;
        })).owner
        ≡ gone)
      (ap₂ (λ (o : Owner) (f : Bool). (o, f)) (sym e) (sym q))
      (ends s.runner s.sem s.has_loop s.exiting s.woken h)

-- The acts without those of a user of the loop that calls `Quit` again.
abbrev pub quits_again : List Act → Bool
quits_again [] = false
quits_again (user_quits ∷ acts) = true
quits_again (_ ∷ acts) = quits_again acts

-- The destructor waits, and the loop does not know that it is to end.
abbrev may_run_on : Runner → Bool → Bool
may_run_on published flag = true
may_run_on looping flag = not flag
may_run_on polling flag = not flag
may_run_on _ flag = false

abbrev IsStuck : System → Type 0
IsStuck s = (s.owner ≡ joining) × (may_run_on s.runner s.quit_flag ≡ true)

IsStuck-act :
    (a : Act) (s : System) → quits_again (a ∷ []) ≡ false → IsStuck s → IsStuck (stays s (act a s))
unfolding act owner_step runner_step
IsStuck-act owner_goes s n k = ground arith
IsStuck-act runner_goes s n k = ground arith
IsStuck-act wakes_up s n k = ground arith
IsStuck-act poll_returns s n k = ground arith
IsStuck-act user_quits s n k = absurd (cc)
IsStuck-act user_wakes s n k = ground arith

IsStuck-run :
    (acts : List Act) (s : System)
    → quits_again acts ≡ false
    → IsStuck s
    → (run acts s).owner ≡ joining
IsStuck-run [] s n k = k.0
IsStuck-run (a ∷ acts) s n k =
    IsStuck-run acts (stays s (act a s)) (others a n) (IsStuck-act a s (this a n) k)
  where
    this : (a : Act) → quits_again (a ∷ acts) ≡ false → quits_again (a ∷ []) ≡ false
    this a n = ground arith

    others : (a : Act) → quits_again (a ∷ acts) ≡ false → quits_again acts ≡ false
    others a n = ground arith

-- When the destructor's `Quit` comes before `Loop()`, which sets `quit_` back, the destructor waits
-- for ever in `Join`, whatever the threads do then and however often the poll returns, unless
-- somebody else calls `Quit`.
pub quit_lost :
    (acts : List Act) (s : System)
    → s.owner ≡ joining
    → s.runner ≡ published
    → quits_again acts ≡ false
    → (run acts s).owner ≡ joining
quit_lost acts s e p n = IsStuck-run acts s n (e, ap (λ r. may_run_on r s.quit_flag) p)
