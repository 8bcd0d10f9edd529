-- ===== src/EventLoop/Inv.antt =====
-- What holds between the steps of the loop's thread and of the threads that call it.
use my_net_lib.Common.{
  Bool, Bool-cases, List, [], ap, append-end, append-nil, append_assoc, arith, else_case, false,
  inl, inr, ltb, lt→ltb, none, refl, some, subst, then_case, true, ℕ, ◌++◌, ◌+◌, ◌-◌, ◌<◌, ◌==◌,
  ◌||◌, ◌∙◌, ◌∷◌, ◌≡◌,
}
use my_net_lib.EventLoop.{
  EventLoop, wakeup, handle_read, emplace, queue_in_loop, quit, begin_loop, end_loop, set_calling,
  swap_functors,
}
use my_net_lib.EventLoop.System.{
  Pc, idle, testing, timers, polling, io, swapping, running, stopped, System, initial, Act,
  other_queues, other_quits, other_wakes, begins, tests, timers_done, poll_returns, reads_wakeup,
  io_done, swaps, runs_functor, functors_done, queues, quits, in_callback, taken, loop_step, act,
}

abbrev pub is_nil : List ℕ → Bool
is_nil [] = true
is_nil (x ∷ xs) = false

-- The eventfd is readable, or a thread is about to write to it.
abbrev pub is_woken : System → Bool
is_woken s = ltb 0 (s.loop.wake + s.wakers)

-- Where `calling_pending_functors_` is set.
abbrev calling_at : Pc → Bool
calling_at swapping = true
calling_at (running fs) = true
calling_at _ = false

-- Where the next poll comes before the next swap.
abbrev waits : Pc → Bool
waits idle = true
waits testing = true
waits timers = true
waits polling = true
waits (running fs) = true
waits _ = false

-- Where the next poll comes before the next test of `quit_`.
abbrev sleeps : Pc → Bool
sleeps timers = true
sleeps polling = true
sleeps _ = false

-- The invariant of a system whose loop stands at `pc`.
pub record InvAt (pc : Pc) (s : System) : Type 0 where
  pub fifo : s.ran ++ (taken pc ++ s.loop.pending_functors) ≡ s.queued
  pub calling : s.loop.calling_pending_functors ≡ calling_at pc
  pub waiting : waits pc ≡ true → (is_nil s.loop.pending_functors || is_woken s) ≡ true
  pub sleeping : sleeps pc ≡ true → s.loop.quit_flag ≡ true → is_woken s ≡ true

abbrev pub Inv : System → Type 0
Inv s = InvAt s.pc s

-- A callback of a timer that calls `QueueInLoop` or `Quit` of its own loop.
abbrev pub is_early : Act → Pc → Bool
is_early (queues cb) timers = true
is_early quits timers = true
is_early a pc = false

arrives : {s s' : System} → Inv s → some s ≡ some s' → Inv s'
arrives {s} {s'} i h = subst Inv (cc h) i

pub initial-Inv : Inv initial
initial-Inv = record {
  fifo = refl;
  calling = refl;
  waiting = λ e. refl;
  sleeping = λ e q. absurd (cc);
}

loop_step-Inv :
    (a : Act) (pc : Pc) (s : System) {s' : System}
    → InvAt pc s
    → loop_step a pc s ≡ some s'
    → Inv s'
unfolding loop_step begin_loop end_loop handle_read set_calling swap_functors
loop_step-Inv begins idle s i h =
    arrives
      (record {
        fifo = i.fifo;
        calling = i.calling;
        waiting = λ w. i.waiting refl;
        sleeping = λ w q. absurd (cc);
      })
      h
loop_step-Inv tests testing s {s'} i h = elim (Bool-cases s.loop.quit_flag) [
  | inl e ↦
      arrives {s = record s { loop = end_loop s.loop; pc = stopped }}
        (record {
          fifo = i.fifo;
          calling = i.calling;
          waiting = λ w. absurd (cc);
          sleeping = λ w q. absurd (cc);
        })
        (then_case _ e h)
  | inr e ↦
      arrives {s = record s { pc = timers }}
        (record {
          fifo = i.fifo;
          calling = i.calling;
          waiting = λ w. i.waiting refl;
          sleeping = λ w q. absurd (cc);
        })
        (else_case _ e h)
]
loop_step-Inv timers_done timers s i h =
    arrives
      (record {
        fifo = i.fifo;
        calling = i.calling;
        waiting = λ w. i.waiting refl;
        sleeping = λ w q. i.sleeping refl q;
      })
      h
loop_step-Inv poll_returns polling s i h =
    arrives {s = record s { pc = io (ltb 0 s.loop.wake) }}
      (record {
        fifo = i.fifo;
        calling = i.calling;
        waiting = λ w. absurd (cc);
        sleeping = λ w q. absurd (cc);
      })
      h
loop_step-Inv reads_wakeup (io true) s i h =
    arrives
      (record {
        fifo = i.fifo;
        calling = i.calling;
        waiting = λ w. absurd (cc);
        sleeping = λ w q. absurd (cc);
      })
      h
loop_step-Inv io_done (io false) s i h =
    arrives {s = record s { loop = set_calling true s.loop; pc = swapping }}
      (record {
        fifo = i.fifo;
        calling = refl;
        waiting = λ w. absurd (cc);
        sleeping = λ w q. absurd (cc);
      })
      h
loop_step-Inv swaps swapping s i h =
    arrives {s = record s { loop = (swap_functors s.loop).0; pc = running s.loop.pending_functors }}
      (record {
        fifo = ap (λ t. s.ran ++ t) (append-nil s.loop.pending_functors) ∙ i.fifo;
        calling = i.calling;
        waiting = λ w. refl;
        sleeping = λ w q. absurd (cc);
      })
      h
loop_step-Inv runs_functor (running (f ∷ fs)) s i h =
    arrives {s = record s { pc = running fs; ran = s.ran ++ f ∷ [] }}
      (record {
        fifo = append_assoc s.ran (f ∷ []) (fs ++ s.loop.pending_functors) ∙ i.fifo;
        calling = i.calling;
        waiting = λ w. i.waiting refl;
        sleeping = λ w q. absurd (cc);
      })
      h
loop_step-Inv functors_done (running []) s i h =
    arrives {s = record s { loop = set_calling false s.loop; pc = testing }}
      (record {
        fifo = i.fifo;
        calling = refl;
        waiting = λ w. i.waiting refl;
        sleeping = λ w q. absurd (cc);
      })
      h
loop_step-Inv _ _ s i h = absurd (cc)

or_woken : (fs : List ℕ) (n : ℕ) → 0 < n → (is_nil fs || ltb 0 n) ≡ true
or_woken fs n h = ground arith

queue-pending :
    (cb : ℕ) (l : EventLoop)
    → (queue_in_loop true cb l).pending_functors ≡ l.pending_functors ++ cb ∷ []
unfolding queue_in_loop emplace wakeup
queue-pending cb l = ground arith

queue-calling :
    (cb : ℕ) (l : EventLoop)
    → (queue_in_loop true cb l).calling_pending_functors ≡ l.calling_pending_functors
unfolding queue_in_loop emplace wakeup
queue-calling cb l = ground arith

queue-wake :
    (cb : ℕ) (l : EventLoop)
    → l.calling_pending_functors ≡ true
    → 0 < (queue_in_loop true cb l).wake
unfolding queue_in_loop emplace wakeup
queue-wake cb l h = ground arith

queues-InvAt :
    (cb : ℕ) (pc : Pc) (s : System)
    → InvAt pc s
    → in_callback pc ≡ true
    → is_early (queues cb) pc ≡ false
    → InvAt pc (record s { loop = queue_in_loop true cb s.loop; queued = s.queued ++ cb ∷ [] })
queues-InvAt cb timers s i c q = absurd (cc)
queues-InvAt cb (io w) s i c q = record {
  fifo =
      ap (λ t. s.ran ++ t) (queue-pending cb s.loop)
      ∙ append-end s.ran [] s.loop.pending_functors s.queued (cb ∷ []) i.fifo;
  calling = queue-calling cb s.loop ∙ i.calling;
  waiting = λ w. absurd (cc);
  sleeping = λ w q. absurd (cc);
}
queues-InvAt cb (running fs) s i c q = record {
  fifo =
      ap (λ t. s.ran ++ (fs ++ t)) (queue-pending cb s.loop)
      ∙ append-end s.ran fs s.loop.pending_functors s.queued (cb ∷ []) i.fifo;
  calling = queue-calling cb s.loop ∙ i.calling;
  waiting = λ w.
      or_woken (queue_in_loop true cb s.loop).pending_functors
        ((queue_in_loop true cb s.loop).wake + s.wakers)
        (omega (arith, queue-wake cb s.loop i.calling));
  sleeping = λ w q. absurd (cc);
}
queues-InvAt cb _ s i c q = absurd (cc)

quits-InvAt :
    (pc : Pc) (s : System)
    → InvAt pc s
    → in_callback pc ≡ true
    → is_early quits pc ≡ false
    → InvAt pc (record s { loop = quit true s.loop })
unfolding quit
quits-InvAt timers s i c q = absurd (cc)
quits-InvAt (io w) s i c q = record {
  fifo = i.fifo;
  calling = i.calling;
  waiting = λ w. absurd (cc);
  sleeping = λ w q. absurd (cc);
}
quits-InvAt (running fs) s i c q = record {
  fifo = i.fifo;
  calling = i.calling;
  waiting = λ w. i.waiting refl;
  sleeping = λ w q. absurd (cc);
}
quits-InvAt _ s i c q = absurd (cc)

pub act-Inv :
    (a : Act) (s : System) {s' : System}
    → Inv s
    → is_early a s.pc ≡ false
    → act a s ≡ some s'
    → Inv s'
unfolding act emplace wakeup quit
act-Inv (other_queues cb) s i q h =
    arrives
      (record {
        fifo = append-end s.ran (taken s.pc) s.loop.pending_functors s.queued (cb ∷ []) i.fifo;
        calling = i.calling;
        waiting = λ w.
            or_woken (s.loop.pending_functors ++ cb ∷ []) (s.loop.wake + (s.wakers + 1))
              (omega arith);
        sleeping = λ w q. lt→ltb 0 (s.loop.wake + (s.wakers + 1)) (omega arith);
      })
      h
act-Inv other_quits s i q h =
    arrives
      (record {
        fifo = i.fifo;
        calling = i.calling;
        waiting =
            λ w. or_woken s.loop.pending_functors (s.loop.wake + (s.wakers + 1)) (omega arith);
        sleeping = λ w q. lt→ltb 0 (s.loop.wake + (s.wakers + 1)) (omega arith);
      })
      h
act-Inv other_wakes s {s'} i q h = elim (Bool-cases (s.wakers == 0)) [
  | inl e ↦ let h' : none ≡ some s' = then_case _ e h in absurd (cc)
  | inr e ↦
      arrives {s = record s { loop = wakeup s.loop; wakers = s.wakers - 1 }}
        (record {
          fifo = i.fifo;
          calling = i.calling;
          waiting = λ w.
              or_woken s.loop.pending_functors (s.loop.wake + 1 + (s.wakers - 1)) (omega arith);
          sleeping = λ w q. lt→ltb 0 (s.loop.wake + 1 + (s.wakers - 1)) (omega arith);
        })
        (else_case _ e h)
]
act-Inv (queues cb) s {s'} i q h = elim (Bool-cases (in_callback s.pc)) [
  | inl e ↦
      arrives {s = record s { loop = queue_in_loop true cb s.loop; queued = s.queued ++ cb ∷ [] }}
        (queues-InvAt cb s.pc s i e q) (then_case _ e h)
  | inr e ↦ absurd (cc)
]
act-Inv quits s {s'} i q h = elim (Bool-cases (in_callback s.pc)) [
  | inl e ↦
      arrives {s = record s { loop = quit true s.loop }} (quits-InvAt s.pc s i e q)
        (then_case _ e h)
  | inr e ↦ absurd (cc)
]
act-Inv a s i q h = loop_step-Inv a s.pc s i h
