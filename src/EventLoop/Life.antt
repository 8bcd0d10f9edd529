-- ===== src/EventLoop/Life.antt =====
-- Every history of a loop: its functors, its wakeups and its end.
use my_net_lib.Common.{
  List-cases, [], arith, false, inl, inr, refl, some, subst, true, ◌++◌, ◌+◌, ◌<◌, ◌||◌, ◌≡◌, ◌≢◌,
  ◌⊎◌,
}
use my_net_lib.EventLoop.System.{System, initial, Act, polling, taken, act}
use my_net_lib.EventLoop.Inv.{is_nil, InvAt, Inv, is_early, is_woken, initial-Inv, act-Inv}

-- The systems that threads can reach, with callbacks of timers that leave their own loop alone.
pub data Reach : System → Type 0 where
  start : Reach initial
  next :
      {s s' : System} (a : Act) → Reach s → is_early a s.pc ≡ false → act a s ≡ some s' → Reach s'

pub Reach-Inv : {s : System} → Reach s → Inv s
Reach-Inv start = initial-Inv
Reach-Inv (next {s} a r q h) = act-Inv a s (Reach-Inv r) q h

-- In every history in which callbacks of timers leave their own loop alone, whatever the threads
-- queue runs in the order of the queue, each once: what ran, what the loop took out to run and what is
-- pending are what was queued.
pub functors_in_order :
    {s : System} → Reach s → s.ran ++ (taken s.pc ++ s.loop.pending_functors) ≡ s.queued
functors_in_order r = (Reach-Inv r).fifo

-- No wakeup is lost: when the loop is about to block in the poll with a functor pending or with
-- `quit_` set, the eventfd is readable, or a thread is about to write to it. The callbacks of timers
-- are excepted: they must not call `QueueInLoop` or `Quit` of their own loop.
pub blocked-woken :
    {s : System}
    → Reach s
    → s.pc ≡ polling
    → (s.loop.pending_functors ≢ []) ⊎ (s.loop.quit_flag ≡ true)
    → 0 < s.loop.wake + s.wakers
blocked-woken {s} r e (inl p) =
    let i : InvAt polling s = subst (λ pc. InvAt pc s) e (Reach-Inv r) in
    let w = i.waiting refl in
    elim (List-cases s.loop.pending_functors) [
      | inl e ↦ absurd (p e)
      | inr (f, fs, e) ↦
          let w' : is_woken s ≡ true = subst (λ fs. (is_nil fs || is_woken s) ≡ true) e w in
          ground arith
    ]
blocked-woken {s} r e (inr q) =
    let i : InvAt polling s = subst (λ pc. InvAt pc s) e (Reach-Inv r) in
    let w = i.sleeping refl q in ground arith
