-- ===== src/Thread/Joined.antt =====
-- What the owner of a thread may rely on.
use my_net_lib.Common.{Bool, arith, false, not, refl, some, true, ℕ, ◌&&◌, ◌==◌, ◌≡◌}
use my_net_lib.Thread.{
  Holder, outside, starting, joining, Body, absent, spawned, named, posted, running, ended, faulted,
  System, created, Act, starts, joins, destroys, returns, body_goes, act, start_thread, join_thread,
  destroy_thread, holder_returns, body_step, is_ended,
}

-- The object is destroyed only when its thread was never started, or was joined.
abbrev pub IsCareful : Act → System → Type 0
IsCareful destroys s = (s.started && not s.joined) ≡ false
IsCareful _ s = Unit {0}

pub data Reach (gettid : ℕ) : System → Type 0 where
  new : Reach gettid created
  next :
      {s s' : System} (a : Act)
      → Reach gettid s
      → IsCareful a s
      → act gettid a s ≡ some s'
      → Reach gettid s'

abbrev has_posted : Body → Bool
has_posted posted = true
has_posted running = true
has_posted ended = true
has_posted _ = false

-- Where the thread can be.
abbrev may_be : Holder → (started exists_ joined : Bool) → Body → Bool
may_be outside false _ false absent = true
may_be outside false _ _ _ = false
may_be outside true true false r = has_posted r
may_be outside true _ true ended = true
may_be outside true _ _ _ = false
may_be starting true true false absent = false
may_be starting true true false faulted = false
may_be starting true true false r = true
may_be joining true true true r = has_posted r
may_be _ _ _ _ _ = false

abbrev known_tid : ℕ → Body → ℕ
known_tid gettid absent = 0
known_tid gettid spawned = 0
known_tid gettid _ = gettid

abbrev InvAt : ℕ → Holder → Body → System → Type 0
InvAt gettid o r s =
    (may_be o s.started s.exists_ s.joined r ≡ true)
    × (s.sem ≡ has_posted r)
    × (s.tid ≡ known_tid gettid r)

start_thread-Inv :
    (gettid : ℕ) (o : Holder) (s : System) {s' : System}
    → s.holder ≡ o
    → InvAt gettid o s.body s
    → start_thread o s ≡ some s'
    → InvAt gettid s'.holder s'.body s'
unfolding start_thread
start_thread-Inv gettid outside s e i h = ground arith
start_thread-Inv gettid starting s e i h = ground arith
start_thread-Inv gettid joining s e i h = ground arith

join_thread-Inv :
    (gettid : ℕ) (o : Holder) (s : System) {s' : System}
    → s.holder ≡ o
    → InvAt gettid o s.body s
    → join_thread o s ≡ some s'
    → InvAt gettid s'.holder s'.body s'
unfolding join_thread
join_thread-Inv gettid outside s e i h = ground arith
join_thread-Inv gettid starting s e i h = ground arith
join_thread-Inv gettid joining s e i h = ground arith

holder_returns-Inv :
    (gettid : ℕ) (o : Holder) (s : System) {s' : System}
    → s.holder ≡ o
    → InvAt gettid o s.body s
    → holder_returns o s ≡ some s'
    → InvAt gettid s'.holder s'.body s'
unfolding holder_returns
holder_returns-Inv gettid outside s e i h = ground arith
holder_returns-Inv gettid starting s e i h = ground arith
holder_returns-Inv gettid joining s e i h = ground arith

destroy_thread-Inv :
    (gettid : ℕ) (o : Holder) (s : System) {s' : System}
    → s.holder ≡ o
    → InvAt gettid o s.body s
    → (s.started && not s.joined) ≡ false
    → destroy_thread o s ≡ some s'
    → InvAt gettid s'.holder s'.body s'
unfolding destroy_thread
destroy_thread-Inv gettid outside s e i careful h = ground arith
destroy_thread-Inv gettid starting s e i careful h = ground arith
destroy_thread-Inv gettid joining s e i careful h = ground arith

body_step-Inv :
    (gettid : ℕ) (o : Holder) (r : Body) (s : System) {s' : System}
    → s.holder ≡ o
    → s.body ≡ r
    → InvAt gettid o r s
    → body_step gettid r s ≡ some s'
    → InvAt gettid s'.holder s'.body s'
unfolding body_step
body_step-Inv gettid o absent s e e' i h = cc
body_step-Inv gettid outside spawned s e e' i h = ground arith
body_step-Inv gettid starting spawned s e e' i h = ground arith
body_step-Inv gettid joining spawned s e e' i h = ground arith
body_step-Inv gettid outside named s e e' i h = ground arith
body_step-Inv gettid starting named s e e' i h = ground arith
body_step-Inv gettid joining named s e e' i h = ground arith
body_step-Inv gettid outside posted s e e' i h = ground arith
body_step-Inv gettid starting posted s e e' i h = ground arith
body_step-Inv gettid joining posted s e e' i h = ground arith
body_step-Inv gettid outside running s e e' i h = ground arith
body_step-Inv gettid starting running s e e' i h = ground arith
body_step-Inv gettid joining running s e e' i h = ground arith
body_step-Inv gettid o ended s e e' i h = cc
body_step-Inv gettid o faulted s e e' i h = cc

Reach-Inv : {gettid : ℕ} {s : System} → Reach gettid s → InvAt gettid s.holder s.body s
unfolding act
Reach-Inv new = (refl, refl, refl)
Reach-Inv {gettid} (next {s} starts r c h) = start_thread-Inv gettid s.holder s refl (Reach-Inv r) h
Reach-Inv {gettid} (next {s} joins r c h) = join_thread-Inv gettid s.holder s refl (Reach-Inv r) h
Reach-Inv {gettid} (next {s} destroys r c h) =
    destroy_thread-Inv gettid s.holder s refl (Reach-Inv r) c h
Reach-Inv {gettid} (next {s} returns r c h) =
    holder_returns-Inv gettid s.holder s refl (Reach-Inv r) h
Reach-Inv {gettid} (next {s} body_goes r c h) =
    body_step-Inv gettid s.holder s.body s refl refl (Reach-Inv r) h

abbrev pub is_faulted : Body → Bool
is_faulted faulted = true
is_faulted _ = false

abbrev pub is_outside : Holder → Bool
is_outside outside = true
is_outside _ = false

-- What the invariant says of each place.
thread_at :
    (gettid : ℕ) (o : Holder) (r : Body) (s : System)
    → InvAt gettid o r s
    → (is_faulted r ≡ false)
      × ((is_outside o && s.started && not (s.tid == gettid)) ≡ false)
      × ((is_outside o && s.joined && not (is_ended r)) ≡ false)
thread_at gettid outside absent s i = ground arith
thread_at gettid o r s i = ground arith

-- If a thread that was started is joined before its object is destroyed, it never uses the object
-- when that is gone. Behind `Start` the object knows the id of its thread, and behind `Join` the
-- thread has ended.
pub thread_lem :
    {gettid : ℕ} {s : System}
    → Reach gettid s
    → (is_faulted s.body ≡ false)
      × ((is_outside s.holder && s.started && not (s.tid == gettid)) ≡ false)
      × ((is_outside s.holder && s.joined && not (is_ended s.body)) ≡ false)
thread_lem {gettid} {s} r = thread_at gettid s.holder s.body s (Reach-Inv r)
