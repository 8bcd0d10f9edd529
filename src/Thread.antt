-- ===== src/Thread.antt =====
-- include/thread.h, src/thread.cc, include/current_thread.h, src/current_thread.cc: a thread, the
-- object that starts it, and its name. What the owner of the object does and what the new thread
-- does are interleaved steps; `Start` is called at most once.
pub mod Joined
pub mod Names
mod Tests
use my_net_lib.Common.{
  Bool, List, Option, [], false, if◌then◌else◌, none, not, some, take, true, ℕ, ◌&&◌, ◌++◌, ◌+◌,
  ◌==◌, ◌∷◌,
}
use my_net_lib.Decimal.{codes, decimal}

-- Where the owner stands: outside of the object's functions; at `sem_wait` in `Start`; at `join` in
-- `Join`.
pub data Holder : Type 0 where
  outside starting joining : Holder

-- Where the thread stands: not there yet; before the assignment of `tid_`; before `sem_post`; before
-- the call of `func_`; in that call; at its end. `faulted`: it used the object when that was gone.
pub data Body : Type 0 where
  absent spawned named posted running ended faulted : Body

-- `exists_`: the object has not been destroyed. `sem`: the semaphore of `Start`.
pub record System : Type 0 where
  pub holder : Holder
  pub body : Body
  pub exists_ : Bool
  pub started : Bool
  pub joined : Bool
  pub sem : Bool
  pub tid : ℕ

-- The constructor.
abbrev pub created : System
created = record {
  holder = outside;
  body = absent;
  exists_ = true;
  started = false;
  joined = false;
  sem = false;
  tid = 0;
}

abbrev pub is_ended : Body → Bool
is_ended ended = true
is_ended _ = false

-- `starts`, `joins` and `destroys` enter `Start`, `Join` and the destructor; `returns` leaves the one
-- in which the owner waits.
pub data Act : Type 0 where
  starts joins destroys returns body_goes : Act

unfoldable pub start_thread : Holder → System → Option System
start_thread outside s =
    if s.exists_ && not s.started
    then some (record s { holder = starting; body = spawned; started = true })
    else none
start_thread _ s = none

unfoldable pub join_thread : Holder → System → Option System
join_thread outside s =
    if s.exists_ && (s.started && not s.joined)
    then some (record s { holder = joining; joined = true })
    else none
join_thread _ s = none

-- A thread that was not joined is detached: it runs on.
unfoldable pub destroy_thread : Holder → System → Option System
destroy_thread outside s = if s.exists_ then some (record s { exists_ = false }) else none
destroy_thread _ s = none

unfoldable pub holder_returns : Holder → System → Option System
holder_returns outside s = none
holder_returns starting s = if s.sem then some (record s { holder = outside }) else none
holder_returns joining s = if is_ended s.body then some (record s { holder = outside }) else none

-- `CurrentThread::Tid` with the cached id of the calling thread.
unfoldable pub current_tid : (gettid cached_tid : ℕ) → ℕ
current_tid gettid cached_tid = if cached_tid == 0 then gettid else cached_tid

-- The lambda of `Start`; `func_` is a member of the object.
unfoldable pub body_step : (gettid : ℕ) → Body → System → Option System
unfolding current_tid
body_step gettid spawned s =
    if s.exists_
    then some (record s { body = named; tid = current_tid gettid 0 })
    else some (record s { body = faulted })
body_step gettid named s = some (record s { body = posted; sem = true })
body_step gettid posted s =
    if s.exists_ then some (record s { body = running }) else some (record s { body = faulted })
body_step gettid running s = some (record s { body = ended })
body_step gettid _ s = none

-- `none`: the step cannot be taken there.
unfoldable pub act : (gettid : ℕ) → Act → System → Option System
unfolding start_thread join_thread destroy_thread holder_returns body_step
act gettid starts s = start_thread s.holder s
act gettid joins s = join_thread s.holder s
act gettid destroys s = destroy_thread s.holder s
act gettid returns s = holder_returns s.holder s
act gettid body_goes s = body_step gettid s.body s

-- `SetDefaultName`, with `num_created_`: "Thread %d", cut to the 31 characters before the `\\0`.
unfoldable pub set_default_name : (num_created : ℕ) → (name : List ℕ) → ℕ × List ℕ
unfolding decimal
set_default_name num_created [] =
    (num_created + 1, take 31 (codes "Thread " ++ decimal (num_created + 1)))
set_default_name num_created (c ∷ cs) = (num_created + 1, c ∷ cs)
