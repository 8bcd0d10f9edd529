-- ===== src/Channel.antt =====
-- include/channel.h, src/channel.cc: the events that are wanted and received on a file descriptor.
-- An event mask is a bit set, with a field for each flag that the library tests.
pub mod Masks
pub mod Dispatch
mod Tests
use my_net_lib.Common.{
  Bool, List, [], false, if◌then◌else◌, negsuc, not, true, ℕ, ℤ, ◌&&◌, ◌++◌, ◌||◌, ◌∷◌,
}

-- POLLIN, POLLPRI, POLLOUT, POLLERR, POLLHUP; the epoll flags are the same bits. POLLNVAL, that poll(2)
-- reports for a descriptor that is not open, is left out.
pub record Events : Type 0 where
  pub pollin : Bool
  pub pollpri : Bool
  pub pollout : Bool
  pub pollerr : Bool
  pub pollhup : Bool

-- `kNoneEvent`, `kReadEvent` and `kWriteEvent`
abbrev pub none_event : Events
none_event = record {
  pollin = false;
  pollpri = false;
  pollout = false;
  pollerr = false;
  pollhup = false;
}

abbrev pub read_event : Events
read_event = record {
  pollin = true;
  pollpri = true;
  pollout = false;
  pollerr = false;
  pollhup = false;
}

abbrev pub write_event : Events
write_event = record {
  pollin = false;
  pollpri = false;
  pollout = true;
  pollerr = false;
  pollhup = false;
}

-- `a | b`
abbrev pub union : Events → Events → Events
union a b = record {
  pollin = a.pollin || b.pollin;
  pollpri = a.pollpri || b.pollpri;
  pollout = a.pollout || b.pollout;
  pollerr = a.pollerr || b.pollerr;
  pollhup = a.pollhup || b.pollhup;
}

-- `a & ~b`
abbrev pub minus : Events → Events → Events
minus a b = record {
  pollin = a.pollin && not b.pollin;
  pollpri = a.pollpri && not b.pollpri;
  pollout = a.pollout && not b.pollout;
  pollerr = a.pollerr && not b.pollerr;
  pollhup = a.pollhup && not b.pollhup;
}

-- `a & b` as a condition
abbrev pub meets : Events → Events → Bool
meets a b =
    (a.pollin && b.pollin)
    || ((a.pollpri && b.pollpri)
        || ((a.pollout && b.pollout) || ((a.pollerr && b.pollerr) || (a.pollhup && b.pollhup))))

-- `a == kNoneEvent`
abbrev pub is_empty : Events → Bool
is_empty a = not (a.pollin || (a.pollpri || (a.pollout || (a.pollerr || a.pollhup))))

-- Of a callback the channel knows whether it is set.
pub record Channel : Type 0 where
  pub fd : ℕ
  pub events : Events
  pub revents : Events
  pub index : ℤ
  pub tied : Bool
  pub has_read : Bool
  pub has_write : Bool
  pub has_close : Bool
  pub has_error : Bool

-- The constructor.
abbrev pub new_channel : ℕ → Channel
new_channel fd = record {
  fd = fd;
  events = none_event;
  revents = none_event;
  index = negsuc 0;
  tied = false;
  has_read = false;
  has_write = false;
  has_close = false;
  has_error = false;
}

abbrev pub is_none_event : Channel → Bool
is_none_event c = is_empty c.events

abbrev pub is_writing : Channel → Bool
is_writing c = meets c.events write_event

abbrev pub is_reading : Channel → Bool
is_reading c = meets c.events read_event

-- The changes of `events_`. The call of `Update` that follows each is the caller's.
unfoldable pub enable_read : Channel → Channel
enable_read c = record c { events = union c.events read_event }

unfoldable pub disable_read : Channel → Channel
disable_read c = record c { events = minus c.events read_event }

unfoldable pub enable_write : Channel → Channel
enable_write c = record c { events = union c.events write_event }

unfoldable pub disable_write : Channel → Channel
disable_write c = record c { events = minus c.events write_event }

unfoldable pub disable_all : Channel → Channel
disable_all c = record c { events = none_event }

unfoldable pub set_revents : Channel → Events → Channel
set_revents c received_events = record c { revents = received_events }

unfoldable pub set_index : Channel → ℤ → Channel
set_index c idx = record c { index = idx }

unfoldable pub tie : Channel → Channel
tie c = record c { tied = true }

-- The callbacks of a channel.
pub data Call : Type 0 where
  close_call error_call read_call write_call : Call

abbrev pub call_if : Bool → Call → List Call
call_if b c = if b then c ∷ [] else []

-- The callbacks that run, in order.
unfoldable pub handle_event_with_guard : Channel → List Call
handle_event_with_guard c =
    call_if ((r.pollhup && not r.pollin) && c.has_close) close_call
    ++ (call_if (r.pollerr && c.has_error) error_call
        ++ (call_if ((r.pollin || r.pollpri) && c.has_read) read_call
            ++ call_if (r.pollout && c.has_write) write_call))
  where
    r : Events
    r = c.revents

-- `alive`: whether `tie_.lock()` finds the owner.
unfoldable pub handle_event : Channel → Bool → List Call
unfolding handle_event_with_guard
handle_event c alive =
    if c.tied then (if alive then handle_event_with_guard c else []) else handle_event_with_guard c
