-- ===== src/Channel/Dispatch.antt =====
-- Which callbacks an event runs.
use my_net_lib.Common.{
  Bool, List, [], arith, false, if◌then◌else◌, not, suc, true, ℕ, ◌&&◌, ◌||◌, ◌∷◌, ◌≡◌,
}
use my_net_lib.Channel.{Channel, Call, close_call, error_call, read_call, write_call, handle_event}

-- Whether, and how often, a callback runs.
abbrev same_call : Call → Call → Bool
same_call close_call close_call = true
same_call error_call error_call = true
same_call read_call read_call = true
same_call write_call write_call = true
same_call _ _ = false

abbrev pub times : Call → List Call → ℕ
times k [] = 0
times k (c ∷ cs) = if same_call k c then suc (times k cs) else times k cs

abbrev pub once_if : Bool → ℕ
once_if b = if b then 1 else 0

-- Whether the owner of the channel is gone.
abbrev pub is_orphan : Channel → Bool → Bool
is_orphan c alive = c.tied && not alive

-- Of a channel with all callbacks set, each runs at most once in `HandleEvent`: none if its owner
-- is gone; else read on POLLIN or POLLPRI, write on POLLOUT, error on POLLERR, and close on POLLHUP
-- unless there is still input to read.
pub handle_event_calls :
    (c : Channel) (alive : Bool)
    → c.has_read ≡ true
    → c.has_write ≡ true
    → c.has_close ≡ true
    → c.has_error ≡ true
    → let calls = handle_event c alive in
      let live = not (is_orphan c alive) in
      (times close_call calls ≡ once_if (live && (c.revents.pollhup && not c.revents.pollin)))
      × (times error_call calls ≡ once_if (live && c.revents.pollerr))
      × (times read_call calls ≡ once_if (live && (c.revents.pollin || c.revents.pollpri)))
      × (times write_call calls ≡ once_if (live && c.revents.pollout))
unfolding handle_event
handle_event_calls c alive hr hw hc he = (ground arith, ground arith, ground arith, ground arith)
