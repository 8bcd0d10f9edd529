-- ===== src/PollPoller/Closed.antt =====
-- A closed connection in the array of `poll`, which reports POLLHUP whatever events are asked for.
use my_net_lib.Common.{
  List, [], ap, arith, false, get_elem?, get_elem?-set_self, if_true, length, lt→ltb, none, pos,
  refl, set, some, true, ℕ, ◌<◌, ◌∙◌, ◌∷◌, ◌≡◌,
}
use my_net_lib.Os.{Readv, Write}
use my_net_lib.Channel.{
  Channel, Events, is_empty, disable_all, set_revents, handle_event, close_call,
}
use my_net_lib.TcpConnection.{
  TcpConnection, Effect, Outcome, disconnected, updates_channel, calls_connection, calls_close,
}
use my_net_lib.TcpConnection.Closing.{is_closed}
use my_net_lib.TcpConnection.Watching.{closings}
use my_net_lib.TcpConnection.Dispatch.{handle_poll_event, run_calls, HasCallbacks}
use my_net_lib.PollPoller.{PollPoller, poll_fd_of, update_at, update_channel}

-- POLLHUP alone.
abbrev pub hangup : Events
hangup = record {
  pollin = false;
  pollpri = false;
  pollout = false;
  pollerr = false;
  pollhup = true;
}

-- The callbacks of a hang-up.
hangup_calls :
    (c : Channel) → HasCallbacks c → handle_event (set_revents c hangup) true ≡ close_call ∷ []
unfolding handle_event set_revents
hangup_calls c has = ground arith

-- With `poll`, a connection that is closed keeps its entry in the array, with its file descriptor and
-- no events, when its channel is updated. As long as `poll` reports the hang-up there, each event
-- calls the close callback of the closed connection again.
pub closes_again :
    (readv : Readv) (write : Write) (message_callback : TcpConnection → Outcome) (p : PollPoller)
    (channel idx : ℕ) (c : TcpConnection)
    → is_closed c ≡ true
    → HasCallbacks c.channel
    → p.channels channel ≡ c.channel
    → c.channel.index ≡ pos idx
    → idx < length p.poll_list
    → (p' : PollPoller) × (d : TcpConnection) × (es : List Effect) × (update_channel channel p
        ≡ some p')
      × (get_elem? p'.poll_list idx ≡ some (poll_fd_of c.channel))
      × (is_empty (poll_fd_of c.channel).events ≡ true)
      × (handle_poll_event readv write message_callback
            (record c { channel = set_revents c.channel hangup })
          ≡ some (d, es))
      × (closings es ≡ 1)
unfolding update_channel handle_poll_event run_calls
closes_again readv write message_callback p channel idx c closed has same at inside = (
  record p { poll_list = set p.poll_list idx (poll_fd_of (p.channels channel)) },
  record c { state = disconnected; channel = disable_all (set_revents c.channel hangup) },
  updates_channel ∷ calls_connection ∷ calls_close ∷ [],
  ap (λ (q : Channel). update_at q.index channel p) same
      ∙ ap (λ i. update_at i channel p) at
      ∙ if_true _ none (lt→ltb idx (length p.poll_list) inside),
  get_elem?-set_self p.poll_list idx (poll_fd_of (p.channels channel)) inside
      ∙ ap (λ (q : Channel). some (poll_fd_of q)) same,
  ground arith,
  rw (hangup_calls c.channel has) refl,
  refl,
)
