-- ===== src/PollPoller/Tests.antt =====
-- A poller at concrete inputs.
use my_net_lib.Common.{
  List, [], arith, get_elem?, if◌then◌else◌, negsuc, none, pos, refl, some, some_eq, subst, suc,
  true, zero, ℕ, ℤ, ◌==◌, ◌∷◌, ◌≡◌,
}
use my_net_lib.Channel.{
  disable_all, Channel, set_index, set_revents, is_empty, new_channel, read_event, none_event,
}
use my_net_lib.Os.{done}
use my_net_lib.PollPoller.Active.{polling_lem}
use my_net_lib.PollPoller.{polling, PollFd, PollPoller, poll_fd_of, update_channel, remove_channel}
use my_net_lib.PollPoller.Closed.{hangup, closes_again}
use my_net_lib.TcpConnection.{TcpConnection, Effect, new_connection}
use my_net_lib.TcpConnection.Stream.{shut}
use my_net_lib.TcpConnection.Watching.{closings}
use my_net_lib.TcpConnection.Dispatch.{handle_poll_event}
use my_net_lib.PollPoller.Slots.{Slot, Slots}
use my_net_lib.PollPoller.Remove.{Vacated, remove_channel-Vacated}

-- The channels 3, 4 and 5, at the file descriptors of the same numbers.
abbrev entry : ℕ → PollFd
entry fd = record { fd = fd; events = read_event; revents = none_event }

abbrev at_index : ℕ → ℤ → Channel
at_index fd index = record (new_channel fd) { events = read_event; index = index }

abbrev two_entries : PollPoller
two_entries = record {
  channels = λ q.
      if q == 3
      then at_index 3 (pos 0)
      else (if q == 4 then at_index 4 (pos 1) else at_index q (negsuc 0));
  channel_maps = λ fd. if fd == 3 then some 3 else (if fd == 4 then some 4 else none);
  poll_list = entry 3 ∷ entry 4 ∷ [];
}

two_entries-Slots : Slots two_entries
two_entries-Slots zero e h =
    subst (Slot two_entries 0) (some_eq h)
      (record { channel = 3; mapped = refl; at = refl; same_fd = refl })
two_entries-Slots (suc zero) e h =
    subst (Slot two_entries 1) (some_eq h)
      (record { channel = 4; mapped = refl; at = refl; same_fd = refl })
two_entries-Slots (suc (suc i)) e h = absurd (cc)

remove_channel-Vacated_example : Vacated 3 two_entries (remove_channel 3 two_entries)
remove_channel-Vacated_example =
    remove_channel-Vacated 3 0 two_entries (entry 3) two_entries-Slots refl refl refl refl

-- The second of two channels has input.
abbrev one_ready : List PollFd
one_ready = entry 3 ∷ record (entry 4) { revents = read_event } ∷ []

polling_lem_example :
    (p' : PollPoller) × (polling (λ es. done (1, one_ready)) two_entries ≡ some (p', 4 ∷ []))
polling_lem_example =
    polling_lem (λ es. done (1, one_ready)) two_entries one_ready refl ((3, refl), ((4, refl), tt))

-- A closed connection at the first place.
abbrev closed_at_0 : TcpConnection
unfolding shut new_connection set_index
closed_at_0 = let c = shut (new_connection 3) in record c { channel = set_index c.channel (pos 0) }

abbrev with_closed : PollPoller
with_closed = record two_entries { channels = λ q. closed_at_0.channel }

closes_again_example :
    (p' : PollPoller) × (d : TcpConnection) × (es : List Effect) × (update_channel 3 with_closed
      ≡ some p')
    × (get_elem? p'.poll_list 0 ≡ some (poll_fd_of closed_at_0.channel))
    × (is_empty (poll_fd_of closed_at_0.channel).events ≡ true)
    × (handle_poll_event
          (λ lens. done [])
          (λ bytes. done 0)
          (λ c. some (c, []))
          (record closed_at_0 { channel = set_revents closed_at_0.channel hangup })
        ≡ some (d, es))
    × (closings es ≡ 1)
unfolding shut new_connection set_index disable_all
closes_again_example =
    closes_again (λ lens. done []) (λ bytes. done 0) (λ c. some (c, [])) with_closed 3 0 closed_at_0
      refl (refl, refl, refl, refl) refl refl (omega arith)
