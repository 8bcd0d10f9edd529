-- ===== src/PollPoller.antt =====
-- include/poll_poller.h, src/poll_poller.cc: the channels of a loop in the array that is handed to
-- `poll`. A channel's index is its position in the array.
pub mod Slots
pub mod Update
pub mod Moved
pub mod Remove
pub mod Active
pub mod Closed
mod Tests
use my_net_lib.Common.{
  List, Option, [], drop_last, get_elem?, if◌then◌else◌, length, ltb, negsuc, none, pos, put, set,
  some, suc, zero, ℕ, ℤ, ◌++◌, ◌+◌, ◌-◌, ◌==◌, ◌>>=◌, ◌∷◌,
}
use my_net_lib.Os.{Transfer, failed, done}
use my_net_lib.Channel.{Channel, Events, none_event, is_empty, set_index, set_revents}

-- `struct pollfd`
pub record PollFd : Type 0 where
  pub fd : ℕ
  pub events : Events
  pub revents : Events

pub record PollPoller : Type 0 where
  pub channels : ℕ → Channel
  pub channel_maps : ℕ → Option ℕ
  pub poll_list : List PollFd

-- The constructor, over the channels that there are.
abbrev pub no_entries : (ℕ → Channel) → PollPoller
no_entries channels = record { channels = channels; channel_maps = λ fd. none; poll_list = [] }

abbrev pub poll_fd_of : Channel → PollFd
poll_fd_of c = record { fd = c.fd; events = c.events; revents = none_event }

-- `UpdateChannel`, by the index of the channel. `none` is an access out of range.
unfoldable pub update_at : ℤ → ℕ → PollPoller → Option PollPoller
unfolding set_index
update_at (negsuc n) channel p =
    let c = p.channels channel in
    some (record {
      channels = put channel (set_index c (pos (length p.poll_list))) p.channels;
      channel_maps = put c.fd (some channel) p.channel_maps;
      poll_list = p.poll_list ++ poll_fd_of c ∷ [];
    })
update_at (pos idx) channel p =
    if ltb idx (length p.poll_list)
    then some (record p { poll_list = set p.poll_list idx (poll_fd_of (p.channels channel)) })
    else none

unfoldable pub update_channel : ℕ → PollPoller → Option PollPoller
unfolding update_at
update_channel channel p = update_at (p.channels channel).index channel p

-- `RemoveChannel` of the entry at `idx`, which is not the last: `last` is, and takes its place. The
-- map is asked for the channel of `last`, which must be there.
unfoldable pub move_last : (idx : ℕ) → PollFd → Option ℕ → PollPoller → Option PollPoller
unfolding set_index
move_last idx last none p = none
move_last idx last (some q) p = some (record p {
  channels = put q (set_index (p.channels q) (pos idx)) p.channels;
  poll_list = drop_last (set p.poll_list idx last);
})

-- `RemoveChannel`, by the index of the channel.
unfoldable pub remove_at : ℤ → PollPoller → Option PollPoller
unfolding move_last
remove_at (negsuc n) p = none
remove_at (pos idx) p =
    if ltb idx (length p.poll_list)
    then (if idx + 1 == length p.poll_list
        then some (record p { poll_list = drop_last p.poll_list })
        else (get_elem? p.poll_list (length p.poll_list - 1) >>= λ last.
            move_last idx last (p.channel_maps last.fd) p))
    else none

unfoldable pub remove_channel : ℕ → PollPoller → Option PollPoller
unfolding remove_at
remove_channel channel p = remove_at (p.channels channel).index p

-- `FillActiveChannnels`: the channels of the entries that received events, up to `nready` of them.
unfoldable pub fill_active :
    List PollFd → (nready : ℕ) → (ℕ → Option ℕ) → (ℕ → Channel) → (ℕ → Channel) × List ℕ
unfolding set_revents
fill_active [] nready maps channels = (channels, [])
fill_active (e ∷ es) zero maps channels = (channels, [])
fill_active (e ∷ es) (suc nready) maps channels =
    let skipped = fill_active es (suc nready) maps channels in
    let found =
      λ (q : ℕ). fill_active es nready maps (put q (set_revents (channels q) e.revents) channels) in
    if is_empty e.revents
    then skipped
    else elim (maps e.fd) [ none ↦ skipped | some q ↦ ((found q).0, q ∷ (found q).1) ]

-- `Polling`, with what `poll` does to the array: the number of entries with events, and the entries.
-- `none`: it failed, and LOG_FATAL ended the program, also after a signal.
unfoldable pub polling :
    (poll : List PollFd → Transfer (ℕ × List PollFd)) → PollPoller → Option (PollPoller × List ℕ)
unfolding fill_active
polling poll p = elim (poll p.poll_list) [
  | failed errno ↦ none
  | done r ↦
      let filled = fill_active r.1 r.0 p.channel_maps p.channels in
      some (
        record p { channels = if ltb 0 r.0 then filled.0 else p.channels; poll_list = r.1 },
        if ltb 0 r.0 then filled.1 else [],
      )
]
