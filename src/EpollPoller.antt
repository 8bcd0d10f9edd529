-- ===== src/EpollPoller.antt =====
-- src/poller.cc, include/epoll_poller.h, src/epoll_poller.cc: the channels of a loop and what epoll
-- watches for them. A `Channel*` is a number, and the channels are a map from them.
pub mod Inv
pub mod Changed
pub mod Update
pub mod Remove
pub mod Active
pub mod Tests
use my_net_lib.Common.{
  Bool, List, Option, [], eq_ℤ, false, if◌then◌else◌, length, ltb, negsuc, none, pos, put, some,
  true, ℕ, ℤ, ◌&&◌, ◌*◌, ◌==◌, ◌>>=◌, ◌||◌, ◌∷◌,
}
use my_net_lib.Os.{Transfer, failed, done}
use my_net_lib.Channel.{Channel, Events, is_none_event, set_index, set_revents}

pub data Ctl : Type 0 where
  ctl_add ctl_mod ctl_del : Ctl

-- An epoll instance of the kernel: `epoll_ctl` of an operation, a file descriptor, the events and
-- the pointer, which returns whether it succeeds; and the interest list.
pub record Epoll : Type 1 where
  pub State : Type 0
  pub epoll_ctl : Ctl → ℕ → Events → ℕ → State → Bool × State
  pub watched : State → ℕ → Option (Events × ℕ)

pub record EpollPoller (E : Epoll) : Type 0 where
  pub channels : ℕ → Channel
  pub channel_maps : ℕ → Option ℕ
  pub epoll : E.State
  pub events_size : ℕ

-- `kNew`, `kAdded` and `kDeleted`
abbrev pub k_new : ℤ
k_new = negsuc 0

abbrev pub k_added : ℤ
k_added = pos 1

abbrev pub k_deleted : ℤ
k_deleted = pos 2

abbrev pub init_event_size : ℕ
init_event_size = 16

abbrev is_del : Ctl → Bool
is_del ctl_del = true
is_del _ = false

module _ {E : Epoll} where
  -- The constructor, over the channels that there are.
  unfoldable pub new_poller : (ℕ → Channel) → E.State → EpollPoller E
  new_poller channels epoll = record {
    channels = channels;
    channel_maps = λ fd. none;
    epoll = epoll;
    events_size = init_event_size;
  }

  -- `none`: LOG_FATAL ends the program.
  unfoldable pub update : Ctl → ℕ → EpollPoller E → Option (EpollPoller E)
  update operation channel p =
      let c = p.channels channel in
      let r = E.epoll_ctl operation c.fd c.events channel p.epoll in
      let p' = record p { epoll = r.1 } in
      if r.0 then some p' else (if is_del operation then some p' else none)

  unfoldable pub with_index : ℕ → ℤ → EpollPoller E → EpollPoller E
  unfolding set_index
  with_index channel idx p = record p {
    channels = put channel (set_index (p.channels channel) idx) p.channels;
  }

  unfoldable pub update_channel : ℕ → EpollPoller E → Option (EpollPoller E)
  unfolding update with_index
  update_channel channel p =
      let c = p.channels channel in
      if eq_ℤ c.index k_new || eq_ℤ c.index k_deleted
      then update ctl_add channel (
          with_index channel k_added (
            if eq_ℤ c.index k_new
            then record p { channel_maps = put c.fd (some channel) p.channel_maps }
            else p))
      else (if is_none_event c
          then (update ctl_del channel p >>= λ p'. some (with_index channel k_deleted p'))
          else update ctl_mod channel p)

  unfoldable pub remove_channel : ℕ → EpollPoller E → Option (EpollPoller E)
  unfolding update with_index
  remove_channel channel p =
      let c = p.channels channel in
      let erased : EpollPoller E = record p { channel_maps = put c.fd none p.channel_maps } in
      (if eq_ℤ c.index k_added then update ctl_del channel erased else some erased) >>= λ p'.
      some (with_index channel k_new p')

  unfoldable pub has_channel : ℕ → EpollPoller E → Bool
  has_channel channel p = elim (p.channel_maps (p.channels channel).fd) [
    | none ↦ false
    | some c ↦ c == channel
  ]

  -- The events that `epoll_wait` stored, each with the pointer of its channel.
  unfoldable pub fill_active_channels : List (Events × ℕ) → EpollPoller E → EpollPoller E × List ℕ
  fill_active_channels [] p = (p, [])
  fill_active_channels ((events, channel) ∷ ready) p =
      let rest = fill_active_channels ready (record p {
        channels = put channel (set_revents (p.channels channel) events) p.channels;
      }) in
      (rest.0, channel ∷ rest.1)

  -- `Polling` behind `epoll_wait`.
  unfoldable pub take_reports :
      Transfer (List (Events × ℕ)) → EpollPoller E → EpollPoller E × List ℕ
  unfolding fill_active_channels
  take_reports (failed errno) p = (p, [])
  take_reports (done ready) p =
      let r = fill_active_channels ready p in
      if ltb 0 (length ready) && length ready == p.events_size
      then (record (r.0) { events_size = p.events_size * 2 }, r.1)
      else r

  -- `epoll_wait` is given the size of its buffer.
  unfoldable pub polling :
      (ℕ → Transfer (List (Events × ℕ))) → EpollPoller E → EpollPoller E × List ℕ
  unfolding take_reports
  polling epoll_wait p = take_reports (epoll_wait p.events_size) p
