-- ===== src/EpollPoller/Remove.antt =====
-- `RemoveChannel`
use my_net_lib.Common.{
  ap, eq_ℤ, false, if_false, if_true, none, put, put_same, put_self, refl, some, true, ℕ, ◌>>=◌,
  ◌∙◌, ◌≡◌,
}
use my_net_lib.Channel.{Channel, Events, set_index}
use my_net_lib.EpollPoller.{
  ctl_del, Epoll, EpollPoller, k_new, k_added, k_deleted, with_index, update, remove_channel,
}
use my_net_lib.EpollPoller.Inv.{IsEpoll, fresh, added, deleted, InvBut, Inv}
use my_net_lib.EpollPoller.Changed.{Changed, Changed-Inv, known_mine}
use my_net_lib.EpollPoller.Update.{dels-Changed}

module _ {E : Epoll} where
  pub record Removed (channel : ℕ) (p : EpollPoller E) : Type 0 where
    pub poller : EpollPoller E
    pub returns : remove_channel channel p ≡ some poller
    pub inv : Inv poller
    pub changed : Changed channel k_new none none p poller
    pub unmapped : poller.channel_maps (p.channels channel).fd ≡ none
    pub unwatched : E.watched poller.epoll (p.channels channel).fd ≡ none
    pub index : (poller.channels channel).index ≡ k_new

  remove_added :
      (channel : ℕ) (p : EpollPoller E)
      → (p.channels channel).index ≡ k_added
      → remove_channel channel p ≡ (
          update ctl_del channel
            (record p { channel_maps = put (p.channels channel).fd none p.channel_maps })
          >>= λ p'. some (with_index channel k_new p'))
  unfolding remove_channel
  remove_added channel p e =
      ap (λ r. ◌>>=◌ {B = EpollPoller E} r (λ p'. some (with_index channel k_new p')))
        (if_true _ _ is_added)
    where
      is_added : eq_ℤ (p.channels channel).index k_added ≡ true
      is_added = rw e

  remove_deleted :
      (channel : ℕ) (p : EpollPoller E)
      → (p.channels channel).index ≡ k_deleted
      → remove_channel channel p
        ≡ some (
            with_index channel k_new
              (record p { channel_maps = put (p.channels channel).fd none p.channel_maps }))
  unfolding remove_channel
  remove_deleted channel p e =
      ap (λ r. ◌>>=◌ {B = EpollPoller E} r (λ p'. some (with_index channel k_new p')))
        (if_false _ _ is_not_added)
    where
      is_not_added : eq_ℤ (p.channels channel).index k_added ≡ false
      is_not_added = rw e

  Changed-Removed :
      {channel : ℕ} {told : Events} {p p' : EpollPoller E}
      → InvBut channel told p
      → remove_channel channel p ≡ some p'
      → Changed channel k_new none none p p'
      → p.channel_maps (p.channels channel).fd ≡ some channel
      → Removed channel p
  Changed-Removed {channel} {p} {p'} i e ch em = record {
    poller = p';
    returns = e;
    inv =
        Changed-Inv i ch (λ q n e. absurd (cc e)) (known_mine em) (fresh refl (λ e. absurd (cc e)))
          (λ e. refl);
    changed = ch;
    unmapped = ch.maps fd ∙ put_self fd none p.channel_maps;
    unwatched = ch.lists fd ∙ put_self fd none (E.watched p.epoll);
    index = ap (λ (c : Channel). c.index) (ch.channels channel ∙ put_self channel _ p.channels);
  }
    where
      fd : ℕ
      fd = (p.channels channel).fd

  -- `RemoveChannel` of a channel that the poller knows does not fail: the map and the kernel
  -- forget its file descriptor, the channel is new again, and the others stay as they are.
  pub remove_channel-Removed :
      (epoll : IsEpoll E) (channel : ℕ) (told : Events) (p : EpollPoller E)
      → InvBut channel told p
      → p.channel_maps (p.channels channel).fd ≡ some channel
      → Removed channel p
  unfolding with_index set_index
  remove_channel-Removed epoll channel told p i em0 = elim i.this [
    | fresh e h ↦ absurd (h em0)
    | added e em ew ↦
        let (p', s, ch) =
          dels-Changed epoll channel k_new p (told, channel) ew
            (put (p.channels channel).fd none p.channel_maps) none (λ i. refl) in
        Changed-Removed i (remove_added channel p e ∙ s) ch em
    | deleted e em ew ↦
        Changed-Removed i (remove_deleted channel p e)
          (record {
            channels = λ q. refl;
            maps = λ i. refl;
            lists = λ i. put_same (E.watched p.epoll) i ew;
          })
          em
  ]
