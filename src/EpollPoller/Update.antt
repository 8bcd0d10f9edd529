-- ===== src/EpollPoller/Update.antt =====
-- `UpdateChannel`
use my_net_lib.Common.{
  Bool-cases, Option, ap, eq_ℤ, false, if_false, if_true, if◌then◌else◌, inl, inr, none, put,
  put_same, put_self, refl, some, subst, sym, true, ℕ, ℤ, ◌&&◌, ◌>>=◌, ◌||◌, ◌∙◌, ◌≡◌, ◌≢◌,
}
use my_net_lib.Channel.{Channel, Events, set_index, is_none_event}
use my_net_lib.EpollPoller.{
  Ctl, ctl_add, ctl_mod, ctl_del, Epoll, EpollPoller, k_new, k_added, k_deleted, with_index, update,
  update_channel,
}
use my_net_lib.EpollPoller.Inv.{Sets, IsEpoll, Entry, fresh, added, deleted, InvBut, Inv}
use my_net_lib.EpollPoller.Changed.{Changed, Changed-Inv, fresh_mine, known_mine}

module _ {E : Epoll} where
  -- What `UpdateChannel` leaves: the channel is in the map, and the kernel watches its events, or
  -- not at all if a channel that it watched wants none; other channels stay as they are.
  pub record Updated (channel : ℕ) (p : EpollPoller E) : Type 0 where
    pub poller : EpollPoller E
    pub returns : update_channel channel p ≡ some poller
    pub inv : Inv poller
    pub idx : ℤ
    pub entry : Option (Events × ℕ)
    pub changed : Changed channel idx (some channel) entry p poller
    pub mapped : poller.channel_maps (p.channels channel).fd ≡ some channel
    pub told : E.watched poller.epoll (p.channels channel).fd ≡ (
        if eq_ℤ (p.channels channel).index k_added && is_none_event (p.channels channel)
        then none
        else some ((p.channels channel).events, channel))

  -- An operation that succeeds.
  pub update_ok :
      (operation : Ctl) (channel : ℕ) (p : EpollPoller E)
      → (E.epoll_ctl operation
          (p.channels channel).fd
          (p.channels channel).events
          channel
          p.epoll).0
        ≡ true
      → update operation channel p
        ≡ some (record p {
          epoll =
              (E.epoll_ctl operation
                (p.channels channel).fd
                (p.channels channel).events
                channel
                p.epoll).1;
        })
  unfolding update
  update_ok operation channel p h = rw h

  adds-Changed :
      (epoll : IsEpoll E) (channel : ℕ) (p : EpollPoller E) (maps : ℕ → Option ℕ)
      → E.watched p.epoll (p.channels channel).fd ≡ none
      → ((i : ℕ) → maps i ≡ put (p.channels channel).fd (some channel) p.channel_maps i)
      → (p' : EpollPoller E) × (update ctl_add channel
            (with_index channel k_added (record p { channel_maps = maps }))
          ≡ some p')
        × Changed channel k_added (some channel) (some ((p.channels channel).events, channel)) p p'
  unfolding with_index set_index
  adds-Changed epoll channel p maps gone em = (
    _,
    update_ok ctl_add channel _ (sets.0),
    record { channels = λ q. refl; maps = em; lists = sets.1 },
  )
    where
      c : Channel
      c = p.channels channel

      sets :
          let d = put channel (record c { index = k_added }) p.channels channel in
          Sets E p.epoll
            (E.epoll_ctl ctl_add d.fd d.events channel p.epoll)
            c.fd
            (some (c.events, channel))
      sets =
          subst
            (λ (d : Channel).
              Sets E p.epoll (E.epoll_ctl ctl_add d.fd d.events channel p.epoll) c.fd
                (some (c.events, channel)))
            (sym (put_self channel (record c { index = k_added }) p.channels))
            (epoll.adds c.fd c.events channel p.epoll gone)

  mods-Changed :
      (epoll : IsEpoll E) (channel : ℕ) (p : EpollPoller E) (old : Events × ℕ)
      → E.watched p.epoll (p.channels channel).fd ≡ some old
      → p.channel_maps (p.channels channel).fd ≡ some channel
      → (p.channels channel).index ≡ k_added
      → (p' : EpollPoller E) × (update ctl_mod channel p ≡ some p')
        × Changed channel k_added (some channel) (some ((p.channels channel).events, channel)) p p'
  mods-Changed epoll channel p old there em ei =
      let sets = epoll.mods c.fd c.events channel p.epoll old there in
      (
        _,
        update_ok ctl_mod channel p (sets.0),
        record {
          channels =
              λ q. put_same p.channels q (subst (λ idx. c ≡ record c { index = idx }) ei refl);
          maps = λ i. put_same p.channel_maps i em;
          lists = sets.1;
        },
      )
    where
      c : Channel
      c = p.channels channel

  pub dels-Changed :
      (epoll : IsEpoll E) (channel : ℕ) (idx : ℤ) (p : EpollPoller E) (old : Events × ℕ)
      → E.watched p.epoll (p.channels channel).fd ≡ some old
      → (maps : ℕ → Option ℕ) (m : Option ℕ)
      → ((i : ℕ) → maps i ≡ put (p.channels channel).fd m p.channel_maps i)
      → (p' : EpollPoller E) × ((update ctl_del channel (record p { channel_maps = maps }) >>= λ p'.
            some (with_index channel idx p'))
          ≡ some p')
        × Changed channel idx m none p p'
  unfolding with_index set_index
  dels-Changed epoll channel idx p old there maps m em =
      let c = p.channels channel in
      let sets = epoll.dels c.fd c.events channel p.epoll old there in
      (
        _,
        ap (λ r. ◌>>=◌ {B = EpollPoller E} r (λ p'. some (with_index channel idx p')))
            (update_ok ctl_del channel (record p { channel_maps = maps }) (sets.0)),
        record { channels = λ q. refl; maps = em; lists = sets.1 },
      )

  add_new :
      (channel : ℕ) (p : EpollPoller E)
      → (p.channels channel).index ≡ k_new
      → update_channel channel p
        ≡ update ctl_add channel (
            with_index channel k_added (record p {
              channel_maps = put (p.channels channel).fd (some channel) p.channel_maps;
            }))
  unfolding update_channel
  add_new channel p e =
      if_true _ _ is_new_or_deleted
      ∙ ap (λ p. update ctl_add channel (with_index channel k_added p)) (if_true _ _ is_new)
    where
      is_new : eq_ℤ (p.channels channel).index k_new ≡ true
      is_new = rw e

      is_new_or_deleted :
          (eq_ℤ (p.channels channel).index k_new || eq_ℤ (p.channels channel).index k_deleted)
          ≡ true
      is_new_or_deleted = rw e

  add_deleted :
      (channel : ℕ) (p : EpollPoller E)
      → (p.channels channel).index ≡ k_deleted
      → update_channel channel p ≡ update ctl_add channel (with_index channel k_added p)
  unfolding update_channel
  add_deleted channel p e =
      if_true _ _ is_new_or_deleted
      ∙ ap (λ p. update ctl_add channel (with_index channel k_added p)) (if_false _ _ is_not_new)
    where
      is_not_new : eq_ℤ (p.channels channel).index k_new ≡ false
      is_not_new = rw e

      is_new_or_deleted :
          (eq_ℤ (p.channels channel).index k_new || eq_ℤ (p.channels channel).index k_deleted)
          ≡ true
      is_new_or_deleted = rw e

  del_added :
      (channel : ℕ) (p : EpollPoller E)
      → (p.channels channel).index ≡ k_added
      → is_none_event (p.channels channel) ≡ true
      → update_channel channel p
        ≡ (update ctl_del channel p >>= λ p'. some (with_index channel k_deleted p'))
  unfolding update_channel
  del_added channel p e n = rw (e, n)

  mod_added :
      (channel : ℕ) (p : EpollPoller E)
      → (p.channels channel).index ≡ k_added
      → is_none_event (p.channels channel) ≡ false
      → update_channel channel p ≡ update ctl_mod channel p
  unfolding update_channel
  mod_added channel p e n = rw (e, n)

  Changed-Updated :
      {channel : ℕ} {told : Events} {p p' : EpollPoller E} {idx : ℤ} {w : Option (Events × ℕ)}
      → InvBut channel told p
      → update_channel channel p ≡ some p'
      → Changed channel idx (some channel) w p p'
      → ((q : ℕ) → q ≢ channel → p.channel_maps (p.channels channel).fd ≢ some q)
      → Entry channel idx (p.channels channel).events (some channel) w
      → w ≡ (
          if eq_ℤ (p.channels channel).index k_added && is_none_event (p.channels channel)
          then none
          else some ((p.channels channel).events, channel))
      → Updated channel p
  Changed-Updated {channel} {p} {p'} {idx} {w} i e ch mine entry ew = record {
    poller = p';
    returns = e;
    inv = Changed-Inv i ch (λ q n e. n (cc e)) mine entry (λ e. absurd (cc e));
    idx = idx;
    entry = w;
    changed = ch;
    mapped = ch.maps fd ∙ put_self fd (some channel) p.channel_maps;
    told = ch.lists fd ∙ put_self fd w (E.watched p.epoll) ∙ ew;
  }
    where
      fd : ℕ
      fd = (p.channels channel).fd

  -- If the events of one channel changed, and a new channel's file descriptor is in no other use,
  -- `UpdateChannel` does not end the program: each operation that it asks of epoll succeeds. Then the
  -- channel map, the channels' indices and the interest list agree again, and the kernel watches the
  -- channel's events, or nothing if it watched the channel and none are wanted; the other channels
  -- stay as they are.
  pub update_channel-Updated :
      (epoll : IsEpoll E) (channel : ℕ) (told : Events) (p : EpollPoller E)
      → InvBut channel told p
      → ((p.channels channel).index ≡ k_new → p.channel_maps (p.channels channel).fd ≡ none)
      → Updated channel p
  update_channel-Updated epoll channel told p i free = elim i.this [
    | fresh e h ↦
        let gone = free e in
        let (p', s, ch) =
          adds-Changed epoll channel p (put fd (some channel) p.channel_maps) (i.free fd gone)
            (λ i. refl) in
        Changed-Updated i (add_new channel p e ∙ s) ch (fresh_mine gone) (added refl refl refl)
          (rw e refl)
    | added e em ew ↦ elim (Bool-cases (is_none_event (p.channels channel))) [
      | inl n ↦
          let (p', s, ch) =
            dels-Changed epoll channel k_deleted p (told, channel) ew p.channel_maps (some channel)
              (λ i. put_same p.channel_maps i em) in
          Changed-Updated i (del_added channel p e n ∙ s) ch (known_mine em)
            (deleted refl refl refl) (rw (e, n) refl)
      | inr n ↦
          let (p', s, ch) = mods-Changed epoll channel p (told, channel) ew em e in
          Changed-Updated i (mod_added channel p e n ∙ s) ch (known_mine em) (added refl refl refl)
            (rw (e, n) refl)
    ]
    | deleted e em ew ↦
        let (p', s, ch) =
          adds-Changed epoll channel p p.channel_maps ew (λ i. put_same p.channel_maps i em) in
        Changed-Updated i (add_deleted channel p e ∙ s) ch (known_mine em) (added refl refl refl)
          (rw e refl)
  ]
    where
      fd : ℕ
      fd = (p.channels channel).fd
