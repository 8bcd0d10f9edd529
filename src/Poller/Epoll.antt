-- ===== src/Poller/Epoll.antt =====
-- include/epoll_poller.h, src/epoll_poller.cc: a poller over epoll fills the interface.
use my_net_lib.Common.{
  Option, ap, eq_ℤ, none, put, put_all, put_ne, put_part, put_self, refl, some, subst, sym, ℕ, ℤ,
  ◌∙◌, ◌≡◌, ◌≢◌,
}
use my_net_lib.Channel.{Channel, Events, new_channel}
use my_net_lib.EpollPoller.{
  Epoll, EpollPoller, k_new, k_added, new_poller, update_channel, remove_channel,
}
use my_net_lib.EpollPoller.Inv.{IsEpoll, Entry, fresh, InvBut, Inv, Inv-InvBut}
use my_net_lib.EpollPoller.Changed.{Changed}
use my_net_lib.EpollPoller.Update.{Updated, update_channel-Updated}
use my_net_lib.EpollPoller.Remove.{remove_channel-Removed}
use my_net_lib.Poller.{
  IsPoller, Watch, unknown, removed, wants, wanted, Watches, no_watches, update_watch, remove_watch,
  update_watch-wants, remove_watch-wants,
}
use my_net_lib.Poller.Interest.{told_events, epoll_poller, Holds, told_if, free_at, new_apart}

module _ (E : Epoll) (epoll : IsEpoll E) (fd : ℕ → ℕ)
    (apart : (q r : ℕ) → fd q ≡ fd r → q ≡ r) where
  -- The channels stand on their file descriptors, and all agrees with their lives.
  record Represents (p : EpollPoller E) (w : Watches) : Type 0 where
    inv : Inv p
    on_fd : (q : ℕ) → (p.channels q).fd ≡ fd q
    holds : (q : ℕ) → Holds q (p.channel_maps (fd q)) (E.watched p.epoll (fd q)) (w q)

  -- A call on `channel` changes its life only.
  Changed-Represents :
      {channel : ℕ} {idx : ℤ} {m : Option ℕ} {entry : Option (Events × ℕ)} {p p' : EpollPoller E}
      (w : Watches) (x : Watch)
      → Changed channel idx m entry p p'
      → Inv p'
      → ((q : ℕ) → (p.channels q).fd ≡ fd q)
      → ((q : ℕ) → Holds q (p.channel_maps (fd q)) (E.watched p.epoll (fd q)) (w q))
      → Holds channel m entry x
      → Represents p' (put channel x w)
  Changed-Represents {channel} {idx} {m} {entry} {p} {p'} w x ch i on holds here = record {
    inv = i;
    on_fd = λ q.
        ap (λ (c : Channel). c.fd) (ch.channels q)
        ∙ put_part (λ (c : Channel). c.fd) p.channels refl q
        ∙ on q;
    holds =
        put_all (λ q x. Holds q (p'.channel_maps (fd q)) (E.watched p'.epoll (fd q)) x) w
          (rw
            (
              maps_at channel,
              lists_at channel,
              put_self (fd channel) m p.channel_maps,
              put_self (fd channel) entry (E.watched p.epoll),
            )
            here)
          (λ q n.
            let n' : fd q ≢ fd channel = λ e. n (apart q channel e) in
            rw
              (
                maps_at q,
                lists_at q,
                put_ne m p.channel_maps n',
                put_ne entry (E.watched p.epoll) n',
              )
              (holds q));
  }
    where
      maps_at : (q : ℕ) → p'.channel_maps (fd q) ≡ put (fd channel) m p.channel_maps (fd q)
      maps_at q = ch.maps (fd q) ∙ ap (λ f. put f m p.channel_maps (fd q)) (on channel)

      lists_at :
          (q : ℕ) → E.watched p'.epoll (fd q) ≡ put (fd channel) entry (E.watched p.epoll) (fd q)
      lists_at q = ch.lists (fd q) ∙ ap (λ f. put f entry (E.watched p.epoll) (fd q)) (on channel)

  abbrev with_events : ℕ → Events → EpollPoller E → EpollPoller E
  with_events q events p = record p {
    channels = put q (record (p.channels q) { events = events }) p.channels;
  }

  with_events-InvBut :
      (q : ℕ) (events : Events) (p : EpollPoller E)
      → Inv p
      → InvBut q (p.channels q).events (with_events q events p)
  with_events-InvBut q events p i = record {
    others = λ r n.
        subst
          (λ (c : Channel). Entry r c.index c.events (p.channel_maps c.fd) (E.watched p.epoll c.fd))
          (sym (put_ne (record (p.channels q) { events = events }) p.channels n)) (i.entries r);
    this =
        subst
          (λ (c : Channel).
            Entry q c.index (p.channels q).events (p.channel_maps c.fd) (E.watched p.epoll c.fd))
          (sym (put_self q (record (p.channels q) { events = events }) p.channels)) (i.entries q);
    free = i.free;
  }

  updates :
      (q : ℕ) (events : Events) (x : Watch) (p : EpollPoller E) (w : Watches)
      → Represents p w
      → update_watch (w q) events ≡ some x
      → (p' : EpollPoller E) × (update_channel q (with_events q events p) ≡ some p')
        × Represents p' (put q x w)
  updates q events x p w r h = (
    u.poller,
    u.returns,
    Changed-Represents w x u.changed u.inv on r.holds
        (subst (Holds q (some q) u.entry) (update_watch-wants (w q) events h) (refl, told)),
  )
    where
      p1 : EpollPoller E
      p1 = with_events q events p

      here : p1.channels q ≡ record (p.channels q) { events = events }
      here = put_self q (record (p.channels q) { events = events }) p.channels

      on : (i : ℕ) → (p1.channels i).fd ≡ fd i
      on i = put_part (λ (c : Channel). c.fd) p.channels refl i ∙ r.on_fd i

      free : (p1.channels q).index ≡ k_new → p1.channel_maps (p1.channels q).fd ≡ none
      free e =
          ap p.channel_maps (on q)
          ∙ free_at q events (E.watched p.epoll (fd q)) (w q) h (r.holds q) (
              subst (λ f. p.channel_maps f ≢ some q) (r.on_fd q)
                (new_apart (r.inv.entries q) (sym (ap (λ (c : Channel). c.index) here) ∙ e)))

      u : Updated q p1
      u =
          update_channel-Updated epoll q (p.channels q).events p1
            (with_events-InvBut q events p r.inv) free

      told : told_events u.entry ≡ events
      told =
          ap told_events (
            sym (
              u.changed.lists (p1.channels q).fd
              ∙ put_self (p1.channels q).fd u.entry (E.watched p1.epoll))
            ∙ u.told)
          ∙ told_if q (eq_ℤ (p1.channels q).index k_added) (p1.channels q)
          ∙ ap (λ (c : Channel). c.events) here

  removes :
      (q : ℕ) (x : Watch) (p : EpollPoller E) (w : Watches)
      → Represents p w
      → remove_watch (w q) ≡ some x
      → (p' : EpollPoller E) × (remove_channel q p ≡ some p') × Represents p' (put q x w)
  removes q x p w r h =
      let (events, e, e') = remove_watch-wants (w q) h in
      let (mapped, told) =
        subst (Holds q (p.channel_maps (fd q)) (E.watched p.epoll (fd q))) e (r.holds q) in
      let u =
        remove_channel-Removed epoll q _ p (Inv-InvBut r.inv q)
          (ap p.channel_maps (r.on_fd q) ∙ mapped) in
      (
        u.poller,
        u.returns,
        Changed-Represents w x u.changed u.inv r.on_fd r.holds (rw (sym e') refl),
      )

  module _ (s : E.State) (nothing : (i : ℕ) → E.watched s i ≡ none) where
    abbrev first : EpollPoller E
    first = new_poller (λ q. new_channel (fd q)) s

    first-Represents : Represents first no_watches
    unfolding new_poller
    first-Represents = record {
      inv = record { entries = λ q. fresh refl (λ e. absurd (cc e)); free = λ f e. nothing f };
      on_fd = λ q. refl;
      holds = λ q. refl;
    }

    pub epoll_poller-IsPoller : IsPoller fd (epoll_poller E) first
    epoll_poller-IsPoller = record {
      Represents = Represents;
      first_law = first-Represents;
      update_law = updates;
      remove_law = removes;
      asked_law = λ q p w r. asked_at q (w q) (r.inv.free (fd q)) (r.holds q);
    }
      where
        asked_at :
            (q : ℕ) {m : Option ℕ} {entry : Option (Events × ℕ)} (x : Watch)
            → (m ≡ none → entry ≡ none)
            → Holds q m entry x
            → told_events entry ≡ wanted x
        asked_at q unknown free h = ap told_events (free h)
        asked_at q removed free h = ap told_events (free h)
        asked_at q (wants events) free h = h.1
