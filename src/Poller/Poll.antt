-- ===== src/Poller/Poll.antt =====
-- include/poll_poller.h, src/poll_poller.cc: a poller over poll fills the interface.
use my_net_lib.Common.{
  ap, get_elem?-append_last, get_elem?-bound, get_elem?-set_self, length, put, put_all, put_part,
  put_self, refl, some, subst, sym, ℕ, ◌∙◌, ◌≡◌,
}
use my_net_lib.Channel.{Channel, Events, new_channel}
use my_net_lib.PollPoller.{PollPoller, poll_fd_of, no_entries, update_channel, remove_channel}
use my_net_lib.PollPoller.Slots.{Slots, Slots-distinct, Frame}
use my_net_lib.PollPoller.Update.{
  appended, rewritten, update_channel_new, appended-Slots, appended-Frame, update_channel_known,
  rewritten-Slots, rewritten-Frame,
}
use my_net_lib.PollPoller.Remove.{remove_channel-Vacated}
use my_net_lib.Poller.{
  IsPoller, Watch, unknown, removed, wants, wanted, Watches, no_watches, update_watch, remove_watch,
  update_watch-wants, remove_watch-wants,
}
use my_net_lib.Poller.Entries.{
  asked_of, with_events, poll_poller, IsAbsent, Holds, asked_absent, asked_placed, Frame-Holds,
}

module _ (fd : ℕ → ℕ) (apart : (q r : ℕ) → fd q ≡ fd r → q ≡ r) where
  -- Every entry is in its place, the channels stand on their file descriptors, and the array agrees
  -- with their lives.
  record Represents (p : PollPoller) (w : Watches) : Type 0 where
    slots : Slots p
    on_fd : (q : ℕ) → (p.channels q).fd ≡ fd q
    holds : (q : ℕ) → Holds p q (fd q) (w q)

  Frame-Represents :
      (channel : ℕ) (p p' : PollPoller) (w : Watches) (x : Watch)
      → Frame channel p p'
      → Slots p'
      → ((q : ℕ) → (p.channels q).fd ≡ fd q)
      → ((q : ℕ) → Holds p q (fd q) (w q))
      → Holds p' channel (fd channel) x
      → Represents p' (put channel x w)
  Frame-Represents channel p p' w x f s on holds here = record {
    slots = s;
    on_fd = λ q. f.fds q ∙ on q;
    holds =
        put_all (λ q x. Holds p' q (fd q) x) w here
          (λ q n.
            Frame-Holds channel q (fd q) p p' (w q) f s n
              (λ e. n (apart q channel (e ∙ on channel))) (holds q));
  }

  index_kept :
      (r : ℕ) (events : Events) (p : PollPoller) (q : ℕ)
      → ((with_events r events p).channels q).index ≡ (p.channels q).index
  index_kept r events p = put_part (λ (c : Channel). c.index) p.channels refl

  with_events-Holds :
      (r : ℕ) (events : Events) (p : PollPoller) (q f : ℕ) (x : Watch)
      → Holds p q f x
      → Holds (with_events r events p) q f x
  with_events-Holds r events p q f unknown h = (index_kept r events p q ∙ h.0, h.1)
  with_events-Holds r events p q f removed h = h
  with_events-Holds r events p q f (wants e) h = record {
    mapped = h.mapped;
    idx = h.idx;
    entry = h.entry;
    at = index_kept r events p q ∙ h.at;
    there = h.there;
    same_fd = h.same_fd;
    told = h.told;
  }

  with_events-Represents :
      (r : ℕ) (events : Events) (p : PollPoller) (w : Watches)
      → Represents p w
      → Represents (with_events r events p) w
  with_events-Represents r events p w rep = record {
    slots = λ i e h.
        let u = rep.slots i e h in
        record {
          channel = u.channel;
          mapped = u.mapped;
          at = index_kept r events p u.channel ∙ u.at;
          same_fd = put_part (λ (c : Channel). c.fd) p.channels refl u.channel ∙ u.same_fd;
        };
    on_fd = λ q. put_part (λ (c : Channel). c.fd) p.channels refl q ∙ rep.on_fd q;
    holds = λ q. with_events-Holds r events p q (fd q) (w q) (rep.holds q);
  }

  -- `UpdateChannel`, by the life of the channel.
  update_at_life :
      (q : ℕ) (p : PollPoller) (w : Watches) (x : Watch) {y : Watch}
      → Represents p w
      → Holds p q (fd q) x
      → update_watch x (p.channels q).events ≡ some y
      → (p' : PollPoller) × (update_channel q p ≡ some p')
        × Represents p' (put q (wants (p.channels q).events) w)
  update_at_life q p w unknown rep h e =
      let absent = subst (IsAbsent p.poll_list) (sym (rep.on_fd q)) h.1 in
      (
        appended q p,
        update_channel_new q 0 p rep.slots h.0 absent,
        Frame-Represents q p (appended q p) w (wants (p.channels q).events)
            (appended-Frame q 0 p rep.slots h.0 absent) (appended-Slots q 0 p rep.slots h.0 absent)
            rep.on_fd rep.holds
            (record {
              mapped =
                  ap (λ f. put f (some q) p.channel_maps (fd q)) (rep.on_fd q)
                  ∙ put_self (fd q) (some q) p.channel_maps;
              idx = length p.poll_list;
              entry = poll_fd_of (p.channels q);
              at = ap (λ (c : Channel). c.index) (put_self q _ p.channels);
              there = get_elem?-append_last p.poll_list (poll_fd_of (p.channels q));
              same_fd = rep.on_fd q;
              told = refl;
            }),
      )
  update_at_life q p w removed rep h e = absurd (cc)
  update_at_life q p w (wants old) rep h e =
      let same = h.same_fd ∙ sym (rep.on_fd q) in
      (
        rewritten h.idx q p,
        update_channel_known q h.idx p h.entry rep.slots h.at h.there same,
        Frame-Represents q p (rewritten h.idx q p) w (wants (p.channels q).events)
            (rewritten-Frame q h.idx p h.entry rep.slots h.at h.there same)
            (rewritten-Slots q h.idx p h.entry rep.slots h.at h.there same) rep.on_fd rep.holds
            (record {
              mapped = h.mapped;
              idx = h.idx;
              entry = poll_fd_of (p.channels q);
              at = h.at;
              there =
                  get_elem?-set_self p.poll_list h.idx _
                    (get_elem?-bound p.poll_list h.idx h.entry h.there);
              same_fd = rep.on_fd q;
              told = refl;
            }),
      )

  updates :
      (q : ℕ) (events : Events) (x : Watch) (p : PollPoller) (w : Watches)
      → Represents p w
      → update_watch (w q) events ≡ some x
      → (p' : PollPoller) × (update_channel q (with_events q events p) ≡ some p')
        × Represents p' (put q x w)
  updates q events x p w rep h =
      let p1 = with_events q events p in
      let rep1 = with_events-Represents q events p w rep in
      let here : (p1.channels q).events ≡ events =
        ap (λ (c : Channel). c.events)
          (put_self q (record (p.channels q) { events = events }) p.channels) in
      let x_eq : wants (p1.channels q).events ≡ x =
        ap wants here ∙ update_watch-wants (w q) events h in
      let (p', returns, rep') =
        update_at_life q p1 w (w q) rep1 (rep1.holds q) (ap (update_watch (w q)) here ∙ h) in
      (p', returns, subst (λ x. Represents p' (put q x w)) x_eq rep')

  removes :
      (q : ℕ) (x : Watch) (p : PollPoller) (w : Watches)
      → Represents p w
      → remove_watch (w q) ≡ some x
      → (p' : PollPoller) × (remove_channel q p ≡ some p') × Represents p' (put q x w)
  removes q x p w rep h =
      let (events, e, e') = remove_watch-wants (w q) h in
      let placed = subst (Holds p q (fd q)) e (rep.holds q) in
      let v =
        remove_channel-Vacated q placed.idx p placed.entry rep.slots placed.at placed.there
          (placed.same_fd ∙ sym (rep.on_fd q)) (ap p.channel_maps (rep.on_fd q) ∙ placed.mapped) in
      (
        v.poller,
        v.returns,
        subst (λ x. Represents v.poller (put q x w)) e'
            (Frame-Represents q p v.poller w removed v.frame v.slots rep.on_fd rep.holds
              (subst (IsAbsent v.poller.poll_list) (rep.on_fd q) v.gone)),
      )

  first-Represents : Represents (no_entries (λ q. new_channel (fd q))) no_watches
  first-Represents = record {
    slots = λ i e h. absurd (cc);
    on_fd = λ q. refl;
    holds = λ q. (refl, λ i e h. absurd (cc));
  }

  pub poll_poller-IsPoller : IsPoller fd poll_poller (no_entries (λ q. new_channel (fd q)))
  poll_poller-IsPoller = record {
    Represents = Represents;
    first_law = first-Represents;
    update_law = updates;
    remove_law = removes;
    asked_law = λ q p w rep. asked_at q p w (w q) rep (rep.holds q);
  }
    where
      asked_at :
          (q : ℕ) (p : PollPoller) (w : Watches) (x : Watch)
          → Represents p w
          → Holds p q (fd q) x
          → asked_of p.poll_list (fd q) ≡ wanted x
      asked_at q p w unknown rep h = asked_absent p.poll_list (fd q) h.1
      asked_at q p w removed rep h = asked_absent p.poll_list (fd q) h
      asked_at q p w (wants events) rep h =
          asked_placed p.poll_list h.idx (fd q) h.entry h.there h.same_fd (λ j f hj same.
            Slots-distinct {p = p} (rep.slots j f hj) (rep.slots h.idx h.entry h.there)
              (same ∙ sym h.same_fd))
          ∙ h.told
