-- ===== src/EpollPoller/Active.antt =====
-- `Polling` and `FillActiveChannels`
use my_net_lib.Common.{
  ==_iff, Bool, Bool-cases, List, Option, [], ap, if_false, if_true, if◌then◌else◌, inl, inr,
  length, ltb, put, refl, subst, sym, ℕ, ◌&&◌, ◌*◌, ◌==◌, ◌∙◌, ◌∷◌, ◌≡◌,
}
use my_net_lib.Os.{Transfer, done}
use my_net_lib.Channel.{Channel, Events, set_revents}
use my_net_lib.EpollPoller.{Epoll, EpollPoller, fill_active_channels, take_reports, polling}
use my_net_lib.EpollPoller.Inv.{Entry, Inv}

-- The channels that are ready, in the order of the kernel.
abbrev pub ready_channels : List (Events × ℕ) → List ℕ
ready_channels [] = []
ready_channels ((events, channel) ∷ ready) = channel ∷ ready_channels ready

-- What a channel has received when the kernel reports `ready`: its last entry, if any.
abbrev pub received : ℕ → List (Events × ℕ) → Events → Events
received channel [] before = before
received channel ((events, q) ∷ ready) before =
    received channel ready (if channel == q then events else before)

put_revents :
    (channels : ℕ → Channel) (q channel : ℕ) (events : Events)
    → put q (record (channels q) { revents = events }) channels channel
      ≡ record (channels channel) {
        revents = if channel == q then events else (channels channel).revents;
      }
put_revents channels q channel events = elim (Bool-cases (channel == q)) [
  | inl b ↦
      if_true _ _ b
      ∙ ap (λ i. record (channels i) { revents = events }) (sym ((==_iff channel q).0 b))
      ∙ ap (λ r. record (channels channel) { revents = r }) (sym (if_true _ _ b))
  | inr b ↦
      if_false _ _ b ∙ ap (λ r. record (channels channel) { revents = r }) (sym (if_false _ _ b))
]

module _ {E : Epoll} where
  fill_active_channels-active :
      (ready : List (Events × ℕ)) (p : EpollPoller E)
      → (fill_active_channels ready p).1 ≡ ready_channels ready
  unfolding fill_active_channels
  fill_active_channels-active [] p = refl
  fill_active_channels-active ((events, channel) ∷ ready) p =
      ap (◌∷◌ channel) (fill_active_channels-active ready _)

  fill_active_channels-channels :
      (ready : List (Events × ℕ)) (p : EpollPoller E) (channel : ℕ)
      → (fill_active_channels ready p).0.channels channel ≡ record (p.channels channel) {
        revents = received channel ready (p.channels channel).revents;
      }
  unfolding fill_active_channels set_revents
  fill_active_channels-channels [] p channel = refl
  fill_active_channels-channels ((events, q) ∷ ready) p channel =
      fill_active_channels-channels ready _ channel
      ∙ ap (λ (c : Channel). record c { revents = received channel ready c.revents })
          (put_revents p.channels q channel events)

  fill_active_channels-rest :
      (ready : List (Events × ℕ)) (p : EpollPoller E)
      → let p' = (fill_active_channels ready p).0 in
        (p'.channel_maps ≡ p.channel_maps) × (p'.epoll ≡ p.epoll) × (p'.events_size ≡ p.events_size)
  unfolding fill_active_channels
  fill_active_channels-rest [] p = (refl, refl, refl)
  fill_active_channels-rest ((events, channel) ∷ ready) p = fill_active_channels-rest ready _

  -- What `Polling` leaves when the kernel reports `ready`.
  pub record Polled (p : EpollPoller E) (ready : List (Events × ℕ)) (r : EpollPoller E × List ℕ)
      : Type 0 where
    pub active : r.1 ≡ ready_channels ready
    pub channels :
        (channel : ℕ)
        → r.0.channels channel ≡ record (p.channels channel) {
          revents = received channel ready (p.channels channel).revents;
        }
    pub inv : Inv r.0
    pub size : r.0.events_size ≡ (
        if ltb 0 (length ready) && length ready == p.events_size
        then p.events_size * 2
        else p.events_size)

  filled :
      (ready : List (Events × ℕ)) (p : EpollPoller E) (size : ℕ)
      → Inv p
      → let r = fill_active_channels ready p in
        ((channel : ℕ)
          → r.0.channels channel ≡ record (p.channels channel) {
            revents = received channel ready (p.channels channel).revents;
          })
        → Inv (record (r.0) { events_size = size })
  filled ready p size i same =
      let r = fill_active_channels ready p in
      let (em, ee, es) = fill_active_channels-rest ready p in
      record {
        entries = λ q.
            subst
              (λ (c : Channel).
                Entry q c.index c.events (r.0.channel_maps c.fd) (E.watched r.0.epoll c.fd))
              (sym (same q))
              (subst
                (λ (m : ℕ → Option ℕ).
                  Entry q (p.channels q).index (p.channels q).events (m (p.channels q).fd)
                    (E.watched r.0.epoll (p.channels q).fd))
                (sym em)
                (subst
                  (λ s.
                    Entry q (p.channels q).index (p.channels q).events
                      (p.channel_maps (p.channels q).fd) (E.watched s (p.channels q).fd))
                  (sym ee) (i.entries q)));
        free = λ fd h.
            ap (λ s. E.watched s fd) ee ∙ i.free fd (ap (λ (m : ℕ → Option ℕ). m fd) (sym em) ∙ h);
      }

  -- When `epoll_wait` reports events, `Polling` returns their channels in the order of the kernel,
  -- each with the events of its last report as the received ones, changes nothing else of a
  -- channel, and keeps the map, the indices and the interest list in agreement. The buffer of
  -- reports doubles when it was full.
  pub polling-Polled :
      (epoll_wait : ℕ → Transfer (List (Events × ℕ))) (ready : List (Events × ℕ))
      (p : EpollPoller E)
      → Inv p
      → epoll_wait p.events_size ≡ done ready
      → Polled p ready (polling epoll_wait p)
  unfolding polling take_reports
  polling-Polled epoll_wait ready p i e =
      subst (λ r. Polled p ready (take_reports r p)) (sym e)
        (elim (Bool-cases full) [
          | inl b ↦
              subst (λ r. Polled p ready r) (sym (if_true _ _ b))
                (record {
                  active = fill_active_channels-active ready p;
                  channels = fill_active_channels-channels ready p;
                  inv =
                      filled ready p (p.events_size * 2) i (fill_active_channels-channels ready p);
                  size = sym (if_true _ _ b);
                })
          | inr b ↦
              subst (λ r. Polled p ready r) (sym (if_false _ _ b))
                (record {
                  active = fill_active_channels-active ready p;
                  channels = fill_active_channels-channels ready p;
                  inv = filled ready p _ i (fill_active_channels-channels ready p);
                  size = (fill_active_channels-rest ready p).2 ∙ sym (if_false _ _ b);
                })
        ])
    where
      full : Bool
      full = ltb 0 (length ready) && length ready == p.events_size
