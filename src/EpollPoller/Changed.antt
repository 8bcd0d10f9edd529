-- ===== src/EpollPoller/Changed.antt =====
-- What a call on one channel changes, and that the invariant then holds again.
use my_net_lib.Common.{
  ==_iff, Bool-cases, Option, ap, else_case, inl, inr, none, put, put_ne, put_self, some, subst,
  sym, then_case, ℕ, ℤ, ◌==◌, ◌∙◌, ◌≡◌, ◌≢◌,
}
use my_net_lib.Channel.{Channel, Events}
use my_net_lib.EpollPoller.{Epoll, EpollPoller}
use my_net_lib.EpollPoller.Inv.{Entry, EntryOf, InvBut, Inv, Entry-put}

-- No other channel stands at a file descriptor that is free, or that is this channel's.
pub fresh_mine : {channel : ℕ} {m : Option ℕ} → m ≡ none → (q : ℕ) → q ≢ channel → m ≢ some q
fresh_mine e q n e' = absurd (cc)

pub known_mine :
    {channel : ℕ} {m : Option ℕ} → m ≡ some channel → (q : ℕ) → q ≢ channel → m ≢ some q
known_mine e q n e' = n (cc)

module _ {E : Epoll} where
  -- The entry of `q`, by what the channels have at `q`.
  Entry-at :
      (p : EpollPoller E) (q : ℕ) {c : Channel}
      → p.channels q ≡ c
      → Entry q c.index c.events (p.channel_maps c.fd) (E.watched p.epoll c.fd)
      → EntryOf p q (p.channels q).events
  Entry-at p q e =
      subst (λ c. Entry q c.index c.events (p.channel_maps c.fd) (E.watched p.epoll c.fd)) (sym e)

  -- `p'` is `p` but for the index of `channel`, the entry of the map at its file descriptor and that
  -- of the interest list of the kernel.
  pub record Changed (channel : ℕ) (idx : ℤ) (m : Option ℕ) (w : Option (Events × ℕ))
      (p p' : EpollPoller E) : Type 0 where
    pub channels :
        (q : ℕ)
        → p'.channels q ≡ put channel (record (p.channels channel) { index = idx }) p.channels q
    pub maps : (i : ℕ) → p'.channel_maps i ≡ put (p.channels channel).fd m p.channel_maps i
    pub lists : (i : ℕ) → E.watched p'.epoll i ≡ put (p.channels channel).fd w (E.watched p.epoll) i

  -- The invariant holds again when the entry of `channel` is right.
  pub Changed-Inv :
      {channel : ℕ} {told : Events} {p p' : EpollPoller E} {idx : ℤ} {m : Option ℕ}
      {w : Option (Events × ℕ)}
      → InvBut channel told p
      → Changed channel idx m w p p'
      → ((q : ℕ) → q ≢ channel → m ≢ some q)
      → ((q : ℕ) → q ≢ channel → p.channel_maps (p.channels channel).fd ≢ some q)
      → Entry channel idx (p.channels channel).events m w
      → (m ≡ none → w ≡ none)
      → Inv p'
  Changed-Inv {channel} {told} {p} {p'} {idx} {m} {w} i ch apart mine entry gone = record {
    entries = λ q. elim (Bool-cases (q == channel)) [
      | inl b ↦ subst (λ q. EntryOf p' q (p'.channels q).events) (sym ((==_iff q channel).0 b)) this
      | inr b ↦ other q (λ e. absurd (cc ((==_iff q channel).1 e)))
    ];
    free = λ fd h. elim (Bool-cases (fd == c.fd)) [
      | inl b ↦
          ch.lists fd
          ∙ ap (put c.fd w (E.watched p.epoll)) ((==_iff fd c.fd).0 b)
          ∙ put_self c.fd w (E.watched p.epoll)
          ∙ gone (then_case _ b (sym (ch.maps fd) ∙ h))
      | inr b ↦
          ch.lists fd
          ∙ put_ne w (E.watched p.epoll) (λ e. absurd (cc ((==_iff fd c.fd).1 e)))
          ∙ i.free fd (else_case _ b (sym (ch.maps fd) ∙ h))
    ];
  }
    where
      c : Channel
      c = p.channels channel

      this : EntryOf p' channel (p'.channels channel).events
      this =
          Entry-at p' channel
            (ch.channels channel ∙ put_self channel (record c { index = idx }) p.channels)
            (subst (λ m. Entry channel idx c.events m (E.watched p'.epoll c.fd))
              (sym (ch.maps c.fd ∙ put_self c.fd m p.channel_maps))
              (subst (λ w. Entry channel idx c.events m w)
                (sym (ch.lists c.fd ∙ put_self c.fd w (E.watched p.epoll))) entry))

      other : (q : ℕ) → q ≢ channel → EntryOf p' q (p'.channels q).events
      other q n = Entry-at p' q (ch.channels q ∙ put_ne (record c { index = idx }) p.channels n) (
          subst
            (λ m.
              Entry q (p.channels q).index (p.channels q).events m
                (E.watched p'.epoll (p.channels q).fd))
            (sym (ch.maps (p.channels q).fd))
            (Entry-put p.channel_maps (E.watched p.epoll) m w (apart q n) (mine q n)
              (ch.lists (p.channels q).fd) (i.others q n)))
