-- ===== src/PollPoller/Update.antt =====
-- `UpdateChannel`
use my_net_lib.Common.{
  ==_iff, Bool-cases, [], ap, get_elem?, get_elem?-append_one, get_elem?-append_stays,
  get_elem?-bound, get_elem?-set_ne, get_elem?-set_self, if_true, inl, inr, length, lt→ltb, negsuc,
  none, pos, put, put_ne, put_part, put_self, refl, set, some, some_eq, sym, ℕ, ◌++◌, ◌==◌, ◌∙◌,
  ◌∷◌, ◌≡◌, ◌≢◌, ◌⊎◌,
}
use my_net_lib.Channel.{Channel, set_index}
use my_net_lib.PollPoller.{PollFd, PollPoller, update_at, update_channel, poll_fd_of}
use my_net_lib.PollPoller.Slots.{Slot, Slots, Frame, elsewhere}

abbrev pub appended : ℕ → PollPoller → PollPoller
appended channel p =
    let c = p.channels channel in
    record {
      channels = put channel (record c { index = pos (length p.poll_list) }) p.channels;
      channel_maps = put c.fd (some channel) p.channel_maps;
      poll_list = p.poll_list ++ poll_fd_of c ∷ [];
    }

abbrev pub rewritten : (idx : ℕ) → ℕ → PollPoller → PollPoller
rewritten idx channel p = record p {
  poll_list = set p.poll_list idx (poll_fd_of (p.channels channel));
}

module _ (channel n : ℕ) (p : PollPoller) (s : Slots p) (ei : (p.channels channel).index ≡ negsuc n)
    (apart : (i : ℕ) (e : PollFd)
      → get_elem? p.poll_list i ≡ some e
      → e.fd ≢ (p.channels channel).fd) where
  -- `UpdateChannel` of a channel with a negative index, whose file descriptor has no entry, appends
  -- an entry with its events, and leaves the others in their places.
  pub update_channel_new : update_channel channel p ≡ some (appended channel p)
  unfolding update_channel update_at set_index
  update_channel_new = ap (λ i. update_at i channel p) ei

  other_channel : (q i : ℕ) → (p.channels q).index ≡ pos i → q ≢ channel
  other_channel q i at same =
      let x : pos i ≡ negsuc n = sym at ∙ ap (λ q. (p.channels q).index) same ∙ ei in absurd (cc)

  pub appended-Slots : Slots (appended channel p)
  appended-Slots i e h = elim (get_elem?-append_one p.poll_list (poll_fd_of c) i e h) [
    | inl h' ↦
        let u : Slot p i e = s i e h' in
        let kept = put_ne c' p.channels (other_channel u.channel i u.at) in
        record {
          channel = u.channel;
          mapped = put_ne (some channel) p.channel_maps (apart i e h') ∙ u.mapped;
          at = ap (λ (c : Channel). c.index) kept ∙ u.at;
          same_fd = ap (λ (c : Channel). c.fd) kept ∙ u.same_fd;
        }
    | inr (ii, ee) ↦ record {
      channel = channel;
      mapped =
          ap (λ (e : PollFd). (appended channel p).channel_maps e.fd) ee
          ∙ put_self c.fd (some channel) p.channel_maps;
      at = ap (λ (c : Channel). c.index) (put_self channel c' p.channels) ∙ ap pos (sym ii);
      same_fd =
          ap (λ (c : Channel). c.fd) (put_self channel c' p.channels)
          ∙ ap (λ (e : PollFd). e.fd) (sym ee);
    }
  ]
    where
      c : Channel
      c = p.channels channel

      c' : Channel
      c' = record c { index = pos (length p.poll_list) }

  pub appended-Frame : Frame channel p (appended channel p)
  appended-Frame = record {
    maps = λ fd n. put_ne (some channel) p.channel_maps n;
    fds = put_part (λ (c : Channel). c.fd) p.channels refl;
    unplaced = λ q n ne e. ap (λ (c : Channel). c.index) (put_ne _ p.channels ne) ∙ e;
    stays = λ i e h ne. (i, get_elem?-append_stays p.poll_list _ i e h);
    no_more = λ j e h ne.
        elim (get_elem?-append_one p.poll_list (poll_fd_of (p.channels channel)) j e h) [
          | inl h' ↦ (j, h')
          | inr (jj, ee) ↦ absurd (ne (ap (λ (e : PollFd). e.fd) ee))
        ];
  }

module _ (channel idx : ℕ) (p : PollPoller) (e0 : PollFd) (s : Slots p)
    (ei : (p.channels channel).index ≡ pos idx) (h0 : get_elem? p.poll_list idx ≡ some e0)
    (same : e0.fd ≡ (p.channels channel).fd) where
  -- `UpdateChannel` of a channel that has an entry writes its events there.
  pub update_channel_known : update_channel channel p ≡ some (rewritten idx channel p)
  unfolding update_channel update_at
  update_channel_known =
      ap (λ i. update_at i channel p) ei
      ∙ if_true _ none (lt→ltb _ _ (get_elem?-bound p.poll_list idx e0 h0))

  rewritten_at :
      (i : ℕ) (e : PollFd)
      → get_elem? (rewritten idx channel p).poll_list i ≡ some e
      → ((i ≡ idx) × (e ≡ poll_fd_of (p.channels channel)))
        ⊎ ((i ≢ idx) × (get_elem? p.poll_list i ≡ some e))
  rewritten_at i e h = elim (Bool-cases (i == idx)) [
    | inl b ↦
        let ii : i ≡ idx = (==_iff i idx).0 b in
        inl (
          ii,
          some_eq (
              sym h
              ∙ ap (get_elem? (rewritten idx channel p).poll_list) ii
              ∙ get_elem?-set_self p.poll_list idx _ (get_elem?-bound p.poll_list idx e0 h0)),
        )
    | inr b ↦
        let n : i ≢ idx = λ e. absurd (cc ((==_iff i idx).1 e)) in
        inr (n, sym (get_elem?-set_ne p.poll_list idx i _ (λ e. n (sym e))) ∙ h)
  ]

  pub rewritten-Slots : Slots (rewritten idx channel p)
  rewritten-Slots i e h = elim (rewritten_at i e h) [
    | inl (ii, ee) ↦
        let u : Slot p idx e0 = s idx e0 h0 in
        let ef : e.fd ≡ e0.fd = ap (λ (e : PollFd). e.fd) ee ∙ sym same in
        record {
          channel = u.channel;
          mapped = ap p.channel_maps ef ∙ u.mapped;
          at = u.at ∙ ap pos (sym ii);
          same_fd = u.same_fd ∙ sym ef;
        }
    | inr (n, h') ↦
        let u : Slot p i e = s i e h' in
        record { channel = u.channel; mapped = u.mapped; at = u.at; same_fd = u.same_fd }
  ]

  pub rewritten-Frame : Frame channel p (rewritten idx channel p)
  rewritten-Frame = record {
    maps = λ fd n. refl;
    fds = λ q. refl;
    unplaced = λ q n ne e. e;
    stays = λ i e h ne.
        (i, get_elem?-set_ne p.poll_list idx i _ (elsewhere p.poll_list h0 same h ne) ∙ h);
    no_more = λ j e h ne. elim (rewritten_at j e h) [
      | inl (jj, ee) ↦ absurd (ne (ap (λ (e : PollFd). e.fd) ee))
      | inr (n, h') ↦ (j, h')
    ];
  }
