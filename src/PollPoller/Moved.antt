-- ===== src/PollPoller/Moved.antt =====
-- The array when the last entry takes the place of the one that is removed.
use my_net_lib.Common.{
  ==_iff, Bool-cases, ap, arith, drop_last, get_elem?, get_elem?-bound, get_elem?-drop_last,
  get_elem?-drop_last_stays, get_elem?-set_ne, get_elem?-set_self, inl, inr, length, length-set,
  negsuc, pos, put, put_ne, put_part, put_self, refl, set, some, some_eq, sym, ℕ, ◌+◌, ◌-◌, ◌<◌,
  ◌==◌, ◌∙◌, ◌≡◌, ◌≢◌, ◌⊎◌,
}
use my_net_lib.Channel.{Channel}
use my_net_lib.PollPoller.{PollFd, PollPoller}
use my_net_lib.PollPoller.Slots.{Slot, Slots, Frame, elsewhere, other_fd, not_last}

module _ (channel idx : ℕ) (p : PollPoller) (s : Slots p) (e0 last : PollFd)
    (h0 : get_elem? p.poll_list idx ≡ some e0) (same : e0.fd ≡ (p.channels channel).fd)
    (inside : idx + 1 < length p.poll_list)
    (h_last : get_elem? p.poll_list (length p.poll_list - 1) ≡ some last) where
  abbrev pub last_slot : Slot p (length p.poll_list - 1) last
  last_slot = s (length p.poll_list - 1) last h_last

  abbrev pub moved : PollPoller
  moved = record p {
    channels =
        put last_slot.channel (record (p.channels last_slot.channel) { index = pos idx })
          p.channels;
    poll_list = drop_last (set p.poll_list idx last);
  }

  pub not_moved :
      (q i : ℕ) → (p.channels q).index ≡ pos i → i ≢ length p.poll_list - 1 → q ≢ last_slot.channel
  not_moved q i e n same_q =
      let x : pos i ≡ pos (length p.poll_list - 1) =
        sym e ∙ ap (λ q. (p.channels q).index) same_q ∙ last_slot.at in
      n (cc)

  -- What is at position `i` now.
  moved_at :
      (i : ℕ) (e : PollFd)
      → get_elem? (drop_last (set p.poll_list idx last)) i ≡ some e
      → ((i ≡ idx) × (e ≡ last))
        ⊎ ((i ≢ idx) × (get_elem? p.poll_list i ≡ some e) × (i + 1 < length p.poll_list))
  moved_at i e h =
      let (h', bound) = get_elem?-drop_last (set p.poll_list idx last) i e h in
      elim (Bool-cases (i == idx)) [
        | inl b ↦
            let ii : i ≡ idx = (==_iff i idx).0 b in
            let hh : some last ≡ some e =
              sym (get_elem?-set_self p.poll_list idx last (omega arith))
              ∙ ap (get_elem? (set p.poll_list idx last)) (sym ii)
              ∙ h' in
            inl (ii, sym (some_eq hh))
        | inr b ↦
            let n : i ≢ idx = λ e. absurd (cc ((==_iff i idx).1 e)) in
            inr (
              n,
              sym (get_elem?-set_ne p.poll_list idx i last (λ e. n (sym e))) ∙ h',
              omega (arith, bound, length-set p.poll_list idx last),
            )
      ]

  pub moved-Slots : Slots moved
  moved-Slots i e h = elim (moved_at i e h) [
    | inl (ii, ee) ↦ record {
      channel = last_slot.channel;
      mapped = ap (λ (e : PollFd). p.channel_maps e.fd) ee ∙ last_slot.mapped;
      at =
          ap (λ (c : Channel). c.index) (put_self last_slot.channel _ p.channels) ∙ ap pos (sym ii);
      same_fd =
          ap (λ (c : Channel). c.fd) (put_self last_slot.channel _ p.channels)
          ∙ last_slot.same_fd
          ∙ ap (λ (e : PollFd). e.fd) (sym ee);
    }
    | inr (n, h', bound) ↦
        let u : Slot p i e = s i e h' in
        let kept =
          put_ne (record (p.channels last_slot.channel) { index = pos idx }) p.channels
            (not_moved u.channel i u.at (λ e. absurd (omega arith))) in
        record {
          channel = u.channel;
          mapped = u.mapped;
          at = ap (λ (c : Channel). c.index) kept ∙ u.at;
          same_fd = ap (λ (c : Channel). c.fd) kept ∙ u.same_fd;
        }
  ]

  pub moved_gone :
      (i : ℕ) (e : PollFd) → get_elem? moved.poll_list i ≡ some e → e.fd ≢ (p.channels channel).fd
  moved_gone i e h e_fd = elim (moved_at i e h) [
    | inl (ii, ee) ↦
        other_fd {p = p} s h0 h_last (λ x. absurd (omega arith))
          (ap (λ (e : PollFd). e.fd) (sym ee) ∙ e_fd ∙ sym same)
    | inr (n, h', bound) ↦ other_fd {p = p} s h0 h' n (e_fd ∙ sym same)
  ]

  moved_stays :
      (i : ℕ) (e : PollFd)
      → get_elem? p.poll_list i ≡ some e
      → idx ≢ i
      → (j : ℕ) × (get_elem? moved.poll_list j ≡ some e)
  moved_stays i e h n = elim (Bool-cases (i == length p.poll_list - 1)) [
    | inl b ↦
        let ii : i ≡ length p.poll_list - 1 = (==_iff i (length p.poll_list - 1)).0 b in
        let ee : some last ≡ some e = sym h_last ∙ ap (get_elem? p.poll_list) (sym ii) ∙ h in
        (
          idx,
          get_elem?-drop_last_stays (set p.poll_list idx last) idx e
              (get_elem?-set_self p.poll_list idx last (omega arith) ∙ ee)
              (omega (arith, length-set p.poll_list idx last)),
        )
    | inr b ↦
        let not_there : i ≢ length p.poll_list - 1 =
          λ e. absurd (cc ((==_iff i (length p.poll_list - 1)).1 e)) in
        let bound = get_elem?-bound p.poll_list i e h in
        (
          i,
          get_elem?-drop_last_stays (set p.poll_list idx last) i e
              (get_elem?-set_ne p.poll_list idx i last n ∙ h)
              (omega (
                arith,
                length-set p.poll_list idx last,
                not_last i (length p.poll_list) bound (λ e. absurd (not_there (omega arith))),
              )),
        )
  ]

  pub moved-Frame : Frame channel p moved
  moved-Frame = record {
    maps = λ fd n. refl;
    fds = put_part (λ (c : Channel). c.fd) p.channels refl;
    unplaced = λ q n ne e.
        let other : q ≢ last_slot.channel = λ same.
          let x : pos (length p.poll_list - 1) ≡ negsuc n =
            sym last_slot.at ∙ ap (λ q. (p.channels q).index) (sym same) ∙ e in
          absurd (cc) in
        ap (λ (c : Channel). c.index) (put_ne _ p.channels other) ∙ e;
    stays = λ i e h ne. moved_stays i e h (elsewhere p.poll_list h0 same h ne);
    no_more = λ j e h ne. elim (moved_at j e h) [
      | inl (jj, ee) ↦ (length p.poll_list - 1, h_last ∙ ap some (sym ee))
      | inr (n, h', bound) ↦ (j, h')
    ];
  }
