-- ===== src/PollPoller/Remove.antt =====
-- `RemoveChannel`
use my_net_lib.Common.{
  ==_iff, Bool-cases, Option, ap, arith, drop_last, get_elem?, get_elem?-bound, get_elem?-drop_last,
  get_elem?-drop_last_stays, get_elem?-inside, if_false, if_true, inl, inr, length,
  length-drop_last, length-set, lt→ltb, none, pos, put_ne, refl, set, some, subst, sym, ℕ, ◌+◌, ◌-◌,
  ◌<◌, ◌==◌, ◌>>=◌, ◌∙◌, ◌≡◌, ◌≢◌,
}
use my_net_lib.Channel.{Channel, set_index}
use my_net_lib.PollPoller.{PollFd, PollPoller, move_last, remove_at, remove_channel}
use my_net_lib.PollPoller.Slots.{Slots, Frame, elsewhere, other_fd, not_last}
use my_net_lib.PollPoller.Moved.{last_slot, moved, not_moved, moved-Slots, moved_gone, moved-Frame}

-- What `RemoveChannel` of `channel` leaves: the entries are in their places, and none has its file
-- descriptor; the map still finds the channel, which keeps its index.
pub record Vacated (channel : ℕ) (p : PollPoller) (r : Option PollPoller) : Type 0 where
  pub poller : PollPoller
  pub returns : r ≡ some poller
  pub slots : Slots poller
  pub shorter : length poller.poll_list + 1 ≡ length p.poll_list
  pub gone :
      (i : ℕ) (e : PollFd) → get_elem? poller.poll_list i ≡ some e → e.fd ≢ (p.channels channel).fd
  pub frame : Frame channel p poller
  pub still_mapped : poller.channel_maps (p.channels channel).fd ≡ some channel
  pub stale_index : (poller.channels channel).index ≡ (p.channels channel).index

-- The entry is the last.
remove_last :
    (channel idx : ℕ) (p : PollPoller) (s : Slots p) (e0 : PollFd)
    → get_elem? p.poll_list idx ≡ some e0
    → e0.fd ≡ (p.channels channel).fd
    → p.channel_maps (p.channels channel).fd ≡ some channel
    → idx + 1 ≡ length p.poll_list
    → Vacated channel p (some (record p { poll_list = drop_last p.poll_list }))
remove_last channel idx p s e0 h0 same m last = record {
  poller = record p { poll_list = drop_last p.poll_list };
  returns = refl;
  slots = λ i e h.
      let t = s i e (get_elem?-drop_last p.poll_list i e h).0 in
      record { channel = t.channel; mapped = t.mapped; at = t.at; same_fd = t.same_fd };
  shorter = length-drop_last p.poll_list (omega arith);
  gone = λ i e h e_fd.
      let (h', bound) = get_elem?-drop_last p.poll_list i e h in
      other_fd {p = p} s h0 h' (λ i_idx. absurd (omega arith)) (e_fd ∙ sym same);
  frame = record {
    maps = λ fd n. refl;
    fds = λ q. refl;
    unplaced = λ q n ne e. e;
    stays = λ i e h ne.
        let apart : idx ≢ i = elsewhere p.poll_list h0 same h ne in
        let inside = get_elem?-bound p.poll_list i e h in
        (
          i,
          get_elem?-drop_last_stays p.poll_list i e h
              (not_last i (length p.poll_list) inside (λ e. absurd (apart (omega arith)))),
        );
    no_more = λ j e h ne. (j, (get_elem?-drop_last p.poll_list j e h).0);
  };
  still_mapped = m;
  stale_index = refl;
}

-- The last entry, of the channel `q`, takes the place of the entry that is removed.
remove_middle :
    (channel idx : ℕ) (p : PollPoller) (s : Slots p) (e0 last : PollFd)
    → get_elem? p.poll_list idx ≡ some e0
    → e0.fd ≡ (p.channels channel).fd
    → p.channel_maps (p.channels channel).fd ≡ some channel
    → (p.channels channel).index ≡ pos idx
    → idx + 1 < length p.poll_list
    → get_elem? p.poll_list (length p.poll_list - 1) ≡ some last
    → Vacated channel p (move_last idx last (p.channel_maps last.fd) p)
unfolding move_last set_index
remove_middle channel idx p s e0 last h0 same m ei inside h_last =
    let t = last_slot channel idx p s e0 last h0 same inside h_last in
    subst (λ q. Vacated channel p (move_last idx last q p)) (sym t.mapped)
      (record {
        poller = moved channel idx p s e0 last h0 same inside h_last;
        returns = refl;
        slots = moved-Slots channel idx p s e0 last h0 same inside h_last;
        shorter = omega (
          arith,
          length-drop_last (set p.poll_list idx last)
              (omega (arith, length-set p.poll_list idx last)),
          length-set p.poll_list idx last,
        );
        gone = moved_gone channel idx p s e0 last h0 same inside h_last;
        frame = moved-Frame channel idx p s e0 last h0 same inside h_last;
        still_mapped = m;
        stale_index =
            ap (λ (c : Channel). c.index)
              (put_ne (record (p.channels t.channel) { index = pos idx }) p.channels
                (not_moved channel idx p s e0 last h0 same inside h_last channel idx ei
                  (λ e. absurd (omega arith))));
      })

-- `RemoveChannel` of a channel that has an entry takes the entry out, moves the last one into its
-- place and tells that one's channel its new index. The channel itself is left with its old index,
-- and the map still finds it.
pub remove_channel-Vacated :
    (channel idx : ℕ) (p : PollPoller) (e0 : PollFd)
    → Slots p
    → (p.channels channel).index ≡ pos idx
    → get_elem? p.poll_list idx ≡ some e0
    → e0.fd ≡ (p.channels channel).fd
    → p.channel_maps (p.channels channel).fd ≡ some channel
    → Vacated channel p (remove_channel channel p)
unfolding remove_channel remove_at
remove_channel-Vacated channel idx p e0 s ei h0 same m =
    subst (λ i. Vacated channel p (remove_at i p)) (sym ei)
      (subst (Vacated channel p) (sym (if_true _ none (lt→ltb _ _ inside)))
        (elim (Bool-cases (idx + 1 == length p.poll_list)) [
          | inl b ↦ subst (Vacated channel p) (sym (if_true _ _ b)) (
              remove_last channel idx p s e0 h0 same m
                ((==_iff (idx + 1) (length p.poll_list)).0 b))
          | inr b ↦
              let n : idx + 1 ≢ length p.poll_list =
                λ e. absurd (cc ((==_iff (idx + 1) (length p.poll_list)).1 e)) in
              let (last, h_last) =
                get_elem?-inside p.poll_list (length p.poll_list - 1) (omega (arith, inside)) in
              subst (Vacated channel p) (sym (if_false _ _ b)) (
                subst
                  (λ o.
                    Vacated channel p (o >>= λ last. move_last idx last (p.channel_maps last.fd) p))
                  (sym h_last)
                  (remove_middle channel idx p s e0 last h0 same m ei
                    (not_last idx (length p.poll_list) inside n) h_last))
        ]))
  where
    inside : idx < length p.poll_list
    inside = get_elem?-bound p.poll_list idx e0 h0
