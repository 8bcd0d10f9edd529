-- ===== src/PollPoller/Slots.antt =====
-- Each entry of the array is at its channel's index.
use my_net_lib.Common.{
  List, ap, arith, get_elem?, negsuc, pos, some, some_eq, sym, ℕ, ◌+◌, ◌<◌, ◌∙◌, ◌≡◌, ◌≢◌,
}
use my_net_lib.PollPoller.{PollFd, PollPoller}

-- The entry `e` at position `i` has a channel, which the map finds.
pub record Slot (p : PollPoller) (i : ℕ) (e : PollFd) : Type 0 where
  pub channel : ℕ
  pub mapped : p.channel_maps e.fd ≡ some channel
  pub at : (p.channels channel).index ≡ pos i
  pub same_fd : (p.channels channel).fd ≡ e.fd

abbrev pub Slots : PollPoller → Type 0
Slots p = (i : ℕ) (e : PollFd) → get_elem? p.poll_list i ≡ some e → Slot p i e

-- Two entries with one file descriptor are one.
pub Slots-distinct :
    {p : PollPoller} {i j : ℕ} {e f : PollFd} → Slot p i e → Slot p j f → e.fd ≡ f.fd → i ≡ j
Slots-distinct {p} {i} {j} {e} {f} s t h =
    pos_eq (sym s.at ∙ ap (λ q. (p.channels q).index) same ∙ t.at)
  where
    same : s.channel ≡ t.channel
    same =
        let m : some (s.channel) ≡ some (t.channel) =
          sym s.mapped ∙ ap p.channel_maps h ∙ t.mapped in
        cc

    pos_eq : pos i ≡ pos j → i ≡ j
    pos_eq e = cc

pub not_last : (a b : ℕ) → a < b → a + 1 ≢ b → a + 1 < b
not_last a b h n = ground arith

-- Another position has another file descriptor.
pub other_fd :
    {p : PollPoller} {idx i : ℕ} {e0 e : PollFd}
    → Slots p
    → get_elem? p.poll_list idx ≡ some e0
    → get_elem? p.poll_list i ≡ some e
    → i ≢ idx
    → e.fd ≢ e0.fd
other_fd s h0 h n same = n (Slots-distinct (s _ _ h) (s _ _ h0) same)

-- An entry of another file descriptor is elsewhere.
pub elsewhere :
    (xs : List PollFd) {idx i fd : ℕ} {e0 e : PollFd}
    → get_elem? xs idx ≡ some e0
    → e0.fd ≡ fd
    → get_elem? xs i ≡ some e
    → e.fd ≢ fd
    → idx ≢ i
elsewhere xs {e0 = e0} {e} h0 same h ne ii =
    let ee : e0 ≡ e = some_eq (sym h0 ∙ ap (get_elem? xs) ii ∙ h) in
    ne (ap (λ (e : PollFd). e.fd) (sym ee) ∙ same)

-- `p'` is `p` but for `channel`: the entries of the others are still there, at what places they may
-- be, and there are no more of them.
pub record Frame (channel : ℕ) (p p' : PollPoller) : Type 0 where
  pub maps : (fd : ℕ) → fd ≢ (p.channels channel).fd → p'.channel_maps fd ≡ p.channel_maps fd
  pub fds : (q : ℕ) → (p'.channels q).fd ≡ (p.channels q).fd
  pub unplaced :
      (q n : ℕ) → q ≢ channel → (p.channels q).index ≡ negsuc n → (p'.channels q).index ≡ negsuc n
  pub stays :
      (i : ℕ) (e : PollFd)
      → get_elem? p.poll_list i ≡ some e
      → e.fd ≢ (p.channels channel).fd
      → (j : ℕ) × (get_elem? p'.poll_list j ≡ some e)
  pub no_more :
      (j : ℕ) (e : PollFd)
      → get_elem? p'.poll_list j ≡ some e
      → e.fd ≢ (p.channels channel).fd
      → (i : ℕ) × (get_elem? p.poll_list i ≡ some e)
