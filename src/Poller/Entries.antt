-- ===== src/Poller/Entries.antt =====
-- What the array of a poller over poll has for a channel.
use my_net_lib.Common.{
  ==_iff, Bool-cases, List, [], ap, arith, get_elem?, if_false, if_true, if◌then◌else◌, inl, inr,
  negsuc, pos, put, refl, some, some_eq, suc, sym, zero, ℕ, ◌==◌, ◌∙◌, ◌∷◌, ◌≡◌, ◌≢◌,
}
use my_net_lib.Channel.{Events, none_event}
use my_net_lib.PollPoller.{PollFd, PollPoller, update_channel, remove_channel}
use my_net_lib.PollPoller.Slots.{Slots, Frame}
use my_net_lib.Poller.{Poller, Watch, unknown, removed, wants}

-- The events at the first entry of a file descriptor.
abbrev pub asked_of : List PollFd → ℕ → Events
asked_of [] fd = none_event
asked_of (e ∷ es) fd = if e.fd == fd then e.events else asked_of es fd

abbrev pub with_events : ℕ → Events → PollPoller → PollPoller
with_events q events p = record p {
  channels = put q (record (p.channels q) { events = events }) p.channels;
}

abbrev pub poll_poller : Poller
poll_poller = record {
  State = PollPoller;
  set_events = with_events;
  update_channel = update_channel;
  remove_channel = remove_channel;
  asked = λ p fd. asked_of p.poll_list fd;
}

abbrev pub IsAbsent : List PollFd → ℕ → Type 0
IsAbsent es fd = (i : ℕ) (e : PollFd) → get_elem? es i ≡ some e → e.fd ≢ fd

-- The channel `q` has an entry, with the events `events`.
pub record Placed (p : PollPoller) (q fd : ℕ) (events : Events) : Type 0 where
  pub mapped : p.channel_maps fd ≡ some q
  pub idx : ℕ
  pub entry : PollFd
  pub at : (p.channels q).index ≡ pos idx
  pub there : get_elem? p.poll_list idx ≡ some entry
  pub same_fd : entry.fd ≡ fd
  pub told : entry.events ≡ events

abbrev pub Holds : PollPoller → ℕ → ℕ → Watch → Type 0
Holds p q fd unknown = ((p.channels q).index ≡ negsuc 0) × IsAbsent p.poll_list fd
Holds p q fd removed = IsAbsent p.poll_list fd
Holds p q fd (wants events) = Placed p q fd events

pub asked_absent : (es : List PollFd) (fd : ℕ) → IsAbsent es fd → asked_of es fd ≡ none_event
asked_absent [] fd h = refl
asked_absent (e ∷ es) fd h = elim (Bool-cases (e.fd == fd)) [
  | inl b ↦ absurd (h 0 e refl ((==_iff e.fd fd).0 b))
  | inr b ↦ if_false _ _ b ∙ asked_absent es fd (λ i. h (suc i))
]

pub asked_placed :
    (es : List PollFd) (i fd : ℕ) (e : PollFd)
    → get_elem? es i ≡ some e
    → e.fd ≡ fd
    → ((j : ℕ) (f : PollFd) → get_elem? es j ≡ some f → f.fd ≡ fd → j ≡ i)
    → asked_of es fd ≡ e.events
asked_placed [] i fd e h same only = absurd (cc)
asked_placed (x ∷ xs) zero fd e h same only =
    let xe : x ≡ e = some_eq h in
    if_true _ _ ((==_iff x.fd fd).1 (ap (λ (e : PollFd). e.fd) xe ∙ same))
    ∙ ap (λ (e : PollFd). e.events) xe
asked_placed (x ∷ xs) (suc i) fd e h same only = elim (Bool-cases (x.fd == fd)) [
  | inl b ↦ let z : 0 ≡ suc i = only 0 x refl ((==_iff x.fd fd).0 b) in absurd (omega arith)
  | inr b ↦
      if_false _ _ b
      ∙ asked_placed xs i fd e h same
          (λ j f hj fj. let z : suc j ≡ suc i = only (suc j) f hj fj in omega arith)
]

-- A call on `channel` leaves the lives of the others.
pub Frame-Holds :
    (channel q fd : ℕ) (p p' : PollPoller) (x : Watch)
    → Frame channel p p'
    → Slots p'
    → q ≢ channel
    → fd ≢ (p.channels channel).fd
    → Holds p q fd x
    → Holds p' q fd x
Frame-Holds channel q fd p p' unknown f s n apart h = (
  f.unplaced q 0 n h.0,
  λ j e at same.
      let (i, there) = f.no_more j e at (λ e'. apart (sym same ∙ e')) in h.1 i e there same,
)
Frame-Holds channel q fd p p' removed f s n apart h = λ j e at same.
    let (i, there) = f.no_more j e at (λ e'. apart (sym same ∙ e')) in h i e there same
Frame-Holds channel q fd p p' (wants events) f s n apart h =
    let (j, there) = f.stays h.idx h.entry h.there (λ e. apart (sym h.same_fd ∙ e)) in
    let t = s j h.entry there in
    let m : some (t.channel) ≡ some q =
      sym t.mapped ∙ ap p'.channel_maps h.same_fd ∙ f.maps fd apart ∙ h.mapped in
    record {
      mapped = f.maps fd apart ∙ h.mapped;
      idx = j;
      entry = h.entry;
      at = ap (λ q. (p'.channels q).index) (sym (some_eq m)) ∙ t.at;
      there = there;
      same_fd = h.same_fd;
      told = h.told;
    }
