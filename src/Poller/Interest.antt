-- ===== src/Poller/Interest.antt =====
-- What a poller over epoll and the kernel have for a channel.
use my_net_lib.Common.{
  Bool, Bool-cases, Option, arith, false, if◌then◌else◌, inl, inr, none, not, put, refl, some, sym,
  true, ℕ, ℤ, ◌&&◌, ◌||◌, ◌≡◌, ◌≢◌,
}
use my_net_lib.Channel.{Channel, Events, none_event, is_none_event, is_empty}
use my_net_lib.EpollPoller.{Epoll, EpollPoller, k_new, update_channel, remove_channel}
use my_net_lib.EpollPoller.Inv.{Entry, fresh, added, deleted}
use my_net_lib.Poller.{Poller, Watch, unknown, removed, wants, update_watch}

-- What the kernel reports for an entry of the interest list.
abbrev pub told_events : Option (Events × ℕ) → Events
told_events none = none_event
told_events (some (events, q)) = events

abbrev pub epoll_poller : Epoll → Poller
epoll_poller E = record {
  State = EpollPoller E;
  set_events = λ q events p. record p {
    channels = put q (record (p.channels q) { events = events }) p.channels;
  };
  update_channel = update_channel;
  remove_channel = remove_channel;
  asked = λ p fd. told_events (E.watched p.epoll fd);
}

-- The channel map and the interest list have what the life of `q` says.
abbrev pub Holds : ℕ → Option ℕ → Option (Events × ℕ) → Watch → Type 0
Holds q m w (wants events) = (m ≡ some q) × (told_events w ≡ events)
Holds q m w _ = m ≡ none

pub is_empty-none : (a : Events) → is_empty a ≡ true → a ≡ none_event
is_empty-none a h = none_set a.pollin a.pollpri a.pollout a.pollerr a.pollhup h
  where
    none_set :
        (a b c d e : Bool)
        → not (a || (b || (c || (d || e)))) ≡ true
        → record { pollin = a; pollpri = b; pollout = c; pollerr = d; pollhup = e } ≡ none_event
    none_set a b c d e h = ground arith

pub told_if :
    (q : ℕ) (b : Bool) (c : Channel)
    → told_events (if b && is_none_event c then none else some (c.events, q)) ≡ c.events
told_if q true c = elim (Bool-cases (is_none_event c)) [
  | inl h ↦ rw h (sym (is_empty-none c.events h))
  | inr h ↦ rw h refl
]
told_if q false c = refl

-- A channel that is not in the map, and may be updated, has a free file descriptor.
pub free_at :
    (q : ℕ) (events : Events) {m : Option ℕ} (entry : Option (Events × ℕ)) (x : Watch) {y : Watch}
    → update_watch x events ≡ some y
    → Holds q m entry x
    → m ≢ some q
    → m ≡ none
free_at q events entry unknown h holds n = holds
free_at q events entry removed h holds n = holds
free_at q events entry (wants e) h holds n = absurd (n (holds.0))

pub new_apart :
    {q : ℕ} {index : ℤ} {told : Events} {m : Option ℕ} {entry : Option (Events × ℕ)}
    → Entry q index told m entry
    → index ≡ k_new
    → m ≢ some q
new_apart (fresh e n) e' = n
new_apart (added e em ew) e' = absurd (cc)
new_apart (deleted e em ew) e' = absurd (cc)
