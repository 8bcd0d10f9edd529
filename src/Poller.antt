-- ===== src/Poller.antt =====
-- include/poller.h: what a loop asks of its poller, and what it relies on; the two pollers fill it.
pub mod Interest
pub mod Epoll
pub mod Entries
pub mod Poll
pub mod Agree
mod Tests
use my_net_lib.Common.{
  >>=-eq-some, List, Option, [], ap, none, put, refl, some, some_eq, subst, ℕ, ◌>>=◌, ◌∙◌, ◌∷◌, ◌≡◌,
}
use my_net_lib.Channel.{Channel, Events, none_event}

-- The virtual functions; beside them `set_events`, as the methods of a channel change the events
-- that it wants, and what the kernel is asked to report for a file descriptor.
pub record Poller : Type 1 where
  pub State : Type 0
  pub set_events : ℕ → Events → State → State
  pub update_channel : ℕ → State → Option State
  pub remove_channel : ℕ → State → Option State
  pub asked : State → ℕ → Events

-- The life of a channel in its poller.
pub data Watch : Type 0 where
  unknown removed : Watch
  wants : Events → Watch

-- The events that are wanted of it.
abbrev pub wanted : Watch → Events
wanted (wants events) = events
wanted _ = none_event

-- A channel wants other events and says so with `UpdateChannel`, or leaves with `RemoveChannel`.
pub data PollerCall : Type 0 where
  updates : ℕ → Events → PollerCall
  removes : ℕ → PollerCall

-- What a loop may call: a channel that was removed does not come back.
abbrev pub update_watch : Watch → Events → Option Watch
update_watch removed events = none
update_watch _ events = some (wants events)

abbrev pub remove_watch : Watch → Option Watch
remove_watch (wants events) = some removed
remove_watch _ = none

pub update_watch-wants :
    (x : Watch) (events : Events) {y : Watch} → update_watch x events ≡ some y → wants events ≡ y
update_watch-wants unknown events h = some_eq h
update_watch-wants removed events h = absurd (cc)
update_watch-wants (wants e) events h = some_eq h

pub remove_watch-wants :
    (x : Watch) {y : Watch}
    → remove_watch x ≡ some y
    → (events : Events) × (x ≡ wants events) × (removed ≡ y)
remove_watch-wants unknown h = absurd (cc)
remove_watch-wants removed h = absurd (cc)
remove_watch-wants (wants e) h = (e, refl, some_eq h)

abbrev pub Watches : Type 0
Watches = ℕ → Watch

abbrev pub no_watches : Watches
no_watches q = unknown

abbrev pub request_watch : PollerCall → Watches → Option Watches
request_watch (updates q events) w = update_watch (w q) events >>= λ x. some (put q x w)
request_watch (removes q) w = remove_watch (w q) >>= λ x. some (put q x w)

abbrev pub requests_watch : List PollerCall → Watches → Option Watches
requests_watch [] w = some w
requests_watch (c ∷ cs) w = request_watch c w >>= requests_watch cs

module _ (P : Poller) where
  abbrev pub request : PollerCall → P.State → Option P.State
  request (updates q events) s = P.update_channel q (P.set_events q events s)
  request (removes q) s = P.remove_channel q s

  abbrev pub requests : List PollerCall → P.State → Option P.State
  requests [] s = some s
  requests (c ∷ cs) s = request c s >>= requests cs

-- The laws, for channels on the file descriptors `fd` and a poller without channels: the state represents the lives of the
-- channels, and what it asks of the kernel are the events that they want.
pub record IsPoller (fd : ℕ → ℕ) (P : Poller) (first : P.State) : Type 1 where
  pub Represents : P.State → Watches → Type 0
  pub first_law : Represents first no_watches
  pub update_law :
      (q : ℕ) (events : Events) (x : Watch) (s : P.State) (w : Watches)
      → Represents s w
      → update_watch (w q) events ≡ some x
      → (s' : P.State) × (P.update_channel q (P.set_events q events s) ≡ some s')
        × Represents s' (put q x w)
  pub remove_law :
      (q : ℕ) (x : Watch) (s : P.State) (w : Watches)
      → Represents s w
      → remove_watch (w q) ≡ some x
      → (s' : P.State) × (P.remove_channel q s ≡ some s') × Represents s' (put q x w)
  pub asked_law :
      (q : ℕ) (s : P.State) (w : Watches) → Represents s w → P.asked s (fd q) ≡ wanted (w q)

module _ (fd : ℕ → ℕ) (P : Poller) (first : P.State) (law : IsPoller fd P first) where
  request_lem :
      (c : PollerCall) {w w' : Watches} (s : P.State)
      → law.Represents s w
      → request_watch c w ≡ some w'
      → (s' : P.State) × (request P c s ≡ some s') × law.Represents s' w'
  request_lem (updates q events) {w} {w'} s r h =
      let (x, e, e') = >>=-eq-some (update_watch (w q) events) (λ x. some (put q x w)) h in
      let (s', es, r') = law.update_law q events x s w r e in
      (s', es, subst (law.Represents s') (some_eq e') r')
  request_lem (removes q) {w} {w'} s r h =
      let (x, e, e') = >>=-eq-some (remove_watch (w q)) (λ x. some (put q x w)) h in
      let (s', es, r') = law.remove_law q x s w r e in
      (s', es, subst (law.Represents s') (some_eq e') r')

  requests_lem :
      (cs : List PollerCall) {w w' : Watches} (s : P.State)
      → law.Represents s w
      → requests_watch cs w ≡ some w'
      → (s' : P.State) × (requests P cs s ≡ some s') × ((q : ℕ) → P.asked s' (fd q) ≡ wanted (w' q))
  requests_lem [] {w} {w'} s r h =
      (s, refl, λ q. law.asked_law q s w' (subst (law.Represents s) (some_eq h) r))
  requests_lem (c ∷ cs) {w} s r h =
      let (w1, e, h') = >>=-eq-some (request_watch c w) (requests_watch cs) h in
      let (s1, e1, r1) = request_lem c s r e in
      let (s', e', told) = requests_lem cs s1 r1 h' in
      (s', ap (λ o. o >>= requests P cs) e1 ∙ e', told)

  -- After every history of calls the poller has not failed, and asks for the events that each channel
  -- wants.
  pub history_lem :
      (cs : List PollerCall) {w : Watches}
      → requests_watch cs no_watches ≡ some w
      → (s : P.State) × (requests P cs first ≡ some s) × ((q : ℕ) → P.asked s (fd q) ≡ wanted (w q))
  history_lem cs h = requests_lem cs first law.first_law h
