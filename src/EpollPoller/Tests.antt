-- ===== src/EpollPoller/Tests.antt =====
-- A poller at concrete inputs.
use my_net_lib.Common.{
  ==_iff, Bool, Bool-cases, Option, ap, false, if_false, inl, inr, none, pos, put, refl, some,
  subst, sym, then_case, true, ℕ, ◌==◌, ◌∙◌, ◌≡◌, ◌≢◌,
}
use my_net_lib.Channel.{Channel, Events, new_channel, read_event}
use my_net_lib.EpollPoller.{Ctl, ctl_add, ctl_mod, ctl_del, Epoll, EpollPoller}
use my_net_lib.EpollPoller.Inv.{IsEpoll, fresh, added, EntryOf, Inv, Inv-InvBut}
use my_net_lib.EpollPoller.Update.{Updated, update_channel-Updated}
use my_net_lib.EpollPoller.Remove.{Removed, remove_channel-Removed}

abbrev pub InterestList : Type 0
InterestList = ℕ → Option (Events × ℕ)

-- An interest list that behaves as epoll_ctl(2) says, by what it has at the file descriptor.
abbrev pub ctl_at :
    Ctl → Option (Events × ℕ) → ℕ → Option (Events × ℕ) → InterestList → Bool × InterestList
ctl_at ctl_add none fd entry s = (true, put fd entry s)
ctl_at ctl_add (some old) fd entry s = (false, s)
ctl_at ctl_mod none fd entry s = (false, s)
ctl_at ctl_mod (some old) fd entry s = (true, put fd entry s)
ctl_at ctl_del none fd entry s = (false, s)
ctl_at ctl_del (some old) fd entry s = (true, put fd none s)

abbrev pub kernel : Epoll
kernel = record {
  State = InterestList;
  epoll_ctl =
      λ operation fd events channel s. ctl_at operation (s fd) fd (some (events, channel)) s;
  watched = λ s fd. s fd;
}

abbrev OneSet : Bool × InterestList → ℕ → Option (Events × ℕ) → InterestList → Type 0
OneSet r fd entry s = (r.0 ≡ true) × ((i : ℕ) → r.1 i ≡ put fd entry s i)

pub kernel-IsEpoll : IsEpoll kernel
kernel-IsEpoll = record {
  adds = λ fd events channel s e.
      let entry = some (events, channel) in
      subst (λ w. OneSet (ctl_at ctl_add w fd entry s) fd entry s) (sym e) (refl, λ i. refl);
  mods = λ fd events channel s old e.
      let entry = some (events, channel) in
      subst (λ w. OneSet (ctl_at ctl_mod w fd entry s) fd entry s) (sym e) (refl, λ i. refl);
  dels = λ fd events channel s old e.
      subst (λ w. OneSet (ctl_at ctl_del w fd (some (events, channel)) s) fd none s) (sym e)
        (refl, λ i. refl);
}

-- Channel 3 is on file descriptor 3, and wants to read.
abbrev reader : EpollPoller kernel
reader = record {
  channels = λ q. record (new_channel q) { events = read_event };
  channel_maps = λ fd. none;
  epoll = λ fd. none;
  events_size = 16;
}

reader-Inv : Inv reader
reader-Inv = record { entries = λ q. fresh refl (λ e. absurd (cc e)); free = λ fd e. refl }

update_channel-Updated_example : Updated 3 reader
update_channel-Updated_example =
    update_channel-Updated kernel-IsEpoll 3 read_event reader (Inv-InvBut reader-Inv 3) (λ e. refl)

-- The same channel, watched.
abbrev watching : EpollPoller kernel
watching = record reader {
  channels = put 3 (record (new_channel 3) { events = read_event; index = pos 1 }) reader.channels;
  channel_maps = put 3 (some 3) reader.channel_maps;
  epoll = put 3 (some (read_event, 3)) reader.epoll;
  events_size = 1;
}

watching-Inv : Inv watching
watching-Inv = record {
  entries = λ q. elim (Bool-cases (q == 3)) [
    | inl b ↦
        subst (λ q. EntryOf watching q (watching.channels q).events) (sym ((==_iff q 3).0 b))
          (added refl refl refl)
    | inr b ↦
        let gone : watching.channel_maps (watching.channels q).fd ≡ none =
          ap (λ (c : Channel). watching.channel_maps c.fd) (if_false _ _ b) ∙ if_false _ _ b in
        fresh (ap (λ (c : Channel). c.index) (if_false _ _ b))
          (λ e. let n : none ≡ some q = sym gone ∙ e in absurd (cc))
  ];
  free = λ fd e. elim (Bool-cases (fd == 3)) [
    | inl b ↦ absurd (some_none (then_case _ b e))
    | inr b ↦ if_false _ _ b
  ];
}
  where
    some_none : ◌≢◌ {A = Option ℕ} (some 3) none
    some_none e = absurd (cc e)

reader_gone : Removed 3 watching
reader_gone =
    remove_channel-Removed kernel-IsEpoll 3 read_event watching (Inv-InvBut watching-Inv 3) refl
