-- ===== src/EpollPoller/Inv.antt =====
-- The channel map, the index of each channel and the interest list of the kernel agree.
use my_net_lib.Common.{
  Bool, Bool-cases, Option, ap, else_case, inl, inr, none, put, put_ne, some, sym, then_case, true,
  ℕ, ℤ, ◌==◌, ◌∙◌, ◌≡◌, ◌≢◌,
}
use my_net_lib.Channel.{Events}
use my_net_lib.EpollPoller.{
  ctl_add, ctl_mod, ctl_del, Epoll, EpollPoller, k_new, k_added, k_deleted,
}

-- An operation succeeds and sets one entry of the interest list.
abbrev pub Sets : (E : Epoll) → E.State → Bool × E.State → ℕ → Option (Events × ℕ) → Type 0
Sets E s r fd entry = (r.0 ≡ true) × ((i : ℕ) → E.watched r.1 i ≡ put fd entry (E.watched s) i)

-- epoll_ctl(2): a file descriptor can be added if it is not in the interest list, and changed or
-- deleted if it is.
pub record IsEpoll (E : Epoll) : Type 0 where
  pub adds :
      (fd : ℕ) (events : Events) (channel : ℕ) (s : E.State)
      → E.watched s fd ≡ none
      → Sets E s (E.epoll_ctl ctl_add fd events channel s) fd (some (events, channel))
  pub mods :
      (fd : ℕ) (events : Events) (channel : ℕ) (s : E.State) (old : Events × ℕ)
      → E.watched s fd ≡ some old
      → Sets E s (E.epoll_ctl ctl_mod fd events channel s) fd (some (events, channel))
  pub dels :
      (fd : ℕ) (events : Events) (channel : ℕ) (s : E.State) (old : Events × ℕ)
      → E.watched s fd ≡ some old
      → Sets E s (E.epoll_ctl ctl_del fd events channel s) fd none

-- A channel `q` with its index, what the channel map and the interest list have at its file
-- descriptor, and the events that the kernel was told.
pub data Entry (q : ℕ) (index : ℤ) (told : Events) (m : Option ℕ) (w : Option (Events × ℕ))
    : Type 0 where
  fresh : index ≡ k_new → m ≢ some q → Entry q index told m w
  added : index ≡ k_added → m ≡ some q → w ≡ some (told, q) → Entry q index told m w
  deleted : index ≡ k_deleted → m ≡ some q → w ≡ none → Entry q index told m w

module _ {E : Epoll} where
  abbrev pub EntryOf : EpollPoller E → ℕ → Events → Type 0
  EntryOf p q told =
      let c = p.channels q in Entry q c.index told (p.channel_maps c.fd) (E.watched p.epoll c.fd)

  -- What holds while the owner of `channel` changes its events: the kernel knows `told`.
  pub record InvBut (channel : ℕ) (told : Events) (p : EpollPoller E) : Type 0 where
    pub others : (q : ℕ) → q ≢ channel → EntryOf p q (p.channels q).events
    pub this : EntryOf p channel told
    pub free : (fd : ℕ) → p.channel_maps fd ≡ none → E.watched p.epoll fd ≡ none

  -- What holds between two calls: the kernel watches each channel for its events.
  pub record Inv (p : EpollPoller E) : Type 0 where
    pub entries : (q : ℕ) → EntryOf p q (p.channels q).events
    pub free : (fd : ℕ) → p.channel_maps fd ≡ none → E.watched p.epoll fd ≡ none

  pub Inv-InvBut :
      {p : EpollPoller E} → Inv p → (channel : ℕ) → InvBut channel (p.channels channel).events p
  Inv-InvBut i channel = record {
    others = λ q n. i.entries q;
    this = i.entries channel;
    free = i.free;
  }

-- A change at `fd`, which is not the entry of `q`, leaves the entry of `q`.
pub Entry-put :
    {q fd fd_q : ℕ} {index : ℤ} {told : Events} (m : ℕ → Option ℕ) (w : ℕ → Option (Events × ℕ))
    {w' : Option (Events × ℕ)} (x : Option ℕ) (y : Option (Events × ℕ))
    → x ≢ some q
    → m fd ≢ some q
    → w' ≡ put fd y w fd_q
    → Entry q index told (m fd_q) (w fd_q)
    → Entry q index told (put fd x m fd_q) w'
Entry-put {fd} {fd_q} m w x y x_ne free ew (fresh e h) = fresh e (λ h'.
    elim (Bool-cases (fd_q == fd)) [
      | inl b ↦ x_ne (then_case _ b h')
      | inr b ↦ h (else_case _ b h')
    ])
Entry-put {q} {fd} {fd_q} m w x y x_ne free ew (added e em e') =
    added e (put_ne x m apart ∙ em) (ew ∙ put_ne y w apart ∙ e')
  where
    apart : fd_q ≢ fd
    apart s = free (ap m (sym s) ∙ em)
Entry-put {q} {fd} {fd_q} m w x y x_ne free ew (deleted e em e') =
    deleted e (put_ne x m apart ∙ em) (ew ∙ put_ne y w apart ∙ e')
  where
    apart : fd_q ≢ fd
    apart s = free (ap m (sym s) ∙ em)
