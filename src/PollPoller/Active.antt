-- ===== src/PollPoller/Active.antt =====
-- `Polling`: the channels whose entries received events.
use my_net_lib.Common.{
  Bool-cases, List, Option, [], ap, arith, if_true, if◌then◌else◌, inl, inr, ltb, lt→ltb, none, put,
  refl, some, suc, sym, zero, ℕ, ◌∙◌, ◌∷◌, ◌≡◌,
}
use my_net_lib.Os.{Transfer, done}
use my_net_lib.Channel.{Channel, is_empty, set_revents}
use my_net_lib.PollPoller.{PollFd, PollPoller, fill_active, polling}

-- How many entries received events.
abbrev pub count_ready : List PollFd → ℕ
count_ready [] = 0
count_ready (e ∷ es) = let n = count_ready es in if is_empty e.revents then n else suc n

-- Their channels, in the order of the array.
abbrev pub ready_channels : (ℕ → Option ℕ) → List PollFd → List ℕ
ready_channels maps [] = []
ready_channels maps (e ∷ es) =
    let more = ready_channels maps es in
    if is_empty e.revents then more else elim (maps e.fd) [ none ↦ more | some q ↦ q ∷ more ]

-- Every entry is that of a channel in the map.
abbrev pub AreMapped : (ℕ → Option ℕ) → List PollFd → Type 0
AreMapped maps [] = Unit {0}
AreMapped maps (e ∷ es) = ((q : ℕ) × (maps e.fd ≡ some q)) × AreMapped maps es

fill_active-zero :
    (es : List PollFd) (maps : ℕ → Option ℕ) (channels : ℕ → Channel)
    → (fill_active es 0 maps channels).1 ≡ []
unfolding fill_active
fill_active-zero [] maps channels = refl
fill_active-zero (e ∷ es) maps channels = refl

none_ready :
    (es : List PollFd) (maps : ℕ → Option ℕ) → count_ready es ≡ 0 → ready_channels maps es ≡ []
none_ready [] maps h = refl
none_ready (e ∷ es) maps h = elim (Bool-cases (is_empty e.revents)) [
  | inl quiet ↦ rw quiet (none_ready es maps (rw quiet at h))
  | inr ready ↦ let never : suc (count_ready es) ≡ 0 = rw ready at h in absurd (omega arith)
]

fill_active-ready :
    (es : List PollFd) (n : ℕ) (maps : ℕ → Option ℕ) (channels : ℕ → Channel)
    → AreMapped maps es
    → count_ready es ≡ n
    → (fill_active es n maps channels).1 ≡ ready_channels maps es
unfolding fill_active
fill_active-ready [] n maps channels m h = refl
fill_active-ready (e ∷ es) zero maps channels m h = sym (none_ready (e ∷ es) maps h)
fill_active-ready (e ∷ es) (suc n) maps channels ((q, at_q), m) h =
    elim (Bool-cases (is_empty e.revents)) [
      | inl quiet ↦ rw quiet (fill_active-ready es (suc n) maps channels m (rw quiet at h))
      | inr ready ↦
          let counted : suc (count_ready es) ≡ suc n = rw ready at h in
          rw (ready, at_q)
            (ap (λ t. q ∷ t)
              (fill_active-ready es n maps (put q (set_revents (channels q) e.revents) channels) m
                (omega arith)))
    ]

active_lem :
    (es : List PollFd) (n : ℕ) (maps : ℕ → Option ℕ) (channels : ℕ → Channel)
    → AreMapped maps es
    → count_ready es ≡ n
    → (if ltb 0 n then (fill_active es n maps channels).1 else []) ≡ ready_channels maps es
active_lem es zero maps channels m h = sym (none_ready es maps h)
active_lem es (suc n) maps channels m h =
    if_true {b = ltb 0 (suc n)} _ _ (lt→ltb 0 (suc n) (omega arith))
    ∙ fill_active-ready es (suc n) maps channels m h

-- When `poll` reports as many entries as have events, and they belong to channels in the map, the
-- active channels are those of the entries with events, in the order of the array.
pub polling_lem :
    (poll : List PollFd → Transfer (ℕ × List PollFd)) (p : PollPoller) (es : List PollFd)
    → poll p.poll_list ≡ done (count_ready es, es)
    → AreMapped p.channel_maps es
    → (p' : PollPoller) × (polling poll p ≡ some (p', ready_channels p.channel_maps es))
unfolding polling
polling_lem poll p es e m =
    let p' : PollPoller = record p {
      channels =
          if ltb 0 (count_ready es)
          then (fill_active es (count_ready es) p.channel_maps p.channels).0
          else p.channels;
      poll_list = es;
    } in
    (
      p',
      rw (polling, e)
          (ap (λ (active : List ℕ). some (p', active))
            (active_lem es (count_ready es) p.channel_maps p.channels m refl)),
    )
