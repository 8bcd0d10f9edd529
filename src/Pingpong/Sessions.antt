-- ===== src/Pingpong/Sessions.antt =====
-- The client counts its sessions, and quits when the last one is gone.
use my_net_lib.Common.{
  List, [], ap, append_assoc, arith, false, if_false, if_true, refl, replicate, suc, sym, true,
  zero, ℕ, ◌++◌, ◌+◌, ◌-◌, ◌==◌, ◌∙◌, ◌∷◌, ◌≡◌, ◌≤◌,
}
use my_net_lib.Pingpong.{
  Client, Report, all_connected, all_disconnected, totals, quits_loop, on_connect, on_disconnect,
  total_bytes, total_messages,
}

pub data Change : Type 0 where
  connects disconnects : Change

unfoldable pub change : Change → Client → Client × List Report
unfolding on_connect on_disconnect
change connects c = on_connect c
change disconnects c = on_disconnect c

unfoldable pub changes : List Change → Client → Client × List Report
unfolding change
changes [] c = (c, [])
changes (e ∷ es) c = let r = change e c in let rest = changes es r.0 in (rest.0, r.1 ++ rest.1)

abbrev pub final_report : Client → List Report
final_report c =
    all_disconnected ∷ totals (total_bytes c.sessions) (total_messages c.sessions) ∷ quits_loop ∷ []

changes-append :
    (xs ys : List Change) (c : Client)
    → changes (xs ++ ys) c
      ≡ ((changes ys (changes xs c).0).0, (changes xs c).1 ++ (changes ys (changes xs c).0).1)
unfolding changes
changes-append [] ys c = refl
changes-append (x ∷ xs) ys c = rw (changes-append xs ys (change x c).0) (
    ap (λ t. ((changes ys (changes xs (change x c).0).0).0, t))
      (sym (
        append_assoc (change x c).1 (changes xs (change x c).0).1
          (changes ys (changes xs (change x c).0).0).1)))

first_change :
    (e : Change) (es : List Change) (c d : Client) (told : List Report)
    → change e c ≡ (d, told)
    → changes (e ∷ es) c ≡ ((changes es d).0, told ++ (changes es d).1)
unfolding changes
first_change e es c d told h = rw h

connect_more :
    (c : Client)
    → (c.num_connected + 1 == c.session_count) ≡ false
    → change connects c ≡ (record c { num_connected = c.num_connected + 1 }, [])
unfolding change
connect_more c h = ap (λ t. (record c { num_connected = c.num_connected + 1 }, t)) (if_false _ _ h)

connect_last :
    (c : Client)
    → (c.num_connected + 1 == c.session_count) ≡ true
    → change connects c ≡ (record c { num_connected = c.num_connected + 1 }, all_connected ∷ [])
unfolding change
connect_last c h = ap (λ t. (record c { num_connected = c.num_connected + 1 }, t)) (if_true _ _ h)

disconnect_more :
    (c : Client)
    → (c.num_connected - 1 == 0) ≡ false
    → change disconnects c ≡ (record c { num_connected = c.num_connected - 1 }, [])
unfolding change
disconnect_more c h =
    ap (λ t. (record c { num_connected = c.num_connected - 1 }, t)) (if_false _ _ h)

disconnect_last :
    (c : Client)
    → (c.num_connected - 1 == 0) ≡ true
    → change disconnects c ≡ (record c { num_connected = c.num_connected - 1 }, final_report c)
unfolding change
disconnect_last c h =
    ap (λ t. (record c { num_connected = c.num_connected - 1 }, t)) (if_true _ _ h)

nothing_more : (c : Client) → changes [] c ≡ (c, [])
unfolding changes
nothing_more c = refl

counted :
    (c : Client) (m n : ℕ) → m ≡ n → record c { num_connected = m } ≡ record c { num_connected = n }
counted c m n e = ap (λ k. record c { num_connected = k }) e

all_connect :
    (k : ℕ) (c : Client)
    → c.num_connected + suc k ≡ c.session_count
    → changes (replicate (suc k) connects) c
      ≡ (record c { num_connected = c.session_count }, all_connected ∷ [])
all_connect zero c h =
    let d : Client = record c { num_connected = c.num_connected + 1 } in
    first_change connects [] c d (all_connected ∷ []) (connect_last c (ground arith))
    ∙ rw (nothing_more d)
        (ap (λ (t : Client). (t, all_connected ∷ [])) (counted c _ _ (omega arith)))
all_connect (suc k) c h =
    let d : Client = record c { num_connected = c.num_connected + 1 } in
    first_change connects (replicate (suc k) connects) c d [] (connect_more c (ground arith))
    ∙ rw (all_connect k d (omega arith)) refl

all_disconnect :
    (k : ℕ) (c : Client)
    → c.num_connected ≡ suc k
    → changes (replicate (suc k) disconnects) c ≡ (record c { num_connected = 0 }, final_report c)
all_disconnect zero c h =
    let d : Client = record c { num_connected = c.num_connected - 1 } in
    first_change disconnects [] c d (final_report c) (disconnect_last c (ground arith))
    ∙ rw (nothing_more d) (ap (λ (t : Client). (t, final_report c)) (counted c _ _ (omega arith)))
all_disconnect (suc k) c h =
    let d : Client = record c { num_connected = c.num_connected - 1 } in
    first_change disconnects (replicate (suc k) disconnects) c d []
      (disconnect_more c (ground arith))
    ∙ rw (all_disconnect k d (omega arith)) refl

-- When all sessions are connected before the first one goes, the client tells so, and at the last
-- disconnection, not before, it tells the totals and quits its loop.
pub client_ends :
    (k : ℕ) (c : Client)
    → c.num_connected ≡ 0
    → c.session_count ≡ suc k
    → changes (replicate (suc k) connects ++ replicate (suc k) disconnects) c
      ≡ (record c { num_connected = 0 }, all_connected ∷ final_report c)
client_ends k c none_yet all =
    let d : Client = record c { num_connected = c.session_count } in
    changes-append (replicate (suc k) connects) (replicate (suc k) disconnects) c
    ∙ rw (all_connect k c (omega arith), all_disconnect k d all) refl

-- When one session of several is gone before the next one comes, the client quits then.
pub quits_early :
    (c : Client)
    → c.num_connected ≡ 0
    → 2 ≤ c.session_count
    → (changes (connects ∷ disconnects ∷ []) c).1 ≡ final_report c
unfolding changes change
quits_early c none_yet several = ground arith
