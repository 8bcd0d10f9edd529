-- ===== src/Pingpong/Bounce.antt =====
-- The client sends its block, and then sends back whatever it gets; the server does the same.
use my_net_lib.Common.{
  List, [], ap, append_assoc, arith, get_elem?, length, length-append, refl, suc, sym, zero, ℕ, ◌%◌,
  ◌++◌, ◌+◌, ◌-◌, ◌<◌, ◌∙◌, ◌∷◌, ◌≡◌, ◌≤◌,
}
use native.Mathlib.Decide.{dec_lt}
use native.Mathlib.Nat.{mod-eq_of_lt, mod-eq-sub-mod}
use my_net_lib.TcpConnection.{TcpConnection}
use my_net_lib.EchoServer.History.{History, echoes_prefix}
use my_net_lib.Os.{Write}
use my_net_lib.EchoServer.{on_message}
use my_net_lib.Pingpong.{Session, new_session, session_message, server_message}

-- What came so far, of a stream.
abbrev pub Within : List ℕ → List ℕ → Type 0
Within xs ys = (rest : List ℕ) × (xs ++ rest ≡ ys)

-- A session that got some pieces: what it sent back.
unfoldable pub session_run : List (List ℕ) → Session → Session × List ℕ
unfolding session_message
session_run [] s = (s, [])
session_run (p ∷ ps) s =
    let r = session_message p s in let rest = session_run ps r.0 in (rest.0, r.1 ++ rest.1)

abbrev pub joined : List (List ℕ) → List ℕ
joined [] = []
joined (p ∷ ps) = p ++ joined ps

session_run_lem :
    (ps : List (List ℕ)) (s : Session)
    → ((session_run ps s).0.bytes_read ≡ s.bytes_read + length (joined ps))
      × ((session_run ps s).0.bytes_written ≡ s.bytes_written + length (joined ps))
      × ((session_run ps s).0.messages_read ≡ s.messages_read + length ps)
      × ((session_run ps s).1 ≡ joined ps)
unfolding session_run
session_run_lem [] s = (omega arith, omega arith, omega arith, refl)
session_run_lem (p ∷ ps) s =
    let r = session_run_lem ps (session_message p s).0 in
    (
      omega (arith, r.0, length-append p (joined ps)),
      omega (arith, r.1, length-append p (joined ps)),
      omega (arith, r.2),
      ap (λ t. p ++ t) r.3,
    )

get_elem?-left : (xs ys : List ℕ) (i : ℕ) → i < length xs → get_elem? (xs ++ ys) i ≡ get_elem? xs i
get_elem?-left [] ys i h = absurd (omega arith)
get_elem?-left (x ∷ xs) ys zero h = refl
get_elem?-left (x ∷ xs) ys (suc i) h = get_elem?-left xs ys i (omega arith)

get_elem?-right : (xs ys : List ℕ) (i : ℕ) → get_elem? (xs ++ ys) (length xs + i) ≡ get_elem? ys i
get_elem?-right [] ys i = ap (get_elem? ys) (omega arith)
get_elem?-right (x ∷ xs) ys i =
    let e : suc (length xs) + i ≡ suc (length xs + i) = omega arith in
    ap (get_elem? (x ∷ (xs ++ ys))) e ∙ get_elem?-right xs ys i

-- A text that continues with itself behind a block repeats the block.
repeats :
    (fuel i : ℕ) (block text rest : List ℕ)
    → i < fuel
    → i < length text
    → 0 < length block
    → text ++ rest ≡ block ++ text
    → get_elem? text i ≡ get_elem? block (i % length block)
repeats zero i block text rest h inside some_ e = absurd (omega arith)
repeats (suc fuel) i block text rest h inside some_ e = elim (dec_lt i (length block)) [
  | yes small ↦
      let same : i % length block ≡ i = mod-eq_of_lt small in
      sym (get_elem?-left text rest i inside)
      ∙ ap (λ t. get_elem? t i) e
      ∙ get_elem?-left block text i small
      ∙ ap (get_elem? block) (sym same)
  | no large ↦
      let k : ℕ = i - length block in
      let there : length block + k ≡ i = omega arith in
      let same : k % length block ≡ i % length block = sym (mod-eq-sub-mod (omega arith)) in
      sym (get_elem?-left text rest i inside)
      ∙ ap (λ t. get_elem? t i) e
      ∙ ap (get_elem? (block ++ text)) (sym there)
      ∙ get_elem?-right block text k
      ∙ repeats fuel k block text rest (omega arith) (omega arith) some_ e
      ∙ ap (get_elem? block) same
]

-- The server answers as the echo server does, whose histories are therefore its own.
pub server_message-eq-on_message :
    (write : Write) (c : TcpConnection) → server_message write c ≡ on_message write c
unfolding server_message on_message
server_message-eq-on_message write c = refl

joins : (xs ys zs ws : List ℕ) → ((xs ++ ys) ++ zs) ++ ws ≡ xs ++ (ys ++ (zs ++ ws))
joins xs ys zs ws = append_assoc (xs ++ ys) zs ws ∙ append_assoc xs ys (zs ++ ws)

-- What the client has got, in pieces, from a server that got some of what the client sent, is the
-- block over and over, byte by byte.
pub bounces :
    {fd : ℕ} {c : TcpConnection} {got sent : List ℕ} (block : List ℕ) (pieces : List (List ℕ))
    (i : ℕ)
    → History fd c got sent
    → Within (joined pieces) sent
    → Within got (block ++ (session_run pieces new_session).1)
    → 0 < length block
    → i < length (joined pieces)
    → get_elem? (joined pieces) i ≡ get_elem? block (i % length block)
bounces {got = got} {sent} block pieces i h (r1, e1) (r3, e3) some_ inside =
    let (r2, e2) = echoes_prefix h in
    repeats (suc i) i block (joined pieces) (r1 ++ (r2 ++ r3)) (omega arith) inside some_ (
      sym (joins (joined pieces) r1 r2 r3)
      ∙ ap (λ t. (t ++ r2) ++ r3) e1
      ∙ ap (λ t. t ++ r3) e2
      ∙ e3
      ∙ ap (λ t. block ++ t) (session_run_lem pieces new_session).3)

-- The client counts as much written as read, the bytes that came, and the pieces in which they came;
-- and no more than the block is on its way: what the server got, and what it sent back, is at most a
-- block ahead of what the client counts.
pub in_flight :
    {fd : ℕ} {c : TcpConnection} {got sent : List ℕ} (block : List ℕ) (pieces : List (List ℕ))
    → History fd c got sent
    → Within got (block ++ (session_run pieces new_session).1)
    → let s = (session_run pieces new_session).0 in
      (s.bytes_read ≡ length (joined pieces))
      × (s.bytes_written ≡ s.bytes_read)
      × (s.messages_read ≡ length pieces)
      × (length got ≤ length block + s.bytes_read)
      × (length sent ≤ length block + s.bytes_read)
in_flight {got = got} {sent} block pieces h (r3, e3) =
    let (r2, e2) = echoes_prefix h in
    let m = session_run_lem pieces new_session in
    let sent_got : length sent ≤ length got = omega (arith, ap length e2, length-append sent r2) in
    let got_sent : length got ≤ length block + length (joined pieces) = omega (
      arith,
      ap length e3,
      ap length m.3,
      length-append got r3,
      length-append block (session_run pieces new_session).1,
    ) in
    (
      omega (arith, m.0),
      omega (arith, m.0, m.1),
      omega (arith, m.2),
      omega (arith, m.0),
      omega (arith, m.0),
    )
