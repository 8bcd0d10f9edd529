-- ===== src/EchoServer/History.antt =====
-- Every history of a connection of the echo server.
use my_net_lib.Common.{
  List, [], ap, append-nil, false, inl, inr, refl, some, subst, sym, true, ℕ, ◌++◌, ◌∙◌, ◌≡◌,
}
use my_net_lib.Os.{Readv, Write}
use my_net_lib.Buffer.Valid.{contents}
use my_net_lib.TcpConnection.{
  TcpConnection, Effect, Outcome, connected, is_state, connection_established, new_connection,
}
use my_net_lib.TcpConnection.Inv.{wire, Stepped}
use my_net_lib.TcpConnection.Stream.{step, Event}
use my_net_lib.TcpConnection.Life.{step-Stepped, established-Inv, established-empty}
use my_net_lib.TcpConnection.Reading.{arrival}
use my_net_lib.TcpConnection.Quiet.{IsQuiet, IsQuiet-IsLawful, IsQuiet-taken, IsQuiet-step}
use my_net_lib.EchoServer.{serve_read}
use my_net_lib.EchoServer.Served.{Echoing, Served, Stepped-Served}
use my_net_lib.EchoServer.Echo.{bytes_of, IsServable, serve_read-Served}

-- The connection on `fd`, with what the peer sent so far and what the kernel took back.
pub data History (fd : ℕ) : TcpConnection → List ℕ → List ℕ → Type 0 where
  opens :
      {c : TcpConnection} {es : List Effect}
      → connection_established (new_connection fd) ≡ some (c, es)
      → History fd c [] []
  reads :
      {c d : TcpConnection} {got sent got' sent' : List ℕ} (readv : Readv) (write : Write)
      {es : List Effect}
      → History fd c got sent
      → IsServable readv write c
      → serve_read readv write c ≡ some (d, es)
      → got' ≡ got ++ bytes_of (arrival readv c)
      → sent' ≡ sent ++ wire es
      → History fd d got' sent'
  runs :
      {c d : TcpConnection} {got sent sent' : List ℕ} (e : Event) {es : List Effect}
      → History fd c got sent
      → IsQuiet e
      → step c e ≡ some (d, es)
      → sent' ≡ sent ++ wire es
      → History fd d got sent'

-- What is known of the connection that a call returned.
Served-Echoing :
    {got sent more : List ℕ} {r : Outcome} {d : TcpConnection} {es : List Effect}
    → Served got sent more r
    → r ≡ some (d, es)
    → Echoing d (got ++ more) (sent ++ wire es)
Served-Echoing {got} {sent} {more} {d} {es} s e =
    subst (λ (p : TcpConnection × List Effect). Echoing p.0 (got ++ more) (sent ++ wire p.1)) same
      s.echoing
  where
    same : ◌≡◌ {A = TcpConnection × List Effect} (s.conn, s.effects) (d, es)
    same = cc (s.returns)

quiet-Served :
    {c d : TcpConnection} {got sent : List ℕ} {e : Event} {es : List Effect}
    → Echoing c got sent
    → IsQuiet e
    → step c e ≡ some (d, es)
    → Served got sent [] (step c e)
quiet-Served {c} {d} {e = e} ec q h =
    let (same, state) = IsQuiet-step c q h in
    Stepped-Served ec
      (subst (λ m. Stepped c m (step c e)) (IsQuiet-taken c q)
        (step-Stepped e ec.inv (IsQuiet-IsLawful c q)))
      h (ap contents same ∙ ec.empty)
      (λ o. elim state [
        | inl s ↦ rw s at o
        | inr s ↦ let never : false ≡ true = rw s at o in absurd (cc)
      ])

pub History-Echoing :
    {fd : ℕ} {c : TcpConnection} {got sent : List ℕ} → History fd c got sent → Echoing c got sent
History-Echoing {fd} (opens {c} e) =
    let (inv, nothing) = established-Inv fd e in
    record {
      inv = inv;
      empty = established-empty fd e;
      lost = [];
      stream = append-nil (contents c.output_buffer) ∙ nothing;
      kept = λ _. refl;
    }
History-Echoing (reads {sent' = sent'} readv write h law e e1 e2) =
    rw (e1, e2) (Served-Echoing (serve_read-Served readv write (History-Echoing h) law) e)
History-Echoing (runs {d = d} {got} {sent} e {es} h q s e1) =
    let ec : Echoing d (got ++ []) (sent ++ wire es) =
      Served-Echoing (quiet-Served (History-Echoing h) q s) s in
    rw e1 (subst (λ t. Echoing d t (sent ++ wire es)) (append-nil got) ec)

-- While the connection is open, every byte that the peer sent went back, in order, or waits to.
pub echoes_all :
    {fd : ℕ} {c : TcpConnection} {got sent : List ℕ}
    → History fd c got sent
    → is_state c.state connected ≡ true
    → sent ++ contents c.output_buffer ≡ got
echoes_all {c = c} {sent = sent} h open_ =
    let ec = History-Echoing h in
    ap (λ t. sent ++ t)
      (sym (append-nil (contents c.output_buffer))
        ∙ ap (λ t. contents c.output_buffer ++ t) (sym (ec.kept open_)))
    ∙ ec.stream

-- The peer never gets anything but the beginning of what it sent, also after the close.
pub echoes_prefix :
    {fd : ℕ} {c : TcpConnection} {got sent : List ℕ}
    → History fd c got sent
    → (rest : List ℕ) × (sent ++ rest ≡ got)
echoes_prefix {c = c} h =
    let ec = History-Echoing h in (contents c.output_buffer ++ ec.lost, ec.stream)
