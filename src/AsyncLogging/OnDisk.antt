-- ===== src/AsyncLogging/OnDisk.antt =====
-- The back end with its log file: what is in the files of the log.
use my_net_lib.Common.{
  >>=-eq-some, Bool-cases, List, [], ap, append-nil, append_assoc, if_false, if_true, if◌then◌else◌,
  inl, inr, leb, length, ltb, map, none, refl, some, subst, sym, take, ℕ, ◌++◌, ◌<◌, ◌∙◌, ◌∷◌, ◌≡◌,
}
use my_net_lib.LogStream.{FixedBuffer}
use my_net_lib.AsyncLogging.{append, collect, Batch, finish, recycle, resize_2, write_out}
use my_net_lib.AsyncLogging.System.{
  System, Back, waits, writes, initial, appends, accepts, collects, finishes, act, back_step,
  finished,
}
use my_net_lib.AsyncLogging.Inv.{Reach, start, next, in_batch, written_in_order}
use my_net_lib.AsyncLogging.Front.{content}
use my_net_lib.LogFile.{Fwrite, LogFile, Effect, append_file, append_line, new_log_file}
use my_net_lib.LogFile.Names.{year_10000}
use my_net_lib.LogFile.Files.{Files, Kept, History, wrote, lines_in_files}

-- The pieces that are appended one by one, each at its time; the disk takes each whole.
pub data Appends (f : Files) : List (List ℕ) → Files → Type 0 where
  none_left : Appends f [] f
  and_then :
      {f' f'' : Files} {pieces more : List (List ℕ)} (fwrite : Fwrite) (now : ℕ) (piece : List ℕ)
      {n : ℕ} {r : LogFile × List Effect}
      → Appends f pieces f'
      → now < year_10000
      → (fwrite piece).0 ≡ length piece
      → append_file fwrite piece ≡ some n
      → append_line fwrite now piece f'.file ≡ some r
      → f'' ≡ wrote (take n piece) r f'
      → more ≡ pieces ++ piece ∷ []
      → Appends f more f''

Appends-History :
    {f f' : Files} {ls pieces : List (List ℕ)}
    → History f ls
    → Appends f pieces f'
    → History f' (ls ++ pieces)
Appends-History {ls = ls} h none_left = subst (History _) (sym (append-nil ls)) h
Appends-History {ls = ls} h (and_then {pieces = pieces} fwrite now piece a early whole en e e1 e2) =
    History.appends fwrite now piece (Appends-History h a) early whole en e e1
      (ap (λ t. ls ++ t) e2 ∙ sym (append_assoc ls pieces (piece ∷ [])))

abbrev pub pieces_of : List FixedBuffer → List (List ℕ)
pieces_of [] = []
pieces_of (b ∷ bs) = b.bytes ∷ pieces_of bs

-- The threads that log, and the back end with the files to which `ThreadFunc` writes each buffer of
-- its batch.
pub data Logged : System → Files → Type 0 where
  opens_log :
      (now roll_size flush_interval check_every_n : ℕ)
      → 0 < now
      → now < year_10000
      → Logged initial (record {
        file = new_log_file now roll_size flush_interval check_every_n;
        lines = [];
        closed = [];
      })
  logs :
      {s s' : System} {f : Files} (msg : List ℕ)
      → Logged s f
      → act (appends msg) s ≡ some s'
      → Logged s' f
  takes_batch : {s s' : System} {f : Files} → Logged s f → act collects s ≡ some s' → Logged s' f
  ends_pass :
      {s s' : System} {f f' : Files} (batch : Batch)
      → Logged s f
      → s.back ≡ writes batch
      → act finishes s ≡ some s'
      → Appends f (pieces_of batch.temp_buffer_vec) f'
      → Logged s' f'

abbrev pub joined : List (List ℕ) → List ℕ
joined [] = []
joined (p ∷ ps) = p ++ joined ps

joined-append : (xs ys : List (List ℕ)) → joined (xs ++ ys) ≡ joined xs ++ joined ys
joined-append [] ys = refl
joined-append (x ∷ xs) ys =
    ap (λ t. x ++ t) (joined-append xs ys) ∙ sym (append_assoc x (joined xs) (joined ys))

write_out-joined : (bs : List FixedBuffer) → write_out bs ≡ joined (pieces_of bs)
unfolding write_out
write_out-joined [] = refl
write_out-joined (b ∷ bs) = ap (λ t. b.bytes ++ t) (write_out-joined bs)

finish-writes :
    (n : ℕ) (batch : Batch) {r : List ℕ × FixedBuffer × FixedBuffer}
    → finish n batch ≡ some r
    → r.0 ≡ write_out batch.temp_buffer_vec
unfolding finish
finish-writes n batch {r} h = elim (Bool-cases (leb (length batch.temp_buffer_vec) 25)) [
  | inl yes_ ↦
      let vec = map some batch.temp_buffer_vec in
      let p =
        >>=-eq-some (recycle batch.new_buffer2 (if ltb 2 n then resize_2 vec else vec))
          (λ p. some (write_out batch.temp_buffer_vec, p.0, p.1)) (sym (if_true _ _ yes_) ∙ h) in
      let e : (write_out batch.temp_buffer_vec, p.0.0, p.0.1) ≡ r = cc p.2 in
      sym (ap (λ (t : List ℕ × FixedBuffer × FixedBuffer). t.0) e)
  | inr no_ ↦ let none_ : none ≡ some r = sym (if_false _ _ no_) ∙ h in absurd (cc)
]

back_step-writes :
    (back : Back) (batch : Batch) (s : System) {s' : System}
    → back ≡ writes batch
    → back_step finishes back s ≡ some s'
    → s'.written ≡ s.written ++ write_out batch.temp_buffer_vec
unfolding back_step
back_step-writes back batch s {s'} e h =
    let p =
      >>=-eq-some (finish (length s.logging.buffer_to_write) batch) (λ r. some (finished s r))
        (subst (λ back. back_step finishes back s ≡ some s') e h) in
    let e' : finished s p.0 ≡ s' = cc p.2 in
    ap (λ (t : System). t.written) (sym e') ∙ ap (λ t. s.written ++ t) (finish-writes _ batch p.1)

collects-written :
    (back : Back) (s : System) {s' : System}
    → back_step collects back s ≡ some s'
    → s'.written ≡ s.written
unfolding back_step
collects-written (waits b c) s {s'} h =
    let r = collect b c s.logging in
    let e : ◌≡◌ {A = System} (record s { logging = r.0; back = writes r.1 }) s' = cc h in
    ap (λ (t : System). t.written) (sym e)
collects-written (writes batch) s h = absurd (cc)

-- What the back end wrote is in the files.
pub record OnDisk (s : System) (f : Files) : Type 0 where
  pub reached : Reach s
  pub pieces : List (List ℕ)
  pub history : History f pieces
  pub written : s.written ≡ joined pieces

Logged-OnDisk : {s : System} {f : Files} → Logged s f → OnDisk s f
unfolding act
Logged-OnDisk (opens_log now roll_size flush_interval check_every_n h early) = record {
  reached = start;
  pieces = [];
  history = History.opens now roll_size flush_interval check_every_n h early;
  written = refl;
}
Logged-OnDisk (logs {s} {s'} msg l h) =
    let d = Logged-OnDisk l in
    let e : ◌≡◌ {A = System}
        (record s { logging = append msg s.logging; accepted = s.accepted ++ accepts msg }) s' =
      cc h in
    record {
      reached = next (appends msg) d.reached h;
      pieces = d.pieces;
      history = d.history;
      written = ap (λ (t : System). t.written) (sym e) ∙ d.written;
    }
Logged-OnDisk (takes_batch {s} l h) =
    let d = Logged-OnDisk l in
    record {
      reached = next collects d.reached h;
      pieces = d.pieces;
      history = d.history;
      written = collects-written s.back s h ∙ d.written;
    }
Logged-OnDisk (ends_pass {s} batch l e h a) =
    let d = Logged-OnDisk l in
    let ps = pieces_of batch.temp_buffer_vec in
    record {
      reached = next finishes d.reached h;
      pieces = d.pieces ++ ps;
      history = Appends-History d.history a;
      written =
          back_step-writes s.back batch s e h
          ∙ ap (λ t. s.written ++ t) (write_out-joined batch.temp_buffer_vec)
          ∙ ap (λ t. t ++ joined ps) d.written
          ∙ sym (joined-append d.pieces ps);
    }

-- The pieces that are in the files, and what is not yet there.
pub record IsLogged (s : System) (f : Files) : Type 0 where
  pub pieces : List (List ℕ)
  pub in_files : Kept f pieces
  pub in_order : joined pieces ++ (write_out (in_batch s.back) ++ content s.logging) ≡ s.accepted

-- While the back end runs, before the year 10000, and the disk takes every buffer whole: the files of
-- the log, in the order in which they were opened, hold what `AppendFile::Append` wrote of each
-- buffer, whole and in one file; the open file has as many bytes as it counts. These bytes, then the
-- batch, the full buffers and the current one are together what was logged, in order, however the
-- log rolls. (A message as large as a buffer is dropped.)
pub on_disk : {s : System} {f : Files} → Logged s f → IsLogged s f
on_disk {s} l =
    let d = Logged-OnDisk l in
    record {
      pieces = d.pieces;
      in_files = lines_in_files d.history;
      in_order =
          ap (λ t. t ++ (write_out (in_batch s.back) ++ content s.logging)) (sym d.written)
          ∙ written_in_order d.reached;
    }
