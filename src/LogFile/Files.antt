-- ===== src/LogFile/Files.antt =====
-- The files that a log leaves behind, over every history of `Append`.
use my_net_lib.Common.{
  Bool, Bool-cases, List, [], ap, append-nil, append_assoc, arith, false, if◌then◌else◌, inl, inr,
  length, refl, some, sym, take, take_all, true, ℕ, ◌++◌, ◌+◌, ◌<◌, ◌∙◌, ◌∷◌, ◌≡◌, ◌≢◌,
}
use my_net_lib.TimeStamp.{Tm}
use my_net_lib.LogFile.{
  append_loop, Fwrite, LogFile, Effect, rolls, flushes, append_file, append_unlocked, append_line,
  new_log_file, roll_file, check_period, log_file_name,
}
use my_net_lib.LogFile.Names.{IsGmtime, year_10000, log_file_name-injective}

-- A file that is closed: when it was opened, and its lines.
pub record Closed : Type 0 where
  pub opened : ℕ
  pub held : List (List ℕ)

-- The file that is open, its lines, and the files before it, the latest first.
pub record Files : Type 0 where
  pub file : LogFile
  pub lines : List (List ℕ)
  pub closed : List Closed

abbrev pub has_rolled : List Effect → Bool
has_rolled [] = false
has_rolled (rolls ∷ es) = true
has_rolled (flushes ∷ es) = has_rolled es

-- What was written of a line stands in the open file; then that may be closed, and the next one
-- opened.
abbrev pub wrote : List ℕ → LogFile × List Effect → Files → Files
wrote line (f, es) s =
    if has_rolled es
    then record {
      file = f;
      lines = [];
      closed = record { opened = s.file.last_roll; held = s.lines ++ line ∷ [] } ∷ s.closed;
    }
    else record s { file = f; lines = s.lines ++ line ∷ [] }

-- The log with the lines that were appended, each at its time; the disk takes every line whole. Of a
-- line the file gets the `n` bytes that `AppendFile::Append` writes.
pub data History : Files → List (List ℕ) → Type 0 where
  opens :
      (now roll_size flush_interval check_every_n : ℕ)
      → 0 < now
      → now < year_10000
      → History
          (record {
            file = new_log_file now roll_size flush_interval check_every_n;
            lines = [];
            closed = [];
          })
          []
  appends :
      {s s' : Files} {ls ls' : List (List ℕ)} (fwrite : Fwrite) (now : ℕ) (line : List ℕ) {n : ℕ}
      {r : LogFile × List Effect}
      → History s ls
      → now < year_10000
      → (fwrite line).0 ≡ length line
      → append_file fwrite line ≡ some n
      → append_line fwrite now line s.file ≡ some r
      → s' ≡ wrote (take n line) r s
      → ls' ≡ ls ++ line ∷ []
      → History s' ls'

abbrev pub all_held : List Closed → List (List ℕ)
all_held [] = []
all_held (f ∷ fs) = all_held fs ++ f.held

abbrev pub bytes : List (List ℕ) → ℕ
bytes [] = 0
bytes (l ∷ ls) = length l + bytes ls

-- Each file was opened later than those before it.
abbrev pub IsLater : ℕ → List Closed → Type 0
IsLater t [] = Unit {0}
IsLater t (f ∷ fs) = (f.opened < t) × IsLater f.opened fs

pub record Kept (s : Files) (ls : List (List ℕ)) : Type 0 where
  pub in_order : all_held s.closed ++ s.lines ≡ ls
  pub counted : s.file.written_bytes ≡ bytes s.lines
  pub later : IsLater s.file.last_roll s.closed
  pub early : s.file.last_roll < year_10000

-- What a call of `AppendUnlocked` does to the open file.
append_unlocked-rolled :
    (now n : ℕ) (f : LogFile)
    → has_rolled (append_unlocked now n f).1 ≡ true
    → (f.last_roll < now)
      × ((append_unlocked now n f).0.last_roll ≡ now)
      × ((append_unlocked now n f).0.written_bytes ≡ 0)
unfolding append_unlocked roll_file check_period
append_unlocked-rolled now n f h = ground arith

append_unlocked-stays :
    (now n : ℕ) (f : LogFile)
    → has_rolled (append_unlocked now n f).1 ≡ false
    → ((append_unlocked now n f).0.last_roll ≡ f.last_roll)
      × ((append_unlocked now n f).0.written_bytes ≡ f.written_bytes + n)
unfolding append_unlocked roll_file check_period
append_unlocked-stays now n f h = ground arith

bytes-append_one : (ls : List (List ℕ)) (l : List ℕ) → bytes (ls ++ l ∷ []) ≡ bytes ls + length l
bytes-append_one [] l = omega arith
bytes-append_one (x ∷ ls) l = omega (arith, bytes-append_one ls l)

-- A line that the disk takes whole is counted whole.
append_file-whole :
    (fwrite : Fwrite) (line : List ℕ)
    → (fwrite line).0 ≡ length line
    → append_file fwrite line ≡ some (length line)
unfolding append_file append_loop
append_file-whole fwrite [] h = ground arith
append_file-whole fwrite (x ∷ xs) h = ground arith

-- What the steps keep.
wrote-Kept :
    (now n : ℕ) (line : List ℕ) (s : Files) (ls : List (List ℕ))
    → Kept s ls
    → now < year_10000
    → n ≡ length line
    → Kept (wrote line (append_unlocked now n s.file) s) (ls ++ line ∷ [])
wrote-Kept now n line s ls k early whole =
    elim (Bool-cases (has_rolled (append_unlocked now n s.file).1)) [
      | inl yes_ ↦
          let r = append_unlocked-rolled now n s.file yes_ in
          rw yes_ (record {
            in_order =
                append-nil _
                ∙ sym (append_assoc (all_held s.closed) s.lines (line ∷ []))
                ∙ ap (λ t. t ++ line ∷ []) k.in_order;
            counted = r.2;
            later = rw (r.1) (r.0, k.later);
            early = rw (r.1) early;
          })
      | inr no_ ↦
          let r = append_unlocked-stays now n s.file no_ in
          rw no_ (record {
            in_order =
                sym (append_assoc (all_held s.closed) s.lines (line ∷ []))
                ∙ ap (λ t. t ++ line ∷ []) k.in_order;
            counted = omega (arith, r.1, whole, k.counted, bytes-append_one s.lines line);
            later = rw (r.0) k.later;
            early = rw (r.0) k.early;
          })
    ]

opened-Kept :
    (now roll_size flush_interval check_every_n : ℕ)
    → 0 < now
    → now < year_10000
    → Kept
        (record {
          file = new_log_file now roll_size flush_interval check_every_n;
          lines = [];
          closed = [];
        })
        []
unfolding new_log_file roll_file
opened-Kept now roll_size flush_interval check_every_n h early = record {
  in_order = refl;
  counted = ground arith;
  later = tt;
  early = ground arith;
}

-- In every history of `Append` before the year 10000 in which the disk takes each line whole, the
-- files, in the order in which they were opened, hold the lines that were appended, in order, each whole in one file. The
-- open file has as many bytes as it counts, and each file was opened in a later second than those
-- before it.
pub lines_in_files : {s : Files} {ls : List (List ℕ)} → History s ls → Kept s ls
unfolding append_line
lines_in_files (opens now roll_size flush_interval check_every_n h early) =
    opened-Kept now roll_size flush_interval check_every_n h early
lines_in_files (appends {s} {ls = ls} fwrite now line {n} {r} h early whole en e e1 e2) =
    rw (e1, e2, sym same, all)
      (wrote-Kept now (length line) line s ls (lines_in_files h) early refl)
  where
    same : append_unlocked now (length line) s.file ≡ r
    same = cc (append_file-whole fwrite line whole)

    all : take n line ≡ line
    all =
        let counted : length line ≡ n = cc (append_file-whole fwrite line whole) in
        take_all n line (omega (arith, counted))

-- The names of the files, the latest first, by the times at which they were opened.
abbrev pub names : (ℕ → List ℕ) → ℕ → List Closed → List (List ℕ)
names name t [] = name t ∷ []
names name t (f ∷ fs) = name t ∷ names name f.opened fs

abbrev pub IsAbsent : List ℕ → List (List ℕ) → Type 0
IsAbsent x [] = Unit {0}
IsAbsent x (y ∷ ys) = (x ≢ y) × IsAbsent x ys

abbrev pub AreDistinct : List (List ℕ) → Type 0
AreDistinct [] = Unit {0}
AreDistinct (x ∷ xs) = IsAbsent x xs × AreDistinct xs

module _ (name : ℕ → List ℕ)
    (same : (t u : ℕ) → t < year_10000 → u < year_10000 → name t ≡ name u → t ≡ u) where
  earlier-IsAbsent :
      (t u : ℕ) (fs : List Closed)
      → t < u
      → u < year_10000
      → IsLater t fs
      → IsAbsent (name u) (names name t fs)
  earlier-IsAbsent t u [] h early later =
      (λ e. absurd (omega (arith, same u t early (omega arith) e)), tt)
  earlier-IsAbsent t u (f ∷ fs) h early later = (
    λ e. absurd (omega (arith, same u t early (omega arith) e)),
    earlier-IsAbsent f.opened u fs (omega (arith, later.0)) early later.1,
  )

  names-AreDistinct :
      (t : ℕ) (fs : List Closed) → t < year_10000 → IsLater t fs → AreDistinct (names name t fs)
  names-AreDistinct t [] early later = (tt, tt)
  names-AreDistinct t (f ∷ fs) early later = (
    earlier-IsAbsent f.opened t fs later.0 early later.1,
    names-AreDistinct f.opened fs (omega (arith, later.0)) later.1,
  )

-- No two files of a log have the same name, before the year 10000.
pub names_differ :
    {s : Files} {ls : List (List ℕ)} (gmtime : ℕ → Tm) (basename : List ℕ) (pid : ℕ)
    → IsGmtime gmtime
    → History s ls
    → AreDistinct (names (log_file_name gmtime basename pid) s.file.last_roll s.closed)
names_differ {s} gmtime basename pid law h =
    let k = lines_in_files h in
    names-AreDistinct (log_file_name gmtime basename pid)
      (λ t u. log_file_name-injective gmtime basename pid t u law) s.file.last_roll s.closed k.early
      k.later
