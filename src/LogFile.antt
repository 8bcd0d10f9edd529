-- ===== src/LogFile.antt =====
-- include/log_file.h, src/log_file.cc: a log file that is split by size and by day.
pub mod Write
pub mod Roll
pub mod Names
pub mod Files
mod Tests
use my_net_lib.Common.{
  Bool, List, Option, [], drop, false, if◌then◌else◌, leb, length, ltb, none, not, some, suc, take,
  true, zero, ℕ, ◌&&◌, ◌*◌, ◌++◌, ◌+◌, ◌-◌, ◌/◌, ◌==◌, ◌>>=◌, ◌∷◌,
}
use my_net_lib.Decimal.{codes, decimal}
use my_net_lib.TimeStamp.{Tm, padded}

-- `fwrite_unlocked` of some bytes: how many it writes, and whether the error indicator is set then.
abbrev pub Fwrite : Type 0
Fwrite = List ℕ → ℕ × Bool

-- The loop of `AppendFile::Append`, on fuel, with the bytes that are left: how many are written.
unfoldable pub append_loop : ℕ → Fwrite → List ℕ → ℕ → Option ℕ
append_loop zero fwrite log_line written = none
append_loop (suc fuel) fwrite log_line written =
    let remain = drop written log_line in
    let r = fwrite remain in
    let rest = append_loop fuel fwrite log_line (written + r.0) in
    if length log_line == written
    then some written
    else (if not (r.0 == length remain) && r.1 then some written else rest)

-- Two rounds are enough, since a short count is an error.
unfoldable pub append_file : Fwrite → List ℕ → Option ℕ
unfolding append_loop
append_file fwrite log_line = append_loop 2 fwrite log_line 0

abbrev pub roll_per_seconds : ℕ
roll_per_seconds = 60 * 60 * 24

-- `written_bytes` is that of `file_`. Times are in seconds.
pub record LogFile : Type 0 where
  pub roll_size : ℕ
  pub flush_interval : ℕ
  pub check_every_n : ℕ
  pub count : ℕ
  pub start_of_period : ℕ
  pub last_roll : ℕ
  pub last_flush : ℕ
  pub written_bytes : ℕ

-- What happens to the file: `rolls` closes it, which flushes it, and opens the next.
pub data Effect : Type 0 where
  rolls flushes : Effect

abbrev pub period : ℕ → ℕ
period now = now / roll_per_seconds * roll_per_seconds

-- With whether it rolled.
unfoldable pub roll_file : (now : ℕ) → LogFile → Bool × LogFile
roll_file now f =
    if ltb f.last_roll now
    then (
      true,
      record f {
        last_roll = now;
        last_flush = now;
        start_of_period = period now;
        written_bytes = 0;
      },
    )
    else (false, f)

-- The constructor, at time `now`.
unfoldable pub new_log_file : (now roll_size flush_interval check_every_n : ℕ) → LogFile
unfolding roll_file
new_log_file now roll_size flush_interval check_every_n =
    (roll_file now (record {
      roll_size = roll_size;
      flush_interval = flush_interval;
      check_every_n = check_every_n;
      count = 0;
      start_of_period = 0;
      last_roll = 0;
      last_flush = 0;
      written_bytes = 0;
    })).1

-- The check of every `check_every_n_`-th line, at time `now`.
unfoldable pub check_period : (now : ℕ) → LogFile → LogFile × List Effect
unfolding roll_file
check_period now f =
    let r = roll_file now f in
    if period now == f.start_of_period
    then (f, [])
    else (if r.0
        then (r.1, rolls ∷ [])
        else (if ltb f.flush_interval (now - f.last_flush)
            then (record f { last_flush = now }, flushes ∷ [])
            else (f, [])))

-- `AppendUnlocked` of a line of which `n` bytes were written. Its call of `time` and that of `RollFile`
-- are taken to give the same second.
unfoldable pub append_unlocked : (now n : ℕ) → LogFile → LogFile × List Effect
unfolding roll_file check_period
append_unlocked now n f =
    let g = record f { written_bytes = f.written_bytes + n } in
    let r = roll_file now g in
    if ltb f.roll_size (f.written_bytes + n)
    then (r.1, if r.0 then rolls ∷ [] else [])
    else (if leb f.check_every_n (f.count + 1)
        then check_period now (record g { count = 0 })
        else (record g { count = f.count + 1 }, []))

-- `Append`, with or without the lock, and `Flush`.
unfoldable pub append_line :
    Fwrite → (now : ℕ) → (log_line : List ℕ) → LogFile → Option (LogFile × List Effect)
unfolding append_file append_unlocked
append_line fwrite now log_line f =
    append_file fwrite log_line >>= λ n. some (append_unlocked now n f)

unfoldable pub flush : LogFile → LogFile × List Effect
flush f = (f, flushes ∷ [])

-- `GetLogFileName` at time `now`, with ".%Y%m%d-%H%M%S." and ".%d".
unfoldable pub time_part : Tm → List ℕ
unfolding padded
time_part t =
    b'.'
    ∷ (padded 4 b'0' (t.tm_year + 1900)
        ++ (padded 2 b'0' (t.tm_mon + 1)
            ++ (padded 2 b'0' t.tm_mday
                ++ b'-'
                  ∷ (padded 2 b'0' t.tm_hour
                      ++ (padded 2 b'0' t.tm_min ++ (padded 2 b'0' t.tm_sec ++ b'.' ∷ []))))))

unfoldable pub log_file_name : (gmtime : ℕ → Tm) → (basename : List ℕ) → (pid now : ℕ) → List ℕ
unfolding time_part decimal
log_file_name gmtime basename pid now =
    basename ++ (time_part (gmtime now) ++ (take 31 (b'.' ∷ decimal pid) ++ codes ".log"))
