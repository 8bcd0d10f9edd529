-- ===== src/LogFile/Tests.antt =====
-- A log file at concrete inputs.
use my_net_lib.Common.{
  List, [], ap, arith, false, length, ltb, min, refl, ℕ, ◌%◌, ◌*◌, ◌/◌, ◌∷◌, ◌≡◌,
}
use my_net_lib.LogFile.{
  LogFile, Fwrite, append_unlocked, append_line, append_file, append_loop, new_log_file, roll_file,
  log_file_name, time_part,
}
use my_net_lib.LogFile.Write.{IsFwrite}
use my_net_lib.LogFile.Names.{IsGmtime}
use my_net_lib.LogFile.Files.{
  Files, History, opens, appends, wrote, Kept, lines_in_files, AreDistinct, names, names_differ,
}
use my_net_lib.TimeStamp.{Tm, padded}
use my_net_lib.Decimal.{codes, decimal}

-- A disk that takes at most two bytes.
abbrev full_disk : Fwrite
full_disk bytes = (min 2 (length bytes), ltb 2 (length bytes))

full_disk-IsFwrite : IsFwrite full_disk
full_disk-IsFwrite bytes = (omega arith, ground arith)

abbrev log_file : LogFile
log_file = record {
  roll_size = 1000;
  flush_interval = 3;
  check_every_n = 1;
  count = 0;
  start_of_period = 86400;
  last_roll = 86400;
  last_flush = 86400;
  written_bytes = 990;
}

-- A calendar of months of 31 days.
abbrev calendar : ℕ → Tm
calendar t = record {
  tm_year = t / (86400 * 372);
  tm_mon = t / (86400 * 31) % 12;
  tm_mday = t / 86400 % 31;
  tm_hour = t / 3600 % 24;
  tm_min = t / 60 % 60;
  tm_sec = t % 60;
}

calendar-IsGmtime : IsGmtime calendar
calendar-IsGmtime = record {
  fields = λ t h. record {
    year = omega arith;
    mon = omega arith;
    mday = omega arith;
    hour = omega arith;
    min_ = omega arith;
    sec = omega arith;
  };
  injective = λ t u ht hu e. omega (
    arith,
    ap (λ (x : Tm). x.tm_year) e,
    ap (λ (x : Tm). x.tm_mon) e,
    ap (λ (x : Tm). x.tm_mday) e,
    ap (λ (x : Tm). x.tm_hour) e,
    ap (λ (x : Tm). x.tm_min) e,
    ap (λ (x : Tm). x.tm_sec) e,
  );
}

-- A line of three bytes fills the first file.
abbrev long_line : List ℕ
long_line = 65 ∷ 66 ∷ 10 ∷ []

abbrev two_files : Files
two_files =
    wrote long_line (append_unlocked 200 3 (new_log_file 100 2 3 1024))
      (record { file = new_log_file 100 2 3 1024; lines = []; closed = [] })

two_files-History : History two_files (long_line ∷ [])
unfolding append_line append_file append_loop append_unlocked new_log_file roll_file
two_files-History =
    appends (λ bytes. (length bytes, false)) 200 long_line
      (opens 100 2 3 1024 (omega arith) (omega arith)) (omega arith) refl refl refl refl refl

lines_in_files_example : Kept two_files (long_line ∷ [])
lines_in_files_example = lines_in_files two_files-History

names_differ_example :
    AreDistinct
      (names (log_file_name calendar (116 ∷ []) 7) two_files.file.last_roll two_files.closed)
names_differ_example = names_differ calendar (116 ∷ []) 7 calendar-IsGmtime two_files-History

-- The third day, of process 7; the years of this calendar count from 1900, its days from 0.
first_name : log_file_name calendar (codes "test") 7 172800 ≡ codes "test.19000102-000000..7.log"
unfolding log_file_name time_part decimal padded
first_name = refl
