-- ===== src/TimeStamp.antt =====
-- include/time_stamp.h, src/time_stamp.cc: a time as text. `localtime` is the C library's: the fields
-- that it gives are the argument.
pub mod Text
mod Tests
use my_net_lib.Common.{List, length, replicate, take, ℕ, ◌++◌, ◌+◌, ◌-◌, ◌∷◌}
use my_net_lib.Decimal.{decimal}

-- `struct tm`
pub record Tm : Type 0 where
  pub tm_year : ℕ
  pub tm_mon : ℕ
  pub tm_mday : ℕ
  pub tm_hour : ℕ
  pub tm_min : ℕ
  pub tm_sec : ℕ

-- `%4d` and `%02d`: a number behind as many fill characters as its width lacks.
unfoldable pub padded : (width : ℕ) → (fill : ℕ) → ℕ → List ℕ
padded width fill n = replicate (width - length (decimal n)) fill ++ decimal n

-- "%4d/%02d/%02d %02d:%02d:%02d", cut to the 127 characters before the `\0`.
unfoldable pub time_to_string : Tm → List ℕ
unfolding padded
time_to_string t = take 127 (
    padded 4 b' ' (t.tm_year + 1900)
    ++ b'/'
      ∷ (padded 2 b'0' (t.tm_mon + 1)
          ++ b'/'
            ∷ (padded 2 b'0' t.tm_mday
                ++ b' '
                  ∷ (padded 2 b'0' t.tm_hour
                      ++ b':' ∷ (padded 2 b'0' t.tm_min ++ b':' ∷ padded 2 b'0' t.tm_sec)))))
