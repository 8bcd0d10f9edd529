-- ===== src/TimeStamp/Tests.antt =====
-- 26 November 2026, 14:05:09.
use my_net_lib.Common.{arith, refl, ◌≡◌}
use my_net_lib.Decimal.{codes, decimal}
use my_net_lib.TimeStamp.{Tm, time_to_string}
use my_net_lib.TimeStamp.Text.{IsTm}

abbrev afternoon : Tm
afternoon = record {
  tm_year = 126;
  tm_mon = 10;
  tm_mday = 26;
  tm_hour = 14;
  tm_min = 5;
  tm_sec = 9;
}

prints_afternoon : time_to_string afternoon ≡ codes "2026/11/26 14:05:09"
unfolding time_to_string decimal
prints_afternoon = refl

afternoon-IsTm : IsTm afternoon
afternoon-IsTm = record {
  year = omega arith;
  mon = omega arith;
  mday = omega arith;
  hour = omega arith;
  min_ = omega arith;
  sec = omega arith;
}
