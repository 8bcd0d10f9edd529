-- ===== src/Config/Tests.antt =====
-- Lines of a configuration file.
use my_net_lib.Common.{arith, none, refl, some, ◌≡◌}
use my_net_lib.Decimal.{codes}
use my_net_lib.Config.{match_line}
use my_net_lib.Config.Lines.{IsEntry}

-- The greedy first group gives back what the value needs: a key that ends in a digit, with no value,
-- is split before that digit.
splits_digit : match_line (codes "thread4") ≡ some (codes "thread", codes "4")
unfolding match_line
splits_digit = refl

-- A value without a digit is not stored.
drops_name : match_line (codes "server_name=echo") ≡ none
unfolding match_line
drops_name = refl

-- A value starts at its first digit.
cuts_address : match_line (codes "peer = host7:80") ≡ some (codes "peer", codes "7:80")
unfolding match_line
cuts_address = refl

port-IsEntry : IsEntry (codes "port") (codes " = ") (codes "8080")
port-IsEntry = record {
  key_chars = ground arith;
  sep_starts = refl;
  sep_present = λ e. absurd (cc);
  sep_chars = ground arith;
  value_starts = refl;
  value_chars = ground arith;
}
