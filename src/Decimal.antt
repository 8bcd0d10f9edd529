-- ===== src/Decimal.antt =====
-- Numbers as text, in ASCII: what `std::to_string`, `%d` and `%u` print of a number of at most 64
-- bits, and what `atoi` reads of a text that starts with a digit.
pub mod RoundTrip
use my_net_lib.Common.{
  Bool, List, [], false, if◌then◌else◌, leb, ltb, suc, true, zero, ℕ, ◌%◌, ◌&&◌, ◌*◌, ◌++◌, ◌+◌,
  ◌-◌, ◌/◌, ◌∷◌,
}
use Prim.Native.Char.{code}
use Prim.Native.String.{String}

-- The ASCII codes of a text.
abbrev pub codes : String → List ℕ
codes String.[] = []
codes (String.◌∷◌ c s) = code c ∷ codes s

abbrev pub is_digit : ℕ → Bool
is_digit c = leb 48 c && ltb c 58

-- At most `fuel` digits.
unfoldable pub decimal_fuel : (fuel : ℕ) → ℕ → List ℕ
decimal_fuel zero n = []
decimal_fuel (suc fuel) n = elim (ltb n 10) [
  | true ↦ (48 + n) ∷ []
  | false ↦ decimal_fuel fuel (n / 10) ++ (48 + n % 10) ∷ []
]

unfoldable pub decimal : ℕ → List ℕ
unfolding decimal_fuel
decimal n = decimal_fuel 20 n

-- The number that the digits up to the first other character continue.
unfoldable pub atoi_from : ℕ → List ℕ → ℕ
atoi_from value [] = value
atoi_from value (c ∷ cs) = if is_digit c then atoi_from (value * 10 + (c - 48)) cs else value

unfoldable pub atoi : List ℕ → ℕ
unfolding atoi_from
atoi cs = atoi_from 0 cs
