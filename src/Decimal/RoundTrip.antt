-- ===== src/Decimal/RoundTrip.antt =====
-- What is printed is read back.
use my_net_lib.Common.{
  Bool, List, [], ap, arith, false, length, length-append, le→ltb, lt→ltb, refl, subst, suc, sym,
  true, zero, ℕ, ◌%◌, ◌*◌, ◌++◌, ◌+◌, ◌-◌, ◌/◌, ◌<◌, ◌^◌, ◌∙◌, ◌∷◌, ◌≡◌, ◌≤◌,
}
use native.Mathlib.Decide.{dec_lt}
use my_net_lib.Decimal.{is_digit, decimal_fuel, decimal, atoi_from, atoi}

abbrev pub AreDigits : List ℕ → Type 0
AreDigits [] = Unit {0}
AreDigits (c ∷ cs) = (is_digit c ≡ true) × AreDigits cs

pub AreDigits-append : (xs ys : List ℕ) → AreDigits xs → AreDigits ys → AreDigits (xs ++ ys)
AreDigits-append [] ys dx dy = dy
AreDigits-append (x ∷ xs) ys dx dy = (dx.0, AreDigits-append xs ys dx.1 dy)

one_digit : (fuel n : ℕ) → n < 10 → decimal_fuel (suc fuel) n ≡ (48 + n) ∷ []
unfolding decimal_fuel
one_digit fuel n h = rw (decimal_fuel, lt→ltb n 10 h) refl

more_digits :
    (fuel n : ℕ)
    → 10 ≤ n
    → decimal_fuel (suc fuel) n ≡ decimal_fuel fuel (n / 10) ++ (48 + n % 10) ∷ []
unfolding decimal_fuel
more_digits fuel n h = rw (decimal_fuel, le→ltb n 10 h) refl

pub decimal_fuel-AreDigits : (fuel n : ℕ) → AreDigits (decimal_fuel fuel n)
unfolding decimal_fuel
decimal_fuel-AreDigits zero n = tt
decimal_fuel-AreDigits (suc fuel) n = elim (dec_lt n 10) [
  | yes h ↦ subst AreDigits (sym (one_digit fuel n h)) (ground arith, tt)
  | no h ↦ subst AreDigits (sym (more_digits fuel n (omega arith))) (
      AreDigits-append (decimal_fuel fuel (n / 10)) ((48 + n % 10) ∷ [])
        (decimal_fuel-AreDigits fuel (n / 10)) (ground arith, tt))
]

pub length-decimal_fuel : (fuel n : ℕ) → length (decimal_fuel fuel n) ≤ fuel
unfolding decimal_fuel
length-decimal_fuel zero n = omega arith
length-decimal_fuel (suc fuel) n = elim (dec_lt n 10) [
  | yes h ↦ subst (λ t. length t ≤ suc fuel) (sym (one_digit fuel n h)) (omega arith)
  | no h ↦
      subst (λ t. length t ≤ suc fuel) (sym (more_digits fuel n (omega arith)))
        (omega (
          arith,
          length-decimal_fuel fuel (n / 10),
          length-append (decimal_fuel fuel (n / 10)) ((48 + n % 10) ∷ []),
        ))
]

pub atoi_from-append :
    (value : ℕ) (xs ys : List ℕ)
    → AreDigits xs
    → atoi_from value (xs ++ ys) ≡ atoi_from (atoi_from value xs) ys
unfolding atoi_from
atoi_from-append value [] ys d = refl
atoi_from-append value (x ∷ xs) ys d = rw (d.0) (atoi_from-append (value * 10 + (x - 48)) xs ys d.1)

-- `atoi` stops here.
abbrev pub Ends : List ℕ → Type 0
Ends [] = Unit {0}
Ends (c ∷ cs) = is_digit c ≡ false

pub atoi_from-Ends : (value : ℕ) (cs : List ℕ) → Ends cs → atoi_from value cs ≡ value
unfolding atoi_from
atoi_from-Ends value [] h = refl
atoi_from-Ends value (c ∷ cs) h = rw h

atoi-decimal_fuel : (fuel n : ℕ) → n < 10 ^ fuel → atoi_from 0 (decimal_fuel fuel n) ≡ n
unfolding decimal_fuel atoi_from
atoi-decimal_fuel zero n h = omega arith
atoi-decimal_fuel (suc fuel) n h = elim (dec_lt n 10) [
  | yes small ↦ ap (atoi_from 0) (one_digit fuel n small) ∙ ground arith
  | no large ↦
      ap (atoi_from 0) (more_digits fuel n (omega arith))
      ∙ atoi_from-append 0 (decimal_fuel fuel (n / 10)) ((48 + n % 10) ∷ [])
          (decimal_fuel-AreDigits fuel (n / 10))
      ∙ ap (λ v. atoi_from v ((48 + n % 10) ∷ [])) (atoi-decimal_fuel fuel (n / 10) (omega arith))
      ∙ ground arith
]

-- A number of at most 64 bits is read back from its text, whatever else follows that is no digit.
pub atoi-decimal : (n : ℕ) (rest : List ℕ) → n < 2 ^ 64 → Ends rest → atoi (decimal n ++ rest) ≡ n
unfolding atoi decimal
atoi-decimal n rest h e =
    atoi_from-append 0 (decimal_fuel 20 n) rest (decimal_fuel-AreDigits 20 n)
    ∙ ap (λ v. atoi_from v rest) (atoi-decimal_fuel 20 n (omega arith))
    ∙ atoi_from-Ends n rest e

pub decimal-AreDigits : (n : ℕ) → AreDigits (decimal n)
unfolding decimal
decimal-AreDigits n = decimal_fuel-AreDigits 20 n

abbrev pub starts : (ℕ → Bool) → List ℕ → Bool
starts p [] = false
starts p (c ∷ cs) = p c

starts-append : (p : ℕ → Bool) (xs ys : List ℕ) → starts p xs ≡ true → starts p (xs ++ ys) ≡ true
starts-append p [] ys h = cc
starts-append p (x ∷ xs) ys h = h

starts-decimal_fuel : (fuel n : ℕ) → starts is_digit (decimal_fuel (suc fuel) n) ≡ true
unfolding decimal_fuel
starts-decimal_fuel zero n = elim (dec_lt n 10) [
  | yes h ↦ ap (starts is_digit) (one_digit 0 n h) ∙ ground arith
  | no h ↦ ap (starts is_digit) (more_digits 0 n (omega arith)) ∙ ground arith
]
starts-decimal_fuel (suc fuel) n = elim (dec_lt n 10) [
  | yes h ↦ ap (starts is_digit) (one_digit (suc fuel) n h) ∙ ground arith
  | no h ↦
      ap (starts is_digit) (more_digits (suc fuel) n (omega arith))
      ∙ starts-append is_digit (decimal_fuel (suc fuel) (n / 10)) ((48 + n % 10) ∷ [])
          (starts-decimal_fuel fuel (n / 10))
]

pub starts-decimal : (n : ℕ) → starts is_digit (decimal n) ≡ true
unfolding decimal
starts-decimal n = starts-decimal_fuel 19 n

digits-decimal_fuel :
    (fuel digits n : ℕ) → n < 10 ^ digits → 1 ≤ digits → length (decimal_fuel fuel n) ≤ digits
unfolding decimal_fuel
digits-decimal_fuel zero digits n h one = omega arith
digits-decimal_fuel (suc fuel) zero n h one = absurd (omega arith)
digits-decimal_fuel (suc fuel) (suc zero) n h one =
    subst (λ t. length t ≤ 1) (sym (one_digit fuel n (omega arith))) (omega arith)
digits-decimal_fuel (suc fuel) (suc (suc digits)) n h one = elim (dec_lt n 10) [
  | yes small ↦
      subst (λ t. length t ≤ suc (suc digits)) (sym (one_digit fuel n small)) (omega arith)
  | no large ↦
      subst (λ t. length t ≤ suc (suc digits)) (sym (more_digits fuel n (omega arith)))
        (omega (
          arith,
          digits-decimal_fuel fuel (suc digits) (n / 10) (omega arith) (omega arith),
          length-append (decimal_fuel fuel (n / 10)) ((48 + n % 10) ∷ []),
        ))
]

-- A number below a power of ten has no more digits than that.
pub length-decimal : (digits n : ℕ) → n < 10 ^ digits → 1 ≤ digits → length (decimal n) ≤ digits
unfolding decimal
length-decimal digits n h one = digits-decimal_fuel 20 digits n h one

-- Different numbers have different texts.
pub decimal-injective : (m n : ℕ) → m < 2 ^ 64 → n < 2 ^ 64 → decimal m ≡ decimal n → m ≡ n
decimal-injective m n hm hn e =
    sym (atoi-decimal m [] hm tt) ∙ ap (λ t. atoi (t ++ [])) e ∙ atoi-decimal n [] hn tt
