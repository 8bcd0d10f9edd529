-- ===== src/LogFile/Names.antt =====
-- `GetLogFileName`: the files of two seconds have different names.
use my_net_lib.Common.{
  List, [], ap, arith, drop, length, length-append, refl, sym, ℕ, ◌++◌, ◌+◌, ◌<◌, ◌^◌, ◌∙◌, ◌∷◌,
  ◌≡◌, ◌≤◌,
}
use my_net_lib.Decimal.{atoi}
use my_net_lib.TimeStamp.{Tm, padded}
use my_net_lib.TimeStamp.Text.{IsTm, length-padded, atoi-padded}
use my_net_lib.LogFile.{time_part, log_file_name}

-- The first second of the year 10000.
abbrev pub year_10000 : ℕ
year_10000 = 253402300800

-- gmtime(3), before the year 10000.
pub record IsGmtime (gmtime : ℕ → Tm) : Type 0 where
  pub fields : (t : ℕ) → t < year_10000 → IsTm (gmtime t)
  pub injective : (t u : ℕ) → t < year_10000 → u < year_10000 → gmtime t ≡ gmtime u → t ≡ u

-- Texts whose first parts are as long.
parts {ℓ} :
    {A : Type ℓ} (xs xs' ys ys' : List A)
    → length xs ≡ length xs'
    → xs ++ ys ≡ xs' ++ ys'
    → (xs ≡ xs') × (ys ≡ ys')
parts [] [] ys ys' h e = (refl, e)
parts [] (x ∷ xs) ys ys' h e = absurd (omega arith)
parts (x ∷ xs) [] ys ys' h e = absurd (omega arith)
parts (x ∷ xs) (x' ∷ xs') ys ys' h e =
    let r = parts xs xs' ys ys' (omega arith) (ap (drop 1) e) in (cc (r.0), r.1)

-- Two numbers of as many digits.
same_padded :
    (width m n : ℕ) → m < 2 ^ 64 → n < 2 ^ 64 → padded width b'0' m ≡ padded width b'0' n → m ≡ n
same_padded width m n hm hn e =
    sym (atoi-padded width m [] hm tt) ∙ ap (λ t. atoi (t ++ [])) e ∙ atoi-padded width n [] hn tt

-- The first number of a text.
first_number :
    (width m n : ℕ) (ys ys' : List ℕ)
    → m < 10 ^ width
    → n < 10 ^ width
    → 1 ≤ width
    → 10 ^ width ≤ 2 ^ 64
    → padded width b'0' m ++ ys ≡ padded width b'0' n ++ ys'
    → (m ≡ n) × (ys ≡ ys')
first_number width m n ys ys' hm hn one small e =
    let r =
      parts (padded width b'0' m) (padded width b'0' n) ys ys'
        (length-padded width b'0' m hm one ∙ sym (length-padded width b'0' n hn one)) e in
    (same_padded width m n (omega arith) (omega arith) r.0, r.1)

two_digits :
    (m n : ℕ) (ys ys' : List ℕ)
    → m < 100
    → n < 100
    → padded 2 b'0' m ++ ys ≡ padded 2 b'0' n ++ ys'
    → (m ≡ n) × (ys ≡ ys')
two_digits m n ys ys' hm hn e =
    first_number 2 m n ys ys' (omega arith) (omega arith) (omega arith) (omega arith) e

-- The parts of the text from each field on.
abbrev from_sec : Tm → List ℕ
from_sec t = padded 2 b'0' t.tm_sec ++ b'.' ∷ []

abbrev from_min : Tm → List ℕ
from_min t = padded 2 b'0' t.tm_min ++ from_sec t

abbrev from_hour : Tm → List ℕ
from_hour t = padded 2 b'0' t.tm_hour ++ from_min t

abbrev from_mday : Tm → List ℕ
from_mday t = padded 2 b'0' t.tm_mday ++ b'-' ∷ from_hour t

abbrev from_mon : Tm → List ℕ
from_mon t = padded 2 b'0' (t.tm_mon + 1) ++ from_mday t

length-digits : (n : ℕ) (ys : List ℕ) → n < 100 → length (padded 2 b'0' n ++ ys) ≡ 2 + length ys
length-digits n ys h =
    omega (
      arith,
      length-append (padded 2 b'0' n) ys,
      length-padded 2 b'0' n (omega arith) (omega arith),
    )

length-time_part : (t : Tm) → IsTm t → length (time_part t) ≡ 17
unfolding time_part
length-time_part t ok = omega (
  arith,
  ok,
  length-append (padded 4 b'0' (t.tm_year + 1900)) (from_mon t),
  length-padded 4 b'0' (t.tm_year + 1900) (omega (arith, ok.year)) (omega arith),
  length-digits (t.tm_mon + 1) (from_mday t) (omega (arith, ok.mon)),
  length-digits t.tm_mday (b'-' ∷ from_hour t) (omega (arith, ok.mday)),
  length-digits t.tm_hour (from_min t) (omega (arith, ok.hour)),
  length-digits t.tm_min (from_sec t) (omega (arith, ok.min_)),
  length-digits t.tm_sec (b'.' ∷ []) (omega (arith, ok.sec)),
)

-- The time can be read off the name.
time_part-injective : (t u : Tm) → IsTm t → IsTm u → time_part t ≡ time_part u → t ≡ u
unfolding time_part
time_part-injective t u ht hu e =
    let year =
      first_number 4 (t.tm_year + 1900) (u.tm_year + 1900) (from_mon t) (from_mon u)
        (omega (arith, ht.year)) (omega (arith, hu.year)) (omega arith) (omega arith)
        (ap (drop 1) e) in
    let mon =
      two_digits (t.tm_mon + 1) (u.tm_mon + 1) (from_mday t) (from_mday u) (omega (arith, ht.mon))
        (omega (arith, hu.mon)) year.1 in
    let mday =
      two_digits t.tm_mday u.tm_mday (b'-' ∷ from_hour t) (b'-' ∷ from_hour u)
        (omega (arith, ht.mday)) (omega (arith, hu.mday)) mon.1 in
    let hour =
      two_digits t.tm_hour u.tm_hour (from_min t) (from_min u) (omega (arith, ht.hour))
        (omega (arith, hu.hour)) (ap (drop 1) mday.1) in
    let min_ =
      two_digits t.tm_min u.tm_min (from_sec t) (from_sec u) (omega (arith, ht.min_))
        (omega (arith, hu.min_)) hour.1 in
    let sec =
      two_digits t.tm_sec u.tm_sec (b'.' ∷ []) (b'.' ∷ []) (omega (arith, ht.sec))
        (omega (arith, hu.sec)) min_.1 in
    let same_year : t.tm_year ≡ u.tm_year = omega (arith, year.0) in
    let same_mon : t.tm_mon ≡ u.tm_mon = omega (arith, mon.0) in cc (mday.0, hour.0, min_.0, sec.0)

-- The log files of one process that are opened at two times have different names.
pub log_file_name-injective :
    (gmtime : ℕ → Tm) (basename : List ℕ) (pid t u : ℕ)
    → IsGmtime gmtime
    → t < year_10000
    → u < year_10000
    → log_file_name gmtime basename pid t ≡ log_file_name gmtime basename pid u
    → t ≡ u
unfolding log_file_name
log_file_name-injective gmtime basename pid t u law ht hu e = law.injective t u ht hu (
    time_part-injective (gmtime t) (gmtime u) (law.fields t ht) (law.fields u hu) (
      (parts (time_part (gmtime t)) (time_part (gmtime u)) _ _
        (length-time_part (gmtime t) (law.fields t ht)
          ∙ sym (length-time_part (gmtime u) (law.fields u hu)))
        (parts basename basename _ _ refl e).1).0))
