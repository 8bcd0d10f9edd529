-- ===== src/TimeStamp/Text.antt =====
-- The text of a time has the same places for all times.
use my_net_lib.Common.{
  List, [], ap, append-nil, append_assoc, arith, drop, drop_all, length, length-append,
  length-replicate, refl, replicate, suc, sym, take_all, zero, ℕ, ◌++◌, ◌+◌, ◌-◌, ◌<◌, ◌^◌, ◌∙◌,
  ◌∷◌, ◌≡◌, ◌≤◌,
}
use my_net_lib.Decimal.{decimal, atoi, atoi_from}
use my_net_lib.Decimal.RoundTrip.{Ends, atoi-decimal, length-decimal}
use my_net_lib.TimeStamp.{Tm, padded, time_to_string}

-- localtime(3), in the years up to 9999.
pub record IsTm (t : Tm) : Type 0 where
  pub year : t.tm_year < 8100
  pub mon : t.tm_mon ≤ 11
  pub mday : t.tm_mday ≤ 31
  pub hour : t.tm_hour ≤ 23
  pub min_ : t.tm_min ≤ 59
  pub sec : t.tm_sec ≤ 60

pub length-padded :
    (width fill n : ℕ) → n < 10 ^ width → 1 ≤ width → length (padded width fill n) ≡ width
unfolding padded
length-padded width fill n h one = omega (
  arith,
  length-append (replicate (width - length (decimal n)) fill) (decimal n),
  length-replicate (width - length (decimal n)) fill,
  length-decimal width n h one,
)

-- Zeros in front change nothing.
atoi-zeros : (k : ℕ) (cs : List ℕ) → atoi (replicate k b'0' ++ cs) ≡ atoi cs
unfolding atoi atoi_from
atoi-zeros zero cs = refl
atoi-zeros (suc k) cs = atoi-zeros k cs

pub atoi-padded :
    (width n : ℕ) (rest : List ℕ) → n < 2 ^ 64 → Ends rest → atoi (padded width b'0' n ++ rest) ≡ n
unfolding padded
atoi-padded width n rest h e =
    ap atoi (append_assoc (replicate (width - length (decimal n)) b'0') (decimal n) rest)
    ∙ atoi-zeros (width - length (decimal n)) (decimal n ++ rest)
    ∙ atoi-decimal n rest h e

-- What stands behind a part of known length and a separator.
drop_part :
    (k : ℕ) (xs : List ℕ) (c : ℕ) (ys : List ℕ) → length xs ≡ k → drop (suc k) (xs ++ c ∷ ys) ≡ ys
drop_part zero [] c ys e = refl
drop_part zero (x ∷ xs) c ys e = absurd (omega arith)
drop_part (suc k) [] c ys e = absurd (omega arith)
drop_part (suc k) (x ∷ xs) c ys e = drop_part k xs c ys (omega arith)

drop-drop : (i k : ℕ) (xs : List ℕ) → drop (i + k) xs ≡ drop k (drop i xs)
drop-drop zero k xs = ap (λ n. drop n xs) (omega arith)
drop-drop (suc i) k [] = drop_all (suc i + k) [] (omega arith) ∙ sym (drop_all k [] (omega arith))
drop-drop (suc i) k (x ∷ xs) =
    let e : suc i + k ≡ suc (i + k) = omega arith in ap (λ n. drop n (x ∷ xs)) e ∙ drop-drop i k xs

-- The text from each field on.
abbrev from_min : (i s : List ℕ) → List ℕ
from_min i s = i ++ b':' ∷ s

abbrev from_hour : (h i s : List ℕ) → List ℕ
from_hour h i s = h ++ b':' ∷ from_min i s

abbrev from_mday : (d h i s : List ℕ) → List ℕ
from_mday d h i s = d ++ b' ' ∷ from_hour h i s

abbrev from_mon : (m d h i s : List ℕ) → List ℕ
from_mon m d h i s = m ++ b'/' ∷ from_mday d h i s

-- Two characters and a separator further on.
next_part :
    (k : ℕ) (text xs : List ℕ) (c : ℕ) (ys : List ℕ)
    → drop k text ≡ xs ++ c ∷ ys
    → length xs ≡ 2
    → drop (k + 3) text ≡ ys
next_part k text xs c ys e two = drop-drop k 3 text ∙ ap (drop 3) e ∙ drop_part 2 xs c ys two

module _ (t : Tm) (ok : IsTm t) where
  two : (n : ℕ) → n < 100 → length (padded 2 b'0' n) ≡ 2
  two n h = length-padded 2 b'0' n (omega arith) (omega arith)

  year : length (padded 4 b' ' (t.tm_year + 1900)) ≡ 4
  year = length-padded 4 b' ' (t.tm_year + 1900) (omega (arith, ok.year)) (omega arith)

  rest : List ℕ
  rest =
      from_mon (padded 2 b'0' (t.tm_mon + 1)) (padded 2 b'0' t.tm_mday) (padded 2 b'0' t.tm_hour)
        (padded 2 b'0' t.tm_min) (padded 2 b'0' t.tm_sec)

  whole-length : length (padded 4 b' ' (t.tm_year + 1900) ++ b'/' ∷ rest) ≡ 19
  unfolding rest
  whole-length = omega (
    arith,
    year,
    two (t.tm_mon + 1) (omega (arith, ok.mon)),
    two t.tm_mday (omega (arith, ok.mday)),
    two t.tm_hour (omega (arith, ok.hour)),
    two t.tm_min (omega (arith, ok.min_)),
    two t.tm_sec (omega (arith, ok.sec)),
    length-append (padded 4 b' ' (t.tm_year + 1900)) (b'/' ∷ rest),
    length-append (padded 2 b'0' (t.tm_mon + 1)) (
        b'/'
        ∷ from_mday (padded 2 b'0' t.tm_mday) (padded 2 b'0' t.tm_hour) (padded 2 b'0' t.tm_min)
            (padded 2 b'0' t.tm_sec)),
    length-append (padded 2 b'0' t.tm_mday) (
        b' '
        ∷ from_hour (padded 2 b'0' t.tm_hour) (padded 2 b'0' t.tm_min) (padded 2 b'0' t.tm_sec)),
    length-append (padded 2 b'0' t.tm_hour)
        (b':' ∷ from_min (padded 2 b'0' t.tm_min) (padded 2 b'0' t.tm_sec)),
    length-append (padded 2 b'0' t.tm_min) (b':' ∷ padded 2 b'0' t.tm_sec),
  )

  text-whole : time_to_string t ≡ padded 4 b' ' (t.tm_year + 1900) ++ b'/' ∷ rest
  unfolding time_to_string rest
  text-whole = take_all 127 _ (omega (arith, whole-length))

  at_mon : drop 5 (time_to_string t) ≡ rest
  at_mon = ap (drop 5) text-whole ∙ drop_part 4 _ _ _ year

  at_mday :
      drop 8 (time_to_string t)
      ≡ from_mday
          (padded 2 b'0' t.tm_mday)
          (padded 2 b'0' t.tm_hour)
          (padded 2 b'0' t.tm_min)
          (padded 2 b'0' t.tm_sec)
  unfolding rest
  at_mday = next_part 5 (time_to_string t) _ _ _ at_mon (two (t.tm_mon + 1) (omega (arith, ok.mon)))

  at_hour :
      drop 11 (time_to_string t)
      ≡ from_hour (padded 2 b'0' t.tm_hour) (padded 2 b'0' t.tm_min) (padded 2 b'0' t.tm_sec)
  at_hour = next_part 8 (time_to_string t) _ _ _ at_mday (two t.tm_mday (omega (arith, ok.mday)))

  at_min : drop 14 (time_to_string t) ≡ from_min (padded 2 b'0' t.tm_min) (padded 2 b'0' t.tm_sec)
  at_min = next_part 11 (time_to_string t) _ _ _ at_hour (two t.tm_hour (omega (arith, ok.hour)))

  at_sec : drop 17 (time_to_string t) ≡ padded 2 b'0' t.tm_sec
  at_sec = next_part 14 (time_to_string t) _ _ _ at_min (two t.tm_min (omega (arith, ok.min_)))

  reads :
      (k n : ℕ) (more : List ℕ)
      → drop k (time_to_string t) ≡ padded 2 b'0' n ++ more
      → n < 100
      → Ends more
      → atoi (drop k (time_to_string t)) ≡ n
  reads k n more e h ends = ap atoi e ∙ atoi-padded 2 n more (omega arith) ends

  -- A time is printed in 19 characters, and `atoi` reads each field but the year back at its place.
  pub time_to_string_lem :
      (length (time_to_string t) ≡ 19)
      × (atoi (drop 5 (time_to_string t)) ≡ t.tm_mon + 1)
      × (atoi (drop 8 (time_to_string t)) ≡ t.tm_mday)
      × (atoi (drop 11 (time_to_string t)) ≡ t.tm_hour)
      × (atoi (drop 14 (time_to_string t)) ≡ t.tm_min)
      × (atoi (drop 17 (time_to_string t)) ≡ t.tm_sec)
  unfolding rest
  time_to_string_lem = (
    ap length text-whole ∙ whole-length,
    reads 5 (t.tm_mon + 1) _ at_mon (omega (arith, ok.mon)) refl,
    reads 8 t.tm_mday _ at_mday (omega (arith, ok.mday)) refl,
    reads 11 t.tm_hour _ at_hour (omega (arith, ok.hour)) refl,
    reads 14 t.tm_min _ at_min (omega (arith, ok.min_)) refl,
    reads 17 t.tm_sec [] (at_sec ∙ sym (append-nil _)) (omega (arith, ok.sec)) tt,
  )
