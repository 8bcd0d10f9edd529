-- ===== src/Common/Bytes.antt =====
-- Memory as a list of bytes: ranges read, ranges overwritten, a vector resized.
use Prim.Native.Nat.{ℕ, zero, suc, ◌+◌, ◌-◌, ◌≤◌}
use mathlib.Core.Path.{◌≡◌, refl, sym, ap, ◌∙◌}
use mathlib.Core.List.{List, [], ◌∷◌, ◌++◌}
use native.Mathlib.Omega.{arith}
use my_net_lib.Common.Lists.{
  length, take, drop, replicate, length-append, length-take, length-drop, length-replicate,
  take-append_le, drop-append_le, take_all,
}

-- The `n` bytes from index `i` on.
abbrev pub slice : List ℕ → ℕ → ℕ → List ℕ
slice xs i n = take n (drop i xs)

-- `xs` with its first bytes overwritten by `ys`.
abbrev pub over : List ℕ → List ℕ → List ℕ
over xs [] = xs
over [] (y ∷ ys) = []
over (x ∷ xs) (y ∷ ys) = y ∷ over xs ys

-- `xs` with the bytes from index `i` on overwritten by `ys`.
abbrev pub overwrite : List ℕ → ℕ → List ℕ → List ℕ
overwrite xs zero ys = over xs ys
overwrite [] (suc i) ys = []
overwrite (x ∷ xs) (suc i) ys = x ∷ overwrite xs i ys

-- `vector::resize`: new bytes are zero.
abbrev pub resized : List ℕ → ℕ → List ℕ
resized xs n = take n xs ++ replicate (n - length xs) 0

length-over : (xs ys : List ℕ) → length (over xs ys) ≡ length xs
length-over xs [] = refl
length-over [] (y ∷ ys) = refl
length-over (x ∷ xs) (y ∷ ys) = ap suc (length-over xs ys)

pub length-overwrite : (xs : List ℕ) (i : ℕ) (ys : List ℕ) → length (overwrite xs i ys) ≡ length xs
length-overwrite xs zero ys = length-over xs ys
length-overwrite [] (suc i) ys = refl
length-overwrite (x ∷ xs) (suc i) ys = ap suc (length-overwrite xs i ys)

pub length-resized : (xs : List ℕ) (n : ℕ) → length (resized xs n) ≡ n
length-resized xs n = omega (
  arith,
  length-append (take n xs) (replicate (n - length xs) 0),
  length-take n xs,
  length-replicate {A = ℕ} (n - length xs) 0,
)

pub length-slice : (xs : List ℕ) (i n : ℕ) → i + n ≤ length xs → length (slice xs i n) ≡ n
length-slice xs i n h = omega (arith, length-take n (drop i xs), length-drop i xs)

take_eq : (xs : List ℕ) (n m : ℕ) → n ≡ m → take n xs ≡ take m xs
take_eq xs n m e = ap (λ k. take k xs) e

drop_eq : (xs : List ℕ) (n m : ℕ) → n ≡ m → drop n xs ≡ drop m xs
drop_eq xs n m e = ap (λ k. drop k xs) e

take-nil : (n : ℕ) → [] ≡ take {A = ℕ} n []
take-nil zero = refl
take-nil (suc n) = refl

drop-nil : (n : ℕ) → [] ≡ drop {A = ℕ} n []
drop-nil zero = refl
drop-nil (suc n) = refl

take_split : (xs : List ℕ) (a b : ℕ) → take (a + b) xs ≡ take a xs ++ take b (drop a xs)
take_split xs zero b = take_eq xs (0 + b) b (omega arith)
take_split [] (suc a) b = sym (take-nil (suc a + b)) ∙ take-nil b
take_split (x ∷ xs) (suc a) b =
    take_eq (x ∷ xs) (suc a + b) (suc (a + b)) (omega arith) ∙ ap (◌∷◌ x) (take_split xs a b)

drop-drop : (xs : List ℕ) (a b : ℕ) → drop b (drop a xs) ≡ drop (a + b) xs
drop-drop xs zero b = drop_eq xs b (0 + b) (omega arith)
drop-drop [] (suc a) b = sym (drop-nil b) ∙ drop-nil (suc a + b)
drop-drop (x ∷ xs) (suc a) b =
    drop-drop xs a b ∙ drop_eq (x ∷ xs) (suc (a + b)) (suc a + b) (omega arith)

drop-take : (ys : List ℕ) (n k : ℕ) → k ≤ n → drop k (take n ys) ≡ take (n - k) (drop k ys)
drop-take ys n zero h = take_eq ys n (n - 0) (omega arith)
drop-take ys zero (suc k) h = absurd (omega arith)
drop-take [] (suc n) (suc k) h = take-nil (suc n - suc k)
drop-take (y ∷ ys) (suc n) (suc k) h =
    drop-take ys n k (omega arith) ∙ take_eq (drop k ys) (n - k) (suc n - suc k) (omega arith)

take-take : (ys : List ℕ) (n k : ℕ) → k ≤ n → take k (take n ys) ≡ take k ys
take-take ys n zero h = refl
take-take ys zero (suc k) h = absurd (omega arith)
take-take [] (suc n) (suc k) h = refl
take-take (y ∷ ys) (suc n) (suc k) h = ap (◌∷◌ y) (take-take ys n k (omega arith))

-- A range splits into two neighbours.
pub slice_split :
    (xs : List ℕ) (i a b : ℕ) → slice xs i (a + b) ≡ slice xs i a ++ slice xs (i + a) b
slice_split xs i a b =
    take_split (drop i xs) a b ∙ ap (λ t. slice xs i a ++ take b t) (drop-drop xs i a)

-- Dropping from a range moves its start.
pub drop-slice :
    (xs : List ℕ) (i n k : ℕ) → k ≤ n → drop k (slice xs i n) ≡ slice xs (i + k) (n - k)
drop-slice xs i n k h = drop-take (drop i xs) n k h ∙ ap (take (n - k)) (drop-drop xs i k)

pub take-slice : (xs : List ℕ) (i n k : ℕ) → k ≤ n → take k (slice xs i n) ≡ slice xs i k
take-slice xs i n k h = take-take (drop i xs) n k h

-- What was written is read back, if it fits.
take-over : (xs ys : List ℕ) → length ys ≤ length xs → take (length ys) (over xs ys) ≡ ys
take-over xs [] h = refl
take-over [] (y ∷ ys) h = absurd (omega arith)
take-over (x ∷ xs) (y ∷ ys) h = ap (◌∷◌ y) (take-over xs ys (omega arith))

pub slice-overwrite_self :
    (xs : List ℕ) (i : ℕ) (ys : List ℕ)
    → i + length ys ≤ length xs
    → slice (overwrite xs i ys) i (length ys) ≡ ys
slice-overwrite_self xs zero ys h = take-over xs ys (omega arith)
slice-overwrite_self [] (suc i) [] h = refl
slice-overwrite_self [] (suc i) (y ∷ ys) h = absurd (omega arith)
slice-overwrite_self (x ∷ xs) (suc i) ys h = slice-overwrite_self xs i ys (omega arith)

-- A range below the one written is as it was.
take-overwrite :
    (xs : List ℕ) (i : ℕ) (ys : List ℕ) (n : ℕ) → n ≤ i → take n (overwrite xs i ys) ≡ take n xs
take-overwrite xs i ys zero h = refl
take-overwrite xs zero ys (suc n) h = absurd (omega arith)
take-overwrite [] (suc i) ys (suc n) h = refl
take-overwrite (x ∷ xs) (suc i) ys (suc n) h = ap (◌∷◌ x) (take-overwrite xs i ys n (omega arith))

pub slice-overwrite_below :
    (xs : List ℕ) (i : ℕ) (ys : List ℕ) (j n : ℕ)
    → j + n ≤ i
    → slice (overwrite xs i ys) j n ≡ slice xs j n
slice-overwrite_below xs i ys zero n h = take-overwrite xs i ys n (omega arith)
slice-overwrite_below xs zero ys (suc j) n h = absurd (omega arith)
slice-overwrite_below [] (suc i) ys (suc j) n h = refl
slice-overwrite_below (x ∷ xs) (suc i) ys (suc j) n h =
    slice-overwrite_below xs i ys j n (omega arith)

-- A vector that grows keeps its ranges.
slice-append : (xs ys : List ℕ) (i n : ℕ) → i + n ≤ length xs → slice (xs ++ ys) i n ≡ slice xs i n
slice-append xs ys i n h =
    ap (take n) (drop-append_le i xs ys (omega arith))
    ∙ take-append_le n (drop i xs) ys (omega (arith, length-drop i xs))

pub slice-resized :
    (xs : List ℕ) (m i n : ℕ)
    → length xs ≤ m
    → i + n ≤ length xs
    → slice (resized xs m) i n ≡ slice xs i n
slice-resized xs m i n g h =
    ap (λ t. slice (t ++ replicate (m - length xs) 0) i n) (take_all m xs g)
    ∙ slice-append xs (replicate (m - length xs) 0) i n h
