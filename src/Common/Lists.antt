-- ===== src/Common/Lists.antt =====
-- Lists measured and indexed by native numbers, under the library's names.
use Prim.Native.Nat.{ℕ, zero, suc, ◌+◌, ◌-◌, ◌≤◌, ◌<◌, min}
use mathlib.Core.Path.{◌≡◌, refl, ap, sym, ◌∙◌}
use mathlib.Core.Logic.{◌≢◌, ◌⊎◌, inl, inr}
use mathlib.Core.List.{List, [], ◌∷◌, ◌++◌, append_assoc}
use mathlib.Core.Option.{Option, none, some}
use native.Mathlib.Omega.{arith}

module _ {ℓ} {A : Type ℓ} where
  abbrev pub length : List A → ℕ
  length [] = 0
  length (x ∷ xs) = suc (length xs)

  abbrev pub get_elem? : List A → ℕ → Option A
  get_elem? [] i = none
  get_elem? (x ∷ xs) zero = some x
  get_elem? (x ∷ xs) (suc i) = get_elem? xs i

  -- A write out of range changes nothing.
  abbrev pub set : List A → ℕ → A → List A
  set [] i v = []
  set (x ∷ xs) zero v = v ∷ xs
  set (x ∷ xs) (suc i) v = x ∷ set xs i v

  abbrev pub take : ℕ → List A → List A
  take zero xs = []
  take (suc n) [] = []
  take (suc n) (x ∷ xs) = x ∷ take n xs

  abbrev pub drop : ℕ → List A → List A
  drop zero xs = xs
  drop (suc n) [] = []
  drop (suc n) (x ∷ xs) = drop n xs

  abbrev pub replicate : ℕ → A → List A
  replicate zero a = []
  replicate (suc n) a = a ∷ replicate n a

  -- `vector::pop_back`
  abbrev pub drop_last : List A → List A
  drop_last [] = []
  drop_last (x ∷ []) = []
  drop_last (x ∷ y ∷ ys) = x ∷ drop_last (y ∷ ys)

  pub length-append : (xs ys : List A) → length (xs ++ ys) ≡ length xs + length ys
  length-append [] ys = omega arith
  length-append (x ∷ xs) ys = omega (arith, length-append xs ys)

  pub length-set : (xs : List A) (i : ℕ) (v : A) → length (set xs i v) ≡ length xs
  length-set [] i v = refl
  length-set (x ∷ xs) zero v = refl
  length-set (x ∷ xs) (suc i) v = ap suc (length-set xs i v)

  pub get_elem?-set_self :
      (xs : List A) (i : ℕ) (v : A) → i < length xs → get_elem? (set xs i v) i ≡ some v
  get_elem?-set_self [] i v h = elim h [ ]
  get_elem?-set_self (x ∷ xs) zero v h = refl
  get_elem?-set_self (x ∷ xs) (suc i) v h = get_elem?-set_self xs i v (omega arith)

  pub get_elem?-set_ne :
      (xs : List A) (i j : ℕ) (v : A) → i ≢ j → get_elem? (set xs i v) j ≡ get_elem? xs j
  get_elem?-set_ne [] i j v h = refl
  get_elem?-set_ne (x ∷ xs) zero zero v h = absurd (h refl)
  get_elem?-set_ne (x ∷ xs) zero (suc j) v h = refl
  get_elem?-set_ne (x ∷ xs) (suc i) zero v h = refl
  get_elem?-set_ne (x ∷ xs) (suc i) (suc j) v h = get_elem?-set_ne xs i j v (λ e. h (ap suc e))

  pub take-append-drop : (n : ℕ) (xs : List A) → take n xs ++ drop n xs ≡ xs
  take-append-drop zero xs = refl
  take-append-drop (suc n) [] = refl
  take-append-drop (suc n) (x ∷ xs) = rw (take-append-drop n xs)

  pub length-take : (n : ℕ) (xs : List A) → length (take n xs) ≡ min n (length xs)
  length-take zero xs = omega arith
  length-take (suc n) [] = omega arith
  length-take (suc n) (x ∷ xs) = omega (arith, length-take n xs)

  pub length-drop : (n : ℕ) (xs : List A) → length (drop n xs) ≡ length xs - n
  length-drop zero xs = omega arith
  length-drop (suc n) [] = omega arith
  length-drop (suc n) (x ∷ xs) = omega (arith, length-drop n xs)

  pub length-replicate : (n : ℕ) (a : A) → length (replicate n a) ≡ n
  length-replicate zero a = refl
  length-replicate (suc n) a = ap suc (length-replicate n a)

  pub take_all : (n : ℕ) (xs : List A) → length xs ≤ n → take n xs ≡ xs
  take_all zero [] h = refl
  take_all zero (x ∷ xs) h = absurd (omega arith)
  take_all (suc n) [] h = refl
  take_all (suc n) (x ∷ xs) h = ap (◌∷◌ x) (take_all n xs (omega arith))

  pub drop_all : (n : ℕ) (xs : List A) → length xs ≤ n → drop n xs ≡ []
  drop_all zero [] h = refl
  drop_all zero (x ∷ xs) h = absurd (omega arith)
  drop_all (suc n) [] h = refl
  drop_all (suc n) (x ∷ xs) h = drop_all n xs (omega arith)

  pub take-append_le : (n : ℕ) (xs ys : List A) → n ≤ length xs → take n (xs ++ ys) ≡ take n xs
  take-append_le zero xs ys h = refl
  take-append_le (suc n) [] ys h = absurd (omega arith)
  take-append_le (suc n) (x ∷ xs) ys h = ap (◌∷◌ x) (take-append_le n xs ys (omega arith))

  pub drop-append_le :
      (n : ℕ) (xs ys : List A) → n ≤ length xs → drop n (xs ++ ys) ≡ drop n xs ++ ys
  drop-append_le zero xs ys h = refl
  drop-append_le (suc n) [] ys h = absurd (omega arith)
  drop-append_le (suc n) (x ∷ xs) ys h = drop-append_le n xs ys (omega arith)

  pub get_elem?-append_one :
      (xs : List A) (y : A) (i : ℕ) (e : A)
      → get_elem? (xs ++ y ∷ []) i ≡ some e
      → (get_elem? xs i ≡ some e) ⊎ ((i ≡ length xs) × (e ≡ y))
  get_elem?-append_one [] y zero e h = inr (refl, cc)
  get_elem?-append_one [] y (suc i) e h = absurd (cc)
  get_elem?-append_one (x ∷ xs) y zero e h = inl h
  get_elem?-append_one (x ∷ xs) y (suc i) e h = elim (get_elem?-append_one xs y i e h) [
    | inl h' ↦ inl h'
    | inr (a, b) ↦ inr (ap suc a, b)
  ]

  pub get_elem?-drop_last :
      (xs : List A) (i : ℕ) (e : A)
      → get_elem? (drop_last xs) i ≡ some e
      → (get_elem? xs i ≡ some e) × (i + 1 < length xs)
  get_elem?-drop_last [] i e h = absurd (cc)
  get_elem?-drop_last (x ∷ []) i e h = absurd (cc)
  get_elem?-drop_last (x ∷ y ∷ ys) zero e h = (h, omega arith)
  get_elem?-drop_last (x ∷ y ∷ ys) (suc i) e h =
      let (a, b) = get_elem?-drop_last (y ∷ ys) i e h in (a, omega (arith, b))

  pub length-drop_last : (xs : List A) → 0 < length xs → length (drop_last xs) + 1 ≡ length xs
  length-drop_last [] h = absurd (omega arith)
  length-drop_last (x ∷ []) h = refl
  length-drop_last (x ∷ y ∷ ys) h = omega (arith, length-drop_last (y ∷ ys) (omega arith))

  pub get_elem?-drop_last_stays :
      (xs : List A) (i : ℕ) (e : A)
      → get_elem? xs i ≡ some e
      → i + 1 < length xs
      → get_elem? (drop_last xs) i ≡ some e
  get_elem?-drop_last_stays [] i e h inside = absurd (omega arith)
  get_elem?-drop_last_stays (x ∷ []) i e h inside = absurd (omega arith)
  get_elem?-drop_last_stays (x ∷ y ∷ ys) zero e h inside = h
  get_elem?-drop_last_stays (x ∷ y ∷ ys) (suc i) e h inside =
      get_elem?-drop_last_stays (y ∷ ys) i e h (omega (arith, inside))

  pub get_elem?-append_stays :
      (xs ys : List A) (i : ℕ) (e : A) → get_elem? xs i ≡ some e → get_elem? (xs ++ ys) i ≡ some e
  get_elem?-append_stays [] ys i e h = absurd (cc)
  get_elem?-append_stays (x ∷ xs) ys zero e h = h
  get_elem?-append_stays (x ∷ xs) ys (suc i) e h = get_elem?-append_stays xs ys i e h

  pub get_elem?-append_last : (xs : List A) (y : A) → get_elem? (xs ++ y ∷ []) (length xs) ≡ some y
  get_elem?-append_last [] y = refl
  get_elem?-append_last (x ∷ xs) y = get_elem?-append_last xs y

  -- Where there is an element.
  pub get_elem?-bound : (xs : List A) (i : ℕ) (e : A) → get_elem? xs i ≡ some e → i < length xs
  get_elem?-bound [] i e h = absurd (cc)
  get_elem?-bound (x ∷ xs) zero e h = omega arith
  get_elem?-bound (x ∷ xs) (suc i) e h = omega (arith, get_elem?-bound xs i e h)

  pub get_elem?-inside : (xs : List A) (i : ℕ) → i < length xs → (e : A) × (get_elem? xs i ≡ some e)
  get_elem?-inside [] i h = absurd (omega arith)
  get_elem?-inside (x ∷ xs) zero h = (x, refl)
  get_elem?-inside (x ∷ xs) (suc i) h = get_elem?-inside xs i (omega arith)

-- More at the end of what is left, and of the whole.
pub append-end {ℓ} :
    {A : Type ℓ} (a b c q : List A) (more : List A)
    → a ++ (b ++ c) ≡ q
    → a ++ (b ++ (c ++ more)) ≡ q ++ more
append-end a b c q more e =
    ap (λ t. a ++ t) (sym (append_assoc b c more))
    ∙ sym (append_assoc a (b ++ c) more)
    ∙ ap (λ t. t ++ more) e

pub List-cases {ℓ} :
    {A : Type ℓ} (xs : List A) → (xs ≡ []) ⊎ ((x : A) × (ys : List A) × (xs ≡ x ∷ ys))
List-cases [] = inl refl
List-cases (x ∷ xs) = inr (x, xs, refl)
