-- ===== src/Common/Texts.antt =====
-- Texts as keys of a map.
use my_net_lib.Common.Tests.{if◌then◌else◌, ◌==◌, ==_iff, Bool-cases, if_true, if_false}
use Prim.Native.Nat.{ℕ}
use mathlib.Core.Path.{◌≡◌, ◌∙◌, ap₂, refl, sym}
use mathlib.Core.Logic.{◌≢◌, inl, inr}
use mathlib.Core.List.{List, [], ◌∷◌}
use mathlib.Core.Bool.{Bool, true, false, ◌&&◌}

abbrev pub eq_text : List ℕ → List ℕ → Bool
eq_text [] [] = true
eq_text [] (y ∷ ys) = false
eq_text (x ∷ xs) [] = false
eq_text (x ∷ xs) (y ∷ ys) = x == y && eq_text xs ys

pub eq_text_self : (xs : List ℕ) → eq_text xs xs ≡ true
eq_text_self [] = refl
eq_text_self (x ∷ xs) = rw ((==_iff x x).1 refl) (eq_text_self xs)

pub eq_text_same : (xs ys : List ℕ) → eq_text xs ys ≡ true → xs ≡ ys
eq_text_same [] [] h = refl
eq_text_same [] (y ∷ ys) h = absurd (cc)
eq_text_same (x ∷ xs) [] h = absurd (cc)
eq_text_same (x ∷ xs) (y ∷ ys) h = elim (Bool-cases (x == y)) [
  | inl e ↦ ap₂ ◌∷◌ ((==_iff x y).0 e) (eq_text_same xs ys (sym (rest e) ∙ h))
  | inr e ↦ let never : false ≡ true = sym (ends e) ∙ h in absurd (cc)
]
  where
    rest : (x == y) ≡ true → (x == y && eq_text xs ys) ≡ eq_text xs ys
    rest e = rw e refl

    ends : (x == y) ≡ false → (x == y && eq_text xs ys) ≡ false
    ends e = rw e refl

pub eq_text_ne : (xs ys : List ℕ) → xs ≢ ys → eq_text xs ys ≡ false
eq_text_ne xs ys n = elim (Bool-cases (eq_text xs ys)) [
  | inl e ↦ absurd (n (eq_text_same xs ys e))
  | inr e ↦ e
]

abbrev pub put_text {ℓ} : {A : Type ℓ} → List ℕ → A → (List ℕ → A) → List ℕ → A
put_text k v m i = if eq_text i k then v else m i

pub put_text_self {ℓ} : {A : Type ℓ} (k : List ℕ) (v : A) (m : List ℕ → A) → put_text k v m k ≡ v
put_text_self k v m = if_true _ _ (eq_text_self k)

pub put_text_ne {ℓ} :
    {A : Type ℓ} {k i : List ℕ} (v : A) (m : List ℕ → A) → i ≢ k → put_text k v m i ≡ m i
put_text_ne {k} {i} v m n = if_false _ _ (eq_text_ne i k n)
