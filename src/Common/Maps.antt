-- ===== src/Common/Maps.antt =====
-- Maps as functions, with one entry replaced.
use my_net_lib.Common.Tests.{if◌then◌else◌, ◌==◌, ==_iff, Bool-cases}
use Prim.Native.Nat.{ℕ}
use mathlib.Core.Path.{◌≡◌, ◌∙◌, ap, subst, sym}
use mathlib.Core.Logic.{◌≢◌, inl, inr}
use native.Mathlib.Omega.{arith}

abbrev pub put {ℓ} : {A : Type ℓ} → ℕ → A → (ℕ → A) → ℕ → A
put k v m i = if i == k then v else m i

pub put_self {ℓ} : {A : Type ℓ} (k : ℕ) (v : A) (m : ℕ → A) → put k v m k ≡ v
put_self k v m = ground arith

pub put_ne {ℓ} : {A : Type ℓ} {k i : ℕ} (v : A) (m : ℕ → A) → i ≢ k → put k v m i ≡ m i
put_ne v m h = ground arith

pub put_same {ℓ} : {A : Type ℓ} {k : ℕ} {v : A} (m : ℕ → A) (i : ℕ) → m k ≡ v → m i ≡ put k v m i
put_same {k} {v} m i e = elim (Bool-cases (i == k)) [
  | inl b ↦ rw ((==_iff i k).0 b) (e ∙ sym (put_self k v m))
  | inr b ↦ sym (put_ne v m (λ e. absurd (cc ((==_iff i k).1 e))))
]

-- A part that the new entry shares with the old one is as before everywhere.
pub put_part {ℓ κ} :
    {A : Type ℓ} {B : Type κ} (part : A → B) {k : ℕ} {v : A} (m : ℕ → A)
    → part v ≡ part (m k)
    → (i : ℕ) → part (put k v m i) ≡ part (m i)
put_part part {k} {v} m e i = elim (Bool-cases (i == k)) [
  | inl b ↦ rw ((==_iff i k).0 b) (ap part (put_self k v m) ∙ e)
  | inr b ↦ ap part (put_ne v m (λ e. absurd (cc ((==_iff i k).1 e))))
]

-- What holds of the new entry, and of the others, holds of all.
pub put_all {ℓ κ} :
    {A : Type ℓ} (P : ℕ → A → Type κ) {k : ℕ} {v : A} (m : ℕ → A)
    → P k v
    → ((i : ℕ) → i ≢ k → P i (m i))
    → (i : ℕ) → P i (put k v m i)
put_all P {k} {v} m here others i = elim (Bool-cases (i == k)) [
  | inl b ↦ rw ((==_iff i k).0 b, put_self k v m) here
  | inr b ↦
      let n : i ≢ k = λ e. absurd (cc ((==_iff i k).1 e)) in
      subst (P i) (sym (put_ne v m n)) (others i n)
]
