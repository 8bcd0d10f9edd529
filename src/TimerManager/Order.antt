-- ===== src/TimerManager/Order.antt =====
-- The queue keeps its order: no timer stands before one of higher priority.
use my_net_lib.Common.{Bool-cases, List, [], arith, false, inl, inr, true, ◌∷◌, ◌≡◌, ◌≤◌}
use my_net_lib.Timer.{Timer}
use my_net_lib.TimerManager.{TimerManager, cmp, push}

abbrev pub All {ℓ} : (Timer → Type ℓ) → List Timer → Type ℓ
All P [] = Unit
All P (t ∷ q) = P t × All P q

abbrev pub IsSorted : TimerManager → Type 0
IsSorted [] = Unit {0}
IsSorted (x ∷ q) = All (λ y. cmp x y ≡ false) q × IsSorted q

pub All-push {ℓ} :
    (P : Timer → Type ℓ) (t : Timer) (q : TimerManager) → P t → All P q → All P (push t q)
unfolding push
All-push P t [] h a = (h, tt)
All-push P t (x ∷ q) h a = elim (Bool-cases (cmp x t)) [
  | inl e ↦ rw e (h, a)
  | inr e ↦ rw e (a.0, All-push P t q h a.1)
]

cmp_trans : (x y z : Timer) → cmp x y ≡ false → cmp y z ≡ false → cmp x z ≡ false
cmp_trans x y z h k = ground arith

cmp_asym : (x y : Timer) → cmp x y ≡ true → cmp y x ≡ false
cmp_asym x y h = ground arith

All-cmp_trans :
    (t x : Timer) (q : TimerManager)
    → cmp t x ≡ false
    → All (λ y. cmp x y ≡ false) q
    → All (λ y. cmp t y ≡ false) q
All-cmp_trans t x [] h a = tt
All-cmp_trans t x (y ∷ q) h a = (cmp_trans t x y h a.0, All-cmp_trans t x q h a.1)

-- `priority_queue::push` keeps the order.
pub push-IsSorted : (t : Timer) (q : TimerManager) → IsSorted q → IsSorted (push t q)
unfolding push
push-IsSorted t [] s = (tt, tt)
push-IsSorted t (x ∷ q) s = elim (Bool-cases (cmp x t)) [
  | inl e ↦ rw e ((cmp_asym x t e, All-cmp_trans t x q (cmp_asym x t e) s.0), s)
  | inr e ↦ rw e (All-push (λ y. cmp x y ≡ false) t q e s.0, push-IsSorted t q s.1)
]

-- The top of the queue is a timer that expires first.
pub top_first :
    (top : Timer) (q : TimerManager)
    → IsSorted (top ∷ q)
    → All (λ t. top.expired_time ≤ t.expired_time) q
top_first top [] s = tt
top_first top (x ∷ q) s = (ground arith, top_first top q (s.0.1, s.1.1))
