-- ===== src/Thread/Names.antt =====
-- The names that threads get without one of their own.
use my_net_lib.Common.{[], ap, arith, drop, sym, take, take_all, ℕ, ◌++◌, ◌+◌, ◌<◌, ◌^◌, ◌∙◌, ◌≡◌}
use my_net_lib.Decimal.{codes, decimal}
use my_net_lib.Decimal.RoundTrip.{decimal-injective, length-decimal}
use my_net_lib.Thread.{set_default_name}

name_whole :
    (n : ℕ) → n < 2 ^ 31 → take 31 (codes "Thread " ++ decimal n) ≡ codes "Thread " ++ decimal n
name_whole n h =
    take_all 31 (codes "Thread " ++ decimal n)
      (omega (arith, length-decimal 10 n (omega arith) (omega arith)))

-- Two of the first 2 ^ 31 - 1 threads that have the same default name are the same.
pub set_default_name-injective :
    (m n : ℕ)
    → m + 1 < 2 ^ 31
    → n + 1 < 2 ^ 31
    → (set_default_name m []).1 ≡ (set_default_name n []).1
    → m ≡ n
unfolding set_default_name
set_default_name-injective m n hm hn e =
    let same : decimal (m + 1) ≡ decimal (n + 1) =
      ap (drop 7) (sym (name_whole (m + 1) hm) ∙ e ∙ name_whole (n + 1) hn) in
    omega (arith, decimal-injective (m + 1) (n + 1) (omega arith) (omega arith) same)
