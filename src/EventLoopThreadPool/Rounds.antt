-- ===== src/EventLoopThreadPool/Rounds.antt =====
-- Whole rounds of `GetNextLoop`.
use my_net_lib.Common.{
  List, List-cases, Option, [], ap, ap₂, arith, drop, false, get_elem?, if_false, if_true,
  if◌then◌else◌, inl, inr, leb, length, length-drop, le→leb, lt→leb, none, refl, some, suc, sym,
  take, true, zero, ℕ, ◌++◌, ◌+◌, ◌<◌, ◌==◌, ◌>>=◌, ◌∙◌, ◌∷◌, ◌≡◌, ◌≤◌,
}
use my_net_lib.EventLoopThreadPool.{EventLoopThreadPool, get_next_loop}

-- `k` calls, with what they return, in order.
unfoldable pub next_loops : ℕ → EventLoopThreadPool → Option (List ℕ × EventLoopThreadPool)
unfolding get_next_loop
next_loops zero p = some ([], p)
next_loops (suc k) p = get_next_loop p >>= λ r. next_loops k r.1 >>= λ q. some (r.0 ∷ q.0, q.1)

abbrev at : EventLoopThreadPool → ℕ → EventLoopThreadPool
at p n = record p { next_index = n }

abbrev wrap : EventLoopThreadPool → ℕ → ℕ
wrap p n = if leb (length p.loops) n then 0 else n

add_suc : (a b : ℕ) → suc a + b ≡ suc (a + b)
add_suc a b = omega arith

drop-suc :
    (n : ℕ) (xs : List ℕ) (y : ℕ) (ys : List ℕ)
    → drop n xs ≡ y ∷ ys
    → (get_elem? xs n ≡ some y) × (drop (n + 1) xs ≡ ys) × (length xs ≡ n + suc (length ys))
drop-suc zero [] y ys e = absurd (cc)
drop-suc zero (x ∷ xs) y ys e = (cc, cc, omega (arith, ap length e))
drop-suc (suc n) [] y ys e = absurd (cc)
drop-suc (suc n) (x ∷ xs) y ys e =
    let (a, b, c) = drop-suc n xs y ys e in
    (a, ap (λ m. drop m (x ∷ xs)) (add_suc n 1) ∙ b, omega (arith, c))

get_next :
    (p : EventLoopThreadPool) (n x : ℕ) (xs : List ℕ)
    → drop n p.loops ≡ x ∷ xs
    → get_next_loop (at p n) ≡ some (x, at p (wrap p (n + 1)))
unfolding get_next_loop
get_next p n x xs e =
    let (a, b, c) = drop-suc n p.loops x xs e in
    if_false _ _ (nonempty c)
    ∙ ap (λ r. ◌>>=◌ {B = ℕ × EventLoopThreadPool} r (λ x. some (x, at p (wrap p (n + 1))))) a
  where
    nonempty : length p.loops ≡ n + suc (length xs) → (length p.loops == 0) ≡ false
    nonempty c = ground arith

abbrev and_then : ℕ → Option (ℕ × EventLoopThreadPool) → Option (List ℕ × EventLoopThreadPool)
and_then k r = r >>= λ r. next_loops k r.1 >>= λ q. some (r.0 ∷ q.0, q.1)

abbrev cons : ℕ → Option (List ℕ × EventLoopThreadPool) → Option (List ℕ × EventLoopThreadPool)
cons x r = r >>= λ q. some (x ∷ q.0, q.1)

-- To the end of the loops, and around.
to_end :
    (p : EventLoopThreadPool) (ys : List ℕ) (n : ℕ)
    → drop n p.loops ≡ ys
    → 1 ≤ length ys
    → next_loops (length ys) (at p n) ≡ some (ys, at p 0)
unfolding next_loops
to_end p [] n e h = absurd (omega arith)
to_end p (x ∷ []) n e h =
    ap (and_then 0) (get_next p n x [] e) ∙ ap (λ m. some (x ∷ [], at p m)) (if_true _ _ last)
  where
    last : leb (length p.loops) (n + 1) ≡ true
    last = le→leb _ _ (omega (arith, (drop-suc n p.loops x [] e).2))
to_end p (x ∷ y ∷ zs) n e h =
    ap (and_then (length (y ∷ zs))) (get_next p n x (y ∷ zs) e)
    ∙ ap (λ m. cons x (next_loops (length (y ∷ zs)) (at p m))) (if_false _ _ inside)
    ∙ ap (cons x) (to_end p (y ∷ zs) (n + 1) (drop-suc n p.loops x (y ∷ zs) e).1 (omega arith))
  where
    inside : leb (length p.loops) (n + 1) ≡ false
    inside = lt→leb _ _ (omega (arith, (drop-suc n p.loops x (y ∷ zs) e).2))

-- Calls that stay within the loops.
within :
    (p : EventLoopThreadPool) (k n : ℕ)
    → n + k < length p.loops
    → next_loops k (at p n) ≡ some (take k (drop n p.loops), at p (n + k))
unfolding next_loops
within p zero n h = ap (λ m. some ([], at p m)) (omega arith)
within p (suc k) n h = elim (List-cases (drop n p.loops)) [
  | inl e ↦ absurd (omega (arith, length-drop n p.loops, ap length e))
  | inr (x, xs, e) ↦
      ap (and_then k) (get_next p n x xs e)
      ∙ ap (λ m. cons x (next_loops k (at p m)))
          (if_false _ _ (lt→leb (length p.loops) (n + 1) (omega arith)))
      ∙ ap (cons x) (within p k (n + 1) (omega arith))
      ∙ ap₂ (λ (t : List ℕ) m. some (x ∷ take k t, at p m)) (drop-suc n p.loops x xs e).1
          (omega arith)
      ∙ ap (λ (t : List ℕ). some (take (suc k) t, at p (n + suc k))) (sym e)
]

add_zero : (b : ℕ) → 0 + b ≡ b
add_zero b = omega arith

bind_eta : (m : Option (List ℕ × EventLoopThreadPool)) → m ≡ (m >>= λ r. some ([] ++ r.0, r.1))
bind_eta none = refl
bind_eta (some r) = refl

abbrev then_more : ℕ → Option (List ℕ × EventLoopThreadPool) → Option (List ℕ × EventLoopThreadPool)
then_more b m = m >>= λ q. next_loops b q.1 >>= λ r. some (q.0 ++ r.0, r.1)

cons_more :
    (x : ℕ) (xs : List ℕ) (o : Option (List ℕ × EventLoopThreadPool))
    → cons x (o >>= λ r. some (xs ++ r.0, r.1)) ≡ (o >>= λ r. some (x ∷ xs ++ r.0, r.1))
cons_more x xs none = refl
cons_more x xs (some r) = refl

cons-then_more :
    (x b : ℕ) (m : Option (List ℕ × EventLoopThreadPool))
    → cons x (then_more b m) ≡ then_more b (cons x m)
cons-then_more x b none = refl
cons-then_more x b (some q) = cons_more x q.0 (next_loops b q.1)

add_step :
    (a b : ℕ) (o : Option (ℕ × EventLoopThreadPool))
    → ((p : EventLoopThreadPool) → next_loops (a + b) p ≡ then_more b (next_loops a p))
    → and_then (a + b) o ≡ then_more b (and_then a o)
add_step a b none ih = refl
add_step a b (some r) ih = ap (cons r.0) (ih r.1) ∙ cons-then_more r.0 b (next_loops a r.1)

next_loops-add :
    (a b : ℕ) (p : EventLoopThreadPool) → next_loops (a + b) p ≡ then_more b (next_loops a p)
unfolding next_loops
next_loops-add zero b p = ap (λ n. next_loops n p) (add_zero b) ∙ bind_eta (next_loops b p)
next_loops-add (suc a) b p =
    ap (λ n. next_loops n p) (add_suc a b) ∙ add_step a b (get_next_loop p) (next_loops-add a b)

-- Round robin: in as many calls as there are loops each loop is handed out once, from the next one
-- on in order and around, and the pool is where it was. No call reads out of range.
pub round_robin :
    (p : EventLoopThreadPool)
    → p.next_index < length p.loops
    → next_loops (length p.loops) p
      ≡ some (drop p.next_index p.loops ++ take p.next_index p.loops, p)
round_robin p h =
    ap (λ n. next_loops n p) (omega (arith, length-drop p.next_index p.loops))
    ∙ next_loops-add (length rest) p.next_index p
    ∙ ap (then_more p.next_index)
        (to_end p rest p.next_index refl (omega (arith, length-drop p.next_index p.loops)))
    ∙ ap (λ (o : Option (List ℕ × EventLoopThreadPool)). o >>= λ r. some (rest ++ r.0, r.1))
        (within p p.next_index 0 (omega arith))
    ∙ ap (λ m. some (rest ++ take p.next_index p.loops, at p m)) (omega arith)
  where
    rest : List ℕ
    rest = drop p.next_index p.loops
