-- ===== src/Config/Lines.antt =====
-- A line that is a key, a separator and a value is read as that key with that value.
use my_net_lib.Common.{
  Bool, Bool-cases, List, [], ap, append-nil, ap₂, arith, false, inl, inr, not, refl, some, subst,
  sym, true, ℕ, ◌++◌, ◌<◌, ◌^◌, ◌∙◌, ◌∷◌, ◌≡◌, ◌≢◌,
}
use my_net_lib.Decimal.{is_digit, decimal, atoi}
use my_net_lib.Decimal.RoundTrip.{
  AreDigits, atoi-decimal, decimal-AreDigits, starts-decimal, starts,
}
use my_net_lib.Config.{
  is_key_char, is_dot, dots, match_value, end_key, longer_key, match_line, same_text, Config,
  value_of, assign, parse_line,
}

-- Every character of the text has the property.
abbrev pub Every : (ℕ → Bool) → List ℕ → Type 0
Every p [] = Unit {0}
Every p (c ∷ cs) = (p c ≡ true) × Every p cs

abbrev pub no_digit : ℕ → Bool
no_digit c = not (is_digit c)

dots_all : (cs : List ℕ) → Every is_dot cs → dots cs ≡ cs
unfolding dots
dots_all [] h = refl
dots_all (c ∷ cs) h = rw (h.0) (ap (λ t. c ∷ t) (dots_all cs h.1))

match_value_here :
    (value : List ℕ)
    → Every is_dot value
    → starts is_digit value ≡ true
    → match_value value ≡ some value
unfolding match_value
match_value_here [] h s = cc
match_value_here (c ∷ cs) h s = rw s (ap some (dots_all (c ∷ cs) h))

match_value_later :
    (sep value : List ℕ) → Every no_digit sep → match_value (sep ++ value) ≡ match_value value
unfolding match_value
match_value_later [] value h = refl
match_value_later (c ∷ cs) value h =
    let e : is_digit c ≡ false = ground arith in rw e (match_value_later cs value h.1)

match_line_stop :
    (cs : List ℕ) → starts is_key_char cs ≡ false → match_line cs ≡ end_key (match_value cs)
unfolding match_line match_value
match_line_stop [] h = refl
match_line_stop (c ∷ cs) h = rw h

match_line_key :
    (key rest value : List ℕ)
    → Every is_key_char key
    → match_line rest ≡ some ([], value)
    → match_line (key ++ rest) ≡ some (key, value)
unfolding match_line
match_line_key [] rest value h e = e
match_line_key (c ∷ cs) rest value h e = rw (h.0) (
    ap (λ t. longer_key c t (end_key (match_value (c ∷ (cs ++ rest)))))
      (match_line_key cs rest value h.1 e))

-- What a line of a configuration file is meant to look like.
pub record IsEntry (key sep value : List ℕ) : Type 0 where
  pub key_chars : Every is_key_char key
  pub sep_starts : starts is_key_char sep ≡ false
  pub sep_present : sep ≢ []
  pub sep_chars : Every no_digit sep
  pub value_starts : starts is_digit value ≡ true
  pub value_chars : Every is_dot value

stops :
    (sep value : List ℕ)
    → sep ≢ []
    → starts is_key_char sep ≡ false
    → starts is_key_char (sep ++ value) ≡ false
stops [] value h s = absurd (h refl)
stops (c ∷ cs) value h s = s

match_line_entry :
    (key sep value : List ℕ)
    → IsEntry key sep value
    → match_line (key ++ (sep ++ value)) ≡ some (key, value)
match_line_entry key sep value h = match_line_key key (sep ++ value) value h.key_chars (
    match_line_stop (sep ++ value) (stops sep value h.sep_present h.sep_starts)
    ∙ ap end_key (
        match_value_later sep value h.sep_chars
        ∙ match_value_here value h.value_chars h.value_starts))

same_text_refl : (xs : List ℕ) → same_text xs xs ≡ true
same_text_refl [] = refl
same_text_refl (x ∷ xs) = ground (arith, same_text_refl xs)

same_text_eq : (xs ys : List ℕ) → same_text xs ys ≡ true → xs ≡ ys
same_text_eq [] [] h = refl
same_text_eq [] (y ∷ ys) h = cc
same_text_eq (x ∷ xs) [] h = cc
same_text_eq (x ∷ xs) (y ∷ ys) h =
    let (e, rest) : (x ≡ y) × (same_text xs ys ≡ true) = ground arith in
    ap₂ ◌∷◌ e (same_text_eq xs ys rest)

same_text_ne : (xs ys : List ℕ) → ys ≢ xs → same_text xs ys ≡ false
same_text_ne xs ys h = elim (Bool-cases (same_text xs ys)) [
  | inl e ↦ absurd (h (sym (same_text_eq xs ys e)))
  | inr e ↦ e
]

value_of-assign_self :
    (key value : List ℕ) (mp : Config) → value_of key (assign key value mp) ≡ value
unfolding value_of assign
value_of-assign_self key value [] = rw (same_text_refl key)
value_of-assign_self key value ((k, v) ∷ mp) = elim (Bool-cases (same_text k key)) [
  | inl e ↦ rw (e, same_text_refl key)
  | inr e ↦ rw e (rw e (value_of-assign_self key value mp))
]

value_of-assign_ne :
    (key other value : List ℕ) (mp : Config)
    → other ≢ key
    → value_of other (assign key value mp) ≡ value_of other mp
unfolding value_of assign
value_of-assign_ne key other value [] h = rw (same_text_ne key other h)
value_of-assign_ne key other value ((k, v) ∷ mp) h = elim (Bool-cases (same_text k key)) [
  | inl e ↦
      let ne : same_text k other ≡ false =
        subst (λ t. same_text t other ≡ false) (sym (same_text_eq k key e))
          (same_text_ne key other h) in
      rw (e, ne, same_text_ne key other h)
  | inr e ↦ rw (e, value_of-assign_ne key other value mp h)
]

-- A line made of a key, of a separator that starts with a blank or `=` and has no digit, and of a
-- value that starts with a digit sets that key to that value, and no other.
pub parse_line_entry :
    (key sep value other : List ℕ) (mp : Config)
    → IsEntry key sep value
    → other ≢ key
    → (value_of key (parse_line (key ++ (sep ++ value)) mp) ≡ value)
      × (value_of other (parse_line (key ++ (sep ++ value)) mp) ≡ value_of other mp)
unfolding parse_line
parse_line_entry key sep value other mp h ne =
    rw (match_line_entry key sep value h)
      (value_of-assign_self key value mp, value_of-assign_ne key other value mp ne)

dots_of_digits : (cs : List ℕ) → AreDigits cs → Every is_dot cs
dots_of_digits [] h = tt
dots_of_digits (c ∷ cs) h = (ground arith, dots_of_digits cs h.1)

-- The entry of a number.
pub decimal-IsEntry :
    (key sep : List ℕ) (n : ℕ)
    → Every is_key_char key
    → starts is_key_char sep ≡ false
    → sep ≢ []
    → Every no_digit sep
    → IsEntry key sep (decimal n)
decimal-IsEntry key sep n k s p c = record {
  key_chars = k;
  sep_starts = s;
  sep_present = p;
  sep_chars = c;
  value_starts = starts-decimal n;
  value_chars = dots_of_digits (decimal n) (decimal-AreDigits n);
}

-- A number of at most 64 bits that stands behind its key in a line comes back from the map as that
-- number, whatever the file said of the key before.
pub parse_line_number :
    (key sep : List ℕ) (n : ℕ) (mp : Config)
    → n < 2 ^ 64
    → IsEntry key sep (decimal n)
    → atoi (value_of key (parse_line (key ++ (sep ++ decimal n)) mp)) ≡ n
unfolding parse_line
parse_line_number key sep n mp small h = rw (match_line_entry key sep (decimal n) h) (
    ap atoi (value_of-assign_self key (decimal n) mp ∙ sym (append-nil (decimal n)))
    ∙ atoi-decimal n [] small tt)
