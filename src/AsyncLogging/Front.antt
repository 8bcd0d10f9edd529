-- ===== src/AsyncLogging/Front.antt =====
-- The critical sections of `Append` and of the back end.
use my_net_lib.Common.{
  Bool-cases, List, Option, [], ap, append-nil, append_assoc, arith, if_false, if_true, inl, inr,
  length, length-append, ltb, lt→ltb, none, refl, some, subst, sym, true, ℕ, ◌++◌, ◌+◌, ◌<◌, ◌∙◌,
  ◌∷◌, ◌≡◌, ◌≢◌, ◌≤◌,
}
use my_net_lib.LogStream.{FixedBuffer, big_buffer_size, avail, append_fixed, append-fits}
use my_net_lib.AsyncLogging.{
  AsyncLogging, append, Batch, collect, refill_next, next_or_new, write_out,
}
use my_net_lib.AsyncLogging.System.{accepts}
use my_net_lib.AsyncLogging.Recycle.{blank, AllBig, AllBig-append, IsBatch}

-- What the mutex protects, between two critical sections.
pub record LogInv (l : AsyncLogging) : Type 0 where
  pub current : l.cur_buffer.size ≡ big_buffer_size
  pub big : AllBig l.buffer_to_write
  pub next_blank : (b : FixedBuffer) → l.next_buffer ≡ some b → b ≡ blank
  pub refilled : l.next_buffer ≡ none → 1 ≤ length l.buffer_to_write

-- The bytes that the front end holds, in order.
abbrev pub content : AsyncLogging → List ℕ
content l = write_out l.buffer_to_write ++ l.cur_buffer.bytes

write_out-append : (bs cs : List FixedBuffer) → write_out (bs ++ cs) ≡ write_out bs ++ write_out cs
unfolding write_out
write_out-append [] cs = refl
write_out-append (b ∷ bs) cs =
    ap (λ t. b.bytes ++ t) (write_out-append bs cs)
    ∙ sym (append_assoc b.bytes (write_out bs) (write_out cs))

write_out-snoc :
    (bs : List FixedBuffer) (b : FixedBuffer) → write_out (bs ++ b ∷ []) ≡ write_out bs ++ b.bytes
unfolding write_out
write_out-snoc bs b =
    write_out-append bs (b ∷ []) ∙ ap (λ t. write_out bs ++ t) (append-nil b.bytes)

append-blank : (msg : List ℕ) → append_fixed msg blank ≡ record blank { bytes = accepts msg }
unfolding append_fixed
append-blank msg = elim (Bool-cases (ltb (length msg) big_buffer_size)) [
  | inl e ↦ if_true _ _ e ∙ ap (λ t. record blank { bytes = t }) (sym (if_true _ _ e))
  | inr e ↦ if_false _ _ e ∙ ap (λ t. record blank { bytes = t }) (sym (if_false _ _ e))
]

-- The critical section of `Append`.
pub record Appended (msg : List ℕ) (l l' : AsyncLogging) : Type 0 where
  pub inv : LogInv l'
  pub order : content l' ≡ content l ++ accepts msg

next_or_new-blank :
    (o : Option FixedBuffer) → ((b : FixedBuffer) → o ≡ some b → b ≡ blank) → next_or_new o ≡ blank
next_or_new-blank none h = refl
next_or_new-blank (some b) h = h b refl

append_here :
    (msg : List ℕ) (l : AsyncLogging)
    → LogInv l
    → ltb (length msg) (avail l.cur_buffer) ≡ true
    → Appended msg l (record l { cur_buffer = append_fixed msg l.cur_buffer })
append_here msg l i e =
    subst (λ b. Appended msg l (record l { cur_buffer = b }))
      (sym (append-fits msg l.cur_buffer fits))
      (record {
        inv = record {
          current = i.current;
          big = i.big;
          next_blank = i.next_blank;
          refilled = i.refilled;
        };
        order =
            sym (append_assoc (write_out l.buffer_to_write) l.cur_buffer.bytes msg)
            ∙ ap (λ t. content l ++ t) (sym (if_true _ _ small));
      })
  where
    fits : length l.cur_buffer.bytes + length msg < l.cur_buffer.size
    fits = ground arith

    small : ltb (length msg) big_buffer_size ≡ true
    small = lt→ltb (length msg) big_buffer_size (omega (arith, fits, i.current))

append_next :
    (msg : List ℕ) (l : AsyncLogging)
    → LogInv l
    → Appended msg l (record {
      buffer_to_write = l.buffer_to_write ++ l.cur_buffer ∷ [];
      cur_buffer = append_fixed msg (next_or_new l.next_buffer);
      next_buffer = none;
    })
append_next msg l i =
    subst
      (λ b. Appended msg l (record {
        buffer_to_write = l.buffer_to_write ++ l.cur_buffer ∷ [];
        cur_buffer = b;
        next_buffer = none;
      }))
      (sym
        (ap (append_fixed msg) (next_or_new-blank l.next_buffer i.next_blank) ∙ append-blank msg))
      (record {
        inv = record {
          current = refl;
          big = AllBig-append l.buffer_to_write (l.cur_buffer ∷ []) i.big (i.current, tt);
          next_blank = λ b e. absurd (cc);
          refilled = λ e. omega (arith, length-append l.buffer_to_write (l.cur_buffer ∷ []));
        };
        order = ap (λ t. t ++ accepts msg) (write_out-snoc l.buffer_to_write l.cur_buffer);
      })

pub append-Appended : (msg : List ℕ) (l : AsyncLogging) → LogInv l → Appended msg l (append msg l)
unfolding append
append-Appended msg l i = elim (Bool-cases (ltb (length msg) (avail l.cur_buffer))) [
  | inl e ↦ subst (λ l'. Appended msg l l') (sym (if_true _ _ e)) (append_here msg l i e)
  | inr e ↦ subst (λ l'. Appended msg l l') (sym (if_false _ _ e)) (append_next msg l i)
]

-- The critical section of the back end.
pub record Collected (l : AsyncLogging) (r : AsyncLogging × Batch) : Type 0 where
  pub inv : LogInv r.0
  pub order : write_out r.1.temp_buffer_vec ++ content r.0 ≡ content l
  pub batch : IsBatch r.1.new_buffer2 r.1.temp_buffer_vec

next_some : (o : Option FixedBuffer) → (refill_next o blank).0 ≢ none
next_some none e = absurd (cc)
next_some (some b) e = absurd (cc)

next_is_blank :
    (o : Option FixedBuffer)
    → ((b : FixedBuffer) → o ≡ some b → b ≡ blank)
    → (b : FixedBuffer) → (refill_next o blank).0 ≡ some b
    → b ≡ blank
next_is_blank none h b e = cc
next_is_blank (some c) h b e = h b e

spare_none : (o : Option FixedBuffer) → (refill_next o blank).1 ≡ none → o ≡ none
spare_none none e = refl
spare_none (some b) e = absurd (cc)

spare_is_blank :
    (o : Option FixedBuffer) (b : FixedBuffer) → (refill_next o blank).1 ≡ some b → b ≡ blank
spare_is_blank none b e = absurd (cc)
spare_is_blank (some c) b e = cc

pub collect-Collected : (l : AsyncLogging) → LogInv l → Collected l (collect blank blank l)
unfolding collect write_out
collect-Collected l i = record {
  inv = record {
    current = refl;
    big = tt;
    next_blank = next_is_blank l.next_buffer i.next_blank;
    refilled = λ e. absurd (next_some l.next_buffer e);
  };
  order =
      append-nil (write_out (l.buffer_to_write ++ l.cur_buffer ∷ []))
      ∙ write_out-snoc l.buffer_to_write l.cur_buffer;
  batch = record {
    big = AllBig-append l.buffer_to_write (l.cur_buffer ∷ []) i.big (i.current, tt);
    some_buffer = omega (arith, length-append l.buffer_to_write (l.cur_buffer ∷ []));
    spare = λ e. omega (
      arith,
      length-append l.buffer_to_write (l.cur_buffer ∷ []),
      i.refilled (spare_none l.next_buffer e),
    );
    blank_spare = spare_is_blank l.next_buffer;
  };
}
