-- ===== src/AsyncLogging/Recycle.antt =====
-- The end of a pass of the back end: when it can take its two spare buffers from the batch.
use my_net_lib.Common.{
  Bool, Bool-cases, List, Option, [], ap, arith, drop_last, false, if_false, if_true, if◌then◌else◌,
  inl, inr, leb, length, ltb, map, none, not, refl, some, sym, true, ℕ, ◌&&◌, ◌++◌, ◌==◌, ◌>>=◌,
  ◌∙◌, ◌∷◌, ◌≡◌, ◌≤◌,
}
use my_net_lib.LogStream.{FixedBuffer, big_buffer_size, new_buffer, reset}
use my_net_lib.AsyncLogging.{Batch, write_out, resize_2, take_back, refill, recycle, finish}

abbrev pub blank : FixedBuffer
blank = new_buffer big_buffer_size

abbrev pub AllBig : List FixedBuffer → Type 0
AllBig [] = Unit {0}
AllBig (b ∷ bs) = (b.size ≡ big_buffer_size) × AllBig bs

pub AllBig-append : (bs cs : List FixedBuffer) → AllBig bs → AllBig cs → AllBig (bs ++ cs)
AllBig-append [] cs h k = k
AllBig-append (b ∷ bs) cs h k = (h.0, AllBig-append bs cs h.1 k)

reset-blank : (b : FixedBuffer) → b.size ≡ big_buffer_size → reset b ≡ blank
unfolding reset
reset-blank b e = ap (λ n. record { size = n; bytes = [] }) e

take_back-map :
    (b : FixedBuffer) (bs : List FixedBuffer)
    → AllBig (b ∷ bs)
    → take_back (map some (b ∷ bs)) ≡ some (blank, map some (drop_last (b ∷ bs)))
unfolding take_back
take_back-map b [] h = ap (λ b. some (b, [])) (reset-blank b h.0)
take_back-map b (c ∷ cs) h =
    ap (λ r. ◌>>=◌ {B = FixedBuffer × List (Option FixedBuffer)} r (λ p. some (p.0, some b ∷ p.1)))
      (take_back-map c cs h.1)

-- What is known of a batch: its buffers have the size of the front end's, and with one buffer alone
-- the spare one is still there.
pub record IsBatch (new_buffer2 : Option FixedBuffer) (temp : List FixedBuffer) : Type 0 where
  pub big : AllBig temp
  pub some_buffer : 1 ≤ length temp
  pub spare : new_buffer2 ≡ none → 2 ≤ length temp
  pub blank_spare : (b : FixedBuffer) → new_buffer2 ≡ some b → b ≡ blank

AllBig-drop_last : (bs : List FixedBuffer) → AllBig bs → AllBig (drop_last bs)
AllBig-drop_last [] h = h
AllBig-drop_last (b ∷ []) h = tt
AllBig-drop_last (b ∷ c ∷ cs) h = (h.0, AllBig-drop_last (c ∷ cs) h.1)

refill-blank :
    (new_buffer2 : Option FixedBuffer) (b : FixedBuffer) (bs : List FixedBuffer)
    → IsBatch new_buffer2 (b ∷ bs)
    → refill new_buffer2 blank (map some (drop_last (b ∷ bs))) ≡ some (blank, blank)
unfolding refill
refill-blank none b [] h = absurd (omega (arith, h.spare refl))
refill-blank none b (c ∷ cs) h =
    ap (λ r. ◌>>=◌ {B = FixedBuffer × FixedBuffer} r (λ p. some (blank, p.0)))
      (take_back-map b (drop_last (c ∷ cs)) (h.big.0, AllBig-drop_last (c ∷ cs) h.big.1))
refill-blank (some d) b bs h = ap (λ d. some (blank, d)) (h.blank_spare d refl)

recycle-blank :
    (new_buffer2 : Option FixedBuffer) (temp : List FixedBuffer)
    → IsBatch new_buffer2 temp
    → recycle new_buffer2 (map some temp) ≡ some (blank, blank)
unfolding recycle
recycle-blank new_buffer2 [] h = absurd (omega (arith, h.some_buffer))
recycle-blank new_buffer2 (b ∷ bs) h =
    ap (λ r. ◌>>=◌ {B = FixedBuffer × FixedBuffer} r (λ p. refill new_buffer2 p.0 p.1))
      (take_back-map b bs h.big)
    ∙ refill-blank new_buffer2 b bs h

cut_null :
    (new_buffer2 : Option FixedBuffer) (b : FixedBuffer)
    → recycle new_buffer2 (some b ∷ none ∷ []) ≡ none
unfolding recycle take_back
cut_null new_buffer2 b = refl

-- A batch that is cut to its first two buffers.
recycle_cut :
    (new_buffer2 : Option FixedBuffer) (temp : List FixedBuffer)
    → IsBatch new_buffer2 temp
    → recycle new_buffer2 (resize_2 (map some temp))
      ≡ (if length temp == 1 then none else some (blank, blank))
unfolding resize_2
recycle_cut new_buffer2 [] h = absurd (omega (arith, h.some_buffer))
recycle_cut new_buffer2 (b ∷ []) h = cut_null new_buffer2 b
recycle_cut new_buffer2 (b ∷ c ∷ cs) h =
    recycle-blank new_buffer2 (b ∷ c ∷ []) (record {
      big = (h.big.0, (h.big.1.0, tt));
      some_buffer = omega arith;
      spare = λ e. omega arith;
      blank_spare = h.blank_spare;
    })
    ∙ sym (if_false none (some (blank, blank)) (two_or_more cs))
  where
    two_or_more : (cs : List FixedBuffer) → (length (b ∷ c ∷ cs) == 1) ≡ false
    two_or_more cs = ground arith

abbrev ends :
    Bool → List ℕ → Option (FixedBuffer × FixedBuffer) → Option (List ℕ × FixedBuffer × FixedBuffer)
ends few bytes r = if few then (r >>= λ p. some (bytes, p.0, p.1)) else none

ends_cut :
    (few one : Bool) {many : Bool} (bytes : List ℕ)
    → many ≡ true
    → ends few bytes (if one then none else some (blank, blank))
      ≡ (if few && not (one && many) then some (bytes, blank, blank) else none)
ends_cut few one {many = true} bytes h = ground arith
ends_cut few one {many = false} bytes h = absurd (cc)

ends_whole :
    (few one : Bool) {many : Bool} (bytes : List ℕ)
    → many ≡ false
    → ends few bytes (some (blank, blank))
      ≡ (if few && not (one && many) then some (bytes, blank, blank) else none)
ends_whole few one {many = false} bytes h = ground arith
ends_whole few one {many = true} bytes h = absurd (cc)

-- What the end of a pass does with a batch: it writes the buffers in order and has two empty buffers
-- for the next pass. It is undefined with more than 25 buffers (`erase` gets an iterator of another
-- vector), and with one buffer while more than two wait at the front end, which are counted instead
-- of the batch: then the batch is resized to two, and the null pointer at its end is reset.
pub finish_lem :
    (waiting : ℕ) (batch : Batch)
    → IsBatch batch.new_buffer2 batch.temp_buffer_vec
    → finish waiting batch ≡ (
        if leb (length batch.temp_buffer_vec) 25
          && not (length batch.temp_buffer_vec == 1 && ltb 2 waiting)
        then some (write_out batch.temp_buffer_vec, blank, blank)
        else none)
unfolding finish
finish_lem waiting batch h = elim (Bool-cases (ltb 2 waiting)) [
  | inl e ↦
      ap (λ v. ends few bytes (recycle batch.new_buffer2 v)) (if_true _ _ e)
      ∙ ap (ends few bytes) (recycle_cut batch.new_buffer2 batch.temp_buffer_vec h)
      ∙ ends_cut few (length batch.temp_buffer_vec == 1) bytes e
  | inr e ↦
      ap (λ v. ends few bytes (recycle batch.new_buffer2 v)) (if_false _ _ e)
      ∙ ap (ends few bytes) (recycle-blank batch.new_buffer2 batch.temp_buffer_vec h)
      ∙ ends_whole few (length batch.temp_buffer_vec == 1) bytes e
]
  where
    few : Bool
    few = leb (length batch.temp_buffer_vec) 25

    bytes : List ℕ
    bytes = write_out batch.temp_buffer_vec
