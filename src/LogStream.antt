-- ===== src/LogStream.antt =====
-- include/log_stream.h, src/log_stream.cc: a buffer of fixed size, and the operators that append to
-- it. `std::to_string` is the standard library's: the operators on numbers get its result.
mod Tests
use my_net_lib.Common.{
  Bool, Bool-cases, List, Option, [], ap, append-nil, append_assoc, arith, if_false, if_true,
  if◌then◌else◌, inl, inr, length, length-append, ltb, lt→ltb, none, some, subst, sym, ℕ, ◌*◌, ◌++◌,
  ◌+◌, ◌-◌, ◌<◌, ◌∙◌, ◌∷◌, ◌≡◌, ◌⊎◌,
}

-- The bytes between `data_` and `cur_`.
pub record FixedBuffer : Type 0 where
  pub size : ℕ
  pub bytes : List ℕ

abbrev pub small_buffer_size : ℕ
small_buffer_size = 4000

abbrev pub big_buffer_size : ℕ
big_buffer_size = 4000 * 1000

abbrev pub new_buffer : ℕ → FixedBuffer
new_buffer size = record { size = size; bytes = [] }

abbrev pub avail : FixedBuffer → ℕ
avail b = b.size - length b.bytes

unfoldable pub reset : FixedBuffer → FixedBuffer
reset b = record b { bytes = [] }

unfoldable pub append_fixed : List ℕ → FixedBuffer → FixedBuffer
append_fixed buf b = if ltb (length buf) (avail b) then record b { bytes = b.bytes ++ buf } else b

-- What `<<` is given. A null `const char*` is `none`. A `char` is copied to an array of one byte, whose
-- end `strlen` does not see: `beyond` are the bytes behind it, up to the first that is 0.
pub data Item : Type 0 where
  bool_item : Bool → Item
  number_item : (digits : List ℕ) → Item
  cstr_item : Option (List ℕ) → Item
  string_item : List ℕ → Item
  char_item : (t : ℕ) (beyond : List ℕ) → Item

-- "true ", " false " cut at its length of 6, and "(null)", in ASCII
abbrev true_text : List ℕ
true_text = 116 ∷ 114 ∷ 117 ∷ 101 ∷ 32 ∷ []

abbrev false_text : List ℕ
false_text = 32 ∷ 102 ∷ 97 ∷ 108 ∷ 115 ∷ 101 ∷ []

abbrev null_text : List ℕ
null_text = 40 ∷ 110 ∷ 117 ∷ 108 ∷ 108 ∷ 41 ∷ []

-- The bytes that an operator appends.
abbrev pub text : Item → List ℕ
text (bool_item t) = if t then true_text else false_text
text (number_item digits) = digits
text (cstr_item none) = null_text
text (cstr_item (some str)) = str
text (string_item str) = str
text (char_item t beyond) = t ∷ beyond

unfoldable pub stream : FixedBuffer → List Item → FixedBuffer
unfolding append_fixed
stream b [] = b
stream b (item ∷ items) = stream (append_fixed (text item) b) items

abbrev pub texts : List Item → List ℕ
texts [] = []
texts (item ∷ items) = text item ++ texts items

pub append-fits :
    (buf : List ℕ) (b : FixedBuffer)
    → length b.bytes + length buf < b.size
    → append_fixed buf b ≡ record b { bytes = b.bytes ++ buf }
unfolding append_fixed
append-fits buf b h = if_true _ _ (lt→ltb (length buf) (avail b) (omega arith))

-- A line that fits, with a byte to spare, is in the buffer whole and in order.
pub stream_fits :
    (b : FixedBuffer) (items : List Item)
    → length b.bytes + length (texts items) < b.size
    → stream b items ≡ record b { bytes = b.bytes ++ texts items }
unfolding stream
stream_fits b [] h = ap (λ t. record b { bytes = t }) (sym (append-nil b.bytes))
stream_fits b (item ∷ items) h =
    ap (λ b. stream b items)
      (append-fits (text item) b (omega (arith, length-append (text item) (texts items))))
    ∙ stream_fits (record b { bytes = b.bytes ++ text item }) items
        (omega (arith, length-append (text item) (texts items), length-append b.bytes (text item)))
    ∙ ap (λ t. record b { bytes = t }) (append_assoc b.bytes (text item) (texts items))

append-cases :
    (buf : List ℕ) (b : FixedBuffer)
    → (append_fixed buf b ≡ b)
      ⊎ ((length b.bytes + length buf < b.size)
          × (append_fixed buf b ≡ record b { bytes = b.bytes ++ buf }))
unfolding append_fixed
append-cases buf b = elim (Bool-cases (ltb (length buf) (avail b))) [
  | inl e ↦ inr (ground arith, if_true _ _ e)
  | inr e ↦ inl (if_false _ _ e)
]

-- Whatever is streamed, the buffer keeps what it had, at its place, and does not overflow.
pub stream_bounded :
    (b : FixedBuffer) (items : List Item)
    → length b.bytes < b.size
    → (more : List ℕ) × ((stream b items).bytes ≡ b.bytes ++ more)
      × (length (stream b items).bytes < b.size)
unfolding stream
stream_bounded b [] h = ([], sym (append-nil b.bytes), h)
stream_bounded b (item ∷ items) h = elim (append-cases (text item) b) [
  | inl e ↦
      subst
        (λ (c : FixedBuffer).
          (more : List ℕ) × ((stream c items).bytes ≡ b.bytes ++ more)
          × (length (stream c items).bytes < b.size))
        (sym e) (stream_bounded b items h)
  | inr (fits, e) ↦
      let c : FixedBuffer = record b { bytes = b.bytes ++ text item } in
      let (more, same, bound) =
        stream_bounded c items (omega (arith, length-append b.bytes (text item))) in
      subst
        (λ (c : FixedBuffer).
          (more : List ℕ) × ((stream c items).bytes ≡ b.bytes ++ more)
          × (length (stream c items).bytes < b.size))
        (sym e) (text item ++ more, same ∙ append_assoc b.bytes (text item) more, bound)
]
