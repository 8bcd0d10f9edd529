-- ===== src/Buffer/Retrive.antt =====
-- `Retrive` and the calls that hand the bytes out.
use my_net_lib.Common.{
  List, Option, [], add_size, ap, ap₂, arith, drop, drop-slice, drop_all, if_false, if◌then◌else◌,
  leb, length, le→leb, le→ltb, lt→leb, lt→ltb, none, refl, slice, slice_split, some, sym, take,
  take-slice, take_all, ℕ, ◌++◌, ◌+◌, ◌-◌, ◌<◌, ◌>>=◌, ◌∙◌, ◌≡◌, ◌≤◌,
}
use native.Mathlib.Decide.{dec_lt, dec_le}
use my_net_lib.Buffer.{
  Buffer, readable_bytes, retrive_all, retrive, read_range, retrive_as_string,
  retrive_all_as_string,
}
use my_net_lib.Buffer.Memory.{read_range_ok}
use my_net_lib.Buffer.Valid.{
  IsValid, contents, length-contents, readable_bytes_lem, retrive-IsValid,
}

-- `Retrive(n)` takes the first `n` readable bytes off, or all of them if there are fewer.
pub contents-retrive :
    {b : Buffer} (n : ℕ) → IsValid b → contents (retrive b n) ≡ drop n (contents b)
unfolding retrive retrive_all
contents-retrive {b} n v = elim (dec_lt n (readable_bytes b)) [
  | yes part ↦ rw (lt→ltb n (readable_bytes b) part) (
      ap₂ (λ i k. slice b.buffer i k) {x = add_size b.read_index n} {y = b.read_index + n}
        {u = b.write_index - add_size b.read_index n} {v = b.write_index - b.read_index - n}
        (omega arith) (omega arith)
      ∙ sym (drop-slice b.buffer b.read_index (b.write_index - b.read_index) n (omega arith)))
  | no all ↦
      rw (le→ltb n (readable_bytes b) (omega arith))
        (sym (drop_all n (contents b) (omega (arith, length-contents v))))
]

-- The string that `RetriveAsString(len)` returns, and the buffer that it leaves.
pub record Retrived (b : Buffer) (bytes rest : List ℕ) (r : Option (List ℕ × Buffer)) : Type 0 where
  pub result : Buffer
  pub returns : r ≡ some (bytes, result)
  pub valid : IsValid result
  pub remaining : contents result ≡ rest
  pub low : result.write_index ≤ b.write_index

pub retrive-low : {b : Buffer} (n : ℕ) → IsValid b → (retrive b n).write_index ≤ b.write_index
unfolding retrive retrive_all
retrive-low n v = ground arith

-- `RetriveAsString(len)` of at most the readable bytes returns the first `len` of them and leaves
-- the others.
pub retrive_as_string-Retrived :
    {b : Buffer} (len : ℕ)
    → IsValid b
    → len ≤ readable_bytes b
    → Retrived b (take len (contents b)) (drop len (contents b)) (retrive_as_string b len)
unfolding retrive_as_string
retrive_as_string-Retrived {b} len v h = record {
  result = retrive b len;
  returns = rw (read_range_ok b.buffer b.read_index len (omega arith)) (
      ap (λ t. some (t, retrive b len))
        (sym (take-slice b.buffer b.read_index (b.write_index - b.read_index) len (omega arith))));
  valid = retrive-IsValid len v;
  remaining = contents-retrive len v;
  low = retrive-low len v;
}

-- `RetriveAllAsString` returns all of the readable bytes and leaves none.
pub retrive_all_as_string-Retrived :
    {b : Buffer} → IsValid b → Retrived b (contents b) [] (retrive_all_as_string b)
unfolding retrive_all_as_string
retrive_all_as_string-Retrived {b} v = record {
  result = r.result;
  returns =
      r.returns
      ∙ ap (λ t. some (t, r.result))
          (take_all (readable_bytes b) (contents b) (omega (arith, length-contents v)));
  valid = r.valid;
  remaining =
      r.remaining ∙ drop_all (readable_bytes b) (contents b) (omega (arith, length-contents v));
  low = r.low;
}
  where
    r :
        Retrived b
          (take (readable_bytes b) (contents b))
          (drop (readable_bytes b) (contents b))
          (retrive_as_string b (readable_bytes b))
    r = retrive_as_string-Retrived (readable_bytes b) v (omega arith)

-- With `len` past the readable bytes, `RetriveAsString` does not stop at the last of them: it hands
-- out what the vector holds behind, and faults if that ends first. The buffer is emptied.
pub retrive_as_string_past :
    {b : Buffer} (len : ℕ)
    → IsValid b
    → readable_bytes b < len
    → retrive_as_string b len ≡ (
        if leb (b.read_index + len) (length b.buffer)
        then some
            (contents b ++ slice b.buffer b.write_index (len - readable_bytes b), retrive_all b)
        else none)
unfolding retrive_as_string retrive read_range
retrive_as_string_past {b} len v past = elim (dec_le (b.read_index + len) (length b.buffer)) [
  | yes h ↦
      rw
        (
          le→leb (b.read_index + len) (length b.buffer) h,
          le→ltb len (readable_bytes b) (omega arith),
        )
        (ap (λ t. some (t, retrive_all b)) split)
  | no h ↦ rw (lt→leb (b.read_index + len) (length b.buffer) (omega arith))
]
  where
    n : ℕ
    n = b.write_index - b.read_index

    split :
        slice b.buffer b.read_index len
        ≡ contents b ++ slice b.buffer b.write_index (len - readable_bytes b)
    split =
        ap (slice b.buffer b.read_index) {x = len} {y = n + (len - n)} (omega arith)
        ∙ slice_split b.buffer b.read_index n (len - n)
        ∙ ap₂ (λ i k. contents b ++ slice b.buffer i k) {x = b.read_index + n} {y = b.write_index}
            {u = len - n} {v = len - readable_bytes b} (omega arith) (omega arith)

pub contents-retrive_all : (b : Buffer) → contents (retrive_all b) ≡ []
unfolding retrive_all
contents-retrive_all b = refl

pub retrive_all-low : {b : Buffer} → IsValid b → (retrive_all b).write_index ≤ b.write_index
unfolding retrive_all
retrive_all-low v = omega (arith, v)

-- All of the readable bytes.
pub read_range-all :
    (b : Buffer)
    → IsValid b
    → read_range b.buffer b.read_index (readable_bytes b) ≡ some (contents b)
read_range-all b v =
    read_range_ok b.buffer b.read_index (readable_bytes b) (omega (arith, v))
    ∙ ap (λ n. some (slice b.buffer b.read_index n)) (readable_bytes_lem v)

pub retrive_all_as_string-all :
    (b : Buffer) → IsValid b → retrive_all_as_string b ≡ some (contents b, retrive_all b)
unfolding retrive_all_as_string retrive_as_string retrive
retrive_all_as_string-all b v =
    ap (λ r. ◌>>=◌ {B = List ℕ × Buffer} r (λ t. some (t, retrive b (readable_bytes b))))
      (read_range-all b v)
    ∙ ap (λ b'. some (contents b, b'))
        (if_false _ _ (le→ltb (readable_bytes b) (readable_bytes b) (omega arith)))
