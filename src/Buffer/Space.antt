-- ===== src/Buffer/Space.antt =====
-- `MakeSpace` and `Append` on a valid buffer: no fault, and the bytes are kept in order.
use my_net_lib.Common.{
  ℕ, ◌+◌, ◌-◌, ◌≤◌, ◌<◌, ◌≡◌, refl, ap, ap₂, ◌∙◌, Option, some, List, ◌++◌, arith, length, slice,
  overwrite, resized, length-slice, length-overwrite, length-resized, slice_split, slice-resized,
  slice-overwrite_self, slice-overwrite_below, lt→ltb, le→ltb, add_size, sub_size,
}
use native.Mathlib.Decide.{dec_lt}
use my_net_lib.Buffer.Memory.{resize_ok, copy_within_ok, write_range_ok}
use my_net_lib.Buffer.{
  Buffer, max_size, writeable_bytes, make_space, ensure_writeable_bytes, append,
}
use my_net_lib.Buffer.Valid.{IsValid, contents}

-- What `MakeSpace(len)` and `EnsureWriteableBytes(len)` leave.
pub record HasRoom (b : Buffer) (len : ℕ) (r : Option Buffer) : Type 0 where
  pub result : Buffer
  pub returns : r ≡ some result
  pub valid : IsValid result
  pub kept : contents result ≡ contents b
  pub room : result.write_index + len ≤ length result.buffer
  pub low : result.write_index ≤ b.write_index

grown : Buffer → ℕ → Buffer
grown b len = record b { buffer = resized b.buffer (b.write_index + len) }

moved : Buffer → Buffer
moved b = record {
  buffer = overwrite b.buffer 8 (contents b);
  read_index = 8;
  write_index = 8 + (b.write_index - b.read_index);
}

module _ {b : Buffer} (len : ℕ) (v : IsValid b) (fits : b.write_index + len ≤ max_size)
    (short : length b.buffer < b.write_index + len) where
  make_space-grown :
      length b.buffer - b.write_index + b.read_index < len + 8
      → make_space b len ≡ some (grown b len)
  unfolding make_space grown
  make_space-grown small =
      rw
        (
          lt→ltb (add_size (writeable_bytes b) b.read_index) (add_size len 8) (omega arith),
          resize_ok b.buffer (add_size b.write_index len) (omega arith),
        )
        (ap (λ n. some (record b { buffer = resized b.buffer n })) no_wrap)
    where
      no_wrap : add_size b.write_index len ≡ b.write_index + len
      no_wrap = omega arith

  grown-HasRoom : HasRoom b len (some (grown b len))
  unfolding grown
  grown-HasRoom = record {
    result = grown b len;
    returns = refl;
    valid = omega (arith, length-resized b.buffer (b.write_index + len));
    kept =
        slice-resized b.buffer (b.write_index + len) b.read_index (b.write_index - b.read_index)
          (omega arith) (omega arith);
    room = omega (arith, length-resized b.buffer (b.write_index + len));
    low = omega arith;
  }

  make_space-moved :
      len + 8 ≤ length b.buffer - b.write_index + b.read_index → make_space b len ≡ some (moved b)
  unfolding make_space moved
  make_space-moved large =
      rw
        (
          le→ltb (add_size (writeable_bytes b) b.read_index) (add_size len 8) (omega arith),
          copy_within_ok b.buffer b.read_index b.write_index 8 (omega arith) v.ordered v.within,
        )
        (ap
          (λ n. some (record {
            buffer = overwrite b.buffer 8 (contents b);
            read_index = 8;
            write_index = n;
          }))
          no_wrap)
    where
      no_wrap :
          add_size 8 (sub_size b.write_index b.read_index) ≡ 8 + (b.write_index - b.read_index)
      no_wrap = omega arith

  moved-HasRoom :
      len + 8 ≤ length b.buffer - b.write_index + b.read_index → HasRoom b len (some (moved b))
  unfolding moved
  moved-HasRoom large = record {
    result = moved b;
    returns = refl;
    valid = omega (arith, length-overwrite b.buffer 8 (contents b));
    kept =
        ap (slice (overwrite b.buffer 8 (contents b)) 8) {x = 8 + n - 8} {y = length (contents b)}
          (omega (arith, size))
        ∙ slice-overwrite_self b.buffer 8 (contents b) (omega (arith, size));
    room = omega (arith, length-overwrite b.buffer 8 (contents b));
    low = omega arith;
  }
    where
      n : ℕ
      n = b.write_index - b.read_index

      size : length (contents b) ≡ b.write_index - b.read_index
      size = length-slice b.buffer b.read_index n (omega arith)

  make_space-HasRoom : HasRoom b len (make_space b len)
  make_space-HasRoom = elim (dec_lt (length b.buffer - b.write_index + b.read_index) (len + 8)) [
    | yes small ↦ rw (make_space-grown small) grown-HasRoom
    | no large ↦ rw (make_space-moved (omega arith)) (moved-HasRoom (omega arith))
  ]

-- `EnsureWriteableBytes(len)` does not fault; it keeps the readable bytes and makes room for `len`.
pub ensure_writeable_bytes-HasRoom :
    {b : Buffer} (len : ℕ)
    → IsValid b
    → b.write_index + len ≤ max_size
    → HasRoom b len (ensure_writeable_bytes b len)
unfolding ensure_writeable_bytes
ensure_writeable_bytes-HasRoom {b} len v fits =
    elim (dec_lt (length b.buffer) (b.write_index + len)) [
      | yes short ↦
          rw (lt→ltb (writeable_bytes b) len (omega arith)) (make_space-HasRoom len v fits short)
      | no roomy ↦ rw (le→ltb (writeable_bytes b) len (omega arith)) (record {
        result = b;
        returns = refl;
        valid = v;
        kept = refl;
        room = omega arith;
        low = omega arith;
      })
    ]

-- What `Append` leaves.
pub record Appended (b : Buffer) (bytes : List ℕ) (r : Option Buffer) : Type 0 where
  pub result : Buffer
  pub returns : r ≡ some result
  pub valid : IsValid result
  pub extended : contents result ≡ contents b ++ bytes
  pub low : result.write_index ≤ b.write_index + length bytes

unfoldable pub filled : Buffer → List ℕ → Buffer
filled b bytes = record b {
  buffer = overwrite b.buffer b.write_index bytes;
  write_index = b.write_index + length bytes;
}

module _ {b : Buffer} (bytes : List ℕ) (v : IsValid b)
    (room : b.write_index + length bytes ≤ length b.buffer) where
  pub filled-IsValid : IsValid (filled b bytes)
  unfolding filled
  filled-IsValid = omega (arith, length-overwrite b.buffer b.write_index bytes)

  pub contents-filled : contents (filled b bytes) ≡ contents b ++ bytes
  unfolding filled
  contents-filled =
      ap (slice full b.read_index) {x = b.write_index + length bytes - b.read_index}
        {y = n + length bytes} (omega arith)
      ∙ slice_split full b.read_index n (length bytes)
      ∙ ap₂ ◌++◌ (slice-overwrite_below b.buffer b.write_index bytes b.read_index n (omega arith)) (
          ap (λ i. slice full i (length bytes)) {x = b.read_index + n} {y = b.write_index}
            (omega arith)
          ∙ slice-overwrite_self b.buffer b.write_index bytes room)
    where
      n : ℕ
      n = b.write_index - b.read_index

      full : List ℕ
      full = overwrite b.buffer b.write_index bytes

append_fits :
    {b : Buffer} (bytes : List ℕ)
    (h : HasRoom b (length bytes) (ensure_writeable_bytes b (length bytes)))
    → append b bytes ≡ some (filled h.result bytes)
unfolding append filled
append_fits bytes h =
    rw (h.returns, write_range_ok h.result.buffer h.result.write_index bytes h.room)
      (ap
        (λ n. some (record h.result {
          buffer = overwrite h.result.buffer h.result.write_index bytes;
          write_index = n;
        }))
        no_wrap)
  where
    no_wrap : add_size h.result.write_index (length bytes) ≡ h.result.write_index + length bytes
    no_wrap = omega (arith, h.room, h.valid)

-- `Append` does not fault on a valid buffer, leaves it valid, and adds exactly its bytes behind
-- those that were readable.
pub append-Appended :
    {b : Buffer} (bytes : List ℕ)
    → IsValid b
    → b.write_index + length bytes ≤ max_size
    → Appended b bytes (append b bytes)
unfolding filled
append-Appended {b} bytes v fits = record {
  result = filled h.result bytes;
  returns = append_fits bytes h;
  valid = filled-IsValid bytes h.valid h.room;
  extended = contents-filled bytes h.valid h.room ∙ ap (λ t. t ++ bytes) h.kept;
  low = omega (arith, h.low);
}
  where
    h : HasRoom b (length bytes) (ensure_writeable_bytes b (length bytes))
    h = ensure_writeable_bytes-HasRoom (length bytes) v fits
