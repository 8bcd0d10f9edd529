-- ===== src/Buffer/Valid.antt =====
-- The representation invariant of `Buffer`, and the bytes that it holds.
use my_net_lib.Common.{
  List, arith, length, length-replicate, length-slice, refl, slice, ℕ, ◌+◌, ◌-◌, ◌≡◌, ◌≤◌,
}
use my_net_lib.Buffer.{
  Buffer, cheap_prepend, max_size, init, readable_bytes, writeable_bytes, retrive_all, retrive,
}

pub record IsValid (b : Buffer) : Type 0 where
  pub prepend : cheap_prepend ≤ b.read_index
  pub ordered : b.read_index ≤ b.write_index
  pub within : b.write_index ≤ length b.buffer
  pub bounded : length b.buffer ≤ max_size

-- The readable bytes, oldest first.
abbrev pub contents : Buffer → List ℕ
contents b = slice b.buffer b.read_index (b.write_index - b.read_index)

-- Neither count wraps.
pub readable_bytes_lem : {b : Buffer} → IsValid b → readable_bytes b ≡ b.write_index - b.read_index
readable_bytes_lem v = omega arith

pub writeable_bytes_lem :
    {b : Buffer} → IsValid b → writeable_bytes b ≡ length b.buffer - b.write_index
writeable_bytes_lem v = omega arith

pub length-contents : {b : Buffer} → IsValid b → length (contents b) ≡ readable_bytes b
length-contents {b} v =
    omega (arith, length-slice b.buffer b.read_index (b.write_index - b.read_index))

pub init-IsValid : (size : ℕ) → size + 8 ≤ max_size → IsValid (init size)
unfolding init
init-IsValid size h = omega (arith, length-replicate {A = ℕ} (8 + size) 0)

pub contents-init : (size : ℕ) → contents (init size) ≡ List.[]
unfolding init
contents-init size = refl

pub retrive_all-IsValid : {b : Buffer} → IsValid b → IsValid (retrive_all b)
unfolding retrive_all
retrive_all-IsValid v = omega arith

pub retrive-IsValid : {b : Buffer} (n : ℕ) → IsValid b → IsValid (retrive b n)
unfolding retrive
retrive-IsValid n v = ground arith

pub readable_bytes-init : (size : ℕ) → readable_bytes (init size) ≡ 0
unfolding init
readable_bytes-init size = refl
