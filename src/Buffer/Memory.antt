-- ===== src/Buffer/Memory.antt =====
-- The memory accesses of buffer.h that are in range do not fault.
use my_net_lib.Common.{
  ℕ, ◌+◌, ◌-◌, ◌≤◌, ◌<◌, ◌≡◌, List, some, arith, length, slice, overwrite, resized, length-slice,
  le→leb, lt→leb,
}
use my_net_lib.Buffer.{max_size, read_range, write_range, resize, copy_within}

pub resize_ok : (xs : List ℕ) (n : ℕ) → n ≤ max_size → resize xs n ≡ some (resized xs n)
unfolding resize
resize_ok xs n h = rw (le→leb n max_size h)

pub read_range_ok :
    (xs : List ℕ) (i n : ℕ) → i + n ≤ length xs → read_range xs i n ≡ some (slice xs i n)
unfolding read_range
read_range_ok xs i n h = rw (le→leb (i + n) (length xs) h)

pub write_range_ok :
    (xs : List ℕ) (i : ℕ) (ys : List ℕ)
    → i + length ys ≤ length xs
    → write_range xs i ys ≡ some (overwrite xs i ys)
unfolding write_range
write_range_ok xs i ys h = rw (le→leb (i + length ys) (length xs) h)

-- The range moves down, to a place before it.
pub copy_within_ok :
    (xs : List ℕ) (first last dest : ℕ)
    → dest < first
    → first ≤ last
    → last ≤ length xs
    → copy_within xs first last dest ≡ some (overwrite xs dest (slice xs first (last - first)))
unfolding copy_within
copy_within_ok xs first last dest below ordered within =
    rw
      (
        le→leb first last ordered,
        lt→leb first dest below,
        read_range_ok xs first (last - first) (omega arith),
      )
      (write_range_ok xs dest (slice xs first (last - first))
        (omega (arith, length-slice xs first (last - first))))
