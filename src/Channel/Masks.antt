-- ===== src/Channel/Masks.antt =====
-- The bit sets are the masks of the source.
use my_net_lib.Common.{Bool, arith, if◌then◌else◌, not, ℕ, ◌+◌, ◌-◌, ◌==◌, ◌^◌, ◌≡◌}
use Prim.Native.Nat.{bit_or, bit_and}
use my_net_lib.Channel.{Events, read_event, write_event, union, minus, meets, is_empty}

abbrev bit : Bool → ℕ → ℕ
bit b n = if b then n else 0

-- POLLIN is 1, POLLPRI 2, POLLOUT 4, POLLERR 8 and POLLHUP 16.
pub mask : Events → ℕ
mask e = bit e.pollin 1 + bit e.pollpri 2 + bit e.pollout 4 + bit e.pollerr 8 + bit e.pollhup 16

-- `|`, `& ~` and `&` on the masks, for the two sets of events that a channel enables: the
-- complement of a 32-bit mask `m` is 2 ^ 32 - 1 - m.
pub mask_lem :
    (e : Events)
    → (mask (union e read_event) ≡ bit_or (mask e) 3)
      × (mask (union e write_event) ≡ bit_or (mask e) 4)
      × (mask (minus e read_event) ≡ bit_and (mask e) (2 ^ 32 - 1 - 3))
      × (mask (minus e write_event) ≡ bit_and (mask e) (2 ^ 32 - 1 - 4))
      × (meets e write_event ≡ not (bit_and (mask e) 4 == 0))
      × (meets e read_event ≡ not (bit_and (mask e) 3 == 0))
      × (is_empty e ≡ (mask e == 0))
unfolding mask
mask_lem e = (
  ground arith,
  ground arith,
  ground arith,
  ground arith,
  ground arith,
  ground arith,
  ground arith,
)
