-- ===== src/Buffer/Tests.antt =====
-- Buffers at concrete inputs.
use my_net_lib.Common.{
  Bool-cases, List, [], arith, if◌then◌else◌, inl, inr, leb, refl, some, ◌∷◌, ◌≡◌,
}
use my_net_lib.Os.{failed, done, Readv, IsReadv, sum}
use my_net_lib.Buffer.{Buffer, append, retrive, read_fd, iov_lens}
use my_net_lib.Buffer.Valid.{IsValid, contents}
use my_net_lib.Buffer.Retrive.{contents-retrive}
use my_net_lib.Buffer.Fd.{Received, read_fd-Received}
use my_net_lib.Buffer.Queue.{
  Op, appends, retrives, retrives_string, retrives_all_string, run, queue_run, run_refines,
}

-- `7 8 9` readable, four bytes writeable.
abbrev some_bytes : Buffer
some_bytes = record {
  buffer = 0 ∷ 0 ∷ 0 ∷ 0 ∷ 0 ∷ 0 ∷ 0 ∷ 0 ∷ 1 ∷ 2 ∷ 7 ∷ 8 ∷ 9 ∷ 4 ∷ 4 ∷ 4 ∷ 4 ∷ [];
  read_index = 10;
  write_index = 13;
}

some_bytes-IsValid : IsValid some_bytes
some_bytes-IsValid = omega arith

-- Five bytes do not fit behind, but do after a move to the front.
append_moves :
    append some_bytes (1 ∷ 2 ∷ 3 ∷ 4 ∷ 5 ∷ [])
    ≡ some (record {
      buffer = 0 ∷ 0 ∷ 0 ∷ 0 ∷ 0 ∷ 0 ∷ 0 ∷ 0 ∷ 7 ∷ 8 ∷ 9 ∷ 1 ∷ 2 ∷ 3 ∷ 4 ∷ 5 ∷ 4 ∷ [];
      read_index = 8;
      write_index = 16;
    })
unfolding append
append_moves = refl

contents-retrive_example : contents (retrive some_bytes 2) ≡ 9 ∷ []
contents-retrive_example = contents-retrive 2 some_bytes-IsValid

-- A socket with six bytes waiting.
abbrev six_bytes : Readv
six_bytes lens = if leb 6 (sum lens) then done (1 ∷ 2 ∷ 3 ∷ 4 ∷ 5 ∷ 6 ∷ []) else failed 11

six_bytes-IsReadv : IsReadv six_bytes
six_bytes-IsReadv lens bytes e = elim (Bool-cases (leb 6 (sum lens))) [
  | inl enough ↦
      let same : done (1 ∷ 2 ∷ 3 ∷ 4 ∷ 5 ∷ 6 ∷ []) ≡ done bytes = rw enough at e in ground arith
  | inr short ↦ let never : failed 11 ≡ done bytes = rw short at e in absurd (cc)
]

read_fd-Received_example :
    Received some_bytes (done (1 ∷ 2 ∷ 3 ∷ 4 ∷ 5 ∷ 6 ∷ [])) (read_fd six_bytes some_bytes)
unfolding iov_lens
read_fd-Received_example =
    read_fd-Received (done (1 ∷ 2 ∷ 3 ∷ 4 ∷ 5 ∷ 6 ∷ [])) six_bytes-IsReadv some_bytes-IsValid
      (omega arith) refl

abbrev script : List Op
script =
    appends (1 ∷ 2 ∷ 3 ∷ 4 ∷ 5 ∷ []) ∷ retrives 1 ∷ retrives_string 3 ∷ retrives_all_string ∷ []

run_refines_example :
    run some_bytes script ≡ some ([] ∷ [] ∷ (8 ∷ 9 ∷ 1 ∷ []) ∷ (2 ∷ 3 ∷ 4 ∷ 5 ∷ []) ∷ [])
unfolding queue_run
run_refines_example = run_refines script _ some_bytes-IsValid (omega arith) refl
