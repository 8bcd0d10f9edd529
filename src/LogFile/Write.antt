-- ===== src/LogFile/Write.antt =====
-- `AppendFile::Append`
use my_net_lib.Common.{
  List, [], arith, if◌then◌else◌, length, some, true, ℕ, ◌==◌, ◌∷◌, ◌≡◌, ◌≤◌, ◌⊎◌,
}
use my_net_lib.LogFile.{Fwrite, append_loop, append_file}

-- fwrite(3): no more than was asked for, and less only with the error indicator set.
abbrev pub IsFwrite : Fwrite → Type 0
IsFwrite fwrite =
    (bytes : List ℕ)
    → ((fwrite bytes).0 ≤ length bytes)
      × (((fwrite bytes).0 ≡ length bytes) ⊎ ((fwrite bytes).1 ≡ true))

-- `Append` ends: it returns when the whole line is written, or after the call that fails, whose
-- bytes it does not count.
pub append_file_lem :
    (fwrite : Fwrite) (log_line : List ℕ)
    → IsFwrite fwrite
    → append_file fwrite log_line
      ≡ some (if (fwrite log_line).0 == length log_line then length log_line else 0)
unfolding append_file append_loop
append_file_lem fwrite [] w = ground arith
append_file_lem fwrite (x ∷ xs) w = let (le, whole_or_error) = w (x ∷ xs) in ground arith
