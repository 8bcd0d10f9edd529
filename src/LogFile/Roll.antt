-- ===== src/LogFile/Roll.antt =====
-- When the file is split, and when it is flushed.
use my_net_lib.Common.{[], arith, ℕ, ◌∷◌, ◌≡◌, ◌≤◌, ◌⊎◌}
use my_net_lib.LogFile.{LogFile, rolls, period, roll_file, check_period, append_unlocked}

-- Behind `AppendUnlocked` the file is no larger than `roll_size_`, unless it was rolled in this very
-- second or later.
pub append_unlocked-bounded :
    (now n : ℕ) (f : LogFile)
    → ((append_unlocked now n f).0.written_bytes ≤ f.roll_size) ⊎ (now ≤ f.last_roll)
unfolding append_unlocked roll_file check_period
append_unlocked-bounded now n f = ground arith

-- On the day of the current file `AppendUnlocked` may split the file, and else leaves it unflushed,
-- however long ago the last flush was.
pub append_unlocked-flushes :
    (now n : ℕ) (f : LogFile)
    → period now ≡ f.start_of_period
    → ((append_unlocked now n f).1 ≡ []) ⊎ ((append_unlocked now n f).1 ≡ rolls ∷ [])
unfolding append_unlocked roll_file check_period
append_unlocked-flushes now n f h = ground arith
