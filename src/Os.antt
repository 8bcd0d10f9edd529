-- ===== src/Os.antt =====
-- What the library asks of the operating system. System calls are not part of the repository: each
-- is an argument of the model, and this module has the types of their results.
use my_net_lib.Common.{ℕ, ◌≤◌, ◌≡◌, List, [], ◌∷◌, ◌+◌, length}

-- A read or write call: -1 with `errno`, or what was moved.
pub data Transfer {ℓ} (A : Type ℓ) : Type ℓ where
  failed : (errno : ℕ) → Transfer A
  done : A → Transfer A

abbrev pub sum : List ℕ → ℕ
sum [] = 0
sum (x ∷ xs) = x + sum xs

-- `readv` of a file descriptor, given the `iov_len` of its buffers: the bytes that it stores in
-- them, filling each before the next.
abbrev pub Readv : Type 0
Readv = List ℕ → Transfer (List ℕ)

-- readv(2): no more bytes than the buffers hold.
abbrev pub IsReadv : Readv → Type 0
IsReadv readv = (lens bytes : List ℕ) → readv lens ≡ done bytes → length bytes ≤ sum lens

-- `write` of a file descriptor: how many of the bytes it takes.
abbrev pub Write : Type 0
Write = List ℕ → Transfer ℕ

-- write(2): no more bytes than are handed over.
abbrev pub IsWrite : Write → Type 0
IsWrite write = (bytes : List ℕ) (n : ℕ) → write bytes ≡ done n → n ≤ length bytes
