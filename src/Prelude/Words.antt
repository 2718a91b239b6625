-- ===== src/Prelude/Words.antt =====
-- 32-bit words, and their four bytes, lowest first.
use Prim.Native.Nat.{ℕ, ◌+◌, ◌-◌, ◌*◌, ◌/◌, ◌%◌, ◌^◌, ◌<◌}
use mathlib.Core.Path.{◌≡◌, refl}
use mathlib.Core.List.{List, [], ◌∷◌}
use native.Mathlib.Omega.{arith}
use rteget_data_linux_compat.Prelude.Lists.{get_or, length}

abbrev pub IsU32 : ℕ → Type 0
IsU32 n = n < 2 ^ 32

abbrev pub IsByte : ℕ → Type 0
IsByte n = n < 256

-- a + b and a - b of `unsigned`.
abbrev pub add32 : ℕ → ℕ → ℕ
add32 a b = (a + b) % 2 ^ 32

abbrev pub sub32 : ℕ → ℕ → ℕ
sub32 a b = (a + 2 ^ 32 - b) % 2 ^ 32

abbrev pub mul32 : ℕ → ℕ → ℕ
mul32 a b = a * b % 2 ^ 32

-- Bit `k` of a word.
abbrev pub bit : ℕ → ℕ → ℕ
bit n k = n / 2 ^ k % 2

-- The bytes of a word in memory, and the word at a pointer.
unfoldable pub word_bytes : ℕ → List ℕ
word_bytes n = n % 256 ∷ n / 256 % 256 ∷ n / 65536 % 256 ∷ n / 16777216 % 256 ∷ []

unfoldable pub word_at : List ℕ → ℕ
word_at p = get_or p 0 0 + get_or p 1 0 * 256 + get_or p 2 0 * 65536 + get_or p 3 0 * 16777216

pub word_at-word_bytes : (n : ℕ) → IsU32 n → word_at (word_bytes n) ≡ n
unfolding word_at word_bytes
word_at-word_bytes n h = omega arith

pub length-word_bytes : (n : ℕ) → length (word_bytes n) ≡ 4
unfolding word_bytes
length-word_bytes n = refl
