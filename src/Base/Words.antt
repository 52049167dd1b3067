-- ===== src/Base/Words.antt =====
-- Unsigned 64-bit words (`uint64_t`, `size_t`, `uintptr_t`) as native numbers, the wrap-around
-- written out. A word is any number; a theorem that needs the range says so.
use Prim.Native.Nat.{ℕ, ◌+◌, ◌-◌, ◌*◌, ◌%◌, ◌^◌}

abbrev pub word : ℕ
word = 2 ^ 64

-- UINT64_MAX, SIZE_MAX and UINTPTR_MAX.
abbrev pub word_max : ℕ
word_max = 0xffff_ffff_ffff_ffff

-- `a + b` on words.
abbrev pub add64 : ℕ → ℕ → ℕ
add64 a b = (a + b) % word

-- `a - b` on words; `-` on ℕ stops at 0, so the modulus is added first.
abbrev pub sub64 : ℕ → ℕ → ℕ
sub64 a b = (a + word - b) % word

-- `a * b` on words.
abbrev pub mul64 : ℕ → ℕ → ℕ
mul64 a b = a * b % word
