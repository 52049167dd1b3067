-- ===== src/Arith.antt =====
-- libaftermath-core/src/arithmetic.h, unsigned part: 64-bit arithmetic that reports and saturates.
-- A function that writes `*out` and returns a status is one that returns both; `none` stands for
-- behaviour that C leaves undefined (a division by zero, a signed overflow).
pub mod Exact
use aftermath.Base.{
  ℕ, ◌+◌, ◌-◌, ◌*◌, ◌/◌, ◌%◌, ◌^◌, Bool, true, false, ◌&&◌, ◌||◌, Option, none, some, ltb, leb,
  ◌==◌, if◌then◌else◌,
}
use aftermath.Base.Words.{word, word_max, add64, sub64}

-- `enum am_arithmetic_status`
pub data Status : Type 0 where
  exact underflow overflow : Status

-- am_sat_u64: the value left in `*i`.
unfoldable pub sat_u64 : ℕ → Status → ℕ
sat_u64 i overflow = word_max
sat_u64 i underflow = 0
sat_u64 i exact = i

-- am_add_safe_u64, from AM_DECL_ADD_SAFE_UINT_FUN. No test covers `a == b`.
unfoldable pub add_safe_u64 : ℕ → ℕ → ℕ × Status
add_safe_u64 a b = (
  add64 a b,
  if (ltb b a && ltb (word_max - a) b) || (ltb a b && ltb (word_max - b) a)
      then overflow
      else exact,
)

-- am_add_sat_u64
unfoldable pub add_sat_u64 : ℕ → ℕ → ℕ × Status
unfolding add_safe_u64 sat_u64
add_sat_u64 a b = let (out, status) = add_safe_u64 a b in (sat_u64 out status, status)

-- am_sub_safe_u64, from AM_DECL_SUB_SAFE_UINT_FUN
unfoldable pub sub_safe_u64 : ℕ → ℕ → ℕ × Status
sub_safe_u64 a b = (sub64 a b, if ltb a b then underflow else exact)

-- am_sub_sat_u64
unfoldable pub sub_sat_u64 : ℕ → ℕ → ℕ × Status
unfolding sub_safe_u64 sat_u64
sub_sat_u64 a b = let (out, status) = sub_safe_u64 a b in (sat_u64 out status, status)

-- am_u128_check_u64 on a value below 2^128.
unfoldable pub u128_check_u64 : ℕ → Status
u128_check_u64 i = if i / 2 ^ 64 == 0 then exact else overflow

-- am_muldiv_safe_u64: the 128-bit product cannot wrap; `none` is the division by zero.
unfoldable pub muldiv_safe_u64 : ℕ → ℕ → ℕ → Option (ℕ × Status)
unfolding u128_check_u64
muldiv_safe_u64 a b c =
    let res = a * b / c in if c == 0 then none else some (res % word, u128_check_u64 res)

-- am_muldiv_sat_u64
unfoldable pub muldiv_sat_u64 : ℕ → ℕ → ℕ → Option (ℕ × Status)
unfolding muldiv_safe_u64 sat_u64
muldiv_sat_u64 a b c = elim (muldiv_safe_u64 a b c) [
  | none ↦ none
  | some (out, status) ↦ some (sat_u64 out status, status)
]

-- am_mul_safe_u64: the product is taken in a signed `__int128`, which overflows from 2^127 on.
-- Below that it is not negative, so of am_i128_check_u64 the first branch is taken.
unfoldable pub mul_safe_u64 : ℕ → ℕ → Option (ℕ × Status)
unfolding u128_check_u64
mul_safe_u64 a b =
    let res = a * b in if ltb res (2 ^ 127) then some (res % word, u128_check_u64 res) else none

-- am_mul_sat_u64
unfoldable pub mul_sat_u64 : ℕ → ℕ → Option (ℕ × Status)
unfolding mul_safe_u64 sat_u64
mul_sat_u64 a b = elim (mul_safe_u64 a b) [
  | none ↦ none
  | some (out, status) ↦ some (sat_u64 out status, status)
]

-- am_safe_rightopen_interval_size_i64 for bounds that are not negative, and
-- am_safe_closed_interval_size_u64; `none` is the return value 1.
unfoldable pub closed_interval_size_u64 : ℕ → ℕ → Option ℕ
closed_interval_size_u64 left right =
    if ltb right left
    then none
    else if left == 0 && right == word_max
    then none
    else some (add64 (sub64 right left) 1)
