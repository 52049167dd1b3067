-- ===== src/Arith/Exact.antt =====
-- What the saturating operations of arithmetic.h compute, against the operations on numbers.
use aftermath.Base.{
  ℕ, ◌+◌, ◌-◌, ◌*◌, ◌/◌, ◌^◌, ◌≤◌, ◌<◌, min, ◌≡◌, ◌≢◌, none, some, arith, ltb, if◌then◌else◌,
}
use aftermath.Base.Words.{word, word_max}
use aftermath.Arith.{
  exact, underflow, overflow, add_sat_u64, sub_sat_u64, muldiv_sat_u64, mul_sat_u64,
  closed_interval_size_u64,
}

-- For two different words the saturating sum is the smaller of the sum and the largest word, and
-- the status is `overflow` exactly when the sum is no word.
pub add_sat_u64_lem :
    (a b : ℕ)
    → a < word
    → b < word
    → a ≢ b
    → add_sat_u64 a b ≡ (min (a + b) word_max, if ltb (a + b) word then exact else overflow)
unfolding add_sat_u64
add_sat_u64_lem a b ha hb ne = ground arith

-- The sum of a word of at least 2^63 with itself is not a word, and yet it is reported as exact
-- and wraps round.
pub add_sat_u64_self : (a : ℕ) → 2 ^ 63 ≤ a → a < word → add_sat_u64 a a ≡ (a + a - word, exact)
unfolding add_sat_u64
add_sat_u64_self a h ha = ground arith

-- The saturating difference of two words is the truncated one, and the status is `underflow`
-- exactly when the second word is the larger.
pub sub_sat_u64_lem :
    (a b : ℕ)
    → a < word
    → b < word
    → sub_sat_u64 a b ≡ (a - b, if ltb a b then underflow else exact)
unfolding sub_sat_u64
sub_sat_u64_lem a b ha hb = ground arith

-- For a divisor other than 0 the result of the scaling is defined, is the smaller of the quotient
-- and the largest word, and is reported as exact exactly when the quotient is a word.
pub muldiv_sat_u64_lem :
    (a b c : ℕ)
    → c ≢ 0
    → muldiv_sat_u64 a b c
      ≡ some (min (a * b / c) word_max, if ltb (a * b / c) word then exact else overflow)
unfolding muldiv_sat_u64
muldiv_sat_u64_lem a b c h = ground arith

-- The saturating product is defined exactly when the product is below 2^127, and then it is the
-- smaller of the product and the largest word, reported as exact exactly when the product is a word.
pub mul_sat_u64_lem :
    (a b : ℕ)
    → mul_sat_u64 a b ≡ (
        if ltb (a * b) (2 ^ 127)
        then some (min (a * b) word_max, if ltb (a * b) word then exact else overflow)
        else none)
unfolding mul_sat_u64
mul_sat_u64_lem a b = ground arith

-- For words in order the size of the closed interval is right - left + 1, and there is none exactly
-- when the order is wrong or the interval holds all words.
pub closed_interval_size_u64_lem :
    (left right : ℕ)
    → left < word
    → right < word
    → closed_interval_size_u64 left right ≡ (
        if ltb right left
        then none
        else if ltb (right - left + 1) word
        then some (right - left + 1)
        else none)
unfolding closed_interval_size_u64
closed_interval_size_u64_lem left right hl hr = ground arith
