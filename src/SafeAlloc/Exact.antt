-- ===== src/SafeAlloc/Exact.antt =====
-- safe_alloc.h: each checked operation gives the exact result where that is a word, and fails
-- elsewhere.

use aftermath.Base.{ℕ, ◌+◌, ◌*◌, ◌/◌, ◌≤◌, ◌<◌, ◌≡◌, Option, none, some, arith, ltb, if◌then◌else◌}
use aftermath.Base.Words.{word, word_max}
use aftermath.SafeAlloc.{size_add_safe, size_mul_safe, array_element_ptr_safe, grow_array_safe}

-- The checked sum of two words is their sum, or a failure exactly when the sum is no word.
pub size_add_safe_lem :
    (a b : ℕ)
    → a < word
    → b < word
    → size_add_safe a b ≡ (if ltb (a + b) word then some (a + b) else none)
unfolding size_add_safe
size_add_safe_lem a b ha hb = ground arith

-- `max / a < b` for the division of the code says that `a * b` is beyond `max`.
div-lt-mul : (a b m : ℕ) → 0 < a → m / a < b → m < a * b
div-lt-mul a b m h k = grind arith

mul-le-div : (a b m : ℕ) → 0 < a → b ≤ m / a → a * b ≤ m
mul-le-div a b m h k = grind arith

-- The checked product of two words is their product, or a failure exactly when it is no word.
pub size_mul_safe_lem :
    (a b : ℕ) → size_mul_safe a b ≡ (if ltb (a * b) word then some (a * b) else none)
unfolding size_mul_safe
size_mul_safe_lem a b = ground (arith, div-lt-mul a b word_max, mul-le-div a b word_max)

-- The address of an element is base + n * size, or a failure exactly when that is beyond the address
-- space.
pub array_element_ptr_safe_lem :
    (a n s : ℕ)
    → a < word
    → array_element_ptr_safe a n s ≡ (if ltb (a + n * s) word then some (a + n * s) else none)
unfolding array_element_ptr_safe
array_element_ptr_safe_lem a n s ha =
    ground (arith, size_mul_safe_lem n s, size_add_safe_lem a (n * s))

-- For numbers of samples that are words a grown array asks the allocator for exactly (n + add) * size bytes, and asks for none where the
-- number of samples or of bytes is no word.
pub grow_array_safe_lem {ℓ} :
    {M : Type ℓ} (allocate : ℕ → Option M) (n add s : ℕ)
    → n < word
    → add < word
    → grow_array_safe allocate n add s ≡ (
        if ltb (n + add) word
        then (if ltb ((n + add) * s) word then allocate ((n + add) * s) else none)
        else none)
unfolding grow_array_safe
grow_array_safe_lem allocate n add s hn ha =
    ground (arith, size_add_safe_lem n add, size_mul_safe_lem (n + add) s)
