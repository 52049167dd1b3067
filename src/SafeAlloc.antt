-- ===== src/SafeAlloc.antt =====
-- libaftermath-core/src/safe_alloc.h: sums and products of sizes that must not wrap. `none` is the
-- return value 1, where `*out` stays as it is. Addresses are numbers, and NULL is 0.
pub mod Exact
use aftermath.Base.{
  ℕ, ◌+◌, ◌-◌, ◌*◌, ◌/◌, Bool, true, false, not, ◌&&◌, Option, none, some, ltb, ◌==◌, if◌then◌else◌,
}
use aftermath.Base.Words.{word_max, sub64, add64, mul64}

-- am_size_add_overflows and am_uintptr_add_overflows
unfoldable pub size_add_overflows : ℕ → ℕ → Bool
size_add_overflows a b = ltb (sub64 word_max a) b

-- am_size_mul_overflows
unfoldable pub size_mul_overflows : ℕ → ℕ → Bool
size_mul_overflows a b = not (a == 0) && ltb (word_max / a) b

-- am_size_add_safe and am_uintptr_add_safe
unfoldable pub size_add_safe : ℕ → ℕ → Option ℕ
unfolding size_add_overflows
size_add_safe a b = if size_add_overflows a b then none else some (add64 a b)

-- am_size_inc_safe
unfoldable pub size_inc_safe : ℕ → ℕ → Option ℕ
unfolding size_add_safe
size_inc_safe out a = size_add_safe out a

-- am_size_mul_safe
unfoldable pub size_mul_safe : ℕ → ℕ → Option ℕ
unfolding size_mul_overflows
size_mul_safe a b = if size_mul_overflows a b then none else some (mul64 a b)

-- am_array_element_ptr_safe; the conversions between equally wide types change nothing.
unfoldable pub array_element_ptr_safe : ℕ → ℕ → ℕ → Option ℕ
unfolding size_mul_safe size_add_safe
array_element_ptr_safe a n s = elim (size_mul_safe n s) [
  | none ↦ none
  | some offset ↦ size_add_safe a offset
]

-- The allocator's answer to a request for so many bytes is a parameter of the functions below.
module _ {ℓ} {M : Type ℓ} (allocate : ℕ → Option M) where
  -- am_alloc_array_safe, and am_realloc_array_safe with `realloc` on the old array as `allocate`
  unfoldable pub alloc_array_safe : ℕ → ℕ → Option M
  unfolding size_mul_safe
  alloc_array_safe n s = elim (size_mul_safe n s) [
    | none ↦ none
    | some total_size ↦ allocate total_size
  ]

  -- am_grow_array_safe
  unfoldable pub grow_array_safe : ℕ → ℕ → ℕ → Option M
  unfolding size_add_safe alloc_array_safe
  grow_array_safe n add s = elim (size_add_safe n add) [
    | none ↦ none
    | some total_samples ↦ alloc_array_safe total_samples s
  ]
