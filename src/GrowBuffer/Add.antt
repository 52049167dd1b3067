-- ===== src/GrowBuffer/Add.antt =====
-- buffer.c: adding an element appends it, with the array grown where it is full.
use native.Mathlib.Nat.{mul-le-mul_right}
use aftermath.Base.{
  ℕ, zero, suc, ◌+◌, ◌-◌, ◌*◌, ◌≤◌, ◌<◌, ◌≡◌, refl, ap, true, false, Option, some, List, [], ◌∷◌,
  ◌++◌, arith, ltb, leb, if◌then◌else◌, length, not, ◌&&◌, length-set, set, take, Bool-cases,
  Option-cases, inl, inr,
}
use aftermath.Base.Words.{word}
use aftermath.SafeAlloc.{alloc_array_safe}
use aftermath.SafeAlloc.Exact.{size_add_safe_lem, array_element_ptr_safe_lem}
use aftermath.DfgBuffer.Samples.{alloc_array_safe_lem, take-reallocated, length-reallocated}
use aftermath.GrowBuffer.{GrowBuffer, check_buffer_grow_n, check_buffer_grow, add_buffer_grow}

-- The array has the used and the free elements, of `elem_size` bytes each, and lies in the address
-- space.
pub record IsValid (elem_size : ℕ) (b : GrowBuffer) : Type 0 where
  pub room : length b.memory ≡ b.used + b.free
  pub is_size : b.used + b.free < word
  pub addressable : b.address + (b.used + b.free) * elem_size < word
  pub is_object : 0 < b.used + b.free → 0 < b.address

abbrev pub elements : GrowBuffer → List ℕ
elements b = take b.used b.memory

take-set :
    (xs : List ℕ) (k n x : ℕ)
    → n ≡ k + 1
    → k < length xs
    → take n (set xs k x) ≡ take k xs ++ x ∷ []
take-set [] k n x e h = absurd (omega (arith, h))
take-set (y ∷ xs) k zero x e h = absurd (omega (arith, e))
take-set (y ∷ xs) zero (suc zero) x e h = refl
take-set (y ∷ xs) zero (suc (suc n)) x e h = absurd (omega (arith, e))
take-set (y ∷ xs) (suc k) (suc n) x e h =
    ap (λ l. y ∷ l) (take-set xs k n x (omega (arith, e)) (omega (arith, h)))

one-more : (a b s : ℕ) → 0 < b → a * s + s ≤ (a + b) * s
one-more a b s h =
    let le : (a + 1) * s ≤ (a + b) * s = mul-le-mul_right s (omega (arith, h)) in grind (arith, le)

module _ (realloc : ℕ → ℕ → Option ℕ)
    (gives : (old n p : ℕ) → realloc old n ≡ some p → (0 < p) × (p + n < word)) where
  -- Making room keeps the elements, and where it succeeds there is the room that was asked for.
  check_buffer_grow_n_lem :
      (b : GrowBuffer) (elem_size n prealloc_elems : ℕ)
      → IsValid elem_size b
      → n < word
      → prealloc_elems < word
      → let (b', done) = check_buffer_grow_n realloc b elem_size n prealloc_elems in
        IsValid elem_size b'
        × (elements b' ≡ elements b)
        × (b'.used ≡ b.used)
        × (done ≡ true → n ≤ b'.free)
        × ((leb n b.free && not done) ≡ false)
  unfolding check_buffer_grow_n
  check_buffer_grow_n_lem b elem_size n prealloc_elems v hn hp =
      let alloc = if ltb prealloc_elems (n - b.free) then n - b.free else prealloc_elems in
      let total = b.used + b.free + alloc in
      elim (Option-cases (alloc_array_safe (realloc b.address) total elem_size)) [
        | inl e ↦ ground (
          arith,
          e,
          size_add_safe_lem b.used b.free,
          size_add_safe_lem (b.used + b.free) alloc,
          size_add_safe_lem b.free alloc,
        )
        | inr (p, e) ↦ ground (
          arith,
          e,
          size_add_safe_lem b.used b.free,
          size_add_safe_lem (b.used + b.free) alloc,
          size_add_safe_lem b.free alloc,
          alloc_array_safe_lem (realloc b.address) total elem_size,
          gives b.address (total * elem_size) p,
          length-reallocated total b.memory,
          take-reallocated b.used total b.memory,
        )
      ]

  -- Where what `realloc` gives lies in the address space, adding an element of at least one byte to a
  -- valid array, with a word for the number of places to add, appends it to the used ones, or fails and
  -- leaves them as they were; with a free place it does not fail. The array stays valid.
  pub add_buffer_grow_lem :
      (b : GrowBuffer) (elem elem_size prealloc_elems : ℕ)
      → IsValid elem_size b
      → 0 < elem_size
      → prealloc_elems < word
      → let (b', done) = add_buffer_grow realloc b elem elem_size prealloc_elems in
        IsValid elem_size b'
        × (elements b' ≡ (if done then elements b ++ elem ∷ [] else elements b))
        × ((ltb 0 b.free && not done) ≡ false)
  unfolding add_buffer_grow check_buffer_grow
  add_buffer_grow_lem b elem elem_size prealloc_elems v pos hp =
      let grown = check_buffer_grow_n_lem b elem_size 1 prealloc_elems v (omega arith) hp in
      let b' = (check_buffer_grow_n realloc b elem_size 1 prealloc_elems).0 in
      let addr = b'.address + b'.used * elem_size in
      elim (Bool-cases ((check_buffer_grow_n realloc b elem_size 1 prealloc_elems).1)) [
        | inl t ↦ ground (
          arith,
          t,
          grown,
          one-more b'.used b'.free elem_size (grown.3 t),
          array_element_ptr_safe_lem b'.address b'.used elem_size,
          array_element_ptr_safe_lem addr 1 (elem_size - 1),
          take-set b'.memory b'.used (b'.used + 1) elem,
          length-set b'.memory b'.used elem,
        )
        | inr f ↦ ground (arith, f, grown)
      ]
