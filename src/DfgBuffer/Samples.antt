-- ===== src/DfgBuffer/Samples.antt =====
-- dfg_buffer.c: writing samples to a buffer and reading them back.
use native.Mathlib.Nat.{mul-le-mul_right}
use aftermath.Base.{
  ℕ, zero, suc, ◌+◌, ◌*◌, ◌≤◌, ◌<◌, ◌≡◌, refl, ap, ◌∙◌, true, Option, none, some, List, [], ◌∷◌,
  ◌++◌, arith, length, take, replicate, length-append, length-take, length-replicate, ◌==◌, ltb,
  if◌then◌else◌, Bool-cases, Option-cases, inl, inr,
}
use aftermath.Base.Words.{word}
use aftermath.SafeAlloc.{size_mul_safe, alloc_array_safe}
use aftermath.SafeAlloc.Exact.{size_add_safe_lem, size_mul_safe_lem, array_element_ptr_safe_lem}
use aftermath.WriteBuffer.Log.{length-copy_at, take-copy_at}
use aftermath.DfgBuffer.{
  DfgBuffer, element_ptr, destroy_excess, reallocated, change_capacity, resize, reserve, write,
}

-- The array has room for the number of samples that it should have, and lies in the address space.
pub record IsValid (b : DfgBuffer) : Type 0 where
  pub room : length b.memory ≡ b.max_samples
  pub within : b.num_samples ≤ b.max_samples
  pub is_size : b.max_samples < word
  pub addressable : b.address + b.max_samples * b.sample_type.sample_size < word
  pub is_object : 0 < b.max_samples → 0 < b.address

-- The samples that the buffer holds.
abbrev pub samples : DfgBuffer → List ℕ
samples b = take b.num_samples b.memory

take-append : (k : ℕ) (xs ys : List ℕ) → k ≤ length xs → take k (xs ++ ys) ≡ take k xs
take-append zero xs ys h = refl
take-append (suc k) [] ys h = absurd (omega (arith, h))
take-append (suc k) (x ∷ xs) ys h = ap (λ l. x ∷ l) (take-append k xs ys (omega (arith, h)))

pub take-take : (k n : ℕ) (xs : List ℕ) → k ≤ n → take k (take n xs) ≡ take k xs
take-take zero n xs h = refl
take-take (suc k) zero xs h = absurd (omega (arith, h))
take-take (suc k) (suc n) [] h = refl
take-take (suc k) (suc n) (x ∷ xs) h = ap (λ l. x ∷ l) (take-take k n xs (omega (arith, h)))

pub take-reallocated :
    (k n : ℕ) (xs : List ℕ) → k ≤ n → k ≤ length xs → take k (reallocated n xs) ≡ take k xs
take-reallocated k n xs h l =
    take-take k n (xs ++ replicate n 0) h ∙ take-append k xs (replicate n 0) l

pub length-reallocated : (n : ℕ) (xs : List ℕ) → length (reallocated n xs) ≡ n
length-reallocated n xs = omega (
  arith,
  length-take n (xs ++ replicate n 0),
  length-append xs (replicate n 0),
  length-replicate {A = ℕ} n 0,
)

pub alloc_array_safe_lem :
    (allocate : ℕ → Option ℕ) (n s : ℕ)
    → alloc_array_safe allocate n s ≡ (if ltb (n * s) word then allocate (n * s) else none)
unfolding alloc_array_safe
alloc_array_safe_lem allocate n s = ground (arith, size_mul_safe_lem n s)

pub element_ptr_lem :
    (b : DfgBuffer) (n : ℕ)
    → IsValid b
    → n ≤ b.max_samples
    → 0 < b.address
    → element_ptr b n ≡ some (b.address + n * b.sample_type.sample_size)
unfolding element_ptr
element_ptr_lem b n v h pos =
    let le : n * b.sample_type.sample_size ≤ b.max_samples * b.sample_type.sample_size =
      mul-le-mul_right b.sample_type.sample_size h in
    ground
      (arith, le, v.addressable, array_element_ptr_safe_lem b.address n b.sample_type.sample_size)

-- The answer of `realloc` is an array of so many bytes in the address space, as C promises.
module _ (realloc : ℕ → ℕ → Option ℕ)
    (gives : (old n p : ℕ) → realloc old n ≡ some p → (0 < p) × (p + n < word)) where
  change_capacity_lem :
      (b : DfgBuffer) (n : ℕ)
      → IsValid b
      → b.num_samples ≤ n
      → n < word
      → let (b', done) = change_capacity realloc b n in
        IsValid b'
        × (samples b' ≡ samples b)
        × (b'.num_samples ≡ b.num_samples)
        × (b'.max_samples ≡ (if done then n else b.max_samples))
        × (b'.sample_type ≡ b.sample_type)
  unfolding change_capacity
  change_capacity_lem b n v h fits = elim (Bool-cases (n == b.max_samples)) [
    | inl t ↦ ground (arith, t)
    | inr f ↦ elim (Bool-cases (n == 0)) [
      | inl z ↦ ground (arith, f, z)
      | inr nz ↦
          elim (Option-cases (alloc_array_safe (realloc b.address) n b.sample_type.sample_size)) [
            | inl e ↦ ground (arith, f, nz, e)
            | inr (p, e) ↦ ground (
              arith,
              f,
              nz,
              e,
              alloc_array_safe_lem (realloc b.address) n b.sample_type.sample_size,
              gives b.address (n * b.sample_type.sample_size) p,
              length-reallocated n b.memory,
              take-reallocated b.num_samples n b.memory,
            )
          ]
    ]
  ]

  -- A reservation keeps the samples, and where it succeeds it counts the reserved places in.
  reserve_lem :
      (b : DfgBuffer) (n : ℕ)
      → IsValid b
      → n < word
      → let (b', dst) = reserve realloc b n in
        IsValid b'
        × (take b.num_samples b'.memory ≡ samples b)
        × (b'.num_samples ≡ (elim dst [ none ↦ b.num_samples | some _ ↦ b.num_samples + n ]))
        × (b'.sample_type ≡ b.sample_type)
  unfolding reserve resize destroy_excess
  reserve_lem b n v fits =
      let size = size_add_safe_lem b.num_samples n in
      let grown = change_capacity_lem b (b.num_samples + n) v in
      elim (Bool-cases (ltb (b.num_samples + n) word)) [
        | inl t ↦ elim (Bool-cases (ltb b.max_samples (b.num_samples + n))) [
          | inl l ↦ ground (arith, size, t, l, grown)
          | inr k ↦ ground (arith, size, t, k)
        ]
        | inr f ↦ ground (arith, size, f)
      ]

  -- Where what `realloc` gives lies in the address space, a write of samples at hand to a valid buffer
  -- appends them to its samples, or fails and leaves the
  -- samples as they were; the buffer stays valid.
  pub write_lem :
      (b : DfgBuffer) (n : ℕ) (src : List ℕ)
      → IsValid b
      → n ≤ length src
      → n < word
      → let (b', done) = write realloc b n src in
        IsValid b' × (samples b' ≡ (if done then samples b ++ take n src else samples b))
  unfolding write
  write_lem b n src v h fits =
      let kept = reserve_lem b n v fits in
      let b' = (reserve realloc b n).0 in
      elim (Option-cases (size_mul_safe n b.sample_type.sample_size)) [
        | inl e ↦ ground (arith, e)
        | inr (bytes, e) ↦ elim (Option-cases ((reserve realloc b n).1)) [
          | inl f ↦ ground (arith, e, f, kept)
          | inr (dst, f) ↦ ground (
            arith,
            e,
            f,
            kept,
            take-copy_at b'.memory b.num_samples (b.num_samples + n) (take n src),
            length-copy_at b'.memory b.num_samples (take n src),
            length-take n src,
          )
        ]
      ]

  change_capacity-done :
      (b : DfgBuffer) (n p : ℕ)
      → n * b.sample_type.sample_size < word
      → realloc b.address (n * b.sample_type.sample_size) ≡ some p
      → (change_capacity realloc b n).1 ≡ true
  unfolding change_capacity
  change_capacity-done b n p bytes given =
      ground (arith, given, alloc_array_safe_lem (realloc b.address) n b.sample_type.sample_size)

  reserve-some :
      (b : DfgBuffer) (n p : ℕ)
      → IsValid b
      → 0 < b.num_samples + n
      → b.num_samples + n < word
      → (b.num_samples + n) * b.sample_type.sample_size < word
      → realloc b.address ((b.num_samples + n) * b.sample_type.sample_size) ≡ some p
      → (dst : ℕ) × ((reserve realloc b n).1 ≡ some dst)
  unfolding reserve resize destroy_excess
  reserve-some b n p v pos fits bytes given =
      let size = size_add_safe_lem b.num_samples n in
      elim (Bool-cases (ltb b.max_samples (b.num_samples + n))) [
        | inl l ↦
            let b' = (change_capacity realloc b (b.num_samples + n)).0 in
            let done = change_capacity-done b (b.num_samples + n) p bytes given in
            let grown = change_capacity_lem b (b.num_samples + n) v (omega arith) fits in
            let at =
              element_ptr_lem b' b.num_samples grown.0 (ground (arith, grown.3, done))
                (grown.0.is_object (ground (arith, grown.3, done))) in
            (
              b'.address + b.num_samples * b'.sample_type.sample_size,
              ground (arith, size, l, done, at),
            )
        | inr k ↦
            let at = element_ptr_lem b b.num_samples v v.within (ground (arith, k)) in
            (b.address + b.num_samples * b.sample_type.sample_size, ground (arith, size, k, at))
      ]

  -- Where `realloc` gives an array that lies in the address space, of a size in bytes that is a word, a write of samples to a valid buffer succeeds, save the
  -- write of no samples to an empty buffer.
  pub write-done :
      (b : DfgBuffer) (n : ℕ) (src : List ℕ) (p : ℕ)
      → IsValid b
      → 0 < b.num_samples + n
      → b.num_samples + n < word
      → (b.num_samples + n) * b.sample_type.sample_size < word
      → realloc b.address ((b.num_samples + n) * b.sample_type.sample_size) ≡ some p
      → (write realloc b n src).1 ≡ true
  unfolding write
  write-done b n src p v pos fits bytes given =
      let (dst, e) = reserve-some b n p v pos fits bytes given in
      let le : n * b.sample_type.sample_size ≤ (b.num_samples + n) * b.sample_type.sample_size =
        mul-le-mul_right b.sample_type.sample_size (omega arith) in
      ground (arith, e, le, bytes, size_mul_safe_lem n b.sample_type.sample_size)
