-- ===== src/DfgBuffer/Shrink.antt =====
-- am_dfg_buffer_shrink: which samples it destroys, and what it leaves.
use native.Mathlib.Nat.{mul-le-mul_right}
use aftermath.Base.{
  ℕ, ◌+◌, ◌-◌, ◌*◌, ◌≤◌, ◌<◌, ◌≡◌, true, Option, some, ◌∷◌, arith, take, if◌then◌else◌, Bool-cases,
  inl, inr,
}
use aftermath.DfgBuffer.{DfgBuffer, destroy_excess, change_capacity, resize, shrink}
use aftermath.DfgBuffer.Samples.{IsValid, element_ptr_lem, alloc_array_safe_lem, take-reallocated}

-- Where `realloc` gives the smaller array, a valid buffer of a type with a destructor shrinks by `n` of its
-- samples to those in front. The destructor is called for `n` samples at the end of the old samples,
-- `num_samples` of them behind the start, which is behind the samples that are lost. A buffer of a type
-- without a destructor shrinks its array alone, and still counts all its samples.
pub shrink_lem :
    (realloc : ℕ → ℕ → Option ℕ) (b : DfgBuffer) (n p : ℕ)
    → IsValid b
    → 0 < n
    → n ≤ b.num_samples
    → realloc b.address ((b.num_samples - n) * b.sample_type.sample_size) ≡ some p
    → let (b', done) = shrink realloc b n in
      (done ≡ true)
      × (b'.max_samples ≡ b.num_samples - n)
      × (take (b.num_samples - n) b'.memory ≡ take (b.num_samples - n) b.memory)
      × (b'.num_samples ≡ (if b.sample_type.destroys then b.num_samples - n else b.num_samples))
      × (b'.destroyed ≡ (
          if b.sample_type.destroys
          then (b.address + b.num_samples * b.sample_type.sample_size, n) ∷ b.destroyed
          else b.destroyed))
unfolding shrink resize destroy_excess change_capacity
shrink_lem realloc b n p v pos h given =
    let at = element_ptr_lem b b.num_samples v v.within (v.is_object (ground (arith))) in
    let le : (b.num_samples - n) * b.sample_type.sample_size
        ≤ b.max_samples * b.sample_type.sample_size =
      mul-le-mul_right b.sample_type.sample_size (omega (arith, v.within)) in
    let alloc =
      alloc_array_safe_lem (realloc b.address) (b.num_samples - n) b.sample_type.sample_size in
    let kept = take-reallocated (b.num_samples - n) (b.num_samples - n) b.memory in
    elim (Bool-cases b.sample_type.destroys) [
      | inl t ↦ ground (arith, t, at, le, alloc, kept, given, v.addressable)
      | inr f ↦ ground (arith, f, le, alloc, kept, given, v.addressable)
    ]
