-- ===== src/DfgBuffer/Read.antt =====
-- am_dfg_buffer_get, which the reads of a buffer go through.
use native.Mathlib.Nat.{mul-le-mul_right}
use aftermath.Base.{
  ℕ, zero, suc, ◌+◌, ◌*◌, ◌≤◌, ◌<◌, ◌≡◌, refl, none, some, List, [], ◌∷◌, arith, take, drop, leb,
  if◌then◌else◌, Bool-cases, Option-cases, inl, inr,
}
use aftermath.SafeAlloc.Exact.{size_mul_safe_lem}
use aftermath.DfgBuffer.{DfgBuffer, element_ptr, get}
use aftermath.DfgBuffer.Samples.{IsValid, samples, take-take, element_ptr_lem}

take-drop-take :
    (n k m : ℕ) (xs : List ℕ) → k + n ≤ m → take n (drop k (take m xs)) ≡ take n (drop k xs)
take-drop-take n zero m xs h = take-take n m xs (omega (arith, h))
take-drop-take n (suc k) zero xs h = absurd (omega (arith, h))
take-drop-take n (suc k) (suc m) [] h = refl
take-drop-take n (suc k) (suc m) (x ∷ xs) h = take-drop-take n k m xs (omega (arith, h))

-- A read of samples in a valid buffer with an array gives exactly those that are asked for, and fails
-- exactly where there are fewer of them.
pub get_lem :
    (b : DfgBuffer) (offset n : ℕ)
    → IsValid b
    → 0 < b.max_samples
    → get b offset n
      ≡ (if leb (offset + n) b.num_samples then some (take n (drop offset (samples b))) else none)
unfolding get
get_lem b offset n v pos = elim (Bool-cases (leb (offset + n) b.num_samples)) [
  | inl t ↦
      let at = element_ptr_lem b offset v (ground (arith, t)) (v.is_object pos) in
      let le : n * b.sample_type.sample_size ≤ b.max_samples * b.sample_type.sample_size =
        mul-le-mul_right b.sample_type.sample_size (ground (arith, t)) in
      ground (
        arith,
        t,
        at,
        le,
        v.addressable,
        size_mul_safe_lem n b.sample_type.sample_size,
        take-drop-take n offset b.num_samples b.memory,
      )
  | inr f ↦ elim (Option-cases (element_ptr b offset)) [
    | inl e ↦ ground (arith, f, e)
    | inr (p, e) ↦ ground (arith, f, e)
  ]
]
