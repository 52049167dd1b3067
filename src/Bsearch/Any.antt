-- ===== src/Bsearch/Any.antt =====
-- The plain search: on sorted elements it ends, and finds a match if there is one.
use Prim.Native.Nat.{Ordering}
use aftermath.Base.{
  ℕ, zero, suc, ◌+◌, ◌-◌, ◌≤◌, ◌<◌, ◌≡◌, ◌≢◌, Option, none, some, inl, inr, arith, leb, ◌==◌,
  Bool-cases,
}
use aftermath.Base.Words.{word}
use aftermath.Bsearch.Index.{
  center_idx, IsMonotone, fuel_for, Returns, Ordering-cases, center_idx_within, below_lt, above_gt,
}
use aftermath.Bsearch.{any_loop, bsearch}

-- `res` is the index of a match below `n`, or there is no match.
abbrev pub IsMatch : ℕ → (ℕ → Ordering) → Option ℕ → Type 0
IsMatch n probe none = (i : ℕ) → i < n → probe i ≢ Ordering.eq
IsMatch n probe (some k) = (k < n) × (probe k ≡ Ordering.eq)

module _ (n : ℕ) (probe : ℕ → Ordering) (is_size : n < word) (sorted : IsMonotone n probe) where
  any_loop-IsMatch :
      (fuel l r : ℕ)
      → r < n
      → l ≤ r + 1
      → r + 1 - l < fuel
      → ((i : ℕ) → i < l → probe i ≡ Ordering.lt)
      → ((i : ℕ) → r < i → i < n → probe i ≡ Ordering.gt)
      → Returns (any_loop n probe fuel l r) (IsMatch n probe)
  unfolding any_loop
  any_loop-IsMatch zero l r hr hl hf left right = absurd (omega arith)
  any_loop-IsMatch (suc fuel) l r hr hl hf left right =
      let m = center_idx l r in
      elim (Bool-cases (leb l r)) [
        | inr empty ↦ rw (Returns, empty) (λ i hi. ground (arith, left i, right i))
        | inl more ↦
            let lr : l ≤ r = ground arith in
            let within = center_idx_within l r lr (omega arith) in
            elim (Ordering-cases (probe m)) [
              | inl below ↦ elim (Bool-cases (m == n - 1)) [
                | inl last ↦
                    rw (Returns, more, below, last)
                      (λ i hi. ground (arith, below_lt n probe sorted m i))
                | inr inside ↦
                    rw (Returns, more, below, inside)
                      (any_loop-IsMatch fuel (m + 1) r hr (omega arith) (omega arith)
                        (λ i hi. below_lt n probe sorted m i (omega arith) below (omega arith))
                        right)
              ]
              | inr (inl hit) ↦ rw (Returns, more, hit) (omega arith, hit)
              | inr (inr above) ↦ elim (Bool-cases (m == 0)) [
                | inl first ↦
                    rw (Returns, more, above, first)
                      (λ i hi. ground (arith, above_gt n probe sorted m i))
                | inr inside ↦
                    rw (Returns, more, above, inside)
                      (any_loop-IsMatch fuel l (m - 1) (omega arith) (ground arith) (ground arith)
                        left (λ i hi hn. above_gt n probe sorted m i hn above (omega arith)))
              ]
            ]
      ]

  -- On fewer than 2^64 elements, sorted for the needle, the plain search ends. It returns the index of a match, and NULL
  -- exactly where no element matches.
  pub bsearch-IsMatch : Returns (bsearch n probe) (IsMatch n probe)
  unfolding bsearch
  bsearch-IsMatch = elim (Bool-cases (n == 0)) [
    | inl nothing ↦ rw (Returns, nothing) (λ i hi. absurd (ground arith))
    | inr something ↦
        rw (Returns, something)
          (any_loop-IsMatch (fuel_for n) 0 (n - 1) (ground arith) (ground arith) (ground arith)
            (λ i hi. absurd (omega arith)) (λ i hi hn. absurd (ground arith)))
  ]
