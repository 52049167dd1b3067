-- ===== src/Bsearch/Last.antt =====
-- The search for the last match: on sorted elements it ends, and finds the last match if there is one.
use Prim.Native.Nat.{Ordering}
use aftermath.Base.{
  ℕ, zero, suc, ◌+◌, ◌-◌, ◌≤◌, ◌<◌, ◌≡◌, ◌≢◌, Option, none, some, inl, inr, arith, leb, ◌==◌,
  Bool-cases,
}
use aftermath.Base.Words.{word}
use aftermath.Bsearch.Index.{
  center_idx, IsMonotone, fuel_for, Returns, Ordering-cases, center_idx_within, below_lt, above_gt,
}
use aftermath.Bsearch.{last_loop, bsearch_last}

-- `res` is the index of the last match below `n`, or there is no match.
abbrev pub IsLast : ℕ → (ℕ → Ordering) → Option ℕ → Type 0
IsLast n probe none = (i : ℕ) → i < n → probe i ≢ Ordering.eq
IsLast n probe (some k) =
    (k < n) × (probe k ≡ Ordering.eq) × ((i : ℕ) → k < i → i < n → probe i ≡ Ordering.gt)

-- What the loop knows of the elements left of [l, r]; `ret` is the match left of the range.
abbrev Left : ℕ → (ℕ → Ordering) → ℕ → Option ℕ → Type 0
Left n probe l none = (i : ℕ) → i < l → probe i ≡ Ordering.lt
Left n probe l (some k) = (l ≡ k + 1) × (k < n) × (probe k ≡ Ordering.eq)

module _ (n : ℕ) (probe : ℕ → Ordering) (is_size : n < word) (sorted : IsMonotone n probe) where
  -- Where the range is empty, `ret` is the answer.
  stop :
      (l r : ℕ) (ret : Option ℕ)
      → l ≡ r + 1
      → Left n probe l ret
      → ((i : ℕ) → r < i → i < n → probe i ≡ Ordering.gt)
      → IsLast n probe ret
  stop l r none e left right = λ i hi. ground (arith, left i, right i)
  stop l r (some k) e left right =
      let (at, within, hit) = left in (within, hit, λ i hi hn. right i (omega arith) hn)

  Left-lt :
      (m l : ℕ) (ret : Option ℕ)
      → probe m ≡ Ordering.lt
      → l ≤ m
      → m < n
      → Left n probe l ret
      → Left n probe (m + 1) ret
  Left-lt m l none e p h left = λ i hi. below_lt n probe sorted m i h e (omega arith)
  Left-lt m l (some k) e p h left = absurd (ground (arith, sorted k m))

  Left-zero :
      (m l : ℕ) (ret : Option ℕ)
      → probe m ≡ Ordering.gt
      → m ≡ 0
      → l ≤ m
      → Left n probe l ret
      → IsLast n probe ret
  Left-zero m l none e z p left = λ i hi. ground (arith, above_gt n probe sorted m i)
  Left-zero m l (some k) e z p left = absurd (omega arith)

  Left-end :
      (m l : ℕ) (ret : Option ℕ)
      → probe m ≡ Ordering.lt
      → m ≡ n - 1
      → m < n
      → l ≤ m
      → Left n probe l ret
      → IsLast n probe ret
  Left-end m l none e z h p left = λ i hi. ground (arith, below_lt n probe sorted m i)
  Left-end m l (some k) e z h p left = absurd (ground (arith, sorted k m))

  last_loop-IsLast :
      (fuel l r : ℕ) (ret : Option ℕ)
      → r < n
      → l ≤ r + 1
      → r + 1 - l < fuel
      → Left n probe l ret
      → ((i : ℕ) → r < i → i < n → probe i ≡ Ordering.gt)
      → Returns (last_loop n probe fuel l r ret) (IsLast n probe)
  unfolding last_loop
  last_loop-IsLast zero l r ret hr hl hf left right = absurd (omega arith)
  last_loop-IsLast (suc fuel) l r ret hr hl hf left right =
      let m = center_idx l r in
      elim (Bool-cases (leb l r)) [
        | inr empty ↦ rw (Returns, empty) (stop l r ret (ground arith) left right)
        | inl more ↦
            let lr : l ≤ r = ground arith in
            let within = center_idx_within l r lr (omega arith) in
            elim (Ordering-cases (probe m)) [
              | inl below ↦ elim (Bool-cases (m == n - 1)) [
                | inl last ↦
                    rw (Returns, more, below, last)
                      (Left-end m l ret below (ground arith) (omega arith) (omega arith) left)
                | inr inside ↦
                    rw (Returns, more, below, inside)
                      (last_loop-IsLast fuel (m + 1) r ret hr (omega arith) (omega arith)
                        (Left-lt m l ret below (omega arith) (omega arith) left) right)
              ]
              | inr (inl hit) ↦ elim (Bool-cases (m == n - 1)) [
                | inl last ↦
                    rw (Returns, more, hit, last)
                      (omega arith, hit, λ i hi hn. absurd (ground arith))
                | inr inside ↦
                    rw (Returns, more, hit, inside)
                      (last_loop-IsLast fuel (m + 1) r (some m) hr (omega arith) (omega arith)
                        (ground arith) right)
              ]
              | inr (inr above) ↦ elim (Bool-cases (m == 0)) [
                | inl first ↦
                    rw (Returns, more, above, first)
                      (Left-zero m l ret above (ground arith) (omega arith) left)
                | inr inside ↦
                    rw (Returns, more, above, inside)
                      (last_loop-IsLast fuel l (m - 1) ret (omega arith) (ground arith)
                        (ground arith) left
                        (λ i hi hn. above_gt n probe sorted m i hn above (omega arith)))
              ]
            ]
      ]

  -- On fewer than 2^64 elements, sorted for the needle, the search for the last match ends. It returns the index of the
  -- last match, and NULL exactly where no element matches.
  pub bsearch_last-IsLast : Returns (bsearch_last n probe) (IsLast n probe)
  unfolding bsearch_last
  bsearch_last-IsLast = elim (Bool-cases (n == 0)) [
    | inl nothing ↦ rw (Returns, nothing) (λ i hi. absurd (ground arith))
    | inr something ↦
        rw (Returns, something)
          (last_loop-IsLast (fuel_for n) 0 (n - 1) none (ground arith) (ground arith) (ground arith)
            (λ i hi. absurd (omega arith)) (λ i hi hn. absurd (ground arith)))
  ]
