-- ===== src/Bsearch/First.antt =====
-- The search for the first match: on sorted elements it ends, and finds the first match if there is one.
use Prim.Native.Nat.{Ordering}
use aftermath.Base.{
  ℕ, zero, suc, ◌+◌, ◌-◌, ◌≤◌, ◌<◌, ◌≡◌, ◌≢◌, Option, none, some, inl, inr, arith, leb, ◌==◌,
  Bool-cases,
}
use aftermath.Base.Words.{word}
use aftermath.Bsearch.Index.{
  center_idx, IsMonotone, fuel_for, Returns, Ordering-cases, center_idx_within, below_lt, above_gt,
}
use aftermath.Bsearch.{first_loop, bsearch_first}

-- `res` is the index of the first match below `n`, or there is no match.
abbrev pub IsFirst : ℕ → (ℕ → Ordering) → Option ℕ → Type 0
IsFirst n probe none = (i : ℕ) → i < n → probe i ≢ Ordering.eq
IsFirst n probe (some k) =
    (k < n) × (probe k ≡ Ordering.eq) × ((i : ℕ) → i < k → probe i ≡ Ordering.lt)

-- What the loop knows of the elements outside of [l, r]; `ret` is the match right of the range.
abbrev Right : ℕ → (ℕ → Ordering) → ℕ → Option ℕ → Type 0
Right n probe r none = (i : ℕ) → r < i → i < n → probe i ≡ Ordering.gt
Right n probe r (some k) = (k ≡ r + 1) × (k < n) × (probe k ≡ Ordering.eq)

module _ (n : ℕ) (probe : ℕ → Ordering) (is_size : n < word) (sorted : IsMonotone n probe) where
  -- Where the range is empty, `ret` is the answer.
  stop :
      (l : ℕ) (ret : Option ℕ)
      → ((i : ℕ) → i < l → probe i ≡ Ordering.lt)
      → ((r : ℕ) → l ≡ r + 1 → Right n probe r ret)
      → 0 < l
      → IsFirst n probe ret
  stop l none left right h = λ i hi. ground (arith, left i, right (l - 1) (omega arith) i)
  stop l (some k) left right h =
      let (at, within, hit) = right (l - 1) (omega arith) in
      (within, hit, λ i hi. left i (omega arith))

  Right-gt :
      (m r : ℕ) (ret : Option ℕ)
      → probe m ≡ Ordering.gt
      → m ≤ r
      → 0 < m
      → Right n probe r ret
      → Right n probe (m - 1) ret
  Right-gt m r none e h p right = λ i hi hn. above_gt n probe sorted m i hn e (omega arith)
  Right-gt m r (some k) e h p right = absurd (ground (arith, sorted m k))

  Right-zero :
      (m r : ℕ) (ret : Option ℕ)
      → probe m ≡ Ordering.gt
      → m ≡ 0
      → Right n probe r ret
      → IsFirst n probe ret
  Right-zero m r none e z right = λ i hi. ground (arith, above_gt n probe sorted m i)
  Right-zero m r (some k) e z right = absurd (ground (arith, sorted m k))

  Right-last :
      (m r : ℕ) (ret : Option ℕ)
      → probe m ≡ Ordering.lt
      → m ≡ n - 1
      → m < n
      → Right n probe r ret
      → IsFirst n probe ret
  Right-last m r none e z h right = λ i hi. ground (arith, below_lt n probe sorted m i)
  Right-last m r (some k) e z h right = absurd (ground (arith, sorted k m))

  first_loop-IsFirst :
      (fuel l r : ℕ) (ret : Option ℕ)
      → r < n
      → l ≤ r + 1
      → r + 1 - l < fuel
      → ((i : ℕ) → i < l → probe i ≡ Ordering.lt)
      → Right n probe r ret
      → Returns (first_loop n probe fuel l r ret) (IsFirst n probe)
  unfolding first_loop
  first_loop-IsFirst zero l r ret hr hl hf left right = absurd (omega arith)
  first_loop-IsFirst (suc fuel) l r ret hr hl hf left right =
      let m = center_idx l r in
      elim (Bool-cases (leb l r)) [
        | inr empty ↦
            rw (Returns, empty)
              (stop l ret left (λ r' e. let e' : r ≡ r' = ground arith in rw (← e') right)
                (ground arith))
        | inl more ↦
            let lr : l ≤ r = ground arith in
            let within = center_idx_within l r lr (omega arith) in
            elim (Ordering-cases (probe m)) [
              | inl below ↦ elim (Bool-cases (m == n - 1)) [
                | inl last ↦
                    rw (Returns, more, below, last)
                      (Right-last m r ret below (ground arith) (omega arith) right)
                | inr inside ↦
                    rw (Returns, more, below, inside)
                      (first_loop-IsFirst fuel (m + 1) r ret hr (omega arith) (omega arith)
                        (λ i hi. below_lt n probe sorted m i (omega arith) below (omega arith))
                        right)
              ]
              | inr (inl hit) ↦ elim (Bool-cases (m == 0)) [
                | inl first ↦
                    rw (Returns, more, hit, first) (omega arith, hit, λ i hi. absurd (ground arith))
                | inr inside ↦
                    rw (Returns, more, hit, inside)
                      (first_loop-IsFirst fuel l (m - 1) (some m) (omega arith) (ground arith)
                        (ground arith) left (ground arith))
              ]
              | inr (inr above) ↦ elim (Bool-cases (m == 0)) [
                | inl first ↦
                    rw (Returns, more, above, first) (Right-zero m r ret above (ground arith) right)
                | inr inside ↦
                    rw (Returns, more, above, inside)
                      (first_loop-IsFirst fuel l (m - 1) ret (omega arith) (ground arith)
                        (ground arith) left
                        (Right-gt m r ret above (omega arith) (ground arith) right))
              ]
            ]
      ]

  -- On fewer than 2^64 elements, sorted for the needle, the search for the first match ends. It returns the index of the
  -- first match, and NULL exactly where no element matches.
  pub bsearch_first-IsFirst : Returns (bsearch_first n probe) (IsFirst n probe)
  unfolding bsearch_first
  bsearch_first-IsFirst = elim (Bool-cases (n == 0)) [
    | inl nothing ↦ rw (Returns, nothing) (λ i hi. absurd (ground arith))
    | inr something ↦
        rw (Returns, something)
          (first_loop-IsFirst (fuel_for n) 0 (n - 1) none (ground arith) (ground arith)
            (ground arith) (λ i hi. absurd (omega arith)) (λ i hi hn. absurd (omega arith)))
  ]
