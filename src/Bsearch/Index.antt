-- ===== src/Bsearch/Index.antt =====
-- What the searches of bsearch.h share: the middle index, the order of the answers, and the fuel.
use Prim.Native.Nat.{Ordering}
use aftermath.Base.{ℕ, ◌+◌, ◌/◌, ◌%◌, ◌≤◌, ◌<◌, ◌≡◌, Option, none, some, arith, refl, ◌⊎◌, inl, inr}
use aftermath.Base.Words.{word, add64}

-- am_bsearch_safe_center_idx
unfoldable pub center_idx : ℕ → ℕ → ℕ
center_idx a b = add64 (add64 (a / 2) (b / 2)) ((a % 2 + b % 2) / 2)

-- The computation of the middle index does not wrap: it gives half the sum of any two words.
pub center_idx_lem : (a b : ℕ) → a < word → b < word → center_idx a b ≡ (a + b) / 2
unfolding center_idx
center_idx_lem a b ha hb = omega arith

-- The answers of a comparison in order.
abbrev pub rank : Ordering → ℕ
rank Ordering.lt = 0
rank Ordering.eq = 1
rank Ordering.gt = 2

-- The elements are sorted as far as the needle can tell: first those below, then the matches, then
-- those above.
abbrev pub IsMonotone : ℕ → (ℕ → Ordering) → Type 0
IsMonotone n probe = (i j : ℕ) → i ≤ j → j < n → rank (probe i) ≤ rank (probe j)

-- Each round takes an index off the range, so a round for each element and one to end are enough.
abbrev pub fuel_for : ℕ → ℕ
fuel_for n = n + 1

-- The loop ends, with a result that satisfies `P`.
abbrev pub Returns {ℓ} : {A : Type ℓ} → Option A → (A → Type 0) → Type 0
Returns none P = ⊥
Returns (some r) P = P r

pub Ordering-cases : (o : Ordering) → (o ≡ Ordering.lt) ⊎ (o ≡ Ordering.eq) ⊎ (o ≡ Ordering.gt)
Ordering-cases Ordering.lt = inl refl
Ordering-cases Ordering.eq = inr (inl refl)
Ordering-cases Ordering.gt = inr (inr refl)

-- The middle of a range lies in it.
pub center_idx_within : (l r : ℕ) → l ≤ r → r < word → (l ≤ center_idx l r) × (center_idx l r ≤ r)
center_idx_within l r h hr = omega (arith, center_idx_lem l r)

module _ (n : ℕ) (probe : ℕ → Ordering) (sorted : IsMonotone n probe) where
  pub below_lt : (m i : ℕ) → m < n → probe m ≡ Ordering.lt → i ≤ m → probe i ≡ Ordering.lt
  below_lt m i h e p = ground (arith, sorted i m)

  pub above_gt : (m i : ℕ) → i < n → probe m ≡ Ordering.gt → m ≤ i → probe i ≡ Ordering.gt
  above_gt m i h e p = ground (arith, sorted m i)
