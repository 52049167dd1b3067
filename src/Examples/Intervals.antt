-- ===== src/Examples/Intervals.antt =====
-- bsearch.h, interval.h and interval_array.h at concrete inputs.
use Prim.Native.Nat.{Ordering, compare}
use aftermath.Base.{
  ℕ, ◌+◌, ◌-◌, ◌*◌, ◌/◌, ◌≤◌, ◌<◌, ◌≡◌, ◌≢◌, ◌↔◌, ◌⊎◌, refl, none, some, List, [], ◌∷◌, arith,
}
use aftermath.Bsearch.{bsearch, bsearch_first, bsearch_last, Returns, IsMonotone}
use aftermath.Bsearch.Any.{IsMatch, bsearch-IsMatch}
use aftermath.Bsearch.First.{IsFirst, bsearch_first-IsFirst}
use aftermath.Bsearch.Last.{IsLast, bsearch_last-IsLast}
use aftermath.Interval.{Interval, IsInterval, shrink_u}
use aftermath.Interval.Moves.{shrink_u-ordered}
use aftermath.IntervalArray.{for_each_overlapping}
use aftermath.IntervalArray.Overlap.{IsSorted, overlapping, for_each_overlapping_lem}

-- The elements 0, 0, 1, 1, 1, 2 against the needle 1.
abbrev against_one : ℕ → Ordering
against_one i = compare ((i + 1) / 3) 1

against_one-IsMonotone : IsMonotone 6 against_one
against_one-IsMonotone i j p q = ground (arith, p)

bsearch_results :
    (bsearch 6 against_one ≡ some (some 2))
    × (bsearch_first 6 against_one ≡ some (some 2))
    × (bsearch_last 6 against_one ≡ some (some 4))
    × (bsearch_first 6 (λ i. compare ((i + 1) / 3) 3) ≡ some none)
unfolding bsearch bsearch_first bsearch_last
bsearch_results = (refl, refl, refl, refl)

bsearch-IsMatch_example : Returns (bsearch 6 against_one) (IsMatch 6 against_one)
bsearch-IsMatch_example = bsearch-IsMatch 6 against_one (omega arith) against_one-IsMonotone

bsearch_first-IsFirst_example : Returns (bsearch_first 6 against_one) (IsFirst 6 against_one)
bsearch_first-IsFirst_example =
    bsearch_first-IsFirst 6 against_one (omega arith) against_one-IsMonotone

bsearch_last-IsLast_example : Returns (bsearch_last 6 against_one) (IsLast 6 against_one)
bsearch_last-IsLast_example = bsearch_last-IsLast 6 against_one (omega arith) against_one-IsMonotone

abbrev from_to : ℕ → ℕ → Interval
from_to s e = record { start = s; end = e }

abbrev three : List Interval
three = from_to 0 3 ∷ from_to 2 5 ∷ from_to 8 9 ∷ []

below_three : (i : ℕ) → i < 3 → (i ≡ 0) ⊎ (i ≡ 1) ⊎ (i ≡ 2)
below_three i h = ground (arith, h)

three-IsSorted : IsSorted three
three-IsSorted = record {
  ordered = λ i h. ground (arith, below_three i h);
  starts = λ i j p h. ground (arith, p, below_three i (omega (arith, p, h)), below_three j h);
  ends = λ i j p h. ground (arith, p, below_three i (omega (arith, p, h)), below_three j h);
}

for_each_overlapping_lem_example :
    for_each_overlapping three (from_to 4 8) ≡ some (overlapping (from_to 4 8) three)
for_each_overlapping_lem_example =
    for_each_overlapping_lem three (from_to 4 8) (omega arith) three-IsSorted (omega arith)

four_to_nine-IsInterval : IsInterval (from_to 4 9)
four_to_nine-IsInterval = record { ordered = omega arith; is_word = omega arith }

shrunk_by_half : (shrink_u (from_to 4 9) 3).0 ≡ from_to 7 6
unfolding shrink_u
shrunk_by_half = refl

shrink_u-ordered_example :
    let j = (shrink_u (from_to 4 9) 3).0 in (j.start ≤ j.end) ↔ (2 * 3 ≢ 9 - 4 + 1)
shrink_u-ordered_example =
    shrink_u-ordered (from_to 4 9) 3 four_to_nine-IsInterval (omega arith) (omega arith)
