-- ===== src/IntervalArray.antt =====
-- libaftermath-core/src/interval_array.h: the loop over the elements of an array whose intervals
-- overlap a query. The array is the list of its interval fields; the strides and offsets by which C
-- finds them are not modelled. The outer `none` says that a search ran out of fuel, which never happens.
pub mod Overlap
use Prim.Native.Nat.{Ordering}
use aftermath.Base.{ℕ, zero, suc, ◌+◌, ◌-◌, Option, none, some, List, [], ◌∷◌, length, get_or}
use aftermath.Bsearch.{bsearch_first, bsearch_last}
use aftermath.Interval.{Interval, overlap_cmp}

abbrev pub nowhere : Interval
nowhere = record { start = 0; end = 0 }

-- The comparison of the searches `_overlapping`, at the element of index `m`.
abbrev pub probe : List Interval → Interval → ℕ → Ordering
probe xs query m = overlap_cmp (get_or xs m nowhere) query

-- am_interval_array_iterator_start: the indices of the first and of the last overlapping element. The
-- second search is made only where the first has a result; `end` is not set otherwise.
unfoldable pub iterator_start : List Interval → Interval → Option (Option (ℕ × ℕ))
iterator_start xs query = elim (bsearch_first (length xs) (probe xs query)) [
  | none ↦ none
  | some none ↦ some none
  | some (some first) ↦ elim (bsearch_last (length xs) (probe xs query)) [
    | none ↦ none
    | some none ↦ none
    | some (some last) ↦ some (some (first, last))
  ]
]

-- The elements at the indices i, i + 1, …, of which `rounds` are left.
unfoldable pub visit : List Interval → ℕ → ℕ → List Interval
visit xs zero i = []
visit xs (suc rounds) i = get_or xs i nowhere ∷ visit xs rounds (i + 1)

-- am_interval_array_for_each_overlapping: the elements that the loop visits, in order.
unfoldable pub for_each_overlapping : List Interval → Interval → Option (List Interval)
for_each_overlapping xs query = elim (iterator_start xs query) [
  | none ↦ none
  | some none ↦ some []
  | some (some (first, last)) ↦ some (visit xs (last + 1 - first) first)
]
