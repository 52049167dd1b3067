-- ===== src/IntervalArray/Overlap.antt =====
-- The loop over overlapping elements visits exactly the elements that overlap the query.
use Prim.Native.Nat.{Ordering}
use aftermath.Base.{
  ℕ, zero, suc, ◌+◌, ◌-◌, ◌≤◌, ◌<◌, ◌≡◌, ◌≢◌, refl, ap, true, false, Option, none, some, List, [],
  ◌∷◌, arith, if◌then◌else◌, length, get_or,
}
use aftermath.Base.Words.{word}
use aftermath.Bsearch.{bsearch_first, bsearch_last, Returns, IsMonotone}
use aftermath.Bsearch.First.{IsFirst, bsearch_first-IsFirst}
use aftermath.Bsearch.Last.{IsLast, bsearch_last-IsLast}
use aftermath.Interval.{Interval, overlap_cmp, intersect_p}
use aftermath.Interval.Sets.{overlap_cmp_iff}
use aftermath.IntervalArray.{nowhere, probe, iterator_start, visit, for_each_overlapping}

-- An array whose elements are in order, each with its start before its end, by both ends.
pub record IsSorted (xs : List Interval) : Type 0 where
  pub ordered : (i : ℕ) → i < length xs → (get_or xs i nowhere).start ≤ (get_or xs i nowhere).end
  pub starts :
      (i j : ℕ) → i ≤ j → j < length xs → (get_or xs i nowhere).start ≤ (get_or xs j nowhere).start
  pub ends :
      (i j : ℕ) → i ≤ j → j < length xs → (get_or xs i nowhere).end ≤ (get_or xs j nowhere).end

-- The specification: the elements that intersect the query, in order.
pub overlapping : Interval → List Interval → List Interval
overlapping query [] = []
overlapping query (x ∷ xs) =
    let rest = overlapping query xs in if intersect_p x query then x ∷ rest else rest

probe-IsMonotone :
    (xs : List Interval) (query : Interval)
    → IsSorted xs
    → query.start ≤ query.end
    → IsMonotone (length xs) (probe xs query)
unfolding overlap_cmp
probe-IsMonotone xs query s h i j p q =
    ground (arith, s.ordered i, s.ordered j, s.starts i j p q, s.ends i j p q)

visit-cons :
    (x : Interval) (xs : List Interval) (rounds i : ℕ)
    → visit (x ∷ xs) rounds (suc i) ≡ visit xs rounds i
unfolding visit
visit-cons x xs zero i = refl
visit-cons x xs (suc rounds) i =
    let e : suc i + 1 ≡ suc (i + 1) = omega arith in
    rw e (ap (λ l. get_or xs i nowhere ∷ l) (visit-cons x xs rounds (i + 1)))

-- The elements of the indices s to s + k - 1, where just these intersect the query.
visit-overlapping :
    (query : Interval) (xs : List Interval) (s k : ℕ)
    → s + k ≤ length xs
    → ((i : ℕ) → i < s → intersect_p (get_or xs i nowhere) query ≡ false)
    → ((i : ℕ) → s ≤ i → i < s + k → intersect_p (get_or xs i nowhere) query ≡ true)
    → ((i : ℕ) → s + k ≤ i → i < length xs → intersect_p (get_or xs i nowhere) query ≡ false)
    → visit xs k s ≡ overlapping query xs
unfolding visit overlapping
visit-overlapping query [] s zero h before inside behind = refl
visit-overlapping query [] s (suc k) h before inside behind = absurd (omega arith)
visit-overlapping query (x ∷ xs) (suc s) k h before inside behind =
    rw (before 0 (omega arith), visit-cons x xs k s)
      (visit-overlapping query xs s k (omega arith) (λ i p. before (suc i) (omega arith))
        (λ i p q. inside (suc i) (omega arith) (omega arith))
        (λ i p q. behind (suc i) (omega arith) (omega arith)))
visit-overlapping query (x ∷ xs) zero zero h before inside behind =
    rw (behind 0 (omega arith) (omega arith)) (
      visit-overlapping query xs zero zero (omega arith) (λ i p. absurd (omega arith))
        (λ i p q. absurd (omega arith)) (λ i p q. behind (suc i) (omega arith) (omega arith)))
visit-overlapping query (x ∷ xs) zero (suc k) h before inside behind =
    rw (inside 0 (omega arith) (omega arith), visit-cons x xs k 0)
      (ap (λ l. x ∷ l)
        (visit-overlapping query xs zero k (omega arith) (λ i p. absurd (omega arith))
          (λ i p q. inside (suc i) (omega arith) (omega arith))
          (λ i p q. behind (suc i) (omega arith) (omega arith))))

hit : (a q : Interval) → overlap_cmp a q ≡ Ordering.eq → intersect_p a q ≡ true
hit a q e = (overlap_cmp_iff a q).0 e

miss : (a q : Interval) → overlap_cmp a q ≢ Ordering.eq → intersect_p a q ≡ false
unfolding overlap_cmp intersect_p
miss a q ne = ground arith

module _ (xs : List Interval) (query : Interval) where
  found_none :
      bsearch_first (length xs) (probe xs query) ≡ some none → iterator_start xs query ≡ some none
  unfolding iterator_start
  found_none e = ground arith

  found_some :
      {a b : ℕ}
      → bsearch_first (length xs) (probe xs query) ≡ some (some a)
      → bsearch_last (length xs) (probe xs query) ≡ some (some b)
      → iterator_start xs query ≡ some (some (a, b))
  unfolding iterator_start
  found_some e e' = ground arith

-- On an array sorted by both ends, with fewer than 2^64 elements, and for a query whose start is not
-- behind its end, the loop ends, and visits exactly the elements that intersect the query, each once
-- and in the order of the array.
pub for_each_overlapping_lem :
    (xs : List Interval) (query : Interval)
    → length xs < word
    → IsSorted xs
    → query.start ≤ query.end
    → for_each_overlapping xs query ≡ some (overlapping query xs)
unfolding for_each_overlapping visit
for_each_overlapping_lem xs query small s h =
    go (bsearch_first n p) (bsearch_last n p) refl refl (bsearch_first-IsFirst n p small mono)
      (bsearch_last-IsLast n p small mono)
  where
    n : ℕ
    n = length xs

    p : ℕ → Ordering
    p = probe xs query

    mono : IsMonotone n p
    mono = probe-IsMonotone xs query s h

    go :
        (first last : Option (Option ℕ))
        → bsearch_first n p ≡ first
        → bsearch_last n p ≡ last
        → Returns first (IsFirst n p)
        → Returns last (IsLast n p)
        → for_each_overlapping xs query ≡ some (overlapping query xs)
    go none last ef el f l = elim f [ ]
    go (some none) last ef el f l =
        rw (found_none xs query ef, for_each_overlapping)
          (ap some (
            visit-overlapping query xs 0 0 (omega arith) (λ i q. absurd (omega arith))
              (λ i q r. absurd (omega arith)) (λ i q r. miss (get_or xs i nowhere) query (f i r))))
    go (some (some a)) none ef el f l = elim l [ ]
    go (some (some a)) (some none) ef el f l = absurd (l a f.0 f.1)
    go (some (some a)) (some (some b)) ef el f l =
        let ab : a ≤ b = ground (arith, l.2 a) in
        rw (found_some xs query ef el, for_each_overlapping)
          (ap some (
            visit-overlapping query xs a (b + 1 - a) (omega arith)
              (λ i q. miss (get_or xs i nowhere) query (λ e. cc (f.2 i q)))
              (λ i q r. hit (get_or xs i nowhere) query (ground (arith, mono a i, mono i b)))
              (λ i q r. miss (get_or xs i nowhere) query (λ e. cc (l.2 i (omega arith) r)))))
