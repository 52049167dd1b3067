-- ===== src/Bsearch.antt =====
-- libaftermath-core/src/bsearch.h: the three binary searches that its macros declare. `probe m` is
-- CMP_EXPR at the element of index `m` and the needle: `lt`, `eq` and `gt` for -1, 0 and 1. Elements
-- are named by their indices, and `none` is NULL. A loop takes fuel; the outer `none` says that it ran
-- out, which the children of this module exclude.
pub mod Any
pub mod First
pub mod Last
mod Index
pub use Index.{Returns, rank, IsMonotone, fuel_for}
unfoldable pub use Index.{center_idx}
use Prim.Native.Nat.{Ordering}
use aftermath.Base.{ℕ, zero, suc, ◌+◌, ◌-◌, Bool, true, false, Option, none, some, leb, ◌==◌}

module _ (num_elements : ℕ) (probe : ℕ → Ordering) where
  -- The loop of AM_DECL_VSTRIDED_BSEARCH_SUFFIX.
  unfoldable pub any_loop : ℕ → ℕ → ℕ → Option (Option ℕ)
  unfolding center_idx
  any_loop zero l r = none
  any_loop (suc fuel) l r =
      let m = center_idx l r in
      elim (leb l r) [
        | false ↦ some none
        | true ↦ elim (probe m) [
          | Ordering.lt ↦ elim (m == num_elements - 1) [
            | true ↦ some none
            | false ↦ any_loop fuel (m + 1) r
          ]
          | Ordering.gt ↦ elim (m == 0) [ true ↦ some none | false ↦ any_loop fuel l (m - 1) ]
          | Ordering.eq ↦ some (some m)
        ]
      ]

  -- AM_DECL_VSTRIDED_BSEARCH_SUFFIX
  unfoldable pub bsearch : Option (Option ℕ)
  unfolding any_loop
  bsearch = elim (num_elements == 0) [
    | true ↦ some none
    | false ↦ any_loop (fuel_for num_elements) 0 (num_elements - 1)
  ]

  -- The loop of AM_DECL_VSTRIDED_BSEARCH_FIRST_SUFFIX; `ret` is the match so far.
  unfoldable pub first_loop : ℕ → ℕ → ℕ → Option ℕ → Option (Option ℕ)
  unfolding center_idx
  first_loop zero l r ret = none
  first_loop (suc fuel) l r ret =
      let m = center_idx l r in
      elim (leb l r) [
        | false ↦ some ret
        | true ↦ elim (probe m) [
          | Ordering.lt ↦ elim (m == num_elements - 1) [
            | true ↦ some ret
            | false ↦ first_loop fuel (m + 1) r ret
          ]
          | Ordering.gt ↦ elim (m == 0) [ true ↦ some ret | false ↦ first_loop fuel l (m - 1) ret ]
          | Ordering.eq ↦ elim (m == 0) [
            | true ↦ some (some m)
            | false ↦ first_loop fuel l (m - 1) (some m)
          ]
        ]
      ]

  -- AM_DECL_VSTRIDED_BSEARCH_FIRST_SUFFIX
  unfoldable pub bsearch_first : Option (Option ℕ)
  unfolding first_loop
  bsearch_first = elim (num_elements == 0) [
    | true ↦ some none
    | false ↦ first_loop (fuel_for num_elements) 0 (num_elements - 1) none
  ]

  -- The loop of AM_DECL_VSTRIDED_BSEARCH_LAST_SUFFIX.
  unfoldable pub last_loop : ℕ → ℕ → ℕ → Option ℕ → Option (Option ℕ)
  unfolding center_idx
  last_loop zero l r ret = none
  last_loop (suc fuel) l r ret =
      let m = center_idx l r in
      elim (leb l r) [
        | false ↦ some ret
        | true ↦ elim (probe m) [
          | Ordering.lt ↦ elim (m == num_elements - 1) [
            | true ↦ some ret
            | false ↦ last_loop fuel (m + 1) r ret
          ]
          | Ordering.gt ↦ elim (m == 0) [ true ↦ some ret | false ↦ last_loop fuel l (m - 1) ret ]
          | Ordering.eq ↦ elim (m == num_elements - 1) [
            | true ↦ some (some m)
            | false ↦ last_loop fuel (m + 1) r (some m)
          ]
        ]
      ]

  -- AM_DECL_VSTRIDED_BSEARCH_LAST_SUFFIX
  unfoldable pub bsearch_last : Option (Option ℕ)
  unfolding last_loop
  bsearch_last = elim (num_elements == 0) [
    | true ↦ some none
    | false ↦ last_loop (fuel_for num_elements) 0 (num_elements - 1) none
  ]
