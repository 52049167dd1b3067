-- ===== src/GrowBuffer.antt =====
-- libaftermath-core/src/buffer.c: arrays that grow by at least a given number of elements. The caller's
-- variables for the array and its counts are one record; an element is opaque and stands as a number,
-- addresses are numbers, and NULL is 0.
pub mod Add
use aftermath.Base.{
  ℕ, ◌+◌, ◌-◌, Bool, true, false, not, Option, none, some, List, [], ◌∷◌, ltb, leb, ◌==◌,
  if◌then◌else◌, set,
}
use aftermath.Base.Words.{add64, sub64}
use aftermath.SafeAlloc.{size_add_safe, array_element_ptr_safe, alloc_array_safe}
use aftermath.DfgBuffer.{reallocated}

-- `*buffer`, the elements behind it, `*used` and `*free`.
pub record GrowBuffer : Type 0 where
  pub address : ℕ
  pub memory : List ℕ
  pub used : ℕ
  pub free : ℕ

-- An address, tested against NULL.
abbrev pub non_null : Option ℕ → Option ℕ
non_null none = none
non_null (some p) = if p == 0 then none else some p

-- The answer of `realloc` for an array at an address and so many bytes: the new address, or NULL.
module _ (realloc : ℕ → ℕ → Option ℕ) where
  -- am_check_buffer_grow_n; `true` is the return value 0.
  unfoldable pub check_buffer_grow_n : GrowBuffer → ℕ → ℕ → ℕ → GrowBuffer × Bool
  check_buffer_grow_n b elem_size n prealloc_elems =
      let alloc = if ltb prealloc_elems (n - b.free) then n - b.free else prealloc_elems in
      if leb n b.free then (b, true) else elim (size_add_safe b.used b.free) [
        | none ↦ (b, false)
        | some old_elements ↦ elim (size_add_safe old_elements alloc) [
          | none ↦ (b, false)
          | some total_elements ↦ elim (size_add_safe b.free alloc) [
            | none ↦ (b, false)
            | some new_free ↦ elim (alloc_array_safe (realloc b.address) total_elements elem_size) [
              | none ↦ (b, false)
              | some ptr ↦ (
                record b {
                  free = new_free;
                  address = ptr;
                  memory = reallocated total_elements b.memory;
                },
                true,
              )
            ]
          ]
        ]
      ]

  -- am_check_buffer_grow
  unfoldable pub check_buffer_grow : GrowBuffer → ℕ → ℕ → GrowBuffer × Bool
  check_buffer_grow b elem_size prealloc_elems = check_buffer_grow_n b elem_size 1 prealloc_elems

  -- am_add_buffer_grow
  unfoldable pub add_buffer_grow : GrowBuffer → ℕ → ℕ → ℕ → GrowBuffer × Bool
  unfolding check_buffer_grow
  add_buffer_grow b elem elem_size prealloc_elems =
      let (b', done) = check_buffer_grow b elem_size prealloc_elems in
      if not done
      then (b', false)
      else elim (non_null (array_element_ptr_safe b'.address b'.used elem_size)) [
        | none ↦ (b', false)
        | some addr ↦
            if elem_size == 0
            then (b', false)
            else elim (non_null (array_element_ptr_safe addr 1 (elem_size - 1))) [
              | none ↦ (b', false)
              | some addr_end ↦ (
                record b' {
                  memory = set b'.memory b'.used elem;
                  free = sub64 b'.free 1;
                  used = add64 b'.used 1;
                },
                true,
              )
            ]
      ]
