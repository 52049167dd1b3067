-- ===== src/CircularBuffer.antt =====
-- libaftermath-core/src/circular_buffer.h, as circular_buffer_size.h declares it: a buffer of indices
-- that keeps the last ones pushed. The array is a list of `size` entries.
pub mod Pop
use aftermath.Base.{
  ℕ, ◌%◌, Bool, true, false, not, Option, none, some, List, ◌==◌, if◌then◌else◌, get_or,
  set as set_elem,
}
use aftermath.Base.Words.{add64, sub64}

-- `struct am_circular_buffer_size`
pub record CircularBuffer : Type 0 where
  pub size : ℕ
  pub entries : List ℕ
  pub start_idx : ℕ
  pub end_idx : ℕ

-- am_circular_buffer_size_static_init
unfoldable pub static_init : ℕ → List ℕ → CircularBuffer
static_init size entries = record { size = size; entries = entries; start_idx = 0; end_idx = 0 }

-- am_circular_buffer_size_set
unfoldable pub set : CircularBuffer → ℕ → CircularBuffer
set c idx = record c { entries = set_elem c.entries c.end_idx idx }

-- am_circular_buffer_size_push
unfoldable pub push : CircularBuffer → ℕ → CircularBuffer
unfolding set
push c idx =
    let end_idx = add64 c.end_idx 1 % c.size in
    let next_start = add64 c.start_idx 1 % c.size in
    set
      (record c {
        end_idx = end_idx;
        start_idx = if end_idx == next_start then next_start else c.start_idx;
      })
      idx

-- am_circular_buffer_size_top
unfoldable pub top : CircularBuffer → ℕ
top c = get_or c.entries (sub64 (add64 c.end_idx c.size) 1 % c.size) 0

-- am_circular_buffer_size_pop; `none` is the return value 1. The value of am_circular_buffer_size_top is
-- overwritten before anyone sees it.
unfoldable pub pop : CircularBuffer → CircularBuffer × Option ℕ
pop c =
    let end_idx = sub64 (add64 c.end_idx c.size) 1 % c.size in
    if not (c.end_idx == c.start_idx)
    then (record c { end_idx = end_idx }, some (get_or c.entries end_idx 0))
    else (c, none)
