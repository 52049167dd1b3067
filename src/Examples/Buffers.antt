-- ===== src/Examples/Buffers.antt =====
-- write_buffer.c, dfg_buffer.c, buffer.c and circular_buffer.h at concrete inputs.
use aftermath.Base.{
  ltb, not, ◌&&◌, ℕ, ◌+◌, ◌*◌, ◌<◌, ◌≡◌, refl, Bool, true, false, Option, none, some, List, [], ◌∷◌,
  ◌++◌, arith, leb, if◌then◌else◌, length, take,
}
use aftermath.Base.Words.{word}
use aftermath.CircularBuffer
use aftermath.CircularBuffer.{CircularBuffer}
use aftermath.CircularBuffer.Pop
use aftermath.CircularBuffer.Pop.{pop-fails}
use aftermath.GrowBuffer
use aftermath.GrowBuffer.{GrowBuffer, add_buffer_grow}
use aftermath.GrowBuffer.Add
use aftermath.GrowBuffer.Add.{elements, add_buffer_grow_lem}
use aftermath.SafeAlloc
use aftermath.WriteBuffer.{WriteBuffer, write_bytes, dump_fp}
use aftermath.WriteBuffer.Log
use aftermath.WriteBuffer.Log.{
  contents, write_bytes_lem, dump_fp_lem, Op, write, dump, run, log_run, run_refines,
}
use aftermath.DfgBuffer
use aftermath.DfgBuffer.{SampleType, DfgBuffer, get, shrink}
use aftermath.DfgBuffer.Samples
use aftermath.DfgBuffer.Samples.{samples, write_lem, write-done}
use aftermath.DfgBuffer.Read.{get_lem}
use aftermath.DfgBuffer.Shrink.{shrink_lem}

-- A file that takes at most four bytes in all.
abbrev small_file : List ℕ → List ℕ → List ℕ × Bool
small_file bs fp = if leb (length fp + length bs) 4 then (fp ++ bs, true) else (fp, false)

abbrev three_free : WriteBuffer
three_free = record { bytes = 7 ∷ 0 ∷ 0 ∷ 0 ∷ []; size = 4; used = 1 }

three_free-IsValid : Log.IsValid three_free
three_free-IsValid = record { memory = refl; within = omega arith; is_size = omega arith }

-- The second write is refused, and the second dump fails.
abbrev script : List Op
script =
    write (1 ∷ 2 ∷ [])
    ∷ write (3 ∷ 4 ∷ [])
    ∷ dump
    ∷ dump
    ∷ write (5 ∷ 6 ∷ [])
    ∷ dump
    ∷ write []
    ∷ []

script-run :
    run small_file three_free [] script
    ≡ (true ∷ false ∷ true ∷ true ∷ true ∷ false ∷ true ∷ [], 5 ∷ 6 ∷ [], 7 ∷ 1 ∷ 2 ∷ [])
unfolding run write_bytes dump_fp
script-run = refl

run_refines_example : run small_file three_free [] script ≡ log_run 4 small_file (7 ∷ []) [] script
run_refines_example = run_refines small_file three_free [] script three_free-IsValid

-- Memory at one place for at most a page.
abbrev page : ℕ → ℕ → Option ℕ
page old n = if leb n 4096 then some 8192 else none

page_gives : (old n p : ℕ) → page old n ≡ some p → (0 < p) × (p + n < word)
page_gives old n p e = ground (arith, e)

abbrev doubles : SampleType
doubles = record { address = 1; sample_size = 8; destroys = false }

abbrev strings : SampleType
strings = record { address = 2; sample_size = 8; destroys = true }

-- Two samples and no room for a third.
abbrev two : SampleType → DfgBuffer
two t = record {
  sample_type = t;
  num_samples = 2;
  max_samples = 2;
  address = 4096;
  memory = 5 ∷ 6 ∷ [];
  num_refs = 1;
  destroyed = [];
}

two-IsValid : (t : SampleType) → t.sample_size ≡ 8 → Samples.IsValid (two t)
two-IsValid t e = record {
  room = refl;
  within = omega arith;
  is_size = omega arith;
  addressable = omega (arith, e);
  is_object = λ h. omega arith;
}

two_written : samples (DfgBuffer.write page (two doubles) 2 (7 ∷ 8 ∷ 9 ∷ [])).0 ≡ 5 ∷ 6 ∷ 7 ∷ 8 ∷ []
unfolding DfgBuffer.write DfgBuffer.reserve DfgBuffer.resize DfgBuffer.change_capacity
    DfgBuffer.destroy_excess DfgBuffer.element_ptr SafeAlloc.size_mul_safe SafeAlloc.size_add_safe
    SafeAlloc.alloc_array_safe SafeAlloc.array_element_ptr_safe
two_written = refl

write_lem_example :
    let (b', done) = DfgBuffer.write page (two doubles) 2 (7 ∷ 8 ∷ 9 ∷ []) in
    Samples.IsValid b' × (samples b' ≡ (if done then 5 ∷ 6 ∷ 7 ∷ 8 ∷ [] else 5 ∷ 6 ∷ []))
write_lem_example =
    write_lem page page_gives (two doubles) 2 (7 ∷ 8 ∷ 9 ∷ []) (two-IsValid doubles refl)
      (omega arith) (omega arith)

write-done_example : (DfgBuffer.write page (two doubles) 2 (7 ∷ 8 ∷ 9 ∷ [])).1 ≡ true
write-done_example =
    write-done page page_gives (two doubles) 2 (7 ∷ 8 ∷ 9 ∷ []) 8192 (two-IsValid doubles refl)
      (omega arith) (omega arith) (omega arith) refl

get_lem_example : get (two doubles) 1 1 ≡ (if leb (1 + 1) 2 then some (6 ∷ []) else none)
get_lem_example = get_lem (two doubles) 1 1 (two-IsValid doubles refl) (omega arith)

shrink_lem_example :
    let (b', done) = shrink page (two strings) 1 in
    (done ≡ true)
    × (b'.max_samples ≡ 1)
    × (take 1 b'.memory ≡ 5 ∷ [])
    × (b'.num_samples ≡ 1)
    × (b'.destroyed ≡ (4096 + 2 * 8, 1) ∷ [])
shrink_lem_example =
    shrink_lem page (two strings) 1 8192 (two-IsValid strings refl) (omega arith) (omega arith) refl

-- The index 5 is pushed and asked for again.
abbrev pushed_index : List Pop.Op
pushed_index = Pop.Op.do_push 5 ∷ Pop.Op.do_set 6 ∷ Pop.Op.do_push 7 ∷ Pop.Op.do_pop ∷ []

pop-fails_example :
    let (c, answers) = Pop.run (CircularBuffer.static_init 4 (0 ∷ 0 ∷ 0 ∷ 0 ∷ [])) pushed_index in
    (answers ≡ none ∷ []) × (c.start_idx ≡ c.end_idx)
unfolding Pop.failures
pop-fails_example = pop-fails 4 (0 ∷ 0 ∷ 0 ∷ 0 ∷ []) pushed_index (omega arith)

-- One place is used, and none is free.
abbrev full : GrowBuffer
full = record { address = 4096; memory = 5 ∷ []; used = 1; free = 0 }

full-IsValid : Add.IsValid 8 full
full-IsValid = record {
  room = refl;
  is_size = omega arith;
  addressable = omega arith;
  is_object = λ h. omega arith;
}

add_buffer_grow_lem_example :
    let (b', done) = add_buffer_grow page full 6 8 3 in
    Add.IsValid 8 b'
    × (elements b' ≡ (if done then 5 ∷ 6 ∷ [] else 5 ∷ []))
    × ((ltb 0 0 && not done) ≡ false)
add_buffer_grow_lem_example =
    add_buffer_grow_lem page page_gives full 6 8 3 full-IsValid (omega arith) (omega arith)

full_added : elements (add_buffer_grow page full 6 8 3).0 ≡ 5 ∷ 6 ∷ []
unfolding add_buffer_grow GrowBuffer.check_buffer_grow GrowBuffer.check_buffer_grow_n
    SafeAlloc.size_mul_safe SafeAlloc.size_add_safe SafeAlloc.alloc_array_safe
    SafeAlloc.array_element_ptr_safe
full_added = refl
