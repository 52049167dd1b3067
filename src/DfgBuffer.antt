-- ===== src/DfgBuffer.antt =====
-- libaftermath-core/src/dfg_buffer.c: the buffer between two ports of a data-flow graph, an array of
-- samples that grows. A sample is opaque and stands as a number. Addresses are numbers, and NULL is 0;
-- `memory` is the array behind `data`. The calls of the type's destructor are kept in `destroyed`, the
-- last first, each with its address and number of samples. The chaining of buffers in a list and the
-- release of the structure itself are not modelled.
pub mod Samples
pub mod Read
pub mod Shrink
use aftermath.Base.{
  ℕ, zero, suc, ◌+◌, ◌-◌, ◌%◌, ◌^◌, Bool, true, false, not, ◌&&◌, Option, none, some, List, [], ◌∷◌,
  ◌++◌, ltb, ◌==◌, if◌then◌else◌, take, drop, replicate,
}
use aftermath.Base.Words.{add64, sub64}
use aftermath.SafeAlloc.{size_add_safe, size_mul_safe, array_element_ptr_safe, alloc_array_safe}
use aftermath.WriteBuffer.{copy_at}

-- `struct am_dfg_type` as far as the buffers use it: the address, which identifies it, the size of a
-- sample, and whether there is a destructor.
pub record SampleType : Type 0 where
  pub address : ℕ
  pub sample_size : ℕ
  pub destroys : Bool

-- `struct am_dfg_buffer`
pub record DfgBuffer : Type 0 where
  pub sample_type : SampleType
  pub num_samples : ℕ
  pub max_samples : ℕ
  pub address : ℕ
  pub memory : List ℕ
  pub num_refs : ℕ
  pub destroyed : List (ℕ × ℕ)

-- am_dfg_buffer_init
unfoldable pub init : SampleType → DfgBuffer
init sample_type = record {
  sample_type = sample_type;
  num_samples = 0;
  max_samples = 0;
  address = 0;
  memory = [];
  num_refs = 0;
  destroyed = [];
}

-- The pointer of am_array_element_ptr_safe, tested against NULL.
unfoldable pub element_ptr : DfgBuffer → ℕ → Option ℕ
element_ptr b n = elim (array_element_ptr_safe b.address n b.sample_type.sample_size) [
  | none ↦ none
  | some p ↦ if p == 0 then none else some p
]

-- The first part of am_dfg_buffer_resize, for the samples that are lost.
unfoldable pub destroy_excess : DfgBuffer → ℕ → Option DfgBuffer
destroy_excess b new_num_samples =
    if ltb new_num_samples b.num_samples && b.sample_type.destroys
    then elim (element_ptr b b.num_samples) [
      | none ↦ none
      | some destroy_start ↦ some (record b {
        destroyed = (destroy_start, b.num_samples - new_num_samples) ∷ b.destroyed;
        num_samples = new_num_samples;
      })
    ]
    else some b

-- What `realloc` and a read through its result give: the old samples as far as they fit, then others.
abbrev pub reallocated : ℕ → List ℕ → List ℕ
reallocated n memory = take n (memory ++ replicate n 0)

-- am_dfg_buffer_get; the samples read, or `none` for the return value 1.
unfoldable pub get : DfgBuffer → ℕ → ℕ → Option (List ℕ)
get b sample_offset num_samples =
    if ltb b.num_samples sample_offset then none else elim (element_ptr b sample_offset) [
      | none ↦ none
      | some startaddr ↦
          if ltb (b.num_samples - sample_offset) num_samples
          then none
          else elim (size_mul_safe num_samples b.sample_type.sample_size) [
            | none ↦ none
            | some num_bytes ↦ some (take num_samples (drop sample_offset b.memory))
          ]
    ]

-- The loop of am_dfg_buffer_ptr, `rounds` rounds before its end.
unfoldable pub ptr_loop : ℕ → ℕ → ℕ → List ℕ
ptr_loop zero curr_addr sample_size = []
ptr_loop (suc rounds) curr_addr sample_size =
    curr_addr ∷ ptr_loop rounds (add64 curr_addr sample_size) sample_size

-- am_dfg_buffer_ptr
unfoldable pub ptr : DfgBuffer → ℕ → ℕ → Option (List ℕ)
ptr b sample_offset num_sample_ptrs =
    if ltb b.num_samples sample_offset then none else elim (element_ptr b sample_offset) [
      | none ↦ none
      | some start_addr ↦
          if ltb (b.num_samples - sample_offset) num_sample_ptrs
          then none
          else some (ptr_loop num_sample_ptrs start_addr b.sample_type.sample_size)
    ]

-- am_dfg_buffer_last_ptr
unfoldable pub last_ptr : DfgBuffer → Option (List ℕ)
last_ptr b = if b.num_samples == 0 then none else ptr b (b.num_samples - 1) 1

-- am_dfg_buffer_read
unfoldable pub read : DfgBuffer → ℕ → Option (List ℕ)
read b num_samples = get b 0 num_samples

-- am_dfg_buffer_read_last
unfoldable pub read_last : DfgBuffer → Option (List ℕ)
read_last b = if b.num_samples == 0 then none else get b (b.num_samples - 1) 1

-- am_dfg_buffer_reset
unfoldable pub reset : DfgBuffer → DfgBuffer
reset b = record b {
  destroyed =
      if not (b.num_samples == 0) && b.sample_type.destroys
      then (b.address, b.num_samples) ∷ b.destroyed
      else b.destroyed;
  num_samples = 0;
}

-- am_dfg_buffer_inc_ref; the count is an `int`, kept as its 32 bits.
unfoldable pub inc_ref : DfgBuffer → DfgBuffer
inc_ref b = record b { num_refs = (b.num_refs + 1) % 2 ^ 32 }

-- am_dfg_buffer_dec_ref
unfoldable pub dec_ref : DfgBuffer → DfgBuffer
dec_ref b = record b { num_refs = (b.num_refs + 2 ^ 32 - 1) % 2 ^ 32 }

-- am_dfg_buffer_change_type
unfoldable pub change_type : DfgBuffer → SampleType → DfgBuffer
unfolding reset
change_type b sample_type =
    if b.sample_type.address == sample_type.address
    then b
    else record (reset b) { address = 0; memory = []; sample_type = sample_type; max_samples = 0 }

-- The answer of `realloc` for an array at an address and so many bytes: the new address, or NULL.
module _ (realloc : ℕ → ℕ → Option ℕ) where
  -- The second part of am_dfg_buffer_resize.
  unfoldable pub change_capacity : DfgBuffer → ℕ → DfgBuffer × Bool
  change_capacity b new_num_samples =
      if new_num_samples == b.max_samples
      then (b, true)
      else if new_num_samples == 0
      then (record b { address = 0; memory = []; max_samples = 0 }, true)
      else elim (alloc_array_safe (realloc b.address) new_num_samples b.sample_type.sample_size) [
        | none ↦ (b, false)
        | some p ↦ (
          record b {
            address = p;
            memory = reallocated new_num_samples b.memory;
            max_samples = new_num_samples;
          },
          true,
        )
      ]

  -- am_dfg_buffer_resize; `true` is the return value 0.
  unfoldable pub resize : DfgBuffer → ℕ → DfgBuffer × Bool
  resize b new_num_samples = elim (destroy_excess b new_num_samples) [
    | none ↦ (b, false)
    | some b' ↦ change_capacity b' new_num_samples
  ]

  -- am_dfg_buffer_reserve; `none` is NULL.
  unfoldable pub reserve : DfgBuffer → ℕ → DfgBuffer × Option ℕ
  reserve b num_samples = elim (size_add_safe b.num_samples num_samples) [
    | none ↦ (b, none)
    | some new_size ↦
        let (b', done) = if ltb b.max_samples new_size then resize b new_size else (b, true) in
        if not done then (b', none) else elim (element_ptr b' b.num_samples) [
          | none ↦ (b', none)
          | some ret ↦ (record b' { num_samples = new_size }, some ret)
        ]
  ]

  -- am_dfg_buffer_shrink
  unfoldable pub shrink : DfgBuffer → ℕ → DfgBuffer × Bool
  shrink b num_samples =
      if ltb b.num_samples num_samples then (b, false) else resize b (b.num_samples - num_samples)

  -- am_dfg_buffer_write
  unfoldable pub write : DfgBuffer → ℕ → List ℕ → DfgBuffer × Bool
  write b num_samples src = elim (size_mul_safe num_samples b.sample_type.sample_size) [
    | none ↦ (b, false)
    | some num_bytes ↦
        let (b', dst) = reserve b num_samples in
        elim dst [
          | none ↦ (b', false)
          | some _ ↦
              (record b' { memory = copy_at b'.memory b.num_samples (take num_samples src) }, true)
        ]
  ]
