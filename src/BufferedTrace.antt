-- ===== src/BufferedTrace.antt =====
-- libaftermath-trace/src/buffered_trace.c: a trace while it is sampled, the event collections, the
-- hierarchies and the trace-wide data. The arrays of pointers are lists, and the number of elements is
-- their length. The allocator and the generated writer of the header are parameters. A pointer takes
-- eight bytes.
pub mod Ids
pub mod Dump
use aftermath.Base.{
  ℕ, suc, ◌+◌, ◌^◌, ◌%◌, Bool, true, false, not, ◌&&◌, ◌||◌, Option, none, some, List, [], ◌∷◌,
  ◌++◌, ltb, leb, ◌==◌, if◌then◌else◌, length,
}
use aftermath.SafeAlloc.{grow_array_safe}
use aftermath.WriteBuffer
use aftermath.WriteBuffer.{WriteBuffer}
use aftermath.EventCollection
use aftermath.EventCollection.{EventCollection}
use aftermath.SimpleHierarchy.{SimpleHierarchy}
use aftermath.SimpleHierarchy.Build.{Parse, ok, fail, out_of_fuel, build}
use aftermath.SimpleHierarchy.Search.{same_name}

-- `struct am_buffered_trace`; its field `data` is `buffer` here.
pub record BufferedTrace : Type 0 where
  pub collections : List EventCollection
  pub highest_collection_id : ℕ
  pub hierarchies : List SimpleHierarchy
  pub highest_hierarchy_id : ℕ
  pub buffer : WriteBuffer

-- `id + 1` for an identifier, a `uint32_t`.
abbrev pub next_id : ℕ → ℕ
next_id id = (id + 1) % 2 ^ 32

-- am_buffered_trace_init; `none` is the return value 1.
unfoldable pub init :
    (WriteBuffer → WriteBuffer × Bool) → (ℕ → Option (List ℕ)) → ℕ → Option BufferedTrace
init write_header malloc buffer_size = elim (WriteBuffer.init malloc buffer_size) [
  | none ↦ none
  | some buffer ↦
      let (buffer', done) = write_header buffer in
      if not done
      then none
      else some (record {
        collections = [];
        highest_collection_id = 0;
        hierarchies = [];
        highest_hierarchy_id = 0;
        buffer = buffer';
      })
]

-- The loop of am_buffered_trace_dump_fp over the collections.
unfoldable pub dump_collections {ℓ} :
    {F : Type ℓ}
    → (List ℕ → F → F × Bool)
    → List EventCollection
    → F
    → List EventCollection × F × Bool
dump_collections fwrite [] fp = ([], fp, true)
dump_collections fwrite (c ∷ cs) fp =
    let (c', fp', done) = EventCollection.dump_fp fwrite c fp in
    let (cs', written, all_done) = dump_collections fwrite cs fp' in
    if not done then (c' ∷ cs, fp', false) else (c' ∷ cs', written, all_done)

-- am_buffered_trace_dump_fp; `true` is the return value 0.
unfoldable pub dump_fp {ℓ} :
    {F : Type ℓ} → (List ℕ → F → F × Bool) → BufferedTrace → F → BufferedTrace × F × Bool
dump_fp fwrite bt fp =
    let (buffer, fp', done) = WriteBuffer.dump_fp fwrite bt.buffer fp in
    let (collections, written, all_done) = dump_collections fwrite bt.collections fp' in
    if not done
    then (record bt { buffer = buffer }, fp', false)
    else (record bt { buffer = buffer; collections = collections }, written, all_done)

-- The loop of am_buffered_trace_add_hierarchy: whether a hierarchy has the identifier.
unfoldable pub has_hierarchy : List SimpleHierarchy → ℕ → Bool
has_hierarchy [] id = false
has_hierarchy (h ∷ hs) id = h.id == id || has_hierarchy hs id

-- am_buffered_trace_get_hierarchy
unfoldable pub get_hierarchy : List SimpleHierarchy → List ℕ → Option SimpleHierarchy
get_hierarchy [] name = none
get_hierarchy (h ∷ hs) name =
    let rest = get_hierarchy hs name in if same_name h.name name then some h else rest

-- The answer of `realloc` to a request for so many bytes; the result shares the old elements.
module _ {ℓ} {M : Type ℓ} (realloc : ℕ → Option M) where
  -- am_buffered_trace_add_collection; `none` is the return value 1.
  unfoldable pub add_collection : BufferedTrace → EventCollection → Option BufferedTrace
  add_collection bt bec = elim (grow_array_safe realloc (length bt.collections) 1 8) [
    | none ↦ none
    | some _ ↦ some (record bt {
      collections = bt.collections ++ bec ∷ [];
      highest_collection_id =
          if ltb bt.highest_collection_id bec.id then bec.id else bt.highest_collection_id;
    })
  ]

  -- am_buffered_trace_new_collection; `allocated` is whether `malloc` gives the structure.
  unfoldable pub new_collection :
      Bool → (ℕ → Option (List ℕ)) → BufferedTrace → ℕ → Option (EventCollection × BufferedTrace)
  unfolding add_collection
  new_collection allocated malloc bt buffer_size =
      let id = if length bt.collections == 0 then 0 else next_id bt.highest_collection_id in
      if not allocated then none else elim (EventCollection.init malloc id buffer_size) [
        | none ↦ none
        | some bec ↦ elim (add_collection bt bec) [ none ↦ none | some bt' ↦ some (bec, bt') ]
      ]

  -- am_buffered_trace_add_hierarchy; `none` is the return value 1.
  unfoldable pub add_hierarchy : BufferedTrace → SimpleHierarchy → Option BufferedTrace
  add_hierarchy bt h =
      if leb h.id bt.highest_hierarchy_id && has_hierarchy bt.hierarchies h.id
      then none
      else elim (grow_array_safe realloc (length bt.hierarchies) 1 8) [
        | none ↦ none
        | some _ ↦ some (record bt {
          hierarchies = bt.hierarchies ++ h ∷ [];
          highest_hierarchy_id =
              if ltb bt.highest_hierarchy_id h.id then h.id else bt.highest_hierarchy_id;
        })
      ]

  -- am_buffered_trace_new_hierarchy; `allocates` is whether the memory for a node is given.
  unfoldable pub new_hierarchy :
      (ℕ → Bool) → BufferedTrace → List ℕ → List ℕ → Option (SimpleHierarchy × BufferedTrace)
  new_hierarchy allocates bt name spec =
      let id = if length bt.hierarchies == 0 then 0 else next_id bt.highest_hierarchy_id in
      elim (build allocates name id spec) [
        | ok h ↦ elim (add_hierarchy bt h) [ none ↦ none | some bt' ↦ some (h, bt') ]
        | fail ↦ none
        | out_of_fuel ↦ none
      ]
