-- ===== src/Examples/Traces.antt =====
-- state_stack.c, buffered_trace.c and simple_hierarchy.c at concrete inputs. The generated writers are
-- stood for by functions that put their cells in front of the bytes.
use aftermath.Base.{
  ℕ, zero, suc, ◌^◌, ◌<◌, ◌≡◌, ◌⊎◌, refl, ap, Bool, true, Option, none, some, List, [], ◌∷◌, ◌++◌,
  map, arith, leb, if◌then◌else◌, length,
}
use aftermath.SafeAlloc
use aftermath.WriteBuffer.{WriteBuffer}
use aftermath.WriteBuffer.Log
use aftermath.WriteBuffer.Log.{contents}
use aftermath.EventCollection.{EventCollection}
use aftermath.StateStack
use aftermath.StateStack.{StackEntry, StateStack, StateEvent}
use aftermath.StateStack.Shape
use aftermath.StateStack.Time.{
  Op, enter, leave, IsWriter, traced_time, ticks, step, steps, steps-account, nests, is_some,
  steps-nests,
}
use aftermath.BufferedTrace
use aftermath.BufferedTrace.{BufferedTrace, new_collection, add_hierarchy, has_hierarchy}
use aftermath.BufferedTrace.Dump.{all_contents, dump_fp-contents}
use aftermath.BufferedTrace.Ids.{
  HasIds, Grows, NoCollection, NoHierarchy, new_collection-fresh, add_hierarchy-HasIds,
}
use aftermath.SimpleHierarchy.{Node, nil, cons, node, SimpleHierarchy}
use aftermath.SimpleHierarchy.Frames.{
  Frame, description, hierarchy_node, node_frames, write_to_buffer, write_to_buffer-frames,
}

abbrev write_event : WriteBuffer → StateEvent → ℕ → WriteBuffer × Bool
write_event b e type_id =
    (record b { bytes = e.collection_id ∷ e.state ∷ e.start ∷ e.end ∷ b.bytes }, true)

abbrev events : List ℕ → List StateEvent
events (collection_id ∷ state ∷ start ∷ end ∷ bs) =
    events bs
    ++ record { collection_id = collection_id; state = state; start = start; end = end } ∷ []
events _ = []

abbrev write_event-IsWriter : IsWriter write_event
write_event-IsWriter = record { events = λ b. events b.bytes; written = λ b e type_id. refl }

abbrev no_bytes : WriteBuffer
no_bytes = record { bytes = []; size = 0; used = 0 }

abbrev worker : EventCollection
worker = record { buffer = no_bytes; id = 3 }

abbrev two_deep : StateStack
two_deep = record {
  top = 0;
  size = 2;
  entries = record { state = 0; start = 0 } ∷ record { state = 0; start = 0 } ∷ [];
}

two_deep-IsValid : Shape.IsValid two_deep
two_deep-IsValid = record { memory = refl; within = omega arith }

-- A state of 10 to 50 with another inside it, a pause, and one from 60 on.
abbrev work : List Op
work = enter 1 10 ∷ enter 2 20 ∷ leave 30 ∷ leave 50 ∷ enter 1 60 ∷ enter 4 65 ∷ []

abbrev after_work : StateStack × EventCollection
after_work = (
  record {
    top = 2;
    size = 2;
    entries = record { state = 1; start = 60 } ∷ record { state = 4; start = 65 } ∷ [];
  },
  record {
    buffer = record no_bytes {
      bytes = 3 ∷ 1 ∷ 60 ∷ 65 ∷ 3 ∷ 1 ∷ 30 ∷ 50 ∷ 3 ∷ 2 ∷ 20 ∷ 30 ∷ 3 ∷ 1 ∷ 10 ∷ 20 ∷ [];
    };
    id = 3;
  },
)

work-steps : steps write_event 9 two_deep worker work ≡ some after_work
unfolding steps step StateStack.push_trace StateStack.pop_trace StateStack.trace_entry
    StateStack.push StateStack.pop
work-steps = refl

steps-account_example :
    let c = ticks (record { depth = 0; last = 0; busy = 0 }) work in
    (traced_time (events after_work.1.buffer.bytes) ≡ c.busy) × (after_work.0.top ≡ c.depth)
unfolding traced_time
steps-account_example =
    steps-account write_event-IsWriter 9 two_deep worker work two_deep-IsValid refl work-steps

-- The third state is one too many.
steps-nests_example :
    is_some (steps write_event 9 two_deep worker (enter 7 70 ∷ work))
    ≡ nests 2 0 (enter 7 70 ∷ work)
steps-nests_example =
    steps-nests write_event 9 (λ b e. refl) two_deep worker (enter 7 70 ∷ work) two_deep-IsValid

work-nests : nests 2 0 work ≡ true
unfolding nests
work-nests = refl

-- Files that take everything.
abbrev append_file : List ℕ → List ℕ → List ℕ × Bool
append_file bs fp = (fp ++ bs, true)

abbrev bytes_of : List ℕ → WriteBuffer
bytes_of bs = record { bytes = bs; size = length bs; used = length bs }

abbrev collection : ℕ → List ℕ → EventCollection
collection id bs = record { buffer = bytes_of bs; id = id }

abbrev leaf : ℕ → SimpleHierarchy
leaf id = record { name = 97 ∷ []; id = id; root = some (node (97 ∷ []) 1 nil) }

abbrev sampled : BufferedTrace
sampled = record {
  collections = collection 6 (1 ∷ 2 ∷ []) ∷ collection 4 (3 ∷ []) ∷ [];
  highest_collection_id = 6;
  hierarchies = leaf 0 ∷ leaf 2 ∷ [];
  highest_hierarchy_id = 2;
  buffer = bytes_of (9 ∷ 9 ∷ []);
}

abbrev valid : (bs : List ℕ) → length bs < 2 ^ 64 → Log.IsValid (bytes_of bs)
valid bs h = record { memory = refl; within = omega arith; is_size = h }

sampled-HasIds : HasIds sampled
sampled-HasIds = record {
  collections = (omega arith, (omega arith, tt));
  hierarchies = (omega arith, (omega arith, tt));
  distinct = ((ground arith, tt), (tt, tt));
}

dump_fp-contents_example :
    let (bt', fp', done) = BufferedTrace.dump_fp append_file sampled (5 ∷ []) in
    (done ≡ true)
    × (fp' ≡ 5 ∷ 9 ∷ 9 ∷ 1 ∷ 2 ∷ 3 ∷ [])
    × (contents bt'.buffer ≡ [])
    × (all_contents bt'.collections ≡ [])
dump_fp-contents_example =
    dump_fp-contents append_file (λ fp. fp) (λ bs fp. (refl, refl)) sampled (5 ∷ [])
      (valid (9 ∷ 9 ∷ []) (omega arith))
      (valid (1 ∷ 2 ∷ []) (omega arith), (valid (3 ∷ []) (omega arith), tt))

-- An allocator with memory for at most a page.
abbrev page : ℕ → Option (List ℕ)
page n = if leb n 4096 then some (0 ∷ 0 ∷ []) else none

page-Grows : Grows page 2
unfolding SafeAlloc.grow_array_safe SafeAlloc.alloc_array_safe SafeAlloc.size_add_safe
    SafeAlloc.size_mul_safe
page-Grows = (0 ∷ 0 ∷ [], refl)

new_collection-fresh_example :
    (bec : EventCollection) × (bt' : BufferedTrace) × (new_collection page true page sampled 2
      ≡ some (bec, bt'))
    × (bt'.collections ≡ sampled.collections ++ bec ∷ [])
    × NoCollection sampled.collections bec.id
    × HasIds bt'
new_collection-fresh_example =
    new_collection-fresh page page sampled 2 (0 ∷ 0 ∷ []) sampled-HasIds (omega arith) refl
      page-Grows

add_hierarchy-HasIds_example :
    ((has_hierarchy sampled.hierarchies 2 ≡ true) × (add_hierarchy page sampled (leaf 2) ≡ none))
    ⊎ ((bt' : BufferedTrace) × (add_hierarchy page sampled (leaf 2) ≡ some bt')
        × NoHierarchy sampled.hierarchies 2
        × (bt'.hierarchies ≡ sampled.hierarchies ++ leaf 2 ∷ [])
        × HasIds bt')
add_hierarchy-HasIds_example = add_hierarchy-HasIds page sampled (leaf 2) sampled-HasIds page-Grows

-- A frame in the cells of a buffer: its kind, its numbers raised by three, and a separator.
abbrev cells : List ℕ → List ℕ
cells = map (λ x. suc (suc (suc x)))

abbrev write_frame : WriteBuffer → Frame → WriteBuffer × Bool
write_frame b (description id name) =
    (record b { bytes = 0 ∷ (cells (id ∷ name) ++ (2 ∷ b.bytes)) }, true)
write_frame b (hierarchy_node h id p name) =
    (record b { bytes = 1 ∷ (cells (h ∷ id ∷ p ∷ name) ++ (2 ∷ b.bytes)) }, true)

-- The frames in some cells, and the numbers in front of them that are in no frame yet.
abbrev with_description : List Frame × List ℕ → List Frame × List ℕ
with_description (fs, id ∷ name) = (fs ++ description id name ∷ [], [])
with_description (fs, []) = (fs, [])

abbrev with_node : List Frame × List ℕ → List Frame × List ℕ
with_node (fs, h ∷ id ∷ p ∷ name) = (fs ++ hierarchy_node h id p name ∷ [], [])
with_node (fs, pending) = (fs, pending)

abbrev cell : ℕ → List Frame × List ℕ → List Frame × List ℕ
cell zero r = with_description r
cell (suc zero) r = with_node r
cell (suc (suc zero)) r = (r.0, [])
cell (suc (suc (suc x))) r = (r.0, x ∷ r.1)

abbrev decode : List ℕ → List Frame × List ℕ
decode [] = ([], [])
decode (c ∷ cs) = cell c (decode cs)

decode-cells : (xs : List ℕ) (bs : List ℕ) → decode (cells xs ++ (2 ∷ bs)) ≡ ((decode bs).0, xs)
decode-cells [] bs = refl
decode-cells (x ∷ xs) bs = ap (λ (r : List Frame × List ℕ). (r.0, x ∷ r.1)) (decode-cells xs bs)

frame_written :
    (b : WriteBuffer) (f : Frame)
    → (write_frame b f).1 ≡ true
    → (decode (write_frame b f).0.bytes).0 ≡ (decode b.bytes).0 ++ f ∷ []
frame_written b (description id name) e =
    ap (λ r. (with_description r).0) (decode-cells (id ∷ name) b.bytes)
frame_written b (hierarchy_node h id p name) e =
    ap (λ r. (with_node r).0) (decode-cells (h ∷ id ∷ p ∷ name) b.bytes)

frame_succeeds : (b : WriteBuffer) (f : Frame) → (write_frame b f).1 ≡ true
frame_succeeds b (description id name) = refl
frame_succeeds b (hierarchy_node h id p name) = refl

-- A root with two children, of which the first has a child.
abbrev family : Node
family =
    node (97 ∷ []) 1
      (cons (node (98 ∷ []) 2 (cons (node (99 ∷ []) 3 nil) nil)) (cons (node (100 ∷ []) 4 nil) nil))

write_to_buffer-frames_example :
    (wb : WriteBuffer) × (write_to_buffer write_frame no_bytes
        (record { name = 104 ∷ []; id = 7; root = some family })
      ≡ some (wb, true))
    × ((decode wb.bytes).0
        ≡ description 7 (104 ∷ [])
          ∷ hierarchy_node 7 1 0 (97 ∷ [])
          ∷ hierarchy_node 7 2 1 (98 ∷ [])
          ∷ hierarchy_node 7 3 2 (99 ∷ [])
          ∷ hierarchy_node 7 4 1 (100 ∷ [])
          ∷ [])
unfolding node_frames
write_to_buffer-frames_example =
    write_to_buffer-frames write_frame (λ b. (decode b.bytes).0) frame_written frame_succeeds
      no_bytes (record { name = 104 ∷ []; id = 7; root = some family }) family refl
