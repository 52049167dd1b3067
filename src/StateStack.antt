-- ===== src/StateStack.antt =====
-- libaftermath-trace/src/state_stack.c: the stack of states that an event source has entered, and the
-- state events that it traces into an event collection. An operation returns the new stack, and `true`
-- for the return value 0. The writer of a state event is generated when the library is built, so it is
-- a parameter: it gives the new buffer, and `true` for success.
pub mod Shape
pub mod Time
use aftermath.Base.{
  ℕ, suc, ◌+◌, ◌-◌, Bool, true, false, not, Option, none, some, List, ltb, leb, ◌==◌, if◌then◌else◌,
  set, get_or, replicate,
}
use aftermath.SafeAlloc.{alloc_array_safe}
use aftermath.WriteBuffer.{WriteBuffer}
use aftermath.EventCollection.{EventCollection}

-- `struct am_state_stack_entry`
pub record StackEntry : Type 0 where
  pub state : ℕ
  pub start : ℕ

-- `struct am_state_stack`; `entries` is the array of `size` entries.
pub record StateStack : Type 0 where
  pub top : ℕ
  pub size : ℕ
  pub entries : List StackEntry

-- The fields that the stack sets of `struct am_dsk_state_event`.
pub record StateEvent : Type 0 where
  pub collection_id : ℕ
  pub state : ℕ
  pub start : ℕ
  pub end : ℕ

abbrev pub blank : StackEntry
blank = record { state = 0; start = 0 }

-- `s->entries[i]`; a valid stack is never read out of range.
abbrev pub entry : StateStack → ℕ → StackEntry
entry s i = get_or s.entries i blank

-- am_state_stack_init; an entry takes 16 bytes, and `malloc` gives the entries or fails.
unfoldable pub init : (ℕ → Option (List StackEntry)) → ℕ → Option StateStack
unfolding alloc_array_safe
init malloc max_entries = elim (alloc_array_safe malloc max_entries 16) [
  | none ↦ none
  | some memory ↦ some (record { top = 0; size = max_entries; entries = memory })
]

-- am_state_stack_is_empty
unfoldable pub is_empty : StateStack → Bool
is_empty s = s.top == 0

-- am_state_stack_push
unfoldable pub push : StateStack → ℕ → ℕ → StateStack × Bool
push s state tsc = if leb s.size s.top then (s, false) else (
  record s {
    top = s.top + 1;
    entries = set s.entries s.top (record { state = state; start = tsc });
  },
  true,
)

-- am_state_stack_try_pop; `true` is the return value 1, a state was popped.
unfoldable pub try_pop : StateStack → ℕ → StateStack × Bool
try_pop s tsc =
    if s.top == 0
    then (s, false)
    else if ltb 1 s.top
    then (
      record s {
        top = s.top - 1;
        entries = set s.entries (s.top - 2) (record (entry s (s.top - 2)) { start = tsc });
      },
      true,
    )
    else (record s { top = s.top - 1 }, true)

-- am_state_stack_pop
unfoldable pub pop : StateStack → ℕ → StateStack × Bool
unfolding try_pop
pop s tsc = try_pop s tsc

-- `if(err) *err = value;`
abbrev set_err : Option Bool → Bool → Option Bool
set_err none value = none
set_err (some _) value = some value

module _ (write_state_event : WriteBuffer → StateEvent → ℕ → WriteBuffer × Bool) where
  -- The event that the functions below build from an entry, and its writing to the collection.
  unfoldable pub trace_entry : EventCollection → StackEntry → ℕ → ℕ → EventCollection × Bool
  trace_entry bec e end_ts type_id =
      let (buffer, done) =
        write_state_event bec.buffer
          (record { collection_id = bec.id; state = e.state; start = e.start; end = end_ts })
          type_id in
      (record bec { buffer = buffer }, done)

  -- am_state_stack_push_trace
  unfoldable pub push_trace :
      StateStack → EventCollection → ℕ → ℕ → ℕ → StateStack × EventCollection × Bool
  push_trace s bec state start_ts type_id =
      let (s', pushed) = push s state start_ts in
      let (bec', done) = trace_entry bec (entry s' (s'.top - 2)) start_ts type_id in
      if not pushed
      then (s', bec, false)
      else if ltb 1 s'.top
      then (s', bec', done)
      else (s', bec, true)

  -- am_state_stack_pop_trace
  unfoldable pub pop_trace :
      StateStack → EventCollection → ℕ → ℕ → StateStack × EventCollection × Bool
  pop_trace s bec end_ts type_id =
      let (bec', written) = trace_entry bec (entry s (s.top - 1)) end_ts type_id in
      let (s', done) = pop s end_ts in
      if s.top == 0
      then (s, bec, false)
      else if not written
      then (s, bec', false)
      else (s', bec', done)

  -- am_state_stack_try_pop_trace. `err` is `none` for a NULL pointer, and `some` of whether the error
  -- is set otherwise; the last result is `true` for the return value 1.
  unfoldable pub try_pop_trace :
      StateStack
      → EventCollection
      → ℕ
      → Option Bool
      → ℕ
      → StateStack × EventCollection × Option Bool × Bool
  try_pop_trace s bec end_ts err type_id =
      let (bec', written) = trace_entry bec (entry s (s.top - 1)) end_ts type_id in
      let (s', done) = pop s end_ts in
      if s.top == 0
      then (s, bec, err, false)
      else if not written
      then (s, bec', set_err err true, true)
      else if not done
      then (s', bec', set_err err true, true)
      else (s', bec', set_err err false, true)
