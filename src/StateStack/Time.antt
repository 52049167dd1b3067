-- ===== src/StateStack/Time.antt =====
-- The events that a traced stack writes: over any sequence of entered and left states their lengths add
-- up to the time in which the stack was not empty.
use aftermath.Base.{
  ℕ, ◌+◌, ◌-◌, ◌<◌, ◌≡◌, refl, Bool, true, false, Option, none, some, List, [], ◌∷◌, ◌++◌, arith,
  ltb, if◌then◌else◌, Bool-cases, inl, inr, ◌&&◌,
}
use aftermath.WriteBuffer.{WriteBuffer}
use aftermath.EventCollection.{EventCollection}
use aftermath.StateStack.{
  StackEntry, StateStack, StateEvent, entry, push, trace_entry, push_trace, pop_trace,
}
use aftermath.StateStack.Shape.{IsValid, push_lem, pop_lem}

-- A traced operation at a time.
pub data Op : Type 0 where
  enter : ℕ → ℕ → Op
  leave : ℕ → Op

abbrev pub time : Op → ℕ
time (enter state t) = t
time (leave t) = t

-- What the code relies on of the generated writer: a view of the events in a buffer, to which a
-- successful write adds its event, and which a failed write leaves alone.
pub record IsWriter (write : WriteBuffer → StateEvent → ℕ → WriteBuffer × Bool) : Type 0 where
  pub events : WriteBuffer → List StateEvent
  pub written :
      (b : WriteBuffer) (e : StateEvent) (type_id : ℕ)
      → events (write b e type_id).0
        ≡ (if (write b e type_id).1 then events b ++ e ∷ [] else events b)

-- The sum of the lengths of the events.
unfoldable pub traced_time : List StateEvent → ℕ
traced_time [] = 0
traced_time (e ∷ es) = (e.end - e.start) + traced_time es

pub traced_time-append :
    (xs : List StateEvent) (e : StateEvent)
    → traced_time (xs ++ e ∷ []) ≡ traced_time xs + (e.end - e.start)
unfolding traced_time
traced_time-append [] e = omega arith
traced_time-append (x ∷ xs) e = omega (arith, traced_time-append xs e)

-- The specification: the depth, the time of the last operation, and the time for which the depth was
-- not 0.
pub record Clock : Type 0 where
  pub depth : ℕ
  pub last : ℕ
  pub busy : ℕ

unfoldable pub tick : Clock → Op → Clock
tick c op = record {
  depth = (elim op [ enter _ _ ↦ c.depth + 1 | leave _ ↦ c.depth - 1 ]);
  last = time op;
  busy = if ltb 0 c.depth then c.busy + (time op - c.last) else c.busy;
}

unfoldable pub ticks : Clock → List Op → Clock
ticks c [] = c
ticks c (op ∷ ops) = ticks (tick c op) ops

module _ (write : WriteBuffer → StateEvent → ℕ → WriteBuffer × Bool) (type_id : ℕ) where
  -- One traced call of the code.
  unfoldable pub step : StateStack → EventCollection → Op → StateStack × EventCollection × Bool
  step s bec (enter state t) = push_trace write s bec state t type_id
  step s bec (leave t) = pop_trace write s bec t type_id

  -- The calls in order, up to the first that reports an error.
  unfoldable pub steps :
      StateStack → EventCollection → List Op → Option (StateStack × EventCollection)
  steps s bec [] = some (s, bec)
  steps s bec (op ∷ ops) =
      let (s', bec', done) = step s bec op in
      let rest = steps s' bec' ops in if done then rest else none

-- The stack follows the clock, and the events so far account for the busy time.
pub record Follows {write : WriteBuffer → StateEvent → ℕ → WriteBuffer × Bool} (w : IsWriter write)
    (s : StateStack) (bec : EventCollection) (c : Clock) : Type 0 where
  pub valid : IsValid s
  pub depth : s.top ≡ c.depth
  pub current : 0 < s.top → (entry s (s.top - 1)).start ≡ c.last
  pub account : traced_time (w.events bec.buffer) ≡ c.busy

module _ {write : WriteBuffer → StateEvent → ℕ → WriteBuffer × Bool} (w : IsWriter write)
    (type_id : ℕ) where
  -- A successfully traced entry adds the time since it was on top.
  trace_entry-account :
      (bec : EventCollection) (e : StackEntry) (t : ℕ)
      → (trace_entry write bec e t type_id).1 ≡ true
      → traced_time (w.events (trace_entry write bec e t type_id).0.buffer)
        ≡ traced_time (w.events bec.buffer) + (t - e.start)
  unfolding trace_entry
  trace_entry-account bec e t h =
      let event : StateEvent = record {
        collection_id = bec.id;
        state = e.state;
        start = e.start;
        end = t;
      } in
      ground
        (arith, w.written bec.buffer event type_id, traced_time-append (w.events bec.buffer) event)

  push_trace-Follows :
      (s : StateStack) (bec : EventCollection) (c : Clock) (state t : ℕ)
      → Follows w s bec c
      → let (s', bec', done) = push_trace write s bec state t type_id in
        done ≡ true → Follows w s' bec' (tick c (enter state t))
  unfolding push_trace tick
  push_trace-Follows s bec c state t f h =
      let s' = (push s state t).0 in
      let p = push_lem s state t f.valid in
      ground
        (arith, p.0, p.2, p.3 (s.top - 1), p.5, trace_entry-account bec (entry s' (s'.top - 2)) t)

  pop_trace-Follows :
      (s : StateStack) (bec : EventCollection) (c : Clock) (t : ℕ)
      → Follows w s bec c
      → let (s', bec', done) = pop_trace write s bec t type_id in
        done ≡ true → Follows w s' bec' (tick c (leave t))
  unfolding pop_trace tick
  pop_trace-Follows s bec c t f h =
      let p = pop_lem s t f.valid in
      ground (arith, p.0, p.1, p.2, p.5, trace_entry-account bec (entry s (s.top - 1)) t)

  step-Follows :
      (s : StateStack) (bec : EventCollection) (c : Clock) (op : Op)
      → Follows w s bec c
      → (step write type_id s bec op).2 ≡ true
      → Follows w (step write type_id s bec op).0 (step write type_id s bec op).1 (tick c op)
  unfolding step
  step-Follows s bec c (enter state t) f h = push_trace-Follows s bec c state t f h
  step-Follows s bec c (leave t) f h = pop_trace-Follows s bec c t f h

  steps-Follows :
      (s : StateStack) (bec : EventCollection) (c : Clock) (ops : List Op) (s' : StateStack)
      (bec' : EventCollection)
      → Follows w s bec c
      → steps write type_id s bec ops ≡ some (s', bec')
      → Follows w s' bec' (ticks c ops)
  unfolding steps ticks
  steps-Follows s bec c [] s' bec' f h =
      let e : s ≡ s' = cc in let e' : bec ≡ bec' = cc in rw (← e, ← e') f
  steps-Follows s bec c (op ∷ ops) s' bec' f h =
      let r = step write type_id s bec op in
      elim (Bool-cases r.2) [
        | inl done ↦
            steps-Follows r.0 r.1 (tick c op) ops s' bec' (step-Follows s bec c op f done)
              (rw done at h)
        | inr failed ↦ cc (rw failed at h)
      ]

  -- Starting from a valid empty stack, where all traced calls succeed, the lengths of all events in the
  -- collection add up to the time of a clock that starts at the lengths already there and runs exactly
  -- while the stack is not empty, whatever the nesting of the states; the stack ends at its depth.
  pub steps-account :
      (s : StateStack) (bec : EventCollection) (ops : List Op) {s' : StateStack}
      {bec' : EventCollection}
      → IsValid s
      → s.top ≡ 0
      → steps write type_id s bec ops ≡ some (s', bec')
      → let c =
          ticks (record { depth = 0; last = 0; busy = traced_time (w.events bec.buffer) }) ops in
        (traced_time (w.events bec'.buffer) ≡ c.busy) × (s'.top ≡ c.depth)
  steps-account s bec ops {s'} {bec'} v e h =
      let c : Clock = record { depth = 0; last = 0; busy = traced_time (w.events bec.buffer) } in
      let start : Follows w s bec c = record {
        valid = v;
        depth = e;
        current = λ p. absurd (omega arith);
        account = refl;
      } in
      let f = steps-Follows s bec c ops s' bec' start h in (f.account, f.depth)

-- The nesting of a sequence of operations stays between 0 and `size`.
unfoldable pub nests : ℕ → ℕ → List Op → Bool
nests size depth [] = true
nests size depth (enter state t ∷ ops) = ltb depth size && nests size (depth + 1) ops
nests size depth (leave t ∷ ops) = ltb 0 depth && nests size (depth - 1) ops

-- Whether there is a result.
abbrev pub is_some {ℓ} : {A : Type ℓ} → Option A → Bool
is_some none = false
is_some (some a) = true

module _ (write : WriteBuffer → StateEvent → ℕ → WriteBuffer × Bool) (type_id : ℕ)
    (succeeds : (b : WriteBuffer) (e : StateEvent) → (write b e type_id).1 ≡ true) where
  trace_entry-succeeds :
      (bec : EventCollection) (e : StackEntry) (t : ℕ)
      → (trace_entry write bec e t type_id).1 ≡ true
  unfolding trace_entry
  trace_entry-succeeds bec e t =
      succeeds bec.buffer
        (record { collection_id = bec.id; state = e.state; start = e.start; end = t })

  enter-shape :
      (s : StateStack) (bec : EventCollection) (state t : ℕ)
      → IsValid s
      → let (s', bec', done) = step write type_id s bec (enter state t) in
        (done ≡ ltb s.top s.size)
        × (done ≡ true → s'.top ≡ s.top + 1)
        × (s'.size ≡ s.size)
        × IsValid s'
  unfolding step push_trace
  enter-shape s bec state t v =
      let s' = (push s state t).0 in
      let p = push_lem s state t v in
      let q = trace_entry-succeeds bec (entry s' (s'.top - 2)) t in
      (ground arith, λ e. ground arith, ground arith, ground arith)

  leave-shape :
      (s : StateStack) (bec : EventCollection) (t : ℕ)
      → IsValid s
      → let (s', bec', done) = step write type_id s bec (leave t) in
        (done ≡ ltb 0 s.top) × (s'.top ≡ s.top - 1) × (s'.size ≡ s.size) × IsValid s'
  unfolding step pop_trace
  leave-shape s bec t v =
      let p = pop_lem s t v in
      let q = trace_entry-succeeds bec (entry s (s.top - 1)) t in
      (ground arith, ground arith, ground arith, ground arith)

  -- Where no write of an event fails, the traced calls on a valid stack all succeed exactly when their nesting
  -- stays between 0 and the size of the stack.
  pub steps-nests :
      (s : StateStack) (bec : EventCollection) (ops : List Op)
      → IsValid s
      → is_some (steps write type_id s bec ops) ≡ nests s.size s.top ops
  unfolding steps nests
  steps-nests s bec [] v = refl
  steps-nests s bec (enter state t ∷ ops) v =
      let r = step write type_id s bec (enter state t) in
      let q = enter-shape s bec state t v in ground (arith, steps-nests r.0 r.1 ops)
  steps-nests s bec (leave t ∷ ops) v =
      let r = step write type_id s bec (leave t) in
      let q = leave-shape s bec t v in ground (arith, steps-nests r.0 r.1 ops)
