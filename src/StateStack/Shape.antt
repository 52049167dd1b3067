-- ===== src/StateStack/Shape.antt =====
-- The stack of states without its tracing: bounds, and last in, first out.
use aftermath.Base.{
  ℕ, ◌+◌, ◌-◌, ◌≤◌, ◌<◌, ◌≡◌, true, false, arith, ltb, length, length-set, get_or-set,
}
use aftermath.StateStack.{StackEntry, StateStack, blank, entry, push, pop}

pub record IsValid (s : StateStack) : Type 0 where
  pub memory : length s.entries ≡ s.size
  pub within : s.top ≤ s.size

-- A push succeeds exactly on a stack that is not full; then the new entry is on top, the entries below
-- stay, and the stack is valid. A push on a full stack changes nothing.
pub push_lem :
    (s : StateStack) (state tsc : ℕ)
    → IsValid s
    → let (s', done) = push s state tsc in
      (done ≡ ltb s.top s.size)
      × (done ≡ false → s' ≡ s)
      × (done ≡ true
          → (s'.top ≡ s.top + 1) × (entry s' s.top ≡ record { state = state; start = tsc }))
      × ((i : ℕ) → i < s.top → entry s' i ≡ entry s i)
      × (s'.size ≡ s.size)
      × IsValid s'
unfolding push
push_lem s state tsc v = (
  ground arith,
  λ e. ground arith,
  λ e.
      ground
        (arith, get_or-set s.entries s.top s.top (record { state = state; start = tsc }) blank),
  λ i h. ground (arith, get_or-set s.entries s.top i (record { state = state; start = tsc }) blank),
  ground arith,
  ground (arith, length-set s.entries s.top (record { state = state; start = tsc })),
)

-- A pop succeeds exactly on a stack that is not empty. It takes the top entry away, and the state that
-- is uncovered counts as entered at the time of the pop; the entries below it stay.
pub pop_lem :
    (s : StateStack) (tsc : ℕ)
    → IsValid s
    → let (s', done) = pop s tsc in
      (done ≡ ltb 0 s.top)
      × (s'.top ≡ s.top - 1)
      × (1 < s.top
          → entry s' (s.top - 2) ≡ record { state = (entry s (s.top - 2)).state; start = tsc })
      × ((i : ℕ) → i + 2 < s.top → entry s' i ≡ entry s i)
      × (s'.size ≡ s.size)
      × IsValid s'
unfolding pop
pop_lem s tsc v =
    let uncovered : StackEntry = record { state = (entry s (s.top - 2)).state; start = tsc } in
    (
      ground arith,
      ground arith,
      λ h. ground (arith, get_or-set s.entries (s.top - 2) (s.top - 2) uncovered blank),
      λ i h. ground (arith, get_or-set s.entries (s.top - 2) i uncovered blank),
      ground arith,
      ground (arith, length-set s.entries (s.top - 2) uncovered),
    )
