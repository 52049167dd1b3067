-- ===== src/CircularBuffer/Pop.antt =====
-- What a client of the circular buffer gets back.
use aftermath.Base.{ℕ, ◌<◌, ◌≡◌, refl, Option, none, List, [], ◌∷◌, arith}
use aftermath.CircularBuffer.{CircularBuffer, static_init, set, push, pop}

pub data Op : Type 0 where
  do_push : ℕ → Op
  do_set : ℕ → Op
  do_pop : Op

-- The buffer after the calls in order, and the answers of its pops.
unfoldable pub run : CircularBuffer → List Op → CircularBuffer × List (Option ℕ)
run c [] = (c, [])
run c (do_push idx ∷ ops) = run (push c idx) ops
run c (do_set idx ∷ ops) = run (set c idx) ops
run c (do_pop ∷ ops) =
    let (c', answer) = pop c in let (c'', answers) = run c' ops in (c'', answer ∷ answers)

-- A failure for each pop.
unfoldable pub failures : List Op → List (Option ℕ)
failures [] = []
failures (do_push idx ∷ ops) = failures ops
failures (do_set idx ∷ ops) = failures ops
failures (do_pop ∷ ops) = none ∷ failures ops

run-failures :
    (c : CircularBuffer) (ops : List Op)
    → c.start_idx ≡ c.end_idx
    → let (c', answers) = run c ops in (answers ≡ failures ops) × (c'.start_idx ≡ c'.end_idx)
unfolding run failures push set pop
run-failures c [] e = (refl, e)
run-failures c (do_push idx ∷ ops) e = run-failures (push c idx) ops (ground (arith, e))
run-failures c (do_set idx ∷ ops) e = run-failures (set c idx) ops e
run-failures c (do_pop ∷ ops) e = let same = run-failures c ops e in ground (arith, e, same)

-- A buffer of at least one entry never gives an index back: whatever is pushed and set, each push moves
-- the start onto the end, so the buffer stays empty and every pop fails.
pub pop-fails :
    (size : ℕ) (entries : List ℕ) (ops : List Op)
    → 0 < size
    → let (c, answers) = run (static_init size entries) ops in
      (answers ≡ failures ops) × (c.start_idx ≡ c.end_idx)
unfolding static_init
pop-fails size entries ops pos = run-failures (static_init size entries) ops refl
