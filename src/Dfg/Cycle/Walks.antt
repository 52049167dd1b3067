-- ===== src/Dfg/Cycle/Walks.antt =====
-- libaftermath-core/src/dfg_graph.c: cycles in a graph with an extra connection and without one to
-- ignore, stated apart from the search, and the markings that the search leaves.
use aftermath.Base.{
  In, ℕ, zero, suc, ◌<◌, ◌≡◌, ◌≢◌, ◌⊎◌, some, true, arith, ◌||◌, ◌≤◌, List, [], ◌∷◌, length, get_or,
  set, ◌==◌, if◌then◌else◌,
}
use aftermath.Dfg.{PortRef, Graph, port_at, is_output_port}
use aftermath.Dfg.Cycle.{Change, Search, unmarked, marked, visited}

module _ (g : Graph) (c : Change) where
  -- The connections that count: the extra one, and each of an output port but the one to ignore.
  abbrev pub Connects : PortRef → PortRef → Type 0
  Connects p q =
      (p ≡ c.extra_src) × (q ≡ c.extra_dst)
      ⊎ (is_output_port (port_at g p) ≡ true)
        × In q (port_at g p).connections
        × ¬ ((c.ignore_src ≡ some p) × (c.ignore_dst ≡ some q))

  -- A connection from a port of one node to a port of the other.
  abbrev pub Edge : ℕ → ℕ → Type 0
  Edge n m = (p : PortRef) × (q : PortRef) × Connects p q × (p.node ≡ n) × (q.node ≡ m)

  -- One edge or more.
  pub data Walk : ℕ → ℕ → Type 0 where
    step : {n m : ℕ} → Edge n m → Walk n m
    further : {n k m : ℕ} → Edge n k → Walk k m → Walk n m

  -- The node lies on a cycle.
  abbrev pub OnCycle : ℕ → Type 0
  OnCycle n = Walk n n

module _ {g : Graph} {c : Change} where
  pub Walk-Edge : {n k m : ℕ} → Walk g c n k → Edge g c k m → Walk g c n m
  Walk-Edge (step d) e = further d (step e)
  Walk-Edge (further d w) e = further d (Walk-Edge w e)

abbrev pub mark_of : Search → ℕ → ℕ
mark_of s n = get_or s.marks n unmarked

-- The nodes that the search has not come to.
abbrev pub ahead : List ℕ → ℕ
ahead [] = 0
ahead (m ∷ ms) = if (m == visited) || (m == marked) then ahead ms else suc (ahead ms)

pub ahead_le_length : (ms : List ℕ) → ahead ms ≤ length ms
ahead_le_length [] = omega arith
ahead_le_length (m ∷ ms) = ground (arith, ahead_le_length ms)

pub ahead-set-visited : (ms : List ℕ) (n : ℕ) → ahead (set ms n visited) ≤ ahead ms
ahead-set-visited [] n = omega arith
ahead-set-visited (m ∷ ms) zero = ground arith
ahead-set-visited (m ∷ ms) (suc n) = ground (arith, ahead-set-visited ms n)

pub ahead-set-marked :
    (ms : List ℕ) (n : ℕ)
    → n < length ms
    → get_or ms n unmarked ≢ visited
    → get_or ms n unmarked ≢ marked
    → suc (ahead (set ms n marked)) ≡ ahead ms
ahead-set-marked [] n h a b = absurd (omega arith)
ahead-set-marked (m ∷ ms) zero h a b = ground arith
ahead-set-marked (m ∷ ms) (suc n) h a b = ground (arith, ahead-set-marked ms n)
