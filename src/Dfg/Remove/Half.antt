-- ===== src/Dfg/Remove/Half.antt =====
-- libaftermath-core/src/dfg_graph.c: how many connections am_dfg_graph_remove_node leaves at a port.
use aftermath.Base.{
  ℕ, zero, suc, ◌+◌, ◌/◌, ◌<◌, ◌≤◌, ◌≡◌, refl, arith, Bool, true, false, List, [], ◌∷◌, ltb, inl,
  inr, Bool-cases, length, get_or, ltb→lt,
}
use aftermath.Dfg.{PortRef, Graph, same_port, port_at}
use aftermath.Dfg.Connect.{success, and_then, disconnect}
use aftermath.Dfg.Connect.Links.{Rewired, joined, times}
use aftermath.Dfg.Connect.Buffers.{both_ways}
use aftermath.Dfg.Connect.Graphs.{WellConnected, disconnect-WellConnected, apart}
use aftermath.Dfg.Remove.{remove_connections}

times-get_or :
    (xs : List PortRef) (i : ℕ) (d : PortRef) → i < length xs → 0 < times (get_or xs i d) xs
times-get_or [] i d h = absurd (omega arith)
times-get_or (x ∷ xs) zero d h = ground arith
times-get_or (x ∷ xs) (suc i) d h = ground (arith, times-get_or xs i d)

one_less :
    {g h : Graph} (p q : PortRef)
    → Rewired g h (both_ways p q) []
    → same_port p q ≡ false
    → length (port_at h p).connections + 1 ≡ length (port_at g p).connections
one_less p q r e = ground (arith, r.sizes p, e)

module _ (realloc : ℕ → Bool) (memory : (n : ℕ) → realloc n ≡ true) where
  abbrev Halves : ℕ → Graph → PortRef → ℕ → Type 0
  Halves rounds g p c =
      (h : Graph) × (remove_connections realloc rounds g p c ≡ success h)
      × WellConnected h
      × (length (port_at h p).connections ≡ (length (port_at g p).connections + c) / 2)

  -- One round: one connection less, the counter one more.
  remove_round :
      (rounds : ℕ) (g : Graph) (p : PortRef) (c : ℕ)
      → WellConnected g
      → c < length (port_at g p).connections
      → length (port_at g p).connections ≤ suc rounds + c
      → ((g : Graph) (p : PortRef) (c : ℕ)
          → WellConnected g
          → c ≤ suc (length (port_at g p).connections)
          → length (port_at g p).connections ≤ rounds + c
          → Halves rounds g p c)
      → (h : Graph) × (and_then
            (disconnect realloc g p (get_or (port_at g p).connections c p))
            (λ g'. remove_connections realloc rounds g' p (c + 1))
          ≡ success h)
        × WellConnected h
        × (length (port_at h p).connections ≡ (length (port_at g p).connections + c) / 2)
  remove_round rounds g p c w low enough further =
      let (g', e, w', r) = disconnect-WellConnected realloc g p other memory w there in
      let less = one_less p other r (apart g p other w there) in
      let (h, e', w'', half) =
        further g' p (c + 1) w' (omega (arith, less)) (omega (arith, less)) in
      (h, rw (e) e', w'', omega (arith, less, half))
    where
      other : PortRef
      other = get_or (port_at g p).connections c p

      there : 0 < joined g p other
      there = times-get_or (port_at g p).connections c p low

  -- When there is memory, the loop over the connections of a port ends with success after at most as
  -- many rounds as there are connections. From the start it leaves half of them, rounded down: it
  -- counts up while they become fewer. The graph keeps its shape.
  pub remove_connections-length :
      (rounds : ℕ) (g : Graph) (p : PortRef) (c : ℕ)
      → WellConnected g
      → c ≤ suc (length (port_at g p).connections)
      → length (port_at g p).connections ≤ rounds + c
      → Halves rounds g p c
  unfolding remove_connections
  remove_connections-length zero g p c w low enough = (g, refl, w, omega arith)
  remove_connections-length (suc rounds) g p c w low enough =
      elim (Bool-cases (ltb c (length (port_at g p).connections))) [
        | inr e ↦ (g, rw (e) refl, w, ground arith)
        | inl e ↦
            rw (e)
              (remove_round rounds g p c w (ltb→lt _ _ e) enough (remove_connections-length rounds))
      ]
