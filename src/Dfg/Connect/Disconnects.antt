-- ===== src/Dfg/Connect/Disconnects.antt =====
-- libaftermath-core/src/dfg_node.c: what disconnecting two ports does to the connections of all ports.
use aftermath.Base.{ℕ, ◌≡◌, ◌⊎◌, arith, Bool, true, false, none, [], ◌∷◌, inl, inr}
use aftermath.Dfg.{PortRef, Graph, disconnect_called, same_port, node_at, port_at, IsPort}
use aftermath.Dfg.Connect.{called, disconnect}
use aftermath.Dfg.Connect.Links.{Ends, and_then-Ends, Rewired, joined, Rewired-Rewired}
use aftermath.Dfg.Connect.Onesided.{Ends-map, disconnect_onesided-memory}
use aftermath.Dfg.Connect.Buffers.{called-Rewired, both_ways}

-- When there is memory, two ports joined from both sides are taken apart.
pub disconnect-Ends :
    (realloc : ℕ → Bool) (g : Graph) (p q : PortRef)
    → ((n : ℕ) → realloc n ≡ true)
    → IsPort g p
    → IsPort g q
    → joined g p q ≡ joined g q p
    → (same_port p q ≡ false) ⊎ (joined g p q ≡ 0)
    → Ends
        (λ h. Rewired g h (both_ways p q) [])
        (λ h. Rewired g h [] [] × (joined g p q ≡ 0))
        (((port_at g p).buffer ≡ none) ⊎ ((port_at g q).buffer ≡ none))
        (disconnect realloc g p q)
unfolding disconnect
disconnect-Ends realloc g p q memory at_p at_q same apart =
    and_then-Ends {S = λ h. Rewired g h ((p, q) ∷ []) []} _
      (Ends-map (disconnect_onesided-memory realloc _ p q memory (calls.heap p at_p))
        (λ h r. Rewired-Rewired calls r)
        (λ h (r, z). (Rewired-Rewired calls r, ground (arith, z, calls.links p q)))
        (λ n. inl (calls.kept p n)))
      (λ h r.
        Ends-map (disconnect_onesided-memory realloc h q p memory (r.heap q at_q))
          (λ h' s. Rewired-Rewired r s)
          (λ h' (s, z). ground (arith, z, r.links p q, r.links q p, same, apart))
          (λ n. inr (r.kept q n)))
  where
    calls :
        Rewired g
          (called
            (called g (node_at g q.node).functions.disconnect (disconnect_called q))
            (node_at g p.node).functions.disconnect
            (disconnect_called p))
          []
          []
    calls = Rewired-Rewired (called-Rewired g _ _) (called-Rewired _ _ _)
