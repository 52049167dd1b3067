-- ===== src/Dfg/Connect/Ports.antt =====
-- libaftermath-core/src/dfg_graph.c and dfg_node.c: what connecting two ports does to the
-- connections of all ports.
use aftermath.Base.{
  ℕ, ◌≡◌, ◌⊎◌, refl, arith, Bool, true, false, Option, none, [], ◌∷◌, inl, inr, Option-cases,
  Bool-cases,
}
use aftermath.DfgBuffer.{SampleType}
use aftermath.Dfg.{
  PortRef, Graph, same_port, port_at, IsPort, is_input_port, is_output_port, is_connected,
}
use aftermath.Dfg.Connect.{
  success, failure, null_access, regardless, types_compatible, connect_onesided,
  disconnect_onesided, new_buffer, assign_buffer, connectp,
}
use aftermath.Dfg.Connect.Links.{
  Ends, succeeds, fails, reads_null, regardless-Ends, Rewired, Rewired-Rewired, same_port-port_at,
}
use aftermath.Dfg.Connect.Onesided.{
  Full, OutOfMemory, Ends-map, connect_onesided-Ends, disconnect_onesided-joined,
}
use aftermath.Dfg.Connect.Buffers.{
  Rewired-refl, both_ways, Buffered, undone, undone_one, share_buffer-Ends, new_buffer-Rewired,
}

-- The ports are joined in the end.
pub record Joins (g h : Graph) (src dst : PortRef) : Type 0 where
  pub outgoing : is_output_port (port_at g src) ≡ true
  pub incoming : is_input_port (port_at g dst) ≡ true
  pub free : is_connected (port_at g dst) ≡ false
  pub change : Buffered g h src dst [] (both_ways src dst)

module _ (realloc : ℕ → Bool) (malloc : Bool) (any_type : Option SampleType) where
  -- The buffer or an array can not be had.
  abbrev pub NoMemory : Type 0
  NoMemory = (malloc ≡ false) ⊎ OutOfMemory realloc

  -- The port has no buffer, and memory ends.
  abbrev pub Starved : Graph → PortRef → Type 0
  Starved g src = ((port_at g src).buffer ≡ none) × NoMemory

  -- Why two ports are not connected.
  pub data Refused (g : Graph) (src dst : PortRef) : Type 0 where
    not_output : is_output_port (port_at g src) ≡ false → Refused g src dst
    not_input : is_input_port (port_at g dst) ≡ false → Refused g src dst
    other_type :
        types_compatible any_type (port_at g src).type.sample_type (port_at g dst).type.sample_type
          ≡ false
        → Refused g src dst
    occupied : is_connected (port_at g dst) ≡ true → Refused g src dst
    too_many : Full g src → Refused g src dst
    no_memory : NoMemory → Refused g src dst

  undo-Ends :
      (Why : Type 0) (g h : Graph) (src dst : PortRef)
      → IsPort g src
      → IsPort g dst
      → Rewired g h [] (both_ways src dst)
      → (port_at g src).buffer ≡ none
      → Why
      → Ends
          (λ h'. Buffered g h' src dst [] (both_ways src dst))
          (λ h'. Rewired g h' [] [] × Why)
          (((port_at g src).buffer ≡ none) × Why)
          (regardless
            (disconnect_onesided realloc h dst src)
            (λ g1. regardless (disconnect_onesided realloc g1 src dst) failure))
  undo-Ends Why g h src dst at_src at_dst r lack why =
      regardless-Ends {S = λ h1. Rewired g h1 ((dst, src) ∷ []) (both_ways src dst)} _
        (Ends-map
          (disconnect_onesided-joined realloc h dst src (r.heap dst at_dst)
            (ground (arith, r.links dst src)))
          (λ h1 s. Rewired-Rewired r s) (λ h1 s. Rewired-Rewired r s) (λ n. (lack, why)))
        (λ h1 r1.
          regardless-Ends {S = λ h2. Rewired g h2 (both_ways dst src) (both_ways src dst)} _
            (Ends-map
              (disconnect_onesided-joined realloc h1 src dst (r1.heap src at_src)
                (ground (arith, r1.links src dst)))
              (λ h2 s. Rewired-Rewired r1 s) (λ h2 s. Rewired-Rewired r1 s) (λ n. (lack, why)))
            (λ h2 r2. fails h2 refl (undone g h2 src dst r2, why)))

  assign_buffer-Ends :
      (Why : Type 0) (g h : Graph) (src dst : PortRef)
      → IsPort g src
      → IsPort g dst
      → Rewired g h [] (both_ways src dst)
      → (malloc ≡ false → Why)
      → Ends
          (λ h'. Buffered g h' src dst [] (both_ways src dst))
          (λ h'. Rewired g h' [] [] × Why)
          (((port_at g src).buffer ≡ none) × Why)
          (assign_buffer realloc malloc any_type h src dst)
  unfolding assign_buffer
  assign_buffer-Ends Why g h src dst at_src at_dst r why =
      elim (Option-cases (port_at h src).buffer) [
        | inr (b, e) ↦
            rw (assign_buffer, e)
              (Ends-map
                (share_buffer-Ends (λ h'. Rewired g h' [] [] × Why) _ h b src dst e
                  (r.heap dst at_dst))
                (λ h' (s, at_src, at_dst). record {
                  change = Rewired-Rewired r s;
                  src_buffer = λ n. ground (arith, n, at_src);
                  shared = ground (arith, at_src, at_dst);
                })
                (λ h' s. s) (λ n. n))
        | inl e ↦ elim (Bool-cases malloc) [
          | inl m ↦
              succeeds (new_buffer h src dst) (rw (assign_buffer, e, m) refl)
                (made (new_buffer-Rewired h src dst (r.heap src at_src) (r.heap dst at_dst)))
          | inr m ↦
              rw (assign_buffer, e, m)
                (undo-Ends Why g h src dst at_src at_dst r (r.kept src e) (why m))
        ]
      ]
    where
      made :
          {h' : Graph} → Buffered h h' src dst [] [] → Buffered g h' src dst [] (both_ways src dst)
      made b = record {
        change = Rewired-Rewired r b.change;
        src_buffer = b.src_buffer;
        shared = b.shared;
      }

  -- The second port has no connection yet, so that its array can grow within the words.
  not_full :
      (g g1 : Graph) (src dst : PortRef)
      → same_port src dst ≡ false
      → is_connected (port_at g dst) ≡ false
      → Rewired g g1 [] ((src, dst) ∷ [])
      → Full g1 dst ⊎ OutOfMemory realloc
      → NoMemory
  unfolding is_connected
  not_full g g1 src dst apart free r (inl full) =
      absurd (ground (arith, full, r.sizes dst, apart, free))
  not_full g g1 src dst apart free r (inr out) = inr out

  -- The first side is taken back.
  one_side :
      (g g1 : Graph) (src dst : PortRef)
      → IsPort g src
      → Rewired g g1 [] ((src, dst) ∷ [])
      → NoMemory
      → Ends
          (λ h. Buffered g h src dst [] (both_ways src dst))
          (λ h. Rewired g h [] [] × Refused g src dst)
          (Starved g src)
          (regardless (disconnect_onesided realloc g1 src dst) failure)
  one_side g g1 src dst at_src r why =
      regardless-Ends {S = λ h. Rewired g h ((src, dst) ∷ []) ((src, dst) ∷ [])} _
        (Ends-map
          (disconnect_onesided-joined realloc g1 src dst (r.heap src at_src)
            (ground (arith, r.links src dst)))
          (λ h s. Rewired-Rewired r s) (λ h s. Rewired-Rewired r s) (λ n. (r.kept src n, why)))
        (λ h r'. fails h refl (undone_one g h src dst r', no_memory why))

  both_sides-Ends :
      (g : Graph) (src dst : PortRef)
      → IsPort g src
      → IsPort g dst
      → same_port src dst ≡ false
      → is_connected (port_at g dst) ≡ false
      → Ends
          (λ h. Buffered g h src dst [] (both_ways src dst))
          (λ h. Rewired g h [] [] × Refused g src dst)
          (Starved g src)
          (elim (connect_onesided realloc g src dst) [
            | success g1 ↦ elim (connect_onesided realloc g1 dst src) [
              | success g2 ↦ assign_buffer realloc malloc any_type g2 src dst
              | failure g2 ↦ regardless (disconnect_onesided realloc g2 src dst) failure
              | null_access ↦ null_access
            ]
            | failure g1 ↦ failure g1
            | null_access ↦ null_access
          ])
  both_sides-Ends g src dst at_src at_dst apart free =
      elim (connect_onesided-Ends realloc (Starved g src) g src dst at_src) [
        | fails g1 e (same, why) ↦
            rw (e, same)
              (fails g refl (
                Rewired-refl g,
                elim why [ inl full ↦ too_many full | inr out ↦ no_memory (inr out) ],
              ))
        | reads_null e n ↦ reads_null (rw (e) refl) n
        | succeeds g1 e r ↦
            rw (e)
              (elim (connect_onesided-Ends realloc (Starved g src) g1 dst src (r.heap dst at_dst)) [
                | reads_null e' n ↦ reads_null (rw (e') refl) n
                | succeeds g2 e' r' ↦ rw (e') (
                    Ends-map
                      (assign_buffer-Ends NoMemory g g2 src dst at_src at_dst (Rewired-Rewired r r')
                        (λ m. inl m))
                      (λ h b. b) (λ h (r, why). (r, no_memory why)) (λ n. n))
                | fails g2 e' (same, why) ↦
                    rw (e', same)
                      (one_side g g1 src dst at_src r (not_full g g1 src dst apart free r why))
              ])
      ]

  pub connectp-Ends :
      (g : Graph) (src dst : PortRef)
      → IsPort g src
      → IsPort g dst
      → ((a : PortRef) → is_input_port (port_at g a) ≡ true → is_output_port (port_at g a) ≡ false)
      → Ends
          (λ h. Joins g h src dst)
          (λ h. Rewired g h [] [] × Refused g src dst)
          (Starved g src)
          (connectp realloc malloc any_type g src dst)
  unfolding connectp
  connectp-Ends g src dst at_src at_dst one_way =
      elim (Bool-cases (is_output_port (port_at g src))) [
        | inr o ↦ fails g (rw (o) refl) (Rewired-refl g, not_output o)
        | inl o ↦ elim (Bool-cases (is_input_port (port_at g dst))) [
          | inr i ↦ fails g (rw (o, i) refl) (Rewired-refl g, not_input i)
          | inl i ↦
              elim (Bool-cases (
                types_compatible any_type (port_at g src).type.sample_type
                  (port_at g dst).type.sample_type)) [
                    | inr t ↦ fails g (rw (o, i, t) refl) (Rewired-refl g, other_type t)
                    | inl t ↦ elim (Bool-cases (is_connected (port_at g dst))) [
                      | inl c ↦ fails g (rw (o, i, t, c) refl) (Rewired-refl g, occupied c)
                      | inr c ↦
                          rw (o, i, t, c)
                            (Ends-map
                              (both_sides-Ends g src dst at_src at_dst
                                (ground (arith, o, one_way dst i, same_port-port_at g src dst)) c)
                              (λ h r. record { outgoing = o; incoming = i; free = c; change = r })
                              (λ h r. r) (λ n. n))
                    ]
                  ]
        ]
      ]
