-- ===== src/Dfg/Connect/Onesided.antt =====
-- libaftermath-core/src/dfg_node.c: what the one-sided operations do to the connections of all ports.
use aftermath.Base.{
  ℕ, ◌+◌, ◌*◌, ◌/◌, ◌<◌, ◌≤◌, ◌≡◌, ◌⊎◌, refl, sym, arith, Bool, true, false, ◌||◌, Option, none,
  some, List, [], ◌∷◌, ◌++◌, inl, inr, Option-cases, Bool-cases, ◌==◌, ltb, if◌then◌else◌, length,
  length-append,
}
use aftermath.Base.Words.{word_max}
use aftermath.Dfg.{PortRef, Graph, port_at, set_port, IsPort, is_input_port}
use aftermath.Dfg.Connect.{
  Result, inc_ref, dec_ref, remove_first, connect_onesided, disconnect_onesided,
}
use aftermath.Dfg.Connect.Links.{
  Ends, succeeds, fails, reads_null, and_then-Ends, Rewired, joined, nodes-Rewired, Rewired-Rewired,
  set_port_adds, set_port_takes, remove_first-times, remove_first-length, remove_first-none,
  times-append,
}

pub Ends-map :
    {S S' F F' : Graph → Type 0} {N N' : Type 0} {r : Result}
    → Ends S F N r
    → ((g : Graph) → S g → S' g)
    → ((g : Graph) → F g → F' g)
    → (N → N')
    → Ends S' F' N' r
Ends-map (succeeds g e s) f f' k = succeeds g e (f g s)
Ends-map (fails g e s) f f' k = fails g e (f' g s)
Ends-map (reads_null e n) f f' k = reads_null e (k n)

pub inc_ref-Ends :
    (F : Graph → Type 0) (g : Graph) (b : Option ℕ)
    → Ends (λ h. Rewired g h [] []) F (b ≡ none) (inc_ref g b)
unfolding inc_ref
inc_ref-Ends F g none = reads_null refl refl
inc_ref-Ends F g (some b) = succeeds _ refl (nodes-Rewired g _ refl)

pub dec_ref-Ends :
    (F : Graph → Type 0) (g : Graph) (b : Option ℕ)
    → Ends (λ h. h.nodes ≡ g.nodes) F (b ≡ none) (dec_ref g b)
unfolding dec_ref
dec_ref-Ends F g none = reads_null refl refl
dec_ref-Ends F g (some b) = succeeds _ refl refl

-- The array of a port's connections cannot grow within the words.
abbrev pub Full : Graph → PortRef → Type 0
Full g p = word_max / 8 ≤ length (port_at g p).connections

-- An array can not be had.
abbrev pub OutOfMemory : (ℕ → Bool) → Type 0
OutOfMemory realloc = (n : ℕ) × (realloc n ≡ false)

module _ (realloc : ℕ → Bool) where
  pub connect_onesided-Ends :
      (N : Type 0) (g : Graph) (p other : PortRef)
      → IsPort g p
      → Ends
          (λ h. Rewired g h [] ((p, other) ∷ []))
          (λ h. (h ≡ g) × (Full g p ⊎ OutOfMemory realloc))
          N
          (connect_onesided realloc g p other)
  unfolding connect_onesided
  connect_onesided-Ends N g p other at_p =
      elim (Bool-cases (
        (length (port_at g p).connections == word_max)
        || ltb (word_max / 8) (length (port_at g p).connections + 1))) [
          | inl e ↦ fails g (rw (e) refl) (refl, inl (full e))
          | inr e ↦ elim (Bool-cases (realloc ((length (port_at g p).connections + 1) * 8))) [
            | inr e' ↦ fails g (rw (e, e') refl) (refl, inr (_, e'))
            | inl e' ↦
                succeeds
                  (set_port g p (record (port_at g p) {
                    connections = (port_at g p).connections ++ (other ∷ []);
                    generation =
                        if is_input_port (port_at g p) then 0 else (port_at g p).generation;
                  }))
                  (rw (e, e') refl)
                  (set_port_adds g p other _ at_p refl (λ n. n)
                    (λ b. times-append b (port_at g p).connections (other ∷ []))
                    (omega (arith, length-append (port_at g p).connections (other ∷ []))))
          ]
        ]
    where
      full :
          ((length (port_at g p).connections == word_max)
              || ltb (word_max / 8) (length (port_at g p).connections + 1))
            ≡ true
          → Full g p
      full e = ground (arith, e)

  -- The write of the shorter array, in a graph that only differs in its buffers.
  removed-Rewired :
      (g h : Graph) (p other : PortRef) (xs : List PortRef)
      → h.nodes ≡ g.nodes
      → IsPort g p
      → remove_first other (port_at g p).connections ≡ some xs
      → Rewired g (set_port h p (record (port_at g p) { connections = xs })) ((p, other) ∷ []) []
  removed-Rewired g h p other xs e at_p found = Rewired-Rewired same (
      set_port_takes h p other _ (same.heap p at_p) (sym (same.types p))
        ((nodes-Rewired h g (sym e)).kept p)
        (λ b.
          ground
            (arith, remove_first-times other b (port_at g p).connections xs found, same.links p b))
        (ground
          (arith, remove_first-length other (port_at g p).connections xs found, same.sizes p)))
    where
      same : Rewired g h [] []
      same = nodes-Rewired g h e

  pub disconnect_onesided-Ends :
      (g : Graph) (p other : PortRef)
      → IsPort g p
      → Ends
          (λ h. Rewired g h ((p, other) ∷ []) [])
          (λ h.
            (Rewired g h ((p, other) ∷ []) [] × (n : ℕ) × (realloc n ≡ false))
            ⊎ Rewired g h [] [] × (joined g p other ≡ 0))
          ((port_at g p).buffer ≡ none)
          (disconnect_onesided realloc g p other)
  unfolding disconnect_onesided
  disconnect_onesided-Ends g p other at_p =
      and_then-Ends _ (dec_ref-Ends _ g (port_at g p).buffer) (λ h e.
        elim (Option-cases (remove_first other (port_at g p).connections)) [
          | inl f ↦
              fails h (rw (f) refl)
                (inr (nodes-Rewired g h e, remove_first-none other (port_at g p).connections f))
          | inr (xs, f) ↦ elim (Bool-cases (length xs == 0)) [
            | inl z ↦ succeeds _ (rw (f, z) refl) (removed-Rewired g h p other xs e at_p f)
            | inr z ↦ elim (Bool-cases (realloc (length xs * 8))) [
              | inl r ↦ succeeds _ (rw (f, z, r) refl) (removed-Rewired g h p other xs e at_p f)
              | inr r ↦
                  fails _ (rw (f, z, r) refl) (inl (removed-Rewired g h p other xs e at_p f, _, r))
            ]
          ]
        ])

  -- A connection that is there is taken away whatever is returned.
  pub disconnect_onesided-joined :
      (g : Graph) (p other : PortRef)
      → IsPort g p
      → 0 < joined g p other
      → Ends
          (λ h. Rewired g h ((p, other) ∷ []) [])
          (λ h. Rewired g h ((p, other) ∷ []) [])
          ((port_at g p).buffer ≡ none)
          (disconnect_onesided realloc g p other)
  disconnect_onesided-joined g p other at_p there =
      Ends-map (disconnect_onesided-Ends g p other at_p) (λ h r. r)
        (λ h c. elim c [ inl (r, n, e) ↦ r | inr (r, none_there) ↦ absurd (omega arith) ]) (λ n. n)

  -- With memory for the shorter array a failure means that there was nothing to take away.
  pub disconnect_onesided-memory :
      (g : Graph) (p other : PortRef)
      → ((n : ℕ) → realloc n ≡ true)
      → IsPort g p
      → Ends
          (λ h. Rewired g h ((p, other) ∷ []) [])
          (λ h. Rewired g h [] [] × (joined g p other ≡ 0))
          ((port_at g p).buffer ≡ none)
          (disconnect_onesided realloc g p other)
  disconnect_onesided-memory g p other memory at_p =
      Ends-map (disconnect_onesided-Ends g p other at_p) (λ h r. r)
        (λ h c. elim c [ inl (r, n, e) ↦ ground (arith, memory n) | inr unchanged ↦ unchanged ])
        (λ n. n)
