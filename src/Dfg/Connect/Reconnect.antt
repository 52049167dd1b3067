-- ===== src/Dfg/Connect/Reconnect.antt =====
-- libaftermath-core/src/dfg_graph.c: am_dfg_graph_reconnectp, which moves a connection.
use aftermath.Base.{ℕ, ◌<◌, ◌≡◌, ◌⊎◌, refl, arith, Bool, true, Option, none, [], inl, inr}
use aftermath.DfgBuffer.{SampleType}
use aftermath.Dfg.{PortRef, Graph, port_at, IsPort}
use aftermath.Dfg.Connect.{success, failure, null_access, and_then, connectp, reconnectp, dec_ref}
use aftermath.Dfg.Connect.Links.{
  Ends, succeeds, fails, reads_null, and_then-Ends, Rewired, Rewired-Rewired, nodes-Rewired, joined,
}
use aftermath.Dfg.Connect.Onesided.{Ends-map, inc_ref-Ends, dec_ref-Ends}
use aftermath.Dfg.Connect.Buffers.{both_ways}
use aftermath.Dfg.Connect.Graphs.{
  WellConnected, Rewired-WellConnected, connectp-WellConnected, disconnect-WellConnected,
  times-length,
}

module _ (realloc : ℕ → Bool) (malloc : Bool) (any_type : Option SampleType) (g : Graph)
    (src old_dst new_dst : PortRef) where
  abbrev Moved : Graph → Type 0
  Moved h = WellConnected h × Rewired g h (both_ways src old_dst) (both_ways src new_dst)

  abbrev Lost : Graph → Type 0
  Lost h = WellConnected h × Rewired g h (both_ways src old_dst) []

  -- The end, after the disconnection.
  connect_new-Ends :
      (g2 : Graph)
      → WellConnected g2
      → Rewired g g2 (both_ways src old_dst) []
      → IsPort g src
      → IsPort g new_dst
      → Ends Moved Lost
          ((port_at g src).buffer ≡ none)
          (elim (connectp realloc malloc any_type g2 src new_dst) [
            | success g3 ↦ dec_ref g3 (port_at g3 src).buffer
            | failure g3 ↦ and_then (dec_ref g3 (port_at g3 src).buffer) failure
            | null_access ↦ null_access
          ])
  connect_new-Ends g2 w2 r2 at_src at_new =
      elim (connectp-WellConnected realloc malloc any_type g2 src new_dst (r2.heap src at_src)
        (r2.heap new_dst at_new) w2) [
          | succeeds g3 e (w3, j) ↦ rw (e) (
              Ends-map (dec_ref-Ends Lost g3 (port_at g3 src).buffer)
                (λ h n. (
                  Rewired-WellConnected (nodes-Rewired g3 h n) w3,
                  Rewired-Rewired r2 (Rewired-Rewired j.change.change (nodes-Rewired g3 h n)),
                ))
                (λ h l. l) (λ n. absurd (j.change.src_buffer n)))
          | fails g3 e (w3, r, why) ↦ rw (e) (
              and_then-Ends _
                (Ends-map (dec_ref-Ends Lost g3 (port_at g3 src).buffer) (λ h n. n) (λ h l. l)
                  (λ n. r2.kept src (r.kept src n)))
                (λ h n. fails h refl (
                  Rewired-WellConnected (nodes-Rewired g3 h n) w3,
                  Rewired-Rewired r2 (Rewired-Rewired r (nodes-Rewired g3 h n)),
                )))
          | reads_null e n ↦ reads_null (rw (e) refl) (r2.kept src n.0)
        ]

  reconnectp-Ends :
      ((n : ℕ) → realloc n ≡ true)
      → WellConnected g
      → 0 < joined g src old_dst
      → IsPort g new_dst
      → Ends Moved Lost
          ((port_at g src).buffer ≡ none)
          (reconnectp realloc malloc any_type g src old_dst new_dst)
  unfolding reconnectp
  reconnectp-Ends memory w there at_new =
      and_then-Ends _ (inc_ref-Ends Lost g (port_at g src).buffer) (λ g1 r1.
        let (g2, e, w2, r2) =
          disconnect-WellConnected realloc g1 src old_dst memory (Rewired-WellConnected r1 w)
            (omega (arith, r1.links src old_dst)) in
        rw (e) (
          connect_new-Ends g2 w2 (Rewired-Rewired r1 r2)
            (w.valid old_dst src (omega (arith, w.symmetric src old_dst))) at_new))

-- When there is memory, moving a connection to another input port either succeeds, with the old
-- connection replaced by the new one, or fails with the old connection gone and nothing in its place.
pub reconnectp-WellConnected :
    (realloc : ℕ → Bool) (malloc : Bool) (any_type : Option SampleType) (g : Graph)
    (src old_dst new_dst : PortRef)
    → ((n : ℕ) → realloc n ≡ true)
    → WellConnected g
    → 0 < joined g src old_dst
    → IsPort g new_dst
    → (h : Graph) × WellConnected h
      × ((reconnectp realloc malloc any_type g src old_dst new_dst ≡ success h)
            × Rewired g h (both_ways src old_dst) (both_ways src new_dst)
          ⊎ (reconnectp realloc malloc any_type g src old_dst new_dst ≡ failure h)
            × Rewired g h (both_ways src old_dst) [])
reconnectp-WellConnected realloc malloc any_type g src old_dst new_dst memory w there at_new =
    elim (reconnectp-Ends realloc malloc any_type g src old_dst new_dst memory w there at_new) [
      | succeeds h e (w', r) ↦ (h, w', inl (e, r))
      | fails h e (w', r) ↦ (h, w', inr (e, r))
      | reads_null e n ↦
          absurd
            (w.buffered src (omega (arith, times-length old_dst (port_at g src).connections)) n)
    ]
