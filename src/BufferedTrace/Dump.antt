-- ===== src/BufferedTrace/Dump.antt =====
-- am_buffered_trace_dump_fp: what reaches the file.
use aftermath.Base.{
  ℕ, ◌≡◌, refl, sym, Bool, true, List, [], ◌∷◌, ◌++◌, append-nil, append_assoc, arith, length, ◌==◌,
  Bool-cases, inl, inr,
}
use aftermath.WriteBuffer
use aftermath.WriteBuffer.{WriteBuffer}
use aftermath.WriteBuffer.Log.{IsValid, contents, dump_fp_lem}
use aftermath.EventCollection
use aftermath.EventCollection.{EventCollection}
use aftermath.BufferedTrace.{BufferedTrace, dump_collections, dump_fp}

-- The buffer of every collection is valid.
abbrev pub AllValid : List EventCollection → Type 0
AllValid [] = Unit {0}
AllValid (c ∷ cs) = IsValid c.buffer × AllValid cs

-- The bytes of all collections that are not dumped, in the order of the collections.
abbrev pub all_contents : List EventCollection → List ℕ
all_contents [] = []
all_contents (c ∷ cs) = contents c.buffer ++ all_contents cs

nil_of_length : (xs : List ℕ) → (length xs == 0) ≡ true → xs ≡ []
nil_of_length [] e = refl
nil_of_length (x ∷ xs) e = ground (arith, e)

-- A file to which a write adds its bytes.
module _ {ℓ} {F : Type ℓ} (fwrite : List ℕ → F → F × Bool) (bytes : F → List ℕ)
    (appends : (bs : List ℕ) (fp : F)
      → ((fwrite bs fp).1 ≡ true) × (bytes (fwrite bs fp).0 ≡ bytes fp ++ bs)) where
  dump_buffer :
      (b : WriteBuffer) (fp : F)
      → IsValid b
      → let (b', fp', done) = WriteBuffer.dump_fp fwrite b fp in
        (done ≡ true) × (bytes fp' ≡ bytes fp ++ contents b) × (contents b' ≡ [])
  dump_buffer b fp v =
      let d = dump_fp_lem fwrite b fp v in
      let w = appends (contents b) fp in
      elim (Bool-cases (length (contents b) == 0)) [
        | inl t ↦
            let none_left = nil_of_length (contents b) t in
            (
              ground (arith, d.0, t),
              rw (d.2, t, none_left, append-nil (bytes fp)) refl,
              ground (arith, d.1, d.0, t),
            )
        | inr f ↦
            (ground (arith, d.0, f, w.0), rw (d.2, f, w.1) refl, ground (arith, d.1, d.0, w.0))
      ]

  dump_collections_lem :
      (cs : List EventCollection) (fp : F)
      → AllValid cs
      → let (cs', fp', done) = dump_collections fwrite cs fp in
        (done ≡ true) × (bytes fp' ≡ bytes fp ++ all_contents cs) × (all_contents cs' ≡ [])
  unfolding dump_collections EventCollection.dump_fp
  dump_collections_lem [] fp v = (refl, sym (append-nil (bytes fp)), refl)
  dump_collections_lem (c ∷ cs) fp (vc, vs) =
      let first = dump_buffer c.buffer fp vc in
      let rest = dump_collections_lem cs ((WriteBuffer.dump_fp fwrite c.buffer fp).1) vs in
      let assoc = append_assoc (bytes fp) (contents c.buffer) (all_contents cs) in
      ground (arith, first, rest, assoc)

  -- Where the buffers are valid and writes to the file succeed, a dump of the trace succeeds, adds to
  -- the file the trace-wide data and then those of the collections in their order, and leaves all
  -- buffers empty.
  pub dump_fp-contents :
      (bt : BufferedTrace) (fp : F)
      → IsValid bt.buffer
      → AllValid bt.collections
      → let (bt', fp', done) = dump_fp fwrite bt fp in
        (done ≡ true)
        × (bytes fp' ≡ bytes fp ++ (contents bt.buffer ++ all_contents bt.collections))
        × (contents bt'.buffer ≡ [])
        × (all_contents bt'.collections ≡ [])
  unfolding dump_fp
  dump_fp-contents bt fp v vs =
      let first = dump_buffer bt.buffer fp v in
      let rest =
        dump_collections_lem bt.collections ((WriteBuffer.dump_fp fwrite bt.buffer fp).1) vs in
      let assoc = append_assoc (bytes fp) (contents bt.buffer) (all_contents bt.collections) in
      ground (arith, first, rest, assoc)
