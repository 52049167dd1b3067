-- ===== src/SimpleHierarchy/Frames.antt =====
-- am_simple_hierarchy_write_to_buffer: the frames of a hierarchy, its description first, then each node
-- before its children. The writers of the frames are generated when the library is built, so they are
-- parameters: each gives the new buffer, and `true` for success.
use aftermath.Base.{
  ℕ, ◌≡◌, refl, Bool, true, false, not, Option, none, some, List, [], ◌∷◌, ◌++◌, arith,
  if◌then◌else◌, sym, append-nil, append_assoc, Bool-cases, inl, inr,
}
use aftermath.WriteBuffer.{WriteBuffer}
use aftermath.SimpleHierarchy.{Node, Children, node, nil, cons, SimpleHierarchy}

-- The fields of `struct am_dsk_hierarchy_description` and `struct am_dsk_hierarchy_node`.
pub data Frame : Type 0 where
  description : ℕ → List ℕ → Frame
  hierarchy_node : ℕ → ℕ → ℕ → List ℕ → Frame

-- The frames of a node and its descendants; the parent of the root has the identifier 0.
unfoldable mutual
  pub node_frames : ℕ → ℕ → Node → List Frame
  node_frames hierarchy_id parent_id (node name id children) =
      hierarchy_node hierarchy_id id parent_id name ∷ children_frames hierarchy_id id children

  pub children_frames : ℕ → ℕ → Children → List Frame
  children_frames hierarchy_id parent_id nil = []
  children_frames hierarchy_id parent_id (cons c cs) =
      node_frames hierarchy_id parent_id c ++ children_frames hierarchy_id parent_id cs

module _ (write : WriteBuffer → Frame → WriteBuffer × Bool) where
  unfoldable mutual
    -- am_simple_hierarchy_node_write_to_buffer; `true` is the return value 0.
    pub node_write_to_buffer : WriteBuffer → ℕ → ℕ → Node → WriteBuffer × Bool
    node_write_to_buffer wb hierarchy_id parent_id (node name id children) =
        let (wb', done) = write wb (hierarchy_node hierarchy_id id parent_id name) in
        let rest = children_write_to_buffer wb' hierarchy_id id children in
        if not done then (wb', false) else rest

    -- The loop over the children of a node.
    pub children_write_to_buffer : WriteBuffer → ℕ → ℕ → Children → WriteBuffer × Bool
    children_write_to_buffer wb hierarchy_id parent_id nil = (wb, true)
    children_write_to_buffer wb hierarchy_id parent_id (cons c cs) =
        let (wb', done) = node_write_to_buffer wb hierarchy_id parent_id c in
        let rest = children_write_to_buffer wb' hierarchy_id parent_id cs in
        if not done then (wb', false) else rest

  -- am_simple_hierarchy_write_to_buffer, for a hierarchy with a root; the code follows the pointer to
  -- the root in any case.
  unfoldable pub write_to_buffer : WriteBuffer → SimpleHierarchy → Option (WriteBuffer × Bool)
  write_to_buffer wb h =
      let (wb', done) = write wb (description h.id h.name) in
      if not done
      then some (wb', false)
      else elim h.root [ none ↦ none | some root ↦ some (node_write_to_buffer wb' h.id 0 root) ]

  -- What the code relies on of the writers: a view of the frames in a buffer, to which a successful
  -- write adds its frame.
  module _ (frames : WriteBuffer → List Frame)
      (written : (b : WriteBuffer) (f : Frame)
        → (write b f).1 ≡ true
        → frames (write b f).0 ≡ frames b ++ f ∷ []) where
    mutual
      unfolding node_write_to_buffer node_frames

      node_write_to_buffer-frames :
          (n : Node) (wb : WriteBuffer) (h p : ℕ)
          → (node_write_to_buffer wb h p n).1 ≡ true
          → frames (node_write_to_buffer wb h p n).0 ≡ frames wb ++ node_frames h p n
      node_write_to_buffer-frames (node name id children) wb h p e =
          let wb' = (write wb (hierarchy_node h id p name)).0 in
          let rest = children_write_to_buffer-frames children wb' h id in
          let first = written wb (hierarchy_node h id p name) in
          let assoc =
            append_assoc (frames wb) (hierarchy_node h id p name ∷ [])
              (children_frames h id children) in
          elim (Bool-cases ((write wb (hierarchy_node h id p name)).1)) [
            | inl t ↦ ground (arith, e, t, rest, first, assoc)
            | inr f ↦ ground (arith, e, f)
          ]

      children_write_to_buffer-frames :
          (cs : Children) (wb : WriteBuffer) (h p : ℕ)
          → (children_write_to_buffer wb h p cs).1 ≡ true
          → frames (children_write_to_buffer wb h p cs).0 ≡ frames wb ++ children_frames h p cs
      children_write_to_buffer-frames nil wb h p e = sym (append-nil (frames wb))
      children_write_to_buffer-frames (cons c cs) wb h p e =
          let wb' = (node_write_to_buffer wb h p c).0 in
          let rest = children_write_to_buffer-frames cs wb' h p in
          let first = node_write_to_buffer-frames c wb h p in
          let assoc = append_assoc (frames wb) (node_frames h p c) (children_frames h p cs) in
          elim (Bool-cases ((node_write_to_buffer wb h p c).1)) [
            | inl t ↦ ground (arith, e, t, rest, first, assoc)
            | inr f ↦ ground (arith, e, f)
          ]

    -- The writers succeed, as they do while there is memory.
    module _ (succeeds : (b : WriteBuffer) (f : Frame) → (write b f).1 ≡ true) where
      mutual
        unfolding node_write_to_buffer

        node_write_to_buffer-done :
            (n : Node) (wb : WriteBuffer) (h p : ℕ) → (node_write_to_buffer wb h p n).1 ≡ true
        node_write_to_buffer-done (node name id children) wb h p =
            let first = succeeds wb (hierarchy_node h id p name) in
            let rest =
              children_write_to_buffer-done children ((write wb (hierarchy_node h id p name)).0) h
                id in
            ground (arith, first, rest)

        children_write_to_buffer-done :
            (cs : Children) (wb : WriteBuffer) (h p : ℕ)
            → (children_write_to_buffer wb h p cs).1 ≡ true
        children_write_to_buffer-done nil wb h p = refl
        children_write_to_buffer-done (cons c cs) wb h p =
            let first = node_write_to_buffer-done c wb h p in
            let rest = children_write_to_buffer-done cs ((node_write_to_buffer wb h p c).0) h p in
            ground (arith, first, rest)

      -- Where each writer of a frame succeeds and adds its frame to the buffer, writing a hierarchy
      -- with a root succeeds, and adds its description, then the frame of each node before those of
      -- its children, with the parent's identifier, and 0 for the root.
      pub write_to_buffer-frames :
          (wb : WriteBuffer) (h : SimpleHierarchy) (root : Node)
          → h.root ≡ some root
          → (wb' : WriteBuffer) × (write_to_buffer wb h ≡ some (wb', true))
            × (frames wb' ≡ frames wb ++ (description h.id h.name ∷ node_frames h.id 0 root))
      unfolding write_to_buffer
      write_to_buffer-frames wb h root e =
          let f = description h.id h.name in
          let wb' = (write wb f).0 in
          let first = succeeds wb f in
          let added = written wb f first in
          let done = node_write_to_buffer-done root wb' h.id 0 in
          let rest = node_write_to_buffer-frames root wb' h.id 0 done in
          let assoc = append_assoc (frames wb) (f ∷ []) (node_frames h.id 0 root) in
          (
            (node_write_to_buffer wb' h.id 0 root).0,
            ground (arith, e, first, done),
            ground (arith, added, rest, assoc),
          )
