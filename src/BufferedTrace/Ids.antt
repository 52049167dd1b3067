-- ===== src/BufferedTrace/Ids.antt =====
-- The identifiers of event collections and hierarchies in a trace that is sampled.
use aftermath.Base.{
  ℕ, ◌+◌, ◌^◌, ◌≤◌, ◌<◌, ◌≡◌, ◌≢◌, refl, sym, true, false, Option, none, some, List, [], ◌∷◌, ◌++◌,
  arith, length, ◌==◌, ltb, if◌then◌else◌, Bool-cases, inl, inr, ◌⊎◌,
}
use aftermath.SafeAlloc.{grow_array_safe}
use aftermath.WriteBuffer
use aftermath.EventCollection
use aftermath.EventCollection.{EventCollection}
use aftermath.SimpleHierarchy.{SimpleHierarchy}
use aftermath.BufferedTrace.{
  BufferedTrace, next_id, has_hierarchy, add_collection, new_collection, add_hierarchy,
}

-- No collection has a greater identifier.
abbrev pub CollectionsUpTo : List EventCollection → ℕ → Type 0
CollectionsUpTo [] highest = Unit {0}
CollectionsUpTo (c ∷ cs) highest = (c.id ≤ highest) × CollectionsUpTo cs highest

-- No collection has the identifier.
abbrev pub NoCollection : List EventCollection → ℕ → Type 0
NoCollection [] id = Unit {0}
NoCollection (c ∷ cs) id = (c.id ≢ id) × NoCollection cs id

abbrev pub HierarchiesUpTo : List SimpleHierarchy → ℕ → Type 0
HierarchiesUpTo [] highest = Unit {0}
HierarchiesUpTo (h ∷ hs) highest = (h.id ≤ highest) × HierarchiesUpTo hs highest

abbrev pub NoHierarchy : List SimpleHierarchy → ℕ → Type 0
NoHierarchy [] id = Unit {0}
NoHierarchy (h ∷ hs) id = (h.id ≢ id) × NoHierarchy hs id

-- No two hierarchies share an identifier.
abbrev pub Distinct : List SimpleHierarchy → Type 0
Distinct [] = Unit {0}
Distinct (h ∷ hs) = NoHierarchy hs h.id × Distinct hs

-- The highest identifiers bound those in use, and those of the hierarchies differ.
pub record HasIds (bt : BufferedTrace) : Type 0 where
  pub collections : CollectionsUpTo bt.collections bt.highest_collection_id
  pub hierarchies : HierarchiesUpTo bt.hierarchies bt.highest_hierarchy_id
  pub distinct : Distinct bt.hierarchies

collections_grow :
    (cs : List EventCollection) (c : EventCollection) (m n : ℕ)
    → CollectionsUpTo cs m
    → m ≤ n
    → c.id ≤ n
    → CollectionsUpTo (cs ++ c ∷ []) n
collections_grow [] c m n u le lc = (lc, tt)
collections_grow (d ∷ cs) c m n (ud, us) le lc =
    (ground (arith, ud, le), collections_grow cs c m n us le lc)

above-NoCollection :
    (cs : List EventCollection) (m id : ℕ) → CollectionsUpTo cs m → m < id → NoCollection cs id
above-NoCollection [] m id u h = tt
above-NoCollection (c ∷ cs) m id (uc, us) h =
    (ground (arith, uc, h), above-NoCollection cs m id us h)

-- The identifier of a new collection is free.
next-NoCollection :
    (cs : List EventCollection) (m : ℕ)
    → CollectionsUpTo cs m
    → m + 1 < 2 ^ 32
    → NoCollection cs (if length cs == 0 then 0 else next_id m)
next-NoCollection [] m u h = tt
next-NoCollection (c ∷ cs) m u h =
    above-NoCollection (c ∷ cs) m (if length (c ∷ cs) == 0 then 0 else next_id m) u
      (ground (arith, h))

hierarchies_grow :
    (hs : List SimpleHierarchy) (h : SimpleHierarchy) (m n : ℕ)
    → HierarchiesUpTo hs m
    → m ≤ n
    → h.id ≤ n
    → HierarchiesUpTo (hs ++ h ∷ []) n
hierarchies_grow [] h m n u le lc = (lc, tt)
hierarchies_grow (d ∷ hs) h m n (ud, us) le lc =
    (ground (arith, ud, le), hierarchies_grow hs h m n us le lc)

has_hierarchy-bound :
    (hs : List SimpleHierarchy) (id m : ℕ)
    → has_hierarchy hs id ≡ true
    → HierarchiesUpTo hs m
    → id ≤ m
unfolding has_hierarchy
has_hierarchy-bound [] id m e u = ground (arith, e)
has_hierarchy-bound (h ∷ hs) id m e (uh, us) = elim (Bool-cases (has_hierarchy hs id)) [
  | inl t ↦ has_hierarchy-bound hs id m t us
  | inr f ↦ ground (arith, e, f, uh)
]

has_hierarchy-NoHierarchy :
    (hs : List SimpleHierarchy) (id : ℕ) → has_hierarchy hs id ≡ false → NoHierarchy hs id
unfolding has_hierarchy
has_hierarchy-NoHierarchy [] id e = tt
has_hierarchy-NoHierarchy (h ∷ hs) id e = elim (Bool-cases (h.id == id)) [
  | inl t ↦ ground (arith, e, t)
  | inr f ↦ (ground (arith, f), has_hierarchy-NoHierarchy hs id (ground (arith, e, f)))
]

NoHierarchy-grow :
    (hs : List SimpleHierarchy) (h : SimpleHierarchy) (id : ℕ)
    → NoHierarchy hs id
    → h.id ≢ id
    → NoHierarchy (hs ++ h ∷ []) id
NoHierarchy-grow [] h id u ne = (ne, tt)
NoHierarchy-grow (d ∷ hs) h id (ud, us) ne = (ud, NoHierarchy-grow hs h id us ne)

Distinct-grow :
    (hs : List SimpleHierarchy) (h : SimpleHierarchy)
    → Distinct hs
    → NoHierarchy hs h.id
    → Distinct (hs ++ h ∷ [])
Distinct-grow [] h u a = (tt, tt)
Distinct-grow (d ∷ hs) h (ud, us) (ad, rest) =
    (NoHierarchy-grow hs h d.id ud (λ e. ad (sym e)), Distinct-grow hs h us rest)

-- The array has room for one more pointer, and the allocator gives it.
abbrev pub Grows {ℓ} : {M : Type ℓ} → (ℕ → Option M) → ℕ → Type ℓ
Grows {M = M} realloc n = (m : M) × (grow_array_safe realloc n 1 8 ≡ some m)

module _ {ℓ} {M : Type ℓ} (realloc : ℕ → Option M) where
  -- Adding a collection to a trace whose array can grow succeeds and puts it last; the identifiers
  -- stay bounded by the highest.
  pub add_collection-HasIds :
      (bt : BufferedTrace) (bec : EventCollection)
      → HasIds bt
      → Grows realloc (length bt.collections)
      → (bt' : BufferedTrace) × (add_collection realloc bt bec ≡ some bt')
        × (bt'.collections ≡ bt.collections ++ bec ∷ [])
        × HasIds bt'
  unfolding add_collection
  add_collection-HasIds bt bec v (m, e) =
      let highest =
        if ltb bt.highest_collection_id bec.id then bec.id else bt.highest_collection_id in
      let grown =
        collections_grow bt.collections bec bt.highest_collection_id highest v.collections
          (ground (arith)) (ground (arith)) in
      (
        record bt { collections = bt.collections ++ bec ∷ []; highest_collection_id = highest },
        rw (add_collection, e) refl,
        refl,
        record { collections = grown; hierarchies = v.hierarchies; distinct = v.distinct },
      )

  -- Where the identifiers in use are at most the highest, the memory is given and the next identifier does not wrap, the new collection has an
  -- identifier that no collection of the trace has, and is its last one.
  pub new_collection-fresh :
      (malloc : ℕ → Option (List ℕ)) (bt : BufferedTrace) (size : ℕ) (memory : List ℕ)
      → HasIds bt
      → bt.highest_collection_id + 1 < 2 ^ 32
      → malloc size ≡ some memory
      → Grows realloc (length bt.collections)
      → (bec : EventCollection) × (bt' : BufferedTrace) × (new_collection realloc true malloc bt
            size
          ≡ some (bec, bt'))
        × (bt'.collections ≡ bt.collections ++ bec ∷ [])
        × NoCollection bt.collections bec.id
        × HasIds bt'
  unfolding new_collection EventCollection.init WriteBuffer.init
  new_collection-fresh malloc bt size memory v fits given grows =
      let id = if length bt.collections == 0 then 0 else next_id bt.highest_collection_id in
      let bec : EventCollection = record {
        buffer = record { bytes = memory; size = size; used = 0 };
        id = id;
      } in
      let (bt', added, appended, v') = add_collection-HasIds bt bec v grows in
      (
        bec,
        bt',
        rw (given, added) refl,
        appended,
        next-NoCollection bt.collections bt.highest_collection_id v.collections fits,
        v',
      )

  -- In a trace whose identifiers are bounded by the highest and differ for hierarchies, and whose array
  -- can grow, adding a hierarchy fails exactly when the trace has a hierarchy
  -- with its identifier. Otherwise the hierarchy is the last one, and the identifiers of hierarchies
  -- stay pairwise different and bounded by the highest, also where the next identifier has wrapped.
  pub add_hierarchy-HasIds :
      (bt : BufferedTrace) (h : SimpleHierarchy)
      → HasIds bt
      → Grows realloc (length bt.hierarchies)
      → ((has_hierarchy bt.hierarchies h.id ≡ true) × (add_hierarchy realloc bt h ≡ none))
        ⊎ ((bt' : BufferedTrace) × (add_hierarchy realloc bt h ≡ some bt')
            × NoHierarchy bt.hierarchies h.id
            × (bt'.hierarchies ≡ bt.hierarchies ++ h ∷ [])
            × HasIds bt')
  unfolding add_hierarchy
  add_hierarchy-HasIds bt h v (m, e) =
      let highest = if ltb bt.highest_hierarchy_id h.id then h.id else bt.highest_hierarchy_id in
      let grown =
        hierarchies_grow bt.hierarchies h bt.highest_hierarchy_id highest v.hierarchies
          (ground (arith)) (ground (arith)) in
      elim (Bool-cases (has_hierarchy bt.hierarchies h.id)) [
        | inl t ↦ inl (
          t,
          ground (
            arith,
            t,
            has_hierarchy-bound bt.hierarchies h.id bt.highest_hierarchy_id t v.hierarchies,
          ),
        )
        | inr f ↦
            let free = has_hierarchy-NoHierarchy bt.hierarchies h.id f in
            inr (
              record bt { hierarchies = bt.hierarchies ++ h ∷ []; highest_hierarchy_id = highest },
              ground (arith, f, e),
              free,
              refl,
              record {
                collections = v.collections;
                hierarchies = grown;
                distinct = Distinct-grow bt.hierarchies h v.distinct free;
              },
            )
      ]
