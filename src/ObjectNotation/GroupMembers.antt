-- ===== src/ObjectNotation/GroupMembers.antt =====
-- object_notation.h and object_notation.c: the members of a group.
use aftermath.Base.{
  ℕ, ◌+◌, ◌≡◌, ◌≢◌, ◌↔◌, ◌⊎◌, refl, Bool, true, false, ◌&&◌, ◌||◌, Option, none, some, List, [],
  ◌∷◌, arith, ◌==◌, if◌then◌else◌, length, Bool-cases, Option-cases, inl, inr,
}
use mathlib.Core.Path.{subst, sym, ◌∙◌}
use aftermath.AnsiExtras.{strn1eq}
use aftermath.ObjectNotation.{Node, Members, no_member, add_member}

-- strcmp(a, b) == 0
abbrev pub strcmp_equal : List ℕ → List ℕ → Bool
strcmp_equal a b = strn1eq a b

-- am_object_notation_node_group_get_member_def
unfoldable pub get_member_def : Members → List ℕ → Option Node
get_member_def no_member name = none
get_member_def (add_member m def members) name =
    let rest = get_member_def members name in if strcmp_equal m name then some def else rest

-- am_object_notation_node_group_num_members
unfoldable pub num_members : Members → ℕ
num_members no_member = 0
num_members (add_member m def members) = num_members members + 1

-- The end of one list behind the other, as list_splice_tail_init puts them.
unfoldable pub splice_tail : Members → Members → Members
splice_tail no_member src = src
splice_tail (add_member m def dst) src = add_member m def (splice_tail dst src)

-- Whether am_object_notation_node_group_move_members finds a member of `src` in `dst`.
unfoldable pub has_conflict : Members → Members → Bool
unfolding get_member_def
has_conflict dst no_member = false
has_conflict dst (add_member m def src) = elim (get_member_def dst m) [
  | some d ↦ true
  | none ↦ has_conflict dst src
]

-- am_object_notation_node_group_move_members: the members of `dst` and of `src` afterwards, or nothing
-- for the return value 1, where both stay.
unfoldable pub move_members : Members → Members → Option (Members × Members)
move_members dst src = if has_conflict dst src then none else some (splice_tail dst src, no_member)

-- The search of am_object_notation_node_group_has_at_least_membersv for a name.
unfoldable pub has_name : Members → List ℕ → Bool
has_name no_member name = false
has_name (add_member m def members) name = strcmp_equal m name || has_name members name

-- am_object_notation_node_group_has_at_least_membersv
unfoldable pub has_at_least_members : Members → List (List ℕ) → Bool
unfolding has_name
has_at_least_members members [] = true
has_at_least_members members (name ∷ names) =
    has_name members name && has_at_least_members members names

-- The loop of am_object_notation_node_group_has_at_most_members over the names, for a member.
unfoldable pub equals_all : List ℕ → List (List ℕ) → Bool
equals_all m [] = true
equals_all m (name ∷ names) = strcmp_equal m name && equals_all m names

-- am_object_notation_node_group_has_at_most_members
unfoldable pub has_at_most_members : Members → List (List ℕ) → Bool
unfolding equals_all
has_at_most_members no_member names = true
has_at_most_members (add_member m def members) names =
    equals_all m names && has_at_most_members members names

-- am_object_notation_node_group_has_exactly_members
unfoldable pub has_exactly_members : Members → List (List ℕ) → Bool
has_exactly_members members names =
    has_at_least_members members names && num_members members == length names

pub strn1eq_iff : (a b : List ℕ) → (strn1eq a b ≡ true) ↔ (a ≡ b)
unfolding strn1eq
strn1eq_iff [] [] = (λ h. refl, λ h. refl)
strn1eq_iff [] (y ∷ b) = (λ h. absurd (ground (arith, h)), λ h. absurd (ground (arith, h)))
strn1eq_iff (x ∷ a) [] = (λ h. absurd (ground (arith, h)), λ h. absurd (ground (arith, h)))
strn1eq_iff (x ∷ a) (y ∷ b) =
    let ih = strn1eq_iff a b in
    (
      λ h. let e : x ≡ y = ground (arith, h) in let e' : a ≡ b = ih.0 (ground (arith, h)) in cc,
      λ h. let e : x ≡ y = cc in let e' = ih.1 cc in ground (arith, e, e'),
    )

-- The name is that of a member.
abbrev pub HasMember : Members → List ℕ → Type 0
HasMember members name = (def : Node) × (get_member_def members name ≡ some def)

-- The first of two results, or the second where there is none.
abbrev pub or_else : Option Node → Option Node → Option Node
or_else (some d) further = some d
or_else none further = further

get_member_def-splice_tail :
    (dst src : Members) (name : List ℕ)
    → get_member_def (splice_tail dst src) name
      ≡ or_else (get_member_def dst name) (get_member_def src name)
unfolding get_member_def splice_tail
get_member_def-splice_tail no_member src name = refl
get_member_def-splice_tail (add_member m def dst) src name = elim (Bool-cases (strn1eq m name)) [
  | inl e ↦ rw (e) refl
  | inr e ↦ rw (e) (get_member_def-splice_tail dst src name)
]

no_conflict :
    (dst src : Members) (name : List ℕ) (def : Node)
    → has_conflict dst src ≡ false
    → get_member_def src name ≡ some def
    → get_member_def dst name ≡ none
unfolding has_conflict get_member_def
no_conflict dst no_member name def h e = absurd (ground (arith, e))
no_conflict dst (add_member m d src) name def h e = elim (Option-cases (get_member_def dst m)) [
  | inr (x, f) ↦ absurd (let bad : true ≡ false = rw (has_conflict, f) at h in ground (arith, bad))
  | inl f ↦ elim (Bool-cases (strn1eq m name)) [
    | inl g ↦ subst (λ y. get_member_def dst y ≡ none) ((strn1eq_iff m name).0 g) f
    | inr g ↦ no_conflict dst src name def (rw (has_conflict, f) at h) (rw (g) at e)
  ]
]

conflict_lem :
    (dst src : Members)
    → has_conflict dst src ≡ true
    → (name : List ℕ) × HasMember src name × HasMember dst name
unfolding has_conflict get_member_def
conflict_lem dst no_member h = absurd (ground (arith, h))
conflict_lem dst (add_member m d src) h = elim (Option-cases (get_member_def dst m)) [
  | inr (x, f) ↦ (m, (d, rw ((strn1eq_iff m m).1 refl) refl), (x, f))
  | inl f ↦
      let (name, (def, e), there) = conflict_lem dst src (rw (has_conflict, f) at h) in
      elim (Bool-cases (strn1eq m name)) [
        | inl g ↦ (name, (d, rw (g) refl), there)
        | inr g ↦ (name, (def, rw (g) e), there)
      ]
]

-- A name that both groups have.
abbrev pub Conflict : Members → Members → Type 0
Conflict dst src = (name : List ℕ) × HasMember src name × HasMember dst name

-- Either the groups share a name and nothing is moved, or they share none; then all members are moved,
-- none is left in the source, and a name stands for what it stood for in the one or the other group.
pub move_members_lem :
    (dst src : Members)
    → ((move_members dst src ≡ none) × Conflict dst src)
      ⊎ ((dst' : Members) × (move_members dst src ≡ some (dst', no_member))
          × ¬ Conflict dst src
          × ((name : List ℕ)
              → get_member_def dst' name
                ≡ or_else (get_member_def dst name) (get_member_def src name)))
unfolding move_members
move_members_lem dst src = elim (Bool-cases (has_conflict dst src)) [
  | inl e ↦ inl (rw (e) refl, conflict_lem dst src e)
  | inr e ↦ inr (
    splice_tail dst src,
    rw (e) refl,
    λ (name, (def, f), (def', g)).
        let bad : some def' ≡ none = sym g ∙ no_conflict dst src name def e f in
        ground (arith, bad),
    get_member_def-splice_tail dst src,
  )
]

-- A group has at least the members named where each name is that of a member.
abbrev pub AllFound : Members → List (List ℕ) → Type 0
AllFound members [] = Unit {0}
AllFound members (name ∷ names) = HasMember members name × AllFound members names

has_name_iff :
    (members : Members) (name : List ℕ) → (has_name members name ≡ true) ↔ HasMember members name
unfolding has_name get_member_def
has_name_iff no_member name =
    (λ h. absurd (ground (arith, h)), λ (d, e). absurd (ground (arith, e)))
has_name_iff (add_member m def members) name = elim (Bool-cases (strn1eq m name)) [
  | inl e ↦ (λ h. (def, rw (e) refl), λ h. rw (e) refl)
  | inr e ↦ (
    λ h. rw (e) ((has_name_iff members name).0 (rw (e) at h)),
    λ (d, f). rw (e) ((has_name_iff members name).1 (d, rw (e) at f)),
  )
]

-- The check for at least some members holds exactly where each of the names is that of a member.
pub has_at_least_members_iff :
    (members : Members) (names : List (List ℕ))
    → (has_at_least_members members names ≡ true) ↔ AllFound members names
unfolding has_at_least_members
has_at_least_members_iff members [] = (λ h. tt, λ h. refl)
has_at_least_members_iff members (name ∷ names) =
    let ih = has_at_least_members_iff members names in
    let head = has_name_iff members name in
    (
      λ h. (head.0 (ground (arith, h)), ih.0 (ground (arith, h))),
      λ (h, t). ground (arith, head.1 h, ih.1 t),
    )

-- The check for at most some members refuses a group with any member as soon as the first two names that
-- it is given are different, be they those of all its members.
pub has_at_most_members_two :
    (m : List ℕ) (def : Node) (members : Members) (a b : List ℕ) (names : List (List ℕ))
    → a ≢ b
    → has_at_most_members (add_member m def members) (a ∷ b ∷ names) ≡ false
unfolding has_at_most_members equals_all
has_at_most_members_two m def members a b names h = elim (Bool-cases (strn1eq m a)) [
  | inr e ↦ ground (arith, e)
  | inl e ↦ elim (Bool-cases (strn1eq m b)) [
    | inr f ↦ ground (arith, e, f)
    | inl f ↦ absurd (h (sym ((strn1eq_iff m a).0 e) ∙ (strn1eq_iff m b).0 f))
  ]
]
