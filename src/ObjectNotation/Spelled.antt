-- ===== src/ObjectNotation/Spelled.antt =====
-- The arguments that spell a tree, and the building of a node from what is built inside it.
use aftermath.Base.{ℕ, suc, ◌≡◌, refl, ap, ◌∙◌, List, [], ◌∷◌, ◌++◌, append_assoc}
use aftermath.Base.Int.{ℤ}
use aftermath.AnsiExtras.{strdupn}
use aftermath.AnsiExtras.Escape.{until_zero-text}
use aftermath.Parser.Words.{IsText}
use aftermath.ObjectNotation.{
  Node, group, member, list, string, int64, uint64, double, Members, no_member, add_member, Items,
  no_item, add_item,
}
use aftermath.ObjectNotation.Build.{
  Verb, build_group, build_list, build_int64, build_uint64, build_double, build_string,
  build_member, build_end, Arg, verb, text, signed, unsigned, real, Built, built, built_then,
  string_vbuild, int64_vbuild, uint64_vbuild, double_vbuild, member_vbuild, items_vbuild,
  list_vbuild, members_vbuild, group_vbuild, vbuild_by_verb, vbuild,
}

-- The verb for a node, and the arguments behind it.
unfoldable pub verb_of : Node → Verb
verb_of (group name members) = build_group
verb_of (member name def) = build_member
verb_of (list items) = build_list
verb_of (string value) = build_string
verb_of (int64 value) = build_int64
verb_of (uint64 value) = build_uint64
verb_of (double value) = build_double

unfoldable mutual
  pub args_of : Node → List Arg
  args_of (group name members) = text name ∷ members_args members
  args_of (member name def) = text name ∷ verb (verb_of def) ∷ args_of def
  args_of (list items) = items_args items
  args_of (string value) = text value ∷ []
  args_of (int64 value) = signed value ∷ []
  args_of (uint64 value) = unsigned value ∷ []
  args_of (double value) = real value ∷ []

  pub members_args : Members → List Arg
  members_args no_member = verb build_end ∷ []
  members_args (add_member name def members) =
      verb build_member ∷ text name ∷ verb (verb_of def) ∷ (args_of def ++ members_args members)

  pub items_args : Items → List Arg
  items_args no_item = verb build_end ∷ []
  items_args (add_item item items) = verb (verb_of item) ∷ (args_of item ++ items_args items)

-- All names and strings are texts without zeros.
unfoldable mutual
  pub HasTexts : Node → Type 0
  HasTexts (group name members) = IsText name × HaveMembersTexts members
  HasTexts (member name def) = IsText name × HasTexts def
  HasTexts (list items) = HaveItemsTexts items
  HasTexts (string value) = IsText value
  HasTexts (int64 value) = Unit {0}
  HasTexts (uint64 value) = Unit {0}
  HasTexts (double value) = Unit {0}

  pub HaveMembersTexts : Members → Type 0
  HaveMembersTexts no_member = Unit {0}
  HaveMembersTexts (add_member name def members) =
      IsText name × HasTexts def × HaveMembersTexts members

  pub HaveItemsTexts : Items → Type 0
  HaveItemsTexts no_item = Unit {0}
  HaveItemsTexts (add_item item items) = HasTexts item × HaveItemsTexts items

pub strdupn-text : (s : List ℕ) → IsText s → strdupn s ≡ s
unfolding strdupn
strdupn-text s h = until_zero-text s h

-- The node is built with this fuel, whatever follows.
abbrev pub Builds : ℕ → Node → Type 0
Builds fuel n = (rest : List Arg) → vbuild fuel (verb_of n) (args_of n ++ rest) ≡ built n rest

pub items_round :
    (self : Verb → List Arg → Built Node) (fuel : ℕ) (item : Node) (args : List Arg)
    → items_vbuild self (suc fuel) (verb (verb_of item) ∷ args)
      ≡ built_then (self (verb_of item) args) (λ n args2.
        built_then (items_vbuild self fuel args2) (λ items rest. built (add_item n items) rest))
unfolding items_vbuild verb_of
items_round self fuel (group name members) args = refl
items_round self fuel (member name def) args = refl
items_round self fuel (list items) args = refl
items_round self fuel (string value) args = refl
items_round self fuel (int64 value) args = refl
items_round self fuel (uint64 value) args = refl
items_round self fuel (double value) args = refl

module _ (g : ℕ) where
  pub items_step :
      (fuel : ℕ) (item : Node) (items : Items)
      → Builds g item
      → ((rest : List Arg)
          → items_vbuild (vbuild g) fuel (items_args items ++ rest) ≡ built items rest)
      → (rest : List Arg)
      → items_vbuild (vbuild g) (suc fuel) (items_args (add_item item items) ++ rest)
        ≡ built (add_item item items) rest
  unfolding items_args
  items_step fuel item items k f rest =
      rw
        (
          append_assoc (args_of item) (items_args items) rest,
          items_round (vbuild g) fuel item (args_of item ++ (items_args items ++ rest)),
          k (items_args items ++ rest),
          f rest,
        )
        refl

  pub member_built :
      (name : List ℕ) (def : Node)
      → IsText name
      → Builds g def
      → (rest : List Arg)
      → vbuild (suc g) build_member (text name ∷ verb (verb_of def) ∷ (args_of def ++ rest))
        ≡ built (member name def) rest
  unfolding vbuild vbuild_by_verb member_vbuild
  member_built name def t k rest = rw (k rest, strdupn-text name t) refl

  pub members_step :
      (fuel : ℕ) (name : List ℕ) (def : Node) (members : Members)
      → IsText name
      → Builds g def
      → ((rest : List Arg)
          → members_vbuild (vbuild (suc g)) fuel (members_args members ++ rest)
            ≡ built members rest)
      → (rest : List Arg)
      → members_vbuild
          (vbuild (suc g))
          (suc fuel)
          (members_args (add_member name def members) ++ rest)
        ≡ built (add_member name def members) rest
  unfolding members_args members_vbuild
  members_step fuel name def members t k f rest =
      rw
        (
          append_assoc (args_of def) (members_args members) rest,
          member_built name def t k (members_args members ++ rest),
          f rest,
        )
        refl

pub no_items :
    (g fuel : ℕ) (rest : List Arg)
    → items_vbuild (vbuild g) (suc fuel) (items_args no_item ++ rest) ≡ built no_item rest
unfolding items_vbuild items_args
no_items g fuel rest = refl

pub no_members :
    (g fuel : ℕ) (rest : List Arg)
    → members_vbuild (vbuild g) (suc fuel) (members_args no_member ++ rest) ≡ built no_member rest
unfolding members_vbuild members_args
no_members g fuel rest = refl

pub build_of_list :
    (fuel : ℕ) (items : Items)
    → ((rest : List Arg)
        → items_vbuild (vbuild fuel) fuel (items_args items ++ rest) ≡ built items rest)
    → Builds (suc fuel) (list items)
unfolding vbuild vbuild_by_verb list_vbuild verb_of args_of
build_of_list fuel items f rest =
    ap (λ r. built_then r (λ items rest. built (list items) rest)) (f rest)

pub build_of_group :
    (fuel : ℕ) (name : List ℕ) (members : Members)
    → IsText name
    → ((rest : List Arg)
        → members_vbuild (vbuild fuel) fuel (members_args members ++ rest) ≡ built members rest)
    → Builds (suc fuel) (group name members)
unfolding vbuild vbuild_by_verb group_vbuild verb_of args_of
build_of_group fuel name members t f rest =
    ap (λ r. built_then r (λ members rest. built (group (strdupn name) members) rest)) (f rest)
    ∙ ap (λ s. built (group s members) rest) (strdupn-text name t)

pub build_of_member :
    (g : ℕ) (name : List ℕ) (def : Node)
    → IsText name
    → Builds g def
    → Builds (suc g) (member name def)
unfolding verb_of args_of
build_of_member g name def t k rest = member_built g name def t k rest

pub build_of_string : (fuel : ℕ) (value : List ℕ) → IsText value → Builds (suc fuel) (string value)
unfolding vbuild vbuild_by_verb string_vbuild verb_of args_of
build_of_string fuel value t rest = ap (λ s. built (string s) rest) (strdupn-text value t)

pub build_of_number :
    (fuel : ℕ) (z : ℤ) (n d : ℕ)
    → Builds (suc fuel) (int64 z) × Builds (suc fuel) (uint64 n) × Builds (suc fuel) (double d)
unfolding vbuild vbuild_by_verb int64_vbuild uint64_vbuild double_vbuild verb_of args_of
build_of_number fuel z n d = (λ rest. refl, λ rest. refl, λ rest. refl)
