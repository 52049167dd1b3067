-- ===== src/ObjectNotation/Build.antt =====
-- object_notation.c: the construction of a tree from a list of verbs and values.
use aftermath.Base.{ℕ, zero, suc, none, some, List, ◌∷◌, length}
use aftermath.Base.Int.{ℤ}
use aftermath.AnsiExtras.{strdupn}
use aftermath.ObjectNotation.GroupMembers.{move_members}
use aftermath.ObjectNotation.{
  Node, group, member, list, string, int64, uint64, double, Members, no_member, add_member, Items,
  no_item, add_item,
}

-- `enum am_object_notation_build_verb`
pub data Verb : Type 0 where
  build_group : Verb
  build_list : Verb
  build_int64 : Verb
  build_uint64 : Verb
  build_double : Verb
  build_string : Verb
  build_member : Verb
  build_end : Verb

-- An argument of a variadic function, with the type that it was passed with.
pub data Arg : Type 0 where
  verb : Verb → Arg
  text : List ℕ → Arg
  signed : ℤ → Arg
  unsigned : ℕ → Arg
  real : ℕ → Arg

-- What is built, with the arguments behind it; NULL; undefined behaviour, where an argument is missing
-- or of another type, or where a node that is no member becomes one of a group; or nothing within the
-- fuel.
pub data Built {ℓ} (A : Type ℓ) : Type ℓ where
  built : A → List Arg → Built A
  failed : Built A
  undefined : Built A
  exhausted : Built A

module _ {ℓ κ} {A : Type ℓ} {B : Type κ} where
  abbrev pub built_then : Built A → (A → List Arg → Built B) → Built B
  built_then (built a args) further = further a args
  built_then failed further = failed
  built_then undefined further = undefined
  built_then exhausted further = exhausted

-- va_arg, for each of the types.
abbrev pub arg_verb : List Arg → Built Verb
arg_verb (verb v ∷ args) = built v args
arg_verb _ = undefined

abbrev pub arg_text : List Arg → Built (List ℕ)
arg_text (text s ∷ args) = built s args
arg_text _ = undefined

abbrev pub arg_signed : List Arg → Built ℤ
arg_signed (signed z ∷ args) = built z args
arg_signed _ = undefined

abbrev pub arg_unsigned : List Arg → Built ℕ
arg_unsigned (unsigned n ∷ args) = built n args
arg_unsigned _ = undefined

abbrev pub arg_real : List Arg → Built ℕ
arg_real (real d ∷ args) = built d args
arg_real _ = undefined

-- am_object_notation_string_vbuild
unfoldable pub string_vbuild : List Arg → Built Node
string_vbuild args = built_then (arg_text args) (λ val rest. built (string (strdupn val)) rest)

-- am_object_notation_int64_vbuild
unfoldable pub int64_vbuild : List Arg → Built Node
int64_vbuild args = built_then (arg_signed args) (λ val rest. built (int64 val) rest)

-- am_object_notation_uint64_vbuild
unfoldable pub uint64_vbuild : List Arg → Built Node
uint64_vbuild args = built_then (arg_unsigned args) (λ val rest. built (uint64 val) rest)

-- am_object_notation_double_vbuild
unfoldable pub double_vbuild : List Arg → Built Node
double_vbuild args = built_then (arg_real args) (λ val rest. built (double val) rest)

-- The functions that call am_object_notation_vbuild.
module _ (vbuild : Verb → List Arg → Built Node) where
  -- am_object_notation_member_vbuild
  unfoldable pub member_vbuild : List Arg → Built Node
  member_vbuild args = built_then (arg_text args) (λ name args1.
      built_then (arg_verb args1) (λ type args2.
        built_then (vbuild type args2) (λ def rest. built (member (strdupn name) def) rest)))

  -- The loop of am_object_notation_list_vbuild.
  unfoldable pub items_vbuild : ℕ → List Arg → Built Items
  items_vbuild zero args = exhausted
  items_vbuild (suc fuel) args = built_then (arg_verb args) (λ v args1. elim v [
    | build_end ↦ built no_item args1
    | w ↦ built_then (vbuild w args1) (λ item args2.
        built_then (items_vbuild fuel args2) (λ items rest. built (add_item item items) rest))
  ])

  -- am_object_notation_list_vbuild
  unfoldable pub list_vbuild : ℕ → List Arg → Built Node
  list_vbuild fuel args =
      built_then (items_vbuild fuel args) (λ items rest. built (list items) rest)

  -- am_object_notation_group_vbuild_members: the members in their order.
  unfoldable pub members_vbuild : ℕ → List Arg → Built Members
  members_vbuild zero args = exhausted
  members_vbuild (suc fuel) args = built_then (arg_verb args) (λ v args1. elim v [
    | build_end ↦ built no_member args1
    | w ↦ built_then (vbuild w args1) (λ node args2. elim node [
      | member name def ↦
          built_then (members_vbuild fuel args2)
            (λ members rest. built (add_member name def members) rest)
      | _ ↦ undefined
    ])
  ])

  -- am_object_notation_group_vbuild
  unfoldable pub group_vbuild : ℕ → List Arg → Built Node
  group_vbuild fuel args = built_then (arg_text args) (λ name args1.
      built_then (members_vbuild fuel args1)
        (λ members rest. built (group (strdupn name) members) rest))

  -- The cases of am_object_notation_vbuild.
  unfoldable pub vbuild_by_verb : ℕ → Verb → List Arg → Built Node
  vbuild_by_verb fuel build_group args = group_vbuild fuel args
  vbuild_by_verb fuel build_list args = list_vbuild fuel args
  vbuild_by_verb fuel build_int64 args = int64_vbuild args
  vbuild_by_verb fuel build_uint64 args = uint64_vbuild args
  vbuild_by_verb fuel build_double args = double_vbuild args
  vbuild_by_verb fuel build_string args = string_vbuild args
  vbuild_by_verb fuel build_member args = member_vbuild args
  vbuild_by_verb fuel build_end args = failed

-- am_object_notation_vbuild, with fuel for the depth of the nodes and the length of the lists.
unfoldable pub vbuild : ℕ → Verb → List Arg → Built Node
vbuild zero type args = exhausted
vbuild (suc fuel) type args = vbuild_by_verb (vbuild fuel) fuel type args

-- __am_object_notation_build
unfoldable pub build : List Arg → Built Node
build args = built_then (arg_verb args) (λ type rest. vbuild (suc (length args)) type rest)

-- __am_object_notation_node_group_build_add_members: the members of the group afterwards, or `failed`
-- for the return value 1, where the group stays as it is.
unfoldable pub build_add_members : Members → List Arg → Built Members
build_add_members g args =
    let fuel = suc (length args) in
    built_then (members_vbuild (vbuild fuel) fuel args)
      (λ gtmp rest. elim (move_members g gtmp) [ none ↦ failed | some (g', gtmp') ↦ built g' rest ])
