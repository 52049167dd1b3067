-- ===== src/ObjectNotation/Built.antt =====
-- The arguments that spell a tree build the tree.
use aftermath.Base.{
  none, some, ℕ, zero, suc, ◌+◌, ◌≤◌, ◌≡◌, ap, List, ◌∷◌, ◌++◌, arith, length, length-append,
}
use aftermath.Base.Int.{pos}
use aftermath.ObjectNotation.{
  Node, group, member, list, string, int64, uint64, double, Members, no_member, add_member, Items,
  no_item, add_item,
}
use aftermath.ObjectNotation.Build.{
  Arg, verb, built, failed, build_add_members, built_then, items_vbuild, members_vbuild, vbuild,
  build,
}
use aftermath.ObjectNotation.GroupMembers.{move_members}
use aftermath.ObjectNotation.Spelled.{
  verb_of, args_of, members_args, items_args, HasTexts, HaveMembersTexts, HaveItemsTexts, Builds,
  items_step, members_step, no_items, no_members, build_of_list, build_of_group, build_of_member,
  build_of_string, build_of_number,
}

-- The fuel that a tree takes.
mutual
  depth : Node → ℕ
  depth (group name members) = depth_members members
  depth (member name def) = 1 + depth def
  depth (list items) = depth_items items
  depth (string value) = 0
  depth (int64 value) = 0
  depth (uint64 value) = 0
  depth (double value) = 0

  depth_members : Members → ℕ
  depth_members no_member = 1
  depth_members (add_member name def members) = 2 + depth def + depth_members members

  depth_items : Items → ℕ
  depth_items no_item = 1
  depth_items (add_item item items) = 1 + depth item + depth_items items

mutual
  unfolding depth HasTexts

  build_of_node : (n : Node) (fuel : ℕ) → depth n ≤ fuel → HasTexts n → Builds (suc fuel) n
  build_of_node (group name members) fuel h t =
      build_of_group fuel name members t.0 (members_built members fuel fuel h h t.1)
  build_of_node (member name def) zero h t = absurd (omega (arith, h))
  build_of_node (member name def) (suc fuel) h t =
      build_of_member (suc fuel) name def t.0 (build_of_node def fuel (omega (arith, h)) t.1)
  build_of_node (list items) fuel h t = build_of_list fuel items (items_built items fuel fuel h h t)
  build_of_node (string value) fuel h t = build_of_string fuel value t
  build_of_node (int64 value) fuel h t = (build_of_number fuel value 0 0).0
  build_of_node (uint64 value) fuel h t = (build_of_number fuel (pos 0) value 0).1
  build_of_node (double value) fuel h t = (build_of_number fuel (pos 0) 0 value).2

  members_built :
      (members : Members) (g fuel : ℕ)
      → depth_members members ≤ g
      → depth_members members ≤ fuel
      → HaveMembersTexts members
      → (rest : List Arg)
      → members_vbuild (vbuild g) fuel (members_args members ++ rest) ≡ built members rest
  members_built no_member g zero h k t rest = absurd (omega (arith, k))
  members_built no_member g (suc fuel) h k t rest = no_members g fuel rest
  members_built (add_member name def members) zero fuel h k t rest = absurd (omega (arith, h))
  members_built (add_member name def members) (suc zero) fuel h k t rest = absurd (omega (arith, h))
  members_built (add_member name def members) (suc (suc g)) zero h k t rest =
      absurd (omega (arith, k))
  members_built (add_member name def members) (suc (suc g)) (suc fuel) h k t rest =
      members_step (suc g) fuel name def members t.0 (build_of_node def g (omega (arith, h)) t.1)
        (members_built members (suc (suc g)) fuel (omega (arith, h)) (omega (arith, k)) t.2) rest

  items_built :
      (items : Items) (g fuel : ℕ)
      → depth_items items ≤ g
      → depth_items items ≤ fuel
      → HaveItemsTexts items
      → (rest : List Arg)
      → items_vbuild (vbuild g) fuel (items_args items ++ rest) ≡ built items rest
  items_built no_item g zero h k t rest = absurd (omega (arith, k))
  items_built no_item g (suc fuel) h k t rest = no_items g fuel rest
  items_built (add_item item items) zero fuel h k t rest = absurd (omega (arith, h))
  items_built (add_item item items) (suc g) zero h k t rest = absurd (omega (arith, k))
  items_built (add_item item items) (suc g) (suc fuel) h k t rest =
      items_step (suc g) fuel item items (build_of_node item g (omega (arith, h)) t.0)
        (items_built items (suc g) fuel (omega (arith, h)) (omega (arith, k)) t.1) rest

-- The arguments of a tree are at least as many as its depth.
mutual
  unfolding depth args_of

  depth-args_of : (n : Node) → depth n ≤ length (args_of n)
  depth-args_of (group name members) = omega (arith, depth_members-members_args members)
  depth-args_of (member name def) = omega (arith, depth-args_of def)
  depth-args_of (list items) = depth_items-items_args items
  depth-args_of (string value) = omega arith
  depth-args_of (int64 value) = omega arith
  depth-args_of (uint64 value) = omega arith
  depth-args_of (double value) = omega arith

  depth_members-members_args :
      (members : Members) → depth_members members ≤ length (members_args members)
  depth_members-members_args no_member = omega arith
  depth_members-members_args (add_member name def members) = omega (
    arith,
    depth-args_of def,
    depth_members-members_args members,
    length-append (args_of def) (members_args members),
  )

  depth_items-items_args : (items : Items) → depth_items items ≤ length (items_args items)
  depth_items-items_args no_item = omega arith
  depth_items-items_args (add_item item items) = omega (
    arith,
    depth-args_of item,
    depth_items-items_args items,
    length-append (args_of item) (items_args items),
  )

-- The verbs and values that spell a tree, its names and strings texts without zeros, build that tree and
-- leave the arguments behind them.
pub build-args_of :
    (n : Node) (rest : List Arg)
    → HasTexts n
    → build (verb (verb_of n) ∷ args_of n ++ rest) ≡ built n rest
unfolding build
build-args_of n rest t =
    build_of_node n (length (verb (verb_of n) ∷ args_of n ++ rest))
      (omega (arith, depth-args_of n, length-append (args_of n) rest)) t rest

-- Members that are spelled are added to a group exactly as am_object_notation_node_group_move_members
-- moves them.
pub build_add_members-members_args :
    (dst src : Members) (rest : List Arg)
    → HaveMembersTexts src
    → build_add_members dst (members_args src ++ rest)
      ≡ elim (move_members dst src) [ none ↦ failed | some (dst', src') ↦ built dst' rest ]
unfolding build_add_members
build_add_members-members_args dst src rest t =
    let fuel = suc (length (members_args src ++ rest)) in
    let enough : depth_members src ≤ fuel =
      omega (arith, depth_members-members_args src, length-append (members_args src) rest) in
    ap
      (λ r. built_then r (λ gtmp rest. elim (move_members dst gtmp) [
        | none ↦ failed
        | some (dst', src') ↦ built dst' rest
      ]))
      (members_built src fuel fuel enough enough t rest)
