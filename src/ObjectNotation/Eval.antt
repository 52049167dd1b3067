-- ===== src/ObjectNotation/Eval.antt =====
-- object_notation.c: the evaluation of a path such as `a.b` on a node. The node that the C functions
-- return is given as it stands in the tree.
use aftermath.Base.{ℕ, zero, suc, ◌-◌, true, false, Option, none, some, List, take, drop}
use aftermath.AnsiExtras.{strn1eq}
use aftermath.AnsiExtras.Atoi.{safe_atou64n}
use aftermath.Parser.{Parser, Read, init, reached_end, read_next_char, read_next_group_name}
use aftermath.Parser.Number.{read_next_uint64}
use aftermath.ObjectNotation.{
  Node, group, member, list, string, int64, uint64, double, Members, no_member, add_member, Items,
  no_item, add_item,
}

-- The characters of a token that a reader gives, with the parser behind it.
abbrev pub read_chars : (Parser → Read) → Parser → Option (List ℕ × Parser)
read_chars read p =
    let (t, p') = read p in
    elim t [ none ↦ none | some t ↦ some (take t.len (drop (t.str - p.curr) p.rest), p') ]

-- The part of am_object_notation_eval_dot in front of the evaluation: a dot where the node is a group.
unfoldable pub skip_dot : Node → Parser → Option Parser
skip_dot (group name members) p =
    let (t, p') = read_next_char p b'.' in elim t [ none ↦ none | some t ↦ some p' ]
skip_dot (member name def) p = some p
skip_dot (list items) p = some p
skip_dot (string value) p = some p
skip_dot (int64 value) p = some p
skip_dot (uint64 value) p = some p
skip_dot (double value) p = some p

-- am_object_notation_eval_dot, with the evaluation of the node as a parameter.
unfoldable pub eval_dot : (Parser → Option Node) → Node → Parser → Option Node
unfolding skip_dot
eval_dot eval n p = elim (reached_end p) [
  | true ↦ some n
  | false ↦ elim (skip_dot n p) [ none ↦ none | some p' ↦ eval p' ]
]

-- The index that am_object_notation_eval_list reads between brackets, with the parser behind it.
unfoldable pub read_index : Parser → Option (ℕ × Parser)
read_index p =
    let (t, p1) = read_next_char p b'[' in
    elim t [
      | none ↦ none
      | some t ↦ elim (read_chars read_next_uint64 p1) [
        | none ↦ none
        | some (chars, p2) ↦ elim (safe_atou64n chars) [
          | none ↦ none
          | some idx ↦
              let (t', p3) = read_next_char p2 b']' in
              elim t' [ none ↦ none | some t' ↦ some (idx, p3) ]
        ]
      ]
    ]

unfoldable mutual
  -- __am_object_notation_eval, with am_object_notation_eval_group and am_object_notation_eval_list in
  -- its cases.
  pub eval_node : Node → Parser → Option Node
  eval_node (group name members) p = elim (read_chars read_next_group_name p) [
    | none ↦ none
    | some (chars, p') ↦ eval_members members chars p'
  ]
  eval_node (list items) p = elim (read_index p) [
    | none ↦ none
    | some (idx, p') ↦ eval_item items idx p'
  ]
  eval_node (member name def) p = none
  eval_node (string value) p = none
  eval_node (int64 value) p = none
  eval_node (uint64 value) p = none
  eval_node (double value) p = none

  -- The loop of am_object_notation_eval_group.
  pub eval_members : Members → List ℕ → Parser → Option Node
  eval_members no_member chars p = none
  eval_members (add_member m def members) chars p = elim (strn1eq chars m) [
    | true ↦ eval_dot (eval_node def) def p
    | false ↦ eval_members members chars p
  ]

  -- am_object_notation_node_list_nth_member, and the evaluation on the item.
  pub eval_item : Items → ℕ → Parser → Option Node
  eval_item no_item idx p = none
  eval_item (add_item item items) zero p = eval_dot (eval_node item) item p
  eval_item (add_item item items) (suc idx) p = eval_item items idx p

-- am_object_notation_eval
unfoldable pub eval : Node → List ℕ → Option Node
unfolding eval_node
eval n expr = eval_node n (init expr)
