-- ===== src/ObjectNotation/Parse.antt =====
-- object_notation.c: the parser. Each function takes the parser and gives the node with the parser
-- behind it, or an error. Where the C functions call each other, the outer one is a parameter of the
-- inner ones: `parse_node` gives them itself with less fuel.
use aftermath.Base.{
  ℕ, zero, suc, ◌-◌, true, false, ◌||◌, none, some, List, [], ◌∷◌, ◌==◌, if◌then◌else◌, length,
  take, drop,
}
use aftermath.AnsiExtras.{strdupn, unescape_stringn}
use aftermath.AnsiExtras.Atoi.{safe_atoi64n, safe_atou64n, safe_atodbln}
use aftermath.Parser.{
  Parser, Read, init, skip_ws, read_next_char, read_next_string, read_next_identifier,
  read_next_group_name, read_any_char,
}
use aftermath.Parser.Chars.{isdigit, isident_start_char}
use aftermath.Parser.Number.{
  read_next_int64, read_next_uint64, read_next_double, peek_double, peek_int64,
}
use aftermath.ObjectNotation.{
  Node, group, list, string, int64, uint64, double, Members, no_member, add_member, Items, no_item,
  add_item,
}

-- The messages that a parse status gets.
pub data Message : Type 0 where
  expected_char : ℕ → Message
  expected_string : Message
  expected_int64 : Message
  expected_uint64 : Message
  expected_double : Message
  expected_group_name : Message
  expected_member_name : Message
  expected_list_start : Message
  end_in_list : Message
  expected_list_next : Message
  expected_list_end : Message
  not_an_int64 : Message
  not_a_uint64 : Message
  not_a_double : Message
  expected_group_start : Message
  end_in_group : Message
  expected_group_next : Message
  expected_group_end : Message
  end_in_node : Message
  unexpected_char : ℕ → Message

-- What a parsing function returns: a value with the parser behind it; NULL with the message of the
-- status and its place; NULL without a message; or nothing within the fuel.
pub data Result {ℓ} (A : Type ℓ) : Type ℓ where
  ok : A → Parser → Result A
  error : Message → ℕ → Result A
  null : Result A
  out_of_fuel : Result A

module _ {ℓ κ} {A : Type ℓ} {B : Type κ} where
  -- The next step of a function, where the one before has succeeded.
  abbrev pub and_then : Result A → (A → Parser → Result B) → Result B
  and_then (ok a p) further = further a p
  and_then (error m loc) further = error m loc
  and_then null further = null
  and_then out_of_fuel further = out_of_fuel

-- The readers of parser.h with a message for a failure, and the characters of the token.
abbrev pub read_or : Message → (Parser → Read) → Parser → Result (List ℕ)
read_or m read p =
    let (t, p') = read p in
    elim t [ none ↦ error m p'.curr | some t ↦ ok (take t.len (drop (t.str - p.curr) p.rest)) p' ]

-- am_object_notation_read_next_char, with the message that the status has in the end.
unfoldable pub read_next_char_or : Message → ℕ → Parser → Result (List ℕ)
unfolding read_next_char
read_next_char_or m c p = read_or m (λ p'. read_next_char p' c) p

-- am_parser_peek_any_char, with its character.
unfoldable pub peek_char_or : Message → Parser → Result ℕ
peek_char_or m p = elim p.rest [ [] ↦ error m p.curr | x ∷ rest ↦ ok x p ]

-- am_object_notation_parse_string
unfoldable pub parse_string : Parser → Result Node
parse_string p = and_then (read_or expected_string read_next_string p) (λ t p'.
    elim (unescape_stringn (take (length t - 2) (drop 1 t))) [
      | none ↦ null
      | some value ↦ ok (string value) p'
    ])

-- am_object_notation_parse_int64
unfoldable pub parse_int64 : Parser → Result Node
parse_int64 p = and_then (read_or expected_int64 read_next_int64 p) (λ t p'.
    elim (safe_atoi64n (take (length t - 3) t)) [
      | none ↦ error not_an_int64 p'.curr
      | some val ↦ ok (int64 val) p'
    ])

-- am_object_notation_parse_uint64
unfoldable pub parse_uint64 : Parser → Result Node
parse_uint64 p = and_then (read_or expected_uint64 read_next_uint64 p) (λ t p'.
    elim (safe_atou64n (take (length t - 3) t)) [
      | none ↦ error not_a_uint64 p'.curr
      | some val ↦ ok (uint64 val) p'
    ])

-- The end of a round of the loops for items and members: a comma, which is taken, or the closing
-- character, which stays.
unfoldable pub read_separator : Message → Message → ℕ → Parser → Result ℕ
unfolding skip_ws
read_separator at_end otherwise close p = and_then (peek_char_or at_end (skip_ws p)) (λ x p'.
    if x == b','
    then ok x (read_any_char p').1
    else if x == close
    then ok x p'
    else error otherwise p'.curr)

module _ (strtod : List ℕ → ℕ × ℕ) where
  -- am_object_notation_parse_double
  unfoldable pub parse_double : Parser → Result Node
  parse_double p = and_then (read_or expected_double read_next_double p) (λ t p'.
      elim (safe_atodbln strtod t) [
        | none ↦ error not_a_double p'.curr
        | some val ↦ ok (double val) p'
      ])

-- The functions that call am_object_notation_parse_node.
module _ (parse_node : Parser → Result Node) where
  -- The loop of am_object_notation_parse_list.
  unfoldable pub parse_items : ℕ → Parser → Result Items
  parse_items zero p = out_of_fuel
  parse_items (suc fuel) p = and_then (peek_char_or end_in_list (skip_ws p)) (λ x p'.
      elim (x == b']') [
        | true ↦ ok no_item p'
        | false ↦ and_then (parse_node p') (λ item p''.
            and_then (read_separator end_in_list expected_list_next b']' p'')
              (λ c p'''. and_then (parse_items fuel p''') (λ items q. ok (add_item item items) q)))
      ])

  -- am_object_notation_parse_list
  unfoldable pub parse_list : ℕ → Parser → Result Node
  parse_list fuel p = and_then (read_next_char_or expected_list_start b'[' p) (λ t p'.
      and_then (parse_items fuel p') (λ items p''.
        and_then (read_next_char_or expected_list_end b']' (skip_ws p''))
          (λ t' q. ok (list items) q)))

  -- am_object_notation_parse_member
  unfoldable pub parse_member : Parser → Result (List ℕ × Node)
  parse_member p = and_then (read_or expected_member_name read_next_identifier p) (λ t p'.
      and_then (read_next_char_or (expected_char b':') b':' p')
        (λ t' p''. and_then (parse_node p'') (λ def q. ok (strdupn t, def) q)))

  -- The loop of am_object_notation_parse_group_body.
  unfoldable pub parse_members : ℕ → Parser → Result Members
  parse_members zero p = out_of_fuel
  parse_members (suc fuel) p = and_then (peek_char_or end_in_group (skip_ws p)) (λ x p'.
      elim (x == b'}') [
        | true ↦ ok no_member p'
        | false ↦ and_then (parse_member p') (λ (name, def) p''.
            and_then (read_separator end_in_group expected_group_next b'}' p'') (λ c p'''.
              and_then (parse_members fuel p''') (λ members q. ok (add_member name def members) q)))
      ])

  -- am_object_notation_parse_group_body
  unfoldable pub parse_group_body : ℕ → Parser → Result Members
  parse_group_body fuel p = and_then (read_next_char_or expected_group_start b'{' p) (λ t p'.
      and_then (parse_members fuel p') (λ members p''.
        and_then (read_next_char_or expected_group_end b'}' (skip_ws p'')) (λ t' q. ok members q)))

  -- am_object_notation_parse_group
  unfoldable pub parse_group : ℕ → Parser → Result Node
  parse_group fuel p =
      and_then (read_or expected_group_name read_next_group_name p) (λ t p'.
        and_then (parse_group_body fuel p') (λ members q. ok (group (strdupn t) members) q))

module _ (strtod : List ℕ → ℕ × ℕ) where
  -- The choice of am_object_notation_parse_node by the first character.
  unfoldable pub parse_by_char : (Parser → Result Node) → ℕ → ℕ → Parser → Result Node
  parse_by_char parse_node fuel x p =
      if x == b'"'
      then parse_string p
      else if x == b'['
      then parse_list parse_node fuel p
      else if isident_start_char x
      then parse_group parse_node fuel p
      else if x == b'.'
      then parse_double strtod p
      else if isdigit x || x == b'-'
      then elim (peek_double p).0 [
        | some t ↦ parse_double strtod p
        | none ↦ elim (peek_int64 p).0 [ some t ↦ parse_int64 p | none ↦ parse_uint64 p ]
      ]
      else error (unexpected_char x) p.curr

  -- am_object_notation_parse_node. The fuel bounds the depth of the nodes and the length of the lists.
  unfoldable pub parse_node : ℕ → Parser → Result Node
  parse_node zero p = out_of_fuel
  parse_node (suc fuel) p =
      and_then (peek_char_or end_in_node (skip_ws p))
        (λ x p'. parse_by_char (parse_node fuel) fuel x p')

  -- am_object_notation_parse
  unfoldable pub parse : List ℕ → Result Node
  parse str = parse_node (suc (length str)) (init str)
