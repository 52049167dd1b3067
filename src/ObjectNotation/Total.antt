-- ===== src/ObjectNotation/Total.antt =====
-- The parser of object_notation.c ends on every text, moves forward, and builds only trees of the
-- notation.
use aftermath.Base.{
  ℕ, zero, suc, ◌≤◌, ◌<◌, ◌||◌, none, some, List, arith, ◌==◌, length, Bool-cases, Option-cases,
  inl, inr,
}
use aftermath.Parser.{
  Parser, init, skip_ws, read_identifier, read_group_name, read_next_identifier,
  read_next_group_name,
}
use aftermath.Parser.Chars.{isdigit, isident_start_char}
use aftermath.Parser.Number.{peek_double, peek_int64}
use aftermath.Parser.Consumed.{
  left, skip_ws-left, read_identifier-Moves, read_group_name-Moves, next-Moves,
}
use aftermath.ObjectNotation.{Node}
use aftermath.ObjectNotation.Parse.{
  Result, read_or, read_next_char_or, peek_char_or, read_separator, expected_list_start,
  expected_list_next, expected_list_end, end_in_list, expected_member_name, expected_char,
  expected_group_name, expected_group_start, expected_group_next, expected_group_end, end_in_group,
  end_in_node, parse_int64, parse_uint64, parse_double, parse_items, parse_list, parse_member,
  parse_members, parse_group_body, parse_group, parse_by_char, parse_node, parse,
}
use aftermath.ObjectNotation.Yields.{
  Yields, and_then-Yields, Yields-mono, read_or-Yields, read_next_char_or-Yields,
  peek_char_or-Yields, read_separator-Yields, IsTree, AreItemsTrees, AreMembersTrees,
  parse_string-Yields, parse_int64-Yields, parse_uint64-Yields, parse_double-Yields,
}

abbrev Any : {A : Type 0} → A → Type 0
Any a = Unit {0}

-- What holds of the parser for the nodes inside, for texts of fewer than `bound` characters.
abbrev Inner : (Parser → Result Node) → ℕ → Type 0
Inner self bound = (p : Parser) → left p < bound → Yields IsTree (left p) (self p)

module _ (self : Parser → Result Node) (bound : ℕ) (inner : Inner self bound) where
  parse_items-Yields :
      (fuel : ℕ) (p : Parser)
      → left p < fuel
      → left p < bound
      → Yields AreItemsTrees (suc (left p)) (parse_items self fuel p)
  unfolding parse_items AreItemsTrees
  parse_items-Yields zero p h b = absurd (omega (arith, h))
  parse_items-Yields (suc fuel) p h b =
      and_then-Yields Any AreItemsTrees (suc (left p)) (suc (left p))
        (peek_char_or end_in_list (skip_ws p)) _ (peek_char_or-Yields end_in_list p)
        (λ x p1 u1 h1. elim (Bool-cases (x == b']')) [
          | inl e ↦ rw (e) (tt, h1)
          | inr e ↦ rw (e) (
              and_then-Yields IsTree AreItemsTrees (left p1) (suc (left p)) (self p1) _
                (inner p1 (omega (arith, h1, b)))
                (λ item p2 t2 h2.
                  and_then-Yields Any AreItemsTrees (suc (left p2)) (suc (left p))
                    (read_separator end_in_list expected_list_next b']' p2) _
                    (read_separator-Yields end_in_list expected_list_next b']' p2)
                    (λ c p3 u3 h3.
                      and_then-Yields AreItemsTrees AreItemsTrees (suc (left p3)) (suc (left p))
                        (parse_items self fuel p3) _
                        (parse_items-Yields fuel p3 (omega (arith, h, h1, h2, h3))
                          (omega (arith, b, h1, h2, h3)))
                        (λ items q t4 h4. ((t2, t4), omega (arith, h1, h2, h3, h4))))))
        ])

  parse_list-Yields :
      (fuel : ℕ) (p : Parser)
      → left p ≤ fuel
      → left p ≤ bound
      → Yields IsTree (left p) (parse_list self fuel p)
  unfolding parse_list IsTree
  parse_list-Yields fuel p h b =
      and_then-Yields Any IsTree (left p) (left p) (read_next_char_or expected_list_start b'[' p) _
        (read_next_char_or-Yields expected_list_start b'[' p)
        (λ t p1 u1 h1.
          and_then-Yields AreItemsTrees IsTree (suc (left p1)) (left p) (parse_items self fuel p1) _
            (parse_items-Yields fuel p1 (omega (arith, h, h1)) (omega (arith, b, h1)))
            (λ items p2 t2 h2.
              and_then-Yields Any IsTree (left (skip_ws p2)) (left p)
                (read_next_char_or expected_list_end b']' (skip_ws p2)) _
                (read_next_char_or-Yields expected_list_end b']' (skip_ws p2))
                (λ t' q u3 h3. (t2, omega (arith, h1, h2, h3, skip_ws-left p2)))))

  parse_member-Yields :
      (p : Parser) → left p < bound → Yields (λ m. IsTree m.1) (left p) (parse_member self p)
  unfolding parse_member read_next_identifier
  parse_member-Yields p b =
      and_then-Yields Any (λ m. IsTree m.1) (left p) (left p)
        (read_or expected_member_name read_next_identifier p) _
        (read_or-Yields expected_member_name read_next_identifier p
          (next-Moves read_identifier p (read_identifier-Moves (skip_ws p))))
        (λ t p1 u1 h1.
          and_then-Yields Any (λ m. IsTree m.1) (left p1) (left p)
            (read_next_char_or (expected_char b':') b':' p1) _
            (read_next_char_or-Yields (expected_char b':') b':' p1)
            (λ t' p2 u2 h2.
              and_then-Yields IsTree (λ m. IsTree m.1) (left p2) (left p) (self p2) _
                (inner p2 (omega (arith, b, h1, h2)))
                (λ def q t3 h3. (t3, omega (arith, h1, h2, h3)))))

  parse_members-Yields :
      (fuel : ℕ) (p : Parser)
      → left p < fuel
      → left p < bound
      → Yields AreMembersTrees (suc (left p)) (parse_members self fuel p)
  unfolding parse_members AreMembersTrees
  parse_members-Yields zero p h b = absurd (omega (arith, h))
  parse_members-Yields (suc fuel) p h b =
      and_then-Yields Any AreMembersTrees (suc (left p)) (suc (left p))
        (peek_char_or end_in_group (skip_ws p)) _ (peek_char_or-Yields end_in_group p)
        (λ x p1 u1 h1. elim (Bool-cases (x == b'}')) [
          | inl e ↦ rw (e) (tt, h1)
          | inr e ↦ rw (e) (
              and_then-Yields (λ m. IsTree m.1) AreMembersTrees (left p1) (suc (left p))
                (parse_member self p1) _ (parse_member-Yields p1 (omega (arith, h1, b)))
                (λ m p2 t2 h2.
                  and_then-Yields Any AreMembersTrees (suc (left p2)) (suc (left p))
                    (read_separator end_in_group expected_group_next b'}' p2) _
                    (read_separator-Yields end_in_group expected_group_next b'}' p2)
                    (λ c p3 u3 h3.
                      and_then-Yields AreMembersTrees AreMembersTrees (suc (left p3)) (suc (left p))
                        (parse_members self fuel p3) _
                        (parse_members-Yields fuel p3 (omega (arith, h, h1, h2, h3))
                          (omega (arith, b, h1, h2, h3)))
                        (λ members q t4 h4. ((t2, t4), omega (arith, h1, h2, h3, h4))))))
        ])

  parse_group-Yields :
      (fuel : ℕ) (p : Parser)
      → left p ≤ fuel
      → left p ≤ bound
      → Yields IsTree (left p) (parse_group self fuel p)
  unfolding parse_group parse_group_body IsTree read_next_group_name
  parse_group-Yields fuel p h b =
      and_then-Yields Any IsTree (left p) (left p)
        (read_or expected_group_name read_next_group_name p) _
        (read_or-Yields expected_group_name read_next_group_name p
          (next-Moves read_group_name p (read_group_name-Moves (skip_ws p))))
        (λ t p1 u1 h1.
          and_then-Yields AreMembersTrees IsTree (left p1) (left p) (parse_group_body self fuel p1)
            _ (body p1 (omega (arith, h, h1)) (omega (arith, b, h1)))
            (λ members q t2 h2. (t2, omega (arith, h1, h2))))
    where
      body :
          (p1 : Parser)
          → left p1 < fuel
          → left p1 < bound
          → Yields AreMembersTrees (left p1) (parse_group_body self fuel p1)
      body p1 h1 b1 =
          and_then-Yields Any AreMembersTrees (left p1) (left p1)
            (read_next_char_or expected_group_start b'{' p1) _
            (read_next_char_or-Yields expected_group_start b'{' p1)
            (λ t p2 u2 h2.
              and_then-Yields AreMembersTrees AreMembersTrees (suc (left p2)) (left p1)
                (parse_members self fuel p2) _
                (parse_members-Yields fuel p2 (omega (arith, h1, h2)) (omega (arith, b1, h2)))
                (λ members p3 t3 h3.
                  and_then-Yields Any AreMembersTrees (left (skip_ws p3)) (left p1)
                    (read_next_char_or expected_group_end b'}' (skip_ws p3)) _
                    (read_next_char_or-Yields expected_group_end b'}' (skip_ws p3))
                    (λ t' q u4 h4. (t3, omega (arith, h2, h3, h4, skip_ws-left p3)))))

module _ (strtod : List ℕ → ℕ × ℕ) where
  parse_by_char-Yields :
      (self : Parser → Result Node) (fuel x : ℕ) (p : Parser)
      → Inner self fuel
      → left p ≤ fuel
      → Yields IsTree (left p) (parse_by_char strtod self fuel x p)
  unfolding parse_by_char
  parse_by_char-Yields self fuel x p inner h = elim (Bool-cases (x == b'"')) [
    | inl e ↦ rw (e) (parse_string-Yields p)
    | inr e ↦ elim (Bool-cases (x == b'[')) [
      | inl f ↦ rw (e, f) (parse_list-Yields self fuel inner fuel p h h)
      | inr f ↦ elim (Bool-cases (isident_start_char x)) [
        | inl g ↦ rw (e, f, g) (parse_group-Yields self fuel inner fuel p h h)
        | inr g ↦ elim (Bool-cases (x == b'.')) [
          | inl i ↦ rw (e, f, g, i) (parse_double-Yields strtod p)
          | inr i ↦ elim (Bool-cases (isdigit x || x == b'-')) [
            | inl j ↦ rw (e, f, g, i, j) (number p)
            | inr j ↦ rw (e, f, g, i, j) tt
          ]
        ]
      ]
    ]
  ]
    where
      number :
          (p : Parser)
          → Yields IsTree (left p) (elim (peek_double p).0 [
            | some t ↦ parse_double strtod p
            | none ↦ elim (peek_int64 p).0 [ some t ↦ parse_int64 p | none ↦ parse_uint64 p ]
          ])
      number p = elim (Option-cases (peek_double p).0) [
        | inr (t, k) ↦ rw (k) (parse_double-Yields strtod p)
        | inl k ↦ elim (Option-cases (peek_int64 p).0) [
          | inr (t, l) ↦ rw (k, l) (parse_int64-Yields p)
          | inl l ↦ rw (k, l) (parse_uint64-Yields p)
        ]
      ]

  parse_node-Yields :
      (fuel : ℕ) (p : Parser) → left p < fuel → Yields IsTree (left p) (parse_node strtod fuel p)
  unfolding parse_node
  parse_node-Yields zero p h = absurd (omega (arith, h))
  parse_node-Yields (suc fuel) p h =
      and_then-Yields Any IsTree (suc (left p)) (left p) (peek_char_or end_in_node (skip_ws p)) _
        (peek_char_or-Yields end_in_node p)
        (λ x p1 u1 h1.
          Yields-mono IsTree (left p1) (left p)
            (parse_by_char strtod (parse_node strtod fuel) fuel x p1)
            (parse_by_char-Yields (parse_node strtod fuel) fuel x p1
              (λ q k. parse_node-Yields fuel q k) (omega (arith, h, h1)))
            (omega (arith, h1)))

  -- On every text the parser ends with a tree or an error, within the fuel, and a tree has members only
  -- in groups and all its integers in their ranges, and leaves less than the text.
  pub parse-IsTree : (str : List ℕ) → Yields IsTree (length str) (parse strtod str)
  unfolding parse init
  parse-IsTree str = parse_node-Yields (suc (length str)) (init str) (unfold init in omega arith)
