-- ===== src/SimpleHierarchy/Build.antt =====
-- The parser of hierarchy specifications in simple_hierarchy.c. The characters that are left stand for
-- the pointer of `struct am_simple_hierarchy_spec_parser`; the end of the list is the zero character.
-- The functions call one another, so they take fuel; `out_of_fuel` is excluded by Build.Total.
pub mod RoundTrip
pub mod Total
use aftermath.Base.{
  ℕ, zero, suc, ◌+◌, ◌*◌, ◌%◌, ◌^◌, Bool, true, false, not, ◌&&◌, Option, none, some, List, [], ◌∷◌,
  ◌==◌, if◌then◌else◌, length,
}
use aftermath.Parser.Chars.{isblank}
use aftermath.SimpleHierarchy.{Node, SimpleHierarchy, node_initn, add_child, init, set_root}

-- NULL or 1 on the way is `fail`.
pub data Parse (A : Type 0) : Type 0 where
  ok : A → Parse A
  fail : Parse A
  out_of_fuel : Parse A

infixl 5 ◌>>=◌
abbrev pub ◌>>=◌ : {A B : Type 0} → Parse A → (A → Parse B) → Parse B
ok a >>= f = f a
fail >>= f = fail
out_of_fuel >>= f = out_of_fuel

-- am_simple_hierarchy_spec_parser_skip_ws
unfoldable pub skip_ws : List ℕ → List ℕ
unfolding isblank
skip_ws [] = []
skip_ws (x ∷ xs) = let further = skip_ws xs in if isblank x then further else x ∷ xs

-- The loop of am_simple_hierarchy_spec_parse_name: the name up to the closing quote, and the rest.
unfoldable pub name_loop : List ℕ → Option (List ℕ × List ℕ)
name_loop [] = none
name_loop (x ∷ xs) =
    let further = name_loop xs in
    if x == b'"'
    then some ([], xs)
    else elim further [ none ↦ none | some (name, rest) ↦ some (x ∷ name, rest) ]

-- A character that must stand in front, and the rest.
unfoldable pub expect : ℕ → List ℕ → Option (List ℕ)
expect c [] = none
expect c (x ∷ xs) = if x == c then some xs else none

-- am_simple_hierarchy_spec_parse_name
unfoldable pub parse_name : List ℕ → Option (List ℕ × List ℕ)
parse_name p = elim (expect b'"' (skip_ws p)) [ none ↦ none | some p' ↦ name_loop p' ]

-- Whether the allocations for the node with an id succeed.
module _ (allocates : ℕ → Bool) where
  unfoldable mutual
    -- am_simple_hierarchy_spec_build_node: the node, the characters left, and the next id, which wraps
    -- at 2 ^ 32 as an `am_hierarchy_node_id_t` does.
    pub build_node : ℕ → List ℕ → ℕ → Parse (Node × List ℕ × ℕ)
    build_node zero p curr_id = out_of_fuel
    build_node (suc fuel) p curr_id = elim (parse_name p) [
      | none ↦ fail
      | some (name, p') ↦ elim (allocates curr_id) [
        | false ↦ fail
        | true ↦ build_children fuel (node_initn name curr_id) p' ((curr_id + 1) % 2 ^ 32)
      ]
    ]

    -- am_simple_hierarchy_spec_build_children
    pub build_children : ℕ → Node → List ℕ → ℕ → Parse (Node × List ℕ × ℕ)
    build_children zero parent p curr_id = out_of_fuel
    build_children (suc fuel) parent p curr_id = elim (expect b'{' (skip_ws p)) [
      | none ↦ fail
      | some p' ↦ elim (expect b'}' (skip_ws p')) [
        | some rest ↦ ok (parent, rest, curr_id)
        | none ↦ children_loop fuel parent (skip_ws p') curr_id
      ]
    ]

    -- The loop of am_simple_hierarchy_spec_build_children, and what follows it; blanks skipped once
    -- need not be skipped again.
    pub children_loop : ℕ → Node → List ℕ → ℕ → Parse (Node × List ℕ × ℕ)
    children_loop zero parent p curr_id = out_of_fuel
    children_loop (suc fuel) parent p curr_id =
        build_node fuel p curr_id >>= λ (child, p', next_id). elim (expect b',' (skip_ws p')) [
          | some rest ↦ children_loop fuel (add_child parent child) rest next_id
          | none ↦ elim (expect b'}' (skip_ws p')) [
            | none ↦ fail
            | some rest ↦ ok (add_child parent child, rest, next_id)
          ]
        ]

  -- Each of the three functions is entered at most once for a character, and then once more.
  abbrev pub fuel_for : List ℕ → ℕ
  fuel_for spec = 3 * length spec + 3

  -- am_simple_hierarchy_build, once the hierarchy and its name are allocated. The identifiers of the
  -- nodes start at 1, and what follows the root is ignored.
  unfoldable pub build : List ℕ → ℕ → List ℕ → Parse SimpleHierarchy
  unfolding init set_root
  build name id spec = build_node (fuel_for spec) spec 1 >>= λ (root, rest, curr_id).
      elim (set_root (init name id) root) [ none ↦ fail | some h ↦ ok h ]
