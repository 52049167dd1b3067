-- ===== src/SimpleHierarchy/Build/RoundTrip.antt =====
-- A specification that is written out is built into the tree that it describes: identifiers in the
-- order of the text, and the children of each node in reverse.
use aftermath.Base.{
  ℕ, zero, suc, ◌+◌, ◌%◌, ◌^◌, ◌≤◌, ◌<◌, ◌≡◌, refl, Bool, true, not, ◌&&◌, none, some, List, [],
  ◌∷◌, ◌++◌, arith, ◌==◌, length, length-append,
}
use aftermath.Parser.Words.{All}
use aftermath.SimpleHierarchy.{Node, Children, node, nil, cons, node_initn, add_child}
use aftermath.SimpleHierarchy.Build.{
  ok, skip_ws, name_loop, expect, parse_name, build_node, children_loop, fuel_for, build,
}

-- A tree of names.
mutual
  pub data Spec : Type 0 where
    branch : List ℕ → Specs → Spec

  pub data Specs : Type 0 where
    empty : Specs
    also : Spec → Specs → Specs

unfoldable mutual
  -- The text of a specification in front of a text.
  pub print : Spec → List ℕ → List ℕ
  print (branch name cs) tail = b'"' ∷ (name ++ (b'"' ∷ b'{' ∷ print_children cs (b'}' ∷ tail)))

  pub print_children : Specs → List ℕ → List ℕ
  print_children empty tail = tail
  print_children (also c cs) tail = print c (print_more cs tail)

  pub print_more : Specs → List ℕ → List ℕ
  print_more empty tail = tail
  print_more (also c cs) tail = b',' ∷ print c (print_more cs tail)

unfoldable mutual
  pub size : Spec → ℕ
  size (branch name cs) = 1 + size_all cs

  pub size_all : Specs → ℕ
  size_all empty = 0
  size_all (also c cs) = size c + size_all cs

unfoldable mutual
  -- The tree of a specification, its identifiers from `id` on in the order of the text.
  pub label : Spec → ℕ → Node
  label (branch name cs) id = node name id (label_all cs (id + 1) nil)

  -- The children in front of `done`, the last one first.
  pub label_all : Specs → ℕ → Children → Children
  label_all empty id done = done
  label_all (also c cs) id done = label_all cs (id + size c) (cons (label c id) done)

-- A character of a name: neither the quote nor the zero character.
abbrev in_name : ℕ → Bool
in_name c = not (c == b'"') && not (c == 0)

-- No name holds a quote or a zero character.
unfoldable mutual
  pub IsNamed : Spec → Type 0
  IsNamed (branch name cs) = All in_name name × AreNamed cs

  pub AreNamed : Specs → Type 0
  AreNamed empty = Unit {0}
  AreNamed (also c cs) = IsNamed c × AreNamed cs

-- How deep the calls of the parser go.
mutual
  cost : Spec → ℕ
  cost (branch name cs) = 2 + cost_all cs

  cost_all : Specs → ℕ
  cost_all empty = 0
  cost_all (also c cs) = 1 + cost c + cost_all cs

name_loop-quote :
    (name rest : List ℕ) → All in_name name → name_loop (name ++ b'"' ∷ rest) ≡ some (name, rest)
unfolding name_loop
name_loop-quote [] rest h = refl
name_loop-quote (x ∷ name) rest h = ground (arith, name_loop-quote name rest h.1)

parse_name-quote :
    (name rest : List ℕ)
    → All in_name name
    → parse_name (b'"' ∷ (name ++ b'"' ∷ rest)) ≡ some (name, rest)
unfolding parse_name skip_ws expect
parse_name-quote name rest h = name_loop-quote name rest h

mutual
  unfolding print cost

  cost-print : (t : Spec) (tail : List ℕ) → cost t + length tail ≤ length (print t tail)
  cost-print (branch name cs) tail = omega (
    arith,
    length-append name (b'"' ∷ b'{' ∷ print_children cs (b'}' ∷ tail)),
    cost-print_children cs (b'}' ∷ tail),
  )

  cost-print_children :
      (cs : Specs) (tail : List ℕ) → cost_all cs + length tail ≤ length (print_children cs tail) + 1
  cost-print_children empty tail = omega arith
  cost-print_children (also c cs) tail =
      omega (arith, cost-print c (print_more cs tail), cost-print_more cs tail)

  cost-print_more :
      (cs : Specs) (tail : List ℕ) → cost_all cs + length tail ≤ length (print_more cs tail)
  cost-print_more empty tail = omega arith
  cost-print_more (also c cs) tail =
      omega (arith, cost-print c (print_more cs tail), cost-print_more cs tail)

skip_ws-print : (t : Spec) (tail : List ℕ) → skip_ws (print t tail) ≡ print t tail
unfolding print skip_ws
skip_ws-print (branch name cs) tail = refl

expect-print : (t : Spec) (tail : List ℕ) → expect b'}' (print t tail) ≡ none
unfolding print expect
expect-print (branch name cs) tail = refl

module _ (allocates : ℕ → Bool) (gives : (id : ℕ) → allocates id ≡ true) where
  mutual
    unfolding build_node print size label cost skip_ws expect node_initn add_child IsNamed

    build_node-print :
        (t : Spec) (fuel id : ℕ) (tail : List ℕ)
        → IsNamed t
        → cost t ≤ fuel
        → id + size t < 2 ^ 32
        → build_node allocates fuel (print t tail) id ≡ ok (label t id, tail, id + size t)
    build_node-print (branch name cs) zero id tail h k b = absurd (omega arith)
    build_node-print (branch name cs) (suc zero) id tail h k b = absurd (omega arith)
    build_node-print (branch name empty) (suc (suc fuel)) id tail h k b =
        ground (arith, parse_name-quote name (b'{' ∷ b'}' ∷ tail) h.0, gives id, next_id)
      where
        next_id : (id + 1) % 2 ^ 32 ≡ id + 1
        next_id = omega arith
    build_node-print (branch name (also c cs)) (suc (suc fuel)) id tail h k b =
        let rest = print_more cs (b'}' ∷ tail) in
        let next_id : (id + 1) % 2 ^ 32 ≡ id + 1 = omega arith in
        ground (
          arith,
          parse_name-quote name (b'{' ∷ print c rest) h.0,
          gives id,
          next_id,
          skip_ws-print c rest,
          expect-print c rest,
          children_loop-print (also c cs) fuel name id nil (id + 1) tail h.1 (omega arith)
              (omega arith) (omega arith),
        )

    children_loop-print :
        (cs : Specs) (fuel : ℕ) (name : List ℕ) (i : ℕ) (done : Children) (id : ℕ) (tail : List ℕ)
        → AreNamed cs
        → 0 < cost_all cs
        → cost_all cs ≤ fuel
        → id + size_all cs < 2 ^ 32
        → children_loop allocates fuel (node name i done) (print_children cs (b'}' ∷ tail)) id
          ≡ ok (node name i (label_all cs id done), tail, id + size_all cs)
    children_loop-print empty fuel name i done id tail h n k b = absurd (omega arith)
    children_loop-print (also c cs) zero name i done id tail h n k b = absurd (omega arith)
    children_loop-print (also c empty) (suc fuel) name i done id tail h n k b =
        ground (arith, build_node-print c fuel id (b'}' ∷ tail) h.0 (omega arith) (omega arith))
    children_loop-print (also c (also d cs)) (suc fuel) name i done id tail h n k b =
        let rest = print_more cs (b'}' ∷ tail) in
        ground (
          arith,
          build_node-print c fuel id (b',' ∷ print d rest) h.0 (omega arith) (omega arith),
          children_loop-print (also d cs) fuel name i (cons (label c id) done) (id + size c) tail
              h.1 (omega arith) (omega arith) (omega arith),
        )

  -- A specification that is written out, its names free of quotes and of zero characters, is built into
  -- the tree that it describes, whatever follows it: each node has its name and the next identifier from
  -- 1 on in the order of the text, and its children stand in reverse. Allocations must succeed, and there
  -- are fewer than 2 ^ 32 - 1 nodes, so that no identifier wraps.
  pub build-print :
      (name : List ℕ) (id : ℕ) (t : Spec) (tail : List ℕ)
      → IsNamed t
      → 1 + size t < 2 ^ 32
      → build allocates name id (print t tail)
        ≡ ok (record { name = name; id = id; root = some (label t 1) })
  unfolding build
  build-print name id t tail h b =
      let k = cost-print t tail in
      ground
        (arith, build_node-print t (fuel_for allocates (print t tail)) 1 tail h (omega arith) b)
