-- ===== src/SimpleHierarchy/Search.antt =====
-- am_simple_hierarchy_get_node: the node at a path of names from the root. The loop over the path goes
-- on after a name that no child has; `fault` is its read through the null pointer then.
use aftermath.Base.{
  ℕ, Bool, true, false, not, ◌&&◌, Option, none, some, List, [], ◌∷◌, ◌++◌, ◌≡◌, arith, ◌==◌,
  if◌then◌else◌,
}
use aftermath.SimpleHierarchy.{Node, Children, nil, cons, SimpleHierarchy, node_name, node_children}

-- A node, NULL, or a read through NULL.
pub data Lookup : Type 0 where
  found : Node → Lookup
  null : Lookup
  fault : Lookup

-- strcmp(a, b) == 0
unfoldable pub same_name : List ℕ → List ℕ → Bool
same_name [] [] = true
same_name (x ∷ a) (y ∷ b) = x == y && same_name a b
same_name _ _ = false

-- The inner loop: the first child with the name.
unfoldable pub find_child : Children → List ℕ → Option Node
unfolding same_name
find_child nil name = none
find_child (cons c cs) name =
    let further = find_child cs name in if same_name (node_name c) name then some c else further

-- The outer loop, from a node or NULL.
unfoldable pub path_loop : Option Node → List (List ℕ) → Lookup
path_loop none [] = null
path_loop (some n) [] = found n
path_loop none (name ∷ path) = fault
path_loop (some n) (name ∷ path) = path_loop (find_child (node_children n) name) path

-- am_simple_hierarchy_get_node
unfoldable pub get_node : SimpleHierarchy → List ℕ → List (List ℕ) → Lookup
unfolding path_loop
get_node h path0 path = elim h.root [
  | none ↦ null
  | some root ↦ if not (same_name (node_name root) path0) then null else path_loop (some root) path
]

-- The specification: the node at the path, if each name on the way is found.
unfoldable pub walk : Option Node → List (List ℕ) → Option Node
walk none path = none
walk (some n) [] = some n
walk (some n) (name ∷ path) = walk (find_child (node_children n) name) path

path_loop-walk :
    (o : Option Node) (path : List (List ℕ)) {m : Node}
    → walk o path ≡ some m
    → path_loop o path ≡ found m
unfolding path_loop walk
path_loop-walk none path e = cc
path_loop-walk (some n) [] e = cc
path_loop-walk (some n) (name ∷ path) e = path_loop-walk (find_child (node_children n) name) path e

-- Where the path begins with the name of the root and every further name is found on the way, the node at its end is returned.
pub get_node-found :
    (h : SimpleHierarchy) (root : Node) (path0 : List ℕ) (path : List (List ℕ)) {m : Node}
    → h.root ≡ some root
    → same_name (node_name root) path0 ≡ true
    → walk (some root) path ≡ some m
    → get_node h path0 path ≡ found m
unfolding get_node
get_node-found h root path0 path e s w = ground (arith, path_loop-walk (some root) path w)

path_loop-stops :
    (o : Option Node) (m : Node) (path : List (List ℕ)) (name : List ℕ) (later : List (List ℕ))
    → walk o path ≡ some m
    → find_child (node_children m) name ≡ none
    → path_loop o (path ++ name ∷ later) ≡ path_loop none later
unfolding path_loop walk
path_loop-stops none m path name later e gone = cc
path_loop-stops (some n) m [] name later e gone =
    let q : n ≡ m = cc in
    let gone' : find_child (node_children n) name ≡ none = cc in rw (path_loop, gone')
path_loop-stops (some n) m (x ∷ path) name later e gone =
    path_loop-stops (find_child (node_children n) x) m path name later e gone

-- Where a path begins with the name of the root and goes on to a node of which no child has the next
-- name, the result is NULL exactly where this is the last name
-- of the path; with further names the code reads through the null pointer.
pub get_node-missing :
    (h : SimpleHierarchy) (root m : Node) (path0 : List ℕ) (path : List (List ℕ)) (name : List ℕ)
    (later : List (List ℕ))
    → h.root ≡ some root
    → same_name (node_name root) path0 ≡ true
    → walk (some root) path ≡ some m
    → find_child (node_children m) name ≡ none
    → get_node h path0 (path ++ name ∷ later) ≡ (elim later [ [] ↦ null | _ ∷ _ ↦ fault ])
unfolding get_node path_loop
get_node-missing h root m path0 path name [] e s w gone =
    ground (arith, path_loop-stops (some root) m path name [] w gone)
get_node-missing h root m path0 path name (x ∷ later) e s w gone =
    ground (arith, path_loop-stops (some root) m path name (x ∷ later) w gone)
