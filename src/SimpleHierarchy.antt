-- ===== src/SimpleHierarchy.antt =====
-- libaftermath-trace/src/simple_hierarchy.c: named trees of nodes, built from a textual specification,
-- searched by path and written to a buffer. A node owns its children, so the pointers to the first
-- child and to the next sibling are a list of children, and the pointer to the parent is given by the
-- place in the tree. Frees and the printing to stdout are not modelled.
pub mod Build
pub mod Search
pub mod Frames
use aftermath.Base.{
  ℕ, suc, ◌+◌, Bool, true, false, not, ◌&&◌, Option, none, some, List, [], ◌∷◌, ◌==◌, if◌then◌else◌,
}

-- `struct am_simple_hierarchy_node`
mutual
  pub data Node : Type 0 where
    node : List ℕ → ℕ → Children → Node

  pub data Children : Type 0 where
    nil : Children
    cons : Node → Children → Children

-- `struct am_simple_hierarchy`
pub record SimpleHierarchy : Type 0 where
  pub name : List ℕ
  pub id : ℕ
  pub root : Option Node

-- am_simple_hierarchy_init, once the name is copied.
unfoldable pub init : List ℕ → ℕ → SimpleHierarchy
init name id = record { name = name; id = id; root = none }

-- am_simple_hierarchy_set_root; `none` is the return value 1.
unfoldable pub set_root : SimpleHierarchy → Node → Option SimpleHierarchy
set_root h n = elim h.root [ none ↦ some (record h { root = some n }) | some _ ↦ none ]

-- am_simple_hierarchy_node_initn
unfoldable pub node_initn : List ℕ → ℕ → Node
node_initn name id = node name id nil

-- am_simple_hierarchy_node_add_child: the child goes in front of the others.
unfoldable pub add_child : Node → Node → Node
add_child (node name id children) c = node name id (cons c children)

-- am_simple_hierarchy_node_remove_first_child
unfoldable pub remove_first_child : Node → Node
remove_first_child (node name id nil) = node name id nil
remove_first_child (node name id (cons c children)) = node name id children

abbrev pub node_name : Node → List ℕ
node_name (node name id children) = name

abbrev pub node_children : Node → Children
node_children (node name id children) = children
