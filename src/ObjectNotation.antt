-- ===== src/ObjectNotation.antt =====
-- libaftermath-core/src/object_notation.h and object_notation.c: a tree of groups with named members,
-- lists, strings and numbers, its parser, its printer, its construction and its queries. Memory is
-- given. A name or a string is the list of its characters, and a double is its bit pattern.
pub mod Parse
pub mod Save
pub mod Tokens
pub mod NumberTokens
pub mod DoubleTokens
pub mod PrintedLists
pub mod PrintedGroups
pub mod PrintedTexts
pub mod PrintedNodes
pub mod RoundTrip
pub mod Yields
pub mod Total
pub mod GroupMembers
pub mod Eval
pub mod Build
pub mod Spelled
pub mod Built
pub mod Indexes
pub mod Paths
use aftermath.Base.{
  ℕ, zero, suc, ◌+◌, Bool, true, false, ◌||◌, Option, none, some, List, [], ◌∷◌, ltb, ◌==◌,
  if◌then◌else◌, length,
}
use aftermath.Base.Int.{ℤ}
use aftermath.AnsiExtras.{strdupn}

-- `struct am_object_notation_node` with the structures that embed it, and the lists of siblings.
mutual
  pub data Node : Type 0 where
    group : List ℕ → Members → Node
    member : List ℕ → Node → Node
    list : Items → Node
    string : List ℕ → Node
    int64 : ℤ → Node
    uint64 : ℕ → Node
    double : ℕ → Node

  -- The members of a group: the name and the definition of each.
  pub data Members : Type 0 where
    no_member : Members
    add_member : List ℕ → Node → Members → Members

  pub data Items : Type 0 where
    no_item : Items
    add_item : Node → Items → Items

-- am_object_notation_node_is_composite
unfoldable pub is_composite : Node → Bool
is_composite (group name members) = true
is_composite (member name def) = true
is_composite (list items) = true
is_composite (string value) = false
is_composite (int64 value) = false
is_composite (uint64 value) = false
is_composite (double value) = false

-- am_object_notation_node_list_has_composite_item
unfoldable pub has_composite_item : Items → Bool
unfolding is_composite
has_composite_item no_item = false
has_composite_item (add_item item items) = is_composite item || has_composite_item items
