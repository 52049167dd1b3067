-- ===== src/ObjectNotation/Save.antt =====
-- object_notation.c: the printer. A function gives the text that it writes, where every write succeeds.
use aftermath.Base.{ℕ, ◌+◌, Bool, List, [], ◌∷◌, ◌++◌, if◌then◌else◌, replicate}
use aftermath.AnsiExtras.{escape_string}
use aftermath.AnsiExtras.Numerals.{decimal, signed_decimal}
use aftermath.ObjectNotation.{
  Node, group, member, list, string, int64, uint64, double, Members, no_member, add_member, Items,
  no_item, add_item, has_composite_item,
}

-- The prefix of am_fprintf_prefix and am_fputs_prefix.
abbrev pub tabs : ℕ → List ℕ
tabs indent = replicate indent b'\t'

-- am_object_notation_node_string_save
unfoldable pub string_save : List ℕ → ℕ → List ℕ
string_save value indent = tabs indent ++ (b'"' ∷ escape_string value ++ b'"' ∷ [])

-- How a list is written: a line for each item, or all in one.
abbrev pub list_start : Bool → List ℕ
list_start has_composite = if has_composite then b'[' ∷ b'\n' ∷ [] else b'[' ∷ []

abbrev pub item_sep : Bool → List ℕ
item_sep has_composite = if has_composite then b',' ∷ b'\n' ∷ [] else b',' ∷ b' ' ∷ []

abbrev pub list_end : Bool → ℕ → List ℕ
list_end has_composite next_indent =
    if has_composite then b'\n' ∷ (tabs next_indent ++ b']' ∷ []) else b']' ∷ []

-- What follows a member of a group: there is a comma where it is not the last one.
abbrev pub member_end : Members → List ℕ
member_end no_member = b'\n' ∷ []
member_end (add_member name def members) = b',' ∷ b'\n' ∷ []

module _ (print_double : ℕ → List ℕ) where
  unfoldable mutual
    -- am_object_notation_save_fp_indent, with the functions for the types of nodes in its cases.
    pub save_fp_indent : Node → ℕ → ℕ → List ℕ
    save_fp_indent (group name members) indent next_indent =
        tabs indent
        ++ (name
            ++ (b' '
                ∷ b'{'
                ∷ b'\n'
                ∷ (members_save members next_indent ++ (tabs next_indent ++ b'}' ∷ []))))
    save_fp_indent (member name def) indent next_indent =
        tabs indent ++ (name ++ (b':' ∷ b' ' ∷ save_fp_indent def 0 next_indent))
    save_fp_indent (list no_item) indent next_indent = tabs indent ++ b'[' ∷ b']' ∷ []
    save_fp_indent (list (add_item item items)) indent next_indent =
        let has_composite = has_composite_item (add_item item items) in
        let item_indent = if has_composite then next_indent else 0 in
        tabs indent
        ++ (list_start has_composite
            ++ (save_fp_indent item item_indent (next_indent + 1)
                ++ (items_save has_composite items item_indent (next_indent + 1)
                    ++ list_end has_composite next_indent)))
    save_fp_indent (string value) indent next_indent = string_save value indent
    save_fp_indent (int64 value) indent next_indent =
        tabs indent ++ (signed_decimal value ++ b'i' ∷ b'6' ∷ b'4' ∷ [])
    save_fp_indent (uint64 value) indent next_indent =
        tabs indent ++ (decimal value ++ b'u' ∷ b'6' ∷ b'4' ∷ [])
    save_fp_indent (double value) indent next_indent = tabs indent ++ print_double value

    -- The loop of am_object_notation_node_group_save, with am_object_notation_node_member_save in it.
    pub members_save : Members → ℕ → List ℕ
    members_save no_member next_indent = []
    members_save (add_member name def members) next_indent =
        tabs (next_indent + 1)
        ++ (name
            ++ (b':'
                ∷ b' '
                ∷ (save_fp_indent def 0 (next_indent + 2)
                    ++ (member_end members ++ members_save members next_indent))))

    -- The loop of am_object_notation_node_list_save behind the first item, each with the separator
    -- in front of it.
    pub items_save : Bool → Items → ℕ → ℕ → List ℕ
    items_save has_composite no_item item_indent item_next_indent = []
    items_save has_composite (add_item item items) item_indent item_next_indent =
        item_sep has_composite
        ++ (save_fp_indent item item_indent item_next_indent
            ++ items_save has_composite items item_indent item_next_indent)

  -- am_object_notation_save_fp
  unfoldable pub save_fp : Node → List ℕ
  save_fp node = save_fp_indent node 0 0
