-- ===== src/ObjectNotation/RoundTrip.antt =====
-- The parser gives back a tree that the printer has written.
use aftermath.Base.{
  ℕ, zero, suc, ◌+◌, ◌≤◌, Bool, List, [], ◌∷◌, ◌++◌, append_assoc, append-nil, arith, if◌then◌else◌,
  length, length-append,
}
use mathlib.Core.Path.{subst}
use aftermath.Parser.{init}
use aftermath.Parser.Chars.{isdigit}
use aftermath.Parser.Words.{Stops, at}
use aftermath.ObjectNotation.{
  Node, group, member, list, string, int64, uint64, double, Members, no_member, add_member, Items,
  no_item, add_item, has_composite_item,
}
use aftermath.ObjectNotation.Parse.{
  end_in_list, expected_list_next, end_in_group, expected_group_next, parse_node, parse,
}
use aftermath.ObjectNotation.Save.{
  tabs, string_save, list_start, item_sep, list_end, member_end, save_fp_indent, items_save,
  members_save, save_fp,
}
use aftermath.ObjectNotation.Tokens.{Gives, read_separator-comma}
use aftermath.ObjectNotation.NumberTokens.{ParsesTo, parse_node-ParsesTo}
use aftermath.ObjectNotation.PrintedLists.{tabs-blank, ItemsFollow, item_step}
use aftermath.ObjectNotation.PrintedGroups.{MembersFollow}
use aftermath.ObjectNotation.PrintedTexts.{
  size, size_members, size_items, IsPrintable, AreMembersPrintable, AreItemsPrintable, sep_blanks,
  sep_blanks-blank, save_fp_indent-tabs, items_save_step,
}
use aftermath.ObjectNotation.PrintedNodes.{
  items-Stops, members-Stops, leaf-ParsesTo, list_composed, empty_list, last_item, after_member,
  last_member, members_first, empty_group, group_composed,
}

list_start_pos : (has : Bool) → 1 ≤ length (list_start has)
list_start_pos has = ground arith

list_end_pos : (has : Bool) (next : ℕ) → 1 ≤ length (list_end has next)
list_end_pos has next = ground arith

item_sep_pos : (has : Bool) → 1 ≤ length (item_sep has)
item_sep_pos has = ground arith

module _ (print_double : ℕ → List ℕ) where
  -- The text of a tree is at least as long as its size.
  mutual
    unfolding size save_fp_indent string_save

    size-save :
        (n : Node) (indent next : ℕ) → size n ≤ length (save_fp_indent print_double n indent next)
    size-save (group name members) indent next = omega (
      arith,
      length-append (tabs indent) (
          name
          ++ (b' '
              ∷ b'{'
              ∷ b'\n'
              ∷ (members_save print_double members next ++ (tabs next ++ b'}' ∷ [])))),
      length-append name (
          b' '
          ∷ b'{'
          ∷ b'\n'
          ∷ (members_save print_double members next ++ (tabs next ++ b'}' ∷ []))),
      length-append (members_save print_double members next) (tabs next ++ b'}' ∷ []),
      size_members-save members next,
    )
    size-save (member name def) indent next = omega arith
    size-save (list no_item) indent next =
        omega (arith, length-append (tabs indent) (b'[' ∷ b']' ∷ []))
    size-save (list (add_item item items)) indent next =
        let has = has_composite_item (add_item item items) in
        let ii = if has then next else 0 in
        let text = save_fp_indent print_double item ii (next + 1) in
        let further = items_save print_double has items ii (next + 1) in
        omega (
          arith,
          length-append (tabs indent) (list_start has ++ (text ++ (further ++ list_end has next))),
          length-append (list_start has) (text ++ (further ++ list_end has next)),
          length-append text (further ++ list_end has next),
          length-append further (list_end has next),
          list_start_pos has,
          list_end_pos has next,
          size-save item ii (next + 1),
          size_items-save has items ii (next + 1),
        )
    size-save (string value) indent next = omega arith
    size-save (int64 value) indent next = omega arith
    size-save (uint64 value) indent next = omega arith
    size-save (double value) indent next = omega arith

    size_members-save :
        (members : Members) (next : ℕ)
        → size_members members ≤ 1 + length (members_save print_double members next)
    size_members-save no_member next = omega arith
    size_members-save (add_member name def members) next =
        let text = save_fp_indent print_double def 0 (next + 2) in
        let further = member_end members ++ members_save print_double members next in
        omega (
          arith,
          length-append (tabs (next + 1)) (name ++ (b':' ∷ b' ' ∷ (text ++ further))),
          length-append name (b':' ∷ b' ' ∷ (text ++ further)),
          length-append text further,
          length-append (member_end members) (members_save print_double members next),
          size-save def 0 (next + 2),
          size_members-save members next,
        )

    size_items-save :
        (has : Bool) (items : Items) (ii ni : ℕ)
        → size_items items ≤ 1 + length (items_save print_double has items ii ni)
    size_items-save has no_item ii ni = omega arith
    size_items-save has (add_item item items) ii ni =
        let text = save_fp_indent print_double item ii ni in
        let further = items_save print_double has items ii ni in
        omega (
          arith,
          length-append (item_sep has) (text ++ further),
          length-append text further,
          item_sep_pos has,
          size-save item ii ni,
          size_items-save has items ii ni,
        )

module _ (print_double : ℕ → List ℕ) (strtod : List ℕ → ℕ × ℕ) where
  mutual
    unfolding size IsPrintable

    save-ParsesTo :
        (n : Node) (fuel next : ℕ) (tail : List ℕ)
        → size n ≤ fuel
        → IsPrintable print_double strtod n
        → Stops isdigit tail
        → ParsesTo strtod fuel (save_fp_indent print_double n 0 next) n tail
    save-ParsesTo (string value) fuel next tail h k s =
        leaf-ParsesTo print_double strtod (string value) fuel next tail tt k s
    save-ParsesTo (int64 value) fuel next tail h k s =
        leaf-ParsesTo print_double strtod (int64 value) fuel next tail tt k s
    save-ParsesTo (uint64 value) fuel next tail h k s =
        leaf-ParsesTo print_double strtod (uint64 value) fuel next tail tt k s
    save-ParsesTo (double value) fuel next tail h k s =
        leaf-ParsesTo print_double strtod (double value) fuel next tail tt k s
    save-ParsesTo (member name def) fuel next tail h k s = absurd (ground (arith, k))
    save-ParsesTo (list no_item) zero next tail h k s = absurd (omega (arith, h))
    save-ParsesTo (list no_item) (suc fuel) next tail h k s =
        empty_list print_double strtod fuel next tail
    save-ParsesTo (list (add_item item items)) zero next tail h k s = absurd (omega (arith, h))
    save-ParsesTo (list (add_item item items)) (suc fuel) next tail h k s =
        let has = has_composite_item (add_item item items) in
        list_composed print_double strtod item items fuel next tail
          (save-ParsesTo item fuel (next + 1) _ (omega (arith, h)) k.0
            (items-Stops print_double strtod has items _ _ next tail))
          (items-Follow items fuel fuel has _ _ next tail (omega (arith, h)) (omega (arith, h)) k.1)
    save-ParsesTo (group name no_member) zero next tail h k s = absurd (omega (arith, h))
    save-ParsesTo (group name no_member) (suc fuel) next tail h k s =
        empty_group print_double strtod name fuel next tail k.0
    save-ParsesTo (group name (add_member m def ms)) zero next tail h k s =
        absurd (omega (arith, h))
    save-ParsesTo (group name (add_member m def ms)) (suc fuel) next tail h k s =
        group_composed print_double strtod name m def ms fuel next tail k.0 k.1.0
          (save-ParsesTo def fuel (next + 2) _ (omega (arith, h)) k.1.1
            (members-Stops print_double strtod ms _))
          (members-Follow ms fuel fuel next tail (omega (arith, h)) (omega (arith, h)) k.1.2)

    members-Follow :
        (members : Members) (g fuel next : ℕ) (tail : List ℕ)
        → size_members members ≤ fuel
        → size_members members ≤ suc g
        → AreMembersPrintable print_double strtod members
        → MembersFollow strtod g fuel
            (after_member print_double strtod members next tail)
            members
            tail
    members-Follow no_member g zero next tail h h' k = absurd (omega (arith, h))
    members-Follow (add_member m def ms) g zero next tail h h' k = absurd (omega (arith, h))
    members-Follow no_member g (suc fuel) next tail h h' k =
        last_member print_double strtod g fuel next tail
    members-Follow (add_member m def ms) g (suc fuel) next tail h h' k = (
      b',',
      b'\n' ∷ (members_save print_double (add_member m def ms) next ++ (tabs next ++ b'}' ∷ tail)),
      λ c. read_separator-comma end_in_group expected_group_next b'}' c _,
      λ c.
          members_first print_double strtod m def ms g fuel next tail c k.0
            (save-ParsesTo def g (next + 2) _ (omega (arith, h')) k.1
              (members-Stops print_double strtod ms _))
            (members-Follow ms g fuel next tail (omega (arith, h)) (omega (arith, h')) k.2),
    )

    items-Follow :
        (items : Items) (g fuel : ℕ) (has : Bool) (ii ni next : ℕ) (tail : List ℕ)
        → size_items items ≤ fuel
        → size_items items ≤ suc g
        → AreItemsPrintable print_double strtod items
        → ItemsFollow strtod g fuel
            (items_save print_double has items ii ni ++ (list_end has next ++ tail))
            items
            tail
    items-Follow no_item g zero has ii ni next tail h h' k = absurd (omega (arith, h))
    items-Follow (add_item item items) g zero has ii ni next tail h h' k = absurd (omega (arith, h))
    items-Follow no_item g (suc fuel) has ii ni next tail h h' k =
        last_item print_double strtod g fuel has ii ni next tail
    items-Follow (add_item item items) g (suc fuel) has ii ni next tail h h' k =
        rw (items_save_step print_double has item items ii ni (list_end has next ++ tail)) (
          b',',
          sep_blanks has ii
              ++ (save_fp_indent print_double item 0 ni
                  ++ (items_save print_double has items ii ni ++ (list_end has next ++ tail))),
          λ c. read_separator-comma end_in_list expected_list_next b']' c _,
          λ c.
              item_step strtod g fuel c (sep_blanks has ii) (save_fp_indent print_double item 0 ni)
                _ item items tail (sep_blanks-blank has ii)
                (save-ParsesTo item g ni _ (omega (arith, h')) k.0
                  (items-Stops print_double strtod has items ii ni next tail))
                (items-Follow items g fuel has ii ni next tail (omega (arith, h))
                  (omega (arith, h')) k.1),
        )

  -- With enough fuel, the parser reads a printable tree, whatever its indentation, and stops at the end
  -- of its text, where no digit follows.
  pub parse_node-save :
      (n : Node) (fuel indent next c : ℕ) (tail : List ℕ)
      → size n ≤ fuel
      → IsPrintable print_double strtod n
      → Stops isdigit tail
      → Gives
          (parse_node strtod (suc fuel) (at c (save_fp_indent print_double n indent next ++ tail)))
          n
          tail
  parse_node-save n fuel indent next c tail h k s =
      rw
        (
          save_fp_indent-tabs print_double n indent next,
          append_assoc (tabs indent) (save_fp_indent print_double n 0 next) tail,
        )
        (parse_node-ParsesTo strtod fuel (save_fp_indent print_double n 0 next) n tail (tabs indent)
          c (save-ParsesTo n fuel next tail h k s) (tabs-blank indent))

  -- The parser gives back a printable tree from the text that the printer writes for it, to the end of
  -- the text.
  pub parse-save_fp :
      (n : Node)
      → IsPrintable print_double strtod n
      → Gives (parse strtod (save_fp print_double n)) n []
  unfolding parse save_fp init
  parse-save_fp n k =
      let text = save_fp_indent print_double n 0 0 in
      subst (λ t. Gives (parse_node strtod (suc (length text)) (at 0 t)) n []) (append-nil text)
        (parse_node-save n (length text) 0 0 0 [] (size-save print_double n 0 0) k tt)
