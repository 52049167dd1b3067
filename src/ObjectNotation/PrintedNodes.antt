-- ===== src/ObjectNotation/PrintedNodes.antt =====
-- What the parser makes of the text of a node, given what it makes of the nodes inside.
use aftermath.Base.{
  ℕ, suc, ◌+◌, ◌≡◌, refl, Bool, true, false, List, [], ◌∷◌, ◌++◌, append_assoc, arith,
  if◌then◌else◌,
}
use aftermath.AnsiExtras.Escape.{is_ascii}
use aftermath.Parser.Chars.{isblank, isdigit}
use aftermath.Parser.Words.{All, Stops, at}
use aftermath.ObjectNotation.{
  Node, group, member, list, string, int64, uint64, double, Members, no_member, add_member, Items,
  no_item, add_item, has_composite_item,
}
use aftermath.ObjectNotation.Parse.{parse_members, parse_node, parse_by_char}
use aftermath.ObjectNotation.Save.{
  tabs, string_save, list_end, member_end, save_fp_indent, items_save, members_save,
}
use aftermath.ObjectNotation.Tokens.{Gives, quoted, parse_string-Gives}
use aftermath.ObjectNotation.NumberTokens.{ParsesTo, uint64-ParsesTo, int64-ParsesTo}
use aftermath.ObjectNotation.DoubleTokens.{double-ParsesTo}
use aftermath.ObjectNotation.PrintedLists.{
  tabs-blank, ItemsFollow, no_item_step, items_end, item_step, list-ParsesTo,
}
use aftermath.ObjectNotation.PrintedGroups.{
  IsMemberName, IsGroupName, MembersFollow, no_member_step, members_step, members_end,
  group-ParsesTo,
}
use aftermath.ObjectNotation.PrintedTexts.{
  IsPrintable, end_blanks, end_blanks-blank, list_end-blanks, start_blanks, start_blanks-blank,
  regroup_end, list_save_step, member_text,
}

pub string-ParsesTo :
    (strtod : List ℕ → ℕ × ℕ) (fuel : ℕ) (s tail : List ℕ)
    → All is_ascii s
    → ParsesTo strtod fuel (quoted s) (string s) tail
string-ParsesTo strtod fuel s tail h = (
  b'"',
  _,
  refl,
  unfold isblank in refl,
  refl,
  λ c. unfold parse_by_char in parse_string-Gives c s tail h,
)

-- The nodes other than lists and groups.
abbrev pub IsLeaf : Node → Type 0
IsLeaf (group name members) = false ≡ true
IsLeaf (member name def) = false ≡ true
IsLeaf (list items) = false ≡ true
IsLeaf (string value) = Unit {0}
IsLeaf (int64 value) = Unit {0}
IsLeaf (uint64 value) = Unit {0}
IsLeaf (double value) = Unit {0}

module _ (print_double : ℕ → List ℕ) (strtod : List ℕ → ℕ × ℕ) where
  pub end-Stops :
      (has : Bool) (next : ℕ) (tail : List ℕ) → Stops isdigit (list_end has next ++ tail)
  unfolding isdigit
  end-Stops true next tail = refl
  end-Stops false next tail = refl

  pub items-Stops :
      (has : Bool) (items : Items) (ii ni next : ℕ) (tail : List ℕ)
      → Stops isdigit (items_save print_double has items ii ni ++ (list_end has next ++ tail))
  unfolding items_save isdigit
  items-Stops has no_item ii ni next tail = end-Stops has next tail
  items-Stops true (add_item item items) ii ni next tail = refl
  items-Stops false (add_item item items) ii ni next tail = refl

  pub members-Stops :
      (members : Members) (tail : List ℕ) → Stops isdigit (member_end members ++ tail)
  unfolding isdigit
  members-Stops no_member tail = refl
  members-Stops (add_member name def members) tail = refl

  pub leaf-ParsesTo :
      (n : Node) (fuel next : ℕ) (tail : List ℕ)
      → IsLeaf n
      → IsPrintable print_double strtod n
      → Stops isdigit tail
      → ParsesTo strtod fuel (save_fp_indent print_double n 0 next) n tail
  unfolding IsPrintable save_fp_indent string_save
  leaf-ParsesTo (string value) fuel next tail l k s = string-ParsesTo strtod fuel value tail k
  leaf-ParsesTo (int64 value) fuel next tail l k s = int64-ParsesTo strtod fuel value tail k
  leaf-ParsesTo (uint64 value) fuel next tail l k s = uint64-ParsesTo strtod fuel value tail k
  leaf-ParsesTo (double value) fuel next tail l k s =
      double-ParsesTo print_double strtod fuel value tail k s
  leaf-ParsesTo (member name def) fuel next tail l k s = absurd (ground (arith, k))
  leaf-ParsesTo (list items) fuel next tail l k s = absurd (ground (arith, l))
  leaf-ParsesTo (group name members) fuel next tail l k s = absurd (ground (arith, l))

  pub list_text :
      (item : Node) (items : Items) (next : ℕ)
      → let has = has_composite_item (add_item item items) in
        let ii = if has then next else 0 in
        save_fp_indent print_double (list (add_item item items)) 0 next
        ≡ b'['
          ∷ (start_blanks has ii
              ++ (save_fp_indent print_double item 0 (next + 1)
                  ++ (items_save print_double has items ii (next + 1) ++ list_end has next)))
  list_text item items next =
      let has = has_composite_item (add_item item items) in
      unfold save_fp_indent in
      list_save_step print_double has item items (if has then next else 0) (next + 1)
        (list_end has next)

  pub list_composed :
      (item : Node) (items : Items) (fuel next : ℕ) (tail : List ℕ)
      → let has = has_composite_item (add_item item items) in
        let ii = if has then next else 0 in
        let rest = items_save print_double has items ii (next + 1) ++ (list_end has next ++ tail) in
        ParsesTo strtod fuel (save_fp_indent print_double item 0 (next + 1)) item rest
        → ItemsFollow strtod fuel fuel rest items tail
        → ParsesTo strtod
            (suc fuel)
            (save_fp_indent print_double (list (add_item item items)) 0 next)
            (list (add_item item items))
            tail
  list_composed item items fuel next tail k f =
      let has = has_composite_item (add_item item items) in
      let ii = if has then next else 0 in
      let first = start_blanks has ii in
      let text = save_fp_indent print_double item 0 (next + 1) in
      let further = items_save print_double has items ii (next + 1) in
      rw (list_text item items next) (
        list-ParsesTo strtod (suc fuel) (first ++ (text ++ (further ++ list_end has next)))
          (add_item item items) tail
          (λ c. rw (regroup_end first text further (list_end has next) tail) (
            item_step strtod fuel fuel c first text (further ++ (list_end has next ++ tail)) item
              items tail (start_blanks-blank has ii) k f)))

  pub empty_list :
      (fuel next : ℕ) (tail : List ℕ)
      → ParsesTo strtod
          (suc fuel)
          (save_fp_indent print_double (list no_item) 0 next)
          (list no_item)
          tail
  unfolding save_fp_indent
  empty_list fuel next tail =
      list-ParsesTo strtod (suc fuel) (b']' ∷ []) no_item tail
        (λ c. no_item_step (parse_node strtod (suc fuel)) fuel c [] tail tt)

  pub last_item :
      (g fuel : ℕ) (has : Bool) (ii ni next : ℕ) (tail : List ℕ)
      → ItemsFollow strtod g
          (suc fuel)
          (items_save print_double has no_item ii ni ++ (list_end has next ++ tail))
          no_item
          tail
  unfolding items_save
  last_item g fuel has ii ni next tail =
      rw (list_end-blanks has next tail)
        (items_end strtod g fuel (end_blanks has next) tail (end_blanks-blank has next))

  -- What stands behind a member of a group, from its separator on.
  abbrev pub after_member : Members → ℕ → List ℕ → List ℕ
  after_member members next tail =
      member_end members ++ (members_save print_double members next ++ (tabs next ++ b'}' ∷ tail))

  pub last_member :
      (g fuel next : ℕ) (tail : List ℕ)
      → MembersFollow strtod g (suc fuel) (after_member no_member next tail) no_member tail
  unfolding members_save
  last_member g fuel next tail =
      members_end strtod g fuel (b'\n' ∷ tabs next) tail (unfold isblank in refl, tabs-blank next)

  pub members_first :
      (m : List ℕ) (def : Node) (ms : Members) (g fuel next : ℕ) (tail : List ℕ) (c : ℕ)
      → IsMemberName m
      → ParsesTo strtod g
          (save_fp_indent print_double def 0 (next + 2))
          def
          (after_member ms next tail)
      → MembersFollow strtod g fuel (after_member ms next tail) ms tail
      → Gives
          (parse_members (parse_node strtod (suc g)) (suc fuel) (
            at c (
              b'\n'
              ∷ (members_save print_double (add_member m def ms) next
                  ++ (tabs next ++ b'}' ∷ tail)))))
          (add_member m def ms)
          (b'}' ∷ tail)
  members_first m def ms g fuel next tail c hm k f =
      rw (member_text print_double m def ms next (tabs next ++ b'}' ∷ tail)) (
        members_step strtod g fuel c (b'\n' ∷ tabs (next + 1)) m
          (save_fp_indent print_double def 0 (next + 2)) (after_member ms next tail) def ms tail
          (unfold isblank in refl, tabs-blank (next + 1)) hm k f)

  pub empty_group :
      (name : List ℕ) (fuel next : ℕ) (tail : List ℕ)
      → IsGroupName name
      → ParsesTo strtod
          (suc fuel)
          (save_fp_indent print_double (group name no_member) 0 next)
          (group name no_member)
          tail
  unfolding save_fp_indent
  empty_group name fuel next tail h =
      group-ParsesTo strtod (suc fuel) name (b'\n' ∷ (tabs next ++ b'}' ∷ [])) no_member tail h
        (λ c. rw (append_assoc (tabs next) (b'}' ∷ []) tail) (
          no_member_step strtod (suc fuel) fuel c (b'\n' ∷ tabs next) tail
            (unfold isblank in refl, tabs-blank next)))

  pub group_text :
      (name : List ℕ) (members : Members) (next : ℕ)
      → save_fp_indent print_double (group name members) 0 next
        ≡ name
          ++ (b' '
              ∷ b'{'
              ∷ (b'\n' ∷ (members_save print_double members next ++ (tabs next ++ b'}' ∷ []))))
  group_text name members next = unfold save_fp_indent in refl

  pub group_composed :
      (name m : List ℕ) (def : Node) (ms : Members) (fuel next : ℕ) (tail : List ℕ)
      → IsGroupName name
      → IsMemberName m
      → ParsesTo strtod fuel
          (save_fp_indent print_double def 0 (next + 2))
          def
          (after_member ms next tail)
      → MembersFollow strtod fuel fuel (after_member ms next tail) ms tail
      → ParsesTo strtod
          (suc fuel)
          (save_fp_indent print_double (group name (add_member m def ms)) 0 next)
          (group name (add_member m def ms))
          tail
  group_composed name m def ms fuel next tail hn hm k f =
      let all = members_save print_double (add_member m def ms) next in
      rw (group_text name (add_member m def ms) next) (
        group-ParsesTo strtod (suc fuel) name (b'\n' ∷ (all ++ (tabs next ++ b'}' ∷ [])))
          (add_member m def ms) tail hn
          (λ c.
            rw
              (
                append_assoc all (tabs next ++ b'}' ∷ []) tail,
                append_assoc (tabs next) (b'}' ∷ []) tail,
              )
              (members_first m def ms fuel fuel next tail c hm k f)))
