-- ===== src/ObjectNotation/PrintedTexts.antt =====
-- The printed text of a tree, taken apart as the parser meets it, and the trees whose text is read back.
use aftermath.Base.{
  ℕ, ◌+◌, ◌<◌, ◌≡◌, refl, ap, Bool, true, false, List, [], ◌∷◌, ◌++◌, append_assoc, arith,
  if◌then◌else◌,
}
use aftermath.Base.Words.{word}
use aftermath.AnsiExtras.Escape.{is_ascii}
use aftermath.AnsiExtras.Numerals.{IsI64}
use aftermath.Parser.Chars.{isblank}
use aftermath.Parser.Words.{All, is_ws}
use aftermath.ObjectNotation.{
  Node, group, member, list, string, int64, uint64, double, Members, no_member, add_member, Items,
  no_item, add_item,
}
use aftermath.ObjectNotation.Save.{
  tabs, string_save, list_start, list_end, member_end, save_fp_indent, items_save, members_save,
}
use aftermath.ObjectNotation.DoubleTokens.{PrintsBack}
use aftermath.ObjectNotation.PrintedLists.{tabs-blank}
use aftermath.ObjectNotation.PrintedGroups.{IsMemberName, IsGroupName}

-- The fuel that a tree takes.
unfoldable mutual
  pub size : Node → ℕ
  size (group name members) = size_members members
  size (member name def) = 0
  size (list items) = size_items items
  size (string value) = 0
  size (int64 value) = 0
  size (uint64 value) = 0
  size (double value) = 0

  pub size_members : Members → ℕ
  size_members no_member = 1
  size_members (add_member name def members) = 1 + size def + size_members members

  pub size_items : Items → ℕ
  size_items no_item = 1
  size_items (add_item item items) = 1 + size item + size_items items

module _ (print_double : ℕ → List ℕ) (strtod : List ℕ → ℕ × ℕ) where
  -- The trees that can be printed so that the text stands for them: members only in groups, names that
  -- are read as one word, texts in ASCII without zeros, numbers of 64 bits.
  unfoldable mutual
    pub IsPrintable : Node → Type 0
    IsPrintable (group name members) = IsGroupName name × AreMembersPrintable members
    IsPrintable (member name def) = false ≡ true
    IsPrintable (list items) = AreItemsPrintable items
    IsPrintable (string value) = All is_ascii value
    IsPrintable (int64 value) = IsI64 value
    IsPrintable (uint64 value) = value < word
    IsPrintable (double value) = PrintsBack print_double strtod value

    pub AreMembersPrintable : Members → Type 0
    AreMembersPrintable no_member = Unit {0}
    AreMembersPrintable (add_member name def members) =
        IsMemberName name × IsPrintable def × AreMembersPrintable members

    pub AreItemsPrintable : Items → Type 0
    AreItemsPrintable no_item = Unit {0}
    AreItemsPrintable (add_item item items) = IsPrintable item × AreItemsPrintable items

-- The whitespace in front of the closing bracket, and in front of an item behind a comma.
unfoldable pub end_blanks : Bool → ℕ → List ℕ
end_blanks true next_indent = b'\n' ∷ tabs next_indent
end_blanks false next_indent = []

pub end_blanks-blank : (has : Bool) (next : ℕ) → All is_ws (end_blanks has next)
unfolding end_blanks isblank
end_blanks-blank true next = (refl, tabs-blank next)
end_blanks-blank false next = tt

pub list_end-blanks :
    (has : Bool) (next : ℕ) (tail : List ℕ)
    → list_end has next ++ tail ≡ end_blanks has next ++ b']' ∷ tail
unfolding end_blanks
list_end-blanks true next tail = ground (arith, append_assoc (tabs next) (b']' ∷ []) tail)
list_end-blanks false next tail = refl

unfoldable pub sep_blanks : Bool → ℕ → List ℕ
sep_blanks has indent = (if has then b'\n' else b' ') ∷ tabs indent

pub sep_blanks-blank : (has : Bool) (indent : ℕ) → All is_ws (sep_blanks has indent)
unfolding sep_blanks isblank
sep_blanks-blank true indent = (refl, tabs-blank indent)
sep_blanks-blank false indent = (refl, tabs-blank indent)

unfoldable pub start_blanks : Bool → ℕ → List ℕ
start_blanks true indent = b'\n' ∷ tabs indent
start_blanks false indent = tabs indent

pub start_blanks-blank : (has : Bool) (indent : ℕ) → All is_ws (start_blanks has indent)
unfolding start_blanks isblank
start_blanks-blank true indent = (refl, tabs-blank indent)
start_blanks-blank false indent = tabs-blank indent

pub regroup : (t s i rest : List ℕ) → ((t ++ s) ++ i) ++ rest ≡ t ++ (s ++ (i ++ rest))
regroup t s i rest = rw (append_assoc (t ++ s) i rest, append_assoc t s (i ++ rest)) refl

pub regroup_end :
    (t s i e rest : List ℕ) → (t ++ (s ++ (i ++ e))) ++ rest ≡ t ++ (s ++ (i ++ (e ++ rest)))
regroup_end t s i e rest =
    rw (append_assoc t (s ++ (i ++ e)) rest, append_assoc s (i ++ e) rest, append_assoc i e rest)
      refl

module _ (print_double : ℕ → List ℕ) where
  -- The indentation stands in front of the text of a node.
  pub save_fp_indent-tabs :
      (n : Node) (indent next : ℕ)
      → save_fp_indent print_double n indent next
        ≡ tabs indent ++ save_fp_indent print_double n 0 next
  unfolding save_fp_indent string_save
  save_fp_indent-tabs (group name members) indent next = refl
  save_fp_indent-tabs (member name def) indent next = refl
  save_fp_indent-tabs (list no_item) indent next = refl
  save_fp_indent-tabs (list (add_item item items)) indent next = refl
  save_fp_indent-tabs (string value) indent next = refl
  save_fp_indent-tabs (int64 value) indent next = refl
  save_fp_indent-tabs (uint64 value) indent next = refl
  save_fp_indent-tabs (double value) indent next = refl

  pub items_save_step :
      (has : Bool) (item : Node) (items : Items) (ii ni : ℕ) (rest : List ℕ)
      → items_save print_double has (add_item item items) ii ni ++ rest
        ≡ b','
          ∷ (sep_blanks has ii
              ++ (save_fp_indent print_double item 0 ni
                  ++ (items_save print_double has items ii ni ++ rest)))
  unfolding sep_blanks
  items_save_step true item items ii ni rest =
      unfold items_save in
      ap (λ t. b',' ∷ b'\n' ∷ t)
        (rw (save_fp_indent-tabs item ii ni) (
          regroup (tabs ii) (save_fp_indent print_double item 0 ni)
            (items_save print_double true items ii ni) rest))
  items_save_step false item items ii ni rest =
      unfold items_save in
      ap (λ t. b',' ∷ b' ' ∷ t)
        (rw (save_fp_indent-tabs item ii ni) (
          regroup (tabs ii) (save_fp_indent print_double item 0 ni)
            (items_save print_double false items ii ni) rest))

  pub list_save_step :
      (has : Bool) (item : Node) (items : Items) (ii ni : ℕ) (rest : List ℕ)
      → list_start has
          ++ (save_fp_indent print_double item ii ni
              ++ (items_save print_double has items ii ni ++ rest))
        ≡ b'['
          ∷ (start_blanks has ii
              ++ (save_fp_indent print_double item 0 ni
                  ++ (items_save print_double has items ii ni ++ rest)))
  unfolding start_blanks
  list_save_step true item items ii ni rest =
      rw
        (
          save_fp_indent-tabs item ii ni,
          append_assoc (tabs ii) (save_fp_indent print_double item 0 ni)
              (items_save print_double true items ii ni ++ rest),
        )
        refl
  list_save_step false item items ii ni rest =
      rw
        (
          save_fp_indent-tabs item ii ni,
          append_assoc (tabs ii) (save_fp_indent print_double item 0 ni)
              (items_save print_double false items ii ni ++ rest),
        )
        refl

pub member_text :
    (print_double : ℕ → List ℕ) (m : List ℕ) (def : Node) (ms : Members) (next : ℕ) (rest : List ℕ)
    → members_save print_double (add_member m def ms) next ++ rest
      ≡ tabs (next + 1)
        ++ (m
            ++ (b':'
                ∷ b' '
                ∷ (save_fp_indent print_double def 0 (next + 2)
                    ++ (member_end ms ++ (members_save print_double ms next ++ rest)))))
unfolding members_save
member_text print_double m def ms next rest =
    let text = save_fp_indent print_double def 0 (next + 2) in
    let further = members_save print_double ms next in
    rw
      (
        append_assoc (tabs (next + 1)) (m ++ (b':' ∷ b' ' ∷ (text ++ (member_end ms ++ further))))
            rest,
        append_assoc m (b':' ∷ b' ' ∷ (text ++ (member_end ms ++ further))) rest,
        append_assoc text (member_end ms ++ further) rest,
        append_assoc (member_end ms) further rest,
      )
      refl
