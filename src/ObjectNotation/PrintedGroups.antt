-- ===== src/ObjectNotation/PrintedGroups.antt =====
-- The parser over the printed members of a group.
use aftermath.Base.{
  ℕ, suc, ◌+◌, ◌≡◌, refl, ◌∙◌, Bool, true, false, not, List, [], ◌∷◌, ◌++◌, append_assoc, arith,
  ◌==◌, length,
}
use aftermath.AnsiExtras.{strdupn}
use aftermath.AnsiExtras.Escape.{until_zero-text, All-mono}
use aftermath.Parser.{
  Parser, Read, skip_ws, read_word, read_next_identifier, read_identifier, read_next_group_name,
  read_group_name,
}
use aftermath.Parser.Chars.{
  isblank, isalpha, isalnum, isdigit, isident_start_char, isident_next_char,
  isgroup_name_start_char, isgroup_name_next_char,
}
use aftermath.Parser.Words.{All, Stops, at, is_ws, read_word_lem}
use aftermath.ObjectNotation.{Node, group, Members, no_member, add_member}
use aftermath.ObjectNotation.Parse.{
  Result, read_separator, end_in_group, expected_group_next, expected_group_start,
  expected_group_end, expected_member_name, expected_group_name, expected_char, parse_member,
  parse_members, parse_group_body, parse_group, parse_node, parse_by_char,
}
use aftermath.ObjectNotation.Tokens.{
  Gives, and_then-Gives, Takes, skip_ws_stop, read_or-Gives, peek_char_or-Gives,
  read_next_char_or-Gives, read_next_char_or-closing, read_next_char_or-blank, read_separator-close,
}
use aftermath.ObjectNotation.NumberTokens.{ParsesTo, parse_node-ParsesTo}

-- A word of such characters.
abbrev pub IsWord : (ℕ → Bool) → (ℕ → Bool) → List ℕ → Type 0
IsWord first further [] = false ≡ true
IsWord first further (x ∷ word) = (first x ≡ true) × All further word

-- The words that are read as the name of a member, and as the name of a group.
abbrev pub IsMemberName : List ℕ → Type 0
IsMemberName = IsWord isident_start_char isident_next_char

abbrev pub IsGroupName : List ℕ → Type 0
IsGroupName = IsWord isgroup_name_start_char isgroup_name_next_char

module _ (first further : ℕ → Bool) where
  strdupn_word :
      (name : List ℕ)
      → IsWord first further name
      → ((x : ℕ) → first x ≡ true → not (x == 0) ≡ true)
      → ((x : ℕ) → further x ≡ true → not (x == 0) ≡ true)
      → strdupn name ≡ name
  unfolding strdupn
  strdupn_word [] h k m = absurd (ground (arith, h))
  strdupn_word (x ∷ word) h k m =
      until_zero-text (x ∷ word) (k x h.0, All-mono further (λ c. not (c == 0)) word m h.1)

  word-Takes :
      (read : Parser → Read) (name tail : List ℕ)
      → ((p : Parser) → read p ≡ read_word first further (skip_ws p))
      → IsWord first further name
      → ((x : ℕ) → first x ≡ true → is_ws x ≡ false)
      → Stops further tail
      → Takes read name tail
  word-Takes read [] tail e h k s c = absurd (ground (arith, h))
  word-Takes read (x ∷ word) tail e h k s c = (
    c + 1 + length word,
    e (at c (x ∷ word ++ tail))
        ∙ rw (skip_ws_stop c x (word ++ tail) (k x h.0))
            (ground (arith, read_word_lem first further c x word tail h.0 h.1 s)),
  )

ident_facts :
    (x : ℕ)
    → isident_start_char x ≡ true
    → (is_ws x ≡ false) × (not (x == 0) ≡ true) × ((x == b'}') ≡ false)
unfolding isident_start_char isalpha isblank
ident_facts x h = ground (arith, h)

ident_no_bracket : (x : ℕ) → isident_start_char x ≡ true → (x == b']') ≡ false
unfolding isident_start_char isalpha
ident_no_bracket x h = ground (arith, h)

ident_next_nonzero : (x : ℕ) → isident_next_char x ≡ true → not (x == 0) ≡ true
unfolding isident_next_char isalnum isalpha isdigit
ident_next_nonzero x h = ground (arith, h)

group_start : (x : ℕ) → isgroup_name_start_char x ≡ true → isident_start_char x ≡ true
unfolding isgroup_name_start_char
group_start x h = h

group_next_nonzero : (x : ℕ) → isgroup_name_next_char x ≡ true → not (x == 0) ≡ true
unfolding isgroup_name_next_char isalnum isalpha isdigit
group_next_nonzero x h = ground (arith, h)

member_name-Takes :
    (name tail : List ℕ) → IsMemberName name → Takes read_next_identifier name (b':' ∷ tail)
unfolding read_next_identifier read_identifier
member_name-Takes name tail h =
    word-Takes isident_start_char isident_next_char read_next_identifier name (b':' ∷ tail)
      (λ p. refl) h (λ x e. (ident_facts x e).0)
      (unfold isident_next_char isalnum isalpha isdigit in refl)

pub group_name-Takes :
    (name tail : List ℕ)
    → IsGroupName name
    → Stops isgroup_name_next_char tail
    → Takes read_next_group_name name tail
unfolding read_next_group_name read_group_name
group_name-Takes name tail h s =
    word-Takes isgroup_name_start_char isgroup_name_next_char read_next_group_name name tail
      (λ p. refl) h (λ x e. (ident_facts x (group_start x e)).0) s

space_ends : (tail : List ℕ) → Stops isgroup_name_next_char (b' ' ∷ tail)
unfolding isgroup_name_next_char isalnum isalpha isdigit
space_ends tail = refl

module _ (strtod : List ℕ → ℕ × ℕ) (g : ℕ) where
  member_step :
      (c : ℕ) (name text rest : List ℕ) (def : Node)
      → IsMemberName name
      → ParsesTo strtod g text def rest
      → Gives
          (parse_member (parse_node strtod (suc g)) (at c (name ++ (b':' ∷ b' ' ∷ (text ++ rest)))))
          (name, def)
          rest
  unfolding parse_member
  member_step c name text rest def h k =
      and_then-Gives _
        (read_or-Gives expected_member_name read_next_identifier c name
          (b':' ∷ b' ' ∷ (text ++ rest)) (member_name-Takes name _ h))
        (λ c1.
          and_then-Gives _
            (read_next_char_or-Gives (expected_char b':') c1 b':' (b' ' ∷ (text ++ rest))
              (unfold isblank in refl))
            (λ c2.
              and_then-Gives _
                (parse_node-ParsesTo strtod g text def rest (b' ' ∷ []) c2 k
                  (unfold isblank in refl, tt))
                (λ c3. (
                  c3,
                  rw
                      (strdupn_word isident_start_char isident_next_char name h
                        (λ x e. (ident_facts x e).1) ident_next_nonzero)
                      refl,
                ))))

  -- What the loop for members makes of the text behind a member.
  abbrev pub MembersFollow : ℕ → List ℕ → Members → List ℕ → Type 0
  MembersFollow fuel rest members tail =
      (x : ℕ) × (text : List ℕ) × ((c : ℕ)
        → Gives (read_separator end_in_group expected_group_next b'}' (at c rest)) x text)
      × ((c : ℕ)
          → Gives (parse_members (parse_node strtod (suc g)) fuel (at c text)) members
              (b'}' ∷ tail))

  pub no_member_step :
      (fuel c : ℕ) (blanks tail : List ℕ)
      → All is_ws blanks
      → Gives
          (parse_members (parse_node strtod g) (suc fuel) (at c (blanks ++ b'}' ∷ tail)))
          no_member
          (b'}' ∷ tail)
  unfolding parse_members
  no_member_step fuel c blanks tail h =
      and_then-Gives _
        (peek_char_or-Gives end_in_group c blanks b'}' tail h (unfold isblank in refl))
        (λ c'. (c', refl))

  pub members_step :
      (fuel c : ℕ) (blanks name text rest : List ℕ) (def : Node) (members : Members) (tail : List ℕ)
      → All is_ws blanks
      → IsMemberName name
      → ParsesTo strtod g text def rest
      → MembersFollow fuel rest members tail
      → Gives
          (parse_members
            (parse_node strtod (suc g))
            (suc fuel)
            (at c (blanks ++ (name ++ (b':' ∷ b' ' ∷ (text ++ rest))))))
          (add_member name def members)
          (b'}' ∷ tail)
  unfolding parse_members
  members_step fuel c blanks [] text rest def members tail hb hn k f = absurd (ground (arith, hn))
  members_step fuel c blanks (x ∷ word) text rest def members tail hb hn k
        (y, after, sep, further) =
      let (no_ws, nonzero, no_brace) = ident_facts x hn.0 in
      and_then-Gives _
        (peek_char_or-Gives end_in_group c blanks x (word ++ (b':' ∷ b' ' ∷ (text ++ rest))) hb
          no_ws)
        (λ c1. rw (no_brace) (
          and_then-Gives _ (member_step c1 (x ∷ word) text rest def hn k) (λ c2.
            and_then-Gives _ (sep c2) (λ c3. and_then-Gives _ (further c3) (λ c4. (c4, refl))))))

module _ (strtod : List ℕ → ℕ × ℕ) (g : ℕ) where
  pub members_end :
      (fuel : ℕ) (blanks tail : List ℕ)
      → All is_ws blanks
      → MembersFollow strtod g (suc fuel) (blanks ++ b'}' ∷ tail) no_member tail
  members_end fuel blanks tail h = (
    b'}',
    b'}' ∷ tail,
    λ c.
        read_separator-close end_in_group expected_group_next b'}' c blanks tail h
          (unfold isblank in refl) refl,
    λ c. no_member_step strtod (suc g) fuel c [] tail tt,
  )

module _ (strtod : List ℕ → ℕ × ℕ) (self : Parser → Result Node) (fuel : ℕ) where
  group-parse_by_char :
      (x : ℕ) (p : Parser)
      → isident_start_char x ≡ true
      → parse_by_char strtod self fuel x p ≡ parse_group self fuel p
  unfolding parse_by_char isident_start_char isalpha
  group-parse_by_char x p h = ground (arith, h)

module _ (self : Parser → Result Node) (fuel : ℕ) where
  group_body_step :
      (c : ℕ) (name body : List ℕ) (members : Members) (tail : List ℕ)
      → IsGroupName name
      → ((c : ℕ) → Gives (parse_members self fuel (at c body)) members (b'}' ∷ tail))
      → Gives
          (parse_group self fuel (at c (name ++ (b' ' ∷ b'{' ∷ body))))
          (group name members)
          tail
  unfolding parse_group parse_group_body
  group_body_step c name body members tail h k =
      and_then-Gives _
        (read_or-Gives expected_group_name read_next_group_name c name (b' ' ∷ b'{' ∷ body)
          (group_name-Takes name (b' ' ∷ b'{' ∷ body) h (space_ends (b'{' ∷ body))))
        (λ c1.
          and_then-Gives _
            (and_then-Gives _
              (read_next_char_or-blank expected_group_start c1 b'{' body (unfold isblank in refl))
              (λ c2. and_then-Gives _ (k c2) (λ c3.
                and_then-Gives _
                  (read_next_char_or-closing expected_group_end c3 b'}' tail
                    (unfold isblank in refl))
                  (λ c4. (c4, refl)))))
            (λ c5. (
              c5,
              rw
                  (strdupn_word isgroup_name_start_char isgroup_name_next_char name h
                    (λ x e. (ident_facts x (group_start x e)).1) group_next_nonzero)
                  refl,
            )))

module _ (strtod : List ℕ → ℕ × ℕ) (fuel : ℕ) where
  pub group-ParsesTo :
      (name body : List ℕ) (members : Members) (tail : List ℕ)
      → IsGroupName name
      → ((c : ℕ)
          → Gives
              (parse_members (parse_node strtod fuel) fuel (at c (body ++ tail)))
              members
              (b'}' ∷ tail))
      → ParsesTo strtod fuel (name ++ (b' ' ∷ b'{' ∷ body)) (group name members) tail
  group-ParsesTo [] body members tail h k = absurd (ground (arith, h))
  group-ParsesTo (x ∷ word) body members tail h k =
      let start = group_start x h.0 in
      let facts = ident_facts x start in
      (
        x,
        word ++ (b' ' ∷ b'{' ∷ body),
        refl,
        facts.0,
        ident_no_bracket x start,
        λ c.
            rw
              (
                group-parse_by_char strtod (parse_node strtod fuel) fuel x
                    (at c (x ∷ word ++ (b' ' ∷ b'{' ∷ body) ++ tail)) start,
                append_assoc word (b' ' ∷ b'{' ∷ body) tail,
              )
              (group_body_step (parse_node strtod fuel) fuel c (x ∷ word) (body ++ tail) members
                tail h k),
      )
