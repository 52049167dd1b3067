-- ===== src/ObjectNotation/Yields.antt =====
-- The parser of object_notation.c ends on every text, moves forward, and builds only trees of the
-- notation.
use aftermath.Base.{
  ℕ, suc, ◌-◌, ◌≤◌, ◌<◌, ◌≡◌, true, false, List, [], ◌∷◌, arith, ◌==◌, length, take, drop,
  Bool-cases, Option-cases, inl, inr,
}
use aftermath.Base.Words.{word}
use aftermath.AnsiExtras.{unescape_stringn}
use aftermath.AnsiExtras.Ranges.{safe_atoi64n-IsI64, safe_atou64n-word}
use aftermath.AnsiExtras.Atoi.{safe_atoi64n, safe_atou64n, safe_atodbln}
use aftermath.AnsiExtras.Numerals.{IsI64}
use aftermath.Parser.{
  read_char, read_string, Parser, Read, skip_ws, read_any_char, read_next_char, read_next_string,
}
use aftermath.Parser.Number.{
  read_int64, read_uint64, read_double, read_next_int64, read_next_uint64, read_next_double,
}
use aftermath.Parser.Words.{at}
use aftermath.Parser.Consumed.{
  left, Moves, skip_ws-left, read_char-Moves, read_string-Moves, read_int64-Moves,
  read_uint64-Moves, read_double-Moves, next-Moves,
}
use aftermath.ObjectNotation.{
  Node, group, member, list, string, int64, uint64, double, Members, no_member, add_member, Items,
  no_item, add_item,
}
use aftermath.ObjectNotation.Parse.{
  Message, Result, ok, error, null, out_of_fuel, and_then, read_or, expected_string, expected_int64,
  expected_uint64, expected_double, read_next_char_or, peek_char_or, read_separator, parse_string,
  parse_int64, parse_uint64, parse_double,
}

module _ {ℓ} {A : Type ℓ} where
  -- The function has ended, and a value that it gives has the property, with fewer than `bound`
  -- characters left behind it.
  abbrev pub Yields : (A → Type 0) → ℕ → Result A → Type 0
  Yields P bound (ok a p) = P a × left p < bound
  Yields P bound (error m loc) = Unit {0}
  Yields P bound null = Unit {0}
  Yields P bound out_of_fuel = false ≡ true

module _ {ℓ κ} {A : Type ℓ} {B : Type κ} where
  pub and_then-Yields :
      (P : A → Type 0) (Q : B → Type 0) (m n : ℕ) (r : Result A) (further : A → Parser → Result B)
      → Yields P m r
      → ((a : A) (p : Parser) → P a → left p < m → Yields Q n (further a p))
      → Yields Q n (and_then r further)
  and_then-Yields P Q m n (ok a p) further h k = k a p h.0 h.1
  and_then-Yields P Q m n (error e loc) further h k = tt
  and_then-Yields P Q m n null further h k = tt
  and_then-Yields P Q m n out_of_fuel further h k = h

module _ {ℓ} {A : Type ℓ} where
  pub Yields-mono : (P : A → Type 0) (m n : ℕ) (r : Result A) → Yields P m r → m ≤ n → Yields P n r
  Yields-mono P m n (ok a p) h k = (h.0, omega (arith, h.1, k))
  Yields-mono P m n (error e loc) h k = tt
  Yields-mono P m n null h k = tt
  Yields-mono P m n out_of_fuel h k = h

-- A reader that takes a token leaves less.
pub read_or-Yields :
    (m : Message) (read : Parser → Read) (p : Parser)
    → Moves p (read p)
    → Yields (λ t. Unit {0}) (left p) (read_or m read p)
read_or-Yields m read p h = elim (Option-cases (read p).0) [
  | inl n ↦ rw (read_or, n) tt
  | inr (t, e) ↦ rw (read_or, e) (tt, h t e)
]

pub read_next_char_or-Yields :
    (m : Message) (c : ℕ) (p : Parser) → Yields (λ t. Unit {0}) (left p) (read_next_char_or m c p)
unfolding read_next_char_or read_next_char
read_next_char_or-Yields m c p =
    read_or-Yields m (λ p'. read_next_char p' c) p
      (next-Moves (λ q. read_char q c) p (read_char-Moves (skip_ws p) c))

peek_rest :
    (m : Message) (curr : ℕ) (rest : List ℕ)
    → Yields (λ x. Unit {0}) (suc (length rest)) (peek_char_or m (at curr rest))
unfolding peek_char_or
peek_rest m curr [] = tt
peek_rest m curr (x ∷ rest) = (tt, omega arith)

-- A peek leaves the parser where whitespace ends.
pub peek_char_or-Yields :
    (m : Message) (p : Parser) → Yields (λ x. Unit {0}) (suc (left p)) (peek_char_or m (skip_ws p))
peek_char_or-Yields m p =
    Yields-mono (λ x. Unit {0}) (suc (left (skip_ws p))) (suc (left p)) (peek_char_or m (skip_ws p))
      (peek_rest m (skip_ws p).curr (skip_ws p).rest) (omega (arith, skip_ws-left p))

any_char_left : (curr : ℕ) (rest : List ℕ) → left (read_any_char (at curr rest)).1 ≤ length rest
unfolding read_any_char
any_char_left curr [] = omega arith
any_char_left curr (x ∷ rest) = omega arith

-- A comma is taken, and a closing character is left.
pub read_separator-Yields :
    (m n : Message) (close : ℕ) (p : Parser)
    → Yields (λ x. Unit {0}) (suc (left p)) (read_separator m n close p)
unfolding read_separator
read_separator-Yields m n close p =
    and_then-Yields (λ x. Unit {0}) (λ x. Unit {0}) (suc (left p)) (suc (left p))
      (peek_char_or m (skip_ws p)) _ (peek_char_or-Yields m p)
      (λ x p' u h. elim (Bool-cases (x == b',')) [
        | inl c ↦ rw (c) (tt, omega (arith, h, any_char_left p'.curr p'.rest))
        | inr c ↦ elim (Bool-cases (x == close)) [
          | inl d ↦ rw (c, d) (tt, h)
          | inr d ↦ rw (c, d) tt
        ]
      ])

-- The trees of the notation: members only in groups, and numbers of 64 bits.
unfoldable mutual
  pub IsTree : Node → Type 0
  IsTree (group name members) = AreMembersTrees members
  IsTree (member name def) = false ≡ true
  IsTree (list items) = AreItemsTrees items
  IsTree (string value) = Unit {0}
  IsTree (int64 value) = IsI64 value
  IsTree (uint64 value) = value < word
  IsTree (double value) = Unit {0}

  pub AreMembersTrees : Members → Type 0
  AreMembersTrees no_member = Unit {0}
  AreMembersTrees (add_member name def members) = IsTree def × AreMembersTrees members

  pub AreItemsTrees : Items → Type 0
  AreItemsTrees no_item = Unit {0}
  AreItemsTrees (add_item item items) = IsTree item × AreItemsTrees items

pub parse_string-Yields : (p : Parser) → Yields IsTree (left p) (parse_string p)
unfolding parse_string read_next_string IsTree
parse_string-Yields p =
    and_then-Yields (λ t. Unit {0}) IsTree (left p) (left p)
      (read_or expected_string read_next_string p) _
      (read_or-Yields expected_string read_next_string p
        (next-Moves read_string p (read_string-Moves (skip_ws p))))
      (λ t p' u h. elim (Option-cases (unescape_stringn (take (length t - 2) (drop 1 t)))) [
        | inl e ↦ rw (e) tt
        | inr (v, e) ↦ rw (e) (tt, h)
      ])

pub parse_int64-Yields : (p : Parser) → Yields IsTree (left p) (parse_int64 p)
unfolding parse_int64 read_next_int64 IsTree
parse_int64-Yields p =
    and_then-Yields (λ t. Unit {0}) IsTree (left p) (left p)
      (read_or expected_int64 read_next_int64 p) _
      (read_or-Yields expected_int64 read_next_int64 p
        (next-Moves read_int64 p (read_int64-Moves (skip_ws p))))
      (λ t p' u h. elim (Option-cases (safe_atoi64n (take (length t - 3) t))) [
        | inl e ↦ rw (e) tt
        | inr (v, e) ↦ rw (e) (safe_atoi64n-IsI64 _ v e, h)
      ])

pub parse_uint64-Yields : (p : Parser) → Yields IsTree (left p) (parse_uint64 p)
unfolding parse_uint64 read_next_uint64 IsTree
parse_uint64-Yields p =
    and_then-Yields (λ t. Unit {0}) IsTree (left p) (left p)
      (read_or expected_uint64 read_next_uint64 p) _
      (read_or-Yields expected_uint64 read_next_uint64 p
        (next-Moves read_uint64 p (read_uint64-Moves (skip_ws p))))
      (λ t p' u h. elim (Option-cases (safe_atou64n (take (length t - 3) t))) [
        | inl e ↦ rw (e) tt
        | inr (v, e) ↦ rw (e) (safe_atou64n-word _ v e, h)
      ])

pub parse_double-Yields :
    (strtod : List ℕ → ℕ × ℕ) (p : Parser) → Yields IsTree (left p) (parse_double strtod p)
unfolding parse_double read_next_double IsTree
parse_double-Yields strtod p =
    and_then-Yields (λ t. Unit {0}) IsTree (left p) (left p)
      (read_or expected_double read_next_double p) _
      (read_or-Yields expected_double read_next_double p
        (next-Moves read_double p (read_double-Moves (skip_ws p))))
      (λ t p' u h. elim (Option-cases (safe_atodbln strtod t)) [
        | inl e ↦ rw (e) tt
        | inr (v, e) ↦ rw (e) (tt, h)
      ])
