-- ===== src/ObjectNotation/NumberTokens.antt =====
-- What the functions of object_notation.c that read a number make of a printed number, and how
-- am_object_notation_parse_node tells the numbers apart.
use aftermath.Base.{
  ℕ, suc, ◌+◌, ◌-◌, ◌<◌, ◌≡◌, refl, ap, sym, Bool, true, false, ◌||◌, none, some, List, [], ◌∷◌,
  ◌++◌, append_assoc, arith, ◌==◌, if◌then◌else◌, length, length-append, take,
}
use mathlib.Core.Path.{subst}
use aftermath.Base.Int.{ℤ, pos, negsuc}
use aftermath.Base.Words.{word}
use aftermath.AnsiExtras.Numerals.{
  decimal, signed_decimal, decimal-digits, IsI64, safe_atou64n-decimal, safe_atoi64n-decimal,
}
use aftermath.Parser.{expect_chars, Parser}
use aftermath.Parser.Chars.{isalpha, isdigit, isblank, isident_start_char}
use aftermath.Parser.Number.{
  read_int64, read_double, read_next_int64, read_next_uint64, peek_int64, peek_double, double_loop,
  read_suffixed,
}
use aftermath.Parser.Words.{All, at, is_ws}
use aftermath.Parser.Literals.{
  double_digits, digits_lem, digit_no_dot, digit_no_minus, read_int64_lem, read_uint64_lem,
}
use aftermath.ObjectNotation.{Node, int64, uint64}
use aftermath.ObjectNotation.Parse.{
  Result, expected_int64, expected_uint64, parse_int64, parse_uint64, parse_double, parse_by_char,
  parse_node, end_in_node,
}
use aftermath.ObjectNotation.Tokens.{
  peek_char_or-Gives, Gives, and_then-Gives, Takes, take-length, skip_ws_stop, read_or-Gives,
}

abbrev pub i64 : List ℕ
i64 = b'i' ∷ b'6' ∷ b'4' ∷ []

abbrev pub u64 : List ℕ
u64 = b'u' ∷ b'6' ∷ b'4' ∷ []

pub digit_no_ws : (d : ℕ) → isdigit d ≡ true → is_ws d ≡ false
unfolding isdigit isblank
digit_no_ws d h = ground (arith, h)

pub minus_no_ws : is_ws b'-' ≡ false
unfolding isblank
minus_no_ws = refl

uint64-Takes : (n : ℕ) (tail : List ℕ) → Takes read_next_uint64 (decimal n ++ u64) tail
unfolding read_next_uint64
uint64-Takes n tail c =
    let (d, ds, e, all) = decimal-digits n in
    rw e (
      c + length ((d ∷ ds) ++ u64),
      rw (skip_ws_stop c d (ds ++ u64 ++ tail) (digit_no_ws d all.0))
          (read_uint64_lem c d ds tail all),
    )

int64-Takes : (z : ℤ) (tail : List ℕ) → Takes read_next_int64 (signed_decimal z ++ i64) tail
unfolding read_next_int64 signed_decimal
int64-Takes (pos n) tail c =
    let (d, ds, e, all) = decimal-digits n in
    rw e (
      c + length ((d ∷ ds) ++ i64),
      rw (skip_ws_stop c d (ds ++ i64 ++ tail) (digit_no_ws d all.0))
          (read_int64_lem false c d ds tail all),
    )
int64-Takes (negsuc n) tail c =
    let (d, ds, e, all) = decimal-digits (n + 1) in
    rw e (
      c + length ((b'-' ∷ d ∷ ds) ++ i64),
      rw (skip_ws_stop c b'-' (d ∷ ds ++ i64 ++ tail) minus_no_ws)
          (read_int64_lem true c d ds tail all),
    )

take_back :
    (xs : List ℕ) (a b c : ℕ) → take (length (xs ++ a ∷ b ∷ c ∷ []) - 3) (xs ++ a ∷ b ∷ c ∷ []) ≡ xs
take_back xs a b c =
    ground (arith, length-append xs (a ∷ b ∷ c ∷ []), take-length xs (a ∷ b ∷ c ∷ []))

parse_uint64-Gives :
    (c n : ℕ) (tail : List ℕ)
    → n < word
    → Gives (parse_uint64 (at c (decimal n ++ u64 ++ tail))) (uint64 n) tail
unfolding parse_uint64
parse_uint64-Gives c n tail h =
    (and_then-Gives _
      (read_or-Gives expected_uint64 read_next_uint64 c (decimal n ++ u64) tail
        (uint64-Takes n tail))
      (λ c'. (c', rw (take_back (decimal n) b'u' b'6' b'4', safe_atou64n-decimal n h) refl)))

parse_int64-Gives :
    (c : ℕ) (z : ℤ) (tail : List ℕ)
    → IsI64 z
    → Gives (parse_int64 (at c (signed_decimal z ++ i64 ++ tail))) (int64 z) tail
unfolding parse_int64
parse_int64-Gives c z tail h =
    (and_then-Gives _
      (read_or-Gives expected_int64 read_next_int64 c (signed_decimal z ++ i64) tail
        (int64-Takes z tail))
      (λ c'. (c', rw (take_back (signed_decimal z) b'i' b'6' b'4', safe_atoi64n-decimal z h) refl)))

no_dot_digits :
    (curr : ℕ) (ds : List ℕ) (x : ℕ) (tail : List ℕ) (len : ℕ)
    → All isdigit ds
    → isdigit x ≡ false
    → (x == b'.') ≡ false
    → (double_loop curr (ds ++ x ∷ tail) len false).1 ≡ false
no_dot_digits curr ds x tail len h hx hd =
    rw (double_digits curr ds (x ∷ tail) len false h) (unfold double_loop in ground (arith, hx, hd))

-- A literal without a dot is no double.
peek_double-none :
    (sign : Bool) (curr d : ℕ) (ds : List ℕ) (x : ℕ) (tail : List ℕ)
    → All isdigit (d ∷ ds)
    → isdigit x ≡ false
    → (x == b'.') ≡ false
    → (peek_double (at curr ((if sign then b'-' ∷ d ∷ ds else d ∷ ds) ++ x ∷ tail))).0 ≡ none
unfolding peek_double read_double
peek_double-none true curr d ds x tail h hx hd =
    ground (arith, no_dot_digits (curr + 1) (d ∷ ds) x tail 1 h hx hd)
peek_double-none false curr d ds x tail h hx hd =
    ground (arith, no_dot_digits (curr + 1) ds x tail 1 h.1 hx hd, digit_no_dot d h.0)

peek_int64-none :
    (curr d : ℕ) (ds : List ℕ) (tail : List ℕ)
    → All isdigit (d ∷ ds)
    → (peek_int64 (at curr (d ∷ ds ++ u64 ++ tail))).0 ≡ none
unfolding peek_int64 read_int64 read_suffixed expect_chars
peek_int64-none curr d ds tail h = ground (
  arith,
  digits_lem curr d ds (u64 ++ tail) h (unfold isdigit in refl),
  append_assoc ds u64 tail,
  digit_no_minus d h.0,
)

peek_int64-some :
    (sign : Bool) (curr d : ℕ) (ds : List ℕ) (tail : List ℕ)
    → All isdigit (d ∷ ds)
    → (peek_int64 (at curr ((if sign then b'-' ∷ d ∷ ds else d ∷ ds) ++ i64 ++ tail))).0
      ≡ some (record { str = curr; len = length ((if sign then b'-' ∷ d ∷ ds else d ∷ ds) ++ i64) })
unfolding peek_int64
peek_int64-some sign curr d ds tail h = ap (λ r. r.0) (read_int64_lem sign curr d ds tail h)

module _ (sign : Bool) (s : List ℕ) (curr d : ℕ) (ds tail : List ℕ)
    (e : s ≡ (if sign then b'-' ∷ d ∷ ds else d ∷ ds)) (h : All isdigit (d ∷ ds)) where
  text_no_double :
      (x : ℕ) (xs : List ℕ)
      → isdigit x ≡ false
      → (x == b'.') ≡ false
      → (peek_double (at curr (s ++ (x ∷ xs) ++ tail))).0 ≡ none
  text_no_double x xs hx hd =
      rw (append_assoc s (x ∷ xs) tail, e) (peek_double-none sign curr d ds x (xs ++ tail) h hx hd)

  text_int64 :
      (peek_int64 (at curr (s ++ i64 ++ tail))).0
      ≡ some (record { str = curr; len = length (s ++ i64) })
  text_int64 =
      subst
        (λ s.
          (peek_int64 (at curr (s ++ i64 ++ tail))).0
          ≡ some (record { str = curr; len = length (s ++ i64) }))
        (sym e) (peek_int64-some sign curr d ds tail h)

module _ (strtod : List ℕ → ℕ × ℕ) (parse_node : Parser → Result Node) (fuel : ℕ) where
  pub digit-parse_by_char :
      (x : ℕ) (p : Parser)
      → (isdigit x || x == b'-') ≡ true
      → parse_by_char strtod parse_node fuel x p ≡ elim (peek_double p).0 [
        | some t ↦ parse_double strtod p
        | none ↦ elim (peek_int64 p).0 [ some t ↦ parse_int64 p | none ↦ parse_uint64 p ]
      ]
  unfolding parse_by_char isdigit isident_start_char isalpha
  digit-parse_by_char x p h = ground (arith, h)

pub digit_first :
    (d : ℕ) → isdigit d ≡ true → ((d == b']') ≡ false) × ((isdigit d || d == b'-') ≡ true)
unfolding isdigit
digit_first d h = ground (arith, h)

module _ (strtod : List ℕ → ℕ × ℕ) (fuel : ℕ) where
  -- A text that begins with no whitespace and no closing bracket, and the node that
  -- am_object_notation_parse_node makes of it by its first character.
  abbrev pub ParsesTo : List ℕ → Node → List ℕ → Type 0
  ParsesTo text n tail =
      (x : ℕ) × (rest : List ℕ) × (text ≡ x ∷ rest)
      × (is_ws x ≡ false)
      × ((x == b']') ≡ false)
      × ((c : ℕ)
          → Gives (parse_by_char strtod (parse_node strtod fuel) fuel x (at c (text ++ tail))) n
              tail)

  pub parse_node-ParsesTo :
      (text : List ℕ) (n : Node) (tail blanks : List ℕ) (c : ℕ)
      → ParsesTo text n tail
      → All is_ws blanks
      → Gives (parse_node strtod (suc fuel) (at c (blanks ++ (text ++ tail)))) n tail
  unfolding parse_node
  parse_node-ParsesTo text n tail blanks c (x, rest, e, hx, hb, k) h =
      rw e (
        and_then-Gives _ (peek_char_or-Gives end_in_node c blanks x (rest ++ tail) h hx)
          (rw e at k))

  pub uint64-ParsesTo :
      (n : ℕ) (tail : List ℕ) → n < word → ParsesTo (decimal n ++ u64) (uint64 n) tail
  uint64-ParsesTo n tail h =
      let (d, ds, e, all) = decimal-digits n in
      let (no_bracket, digit) = digit_first d all.0 in
      (
        d,
        ds ++ u64,
        ap (λ s. s ++ u64) e,
        digit_no_ws d all.0,
        no_bracket,
        λ c.
            rw
              (
                digit-parse_by_char strtod (parse_node strtod fuel) fuel d
                    (at c (decimal n ++ u64 ++ tail)) digit,
                text_no_double false (decimal n) c d ds tail e all b'u' (b'6' ∷ b'4' ∷ [])
                    (unfold isdigit in refl) refl,
                subst (λ s. (peek_int64 (at c (s ++ u64 ++ tail))).0 ≡ none) (sym e)
                    (peek_int64-none c d ds tail all),
              )
              (parse_uint64-Gives c n tail h),
      )

  signed-ParsesTo :
      (sign : Bool) (z : ℤ) (d : ℕ) (ds : List ℕ) (tail : List ℕ)
      → IsI64 z
      → signed_decimal z ≡ (if sign then b'-' ∷ d ∷ ds else d ∷ ds)
      → All isdigit (d ∷ ds)
      → ParsesTo (signed_decimal z ++ i64) (int64 z) tail
  signed-ParsesTo true z d ds tail h e all = (
    b'-',
    (d ∷ ds) ++ i64,
    ap (λ s. s ++ i64) e,
    minus_no_ws,
    refl,
    λ c.
        rw
          (
            digit-parse_by_char strtod (parse_node strtod fuel) fuel b'-'
                (at c (signed_decimal z ++ i64 ++ tail)) (unfold isdigit in refl),
            text_no_double true (signed_decimal z) c d ds tail e all b'i' (b'6' ∷ b'4' ∷ [])
                (unfold isdigit in refl) refl,
            text_int64 true (signed_decimal z) c d ds tail e all,
          )
          (parse_int64-Gives c z tail h),
  )
  signed-ParsesTo false z d ds tail h e all =
      let (no_bracket, digit) = digit_first d all.0 in
      (
        d,
        ds ++ i64,
        ap (λ s. s ++ i64) e,
        digit_no_ws d all.0,
        no_bracket,
        λ c.
            rw
              (
                digit-parse_by_char strtod (parse_node strtod fuel) fuel d
                    (at c (signed_decimal z ++ i64 ++ tail)) digit,
                text_no_double false (signed_decimal z) c d ds tail e all b'i' (b'6' ∷ b'4' ∷ [])
                    (unfold isdigit in refl) refl,
                text_int64 false (signed_decimal z) c d ds tail e all,
              )
              (parse_int64-Gives c z tail h),
      )

  pub int64-ParsesTo :
      (z : ℤ) (tail : List ℕ) → IsI64 z → ParsesTo (signed_decimal z ++ i64) (int64 z) tail
  int64-ParsesTo (pos n) tail h =
      let (d, ds, e, all) = decimal-digits n in
      signed-ParsesTo false (pos n) d ds tail h (unfold signed_decimal in e) all
  int64-ParsesTo (negsuc n) tail h =
      let (d, ds, e, all) = decimal-digits (n + 1) in
      signed-ParsesTo true (negsuc n) d ds tail h (unfold signed_decimal in ap (λ s. b'-' ∷ s) e)
        all
