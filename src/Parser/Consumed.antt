-- ===== src/Parser/Consumed.antt =====
-- A reader of parser.h that gives a token has moved the parser: less text is left.
use aftermath.Base.{
  ℕ, ◌+◌, ◌≤◌, ◌<◌, ◌≡◌, Bool, true, false, not, some, List, [], ◌∷◌, arith, ◌==◌, if◌then◌else◌,
  length, Option-cases, inl, inr,
}
use aftermath.Parser.{
  Parser, Token, Read, scan, skip_ws, read_word, read_identifier, read_group_name, read_char,
  string_loop, read_string, expect_chars, expect_from,
}
use aftermath.Parser.Number.{
  read_any_uint, read_suffixed, read_int64, read_uint64, double_loop, read_double,
}
use aftermath.Parser.Words.{at}

-- The number of characters that are left.
abbrev pub left : Parser → ℕ
left p = length p.rest

-- A token has been taken from the text.
abbrev pub Moves : Parser → Read → Type 0
Moves p r = (t : Token) → r.0 ≡ some t → left r.1 < left p

pub scan-left :
    (test : ℕ → Bool) (curr : ℕ) (rest : List ℕ) (len : ℕ)
    → left (scan test curr rest len).1 ≤ length rest
unfolding scan
scan-left test curr [] len = omega arith
scan-left test curr (x ∷ rest) len = ground (arith, scan-left test (curr + 1) rest (len + 1))

pub skip_ws-left : (p : Parser) → left (skip_ws p) ≤ left p
unfolding skip_ws
skip_ws-left p = scan-left _ p.curr p.rest 0

word_forward :
    (first further : ℕ → Bool) (curr : ℕ) (rest : List ℕ)
    → Moves (at curr rest) (read_word first further (at curr rest))
unfolding read_word
word_forward first further curr [] t e = ground (arith, e)
word_forward first further curr (x ∷ rest) t e =
    ground (arith, e, scan-left further (curr + 1) rest 1)

read_word-Moves : (first further : ℕ → Bool) (p : Parser) → Moves p (read_word first further p)
read_word-Moves first further p = word_forward first further p.curr p.rest

pub read_identifier-Moves : (p : Parser) → Moves p (read_identifier p)
unfolding read_identifier
read_identifier-Moves = read_word-Moves _ _

pub read_group_name-Moves : (p : Parser) → Moves p (read_group_name p)
unfolding read_group_name
read_group_name-Moves = read_word-Moves _ _

pub read_char-Moves : (p : Parser) (c : ℕ) → Moves p (read_char p c)
unfolding read_char
read_char-Moves p c t e = ground (arith, e)

string_loop-left :
    (str : ℕ) (rest : List ℕ) (len : ℕ) (bs : Bool)
    → left (string_loop str rest len bs).1 ≤ length rest
unfolding string_loop
string_loop-left str [] len bs = omega arith
string_loop-left str (x ∷ rest) len bs =
    ground (arith, string_loop-left str rest (len + 1) (if x == b'\\' then not bs else false))

string_forward : (curr : ℕ) (rest : List ℕ) → Moves (at curr rest) (read_string (at curr rest))
unfolding read_string
string_forward curr [] t e = ground (arith, e)
string_forward curr (x ∷ rest) t e = ground (arith, e, string_loop-left curr rest 1 false)

pub read_string-Moves : (p : Parser) → Moves p (read_string p)
read_string-Moves p = string_forward p.curr p.rest

expect_from-left : (curr : ℕ) (rest str : List ℕ) → left (expect_from curr rest str).1 ≤ length rest
unfolding expect_from
expect_from-left curr rest [] = omega arith
expect_from-left curr [] (y ∷ str) = omega arith
expect_from-left curr (x ∷ rest) (y ∷ str) = ground (arith, expect_from-left (curr + 1) rest str)

double_loop-left :
    (curr : ℕ) (rest : List ℕ) (len : ℕ) (dot : Bool)
    → left (double_loop curr rest len dot).2 ≤ length rest
unfolding double_loop
double_loop-left curr [] len dot = omega arith
double_loop-left curr (x ∷ rest) len dot =
    ground (arith, double_loop-left (curr + 1) rest (len + 1) (if x == b'.' then true else dot))

expect_chars-left : (p : Parser) (str : List ℕ) → left (expect_chars p str).1 ≤ left p
unfolding expect_chars
expect_chars-left p str = expect_from-left p.curr p.rest str

read_any_uint-Moves : (p : Parser) → Moves p (read_any_uint p)
unfolding read_any_uint
read_any_uint-Moves = read_word-Moves _ _

read_suffixed-Moves :
    (sign : ℕ) (suffix : List ℕ) (p : Parser) → Moves p (read_suffixed sign suffix p)
unfolding read_suffixed
read_suffixed-Moves sign suffix p t e = elim (Option-cases (read_any_uint p).0) [
  | inl n ↦ ground (arith, n, e)
  | inr (u, n) ↦
      ground (arith, n, e, read_any_uint-Moves p u n, expect_chars-left (read_any_uint p).1 suffix)
]

int64_forward : (curr : ℕ) (rest : List ℕ) → Moves (at curr rest) (read_int64 (at curr rest))
unfolding read_int64
int64_forward curr [] t e = ground (arith, e)
int64_forward curr (x ∷ rest) t e =
    let suffix : List ℕ = b'i' ∷ b'6' ∷ b'4' ∷ [] in
    ground (
      arith,
      e,
      read_suffixed-Moves 1 suffix (at (curr + 1) rest) t,
      read_suffixed-Moves 0 suffix (at curr (x ∷ rest)) t,
    )

pub read_int64-Moves : (p : Parser) → Moves p (read_int64 p)
read_int64-Moves p = int64_forward p.curr p.rest

pub read_uint64-Moves : (p : Parser) → Moves p (read_uint64 p)
unfolding read_uint64
read_uint64-Moves p = read_suffixed-Moves 0 _ p

double_forward : (curr : ℕ) (rest : List ℕ) → Moves (at curr rest) (read_double (at curr rest))
unfolding read_double
double_forward curr [] t e = ground (arith, e)
double_forward curr (x ∷ rest) t e =
    ground (arith, e, double_loop-left (curr + 1) rest 1 (x == b'.'))

pub read_double-Moves : (p : Parser) → Moves p (read_double p)
read_double-Moves p = double_forward p.curr p.rest

-- A reader that skips whitespace first.
pub next-Moves :
    (read : Parser → Read) (p : Parser)
    → Moves (skip_ws p) (read (skip_ws p))
    → Moves p (read (skip_ws p))
next-Moves read p h t e = omega (arith, h t e, skip_ws-left p)
