-- ===== src/AnsiExtras.antt =====
-- libaftermath-core/src/ansi_extras.h and ansi_extras.c: texts, their escaping, and the conversion of
-- texts to integers. A text is the list of its bytes, and a C string ends at its first zero. Memory is
-- given. The functions of <ctype.h> are those of the C locale, and `char` is signed.
pub mod Escape
pub mod Atoi
pub mod Numerals
pub mod Ranges
use aftermath.Base.{
  ℕ, zero, suc, ◌+◌, ◌-◌, ◌*◌, ◌/◌, ◌%◌, Bool, true, false, not, ◌&&◌, ◌||◌, Option, none, some,
  List, [], ◌∷◌, ◌++◌, ltb, leb, ◌==◌, if◌then◌else◌, length,
}
use aftermath.Base.Int.{ℤ, pos, negsuc}
use aftermath.Base.Words.{word_max, add64, sub64, mul64}
use aftermath.Parser.Chars.{isdigit}

-- The characters that a C string shows of some memory.
unfoldable pub until_zero : List ℕ → List ℕ
until_zero [] = []
until_zero (x ∷ xs) = let rest = until_zero xs in if x == 0 then [] else x ∷ rest

-- am_strdupn, on the characters that are copied.
unfoldable pub strdupn : List ℕ → List ℕ
unfolding until_zero
strdupn s = until_zero s

-- isodigit
unfoldable pub isodigit : ℕ → Bool
isodigit c = leb b'0' c && leb c b'7'

unfoldable pub isprint : ℕ → Bool
isprint c = leb 32 c && leb c 126

unfoldable pub isxdigit : ℕ → Bool
unfolding isdigit
isxdigit c = isdigit c || (leb b'a' c && leb c b'f') || (leb b'A' c && leb c b'F')

unfoldable pub isspace : ℕ → Bool
isspace c = c == b' ' || (leb 9 c && leb c 13)

-- The table escape_repl: the character behind the backslash for a character, and the way back.
unfoldable pub escape_repl : ℕ → Option ℕ
escape_repl c =
    if c == 7
    then some b'a'
    else if c == 8
    then some b'b'
    else if c == 12
    then some b'f'
    else if c == 10
    then some b'n'
    else if c == 13
    then some b'r'
    else if c == 9
    then some b't'
    else if c == 11
    then some b'v'
    else if c == b'\\'
    then some b'\\'
    else if c == b'"'
    then some b'"'
    else none

unfoldable pub unescape_repl : ℕ → Option ℕ
unescape_repl r =
    if r == b'a'
    then some 7
    else if r == b'b'
    then some 8
    else if r == b'f'
    then some 12
    else if r == b'n'
    then some 10
    else if r == b'r'
    then some 13
    else if r == b't'
    then some 9
    else if r == b'v'
    then some 11
    else if r == b'\\'
    then some b'\\'
    else if r == b'"'
    then some b'"'
    else none

-- A digit of `%X`.
unfoldable pub hex_digit : ℕ → ℕ
hex_digit d = if ltb d 10 then b'0' + d else b'A' + d - 10

-- The four characters of `\x%02X` that fit into the buffer, for a `char` converted to an `int`: a
-- negative one has the eight digits FFFFFF.. .
unfoldable pub hexrepl : ℕ → List ℕ
hexrepl c =
    if ltb c 128
    then b'\\' ∷ b'x' ∷ hex_digit (c / 16) ∷ hex_digit (c % 16) ∷ []
    else b'\\' ∷ b'x' ∷ b'F' ∷ b'F' ∷ []

-- What am_escape_string appends for a character.
unfoldable pub escape_char : ℕ → List ℕ
escape_char c = elim (escape_repl c) [
  | some r ↦ b'\\' ∷ r ∷ []
  | none ↦ if isprint c then c ∷ [] else hexrepl c
]

-- am_escape_string, on the characters before the zero.
unfoldable pub escape_string : List ℕ → List ℕ
escape_string [] = []
escape_string (c ∷ str) = escape_char c ++ escape_string str

-- The value of a hexadecimal digit, as am_xdigit_val and sscanf give it.
unfoldable pub xdigit_val : ℕ → ℕ
unfolding isdigit
xdigit_val c =
    if isdigit c
    then c - b'0'
    else if leb b'a' c && leb c b'f'
    then c - b'a' + 10
    else c - b'A' + 10

-- The hexadecimal sequence behind `\x`: its character, and what follows.
unfoldable pub hex_sequence : List ℕ → Option (ℕ × List ℕ)
hex_sequence [] = none
hex_sequence (a ∷ []) = if isxdigit a then some (xdigit_val a, []) else none
hex_sequence (a ∷ b ∷ rest) =
    if not (isxdigit a)
    then none
    else if isxdigit b
    then some (16 * xdigit_val a + xdigit_val b, rest)
    else some (xdigit_val a, b ∷ rest)

-- The octal sequence that begins with the digit `a`.
unfoldable pub octal_sequence : ℕ → List ℕ → ℕ × List ℕ
octal_sequence a [] = (a - b'0', [])
octal_sequence a (b ∷ []) =
    if isodigit b then (8 * (a - b'0') + (b - b'0'), []) else (a - b'0', b ∷ [])
octal_sequence a (b ∷ c ∷ rest) =
    if not (isodigit b)
    then (a - b'0', b ∷ c ∷ rest)
    else if isodigit c
    then ((64 * (a - b'0') + 8 * (b - b'0') + (c - b'0')) % 256, rest)
    else (8 * (a - b'0') + (b - b'0'), c ∷ rest)

-- The escape sequence whose first character behind the backslash is `x`.
unfoldable pub read_escape : ℕ → List ℕ → Option (ℕ × List ℕ)
read_escape x rest =
    if x == b'x'
    then hex_sequence rest
    else if isodigit x
    then some (octal_sequence x rest)
    else elim (unescape_repl x) [ none ↦ none | some c ↦ some (c, rest) ]

-- A character in front of a result.
abbrev pub cons? : ℕ → Option (List ℕ) → Option (List ℕ)
cons? c none = none
cons? c (some s) = some (c ∷ s)

-- The loop of am_unescape_string_in_place, with fuel for each character; `none` is the return value 1.
-- A backslash at the end stays.
unfoldable pub unescape_loop : ℕ → List ℕ → Option (List ℕ)
unescape_loop zero str = none
unescape_loop (suc fuel) [] = some []
unescape_loop (suc fuel) (c ∷ str) = elim (c == b'\\') [
  | false ↦ cons? c (unescape_loop fuel str)
  | true ↦ elim str [
    | [] ↦ some (c ∷ [])
    | x ∷ rest ↦ elim (read_escape x rest) [
      | none ↦ none
      | some (d, rest') ↦ cons? d (unescape_loop fuel rest')
    ]
  ]
]

-- am_unescape_stringn, on the characters that are copied.
unfoldable pub unescape_stringn : List ℕ → Option (List ℕ)
unfolding until_zero
unescape_stringn str =
    let s = until_zero str in
    elim (unescape_loop (length s + 1) s) [ none ↦ none | some t ↦ some (until_zero t) ]

-- am_strn1eq: the characters `a` and the C string `b` are the same.
unfoldable pub strn1eq : List ℕ → List ℕ → Bool
strn1eq [] [] = true
strn1eq (x ∷ a) (y ∷ b) = x == y && strn1eq a b
strn1eq _ _ = false
