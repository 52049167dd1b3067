-- ===== src/Parser/Words.antt =====
-- What the readers of parser.h accept: words to their full length, and strings to their closing quote.
use aftermath.Base.{
  ℕ, ◌+◌, ◌≡◌, ◌↔◌, refl, ap, Bool, true, false, not, ◌||◌, some, List, [], ◌∷◌, ◌++◌, arith, ◌==◌,
  if◌then◌else◌, length,
}
use aftermath.Parser.Chars.{isblank, isident_start_char, isident_next_char}
use aftermath.Parser.{
  Parser, scan, skip_ws, read_word, read_identifier, read_next_identifier, read_string, string_loop,
  token_equals_str,
}

-- All characters pass the test.
abbrev pub All : (ℕ → Bool) → List ℕ → Type 0
All test [] = Unit {0}
All test (x ∷ xs) = (test x ≡ true) × All test xs

-- The text does not begin with a character that passes the test.
abbrev pub Stops : (ℕ → Bool) → List ℕ → Type 0
Stops test [] = Unit {0}
Stops test (x ∷ xs) = test x ≡ false

abbrev pub at : ℕ → List ℕ → Parser
at curr rest = record { curr = curr; rest = rest }

-- A scan takes the characters up to the first that fails the test, and counts them.
pub scan_lem :
    (test : ℕ → Bool) (curr : ℕ) (word tail : List ℕ) (len : ℕ)
    → All test word
    → Stops test tail
    → scan test curr (word ++ tail) len ≡ (len + length word, at (curr + length word) tail)
unfolding scan
scan_lem test curr [] [] len h s = ground arith
scan_lem test curr [] (x ∷ tail) len h s = ground arith
scan_lem test curr (x ∷ word) tail len h s =
    ground (arith, scan_lem test (curr + 1) word tail (len + 1))

-- Where a word begins with a fitting character and goes on with fitting ones up to a character that
-- does not fit, the token is exactly the word, and the parser stands behind it.
pub read_word_lem :
    (first further : ℕ → Bool) (curr x : ℕ) (word tail : List ℕ)
    → first x ≡ true
    → All further word
    → Stops further tail
    → read_word first further (at curr (x ∷ word ++ tail))
      ≡ (some (record { str = curr; len = 1 + length word }), at (curr + 1 + length word) tail)
unfolding read_word
read_word_lem first further curr x word tail f h s =
    ground (arith, scan_lem further (curr + 1) word tail 1)

-- The characters that count as whitespace.
abbrev pub is_ws : ℕ → Bool
is_ws c = isblank c || c == b'\n'

pub skip_ws_lem :
    (curr : ℕ) (blanks tail : List ℕ)
    → All is_ws blanks
    → Stops is_ws tail
    → skip_ws (at curr (blanks ++ tail)) ≡ at (curr + length blanks) tail
unfolding skip_ws
skip_ws_lem curr blanks tail h s = ap (λ r. r.1) (scan_lem is_ws curr blanks tail 0 h s)

ident_no_ws : (c : ℕ) → isident_start_char c ≡ true → (isblank c || c == b'\n') ≡ false
unfolding isident_start_char isblank
ident_no_ws c h = ground arith

-- Blanks, tabs and newlines in front of an identifier are skipped, and the token is the whole
-- identifier up to the first character that cannot go on with it.
pub read_next_identifier_lem :
    (curr : ℕ) (blanks : List ℕ) (x : ℕ) (word tail : List ℕ)
    → All is_ws blanks
    → isident_start_char x ≡ true
    → All isident_next_char word
    → Stops isident_next_char tail
    → read_next_identifier (at curr (blanks ++ (x ∷ word ++ tail))) ≡ (
      some (record { str = curr + length blanks; len = 1 + length word }),
      at (curr + length blanks + 1 + length word) tail,
    )
unfolding read_next_identifier read_identifier
read_next_identifier_lem curr blanks x word tail hb hx hw s =
    rw (skip_ws_lem curr blanks (x ∷ word ++ tail) hb (ident_no_ws x hx)) (
      read_word_lem isident_start_char isident_next_char (curr + length blanks) x word tail hx hw s)

-- The text of a string literal: a backslash before each quote and each backslash.
pub escape : List ℕ → List ℕ
escape [] = []
escape (x ∷ xs) =
    let rest = escape xs in if x == b'"' || x == b'\\' then b'\\' ∷ x ∷ rest else x ∷ rest

string_loop-escape :
    (str : ℕ) (s tail : List ℕ) (len : ℕ)
    → string_loop str (escape s ++ b'"' ∷ tail) len false ≡ (
      some (record { str = str; len = len + length (escape s) + 1 }),
      at (str + len + length (escape s) + 1) tail,
    )
unfolding string_loop escape
string_loop-escape str [] tail len = ground arith
string_loop-escape str (x ∷ s) tail len =
    ground (arith, string_loop-escape str s tail (len + 1), string_loop-escape str s tail (len + 2))

-- A quoted text, its quotes and backslashes escaped, is read back as one token with its quotes, and
-- what follows it is left.
pub read_string-escape :
    (curr : ℕ) (s tail : List ℕ)
    → read_string (at curr (b'"' ∷ escape s ++ b'"' ∷ tail)) ≡ (
      some (record { str = curr; len = length (escape s) + 2 }),
      at (curr + length (escape s) + 2) tail,
    )
unfolding read_string
read_string-escape curr s tail = ground (arith, string_loop-escape curr s tail 1)

-- A text without zero characters.
abbrev pub IsText : List ℕ → Type 0
IsText s = All (λ c. not (c == 0)) s

-- The comparison of a token with a string holds exactly where the token is a prefix of the string, so
-- also for a token that is shorter than the string.
pub token_equals_str_iff :
    (t str : List ℕ)
    → IsText t
    → IsText str
    → (token_equals_str t str ≡ true) ↔ ((rest : List ℕ) × (str ≡ t ++ rest))
unfolding token_equals_str
token_equals_str_iff [] str ht hs = (λ h. (str, refl), λ h. refl)
token_equals_str_iff (x ∷ t) [] ht hs = (λ h. absurd (ground arith), λ (rest, e). cc)
token_equals_str_iff (x ∷ t) (y ∷ str) ht hs =
    let ih = token_equals_str_iff t str ht.1 hs.1 in
    (
      λ h. let r = ih.0 (ground arith) in let e : x ≡ y = ground arith in (r.0, cc (e, r.1)),
      λ (rest, e). let e' : x ≡ y = cc in let r = ih.1 (rest, cc) in ground arith,
    )
