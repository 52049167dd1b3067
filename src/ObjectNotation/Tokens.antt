-- ===== src/ObjectNotation/Tokens.antt =====
-- What the functions of object_notation.c that read one token make of a printed token.
use aftermath.Base.{
  ℕ, ◌+◌, ◌/◌, ◌%◌, ◌<◌, ◌≡◌, refl, ap, false, some, List, [], ◌∷◌, ◌++◌, append_assoc, arith, ◌==◌,
  length, length-append, take,
}
use aftermath.AnsiExtras.{escape_char, escape_string, hexrepl, hex_digit, escape_repl}
use aftermath.AnsiExtras.Escape.{is_ascii, unescape_stringn-escape_string}
use aftermath.Parser.{
  Parser, Read, skip_ws, scan, read_char, read_next_char, read_next_string, read_string,
  string_loop, read_any_char,
}
use aftermath.Parser.Chars.{isblank}
use aftermath.Parser.Words.{All, at, is_ws, skip_ws_lem}
use aftermath.ObjectNotation.{string}
use aftermath.ObjectNotation.Parse.{
  Message, Result, ok, and_then, read_or, read_next_char_or, peek_char_or, read_separator,
  expected_string, parse_string,
}

-- The result is this value, with this text behind it.
abbrev pub Gives {ℓ} : {A : Type ℓ} → Result A → A → List ℕ → Type ℓ
Gives r a tail = (c : ℕ) × (r ≡ ok a (at c tail))

module _ {ℓ κ} {A : Type ℓ} {B : Type κ} where
  pub and_then-Gives :
      {r : Result A} {a : A} {mid : List ℕ} (further : A → Parser → Result B) {b : B}
      {tail : List ℕ}
      → Gives r a mid
      → ((c : ℕ) → Gives (further a (at c mid)) b tail)
      → Gives (and_then r further) b tail
  and_then-Gives further (c, e) k = let (c', e') = k c in (c', rw e e')

pub take-length : (xs ys : List ℕ) → take (length xs) (xs ++ ys) ≡ xs
take-length [] ys = refl
take-length (x ∷ xs) ys = ap (λ zs. x ∷ zs) (take-length xs ys)

pub skip_ws_stop :
    (c x : ℕ) (xs : List ℕ) → is_ws x ≡ false → skip_ws (at c (x ∷ xs)) ≡ at c (x ∷ xs)
unfolding skip_ws scan
skip_ws_stop c x xs h = ground (arith, h)

-- A reader that takes a text and nothing of what follows.
abbrev pub Takes : (Parser → Read) → List ℕ → List ℕ → Type 0
Takes read t tail =
    (c : ℕ)
    → (c' : ℕ) × (read (at c (t ++ tail)) ≡ (some (record { str = c; len = length t }), at c' tail))

pub read_or-Gives :
    (m : Message) (read : Parser → Read) (c : ℕ) (t tail : List ℕ)
    → Takes read t tail
    → Gives (read_or m read (at c (t ++ tail))) t tail
read_or-Gives m read c t tail h = let (c', e) = h c in (c', ground (arith, e, take-length t tail))

pub peek_char_or-Gives :
    (m : Message) (c : ℕ) (blanks : List ℕ) (x : ℕ) (rest : List ℕ)
    → All is_ws blanks
    → is_ws x ≡ false
    → Gives (peek_char_or m (skip_ws (at c (blanks ++ x ∷ rest)))) x (x ∷ rest)
unfolding peek_char_or
peek_char_or-Gives m c blanks x rest hb hx =
    (c + length blanks, rw (skip_ws_lem c blanks (x ∷ rest) hb hx) refl)

pub read_next_char_or-Gives :
    (m : Message) (c x : ℕ) (rest : List ℕ)
    → is_ws x ≡ false
    → Gives (read_next_char_or m x (at c (x ∷ rest))) (x ∷ []) rest
unfolding read_next_char_or
read_next_char_or-Gives m c x rest hx =
    read_or-Gives m (λ p. read_next_char p x) c (x ∷ []) rest
      (λ c.
        unfold read_next_char read_char in (c + 1, rw (skip_ws_stop c x rest hx) (ground arith)))

-- A closing character, once whitespace has been skipped.
pub read_next_char_or-closing :
    (m : Message) (c x : ℕ) (rest : List ℕ)
    → is_ws x ≡ false
    → Gives (read_next_char_or m x (skip_ws (at c (x ∷ rest)))) (x ∷ []) rest
read_next_char_or-closing m c x rest hx =
    rw (skip_ws_stop c x rest hx) (read_next_char_or-Gives m c x rest hx)

-- A character behind a space.
pub read_next_char_or-blank :
    (m : Message) (c x : ℕ) (rest : List ℕ)
    → is_ws x ≡ false
    → Gives (read_next_char_or m x (at c (b' ' ∷ x ∷ rest))) (x ∷ []) rest
unfolding read_next_char_or read_next_char read_char
read_next_char_or-blank m c x rest hx = (
  c + 1 + 1,
  ground (arith, skip_ws_lem c (b' ' ∷ []) (x ∷ rest) (unfold isblank in refl, tt) hx),
)

-- The end of a round at the closing character.
pub read_separator-close :
    (m n : Message) (close c : ℕ) (blanks tail : List ℕ)
    → All is_ws blanks
    → is_ws close ≡ false
    → (close == b',') ≡ false
    → Gives (read_separator m n close (at c (blanks ++ close ∷ tail))) close (close ∷ tail)
unfolding read_separator
read_separator-close m n close c blanks tail hb hx hc =
    and_then-Gives _ (peek_char_or-Gives m c blanks close tail hb hx)
      (λ c'. (c', ground (arith, hc)))

-- The end of a round at a comma.
pub read_separator-comma :
    (m n : Message) (close c : ℕ) (tail : List ℕ)
    → Gives (read_separator m n close (at c (b',' ∷ tail))) b',' tail
unfolding read_separator read_any_char isblank
read_separator-comma m n close c tail =
    and_then-Gives _ (peek_char_or-Gives m c [] b',' tail tt refl) (λ c'. (c' + 1, refl))

hex_digit_plain :
    (d : ℕ) → d < 16 → ((hex_digit d == b'"') ≡ false) × ((hex_digit d == b'\\') ≡ false)
unfolding hex_digit
hex_digit_plain d h = ground (arith, h)

-- The text of a character inside a string literal is passed as a whole.
string_loop-escape_char :
    (str c len : ℕ) (rest : List ℕ)
    → string_loop str (escape_char c ++ rest) len false
      ≡ string_loop str rest (len + length (escape_char c)) false
unfolding string_loop escape_char hexrepl escape_repl
string_loop-escape_char str c len rest =
    ground (arith, hex_digit_plain (c / 16), hex_digit_plain (c % 16) (omega arith))

string_loop-escape_string :
    (str len : ℕ) (s tail : List ℕ)
    → string_loop str (escape_string s ++ b'"' ∷ tail) len false ≡ (
      some (record { str = str; len = len + length (escape_string s) + 1 }),
      at (str + len + length (escape_string s) + 1) tail,
    )
unfolding escape_string
string_loop-escape_string str len [] tail = unfold string_loop in ground arith
string_loop-escape_string str len (c ∷ s) tail = ground (
  arith,
  append_assoc (escape_char c) (escape_string s) (b'"' ∷ tail),
  length-append (escape_char c) (escape_string s),
  string_loop-escape_char str c len (escape_string s ++ b'"' ∷ tail),
  string_loop-escape_string str (len + length (escape_char c)) s tail,
)

-- The literal of a text, with its quotes.
abbrev pub quoted : List ℕ → List ℕ
quoted s = b'"' ∷ (escape_string s ++ b'"' ∷ [])

quoted-Takes : (s tail : List ℕ) → Takes read_next_string (quoted s) tail
unfolding read_next_string read_string
quoted-Takes s tail c = (
  c + length (quoted s),
  rw (skip_ws_stop c b'"' (escape_string s ++ b'"' ∷ [] ++ tail) (unfold isblank in refl)) (
      ground (
        arith,
        append_assoc (escape_string s) (b'"' ∷ []) tail,
        length-append (escape_string s) (b'"' ∷ []),
        string_loop-escape_string c 1 s tail,
      )),
)

-- The literal of a text of ASCII characters gives a string node.
pub parse_string-Gives :
    (c : ℕ) (s tail : List ℕ)
    → All is_ascii s
    → Gives (parse_string (at c (quoted s ++ tail))) (string s) tail
unfolding parse_string
parse_string-Gives c s tail h =
    and_then-Gives _
      (read_or-Gives expected_string read_next_string c (quoted s) tail (quoted-Takes s tail))
      (λ c'. (
        c',
        ground (
          arith,
          length-append (escape_string s) (b'"' ∷ []),
          take-length (escape_string s) (b'"' ∷ []),
          unescape_stringn-escape_string s h,
        ),
      ))
