-- ===== src/AnsiExtras/Escape.antt =====
-- The escaping of a text is undone by the unescaping, for ASCII characters.
use aftermath.Base.{
  ℕ, zero, suc, ◌+◌, ◌*◌, ◌/◌, ◌%◌, ◌≤◌, ◌<◌, ◌≡◌, refl, Bool, true, false, not, ◌&&◌, none, some,
  List, [], ◌∷◌, ◌++◌, arith, ltb, leb, ◌==◌, length, length-append, Bool-cases, Option-cases, inl,
  inr,
}
use aftermath.Parser.Chars.{isdigit}
use aftermath.Parser.Words.{All}
use aftermath.AnsiExtras.{
  until_zero, isodigit, isprint, isxdigit, escape_repl, unescape_repl, hex_digit, hexrepl,
  escape_char, escape_string, xdigit_val, hex_sequence, read_escape, cons?, unescape_loop,
  unescape_stringn,
}

-- A character other than zero, in ASCII.
abbrev pub is_ascii : ℕ → Bool
is_ascii c = leb 1 c && leb c 127

-- What the loop does with the text of one character: it gives the character and goes on behind it.
abbrev Undone : ℕ → ℕ → List ℕ → Type 0
Undone c fuel tail =
    unescape_loop (suc fuel) (escape_char c ++ tail) ≡ cons? c (unescape_loop fuel tail)

repl_back :
    (c r : ℕ)
    → escape_repl c ≡ some r
    → (unescape_repl r ≡ some c) × ((r == b'x') ≡ false) × (isodigit r ≡ false)
unfolding escape_repl unescape_repl isodigit
repl_back c r h = ground (arith, h)

hex_digit_back : (d : ℕ) → d < 16 → (isxdigit (hex_digit d) ≡ true) × (xdigit_val (hex_digit d) ≡ d)
unfolding hex_digit isxdigit xdigit_val isdigit
hex_digit_back d h = ground (arith, h)

hex_back :
    (a b : ℕ) (tail : List ℕ)
    → a < 16
    → b < 16
    → read_escape b'x' (hex_digit a ∷ hex_digit b ∷ tail) ≡ some (16 * a + b, tail)
unfolding read_escape hex_sequence
hex_back a b tail ha hb = ground (arith, hex_digit_back a ha, hex_digit_back b hb)

slash_replaced : (c : ℕ) → escape_repl c ≡ none → (c == b'\\') ≡ false
unfolding escape_repl
slash_replaced c h = ground (arith, h)

module _ (fuel : ℕ) (tail : List ℕ) where
  repl-Undone : (c r : ℕ) → escape_repl c ≡ some r → Undone c fuel tail
  unfolding escape_char unescape_loop read_escape
  repl-Undone c r e =
      let (back, not_x, not_octal) = repl_back c r e in
      rw (e, unescape_loop, read_escape, not_x, not_octal, back) refl

  print-Undone : (c : ℕ) → escape_repl c ≡ none → isprint c ≡ true → Undone c fuel tail
  unfolding escape_char unescape_loop
  print-Undone c e p = rw (e, p, unescape_loop, slash_replaced c e) refl

  hex-Undone : (c : ℕ) → escape_repl c ≡ none → isprint c ≡ false → c < 128 → Undone c fuel tail
  unfolding escape_char hexrepl unescape_loop
  hex-Undone c e n h =
      let back = hex_back (c / 16) (c % 16) tail (omega (arith, h)) (omega arith) in
      let sum : 16 * (c / 16) + c % 16 ≡ c = omega arith in ground (arith, e, n, h, back, sum)

  escape_char-Undone : (c : ℕ) → is_ascii c ≡ true → Undone c fuel tail
  escape_char-Undone c h = elim (Option-cases (escape_repl c)) [
    | inr (r, e) ↦ repl-Undone c r e
    | inl e ↦ elim (Bool-cases (isprint c)) [
      | inl p ↦ print-Undone c e p
      | inr n ↦ hex-Undone c e n (ground (arith, h))
    ]
  ]

unescape_loop-escape_string :
    (fuel : ℕ) (s : List ℕ)
    → All is_ascii s
    → length s < fuel
    → unescape_loop fuel (escape_string s) ≡ some s
unfolding escape_string
unescape_loop-escape_string zero s h k = absurd (omega (arith, k))
unescape_loop-escape_string (suc fuel) [] h k = unfold unescape_loop in refl
unescape_loop-escape_string (suc fuel) (c ∷ s) h k =
    rw (escape_char-Undone fuel (escape_string s) c h.0)
      (rw (unescape_loop-escape_string fuel s h.1 (omega (arith, k))) refl)

pub until_zero-text : (s : List ℕ) → All (λ c. not (c == 0)) s → until_zero s ≡ s
unfolding until_zero
until_zero-text [] h = refl
until_zero-text (x ∷ s) h = ground (arith, h.0, until_zero-text s h.1)

pub All-append :
    (test : ℕ → Bool) (xs ys : List ℕ) → All test xs → All test ys → All test (xs ++ ys)
All-append test [] ys h k = k
All-append test (x ∷ xs) ys h k = (h.0, All-append test xs ys h.1 k)

pub All-mono :
    (p q : ℕ → Bool) (xs : List ℕ) → ((x : ℕ) → p x ≡ true → q x ≡ true) → All p xs → All q xs
All-mono p q [] k h = tt
All-mono p q (x ∷ xs) k h = (k x h.0, All-mono p q xs k h.1)

hex_digit_ne_zero : (d : ℕ) → not (hex_digit d == 0) ≡ true
unfolding hex_digit
hex_digit_ne_zero d = ground arith

repl_ne_zero : (c r : ℕ) → escape_repl c ≡ some r → not (r == 0) ≡ true
unfolding escape_repl
repl_ne_zero c r e = ground (arith, e)

-- The text of a character holds no zero.
escape_char-text : (c : ℕ) → not (c == 0) ≡ true → All (λ x. not (x == 0)) (escape_char c)
unfolding escape_char hexrepl
escape_char-text c h = elim (Option-cases (escape_repl c)) [
  | inr (r, e) ↦ rw (escape_char, e) (refl, (repl_ne_zero c r e, tt))
  | inl e ↦ elim (Bool-cases (isprint c)) [
    | inl p ↦ rw (escape_char, e, p) (h, tt)
    | inr n ↦ elim (Bool-cases (ltb c 128)) [
      | inl l ↦
          rw (escape_char, e, n, hexrepl, l)
            (refl, (refl, (hex_digit_ne_zero (c / 16), (hex_digit_ne_zero (c % 16), tt))))
      | inr g ↦ rw (escape_char, e, n, hexrepl, g) (refl, (refl, (refl, (refl, tt))))
    ]
  ]
]

pub escape_string-text :
    (s : List ℕ) → All (λ x. not (x == 0)) s → All (λ x. not (x == 0)) (escape_string s)
unfolding escape_string
escape_string-text [] h = tt
escape_string-text (c ∷ s) h =
    All-append (λ x. not (x == 0)) (escape_char c) (escape_string s) (escape_char-text c h.0)
      (escape_string-text s h.1)

pub ascii-text : (s : List ℕ) → All is_ascii s → All (λ x. not (x == 0)) s
ascii-text s h = All-mono is_ascii (λ x. not (x == 0)) s (λ x e. ground (arith, e)) h

escape_char_pos : (c : ℕ) → 1 ≤ length (escape_char c)
unfolding escape_char hexrepl
escape_char_pos c = ground arith

length-escape_string : (s : List ℕ) → length s ≤ length (escape_string s)
unfolding escape_string
length-escape_string [] = omega arith
length-escape_string (c ∷ s) = omega (
  arith,
  length-escape_string s,
  escape_char_pos c,
  length-append (escape_char c) (escape_string s),
)

-- A text of ASCII characters without zeros is what the unescaping makes of its escaped form.
pub unescape_stringn-escape_string :
    (s : List ℕ) → All is_ascii s → unescape_stringn (escape_string s) ≡ some s
unfolding unescape_stringn
unescape_stringn-escape_string s h =
    let text = ascii-text s h in
    let whole = until_zero-text (escape_string s) (escape_string-text s text) in
    let back =
      unescape_loop-escape_string (length (escape_string s) + 1) s h
        (omega (arith, length-escape_string s)) in
    ground (arith, whole, back, until_zero-text s text)

escape_char_high : (c : ℕ) → 128 ≤ c → escape_char c ≡ b'\\' ∷ b'x' ∷ b'F' ∷ b'F' ∷ []
unfolding escape_char escape_repl isprint hexrepl
escape_char_high c h = ground (arith, h)

high_text : unescape_stringn (b'\\' ∷ b'x' ∷ b'F' ∷ b'F' ∷ []) ≡ some (255 ∷ [])
unfolding unescape_stringn until_zero unescape_loop read_escape hex_sequence isxdigit xdigit_val
    isdigit
high_text = refl

-- Every byte beyond ASCII is escaped as `\xFF`, so all of them are unescaped to the byte 255.
pub escape_string-high :
    (c : ℕ) → 128 ≤ c → unescape_stringn (escape_string (c ∷ [])) ≡ some (255 ∷ [])
unfolding escape_string
escape_string-high c h = rw (escape_string, escape_char_high c h) high_text
