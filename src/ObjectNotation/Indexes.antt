-- ===== src/ObjectNotation/Indexes.antt =====
-- An index in a path is never accepted: the token of an unsigned literal holds its suffix, and the
-- conversion to a number refuses the suffix.
use aftermath.Base.{
  ℕ, ◌+◌, ◌-◌, ◌≡◌, refl, ap, sym, ◌∙◌, Bool, true, false, none, some, List, [], ◌∷◌, ◌++◌,
  append_assoc, arith, length, length-append, take, drop, Bool-cases, Option-cases, inl, inr,
}
use mathlib.Core.Path.{subst}
use aftermath.Base.Words.{add64, mul64}
use aftermath.AnsiExtras.{isspace}
use aftermath.AnsiExtras.Atoi.{safe_atou64n, atou64_loop}
use aftermath.AnsiExtras.Escape.{All-append, All-mono}
use aftermath.Parser.{
  Parser, Token, scan, skip_ws, read_word, read_next_char, expect_chars, expect_from,
}
use aftermath.Parser.Chars.{isdigit}
use aftermath.Parser.Number.{read_any_uint, read_suffixed, read_uint64, read_next_uint64}
use aftermath.Parser.Words.{All, at}
use aftermath.ObjectNotation.{list, Items}
use aftermath.ObjectNotation.Tokens.{take-length}
use aftermath.ObjectNotation.NumberTokens.{u64}
use aftermath.ObjectNotation.DoubleTokens.{no_space, digit_no_space, skip_whitespace-text}
use aftermath.ObjectNotation.Eval.{read_index, eval_node, eval_item}

-- A scan splits the text.
scan_split :
    (test : ℕ → Bool) (curr : ℕ) (rest : List ℕ) (len : ℕ)
    → (w : List ℕ) × (tail : List ℕ) × (rest ≡ w ++ tail)
      × All test w
      × (scan test curr rest len ≡ (len + length w, at (curr + length w) tail))
unfolding scan
scan_split test curr [] len = ([], [], refl, tt, ground arith)
scan_split test curr (x ∷ rest) len = elim (Bool-cases (test x)) [
  | inl e ↦
      let (w, tail, split, all, s) = scan_split test (curr + 1) rest (len + 1) in
      (x ∷ w, tail, ap (λ r. x ∷ r) split, (e, all), rw (e) (s ∙ ground arith))
  | inr e ↦ ([], x ∷ rest, refl, tt, rw (e) (ground arith))
]

skip_ws_split :
    (p : Parser)
    → (w : List ℕ) × (tail : List ℕ) × (p.rest ≡ w ++ tail)
      × (skip_ws p ≡ at (p.curr + length w) tail)
unfolding skip_ws
skip_ws_split p =
    let (w, tail, split, all, s) = scan_split _ p.curr p.rest 0 in (w, tail, split, ap (λ r. r.1) s)

-- The text is a literal with its suffix.
abbrev IsLiteral : List ℕ → Type 0
IsLiteral s = (d : ℕ) × (ds : List ℕ) × (s ≡ d ∷ ds ++ u64) × All isdigit (d ∷ ds)

drop-length : (xs ys : List ℕ) → drop (length xs) (xs ++ ys) ≡ ys
drop-length [] ys = refl
drop-length (x ∷ xs) ys = drop-length xs ys

suffix_read :
    (curr : ℕ) (rest : List ℕ)
    → (expect_chars (at curr rest) u64).0 ≡ true
    → (tail : List ℕ) × (rest ≡ u64 ++ tail)
unfolding expect_chars expect_from
suffix_read curr [] h = absurd (ground (arith, h))
suffix_read curr (a ∷ []) h = absurd (ground (arith, h))
suffix_read curr (a ∷ b ∷ []) h = absurd (ground (arith, h))
suffix_read curr (a ∷ b ∷ c ∷ tail) h =
    let ea : a ≡ b'u' = ground (arith, h) in
    let eb : b ≡ b'6' = ground (arith, h) in
    let ec : c ≡ b'4' = ground (arith, h) in (tail, cc (ea, eb, ec))

digits_read :
    (curr x : ℕ) (rest : List ℕ) (w tail : List ℕ)
    → isdigit x ≡ true
    → scan isdigit (curr + 1) rest 1 ≡ (1 + length w, at (curr + 1 + length w) tail)
    → read_any_uint (at curr (x ∷ rest))
      ≡ (some (record { str = curr; len = 1 + length w }), at (curr + 1 + length w) tail)
unfolding read_any_uint read_word
digits_read curr x rest w tail d s = ground (arith, d, s)

no_digits :
    (curr x : ℕ) (rest : List ℕ) → isdigit x ≡ false → (read_any_uint (at curr (x ∷ rest))).0 ≡ none
unfolding read_any_uint read_word
no_digits curr x rest d = ground (arith, d)

literal_taken :
    (n x : ℕ) (rest w tail r : List ℕ)
    → n ≡ length (x ∷ w ++ u64)
    → rest ≡ w ++ tail
    → tail ≡ u64 ++ r
    → take n (x ∷ rest) ≡ x ∷ w ++ u64
literal_taken n x rest w tail r len split suffix =
    let whole : rest ≡ (w ++ u64) ++ r =
      split ∙ ap (λ t. w ++ t) suffix ∙ sym (append_assoc w u64 r) in
    rw (len) (
      subst (λ t. take (length (x ∷ w ++ u64)) (x ∷ t) ≡ x ∷ w ++ u64) (sym whole)
        (take-length (x ∷ w ++ u64) r))

uint64_read :
    (curr : ℕ) (rest : List ℕ) (t : Token)
    → (read_uint64 (at curr rest)).0 ≡ some t
    → (t.str ≡ curr) × IsLiteral (take t.len rest)
unfolding read_uint64 read_suffixed
uint64_read curr [] t h = absurd (
    let none_read : (read_any_uint (at curr [])).0 ≡ none =
      unfold read_any_uint read_word in refl in
    ground (arith, h, none_read))
uint64_read curr (x ∷ rest) t h = elim (Bool-cases (isdigit x)) [
  | inr n ↦ absurd (ground (arith, h, no_digits curr x rest n))
  | inl d ↦
      let (w, tail, split, all, s) = scan_split isdigit (curr + 1) rest 1 in
      let digits = digits_read curr x rest w tail d s in
      let found : (expect_chars (at (curr + 1 + length w) tail) u64).0 ≡ true =
        ground (arith, h, digits) in
      let (r, suffix) = suffix_read (curr + 1 + length w) tail found in
      let str : t.str ≡ curr = ground (arith, h, digits, found) in
      let len : t.len ≡ length (x ∷ w ++ u64) =
        ground (arith, h, digits, found, length-append w u64) in
      (str, (x, w, literal_taken t.len x rest w tail r len split suffix, (d, all)))
]

loop_none : (v : ℕ) (ds : List ℕ) → All isdigit ds → atou64_loop v (ds ++ u64) ≡ none
unfolding atou64_loop isdigit
loop_none v [] h = ground arith
loop_none v (d ∷ ds) h = ground (arith, h.0, loop_none (add64 (mul64 v 10) (d - b'0')) ds h.1)

suffix_no_space : All no_space u64
unfolding no_space isspace
suffix_no_space = (refl, (refl, (refl, tt)))

literal_none : (s : List ℕ) → IsLiteral s → safe_atou64n s ≡ none
unfolding safe_atou64n
literal_none s (d, ds, e, all) = rw (e) (
    rw
      (
        safe_atou64n,
        skip_whitespace-text d (ds ++ u64) (
            All-append no_space (d ∷ ds) u64 (All-mono isdigit no_space (d ∷ ds) digit_no_space all)
              suffix_no_space),
      )
      (loop_none 0 (d ∷ ds) all))

index_text :
    (p : Parser) (t : Token)
    → (read_next_uint64 p).0 ≡ some t
    → IsLiteral (take t.len (drop (t.str - p.curr) p.rest))
unfolding read_next_uint64
index_text p t h =
    let (w, tail, split, s) = skip_ws_split p in
    let (str, literal) = uint64_read (p.curr + length w) tail t (rw (s) at h) in
    let behind : drop (t.str - p.curr) p.rest ≡ tail =
      rw (split) (ground (arith, str, drop-length w tail)) in
    subst (λ text. IsLiteral (take t.len text)) (sym behind) literal

read_index-none : (p : Parser) → read_index p ≡ none
unfolding read_index
read_index-none p = elim (Option-cases (read_next_char p b'[').0) [
  | inl n ↦ rw (read_index, n) refl
  | inr (t, e) ↦
      let p1 = (read_next_char p b'[').1 in
      elim (Option-cases (read_next_uint64 p1).0) [
        | inl n ↦ rw (read_index, e, n) refl
        | inr (u, f) ↦ rw (read_index, e, f, literal_none _ (index_text p1 u f)) refl
      ]
]

-- No path selects an item of a list: the evaluation of every path on a list gives nothing.
pub eval_node-list : (items : Items) (p : Parser) → eval_node (list items) p ≡ none
unfolding eval_node
eval_node-list items p =
    ap (λ o. elim o [ none ↦ none | some (idx, p') ↦ eval_item items idx p' ]) (read_index-none p)
