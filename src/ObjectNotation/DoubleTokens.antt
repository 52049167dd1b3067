-- ===== src/ObjectNotation/DoubleTokens.antt =====
-- What am_object_notation_parse_double makes of a number that `%f` has printed.
use aftermath.Base.{
  ℕ, ◌+◌, ◌≡◌, refl, ap, sym, ◌∙◌, Bool, true, false, not, ◌||◌, some, List, [], ◌∷◌, ◌++◌,
  append_assoc, arith, ◌==◌, length, length-append,
}
use mathlib.Core.Path.{subst}
use aftermath.AnsiExtras.{isspace}
use aftermath.AnsiExtras.Atoi.{
  safe_atodbln, skip_whitespace, skip_leading_whitespace, skip_trailing_whitespace,
}
use aftermath.AnsiExtras.Escape.{All-append, All-mono}
use aftermath.Parser.{Token, skip_ws}
use aftermath.Parser.Chars.{isdigit}
use aftermath.Parser.Number.{read_double, read_next_double, peek_double}
use aftermath.Parser.Words.{All, Stops, at, is_ws}
use aftermath.Parser.Literals.{read_double_lem}
use aftermath.ObjectNotation.{double}
use aftermath.ObjectNotation.Parse.{expected_double, parse_double, parse_node}
use aftermath.ObjectNotation.Tokens.{Gives, and_then-Gives, Takes, skip_ws_stop, read_or-Gives}
use aftermath.ObjectNotation.NumberTokens.{
  ParsesTo, digit-parse_by_char, digit_no_ws, digit_first, minus_no_ws,
}

-- The form of `%f`: an optional sign, digits, a dot, and digits.
abbrev pub fixed : Bool → ℕ → List ℕ → List ℕ → List ℕ
fixed true d ds fs = b'-' ∷ d ∷ (ds ++ b'.' ∷ fs)
fixed false d ds fs = d ∷ (ds ++ b'.' ∷ fs)

unfoldable pub no_space : ℕ → Bool
no_space c = not (isspace c)

pub digit_no_space : (d : ℕ) → isdigit d ≡ true → no_space d ≡ true
unfolding isdigit isspace no_space
digit_no_space d h = ground (arith, h)

point_no_space : no_space b'.' ≡ true
unfolding isspace no_space
point_no_space = refl

minus_no_space : no_space b'-' ≡ true
unfolding isspace no_space
minus_no_space = refl

skip_trailing_whitespace-text : (s : List ℕ) → All no_space s → skip_trailing_whitespace s ≡ s
unfolding skip_trailing_whitespace no_space
skip_trailing_whitespace-text [] h = refl
skip_trailing_whitespace-text (x ∷ []) h = ground (arith, h.0)
skip_trailing_whitespace-text (x ∷ y ∷ s) h = rw (skip_trailing_whitespace-text (y ∷ s) h.1) refl

pub skip_whitespace-text :
    (x : ℕ) (s : List ℕ) → All no_space (x ∷ s) → skip_whitespace (x ∷ s) ≡ x ∷ s
unfolding skip_whitespace skip_leading_whitespace no_space
skip_whitespace-text x s h = ground (arith, h.0, skip_trailing_whitespace-text (x ∷ s) h)

digits_no_space :
    (d : ℕ) (ds fs : List ℕ)
    → All isdigit (d ∷ ds)
    → All isdigit fs
    → All no_space (d ∷ (ds ++ b'.' ∷ fs))
digits_no_space d ds fs h k =
    All-append no_space (d ∷ ds) (b'.' ∷ fs) (All-mono isdigit no_space (d ∷ ds) digit_no_space h)
      (point_no_space, All-mono isdigit no_space fs digit_no_space k)

fixed_no_space :
    (sign : Bool) (d : ℕ) (ds fs : List ℕ)
    → All isdigit (d ∷ ds)
    → All isdigit fs
    → skip_whitespace (fixed sign d ds fs) ≡ fixed sign d ds fs
fixed_no_space true d ds fs h k =
    skip_whitespace-text _ _ (minus_no_space, digits_no_space d ds fs h k)
fixed_no_space false d ds fs h k = skip_whitespace-text _ _ (digits_no_space d ds fs h k)

fixed-read_double :
    (sign : Bool) (c d : ℕ) (ds fs tail : List ℕ)
    → All isdigit (d ∷ ds)
    → All isdigit fs
    → Stops isdigit tail
    → (c' : ℕ) × (read_double (at c (fixed sign d ds fs ++ tail))
        ≡ (some (record { str = c; len = length (fixed sign d ds fs) }), at c' tail))
fixed-read_double true c d ds fs tail h k s = (
  c + 3 + length ds + length fs,
  ground (
    arith,
    append_assoc ds (b'.' ∷ fs) tail,
    length-append ds (b'.' ∷ fs),
    (read_double_lem c d ds fs tail h k s).1,
  ),
)
fixed-read_double false c d ds fs tail h k s = (
  c + 2 + length ds + length fs,
  ground (
    arith,
    append_assoc ds (b'.' ∷ fs) tail,
    length-append ds (b'.' ∷ fs),
    (read_double_lem c d ds fs tail h k s).0,
  ),
)

fixed_head :
    (sign : Bool) (d : ℕ) (ds fs : List ℕ)
    → isdigit d ≡ true
    → (x : ℕ) × (s : List ℕ) × (fixed sign d ds fs ≡ x ∷ s)
      × (is_ws x ≡ false)
      × ((x == b']') ≡ false)
      × ((isdigit x || x == b'-') ≡ true)
fixed_head true d ds fs h =
    (b'-', d ∷ (ds ++ b'.' ∷ fs), refl, minus_no_ws, refl, unfold isdigit in refl)
fixed_head false d ds fs h =
    (d, ds ++ b'.' ∷ fs, refl, digit_no_ws d h, (digit_first d h).0, (digit_first d h).1)

skip_ws-fixed :
    (sign : Bool) (c d : ℕ) (ds fs tail : List ℕ)
    → isdigit d ≡ true
    → skip_ws (at c (fixed sign d ds fs ++ tail)) ≡ at c (fixed sign d ds fs ++ tail)
skip_ws-fixed true c d ds fs tail h = skip_ws_stop c _ _ minus_no_ws
skip_ws-fixed false c d ds fs tail h = skip_ws_stop c _ _ (digit_no_ws d h)

fixed-Takes :
    (sign : Bool) (d : ℕ) (ds fs tail : List ℕ)
    → All isdigit (d ∷ ds)
    → All isdigit fs
    → Stops isdigit tail
    → (Takes read_next_double (fixed sign d ds fs) tail)
      × ((c : ℕ) → (t : Token) × ((peek_double (at c (fixed sign d ds fs ++ tail))).0 ≡ some t))
unfolding read_next_double peek_double
fixed-Takes sign d ds fs tail h k s = (
  λ c.
      let (c', e) = fixed-read_double sign c d ds fs tail h k s in
      (c', rw (skip_ws-fixed sign c d ds fs tail h.0) e),
  λ c. let (c', e) = fixed-read_double sign c d ds fs tail h k s in (_, ap (λ r. r.0) e),
)

-- The doubles whose printed text is converted back to them.
module _ (print_double : ℕ → List ℕ) (strtod : List ℕ → ℕ × ℕ) where
  abbrev pub PrintsBack : ℕ → Type 0
  PrintsBack v =
      (sign : Bool) × (d : ℕ) × (ds : List ℕ) × (fs : List ℕ) × (print_double v
        ≡ fixed sign d ds fs)
      × All isdigit (d ∷ ds)
      × All isdigit fs
      × (strtod (print_double v) ≡ (v, length (print_double v)))
      × ((v == 0x7FF0000000000000 || v == 0xFFF0000000000000) ≡ false)

  safe_atodbln_back : (v : ℕ) → PrintsBack v → safe_atodbln strtod (print_double v) ≡ some v
  unfolding safe_atodbln
  safe_atodbln_back v (true, d, ds, fs, e, h, k, n, i) =
      rw (e) (ground (arith, fixed_no_space true d ds fs h k, rw (e) at n, i))
  safe_atodbln_back v (false, d, ds, fs, e, h, k, n, i) =
      rw (e) (ground (arith, fixed_no_space false d ds fs h k, rw (e) at n, i))

  parse_double-Gives :
      (c v : ℕ) (tail : List ℕ)
      → PrintsBack v
      → Stops isdigit tail
      → Gives (parse_double strtod (at c (print_double v ++ tail))) (double v) tail
  parse_double-Gives c v tail (sign, d, ds, fs, e, h, k, n, i) s =
      let back = safe_atodbln_back v (sign, d, ds, fs, e, h, k, n, i) in
      let takes =
        subst (λ t. Takes read_next_double t tail) (sym e)
          (fixed-Takes sign d ds fs tail h k s).0 in
      unfold parse_double in
      and_then-Gives _
        (read_or-Gives expected_double read_next_double c (print_double v) tail takes)
        (λ c'. (c', rw (back) refl))

  pub double-ParsesTo :
      (fuel v : ℕ) (tail : List ℕ)
      → PrintsBack v
      → Stops isdigit tail
      → ParsesTo strtod fuel (print_double v) (double v) tail
  double-ParsesTo fuel v tail (sign, d, ds, fs, e, h, k, n, i) s =
      let (x, xs, ex, no_ws, no_bracket, digit) = fixed_head sign d ds fs h.0 in
      let peek =
        subst (λ t. (c : ℕ) → (u : Token) × ((peek_double (at c (t ++ tail))).0 ≡ some u)) (sym e)
          (fixed-Takes sign d ds fs tail h k s).1 in
      (
        x,
        xs,
        e ∙ ex,
        no_ws,
        no_bracket,
        λ c.
            rw
              (
                digit-parse_by_char strtod (parse_node strtod fuel) fuel x
                    (at c (print_double v ++ tail)) digit,
                (peek c).1,
              )
              (parse_double-Gives c v tail (sign, d, ds, fs, e, h, k, n, i) s),
      )
