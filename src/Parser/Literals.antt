-- ===== src/Parser/Literals.antt =====
-- What the readers of number literals in parser.h accept, with the text that follows left over.
use aftermath.Base.{
  ℕ, ◌+◌, ◌-◌, ◌≡◌, ◌≢◌, refl, Bool, true, false, some, List, [], ◌∷◌, ◌++◌, arith, ◌==◌,
  if◌then◌else◌, length, length-append, append_assoc,
}
use aftermath.Parser.Chars.{isdigit}
use aftermath.Parser.{expect_chars}
use aftermath.Parser.Words.{All, Stops, at, read_word_lem}
use aftermath.Parser.Number.{
  read_any_uint, read_suffixed, read_int64, read_uint64, double_loop, read_double,
}

-- A literal of at least one digit.
pub digits_lem :
    (curr d : ℕ) (ds tail : List ℕ)
    → All isdigit (d ∷ ds)
    → Stops isdigit tail
    → read_any_uint (at curr (d ∷ ds ++ tail))
      ≡ (some (record { str = curr; len = 1 + length ds }), at (curr + 1 + length ds) tail)
unfolding read_any_uint
digits_lem curr d ds tail h s = read_word_lem isdigit isdigit curr d ds tail h.0 h.1 s

abbrev i64 : List ℕ
i64 = b'i' ∷ b'6' ∷ b'4' ∷ []

abbrev u64 : List ℕ
u64 = b'u' ∷ b'6' ∷ b'4' ∷ []

suffix_found :
    (curr a b c : ℕ) (tail : List ℕ)
    → expect_chars (at curr (a ∷ b ∷ c ∷ tail)) (a ∷ b ∷ c ∷ []) ≡ (true, at (curr + 3) tail)
unfolding expect_chars
suffix_found curr a b c tail = ground arith

i_no_digit : isdigit b'i' ≡ false
unfolding isdigit
i_no_digit = refl

u_no_digit : isdigit b'u' ≡ false
unfolding isdigit
u_no_digit = refl

pub digit_no_minus : (d : ℕ) → isdigit d ≡ true → d ≢ b'-'
unfolding isdigit
digit_no_minus d h = ground arith

read_suffixed_lem :
    (sign curr d : ℕ) (ds : List ℕ) (a b c : ℕ) (tail : List ℕ)
    → All isdigit (d ∷ ds)
    → isdigit a ≡ false
    → read_suffixed sign (a ∷ b ∷ c ∷ []) (at curr (d ∷ ds ++ a ∷ b ∷ c ∷ tail)) ≡ (
      some (record { str = curr - sign; len = 1 + length ds + 3 + sign }),
      at (curr + 1 + length ds + 3) tail,
    )
unfolding read_suffixed
read_suffixed_lem sign curr d ds a b c tail h s = ground (
  arith,
  digits_lem curr d ds (a ∷ b ∷ c ∷ tail) h s,
  suffix_found (curr + 1 + length ds) a b c tail,
)

-- A signed literal, with its digits, its suffix and an optional minus sign, is read as one token that
-- holds all of it.
pub read_int64_lem :
    (negative : Bool) (curr d : ℕ) (ds tail : List ℕ)
    → All isdigit (d ∷ ds)
    → let literal = (if negative then b'-' ∷ d ∷ ds else d ∷ ds) ++ i64 in
      read_int64 (at curr (literal ++ tail))
      ≡ (some (record { str = curr; len = length literal }), at (curr + length literal) tail)
unfolding read_int64
read_int64_lem true curr d ds tail h = ground (
  arith,
  append_assoc ds i64 tail,
  length-append ds i64,
  read_suffixed_lem 1 (curr + 1) d ds b'i' b'6' b'4' tail h i_no_digit,
)
read_int64_lem false curr d ds tail h = ground (
  arith,
  digit_no_minus d h.0,
  append_assoc ds i64 tail,
  length-append ds i64,
  read_suffixed_lem 0 curr d ds b'i' b'6' b'4' tail h i_no_digit,
)

-- An unsigned literal, with its digits and its suffix, is read as one token that holds all of it.
pub read_uint64_lem :
    (curr d : ℕ) (ds tail : List ℕ)
    → All isdigit (d ∷ ds)
    → let literal = (d ∷ ds) ++ u64 in
      read_uint64 (at curr (literal ++ tail))
      ≡ (some (record { str = curr; len = length literal }), at (curr + length literal) tail)
unfolding read_uint64
read_uint64_lem curr d ds tail h = ground (
  arith,
  append_assoc ds u64 tail,
  length-append ds u64,
  read_suffixed_lem 0 curr d ds b'u' b'6' b'4' tail h u_no_digit,
)

pub digit_no_dot : (d : ℕ) → isdigit d ≡ true → (d == b'.') ≡ false
unfolding isdigit
digit_no_dot d h = ground arith

dot_no_digit : isdigit b'.' ≡ false
unfolding isdigit
dot_no_digit = refl

pub double_digits :
    (curr : ℕ) (ds tail : List ℕ) (len : ℕ) (dot_read : Bool)
    → All isdigit ds
    → double_loop curr (ds ++ tail) len dot_read
      ≡ double_loop (curr + length ds) tail (len + length ds) dot_read
unfolding double_loop
double_digits curr [] tail len dot_read h =
    let e : curr ≡ curr + 0 = omega arith in let e' : len ≡ len + 0 = omega arith in ground arith
double_digits curr (d ∷ ds) tail len dot_read h =
    ground (arith, h.0, digit_no_dot d h.0, double_digits (curr + 1) ds tail (len + 1) dot_read h.1)

double_end :
    (curr : ℕ) (tail : List ℕ) (len : ℕ)
    → Stops isdigit tail
    → double_loop curr tail len true ≡ (len, true, at curr tail)
unfolding double_loop
double_end curr [] len s = refl
double_end curr (x ∷ tail) len s = ground (arith, s)

dot_step :
    (curr : ℕ) (tail : List ℕ) (len : ℕ)
    → double_loop curr (b'.' ∷ tail) len false ≡ double_loop (curr + 1) tail (len + 1) true
unfolding double_loop
dot_step curr tail len = ground (arith, dot_no_digit)

double_fraction :
    (curr : ℕ) (ds fs tail : List ℕ)
    → All isdigit ds
    → All isdigit fs
    → Stops isdigit tail
    → double_loop curr (ds ++ (b'.' ∷ fs ++ tail)) 1 false
      ≡ (1 + length ds + 1 + length fs, true, at (curr + length ds + 1 + length fs) tail)
double_fraction curr ds fs tail hd hf s =
    rw (double_digits curr ds (b'.' ∷ fs ++ tail) 1 false hd) (
      rw (dot_step (curr + length ds) (fs ++ tail) (1 + length ds)) (
        rw (double_digits (curr + length ds + 1) fs tail (1 + length ds + 1) true hf)
          (double_end (curr + length ds + 1 + length fs) tail (1 + length ds + 1 + length fs) s)))

-- A decimal number, with an optional minus sign, at least one digit, a dot and further digits, is read
-- as one token that holds all of it, up to the first character that is no digit.
pub read_double_lem :
    (curr d : ℕ) (ds fs tail : List ℕ)
    → All isdigit (d ∷ ds)
    → All isdigit fs
    → Stops isdigit tail
    → (read_double (at curr (d ∷ (ds ++ (b'.' ∷ fs ++ tail)))) ≡ (
      some (record { str = curr; len = 2 + length ds + length fs }),
      at (curr + 2 + length ds + length fs) tail,
    ))
      × (read_double (at curr (b'-' ∷ d ∷ (ds ++ (b'.' ∷ fs ++ tail)))) ≡ (
        some (record { str = curr; len = 3 + length ds + length fs }),
        at (curr + 3 + length ds + length fs) tail,
      ))
unfolding read_double
read_double_lem curr d ds fs tail h hf s = (
  ground (
    arith,
    digit_no_dot d h.0,
    digit_no_minus d h.0,
    double_fraction (curr + 1) ds fs tail h.1 hf s,
  ),
  ground (arith, double_fraction (curr + 1) (d ∷ ds) fs tail h hf s),
)
