-- ===== src/AnsiExtras/Numerals.antt =====
-- What printf writes for an integer is converted back to the integer.
use aftermath.Base.{
  ℕ, zero, suc, ◌+◌, ◌-◌, ◌*◌, ◌/◌, ◌%◌, ◌^◌, ◌≤◌, ◌<◌, ◌≡◌, refl, Bool, true, false, some, List,
  [], ◌∷◌, arith, ◌==◌, if◌then◌else◌, Bool-cases, inl, inr,
}
use aftermath.Base.Int.{ℤ, pos, negsuc}
use aftermath.Base.Words.{word}
use aftermath.Parser.Chars.{isdigit}
use aftermath.Parser.Words.{All}
use aftermath.AnsiExtras.{isspace}
use aftermath.AnsiExtras.Atoi.{
  skip_leading_whitespace, skip_trailing_whitespace, skip_whitespace, atou64_loop, safe_atou64n,
  atoi64_loop, safe_atoi64n,
}

-- The decimal digits of a number in front of a text; a round for each digit.
unfoldable pub decimal_loop : ℕ → ℕ → List ℕ → List ℕ
decimal_loop zero n tail = tail
decimal_loop (suc fuel) n tail =
    let more = decimal_loop fuel (n / 10) ((b'0' + n % 10) ∷ tail) in
    if n / 10 == 0 then (b'0' + n % 10) ∷ tail else more

-- `%lu`
unfoldable pub decimal : ℕ → List ℕ
decimal n = decimal_loop (n + 1) n []

-- `%ld`
unfoldable pub signed_decimal : ℤ → List ℕ
signed_decimal (pos n) = decimal n
signed_decimal (negsuc n) = b'-' ∷ decimal (n + 1)

digit-isdigit : (d : ℕ) → d < 10 → isdigit (b'0' + d) ≡ true
unfolding isdigit
digit-isdigit d h = ground (arith, h)

atou64_loop_step :
    (v d : ℕ) (tail : List ℕ)
    → d < 10
    → v * 10 + d < word
    → atou64_loop v ((b'0' + d) ∷ tail) ≡ atou64_loop (v * 10 + d) tail
unfolding atou64_loop
atou64_loop_step v d tail hd h = ground (arith, digit-isdigit d)

atoi64_loop_step :
    (sign : Bool) (v d : ℕ) (tail : List ℕ)
    → d < 10
    → v * 10 + d ≤ (if sign then 2 ^ 63 else 2 ^ 63 - 1)
    → atoi64_loop sign v ((b'0' + d) ∷ tail) ≡ atoi64_loop sign (v * 10 + d) tail
unfolding atoi64_loop
atoi64_loop_step true v d tail hd h = ground (arith, digit-isdigit d)
atoi64_loop_step false v d tail hd h = ground (arith, digit-isdigit d)

atou64_loop-decimal :
    (fuel n : ℕ) (tail : List ℕ)
    → n < fuel
    → n < word
    → atou64_loop 0 (decimal_loop fuel n tail) ≡ atou64_loop n tail
unfolding decimal_loop
atou64_loop-decimal zero n tail h hn = absurd (omega (arith, h))
atou64_loop-decimal (suc fuel) n tail h hn =
    let e : n / 10 * 10 + n % 10 ≡ n = omega arith in
    let step = atou64_loop_step (n / 10) (n % 10) tail (omega arith) (omega (arith, hn)) in
    elim (Bool-cases (n / 10 == 0)) [
      | inl t ↦ let z : n / 10 ≡ 0 = ground (arith, t) in ground (arith, t, z, e, step)
      | inr f ↦
          let ih =
            atou64_loop-decimal fuel (n / 10) ((b'0' + n % 10) ∷ tail) (ground (arith, f, h))
              (omega (arith, hn)) in
          ground (arith, f, e, step, ih)
    ]

atoi64_loop-decimal :
    (sign : Bool) (fuel n : ℕ) (tail : List ℕ)
    → n < fuel
    → n ≤ (if sign then 2 ^ 63 else 2 ^ 63 - 1)
    → atoi64_loop sign 0 (decimal_loop fuel n tail) ≡ atoi64_loop sign n tail
unfolding decimal_loop
atoi64_loop-decimal sign zero n tail h hn = absurd (omega (arith, h))
atoi64_loop-decimal sign (suc fuel) n tail h hn =
    let e : n / 10 * 10 + n % 10 ≡ n = omega arith in
    let step = atoi64_loop_step sign (n / 10) (n % 10) tail (omega arith) (ground (arith, hn, e)) in
    elim (Bool-cases (n / 10 == 0)) [
      | inl t ↦ let z : n / 10 ≡ 0 = ground (arith, t) in ground (arith, t, z, e, step)
      | inr f ↦
          let ih =
            atoi64_loop-decimal sign fuel (n / 10) ((b'0' + n % 10) ∷ tail) (ground (arith, f, h))
              (ground (arith, hn)) in
          ground (arith, f, e, step, ih)
    ]

-- The digits of a number: a first one, and the others in front of the text.
decimal_loop-digits :
    (fuel n : ℕ) (tail : List ℕ)
    → n < fuel
    → All isdigit tail
    → (d : ℕ) × (ds : List ℕ) × (decimal_loop fuel n tail ≡ d ∷ ds) × All isdigit (d ∷ ds)
unfolding decimal_loop
decimal_loop-digits zero n tail h t = absurd (omega (arith, h))
decimal_loop-digits (suc fuel) n tail h t =
    let digit = digit-isdigit (n % 10) (omega arith) in
    elim (Bool-cases (n / 10 == 0)) [
      | inl e ↦ (b'0' + n % 10, tail, rw (e) refl, (digit, t))
      | inr f ↦
          let (d, ds, e, all) =
            decimal_loop-digits fuel (n / 10) ((b'0' + n % 10) ∷ tail) (ground (arith, f, h))
              (digit, t) in
          (d, ds, rw (f) e, all)
    ]

pub decimal-digits : (n : ℕ) → (d : ℕ) × (ds : List ℕ) × (decimal n ≡ d ∷ ds) × All isdigit (d ∷ ds)
unfolding decimal
decimal-digits n = decimal_loop-digits (n + 1) n [] (omega arith) tt

digit-isspace : (d : ℕ) → isdigit d ≡ true → isspace d ≡ false
unfolding isdigit isspace
digit-isspace d h = ground (arith, h)

skip_trailing-digits : (ds : List ℕ) → All isdigit ds → skip_trailing_whitespace ds ≡ ds
unfolding skip_trailing_whitespace
skip_trailing-digits [] h = refl
skip_trailing-digits (d ∷ []) h = ground (arith, digit-isspace d h.0)
skip_trailing-digits (d ∷ e ∷ ds) h = rw (skip_trailing-digits (e ∷ ds) h.1) refl

skip_whitespace-digits :
    (d : ℕ) (ds : List ℕ) → All isdigit (d ∷ ds) → skip_whitespace (d ∷ ds) ≡ d ∷ ds
unfolding skip_whitespace
skip_whitespace-digits d ds h =
    rw (skip_leading_whitespace, digit-isspace d h.0) (skip_trailing-digits (d ∷ ds) h)

minus_whitespace :
    (d : ℕ) (ds : List ℕ) → All isdigit (d ∷ ds) → skip_whitespace (b'-' ∷ d ∷ ds) ≡ b'-' ∷ d ∷ ds
unfolding skip_whitespace skip_leading_whitespace isspace skip_trailing_whitespace
minus_whitespace d ds h = rw (skip_trailing-digits (d ∷ ds) h) refl

digit-ne-minus : (d : ℕ) → isdigit d ≡ true → (d == b'-') ≡ false
unfolding isdigit
digit-ne-minus d h = ground (arith, h)

-- The decimal text of a word is converted to the word.
pub safe_atou64n-decimal : (n : ℕ) → n < word → safe_atou64n (decimal n) ≡ some n
unfolding safe_atou64n
safe_atou64n-decimal n h =
    let (d, ds, e, all) = decimal-digits n in
    let loop : atou64_loop 0 (decimal n) ≡ some n =
      unfold decimal atou64_loop in atou64_loop-decimal (n + 1) n [] (omega arith) h in
    rw e (ground (arith, skip_whitespace-digits d ds all, rw e at loop))

-- The integers of 64 bits.
abbrev pub IsI64 : ℤ → Type 0
IsI64 (pos n) = n < 2 ^ 63
IsI64 (negsuc n) = n < 2 ^ 63

-- The decimal text of a 64-bit integer, with a minus sign for a negative one, is converted to the
-- integer.
pub safe_atoi64n-decimal : (z : ℤ) → IsI64 z → safe_atoi64n (signed_decimal z) ≡ some z
unfolding safe_atoi64n signed_decimal
safe_atoi64n-decimal (pos n) h =
    let (d, ds, e, all) = decimal-digits n in
    let loop : atoi64_loop false 0 (decimal n) ≡ some n =
      unfold decimal atoi64_loop in
      atoi64_loop-decimal false (n + 1) n [] (omega arith) (omega (arith, h)) in
    rw e (ground (arith, skip_whitespace-digits d ds all, digit-ne-minus d all.0, rw e at loop))
safe_atoi64n-decimal (negsuc n) h =
    let (d, ds, e, all) = decimal-digits (n + 1) in
    let loop : atoi64_loop true 0 (decimal (n + 1)) ≡ some (n + 1) =
      unfold decimal atoi64_loop in
      atoi64_loop-decimal true (n + 1 + 1) (n + 1) [] (omega arith) (omega (arith, h)) in
    rw e (ground (arith, minus_whitespace d ds all, rw e at loop))
