-- ===== src/AnsiExtras/Atoi.antt =====
-- ansi_extras.h: the conversion of texts to 64-bit integers.
use aftermath.Base.{
  ℕ, zero, suc, ◌+◌, ◌-◌, ◌*◌, ◌/◌, ◌^◌, Bool, true, false, not, ◌||◌, Option, none, some, List, [],
  ◌∷◌, ltb, ◌==◌, if◌then◌else◌,
}
use aftermath.Base.Int.{ℤ, pos, negsuc}
use aftermath.Base.Words.{word_max, add64, sub64, mul64}
use aftermath.Parser.Chars.{isdigit}
use aftermath.AnsiExtras.{isspace}

-- am_skip_leading_whitespacen
unfoldable pub skip_leading_whitespace : List ℕ → List ℕ
skip_leading_whitespace [] = []
skip_leading_whitespace (x ∷ xs) =
    let rest = skip_leading_whitespace xs in if isspace x then rest else x ∷ xs

-- am_skip_trailing_whitespacen
unfoldable pub skip_trailing_whitespace : List ℕ → List ℕ
skip_trailing_whitespace [] = []
skip_trailing_whitespace (x ∷ xs) = elim (skip_trailing_whitespace xs) [
  | [] ↦ if isspace x then [] else x ∷ []
  | y ∷ ys ↦ x ∷ y ∷ ys
]

-- am_skip_whitespacen
unfoldable pub skip_whitespace : List ℕ → List ℕ
unfolding skip_leading_whitespace skip_trailing_whitespace
skip_whitespace s = skip_trailing_whitespace (skip_leading_whitespace s)

-- The loop of am_safe_atou64n.
unfoldable pub atou64_loop : ℕ → List ℕ → Option ℕ
atou64_loop val [] = some val
atou64_loop val (x ∷ str) =
    let digitval = x - b'0' in
    let scaled = mul64 val 10 in
    let further = atou64_loop (add64 scaled digitval) str in
    if not (isdigit x)
    then none
    else if ltb (word_max / 10) val
    then none
    else if ltb (sub64 word_max scaled) digitval
    then none
    else further

-- am_safe_atou64n; `none` is the return value 1.
unfoldable pub safe_atou64n : List ℕ → Option ℕ
safe_atou64n str = elim (skip_whitespace str) [ [] ↦ none | x ∷ s ↦ atou64_loop 0 (x ∷ s) ]

-- The integer of a sign and a magnitude.
abbrev pub signed : Bool → ℕ → ℤ
signed false n = pos n
signed true zero = pos 0
signed true (suc n) = negsuc n

-- The loop of am_safe_atoi64n, on the magnitude of `val`, which no step makes greater than 2^63 for a
-- sign, or 2^63 - 1 without one.
unfoldable pub atoi64_loop : Bool → ℕ → List ℕ → Option ℕ
atoi64_loop sign val [] = some val
atoi64_loop sign val (x ∷ str) =
    let digitval = x - b'0' in
    let further = atoi64_loop sign (val * 10 + digitval) str in
    let limit = if sign then 2 ^ 63 else 2 ^ 63 - 1 in
    if not (isdigit x)
    then none
    else if ltb (limit / 10) val
    then none
    else if ltb limit (val * 10 + digitval)
    then none
    else further

-- am_safe_atoi64n
unfoldable pub safe_atoi64n : List ℕ → Option ℤ
safe_atoi64n str = elim (skip_whitespace str) [
  | [] ↦ none
  | x ∷ s ↦
      let sign = x == b'-' in
      elim (atoi64_loop sign 0 (if sign then s else x ∷ s)) [
        | none ↦ none
        | some val ↦ some (signed sign val)
      ]
]

-- am_safe_atodbln, with `strtod` giving the value and the number of characters it has read; the bit
-- patterns are those of HUGE_VAL and -HUGE_VAL.
unfoldable pub safe_atodbln : (List ℕ → ℕ × ℕ) → List ℕ → Option ℕ
safe_atodbln strtod str = elim (skip_whitespace str) [
  | [] ↦ none
  | x ∷ s ↦
      let (convval, read) = strtod (x ∷ s) in
      if read == 0 || convval == 0x7FF0000000000000 || convval == 0xFFF0000000000000
      then none
      else some convval
]
