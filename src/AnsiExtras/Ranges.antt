-- ===== src/AnsiExtras/Ranges.antt =====
-- The integers that the conversions of texts give are in range.
use aftermath.Base.{
  ℕ, zero, suc, ◌+◌, ◌-◌, ◌*◌, ◌^◌, ◌≤◌, ◌<◌, ◌≡◌, Bool, true, false, none, some, List, [], ◌∷◌,
  arith, ltb, ◌==◌, if◌then◌else◌, Bool-cases, Option-cases, inl, inr,
}
use mathlib.Core.Path.{subst}
use aftermath.Base.Int.{ℤ}
use aftermath.Base.Words.{word, add64, mul64}
use aftermath.AnsiExtras.Atoi.{
  skip_whitespace, atou64_loop, safe_atou64n, atoi64_loop, safe_atoi64n, signed,
}
use aftermath.AnsiExtras.Numerals.{IsI64}

atou64_loop-word :
    (val : ℕ) (s : List ℕ) (n : ℕ) → val < word → atou64_loop val s ≡ some n → n < word
unfolding atou64_loop
atou64_loop-word val [] n h e = ground (arith, e, h)
atou64_loop-word val (x ∷ s) n h e =
    let ih = atou64_loop-word (add64 (mul64 val 10) (x - b'0')) s n (omega arith) in
    ground (arith, e, ih)

pub safe_atou64n-word : (s : List ℕ) (n : ℕ) → safe_atou64n s ≡ some n → n < word
unfolding safe_atou64n
safe_atou64n-word s n e = from (skip_whitespace s) e
  where
    from : (t : List ℕ) → elim t [ [] ↦ none | x ∷ s ↦ atou64_loop 0 (x ∷ s) ] ≡ some n → n < word
    from [] e = ground (arith, e)
    from (x ∷ s) e = atou64_loop-word 0 (x ∷ s) n (omega arith) e

-- The greatest magnitude of an integer with this sign.
abbrev limit : Bool → ℕ
limit sign = if sign then 2 ^ 63 else 2 ^ 63 - 1

atoi64_loop-limit :
    (sign : Bool) (val : ℕ) (s : List ℕ) (n : ℕ)
    → val ≤ limit sign
    → atoi64_loop sign val s ≡ some n
    → n ≤ limit sign
unfolding atoi64_loop
atoi64_loop-limit sign val [] n h e = ground (arith, e, h)
atoi64_loop-limit sign val (x ∷ s) n h e =
    elim (Bool-cases (ltb (limit sign) (val * 10 + (x - b'0')))) [
      | inl over ↦ ground (arith, e, over)
      | inr fits ↦
          let ih = atoi64_loop-limit sign (val * 10 + (x - b'0')) s n (ground (arith, fits)) in
          ground (arith, e, fits, ih)
    ]

signed-IsI64 : (sign : Bool) (n : ℕ) → n ≤ limit sign → IsI64 (signed sign n)
signed-IsI64 true zero h = omega arith
signed-IsI64 true (suc n) h = omega (arith, h)
signed-IsI64 false n h = omega (arith, h)

signed_result :
    (sign : Bool) (s : List ℕ) (z : ℤ)
    → elim (atoi64_loop sign 0 s) [ none ↦ none | some val ↦ some (signed sign val) ] ≡ some z
    → IsI64 z
signed_result sign s z e = elim (Option-cases (atoi64_loop sign 0 s)) [
  | inl n ↦ absurd (ground (arith, n, e))
  | inr (v, n) ↦
      let e' : some (signed sign v) ≡ some z = rw (n) at e in
      let same : signed sign v ≡ z = cc in
      subst IsI64 same (signed-IsI64 sign v (atoi64_loop-limit sign 0 s v (ground arith) n))
]

pub safe_atoi64n-IsI64 : (s : List ℕ) (z : ℤ) → safe_atoi64n s ≡ some z → IsI64 z
unfolding safe_atoi64n
safe_atoi64n-IsI64 s z e = from (skip_whitespace s) e
  where
    from :
        (t : List ℕ)
        → elim t [
          | [] ↦ none
          | x ∷ s ↦
              let sign = x == b'-' in
              elim (atoi64_loop sign 0 (if sign then s else x ∷ s)) [
                | none ↦ none
                | some val ↦ some (signed sign val)
              ]
        ]
          ≡ some z
        → IsI64 z
    from [] e = absurd (ground (arith, e))
    from (x ∷ s) e = signed_result (x == b'-') (if x == b'-' then s else x ∷ s) z e
