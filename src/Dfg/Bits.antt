-- ===== src/Dfg/Bits.antt =====
-- The operators `&`, `|` and `^` of C on the 64-bit masks of dfg_node.h, digit by digit, and the loop of
-- libaftermath-core/src/bits.h over the bits that are set.
use native.Mathlib.Nat.{pow-suc}
use aftermath.Base.{
  ℕ, zero, suc, ◌+◌, ◌*◌, ◌/◌, ◌%◌, ◌^◌, ◌≤◌, ◌<◌, ◌≡◌, refl, arith, Bool, true, false, not, ◌&&◌,
  ◌||◌, ◌==◌, if◌then◌else◌, List, [], ◌∷◌,
}

abbrev pub is_odd : ℕ → Bool
is_odd a = a % 2 == 1

-- The bit of a word at an index.
unfoldable pub testbit : ℕ → ℕ → Bool
testbit a zero = is_odd a
testbit a (suc i) = testbit (a / 2) i

abbrev digit : Bool → ℕ
digit true = 1
digit false = 0

-- An operator on the lowest digits of two words, so many of them.
unfoldable pub on_bits : (Bool → Bool → Bool) → ℕ → ℕ → ℕ → ℕ
on_bits f zero a b = 0
on_bits f (suc n) a b = digit (f (is_odd a) (is_odd b)) + 2 * on_bits f n (a / 2) (b / 2)

abbrev pub differ : Bool → Bool → Bool
differ a b = (a && not b) || (not a && b)

-- `a & b`, `a | b` and `a ^ b`
abbrev pub and64 : ℕ → ℕ → ℕ
and64 a b = on_bits (λ x y. x && y) 64 a b

abbrev pub or64 : ℕ → ℕ → ℕ
or64 a b = on_bits (λ x y. x || y) 64 a b

abbrev pub xor64 : ℕ → ℕ → ℕ
xor64 a b = on_bits differ 64 a b

-- The indexes of the bits that are set among the lowest `n`; the lowest bit of `a` is at index `i`.
unfoldable pub set_bits_from : ℕ → ℕ → ℕ → List ℕ
set_bits_from zero i a = []
set_bits_from (suc n) i a =
    let rest = set_bits_from n (i + 1) (a / 2) in if is_odd a then i ∷ rest else rest

-- am_for_each_bit_idx_u64
unfoldable pub set_bits : ℕ → List ℕ
set_bits a = set_bits_from 64 0 a

-- am_num_bits_set_u64 on the lowest `n` bits.
unfoldable pub num_bits_set : ℕ → ℕ → ℕ
num_bits_set zero a = 0
num_bits_set (suc n) a = digit (is_odd a) + num_bits_set n (a / 2)

digits_parity : (d : Bool) (x : ℕ) → (is_odd (digit d + 2 * x) ≡ d) × ((digit d + 2 * x) / 2 ≡ x)
digits_parity true x = ground arith
digits_parity false x = ground arith

pub testbit-on_bits :
    (f : Bool → Bool → Bool) (n i a b : ℕ)
    → i < n
    → testbit (on_bits f n a b) i ≡ f (testbit a i) (testbit b i)
unfolding testbit on_bits
testbit-on_bits f zero i a b h = absurd (omega arith)
testbit-on_bits f (suc n) zero a b h = (digits_parity _ _).0
testbit-on_bits f (suc n) (suc i) a b h =
    rw ((digits_parity (f (is_odd a) (is_odd b)) (on_bits f n (a / 2) (b / 2))).1)
      (testbit-on_bits f n i (a / 2) (b / 2) (omega arith))

num_bits_set-on_bits-suc :
    (f : Bool → Bool → Bool) (n a b : ℕ)
    → num_bits_set (suc n) (on_bits f (suc n) a b)
      ≡ digit (f (is_odd a) (is_odd b)) + num_bits_set n (on_bits f n (a / 2) (b / 2))
unfolding num_bits_set on_bits
num_bits_set-on_bits-suc f n a b =
    let (parity, half) = digits_parity (f (is_odd a) (is_odd b)) (on_bits f n (a / 2) (b / 2)) in
    rw (parity, half) refl

-- Bits are added by `|`, and none is missing only where there was nothing to add.
pub num_bits_set-on_bits :
    (n a b : ℕ) → num_bits_set n a ≤ num_bits_set n (on_bits (λ x y. x || y) n a b)
unfolding num_bits_set
num_bits_set-on_bits zero a b = omega arith
num_bits_set-on_bits (suc n) a b =
    ground (
      arith,
      num_bits_set-on_bits-suc (λ x y. x || y) n a b,
      num_bits_set-on_bits n (a / 2) (b / 2),
    )

by_digits : (b : ℕ) → b ≡ digit (is_odd b) + 2 * (b / 2)
by_digits b = ground arith

-- One digit of the next lemma.
full_step :
    (x y : Bool) {n m r h b : ℕ}
    → digit (x || y) + m ≤ digit x + n
    → n ≤ m
    → (m ≤ n → r ≡ h)
    → b ≡ digit y + 2 * h
    → digit (y && x) + 2 * r ≡ b
full_step true true e l same d = omega (arith, same (omega arith))
full_step true false e l same d = omega (arith, same (omega arith))
full_step false true e l same d = absurd (omega arith)
full_step false false e l same d = omega (arith, same (omega arith))

pub on_bits_full :
    (n a b : ℕ)
    → b < 2 ^ n
    → num_bits_set n (on_bits (λ x y. x || y) n a b) ≤ num_bits_set n a
    → on_bits (λ x y. x && y) n b a ≡ b
unfolding num_bits_set on_bits
on_bits_full zero a b h e = omega arith
on_bits_full (suc n) a b h e =
    full_step (is_odd a) (is_odd b) (rw (← num_bits_set-on_bits-suc (λ x y. x || y) n a b) e)
      (num_bits_set-on_bits n (a / 2) (b / 2))
      (on_bits_full n (a / 2) (b / 2) (omega (arith, pow-suc 2 n, h))) (by_digits b)

pub num_bits_set_le : (n a : ℕ) → num_bits_set n a ≤ n
unfolding num_bits_set
num_bits_set_le zero a = omega arith
num_bits_set_le (suc n) a = ground (arith, num_bits_set_le n (a / 2))
