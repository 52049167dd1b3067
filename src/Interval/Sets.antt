-- ===== src/Interval/Sets.antt =====
-- interval.h, the tests and the set operations: an interval against the timestamps that it holds.
use Prim.Native.Nat.{Ordering}
use aftermath.Base.{
  ℕ, ◌+◌, ◌-◌, ◌≤◌, min, max, ◌≡◌, ◌↔◌, Bool, true, false, ◌&&◌, ◌||◌, Option, none, some, arith,
  ltb, if◌then◌else◌,
}
use aftermath.Base.Words.{word, word_max}
use aftermath.Arith.{exact, overflow}
use aftermath.Interval.{
  Interval, IsInterval, intersect_p, contains_p, intersection, extend, duration, middle,
  overlap_cmp,
}

-- Two intervals intersect exactly when some timestamp lies in both.
pub intersect_p_iff :
    (a b : Interval)
    → IsInterval a
    → IsInterval b
    → (intersect_p a b ≡ true) ↔ ((t : ℕ) × (contains_p a t ≡ true) × (contains_p b t ≡ true))
unfolding intersect_p contains_p
intersect_p_iff a b va vb =
    (λ h. (max a.start b.start, ground arith, ground arith), λ (t, p, q). ground arith)

-- What an intersection that may be missing holds.
abbrev pub holds : Option Interval → ℕ → Bool
holds none t = false
holds (some i) t = contains_p i t

-- The computed intersection holds exactly the timestamps of both intervals; where none is computed,
-- no timestamp lies in both.
pub contains_p-intersection :
    (a b : Interval) (t : ℕ) → holds (intersection a b) t ≡ (contains_p a t && contains_p b t)
unfolding intersection contains_p
contains_p-intersection a b t = ground arith

-- The extended interval holds what both intervals hold, and lies in every interval that does.
pub extend_least :
    (a b c : Interval)
    → ((t : ℕ) → (contains_p a t || contains_p b t) ≡ true → contains_p (extend a b) t ≡ true)
      × (c.start ≤ a.start
          → c.start ≤ b.start
          → a.end ≤ c.end
          → b.end ≤ c.end
          → (c.start ≤ (extend a b).start) × ((extend a b).end ≤ c.end))
unfolding extend contains_p
extend_least a b c = (λ t h. ground arith, λ h1 h2 h3 h4. ground arith)

-- The duration of an interval is the number of its timestamps, or the largest word where that number
-- is no word, and only then the status is `overflow`.
pub duration_lem :
    (i : Interval)
    → IsInterval i
    → ((duration i).0.abs ≡ min (i.end - i.start + 1) word_max)
      × ((duration i).1 ≡ (if ltb (i.end - i.start + 1) word then exact else overflow))
unfolding duration
duration_lem i v = ground arith

-- The middle of an interval lies in it.
pub contains_p-middle : (i : Interval) → IsInterval i → contains_p i (middle i) ≡ true
unfolding middle contains_p
contains_p-middle i v = ground arith

-- The three-way comparison calls two intervals equal exactly when they intersect.
pub overlap_cmp_iff : (a b : Interval) → (overlap_cmp a b ≡ Ordering.eq) ↔ (intersect_p a b ≡ true)
unfolding overlap_cmp intersect_p
overlap_cmp_iff a b = (λ h. ground arith, λ h. ground arith)
