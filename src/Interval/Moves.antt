-- ===== src/Interval/Moves.antt =====
-- interval.h, the operations that move the ends of an interval: what saturation leaves of them.
use aftermath.Base.{
  ℕ, ◌+◌, ◌-◌, ◌*◌, ◌/◌, ◌≤◌, ◌<◌, min, ◌≡◌, ◌≢◌, ◌↔◌, Bool, true, ◌||◌, arith, ltb, if◌then◌else◌,
}
use aftermath.Base.Words.{word, word_max}
use aftermath.Arith.{exact, overflow, underflow}
use aftermath.Interval.{
  Interval, IsInterval, widen_u, shrink_u, shift_right_u, shift_left_u, duration,
}

-- Shifting an interval to the right keeps its length and its order, and moves it by the whole of `d`
-- or until its end is the largest word. The end must differ from `d`, a word.
pub shift_right_u_lem :
    (i : Interval) (d : ℕ)
    → IsInterval i
    → d < word
    → i.end ≢ d
    → let (j, status) = shift_right_u i d in
      (j.end ≡ min (i.end + d) word_max)
      × (j.end - j.start ≡ i.end - i.start)
      × (status ≡ (if ltb (i.end + d) word then exact else overflow))
      × IsInterval j
unfolding shift_right_u
shift_right_u_lem i d v hd ne = ground arith

-- Shifting an interval to the left by a word `d` keeps its length and its order, and moves it by the whole of `d`
-- or until its start is 0.
pub shift_left_u_lem :
    (i : Interval) (d : ℕ)
    → IsInterval i
    → d < word
    → let (j, status) = shift_left_u i d in
      (j.start ≡ i.start - d)
      × (j.end - j.start ≡ i.end - i.start)
      × (status ≡ (if ltb i.start d then underflow else exact))
      × IsInterval j
unfolding shift_left_u
shift_left_u_lem i d v hd = ground arith

-- Shrinking by a word `d` leaves an interval of fewer than 2^64 timestamps in order except where it has
-- an even number of them and `d` is half of it: then the start moves beyond the end.
pub shrink_u-ordered :
    (i : Interval) (d : ℕ)
    → IsInterval i
    → i.end - i.start + 1 < word
    → d < word
    → let j = (shrink_u i d).0 in (j.start ≤ j.end) ↔ (2 * d ≢ i.end - i.start + 1)
unfolding shrink_u
shrink_u-ordered i d v h hd = (λ o. ground arith, λ o. ground arith)

-- Shrinking an interval that stays in order never leaves the interval, and returns 1 exactly when `d`
-- is more than half of the duration.
pub shrink_u-inside :
    (i : Interval) (d : ℕ)
    → IsInterval i
    → d < word
    → let (j, cut) = shrink_u i d in
      (i.start ≤ j.start) × (j.end ≤ i.end) × (cut ≡ ltb ((duration i).0.abs / 2) d)
unfolding shrink_u duration
shrink_u-inside i d v hd = ground arith

-- Widening by `d`, for ends that are words and an end other than `d`, moves each end by `d` or to the end of the words, and returns 1 where an end could not move
-- by `d`; otherwise it returns whatever its variable for the result held before, never set to 0.
pub widen_u_lem :
    (ret : Bool) (i : Interval) (d : ℕ)
    → i.start < word
    → i.end < word
    → d < word
    → i.end ≢ d
    → widen_u ret i d ≡ (
      record { start = i.start - d; end = min (i.end + d) word_max },
      if ltb i.start d || ltb word_max (i.end + d) then true else ret,
    )
unfolding widen_u
widen_u_lem ret i d hs he hd ne = ground arith
