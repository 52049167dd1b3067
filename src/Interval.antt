-- ===== src/Interval.antt =====
-- libaftermath-core/src/interval.h and timestamp.h: closed intervals of 64-bit timestamps.
-- A function that writes through a pointer returns the new value beside its return value.
pub mod Sets
pub mod Moves
use Prim.Native.Nat.{Ordering}
use aftermath.Base.{
  ℕ, ◌+◌, ◌-◌, ◌/◌, ◌≤◌, ◌<◌, ◌≡◌, Bool, true, false, not, ◌&&◌, ◌||◌, Option, none, some, ltb, leb,
  ◌==◌, if◌then◌else◌,
}
use aftermath.Base.Words.{word, add64, sub64}
use aftermath.Arith.{Status, exact, underflow, overflow, add_sat_u64, sub_sat_u64}

-- `struct am_interval`
pub record Interval : Type 0 where
  pub start : ℕ
  pub end : ℕ

-- `struct am_time_offset`: a magnitude, and whether it is negative.
pub record TimeOffset : Type 0 where
  pub abs : ℕ
  pub sign : Bool

-- The intervals that hold a timestamp, between words.
pub record IsInterval (i : Interval) : Type 0 where
  pub ordered : i.start ≤ i.end
  pub is_word : i.end < word

-- am_timestamp_add_sat_offset
unfoldable pub add_sat_offset : ℕ → TimeOffset → ℕ × Status
unfolding add_sat_u64 sub_sat_u64
add_sat_offset t o = if o.sign then sub_sat_u64 t o.abs else add_sat_u64 t o.abs

-- am_timestamp_sub_sat_offset
unfoldable pub sub_sat_offset : ℕ → TimeOffset → ℕ × Status
unfolding add_sat_u64 sub_sat_u64
sub_sat_offset t o = if o.sign then add_sat_u64 t o.abs else sub_sat_u64 t o.abs

-- am_timestamp_within_pcmp: -1, 0 and 1 are `lt`, `eq` and `gt`.
unfoldable pub within_pcmp : ℕ → Interval → Ordering
within_pcmp t i =
    if ltb t i.start then Ordering.lt else if ltb i.end t then Ordering.gt else Ordering.eq

-- am_interval_intersect_p
unfoldable pub intersect_p : Interval → Interval → Bool
intersect_p a b = not (ltb a.end b.start || ltb b.end a.start)

-- am_interval_contains_p
unfoldable pub contains_p : Interval → ℕ → Bool
contains_p i t = leb i.start t && leb t i.end

-- am_interval_intersection; `none` is the return value 1, where `*out` stays as it is.
unfoldable pub intersection : Interval → Interval → Option Interval
unfolding intersect_p
intersection a b =
    if not (intersect_p a b)
    then none
    else some (record {
      start = if leb a.start b.start then b.start else a.start;
      end = if leb a.end b.end then a.end else b.end;
    })

-- am_interval_extend
unfoldable pub extend : Interval → Interval → Interval
extend a b = record {
  start = if ltb b.start a.start then b.start else a.start;
  end = if ltb a.end b.end then b.end else a.end;
}

-- am_interval_extend_timestamp
unfoldable pub extend_timestamp : Interval → ℕ → Interval
extend_timestamp a t = record {
  start = if ltb t a.start then t else a.start;
  end = if ltb a.end t then t else a.end;
}

-- am_interval_duration
unfoldable pub duration : Interval → TimeOffset × Status
unfolding add_sat_u64
duration i =
    let (abs, status) = add_sat_u64 (sub64 i.end i.start) 1 in
    (record { abs = abs; sign = false }, status)

-- am_interval_intersection_duration
unfoldable pub intersection_duration : Interval → Interval → TimeOffset × Status
unfolding intersection duration
intersection_duration a b = elim (intersection a b) [
  | none ↦ (record { abs = 0; sign = false }, exact)
  | some tmp ↦ duration tmp
]

-- `status == AM_ARITHMETIC_STATUS_EXACT`
abbrev pub is_exact : Status → Bool
is_exact exact = true
is_exact underflow = false
is_exact overflow = false

-- am_interval_widen_start_u; `true` is the return value 1.
unfoldable pub widen_start_u : Interval → ℕ → Interval × Bool
unfolding sub_sat_u64
widen_start_u i d =
    let (start, status) = sub_sat_u64 i.start d in
    (record i { start = start }, not (is_exact status))

-- am_interval_widen_end_u
unfoldable pub widen_end_u : Interval → ℕ → Interval × Bool
unfolding add_sat_u64
widen_end_u i d =
    let (end, status) = add_sat_u64 i.end d in (record i { end = end }, not (is_exact status))

-- am_interval_widen_u. Its `ret` is not initialised: `ret` here is what the variable holds before.
unfoldable pub widen_u : Bool → Interval → ℕ → Interval × Bool
unfolding sub_sat_u64 add_sat_u64
widen_u ret i d =
    let (start, status) = sub_sat_u64 i.start d in
    let (end, status') = add_sat_u64 i.end d in
    (
      record { start = start; end = end },
      if not (is_exact status') then true else if not (is_exact status) then true else ret,
    )

-- am_interval_shrink_u
unfoldable pub shrink_u : Interval → ℕ → Interval × Bool
unfolding duration sub_sat_u64
shrink_u i d =
    let dur = (duration i).0.abs in
    let middle = add64 i.start (dur / 2) in
    let (end, status) = sub_sat_u64 i.end d in
    if ltb (dur / 2) d
    then (record { start = middle; end = middle }, true)
    else (record { start = add64 i.start d; end = end }, not (is_exact status))

-- am_interval_widen, with what `ret` of am_interval_widen_u holds before.
unfoldable pub widen : Bool → Interval → TimeOffset → Interval × Bool
unfolding shrink_u widen_u
widen ret i d = if d.sign then shrink_u i d.abs else widen_u ret i d.abs

-- am_interval_shift_right_u; it returns the status of the addition.
unfoldable pub shift_right_u : Interval → ℕ → Interval × Status
unfolding add_sat_u64
shift_right_u a d =
    let (end, ret) = add_sat_u64 a.end d in
    (record { start = (add_sat_u64 a.start (sub64 end a.end)).0; end = end }, ret)

-- am_interval_shift_left_u; it returns the status of the subtraction.
unfoldable pub shift_left_u : Interval → ℕ → Interval × Status
unfolding sub_sat_u64
shift_left_u a d =
    let (start, ret) = sub_sat_u64 a.start d in
    (record { start = start; end = (sub_sat_u64 a.end (sub64 a.start start)).0 }, ret)

-- am_interval_shift
unfoldable pub shift : Interval → TimeOffset → Interval × Status
unfolding shift_left_u shift_right_u
shift a d = if d.sign then shift_left_u a d.abs else shift_right_u a d.abs

-- am_interval_middle
unfoldable pub middle : Interval → ℕ
unfolding duration
middle i = add64 i.start ((duration i).0.abs / 2)

-- am_interval_overlap_cmp: -1, 0 and 1 are `lt`, `eq` and `gt`.
unfoldable pub overlap_cmp : Interval → Interval → Ordering
overlap_cmp a b =
    if ltb a.end b.start
    then Ordering.lt
    else if ltb b.end a.start
    then Ordering.gt
    else Ordering.eq
