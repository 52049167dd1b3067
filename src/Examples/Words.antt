-- ===== src/Examples/Words.antt =====
-- arithmetic.h and safe_alloc.h at concrete inputs.
use aftermath.Base.{◌*◌, ◌/◌, ◌^◌, ◌≡◌, some, arith, ltb, if◌then◌else◌, min}
use aftermath.Base.Words.{word, word_max}
use aftermath.Arith.{exact, overflow, add_sat_u64, muldiv_sat_u64}
use aftermath.Arith.Exact.{add_sat_u64_self, muldiv_sat_u64_lem}

add_sat_u64_self_example : add_sat_u64 (2 ^ 63) (2 ^ 63) ≡ (0, exact)
add_sat_u64_self_example = add_sat_u64_self (2 ^ 63) (omega arith) (omega arith)

muldiv_sat_u64_lem_example :
    muldiv_sat_u64 word_max 10 4
    ≡ some
        (min (word_max * 10 / 4) word_max, if ltb (word_max * 10 / 4) word then exact else overflow)
muldiv_sat_u64_lem_example = muldiv_sat_u64_lem word_max 10 4 (ground arith)
