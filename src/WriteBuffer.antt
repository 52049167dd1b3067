-- ===== src/WriteBuffer.antt =====
-- libaftermath-core/src/write_buffer.c: the buffer that collects raw event data before it goes to the
-- trace file. The memory behind `data` is the list of its bytes. `malloc` and `fwrite` are parameters:
-- the first gives the memory or fails, the second returns the new file and whether it wrote the item.
pub mod Log
use aftermath.Base.{
  ℕ, zero, suc, ◌+◌, ◌-◌, Bool, true, false, not, Option, none, some, List, [], ◌∷◌, ◌++◌, ltb,
  ◌==◌, if◌then◌else◌, take, drop, length,
}
use aftermath.Base.Words.{add64, sub64}

-- `struct am_write_buffer`
pub record WriteBuffer : Type 0 where
  pub bytes : List ℕ
  pub size : ℕ
  pub used : ℕ

-- `memcpy(dst + offset, src, n)` for an `n` of at most the bytes at hand; nothing is written past `dst`.
abbrev pub copy_at : List ℕ → ℕ → List ℕ → List ℕ
copy_at [] offset src = []
copy_at (x ∷ dst) (suc offset) src = x ∷ copy_at dst offset src
copy_at (x ∷ dst) zero [] = x ∷ dst
copy_at (x ∷ dst) zero (y ∷ src) = y ∷ copy_at dst zero src

-- am_write_buffer_init; `none` is the return value 1.
unfoldable pub init : (ℕ → Option (List ℕ)) → ℕ → Option WriteBuffer
init malloc size = elim (malloc size) [
  | none ↦ none
  | some memory ↦ some (record { bytes = memory; size = size; used = 0 })
]

-- am_write_buffer_reserve_bytes; the address is the offset into the data, `none` is NULL.
unfoldable pub reserve_bytes : WriteBuffer → ℕ → Option ℕ × WriteBuffer
reserve_bytes b n =
    if ltb (sub64 b.size b.used) n
    then (none, b)
    else (some b.used, record b { used = add64 b.used n })

-- am_write_buffer_write_bytes; `true` is the return value 0.
unfoldable pub write_bytes : WriteBuffer → ℕ → List ℕ → WriteBuffer × Bool
write_bytes b num_bytes src = if ltb (sub64 b.size b.used) num_bytes then (b, false) else (
  record b { bytes = copy_at b.bytes b.used (take num_bytes src); used = add64 b.used num_bytes },
  true,
)

-- am_write_buffer_dump_fp; `true` is the return value 0.
unfoldable pub dump_fp {ℓ} :
    {F : Type ℓ} → (List ℕ → F → F × Bool) → WriteBuffer → F → WriteBuffer × F × Bool
dump_fp fwrite b fp =
    let (fp', done) = fwrite (take b.used b.bytes) fp in
    if b.used == 0
    then (b, fp, true)
    else if not done
    then (b, fp', false)
    else (record b { used = 0 }, fp', true)
