-- ===== src/WriteBuffer/Log.antt =====
-- The write buffer against what it promises: a log of at most `size` bytes that is appended to and
-- emptied into a file.
use aftermath.Base.{
  ℕ, zero, suc, ◌+◌, ◌≤◌, ◌<◌, ◌≡◌, refl, ap, Bool, Option, none, some, List, [], ◌∷◌, ◌++◌, arith,
  leb, ◌==◌, if◌then◌else◌, take, length, length-take, ◌||◌,
}
use aftermath.Base.Words.{word}
use aftermath.WriteBuffer.{WriteBuffer, copy_at, init, reserve_bytes, write_bytes, dump_fp}

pub record IsValid (b : WriteBuffer) : Type 0 where
  pub memory : length b.bytes ≡ b.size
  pub within : b.used ≤ b.size
  pub is_size : b.size < word

-- The bytes that have been written and not yet dumped.
abbrev pub contents : WriteBuffer → List ℕ
contents b = take b.used b.bytes

pub length-copy_at : (dst : List ℕ) (k : ℕ) (src : List ℕ) → length (copy_at dst k src) ≡ length dst
length-copy_at [] k src = refl
length-copy_at (x ∷ dst) (suc k) src = ap suc (length-copy_at dst k src)
length-copy_at (x ∷ dst) zero [] = refl
length-copy_at (x ∷ dst) zero (y ∷ src) = ap suc (length-copy_at dst zero src)

take-copy_at-zero :
    (dst src : List ℕ) → length src ≤ length dst → take (length src) (copy_at dst zero src) ≡ src
take-copy_at-zero [] [] h = refl
take-copy_at-zero [] (y ∷ src) h = absurd (omega arith)
take-copy_at-zero (x ∷ dst) [] h = refl
take-copy_at-zero (x ∷ dst) (y ∷ src) h = ap (λ l. y ∷ l) (take-copy_at-zero dst src (omega arith))

-- A copy behind a prefix leaves the prefix and puts the source behind it.
pub take-copy_at :
    (dst : List ℕ) (k n : ℕ) (src : List ℕ)
    → n ≡ k + length src
    → n ≤ length dst
    → take n (copy_at dst k src) ≡ take k dst ++ src
take-copy_at dst zero n src e h =
    let e' : n ≡ length src = omega arith in rw e' (take-copy_at-zero dst src (omega arith))
take-copy_at [] (suc k) n src e h = absurd (omega arith)
take-copy_at (x ∷ dst) (suc k) zero src e h = absurd (omega arith)
take-copy_at (x ∷ dst) (suc k) (suc n) src e h =
    ap (λ l. x ∷ l) (take-copy_at dst k n src (omega arith) (omega arith))

-- A buffer that `malloc` can give its memory is valid and empty.
pub init-IsValid :
    (malloc : ℕ → Option (List ℕ)) (size : ℕ) {b : WriteBuffer}
    → ((n : ℕ) (m : List ℕ) → malloc n ≡ some m → length m ≡ n)
    → size < word
    → init malloc size ≡ some b
    → IsValid b × (contents b ≡ [])
unfolding init
init-IsValid malloc size gives hs e = grind (arith, gives)

-- A write of `n` bytes at hand succeeds exactly when `n` bytes are free. Then it appends them to the
-- contents; otherwise it changes nothing. The buffer stays valid and keeps its size.
pub write_bytes_lem :
    (b : WriteBuffer) (n : ℕ) (src : List ℕ)
    → IsValid b
    → n ≤ length src
    → let (b', done) = write_bytes b n src in
      (done ≡ leb (b.used + n) b.size)
      × (contents b' ≡ (if done then contents b ++ take n src else contents b))
      × (b'.size ≡ b.size)
      × IsValid b'
unfolding write_bytes
write_bytes_lem b n src v h = ground (
  arith,
  take-copy_at b.bytes b.used (b.used + n) (take n src),
  length-copy_at b.bytes b.used (take n src),
  length-take n src,
)

-- A reservation succeeds exactly when `n` bytes are free, and then it gives the place right behind the
-- contents; the contents from before stay in front, and the buffer stays valid.
pub reserve_bytes_lem :
    (b : WriteBuffer) (n : ℕ)
    → IsValid b
    → let (at, b') = reserve_bytes b n in
      (at ≡ (if leb (b.used + n) b.size then some (length (contents b)) else none))
      × (take b.used b'.bytes ≡ contents b)
      × (b'.used ≡ (if leb (b.used + n) b.size then b.used + n else b.used))
      × IsValid b'
unfolding reserve_bytes
reserve_bytes_lem b n v = ground (arith, length-take b.used b.bytes)

-- What a client asks of a buffer.
pub data Op : Type 0 where
  write : List ℕ → Op
  dump : Op

take_all : (xs : List ℕ) → take (length xs) xs ≡ xs
take_all [] = refl
take_all (x ∷ xs) = ap (λ l. x ∷ l) (take_all xs)

length-contents : (b : WriteBuffer) → IsValid b → length (contents b) ≡ b.used
length-contents b v = omega (arith, length-take b.used b.bytes)

-- A write of all bytes at hand, in terms of the contents.
write_all :
    (b : WriteBuffer) (bs : List ℕ)
    → IsValid b
    → let (b', done) = write_bytes b (length bs) bs in
      let fits = leb (length (contents b) + length bs) b.size in
      (done ≡ fits)
      × (contents b' ≡ (if fits then contents b ++ bs else contents b))
      × (b'.size ≡ b.size)
      × IsValid b'
write_all b bs v =
    ground
      (arith, write_bytes_lem b (length bs) bs v (omega arith), take_all bs, length-contents b v)

-- The same calls on a log of at most `size` bytes.
module _ {ℓ} {F : Type ℓ} (size : ℕ) (fwrite : List ℕ → F → F × Bool) where
  unfoldable pub log_run : List ℕ → F → List Op → List Bool × List ℕ × F
  log_run log fp [] = ([], log, fp)
  log_run log fp (write bs ∷ ops) =
      let fits = leb (length log + length bs) size in
      let (replies, log', fp') = log_run (if fits then log ++ bs else log) fp ops in
      (fits ∷ replies, log', fp')
  log_run log fp (dump ∷ ops) =
      let (written, taken) = fwrite log fp in
      let none_left = length log == 0 in
      let done = none_left || taken in
      let (replies, log', fp') =
        log_run (if done then [] else log) (if none_left then fp else written) ops in
      (done ∷ replies, log', fp')

module _ {ℓ} {F : Type ℓ} (fwrite : List ℕ → F → F × Bool) where
  -- The replies of the code to the calls in order, the bytes left in the buffer, and the file.
  unfoldable pub run : WriteBuffer → F → List Op → List Bool × List ℕ × F
  run b fp [] = ([], contents b, fp)
  run b fp (write bs ∷ ops) =
      let (b', done) = write_bytes b (length bs) bs in
      let (replies, log, fp') = run b' fp ops in (done ∷ replies, log, fp')
  run b fp (dump ∷ ops) =
      let (b', written, done) = dump_fp fwrite b fp in
      let (replies, log, fp') = run b' written ops in (done ∷ replies, log, fp')

  -- A dump of a valid buffer writes all contents as one item and empties the buffer; where the write
  -- fails it leaves the contents, and without contents it writes nothing. The buffer stays valid.
  pub dump_fp_lem :
      (b : WriteBuffer) (fp : F)
      → IsValid b
      → let (b', written, done) = dump_fp fwrite b fp in
        let none_left = length (contents b) == 0 in
        (done ≡ (none_left || (fwrite (contents b) fp).1))
        × (contents b' ≡ (if done then [] else contents b))
        × (written ≡ (if none_left then fp else (fwrite (contents b) fp).0))
        × (b'.size ≡ b.size)
        × IsValid b'
  unfolding dump_fp
  dump_fp_lem b fp v = ground (arith, length-take b.used b.bytes)

  -- No sequence of writes and dumps tells a valid buffer from the bounded log of its contents: the
  -- replies, the bytes left and the file are the same.
  pub run_refines :
      (b : WriteBuffer) (fp : F) (ops : List Op)
      → IsValid b
      → run b fp ops ≡ log_run b.size fwrite (contents b) fp ops
  unfolding run log_run
  run_refines b fp [] v = refl
  run_refines b fp (write bs ∷ ops) v =
      let w = write_all b bs v in
      rw (w.0, run_refines (write_bytes b (length bs) bs).0 fp ops w.3, w.1, w.2)
  run_refines b fp (dump ∷ ops) v =
      let d = dump_fp_lem b fp v in
      let (b', written, done) = dump_fp fwrite b fp in
      rw (run_refines b' written ops d.4, d.1, d.3, d.2, d.0)
