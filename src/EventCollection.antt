-- ===== src/EventCollection.antt =====
-- libaftermath-trace/src/buffered_event_collection.c: the events of one source, in a buffer of their own.
use aftermath.Base.{ℕ, Bool, Option, none, some, List}
use aftermath.WriteBuffer
use aftermath.WriteBuffer.{WriteBuffer}

-- `struct am_buffered_event_collection`; its field `data` is `buffer` here.
pub record EventCollection : Type 0 where
  pub buffer : WriteBuffer
  pub id : ℕ

-- am_buffered_event_collection_init; `none` is the return value 1.
unfoldable pub init : (ℕ → Option (List ℕ)) → ℕ → ℕ → Option EventCollection
unfolding WriteBuffer.init
init malloc id buffer_size = elim (WriteBuffer.init malloc buffer_size) [
  | none ↦ none
  | some buffer ↦ some (record { buffer = buffer; id = id })
]

-- am_buffered_event_collection_dump_fp; `true` is the return value 0.
unfoldable pub dump_fp {ℓ} :
    {F : Type ℓ} → (List ℕ → F → F × Bool) → EventCollection → F → EventCollection × F × Bool
unfolding WriteBuffer.dump_fp
dump_fp fwrite bec fp =
    let (buffer, fp', done) = WriteBuffer.dump_fp fwrite bec.buffer fp in
    (record bec { buffer = buffer }, fp', done)
