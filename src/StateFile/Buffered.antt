-- ===== src/StateFile/Buffered.antt =====
-- The writers that fileWriter of pkg/outputpathpersistency/file_writer.go is stacked on: the
-- offsetWriter of that file, and bufio.Writer of Go's library over it.
--
-- bufio.Writer.Write() loops while its data exceeds the free space: a buffer that holds something
-- is filled and flushed, and with an empty buffer the rest is written directly. By the contract
-- of io.Writer, a write of less than everything returns an error, so that the loop ends after at
-- most one round of each kind, in this order; that is how it is written here.
pub mod Holds
pub mod Writes
use bb_clientd.Prelude.{
  ℕ, ◌+◌, ◌-◌, ◌*◌, Bool, true, ◌||◌, List, [], ◌++◌, length, take, drop, leb, ltb, if◌then◌else◌,
}
use bb_clientd.Prelude.Words.{add_i64}
use bb_clientd.StateFile.Format.{WriteAt}

-- bufio.NewWriterSize(…, 1024*1024)
abbrev pub buffer_size : ℕ
buffer_size = 1024 * 1024

-- offsetWriter, and the part of bufio.Writer's state above it. `file` is the raw writer, which
-- fileWriter also writes its header to.
pub record BufferedWriter {ℓ} (F : Type ℓ) : Type ℓ where
  pub file : F
  pub offset_bytes : ℕ
  pub buffer : List ℕ
  pub failed : Bool

-- The bytes that a call took, beside the state after it.
pub record Wrote {ℓ} (F : Type ℓ) : Type ℓ where
  pub writer : BufferedWriter F
  pub count : ℕ

-- The end of a flush of `n` bytes: a short write is an error, and what is left stays.
unfoldable pub flushed {ℓ} : {F : Type ℓ} → ℕ → Wrote F → BufferedWriter F
flushed n r =
    if r.writer.failed || ltb r.count n
    then record (r.writer) { buffer = drop r.count (r.writer).buffer; failed = true }
    else record (r.writer) { buffer = [] }

module _ {ℓ} {F : Type ℓ} (write_at : F → List ℕ → ℕ → WriteAt F) where
  -- offsetWriter.Write(), with its error kept as bufio.Writer keeps it.
  unfoldable pub offset_write : BufferedWriter F → List ℕ → Wrote F
  offset_write b p = record {
    writer = record b {
      file = (write_at b.file p b.offset_bytes).file;
      offset_bytes = add_i64 b.offset_bytes (write_at b.file p b.offset_bytes).count;
      failed = (write_at b.file p b.offset_bytes).failed;
    };
    count = (write_at b.file p b.offset_bytes).count;
  }

  -- bufio.Writer.Flush()
  unfoldable pub flush : BufferedWriter F → BufferedWriter F
  flush b =
      if b.failed || leb (length b.buffer) 0
      then b
      else flushed (length b.buffer) (offset_write b b.buffer)

  -- With an empty buffer: a write that fits is copied, and a larger one goes to the file.
  unfoldable pub write_empty : BufferedWriter F → List ℕ → Wrote F
  write_empty b p =
      if leb (length p) buffer_size
      then record { writer = record b { buffer = b.buffer ++ p }; count = length p }
      else offset_write b p

  -- After a flush: what was taken before it counts, and the rest is written unless it failed.
  unfoldable pub write_rest : ℕ → BufferedWriter F → List ℕ → Wrote F
  write_rest n b rest =
      if b.failed
      then record { writer = b; count = n }
      else record { writer = (write_empty b rest).writer; count = n + (write_empty b rest).count }

  -- bufio.Writer.Write()
  unfoldable pub buffered_write : BufferedWriter F → List ℕ → Wrote F
  buffered_write b p =
      if b.failed
      then record { writer = b; count = 0 }
      else if leb (length p) (buffer_size - length b.buffer)
      then record { writer = record b { buffer = b.buffer ++ p }; count = length p }
      else if leb (length b.buffer) 0
      then write_empty b p
      else write_rest (buffer_size - length b.buffer)
          (flush (record b { buffer = b.buffer ++ take (buffer_size - length b.buffer) p }))
          (drop (buffer_size - length b.buffer) p)
