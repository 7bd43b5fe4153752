-- ===== src/StateFile/Writer.antt =====
-- fileWriter of pkg/outputpathpersistency/file_writer.go.
pub mod Holds
pub mod Preserves
use bb_clientd.Prelude.{
  ℕ, ◌%◌, ◌^◌, false, Option, none, some, List, [], ◌∷◌, length, if◌then◌else◌,
}
use bb_clientd.Prelude.Results.{Result, ok, err}
use bb_clientd.Prelude.Words.{add_i64}
use bb_clientd.StateFile.Format.{
  WriteAt, FileRegion, Error, marshal_failed, write_failed, header_size_bytes, encode_header,
  region_or_zero,
}
use bb_clientd.StateFile.Buffered.{BufferedWriter, buffered_write, flush}

-- `rawWriter` is the file under the buffered writer: both names stand for one object.
pub record FileWriter {ℓ} (F : Type ℓ) : Type ℓ where
  pub buffered_writer : BufferedWriter F
  pub offset_bytes : ℕ

module _ {ℓ} {F : Type ℓ} where
  -- NewFileWriter()
  unfoldable pub new_file_writer : F → FileWriter F
  new_file_writer raw_writer = record {
    buffered_writer = record {
      file = raw_writer;
      offset_bytes = header_size_bytes;
      buffer = [];
      failed = false;
    };
    offset_bytes = header_size_bytes;
  }

module _ {ℓ} {F : Type ℓ} (write_at : F → List ℕ → ℕ → WriteAt F) where
  -- The part of writeMessage() behind the test for an empty message.
  unfoldable pub write_data :
      FileWriter F → List ℕ → FileWriter F × Result Error (Option FileRegion)
  write_data w bytes = (
    record {
      buffered_writer = (buffered_write write_at w.buffered_writer bytes).writer;
      offset_bytes = add_i64 w.offset_bytes (buffered_write write_at w.buffered_writer bytes).count;
    },
    if (buffered_write write_at w.buffered_writer bytes).writer.failed
        then err write_failed
        else ok
            (some (record { offset_bytes = w.offset_bytes; size_bytes = length bytes % 2 ^ 32 })),
  )

  -- writeMessage(), after proto.Marshal(). WriteDirectory() is this function at directories.
  unfoldable pub write_message :
      FileWriter F → Option (List ℕ) → FileWriter F × Result Error (Option FileRegion)
  write_message w none = (w, err marshal_failed)
  write_message w (some []) = (w, ok none)
  write_message w (some (b ∷ bs)) = write_data w (b ∷ bs)

  -- Once the buffer is flushed, the header is written past it, at the start of the file.
  unfoldable pub write_header :
      FileWriter F → Option FileRegion → FileWriter F × Result Error (Unit {0})
  write_header w region =
      let r = write_at w.buffered_writer.file (encode_header (region_or_zero region)) 0 in
      (
        record w { buffered_writer = record (w.buffered_writer) { file = r.file } },
        if r.failed then err write_failed else ok tt,
      )

  unfoldable pub finalize_region :
      FileWriter F → Result Error (Option FileRegion) → FileWriter F × Result Error (Unit {0})
  finalize_region w (err e) = (w, err e)
  finalize_region w (ok region) =
      let b = flush write_at w.buffered_writer in
      if b.failed
      then (record w { buffered_writer = b }, err write_failed)
      else write_header (record w { buffered_writer = b }) region

  -- Finalize()
  unfoldable pub finalize : FileWriter F → Option (List ℕ) → FileWriter F × Result Error (Unit {0})
  finalize w root = let (w', r) = write_message w root in finalize_region w' r
