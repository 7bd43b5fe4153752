-- ===== src/StateFile/Writer/Preserves.antt =====
-- What the writers of pkg/outputpathpersistency/file_writer.go do to the file under them: nothing
-- but calls of WriteAt(), on errors too.
use bb_clientd.Prelude.{
  ℕ, ◌-◌, Bool, true, false, Option, none, some, List, [], ◌∷◌, ◌++◌, length, take, drop, leb,
  if◌then◌else◌,
}
use bb_clientd.Prelude.Results.{Result, ok, err}
use bb_clientd.StateFile.Format.{WriteAt, FileRegion, Error, encode_header, region_or_zero}
use bb_clientd.StateFile.Buffered.{
  BufferedWriter, Wrote, buffer_size, offset_write, flushed, flush, write_empty, write_rest,
  buffered_write,
}
use bb_clientd.StateFile.Writer.{
  FileWriter, write_data, write_message, write_header, finalize_region, finalize,
}

-- A property of both results of a conditional.
if_both : {A : Type 0} (Q : A → Type 0) (b : Bool) (x y : A) → Q x → Q y → Q (if b then x else y)
if_both Q true x y hx hy = hx
if_both Q false x y hx hy = hy

-- A property of files that WriteAt() preserves is preserved by every call.
module _ {F : Type 0} (write_at : F → List ℕ → ℕ → WriteAt F) (P : F → Type 0)
    (keeps : (f : F) (p : List ℕ) (offset : ℕ) → P f → P (write_at f p offset).file) where
  abbrev OnBuffer : BufferedWriter F → Type 0
  OnBuffer b = P b.file

  abbrev OnWrote : Wrote F → Type 0
  OnWrote r = P r.writer.file

  abbrev OnCall : FileWriter F × Result Error (Unit {0}) → Type 0
  OnCall r = P r.0.buffered_writer.file

  flushed-keeps : (n : ℕ) (r : Wrote F) → P r.writer.file → P (flushed n r).file
  unfolding flushed
  flushed-keeps n r h = if_both OnBuffer _ _ _ h h

  flush-keeps : (b : BufferedWriter F) → P b.file → P (flush write_at b).file
  unfolding flush offset_write
  flush-keeps b h = if_both OnBuffer _ _ _ h (
      flushed-keeps (length b.buffer) (offset_write write_at b b.buffer)
        (keeps b.file b.buffer b.offset_bytes h))

  write_empty-keeps :
      (b : BufferedWriter F) (p : List ℕ) → P b.file → P (write_empty write_at b p).writer.file
  unfolding write_empty offset_write
  write_empty-keeps b p h = if_both OnWrote _ _ _ h (keeps b.file p b.offset_bytes h)

  write_rest-keeps :
      (n : ℕ) (b : BufferedWriter F) (rest : List ℕ)
      → P b.file
      → P (write_rest write_at n b rest).writer.file
  unfolding write_rest
  write_rest-keeps n b rest h = if_both OnWrote _ _ _ h (write_empty-keeps b rest h)

  buffered_write-keeps :
      (b : BufferedWriter F) (p : List ℕ) → P b.file → P (buffered_write write_at b p).writer.file
  unfolding buffered_write
  buffered_write-keeps b p h =
      let first : BufferedWriter F = record b {
        buffer = b.buffer ++ take (buffer_size - length b.buffer) p;
      } in
      let filled : Wrote F =
        write_rest write_at (buffer_size - length b.buffer) (flush write_at first)
          (drop (buffer_size - length b.buffer) p) in
      let added : Wrote F = record {
        writer = record b { buffer = b.buffer ++ p };
        count = length p;
      } in
      let is_empty = leb (length b.buffer) 0 in
      let fits = leb (length p) (buffer_size - length b.buffer) in
      if_both OnWrote b.failed (record { writer = b; count = 0 })
        (if fits then added else if is_empty then write_empty write_at b p else filled) h
        (if_both OnWrote fits added (if is_empty then write_empty write_at b p else filled) h (
          if_both OnWrote is_empty (write_empty write_at b p) filled (write_empty-keeps b p h) (
            write_rest-keeps (buffer_size - length b.buffer) (flush write_at first)
              (drop (buffer_size - length b.buffer) p) (flush-keeps first h))))

  pub write_message-keeps :
      (w : FileWriter F) (message : Option (List ℕ))
      → P w.buffered_writer.file
      → P (write_message write_at w message).0.buffered_writer.file
  unfolding write_message write_data
  write_message-keeps w none h = h
  write_message-keeps w (some []) h = h
  write_message-keeps w (some (b ∷ bs)) h = buffered_write-keeps w.buffered_writer (b ∷ bs) h

  finalize_region-keeps :
      (w : FileWriter F) (r : Result Error (Option FileRegion))
      → P w.buffered_writer.file
      → P (finalize_region write_at w r).0.buffered_writer.file
  unfolding finalize_region write_header
  finalize_region-keeps w (err e) h = h
  finalize_region-keeps w (ok region) h =
      let flushed_ok : P (flush write_at w.buffered_writer).file =
        flush-keeps w.buffered_writer h in
      if_both OnCall _ _ _ flushed_ok (
        keeps (flush write_at w.buffered_writer).file (encode_header (region_or_zero region)) 0
          flushed_ok)

  pub finalize-keeps :
      (w : FileWriter F) (root : Option (List ℕ))
      → P w.buffered_writer.file
      → P (finalize write_at w root).0.buffered_writer.file
  unfolding finalize
  finalize-keeps w root h =
      finalize_region-keeps (write_message write_at w root).0 (write_message write_at w root).1
        (write_message-keeps w root h)
