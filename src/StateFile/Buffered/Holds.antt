-- ===== src/StateFile/Buffered/Holds.antt =====
-- What the writers under pkg/outputpathpersistency/file_writer.go hold: the bytes written so far
-- are those behind the header in the file, followed by those in the buffer.
use bb_clientd.Prelude.{
  ℕ, ◌+◌, ◌-◌, ◌<◌, ◌^◌, ◌≡◌, refl, sym, ap, ◌∙◌, inl, inr, true, false, List, [], ◌++◌, length,
  length-append, length-drop, drop, nil_of_length, append-nil, append_assoc, arith, Bool-cases, leb,
}
use bb_clientd.StateFile.Overwrite.{drop-overwrite_end, length-overwrite_end}
use bb_clientd.StateFile.Format.{WriteAt, IsWriterAt, header_size_bytes}
use bb_clientd.StateFile.Buffered.{
  BufferedWriter, Wrote, buffer_size, offset_write, flushed, flush, write_empty,
}

-- A flush that did not fail has emptied the buffer.
flushed-success :
    {F : Type 0} (n : ℕ) (r : Wrote F)
    → (flushed n r).failed ≡ false
    → (r.writer.failed ≡ false) × (flushed n r ≡ record (r.writer) { buffer = [] })
unfolding flushed
flushed-success n r h = ground arith

module _ {F : Type 0} (write_at : F → List ℕ → ℕ → WriteAt F) (contents : F → List ℕ) where
  pub record Holds (b : BufferedWriter F) (body : List ℕ) : Type 0 where
    pub intact : b.failed ≡ false
    pub at_end : b.offset_bytes ≡ header_size_bytes + (length (contents b.file) - header_size_bytes)
    pub whole : drop header_size_bytes (contents b.file) ++ b.buffer ≡ body

  module _ (law : IsWriterAt write_at contents) where
    -- Bytes that go to the file while the buffer is left as it is.
    offset_write-end :
        (b : BufferedWriter F) (p : List ℕ)
        → b.offset_bytes ≡ 16 + (length (contents b.file) - 16)
        → b.offset_bytes + length p < 2 ^ 64
        → (offset_write write_at b p).writer.failed ≡ false
        → ((offset_write write_at b p).count ≡ length p)
          × ((offset_write write_at b p).writer.offset_bytes
              ≡ 16 + (length (contents (offset_write write_at b p).writer.file) - 16))
          × (drop 16 (contents (offset_write write_at b p).writer.file)
              ≡ drop 16 (contents b.file) ++ p)
    unfolding offset_write
    offset_write-end b p e fits fine = (
      law.count_lem b.file p b.offset_bytes fine,
      omega (
        arith,
        law.count_lem b.file p b.offset_bytes fine,
        ap length (law.contents_lem b.file p b.offset_bytes fine),
        length-overwrite_end (contents b.file) p b.offset_bytes e,
      ),
      ap (drop 16) (law.contents_lem b.file p b.offset_bytes fine)
          ∙ drop-overwrite_end (contents b.file) p b.offset_bytes e,
    )

    module _ (b : BufferedWriter F) (body : List ℕ) (h : Holds b body) where
      -- The offset follows from the body and the buffer.
      place : b.offset_bytes + length b.buffer ≡ 16 + length body
      place = omega (
        arith,
        h.at_end,
        ap length h.whole,
        length-append (drop 16 (contents b.file)) b.buffer,
        length-drop 16 (contents b.file),
      )

      pub append_buffer : (p : List ℕ) → Holds (record b { buffer = b.buffer ++ p }) (body ++ p)
      append_buffer p = record {
        intact = h.intact;
        at_end = h.at_end;
        whole =
            sym (append_assoc (drop 16 (contents b.file)) b.buffer p) ∙ ap (λ t. t ++ p) h.whole;
      }

      -- The bytes of the buffer have reached the file.
      emptied : BufferedWriter F
      emptied = record (offset_write write_at b b.buffer).writer { buffer = [] }

      emptied-Holds :
          16 + length body < 2 ^ 64
          → (offset_write write_at b b.buffer).writer.failed ≡ false
          → Holds emptied body
      unfolding emptied
      emptied-Holds fits fine =
          let (count, at_end, grown) =
            offset_write-end b b.buffer h.at_end (omega (arith, place)) fine in
          record { intact = fine; at_end = at_end; whole = append-nil _ ∙ grown ∙ h.whole }

      flush_full :
          leb (length b.buffer) 0 ≡ false
          → flush write_at b ≡ flushed (length b.buffer) (offset_write write_at b b.buffer)
      unfolding flush
      flush_full long = rw h.intact (rw long)

      flush_nothing : leb (length b.buffer) 0 ≡ true → flush write_at b ≡ b
      unfolding flush
      flush_nothing short = rw h.intact (rw short)

      pub flush-Holds :
          16 + length body < 2 ^ 64
          → (flush write_at b).failed ≡ false
          → Holds (flush write_at b) body × ((flush write_at b).buffer ≡ [])
      unfolding emptied
      flush-Holds fits fine = elim (Bool-cases (leb (length b.buffer) 0)) [
        | inl short ↦ rw (flush_nothing short) (h, nil_of_length b.buffer (ground arith))
        | inr long ↦
            let e =
              flushed-success (length b.buffer) (offset_write write_at b b.buffer)
                (rw (flush_full long) at fine) in
            rw (flush_full long ∙ e.1) (emptied-Holds fits e.0, refl)
      ]

      -- A write with an empty buffer.
      write_through :
          (p : List ℕ)
          → b.buffer ≡ []
          → 16 + length body + length p < 2 ^ 64
          → (offset_write write_at b p).writer.failed ≡ false
          → Holds (offset_write write_at b p).writer (body ++ p)
            × ((offset_write write_at b p).count ≡ length p)
      unfolding offset_write
      write_through p empty fits fine =
          let (count, at_end, grown) = offset_write-end b p h.at_end (omega (arith, place)) fine in
          (
            record {
              intact = fine;
              at_end = at_end;
              whole =
                  ap (◌++◌ (drop 16 (contents (offset_write write_at b p).writer.file))) empty
                  ∙ append-nil _
                  ∙ grown
                  ∙ ap (λ t. t ++ p)
                      (sym (append-nil _)
                        ∙ ap (◌++◌ (drop 16 (contents b.file))) (sym empty)
                        ∙ h.whole);
            },
            count,
          )

      pub write_empty-Holds :
          (p : List ℕ)
          → b.buffer ≡ []
          → 16 + length body + length p < 2 ^ 64
          → (write_empty write_at b p).writer.failed ≡ false
          → Holds (write_empty write_at b p).writer (body ++ p)
            × ((write_empty write_at b p).count ≡ length p)
      unfolding write_empty
      write_empty-Holds p empty fits fine = elim (Bool-cases (leb (length p) buffer_size)) [
        | inl small ↦ rw small (append_buffer p, refl)
        | inr large ↦ rw large (write_through p empty fits (rw large at fine))
      ]
