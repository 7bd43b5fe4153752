-- ===== src/StateFile/Writer/Holds.antt =====
-- What fileWriter of pkg/outputpathpersistency/file_writer.go has written: every message stands in
-- the body of the file, at the region that the call returned for it.
use mathlib.Core.Path.{subst}
use bb_clientd.Prelude.{
  ℕ, ◌+◌, ◌<◌, ◌^◌, ◌%◌, ◌≡◌, refl, sym, ap, ◌∙◌, false, Option, none, some, List, [], ◌∷◌, ◌++◌,
  length, drop, append-nil, arith, inl, inr, Bool-cases, length-append, else_of,
}
use bb_clientd.Prelude.Results.{Result, ok, err, ok_of_if}
use bb_clientd.StateFile.Format.{
  WriteAt, IsWriterAt, FileRegion, header_size_bytes, encode_header, region_or_zero, Error,
  write_failed,
}
use bb_clientd.StateFile.Buffered.{buffered_write, flush}
use bb_clientd.StateFile.Buffered.Holds.{Holds, flush-Holds}
use bb_clientd.StateFile.Buffered.Writes.{buffered_write-Holds}
use bb_clientd.StateFile.Writer.{
  FileWriter, new_file_writer, write_data, write_message, write_header, finalize_region, finalize,
}

-- The region of a message that is stored at an offset. An empty message has none.
abbrev pub region_of : ℕ → List ℕ → Option FileRegion
region_of offset [] = none
region_of offset (b ∷ bs) =
    some (record { offset_bytes = offset; size_bytes = length (b ∷ bs) % 2 ^ 32 })

module _ {F : Type 0} (write_at : F → List ℕ → ℕ → WriteAt F) (contents : F → List ℕ) where
  pub record IsWriting (w : FileWriter F) (body : List ℕ) : Type 0 where
    pub held : Holds write_at contents w.buffered_writer body
    pub at_end : w.offset_bytes ≡ header_size_bytes + length body

  pub new_file_writer-IsWriting : (f : F) → contents f ≡ [] → IsWriting (new_file_writer f) []
  unfolding new_file_writer
  new_file_writer-IsWriting f e = record {
    held = record { intact = refl; at_end = rw e refl; whole = rw e refl };
    at_end = refl;
  }

  module _ (law : IsWriterAt write_at contents) where
    write_data-IsWriting :
        (w w' : FileWriter F) (body bytes : List ℕ) (region : Option FileRegion)
        → IsWriting w body
        → 16 + length body + length bytes < 2 ^ 64
        → write_data write_at w bytes ≡ (w', ok region)
        → IsWriting w' (body ++ bytes)
          × (region
              ≡ some
                  (record { offset_bytes = 16 + length body; size_bytes = length bytes % 2 ^ 32 }))
    unfolding write_data
    write_data-IsWriting w w' body bytes region h fits e =
        let (fine, same) =
          ok_of_if (buffered_write write_at w.buffered_writer bytes).writer.failed write_failed
            (ap (λ t. t.1) e) in
        let (held, count) =
          buffered_write-Holds write_at contents law w.buffered_writer body bytes h.held fits
            fine in
        (
          subst (λ v. IsWriting v (body ++ bytes)) (ap (λ t. t.0) e)
              (record {
                held = held;
                at_end = omega (arith, count, h.at_end, length-append body bytes);
              }),
          same
              ∙ ap
                  (λ offset.
                    some (record { offset_bytes = offset; size_bytes = length bytes % 2 ^ 32 }))
                  h.at_end,
        )

    pub write_message-IsWriting :
        (w w' : FileWriter F) (body bytes : List ℕ) (region : Option FileRegion)
        → IsWriting w body
        → 16 + length body + length bytes < 2 ^ 64
        → write_message write_at w (some bytes) ≡ (w', ok region)
        → IsWriting w' (body ++ bytes) × (region ≡ region_of (16 + length body) bytes)
    unfolding write_message
    write_message-IsWriting w w' body [] region h fits e =
        (rw (append-nil body) (subst (λ v. IsWriting v body) (ap (λ t. t.0) e) h), cc)
    write_message-IsWriting w w' body (b ∷ bs) region h fits e =
        write_data-IsWriting w w' body (b ∷ bs) region h fits e

    write_header-contents :
        (w w' : FileWriter F) (body : List ℕ) (region : Option FileRegion)
        → Holds write_at contents w.buffered_writer body
        → w.buffered_writer.buffer ≡ []
        → write_header write_at w region ≡ (w', ok tt)
        → contents w'.buffered_writer.file ≡ encode_header (region_or_zero region) ++ body
    unfolding write_header
    write_header-contents w w' body region h empty e =
        let (fine, _) =
          ok_of_if
            (write_at w.buffered_writer.file (encode_header (region_or_zero region)) 0).failed
            write_failed (ap (λ t. t.1) e) in
        sym (ap (λ t. contents t.0.buffered_writer.file) e)
        ∙ law.contents_lem w.buffered_writer.file (encode_header (region_or_zero region)) 0 fine
        ∙ ap (◌++◌ (encode_header (region_or_zero region))) (
            sym (append-nil _)
            ∙ ap (◌++◌ (drop 16 (contents w.buffered_writer.file))) (sym empty)
            ∙ h.whole)

    -- The steps of a Finalize() that succeeds.
    finalize_region-success :
        (w w' : FileWriter F) (r : Result Error (Option FileRegion))
        → finalize_region write_at w r ≡ (w', ok tt)
        → (region : Option FileRegion) × (r ≡ ok region)
          × ((flush write_at w.buffered_writer).failed ≡ false)
          × (write_header write_at
                (record w { buffered_writer = flush write_at w.buffered_writer })
                region
              ≡ (w', ok tt))
    unfolding finalize_region
    finalize_region-success w w' (err x) e = cc (ap (λ t. t.1) e)
    finalize_region-success w w' (ok region) e =
        elim (Bool-cases (flush write_at w.buffered_writer).failed) [
          | inl broken ↦ cc (ap (λ t. t.1) (rw broken at e))
          | inr fine ↦
              (region, refl, fine, else_of (flush write_at w.buffered_writer).failed _ _ _ fine e)
        ]

    -- After Finalize() the file is the header, the messages, and the root directory.
    pub finalize-contents :
        (w w' : FileWriter F) (body root : List ℕ)
        → IsWriting w body
        → 16 + length body + length root < 2 ^ 64
        → finalize write_at w (some root) ≡ (w', ok tt)
        → contents w'.buffered_writer.file
          ≡ encode_header (region_or_zero (region_of (16 + length body) root)) ++ (body ++ root)
    unfolding finalize
    finalize-contents w w' body root h fits e =
        let (w1, r) = write_message write_at w (some root) in
        let (region, wrote, fine, header) = finalize_region-success w1 w' r e in
        let (h1, same) =
          write_message-IsWriting w w1 body root region h fits (ap (λ x. (w1, x)) wrote) in
        let (held, empty) =
          flush-Holds write_at contents law w1.buffered_writer (body ++ root) h1.held
            (omega (arith, length-append body root)) fine in
        write_header-contents (record w1 { buffered_writer = flush write_at w1.buffered_writer }) w'
          (body ++ root) region held empty header
        ∙ ap (λ s. encode_header (region_or_zero s) ++ (body ++ root)) same
