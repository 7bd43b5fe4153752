-- ===== src/StateFile/RoundTrip.antt =====
-- The writer and the reader of pkg/outputpathpersistency together: what a session of
-- WriteDirectory() calls and one Finalize() has written is what NewFileReader() and ReadDirectory()
-- return.
use mathlib.Core.Path.{subst}
use bb_clientd.Prelude.{
  ℕ, ◌+◌, ◌≤◌, ◌<◌, ◌^◌, ◌≡◌, refl, sym, ap, Option, some, List, [], ◌∷◌, ◌++◌, length,
  length-append, append_assoc, append-nil, arith,
}
use bb_clientd.Prelude.Results.{ok}
use bb_clientd.StateFile.Format.{
  WriteAt, IsWriterAt, IsReaderAt, FileRegion, header_size_bytes, encode_header, region_or_zero,
  RoundTrips,
}
use bb_clientd.StateFile.Writer.{FileWriter, new_file_writer, write_message, finalize}
use bb_clientd.StateFile.Writer.Holds.{
  IsWriting, new_file_writer-IsWriting, write_message-IsWriting, finalize-contents, region_of,
}
use bb_clientd.StateFile.Reader.{FileReader, read_directory, new_file_reader}
use bb_clientd.StateFile.Reader.Bounds.{IsModest}
use bb_clientd.StateFile.Reader.Stored.{
  Stands, nowhere, within, Stands-append, end_of, reader_below, read_directory-Stands,
  new_file_reader-Stands,
}

-- A message that was just written stands where its region says.
pub region_of-Stands :
    (body bytes : List ℕ)
    → length bytes < 2 ^ 31
    → Stands (body ++ bytes) (region_of (16 + length body) bytes) bytes
region_of-Stands body [] small = nowhere
region_of-Stands body (b ∷ bs) small =
    within body (b ∷ bs) [] _ (ap (◌++◌ body) (sym (append-nil (b ∷ bs)))) refl (omega arith)
      (omega arith) small

pub end_of-region_of :
    (body bytes : List ℕ)
    → length bytes < 2 ^ 31
    → end_of (region_of (16 + length body) bytes) ≤ 16 + length body + length bytes
end_of-region_of body [] small = omega arith
end_of-region_of body (b ∷ bs) small = omega arith

-- A message that is not empty has a region.
pub region_or_zero-Stands :
    (body bytes : List ℕ)
    → length bytes < 2 ^ 31
    → 0 < length bytes
    → Stands (body ++ bytes) (some (region_or_zero (region_of (16 + length body) bytes))) bytes
region_or_zero-Stands body [] small pos = absurd (omega arith)
region_or_zero-Stands body (b ∷ bs) small pos = region_of-Stands body (b ∷ bs) small

pub end_of-region_or_zero :
    (body bytes : List ℕ)
    → length bytes < 2 ^ 31
    → end_of (some (region_or_zero (region_of (16 + length body) bytes)))
      ≤ 16 + length body + length bytes
end_of-region_or_zero body [] small = omega arith
end_of-region_or_zero body (b ∷ bs) small = omega arith

pub region_or_zero-offset :
    (offset : ℕ) (bytes : List ℕ)
    → 0 < length bytes
    → (region_or_zero (region_of offset bytes)).offset_bytes ≡ offset
region_or_zero-offset offset [] pos = absurd (omega arith)
region_or_zero-offset offset (b ∷ bs) pos = refl

module _ {F : Type 0} (write_at : F → List ℕ → ℕ → WriteAt F) where
  -- Any number of WriteDirectory() calls that succeed, `n` bytes of messages in all.
  pub data Writes (w : FileWriter F) : ℕ → FileWriter F → Type 0 where
    start : Writes w 0 w
    next :
        {u v : FileWriter F} (n k : ℕ) (bytes : List ℕ) (region : Option FileRegion)
        → n ≡ k + length bytes
        → Writes w k u
        → write_message write_at u (some bytes) ≡ (v, ok region)
        → Writes w n v

  module _ (contents : F → List ℕ) (law : IsWriterAt write_at contents) where
    -- The body only grows, by the bytes written.
    pub Writes-IsWriting :
        {w v : FileWriter F} {n : ℕ} (body : List ℕ)
        → IsWriting write_at contents w body
        → 16 + length body + n < 2 ^ 64
        → Writes w n v
        → (more : List ℕ) × IsWriting write_at contents v (body ++ more) × (length more ≡ n)
    Writes-IsWriting body h fits start = ([], rw (append-nil body) h, refl)
    Writes-IsWriting body h fits (next {u = u} {v = v} n k bytes region e before call) =
        let (more, held, size) = Writes-IsWriting body h (omega arith) before in
        let (held', _) =
          write_message-IsWriting write_at contents law u v (body ++ more) bytes region held
            (omega (arith, length-append body more)) call in
        (
          more ++ bytes,
          rw (← append_assoc body more bytes) held',
          omega (arith, length-append more bytes),
        )

    module _ {D R : Type 0} (marshal : D → Option (List ℕ)) (unmarshal : List ℕ → Option D)
        (marshal_root : R → Option (List ℕ)) (unmarshal_root : List ℕ → Option R)
        (trips : RoundTrips marshal unmarshal)
        (root_trips : RoundTrips marshal_root unmarshal_root) where
      -- A session on a new file: the calls before that for the directory `d`, the call itself, the
      -- calls after it, and Finalize(), all with no error. `before`, `after`, `bytes` and
      -- `root_bytes` are what was marshalled.
      pub record Session (d : D) (root : R) : Type 0 where
        pub file : F
        pub is_new : contents file ≡ []
        pub before : ℕ
        pub w1 : FileWriter F
        pub wrote_before : Writes (new_file_writer file) before w1
        pub bytes : List ℕ
        pub marshalled : marshal d ≡ some bytes
        pub w2 : FileWriter F
        pub region : Option FileRegion
        pub wrote : write_message write_at w1 (marshal d) ≡ (w2, ok region)
        pub after : ℕ
        pub w3 : FileWriter F
        pub wrote_after : Writes w2 after w3
        pub root_bytes : List ℕ
        pub root_marshalled : marshal_root root ≡ some root_bytes
        pub w4 : FileWriter F
        pub finalized : finalize write_at w3 (marshal_root root) ≡ (w4, ok tt)

      module _ (d : D) (root : R) (s : Session d root) where
        -- The bytes of the final file.
        abbrev pub final : List ℕ
        final = contents s.w4.buffered_writer.file

        abbrev pub total : ℕ
        total = header_size_bytes + s.before + length s.bytes + s.after + length s.root_bytes

      -- A session without an error writes a directory, others around it, and the root directory,
      -- on a file whose writes without an error have written their bytes. Opening the final file
      -- gives the root directory, and following the region of `d` from there gives `d`, where the
      -- reader's maximum admits the whole file, no message exceeds an int32, the root directory's
      -- message is not empty, the file can be read, and what was marshalled is unmarshalled to the
      -- same message.
      pub session_round_trip :
          (d : D) (root : R) (s : Session d root) (empty : D) (read_at : ℕ → ℕ → List ℕ)
          (maximum : ℕ)
          → unmarshal [] ≡ some empty
          → IsReaderAt read_at (final d root s)
          → length s.bytes < 2 ^ 31
          → length s.root_bytes < 2 ^ 31
          → 0 < length s.root_bytes
          → IsModest maximum
          → total d root s ≤ maximum
          → (r r' : FileReader) × (new_file_reader unmarshal_root read_at maximum
              ≡ some (ok (r, root)))
            × (read_directory unmarshal empty r s.region ≡ some (ok (r', d)))
      session_round_trip d root s empty read_at maximum no_fields law_r small root_small root_some
            modest fits =
          let (pre, held1, n1) =
            Writes-IsWriting [] (new_file_writer-IsWriting write_at contents s.file s.is_new)
              (omega arith) s.wrote_before in
          let (held2, same) =
            write_message-IsWriting write_at contents law s.w1 s.w2 pre s.bytes s.region held1
              (omega arith) (rw (← s.marshalled) s.wrote) in
          let (post, held3, n3) =
            Writes-IsWriting (pre ++ s.bytes) held2 (omega (arith, length-append pre s.bytes))
              s.wrote_after in
          let body : List ℕ = (pre ++ s.bytes) ++ post in
          let size : length body ≡ s.before + length s.bytes + s.after =
            omega (arith, length-append pre s.bytes, length-append (pre ++ s.bytes) post) in
          let root_region : FileRegion =
            region_or_zero (region_of (16 + length body) s.root_bytes) in
          let at_end : root_region.offset_bytes ≡ 16 + length body =
            region_or_zero-offset (16 + length body) s.root_bytes root_some in
          let written : final d root s ≡ encode_header root_region ++ (body ++ s.root_bytes) =
            finalize-contents write_at contents law s.w3 s.w4 body s.root_bytes held3 (omega arith)
              (rw (← s.root_marshalled) s.finalized) in
          let readable : IsReaderAt read_at (encode_header root_region ++ (body ++ s.root_bytes)) =
            subst (IsReaderAt read_at) written law_r in
          let dir_stands : Stands (body ++ s.root_bytes) s.region s.bytes =
            subst (λ r. Stands (body ++ s.root_bytes) r s.bytes) (sym same)
              (Stands-append s.root_bytes
                (Stands-append post (region_of-Stands pre s.bytes small))) in
          (
            reader_below read_at (some root_region),
            reader_below read_at s.region,
            new_file_reader-Stands unmarshal_root read_at (body ++ s.root_bytes) s.root_bytes
                root_region root maximum readable
                (region_or_zero-Stands body s.root_bytes root_small root_some)
                (root_trips root s.root_bytes s.root_marshalled) modest
                (omega (arith, end_of-region_or_zero body s.root_bytes root_small)),
            read_directory-Stands unmarshal read_at empty (encode_header root_region)
                (body ++ s.root_bytes) s.bytes s.region d root_region.offset_bytes no_fields refl
                readable dir_stands (trips d s.bytes s.marshalled) (omega (arith, at_end))
                (rw same (omega (arith, at_end, end_of-region_of pre s.bytes small))),
          )
