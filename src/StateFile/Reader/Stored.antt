-- ===== src/StateFile/Reader/Stored.antt =====
-- Reading back what stands in a state file, by pkg/outputpathpersistency/file_reader.go.
use bb_clientd.Prelude.{
  ℕ, ◌+◌, ◌≤◌, ◌<◌, ◌^◌, ◌≡◌, refl, sym, ap, ◌∙◌, Option, none, some, List, [], ◌++◌, length, take,
  drop, drop-drop, drop-append_le, drop_of_length_le, take-drop_mid, append_assoc, arith, ==_iff,
}
use bb_clientd.Prelude.Results.{ok}
use bb_clientd.Prelude.Words.{get_le-put_le}
use bb_clientd.StateFile.Format.{FileRegion, header_size_bytes, encode_header, IsReaderAt}
use bb_clientd.StateFile.Reader.{
  FileReader, read_full, read_message, unmarshalled, read_directory, new_file_reader, after_header,
  header_read,
}
use bb_clientd.StateFile.Reader.Bounds.{IsModest, in_range_of}

-- A message stands in the body of a file, at a region. An empty one stands nowhere.
pub data Stands (body : List ℕ) : Option FileRegion → List ℕ → Type 0 where
  nowhere : Stands body none []
  within :
      (before bytes after : List ℕ) (region : FileRegion)
      → body ≡ before ++ (bytes ++ after)
      → region.offset_bytes ≡ header_size_bytes + length before
      → region.size_bytes ≡ length bytes
      → 0 < length bytes
      → length bytes < 2 ^ 31
      → Stands body (some region) bytes

Stands-size :
    {body bytes : List ℕ} {region : FileRegion}
    → Stands body (some region) bytes
    → region.size_bytes < 2 ^ 31
Stands-size (within before bytes after region e o s pos small) = omega arith

-- What is written behind a message leaves it where it is.
pub Stands-append :
    {body bytes : List ℕ} {region : Option FileRegion} (more : List ℕ)
    → Stands body region bytes
    → Stands (body ++ more) region bytes
Stands-append more nowhere = nowhere
Stands-append more (within before bytes after region e o s pos small) =
    within before bytes (after ++ more) region
      (ap (λ t. t ++ more) e
        ∙ append_assoc before (bytes ++ after) more
        ∙ ap (◌++◌ before) (append_assoc bytes after more))
      o s pos small

-- The end of a region, which a reader's maximum must admit.
abbrev pub end_of : Option FileRegion → ℕ
end_of none = 0
end_of (some r) = r.offset_bytes + r.size_bytes

-- The reader of the children of a message.
abbrev pub reader_below : (ℕ → ℕ → List ℕ) → Option FileRegion → FileReader
reader_below read_at none = record { raw_reader = none; maximum_offset_bytes = 0 }
reader_below read_at (some r) = record {
  raw_reader = some read_at;
  maximum_offset_bytes = r.offset_bytes;
}

-- A whole part of a file behind its header.
slice :
    (header before bytes after : List ℕ)
    → length header ≡ 16
    → take (length bytes) (drop (16 + length before) (header ++ (before ++ (bytes ++ after))))
      ≡ bytes
slice header before bytes after e =
    ap (take (length bytes)) (
      sym (drop-drop 16 (length before) (header ++ (before ++ (bytes ++ after))))
      ∙ ap (drop (length before)) (
          drop-append_le 16 header (before ++ (bytes ++ after)) (omega arith)
          ∙ ap (λ t. t ++ (before ++ (bytes ++ after)))
              (drop_of_length_le 16 header (omega arith))))
    ∙ take-drop_mid before bytes after

module _ {M : Type 0} (unmarshal : List ℕ → Option M) (read_at : ℕ → ℕ → List ℕ) where
  pub read_message-Stands :
      (header body bytes : List ℕ) (region : FileRegion) (m : M) (maximum : ℕ)
      → length header ≡ 16
      → IsReaderAt read_at (header ++ body)
      → Stands body (some region) bytes
      → unmarshal bytes ≡ some m
      → IsModest maximum
      → region.offset_bytes + region.size_bytes ≤ maximum
      → read_message unmarshal
          (record { raw_reader = some read_at; maximum_offset_bytes = maximum })
          region.offset_bytes
          region.size_bytes
        ≡ some (ok (reader_below read_at (some region), m))
  unfolding read_message read_full unmarshalled
  read_message-Stands header body bytes region m maximum long law
        (within before _ after _ e o s pos small) parsed modest fits =
      rw
        (in_range_of maximum region.offset_bytes region.size_bytes modest (omega arith)
          (omega arith) (omega arith) fits)
        (rw found (rw ((==_iff (length bytes) region.size_bytes).1 (sym s)) (rw parsed)))
    where
      found : read_at region.size_bytes region.offset_bytes ≡ bytes
      found =
          law region.size_bytes region.offset_bytes
          ∙ ap (λ n. take n (drop region.offset_bytes (header ++ body))) s
          ∙ ap (λ n. take (length bytes) (drop n (header ++ body))) o
          ∙ ap (λ t. take (length bytes) (drop (16 + length before) (header ++ t))) e
          ∙ slice header before bytes after long

  -- A subdirectory that stands in the file is read, with a reader for its own children.
  pub read_directory-Stands :
      (empty : M) (header body bytes : List ℕ) (region : Option FileRegion) (m : M) (maximum : ℕ)
      → unmarshal [] ≡ some empty
      → length header ≡ 16
      → IsReaderAt read_at (header ++ body)
      → Stands body region bytes
      → unmarshal bytes ≡ some m
      → IsModest maximum
      → end_of region ≤ maximum
      → read_directory unmarshal empty
          (record { raw_reader = some read_at; maximum_offset_bytes = maximum })
          region
        ≡ some (ok (reader_below read_at region, m))
  unfolding read_directory
  read_directory-Stands empty header body _ _ m maximum no_fields long law nowhere parsed modest
        fits =
      cc
  read_directory-Stands empty header body bytes (some region) m maximum no_fields long law
        (within a b c r e o s pos small) parsed modest fits =
      read_message-Stands header body bytes region m maximum long law
        (within a b c r e o s pos small) parsed modest fits

  -- A file with a valid header is opened at its root directory.
  pub new_file_reader-Stands :
      (body bytes : List ℕ) (region : FileRegion) (m : M) (maximum : ℕ)
      → IsReaderAt read_at (encode_header region ++ body)
      → Stands body (some region) bytes
      → unmarshal bytes ≡ some m
      → IsModest maximum
      → region.offset_bytes + region.size_bytes ≤ maximum
      → new_file_reader unmarshal read_at maximum
        ≡ some (ok (reader_below read_at (some region), m))
  unfolding new_file_reader after_header header_read read_full
  new_file_reader-Stands body bytes region m maximum law s parsed modest fits = rw (law 16 0) (
      rw (get_le-put_le 8 region.offset_bytes (omega arith)) (
        rw (get_le-put_le 4 region.size_bytes (omega (arith, Stands-size s))) (
          read_message-Stands (encode_header region) body bytes region m maximum refl law s parsed
            modest fits)))
