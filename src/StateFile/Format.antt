-- ===== src/StateFile/Format.antt =====
-- pkg/outputpathpersistency/header.go, and what the writer and the reader of state files share.
--
-- The files themselves are behind io.WriterAt and io.ReaderAt, and the messages behind
-- proto.Marshal() and proto.Unmarshal(); both are arguments, with what they promise as records
-- of laws. Bytes are numbers below 256, an int64 is a bit pattern below 2 ^ 64.
use bb_clientd.Prelude.{
  ℕ, ◌≡◌, Bool, false, Option, none, some, List, [], ◌∷◌, ◌++◌, length, take, drop,
}
use bb_clientd.StateFile.Overwrite.{overwrite}
use bb_clientd.Prelude.Words.{put_le}

abbrev pub header_size_bytes : ℕ
header_size_bytes = 16

abbrev pub header_magic : List ℕ
header_magic = 0xfa ∷ 0x12 ∷ 0xa4 ∷ 0xa5 ∷ []

-- outputpathpersistency.FileRegion
pub record FileRegion : Type 0 where
  pub offset_bytes : ℕ
  pub size_bytes : ℕ

-- GetOffsetBytes() and GetSizeBytes() of a region that may be nil.
abbrev pub region_or_zero : Option FileRegion → FileRegion
region_or_zero none = record { offset_bytes = 0; size_bytes = 0 }
region_or_zero (some r) = r

pub data Error : Type 0 where
  marshal_failed write_failed : Error
  header_unreadable bad_magic out_of_range short_read bad_message : Error

-- What WriteAt() returns, with the file after it.
pub record WriteAt {ℓ} (F : Type ℓ) : Type ℓ where
  pub file : F
  pub count : ℕ
  pub failed : Bool

-- io.WriterAt: a write with no error has written all of its bytes at their place.
pub record IsWriterAt {ℓ} {F : Type ℓ} (write_at : F → List ℕ → ℕ → WriteAt F)
    (contents : F → List ℕ) : Type ℓ where
  pub count_lem :
      (f : F) (p : List ℕ) (offset : ℕ)
      → (write_at f p offset).failed ≡ false
      → (write_at f p offset).count ≡ length p
  pub contents_lem :
      (f : F) (p : List ℕ) (offset : ℕ)
      → (write_at f p offset).failed ≡ false
      → contents (write_at f p offset).file ≡ overwrite (contents f) p offset

-- io.ReaderAt on a file that can be read: the bytes at the offset, as far as there are any. Where
-- they are fewer than asked for, the call also returns an error.
abbrev pub IsReaderAt : (ℕ → ℕ → List ℕ) → List ℕ → Type 0
IsReaderAt read_at contents = (n offset : ℕ) → read_at n offset ≡ take n (drop offset contents)

-- Protobuf: what was marshalled is unmarshalled to the same message.
abbrev pub RoundTrips {ℓ} : {M : Type ℓ} → (M → Option (List ℕ)) → (List ℕ → Option M) → Type ℓ
RoundTrips {M = M} marshal unmarshal =
    (m : M) (bytes : List ℕ) → marshal m ≡ some bytes → unmarshal bytes ≡ some m

-- The header that Finalize() writes: the magic, and where the root directory is.
abbrev pub encode_header : FileRegion → List ℕ
encode_header r = header_magic ++ (put_le 8 r.offset_bytes ++ put_le 4 r.size_bytes)
