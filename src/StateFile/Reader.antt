-- ===== src/StateFile/Reader.antt =====
-- fileReader of pkg/outputpathpersistency/file_reader.go.
pub mod Bounds
pub mod Stored
use bb_clientd.Prelude.{
  ℕ, Bool, true, false, ◌||◌, Option, none, some, List, [], ◌∷◌, length, take, drop, ◌==◌,
  if◌then◌else◌,
}
use bb_clientd.Prelude.Results.{Result, ok, err}
use bb_clientd.Prelude.Words.{lt_i64, add_i64, is_nonpositive_i32, i64_of_i32, get_le}
use bb_clientd.StateFile.Format.{
  FileRegion, Error, header_unreadable, bad_magic, out_of_range, short_read, bad_message,
  header_size_bytes, header_magic,
}

-- A reader is nil for an empty subdirectory: it has no file.
pub record FileReader : Type 0 where
  pub raw_reader : Option (ℕ → ℕ → List ℕ)
  pub maximum_offset_bytes : ℕ

-- io.ReadFull() on an offsetReader: all of the bytes, or an error. A call through a nil reader
-- panics, for which there is no value: `none`.
unfoldable pub read_full : Option (ℕ → ℕ → List ℕ) → ℕ → ℕ → Option (Result Error (List ℕ))
read_full none offset n = none
read_full (some read_at) offset n =
    some (if length (read_at n offset) == n then ok (read_at n offset) else err short_read)

-- bytes.Equal()
abbrev pub bytes_equal : List ℕ → List ℕ → Bool
bytes_equal [] [] = true
bytes_equal [] (y ∷ ys) = false
bytes_equal (x ∷ xs) [] = false
bytes_equal (x ∷ xs) (y ∷ ys) = if x == y then bytes_equal xs ys else false

-- The condition under which readMessage() refuses a region.
unfoldable pub is_out_of_range : ℕ → ℕ → ℕ → Bool
is_out_of_range maximum offset_bytes size_bytes =
    lt_i64 offset_bytes header_size_bytes
    || (lt_i64 maximum offset_bytes
        || (is_nonpositive_i32 size_bytes
            || lt_i64 maximum (add_i64 offset_bytes (i64_of_i32 size_bytes))))

module _ {ℓ} {M : Type ℓ} (unmarshal : List ℕ → Option M) where
  unfoldable pub unmarshalled :
      FileReader → ℕ → Option (Result Error (List ℕ)) → Option (Result Error (FileReader × M))
  unmarshalled r offset none = none
  unmarshalled r offset (some (err e)) = some (err e)
  unmarshalled r offset (some (ok bytes)) = some (elim (unmarshal bytes) [
    | none ↦ err bad_message
    | some m ↦ ok (record r { maximum_offset_bytes = offset }, m)
  ])

  -- readMessage(): the reader that it returns may only go to what stands in front of the message.
  unfoldable pub read_message : FileReader → ℕ → ℕ → Option (Result Error (FileReader × M))
  read_message r offset_bytes size_bytes =
      if is_out_of_range r.maximum_offset_bytes offset_bytes size_bytes
      then some (err out_of_range)
      else unmarshalled r offset_bytes (read_full r.raw_reader offset_bytes size_bytes)

  -- ReadDirectory(); `empty` is the message with no field set.
  unfoldable pub read_directory :
      M → FileReader → Option FileRegion → Option (Result Error (FileReader × M))
  read_directory empty r none =
      some (ok (record { raw_reader = none; maximum_offset_bytes = 0 }, empty))
  read_directory empty r (some region) = read_message r region.offset_bytes region.size_bytes

  unfoldable pub after_header : FileReader → List ℕ → Option (Result Error (FileReader × M))
  after_header r header =
      if bytes_equal (take 4 header) header_magic
      then read_message r (get_le (take 8 (drop 4 header))) (get_le (drop 12 header))
      else some (err bad_magic)

  unfoldable pub header_read :
      FileReader → Option (Result Error (List ℕ)) → Option (Result Error (FileReader × M))
  header_read r none = none
  header_read r (some (err e)) = some (err header_unreadable)
  header_read r (some (ok header)) = after_header r header

  -- NewFileReader()
  unfoldable pub new_file_reader : (ℕ → ℕ → List ℕ) → ℕ → Option (Result Error (FileReader × M))
  new_file_reader raw_reader maximum_state_file_size_bytes =
      header_read
        (record {
          raw_reader = some raw_reader;
          maximum_offset_bytes = maximum_state_file_size_bytes;
        })
        (read_full (some raw_reader) 0 header_size_bytes)
