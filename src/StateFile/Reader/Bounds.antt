-- ===== src/StateFile/Reader/Bounds.antt =====
-- The bounds check of readMessage() in pkg/outputpathpersistency/file_reader.go: what a state file
-- may refer to, whatever its contents.
use bb_clientd.Prelude.{
  ℕ, suc, ◌+◌, ◌≤◌, ◌<◌, ◌^◌, ◌≡◌, ◌≢◌, false, Option, none, some, List, arith,
}
use bb_clientd.Prelude.Results.{ok}
use bb_clientd.StateFile.Format.{FileRegion, header_size_bytes}
use bb_clientd.StateFile.Reader.{
  FileReader, read_full, is_out_of_range, read_message, unmarshalled, read_directory,
}

-- A maximum that leaves room for the largest message: no sum overflows.
abbrev pub IsModest : ℕ → Type 0
IsModest maximum = maximum + 2 ^ 31 ≤ 2 ^ 63

-- The region lies between the header and the maximum.
pub in_range :
    (maximum offset size : ℕ)
    → IsModest maximum
    → offset < 2 ^ 64
    → size < 2 ^ 32
    → is_out_of_range maximum offset size ≡ false
    → (header_size_bytes ≤ offset) × (0 < size) × (offset + size ≤ maximum)
unfolding is_out_of_range
in_range maximum offset size modest fits small h = ground arith

pub in_range_of :
    (maximum offset size : ℕ)
    → IsModest maximum
    → header_size_bytes ≤ offset
    → 0 < size
    → size < 2 ^ 31
    → offset + size ≤ maximum
    → is_out_of_range maximum offset size ≡ false
unfolding is_out_of_range
in_range_of maximum offset size modest lo pos small hi = ground arith

-- The fields of a FileRegion are an int64 and an int32.
abbrev pub IsRegion : FileRegion → Type 0
IsRegion region = (region.offset_bytes < 2 ^ 64) × (region.size_bytes < 2 ^ 32)

-- A nil file goes with an empty range.
pub record IsValid (r : FileReader) : Type 0 where
  pub modest : IsModest r.maximum_offset_bytes
  pub nil_is_empty : r.raw_reader ≡ none → r.maximum_offset_bytes ≡ 0

-- What a reader that ReadDirectory() returns may be: below the old one, or the empty one.
abbrev pub IsBelow : FileReader → Option FileRegion → FileReader → Type 0
IsBelow r none r' = r'.maximum_offset_bytes ≡ 0
IsBelow r (some region) r' =
    (r'.maximum_offset_bytes ≡ region.offset_bytes)
    × (header_size_bytes ≤ region.offset_bytes)
    × (0 < region.size_bytes)
    × (region.offset_bytes + region.size_bytes ≤ r.maximum_offset_bytes)

-- A region of a valid region type, or none.
abbrev pub IsRegion? : Option FileRegion → Type 0
IsRegion? none = Unit
IsRegion? (some region) = IsRegion region

module _ {M : Type 0} (unmarshal : List ℕ → Option M) (empty : M) where
  -- On a valid reader, ReadDirectory() never goes through the nil file of an empty subdirectory,
  -- whatever int64 and int32 the region holds.
  pub read_directory-ne-none :
      (r : FileReader) (region : Option FileRegion)
      → IsValid r
      → IsRegion? region
      → read_directory unmarshal empty r region ≢ none
  unfolding read_directory read_message unmarshalled read_full
  read_directory-ne-none r none v fits = λ p. cc
  read_directory-ne-none r (some region) v fits = ground (
    arith,
    v.nil_is_empty,
    in_range r.maximum_offset_bytes region.offset_bytes region.size_bytes v.modest fits.0 fits.1,
  )

  -- Where a valid reader reads a directory, its message lies between the header and the reader's
  -- maximum, and the reader of its children is valid and ends where the message starts. The fields
  -- of the region are an int64 and an int32.
  pub read_directory-IsBelow :
      (r r' : FileReader) (region : Option FileRegion) (m : M)
      → IsValid r
      → IsRegion? region
      → read_directory unmarshal empty r region ≡ some (ok (r', m))
      → IsValid r' × IsBelow r region r'
  unfolding read_directory read_message unmarshalled read_full
  read_directory-IsBelow r r' none m v fits h = ground arith
  read_directory-IsBelow r r' (some region) m v fits h = ground (
    arith,
    v.modest,
    v.nil_is_empty,
    in_range r.maximum_offset_bytes region.offset_bytes region.size_bytes v.modest fits.0 fits.1,
  )

  -- A path of subdirectories of a state file, as a client follows it: every step goes to a
  -- directory that is stored, through the reader that the last step returned.
  pub data Descends (r : FileReader) : ℕ → FileReader → Type 0 where
    here : Descends r 0 r
    down :
        {n : ℕ} {s t : FileReader} (region : FileRegion) (m : M)
        → Descends r n s
        → IsRegion region
        → read_directory unmarshal empty s (some region) ≡ some (ok (t, m))
        → Descends r (suc n) t

  Descends-IsValid :
      {r s : FileReader} {n : ℕ}
      → IsValid r
      → Descends r n s
      → IsValid s × (s.maximum_offset_bytes + n ≤ r.maximum_offset_bytes)
  Descends-IsValid v here = (v, omega arith)
  Descends-IsValid v (down {s = s} {t = t} region m path fits e) =
      let (w, bound) = Descends-IsValid v path in
      let (w', below) = read_directory-IsBelow s t (some region) m w fits e in (w', omega arith)

  -- No state file, whatever its bytes, has cyclic references: a path of stored subdirectories
  -- below a valid reader ends at a reader whose maximum offset is lower by at least the number of
  -- its steps.
  pub Descends-le-maximum :
      (r s : FileReader) (n : ℕ)
      → IsValid r
      → Descends r n s
      → s.maximum_offset_bytes + n ≤ r.maximum_offset_bytes
  Descends-le-maximum r s n v path = (Descends-IsValid v path).1
