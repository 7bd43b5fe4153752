-- ===== src/StateFile/Tests.antt =====
-- Runs and instances for the state files of pkg/outputpathpersistency.
use bb_clientd.Prelude.{
  ℕ, ◌+◌, ◌≤◌, ◌≡◌, ◌≢◌, refl, sym, false, Option, none, some, List, [], ◌∷◌, length, take, drop,
  arith,
}
use bb_clientd.Prelude.Results.{ok}
use bb_clientd.StateFile.Overwrite.{overwrite, zeros}
use bb_clientd.StateFile.Format.{WriteAt, IsWriterAt, FileRegion, RoundTrips}
use bb_clientd.StateFile.Buffered.{
  buffered_write, flush, flushed, offset_write, write_empty, write_rest,
}
use bb_clientd.StateFile.Writer.{
  FileWriter, new_file_writer, write_data, write_message, write_header, finalize_region, finalize,
}
use bb_clientd.StateFile.Reader.{
  FileReader, new_file_reader, read_directory, read_message, read_full, is_out_of_range,
  unmarshalled,
}
use bb_clientd.StateFile.Reader.Bounds.{
  IsValid, IsBelow, here, down, read_directory-ne-none, read_directory-IsBelow, Descends-le-maximum,
}
use bb_clientd.StateFile.RoundTrip.{start, next, Session, session_round_trip}

-- A file in memory, on which no write fails.
abbrev write_at : List ℕ → List ℕ → ℕ → WriteAt (List ℕ)
write_at f p offset = record { file = overwrite f p offset; count = length p; failed = false }

abbrev contents : List ℕ → List ℕ
contents f = f

write_at-IsWriterAt : IsWriterAt write_at contents
write_at-IsWriterAt = record {
  count_lem = λ f p offset fine. refl;
  contents_lem = λ f p offset fine. refl;
}

-- Messages are their own bytes.
abbrev marshal : List ℕ → Option (List ℕ)
marshal m = some m

w0 : FileWriter (List ℕ)
unfolding new_file_writer
w0 = new_file_writer []

w1 : FileWriter (List ℕ)
unfolding w0 write_message write_data buffered_write write_empty write_rest
w1 = (write_message write_at w0 (some (7 ∷ 8 ∷ []))).0

w2 : FileWriter (List ℕ)
unfolding w1
w2 = (write_message write_at w1 (some (1 ∷ 2 ∷ 3 ∷ []))).0

w3 : FileWriter (List ℕ)
unfolding w2
w3 = (write_message write_at w2 (some (9 ∷ []))).0

w4 : FileWriter (List ℕ)
unfolding w3 finalize finalize_region write_header flush flushed offset_write
w4 = (finalize write_at w3 (some (5 ∷ 6 ∷ []))).0

abbrev region : Option FileRegion
region = some (record { offset_bytes = 18; size_bytes = 3 })

trips : RoundTrips marshal marshal
trips m bytes e = sym e

session :
    Session write_at contents write_at-IsWriterAt marshal marshal marshal marshal trips trips
      (1 ∷ 2 ∷ 3 ∷ [])
      (5 ∷ 6 ∷ [])
unfolding w4
session = record {
  file = [];
  is_new = refl;
  before = 2;
  w1 = w1;
  wrote_before =
      next 2 0 (7 ∷ 8 ∷ []) (some (record { offset_bytes = 16; size_bytes = 2 })) refl start refl;
  bytes = 1 ∷ 2 ∷ 3 ∷ [];
  marshalled = refl;
  w2 = w2;
  region = region;
  wrote = refl;
  after = 1;
  w3 = w3;
  wrote_after =
      next 1 0 (9 ∷ []) (some (record { offset_bytes = 21; size_bytes = 1 })) refl start refl;
  root_bytes = 5 ∷ 6 ∷ [];
  root_marshalled = refl;
  w4 = w4;
  finalized = refl;
}

-- The file that the session leaves, as a reader sees it.
abbrev read_at : ℕ → ℕ → List ℕ
unfolding w4
read_at n offset = take n (drop offset (contents w4.buffered_writer.file))

session_round_trip_example :
    (r r' : FileReader) × (new_file_reader marshal read_at 100 ≡ some (ok (r, 5 ∷ 6 ∷ [])))
    × (read_directory marshal [] r region ≡ some (ok (r', 1 ∷ 2 ∷ 3 ∷ [])))
unfolding session
session_round_trip_example =
    session_round_trip write_at contents write_at-IsWriterAt marshal marshal marshal marshal trips
      trips (1 ∷ 2 ∷ 3 ∷ []) (5 ∷ 6 ∷ []) session [] read_at 100 refl (λ n offset. refl)
      (omega arith) (omega arith) (omega arith) (omega arith) (omega arith)

-- A hostile file of zeros, of which every message parses.
abbrev hostile : FileReader
hostile = record { raw_reader = some (λ n offset. zeros n); maximum_offset_bytes = 100 }

hostile-IsValid : IsValid hostile
hostile-IsValid = record { modest = omega arith; nil_is_empty = λ e. cc }

abbrev inner : FileReader
inner = record { raw_reader = some (λ n offset. zeros n); maximum_offset_bytes = 60 }

read_directory-ne-none_example :
    read_directory marshal [] (record { raw_reader = none; maximum_offset_bytes = 0 }) region ≢ none
read_directory-ne-none_example =
    read_directory-ne-none marshal [] (record { raw_reader = none; maximum_offset_bytes = 0 })
      region (record { modest = omega arith; nil_is_empty = λ e. refl }) (omega arith)

abbrev inner_region : FileRegion
inner_region = record { offset_bytes = 60; size_bytes = 40 }

inner_read : read_directory marshal [] hostile (some inner_region) ≡ some (ok (inner, zeros 40))
unfolding read_directory read_message unmarshalled read_full is_out_of_range
inner_read = refl

read_directory-IsBelow_example : IsValid inner × IsBelow hostile (some inner_region) inner
read_directory-IsBelow_example =
    read_directory-IsBelow marshal [] hostile inner (some inner_region) (zeros 40) hostile-IsValid
      (omega arith) inner_read

Descends-le-maximum_example : inner.maximum_offset_bytes + 1 ≤ hostile.maximum_offset_bytes
Descends-le-maximum_example =
    Descends-le-maximum marshal [] hostile inner 1 hostile-IsValid
      (down inner_region (zeros 40) here (omega arith) inner_read)
