-- ===== src/Store/Tests.antt =====
-- Runs and instances for the stores of pkg/outputpathpersistency.
use Prim.Native.String.{String}
use bb_clientd.Prelude.{
  ℕ, suc, ◌≡◌, ◌≢◌, ◌⊎◌, refl, sym, Bool, true, false, Option, none, some, List, [], ◌∷◌, arith,
}
use bb_clientd.Prelude.Maps.{lookup, insert, delete}
use bb_clientd.Prelude.Integers.{pos}
use bb_clientd.Prelude.Results.{Result, ok, err}
use bb_clientd.StateFile.Format.{RoundTrips, FileRegion}
use bb_clientd.StateFile.Buffered.{
  buffered_write, flush, flushed, offset_write, write_empty, write_rest,
}
use bb_clientd.StateFile.Writer
use bb_clientd.StateFile.Writer.{
  FileWriter, new_file_writer, write_data, write_message, write_header, finalize_region,
}
use bb_clientd.StateFile.Reader.{FileReader, read_directory}
use bb_clientd.StateFile.RoundTrip.{start}
use bb_clientd.Store.{
  DirectoryBackedWriter, get_temporary_name, but_enoent, close_writer, write_directory,
  rename_temporary, close_temporary, sync_temporary, finalize, create_temporary, write, read, clean,
}
use bb_clientd.Store.Untouched.{temporary_of, SameBut, Session, started, wrote}
use bb_clientd.Store.Atomic.{Outcome, final_contents, session-Outcome}
use bb_clientd.Store.Persisted.{Run, store_round_trip}
use bb_clientd.Store.Cleaning.{OthersSame, clean-forgets}
use bb_clientd.Store.Age.{outside_epoch}
use bb_clientd.Store.Age.Windows.{InEpoch, aged_read, maximum_age_read-InEpoch}
use bb_clientd.Store.Memory.{Files, view, held, Opened, file_system, file_system-Is}

abbrev any_component : String → Bool
any_component n = true

-- An old state file, and a temporary file that a crash has left.
abbrev old : Files
old = ("out", 9 ∷ []) ∷ ("out.tmp", 1 ∷ 2 ∷ []) ∷ []

abbrev started_files : Files
started_files = ("out", 9 ∷ []) ∷ ("out.tmp", []) ∷ []

abbrev first : DirectoryBackedWriter Files String
unfolding new_file_writer
first = record {
  output_base_id = "out";
  temporary_name = "out.tmp";
  writer = new_file_writer (record { world = started_files; handle = "out.tmp" });
}

first_opened :
    (fails : Bool) → write (file_system fails) any_component old "out" ≡ (started_files, ok first)
unfolding write get_temporary_name create_temporary but_enoent lookup insert delete first
first_opened fails = refl

first_session :
    Session
      (file_system true)
      view
      held
      Opened
      (file_system-Is true)
      any_component
      old
      "out"
      (write_directory (file_system true) first (some (7 ∷ []))).0
first_session = wrote (some (7 ∷ [])) (started started_files (first_opened true))

session-Outcome_example :
    Outcome
      (file_system true)
      view
      held
      Opened
      (file_system-Is true)
      old
      "out"
      (temporary_of "out")
      (some (
        final_contents
          (file_system true)
          view
          held
          Opened
          (file_system-Is true)
          (write_directory (file_system true) first (some (7 ∷ []))).0
          (some (5 ∷ 6 ∷ []))))
      (finalize
        (file_system true)
        (write_directory (file_system true) first (some (7 ∷ []))).0
        (some (5 ∷ 6 ∷ [])))
    × SameBut
        (file_system true)
        view
        held
        Opened
        (file_system-Is true)
        old
        (temporary_of "out")
        (close_writer
          (file_system true)
          (write_directory (file_system true) first (some (7 ∷ []))).0).0
session-Outcome_example =
    session-Outcome (file_system true) view held Opened (file_system-Is true) any_component
      first_session (some (5 ∷ 6 ∷ []))

-- Messages are their own bytes.
abbrev marshal : List ℕ → Option (List ℕ)
marshal m = some m

trips : RoundTrips marshal marshal
trips m bytes e = sym e

second : DirectoryBackedWriter Files String
unfolding first new_file_writer write_directory write_message write_data buffered_write write_empty
    write_rest
second = (write_directory (file_system false) first (some (1 ∷ 2 ∷ 3 ∷ []))).0

saved : Files
unfolding second finalize Writer.finalize finalize_region write_message write_data write_header
    buffered_write write_empty write_rest flush flushed offset_write sync_temporary close_temporary
    rename_temporary lookup insert delete
saved = (finalize (file_system false) second (some (5 ∷ 6 ∷ []))).0

abbrev region : Option FileRegion
region = some (record { offset_bytes = 16; size_bytes = 3 })

run :
    Run
      (file_system false)
      view
      held
      Opened
      (file_system-Is false)
      marshal
      marshal
      marshal
      marshal
      trips
      trips
      any_component
      old
      "out"
      (1 ∷ 2 ∷ 3 ∷ [])
      (5 ∷ 6 ∷ [])
unfolding saved first new_file_writer write_directory write_message write_data buffered_write
    write_empty write_rest finalize Writer.finalize
run = record {
  w1 = started_files;
  x = first;
  opened = first_opened false;
  before = 0;
  v1 = first.writer;
  wrote_before = start;
  bytes = 1 ∷ 2 ∷ 3 ∷ [];
  marshalled = refl;
  v2 = second.writer;
  region = region;
  wrote = refl;
  after = 0;
  v3 = second.writer;
  wrote_after = start;
  root_bytes = 5 ∷ 6 ∷ [];
  root_marshalled = refl;
  w2 = saved;
  finalized = refl;
}

store_round_trip_example :
    (r r' : FileReader) × (read (file_system false) marshal 100 saved "out"
      ≡ some (saved, ok (r, "out", 5 ∷ 6 ∷ [])))
    × (read_directory marshal [] r region ≡ some (ok (r', 1 ∷ 2 ∷ 3 ∷ [])))
unfolding run lookup
store_round_trip_example =
    store_round_trip (file_system false) view held Opened (file_system-Is false) marshal marshal
      marshal marshal trips trips any_component old saved "out" "out" (1 ∷ 2 ∷ 3 ∷ []) (5 ∷ 6 ∷ [])
      run [] 100 refl refl (omega arith) (omega arith) (omega arith) (omega arith) (omega arith)

cleaned : clean (file_system false) any_component old "out" ≡ ([], none)
unfolding clean get_temporary_name but_enoent lookup delete
cleaned = refl

clean-forgets_example :
    (view [] "out" ≡ none)
    × (view [] (temporary_of "out") ≡ none)
    × OthersSame (file_system false) view held Opened (file_system-Is false) old "out" []
    × (read (file_system false) marshal 100 [] "out"
        ≢ some ([], ok (record { raw_reader = none; maximum_offset_bytes = 0 }, "out", 5 ∷ 6 ∷ [])))
clean-forgets_example =
    clean-forgets (file_system false) view held Opened (file_system-Is false) any_component marshal
      100 old [] [] "out"
      (record { raw_reader = none; maximum_offset_bytes = 0 }, "out", 5 ∷ 6 ∷ []) cleaned

-- A store whose readers count how often they were closed. Its state file is from the time 1205.
abbrev base_read : ℕ → String → Option (ℕ × Result (Unit {0}) (Unit {0} × ℕ))
base_read w base = some (w, ok (tt, 1205))

maximum_age_read-InEpoch_example :
    (((e : ℕ) × InEpoch 100 e 1205 × InEpoch 100 e 1299)
      × (aged_read base_read (λ w r. suc w) (λ root. root) (λ s. true) (λ s. s) pos 99 1299 0 "out"
          ≡ some (0, ok (tt, 1205))))
    ⊎ (((e : ℕ) → ¬ (InEpoch 100 e 1205 × InEpoch 100 e 1299))
        × (aged_read base_read
              (λ w r. suc w)
              (λ root. root)
              (λ s. true)
              (λ s. s)
              pos
              99
              1299
              0
              "out"
            ≡ some (1, err outside_epoch)))
maximum_age_read-InEpoch_example =
    maximum_age_read-InEpoch base_read (λ w r. suc w) (λ root. root) (λ s. true) (λ s. s) pos 99
      1299 0 0 "out" tt 1205 1205 1299 refl refl refl refl
