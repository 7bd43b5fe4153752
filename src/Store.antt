-- ===== src/Store.antt =====
-- directoryBackedStore and directoryBackedWriter of
-- pkg/outputpathpersistency/directory_backed_store.go.
--
-- filesystem.Directory and the files that it opens are in another repository: they are a record of
-- operations on a world `W` and file handles `H`. The world changes also when a call fails. A path
-- component is its string, and the test of path.NewComponent() is an argument.
pub mod Directory
pub mod Untouched
pub mod Atomic
pub mod Persisted
pub mod Cleaning
pub mod Age
pub mod Memory
mod Tests
use Prim.Native.String.{String, ◌++◌ as str_append}
use bb_clientd.Prelude.{ℕ, Bool, Option, none, some, List, if◌then◌else◌}
use bb_clientd.Prelude.Results.{Result, ok, err}
use bb_clientd.StateFile.Format
use bb_clientd.StateFile.Format.{WriteAt, FileRegion}
use bb_clientd.StateFile.Writer
use bb_clientd.StateFile.Writer.{FileWriter, new_file_writer, write_message}
use bb_clientd.StateFile.Reader.{FileReader, new_file_reader}
use bb_clientd.Store.Directory.{FileSystem, FsError, enoent, other}

-- What util.StatusWrap() says beside the error that it wraps.
pub data Wrapping : Type 0 where
  opening_state removing_state creating_temporary removing_temporary : Wrapping
  synchronizing_temporary closing_temporary renaming_temporary : Wrapping

-- `wrapped` is a call of util.StatusWrap() with its arguments, the first of which may be nil.
pub data StoreError : Type 0 where
  invalid_temporary_name : StoreError
  state_file : Format.Error → StoreError
  wrapped : Option FsError → Wrapping → StoreError

-- temporaryFile, in the world that holds it. The offset writer under the file writer and the
-- field of directoryBackedWriter stand for one object.
pub record OpenFile (W H : Type 0) : Type 0 where
  pub world : W
  pub handle : H

-- directoryBackedWriter. The directory and the temporary file are in `writer`.
pub record DirectoryBackedWriter (W H : Type 0) : Type 0 where
  pub output_base_id : String
  pub temporary_name : String
  pub writer : FileWriter (OpenFile W H)

abbrev pub world_of : {W H : Type 0} → DirectoryBackedWriter W H → W
world_of x = x.writer.buffered_writer.file.world

-- getTemporaryName()
unfoldable pub get_temporary_name : (String → Bool) → String → Result StoreError String
get_temporary_name is_component output_base_id =
    if is_component (str_append output_base_id ".tmp")
    then ok (str_append output_base_id ".tmp")
    else err invalid_temporary_name

-- err != nil && err != syscall.ENOENT
unfoldable pub but_enoent : Option FsError → Option FsError
but_enoent none = none
but_enoent (some enoent) = none
but_enoent (some (other n)) = some (other n)

-- The error of Close(). Where only the removal failed, it wraps err1, which is nil there.
unfoldable pub close_error : Option FsError → Option FsError → Option StoreError
close_error (some e) err2 = some (wrapped (some e) closing_temporary)
close_error none err2 = elim (but_enoent err2) [
  | none ↦ none
  | some e ↦ some (wrapped none removing_temporary)
]

module _ {W H : Type 0} (fs : FileSystem W H) where
  -- WriteAt() of the temporary file.
  abbrev pub file_write_at : OpenFile W H → List ℕ → ℕ → WriteAt (OpenFile W H)
  file_write_at f p offset =
      let (w, count, failed) = fs.write_at f.world f.handle p offset in
      record { file = record f { world = w }; count = count; failed = failed }

  -- Close()
  unfoldable pub close_writer : DirectoryBackedWriter W H → W × Option StoreError
  close_writer x =
      let (w1, err1) = fs.close (world_of x) x.writer.buffered_writer.file.handle in
      let (w2, err2) = fs.remove w1 x.temporary_name in (w2, close_error err1 err2)

  -- WriteDirectory(), after proto.Marshal()
  unfoldable pub write_directory :
      DirectoryBackedWriter W H
      → Option (List ℕ)
      → DirectoryBackedWriter W H × Result Format.Error (Option FileRegion)
  write_directory x message =
      let (v, r) = write_message file_write_at x.writer message in (record x { writer = v }, r)

  -- Finalize() from the renaming on.
  unfoldable pub rename_temporary : DirectoryBackedWriter W H → W → W × Option StoreError
  rename_temporary x w =
      let (w1, e) = fs.rename w x.temporary_name x.output_base_id in
      elim e [
        | none ↦ (w1, none)
        | some e' ↦ ((fs.remove w1 x.temporary_name).0, some (wrapped (some e') renaming_temporary))
      ]

  -- Finalize() from closing the temporary file on.
  unfoldable pub close_temporary : DirectoryBackedWriter W H → W → W × Option StoreError
  close_temporary x w =
      let (w1, e) = fs.close w x.writer.buffered_writer.file.handle in
      elim e [
        | none ↦ rename_temporary x w1
        | some e' ↦ ((fs.remove w1 x.temporary_name).0, some (wrapped (some e') closing_temporary))
      ]

  abbrev pub with_world : DirectoryBackedWriter W H → W → DirectoryBackedWriter W H
  with_world x w = record x {
    writer = record (x.writer) {
      buffered_writer = record (x.writer.buffered_writer) {
        file = record (x.writer.buffered_writer.file) { world = w };
      };
    };
  }

  -- Finalize() from the synchronization on.
  unfoldable pub sync_temporary : DirectoryBackedWriter W H → W × Option StoreError
  sync_temporary x =
      let (w1, e) = fs.sync (world_of x) x.writer.buffered_writer.file.handle in
      elim e [
        | none ↦ close_temporary x w1
        | some e' ↦
            ((close_writer (with_world x w1)).0, some (wrapped (some e') synchronizing_temporary))
      ]

  -- Finalize(), after proto.Marshal()
  unfoldable pub finalize : DirectoryBackedWriter W H → Option (List ℕ) → W × Option StoreError
  finalize x root =
      let (v, r) = Writer.finalize file_write_at x.writer root in
      elim r [
        | ok u ↦ sync_temporary (record x { writer = v })
        | err e ↦ ((close_writer (record x { writer = v })).0, some (state_file e))
      ]

  -- Write() from the creation of the temporary file on.
  unfoldable pub create_temporary :
      W → String → String → W × Result StoreError (DirectoryBackedWriter W H)
  create_temporary w output_base_id temporary_name =
      let (w1, r) = fs.open_write w temporary_name in
      elim r [
        | err e ↦ (w1, err (wrapped (some e) creating_temporary))
        | ok h ↦ (
          w1,
          ok (record {
            output_base_id = output_base_id;
            temporary_name = temporary_name;
            writer = new_file_writer (record { world = w1; handle = h });
          }),
        )
      ]

  -- Read(): the handle is what closes the reader. The file under a reader does not change: a
  -- state file is only ever replaced.
  unfoldable pub read :
      {R : Type 0}
      → (List ℕ → Option R)
      → ℕ
      → W
      → String
      → Option (W × Result StoreError (FileReader × H × R))
  read unmarshal_root maximum w output_base_id =
      let (w1, r) = fs.open_read w output_base_id in
      elim r [
        | err e ↦ some (w1, err (wrapped (some e) opening_state))
        | ok h ↦ elim (new_file_reader unmarshal_root (fs.read_at w1 h) maximum) [
          | none ↦ none
          | some (err e) ↦ some ((fs.close w1 h).0, err (state_file e))
          | some (ok (reader, root)) ↦ some (w1, ok (reader, h, root))
        ]
      ]

  module _ (is_component : String → Bool) where
    -- Write()
    unfoldable pub write : W → String → W × Result StoreError (DirectoryBackedWriter W H)
    write w output_base_id = elim (get_temporary_name is_component output_base_id) [
      | err e ↦ (w, err e)
      | ok temporary_name ↦
          let (w1, e) = fs.remove w temporary_name in
          elim (but_enoent e) [
            | some e' ↦ (w1, err (wrapped (some e') removing_temporary))
            | none ↦ create_temporary w1 output_base_id temporary_name
          ]
    ]

    -- Clean()
    unfoldable pub clean : W → String → W × Option StoreError
    clean w output_base_id = elim (get_temporary_name is_component output_base_id) [
      | err e ↦ (w, some e)
      | ok temporary_name ↦
          let (w1, e1) = fs.remove w output_base_id in
          elim (but_enoent e1) [
            | some e ↦ (w1, some (wrapped (some e) removing_state))
            | none ↦
                let (w2, e2) = fs.remove w1 temporary_name in
                elim (but_enoent e2) [
                  | some e ↦ (w2, some (wrapped (some e) removing_temporary))
                  | none ↦ (w2, none)
                ]
          ]
    ]
