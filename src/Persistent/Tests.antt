-- ===== src/Persistent/Tests.antt =====
-- Runs and instances for pkg/filesystem/virtual/persistent_output_path_factory.go.
use Prim.Native.String.{String}
use bb_clientd.Prelude.{
  ℕ, suc, ◌+◌, ◌-◌, ◌≡◌, ◌≢◌, inr, refl, Bool, true, false, Option, none, some, List, [], ◌∷◌,
  arith,
}
use bb_clientd.Prelude.Maps.{lookup, insert, delete}
use bb_clientd.Prelude.Results.{Result, ok}
use bb_clientd.Prelude.Calls.{and_then}
use bb_clientd.StateFile.Format
use bb_clientd.StateFile.Format.{FileRegion}
use bb_clientd.StateFile.Buffered.{
  buffered_write, flush, flushed, offset_write, write_empty, write_rest,
}
use bb_clientd.StateFile.Writer
use bb_clientd.StateFile.Writer.{
  new_file_writer, write_data, write_message, write_header, finalize_region,
}
use bb_clientd.StateFile.Overwrite.{zeros}
use bb_clientd.StateFile.Reader.{FileReader, read_directory}
use bb_clientd.Store
use bb_clientd.Store.{
  DirectoryBackedWriter, StoreError, wrapped, opening_state, get_temporary_name, but_enoent,
  close_writer, write_directory, rename_temporary, close_temporary, sync_temporary,
  create_temporary,
}
use bb_clientd.Store.Directory.{FsError}
use bb_clientd.Store.Memory.{Files, view, held, Opened, file_system, file_system-Is}
use bb_clientd.Persistent.Messages.{Directory, Applied, file, empty_directory}
use bb_clientd.Persistent.Save.{
  Tree, node, leafless, child, append_if_kept, append_leaves, write_child, save_directory_recursive,
}
use bb_clientd.Persistent.Restore.{
  FileTree, RestoreError, restore_leaves, restore_directory_recursive,
}
use bb_clientd.Persistent.Ends.{HasRegions, restore-ends}
use bb_clientd.Persistent.Leaks.{CountsLeaves, held_by, restore_leaves-live}
use bb_clientd.Persistent.Removal.{removal-forgets}
use bb_clientd.Persistent.Stored.{count}
use bb_clientd.Persistent.Factory
use bb_clientd.Persistent.Factory.{
  PersistentOutputPath, open_failed, finish_save, save_output_path, start_initial_build, clean,
  clean_state, remove_all_children,
}
use bb_clientd.Persistent.Backed.{backed_store}
use bb_clientd.Persistent.Filling.{populate}
use bb_clientd.Persistent.Restart.{restart-populate}
use bb_clientd.Persistent.Restart.Opened.{restore_log}
use bb_clientd.Persistent.Codec.{
  marshal, unmarshal, marshal_root, unmarshal_root, trips, root_trips, small, small_root,
}

abbrev any_component : String → Bool
any_component n = true

-- Leaves are digests. The root directory has a status file and one child with one file.
abbrev apply : ℕ → Option (Applied ℕ)
apply digest = some (file digest true)

abbrev tree : Tree ℕ
tree = node (child "a" (node leafless (("f", 7) ∷ [])) leafless) (("stable-status.txt", 8) ∷ [])

abbrev store :
    Factory.Store Files
      (DirectoryBackedWriter Files String)
      (FileReader × String)
      FileReader
      StoreError
      Format.Error
      ℕ
      ℕ
store =
    backed_store (file_system false) marshal unmarshal marshal_root unmarshal_root any_component 100

abbrev output_path : PersistentOutputPath ℕ ℕ
output_path = record { output_path = 0; output_base_id = "out"; initial_creation_time = 1205 }

abbrev files_after : Option (Files × Option (Factory.SaveFailure StoreError Format.Error)) → Files
files_after none = []
files_after (some (w, e)) = w

saved : Files
unfolding save_output_path finish_save backed_store save_directory_recursive append_leaves
    append_if_kept write_child write_directory Store.write get_temporary_name create_temporary
    but_enoent Store.finalize Writer.finalize finalize_region write_message write_data write_header
    buffered_write write_empty write_rest flush flushed offset_write sync_temporary close_temporary
    rename_temporary new_file_writer and_then lookup insert delete
saved = files_after (save_output_path store apply [] output_path tree)

saved_right : save_output_path store apply [] output_path tree ≡ some (saved, none)
unfolding saved
saved_right = refl

-- Output paths that are only counted: a directory is its depth, a leaf its digest.
abbrev counted : FileTree Files ℕ ℕ ℕ ℕ ℕ
counted = record {
  create_and_enter = λ w d name. (w, ok (suc d));
  create_children = λ w d nodes. (w, none);
  unlink = λ w k. w;
  look_up_file = λ w digest is_executable. (w, digest);
  look_up_symlink = λ w target. (w, none);
  is_component = any_component;
  new_digest = λ p. ok p;
}

abbrev start_base : Files → String → Files × ℕ
start_base w base = (w, 0)

abbrev clock_now : Files → ℕ
clock_now w = 1300

restart-populate_example :
    (v : Files) × (r : Result (RestoreError Format.Error ℕ) (Unit {0})) × (populate counted apply
        saved true tree 0
      ≡ some (v, r))
    × (start_initial_build store counted start_base clock_now 102 saved "out"
        ≡ some (
          ((file_system false).close v "out").0,
          record { output_path = 0; output_base_id = "out"; initial_creation_time = 1205 },
          restore_log r,
        ))
unfolding saved lookup
restart-populate_example =
    restart-populate (file_system false) view held Opened (file_system-Is false) apply marshal
      unmarshal marshal_root unmarshal_root any_component 100 trips root_trips refl small counted
      start_base clock_now 102 [] saved saved saved saved output_path tree 0 "out"
      (held saved "out") (unfold count in omega arith)
      (λ x y m bytes wrote e. small_root 1205 m bytes e) (omega arith) (omega arith) saved_right
      refl refl refl (omega arith) refl

-- A reader of a file of zeros, and a message that refers to it.
abbrev hostile : FileReader
hostile = record { raw_reader = some (λ n offset. zeros n); maximum_offset_bytes = 100 }

abbrev no_message : List ℕ → Option (Directory ℕ)
no_message bytes = some empty_directory

abbrev referring : Directory ℕ
referring = record empty_directory {
  directories =
      record { name = "a"; file_region = some (record { offset_bytes = 60; size_bytes = 40 }) }
      ∷ [];
}

no_message-HasRegions :
    (bytes : List ℕ) (m : Directory ℕ) → no_message bytes ≡ some m → HasRegions m.directories
no_message-HasRegions bytes m e = let same : empty_directory ≡ m = cc e in rw (← same) tt

restore-ends_example :
    restore_directory_recursive counted
      (read_directory no_message empty_directory)
      102
      []
      hostile
      referring
      0
    ≢ none
restore-ends_example =
    restore-ends no_message no_message-HasRegions counted 102 [] hostile referring 0
      (record { modest = omega arith; nil_is_empty = λ e. cc }) ((omega arith, omega arith), tt)
      (inr (omega arith))

abbrev removed_base : Files → ℕ → Bool → Files × Option ℕ
removed_base w d forbid = (w, none)

removed_right : remove_all_children store removed_base saved output_path true ≡ ([], none)
unfolding saved remove_all_children clean_state backed_store Store.clean get_temporary_name
    but_enoent lookup delete
removed_right = refl

abbrev cleaned_base : Files → String → Files × Option ℕ
cleaned_base w base = (w, none)

removal-forgets_example :
    (u' : Files) × (e : FsError) × (start_initial_build store counted start_base clock_now 102 []
        "out"
      ≡ some (
        u',
        record { output_path = 0; output_base_id = "out"; initial_creation_time = 1300 },
        open_failed (wrapped (some e) opening_state) ∷ [],
      ))
removal-forgets_example =
    removal-forgets (file_system false) view held Opened (file_system-Is false) marshal unmarshal
      marshal_root unmarshal_root any_component 100 counted start_base clock_now cleaned_base
      removed_base 102 saved [] [] [] output_path 0 (inr removed_right) refl refl

-- A world that is the number of leaves in use, in which no child can be created.
abbrev counting : FileTree ℕ ℕ ℕ ℕ ℕ ℕ
counting = record {
  create_and_enter = λ w d name. (w, ok d);
  create_children = λ w d nodes. (w, some 13);
  unlink = λ w k. w - 1;
  look_up_file = λ w digest is_executable. (suc w, digest);
  look_up_symlink = λ w target. (w, none);
  is_component = any_component;
  new_digest = λ p. ok p;
}

counting-CountsLeaves : CountsLeaves counting (λ w. w)
counting-CountsLeaves = record {
  file_lem = λ w digest x. refl;
  symlink_found = λ w target k e. cc;
  symlink_missing = λ w target e. refl;
  unlink_lem = λ w k. refl;
  create_lem = λ w d nodes. refl;
}

abbrev with_file : Directory ℕ
with_file = record empty_directory {
  files = record { name = "f"; digest = 7; is_executable = true } ∷ [];
}

restore_leaves-live_example :
    (restore_leaves {E = ℕ} counting 3 with_file 0).0
    ≡ 3 + held_by 1 (restore_leaves {E = ℕ} counting 3 with_file 0).1
restore_leaves-live_example =
    restore_leaves-live ℕ counting (λ w. w) counting-CountsLeaves 3 with_file 0
