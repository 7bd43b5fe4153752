-- ===== src/Persistent/Restart.antt =====
-- The next StartInitialBuild() of pkg/filesystem/virtual/persistent_output_path_factory.go after a
-- build whose output path was saved.
pub mod Opened
use Prim.Native.String.{String}
use mathlib.Core.Path.{subst}
use bb_clientd.Prelude.{
  ℕ, ◌+◌, ◌*◌, ◌^◌, ◌<◌, ◌≤◌, ◌≡◌, inl, inr, ap, ◌∙◌, Bool, true, Option, none, some, Option-cases,
  List, [], length,
}
use bb_clientd.Prelude.Results.{Result, ok}
use bb_clientd.StateFile.Format.{RoundTrips, IsReaderAt, region_or_zero}
use bb_clientd.StateFile.Writer.Holds.{region_of}
use bb_clientd.StateFile.Reader.{FileReader}
use bb_clientd.StateFile.Reader.Bounds.{IsModest}
use bb_clientd.StateFile.Reader.Stored.{reader_below}
use bb_clientd.Store.Directory.{FileSystem, IsFileSystem}
use bb_clientd.Store.Persisted.{read_opened}
use bb_clientd.Store
use bb_clientd.Store.{DirectoryBackedWriter, StoreError}
use bb_clientd.StateFile.Format
use bb_clientd.Persistent.Factory
use bb_clientd.Persistent.Messages.{Directory, Applied, empty_directory}
use bb_clientd.Persistent.Save.{Tree, save_directory_recursive}
use bb_clientd.Persistent.Stored.{count}
use bb_clientd.Persistent.Restore.{FileTree, RestoreError}
use bb_clientd.Persistent.Filling.{populate}
use bb_clientd.Persistent.Filling.Runs.{populate-ne-none}
use bb_clientd.Persistent.Factory.{
  RootDirectory, PersistentOutputPath, save_output_path, start_initial_build, after_restore,
}
use bb_clientd.Persistent.Backed.{backed_store}
use bb_clientd.Persistent.RoundTrip.{root_of, state_file_of, saved_state}
use bb_clientd.Persistent.Restart.Opened.{
  restore_log, new_file_reader-file, restore-saved, start_opened, after_restore-closed,
}

module _ {W H L Stamp P : Type 0} (fs : FileSystem W H) (view : W → String → Option (List ℕ))
    (held : W → H → List ℕ) (Opened : W → H → String → Type 0)
    (laws : IsFileSystem fs view held Opened) (apply : L → Option (Applied P))
    (marshal : Directory P → Option (List ℕ)) (unmarshal : List ℕ → Option (Directory P))
    (marshal_root : RootDirectory Stamp P → Option (List ℕ))
    (unmarshal_root : List ℕ → Option (RootDirectory Stamp P)) (is_component : String → Bool)
    (maximum : ℕ) (trips : RoundTrips marshal unmarshal)
    (root_trips : RoundTrips marshal_root unmarshal_root)
    (no_fields : unmarshal [] ≡ some empty_directory)
    (small : (m : Directory P) (bytes : List ℕ)
      → marshal m ≡ some bytes
      → length bytes < 2 ^ 31) where
  abbrev store :
      Factory.Store W
        (DirectoryBackedWriter W H)
        (FileReader × H)
        FileReader
        StoreError
        Format.Error
        Stamp
        P
  store = backed_store fs marshal unmarshal marshal_root unmarshal_root is_component maximum

  module _ {D K Digest X : Type 0} (t : FileTree W D K P Digest X) (start_base : W → String → W × D)
      (clock_now : W → Stamp) where
    -- A build's output path with fewer than 2 ^ 31 directories is saved with no error. When the
    -- next StartInitialBuild() for its output base ID finds the state file as it was left and can
    -- open it, it does not panic: it makes the calls of filling the new output path from the tree
    -- that was saved, less the status files of its root, in order. Each directory is created,
    -- entered and filled; then its files and symbolic links are made and handed over to it, and
    -- they are unlinked if one of them or the hand-over fails. StartInitialBuild() then closes the
    -- state file and returns an output path with the creation time of the saved one, and it logs
    -- the error of the filling, if there is one, and nothing else. The reader's maximum admits the
    -- file, the fuel exceeds it, no message exceeds an int32, that of the root directory that is
    -- saved is not empty, the directory and its files behave as documented, and what was
    -- marshalled is unmarshalled to the same message.
    pub restart-populate :
        (fuel : ℕ) (w0 w u0 u u' : W) (op : PersistentOutputPath D Stamp) (children : Tree L)
        (d : D) (h : H) (c : List ℕ)
        → 16 + 2 ^ 31 * (count children + 2) ≤ 2 ^ 63
        → ((x y : DirectoryBackedWriter W H) (m : Directory P) (bytes : List ℕ)
            → save_directory_recursive apply store.write_directory x true children ≡ some (y, ok m)
            → marshal_root (root_of op.initial_creation_time m) ≡ some bytes
            → (length bytes < 2 ^ 31) × (0 < length bytes))
        → IsModest maximum
        → maximum + 1 < fuel
        → save_output_path store apply w0 op children ≡ some (w, none)
        → start_base u0 op.output_base_id ≡ (u, d)
        → view u op.output_base_id ≡ view w op.output_base_id
        → view u op.output_base_id ≡ some c
        → length c ≤ maximum
        → fs.open_read u op.output_base_id ≡ (u', ok h)
        → (v : W) × (r : Result (RestoreError Format.Error X) (Unit {0})) × (populate t apply u'
              true children d
            ≡ some (v, r))
          × (start_initial_build store t start_base clock_now fuel u0 op.output_base_id
              ≡ some (
                (fs.close v h).0,
                record {
                  output_path = d;
                  output_base_id = op.output_base_id;
                  initial_creation_time = op.initial_creation_time;
                },
                restore_log r,
              ))
    restart-populate fuel w0 w u0 u u' op children d h c few sizes modest enough saved started
          same_view is_c fits opened =
        let base = op.output_base_id in
        let time = op.initial_creation_time in
        let (x, y, m, body, root_bytes, wrote, marshalled, stored, in_file) =
          saved_state fs view held Opened laws apply marshal unmarshal marshal_root unmarshal_root
            is_component maximum trips root_trips no_fields small w0 w op children few
            (λ x y m bytes s e. (sizes x y m bytes s e).0) saved in
        let (short, pos) = sizes x y m root_bytes wrote marshalled in
        let same_c : c ≡ state_file_of body root_bytes = cc (is_c, same_view, in_file) in
        let same_held : held u' h ≡ state_file_of body root_bytes =
          cc (laws.open_read_held u u' base h opened, same_view, in_file) in
        let fits' : length (state_file_of body root_bytes) ≤ maximum =
          subst (λ b. length b ≤ maximum) same_c fits in
        let readable : IsReaderAt (fs.read_at u' h) (state_file_of body root_bytes) =
          subst (IsReaderAt (fs.read_at u' h)) same_held (laws.read_at_lem u' h) in
        let reader =
          reader_below (fs.read_at u' h)
            (some (region_or_zero (region_of (16 + length body) root_bytes))) in
        let found =
          read_opened fs view held Opened laws unmarshal_root u u' base h maximum reader
            (root_of time m) opened
            (new_file_reader-file fs view held Opened laws apply marshal unmarshal marshal_root
              unmarshal_root is_component maximum trips root_trips no_fields small (fs.read_at u' h)
              body root_bytes (root_of time m) marshalled short pos modest fits' readable) in
        let restored =
          restore-saved fs view held Opened laws apply marshal unmarshal marshal_root unmarshal_root
            is_component maximum trips root_trips no_fields small t start_base clock_now fuel u' u'
            h body root_bytes m children d same_held short pos modest fits' enough stored in
        let after = after_restore store t start_base clock_now base d (reader, h) (some time) in
        elim (Option-cases (populate t apply u' true children d)) [
          | inl panics ↦ absurd (
              populate-ne-none apply t unmarshal body (16 + length body) true m children u' d stored
                panics)
          | inr ((v, r), fills) ↦ (
            v,
            r,
            fills,
            start_opened fs view held Opened laws apply marshal unmarshal marshal_root
                  unmarshal_root is_component maximum trips root_trips no_fields small t start_base
                  clock_now fuel u0 u u' base d h reader time m started found
                ∙ ap after (restored ∙ fills)
                ∙ after_restore-closed fs view held Opened laws apply marshal unmarshal marshal_root
                    unmarshal_root is_component maximum trips root_trips no_fields small t
                    start_base clock_now base d reader h time v r,
          )
        ]
