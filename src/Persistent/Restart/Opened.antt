-- ===== src/Persistent/Restart/Opened.antt =====
-- StartInitialBuild() of pkg/filesystem/virtual/persistent_output_path_factory.go, step by step,
-- on a state file that was saved.
use Prim.Native.String.{String}
use mathlib.Core.Path.{subst}
use bb_clientd.Prelude.{
  ℕ, ◌+◌, ◌^◌, ◌<◌, ◌≤◌, ◌≡◌, inl, inr, refl, ap, Bool, true, Option, some, List, [], ◌∷◌, ◌++◌,
  length, length-append, arith,
}
use bb_clientd.Prelude.Results.{Result, ok, err}
use bb_clientd.StateFile.Format.{RoundTrips, FileRegion, IsReaderAt, encode_header, region_or_zero}
use bb_clientd.StateFile.Writer.Holds.{region_of}
use bb_clientd.StateFile.Reader.{FileReader, new_file_reader, read_directory}
use bb_clientd.StateFile.Reader.Bounds.{IsModest}
use bb_clientd.StateFile.Reader.Stored.{reader_below, new_file_reader-Stands}
use bb_clientd.StateFile.RoundTrip.{
  region_or_zero-Stands, end_of-region_or_zero, region_or_zero-offset,
}
use bb_clientd.Store.Directory.{FileSystem, IsFileSystem}
use bb_clientd.Store
use bb_clientd.Store.{DirectoryBackedWriter, StoreError}
use bb_clientd.StateFile.Format
use bb_clientd.Persistent.Factory
use bb_clientd.Persistent.Messages.{Directory, Applied, empty_directory}
use bb_clientd.Persistent.Save.{Tree}
use bb_clientd.Persistent.Stored.{StoredDir, StoredDir-append}
use bb_clientd.Persistent.Restore.{FileTree, RestoreError, restore_directory_recursive}
use bb_clientd.Persistent.Filling.{populate}
use bb_clientd.Persistent.Populate.{restore-populate}
use bb_clientd.Persistent.Factory.{
  RootDirectory, PersistentOutputPath, Logged, restore_failed, save_output_path,
  start_initial_build, restore_state, after_restore,
}
use bb_clientd.Persistent.Backed.{backed_store, regroup}
use bb_clientd.Persistent.RoundTrip.{root_of, state_file_of}

-- The log of a restoration: its error, if it has one.
abbrev pub restore_log :
    {X : Type 0}
    → Result (RestoreError Format.Error X) (Unit {0})
    → List (Logged StoreError Format.Error X)
restore_log (ok u) = []
restore_log (err e) = restore_failed e ∷ []

module _ {W H L Stamp P : Type 0} (fs : FileSystem W H) (view : W → String → Option (List ℕ))
    (held : W → H → List ℕ) (Opened : W → H → String → Type 0)
    (laws : IsFileSystem fs view held Opened) (apply : L → Option (Applied P))
    (marshal : Directory P → Option (List ℕ)) (unmarshal : List ℕ → Option (Directory P))
    (marshal_root : RootDirectory Stamp P → Option (List ℕ))
    (unmarshal_root : List ℕ → Option (RootDirectory Stamp P)) (is_component : String → Bool)
    (maximum : ℕ) (trips : RoundTrips marshal unmarshal)
    (root_trips : RoundTrips marshal_root unmarshal_root)
    (no_fields : unmarshal [] ≡ some empty_directory)
    (small : (m : Directory P) (bytes : List ℕ)
      → marshal m ≡ some bytes
      → length bytes < 2 ^ 31) where
  -- The state file is opened at its root directory, which has a reader for its children.
  pub new_file_reader-file :
      (read_at : ℕ → ℕ → List ℕ) (body root_bytes : List ℕ) (root : RootDirectory Stamp P)
      → marshal_root root ≡ some root_bytes
      → length root_bytes < 2 ^ 31
      → 0 < length root_bytes
      → IsModest maximum
      → length (state_file_of body root_bytes) ≤ maximum
      → IsReaderAt read_at (state_file_of body root_bytes)
      → new_file_reader unmarshal_root read_at maximum
        ≡ some (
            ok (
              reader_below read_at
                  (some (region_or_zero (region_of (16 + length body) root_bytes))),
              root,
            ))
  new_file_reader-file read_at body root_bytes root marshalled short pos modest fits law =
      new_file_reader-Stands unmarshal_root read_at (body ++ root_bytes) root_bytes
        (region_or_zero (region_of (16 + length body) root_bytes)) root maximum law
        (region_or_zero-Stands body root_bytes short pos) (root_trips root root_bytes marshalled)
        modest
        (omega (arith, end_of-region_or_zero body root_bytes short, length-append body root_bytes))

  abbrev store :
      Factory.Store W
        (DirectoryBackedWriter W H)
        (FileReader × H)
        FileReader
        StoreError
        Format.Error
        Stamp
        P
  store = backed_store fs marshal unmarshal marshal_root unmarshal_root is_component maximum

  module _ {D K Digest X : Type 0} (t : FileTree W D K P Digest X) (start_base : W → String → W × D)
      (clock_now : W → Stamp) where
    -- Restoring from the reader that the state file is opened with.
    pub restore-saved :
        (fuel : ℕ) (u v : W) (h : H) (body root_bytes : List ℕ) (m : Directory P)
        (children : Tree L) (d : D)
        → held u h ≡ state_file_of body root_bytes
        → length root_bytes < 2 ^ 31
        → 0 < length root_bytes
        → IsModest maximum
        → length (state_file_of body root_bytes) ≤ maximum
        → maximum + 1 < fuel
        → StoredDir apply unmarshal body (16 + length body) true m children
        → restore_directory_recursive t
            (read_directory unmarshal empty_directory)
            fuel
            v
            (reader_below
              (fs.read_at u h)
              (some (region_or_zero (region_of (16 + length body) root_bytes))))
            m
            d
          ≡ populate t apply v true children d
    restore-saved fuel u v h body root_bytes m children d same short pos modest fits enough stored =
        let root_region = region_or_zero (region_of (16 + length body) root_bytes) in
        let at_end : root_region.offset_bytes ≡ 16 + length body =
          region_or_zero-offset (16 + length body) root_bytes pos in
        let size = length-append body root_bytes in
        let in_file : StoredDir apply unmarshal (body ++ root_bytes) root_region.offset_bytes true m
            children =
          rw at_end (StoredDir-append apply unmarshal root_bytes stored) in
        restore-populate apply t unmarshal (fs.read_at u h) (encode_header root_region)
          (body ++ root_bytes) no_fields refl
          (subst (IsReaderAt (fs.read_at u h)) same (laws.read_at_lem u h)) fuel
          root_region.offset_bytes v (reader_below (fs.read_at u h) (some root_region)) true m
          children d (inl refl) (omega (arith, at_end, size)) (inr (omega (arith, at_end, size)))
          in_file

    -- What StartInitialBuild() does with a state file that can be opened and read.
    pub start_opened :
        (fuel : ℕ) (u0 u u' : W) (base : String) (d : D) (h : H) (reader : FileReader)
        (time : Stamp) (m : Directory P)
        → start_base u0 base ≡ (u, d)
        → Store.read fs unmarshal_root maximum u base ≡ some (u', ok (reader, h, root_of time m))
        → start_initial_build store t start_base clock_now fuel u0 base
          ≡ after_restore store t start_base clock_now base d
              (reader, h)
              (some time)
              (restore_directory_recursive t
                (read_directory unmarshal empty_directory)
                fuel
                u'
                reader
                m
                d)
    unfolding start_initial_build restore_state backed_store
    start_opened fuel u0 u u' base d h reader time m started found =
        let at_base : start_base u0 base ≡ (u, d) = started in
        let same_u : (start_base u0 base).0 ≡ u = ap (λ t. t.0) at_base in
        let same_d : (start_base u0 base).1 ≡ d = ap (λ t. t.1) at_base in
        rw (same_u, same_d) (rw (found, regroup) refl)

    pub after_restore-closed :
        (base : String) (d : D) (reader : FileReader) (h : H) (time : Stamp) (v : W)
        (r : Result (RestoreError Format.Error X) (Unit {0}))
        → after_restore store t start_base clock_now base d (reader, h) (some time) (some (v, r))
          ≡ some (
            (fs.close v h).0,
            record { output_path = d; output_base_id = base; initial_creation_time = time },
            restore_log r,
          )
    unfolding after_restore backed_store
    after_restore-closed base d reader h time v (ok u) = refl
    after_restore-closed base d reader h time v (err e) = refl
