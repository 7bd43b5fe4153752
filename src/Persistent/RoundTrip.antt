-- ===== src/Persistent/RoundTrip.antt =====
-- Saving an output path after a build and restoring it in the next one, by
-- pkg/filesystem/virtual/persistent_output_path_factory.go over
-- pkg/outputpathpersistency/directory_backed_store.go.
use Prim.Native.String.{String}
use mathlib.Core.Path.{subst}
use bb_clientd.Prelude.{
  ℕ, ◌+◌, ◌*◌, ◌^◌, ◌<◌, ◌≤◌, ◌≡◌, ◌≢◌, inl, inr, sym, ap, ◌∙◌, Bool, true, Option, none, some,
  Option-cases, List, [], ◌++◌, length, arith,
}
use bb_clientd.Prelude.Results.{ok}
use bb_clientd.StateFile.Format
use bb_clientd.StateFile.Format.{RoundTrips, FileRegion, IsReaderAt, encode_header, region_or_zero}
use bb_clientd.StateFile.Writer.Holds.{region_of, finalize-contents}
use bb_clientd.StateFile.Writer
use bb_clientd.StateFile.Writer.{write_message, finalize_region}
use bb_clientd.Store.Directory.{FileSystem, IsFileSystem}
use bb_clientd.Store
use bb_clientd.Store.{DirectoryBackedWriter, StoreError, file_write_at}
use bb_clientd.Store.Untouched.{temporary_ne}
use bb_clientd.Store.Atomic.{Outcome, final_contents, finalize-Outcome}
use bb_clientd.Store.Persisted.{
  held_by, file_write_at-IsWriterAt, finalize-written, replaced_content,
}
use bb_clientd.Persistent.Messages.{Directory, Applied, empty_directory}
use bb_clientd.Persistent.Save.{Tree, save_directory_recursive}
use bb_clientd.Persistent.Stored.{count, StoredDir}
use bb_clientd.Persistent.Saved.{save-Stored}
use bb_clientd.Persistent.Factory
use bb_clientd.Persistent.Factory.{
  RootDirectory, PersistentOutputPath, SaveFailure, finish_save, save_output_path,
}
use bb_clientd.Persistent.Steps.{save_output_path-success}
use bb_clientd.StateFile.Reader.{FileReader}
use bb_clientd.Persistent.Backed.{
  backed_store, IsSaving, Fresh-IsSaving, write_directory-IsDirectoryWriter,
}

-- The root directory that is saved.
abbrev pub root_of : {Stamp P : Type 0} → Stamp → Directory P → RootDirectory Stamp P
root_of time m = record { initial_creation_time = some time; contents = some m }

-- The state file with a root directory's bytes behind the body.
abbrev pub state_file_of : List ℕ → List ℕ → List ℕ
state_file_of body root_bytes =
    encode_header (region_or_zero (region_of (16 + length body) root_bytes)) ++ (body ++ root_bytes)

module _ {W H L Stamp P : Type 0} (fs : FileSystem W H) (view : W → String → Option (List ℕ))
    (held : W → H → List ℕ) (Opened : W → H → String → Type 0)
    (laws : IsFileSystem fs view held Opened) (apply : L → Option (Applied P))
    (marshal : Directory P → Option (List ℕ)) (unmarshal : List ℕ → Option (Directory P))
    (marshal_root : RootDirectory Stamp P → Option (List ℕ))
    (unmarshal_root : List ℕ → Option (RootDirectory Stamp P)) (is_component : String → Bool)
    (maximum : ℕ) (trips : RoundTrips marshal unmarshal)
    (root_trips : RoundTrips marshal_root unmarshal_root)
    (no_fields : unmarshal [] ≡ some empty_directory)
    (small : (m : Directory P) (bytes : List ℕ)
      → marshal m ≡ some bytes
      → length bytes < 2 ^ 31) where
  abbrev pub the_store :
      Factory.Store W
        (DirectoryBackedWriter W H)
        (FileReader × H)
        FileReader
        StoreError
        Format.Error
        Stamp
        P
  the_store = backed_store fs marshal unmarshal marshal_root unmarshal_root is_component maximum

  finalize-file :
      (w0 w : W) (base : String) (x : DirectoryBackedWriter W H) (body root_bytes : List ℕ)
      → IsSaving fs view held Opened laws w0 base x body
      → 16 + length body + length root_bytes < 2 ^ 64
      → Store.finalize fs x (some root_bytes) ≡ (w, none)
      → view w base ≡ some (state_file_of body root_bytes)
  finalize-file w0 w base x body root_bytes h fits e =
      let final = Writer.finalize (file_write_at fs) x.writer (some root_bytes) in
      let written =
        finalize-contents (file_write_at fs) (held_by fs view held Opened laws)
          (file_write_at-IsWriterAt fs view held Opened laws) x.writer final.0 body root_bytes
          h.writing fits
          (ap (λ t. (final.0, t))
            (finalize-written fs view held Opened laws x (some root_bytes) w e)) in
      let ends =
        finalize-Outcome fs view held Opened laws w0 x (some root_bytes)
          (λ eq. temporary_ne base (sym h.same_base ∙ eq ∙ h.temporary)) (rw h.temporary h.kept) in
      ap (view w) (sym h.same_base)
      ∙ replaced_content fs view held Opened laws (
          subst
            (Outcome fs view held Opened laws w0 x.output_base_id x.temporary_name
              (some (final_contents fs view held Opened laws x (some root_bytes))))
            e ends)
      ∙ ap some written

  -- Without a root message there is no Finalize() that succeeds.
  finalize-some : (x : DirectoryBackedWriter W H) (w : W) → Store.finalize fs x none ≢ (w, none)
  unfolding Writer.finalize finalize_region write_message
  finalize-some x w e = cc (finalize-written fs view held Opened laws x none w e)

  finalize-root :
      (w0 w : W) (base : String) (x : DirectoryBackedWriter W H) (body : List ℕ)
      (root : RootDirectory Stamp P)
      → IsSaving fs view held Opened laws w0 base x body
      → 16 + length body + 2 ^ 31 < 2 ^ 64
      → ((bytes : List ℕ) → marshal_root root ≡ some bytes → length bytes < 2 ^ 31)
      → Store.finalize fs x (marshal_root root) ≡ (w, none)
      → (root_bytes : List ℕ) × (marshal_root root ≡ some root_bytes)
        × (view w base ≡ some (state_file_of body root_bytes))
  finalize-root w0 w base x body root h fits small_root e =
      elim (Option-cases (marshal_root root)) [
        | inl failed ↦ absurd (finalize-some x w (rw failed at e))
        | inr (root_bytes, found) ↦
            let short = small_root root_bytes found in
            (
              root_bytes,
              found,
              finalize-file w0 w base x body root_bytes h (omega arith) (rw found at e),
            )
      ]

  -- What a save that succeeds leaves.
  pub saved_state :
      {D : Type 0} (w0 w : W) (op : PersistentOutputPath D Stamp) (children : Tree L)
      → 16 + 2 ^ 31 * (count children + 2) ≤ 2 ^ 63
      → ((x y : DirectoryBackedWriter W H) (m : Directory P) (bytes : List ℕ)
          → save_directory_recursive apply the_store.write_directory x true children
            ≡ some (y, ok m)
          → marshal_root (root_of op.initial_creation_time m) ≡ some bytes
          → length bytes < 2 ^ 31)
      → save_output_path the_store apply w0 op children ≡ some (w, none)
      → (x y : DirectoryBackedWriter W H) × (m : Directory P) × (body root_bytes : List ℕ)
        × (save_directory_recursive apply the_store.write_directory x true children
            ≡ some (y, ok m))
        × (marshal_root (root_of op.initial_creation_time m) ≡ some root_bytes)
        × StoredDir apply unmarshal body (16 + length body) true m children
        × (view w op.output_base_id ≡ some (state_file_of body root_bytes))
  unfolding backed_store
  saved_state w0 w op children few small_root e =
      let base = op.output_base_id in
      let (w1, x, y, m, opened, saved, finalized) =
        save_output_path-success the_store apply w0 w op children e in
      let (body, saving, size, stored) =
        save-Stored apply (λ x m. Store.write_directory fs x (marshal m)) marshal unmarshal trips
          no_fields (IsSaving fs view held Opened laws w0 base)
          (write_directory-IsDirectoryWriter fs view held Opened laws w0 base marshal small) true
          children x y [] m
          (Fresh-IsSaving fs view held Opened laws w0 base is_component w1 x opened) (omega arith)
          saved in
      let (root_bytes, marshalled, in_file) =
        finalize-root w0 w base y body (root_of op.initial_creation_time m) saving (omega arith)
          (λ bytes e. small_root x y m bytes saved e) finalized in
      (x, y, m, body, root_bytes, saved, marshalled, stored, in_file)
