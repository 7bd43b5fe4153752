-- ===== src/Persistent/Populate.antt =====
-- Restoring what was saved, by pkg/filesystem/virtual/persistent_output_path_factory.go: what
-- restoreDirectoryRecursive() makes of a state file, against filling a directory (Filling).
use Prim.Native.String.{String}
use bb_clientd.Prelude.{
  ℕ, zero, suc, ◌+◌, ◌≤◌, ◌<◌, ◌≡◌, ◌⊎◌, inl, inr, refl, sym, ap, ◌∙◌, Bool, false, Bool-cases,
  Option, none, some, List, [], ◌++◌, map, length, arith,
}
use bb_clientd.Prelude.Results.{ok}
use bb_clientd.Prelude.Calls.{Call, and_then, and_then_congr}
use bb_clientd.StateFile.Format
use bb_clientd.StateFile.Format.{FileRegion, IsReaderAt}
use bb_clientd.StateFile.Reader.{FileReader, read_directory}
use bb_clientd.StateFile.Reader.Bounds.{IsModest}
use bb_clientd.StateFile.Reader.Stored.{
  Stands, nowhere, within, end_of, reader_below, read_directory-Stands,
}
use bb_clientd.Persistent.Messages.{Directory, FileNode, DirectoryNode, Applied, empty_directory}
use bb_clientd.Persistent.Filling.{
  file_entry, symlink_entry, fill, entries_of, populate, populate_forest,
}
use bb_clientd.Persistent.Filling.Restored.{restore_leaves-fill, enter_child-entered}
use bb_clientd.Persistent.Save.{Tree, Forest, unreadable, node}
use bb_clientd.Persistent.Restore.{
  FileTree, RestoreError, restore_leaves, load_child, restore_directories,
  restore_directory_recursive,
}
use bb_clientd.Persistent.Leaves.{files_of, symlinks_of}
use bb_clientd.Persistent.Stored.{
  start_of, StoredDir, stored_dir, StoredForest, stored_none, stored_child,
}

module _ {L W D K P Digest X : Type 0} (apply : L → Option (Applied P))
    (t : FileTree W D K P Digest X) where
  abbrev pub Restored : Type 0
  Restored = Call W (RestoreError Format.Error X) (Unit {0})

  module _ (unmarshal : List ℕ → Option (Directory P)) (read_at : ℕ → ℕ → List ℕ)
      (header body : List ℕ) (no_fields : unmarshal [] ≡ some empty_directory)
      (long : length header ≡ 16) (law : IsReaderAt read_at (header ++ body)) where
    -- A reader of the file up to a limit. Nothing is read where the limit is 0.
    abbrev Reads : FileReader → ℕ → Type 0
    Reads r limit =
        (r ≡ record { raw_reader = some read_at; maximum_offset_bytes = limit }) ⊎ (limit ≡ 0)

    reader_below-Reads :
        (region : Option FileRegion) → Reads (reader_below read_at region) (start_of region)
    reader_below-Reads none = inr refl
    reader_below-Reads (some region) = inl refl

    end_of-pos :
        {region : FileRegion} {bytes : List ℕ}
        → Stands body (some region) bytes
        → start_of (some region) < end_of (some region)
    end_of-pos (within before bytes after region e o s pos small) = omega arith

    read_directory-below :
        (r : FileReader) (limit : ℕ) (region : Option FileRegion) (bytes : List ℕ) (m : Directory P)
        → Reads r limit
        → IsModest limit
        → Stands body region bytes
        → unmarshal bytes ≡ some m
        → end_of region ≤ limit
        → read_directory unmarshal empty_directory r region
          ≡ some (ok (reader_below read_at region, m))
    unfolding read_directory
    read_directory-below r limit region bytes m (inl same) modest stands parsed fits = rw same (
        read_directory-Stands unmarshal read_at empty_directory header body bytes region m limit
          no_fields long law stands parsed modest fits)
    read_directory-below r limit none bytes m (inr is_zero) modest nowhere parsed fits =
        cc (no_fields, parsed)
    read_directory-below r limit (some region) bytes m (inr is_zero) modest stands parsed fits =
        absurd (omega (arith, end_of-pos stands))

    load_child-Stands :
        (w : W) (r : FileReader) (limit : ℕ) (entry : DirectoryNode) (bytes : List ℕ)
        (m : Directory P)
        → Reads r limit
        → IsModest limit
        → Stands body entry.file_region bytes
        → unmarshal bytes ≡ some m
        → end_of entry.file_region ≤ limit
        → load_child {E = Format.Error} t (read_directory unmarshal empty_directory) w r entry
          ≡ some (w, ok (reader_below read_at entry.file_region, m))
    unfolding load_child
    load_child-Stands w r limit entry bytes m reads modest stands parsed fits =
        rw
          (
            read_directory-below r limit entry.file_region bytes m reads modest stands parsed fits,
            load_child,
          )
          refl

    restore_leaves-entries :
        (w : W) (m : Directory P) (root : Bool) (leaves : List (String × L)) (d : D)
        → m.files ≡ files_of apply root leaves
        → m.symlinks ≡ symlinks_of apply root leaves
        → restore_leaves {E = Format.Error} t w m d ≡ fill t d (entries_of apply root leaves) w []
    restore_leaves-entries w m root leaves d f s =
        restore_leaves-fill t w m d
        ∙ ap
            (λ (files : List (FileNode P)).
              fill t d (map file_entry files ++ map symlink_entry m.symlinks) w [])
            f
        ∙ ap
            (λ symlinks.
              fill t d (map file_entry (files_of apply root leaves) ++ map symlink_entry symlinks) w
                [])
            s

    -- Fuel for a message whose children end before a limit.
    abbrev Enough : Directory P → ℕ → ℕ → Type 0
    Enough m limit fuel = ((m.directories ≡ []) × (0 < fuel)) ⊎ (limit + 1 < fuel)

    child-Enough :
        (region : Option FileRegion) (bytes : List ℕ) (m : Directory P) (limit fuel : ℕ)
        → Stands body region bytes
        → unmarshal bytes ≡ some m
        → end_of region ≤ limit
        → limit < fuel
        → Enough m (start_of region) fuel
    child-Enough none bytes m limit fuel nowhere parsed fits enough =
        let is_empty : empty_directory ≡ m = cc (no_fields, parsed) in
        inl (ap (λ (x : Directory P). x.directories) (sym is_empty), omega arith)
    child-Enough (some region) bytes m limit fuel stands parsed fits enough =
        inr (omega (arith, end_of-pos stands))

    abbrev restore_from : ℕ → W → FileReader → Directory P → D → Restored
    restore_from = restore_directory_recursive t (read_directory unmarshal empty_directory)

    start_of-IsModest :
        (region : Option FileRegion) (limit : ℕ)
        → end_of region ≤ limit
        → IsModest limit
        → IsModest (start_of region)
    start_of-IsModest none limit fits modest = omega arith
    start_of-IsModest (some region) limit fits modest = omega arith

    mutual
      unfolding restore_directory_recursive restore_directories populate and_then

      pub restore-populate :
          (fuel limit : ℕ) (w : W) (r : FileReader) (root : Bool) (m : Directory P) (tree : Tree L)
          (d : D)
          → Reads r limit
          → IsModest limit
          → Enough m limit fuel
          → StoredDir apply unmarshal body limit root m tree
          → restore_from fuel w r m d ≡ populate t apply w root tree d
      restore-populate zero limit w r root m tree d reads modest (inl (e, pos)) stored =
          absurd (omega arith)
      restore-populate zero limit w r root m tree d reads modest (inr enough) stored =
          absurd (omega arith)
      restore-populate (suc fuel) limit w r root m unreadable d reads modest enough stored =
          elim stored [ ]
      restore-populate (suc fuel) limit w r root m (node directories leaves) d reads modest enough
            (stored_dir below f s) =
          and_then_congr
            (forest-populate fuel limit w r m.directories directories d reads modest
              (elim enough [ inl (e, pos) ↦ inl e | inr h ↦ inr (omega arith) ]) below)
            (λ w1 u. ap some (restore_leaves-entries w1 m root leaves d f s))

      forest-populate :
          (fuel limit : ℕ) (w : W) (r : FileReader) (entries : List DirectoryNode) (f : Forest L)
          (d : D)
          → Reads r limit
          → IsModest limit
          → (entries ≡ []) ⊎ (limit < fuel)
          → StoredForest apply unmarshal body limit entries f
          → restore_directories {E = Format.Error} t
              (read_directory unmarshal empty_directory)
              (restore_from fuel)
              w
              r
              entries
              d
            ≡ populate_forest t apply w f d
      forest-populate fuel limit w r _ _ d reads modest enough stored_none = refl
      forest-populate fuel limit w r _ _ d reads modest (inl e) (stored_child _ _ _ _ _ _ _) = cc
      forest-populate fuel limit w r _ _ d reads modest (inr enough)
            (stored_child {entry = entry} {entries = entries} {directory = directory}
              {others = others} bytes m stands parsed fits below rest) =
          let limit' = start_of entry.file_region in
          let r' = reader_below read_at entry.file_region in
          let loaded = load_child-Stands w r limit entry bytes m reads modest stands parsed fits in
          let modest' : IsModest limit' = start_of-IsModest entry.file_region limit fits modest in
          let step : (w1 : W) (d1 : D)
              → and_then (restore_from fuel w1 r' m d1) (λ w2 u.
                restore_directories t (read_directory unmarshal empty_directory) (restore_from fuel)
                  w2 r entries d)
                ≡ and_then (populate t apply w1 false directory d1)
                    (λ w2 u. populate_forest t apply w2 others d) =
            λ w1 d1.
              and_then_congr
                (restore-populate fuel limit' w1 r' false m directory d1
                  (reader_below-Reads entry.file_region) modest'
                  (child-Enough entry.file_region bytes m limit fuel stands parsed fits enough)
                  below)
                (λ w2 u.
                  forest-populate fuel limit w2 r entries others d reads modest (inr enough)
                    rest) in
          elim (Bool-cases (t.is_component entry.name)) [
            | inl valid ↦
                rw (valid, loaded, and_then)
                  (and_then_congr (enter_child-entered t w d entry.name) step)
            | inr invalid ↦ rw invalid refl
          ]
