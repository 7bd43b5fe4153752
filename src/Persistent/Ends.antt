-- ===== src/Persistent/Ends.antt =====
-- Restoring by pkg/filesystem/virtual/persistent_output_path_factory.go ends without a panic on
-- whatever state file it is given.
use Prim.Native.String.{String}
use bb_clientd.Prelude.{
  ℕ, zero, suc, ◌+◌, ◌<◌, ◌≡◌, ◌≢◌, ◌⊎◌, inl, inr, sym, ap, ◌∙◌, Bool-cases, Option, none, some,
  Option-cases, List, [], ◌∷◌, arith,
}
use bb_clientd.Prelude.Results.{Result, Result-cases, ok, err}
use bb_clientd.Prelude.Calls.{Call, and_then-ne-none}
use bb_clientd.StateFile.Format
use bb_clientd.StateFile.Format.{FileRegion}
use bb_clientd.StateFile.Reader.{
  FileReader, read_full, is_out_of_range, unmarshalled, read_message, read_directory,
}
use bb_clientd.StateFile.Reader.Bounds.{
  IsValid, IsRegion?, read_directory-ne-none, read_directory-IsBelow,
}
use bb_clientd.Persistent.Messages.{Directory, DirectoryNode, empty_directory}
use bb_clientd.Persistent.Restore.{
  FileTree, RestoreError, load_child, enter_child, restore_directories, restore_directory_recursive,
}

-- The regions of a message's directories are of an int64 and an int32, as their fields are.
abbrev pub HasRegions : List DirectoryNode → Type 0
HasRegions [] = Unit
HasRegions (entry ∷ entries) = IsRegion? entry.file_region × HasRegions entries

module _ {P : Type 0} (unmarshal : List ℕ → Option (Directory P)) where
  unmarshalled-parsed :
      (r r' : FileReader) (offset : ℕ) (read : Option (Result Format.Error (List ℕ)))
      (m : Directory P)
      → unmarshalled unmarshal r offset read ≡ some (ok (r', m))
      → (bytes : List ℕ) × (unmarshal bytes ≡ some m)
  unfolding unmarshalled
  unmarshalled-parsed r r' offset none m e = cc
  unmarshalled-parsed r r' offset (some (err x)) m e = cc
  unmarshalled-parsed r r' offset (some (ok bytes)) m e = elim (Option-cases (unmarshal bytes)) [
    | inl failed ↦ cc (rw (failed, unmarshalled) at e)
    | inr (m', found) ↦ (bytes, found ∙ ap some (cc (rw (found, unmarshalled) at e)))
  ]

  -- What a reader returns was unmarshalled, or has no field set.
  read_directory-parsed :
      (r r' : FileReader) (region : Option FileRegion) (m : Directory P)
      → read_directory unmarshal empty_directory r region ≡ some (ok (r', m))
      → (m ≡ empty_directory) ⊎ ((bytes : List ℕ) × (unmarshal bytes ≡ some m))
  unfolding read_directory read_message
  read_directory-parsed r r' none m e = inl (cc e)
  read_directory-parsed r r' (some region) m e =
      elim (Bool-cases
        (is_out_of_range r.maximum_offset_bytes region.offset_bytes region.size_bytes)) [
          | inl out ↦ cc (rw (out, read_directory, read_message) at e)
          | inr inside ↦ inr (
              unmarshalled-parsed r r' region.offset_bytes
                (read_full r.raw_reader region.offset_bytes region.size_bytes) m
                (rw (inside, read_directory, read_message) at e))
        ]

  module _
      (regions : (bytes : List ℕ) (m : Directory P)
        → unmarshal bytes ≡ some m
        → HasRegions m.directories)
      {W D K Digest X : Type 0} (t : FileTree W D K P Digest X) where
    -- Fuel for a message and its reader.
    abbrev pub Fuelled : Directory P → FileReader → ℕ → Type 0
    Fuelled m r fuel = ((m.directories ≡ []) × (0 < fuel)) ⊎ (r.maximum_offset_bytes + 1 < fuel)

    -- What was read for a child: it is valid, and has fuel.
    child-Fuelled :
        (r r' : FileReader) (region : Option FileRegion) (m : Directory P) (fuel : ℕ)
        → IsValid r
        → IsRegion? region
        → r.maximum_offset_bytes < fuel
        → read_directory unmarshal empty_directory r region ≡ some (ok (r', m))
        → IsValid r' × HasRegions m.directories × Fuelled m r' fuel
    unfolding read_directory
    child-Fuelled r r' none m fuel valid fits enough e =
        let is_empty : empty_directory ≡ m = cc e in
        (
          (read_directory-IsBelow unmarshal empty_directory r r' none m valid fits e).0,
          rw (← is_empty) tt,
          inl (ap (λ (x : Directory P). x.directories) (sym is_empty), omega arith),
        )
    child-Fuelled r r' (some region) m fuel valid fits enough e =
        let (valid', below) =
          read_directory-IsBelow unmarshal empty_directory r r' (some region) m valid fits e in
        (
          valid',
          elim (read_directory-parsed r r' (some region) m e) [
            | inl is_empty ↦ rw is_empty tt
            | inr (bytes, found) ↦ regions bytes m found
          ],
          inr (omega (arith, below)),
        )

    load_child-success :
        (w w' : W) (r r' : FileReader) (entry : DirectoryNode) (m : Directory P)
        → load_child {E = Format.Error} t (read_directory unmarshal empty_directory) w r entry
          ≡ some (w', ok (r', m))
        → read_directory unmarshal empty_directory r entry.file_region ≡ some (ok (r', m))
    unfolding load_child
    load_child-success w w' r r' entry m e =
        elim (Option-cases (read_directory unmarshal empty_directory r entry.file_region)) [
          | inl panics ↦ cc (rw (panics, load_child) at e)
          | inr (x, ran) ↦ elim (Result-cases x) [
            | inr (x', failed) ↦ cc (rw (ran ∙ ap some failed, load_child) at e)
            | inl (loaded, fine) ↦
                ran ∙ ap some fine ∙ cc (rw (ran ∙ ap some fine, load_child) at e)
          ]
        ]

    load_child-ne-none :
        (w : W) (r : FileReader) (entry : DirectoryNode)
        → IsValid r
        → IsRegion? entry.file_region
        → load_child {E = Format.Error} t (read_directory unmarshal empty_directory) w r entry
          ≢ none
    unfolding load_child
    load_child-ne-none w r entry valid fits =
        elim (Option-cases (read_directory unmarshal empty_directory r entry.file_region)) [
          | inl panics ↦ absurd (
              read_directory-ne-none unmarshal empty_directory r entry.file_region valid fits
                panics)
          | inr (x, ran) ↦ elim (Result-cases x) [
            | inr (x', failed) ↦ rw (ran ∙ ap some failed, load_child) (λ p. cc)
            | inl (loaded, fine) ↦ rw (ran ∙ ap some fine, load_child) (λ p. cc)
          ]
        ]

    enter_child-ne-none :
        (w : W) (d : D) (name : String) → enter_child {E = Format.Error} t w d name ≢ none
    unfolding enter_child
    enter_child-ne-none w d name = elim (Result-cases (t.create_and_enter w d name).1) [
      | inr (x', failed) ↦ rw (failed, enter_child) (λ p. cc)
      | inl (entered, fine) ↦ rw (fine, enter_child) (λ p. cc)
    ]

    abbrev restore_from :
        ℕ → W → FileReader → Directory P → D → Call W (RestoreError Format.Error X) (Unit {0})
    restore_from = restore_directory_recursive t (read_directory unmarshal empty_directory)

    -- The loop ends where the recursive call does.
    restore_directories-ne-none :
        (fuel : ℕ) (r : FileReader) (d : D)
        → IsValid r
        → ((w : W) (r' : FileReader) (m : Directory P) (d : D)
            → IsValid r'
            → HasRegions m.directories
            → Fuelled m r' fuel
            → restore_from fuel w r' m d ≢ none)
        → (entries : List DirectoryNode) (w : W) → HasRegions entries
        → (entries ≡ []) ⊎ (r.maximum_offset_bytes < fuel)
        → restore_directories {E = Format.Error} t
            (read_directory unmarshal empty_directory)
            (restore_from fuel)
            w
            r
            entries
            d
          ≢ none
    unfolding restore_directories
    restore_directories-ne-none fuel r d valid below [] w has enough = λ p. cc
    restore_directories-ne-none fuel r d valid below (entry ∷ entries) w has (inl e) = cc
    restore_directories-ne-none fuel r d valid below (entry ∷ entries) w (fits, has) (inr enough) =
        elim (Bool-cases (t.is_component entry.name)) [
          | inr invalid ↦ rw invalid (λ p. cc)
          | inl named ↦ rw named (
              and_then-ne-none _ _ (load_child-ne-none w r entry valid fits) (λ w1 (r', m) loaded.
                let (valid', has', enough') =
                  child-Fuelled r r' entry.file_region m fuel valid fits enough
                    (load_child-success w w1 r r' entry m loaded) in
                and_then-ne-none _ _ (enter_child-ne-none w1 d entry.name) (λ w2 entered found.
                  and_then-ne-none _ _ (below w2 r' m entered valid' has' enough') (λ w3 u done.
                    restore_directories-ne-none fuel r d valid below entries w3 has (inr enough)))))
        ]

    -- restoreDirectoryRecursive() ends, and calls nothing on a nil reader, on any valid reader and
    -- any message whose regions are of an int64 and an int32, as are those of every message that is
    -- unmarshalled; the fuel exceeds the reader's maximum by more than one, or there are no
    -- directories and some fuel.
    pub restore-ends :
        (fuel : ℕ) (w : W) (r : FileReader) (m : Directory P) (d : D)
        → IsValid r
        → HasRegions m.directories
        → Fuelled m r fuel
        → restore_from fuel w r m d ≢ none
    unfolding restore_directory_recursive
    restore-ends zero w r m d valid has (inl (e, enough)) = absurd (omega arith)
    restore-ends zero w r m d valid has (inr enough) = absurd (omega arith)
    restore-ends (suc fuel) w r m d valid has enough =
        and_then-ne-none _ _
          (restore_directories-ne-none fuel r d valid (restore-ends fuel) m.directories w has
            (elim enough [ inl (e, pos) ↦ inl e | inr h ↦ inr (omega arith) ]))
          (λ w1 u done. λ p. cc)
