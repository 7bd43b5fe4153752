-- ===== src/Persistent/Save.antt =====
-- saveDirectoryRecursive() of pkg/filesystem/virtual/persistent_output_path_factory.go.
--
-- The directory that is saved is what LookupAllChildren() returns for it and for those below it.
-- `apply` is VirtualApply() of a leaf: what it appends, or none where the leaf does not support
-- it, which panics. The writer has a state of type `V`.
use Prim.Native.String.{String}
use text.Mathlib.Text.{◌==◌ as str_eq}
use bb_clientd.Prelude.{
  Bool, false, ◌&&◌, ◌||◌, Option, none, some, List, [], ◌∷◌, ◌++◌, if◌then◌else◌,
}
use bb_clientd.Prelude.Results.{Result, ok, err}
use bb_clientd.Prelude.Calls.{Call, and_then}
use bb_clientd.StateFile.Format.{FileRegion}
use bb_clientd.Persistent.Messages.{
  Directory, empty_directory, DirectoryNode, Applied, file, symlink,
}

mutual
  -- A directory whose LookupAllChildren() fails, or one with its children and leaves.
  pub data Tree (L : Type 0) : Type 0 where
    unreadable : Tree L
    node : Forest L → List (String × L) → Tree L

  pub data Forest (L : Type 0) : Type 0 where
    leafless : Forest L
    child : String → Tree L → Forest L → Forest L

pub data SaveError (E : Type 0) : Type 0 where
  look_up_failed : SaveError E
  write_failed : E → SaveError E

-- The files of the root directory that Bazel keeps writing to.
abbrev pub is_status : String → Bool
is_status name = str_eq name "stable-status.txt" || str_eq name "volatile-status.txt"

abbrev pub append_leaf : {P : Type 0} → String → Applied P → Directory P → Directory P
append_leaf name (file digest is_executable) m = record m {
  files = m.files ++ (record { name = name; digest = digest; is_executable = is_executable } ∷ []);
}
append_leaf name (symlink target) m = record m {
  symlinks = m.symlinks ++ (record { name = name; target = target } ∷ []);
}

module _ {L P : Type 0} (apply : L → Option (Applied P)) where
  -- One round of the loop over the leaves. `root` is dPath == nil.
  unfoldable pub append_if_kept : Bool → String × L → Directory P → Option (Directory P)
  append_if_kept root leaf m =
      if root && is_status leaf.0
      then some m
      else elim (apply leaf.1) [ none ↦ none | some applied ↦ some (append_leaf leaf.0 applied m) ]

  unfoldable pub append_leaves : Bool → List (String × L) → Directory P → Option (Directory P)
  append_leaves root [] m = some m
  append_leaves root (leaf ∷ leaves) m = elim (append_if_kept root leaf m) [
    | none ↦ none
    | some m' ↦ append_leaves root leaves m'
  ]

  module _ {V E : Type 0}
      (write_directory : V → Directory P → V × Result E (Option FileRegion)) where
    -- The message, or a panic while the leaves were appended to it.
    abbrev pub finish_directory : V → Option (Directory P) → Call V (SaveError E) (Directory P)
    finish_directory v none = none
    finish_directory v (some m) = some (v, ok m)

    -- WriteDirectory() for a child
    unfoldable pub write_child : V → Directory P → Call V (SaveError E) (Option FileRegion)
    write_child v m =
        let (v1, r) = write_directory v m in
        elim r [ ok region ↦ some (v1, ok region) | err e ↦ some (v1, err (write_failed e)) ]

    unfoldable mutual
      pub save_directory_recursive : V → Bool → Tree L → Call V (SaveError E) (Directory P)
      save_directory_recursive v root unreadable = some (v, err look_up_failed)
      save_directory_recursive v root (node directories leaves) =
          and_then (save_directories v directories) (λ v1 nodes.
            finish_directory v1
              (append_leaves root leaves (record empty_directory { directories = nodes })))

      -- The loop over the directories.
      pub save_directories : V → Forest L → Call V (SaveError E) (List DirectoryNode)
      save_directories v leafless = some (v, ok [])
      save_directories v (child name directory others) =
          and_then (save_directory_recursive v false directory) (λ v1 m.
            and_then (write_child v1 m) (λ v2 region.
              and_then (save_directories v2 others)
                (λ v3 nodes. some (v3, ok (record { name = name; file_region = region } ∷ nodes)))))
