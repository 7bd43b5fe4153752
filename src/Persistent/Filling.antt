-- ===== src/Persistent/Filling.antt =====
-- What a new output path is to be filled with, after
-- pkg/filesystem/virtual/persistent_output_path_factory.go has saved a tree: the calls that lead
-- to it and what becomes of the leaves, without messages or a state file.
use Prim.Native.String.{String}
use bb_clientd.Prelude.{Bool, false, Option, none, some, List, [], ◌∷◌, ◌++◌, map, if◌then◌else◌}
use bb_clientd.Prelude.Maps.{StringMap, lookup}
use bb_clientd.Prelude.Results.{Result, ok, err}
use bb_clientd.Prelude.Calls.{Call, and_then}
use bb_clientd.Persistent.Messages.{FileNode, SymlinkNode, Applied, file, symlink}
use bb_clientd.Persistent.Save.{Tree, Forest, unreadable, node, leafless, child}
use bb_clientd.Persistent.Leaves.{files_of, symlinks_of}
use bb_clientd.Persistent.Restore.{
  FileTree, RestoreError, invalid_directory_name, invalid_file_name, invalid_symlink_name,
  duplicate_child, bad_symlink, create_directory_failed, bad_digest, create_children_failed,
}
pub mod Restored
pub mod Runs

module _ {P : Type 0} where
  abbrev pub file_entry : FileNode P → String × Applied P
  file_entry entry = (entry.name, file entry.digest entry.is_executable)

  abbrev pub symlink_entry : SymlinkNode → String × Applied P
  symlink_entry entry = (entry.name, symlink entry.target)

module _ {L P : Type 0} (apply : L → Option (Applied P)) where
  -- The files, and then the symbolic links; of the root, without its status files.
  abbrev pub entries_of : Bool → List (String × L) → List (String × Applied P)
  entries_of root leaves =
      map file_entry (files_of apply root leaves)
      ++ map symlink_entry (symlinks_of apply root leaves)

module _ {W D K P Digest X E : Type 0} (t : FileTree W D K P Digest X) where
  -- The leaf of an entry, with the factories of files and symbolic links.
  abbrev pub found_leaf : W × Option K → W × Result (RestoreError E X) K
  found_leaf (w, none) = (w, err bad_symlink)
  found_leaf (w, some k) = (w, ok k)

  abbrev pub found_file : W → Bool → Result X Digest → W × Result (RestoreError E X) K
  found_file w is_executable (err x) = (w, err (bad_digest x))
  found_file w is_executable (ok digest) =
      let (w1, k) = t.look_up_file w digest is_executable in (w1, ok k)

  abbrev pub leaf_for : W → Applied P → W × Result (RestoreError E X) K
  leaf_for w (symlink target) = found_leaf (t.look_up_symlink w target)
  leaf_for w (file p is_executable) = found_file w is_executable (t.new_digest p)

  abbrev pub invalid_name : Applied P → RestoreError E X
  invalid_name (file p is_executable) = invalid_file_name
  invalid_name (symlink target) = invalid_symlink_name

  -- An entry has a valid name that none before it has.
  unfoldable pub make : W → StringMap K → String × Applied P → W × Result (RestoreError E X) K
  make w made entry =
      if t.is_component entry.0
      then elim (lookup entry.0 made) [
        | some k ↦ (w, err duplicate_child)
        | none ↦ leaf_for w entry.1
      ]
      else (w, err (invalid_name entry.1))

  -- After an error, every leaf that was made is unlinked.
  unfoldable pub give_up :
      W → StringMap K → RestoreError E X → W × Result (RestoreError E X) (Unit {0})
  give_up w [] e = (w, err e)
  give_up w (leaf ∷ made) e = give_up (t.unlink w leaf.1) made e

  abbrev pub hand_over : W × Option X → StringMap K → W × Result (RestoreError E X) (Unit {0})
  hand_over (w, none) made = (w, ok tt)
  hand_over (w, some x) made = give_up w made (create_children_failed x)

  -- The leaves are made in order and handed over to the directory at once.
  unfoldable pub fill :
      D → List (String × Applied P) → W → StringMap K → W × Result (RestoreError E X) (Unit {0})
  fill d [] w made = hand_over (t.create_children w d made) made
  fill d (entry ∷ entries) w made =
      let (w1, r) = make w made entry in
      elim r [ err e ↦ give_up w1 made e | ok k ↦ fill d entries w1 (made ++ ((entry.0, k) ∷ [])) ]

  -- A directory is created and entered.
  abbrev pub entered : W × Result X D → Call W (RestoreError E X) D
  entered (w, err x) = some (w, err (create_directory_failed x))
  entered (w, ok d) = some (w, ok d)

  module _ {L : Type 0} (apply : L → Option (Applied P)) where
    -- Fills a directory with what is in another: the directories in order, each created, entered
    -- and filled, and then the leaves.
    unfoldable mutual
      pub populate : W → Bool → Tree L → D → Call W (RestoreError E X) (Unit {0})
      populate w root unreadable d = none
      populate w root (node directories leaves) d =
          and_then (populate_forest w directories d)
            (λ w1 u. some (fill d (entries_of apply root leaves) w1 []))

      pub populate_forest : W → Forest L → D → Call W (RestoreError E X) (Unit {0})
      populate_forest w leafless d = some (w, ok tt)
      populate_forest w (child name directory others) d =
          if t.is_component name
          then and_then (entered (t.create_and_enter w d name)) (λ w1 d1.
            and_then (populate w1 false directory d1) (λ w2 u. populate_forest w2 others d))
          else some (w, err invalid_directory_name)
