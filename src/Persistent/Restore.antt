-- ===== src/Persistent/Restore.antt =====
-- stateRestorer of pkg/filesystem/virtual/persistent_output_path_factory.go.
--
-- The directories that are filled, and the factories of files and symbolic links, are in another
-- repository: they are operations on a world `W`, with directories `D` and leaves `K`. The reader
-- has a state of type `R`; ReadDirectory() through a nil reader panics, which is `none`.
use Prim.Native.String.{String}
use bb_clientd.Prelude.{
  ℕ, zero, suc, Bool, true, false, Option, none, some, List, [], ◌∷◌, ◌++◌, if◌then◌else◌,
}
use bb_clientd.Prelude.Maps.{StringMap, lookup}
use bb_clientd.Prelude.Results.{Result, ok, err}
use bb_clientd.Prelude.Calls.{Call, and_then}
use bb_clientd.StateFile.Format.{FileRegion}
use bb_clientd.Persistent.Messages.{Directory, DirectoryNode, FileNode, SymlinkNode}

-- What the restorer calls: CreateAndEnterPrepopulatedDirectory(), CreateChildren() with
-- overwriting, Unlink(), LookupFile() and LookupSymlink(); and the tests of names and digests.
pub record FileTree (W D K P Digest X : Type 0) : Type 0 where
  pub create_and_enter : W → D → String → W × Result X D
  pub create_children : W → D → StringMap K → W × Option X
  pub unlink : W → K → W
  pub look_up_file : W → Digest → Bool → W × K
  pub look_up_symlink : W → String → W × Option K
  pub is_component : String → Bool
  pub new_digest : P → Result X Digest

pub data RestoreError (E X : Type 0) : Type 0 where
  invalid_directory_name invalid_file_name invalid_symlink_name : RestoreError E X
  duplicate_child bad_symlink : RestoreError E X
  load_failed : E → RestoreError E X
  create_directory_failed bad_digest create_children_failed : X → RestoreError E X

abbrev pub is_taken : {K : Type 0} → String → StringMap K → Bool
is_taken name nodes = elim (lookup name nodes) [ none ↦ false | some k ↦ true ]

-- The deferred function. A Go map has no order; this is that of insertion.
unfoldable pub unlink_all : {W K : Type 0} → (W → K → W) → W → StringMap K → W
unlink_all unlink w [] = w
unlink_all unlink w (initial_node ∷ nodes) = unlink_all unlink (unlink w initial_node.1) nodes

module _ {W D K P Digest X E : Type 0} (t : FileTree W D K P Digest X) where
  -- One round of the loop over the files: the entry that it adds.
  unfoldable pub file_leaf :
      W → StringMap K → FileNode P → W × Result (RestoreError E X) (String × K)
  file_leaf w nodes entry =
      if t.is_component entry.name
      then if is_taken entry.name nodes
        then (w, err duplicate_child)
        else elim (t.new_digest entry.digest) [
          | err x ↦ (w, err (bad_digest x))
          | ok digest ↦
              let (w1, k) = t.look_up_file w digest entry.is_executable in (w1, ok (entry.name, k))
        ]
      else (w, err invalid_file_name)

  abbrev found_symlink : String → W × Option K → W × Result (RestoreError E X) (String × K)
  found_symlink name (w, none) = (w, err bad_symlink)
  found_symlink name (w, some k) = (w, ok (name, k))

  -- One round of the loop over the symbolic links.
  unfoldable pub symlink_leaf :
      W → StringMap K → SymlinkNode → W × Result (RestoreError E X) (String × K)
  symlink_leaf w nodes entry =
      if t.is_component entry.name
      then if is_taken entry.name nodes
        then (w, err duplicate_child)
        else found_symlink entry.name (t.look_up_symlink w entry.target)
      else (w, err invalid_symlink_name)

  -- A loop over entries, which ends at the first error: the map so far, and the error. Every
  -- name that is added is new.
  unfoldable pub add_each :
      {A : Type 0}
      → (W → StringMap K → A → W × Result (RestoreError E X) (String × K))
      → W
      → StringMap K
      → List A
      → W × StringMap K × Option (RestoreError E X)
  add_each leaf w nodes [] = (w, nodes, none)
  add_each leaf w nodes (entry ∷ entries) =
      let (w1, r) = leaf w nodes entry in
      elim r [
        | err e ↦ (w1, nodes, some e)
        | ok added ↦ add_each leaf w1 (nodes ++ (added ∷ [])) entries
      ]

  -- Both loops.
  unfoldable pub initial_nodes : W → Directory P → W × StringMap K × Option (RestoreError E X)
  initial_nodes w contents =
      let (w1, nodes, e) = add_each file_leaf w [] contents.files in
      elim e [
        | some e' ↦ (w1, nodes, some e')
        | none ↦ add_each symlink_leaf w1 nodes contents.symlinks
      ]

  -- The second half of restoreDirectoryRecursive(), with its deferred function.
  unfoldable pub restore_leaves : W → Directory P → D → W × Result (RestoreError E X) (Unit {0})
  restore_leaves w contents d =
      let (w1, nodes, e) = initial_nodes w contents in
      elim e [
        | some e' ↦ (unlink_all t.unlink w1 nodes, err e')
        | none ↦
            let (w2, x) = t.create_children w1 d nodes in
            elim x [
              | some x' ↦ (unlink_all t.unlink w2 nodes, err (create_children_failed x'))
              | none ↦ (w2, ok tt)
            ]
      ]

  -- CreateAndEnterPrepopulatedDirectory() for a child
  unfoldable pub enter_child : W → D → String → Call W (RestoreError E X) D
  enter_child w d name =
      let (w1, r) = t.create_and_enter w d name in
      elim r [
        | err x ↦ some (w1, err (create_directory_failed x))
        | ok entered ↦ some (w1, ok entered)
      ]

  module _ {R : Type 0}
      (read_directory : R → Option FileRegion → Option (Result E (R × Directory P))) where
    -- ReadDirectory() for a child
    unfoldable pub load_child : W → R → DirectoryNode → Call W (RestoreError E X) (R × Directory P)
    load_child w r entry = elim (read_directory r entry.file_region) [
      | none ↦ none
      | some (err e) ↦ some (w, err (load_failed e))
      | some (ok loaded) ↦ some (w, ok loaded)
    ]

    -- The loop over the directories, with the recursive call as an argument.
    unfoldable pub restore_directories :
        (W → R → Directory P → D → Call W (RestoreError E X) (Unit {0}))
        → W
        → R
        → List DirectoryNode
        → D
        → Call W (RestoreError E X) (Unit {0})
    restore_directories recur w r [] d = some (w, ok tt)
    restore_directories recur w r (entry ∷ entries) d =
        let invalid = some (w, err invalid_directory_name) in
        if t.is_component entry.name
        then and_then (load_child w r entry) (λ w1 loaded.
          and_then (enter_child w1 d entry.name) (λ w2 entered.
            and_then (recur w2 loaded.0 loaded.1 entered)
              (λ w3 u. restore_directories recur w3 r entries d)))
        else invalid

    -- restoreDirectoryRecursive(), on fuel: a directory and those below it.
    unfoldable pub restore_directory_recursive :
        ℕ → W → R → Directory P → D → Call W (RestoreError E X) (Unit {0})
    restore_directory_recursive zero w r contents d = none
    restore_directory_recursive (suc fuel) w r contents d =
        and_then (restore_directories (restore_directory_recursive fuel) w r contents.directories d)
          (λ w1 u. some (restore_leaves w1 contents d))
