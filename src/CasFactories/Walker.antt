-- ===== src/CasFactories/Walker.antt =====
-- pkg/cas/tree_directory_walker.go: a walker over the directories of a Tree object. OutputService
-- gives one to the output path when it looks for missing children.
use bb_clientd.Prelude.{◌≡◌, ◌⊎◌, inl, inr, refl, sym, Option, none, some, List, [], ◌∷◌}
use bb_clientd.Prelude.Results.{Result, ok, err}
use bb_clientd.Vfs.{Status}
use bb_clientd.CasDirectory.{Directory}
use bb_clientd.CasFactories.{
  Calls, Description, TreeDirectory, root, child, tree_root_directory, tree_child_directory,
  fetching, loaded, tree_description, tree_fetch, tree_context,
}

-- treeRootDirectoryWalker or treeChildDirectoryWalker.
pub data TreeWalker (Digest : Type 0) : Type 0 where
  tree_root_walker : Digest → TreeWalker Digest
  tree_child_walker : Digest → Digest → TreeWalker Digest

module _ {Digest : Type 0} where
  -- NewTreeDirectoryWalker()
  unfoldable pub new_tree_directory_walker : Digest → Option Digest → TreeWalker Digest
  new_tree_directory_walker tree none = tree_root_walker tree
  new_tree_directory_walker tree (some digest) = tree_child_walker tree digest

  unfoldable pub get_containing_digest : TreeWalker Digest → Digest
  get_containing_digest (tree_root_walker tree) = tree
  get_containing_digest (tree_child_walker tree digest) = tree

  unfoldable pub get_child : TreeWalker Digest → Digest → TreeWalker Digest
  get_child walker digest = tree_child_walker (get_containing_digest walker) digest

  unfoldable pub get_description : TreeWalker Digest → Description Digest
  get_description (tree_root_walker tree) = tree_root_directory tree
  get_description (tree_child_walker tree digest) = tree_child_directory tree digest

  -- The walker and the directory that GetChild() leads to, one digest after the other.
  abbrev pub walk : TreeWalker Digest → List Digest → TreeWalker Digest
  walk walker [] = walker
  walk walker (digest ∷ path) = walk (get_child walker digest) path

  abbrev pub directory_at : Option Digest → List Digest → TreeDirectory Digest
  directory_at none [] = root
  directory_at (some digest) [] = child digest
  directory_at start (digest ∷ path) = directory_at (some digest) path

module _ {W M Digest Dir Leaf Symlink E : Type 0}
    (calls : Calls W M Digest Dir Leaf Symlink E) where
  unfoldable pub walker_get_directory : TreeWalker Digest → W → Result E (Directory M) × W
  walker_get_directory (tree_root_walker tree) w = calls.get_tree_root_directory tree w
  walker_get_directory (tree_child_walker tree digest) w =
      calls.get_tree_child_directory tree digest w

  walk-child :
      (tree digest : Digest) (path : List Digest) (w : W)
      → let walker = walk (tree_child_walker tree digest) path in
        let d = directory_at (some digest) path in
        (get_containing_digest walker ≡ tree)
        × (get_description walker ≡ tree_description tree d)
        × (walker_get_directory walker w ≡ tree_fetch calls tree d w)
  unfolding get_child get_containing_digest get_description walker_get_directory tree_description
      tree_fetch
  walk-child tree digest [] w = (refl, refl, refl)
  walk-child tree digest (next ∷ path) w = walk-child tree next path w

  walk-start :
      (tree : Digest) (start : Option Digest) (path : List Digest) (w : W)
      → let walker = walk (new_tree_directory_walker tree start) path in
        let d = directory_at start path in
        (get_containing_digest walker ≡ tree)
        × (get_description walker ≡ tree_description tree d)
        × (walker_get_directory walker w ≡ tree_fetch calls tree d w)
  unfolding new_tree_directory_walker get_child get_containing_digest get_description
      walker_get_directory tree_description tree_fetch
  walk-start tree none [] w = (refl, refl, refl)
  walk-start tree none (next ∷ path) w = walk-child tree next path w
  walk-start tree (some digest) path w = walk-child tree digest path w

  loaded_cases :
      (d : Description Digest) (r : Result E (Directory M) × W)
      → ((x : Directory M) × (w : W) × (r ≡ (ok x, w)) × (loaded calls d r ≡ (ok x, w)))
        ⊎ ((e : E) × (w : W) × (r ≡ (err e, w))
            × (loaded calls d r ≡ (err Status.err_io, calls.log d (fetching e) w)))
  unfolding loaded
  loaded_cases d (ok x, w) = inl (x, w, refl, refl)
  loaded_cases d (err e, w) = inr (e, w, refl, refl)

  -- A walker of a tree, from the root with or without a known digest and down any path of
  -- GetChild() calls, belongs to that tree and reads what the CAS directory of the same place
  -- reads: GetDirectoryContents() returns the message that GetDirectory() gets, or EIO after
  -- logging GetDirectory()'s error with GetDescription() of the walker.
  pub walker-get_directory_contents :
      (tree : Digest) (start : Option Digest) (path : List Digest) (w : W)
      → let walker = walk (new_tree_directory_walker tree start) path in
        let contents = (tree_context calls tree (directory_at start path)).get_directory_contents in
        (get_containing_digest walker ≡ tree)
        × (((x : Directory M) × (w' : W) × (walker_get_directory walker w ≡ (ok x, w'))
              × (contents w ≡ (ok x, w')))
            ⊎ ((e : E) × (w' : W) × (walker_get_directory walker w ≡ (err e, w'))
                × (contents w
                    ≡ (err Status.err_io, calls.log (get_description walker) (fetching e) w'))))
  unfolding tree_context
  walker-get_directory_contents tree start path w =
      let walker = walk (new_tree_directory_walker tree start) path in
      let (same, described, fetched) = walk-start tree start path w in
      (
        same,
        rw (sym described, sym fetched)
            (loaded_cases (get_description walker) (walker_get_directory walker w)),
      )
