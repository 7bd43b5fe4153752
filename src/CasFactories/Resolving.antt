-- ===== src/CasFactories/Resolving.antt =====
-- The handles of directories of pkg/filesystem/virtual/tree_cas_directory_factory.go and
-- decomposed_cas_directory_factory.go lead back to the directory that they were made for.
use bb_clientd.Prelude.{
  ℕ, ◌+◌, ◌<◌, ◌^◌, ◌≡◌, refl, ap, some, List, [], ◌∷◌, ◌++◌, arith, get_elem?, length,
  length-get_elem?,
}
use bb_clientd.Prelude.Results.{Result, ok}
use bb_clientd.Vfs.{Status}
use bb_clientd.CasDirectory.{
  Context, Child, Directory, SymlinkNode, from_directory, from_leaf, put_uvarint, read_uvarint,
  create_self, resolve_index, resolve_handle,
}
use bb_clientd.CasDirectory.Handles.{resolve_handle-index}
use bb_clientd.CasFactories.{
  Calls, TreeDirectory, root, child, tree_id, tree_context, create_root_directory,
  create_child_directory, resolve_tree,
}

module _ {W M Digest Dir Leaf Symlink : Type 0}
    (context : Context W M Digest Dir Leaf Symlink) where
  -- The directory itself.
  pub resolve_handle_self :
      (w : W) → resolve_handle context (0 ∷ []) w ≡ (ok (from_directory (create_self context)), w)
  unfolding resolve_handle read_uvarint resolve_index
  resolve_handle_self w = refl

  -- A symbolic link of its message, whatever else happened since.
  pub resolve_handle-symlink :
      (u : W) (directory : Directory M) (index : ℕ) (node : SymlinkNode) (symlink : Symlink)
      → (context.get_directory_contents u).0 ≡ ok directory
      → length directory.symlinks < 2 ^ 64
      → get_elem? directory.symlinks index ≡ some node
      → context.lookup_symlink node.target ≡ some symlink
      → (resolve_handle context (put_uvarint 9 (index + 1)) u).0
        ≡ ok (from_leaf (context.as_linkable_leaf (put_uvarint 9 (index + 1)) symlink))
  resolve_handle-symlink u directory index node symlink loads few at good =
      let u' = (context.get_directory_contents u).1 in
      let fits : index + 1 < 2 ^ 64 =
        omega (arith, length-get_elem? directory.symlinks index node at, few) in
      ap (λ (t : Result Status (Child Dir Leaf) × W). t.0)
        (resolve_handle-index context u u' directory index node.name node.target symlink
          (ap (λ r. (r, u')) loads) at good fits)

module _ {W M Digest Dir Leaf Symlink E : Type 0} (calls : Calls W M Digest Dir Leaf Symlink E)
    (tree : Digest) where
  -- The bytes of a directory of the tree are read back.
  abbrev pub Reads : TreeDirectory Digest → Type 0
  Reads root = Unit {0}
  Reads (child digest) =
      (rest : List ℕ)
      → calls.new_digest_from_compact_binary tree (calls.get_compact_binary digest ++ rest)
        ≡ some (digest, rest)

  pub resolve_tree-tree_id :
      (d : TreeDirectory Digest) (bytes : List ℕ) (w : W)
      → Reads d
      → resolve_tree calls tree (tree_id calls d ++ bytes) w
        ≡ resolve_handle (tree_context calls tree d) bytes w
  unfolding resolve_tree tree_id create_root_directory create_child_directory
  resolve_tree-tree_id root bytes w reads = refl
  resolve_tree-tree_id (child digest) bytes w reads = rw (reads bytes) refl
