-- ===== src/CasFactories.antt =====
-- The factories of CAS directories: pkg/filesystem/virtual/tree_cas_directory_factory.go, whose
-- directories are all part of one Tree object. The child modules have the factory for separate
-- Directory messages and the directory walker.
--
-- A handle is the digest that the factory's allocator is given and the bytes behind it. A directory
-- or a symbolic link of a CAS directory is allocated with the bytes of the directory and, behind
-- them, its own.
use bb_clientd.Prelude.{ℕ, Bool, Option, none, some, List, [], ◌∷◌, ◌++◌, ◌==◌, if◌then◌else◌}
use bb_clientd.Prelude.Results.{Result, ok, err}
use bb_clientd.Vfs.{Status}
use bb_clientd.CasDirectory.{Context, Directory, Child, Logged, create_self, resolve_handle}
pub mod Decomposed
pub mod Walker
pub mod Resolving
pub mod Handles
mod Tests

-- What a logged error or a walker says about a directory.
pub data Description (Digest : Type 0) : Type 0 where
  tree_root_directory : Digest → Description Digest
  tree_child_directory : Digest → Digest → Description Digest
  directory : Digest → Description Digest

-- An error of the fetcher, or one that the directory itself logs.
pub data Cause (E : Type 0) : Type 0 where
  fetching : E → Cause E
  reported : Logged → Cause E

-- The CASFileFactory, the DirectoryFetcher, the error logger, the symlink factory, digests, and the
-- ResolvableDigestHandleAllocator. new_digest_from_proto() and new_digest_from_compact_binary()
-- take the digest whose digest function or instance name they use.
pub record Calls (W M Digest Dir Leaf Symlink E : Type 0) : Type 0 where
  pub lookup_file : Digest → Bool → Leaf
  pub get_tree_root_directory : Digest → W → Result E (Directory M) × W
  pub get_tree_child_directory : Digest → Digest → W → Result E (Directory M) × W
  pub get_directory : Digest → W → Result E (Directory M) × W
  pub log : Description Digest → Cause E → W → W
  pub lookup_symlink : List ℕ → Option Symlink
  pub is_component : List ℕ → Bool
  pub new_digest_from_proto : Digest → M → Option Digest
  pub get_compact_binary : Digest → List ℕ
  pub new_digest_from_compact_binary : Digest → List ℕ → Option (Digest × List ℕ)
  pub as_linkable_leaf : Digest → List ℕ → Symlink → Leaf
  pub as_stateless_directory : Digest → List ℕ → Dir

-- A directory of a tree: treeRootCASDirectoryContext or treeChildCASDirectoryContext.
pub data TreeDirectory (Digest : Type 0) : Type 0 where
  root : TreeDirectory Digest
  child : Digest → TreeDirectory Digest

unfoldable pub tree_description :
    {Digest : Type 0} → Digest → TreeDirectory Digest → Description Digest
tree_description tree root = tree_root_directory tree
tree_description tree (child digest) = tree_child_directory tree digest

abbrev pub HandleResolver : Type 0 → Type 0 → Type 0 → Type 0
HandleResolver W Dir Leaf = List ℕ → W → Result Status (Child Dir Leaf) × W

module _ {W M Digest Dir Leaf Symlink E : Type 0}
    (calls : Calls W M Digest Dir Leaf Symlink E) where
  -- The end of GetDirectoryContents(), with LogError().
  unfoldable pub loaded :
      Description Digest → Result E (Directory M) × W → Result Status (Directory M) × W
  loaded d (ok x, w) = (ok x, w)
  loaded d (err e, w) = (err Status.err_io, calls.log d (fetching e) w)

  -- The bytes that the tree's allocator is given.
  unfoldable pub tree_id : TreeDirectory Digest → List ℕ
  tree_id root = 0 ∷ []
  tree_id (child digest) = 1 ∷ calls.get_compact_binary digest

  unfoldable pub tree_fetch : Digest → TreeDirectory Digest → W → Result E (Directory M) × W
  tree_fetch tree root w = calls.get_tree_root_directory tree w
  tree_fetch tree (child digest) w = calls.get_tree_child_directory tree digest w

  -- The context that NewCASDirectory() is given, with the allocator. lookup_directory() is that
  -- of treeCASDirectoryContext: of the directory that createChildDirectory() makes, only
  -- createSelf() is used, which needs no more than the allocation.
  unfoldable pub tree_context : Digest → TreeDirectory Digest → Context W M Digest Dir Leaf Symlink
  tree_context tree d = record {
    get_directory_contents = λ w. loaded (tree_description tree d) (tree_fetch tree d w);
    log_error = λ e w. calls.log (tree_description tree d) (reported e) w;
    lookup_directory =
        λ digest. calls.as_stateless_directory tree (tree_id (child digest) ++ 0 ∷ []);
    lookup_file = calls.lookup_file;
    new_digest_from_proto = calls.new_digest_from_proto tree;
    lookup_symlink = calls.lookup_symlink;
    as_linkable_leaf = λ bytes symlink. calls.as_linkable_leaf tree (tree_id d ++ bytes) symlink;
    as_stateless_directory = λ bytes. calls.as_stateless_directory tree (tree_id d ++ bytes);
    is_component = calls.is_component;
  }

  -- createRootDirectory()
  unfoldable pub create_root_directory : Digest → Dir × HandleResolver W Dir Leaf
  create_root_directory tree =
      (create_self (tree_context tree root), resolve_handle (tree_context tree root))

  -- createChildDirectory()
  unfoldable pub create_child_directory : Digest → Digest → Dir × HandleResolver W Dir Leaf
  create_child_directory tree digest = (
    create_self (tree_context tree (child digest)),
    resolve_handle (tree_context tree (child digest)),
  )

  -- LookupDirectory() of the factory.
  unfoldable pub lookup_tree : Digest → Dir
  lookup_tree tree = (create_root_directory tree).0

  -- resolve(), for the bytes that are left of a handle.
  unfoldable pub resolve_tree : Digest → HandleResolver W Dir Leaf
  resolve_tree tree [] w = (err Status.err_bad_handle, w)
  resolve_tree tree (is_child ∷ r) w =
      if is_child == 0
      then (create_root_directory tree).1 r w
      else if is_child == 1
      then (elim (calls.new_digest_from_compact_binary tree r) [
        | none ↦ (err Status.err_bad_handle, w)
        | some (digest, rest) ↦ (create_child_directory tree digest).1 rest w
      ])
      else (err Status.err_bad_handle, w)
