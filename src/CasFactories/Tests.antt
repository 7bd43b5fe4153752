-- ===== src/CasFactories/Tests.antt =====
-- Runs and instances for the factories of CAS directories and for pkg/cas/tree_directory_walker.go.
use Prim.Native.String.{String}
use bb_clientd.Prelude.{
  ap, Option, ◌==◌, if◌then◌else◌, ℕ, ◌≡◌, ◌⊎◌, refl, true, some, none, List, [], ◌∷◌, ◌++◌, arith,
}
use bb_clientd.Prelude.Results.{ok, err}
use bb_clientd.Vfs.{Status}
use bb_clientd.CasDirectory.{
  Directory, from_directory, from_leaf, find_entry, search, put_uvarint, read_uvarint, create_self,
  create_symlink, resolve_index, resolve_handle, lookup_directory_node, lookup_found, lookup_in,
  virtual_lookup,
}
use bb_clientd.CasFactories.{
  Calls, Description, Cause, fetching, child, loaded, tree_id, tree_fetch, tree_context,
  create_root_directory, create_child_directory, lookup_tree, resolve_tree,
}
use bb_clientd.CasFactories.Walker.{
  new_tree_directory_walker, get_containing_digest, get_description, walker_get_directory, walk,
  directory_at, walker-get_directory_contents,
}
use bb_clientd.CasFactories.Handles.{HasHandle, IsCasFile, resolve_tree-virtual_lookup}

-- A directory "a" and a symbolic link "d".
abbrev contents : Directory ℕ
contents = record {
  directories = record { name = 97 ∷ []; digest = 1 } ∷ [];
  files = [];
  symlinks = record { name = 100 ∷ []; target = 46 ∷ [] } ∷ [];
}

abbrev tree : ℕ
tree = 7

abbrev first_byte : List ℕ → Option (ℕ × List ℕ)
first_byte [] = none
first_byte (b ∷ bytes) = some (b, bytes)

-- The world is what has been logged. Directories and leaves are handles; the fetcher does not find
-- child directory 5.
abbrev calls : Calls (List (Description ℕ × Cause String)) ℕ ℕ (ℕ × List ℕ) (ℕ × List ℕ) ℕ String
calls = record {
  lookup_file = λ digest x. (digest, []);
  get_tree_root_directory = λ tree w. (ok contents, w);
  get_tree_child_directory =
      λ tree digest w. (if digest == 5 then err "not found" else ok contents, w);
  get_directory = λ digest w. (ok contents, w);
  log = λ d e w. w ++ (d, e) ∷ [];
  lookup_symlink = λ target. some 9;
  is_component = λ name. true;
  new_digest_from_proto = λ digest m. some m;
  get_compact_binary = λ digest. digest ∷ [];
  new_digest_from_compact_binary = λ digest bytes. first_byte bytes;
  as_linkable_leaf = λ digest bytes symlink. (digest, bytes);
  as_stateless_directory = λ digest bytes. (digest, bytes);
}

lookup_a :
    virtual_lookup (tree_context calls 7 (child 3)) (97 ∷ []) []
    ≡ (ok (from_directory (7, 1 ∷ 1 ∷ 0 ∷ [])), [])
unfolding tree_context tree_id tree_fetch loaded virtual_lookup lookup_in lookup_found find_entry
    search lookup_directory_node
lookup_a = refl

-- The symbolic link of child directory 3, by its handle.
resolve_link : resolve_tree calls 7 (1 ∷ 3 ∷ 1 ∷ []) [] ≡ (ok (from_leaf (7, 1 ∷ 3 ∷ 1 ∷ [])), [])
unfolding resolve_tree create_child_directory tree_context tree_id tree_fetch loaded resolve_handle
    read_uvarint resolve_index create_symlink put_uvarint
resolve_link = refl

resolve_root :
    resolve_tree calls 7 (0 ∷ 0 ∷ []) [] ≡ (ok (from_directory (lookup_tree calls 7)), [])
unfolding resolve_tree lookup_tree create_root_directory tree_context tree_id resolve_handle
    read_uvarint resolve_index create_self
resolve_root = refl

resolve_bad : resolve_tree calls 7 (2 ∷ 0 ∷ []) [] ≡ (err Status.err_bad_handle, [])
unfolding resolve_tree
resolve_bad = refl

loads_child : (tree_context calls 7 (child 3)).get_directory_contents [] ≡ (ok contents, [])
unfolding tree_context tree_fetch loaded
loads_child = refl

reads :
    (message digest : ℕ) (rest : List ℕ)
    → calls.new_digest_from_proto 7 message ≡ some digest
    → calls.new_digest_from_compact_binary 7 (calls.get_compact_binary digest ++ rest)
      ≡ some (digest, rest)
reads message digest rest e = refl

resolve_tree-virtual_lookup_example :
    IsCasFile calls (from_directory (7, 1 ∷ 1 ∷ 0 ∷ []))
    ⊎ ((bytes : List ℕ) × HasHandle calls 7 bytes (from_directory (7, 1 ∷ 1 ∷ 0 ∷ []))
        × ((resolve_tree calls 7 bytes []).0 ≡ ok (from_directory (7, 1 ∷ 1 ∷ 0 ∷ []))))
resolve_tree-virtual_lookup_example =
    resolve_tree-virtual_lookup calls 7 reads (child 3) (97 ∷ []) [] [] [] contents
      (from_directory (7, 1 ∷ 1 ∷ 0 ∷ [])) (λ rest. refl) (ap (λ r. r.0) loads_child)
      (ap (λ r. r.0) loads_child) (omega arith) lookup_a

walker-get_directory_contents_example :
    let walker = walk (new_tree_directory_walker tree none) (3 ∷ 5 ∷ []) in
    let read = (tree_context calls tree (directory_at none (3 ∷ 5 ∷ []))).get_directory_contents in
    (get_containing_digest walker ≡ 7)
    × (((x : Directory ℕ) × (w : List (Description ℕ × Cause String)) × (walker_get_directory calls
              walker []
            ≡ (ok x, w))
          × (read [] ≡ (ok x, w)))
        ⊎ ((e : String) × (w : List (Description ℕ × Cause String)) × (walker_get_directory calls
                walker []
              ≡ (err e, w))
            × (read [] ≡ (err Status.err_io, w ++ (get_description walker, fetching e) ∷ []))))
walker-get_directory_contents_example =
    walker-get_directory_contents calls tree none (3 ∷ 5 ∷ []) []
