-- ===== src/CasFactories/Handles.antt =====
-- Nodes of pkg/filesystem/virtual/tree_cas_directory_factory.go and
-- decomposed_cas_directory_factory.go that a lookup has returned are found again by their handles.
use mathlib.Core.Path.{subst}
use bb_clientd.Prelude.{
  ℕ, ◌+◌, ◌<◌, ◌^◌, ◌≡◌, ◌⊎◌, sym, ap, ◌∙◌, inl, inr, Bool, some, List, [], ◌∷◌, ◌++◌, length,
}
use bb_clientd.Prelude.Results.{ok, ok-injective}
use bb_clientd.CasDirectory.{
  Child, Directory, from_directory, from_leaf, put_uvarint, create_self, virtual_lookup,
}
use bb_clientd.CasDirectory.Origins.{
  Origin, of_directory, of_file, of_symlink, virtual_lookup-Origin,
}
use bb_clientd.CasFactories.{Calls, TreeDirectory, child, tree_id, tree_context, resolve_tree}
use bb_clientd.CasFactories.Resolving.{
  resolve_handle_self, resolve_handle-symlink, Reads, resolve_tree-tree_id,
}
use bb_clientd.CasFactories.Decomposed.{
  decomposed_context, create_decomposed, lookup_decomposed, resolve_decomposed,
}

abbrev first : {A B : Type 0} → A × B → A
first p = p.0

module _ {W M Digest Dir Leaf Symlink E : Type 0}
    (calls : Calls W M Digest Dir Leaf Symlink E) where
  -- A directory or a symbolic link that has the handle of a digest and some bytes.
  abbrev pub HasHandle : Digest → List ℕ → Child Dir Leaf → Type 0
  HasHandle digest bytes c =
      (c ≡ from_directory (calls.as_stateless_directory digest bytes))
      ⊎ ((symlink : Symlink) × (c ≡ from_leaf (calls.as_linkable_leaf digest bytes symlink)))

  -- A file, which the CASFileFactory resolves.
  abbrev pub IsCasFile : Child Dir Leaf → Type 0
  IsCasFile c =
      (digest : Digest) × (is_executable : Bool) × (c
        ≡ from_leaf (calls.lookup_file digest is_executable))

  module _ (tree : Digest)
      (reads : (message : M) (digest : Digest) (rest : List ℕ)
        → calls.new_digest_from_proto tree message ≡ some digest
        → calls.new_digest_from_compact_binary tree (calls.get_compact_binary digest ++ rest)
          ≡ some (digest, rest)) where
    origin-resolve :
        (d : TreeDirectory Digest) (u : W) (directory : Directory M) (c : Child Dir Leaf)
        → Reads calls tree d
        → ((tree_context calls tree d).get_directory_contents u).0 ≡ ok directory
        → length directory.symlinks < 2 ^ 64
        → Origin (tree_context calls tree d) directory c
        → IsCasFile c
          ⊎ ((bytes : List ℕ) × HasHandle tree bytes c
              × ((resolve_tree calls tree bytes u).0 ≡ ok c))
    unfolding tree_context create_self
    origin-resolve d u directory c h loads few (of_file digest x e) = inl (digest, x, e)
    origin-resolve d u directory c h loads few (of_directory message digest good e) = inr (
      tree_id calls (child digest) ++ 0 ∷ [],
      inl e,
      ap first (
            resolve_tree-tree_id calls tree (child digest) (0 ∷ []) u
              (λ rest. reads message digest rest good)
            ∙ resolve_handle_self (tree_context calls tree (child digest)) u)
          ∙ ap ok (sym e),
    )
    origin-resolve d u directory c h loads few (of_symlink index node symlink at good e) = inr (
      tree_id calls d ++ put_uvarint 9 (index + 1),
      inr (symlink, e),
      ap first (resolve_tree-tree_id calls tree d (put_uvarint 9 (index + 1)) u h)
          ∙ resolve_handle-symlink (tree_context calls tree d) u directory index node symlink loads
              few at good
          ∙ ap ok (sym e),
    )

    -- What VirtualLookup() returns for any name in any directory of a tree is a file of the CAS, or
    -- it has a handle that resolve() of the factory leads back to it, at any time at which
    -- GetDirectoryContents() gives the same message as before. The condition is that
    -- NewDigestFromCompactBinary() reads what GetCompactBinary() wrote, for digests that come from
    -- the messages of the tree, and that the message has less than 2 ^ 64 symbolic links.
    pub resolve_tree-virtual_lookup :
        (d : TreeDirectory Digest) (n : List ℕ) (u v w : W) (directory : Directory M)
        (c : Child Dir Leaf)
        → Reads calls tree d
        → ((tree_context calls tree d).get_directory_contents w).0 ≡ ok directory
        → ((tree_context calls tree d).get_directory_contents u).0 ≡ ok directory
        → length directory.symlinks < 2 ^ 64
        → virtual_lookup (tree_context calls tree d) n w ≡ (ok c, v)
        → IsCasFile c
          ⊎ ((bytes : List ℕ) × HasHandle tree bytes c
              × ((resolve_tree calls tree bytes u).0 ≡ ok c))
    resolve_tree-virtual_lookup d n u v w directory c h before later few e =
        let (message, loaded, origin) =
          virtual_lookup-Origin (tree_context calls tree d) n w v c e in
        let same : message ≡ directory = ok-injective (sym loaded ∙ before) in
        origin-resolve d u directory c h later few
          (subst (λ x. Origin (tree_context calls tree d) x c) same origin)

  resolve_decomposed_self :
      (other : Digest) (u : W)
      → resolve_decomposed calls other (0 ∷ []) u
        ≡ (ok (from_directory (lookup_decomposed calls other)), u)
  unfolding resolve_decomposed create_decomposed lookup_decomposed
  resolve_decomposed_self other u = resolve_handle_self (decomposed_context calls other) u

  -- The same of directories that are messages of their own.
  module _ (digest : Digest) where
    decomposed_origin-resolve :
        (u : W) (directory : Directory M) (c : Child Dir Leaf)
        → ((decomposed_context calls digest).get_directory_contents u).0 ≡ ok directory
        → length directory.symlinks < 2 ^ 64
        → Origin (decomposed_context calls digest) directory c
        → IsCasFile c
          ⊎ ((other : Digest) × (bytes : List ℕ) × HasHandle other bytes c
              × ((resolve_decomposed calls other bytes u).0 ≡ ok c))
    unfolding decomposed_context create_self lookup_decomposed create_decomposed resolve_decomposed
    decomposed_origin-resolve u directory c loads few (of_file other x e) = inl (other, x, e)
    decomposed_origin-resolve u directory c loads few (of_directory message other good e) =
        inr (other, 0 ∷ [], inl e, ap first (resolve_decomposed_self other u) ∙ ap ok (sym e))
    decomposed_origin-resolve u directory c loads few (of_symlink index node symlink at good e) =
        inr (
          digest,
          put_uvarint 9 (index + 1),
          inr (symlink, e),
          resolve_handle-symlink (decomposed_context calls digest) u directory index node symlink
                loads few at good
              ∙ ap ok (sym e),
        )

    -- What VirtualLookup() returns for any name in a directory that is a message of its own is a
    -- file of the CAS, or it has a handle that resolve() leads back to it, at any time at which
    -- GetDirectoryContents() gives the same message as before, which has less than 2 ^ 64 symbolic
    -- links.
    pub resolve_decomposed-virtual_lookup :
        (n : List ℕ) (u v w : W) (directory : Directory M) (c : Child Dir Leaf)
        → ((decomposed_context calls digest).get_directory_contents w).0 ≡ ok directory
        → ((decomposed_context calls digest).get_directory_contents u).0 ≡ ok directory
        → length directory.symlinks < 2 ^ 64
        → virtual_lookup (decomposed_context calls digest) n w ≡ (ok c, v)
        → IsCasFile c
          ⊎ ((other : Digest) × (bytes : List ℕ) × HasHandle other bytes c
              × ((resolve_decomposed calls other bytes u).0 ≡ ok c))
    resolve_decomposed-virtual_lookup n u v w directory c before later few e =
        let context = decomposed_context calls digest in
        let (message, loaded, origin) = virtual_lookup-Origin context n w v c e in
        let same : message ≡ directory = ok-injective (sym loaded ∙ before) in
        decomposed_origin-resolve u directory c later few
          (subst (λ x. Origin context x c) same origin)
