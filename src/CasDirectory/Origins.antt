-- ===== src/CasDirectory/Origins.antt =====
-- Where the children come from that VirtualLookup() of pkg/filesystem/virtual/cas_directory.go
-- returns.
use bb_clientd.Prelude.{
  ℕ, ◌+◌, ◌≡◌, refl, sym, ◌∙◌, inl, inr, Bool, Option, none, some, Option-cases, List, get_elem?,
}
use bb_clientd.Prelude.Results.{ok, err, Result-cases}
use bb_clientd.Vfs.{Status}
use bb_clientd.CasDirectory.{
  Context, Child, Directory, DirectoryNode, FileNode, SymlinkNode, from_directory, from_leaf,
  find_entry, put_uvarint, virtual_lookup, lookup_in, lookup_found, lookup_directory_node,
  lookup_file_node, from_leaf_result, create_symlink, directory_digest, file_digest, symlink_target,
}
use bb_clientd.CasDirectory.Search.{find_entry_sound}

module _ {W M Digest Dir Leaf Symlink : Type 0}
    (context : Context W M Digest Dir Leaf Symlink) where
  -- A directory or a file of the CAS, or the symbolic link of the message with the given index.
  pub data Origin (directory : Directory M) (c : Child Dir Leaf) : Type 0 where
    of_directory :
        (message : M) (digest : Digest)
        → context.new_digest_from_proto message ≡ some digest
        → c ≡ from_directory (context.lookup_directory digest)
        → Origin directory c
    of_file :
        (digest : Digest) (is_executable : Bool)
        → c ≡ from_leaf (context.lookup_file digest is_executable)
        → Origin directory c
    of_symlink :
        (index : ℕ) (node : SymlinkNode) (symlink : Symlink)
        → get_elem? directory.symlinks index ≡ some node
        → context.lookup_symlink node.target ≡ some symlink
        → c ≡ from_leaf (context.as_linkable_leaf (put_uvarint 9 (index + 1)) symlink)
        → Origin directory c

  module _ (directory : Directory M) (w v : W) (c : Child Dir Leaf) where
    directory_node-Origin :
        (node : DirectoryNode M)
        → lookup_directory_node context node w ≡ (ok c, v)
        → Origin directory c
    unfolding lookup_directory_node
    directory_node-Origin node e = elim (Option-cases (context.new_digest_from_proto node.digest)) [
      | inl bad ↦
          let gives : lookup_directory_node context node w
              ≡ (err Status.err_io, context.log_error directory_digest w) =
            rw (bad, lookup_directory_node) refl in
          cc
      | inr (digest, good) ↦
          let gives : lookup_directory_node context node w
              ≡ (ok (from_directory (context.lookup_directory digest)), w) =
            rw (good, lookup_directory_node) refl in
          of_directory node.digest digest good (cc)
    ]

    file_node-Origin :
        (node : FileNode M) → lookup_file_node context node w ≡ (ok c, v) → Origin directory c
    unfolding lookup_file_node
    file_node-Origin node e = elim (Option-cases (context.new_digest_from_proto node.digest)) [
      | inl bad ↦
          let gives : lookup_file_node context node w
              ≡ (err Status.err_io, context.log_error file_digest w) =
            rw (bad, lookup_file_node) refl in
          cc
      | inr (digest, good) ↦
          let gives : lookup_file_node context node w
              ≡ (ok (from_leaf (context.lookup_file digest node.is_executable)), w) =
            rw (good, lookup_file_node) refl in
          of_file digest node.is_executable (cc)
    ]

    symlink-Origin :
        (index : ℕ) (node : SymlinkNode)
        → get_elem? directory.symlinks index ≡ some node
        → from_leaf_result context (create_symlink context index node.target w) ≡ (ok c, v)
        → Origin directory c
    unfolding create_symlink
    symlink-Origin index node at e = elim (Option-cases (context.lookup_symlink node.target)) [
      | inl bad ↦
          let gives : create_symlink context index node.target w
              ≡ (err Status.err_io, context.log_error symlink_target w) =
            rw (bad, create_symlink) refl in
          let left : from_leaf_result context (create_symlink context index node.target w)
              ≡ (err Status.err_io, context.log_error symlink_target w) =
            rw gives refl in
          cc
      | inr (symlink, good) ↦
          let leaf = context.as_linkable_leaf (put_uvarint 9 (index + 1)) symlink in
          let gives : create_symlink context index node.target w ≡ (ok leaf, w) =
            rw (good, create_symlink) refl in
          let left : from_leaf_result context (create_symlink context index node.target w)
              ≡ (ok (from_leaf leaf), w) =
            rw gives refl in
          of_symlink index node symlink at good (cc)
    ]

    lookup_found-Origin :
        (ds : Option (ℕ × DirectoryNode M)) (fs : Option (ℕ × FileNode M))
        (ss : Option (ℕ × SymlinkNode))
        → ((i : ℕ) (node : SymlinkNode)
            → ss ≡ some (i, node)
            → get_elem? directory.symlinks i ≡ some node)
        → lookup_found context ds fs ss w ≡ (ok c, v)
        → Origin directory c
    unfolding lookup_found
    lookup_found-Origin (some d) fs ss at e = directory_node-Origin d.1 e
    lookup_found-Origin none (some f) ss at e = file_node-Origin f.1 e
    lookup_found-Origin none none (some (i, node)) at e = symlink-Origin i node (at i node refl) e
    lookup_found-Origin none none none at e = cc

    lookup_in-Origin :
        (n : List ℕ) → lookup_in context directory n w ≡ (ok c, v) → Origin directory c
    unfolding lookup_in
    lookup_in-Origin n e =
        lookup_found-Origin (find_entry (λ (e : DirectoryNode M). e.name) directory.directories n)
          (find_entry (λ (e : FileNode M). e.name) directory.files n)
          (find_entry (λ (e : SymlinkNode). e.name) directory.symlinks n)
          (λ i node f.
            (find_entry_sound (λ (e : SymlinkNode). e.name) directory.symlinks n i node f).0)
          e

  -- What VirtualLookup() returns comes from the message.
  pub virtual_lookup-Origin :
      (n : List ℕ) (w v : W) (c : Child Dir Leaf)
      → virtual_lookup context n w ≡ (ok c, v)
      → (directory : Directory M) × ((context.get_directory_contents w).0 ≡ ok directory)
        × Origin directory c
  unfolding virtual_lookup
  virtual_lookup-Origin n w v c e =
      let (r, w1) = context.get_directory_contents w in
      elim (Result-cases r) [
        | inr (s, failed) ↦
            let gives : virtual_lookup context n w ≡ (err s, w1) =
              rw (failed, virtual_lookup) refl in
            cc
        | inl (directory, read) ↦
            let gives : virtual_lookup context n w ≡ lookup_in context directory n w1 =
              rw (read, virtual_lookup) refl in
            (directory, read, lookup_in-Origin directory w1 v c n (sym gives ∙ e))
      ]
