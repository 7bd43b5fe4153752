-- ===== src/CasDirectory/Open.antt =====
-- VirtualOpenChild() of casDirectory in pkg/filesystem/virtual/cas_directory.go, beside
-- VirtualLookup().
use bb_clientd.Prelude.{
  ℕ, ◌≡◌, refl, sym, ap, ◌∙◌, inl, inr, Bool, Option, none, some, Option-cases, List,
}
use bb_clientd.Prelude.Results.{Result, ok, err, Result-cases}
use bb_clientd.Vfs.{Status}
use bb_clientd.CasDirectory.{
  Context, Directory, DirectoryNode, FileNode, SymlinkNode, from_leaf, file_digest, find_entry,
  virtual_lookup, lookup_in, lookup_found, lookup_file_node,
}

-- `Options` stands for virtual.OpenExistingOptions. `wrong_file_type` and `doesnt_exist` are the
-- statuses of ReadOnlyDirectoryOpenChildWrongFileType(), which is given the status for an open of
-- an existing file, and of ReadOnlyDirectoryOpenChildDoesntExist(), which is given whether there
-- are attributes to create a file with. `open_self` is VirtualOpenSelf() of a leaf.
pub record Opening (W Leaf Options : Type 0) : Type 0 where
  pub wrong_file_type : Option Options → Status → Status
  pub doesnt_exist : Bool → Status
  pub open_self : Leaf → Options → W → Status × W

module _ {W M Digest Dir Leaf Symlink Options : Type 0}
    (context : Context W M Digest Dir Leaf Symlink) (opening : Opening W Leaf Options) where
  unfoldable pub opened : Leaf → Status × W → Result Status Leaf × W
  opened leaf (Status.ok, w) = (ok leaf, w)
  opened leaf (s, w) = (err s, w)

  unfoldable pub open_file_node : FileNode M → Option Options → W → Result Status Leaf × W
  open_file_node node none w = (err Status.err_exist, w)
  open_file_node node (some options) w = elim (context.new_digest_from_proto node.digest) [
    | none ↦ (err Status.err_io, context.log_error file_digest w)
    | some digest ↦
        let leaf = context.lookup_file digest node.is_executable in
        opened leaf (opening.open_self leaf options w)
  ]

  -- VirtualOpenChild(), given what its three searches find.
  unfoldable pub open_found :
      Option (ℕ × DirectoryNode M)
      → Option (ℕ × FileNode M)
      → Option (ℕ × SymlinkNode)
      → Bool
      → Option Options
      → W
      → Result Status Leaf × W
  open_found (some e) f s creates options w =
      (err (opening.wrong_file_type options Status.err_is_dir), w)
  open_found none (some e) s creates options w = open_file_node e.1 options w
  open_found none none (some e) creates options w =
      (err (opening.wrong_file_type options Status.err_symlink), w)
  open_found none none none creates options w = (err (opening.doesnt_exist creates), w)

  unfoldable pub open_in : Directory M → List ℕ → Bool → Option Options → W → Result Status Leaf × W
  open_in directory n creates options w =
      open_found (find_entry (λ (e : DirectoryNode M). e.name) directory.directories n)
        (find_entry (λ (e : FileNode M). e.name) directory.files n)
        (find_entry (λ (e : SymlinkNode). e.name) directory.symlinks n) creates options w

  -- VirtualOpenChild()
  unfoldable pub virtual_open_child : List ℕ → Bool → Option Options → W → Result Status Leaf × W
  virtual_open_child n creates options w =
      let (contents, w) = context.get_directory_contents w in
      elim contents [ err s ↦ (err s, w) | ok directory ↦ open_in directory n creates options w ]

  opened-ok :
      (l leaf : Leaf) (s : Status) (w v : W)
      → opened l (s, w) ≡ (ok leaf, v)
      → (l ≡ leaf) × (s ≡ Status.ok) × (w ≡ v)
  unfolding opened
  opened-ok l leaf Status.ok w v e = (cc, refl, cc)
  opened-ok l leaf s w v e = cc

  open_file-lookup :
      (node : FileNode M) (options : Option Options) (w v : W) (leaf : Leaf)
      → open_file_node node options w ≡ (ok leaf, v)
      → (lookup_file_node context node w ≡ (ok (from_leaf leaf), w))
        × ((o : Options) × (options ≡ some o) × (opening.open_self leaf o w ≡ (Status.ok, v)))
  unfolding open_file_node lookup_file_node opened
  open_file-lookup node none w v leaf e = cc
  open_file-lookup node (some o) w v leaf e =
      elim (Option-cases (context.new_digest_from_proto node.digest)) [
        | inl bad ↦
            let gives : open_file_node node (some o) w
                ≡ (err Status.err_io, context.log_error file_digest w) =
              rw (bad, open_file_node) refl in
            cc
        | inr (digest, good) ↦
            let l = context.lookup_file digest node.is_executable in
            let gives : open_file_node node (some o) w ≡ opened l (opening.open_self l o w) =
              rw (good, open_file_node) refl in
            let (same, fine, world) =
              opened-ok l leaf (opening.open_self l o w).0 (opening.open_self l o w).1 v
                (sym gives ∙ e) in
            (
              rw (good, lookup_file_node) (ap (λ t. (ok (from_leaf t), w)) same),
              (
                o,
                refl,
                ap (λ t. opening.open_self t o w) (sym same)
                    ∙ pair_of (opening.open_self l o w) fine world,
              ),
            )
      ]
    where
      pair_of : (x : Status × W) → x.0 ≡ Status.ok → x.1 ≡ v → x ≡ (Status.ok, v)
      pair_of x p q = rw (sym p, sym q) refl

  open_found-lookup :
      (dirs : Option (ℕ × DirectoryNode M)) (files : Option (ℕ × FileNode M))
      (symlinks : Option (ℕ × SymlinkNode)) (creates : Bool) (options : Option Options) (w v : W)
      (leaf : Leaf)
      → open_found dirs files symlinks creates options w ≡ (ok leaf, v)
      → (lookup_found context dirs files symlinks w ≡ (ok (from_leaf leaf), w))
        × ((o : Options) × (options ≡ some o) × (opening.open_self leaf o w ≡ (Status.ok, v)))
  unfolding open_found lookup_found
  open_found-lookup (some x) files symlinks creates options w v leaf e = cc
  open_found-lookup none (some x) symlinks creates options w v leaf e =
      open_file-lookup x.1 options w v leaf e
  open_found-lookup none none (some x) creates options w v leaf e = cc
  open_found-lookup none none none creates options w v leaf e = cc

  open_in-lookup :
      (directory : Directory M) (n : List ℕ) (creates : Bool) (options : Option Options) (w v : W)
      (leaf : Leaf)
      → open_in directory n creates options w ≡ (ok leaf, v)
      → (lookup_in context directory n w ≡ (ok (from_leaf leaf), w))
        × ((o : Options) × (options ≡ some o) × (opening.open_self leaf o w ≡ (Status.ok, v)))
  unfolding open_in lookup_in
  open_in-lookup directory n creates options w v leaf e =
      open_found-lookup (find_entry (λ (e : DirectoryNode M). e.name) directory.directories n)
        (find_entry (λ (e : FileNode M). e.name) directory.files n)
        (find_entry (λ (e : SymlinkNode). e.name) directory.symlinks n) creates options w v leaf e

  -- What VirtualOpenChild() opens without an error is a file: VirtualLookup() of the same name
  -- returns that file, existing files may be opened, and VirtualOpenSelf() of the file succeeds, in
  -- the world in which the directory's contents have been read.
  pub virtual_open_child-lookup :
      (n : List ℕ) (creates : Bool) (options : Option Options) (w v : W) (leaf : Leaf)
      → virtual_open_child n creates options w ≡ (ok leaf, v)
      → (virtual_lookup context n w ≡ (ok (from_leaf leaf), (context.get_directory_contents w).1))
        × ((o : Options) × (options ≡ some o)
            × (opening.open_self leaf o (context.get_directory_contents w).1 ≡ (Status.ok, v)))
  unfolding virtual_open_child virtual_lookup
  virtual_open_child-lookup n creates options w v leaf e =
      let (r, w1) = context.get_directory_contents w in
      elim (Result-cases r) [
        | inr (s, failed) ↦
            let gives : virtual_open_child n creates options w ≡ (err s, w1) =
              rw (failed, virtual_open_child) refl in
            cc
        | inl (directory, read) ↦
            let gives : virtual_open_child n creates options w
                ≡ open_in directory n creates options w1 =
              rw (read, virtual_open_child) refl in
            let (looked, success) =
              open_in-lookup directory n creates options w1 v leaf (sym gives ∙ e) in
            (rw (read, virtual_lookup) looked, success)
      ]
