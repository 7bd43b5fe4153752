-- ===== src/CasDirectory/Handles.antt =====
-- The handles of symbolic links of pkg/filesystem/virtual/cas_directory.go.
use bb_clientd.Prelude.{
  ℕ, zero, suc, ◌+◌, ◌*◌, ◌/◌, ◌^◌, ◌<◌, ◌≡◌, refl, ap, some, List, arith, get_elem?,
}
use bb_clientd.Prelude.Results.{ok}
use bb_clientd.CasDirectory.{
  Context, Directory, put_uvarint, read_uvarint, create_symlink, from_leaf, from_leaf_result,
  resolve_index, resolve_handle,
}

-- 2 ^ 7 for each byte, and one bit in the tenth.
abbrev pub uvarint_bound : ℕ → ℕ
uvarint_bound zero = 2
uvarint_bound (suc k) = 128 * uvarint_bound k

pub read_uvarint-put_uvarint :
    (k x : ℕ) → x < uvarint_bound k → read_uvarint (suc k) (put_uvarint k x) ≡ some x
unfolding read_uvarint put_uvarint
read_uvarint-put_uvarint zero x h = ground arith
read_uvarint-put_uvarint (suc k) x h =
    ground (arith, read_uvarint-put_uvarint k (x / 128) (omega arith))

module _ {W M Digest Dir Leaf Symlink : Type 0}
    (context : Context W M Digest Dir Leaf Symlink) where
  create_symlink-accepted :
      (index : ℕ) (target : List ℕ) (w : W) (symlink : Symlink)
      → context.lookup_symlink target ≡ some symlink
      → create_symlink context index target w
        ≡ (ok (context.as_linkable_leaf (put_uvarint 9 (index + 1)) symlink), w)
  unfolding create_symlink
  create_symlink-accepted index target w symlink accepted = rw (accepted, create_symlink) refl

  pub resolve_handle-index :
      (w w' : W) (directory : Directory M) (index : ℕ) (name target : List ℕ) (symlink : Symlink)
      → context.get_directory_contents w ≡ (ok directory, w')
      → get_elem? directory.symlinks index ≡ some (record { name = name; target = target })
      → context.lookup_symlink target ≡ some symlink
      → index + 1 < 2 ^ 64
      → resolve_handle context (put_uvarint 9 (index + 1)) w
        ≡ (ok (from_leaf (context.as_linkable_leaf (put_uvarint 9 (index + 1)) symlink)), w')
  unfolding resolve_handle resolve_index
  resolve_handle-index w w' directory index name target symlink loads e accepted h =
      let fits : index + 1 < uvarint_bound 9 = omega arith in
      let reads = read_uvarint-put_uvarint 9 (index + 1) fits in
      let next : index + 1 ≡ suc index = omega arith in
      let creates = create_symlink-accepted index target w' symlink accepted in
      let after : (context.get_directory_contents w).1 ≡ w' = ap (λ t. t.1) loads in
      rw (reads, resolve_handle)
        (rw next (
          rw (loads, resolve_index)
            (rw e (rw after (rw (creates, from_leaf_result) (rw next refl))))))

  -- createSymlink() gives the symbolic link of an entry of the Directory message a handle that
  -- is resolved to that link: reading it back loads the directory and ends with the very leaf that
  -- createSymlink() returns. It is so where the message can be loaded, where the target is one
  -- that the symlink factory accepts, and where the index fits a uint64.
  pub resolve_handle-create_symlink :
      (w w' : W) (directory : Directory M) (index : ℕ) (name target : List ℕ) (symlink : Symlink)
      → context.get_directory_contents w ≡ (ok directory, w')
      → get_elem? directory.symlinks index ≡ some (record { name = name; target = target })
      → context.lookup_symlink target ≡ some symlink
      → index + 1 < 2 ^ 64
      → (handle : List ℕ) × (create_symlink context index target w'
          ≡ (ok (context.as_linkable_leaf handle symlink), w'))
        × (resolve_handle context handle w
            ≡ (ok (from_leaf (context.as_linkable_leaf handle symlink)), w'))
  resolve_handle-create_symlink w w' directory index name target symlink loads e accepted h = (
    put_uvarint 9 (index + 1),
    create_symlink-accepted index target w' symlink accepted,
    resolve_handle-index w w' directory index name target symlink loads e accepted h,
  )
