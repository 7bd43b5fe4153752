-- ===== src/CasDirectory.antt =====
-- pkg/filesystem/virtual/cas_directory.go: a read-only directory for a Directory message.
--
-- The world `W` is passed along: LogError(), GetDirectoryContents() and the reporter change it. The
-- attributes of a child are the child's own, and are left to the caller. Names are Go strings,
-- that is byte strings, which Go compares byte by byte.
use bb_clientd.Prelude.{
  ℕ, zero, suc, ◌+◌, ◌-◌, ◌*◌, ◌/◌, ◌%◌, Bool, true, false, ◌&&◌, Option, none, some, List, [], ◌∷◌,
  if◌then◌else◌, ltb, leb, ◌==◌, length, get_elem?,
}
use bb_clientd.Prelude.Results.{Result, ok, err}
use bb_clientd.Vfs.{Status}
pub mod Names
pub mod Search
pub mod Lookup
pub mod ReadDir
pub mod Handles
pub mod Attributes
pub mod Origins
pub mod Open
mod Tests

-- a < b on Go strings.
abbrev pub name_lt : List ℕ → List ℕ → Bool
name_lt xs [] = false
name_lt [] (y ∷ ys) = true
name_lt (x ∷ xs) (y ∷ ys) = if ltb x y then true else (if x == y then name_lt xs ys else false)

abbrev pub name_eq : List ℕ → List ℕ → Bool
name_eq [] [] = true
name_eq [] (y ∷ ys) = false
name_eq (x ∷ xs) [] = false
name_eq (x ∷ xs) (y ∷ ys) = if x == y then name_eq xs ys else false

-- The entries of remoteexecution.Directory, a digest being the message that stands for one.
pub record DirectoryNode (M : Type 0) : Type 0 where
  pub name : List ℕ
  pub digest : M

pub record FileNode (M : Type 0) : Type 0 where
  pub name : List ℕ
  pub digest : M
  pub is_executable : Bool

pub record SymlinkNode : Type 0 where
  pub name : List ℕ
  pub target : List ℕ

pub record Directory (M : Type 0) : Type 0 where
  pub directories : List (DirectoryNode M)
  pub files : List (FileNode M)
  pub symlinks : List SymlinkNode

-- virtual.DirectoryChild
pub data Child (Dir Leaf : Type 0) : Type 0 where
  from_directory : Dir → Child Dir Leaf
  from_leaf : Leaf → Child Dir Leaf

-- What LogError() is given.
pub data Logged : Type 0 where
  directory_name file_name symlink_name directory_digest file_digest symlink_target : Logged

-- The CASDirectoryContext, the digest function, the symlink factory and the handle allocator.
-- `as_linkable_leaf` and `as_stateless_directory` are given the bytes of the handle.
pub record Context (W M Digest Dir Leaf Symlink : Type 0) : Type 0 where
  pub get_directory_contents : W → Result Status (Directory M) × W
  pub log_error : Logged → W → W
  pub lookup_directory : Digest → Dir
  pub lookup_file : Digest → Bool → Leaf
  pub new_digest_from_proto : M → Option Digest
  pub lookup_symlink : List ℕ → Option Symlink
  pub as_linkable_leaf : List ℕ → Symlink → Leaf
  pub as_stateless_directory : List ℕ → Dir
  pub is_component : List ℕ → Bool

-- sort.Search(): the loop on the bounds i and j.
unfoldable pub search : ℕ → (ℕ → Bool) → ℕ → ℕ → ℕ
search zero f i j = i
search (suc fuel) f i j =
    let h = (i + j) / 2 in
    let left = search fuel f i h in
    let right = search fuel f (h + 1) j in if ltb i j then (if f h then left else right) else i

-- The test of the searches: entries[i].Name >= n.
abbrev pub name_at_least : {A : Type 0} → (A → List ℕ) → List A → List ℕ → ℕ → Bool
name_at_least name xs n i = elim (get_elem? xs i) [
  | none ↦ true
  | some x ↦ if name_lt (name x) n then false else true
]

-- if i := sort.Search(…); i < len(entries) && entries[i].Name == n
unfoldable pub find_entry : {A : Type 0} → (A → List ℕ) → List A → List ℕ → Option (ℕ × A)
find_entry name xs n =
    let i = search (length xs + 1) (name_at_least name xs n) 0 (length xs) in
    elim (get_elem? xs i) [
      | none ↦ none
      | some x ↦ if name_eq (name x) n then some (i, x) else none
    ]

-- binary.PutUvarint(), seven bits a byte, the lowest first.
unfoldable pub put_uvarint : ℕ → ℕ → List ℕ
put_uvarint zero x = x % 256 ∷ []
put_uvarint (suc fuel) x =
    let rest = put_uvarint fuel (x / 128) in if leb 128 x then (128 + x % 128) ∷ rest else x ∷ []

-- binary.ReadUvarint(), with the number of bytes it may still read; none is its error.
unfoldable pub read_uvarint : ℕ → List ℕ → Option ℕ
read_uvarint zero bs = none
read_uvarint (suc k) [] = none
read_uvarint (suc k) (b ∷ bs) =
    let rest = read_uvarint k bs in
    if ltb b 128
    then (if (k == 0) && ltb 1 b then none else some b)
    else (elim rest [ none ↦ none | some x ↦ some ((b - 128) + 128 * x) ])

module _ {W M Digest Dir Leaf Symlink : Type 0}
    (context : Context W M Digest Dir Leaf Symlink) where
  unfoldable pub create_self : Dir
  create_self = context.as_stateless_directory (0 ∷ [])

  unfoldable pub create_symlink : ℕ → List ℕ → W → Result Status Leaf × W
  create_symlink index target w = elim (context.lookup_symlink target) [
    | none ↦ (err Status.err_io, context.log_error symlink_target w)
    | some symlink ↦ (ok (context.as_linkable_leaf (put_uvarint 9 (index + 1)) symlink), w)
  ]

  abbrev pub from_leaf_result : Result Status Leaf × W → Result Status (Child Dir Leaf) × W
  from_leaf_result (ok leaf, w) = (ok (from_leaf leaf), w)
  from_leaf_result (err s, w) = (err s, w)

  -- resolveHandle(), after the index has been read.
  unfoldable pub resolve_index : ℕ → W → Result Status (Child Dir Leaf) × W
  resolve_index zero w = (ok (from_directory create_self), w)
  resolve_index (suc index) w =
      let (contents, w) = context.get_directory_contents w in
      elim contents [
        | err s ↦ (err s, w)
        | ok directory ↦ elim (get_elem? (directory.symlinks) index) [
          | none ↦ (err Status.err_bad_handle, w)
          | some symlink ↦ from_leaf_result (create_symlink index symlink.target w)
        ]
      ]

  unfoldable pub resolve_handle : List ℕ → W → Result Status (Child Dir Leaf) × W
  resolve_handle r w = elim (read_uvarint 10 r) [
    | none ↦ (err Status.err_bad_handle, w)
    | some index ↦ resolve_index index w
  ]

  unfoldable pub lookup_directory_node : DirectoryNode M → W → Result Status (Child Dir Leaf) × W
  lookup_directory_node node w = elim (context.new_digest_from_proto node.digest) [
    | none ↦ (err Status.err_io, context.log_error directory_digest w)
    | some digest ↦ (ok (from_directory (context.lookup_directory digest)), w)
  ]

  unfoldable pub lookup_file_node : FileNode M → W → Result Status (Child Dir Leaf) × W
  lookup_file_node node w = elim (context.new_digest_from_proto node.digest) [
    | none ↦ (err Status.err_io, context.log_error file_digest w)
    | some digest ↦ (ok (from_leaf (context.lookup_file digest node.is_executable)), w)
  ]

  -- VirtualLookup(), given what its three searches find: directories go first, then files.
  unfoldable pub lookup_found :
      Option (ℕ × DirectoryNode M)
      → Option (ℕ × FileNode M)
      → Option (ℕ × SymlinkNode)
      → W
      → Result Status (Child Dir Leaf) × W
  lookup_found (some e) f s w = lookup_directory_node e.1 w
  lookup_found none (some e) s w = lookup_file_node e.1 w
  lookup_found none none (some e) w = from_leaf_result (create_symlink e.0 e.1.target w)
  lookup_found none none none w = (err Status.err_no_ent, w)

  unfoldable pub lookup_in : Directory M → List ℕ → W → Result Status (Child Dir Leaf) × W
  lookup_in directory n w =
      lookup_found (find_entry (λ (e : DirectoryNode M). e.name) directory.directories n)
        (find_entry (λ (e : FileNode M). e.name) directory.files n)
        (find_entry (λ (e : SymlinkNode). e.name) directory.symlinks n) w

  unfoldable pub virtual_lookup : List ℕ → W → Result Status (Child Dir Leaf) × W
  virtual_lookup n w =
      let (contents, w) = context.get_directory_contents w in
      elim contents [ err s ↦ (err s, w) | ok directory ↦ lookup_in directory n w ]
