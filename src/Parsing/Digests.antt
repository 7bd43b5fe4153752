-- ===== src/Parsing/Digests.antt =====
-- pkg/filesystem/virtual/digest_parsing_directory.go: names of the form {hash}-{sizeBytes}.
--
-- A name is its bytes. NewDigest() of the digest function, the lookup function and the nodes that
-- it returns are in other repositories: they are arguments.
use bb_clientd.Prelude.{
  ℕ, suc, ◌+◌, ◌-◌, ◌*◌, ◌^◌, Bool, true, false, ◌&&◌, Option, none, some, List, [], ◌∷◌, take,
  drop, ltb, leb, ◌==◌, if◌then◌else◌,
}
use bb_clientd.Prelude.Integers.{ℤ, pos, neg}
use bb_clientd.Prelude.Results.{Result, ok, err}
use bb_clientd.Vfs.{Status, Attributes, FileType, OpenExistingOptions, no_attributes}

abbrev pub dash : ℕ
dash = 45

-- strings.LastIndex(n, "-"): none is a negative index.
unfoldable pub last_index : List ℕ → Option ℕ
last_index [] = none
last_index (c ∷ cs) = elim (last_index cs) [
  | some i ↦ some (suc i)
  | none ↦ if c == dash then some 0 else none
]

abbrev pub is_digit : ℕ → Bool
is_digit c = leb 48 c && leb c 57

-- The value of decimal digits, behind those that were read. Any other byte is an error.
unfoldable pub digits_from : ℕ → List ℕ → Option ℕ
digits_from n [] = some n
digits_from n (c ∷ cs) = if is_digit c then digits_from (10 * n + (c - 48)) cs else none

abbrev pub digits : List ℕ → Option ℕ
digits [] = none
digits (c ∷ cs) = digits_from 0 (c ∷ cs)

-- The range of an int64, for a value and its sign.
abbrev pub non_negative : Option ℕ → Option ℤ
non_negative none = none
non_negative (some n) = if ltb n (2 ^ 63) then some (pos n) else none

abbrev pub non_positive : Option ℕ → Option ℤ
non_positive none = none
non_positive (some n) = if leb n (2 ^ 63) then some (neg n) else none

-- strconv.ParseInt(s, 10, 64)
unfoldable pub parse_int : List ℕ → Option ℤ
parse_int [] = none
parse_int (c ∷ cs) =
    if c == 43
    then non_negative (digits cs)
    else if c == dash
    then non_positive (digits cs)
    else non_negative (digits (c ∷ cs))

-- What a node of the virtual file system is: GetPair() has a directory or a leaf.
pub data Child (Dir Leaf : Type 0) : Type 0 where
  directory : Dir → Child Dir Leaf
  leaf : Leaf → Child Dir Leaf

-- VirtualGetAttributes()
unfoldable pub virtual_get_attributes : ℕ → Attributes
virtual_get_attributes implicit_directory_link_count = record no_attributes {
  change_id = some 0;
  file_type = some FileType.directory;
  has_named_attributes = some false;
  is_in_named_attribute_directory = some false;
  link_count = some implicit_directory_link_count;
  permissions = some (record { read = false; write = false; execute = true });
  size_bytes = some 0;
}

module _ {Digest : Type 0} (new_digest : List ℕ → ℤ → Option Digest) where
  -- parseFilename(): the digest, and whether there is one.
  unfoldable pub parse_filename : List ℕ → Option Digest
  parse_filename n = elim (last_index n) [
    | none ↦ none
    | some i ↦ elim (parse_int (drop (suc i) n)) [
      | none ↦ none
      | some size_bytes ↦ new_digest (take i n) size_bytes
    ]
  ]

  module _ {W Dir Leaf : Type 0}
      (lookup_func : W → Digest → W × Result Status (Child Dir Leaf)) where
    -- VirtualLookup(); the attributes are those of the child.
    unfoldable pub virtual_lookup : W → List ℕ → W × Result Status (Child Dir Leaf)
    virtual_lookup w name = elim (parse_filename name) [
      | none ↦ (w, err Status.err_no_ent)
      | some digest ↦ lookup_func w digest
    ]

    -- VirtualOpenChild() on a child. `open_self` is VirtualOpenSelf() of a leaf.
    unfoldable pub open_found :
        (W → Leaf → OpenExistingOptions → W × Status)
        → OpenExistingOptions
        → W × Result Status (Child Dir Leaf)
        → W × Result Status Leaf
    open_found open_self existing_options (w, err s) = (w, err s)
    open_found open_self existing_options (w, ok (directory d)) = (w, err Status.err_is_dir)
    open_found open_self existing_options (w, ok (leaf l)) =
        let (w1, s) = open_self w l existing_options in
        elim s [ Status.ok ↦ (w1, ok l) | s' ↦ (w1, err s') ]

    -- VirtualOpenChild(). `doesnt_exist` is ReadOnlyDirectoryOpenChildDoesntExist(), whose argument
    -- is whether there are attributes to create a file with.
    unfoldable pub virtual_open_child :
        (Bool → Status)
        → (W → Leaf → OpenExistingOptions → W × Status)
        → W
        → List ℕ
        → Bool
        → Option OpenExistingOptions
        → W × Result Status Leaf
    virtual_open_child doesnt_exist open_self w name creates existing_options =
        elim (parse_filename name) [
          | none ↦ (w, err (doesnt_exist creates))
          | some digest ↦ elim existing_options [
            | none ↦ (w, err Status.err_exist)
            | some options ↦ open_found open_self options (lookup_func w digest)
          ]
        ]
