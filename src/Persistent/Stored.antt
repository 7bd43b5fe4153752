-- ===== src/Persistent/Stored.antt =====
-- How a tree of directories stands in a state file that saveDirectoryRecursive() of
-- pkg/filesystem/virtual/persistent_output_path_factory.go has written.
use Prim.Native.String.{String}
use bb_clientd.Prelude.{
  ℕ, suc, ◌+◌, ◌≤◌, ◌≡◌, Bool, false, Option, none, some, List, [], ◌∷◌, ◌++◌, arith,
}
use bb_clientd.StateFile.Format.{FileRegion}
use bb_clientd.StateFile.Reader.Stored.{Stands, Stands-append, end_of}
use bb_clientd.Persistent.Messages.{Directory, DirectoryNode, Applied}
use bb_clientd.Persistent.Save.{Tree, Forest, unreadable, node, leafless, child}
use bb_clientd.Persistent.Leaves.{files_of, symlinks_of}

-- What a reader of the children of a message may read up to.
abbrev pub start_of : Option FileRegion → ℕ
start_of none = 0
start_of (some r) = r.offset_bytes

-- The number of directories below one.
unfoldable mutual
  pub count : {L : Type 0} → Tree L → ℕ
  count unreadable = 0
  count (node directories leaves) = count_forest directories

  pub count_forest : {L : Type 0} → Forest L → ℕ
  count_forest leafless = 0
  count_forest (child name directory others) = suc (count directory + count_forest others)

module _ {L P : Type 0} (apply : L → Option (Applied P))
    (unmarshal : List ℕ → Option (Directory P)) where
  mutual
    -- The message of a directory: its leaves, and a region for each child, which stands in the
    -- body of the file and ends before the limit. The children of a child end before its start.
    pub data StoredDir (body : List ℕ) : ℕ → Bool → Directory P → Tree L → Type 0 where
      stored_dir :
          {limit : ℕ} {root : Bool} {m : Directory P} {directories : Forest L}
          {leaves : List (String × L)}
          → StoredForest body limit m.directories directories
          → m.files ≡ files_of apply root leaves
          → m.symlinks ≡ symlinks_of apply root leaves
          → StoredDir body limit root m (node directories leaves)

    pub data StoredForest (body : List ℕ) : ℕ → List DirectoryNode → Forest L → Type 0 where
      stored_none : {limit : ℕ} → StoredForest body limit [] leafless
      stored_child :
          {limit : ℕ} {entry : DirectoryNode} {entries : List DirectoryNode} {directory : Tree L}
          {others : Forest L} (bytes : List ℕ) (m : Directory P)
          → Stands body entry.file_region bytes
          → unmarshal bytes ≡ some m
          → end_of entry.file_region ≤ limit
          → StoredDir body (start_of entry.file_region) false m directory
          → StoredForest body limit entries others
          → StoredForest body limit (entry ∷ entries) (child entry.name directory others)

  -- What stands in a file still does when it has grown.
  mutual
    pub StoredDir-append :
        {body : List ℕ} {limit : ℕ} {root : Bool} {m : Directory P} {t : Tree L} (more : List ℕ)
        → StoredDir body limit root m t
        → StoredDir (body ++ more) limit root m t
    StoredDir-append more (stored_dir below files symlinks) =
        stored_dir (StoredForest-append more below) files symlinks

    pub StoredForest-append :
        {body : List ℕ} {limit : ℕ} {entries : List DirectoryNode} {f : Forest L} (more : List ℕ)
        → StoredForest body limit entries f
        → StoredForest (body ++ more) limit entries f
    StoredForest-append more stored_none = stored_none
    StoredForest-append more (stored_child bytes m stands parsed fits below others) =
        stored_child bytes m (Stands-append more stands) parsed fits (StoredDir-append more below)
          (StoredForest-append more others)

  pub StoredForest-raise :
      {body : List ℕ} {limit higher : ℕ} {entries : List DirectoryNode} {f : Forest L}
      → limit ≤ higher
      → StoredForest body limit entries f
      → StoredForest body higher entries f
  StoredForest-raise h stored_none = stored_none
  StoredForest-raise h (stored_child bytes m stands parsed fits below others) =
      stored_child bytes m stands parsed (omega arith) below (StoredForest-raise h others)

  -- A message without children is not bound to its place.
  StoredForest-nil :
      {body : List ℕ} {limit : ℕ} {entries : List DirectoryNode} {f : Forest L} (any : ℕ)
      → entries ≡ []
      → StoredForest body limit entries f
      → StoredForest body any entries f
  StoredForest-nil any e stored_none = stored_none
  StoredForest-nil any e (stored_child bytes m stands parsed fits below others) = cc

  pub StoredDir-nil :
      {body : List ℕ} {limit : ℕ} {root : Bool} {m : Directory P} {t : Tree L} (any : ℕ)
      → m.directories ≡ []
      → StoredDir body limit root m t
      → StoredDir body any root m t
  StoredDir-nil any e (stored_dir below files symlinks) =
      stored_dir (StoredForest-nil any e below) files symlinks
