-- ===== src/CasDirectory/ReadDir.antt =====
-- VirtualReadDir() of pkg/filesystem/virtual/cas_directory.go: the three loops. Cookies are below
-- 2 ^ 64.
use Prim.Native.Nat.{max}
use bb_clientd.Prelude.{
  ℕ, ◌+◌, ◌-◌, Bool, Option, none, some, List, [], ◌∷◌, if◌then◌else◌, length, drop,
}
use bb_clientd.Prelude.Results.{Result, ok, err}
use bb_clientd.Vfs.{Status}
use bb_clientd.CasDirectory.{
  DirectoryNode, FileNode, SymlinkNode, Directory, Child, Context, Logged, directory_name,
  file_name, symlink_name, create_symlink, from_leaf_result, lookup_directory_node,
  lookup_file_node,
}
pub mod Nodes
pub mod Children

-- The variable i after a loop that was not left: it is at least the number of entries.
abbrev pub after : ℕ → ℕ → ℕ
after i n = max i n

-- What is left of the call once a loop is done.
abbrev pub and_then : {W : Type 0} → Option Status × W → (W → Option Status × W) → Option Status × W
and_then (some s, w) k = (some s, w)
and_then (none, w) k = k w

module _ {W M Digest Dir Leaf Symlink : Type 0}
    (context : Context W M Digest Dir Leaf Symlink) where
  -- A child with its name, or why it cannot be reported. The name is looked at first.
  unfoldable pub named :
      Logged
      → List ℕ
      → (W → Result Status (Child Dir Leaf) × W)
      → W
      → Result Status (List ℕ × Child Dir Leaf) × W
  named bad name child w =
      let (r, w') = child w in
      if context.is_component name
      then (elim r [ ok c ↦ (ok (name, c), w') | err s ↦ (err s, w') ])
      else (err Status.err_io, context.log_error bad w)

  unfoldable pub directory_child : DirectoryNode M → W → Result Status (List ℕ × Child Dir Leaf) × W
  directory_child e = named directory_name e.name (lookup_directory_node context e)

  unfoldable pub file_child : FileNode M → W → Result Status (List ℕ × Child Dir Leaf) × W
  file_child e = named file_name e.name (lookup_file_node context e)

  unfoldable pub symlink_child : ℕ → SymlinkNode → W → Result Status (List ℕ × Child Dir Leaf) × W
  symlink_child i e =
      named symlink_name e.name
        (λ w. from_leaf_result context (create_symlink context i e.target w))

  -- ReportEntry(): whether it wants another entry.
  module _ (report : W → ℕ → List ℕ → Child Dir Leaf → Bool × W) where
    -- One turn of a loop: the status to return with, or nothing.
    unfoldable pub report_child :
        ℕ → Result Status (List ℕ × Child Dir Leaf) × W → Option Status × W
    report_child cookie (err s, w) = (some s, w)
    report_child cookie (ok (name, child), w) =
        let (more, w) = report w cookie name child in
        if more then (none, w) else (some Status.ok, w)

    -- A loop from the index i on, over the entries that are left there. A status ends the call.
    unfoldable pub report_directories : ℕ → ℕ → List (DirectoryNode M) → W → Option Status × W
    report_directories offset i [] w = (none, w)
    report_directories offset i (e ∷ es) w =
        let (s, w) = report_child (offset + i) (directory_child e w) in
        let rest = report_directories offset (i + 1) es w in
        elim s [ none ↦ rest | some status ↦ (some status, w) ]

    unfoldable pub report_files : ℕ → ℕ → List (FileNode M) → W → Option Status × W
    report_files offset i [] w = (none, w)
    report_files offset i (e ∷ es) w =
        let (s, w) = report_child (offset + i) (file_child e w) in
        let rest = report_files offset (i + 1) es w in
        elim s [ none ↦ rest | some status ↦ (some status, w) ]

    unfoldable pub report_symlinks : ℕ → ℕ → List SymlinkNode → W → Option Status × W
    report_symlinks offset i [] w = (none, w)
    report_symlinks offset i (e ∷ es) w =
        let (s, w) = report_child (offset + i) (symlink_child i e w) in
        let rest = report_symlinks offset (i + 1) es w in
        elim s [ none ↦ rest | some status ↦ (some status, w) ]

    unfoldable pub report_contents : Directory M → ℕ → W → Option Status × W
    report_contents directory first w =
        let i = first in
        let n = length directory.directories in
        let j = after i n - n in
        let m = length directory.files in
        let k = after j m - m in
        and_then (report_directories 1 i (drop i directory.directories) w) λ w.
          and_then (report_files (1 + n) j (drop j directory.files) w)
            λ w. report_symlinks (1 + n + m) k (drop k directory.symlinks) w

    unfoldable pub virtual_read_dir : ℕ → W → Status × W
    virtual_read_dir first_cookie w =
        let (contents, w) = context.get_directory_contents w in
        elim contents [
          | err s ↦ (s, w)
          | ok directory ↦
              let (s, w) = report_contents directory first_cookie w in
              elim s [ none ↦ (Status.ok, w) | some status ↦ (status, w) ]
        ]
