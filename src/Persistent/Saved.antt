-- ===== src/Persistent/Saved.antt =====
-- What saveDirectoryRecursive() of pkg/filesystem/virtual/persistent_output_path_factory.go writes:
-- the tree stands in the body of the state file.
mod Children
use mathlib.Core.Path.{subst}
use bb_clientd.Prelude.{
  ℕ, suc, ◌+◌, ◌*◌, ◌^◌, ◌≤◌, ◌<◌, ◌≡◌, sym, Bool, false, Option, some, List, [], ◌∷◌, ◌++◌, length,
  length-append, append-nil, arith,
}
use bb_clientd.Prelude.Results.{Result, ok}
use bb_clientd.Prelude.Calls.{and_then-success}
use bb_clientd.StateFile.Format.{FileRegion, RoundTrips}
use bb_clientd.StateFile.Writer.Holds.{region_of}
use bb_clientd.Persistent.Messages.{Directory, DirectoryNode, Applied, empty_directory}
use bb_clientd.Persistent.Save.{
  Tree, Forest, unreadable, node, leafless, child, append_leaves, finish_directory, write_child,
  save_directory_recursive, save_directories,
}
use bb_clientd.Persistent.Leaves.{append_leaves-nodes}
use bb_clientd.Persistent.Stored.{
  count, count_forest, StoredDir, stored_dir, StoredForest, stored_none,
}
use bb_clientd.Persistent.Saved.Children.{
  child-Stored, extended-StoredForest, finish_directory-success, write_child-success,
}

-- What saving asks of outputpathpersistency.Writer: a WriteDirectory() that succeeds has
-- appended the marshalled message, of at most an int32's bytes, to the body of the file, and
-- returns where it stands. `Holding` says what the body is so far.
pub record IsDirectoryWriter {V E M : Type 0}
    (write_directory : V → M → V × Result E (Option FileRegion)) (marshal : M → Option (List ℕ))
    (Holding : V → List ℕ → Type 0) : Type 0 where
  pub written_lem :
      (v v' : V) (m : M) (region : Option FileRegion) (body : List ℕ)
      → Holding v body
      → 16 + length body + 2 ^ 31 < 2 ^ 64
      → write_directory v m ≡ (v', ok region)
      → (bytes : List ℕ) × (marshal m ≡ some bytes)
        × (length bytes < 2 ^ 31)
        × Holding v' (body ++ bytes)
        × (region ≡ region_of (16 + length body) bytes)

module _ {L P V E : Type 0} (apply : L → Option (Applied P))
    (write_directory : V → Directory P → V × Result E (Option FileRegion))
    (marshal : Directory P → Option (List ℕ)) (unmarshal : List ℕ → Option (Directory P))
    (trips : RoundTrips marshal unmarshal) (no_fields : unmarshal [] ≡ some empty_directory)
    (Holding : V → List ℕ → Type 0) (law : IsDirectoryWriter write_directory marshal Holding) where
  -- Saving appends the messages of the directories below, each of less than an int32's bytes.
  mutual
    unfolding save_directory_recursive count

    pub save-Stored :
        (root : Bool) (t : Tree L) (v v' : V) (body : List ℕ) (m : Directory P)
        → Holding v body
        → 16 + length body + 2 ^ 31 * suc (count t) ≤ 2 ^ 63
        → save_directory_recursive apply write_directory v root t ≡ some (v', ok m)
        → (more : List ℕ) × Holding v' (body ++ more)
          × (length more ≤ 2 ^ 31 * count t)
          × StoredDir apply unmarshal (body ++ more) (16 + length (body ++ more)) root m t
    save-Stored root unreadable v v' body m h fits e = cc
    save-Stored root (node directories leaves) v v' body m h fits e =
        let (v1, nodes, saved, rest) =
          and_then-success (save_directories apply write_directory v directories)
            (λ v1 nodes.
              finish_directory apply write_directory v1
                (append_leaves apply root leaves (record empty_directory { directories = nodes })))
            v' m e in
        let (same, appended) = finish_directory-success apply write_directory v1 v' _ m rest in
        let (d, f, s) = append_leaves-nodes apply root leaves _ m appended in
        let (more, held, size, forest) =
          save_forest-Stored directories v v1 body nodes h fits saved in
        (
          more,
          subst (λ x. Holding x (body ++ more)) same held,
          size,
          stored_dir
              (subst
                (λ ns.
                  StoredForest apply unmarshal (body ++ more) (16 + length (body ++ more)) ns
                    directories)
                (sym d) forest)
              f s,
        )

    save_forest-Stored :
        (f : Forest L) (v v' : V) (body : List ℕ) (nodes : List DirectoryNode)
        → Holding v body
        → 16 + length body + 2 ^ 31 * suc (count_forest f) ≤ 2 ^ 63
        → save_directories apply write_directory v f ≡ some (v', ok nodes)
        → (more : List ℕ) × Holding v' (body ++ more)
          × (length more ≤ 2 ^ 31 * count_forest f)
          × StoredForest apply unmarshal (body ++ more) (16 + length (body ++ more)) nodes f
    save_forest-Stored leafless v v' body nodes h fits e =
        let same : v ≡ v' = cc e in
        let nil : [] ≡ nodes = cc e in
        (
          [],
          rw (append-nil body) (subst (λ x. Holding x body) same h),
          omega arith,
          subst
              (λ ns.
                StoredForest apply unmarshal (body ++ []) (16 + length (body ++ [])) ns leafless)
              nil stored_none,
        )
    save_forest-Stored (child name directory others) v v' body nodes h fits e =
        let (v1, m, saved, rest) =
          and_then-success (save_directory_recursive apply write_directory v false directory) _ v'
            nodes e in
        let (v2, region, wrote, rest2) =
          and_then-success (write_child apply write_directory v1 m) _ v' nodes rest in
        let (v3, entries, saved_others, rest3) =
          and_then-success (save_directories apply write_directory v2 others) _ v' nodes rest2 in
        let entry : DirectoryNode = record { name = name; file_region = region } in
        let same : v3 ≡ v' = cc rest3 in
        let all : entry ∷ entries ≡ nodes = cc rest3 in
        let (a, held1, size1, below) =
          save-Stored false directory v v1 body m h (omega arith) saved in
        let (bytes, marshalled, small, held2, at_end) =
          law.written_lem v1 v2 m region (body ++ a) held1 (omega (arith, length-append body a))
            (write_child-success apply write_directory v1 v2 m region wrote) in
        let (c, held3, size3, forest) =
          save_forest-Stored others v2 v3 ((body ++ a) ++ bytes) entries held2
            (omega (arith, length-append body a, length-append (body ++ a) bytes)) saved_others in
        extended-StoredForest apply unmarshal Holding body a bytes c v3 v' entry entries nodes m
          directory others (count directory) (count_forest others) same all
          (child-Stored apply unmarshal marshal trips no_fields (body ++ a) bytes region m directory
            marshalled small at_end below)
          (trips m bytes marshalled) size1 small size3 held3 forest
