-- ===== src/Persistent/Saved/Children.antt =====
-- The steps of saveDirectoryRecursive() of pkg/filesystem/virtual/persistent_output_path_factory.go
-- on one child, and what each leaves in the body of the state file.
use mathlib.Core.Path.{subst}
use bb_clientd.Prelude.{
  ℕ, suc, ◌+◌, ◌*◌, ◌^◌, ◌≤◌, ◌<◌, ◌≡◌, ap, ◌∙◌, inl, inr, false, Option, none, some, List, [], ◌∷◌,
  ◌++◌, length, length-append, append_assoc, arith,
}
use bb_clientd.Prelude.Results.{Result, Result-cases, ok}
use bb_clientd.StateFile.Format.{FileRegion, RoundTrips}
use bb_clientd.StateFile.Writer.Holds.{region_of}
use bb_clientd.StateFile.Reader.Stored.{Stands, Stands-append, end_of}
use bb_clientd.StateFile.RoundTrip.{region_of-Stands, end_of-region_of}
use bb_clientd.Persistent.Messages.{Directory, DirectoryNode, Applied, empty_directory}
use bb_clientd.Persistent.Save.{Tree, Forest, child, finish_directory, write_child}
use bb_clientd.Persistent.Stored.{
  start_of, StoredDir, StoredForest, stored_child, StoredDir-append, StoredDir-nil,
}

append_three : (a b c d : List ℕ) → ((a ++ b) ++ c) ++ d ≡ a ++ ((b ++ c) ++ d)
append_three a b c d = ap (λ t. t ++ d) (append_assoc a b c) ∙ append_assoc a (b ++ c) d

module _ {L P V E : Type 0} (apply : L → Option (Applied P))
    (write_directory : V → Directory P → V × Result E (Option FileRegion)) where
  pub write_child-success :
      (v v' : V) (m : Directory P) (region : Option FileRegion)
      → write_child apply write_directory v m ≡ some (v', ok region)
      → write_directory v m ≡ (v', ok region)
  unfolding write_child
  write_child-success v v' m region e =
      let (w, r) = write_directory v m in
      elim (Result-cases r) [
        | inr (x, bad) ↦ cc (rw (bad, write_child) at e)
        | inl (region', fine) ↦ cc (fine, rw (fine, write_child) at e)
      ]

  pub finish_directory-success :
      (v v' : V) (o : Option (Directory P)) (m : Directory P)
      → finish_directory apply write_directory v o ≡ some (v', ok m)
      → (v ≡ v') × (o ≡ some m)
  finish_directory-success v v' none m e = cc
  finish_directory-success v v' (some m') m e = (cc e, cc e)

module _ {L P : Type 0} (apply : L → Option (Applied P))
    (unmarshal : List ℕ → Option (Directory P)) where
  -- A child, once its message is written.
  pub child-Stored :
      (marshal : Directory P → Option (List ℕ)) (trips : RoundTrips marshal unmarshal)
      (no_fields : unmarshal [] ≡ some empty_directory) (body bytes : List ℕ)
      (region : Option FileRegion) (m : Directory P) (t : Tree L)
      → marshal m ≡ some bytes
      → length bytes < 2 ^ 31
      → region ≡ region_of (16 + length body) bytes
      → StoredDir apply unmarshal body (16 + length body) false m t
      → Stands (body ++ bytes) region bytes
        × (end_of region ≤ 16 + length (body ++ bytes))
        × StoredDir apply unmarshal (body ++ bytes) (start_of region) false m t
  child-Stored marshal trips no_fields body [] region m t e small same below =
      let is_empty : m ≡ empty_directory = cc (trips m [] e, no_fields) in
      rw same (
        region_of-Stands body [] small,
        omega arith,
        StoredDir-append apply unmarshal [] (
            StoredDir-nil apply unmarshal 0 (ap (λ (x : Directory P). x.directories) is_empty)
              below),
      )
  child-Stored marshal trips no_fields body (b ∷ bs) region m t e small same below = rw same (
    region_of-Stands body (b ∷ bs) small,
    omega (arith, end_of-region_of body (b ∷ bs) small, length-append body (b ∷ bs)),
    StoredDir-append apply unmarshal (b ∷ bs) below,
  )

  -- A child in front of the others, which were written behind it.
  child-StoredForest :
      (body more bytes : List ℕ) (entry : DirectoryNode) (entries : List DirectoryNode)
      (m : Directory P) (t : Tree L) (others : Forest L)
      → Stands body entry.file_region bytes
      → unmarshal bytes ≡ some m
      → end_of entry.file_region ≤ 16 + length body
      → StoredDir apply unmarshal body (start_of entry.file_region) false m t
      → StoredForest apply unmarshal (body ++ more) (16 + length (body ++ more)) entries others
      → StoredForest apply unmarshal
          (body ++ more)
          (16 + length (body ++ more))
          (entry ∷ entries)
          (child entry.name t others)
  child-StoredForest body more bytes entry entries m t others stands parsed fits below rest =
      stored_child bytes m (Stands-append more stands) parsed
        (omega (arith, length-append body more)) (StoredDir-append apply unmarshal more below) rest

  -- The same, on the body that the three steps have extended.
  pub extended-StoredForest :
      {V : Type 0} (Holding : V → List ℕ → Type 0) (body a bytes c : List ℕ) (v v' : V)
      (entry : DirectoryNode) (entries nodes : List DirectoryNode) (m : Directory P) (t : Tree L)
      (others : Forest L) (bound bound' : ℕ)
      → v ≡ v'
      → entry ∷ entries ≡ nodes
      → Stands ((body ++ a) ++ bytes) entry.file_region bytes
        × (end_of entry.file_region ≤ 16 + length ((body ++ a) ++ bytes))
        × StoredDir apply unmarshal ((body ++ a) ++ bytes) (start_of entry.file_region) false m t
      → unmarshal bytes ≡ some m
      → length a ≤ 2 ^ 31 * bound
      → length bytes < 2 ^ 31
      → length c ≤ 2 ^ 31 * bound'
      → Holding v (((body ++ a) ++ bytes) ++ c)
      → StoredForest apply unmarshal
          (((body ++ a) ++ bytes) ++ c)
          (16 + length (((body ++ a) ++ bytes) ++ c))
          entries
          others
      → (more : List ℕ) × Holding v' (body ++ more)
        × (length more ≤ 2 ^ 31 * suc (bound + bound'))
        × StoredForest apply unmarshal
            (body ++ more)
            (16 + length (body ++ more))
            nodes
            (child entry.name t others)
  extended-StoredForest Holding body a bytes c v v' entry entries nodes m t others bound bound' same
        all (stands, fits, below) parsed size_a small size_c held rest =
      let forest =
        child-StoredForest ((body ++ a) ++ bytes) c bytes entry entries m t others stands parsed
          fits below rest in
      (
        (a ++ bytes) ++ c,
        subst (λ b. Holding v' b) (append_three body a bytes c)
            (subst (λ x. Holding x (((body ++ a) ++ bytes) ++ c)) same held),
        omega (arith, length-append a bytes, length-append (a ++ bytes) c),
        subst
            (λ b. StoredForest apply unmarshal b (16 + length b) nodes (child entry.name t others))
            (append_three body a bytes c)
            (subst
              (λ ns.
                StoredForest apply unmarshal (((body ++ a) ++ bytes) ++ c)
                  (16 + length (((body ++ a) ++ bytes) ++ c)) ns (child entry.name t others))
              all forest),
      )
