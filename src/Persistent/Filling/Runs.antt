-- ===== src/Persistent/Filling/Runs.antt =====
-- Filling a directory with a tree that stands in a state file, as
-- pkg/filesystem/virtual/persistent_output_path_factory.go writes it, does not panic.
use bb_clientd.Prelude.{ℕ, ◌≢◌, inl, inr, Bool, false, Bool-cases, Option, none, some, List, []}
use bb_clientd.Prelude.Results.{Result, ok, err}
use bb_clientd.Prelude.Calls.{and_then, and_then-ne-none}
use bb_clientd.StateFile.Format
use bb_clientd.Persistent.Messages.{Directory, DirectoryNode, Applied}
use bb_clientd.Persistent.Save.{Tree, Forest, unreadable, node}
use bb_clientd.Persistent.Restore.{FileTree}
use bb_clientd.Persistent.Stored.{
  start_of, StoredDir, stored_dir, StoredForest, stored_none, stored_child,
}
use bb_clientd.Persistent.Filling.{fill, entries_of, populate, populate_forest, entered}

module _ {L W D K P Digest X : Type 0} (apply : L → Option (Applied P))
    (t : FileTree W D K P Digest X) where
  entered-ne-none : (w : W) (r : Result X D) → entered {E = Format.Error} t (w, r) ≢ none
  entered-ne-none w (ok d) = λ e. cc
  entered-ne-none w (err x) = λ e. cc

  module _ (unmarshal : List ℕ → Option (Directory P)) (body : List ℕ) where
    mutual
      unfolding populate

      pub populate-ne-none :
          (limit : ℕ) (root : Bool) (m : Directory P) (tree : Tree L) (w : W) (d : D)
          → StoredDir apply unmarshal body limit root m tree
          → populate {E = Format.Error} t apply w root tree d ≢ none
      populate-ne-none limit root m unreadable w d stored = elim stored [ ]
      populate-ne-none limit root m (node directories leaves) w d (stored_dir below f s) =
          and_then-ne-none (populate_forest t apply w directories d)
            (λ w1 u. some (fill t d (entries_of apply root leaves) w1 []))
            (populate_forest-ne-none limit m.directories directories w d below) (λ w1 u _ e. cc)

      populate_forest-ne-none :
          (limit : ℕ) (entries : List DirectoryNode) (f : Forest L) (w : W) (d : D)
          → StoredForest apply unmarshal body limit entries f
          → populate_forest {E = Format.Error} t apply w f d ≢ none
      populate_forest-ne-none limit _ _ w d stored_none = λ e. cc
      populate_forest-ne-none limit _ _ w d
            (stored_child {entry = entry} {entries = entries} {directory = directory}
              {others = others} bytes m stands parsed fits below rest) =
          let step : (w1 : W) (d1 : D)
              → and_then (populate t apply w1 false directory d1)
                  (λ w2 u. populate_forest t apply w2 others d)
                ≢ none =
            λ w1 d1.
              and_then-ne-none (populate t apply w1 false directory d1)
                (λ w2 u. populate_forest t apply w2 others d)
                (populate-ne-none (start_of entry.file_region) false m directory w1 d1 below)
                (λ w2 u _. populate_forest-ne-none limit entries others w2 d rest) in
          elim (Bool-cases (t.is_component entry.name)) [
            | inr invalid ↦ rw invalid (λ e. cc)
            | inl valid ↦
                let created = t.create_and_enter w d entry.name in
                rw valid (
                  and_then-ne-none (entered t created) _ (entered-ne-none created.0 created.1)
                    (λ w1 d1 _. step w1 d1))
          ]
