-- ===== src/OutputService/Filter/Removal.antt =====
-- Which children filterMissingChildren() of
-- pkg/filesystem/virtual/bazel_output_service_directory.go removes where no call fails.
use bb_clientd.Prelude.{ℕ, ◌≡◌, Bool, true, false, ◌&&◌, ◌||◌, List, [], ◌∷◌, ◌==◌}
use bb_clientd.OutputService.Filter.Queued.{elem, any, Works, queued}
use bb_clientd.OutputService.Filter.{
  Containing, independent, uncomputable, depends_on, Child, Storage, Queue, uses_other,
}

module _ {Digest E : Type 0} (missing : Digest → Bool) (storage : Storage (List ℕ) Digest ℕ E)
    (works : Works missing storage) where
  -- Whether a remover has run, or will run when the queue is processed.
  abbrev doomed : ℕ → Queue Digest ℕ → List ℕ → Bool
  doomed i queue w = queued missing storage works i queue || elem i w

  -- What makes a child go: its digests are not found, use another digest function, or one of them
  -- is missing.
  abbrev pub is_bad : Containing Digest E → Bool
  is_bad independent = false
  is_bad (uncomputable e) = true
  is_bad (depends_on ds) = uses_other storage ds || any missing ds

  -- No error but that the digests are not found.
  abbrev pub LoadsOne : Containing Digest E → Type 0
  LoadsOne independent = Unit
  LoadsOne (uncomputable e) = storage.is_not_found e ≡ true
  LoadsOne (depends_on ds) = Unit

  abbrev pub Loads : List (Child Digest ℕ E) → Type 0
  Loads [] = Unit
  Loads (c ∷ cs) = LoadsOne c.containing × Loads cs

  -- Whether a bad child has the remover.
  abbrev pub goes : ℕ → List (Child Digest ℕ E) → Bool
  goes i [] = false
  goes i (c ∷ cs) = ((i == c.remover) && is_bad c.containing) || goes i cs
