-- ===== src/OutputService/Filter/Tests.antt =====
-- Runs and instances for filterMissingChildren() of
-- pkg/filesystem/virtual/bazel_output_service_directory.go.
use bb_clientd.Prelude.{
  ℕ, ◌≤◌, ◌≡◌, refl, Bool, none, List, [], ◌∷◌, if◌then◌else◌, arith, ltb, leb, ◌==◌, length,
}
use bb_clientd.Prelude.Results.{ok}
use bb_clientd.OutputService.Filter.{
  Containing, independent, uncomputable, depends_on, Child, Storage, queue_add, removers,
  remove_each, remove_missing, find_missing_and_remove, enqueue, uses_other, removed_with,
  filter_child, filter_children, filter_missing_children,
}
use bb_clientd.OutputService.Filter.Queued.{select}
use bb_clientd.OutputService.Filter.Batches.{Preserved, filter_missing_children-keeps}

-- Digests below 10 are there, and those from 100 on use another digest function.
abbrev missing : ℕ → Bool
missing d = leb 10 d

abbrev storage : Storage (List ℕ) ℕ ℕ ℕ
storage = record {
  find_missing = λ ds w. (ok (select missing ds), w);
  remove = λ i w. (none, i ∷ w);
  equal = λ d e. d == e;
  uses_digest_function = λ d. ltb d 100;
  is_not_found = λ e. e == 5;
  limit = 2;
}

abbrev child : ℕ → Containing ℕ ℕ → Child ℕ ℕ ℕ
child i c = record { containing = c; remover = i }

abbrev children : List (Child ℕ ℕ ℕ)
children =
    child 1 (depends_on (3 ∷ 4 ∷ 12 ∷ []))
    ∷ child 2 independent
    ∷ child 3 (uncomputable 5)
    ∷ child 4 (depends_on (7 ∷ 100 ∷ []))
    ∷ child 5 (depends_on (8 ∷ []))
    ∷ []

-- The removers 3 and 4 run at once, and 1 with the second batch.
run : filter_missing_children storage children none [] ≡ (none, 1 ∷ 4 ∷ 3 ∷ [])
unfolding filter_missing_children filter_children filter_child removed_with enqueue
    find_missing_and_remove remove_missing remove_each removers queue_add uses_other
run = refl

-- A world that counts the digests of the largest batch.
abbrev counting : Storage ℕ ℕ ℕ ℕ
counting = record {
  find_missing = λ ds w. (ok [], (if leb (length ds) w then w else length ds));
  remove = λ i w. (none, w);
  equal = λ d e. d == e;
  uses_digest_function = λ d. ltb d 100;
  is_not_found = λ e. e == 5;
  limit = 2;
}

preserved : Preserved counting (λ w. w ≤ 2)
preserved = record { by_remove = λ r w h. h; by_find_missing = λ ds w small h. ground arith }

filter_missing_children-keeps_example : (filter_missing_children counting children none 0).1 ≤ 2
filter_missing_children-keeps_example =
    filter_missing_children-keeps counting (λ w. w ≤ 2) preserved (omega arith) children none 0
      (omega arith)
