-- ===== src/OutputService/Filter/Batches.antt =====
-- How many digests filterMissingChildren() of
-- pkg/filesystem/virtual/bazel_output_service_directory.go asks the storage for at once.
use bb_clientd.Prelude.{
  ◌+◌, ◌<◌, ◌≤◌, ◌≡◌, refl, Option, List, [], ◌∷◌, arith, ltb, leb, length, inl, inr, Bool-cases,
  Option-cases,
}
use bb_clientd.Prelude.Results.{Result-cases}
use bb_clientd.OutputService.Filter.{
  Containing, independent, uncomputable, depends_on, Child, FilterError, Storage, Queue, queue_add,
  removers, remove_each, remove_missing, keys, find_missing_and_remove, enqueue, uses_other,
  removed_with, filter_child, filter_children, filter_missing_children, remove_directory_failed,
  remove_other_failed,
}

module _ {W Digest Remover E : Type 0} (storage : Storage W Digest Remover E) where
  length-keys : (queue : Queue Digest Remover) → length (keys storage queue) ≡ length queue
  length-keys [] = refl
  length-keys (entry ∷ queue) = omega (arith, length-keys queue)

  length-queue_add :
      (d : Digest) (r : Remover) (queue : Queue Digest Remover)
      → length (queue_add storage d r queue) ≤ length queue + 1
  unfolding queue_add
  length-queue_add d r [] = omega arith
  length-queue_add d r (entry ∷ queue) = ground (arith, length-queue_add d r queue)

  -- What holds of the world whatever removers run, and however the storage is asked for batches
  -- within the limit.
  pub record Preserved (I : W → Type 0) : Type 0 where
    pub by_remove : (r : Remover) (w : W) → I w → I (storage.remove r w).1
    pub by_find_missing :
        (ds : List Digest) (w : W)
        → length ds ≤ storage.limit
        → I w
        → I (storage.find_missing ds w).1

  module _ (I : W → Type 0) (keeps : Preserved I) where
    remove_each-keeps : (rs : List Remover) (w : W) → I w → I (remove_each storage rs w).1
    unfolding remove_each
    remove_each-keeps [] w h = h
    remove_each-keeps (r ∷ rs) w h =
        let next = keeps.by_remove r w h in
        elim (Option-cases (storage.remove r w).0) [
          | inl e ↦ rw (e, remove_each) (remove_each-keeps rs (storage.remove r w).1 next)
          | inr (x, e) ↦ rw (e, remove_each) next
        ]

    remove_missing-keeps :
        (ds : List Digest) (queue : Queue Digest Remover) (w : W)
        → I w
        → I (remove_missing storage ds queue w).1
    unfolding remove_missing
    remove_missing-keeps [] queue w h = h
    remove_missing-keeps (d ∷ ds) queue w h =
        let next = remove_each-keeps (removers storage d queue) w h in
        let v = (remove_each storage (removers storage d queue) w).1 in
        elim (Option-cases (remove_each storage (removers storage d queue) w).0) [
          | inl e ↦ rw (e, remove_missing) (remove_missing-keeps ds queue v next)
          | inr (x, e) ↦ rw (e, remove_missing) next
        ]

    find_missing-keeps :
        (queue : Queue Digest Remover) (w : W)
        → length queue ≤ storage.limit
        → I w
        → I (find_missing_and_remove storage queue w).1
    unfolding find_missing_and_remove
    find_missing-keeps queue w small h =
        let fits : length (keys storage queue) ≤ storage.limit = omega (arith, length-keys queue) in
        let next = keeps.by_find_missing (keys storage queue) w fits h in
        let v = (storage.find_missing (keys storage queue) w).1 in
        elim (Result-cases (storage.find_missing (keys storage queue) w).0) [
          | inl (missing, e) ↦
              rw (e, find_missing_and_remove) (remove_missing-keeps missing queue v next)
          | inr (x, e) ↦ rw (e, find_missing_and_remove) next
        ]

    module _ (some_room : 0 < storage.limit) where
      enqueue-keeps :
          (r : Remover) (ds : List Digest) (queue : Queue Digest Remover) (w : W)
          → length queue ≤ storage.limit
          → I w
          → let (_, queue', w') = enqueue storage r ds queue w in
            (length queue' ≤ storage.limit) × I w'
      unfolding enqueue
      enqueue-keeps r [] queue w small h = (small, h)
      enqueue-keeps r (d ∷ ds) queue w small h =
          let next = find_missing-keeps queue w small h in
          let v = (find_missing_and_remove storage queue w).1 in
          elim (Bool-cases (leb storage.limit (length queue))) [
            | inl full ↦ elim (Option-cases (find_missing_and_remove storage queue w).0) [
              | inl e ↦
                  rw (full, enqueue)
                    (rw (e, enqueue)
                      (enqueue-keeps r ds (queue_add storage d r []) v
                        (omega (arith, length-queue_add d r [])) next))
              | inr (x, e) ↦ rw (full, enqueue) (rw (e, enqueue) (small, next))
            ]
            | inr open_ ↦
                rw (open_, enqueue)
                  (enqueue-keeps r ds (queue_add storage d r queue) w
                    (ground (arith, length-queue_add d r queue)) h)
          ]

      removed_with-keeps :
          (wrap : E → FilterError E) (r : Remover) (queue : Queue Digest Remover) (w : W)
          → length queue ≤ storage.limit
          → I w
          → let (_, queue', w') = removed_with storage wrap r queue w in
            (length queue' ≤ storage.limit) × I w'
      unfolding removed_with
      removed_with-keeps wrap r queue w small h =
          let next = keeps.by_remove r w h in
          elim (Option-cases (storage.remove r w).0) [
            | inl e ↦ rw (e, removed_with) (small, next)
            | inr (x, e) ↦ rw (e, removed_with) (small, next)
          ]

      filter_child-keeps :
          (c : Containing Digest E) (r : Remover) (queue : Queue Digest Remover) (w : W)
          → length queue ≤ storage.limit
          → I w
          → let (_, queue', w') = filter_child storage c r queue w in
            (length queue' ≤ storage.limit) × I w'
      unfolding filter_child
      filter_child-keeps independent r queue w small h = (small, h)
      filter_child-keeps (uncomputable e) r queue w small h =
          elim (Bool-cases (storage.is_not_found e)) [
            | inl t ↦
                rw (t, filter_child) (removed_with-keeps remove_directory_failed r queue w small h)
            | inr f ↦ rw (f, filter_child) (small, h)
          ]
      filter_child-keeps (depends_on ds) r queue w small h =
          elim (Bool-cases (uses_other storage ds)) [
            | inl t ↦
                rw (t, filter_child) (removed_with-keeps remove_other_failed r queue w small h)
            | inr f ↦ rw (f, filter_child) (enqueue-keeps r ds queue w small h)
          ]

      filter_children-keeps :
          (cs : List (Child Digest Remover E)) (queue : Queue Digest Remover) (w : W)
          → length queue ≤ storage.limit
          → I w
          → let (_, queue', w') = filter_children storage cs queue w in
            (length queue' ≤ storage.limit) × I w'
      unfolding filter_children
      filter_children-keeps [] queue w small h = (small, h)
      filter_children-keeps (c ∷ cs) queue w small h =
          let (small', next) = filter_child-keeps c.containing c.remover queue w small h in
          let (_, queue', w') = filter_child storage c.containing c.remover queue w in
          elim (Option-cases (filter_child storage c.containing c.remover queue w).0) [
            | inl e ↦ rw (e, filter_children) (filter_children-keeps cs queue' w' small' next)
            | inr (x, e) ↦ rw (e, filter_children) (small', next)
          ]

      -- The storage is never asked for more digests at once than the limit: whatever holds of the
      -- world and is kept by all removers and by all calls of FindMissing() within the limit,
      -- holds when StartBuild()'s filter returns, with or without an error.
      pub filter_missing_children-keeps :
          (children : List (Child Digest Remover E)) (failed : Option E) (w : W)
          → I w
          → I (filter_missing_children storage children failed w).1
      unfolding filter_missing_children
      filter_missing_children-keeps children failed w h =
          let (small, next) = filter_children-keeps children [] w (omega arith) h in
          let (_, queue, v) = filter_children storage children [] w in
          elim (Option-cases (filter_children storage children [] w).0) [
            | inr (x, e) ↦ rw (e, filter_missing_children) next
            | inl e ↦ elim (Option-cases failed) [
              | inr (x, f) ↦ rw (e, filter_missing_children) (rw f next)
              | inl f ↦ elim (Bool-cases (ltb 0 (length queue))) [
                | inl t ↦
                    rw (e, filter_missing_children)
                      (rw f (rw t (find_missing-keeps queue v small next)))
                | inr t ↦ rw (e, filter_missing_children) (rw f (rw t next))
              ]
            ]
          ]
