-- ===== src/OutputService/Filter.antt =====
-- filterMissingChildren() and findMissingAndRemove() of
-- pkg/filesystem/virtual/bazel_output_service_directory.go.
--
-- FilterChildren() is taken by the sequence of children that it calls its callback with, and the
-- error it may end with. A child has a remover, which `remove` runs. The world `W` is passed along.
use bb_clientd.Prelude.{
  ℕ, ◌+◌, Bool, true, false, Option, none, some, List, [], ◌∷◌, ◌++◌, if◌then◌else◌, ltb, leb,
  length,
}
use bb_clientd.Prelude.Results.{Result, ok, err}
pub mod Queued
pub mod Removal
pub mod Batches
mod Tests

-- What ApplyGetContainingDigests finds: the node depends on no digests, they cannot be computed, or
-- the digests that it depends on.
pub data Containing (Digest E : Type 0) : Type 0 where
  independent : Containing Digest E
  uncomputable : E → Containing Digest E
  depends_on : List Digest → Containing Digest E

pub record Child (Digest Remover E : Type 0) : Type 0 where
  pub containing : Containing Digest E
  pub remover : Remover

-- Where an error comes from.
pub data FilterError (E : Type 0) : Type 0 where
  traversal_failed digests_failed find_missing_failed : E → FilterError E
  remove_directory_failed remove_other_failed remove_file_failed : E → FilterError E

-- The storage, the removers, and what is known of digests. `limit` is
-- blobstore.RecommendedFindMissingDigestsCount.
pub record Storage (W Digest Remover E : Type 0) : Type 0 where
  pub find_missing : List Digest → W → Result E (List Digest) × W
  pub remove : Remover → W → Option E × W
  pub equal : Digest → Digest → Bool
  pub uses_digest_function : Digest → Bool
  pub is_not_found : E → Bool
  pub limit : ℕ

-- The map from digests to removers. A digest has at most one entry.
abbrev pub Queue : Type 0 → Type 0 → Type 0
Queue Digest Remover = List (Digest × List Remover)

module _ {W Digest Remover E : Type 0} (storage : Storage W Digest Remover E) where
  -- queue[digest] = append(queue[digest], remover)
  unfoldable pub queue_add : Digest → Remover → Queue Digest Remover → Queue Digest Remover
  queue_add digest remover [] = (digest, remover ∷ []) ∷ []
  queue_add digest remover (entry ∷ queue) =
      let others = queue_add digest remover queue in
      if storage.equal entry.0 digest
      then (entry.0, entry.1 ++ remover ∷ []) ∷ queue
      else entry ∷ others

  -- queue[digest]
  unfoldable pub removers : Digest → Queue Digest Remover → List Remover
  removers digest [] = []
  removers digest (entry ∷ queue) =
      let others = removers digest queue in
      if storage.equal entry.0 digest then entry.1 ++ others else others

  unfoldable pub remove_each : List Remover → W → Option (FilterError E) × W
  remove_each [] w = (none, w)
  remove_each (r ∷ rs) w =
      let (failed, w) = storage.remove r w in
      let rest = remove_each rs w in
      elim failed [ none ↦ rest | some e ↦ (some (remove_file_failed e), w) ]

  unfoldable pub remove_missing :
      List Digest → Queue Digest Remover → W → Option (FilterError E) × W
  remove_missing [] queue w = (none, w)
  remove_missing (d ∷ ds) queue w =
      let (failed, w) = remove_each (removers d queue) w in
      let rest = remove_missing ds queue w in elim failed [ none ↦ rest | some e ↦ (some e, w) ]

  abbrev pub keys : Queue Digest Remover → List Digest
  keys [] = []
  keys (entry ∷ queue) = entry.0 ∷ keys queue

  unfoldable pub find_missing_and_remove : Queue Digest Remover → W → Option (FilterError E) × W
  find_missing_and_remove queue w =
      let (r, w) = storage.find_missing (keys queue) w in
      elim r [
        | err e ↦ (some (find_missing_failed e), w)
        | ok missing ↦ remove_missing missing queue w
      ]

  -- The last loop of the callback: a full queue is processed first.
  unfoldable pub enqueue :
      Remover
      → List Digest
      → Queue Digest Remover
      → W
      → Option (FilterError E) × Queue Digest Remover × W
  enqueue remover [] queue w = (none, queue, w)
  enqueue remover (d ∷ ds) queue w =
      let (failed, w') = find_missing_and_remove queue w in
      let anew = enqueue remover ds (queue_add d remover []) w' in
      let more = enqueue remover ds (queue_add d remover queue) w in
      if leb storage.limit (length queue)
      then (elim failed [ none ↦ anew | some e ↦ (some e, queue, w') ])
      else more

  -- Whether a digest has another instance name or digest function.
  unfoldable pub uses_other : List Digest → Bool
  uses_other [] = false
  uses_other (d ∷ ds) = if storage.uses_digest_function d then uses_other ds else true

  unfoldable pub removed_with :
      (E → FilterError E)
      → Remover
      → Queue Digest Remover
      → W
      → Option (FilterError E) × Queue Digest Remover × W
  removed_with wrap remover queue w =
      let (failed, w) = storage.remove remover w in
      elim failed [ none ↦ (none, queue, w) | some e ↦ (some (wrap e), queue, w) ]

  -- The callback. An error is the one to save, and ends the traversal.
  unfoldable pub filter_child :
      Containing Digest E
      → Remover
      → Queue Digest Remover
      → W
      → Option (FilterError E) × Queue Digest Remover × W
  filter_child independent remover queue w = (none, queue, w)
  filter_child (uncomputable e) remover queue w =
      if storage.is_not_found e
      then removed_with remove_directory_failed remover queue w
      else (some (digests_failed e), queue, w)
  filter_child (depends_on ds) remover queue w =
      if uses_other ds
      then removed_with remove_other_failed remover queue w
      else enqueue remover ds queue w

  unfoldable pub filter_children :
      List (Child Digest Remover E)
      → Queue Digest Remover
      → W
      → Option (FilterError E) × Queue Digest Remover × W
  filter_children [] queue w = (none, queue, w)
  filter_children (c ∷ cs) queue w =
      let (saved, queue, w) = filter_child c.containing c.remover queue w in
      let rest = filter_children cs queue w in
      elim saved [ none ↦ rest | some e ↦ (some e, queue, w) ]

  unfoldable pub filter_missing_children :
      List (Child Digest Remover E) → Option E → W → Option (FilterError E) × W
  filter_missing_children children failed w =
      let (saved, queue, w) = filter_children children [] w in
      let final = find_missing_and_remove queue w in
      elim saved [
        | some e ↦ (some e, w)
        | none ↦ elim failed [
          | some e ↦ (some (traversal_failed e), w)
          | none ↦ if ltb 0 (length queue) then final else (none, w)
        ]
      ]
