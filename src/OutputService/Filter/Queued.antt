-- ===== src/OutputService/Filter/Queued.antt =====
-- Which removers of the queue run, in findMissingAndRemove() of
-- pkg/filesystem/virtual/bazel_output_service_directory.go where no call fails.
use bb_clientd.Prelude.{
  ℕ, ◌≡◌, refl, Bool, true, false, ◌&&◌, ◌||◌, none, List, [], ◌∷◌, ◌++◌, if◌then◌else◌, arith,
  ◌==◌,
}
use bb_clientd.Prelude.Results.{ok}
use bb_clientd.OutputService.Filter.{
  Storage, Queue, queue_add, removers, remove_each, remove_missing, keys, find_missing_and_remove,
}

abbrev pub elem : ℕ → List ℕ → Bool
elem i [] = false
elem i (x ∷ xs) = (i == x) || elem i xs

elem-append : (i : ℕ) (xs ys : List ℕ) → elem i (xs ++ ys) ≡ (elem i xs || elem i ys)
elem-append i [] ys = refl
elem-append i (x ∷ xs) ys = ground (arith, elem-append i xs ys)

abbrev pub select : {A : Type 0} → (A → Bool) → List A → List A
select f [] = []
select f (x ∷ xs) = if f x then x ∷ select f xs else select f xs

abbrev pub any : {A : Type 0} → (A → Bool) → List A → Bool
any f [] = false
any f (x ∷ xs) = f x || any f xs

-- The world is the list of removers that have run. `missing` are the digests that the storage
-- does not have, and no call fails.
pub record Works {Digest E : Type 0} (missing : Digest → Bool)
    (storage : Storage (List ℕ) Digest ℕ E) : Type 0 where
  pub finds :
      (ds : List Digest) (w : List ℕ) → storage.find_missing ds w ≡ (ok (select missing ds), w)
  pub removes : (i : ℕ) (w : List ℕ) → storage.remove i w ≡ (none, i ∷ w)
  pub equal_missing : (d e : Digest) → storage.equal d e ≡ true → missing d ≡ missing e
  pub equal_refl : (d : Digest) → storage.equal d d ≡ true

module _ {Digest E : Type 0} (missing : Digest → Bool) (storage : Storage (List ℕ) Digest ℕ E)
    (works : Works missing storage) where
  -- Whether the queue has the remover under a missing digest.
  abbrev pub queued : ℕ → Queue Digest ℕ → Bool
  queued i [] = false
  queued i (entry ∷ queue) = (missing entry.0 && elem i entry.1) || queued i queue

  pub queued-queue_add :
      (i : ℕ) (d : Digest) (r : ℕ) (queue : Queue Digest ℕ)
      → queued i (queue_add storage d r queue) ≡ ((missing d && (i == r)) || queued i queue)
  unfolding queue_add
  queued-queue_add i d r [] = ground arith
  queued-queue_add i d r (entry ∷ queue) = ground (
    arith,
    queued-queue_add i d r queue,
    works.equal_missing entry.0 d,
    elem-append i entry.1 (r ∷ []),
  )

  elem-remove_each :
      (i : ℕ) (rs w : List ℕ)
      → ((remove_each storage rs w).0 ≡ none)
        × (elem i (remove_each storage rs w).1 ≡ (elem i rs || elem i w))
  unfolding remove_each
  elem-remove_each i [] w = (refl, refl)
  elem-remove_each i (r ∷ rs) w = ground (arith, works.removes r w, elem-remove_each i rs (r ∷ w))

  -- Whether one of the digests is missing and has the remover.
  abbrev hit : ℕ → List Digest → Queue Digest ℕ → Bool
  hit i [] queue = false
  hit i (d ∷ ds) queue = (missing d && elem i (removers storage d queue)) || hit i ds queue

  elem-remove_missing :
      (i : ℕ) (ds : List Digest) (queue : Queue Digest ℕ) (w : List ℕ)
      → ((remove_missing storage (select missing ds) queue w).0 ≡ none)
        × (elem i (remove_missing storage (select missing ds) queue w).1
            ≡ (hit i ds queue || elem i w))
  unfolding remove_missing
  elem-remove_missing i [] queue w = (refl, refl)
  elem-remove_missing i (d ∷ ds) queue w =
      let w' = (remove_each storage (removers storage d queue) w).1 in
      ground (
        arith,
        elem-remove_each i (removers storage d queue) w,
        elem-remove_missing i ds queue w',
        elem-remove_missing i ds queue w,
      )

  hit-queued_one :
      (i : ℕ) (d : Digest) (queue : Queue Digest ℕ)
      → missing d ≡ true
      → elem i (removers storage d queue) ≡ true
      → queued i queue ≡ true
  unfolding removers
  hit-queued_one i d [] m h = cc
  hit-queued_one i d (entry ∷ queue) m h = ground (
    arith,
    hit-queued_one i d queue m,
    works.equal_missing entry.0 d,
    elem-append i entry.1 (removers storage d queue),
  )

  hit-queued :
      (i : ℕ) (ds : List Digest) (queue : Queue Digest ℕ)
      → hit i ds queue ≡ true
      → queued i queue ≡ true
  hit-queued i [] queue h = cc
  hit-queued i (d ∷ ds) queue h = ground (arith, hit-queued_one i d queue, hit-queued i ds queue)

  hit-more :
      (i : ℕ) (ds : List Digest) (entry : Digest × List ℕ) (queue : Queue Digest ℕ)
      → hit i ds queue ≡ true
      → hit i ds (entry ∷ queue) ≡ true
  unfolding removers
  hit-more i [] entry queue h = cc
  hit-more i (d ∷ ds) entry queue h =
      ground (arith, hit-more i ds entry queue, elem-append i entry.1 (removers storage d queue))

  queued-hit :
      (i : ℕ) (queue : Queue Digest ℕ)
      → queued i queue ≡ true
      → hit i (keys storage queue) queue ≡ true
  unfolding removers
  queued-hit i [] h = cc
  queued-hit i (entry ∷ queue) h = ground (
    arith,
    queued-hit i queue,
    hit-more i (keys storage queue) entry queue,
    works.equal_refl entry.0,
    elem-append i entry.1 (removers storage entry.0 queue),
  )

  pub elem-find_missing :
      (i : ℕ) (queue : Queue Digest ℕ) (w : List ℕ)
      → ((find_missing_and_remove storage queue w).0 ≡ none)
        × (elem i (find_missing_and_remove storage queue w).1 ≡ (queued i queue || elem i w))
  unfolding find_missing_and_remove
  elem-find_missing i queue w = ground (
    arith,
    works.finds (keys storage queue) w,
    elem-remove_missing i (keys storage queue) queue w,
    hit-queued i (keys storage queue) queue,
    queued-hit i queue,
  )
