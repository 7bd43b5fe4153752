-- ===== src/Uploads.antt =====
-- pkg/filesystem/virtual/local_file_uploading_output_path_factory.go: at the end of a build, the
-- files of the output path that are not in the CAS yet are uploaded.
--
-- The directory is what LookupAllChildren() returns for it and for those below it. The world `W` is
-- passed along. A call that panics is `none`.
use Prim.Native.String.{String}
use bb_clientd.Prelude.{Bool, Option, none, some, List, [], ◌∷◌, ◌++◌, if◌then◌else◌}
use bb_clientd.Prelude.Results.{Result, ok, err}
use bb_clientd.Prelude.Calls.{Call, and_then}
use bb_clientd.Persistent.Save.{Tree, Forest, unreadable, node, leafless, child}
pub mod Visits
pub mod Outcome
mod Tests

-- An error names the path below the output path.
pub data UploadError (E : Type 0) : Type 0 where
  look_up_failed : List String → UploadError E
  upload_failed : List String → E → UploadError E

-- What FinalizeBuild() logs: the error of the traversal, or that of the flusher.
pub data Logged (E : Type 0) : Type 0 where
  traversal_failed : UploadError E → Logged E
  flush_failed : E → Logged E

pub record OutputPath (D : Type 0) : Type 0 where
  pub output_path : D
  pub output_base_id : String

-- `apply` is VirtualApply() of a leaf with ApplyUploadFile: the error that it leaves there, or none
-- where the leaf does not support it. `flush` is the flusher of the batched storage.
-- `is_invalid_argument` says whether the code of an error is InvalidArgument, as for a file that is
-- no regular one.
pub record Uploading (W D L E : Type 0) : Type 0 where
  pub finalize_base : W → D → W
  pub apply : W → L → Option (W × Option E)
  pub is_invalid_argument : E → Bool
  pub flush : W → W × Option E

-- StartInitialBuild()
unfoldable pub start_initial_build :
    {W D : Type 0} → (W → String → W × D) → W → String → W × OutputPath D
start_initial_build start_base w output_base_id =
    let (w1, d) = start_base w output_base_id in
    (w1, record { output_path = d; output_base_id = output_base_id })

-- The end of FinalizeBuild().
unfoldable pub logged :
    {E : Type 0} → Result (UploadError E) (Unit {0}) → Option E → List (Logged E)
logged (err e) e2 = traversal_failed e ∷ []
logged (ok u) none = []
logged (ok u) (some e) = flush_failed e ∷ []

module _ {W D L E : Type 0} (uploading : Uploading W D L E) where
  -- What follows VirtualApply() in a round of the loop over the leaves.
  unfoldable pub after_apply :
      List String → Option (W × Option E) → Call W (UploadError E) (Unit {0})
  after_apply path none = none
  after_apply path (some (w, none)) = some (w, ok tt)
  after_apply path (some (w, some e)) =
      if uploading.is_invalid_argument e
      then some (w, ok tt)
      else some (w, err (upload_failed path e))

  -- The loop over the leaves.
  unfoldable pub upload_leaves :
      W → List String → List (String × L) → Call W (UploadError E) (Unit {0})
  upload_leaves w path [] = some (w, ok tt)
  upload_leaves w path (leaf ∷ leaves) =
      and_then (after_apply (path ++ leaf.0 ∷ []) (uploading.apply w leaf.1))
        (λ w1 u. upload_leaves w1 path leaves)

  unfoldable mutual
    pub upload_local_files_recursive : W → List String → Tree L → Call W (UploadError E) (Unit {0})
    upload_local_files_recursive w path unreadable = some (w, err (look_up_failed path))
    upload_local_files_recursive w path (node directories leaves) =
        and_then (upload_directories w path directories) (λ w1 u. upload_leaves w1 path leaves)

    -- The loop over the directories.
    pub upload_directories : W → List String → Forest L → Call W (UploadError E) (Unit {0})
    upload_directories w path leafless = some (w, ok tt)
    upload_directories w path (child name directory others) =
        and_then (upload_local_files_recursive w (path ++ name ∷ []) directory)
          (λ w1 u. upload_directories w1 path others)

  unfoldable pub flush_after : Call W (UploadError E) (Unit {0}) → Option (W × List (Logged E))
  flush_after none = none
  flush_after (some (w, r)) = let (w1, e) = uploading.flush w in some (w1, logged r e)

  -- FinalizeBuild()
  unfoldable pub finalize_build : W → OutputPath D → Tree L → Option (W × List (Logged E))
  finalize_build w op files =
      flush_after (upload_local_files_recursive (uploading.finalize_base w op.output_path) [] files)
