-- ===== src/Uploads/Outcome.antt =====
-- What FinalizeBuild() of pkg/filesystem/virtual/local_file_uploading_output_path_factory.go does
-- and logs.
use bb_clientd.Prelude.{◌≡◌, ◌≢◌, ◌⊎◌, refl, ap, ◌∙◌, inl, inr, Option, none, some, List, [], ◌∷◌}
use bb_clientd.Prelude.Results.{Result, ok, err}
use bb_clientd.Persistent.Save.{Tree}
use bb_clientd.Uploads.{
  UploadError, Logged, traversal_failed, flush_failed, OutputPath, Uploading, logged, flush_after,
  finalize_build,
}
use bb_clientd.Uploads.Visits.{visits, Visited, upload-eq-visits, upload_visits-Visited}

module _ {E : Type 0} where
  -- What is logged after a traversal with result `r` and a flush with error `e`.
  abbrev pub Reports : Result (UploadError E) (Unit {0}) → Option E → List (Logged E) → Type 0
  Reports r e logs =
      ((e1 : UploadError E) × (r ≡ err e1) × (logs ≡ traversal_failed e1 ∷ []))
      ⊎ ((e2 : E) × (r ≡ ok tt) × (e ≡ some e2) × (logs ≡ flush_failed e2 ∷ []))
      ⊎ ((r ≡ ok tt) × (e ≡ none) × (logs ≡ []))

  logged-Reports : (r : Result (UploadError E) (Unit {0})) (e : Option E) → Reports r e (logged r e)
  unfolding logged
  logged-Reports (err e1) e = inl (e1, refl, refl)
  logged-Reports (ok u) (some e2) = inr (inl (e2, refl, refl, refl))
  logged-Reports (ok u) none = inr (inr (refl, refl, refl))

module _ {W D L E : Type 0} (uploading : Uploading W D L E) where
  -- Where every leaf of the output path supports uploading, FinalizeBuild() returns: after
  -- FinalizeBuild() of the output path under it, it goes through the leaves of all directories in
  -- order, those of a directory after those below it. Each one is uploaded, or passed over because
  -- its error is InvalidArgument, until the first that fails in another way or the first directory
  -- whose children cannot be looked up. The flusher runs in every case, and the error of the
  -- traversal is logged, or else that of the flusher, or nothing if both succeed.
  pub finalize_build-Visited :
      (w : W) (op : OutputPath D) (files : Tree L)
      → ((w0 : W) (l : L) → uploading.apply w0 l ≢ none)
      → (w1 : W) × (r : Result (UploadError E) (Unit {0})) × (logs : List (Logged E)) × Visited
          uploading
          (uploading.finalize_base w op.output_path)
          (visits [] files)
          w1
          r
        × (finalize_build uploading w op files ≡ some ((uploading.flush w1).0, logs))
        × Reports r (uploading.flush w1).1 logs
  unfolding finalize_build flush_after
  finalize_build-Visited w op files supports =
      let w0 = uploading.finalize_base w op.output_path in
      let (w1, r, runs, visited) = upload_visits-Visited uploading w0 (visits [] files) supports in
      let e = (uploading.flush w1).1 in
      (
        w1,
        r,
        logged r e,
        visited,
        ap (flush_after uploading) (upload-eq-visits uploading w0 [] files ∙ runs),
        logged-Reports r e,
      )
