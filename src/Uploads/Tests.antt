-- ===== src/Uploads/Tests.antt =====
-- Runs and instances for pkg/filesystem/virtual/local_file_uploading_output_path_factory.go.
use Prim.Native.String.{String}
use text.Mathlib.Text.{◌==◌ as str_eq}
use bb_clientd.Prelude.{
  ℕ, ◌≡◌, ◌≢◌, refl, Option, none, some, List, [], ◌∷◌, ◌++◌, ◌==◌, if◌then◌else◌,
}
use bb_clientd.Prelude.Results.{Result}
use bb_clientd.Prelude.Calls.{and_then}
use bb_clientd.Persistent.Save.{Tree, node, leafless, child}
use bb_clientd.Uploads.{
  UploadError, Logged, traversal_failed, upload_failed, OutputPath, Uploading, after_apply,
  upload_leaves, upload_local_files_recursive, logged, flush_after, finalize_build,
}
use bb_clientd.Uploads.Visits.{visits, Visited}
use bb_clientd.Uploads.Outcome.{Reports, finalize_build-Visited}

-- The world is the leaves that were applied. Leaf 0 is a FIFO, leaf 9 fails.
abbrev upload : List ℕ → ℕ → Option String
upload w l = if l == 0 then some "invalid" else if l == 9 then some "unavailable" else none

abbrev uploading : Uploading (List ℕ) ℕ ℕ String
uploading = record {
  finalize_base = λ w d. w;
  apply = λ w l. some (w ++ l ∷ [], upload w l);
  is_invalid_argument = λ e. str_eq e "invalid";
  flush = λ w. (w, none);
}

abbrev home : OutputPath ℕ
home = record { output_path = 1; output_base_id = "home" }

abbrev files : Tree ℕ
files =
    node (child "bin" (node leafless (("a", 2) ∷ ("fifo", 0) ∷ ("b", 3) ∷ [])) leafless)
      (("c", 4) ∷ [])

abbrev broken : Tree ℕ
broken =
    node (child "bin" (node leafless (("a", 2) ∷ ("x", 9) ∷ ("b", 3) ∷ [])) leafless)
      (("c", 4) ∷ [])

uploads : finalize_build uploading [] home files ≡ some (2 ∷ 0 ∷ 3 ∷ 4 ∷ [], [])
unfolding finalize_build flush_after logged upload_local_files_recursive upload_leaves after_apply
    and_then
uploads = refl

stops :
    finalize_build uploading [] home broken
    ≡ some (2 ∷ 9 ∷ [], traversal_failed (upload_failed ("bin" ∷ "x" ∷ []) "unavailable") ∷ [])
unfolding finalize_build flush_after logged upload_local_files_recursive upload_leaves after_apply
    and_then
stops = refl

supports : (w0 : List ℕ) (l : ℕ) → uploading.apply w0 l ≢ none
supports w0 l e = cc

finalize_build-Visited_example :
    (w1 : List ℕ) × (r : Result (UploadError String) (Unit {0})) × (logs : List (Logged String))
    × Visited uploading [] (visits [] broken) w1 r
    × (finalize_build uploading [] home broken ≡ some (w1, logs))
    × Reports r none logs
finalize_build-Visited_example = finalize_build-Visited uploading [] home broken supports
