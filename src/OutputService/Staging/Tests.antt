-- ===== src/OutputService/Staging/Tests.antt =====
-- Runs and instances for StageArtifacts() of
-- pkg/filesystem/virtual/bazel_output_service_directory.go.
use Prim.Native.String.{String}
use bb_clientd.Prelude.{ℕ, ◌≡◌, ◌≢◌, refl, Option, none, some, List, [], ◌∷◌, arith, length}
use bb_clientd.Prelude.Results.{ok}
use bb_clientd.Prelude.Maps.{lookup, insert}
use bb_clientd.OutputService.State.{
  BuildState, Service, new_service, create_output_path, set_build, use_output_path, register,
  start_build_locked, get_output_path_and_build_state,
}
use bb_clientd.OutputService.Builds.{Reach, here, step, starts}
use bb_clientd.OutputService.Staging.{
  Step, on_directory, on_terminal, on_up, Tree, Artifact, file_artifact, StageError, walk_step,
  walk, resolve, initial_of, stage_at, stage_single_artifact, stage_artifacts,
}
use bb_clientd.OutputService.Staging.Paths.{
  stage_single_artifact-escapes, stage_artifacts-responses,
}

-- Directories are paths, and the world is the list of what was made.
abbrev tree : Tree (List (List String)) (List String) ℕ ℕ ℕ ℕ
tree = record {
  create_and_enter = λ dir name w. (ok (name ∷ dir), (name ∷ dir) ∷ w);
  create_children = λ dir name initial w. (none, (name ∷ dir) ∷ w);
  new_digest = λ fn m. ok m;
  size_bytes = λ d. d;
  maximum_tree_size_bytes = 100;
}

abbrev artifact : List Step → Artifact ℕ ℕ
artifact steps = record {
  path = record { steps = steps; failed = none };
  locator = ok (file_artifact 7);
}

abbrev inside : List Step
inside = on_directory "a" ∷ on_up ∷ on_terminal "b" ∷ []

abbrev outside : List Step
outside = on_directory "a" ∷ on_up ∷ on_up ∷ on_terminal "b" ∷ []

staged : stage_single_artifact tree (artifact inside) [] 1 [] ≡ (none, ("b" ∷ []) ∷ ("a" ∷ []) ∷ [])
unfolding stage_single_artifact resolve walk walk_step initial_of stage_at
staged = refl

stage_single_artifact-escapes_example :
    (stage_single_artifact tree (artifact outside) [] 1 []).0 ≢ none
stage_single_artifact-escapes_example =
    stage_single_artifact-escapes tree (artifact outside) [] 1 [] refl

abbrev build : BuildState ℕ ℕ
build = record { id = "x"; digest_function = 1; scope_walker_factory = 2 }

abbrev service : Service (List String) ℕ ℕ
service = (start_build_locked (new_service []) "home" ("home" ∷ []) build).0

reached : Reach (new_service []) service
reached = step here (starts "home" ("home" ∷ []) build (unfold new_service in omega arith))

found : get_output_path_and_build_state service "x" ≡ ok (1, some build)
unfolding new_service start_build_locked register use_output_path create_output_path set_build
    lookup insert get_output_path_and_build_state
found = refl

stage_artifacts-responses_example :
    (responses : List (Option (StageError ℕ))) × (w' : List (List String)) × (stage_artifacts tree
        service "x"
        (artifact inside ∷ artifact outside ∷ [])
        []
      ≡ some (ok responses, w'))
    × (length responses ≡ 2)
stage_artifacts-responses_example =
    stage_artifacts-responses tree [] service "x" 1 (some build)
      (artifact inside ∷ artifact outside ∷ []) [] reached found
