-- ===== src/OutputService/Staging/Paths.antt =====
-- Where StageArtifacts() of pkg/filesystem/virtual/bazel_output_service_directory.go may go.
use Prim.Native.String.{String}
use bb_clientd.Prelude.{
  ℕ, zero, suc, ◌≡◌, ◌≢◌, refl, ◌⊎◌, inl, inr, Bool, true, false, Option, none, some, List, [], ◌∷◌,
  arith, length, Option-cases, List-cases,
}
use bb_clientd.Prelude.Results.{ok, Result-cases}
use bb_clientd.OutputService.State.{
  new_service, Service, BuildState, get_output_path_and_build_state,
}
use bb_clientd.OutputService.Builds.{Reach}
use bb_clientd.OutputService.Sessions.{get-success}
use bb_clientd.OutputService.Staging.{
  Step, on_directory, on_terminal, on_up, Tree, ParentWalker, StageError, outside_output_path,
  resolve_failed, Artifact, walk_step, walk, resolve, stage_single_artifact, stage_all,
  stage_artifacts,
}

-- Whether a path goes above the directory that it starts in, `depth` directories above it being
-- open to it.
abbrev pub escapes : ℕ → List Step → Bool
escapes depth [] = false
escapes depth (on_directory name ∷ ss) = escapes (suc depth) ss
escapes depth (on_terminal name ∷ ss) = escapes depth ss
escapes zero (on_up ∷ ss) = true
escapes (suc depth) (on_up ∷ ss) = escapes depth ss

module _ {W Dir M Digest Fn E : Type 0} (tree : Tree W Dir M Digest Fn E) where
  walk_step_cases :
      (s : Step) (ss : List Step) (cw : ParentWalker Dir) (w : W)
      → escapes (length cw.below) (s ∷ ss) ≡ true
      → ((x : StageError E) × ((walk_step tree s cw w).0 ≡ some x))
        ⊎ (((walk_step tree s cw w).0 ≡ none)
            × (escapes (length (walk_step tree s cw w).1.below) ss ≡ true))
  unfolding walk_step
  walk_step_cases (on_terminal name) ss cw w h = inr (refl, h)
  walk_step_cases (on_directory name) ss cw w h =
      elim (Result-cases (tree.create_and_enter cw.top name w).0) [
        | inl (child, e) ↦ inr (ground (arith, e), ground (arith, e, h))
        | inr (x, e) ↦ inl (resolve_failed x, ground (arith, e))
      ]
  walk_step_cases on_up ss cw w h = elim (List-cases cw.below) [
    | inl e ↦ inl (outside_output_path, ground (arith, e))
    | inr (dir, dirs, e) ↦ inr (ground (arith, e), ground (arith, e, h))
  ]

  walk-escapes :
      (ss : List Step) (cw : ParentWalker Dir) (w : W)
      → escapes (length cw.below) ss ≡ true
      → (walk tree ss cw w).0 ≢ none
  unfolding walk
  walk-escapes [] cw w h = cc
  walk-escapes (s ∷ ss) cw w h = elim (walk_step_cases s ss cw w h) [
    | inl (x, e) ↦ rw (e, walk) (λ p. cc)
    | inr (e, h') ↦
        rw (e, walk) (walk-escapes ss (walk_step tree s cw w).1 (walk_step tree s cw w).2 h')
  ]

  -- An artifact whose path goes above the root directory of the output path at any point is
  -- answered with an error.
  pub stage_single_artifact-escapes :
      (artifact : Artifact M E) (root : Dir) (fn : Fn) (w : W)
      → escapes 0 artifact.path.steps ≡ true
      → (stage_single_artifact tree artifact root fn w).0 ≢ none
  unfolding stage_single_artifact resolve
  stage_single_artifact-escapes artifact root fn w h =
      let cw : ParentWalker Dir = record { top = root; below = []; terminal_name = none } in
      let fails = walk-escapes artifact.path.steps cw w h in
      elim (Option-cases (walk tree artifact.path.steps cw w).0) [
        | inl e ↦ absurd (fails e)
        | inr (x, e) ↦ rw (e, stage_single_artifact, resolve) (λ p. cc)
      ]

  length-stage_all :
      (artifacts : List (Artifact M E)) (root : Dir) (fn : Fn) (w : W)
      → length (stage_all tree artifacts root fn w).0 ≡ length artifacts
  unfolding stage_all
  length-stage_all [] root fn w = refl
  length-stage_all (a ∷ rest) root fn w =
      omega (arith, length-stage_all rest root fn (stage_single_artifact tree a root fn w).1)

  -- In a state that the service can reach, StageArtifacts() for a build ID that is found never
  -- goes through a nil build state, and returns one response for each artifact.
  pub stage_artifacts-responses :
      {Scope : Type 0} (root : Dir) (d : Service Dir Fn Scope) (build_id : String) (p : ℕ)
      (s : Option (BuildState Fn Scope)) (artifacts : List (Artifact M E)) (w : W)
      → Reach (new_service root) d
      → get_output_path_and_build_state d build_id ≡ ok (p, s)
      → (responses : List (Option (StageError E))) × (w' : W) × (stage_artifacts tree d build_id
            artifacts w
          ≡ some (ok responses, w'))
        × (length responses ≡ length artifacts)
  unfolding stage_artifacts
  stage_artifacts-responses root d build_id p s artifacts w reach found =
      let (build, e, _, _) = get-success root d reach build_id p s found in
      let r = stage_all tree artifacts (d.root_directory p) build.digest_function w in
      (
        r.0,
        r.1,
        rw (found, stage_artifacts) (rw e refl),
        length-stage_all artifacts (d.root_directory p) build.digest_function w,
      )
