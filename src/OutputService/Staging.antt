-- ===== src/OutputService/Staging.antt =====
-- StageArtifacts() of pkg/filesystem/virtual/bazel_output_service_directory.go.
--
-- path.Resolve() is taken by the sequence of calls that a path makes of the component walker, and
-- the error that the parser may end with. Directories of the output path are behind
-- PrepopulatedDirectory, digests and messages behind their libraries; all of them are arguments.
-- The world `W` is passed along.
use Prim.Native.String.{String}
use bb_clientd.Prelude.{ℕ, Option, none, some, List, [], ◌∷◌, if◌then◌else◌, ltb}
use bb_clientd.Prelude.Results.{Result, ok, err}
use bb_clientd.OutputService.State.{Service, NoBuild, get_output_path_and_build_state}
pub mod Paths
mod Tests

-- One call of the walker.
pub data Step : Type 0 where
  on_directory on_terminal : String → Step
  on_up : Step

pub record Parsed (E : Type 0) : Type 0 where
  pub steps : List Step
  pub failed : Option E

pub data StageError (E : Type 0) : Type 0 where
  outside_output_path resolves_to_directory : StageError E
  directory_exceeds_maximum unknown_locator : StageError E
  resolve_failed invalid_locator invalid_digest create_failed : E → StageError E

-- The locators, with digests as messages.
pub data Locator (M : Type 0) : Type 0 where
  file_artifact : M → Locator M
  tree_artifact : M → Option M → Locator M
  another : Locator M

pub record Artifact (M E : Type 0) : Type 0 where
  pub path : Parsed E
  pub locator : Result E (Locator M)

-- What is put at the path: a file of the CAS, which is executable, or a tree of the CAS.
pub data Initial (Digest : Type 0) : Type 0 where
  cas_file : Digest → Initial Digest
  cas_tree : Digest → Option Digest → Initial Digest

-- A file artifact reads from the factory of the output path; the calls that make the child have no
-- effect of their own.
pub record Tree (W Dir M Digest Fn E : Type 0) : Type 0 where
  pub create_and_enter : Dir → String → W → Result E Dir × W
  pub create_children : Dir → String → Initial Digest → W → Option E × W
  pub new_digest : Fn → M → Result E Digest
  pub size_bytes : Digest → ℕ
  pub maximum_tree_size_bytes : ℕ

-- parentDirectoryCreatingComponentWalker: the stack, its top first, and the last terminal name.
pub record ParentWalker (Dir : Type 0) : Type 0 where
  pub top : Dir
  pub below : List Dir
  pub terminal_name : Option String

module _ {W Dir M Digest Fn E : Type 0} (tree : Tree W Dir M Digest Fn E) where
  -- OnDirectory(), OnUp(), and OnTerminal() of TerminalNameTrackingComponentWalker.
  unfoldable pub walk_step :
      Step → ParentWalker Dir → W → Option (StageError E) × ParentWalker Dir × W
  walk_step (on_directory name) cw w =
      let (r, w) = tree.create_and_enter cw.top name w in
      elim r [
        | err e ↦ (some (resolve_failed e), cw, w)
        | ok child ↦ (none, record cw { top = child; below = cw.top ∷ cw.below }, w)
      ]
  walk_step on_up cw w = elim cw.below [
    | [] ↦ (some outside_output_path, cw, w)
    | dir ∷ dirs ↦ (none, record cw { top = dir; below = dirs }, w)
  ]
  walk_step (on_terminal name) cw w = (none, record cw { terminal_name = some name }, w)

  unfoldable pub walk :
      List Step → ParentWalker Dir → W → Option (StageError E) × ParentWalker Dir × W
  walk [] cw w = (none, cw, w)
  walk (s ∷ ss) cw w =
      let (failed, cw, w) = walk_step s cw w in
      let rest = walk ss cw w in elim failed [ none ↦ rest | some e ↦ (some e, cw, w) ]

  -- path.Resolve()
  unfoldable pub resolve :
      Parsed E → ParentWalker Dir → W → Option (StageError E) × ParentWalker Dir × W
  resolve path cw w =
      let (failed, cw, w) = walk path.steps cw w in
      elim failed [
        | some e ↦ (some e, cw, w)
        | none ↦ elim path.failed [
          | none ↦ (none, cw, w)
          | some e ↦ (some (resolve_failed e), cw, w)
        ]
      ]

  unfoldable pub root_digest : Fn → Option M → Result (StageError E) (Option Digest)
  root_digest fn none = ok none
  root_digest fn (some m) = elim (tree.new_digest fn m) [
    | err e ↦ err (invalid_digest e)
    | ok digest ↦ ok (some digest)
  ]

  -- What a locator stands for: the checks in the order of the switch.
  unfoldable pub initial_of : Fn → Result E (Locator M) → Result (StageError E) (Initial Digest)
  initial_of fn (err e) = err (invalid_locator e)
  initial_of fn (ok (file_artifact m)) = elim (tree.new_digest fn m) [
    | err e ↦ err (invalid_digest e)
    | ok digest ↦ ok (cas_file digest)
  ]
  initial_of fn (ok (tree_artifact m root)) = elim (tree.new_digest fn m) [
    | err e ↦ err (invalid_digest e)
    | ok digest ↦
        if ltb tree.maximum_tree_size_bytes (tree.size_bytes digest)
        then err directory_exceeds_maximum
        else (elim (root_digest fn root) [ err e ↦ err e | ok d ↦ ok (cas_tree digest d) ])
  ]
  initial_of fn (ok another) = err unknown_locator

  unfoldable pub stage_at :
      Dir → Option String → Result (StageError E) (Initial Digest) → W → Option (StageError E) × W
  stage_at dir none initial w = (some resolves_to_directory, w)
  stage_at dir (some name) (err e) w = (some e, w)
  stage_at dir (some name) (ok initial) w =
      let (failed, w) = tree.create_children dir name initial w in
      elim failed [ none ↦ (none, w) | some e ↦ (some (create_failed e), w) ]

  -- stageSingleArtifact(), in the root directory of the output path.
  unfoldable pub stage_single_artifact : Artifact M E → Dir → Fn → W → Option (StageError E) × W
  stage_single_artifact artifact root fn w =
      let (failed, cw, w) =
        resolve artifact.path (record { top = root; below = []; terminal_name = none }) w in
      elim failed [
        | some e ↦ (some e, w)
        | none ↦ stage_at cw.top cw.terminal_name (initial_of fn artifact.locator) w
      ]

  -- The loop of StageArtifacts(): one response for each artifact, in order.
  unfoldable pub stage_all : List (Artifact M E) → Dir → Fn → W → List (Option (StageError E)) × W
  stage_all [] root fn w = ([], w)
  stage_all (artifact ∷ artifacts) root fn w =
      let (response, w) = stage_single_artifact artifact root fn w in
      let (responses, w) = stage_all artifacts root fn w in (response ∷ responses, w)

  -- StageArtifacts(). A nil build state would be dereferenced: `none`.
  unfoldable pub stage_artifacts :
      {Scope : Type 0}
      → Service Dir Fn Scope
      → String
      → List (Artifact M E)
      → W
      → Option (Result NoBuild (List (Option (StageError E))) × W)
  stage_artifacts d build_id artifacts w = elim (get_output_path_and_build_state d build_id) [
    | err e ↦ some (err e, w)
    | ok r ↦ elim r.1 [
      | none ↦ none
      | some build ↦
          let (responses, w) = stage_all artifacts (d.root_directory r.0) build.digest_function w in
          some (ok responses, w)
    ]
  ]
