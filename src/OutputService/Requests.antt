-- ===== src/OutputService/Requests.antt =====
-- StartBuild() of pkg/filesystem/virtual/bazel_output_service_directory.go as a whole: the checks
-- of the request, `start_build_locked`, and filterMissingChildren().
--
-- Paths, digests and messages are in other repositories, as are the output path factory and
-- FilterChildren(), whose callback is behind Filter. The world `W` is passed along.
use Prim.Native.String.{String}
use bb_clientd.Prelude.{ℕ, Option, none, some, List}
use bb_clientd.Prelude.Results.{Result, ok, err, ◌>>=◌, wrap}
use bb_clientd.Prelude.Maps.{lookup}
use bb_clientd.OutputService.State.{BuildState, Service, start_build_locked}
use bb_clientd.OutputService.Filter.{Child, FilterError, Storage, filter_missing_children}
pub mod Outcome
pub mod Filtered
mod Tests

-- bazeloutputservice.StartBuildRequest
pub record StartBuildRequest (Aliases Args : Type 0) : Type 0 where
  pub output_path_prefix : String
  pub output_base_id : String
  pub build_id : String
  pub output_path_aliases : Aliases
  pub args : Args

-- bazeloutputservicerev2.StartBuildArgs
pub record StartBuildArgs : Type 0 where
  pub instance_name : String
  pub digest_function : ℕ

pub data StartError (E : Type 0) : Type 0 where
  invalid_argument : StartError E
  prefix_failed output_path_failed aliases_failed args_failed : E → StartError E
  instance_name_failed digest_function_failed : E → StartError E
  filter_failed : FilterError E → StartError E

-- `PathBuilder` is the state of the two path builders, and of the scope walker that is joined with
-- them. children() is what FilterChildren() calls its callback with.
pub record StartCalls (W PathBuilder Aliases Args Instance Root Fn Scope Digest Remover E : Type 0)
    : Type 0 where
  pub resolve_prefix : String → Result E PathBuilder
  pub new_component : String → Option String
  pub on_relative : PathBuilder → Result E PathBuilder
  pub on_terminal : PathBuilder → String → Result E PathBuilder
  pub output_path_suffix : PathBuilder → String
  pub new_scope_walker_factory : PathBuilder → Aliases → Result E Scope
  pub unmarshal_args : Args → Result E StartBuildArgs
  pub new_instance_name : String → Result E Instance
  pub get_digest_function : Instance → ℕ → Result E Fn
  pub start_initial_build : W → String → Fn → W × Root
  pub children : W → Root → List (Child Digest Remover E) × Option E
  pub storage : Fn → Storage W Digest Remover E

-- What is known of a request that has passed the checks.
pub record Checked (Fn Scope : Type 0) : Type 0 where
  pub output_base_id : String
  pub output_path_suffix : String
  pub scope_walker_factory : Scope
  pub digest_function : Fn

-- The end of StartBuild().
unfoldable pub filter_answer :
    {W Fn Scope E : Type 0}
    → Checked Fn Scope
    → Option (FilterError E) × W
    → W × Result (StartError E) String
filter_answer c (none, w) = (w, ok c.output_path_suffix)
filter_answer c (some e, w) = (w, err (filter_failed e))

module _ {W PathBuilder Aliases Args Instance Root Fn Scope Digest Remover E : Type 0}
    (calls : StartCalls W PathBuilder Aliases Args Instance Root Fn Scope Digest Remover E) where
  abbrev pub checked_component : String → Result (StartError E) String
  checked_component name = elim (calls.new_component name) [
    | none ↦ err invalid_argument
    | some base ↦ ok base
  ]

  -- StartBuild() up to Lock().
  unfoldable pub check_request :
      StartBuildRequest Aliases Args → Result (StartError E) (Checked Fn Scope)
  check_request request = do
    prefix ← wrap prefix_failed (calls.resolve_prefix request.output_path_prefix)
    base ← checked_component request.output_base_id
    relative ← wrap output_path_failed (calls.on_relative prefix)
    path ← wrap output_path_failed (calls.on_terminal relative base)
    scope ← wrap aliases_failed (calls.new_scope_walker_factory path request.output_path_aliases)
    args ← wrap args_failed (calls.unmarshal_args request.args)
    instance_name ← wrap instance_name_failed (calls.new_instance_name args.instance_name)
    digest_function ←
        wrap digest_function_failed (calls.get_digest_function instance_name args.digest_function)
    ok (record {
      output_base_id = base;
      output_path_suffix = calls.output_path_suffix path;
      scope_walker_factory = scope;
      digest_function = digest_function;
    })

  abbrev pub build_of : String → Checked Fn Scope → BuildState Fn Scope
  build_of build_id c = record {
    id = build_id;
    digest_function = c.digest_function;
    scope_walker_factory = c.scope_walker_factory;
  }

  -- StartInitialBuild() of the factory is only called for a new output path of a new build.
  abbrev pub start_world : W → Service Root Fn Scope → String → Checked Fn Scope → W
  start_world w d build_id c = elim (lookup build_id d.build_ids) [
    | some p ↦ w
    | none ↦ elim (lookup c.output_base_id d.output_base_ids) [
      | some p ↦ w
      | none ↦ (calls.start_initial_build w c.output_base_id c.digest_function).0
    ]
  ]

  -- StartBuild() between Lock() and Unlock(). The last argument of start_build_locked() but one is
  -- the directory that StartInitialBuild() returns where it is called.
  unfoldable pub start_locked :
      W → Service Root Fn Scope → String → Checked Fn Scope → W × Service Root Fn Scope × ℕ
  start_locked w d build_id c =
      let root = (calls.start_initial_build w c.output_base_id c.digest_function).1 in
      let (d', p) = start_build_locked d c.output_base_id root (build_of build_id c) in
      (start_world w d build_id c, d', p)

  -- StartBuild() after Unlock().
  unfoldable pub filter_root : W → Root → Checked Fn Scope → W × Result (StartError E) String
  filter_root w root c =
      let (children, failed) = calls.children w root in
      filter_answer c (filter_missing_children (calls.storage c.digest_function) children failed w)

  unfoldable pub start_checked :
      W
      → Service Root Fn Scope
      → String
      → Checked Fn Scope
      → (W × Service Root Fn Scope) × Result (StartError E) String
  start_checked w d build_id c =
      let (w1, d', p) = start_locked w d build_id c in
      let (w2, r) = filter_root w1 (d'.root_directory p) c in ((w2, d'), r)

  -- StartBuild()
  unfoldable pub start_build :
      W
      → Service Root Fn Scope
      → StartBuildRequest Aliases Args
      → (W × Service Root Fn Scope) × Result (StartError E) String
  start_build w d request = elim (check_request request) [
    | err e ↦ ((w, d), err e)
    | ok c ↦ start_checked w d request.build_id c
  ]
