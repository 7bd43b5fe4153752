-- ===== src/OutputService/Requests/Tests.antt =====
-- Runs and instances for StartBuild() of pkg/filesystem/virtual/bazel_output_service_directory.go.
use Prim.Native.String.{String}
use text.Mathlib.Text.{◌==◌ as str_eq}
use bb_clientd.Prelude.{
  Bool, ℕ, ◌+◌, ◌<◌, ◌^◌, ◌≡◌, ◌⊎◌, refl, true, false, none, some, List, [], ◌∷◌, ◌==◌,
  if◌then◌else◌, arith,
}
use bb_clientd.Prelude.Maps.{lookup, insert}
use bb_clientd.Prelude.Results.{ok, err}
use bb_clientd.OutputService.State.{
  BuildState, Service, new_service, create_output_path, set_build, use_output_path, register,
  start_build_locked, get_output_path_and_build_state,
}
use bb_clientd.OutputService.Builds.{Reach, here}
use bb_clientd.OutputService.Filter.{
  Child, depends_on, Storage, queue_add, remove_missing, find_missing_and_remove, enqueue,
  uses_other, filter_child, filter_children, filter_missing_children, find_missing_failed,
}
use bb_clientd.OutputService.Requests.{
  StartBuildRequest, StartBuildArgs, StartError, invalid_argument, filter_failed, StartCalls,
  Checked, check_request, build_of, start_world, start_locked, filter_root, filter_answer,
  start_checked, start_build,
}
use bb_clientd.OutputService.Filter.Queued.{select}
use bb_clientd.OutputService.Requests.Outcome.{Registers, Answers, start_build-outcome}

-- The CAS does not answer for digest function 9, and has everything otherwise.
abbrev storage : ℕ → Storage (List String) ℕ ℕ String
storage f = record {
  find_missing = λ ds w. (if f == 9 then err "unavailable" else ok [], "find missing" ∷ w);
  remove = λ i w. (none, w);
  equal = λ d e. d == e;
  uses_digest_function = λ d. true;
  is_not_found = λ e. false;
  limit = 2;
}

abbrev calls : StartCalls (List String) String ℕ StartBuildArgs String ℕ ℕ ℕ ℕ ℕ String
calls = record {
  resolve_prefix = λ p. ok p;
  new_component = λ s. if str_eq s ".." then none else some s;
  on_relative = λ p. ok p;
  on_terminal = λ p s. ok s;
  output_path_suffix = λ p. p;
  new_scope_walker_factory = λ p a. ok a;
  unmarshal_args = λ a. ok a;
  new_instance_name = λ s. ok s;
  get_digest_function = λ i f. ok f;
  start_initial_build = λ w base f. (base ∷ w, 7);
  children = λ w root. (record { containing = depends_on (3 ∷ []); remover = 1 } ∷ [], none);
  storage = storage;
}

abbrev request : String → ℕ → StartBuildRequest ℕ StartBuildArgs
request base f = record {
  output_path_prefix = "/bazel";
  output_base_id = base;
  build_id = "a";
  output_path_aliases = 5;
  args = record { instance_name = "main"; digest_function = f };
}

abbrev nothing_yet : Service ℕ ℕ ℕ
nothing_yet = new_service 0

room : nothing_yet.change_id + 1 < 2 ^ 64
unfolding new_service
room = omega arith

starts_build :
    let (s, result) = start_build calls [] nothing_yet (request "home" 1) in
    (s.0 ≡ "find missing" ∷ "home" ∷ [])
    × (result ≡ ok "home")
    × (lookup "home" s.1.output_base_ids ≡ some 1)
unfolding start_build check_request start_checked start_locked filter_root filter_answer
    start_build_locked register use_output_path create_output_path set_build new_service lookup
    insert filter_missing_children filter_children filter_child uses_other enqueue queue_add
    find_missing_and_remove remove_missing
starts_build = (refl, refl, refl)

refuses :
    start_build calls [] nothing_yet (request ".." 1) ≡ (([], nothing_yet), err invalid_argument)
unfolding start_build check_request
refuses = refl

-- The build is registered although the filter fails.
fails :
    let (s, result) = start_build calls [] nothing_yet (request "home" 9) in
    (result ≡ err (filter_failed (find_missing_failed "unavailable")))
    × (lookup "a" s.1.build_ids ≡ some 1)
unfolding start_build check_request start_checked start_locked filter_root filter_answer
    start_build_locked register use_output_path create_output_path set_build new_service lookup
    insert filter_missing_children filter_children filter_child uses_other enqueue queue_add
    find_missing_and_remove remove_missing
fails = (refl, refl)

start_build-outcome_example :
    let (s, result) = start_build calls [] nothing_yet (request "home" 9) in
    ((e : StartError String) × (check_request calls (request "home" 9) ≡ err e)
      × (result ≡ err e)
      × (s ≡ ([], nothing_yet)))
    ⊎ ((c : Checked ℕ ℕ) × (check_request calls (request "home" 9) ≡ ok c)
        × Reach nothing_yet s.1
        × ((p : ℕ) × (found : BuildState ℕ ℕ) × (get_output_path_and_build_state s.1 "a"
              ≡ ok (p, some found))
            × Registers nothing_yet s.1 c.output_base_id (build_of calls "a" c) p found
            × Answers calls c
                (start_world calls [] nothing_yet "a" c)
                (s.1.root_directory p)
                s.0
                result))
start_build-outcome_example =
    start_build-outcome calls 0 [] nothing_yet here room (request "home" 9)

-- Digest 12 is missing. The world is the removers that have run.
abbrev missing : ℕ → Bool
missing d = d == 12

abbrev working : ℕ → Storage (List ℕ) ℕ ℕ String
working f = record {
  find_missing = λ ds w. (ok (select missing ds), w);
  remove = λ i w. (none, i ∷ w);
  equal = λ d e. d == e;
  uses_digest_function = λ d. true;
  is_not_found = λ e. false;
  limit = 2;
}

abbrev contents : ℕ → List (Child ℕ ℕ String)
contents root =
    record { containing = depends_on (3 ∷ 12 ∷ []); remover = 1 }
    ∷ record { containing = depends_on (4 ∷ []); remover = 2 }
    ∷ []

abbrev working_calls : StartCalls (List ℕ) String ℕ StartBuildArgs String ℕ ℕ ℕ ℕ ℕ String
working_calls = record {
  resolve_prefix = λ p. ok p;
  new_component = λ s. some s;
  on_relative = λ p. ok p;
  on_terminal = λ p s. ok s;
  output_path_suffix = λ p. p;
  new_scope_walker_factory = λ p a. ok a;
  unmarshal_args = λ a. ok a;
  new_instance_name = λ s. ok s;
  get_digest_function = λ i f. ok f;
  start_initial_build = λ w base f. (w, 7);
  children = λ w root. (contents root, none);
  storage = working;
}

abbrev checked : Checked ℕ ℕ
checked = record {
  output_base_id = "home";
  output_path_suffix = "home";
  scope_walker_factory = 5;
  digest_function = 1;
}
