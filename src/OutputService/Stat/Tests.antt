-- ===== src/OutputService/Stat/Tests.antt =====
-- Runs and instances for BatchStat() of
-- pkg/filesystem/virtual/bazel_output_service_directory.go.
use Prim.Native.String.{String}
use text.Mathlib.Text.{◌==◌ as str_eq}
use bb_clientd.Prelude.{ℕ, ◌≡◌, refl, Option, none, some, List, [], ◌∷◌, if◌then◌else◌, arith}
use bb_clientd.Prelude.Results.{Result, ok, err}
use bb_clientd.Prelude.Maps.{lookup, insert}
use bb_clientd.OutputService.State.{
  BuildState, Service, new_service, create_output_path, set_build, use_output_path, register,
  start_build_locked, get_output_path_and_build_state,
}
use bb_clientd.OutputService.Builds.{Reach, here, step, starts}
use bb_clientd.OutputService.Stat.{
  Stat, empty, is_directory, leaf_stat, StatError, no_entry, a_directory, a_leaf, Files, StatWalker,
  done, on_relative, on_up, on_directory, on_terminal, push, stat_response, stat_all, batch_stat,
}
use bb_clientd.OutputService.Stat.Names.{
  Walked, start, relative, directory, terminal, find, going_up, going_down, shown, ending,
}
use bb_clientd.OutputService.Stat.Walks.{Walked-find}
use bb_clientd.OutputService.Stat.Answers.{Answers, batch_stat-Answers}

-- Directory 0 has a directory "a", which is 1, and each directory a leaf "f".
abbrev files : Files ℕ ℕ ℕ ℕ ℕ
files = record {
  lookup_child = λ dir name.
      if str_eq name "f"
      then ok (a_leaf 5)
      else if str_eq name "a"
      then ok (a_directory 1)
      else err no_entry;
  symlink_target = λ leaf. none;
  stat_leaf = λ fn leaf. some (ok (leaf_stat leaf));
}

abbrev begin : StatWalker ℕ ℕ
begin = record { top = 0; below = []; stat = empty }

abbrev in_a : StatWalker ℕ ℕ
in_a = record { top = 1; below = 0 ∷ []; stat = is_directory }

abbrev at_f : StatWalker ℕ ℕ
at_f = record { top = 1; below = 0 ∷ []; stat = leaf_stat 5 }

in_a-Walked : Walked files 0 ("a" ∷ []) in_a
unfolding on_relative on_directory push find
in_a-Walked =
    directory {cw = record { top = 0; below = []; stat = is_directory }} "a"
      (relative {cw = begin} (start refl refl refl))

at_f-Walked : Walked files 0 ("a" ∷ []) at_f
unfolding on_terminal find
at_f-Walked = terminal {cw = in_a} 1 "f" (ok done) at_f in_a-Walked refl

Walked-find_example :
    (find files 0 ("a" ∷ []) ≡ ok (a_directory 1))
    × ((on_up {E = ℕ} at_f).0 ≡ ok (going_up files 0 ("a" ∷ [])))
    × ((on_directory files at_f "a").0 ≡ going_down files 0 (find files 0 ("a" ∷ "a" ∷ [])))
    × (shown files 0 (on_terminal files 1 at_f "a")
        ≡ ending files 0 1 (leaf_stat 5) (find files 0 ("a" ∷ "a" ∷ [])))
Walked-find_example = Walked-find files 0 ("a" ∷ []) at_f 1 "a" at_f-Walked

-- A resolver that only knows paths of one component.
abbrev resolve : ℕ → ℕ → StatWalker ℕ ℕ → String → Option (StatError ℕ) × StatWalker ℕ ℕ
resolve fn scope cw path =
    if str_eq path "f" then (none, record cw { stat = leaf_stat 5 }) else (some no_entry, cw)

abbrev build : BuildState ℕ ℕ
build = record { id = "x"; digest_function = 1; scope_walker_factory = 2 }

abbrev service : Service ℕ ℕ ℕ
service = (start_build_locked (new_service 0) "home" 0 build).0

reached : Reach (new_service 0) service
reached = step here (starts "home" 0 build (unfold new_service in omega arith))

found : get_output_path_and_build_state service "x" ≡ ok (1, some build)
unfolding new_service start_build_locked register use_output_path create_output_path set_build
    lookup insert get_output_path_and_build_state
found = refl

answers :
    batch_stat resolve service "x" ("f" ∷ "g" ∷ [])
    ≡ some (ok (ok (some (leaf_stat 5) ∷ none ∷ [])))
unfolding new_service start_build_locked register use_output_path create_output_path set_build
    lookup insert get_output_path_and_build_state batch_stat stat_all stat_response
answers = refl

batch_stat-Answers_example :
    (b : BuildState ℕ ℕ) × (r : Result (StatError ℕ) (List (Option (Stat ℕ)))) × (batch_stat resolve
        service "x"
        ("f" ∷ "g" ∷ [])
      ≡ some (ok r))
    × (b.id ≡ "x")
    × Answers resolve (service.root_directory 1) b ("f" ∷ "g" ∷ []) r
batch_stat-Answers_example =
    batch_stat-Answers resolve 0 service "x" 1 (some build) ("f" ∷ "g" ∷ []) reached found
