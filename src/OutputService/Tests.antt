-- ===== src/OutputService/Tests.antt =====
-- Runs and instances for pkg/filesystem/virtual/bazel_output_service_directory.go.
use Prim.Native.String.{String}
use bb_clientd.Prelude.{
  false, Option, ℕ, ◌+◌, ◌<◌, ◌^◌, ◌≡◌, ◌⊎◌, ◌≢◌, refl, none, some, List, [], ◌∷◌, ◌++◌, Bool, true,
  arith,
}
use bb_clientd.Prelude.Maps.{lookup, insert, delete}
use bb_clientd.Prelude.Results.{ok}
use bb_clientd.OutputService.Refinement.{promise_of, start_promise, clean_promise, finalize_promise}
use bb_clientd.OutputService.Refines.{Agrees}
use bb_clientd.Vfs.{Status, no_attributes}
use bb_clientd.OutputService.Attributes.{
  Requested, virtual_get_attributes, virtual_open_child, change_id-virtual_lookup,
}
use bb_clientd.OutputService.Promises.{locked-Agrees}
use mathlib.Core.Option.{map as option_map}
use bb_clientd.OutputService.Cleaning.{
  CleanCalls, invalid_argument, remove_failed, factory_failed, clean, clean_path, clean_found,
  clean_unused, clean-outcome,
}
use bb_clientd.OutputService.State.{
  BuildState, Service, new_service, create_output_path, forget_build, set_build, use_output_path,
  register, start_build_locked, detach, finalize_build_locked, get_output_path_and_build_state,
  virtual_lookup, unlink,
}
use bb_clientd.OutputService.Invariant.{Inv}
use bb_clientd.OutputService.Builds.{Reach, here, step, starts, Reach-Inv}
use bb_clientd.OutputService.Sessions.{get-success}
use bb_clientd.OutputService.ReadDir.{
  Entry, virtual_read_dir, report_all, from_cookie, virtual_read_dir-eq-report_all,
}

abbrev build : String → BuildState ℕ ℕ
build id = record { id = id; digest_function = 1; scope_walker_factory = 2 }

abbrev nothing_yet : Service ℕ ℕ ℕ
nothing_yet = new_service 0

abbrev one : Service ℕ ℕ ℕ
one = (start_build_locked nothing_yet "home" 7 (build "a")).0

abbrev two : Service ℕ ℕ ℕ
two = (start_build_locked one "work" 8 (build "b")).0

one_reached : Reach nothing_yet one
one_reached = step here (starts "home" 7 (build "a") (unfold new_service in omega arith))

two_reached : Reach nothing_yet two
unfolding new_service start_build_locked register use_output_path create_output_path set_build
    lookup insert
two_reached = step one_reached (starts "work" 8 (build "b") (omega arith))

two_outputs : (virtual_lookup two "home" ≡ some 7) × (virtual_lookup two "work" ≡ some 8)
unfolding new_service start_build_locked register use_output_path create_output_path set_build
    lookup insert virtual_lookup
two_outputs = (refl, refl)

found : get_output_path_and_build_state two "b" ≡ ok (2, some (build "b"))
unfolding new_service start_build_locked register use_output_path create_output_path set_build
    lookup insert get_output_path_and_build_state
found = refl

Reach-Inv_example : (xs : List ℕ) × Inv two xs
Reach-Inv_example = Reach-Inv 0 two two_reached

get-success_example :
    (s : BuildState ℕ ℕ) × (some (build "b") ≡ some s)
    × (s.id ≡ "b")
    × (lookup (two.output_base_id 2) two.output_base_ids ≡ some 2)
get-success_example = get-success 0 two two_reached "b" 2 (some (build "b")) found

room : two.change_id + 1 < 2 ^ 64
unfolding new_service start_build_locked register use_output_path create_output_path set_build
    lookup insert
room = omega arith

ended : Service ℕ ℕ ℕ
ended = forget_build two 1 (some (build "a"))

ends : finalize_build_locked two "a" ≡ some (ended, some (1, build "a"))
unfolding new_service start_build_locked register use_output_path create_output_path set_build
    lookup insert finalize_build_locked ended
ends = refl

-- A reporter that takes everything.
abbrev collect : List (Entry ℕ) → Entry ℕ → List (Entry ℕ) × Bool
collect es e = (es ++ e ∷ [], true)

virtual_read_dir-eq-report_all_example :
    (xs : List ℕ) × Inv two xs
    × (virtual_read_dir collect (two.change_id + 1) two 1 []
        ≡ some (report_all collect two (from_cookie two.cookie 1 xs) []))
virtual_read_dir-eq-report_all_example =
    virtual_read_dir-eq-report_all 0 two two_reached collect 1 []

locked-Agrees_example :
    ((base : String) (new_root : ℕ) (build : BuildState ℕ ℕ)
      → Agrees
          (promise_of (start_build_locked two base new_root build).0)
          (start_promise (promise_of two) base new_root build))
    × ((base : String) (p : ℕ)
        → ((lookup base two.output_base_ids ≡ some p)
            × Agrees (promise_of (detach two base p)) (clean_promise (promise_of two) base))
          ⊎ ((lookup base two.output_base_ids ≢ some p) × (detach two base p ≡ two)))
    × ((build_id : String)
        → (d' : Service ℕ ℕ ℕ) × (ended : Option (ℕ × BuildState ℕ ℕ)) × (finalize_build_locked two
              build_id
            ≡ some (d', ended))
          × Agrees (promise_of d') (finalize_promise (promise_of two) build_id))
locked-Agrees_example = locked-Agrees 0 two two_reached room

-- While the contents of "home" are removed, a build starts in "work".
abbrev three : Service ℕ ℕ ℕ
three = (start_build_locked two "work" 9 (build "c")).0

three_reached : Reach nothing_yet three
three_reached = step two_reached (starts "work" 9 (build "c") room)

three_room : three.change_id + 1 < 2 ^ 64
unfolding new_service start_build_locked register use_output_path create_output_path set_build
    forget_build lookup insert
three_room = omega arith

abbrev busy_calls : CleanCalls ℕ ℕ ℕ ℕ String
busy_calls = record {
  new_component = λ s. some s;
  remove_all_children = λ s k. ((s.0 + 1, three), none);
  notify_removal = λ w s. w + 2;
  factory_clean = λ w s. (w, some "read-only");
}

cleans :
    ((clean busy_calls 0 two "home").1 ≡ none)
    × (lookup "home" (clean busy_calls 0 two "home").0.1.output_base_ids ≡ none)
    × ((clean busy_calls 0 two "other").1 ≡ some (factory_failed "read-only"))
unfolding new_service start_build_locked register use_output_path create_output_path set_build
    forget_build lookup insert delete clean clean_path clean_found clean_unused detach unlink
cleans = (refl, refl, refl)

clean-outcome_example :
    let (s, failed) = clean busy_calls 0 two "home" in
    ((busy_calls.new_component "home" ≡ none) × (failed ≡ some invalid_argument) × (s ≡ (0, two)))
    ⊎ ((base : String) × (busy_calls.new_component "home" ≡ some base)
        × (((lookup base two.output_base_ids ≡ none)
              × (s ≡ (busy_calls.factory_clean (0, two) base).0)
              × (failed ≡ option_map factory_failed (busy_calls.factory_clean (0, two) base).1))
            ⊎ ((p : ℕ) × (lookup base two.output_base_ids ≡ some p)
                × Reach nothing_yet s.1
                × (((e : String) × ((busy_calls.remove_all_children
                          (0, two)
                          (two.root_directory p)).1
                        ≡ some e)
                      × (failed ≡ some (remove_failed e))
                      × (s ≡ (busy_calls.remove_all_children (0, two) (two.root_directory p)).0))
                    ⊎ (((busy_calls.remove_all_children (0, two) (two.root_directory p)).1 ≡ none)
                        × (failed ≡ none)
                        × (lookup base s.1.output_base_ids ≢ some p))))))
clean-outcome_example =
    clean-outcome busy_calls 0 0 two (λ k. three_reached) (λ k. three_room) "home"

-- "c" begins in "work", where "b" ran: the output paths stay.
abbrev for_change_id : Requested
for_change_id = record { change_id = true; link_count = false }

same_change_id :
    (virtual_get_attributes 2 (λ a. a) two for_change_id no_attributes).change_id
    ≡ (virtual_get_attributes 2 (λ a. a) three for_change_id no_attributes).change_id
unfolding new_service start_build_locked register use_output_path create_output_path set_build
    forget_build lookup insert virtual_get_attributes
same_change_id = refl

attributes :
    let a =
      virtual_get_attributes 2
        (λ a. a)
        two
        (record { change_id = false; link_count = true })
        no_attributes in
    (a.change_id ≡ some 2) × (a.link_count ≡ some 4)
unfolding new_service start_build_locked register use_output_path create_output_path set_build
    lookup insert virtual_get_attributes
attributes = (refl, refl)

opens :
    (virtual_open_child (λ o s. s) (λ c. Status.err_no_ent) two "home" true none
      ≡ Status.err_is_dir)
    × (virtual_open_child (λ o s. s) (λ c. Status.err_no_ent) two "other" true none
        ≡ Status.err_no_ent)
unfolding new_service start_build_locked register use_output_path create_output_path set_build
    lookup insert virtual_open_child
opens = (refl, refl)

change_id-virtual_lookup_example : virtual_lookup three "work" ≡ virtual_lookup two "work"
change_id-virtual_lookup_example =
    change_id-virtual_lookup 2 (λ a. a) two three for_change_id no_attributes "work" (λ a. refl)
      (step here (starts "work" 9 (build "c") room)) refl same_change_id
