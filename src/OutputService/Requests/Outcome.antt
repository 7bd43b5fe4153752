-- ===== src/OutputService/Requests/Outcome.antt =====
-- What StartBuild() of pkg/filesystem/virtual/bazel_output_service_directory.go returns, and leaves
-- behind.
use Prim.Native.String.{String}
use bb_clientd.Prelude.{
  ℕ, ◌+◌, ◌<◌, ◌^◌, ◌≡◌, ◌⊎◌, refl, sym, ap, ◌∙◌, inl, inr, Option, none, some, Option-cases,
  some-injective, List, arith,
}
use bb_clientd.Prelude.Maps.{lookup}
use bb_clientd.Prelude.Results.{Result, ok, err, Result-cases}
use bb_clientd.OutputService.State.{
  BuildState, Service, new_service, set_build, use_output_path, register, start_build_locked,
  get_output_path_and_build_state,
}
use bb_clientd.OutputService.Invariant.{Inv}
use bb_clientd.OutputService.Reuse.{use_output_path-Inv}
use bb_clientd.OutputService.Builds.{Reach, Reach-Inv, step, starts}
use bb_clientd.OutputService.Sessions.{get-start_build}
use bb_clientd.OutputService.Filter.{FilterError, filter_missing_children}
use bb_clientd.OutputService.Requests.{
  StartBuildRequest, StartError, filter_failed, StartCalls, Checked, check_request, build_of,
  start_world, start_locked, filter_root, filter_answer, start_checked, start_build,
}

module _ {Root Fn Scope : Type 0} (d : Service Root Fn Scope) where
  found_state :
      (build_id : String) (p : ℕ) (s : Option (BuildState Fn Scope))
      → get_output_path_and_build_state d build_id ≡ ok (p, s)
      → d.build_state p ≡ s
  unfolding get_output_path_and_build_state
  found_state build_id p s e = ground arith

module _ {Root Fn Scope : Type 0} (d : Service Root Fn Scope) (xs : List ℕ) (h : Inv d xs) where
  known_build :
      (base : String) (root : Root) (build : BuildState Fn Scope) (p : ℕ)
      → lookup build.id d.build_ids ≡ some p
      → start_build_locked d base root build ≡ (d, p)
  unfolding start_build_locked register
  known_build base root build p e = rw e refl

  -- A build whose ID is new is put into the object of its output base.
  new_build :
      (base : String) (root : Root) (build : BuildState Fn Scope)
      → lookup build.id d.build_ids ≡ none
      → d.change_id + 1 < 2 ^ 64
      → let (d', p) = start_build_locked d base root build in
        (d'.build_state p ≡ some build) × (lookup base d'.output_base_ids ≡ some p)
  unfolding start_build_locked register set_build
  new_build base root build e room =
      let found = lookup base d.output_base_ids in
      let (ys, h', i, idle, its_object) = use_output_path-Inv d xs h base root found refl room in
      let (d', p) = use_output_path d base root found in rw e (ground arith, its_object)

module _ {Root Fn Scope : Type 0} where
  -- What StartBuild() does about a build ID: the build that runs under it goes on, or a new one
  -- begins in the object of the output base.
  abbrev pub Registers :
      Service Root Fn Scope
      → Service Root Fn Scope
      → String
      → BuildState Fn Scope
      → ℕ
      → BuildState Fn Scope
      → Type 0
  Registers d d' base build p found =
      ((lookup build.id d.build_ids ≡ some p) × (found.id ≡ build.id) × (d' ≡ d))
      ⊎ ((lookup build.id d.build_ids ≡ none)
          × (found ≡ build)
          × (lookup base d'.output_base_ids ≡ some p))

module _ {Root Fn Scope : Type 0} (root0 : Root) (d : Service Root Fn Scope)
    (reached : Reach (new_service root0) d) (room : d.change_id + 1 < 2 ^ 64) where
  locked-Registers :
      (base : String) (root : Root) (build : BuildState Fn Scope)
      → let (d', p) = start_build_locked d base root build in
        (found : BuildState Fn Scope) × (get_output_path_and_build_state d' build.id
          ≡ ok (p, some found))
        × Registers d d' base build p found
  locked-Registers base root build =
      let (xs, h) = Reach-Inv root0 d reached in
      let (d', p) = start_build_locked d base root build in
      let (found, e, same_id) = get-start_build root0 d reached base root build room in
      (
        found,
        e,
        elim (Option-cases (lookup build.id d.build_ids)) [
          | inr (q, known) ↦
              let same : (d', p) ≡ (d, q) = known_build d xs h base root build q known in
              inl (
                known ∙ ap (λ (t : Service Root Fn Scope × ℕ). some t.1) (sym same),
                same_id,
                ap (λ (t : Service Root Fn Scope × ℕ). t.0) same,
              )
          | inl unknown ↦
              let (state, its_object) = new_build d xs h base root build unknown room in
              inr (
                unknown,
                some-injective found build (sym (found_state d' build.id p (some found) e) ∙ state),
                its_object,
              )
        ],
      )

module _ {W PathBuilder Aliases Args Instance Root Fn Scope Digest Remover E : Type 0}
    (calls : StartCalls W PathBuilder Aliases Args Instance Root Fn Scope Digest Remover E) where
  -- The answer after filterMissingChildren() in world `w` left world `v`.
  abbrev pub Answers : Checked Fn Scope → W → Root → W → Result (StartError E) String → Type 0
  Answers c w root v result =
      let (children, failed) = calls.children w root in
      let (e, w1) = filter_missing_children (calls.storage c.digest_function) children failed w in
      (v ≡ w1)
      × (((e ≡ none) × (result ≡ ok c.output_path_suffix))
          ⊎ ((e1 : FilterError E) × (e ≡ some e1) × (result ≡ err (filter_failed e1))))

  answer_cases :
      (c : Checked Fn Scope) (r : Option (FilterError E) × W)
      → ((filter_answer c r).0 ≡ r.1)
        × (((r.0 ≡ none) × ((filter_answer c r).1 ≡ ok c.output_path_suffix))
            ⊎ ((e1 : FilterError E) × (r.0 ≡ some e1)
                × ((filter_answer c r).1 ≡ err (filter_failed e1))))
  unfolding filter_answer
  answer_cases c (none, w) = (refl, inl (refl, refl))
  answer_cases c (some e, w) = (refl, inr (e, refl, refl))

  filter_root-Answers :
      (w : W) (root : Root) (c : Checked Fn Scope)
      → let (v, result) = filter_root calls w root c in Answers c w root v result
  unfolding filter_root
  filter_root-Answers w root c =
      let (children, failed) = calls.children w root in
      answer_cases c (filter_missing_children (calls.storage c.digest_function) children failed w)

  module _ (root0 : Root) (w : W) (d : Service Root Fn Scope)
      (reached : Reach (new_service root0) d) (room : d.change_id + 1 < 2 ^ 64) where
    checked-outcome :
        (build_id : String) (c : Checked Fn Scope)
        → let (s, result) = start_checked calls w d build_id c in
          Reach (new_service root0) s.1
          × ((p : ℕ) × (found : BuildState Fn Scope) × (get_output_path_and_build_state s.1 build_id
                ≡ ok (p, some found))
              × Registers d s.1 c.output_base_id (build_of calls build_id c) p found
              × Answers c (start_world calls w d build_id c) (s.1.root_directory p) s.0 result)
    unfolding start_checked start_locked
    checked-outcome build_id c =
        let new_root = (calls.start_initial_build w c.output_base_id c.digest_function).1 in
        let build = build_of calls build_id c in
        let (d', p) = start_build_locked d c.output_base_id new_root build in
        let (found, e, registers) =
          locked-Registers root0 d reached room c.output_base_id new_root build in
        (
          step reached (starts c.output_base_id new_root build room),
          (
            p,
            found,
            e,
            registers,
            filter_root-Answers (start_world calls w d build_id c) (d'.root_directory p) c,
          ),
        )

    -- In a state that the service can reach, with changeID below 2 ^ 64 - 1, StartBuild() either
    -- fails one of its checks of the request, returns that error and changes nothing. Or the
    -- request passes, and afterwards the service is in a state that it can reach in which the build
    -- ID is found: with the build that ran under it before, the service being as it was, or with a
    -- new build in the output path that the output base of the request now has. Then the contents
    -- of that output path are filtered, and StartBuild() returns the error of the filter, with the
    -- build left registered, or the suffix of the output path.
    pub start_build-outcome :
        (request : StartBuildRequest Aliases Args)
        → let (s, result) = start_build calls w d request in
          ((e : StartError E) × (check_request calls request ≡ err e)
            × (result ≡ err e)
            × (s ≡ (w, d)))
          ⊎ ((c : Checked Fn Scope) × (check_request calls request ≡ ok c)
              × Reach (new_service root0) s.1
              × ((p : ℕ) × (found : BuildState Fn Scope) × (get_output_path_and_build_state s.1
                      request.build_id
                    ≡ ok (p, some found))
                  × Registers d s.1 c.output_base_id (build_of calls request.build_id c) p found
                  × Answers c
                      (start_world calls w d request.build_id c)
                      (s.1.root_directory p)
                      s.0
                      result))
    unfolding start_build
    start_build-outcome request = elim (Result-cases (check_request calls request)) [
      | inr (e, refused) ↦
          inl (e, refused, rw (refused, start_build) refl, rw (refused, start_build) refl)
      | inl (c, passed) ↦
          let (stays, rest) = checked-outcome request.build_id c in
          inr (c, passed, rw (passed, start_build) stays, rw (passed, start_build) rest)
    ]
