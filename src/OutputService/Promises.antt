-- ===== src/OutputService/Promises.antt =====
-- The locked steps of pkg/filesystem/virtual/bazel_output_service_directory.go are those of what
-- the service promises.
use Prim.Native.String.{String}
use text.Mathlib.Text.{◌==◌ as str_eq}
use bb_clientd.Prelude.{
  ℕ, ◌+◌, ◌<◌, ◌^◌, ◌≡◌, ◌≢◌, ◌⊎◌, refl, ap, ◌∙◌, inl, inr, Option, none, some, Option-cases, List,
  if◌then◌else◌,
}
use bb_clientd.Prelude.Maps.{lookup}
use bb_clientd.OutputService.State.{
  BuildState, Service, new_service, set_build, use_output_path, register, start_build_locked,
  detach, finalize_build_locked, virtual_lookup,
}
use bb_clientd.OutputService.Invariant.{Inv}
use bb_clientd.OutputService.Reuse.{use_output_path-Inv}
use bb_clientd.OutputService.Builds.{Reach, Reach-Inv, finalize_build-Inv}
use bb_clientd.OutputService.Refinement.{
  without, start_promise, start_promise-none, start_promise-some, new_promise, clean_promise,
  finalize_promise, running_at, promise_of, running_at-some, forget-running,
}
use bb_clientd.OutputService.Refines.{Agrees, forget-outputs, finalize-Agrees, detach-Agrees}
use bb_clientd.OutputService.Starting.{set_build-running, create-running, create-outputs}

outputs-set_build :
    {Root Fn Scope : Type 0} (d : Service Root Fn Scope) (p : ℕ) (build : BuildState Fn Scope)
    (k : String)
    → virtual_lookup (set_build d p build) k ≡ virtual_lookup d k
unfolding virtual_lookup set_build
outputs-set_build d p build k = refl

placed :
    {Fn Scope : Type 0} {a b : String} (new id : String) (build : BuildState Fn Scope)
    {x y : Option (String × BuildState Fn Scope)}
    → a ≡ b
    → x ≡ y
    → (if str_eq new id then some (a, build) else x)
      ≡ (if str_eq new id then some (b, build) else y)
placed new id build e f = rw (e, f) refl

module _ {Root Fn Scope : Type 0} (d : Service Root Fn Scope) (xs : List ℕ) (h : Inv d xs) where
  -- The object that StartBuild() uses for an output base, before the build is put into it.
  use-running :
      (base : String) (root : Root) (found : Option ℕ) (id : String)
      → lookup base d.output_base_ids ≡ found
      → (promise_of (use_output_path d base root found).0).running id
        ≡ without base ((promise_of d).running id)
  unfolding use_output_path
  use-running base root none id e = create-running d xs h base root id e
  use-running base root (some p) id e =
      let (i, same_base) = h.base_in base p e in
      forget-running d xs h p (d.build_state p) id i refl
      ∙ ap (λ b. without b ((promise_of d).running id)) same_base

  use-outputs :
      (base : String) (root : Root) (found : Option ℕ) (k : String)
      → lookup base d.output_base_ids ≡ found
      → virtual_lookup (use_output_path d base root found).0 k ≡ (elim (virtual_lookup d base) [
        | some old ↦ virtual_lookup d k
        | none ↦ if str_eq base k then some root else virtual_lookup d k
      ])
  unfolding use_output_path virtual_lookup
  use-outputs base root none k e = rw (e, virtual_lookup) (create-outputs d xs h base root k)
  use-outputs base root (some p) k e =
      rw (e, virtual_lookup) (forget-outputs d p (d.build_state p) k)

  -- A build whose ID is new.
  new-Agrees :
      (base : String) (root : Root) (build : BuildState Fn Scope)
      → lookup build.id d.build_ids ≡ none
      → d.change_id + 1 < 2 ^ 64
      → Agrees
          (promise_of (register d base root build none).0)
          (new_promise (promise_of d) base root build)
  unfolding register
  new-Agrees base root build e room =
      let found = lookup base d.output_base_ids in
      let (ys, h', i, idle, its_object) = use_output_path-Inv d xs h base root found refl room in
      let (d', p) = use_output_path d base root found in
      (
        (λ k. outputs-set_build d' p build k ∙ use-outputs base root found k refl),
        (λ id.
            set_build-running d' ys h' p build id idle
            ∙ placed build.id id build (h'.base_in base p its_object).1
                (use-running base root found id refl)),
      )

  pub start-Agrees :
      (base : String) (root : Root) (build : BuildState Fn Scope)
      → d.change_id + 1 < 2 ^ 64
      → Agrees
          (promise_of (start_build_locked d base root build).0)
          (start_promise (promise_of d) base root build)
  unfolding start_build_locked register
  start-Agrees base root build room = elim (Option-cases (lookup build.id d.build_ids)) [
    | inl unknown ↦
        rw (start_promise-none (promise_of d) base root build (ap (running_at d) unknown))
          (rw unknown (new-Agrees base root build unknown room))
    | inr (p, known) ↦
        let (i, s, state, same_id) = h.build_in build.id p known in
        rw
          (start_promise-some (promise_of d) base root build (d.output_base_id p, s)
            (ap (running_at d) known ∙ running_at-some d p s state))
          (rw known (λ k. refl, λ id. refl))
  ]

module _ {Root Fn Scope : Type 0} where
  -- The locked part of each call is a step of what the service promises, in every state that
  -- calls reach from the first one while changeID stays below 2 ^ 64: StartBuild() gives the
  -- output base its output path and its only build, and leaves a known build ID alone; Clean()
  -- takes out the output path and its build, or changes nothing where the object is no longer
  -- the one of the output base; FinalizeBuild() ends just the build of that ID.
  pub locked-Agrees :
      (root : Root) (d : Service Root Fn Scope)
      → Reach (new_service root) d
      → d.change_id + 1 < 2 ^ 64
      → ((base : String) (new_root : Root) (build : BuildState Fn Scope)
          → Agrees
              (promise_of (start_build_locked d base new_root build).0)
              (start_promise (promise_of d) base new_root build))
        × ((base : String) (p : ℕ)
            → ((lookup base d.output_base_ids ≡ some p)
                × Agrees (promise_of (detach d base p)) (clean_promise (promise_of d) base))
              ⊎ ((lookup base d.output_base_ids ≢ some p) × (detach d base p ≡ d)))
        × ((build_id : String)
            → (d' : Service Root Fn Scope) × (ended : Option (ℕ × BuildState Fn Scope))
              × (finalize_build_locked d build_id ≡ some (d', ended))
              × Agrees (promise_of d') (finalize_promise (promise_of d) build_id))
  locked-Agrees root d r room =
      let (xs, h) = Reach-Inv root d r in
      (
        (λ base new_root build. start-Agrees d xs h base new_root build room),
        detach-Agrees d xs h,
        (λ build_id.
            let (d', ended, e, _) = finalize_build-Inv d xs h build_id in
            (d', ended, e, finalize-Agrees d xs h build_id d' ended e)),
      )
