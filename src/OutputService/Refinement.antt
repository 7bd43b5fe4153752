-- ===== src/OutputService/Refinement.antt =====
-- What BazelOutputServiceDirectory of pkg/filesystem/virtual/bazel_output_service_directory.go
-- promises about output paths and builds, without its objects, its list and its cookies.
use Prim.Native.String.{String}
use text.Mathlib.Text.{◌==◌ as str_eq}
use text.Mathlib.TextEquality.{eq_iff}
use text.Mathlib.TextPositions.{eq_refl}
use bb_clientd.Prelude.{
  ℕ, ◌≡◌, ◌≢◌, refl, sym, ap, ◌∙◌, inl, inr, false, Bool-cases, Option, none, some, Option-cases,
  List, arith, if◌then◌else◌, ◌==◌, ==_iff,
}
use bb_clientd.Prelude.Maps.{lookup, delete, lookup-delete}
use bb_clientd.OutputService.State.{BuildState, Service, forget_build, virtual_lookup}
use bb_clientd.OutputService.Ring.{In}
use bb_clientd.OutputService.Invariant.{Inv}

-- The output path of each output base ID, and the output base ID and build of each build ID.
pub record Promise (Root Fn Scope : Type 0) : Type 0 where
  pub outputs : String → Option Root
  pub running : String → Option (String × BuildState Fn Scope)

-- A build that runs in an output base no longer does.
abbrev pub without :
    {Fn Scope : Type 0}
    → String
    → Option (String × BuildState Fn Scope)
    → Option (String × BuildState Fn Scope)
without base none = none
without base (some (b, build)) = if str_eq b base then none else some (b, build)

module _ {Root Fn Scope : Type 0} where
  -- A new build: its output base gets an output path if there is none, and any other build there
  -- ends.
  abbrev pub new_promise :
      Promise Root Fn Scope → String → Root → BuildState Fn Scope → Promise Root Fn Scope
  new_promise a base root build = record {
    outputs = λ k. elim (a.outputs base) [
      | some old ↦ a.outputs k
      | none ↦ if str_eq base k then some root else a.outputs k
    ];
    running = λ id. if str_eq build.id id then some (base, build) else without base (a.running id);
  }

  -- A build ID that is known is left alone.
  abbrev pub start_promise :
      Promise Root Fn Scope → String → Root → BuildState Fn Scope → Promise Root Fn Scope
  start_promise a base root build = elim (a.running build.id) [
    | some known ↦ a
    | none ↦ new_promise a base root build
  ]

  -- An output path that goes takes the build in it along.
  abbrev pub clean_promise : Promise Root Fn Scope → String → Promise Root Fn Scope
  clean_promise a base = record {
    outputs = λ k. if str_eq base k then none else a.outputs k;
    running = λ id. without base (a.running id);
  }

  -- A build ends; an unknown one is ignored.
  abbrev pub finalize_promise : Promise Root Fn Scope → String → Promise Root Fn Scope
  finalize_promise a build_id = record {
    outputs = a.outputs;
    running = λ id. if str_eq build_id id then none else a.running id;
  }

  abbrev pub running_at : Service Root Fn Scope → Option ℕ → Option (String × BuildState Fn Scope)
  running_at d none = none
  running_at d (some p) = elim (d.build_state p) [
    | none ↦ none
    | some build ↦ some (d.output_base_id p, build)
  ]

  -- What a state of the service is taken for.
  abbrev pub promise_of : Service Root Fn Scope → Promise Root Fn Scope
  promise_of d = record {
    outputs = virtual_lookup d;
    running = λ id. running_at d (lookup id d.build_ids);
  }

pub running_at-some :
    {Root Fn Scope : Type 0} (d : Service Root Fn Scope) (q : ℕ) (build : BuildState Fn Scope)
    → d.build_state q ≡ some build
    → running_at d (some q) ≡ some (d.output_base_id q, build)
running_at-some d q build e = rw (e, running_at) refl

module _ {Root Fn Scope : Type 0} (a : Promise Root Fn Scope) (base : String) (root : Root)
    (build : BuildState Fn Scope) where
  pub start_promise-none :
      a.running build.id ≡ none → start_promise a base root build ≡ new_promise a base root build
  start_promise-none e = rw (e, start_promise) refl

  pub start_promise-some :
      (known : String × BuildState Fn Scope)
      → a.running build.id ≡ some known
      → start_promise a base root build ≡ a
  start_promise-some known e = rw (e, start_promise) refl

pub without_same :
    {Fn Scope : Type 0} (base b : String) (build : BuildState Fn Scope)
    → b ≡ base
    → without base (some (b, build)) ≡ none
without_same base b build e = rw (e, eq_refl base) refl

pub without_other :
    {Fn Scope : Type 0} (base b : String) (build : BuildState Fn Scope)
    → str_eq b base ≡ false
    → without base (some (b, build)) ≡ some (b, build)
without_other base b build e = rw e refl

module _ {Root Fn Scope : Type 0} (d : Service Root Fn Scope) (xs : List ℕ) (h : Inv d xs) where
  same_object : (p q : ℕ) → In p xs → In q xs → d.output_base_id p ≡ d.output_base_id q → p ≡ q
  same_object p q i j e = cc (h.in_base p i, h.in_base q j, ap (λ k. lookup k d.output_base_ids) e)

  base_differs :
      (p q : ℕ)
      → In p xs
      → In q xs
      → q ≢ p
      → str_eq (d.output_base_id q) (d.output_base_id p) ≡ false
  base_differs p q i j differ =
      elim (Bool-cases (str_eq (d.output_base_id q) (d.output_base_id p))) [
        | inr other ↦ other
        | inl same ↦ absurd (
            differ
              (same_object q p j i ((eq_iff (d.output_base_id q) (d.output_base_id p)).0 same)))
      ]

  -- A build of another object still runs.
  pub stays :
      (p q : ℕ) (build : BuildState Fn Scope)
      → In p xs
      → In q xs
      → q ≢ p
      → d.build_state q ≡ some build
      → some (d.output_base_id q, build) ≡ without (d.output_base_id p) (running_at d (some q))
  stays p q build i j differ state = sym (
      ap (without (d.output_base_id p)) (running_at-some d q build state)
      ∙ without_other (d.output_base_id p) (d.output_base_id q) build (base_differs p q i j differ))

  -- Forgetting the build of an object ends what runs in its output base.
  pub forget-running :
      (p : ℕ) (s : Option (BuildState Fn Scope)) (id : String)
      → In p xs
      → d.build_state p ≡ s
      → (promise_of (forget_build d p s)).running id
        ≡ without (d.output_base_id p) ((promise_of d).running id)
  unfolding forget_build
  forget-running p none id i idle = elim (Option-cases (lookup id d.build_ids)) [
    | inl unknown ↦ rw unknown refl
    | inr (q, known) ↦
        let (j, build, state, same_id) = h.build_in id q known in
        let differ : q ≢ p = λ e. cc (ap d.build_state e, state, idle) in
        rw known (running_at-some d q build state ∙ stays p q build i j differ state)
  ]
  forget-running p (some old) id i busy =
      let d' : Service Root Fn Scope = forget_build d p (some old) in
      elim (Option-cases (lookup id d.build_ids)) [
        | inl unknown ↦
            let gone : lookup id (delete old.id d.build_ids) ≡ none =
              ground (arith, lookup-delete old.id id d.build_ids, unknown) in
            ap (running_at d') gone
            ∙ sym (ap (λ o. without (d.output_base_id p) (running_at d o)) unknown)
        | inr (q, known) ↦
            let (j, build, state, same_id) = h.build_in id q known in
            elim (Bool-cases (str_eq old.id id)) [
              | inl same ↦
                  let gone : lookup id (delete old.id d.build_ids) ≡ none =
                    ground (arith, lookup-delete old.id id d.build_ids, same) in
                  let here : q ≡ p = cc (
                    h.in_build p old i busy,
                    known,
                    ap (λ k. lookup k d.build_ids) ((eq_iff old.id id).0 same),
                  ) in
                  ap (running_at d') gone
                  ∙ sym (
                      ap (λ o. without (d.output_base_id p) (running_at d o)) known
                      ∙ ap (without (d.output_base_id p)) (running_at-some d q build state)
                      ∙ without_same (d.output_base_id p) (d.output_base_id q) build
                          (ap d.output_base_id here))
              | inr other ↦
                  let kept : lookup id (delete old.id d.build_ids) ≡ some q =
                    ground (arith, lookup-delete old.id id d.build_ids, other, known) in
                  let one : p ≡ q → old.id ≡ id =
                    λ e. cc (ap d.build_state e, state, busy, same_id) in
                  let differ : q ≢ p = λ e. ground (arith, one (sym e), other, eq_iff old.id id) in
                  let apart : (p == q) ≡ false = ground (arith, differ, ==_iff p q) in
                  let state' : d'.build_state q ≡ some build = rw apart state in
                  ap (running_at d') kept
                  ∙ running_at-some d' q build state'
                  ∙ stays p q build i j differ state
                  ∙ sym (ap (λ o. without (d.output_base_id p) (running_at d o)) known)
            ]
      ]
