-- ===== src/OutputService/Starting.antt =====
-- What the parts of StartBuild() of pkg/filesystem/virtual/bazel_output_service_directory.go that
-- run under the lock mean for the output paths and the builds.
use Prim.Native.String.{String}
use text.Mathlib.Text.{◌==◌ as str_eq}
use text.Mathlib.TextEquality.{eq_iff}
use bb_clientd.Prelude.{
  ℕ, ◌<◌, ◌≡◌, ◌≢◌, refl, sym, ap, ◌∙◌, inl, inr, true, false, Bool-cases, Option, none, some,
  Option-cases, List, [], ◌∷◌, arith, if◌then◌else◌, ◌==◌, ==_iff,
}
use bb_clientd.Prelude.Maps.{lookup, insert, lookup-insert}
use bb_clientd.OutputService.State.{
  BuildState, Service, create_output_path, set_build, virtual_lookup,
}
use bb_clientd.OutputService.Ring.{In}
use bb_clientd.OutputService.Order.{Below}
use bb_clientd.OutputService.Invariant.{Inv}
use bb_clientd.OutputService.Refinement.{
  without, running_at, promise_of, running_at-some, without_other,
}

Below-In : (n q : ℕ) (xs : List ℕ) → Below n xs → In q xs → q < n
Below-In n q [] b i = elim i [ ]
Below-In n q (x ∷ xs) b i = elim i [ inl e ↦ ground (arith, e, b) | inr j ↦ Below-In n q xs b.1 j ]

module _ {Root Fn Scope : Type 0} (d : Service Root Fn Scope) (xs : List ℕ) (h : Inv d xs) where
  -- A new build in an object that has none.
  pub set_build-running :
      (p : ℕ) (build : BuildState Fn Scope) (id : String)
      → d.build_state p ≡ none
      → (promise_of (set_build d p build)).running id ≡ (
          if str_eq build.id id
          then some (d.output_base_id p, build)
          else (promise_of d).running id)
  unfolding set_build
  set_build-running p build id idle =
      let d' : Service Root Fn Scope = set_build d p build in
      elim (Bool-cases (str_eq build.id id)) [
        | inl same ↦
            let new : lookup id (insert build.id p d.build_ids) ≡ some p =
              ground (arith, lookup-insert build.id id p d.build_ids, same) in
            let state' : d'.build_state p ≡ some build = ground arith in
            rw same (ap (running_at d') new ∙ running_at-some d' p build state')
        | inr other ↦
            let kept : lookup id (insert build.id p d.build_ids) ≡ lookup id d.build_ids =
              ground (arith, lookup-insert build.id id p d.build_ids, other) in
            rw other (ap (running_at d') kept ∙ elsewhere id (lookup id d.build_ids) refl)
      ]
    where
      elsewhere :
          (id : String) (o : Option ℕ)
          → lookup id d.build_ids ≡ o
          → running_at (set_build d p build) o ≡ running_at d o
      elsewhere id none e = refl
      elsewhere id (some q) e =
          let (j, other, state, its_id) = h.build_in id q e in
          let differ : p ≢ q = λ same. cc (ap d.build_state same, state, idle) in
          let apart : (p == q) ≡ false = ground (arith, differ, ==_iff p q) in
          let state' : (set_build d p build).build_state q ≡ some other = rw apart state in
          running_at-some (set_build d p build) q other state'
          ∙ sym (running_at-some d q other state)

  not_fresh : (q : ℕ) → In q xs → (d.fresh == q) ≡ false
  not_fresh q i = ground (arith, Below-In d.fresh q xs h.allocated.1 i)

  -- A new object has no build, and those of the others are the same.
  pub create-running :
      (base : String) (root : Root) (id : String)
      → lookup base d.output_base_ids ≡ none
      → (promise_of (create_output_path d base root)).running id
        ≡ without base ((promise_of d).running id)
  unfolding create_output_path
  create-running base root id missing = elim (Option-cases (lookup id d.build_ids)) [
    | inl unknown ↦ rw unknown refl
    | inr (q, known) ↦
        let (j, build, state, its_id) = h.build_in id q known in
        let apart : (d.fresh == q) ≡ false = not_fresh q j in
        let d' : Service Root Fn Scope = create_output_path d base root in
        let state' : d'.build_state q ≡ some build = rw apart state in
        let base' : d'.output_base_id q ≡ d.output_base_id q = rw apart refl in
        let other : str_eq (d.output_base_id q) base ≡ false =
          elim (Bool-cases (str_eq (d.output_base_id q) base)) [
            | inr other ↦ other
            | inl same ↦ cc (
              h.in_base q j,
              missing,
              ap (λ b. lookup b d.output_base_ids) ((eq_iff (d.output_base_id q) base).0 same),
            )
          ] in
        rw known (
          running_at-some d' q build state'
          ∙ ap (λ b. some (b, build)) base'
          ∙ sym (
              ap (without base) (running_at-some d q build state)
              ∙ without_other base (d.output_base_id q) build other))
  ]

  pub create-outputs :
      (base : String) (root : Root) (k : String)
      → virtual_lookup (create_output_path d base root) k
        ≡ (if str_eq base k then some root else virtual_lookup d k)
  unfolding create_output_path virtual_lookup
  create-outputs base root k =
      let d' : Service Root Fn Scope = create_output_path d base root in
      elim (Bool-cases (str_eq base k)) [
        | inl same ↦
            let new : lookup k (insert base d.fresh d.output_base_ids) ≡ some d.fresh =
              ground (arith, lookup-insert base k d.fresh d.output_base_ids, same) in
            let at : (d.fresh == d.fresh) ≡ true = ground arith in
            rw (new, same, virtual_lookup, create_output_path) (rw at refl)
        | inr other ↦
            let kept : lookup k (insert base d.fresh d.output_base_ids)
                ≡ lookup k d.output_base_ids =
              ground (arith, lookup-insert base k d.fresh d.output_base_ids, other) in
            elim (Option-cases (lookup k d.output_base_ids)) [
              | inl missing ↦
                  rw (kept ∙ missing, other, missing, virtual_lookup, create_output_path) refl
              | inr (q, found) ↦
                  rw (kept ∙ found, other, found, virtual_lookup, create_output_path)
                    (rw (not_fresh q (h.base_in k q found).0) refl)
            ]
      ]
