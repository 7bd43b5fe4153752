-- ===== src/OutputService/Refines.antt =====
-- StartBuild(), Clean() and FinalizeBuild() of
-- pkg/filesystem/virtual/bazel_output_service_directory.go do under the lock what the service
-- promises.
use Prim.Native.String.{String}
use text.Mathlib.Text.{◌==◌ as str_eq}
use text.Mathlib.TextEquality.{eq_iff}
use bb_clientd.Prelude.{
  ℕ, ◌≡◌, ◌≢◌, ◌⊎◌, refl, sym, ap, ◌∙◌, inl, inr, Bool-cases, Option, none, some, Option-cases,
  List, arith, some-injective, if◌then◌else◌, ◌==◌, ==_iff,
}
use bb_clientd.Prelude.Maps.{lookup, delete, lookup-delete}
use bb_clientd.OutputService.State.{
  BuildState, Service, forget_build, unlink, detach, finalize_build_locked, virtual_lookup,
}
use bb_clientd.OutputService.Ring.{In}
use bb_clientd.OutputService.Invariant.{Inv}
use bb_clientd.OutputService.Reuse.{unlink-forget}
use bb_clientd.OutputService.Sessions.{finalize_build_cases}
use bb_clientd.OutputService.Refinement.{
  Promise, without, clean_promise, finalize_promise, running_at, promise_of, running_at-some,
  without_same, stays, forget-running,
}

-- The same output paths and the same builds.
abbrev pub Agrees :
    {Root Fn Scope : Type 0} → Promise Root Fn Scope → Promise Root Fn Scope → Type 0
Agrees a b =
    ((k : String) → a.outputs k ≡ b.outputs k) × ((id : String) → a.running id ≡ b.running id)

module _ {Root Fn Scope : Type 0} (d : Service Root Fn Scope) where
  pub forget-outputs :
      (p : ℕ) (s : Option (BuildState Fn Scope)) (k : String)
      → virtual_lookup (forget_build d p s) k ≡ virtual_lookup d k
  unfolding forget_build virtual_lookup
  forget-outputs p none k = refl
  forget-outputs p (some s) k = refl

  unlink-outputs :
      (base : String) (p : ℕ) (k : String)
      → virtual_lookup (unlink d base p) k ≡ (if str_eq base k then none else virtual_lookup d k)
  unfolding unlink virtual_lookup
  unlink-outputs base p k = elim (Bool-cases (str_eq base k)) [
    | inl same ↦
        let gone : lookup k (delete base d.output_base_ids) ≡ none =
          ground (arith, lookup-delete base k d.output_base_ids, same) in
        rw (gone, same, virtual_lookup, unlink) refl
    | inr other ↦
        let kept : lookup k (delete base d.output_base_ids) ≡ lookup k d.output_base_ids =
          ground (arith, lookup-delete base k d.output_base_ids, other) in
        rw (kept, other, virtual_lookup, unlink) refl
  ]

module _ {Root Fn Scope : Type 0} (d : Service Root Fn Scope) (xs : List ℕ) (h : Inv d xs) where
  -- What the end of the build of an object means for its ID.
  finalize-running :
      (build_id id : String) (p : ℕ) (s : BuildState Fn Scope)
      → lookup build_id d.build_ids ≡ some p
      → d.build_state p ≡ some s
      → without (d.output_base_id p) (running_at d (lookup id d.build_ids))
        ≡ (if str_eq build_id id then none else running_at d (lookup id d.build_ids))
  finalize-running build_id id p s known busy =
      let (i, t, busy', same_id) = h.build_in build_id p known in
      elim (Bool-cases (str_eq build_id id)) [
        | inl same ↦
            let known' : lookup id d.build_ids ≡ some p =
              ap (λ k. lookup k d.build_ids) (sym ((eq_iff build_id id).0 same)) ∙ known in
            rw (same, known')
              (ap (without (d.output_base_id p)) (running_at-some d p s busy)
                ∙ without_same (d.output_base_id p) (d.output_base_id p) s refl)
        | inr other ↦ elim (Option-cases (lookup id d.build_ids)) [
          | inl unknown ↦ rw (unknown, other) refl
          | inr (q, found) ↦
              let (j, build, state, its_id) = h.build_in id q found in
              let one : q ≡ p → build_id ≡ id =
                λ e. cc (ap d.build_state e, state, busy', same_id, its_id) in
              let differ : q ≢ p = λ e. ground (arith, one e, other, eq_iff build_id id) in
              rw (other, found)
                (sym (stays d xs h p q build i j differ state)
                  ∙ sym (running_at-some d q build state))
        ]
      ]

  unlink-running :
      (base : String) (p : ℕ) (s : Option (BuildState Fn Scope)) (id : String)
      → In p xs
      → d.build_state p ≡ s
      → (promise_of (forget_build (unlink d base p) p s)).running id
        ≡ without (d.output_base_id p) ((promise_of d).running id)
  unfolding unlink
  unlink-running base p s id i state =
      ap (λ (e : Service Root Fn Scope). (promise_of e).running id) (unlink-forget d base p s)
      ∙ forget-running d xs h p s id i state

  unknown-running :
      (build_id id : String)
      → lookup build_id d.build_ids ≡ none
      → running_at d (lookup id d.build_ids)
        ≡ (if str_eq build_id id then none else running_at d (lookup id d.build_ids))
  unknown-running build_id id unknown = elim (Bool-cases (str_eq build_id id)) [
    | inr other ↦ rw other refl
    | inl same ↦
        let unknown' : lookup id d.build_ids ≡ none =
          ap (λ k. lookup k d.build_ids) (sym ((eq_iff build_id id).0 same)) ∙ unknown in
        rw (same, unknown') refl
  ]

  pub finalize-Agrees :
      (build_id : String) (d' : Service Root Fn Scope) (ended : Option (ℕ × BuildState Fn Scope))
      → finalize_build_locked d build_id ≡ some (d', ended)
      → Agrees (promise_of d') (finalize_promise (promise_of d) build_id)
  finalize-Agrees build_id d' ended e = elim (finalize_build_cases d build_id d' ended e) [
    | inl (unknown, same) ↦ rw same (λ k. refl, λ id. unknown-running build_id id unknown)
    | inr (p, s, known, busy, same) ↦
        let (i, t, busy', same_id) = h.build_in build_id p known in
        rw same (
          λ k. forget-outputs d p (some s) k,
          λ id.
              forget-running d xs h p (some s) id i busy
              ∙ finalize-running build_id id p s known busy,
        )
  ]

  detach_current-Agrees :
      (base : String) (p : ℕ)
      → lookup base d.output_base_ids ≡ some p
      → Agrees
          (promise_of (forget_build (unlink d base p) p (d.build_state p)))
          (clean_promise (promise_of d) base)
  detach_current-Agrees base p e =
      let (i, same_base) = h.base_in base p e in
      (
        (λ k. forget-outputs (unlink d base p) p (d.build_state p) k ∙ unlink-outputs d base p k),
        (λ id.
            unlink-running base p (d.build_state p) id i refl
            ∙ ap (λ b. without b ((promise_of d).running id)) same_base),
      )

  -- A Clean() whose object is no longer the one of the output base comes too late.
  pub detach-Agrees :
      (base : String) (p : ℕ)
      → ((lookup base d.output_base_ids ≡ some p)
          × Agrees (promise_of (detach d base p)) (clean_promise (promise_of d) base))
        ⊎ ((lookup base d.output_base_ids ≢ some p) × (detach d base p ≡ d))
  unfolding detach
  detach-Agrees base p = elim (Option-cases (lookup base d.output_base_ids)) [
    | inl missing ↦ inr ((λ e. cc (e, missing)), rw (missing, detach) refl)
    | inr (q, found) ↦ elim (Bool-cases (p == q)) [
      | inr stale ↦ inr (
        (λ e. ground (arith, ==_iff p q, stale, some-injective (sym e ∙ found))),
        rw (found, detach) (rw stale refl),
      )
      | inl current ↦
          let here : lookup base d.output_base_ids ≡ some p =
            found ∙ ap some (sym ((==_iff p q).0 current)) in
          inl (here, rw (found, detach) (rw current (detach_current-Agrees base p here)))
    ]
  ]
