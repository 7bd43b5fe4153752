-- ===== src/OutputService/Builds.antt =====
-- The steps that BazelOutputServiceDirectory of
-- pkg/filesystem/virtual/bazel_output_service_directory.go makes under its lock, in any order:
-- calls of StartBuild(), Clean() and FinalizeBuild() that run at the same time interleave at these
-- steps.
use Prim.Native.String.{String}
use text.Mathlib.TextEquality.{eq_iff}
use mathlib.Core.Path.{subst}
use bb_clientd.Prelude.{
  ℕ, ◌+◌, ◌<◌, ◌^◌, ◌≡◌, refl, sym, ap, ◌∙◌, inl, inr, Option, none, some, List, [], ◌++◌, arith,
  ◌==◌, ==_iff, Bool-cases, Option-cases,
}
use bb_clientd.Prelude.Maps.{lookup, lookup-insert}
use bb_clientd.OutputService.Ring.{In, In-split, removed-NotIn, NotIn, IsDistinct}
use bb_clientd.OutputService.State.{
  BuildState, Service, new_service, forget_build, set_build, use_output_path, register,
  start_build_locked, unlink, detach, finalize_build_locked,
}
use bb_clientd.OutputService.Invariant.{Inv, new_service-Inv, set_build-Inv, forget_some-Inv}
use bb_clientd.OutputService.Unlinking.{unlink-Inv}
use bb_clientd.OutputService.Reuse.{
  forget-Inv, use_output_path-Inv, use_output_path-none, unlink-forget, forget_keeps,
}

module _ {Root Fn Scope : Type 0} where
  module _ (d : Service Root Fn Scope) (xs : List ℕ) (h : Inv d xs) where
    register-Inv :
        (base : String) (root : Root) (build : BuildState Fn Scope) (found : Option ℕ)
        → lookup build.id d.build_ids ≡ found
        → d.change_id + 1 < 2 ^ 64
        → let r = register d base root build found in
          (ys : List ℕ) × Inv r.0 ys × In r.1 ys × (lookup build.id r.0.build_ids ≡ some r.1)
    unfolding register
    register-Inv base root build (some p) e room = (xs, h, (h.build_in build.id p e).0, e)
    register-Inv base root build none e room =
        let (ys, h', i, idle, _) =
          use_output_path-Inv d xs h base root (lookup base d.output_base_ids) refl room in
        let (d', p) = use_output_path d base root (lookup base d.output_base_ids) in
        (
          ys,
          set_build-Inv d' ys h' p i build idle
              (use_output_path-none d base root (lookup base d.output_base_ids) build.id e),
          i,
          (unfold set_build in
              ground
                (arith, lookup-insert build.id build.id p d'.build_ids, eq_iff build.id build.id)),
        )

    pub start_build-Inv :
        (base : String) (root : Root) (build : BuildState Fn Scope)
        → d.change_id + 1 < 2 ^ 64
        → let r = start_build_locked d base root build in
          (ys : List ℕ) × Inv r.0 ys × In r.1 ys × (lookup build.id r.0.build_ids ≡ some r.1)
    unfolding start_build_locked
    start_build-Inv base root build room =
        register-Inv base root build (lookup build.id d.build_ids) refl room

    -- Taking out the object that an output base has.
    pub detach_current :
        (base : String) (p : ℕ)
        → lookup base d.output_base_ids ≡ some p
        → d.change_id + 1 < 2 ^ 64
        → (ys : List ℕ) × Inv (forget_build (unlink d base p) p (d.build_state p)) ys × NotIn p ys
    detach_current base p e room =
        let (i, same) = h.base_in base p e in
        let (ys, zs, split) = In-split p xs i in
        let (h', idle) = forget-Inv d xs h p i in
        let keeps = forget_keeps d p (d.build_state p) in
        let d' : Service Root Fn Scope = forget_build d p (d.build_state p) in
        (
          ys ++ zs,
          rw (unlink-forget d base p (d.build_state p)) (
              subst (λ k. Inv (unlink d' k p) (ys ++ zs)) (ap (λ f. f p) keeps.1 ∙ same)
                (unlink-Inv d' ys zs p (subst (Inv d') split h') idle (omega (arith, keeps.2)))),
          removed-NotIn ys zs p (subst (λ l. IsDistinct l) split h.distinct.1),
        )

    pub detach-Inv :
        (base : String) (p : ℕ)
        → d.change_id + 1 < 2 ^ 64
        → (ys : List ℕ) × Inv (detach d base p) ys
    unfolding detach
    detach-Inv base p room = elim (Option-cases (lookup base d.output_base_ids)) [
      | inl e ↦ rw (e, detach) (xs, h)
      | inr (q, e) ↦ elim (Bool-cases (p == q)) [
        | inl same ↦
            let e' : lookup base d.output_base_ids ≡ some p =
              e ∙ ap some (sym ((==_iff p q).0 same)) in
            let (ys, h', _) = detach_current base p e' room in rw (e, detach) (rw same (ys, h'))
        | inr other ↦ rw (e, detach) (rw other (xs, h))
      ]
    ]

    -- FinalizeBuild() never goes through a nil build state, and keeps the invariant.
    pub finalize_build-Inv :
        (build_id : String)
        → (d' : Service Root Fn Scope) × (ended : Option (ℕ × BuildState Fn Scope))
          × (finalize_build_locked d build_id ≡ some (d', ended))
          × Inv d' xs
    unfolding finalize_build_locked
    finalize_build-Inv build_id = elim (Option-cases (lookup build_id d.build_ids)) [
      | inl e ↦ (d, none, rw (e, finalize_build_locked), h)
      | inr (p, e) ↦
          let (i, s, g, k) = h.build_in build_id p e in
          (
            forget_build d p (some s),
            some (p, s),
            rw (e, finalize_build_locked) (rw g),
            forget_some-Inv d xs h p i s g,
          )
    ]

  -- One step under the lock. `p` of `detaches` is any object that a Clean() may have looked up
  -- earlier. changeID stays below 2 ^ 64.
  pub data Step (d : Service Root Fn Scope) : Service Root Fn Scope → Type 0 where
    starts :
        (base : String) (root : Root) (build : BuildState Fn Scope)
        → d.change_id + 1 < 2 ^ 64
        → Step d (start_build_locked d base root build).0
    detaches : (base : String) (p : ℕ) → d.change_id + 1 < 2 ^ 64 → Step d (detach d base p)
    finalizes :
        (build_id : String) (d' : Service Root Fn Scope) (ended : Option (ℕ × BuildState Fn Scope))
        → finalize_build_locked d build_id ≡ some (d', ended)
        → Step d d'

  pub data Reach (s : Service Root Fn Scope) : Service Root Fn Scope → Type 0 where
    here : Reach s s
    step : {d d' : Service Root Fn Scope} → Reach s d → Step d d' → Reach s d'

  Step-Inv :
      {d d' : Service Root Fn Scope} (xs : List ℕ)
      → Inv d xs
      → Step d d'
      → (ys : List ℕ) × Inv d' ys
  Step-Inv {d} xs h (starts base root build room) =
      let (ys, h', _, _) = start_build-Inv d xs h base root build room in (ys, h')
  Step-Inv {d} xs h (detaches base p room) = detach-Inv d xs h base p room
  Step-Inv {d} xs h (finalizes build_id d' ended e) =
      let (d'', ended', e', h') = finalize_build-Inv d xs h build_id in
      (xs, subst (λ t. Inv t xs) (cc) h')

  -- However the calls interleave, as long as changeID stays below 2 ^ 64, the maps and the list of
  -- the service agree with one another: the pointers form a ring through exactly the objects of
  -- `outputBaseIDs`, with rising cookies, and the entries of `buildIDs` are exactly the builds of
  -- those objects.
  pub Reach-Inv :
      (root : Root) (d : Service Root Fn Scope)
      → Reach (new_service root) d
      → (xs : List ℕ) × Inv d xs
  Reach-Inv root d here = ([], new_service-Inv root)
  Reach-Inv root d (step r s) = let (xs, h) = Reach-Inv root _ r in Step-Inv xs h s
