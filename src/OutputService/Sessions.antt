-- ===== src/OutputService/Sessions.antt =====
-- What the builds of pkg/filesystem/virtual/bazel_output_service_directory.go can rely on, in every
-- state that calls of StartBuild(), Clean() and FinalizeBuild() can reach.
use Prim.Native.String.{String}
use text.Mathlib.Text.{◌==◌ as str_eq}
use text.Mathlib.TextEquality.{eq_iff}
use mathlib.Core.Path.{subst}
use bb_clientd.Prelude.{
  ℕ, ◌+◌, ◌<◌, ◌^◌, ◌≡◌, ◌≢◌, refl, sym, ap, ◌∙◌, ◌⊎◌, inl, inr, Option, none, some, List, arith,
  if◌then◌else◌, ◌==◌, ==_iff, Bool-cases, Option-cases,
}
use bb_clientd.Prelude.Results.{ok, err}
use bb_clientd.Prelude.Maps.{lookup, lookup-delete}
use bb_clientd.OutputService.Ring.{NotIn, ne_of_notin}
use bb_clientd.OutputService.State.{
  BuildState, Service, new_service, forget_build, failed_precondition, start_build_locked, unlink,
  detach, finalize_build_locked, get_output_path_and_build_state,
}
use bb_clientd.OutputService.Invariant.{Inv}
use bb_clientd.OutputService.Reuse.{forget_keeps}
use bb_clientd.OutputService.Builds.{Reach, Reach-Inv, start_build-Inv, detach_current}

first_of_some {ℓ κ} :
    {A : Type ℓ} {B : Type κ} {a c : A} {b e : B}
    → ◌≡◌ {A = Option (A × B)} (some (a, b)) (some (c, e))
    → a ≡ c
first_of_some h = cc

none_ne_some {ℓ} : {A : Type ℓ} {a : A} → none ≡ some a → ⊥
none_ne_some h = cc

module _ {Root Fn Scope : Type 0} (d : Service Root Fn Scope) where
  -- A call of FinalizeBuild() has nothing to do, or forgets the build that it found.
  pub finalize_build_cases :
      (build_id : String) (d' : Service Root Fn Scope) (ended : Option (ℕ × BuildState Fn Scope))
      → finalize_build_locked d build_id ≡ some (d', ended)
      → ((lookup build_id d.build_ids ≡ none) × (d' ≡ d))
        ⊎ ((p : ℕ) × (s : BuildState Fn Scope) × (lookup build_id d.build_ids ≡ some p)
            × (d.build_state p ≡ some s)
            × (d' ≡ forget_build d p (some s)))
  unfolding finalize_build_locked
  finalize_build_cases build_id d' ended e = elim (Option-cases (lookup build_id d.build_ids)) [
    | inl f ↦ inl (f, sym (first_of_some (rw (f, finalize_build_locked) at e)))
    | inr (p, f) ↦ elim (Option-cases (d.build_state p)) [
      | inl g ↦ absurd (none_ne_some (rw (g) at (rw (f, finalize_build_locked) at e)))
      | inr (s, g) ↦
          inr (p, s, f, g, sym (first_of_some (rw (g) at (rw (f, finalize_build_locked) at e))))
    ]
  ]

-- No build ID leads to the object.
abbrev pub Gone : {Root Fn Scope : Type 0} → ℕ → Service Root Fn Scope → Type 0
Gone {Root} {Fn} {Scope} p e =
    (build_id : String) (s : Option (BuildState Fn Scope))
    → get_output_path_and_build_state e build_id ≢ ok (p, s)

module _ {Root Fn Scope : Type 0} (root : Root) (d : Service Root Fn Scope)
    (r : Reach (new_service root) d) where
  -- In a state that the service can reach, a build ID that is found comes with the state of that
  -- very build, never with nil, and its output path is the one that its output base has.
  pub get-success :
      (build_id : String) (p : ℕ) (s : Option (BuildState Fn Scope))
      → get_output_path_and_build_state d build_id ≡ ok (p, s)
      → (build : BuildState Fn Scope) × (s ≡ some build)
        × (build.id ≡ build_id)
        × (lookup (d.output_base_id p) d.output_base_ids ≡ some p)
  unfolding get_output_path_and_build_state
  get-success build_id p s e =
      let (xs, h) = Reach-Inv root d r in
      let (found, state) = split in
      let (i, build, g, k) = h.build_in build_id p found in (build, state ∙ g, k, h.in_base p i)
    where
      split : (lookup build_id d.build_ids ≡ some p) × (s ≡ d.build_state p)
      split = ground arith

  -- In a state that the service can reach, two build IDs that are found with the same output path
  -- are the same: an output path has at most one running build.
  pub get-exclusive :
      (a b : String) (p : ℕ) (s t : Option (BuildState Fn Scope))
      → get_output_path_and_build_state d a ≡ ok (p, s)
      → get_output_path_and_build_state d b ≡ ok (p, t)
      → a ≡ b
  unfolding get_output_path_and_build_state
  get-exclusive a b p s t e f =
      let (x, sx, ix, _) = get-success a p s e in
      let (y, ty, iy, _) = get-success b p t f in
      let same : s ≡ t = ground arith in
      let one : x ≡ y = cc in sym ix ∙ ap (λ (z : BuildState Fn Scope). z.id) one ∙ iy

  -- In a state that the service can reach, with changeID below its maximum: after StartBuild() has
  -- released the lock, its build ID is found, with a build of that ID and the output path that
  -- StartBuild() goes on with.
  pub get-start_build :
      (base : String) (new_root : Root) (build : BuildState Fn Scope)
      → d.change_id + 1 < 2 ^ 64
      → let (d', p) = start_build_locked d base new_root build in
        (found : BuildState Fn Scope) × (get_output_path_and_build_state d' build.id
          ≡ ok (p, some found))
        × (found.id ≡ build.id)
  unfolding get_output_path_and_build_state
  get-start_build base new_root build room =
      let (xs, h) = Reach-Inv root d r in
      let (ys, h', i, e) = start_build-Inv d xs h base new_root build room in
      let (d', p) = start_build_locked d base new_root build in
      let (_, found, g, k) = h'.build_in build.id p e in
      (found, rw (e, get_output_path_and_build_state) (rw g), k)

  -- In a state that the service can reach: once FinalizeBuild() returns, its build ID is not
  -- found, and every other one is found or not as before.
  pub get-finalize_build :
      (build_id other : String) (d' : Service Root Fn Scope)
      (ended : Option (ℕ × BuildState Fn Scope))
      → finalize_build_locked d build_id ≡ some (d', ended)
      → get_output_path_and_build_state d' other ≡ (
          if str_eq build_id other
          then err failed_precondition
          else get_output_path_and_build_state d other)
  unfolding get_output_path_and_build_state finalize_build_locked forget_build
  get-finalize_build build_id other d' ended e =
      let (xs, h) = Reach-Inv root d r in
      elim (finalize_build_cases d build_id d' ended e) [
        | inl (none_here, same) ↦ rw same (ground (arith, none_here, eq_iff build_id other))
        | inr (p, s, found, g, same) ↦ elim (Option-cases (lookup other d.build_ids)) [
          | inl missing ↦ rw same (
              ground (
                arith,
                lookup-delete s.id other d.build_ids,
                eq_iff build_id other,
                (h.build_in build_id p found).2,
                (h.build_in build_id p found).3,
                missing,
              ))
          | inr (q, there) ↦
              let (_, x, gx, kx) = h.build_in other q there in
              rw same (
                ground (
                  arith,
                  lookup-delete s.id other d.build_ids,
                  eq_iff build_id other,
                  eq_iff s.id other,
                  there,
                  found,
                  gx,
                  kx,
                  (h.build_in build_id p found).2,
                  (h.build_in build_id p found).3,
                  h.in_build p s (h.build_in build_id p found).0 g,
                ))
        ]
      ]

  gone :
      (base : String) (p : ℕ)
      → lookup base (forget_build (unlink d base p) p (d.build_state p)).output_base_ids ≡ none
  unfolding unlink
  gone base p =
      rw ((forget_keeps (unlink d base p) p (d.build_state p)).0)
        (ground (arith, lookup-delete base base d.output_base_ids, eq_iff base base))

  -- An object outside the list is not reached through a build ID.
  unreachable :
      (e : Service Root Fn Scope) (ys : List ℕ) (p : ℕ)
      → Inv e ys
      → NotIn p ys
      → (build_id : String) (s : Option (BuildState Fn Scope))
      → get_output_path_and_build_state e build_id ≢ ok (p, s)
  unfolding get_output_path_and_build_state
  unreachable e ys p h n build_id s f =
      let found : lookup build_id e.build_ids ≡ some p = ground arith in
      ne_of_notin p p ys n (h.build_in build_id p found).0 refl

  -- In a state that the service can reach, with changeID below its maximum: after Clean() with the
  -- object that the output base has, the output base is unknown, and no build ID leads to the
  -- object. With any other object, as when the output path was cleaned and recreated by others in
  -- the meantime, nothing happens.
  pub detach_cases :
      (base : String) (p : ℕ)
      → d.change_id + 1 < 2 ^ 64
      → ((lookup base d.output_base_ids ≡ some p)
          × (lookup base (detach d base p).output_base_ids ≡ none)
          × Gone p (detach d base p))
        ⊎ ((lookup base d.output_base_ids ≢ some p) × (detach d base p ≡ d))
  unfolding detach
  detach_cases base p room = elim (Option-cases (lookup base d.output_base_ids)) [
    | inl e ↦ inr (λ f. none_ne_some (sym e ∙ f), rw (e, detach))
    | inr (q, e) ↦ elim (Bool-cases (p == q)) [
      | inl same ↦
          let e' : lookup base d.output_base_ids ≡ some p =
            e ∙ ap some (sym ((==_iff p q).0 same)) in
          let now : detach d base p ≡ forget_build (unlink d base p) p (d.build_state p) =
            rw (e, detach) (rw same) in
          let (xs, h) = Reach-Inv root d r in
          let (ys, h', n) = detach_current d xs h base p e' room in
          inl (e', rw now (gone base p), subst (Gone p) (sym now) (unreachable _ ys p h' n))
      | inr other ↦ inr (λ f. ground (arith, e), rw (e, detach) (rw other))
    ]
  ]
