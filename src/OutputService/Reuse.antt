-- ===== src/OutputService/Reuse.antt =====
-- Forgetting the build of an output path that is used again, in
-- pkg/filesystem/virtual/bazel_output_service_directory.go.
use Prim.Native.String.{String}
use text.Mathlib.TextEquality.{eq_iff}
use bb_clientd.Prelude.{
  ℕ, ◌+◌, ◌<◌, ◌^◌, ◌≡◌, refl, inl, inr, Option, none, some, List, [], ◌∷◌, ◌++◌, arith,
  Option-cases,
}
use bb_clientd.Prelude.Maps.{lookup, lookup-insert, lookup-delete}
use bb_clientd.OutputService.Ring.{In, In-append_right}
use bb_clientd.OutputService.State.{
  BuildState, Service, create_output_path, forget_build, use_output_path, unlink,
}
use bb_clientd.OutputService.Invariant.{Inv, forget_some-Inv}
use bb_clientd.OutputService.Creation.{create-Inv}

module _ {Root Fn Scope : Type 0} where
  -- What forgetting a build leaves alone.
  pub forget_keeps :
      (d : Service Root Fn Scope) (p : ℕ) (s : Option (BuildState Fn Scope))
      → ((forget_build d p s).output_base_ids ≡ d.output_base_ids)
        × ((forget_build d p s).output_base_id ≡ d.output_base_id)
        × ((forget_build d p s).change_id ≡ d.change_id)
  unfolding forget_build
  forget_keeps d p none = (refl, refl, refl)
  forget_keeps d p (some s) = (refl, refl, refl)

  -- No build ID comes in by forgetting one.
  pub forget-none :
      (d : Service Root Fn Scope) (p : ℕ) (s : Option (BuildState Fn Scope)) (b : String)
      → lookup b d.build_ids ≡ none
      → lookup b (forget_build d p s).build_ids ≡ none
  unfolding forget_build
  forget-none d p none b e = e
  forget-none d p (some s) b e = ground (arith, lookup-delete s.id b d.build_ids)

  pub use_output_path-none :
      (d : Service Root Fn Scope) (base : String) (root : Root) (found : Option ℕ) (b : String)
      → lookup b d.build_ids ≡ none
      → lookup b (use_output_path d base root found).0.build_ids ≡ none
  unfolding use_output_path create_output_path
  use_output_path-none d base root none b e = e
  use_output_path-none d base root (some p) b e = forget-none d p (d.build_state p) b e

  -- Taking an object out and forgetting its build can be done in either order.
  pub unlink-forget :
      (d : Service Root Fn Scope) (base : String) (p : ℕ) (s : Option (BuildState Fn Scope))
      → forget_build (unlink d base p) p s ≡ unlink (forget_build d p s) base p
  unfolding forget_build unlink
  unlink-forget d base p none = refl
  unlink-forget d base p (some s) = refl

  module _ (d : Service Root Fn Scope) (xs : List ℕ) (h : Inv d xs) where
    -- An object of the list whose build is forgotten.
    pub forget-Inv :
        (p : ℕ)
        → In p xs
        → Inv (forget_build d p (d.build_state p)) xs
          × ((forget_build d p (d.build_state p)).build_state p ≡ none)
    forget-Inv p i = elim (Option-cases (d.build_state p)) [
      | inl e ↦ rw e (unfold forget_build in (h, e))
      | inr (s, e) ↦ rw e (forget_some-Inv d xs h p i s e, unfold forget_build in ground arith)
    ]

    -- The object of an output base, old or new, has no build and is in the list.
    pub use_output_path-Inv :
        (base : String) (root : Root) (found : Option ℕ)
        → lookup base d.output_base_ids ≡ found
        → d.change_id + 1 < 2 ^ 64
        → let r = use_output_path d base root found in
          (ys : List ℕ) × Inv r.0 ys
          × In r.1 ys
          × (r.0.build_state r.1 ≡ none)
          × (lookup base r.0.output_base_ids ≡ some r.1)
    unfolding use_output_path
    use_output_path-Inv base root (some p) e room =
        let (j, _) = h.base_in base p e in
        let (k, idle) = forget-Inv p j in
        (xs, k, j, idle, rw ((forget_keeps d p (d.build_state p)).0) e)
    use_output_path-Inv base root none e room = (
      xs ++ d.fresh ∷ [],
      create-Inv d xs h base root e room,
      In-append_right d.fresh xs (d.fresh ∷ []) (inl refl),
      (unfold create_output_path in ground arith),
      (unfold create_output_path in
          ground (arith, lookup-insert base base d.fresh d.output_base_ids, eq_iff base base)),
    )
