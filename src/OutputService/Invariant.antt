-- ===== src/OutputService/Invariant.antt =====
-- What holds of the state of BazelOutputServiceDirectory in
-- pkg/filesystem/virtual/bazel_output_service_directory.go whenever its lock is free.
use Prim.Native.String.{String}
use text.Mathlib.Text.{◌==◌ as str_eq}
use text.Mathlib.TextEquality.{eq_iff}
use mathlib.Core.Path.{subst}
use bb_clientd.Prelude.{ℕ, ◌<◌, ◌≡◌, refl, inl, inr, none, some, List, [], ◌∷◌, arith, Bool-cases}
use bb_clientd.Prelude.Maps.{lookup, lookup-insert, lookup-delete}
use bb_clientd.OutputService.Ring.{In, IsDistinct, Chain}
use bb_clientd.OutputService.Order.{Ascends, Below}
use bb_clientd.OutputService.State.{BuildState, Service, new_service, forget_build, set_build}

module _ {Root Fn Scope : Type 0} where
  -- `xs` are the objects of the list, in its order.
  pub record Inv (d : Service Root Fn Scope) (xs : List ℕ) : Type 0 where
    pub ring : Chain d.next d.previous 0 xs 0
    pub distinct : IsDistinct (0 ∷ xs)
    pub allocated : (0 < d.fresh) × Below d.fresh xs
    pub ascends : Ascends d.cookie 0 xs d.change_id
    pub base_in :
        (k : String) (p : ℕ)
        → lookup k d.output_base_ids ≡ some p
        → In p xs × (d.output_base_id p ≡ k)
    pub in_base : (p : ℕ) → In p xs → lookup (d.output_base_id p) d.output_base_ids ≡ some p
    pub build_in :
        (b : String) (p : ℕ)
        → lookup b d.build_ids ≡ some p
        → In p xs × (s : BuildState Fn Scope) × (d.build_state p ≡ some s) × (s.id ≡ b)
    pub in_build :
        (p : ℕ) (s : BuildState Fn Scope)
        → In p xs
        → d.build_state p ≡ some s
        → lookup s.id d.build_ids ≡ some p

  pub new_service-Inv : (root : Root) → Inv (new_service root) []
  unfolding new_service lookup
  new_service-Inv root = record {
    ring = (refl, refl);
    distinct = omega arith;
    allocated = omega arith;
    ascends = omega arith;
    base_in = λ k p e. cc;
    in_base = λ p i. elim i [ ];
    build_in = λ b p e. cc;
    in_build = λ p s i e. elim i [ ];
  }

  module _ (d : Service Root Fn Scope) (xs : List ℕ) (h : Inv d xs) (p : ℕ) (i : In p xs) where
    pub forget_some-Inv :
        (s : BuildState Fn Scope) → d.build_state p ≡ some s → Inv (forget_build d p (some s)) xs
    unfolding forget_build
    forget_some-Inv s e = record {
      ring = h.ring;
      distinct = h.distinct;
      allocated = h.allocated;
      ascends = h.ascends;
      base_in = h.base_in;
      in_base = h.in_base;
      build_in = λ b q f.
          let old : lookup b d.build_ids ≡ some q =
            ground (arith, lookup-delete s.id b d.build_ids) in
          let (j, x, g, k) = h.build_in b q old in
          (j, x, ground (arith, lookup-delete s.id b d.build_ids, eq_iff s.id b), k);
      in_build = λ q t j f. ground (
        arith,
        lookup-delete s.id t.id d.build_ids,
        eq_iff s.id t.id,
        h.in_build q t j,
        h.in_build p s i e,
      );
    }

    pub set_build-Inv :
        (s : BuildState Fn Scope)
        → d.build_state p ≡ none
        → lookup s.id d.build_ids ≡ none
        → Inv (set_build d p s) xs
    unfolding set_build
    set_build-Inv s e free = record {
      ring = h.ring;
      distinct = h.distinct;
      allocated = h.allocated;
      ascends = h.ascends;
      base_in = h.base_in;
      in_base = h.in_base;
      build_in = λ b q f. elim (Bool-cases (str_eq s.id b)) [
        | inl same ↦
            let here : p ≡ q = ground (arith, lookup-insert s.id b p d.build_ids) in
            (subst (λ r. In r xs) here i, s, ground arith, (eq_iff s.id b).0 same)
        | inr other ↦
            let old : lookup b d.build_ids ≡ some q =
              ground (arith, lookup-insert s.id b p d.build_ids) in
            let (j, x, g, k) = h.build_in b q old in (j, x, ground arith, k)
      ];
      in_build = λ q t j f.
          ground (arith, lookup-insert s.id t.id p d.build_ids, eq_iff s.id t.id, h.in_build q t j);
    }
