-- ===== src/OutputService/Creation.antt =====
-- A new output path keeps the invariant, in
-- pkg/filesystem/virtual/bazel_output_service_directory.go.
use Prim.Native.String.{String}
use text.Mathlib.Text.{◌==◌ as str_eq}
use text.Mathlib.TextEquality.{eq_iff}
use mathlib.Core.Path.{subst}
use bb_clientd.Prelude.{
  ℕ, ◌+◌, ◌<◌, ◌^◌, ◌%◌, ◌≡◌, ◌≢◌, sym, inl, inr, none, some, List, [], ◌∷◌, ◌++◌, arith,
  Bool-cases,
}
use bb_clientd.Prelude.Maps.{lookup, lookup-insert}
use bb_clientd.OutputService.Ring.{
  update, In, NotIn, Chain, insert-Chain, ne_of_notin, previous-In, NotIn-of_append, In-append,
  In-append_left, In-append_right, Distinct-snoc,
}
use bb_clientd.OutputService.State.{Service, create_output_path}
use bb_clientd.OutputService.Order.{Ascends-snoc, Below-NotIn, Below-snoc}
use bb_clientd.OutputService.Invariant.{Inv}

module _ {Root Fn Scope : Type 0} where
  module _ (d : Service Root Fn Scope) (xs : List ℕ) (h : Inv d xs) (base : String)
      (root : Root) where
    fresh-NotIn : NotIn d.fresh xs
    fresh-NotIn = Below-NotIn d.fresh xs h.allocated.1

    ne_fresh : (q : ℕ) → In q xs → d.fresh ≢ q
    ne_fresh q j = ne_of_notin d.fresh q xs fresh-NotIn j

    last_ne : d.fresh ≢ d.previous 0
    last_ne =
        ne_of_notin d.fresh (d.previous 0) (0 ∷ xs) (ground arith, fresh-NotIn)
          (previous-In d.next d.previous 0 xs 0 h.ring)

    create-ring :
        Chain
          (create_output_path d base root).next
          (create_output_path d base root).previous
          0
          (xs ++ d.fresh ∷ [])
          0
    unfolding create_output_path
    create-ring =
        subst
          (λ l.
            Chain (update (update d.next p 0) l p)
              (update (update d.previous p last) (update (update d.next p 0) l p p) p) 0
              (xs ++ p ∷ []) 0)
          (sym last_of)
          (subst
            (λ b.
              Chain (update (update d.next p 0) last p) (update (update d.previous p last) b p) 0
                (xs ++ p ∷ []) 0)
            (sym next_of)
            (insert-Chain d.next d.previous 0 xs 0 p h.ring (ground arith, fresh-NotIn)
              (ground arith) h.distinct h.distinct.0))
      where
        p : ℕ
        p = d.fresh

        last : ℕ
        last = d.previous 0

        last_of : update d.previous p last p ≡ last
        last_of = ground arith

        next_of : update (update d.next p 0) last p p ≡ 0
        next_of = ground (arith, last_ne)

    pub create-Inv :
        lookup base d.output_base_ids ≡ none
        → d.change_id + 1 < 2 ^ 64
        → Inv (create_output_path d base root) (xs ++ d.fresh ∷ [])
    unfolding create_output_path
    create-Inv new room = record {
      ring = create-ring;
      distinct = (
        NotIn-of_append 0 xs (p ∷ []) h.distinct.0 (ground arith),
        Distinct-snoc p xs fresh-NotIn h.distinct.1,
      );
      allocated = (omega arith, Below-snoc p xs h.allocated.1);
      ascends =
          let e : d.change_id + 1 ≡ (d.change_id + 1) % 2 ^ 64 = omega arith in
          rw (← e) (Ascends-snoc d.cookie 0 xs d.change_id p fresh-NotIn h.ascends);
      base_in = λ k q f. elim (Bool-cases (str_eq base k)) [
        | inl same ↦
            let here : p ≡ q = ground (arith, lookup-insert base k p d.output_base_ids) in
            (In-append_right q xs (p ∷ []) (inl (sym here)), ground (arith, eq_iff base k))
        | inr other ↦
            let old : lookup k d.output_base_ids ≡ some q =
              ground (arith, lookup-insert base k p d.output_base_ids) in
            let (j, g) = h.base_in k q old in
            (In-append_left q xs (p ∷ []) j, ground (arith, ne_fresh q j))
      ];
      in_base = λ q j. elim (In-append q xs (p ∷ []) j) [
        | inl old ↦
            let away = ne_fresh q old in
            ground (
              arith,
              away,
              lookup-insert base (d.output_base_id q) p d.output_base_ids,
              eq_iff base (d.output_base_id q),
              h.in_base q old,
            )
        | inr new ↦ ground (arith, lookup-insert base base p d.output_base_ids, eq_iff base base)
      ];
      build_in = λ b q f.
          let (j, x, g, k) = h.build_in b q f in
          (In-append_left q xs (p ∷ []) j, x, ground (arith, ne_fresh q j), k);
      in_build = λ q s j f. elim (In-append q xs (p ∷ []) j) [
        | inl old ↦ h.in_build q s old (ground (arith, ne_fresh q old))
        | inr new ↦ ground arith
      ];
    }
      where
        p : ℕ
        p = d.fresh
