-- ===== src/OutputService/Unlinking.antt =====
-- Taking out an output path keeps the invariant, in
-- pkg/filesystem/virtual/bazel_output_service_directory.go.
use text.Mathlib.TextEquality.{eq_iff}
use mathlib.Core.Path.{subst}
use bb_clientd.Prelude.{
  ℕ, ◌+◌, ◌<◌, ◌^◌, ◌%◌, ◌≡◌, refl, sym, ap, inl, none, some, List, ◌∷◌, ◌++◌, arith,
}
use bb_clientd.Prelude.Maps.{lookup, lookup-delete}
use bb_clientd.OutputService.Ring.{
  update, In, Chain, remove-Chain, ne_of_notin, In-append_right, In-remove, In-of_remove,
  Distinct-remove, NotIn-remove, removed-NotIn,
}
use bb_clientd.OutputService.State.{Service, unlink}
use bb_clientd.OutputService.Order.{Ascends-remove, Below-remove}
use bb_clientd.OutputService.Invariant.{Inv}

module _ {Root Fn Scope : Type 0} where
  module _ (d : Service Root Fn Scope) (ys zs : List ℕ) (p : ℕ) (h : Inv d (ys ++ p ∷ zs))
      (idle : d.build_state p ≡ none) where
    unlink-ring :
        Chain
          (unlink d (d.output_base_id p) p).next
          (unlink d (d.output_base_id p) p).previous
          0
          (ys ++ zs)
          0
    unfolding unlink
    unlink-ring =
        subst
          (λ n.
            Chain (update d.next (d.previous p) (d.next p)) (update d.previous n (d.previous p)) 0
              (ys ++ zs) 0)
          (sym next_of) (remove-Chain d.next d.previous 0 ys zs p 0 h.ring h.distinct h.distinct.0)
      where
        next_of : update d.next (d.previous p) (d.next p) p ≡ d.next p
        next_of = ground arith

    pub unlink-Inv : d.change_id + 1 < 2 ^ 64 → Inv (unlink d (d.output_base_id p) p) (ys ++ zs)
    unfolding unlink
    unlink-Inv room = record {
      ring = unlink-ring;
      distinct = (NotIn-remove 0 ys zs p h.distinct.0, Distinct-remove ys zs p h.distinct.1);
      allocated = (h.allocated.0, Below-remove d.fresh ys zs p h.allocated.1);
      ascends =
          let e : d.change_id + 1 ≡ (d.change_id + 1) % 2 ^ 64 = omega arith in
          rw (← e) (Ascends-remove d.cookie 0 ys zs p d.change_id h.ascends);
      base_in = λ k q f.
          let old : lookup k d.output_base_ids ≡ some q =
            ground (arith, lookup-delete (d.output_base_id p) k d.output_base_ids) in
          let (j, g) = h.base_in k q old in
          (
            In-remove q ys zs p j (λ e. ground (
              arith,
              ap d.output_base_id e,
              lookup-delete (d.output_base_id p) k d.output_base_ids,
              eq_iff (d.output_base_id p) k,
            )),
            g,
          );
      in_base = λ q j.
          let was = In-of_remove q ys zs p j in
          ground (
            arith,
            lookup-delete (d.output_base_id p) (d.output_base_id q) d.output_base_ids,
            eq_iff (d.output_base_id p) (d.output_base_id q),
            h.in_base q was,
            h.in_base p here,
            ne_of_notin p q (ys ++ zs) (removed-NotIn ys zs p h.distinct.1) j,
          );
      build_in = λ b q f.
          let (j, x, g, k) = h.build_in b q f in
          (In-remove q ys zs p j (λ e. cc (ap d.build_state e)), x, g, k);
      in_build = λ q s j f. h.in_build q s (In-of_remove q ys zs p j) f;
    }
      where
        here : In p (ys ++ p ∷ zs)
        here = In-append_right p ys (p ∷ zs) (inl refl)
