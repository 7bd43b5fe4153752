-- ===== src/Persistent/Steps.antt =====
-- The steps of a saveOutputPath() of pkg/filesystem/virtual/persistent_output_path_factory.go that
-- succeeds, on any store.
use bb_clientd.Prelude.{◌≡◌, inl, inr, refl, ap, true, Option, none, some, Option-cases}
use bb_clientd.Prelude.Results.{Result-cases, ok, err}
use bb_clientd.Prelude.Calls.{Call}
use bb_clientd.Persistent.Messages.{Directory, Applied}
use bb_clientd.Persistent.Save.{Tree, SaveError, save_directory_recursive}
use bb_clientd.Persistent.Factory
use bb_clientd.Persistent.Factory.{
  RootDirectory, PersistentOutputPath, finish_save, save_output_path,
}

module _ {W V C R SE E Stamp P : Type 0} (store : Factory.Store W V C R SE E Stamp P) where
  finish_save-success :
      (time : Stamp) (c : Call V (SaveError E) (Directory P)) (w : W)
      → finish_save store time c ≡ some (w, none)
      → (v : V) × (m : Directory P) × (c ≡ some (v, ok m))
        × (store.finalize v (record { initial_creation_time = some time; contents = some m })
            ≡ (w, none))
  unfolding finish_save
  finish_save-success time none w e = cc
  finish_save-success time (some (v, err x)) w e = cc
  finish_save-success time (some (v, ok m)) w e =
      let (w1, x) =
        store.finalize v (record { initial_creation_time = some time; contents = some m }) in
      elim (Option-cases x) [
        | inr (x', bad) ↦ cc (rw (bad, finish_save) at e)
        | inl fine ↦ (v, m, refl, cc (fine, rw (fine, finish_save) at e))
      ]

  module _ {D L : Type 0} (apply : L → Option (Applied P)) where
    pub save_output_path-success :
        (w0 w : W) (op : PersistentOutputPath D Stamp) (children : Tree L)
        → save_output_path store apply w0 op children ≡ some (w, none)
        → (w1 : W) × (v v' : V) × (m : Directory P) × (store.write w0 op.output_base_id
            ≡ (w1, ok v))
          × (save_directory_recursive apply store.write_directory v true children ≡ some (v', ok m))
          × (store.finalize v' (record {
            initial_creation_time = some op.initial_creation_time;
            contents = some m;
          })
              ≡ (w, none))
    unfolding save_output_path
    save_output_path-success w0 w op children e =
        let (w1, r) = store.write w0 op.output_base_id in
        elim (Result-cases r) [
          | inr (x, bad) ↦ cc (rw (bad, save_output_path) at e)
          | inl (v, fine) ↦
              let (v', m, saved, finalized) =
                finish_save-success op.initial_creation_time
                  (save_directory_recursive apply store.write_directory v true children) w
                  (rw (fine, save_output_path) at e) in
              (w1, v, v', m, ap (λ x. (w1, x)) fine, saved, finalized)
        ]
