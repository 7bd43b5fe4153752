-- ===== src/Persistent/Removal.antt =====
-- Clean() and RemoveAllChildren() of pkg/filesystem/virtual/persistent_output_path_factory.go, and
-- the next StartInitialBuild().
use Prim.Native.String.{String}
use bb_clientd.Prelude.{
  ℕ, ◌≡◌, ◌⊎◌, inl, inr, refl, ap, ◌∙◌, Bool, true, Option, none, some, Option-cases, List, [], ◌∷◌,
}
use bb_clientd.StateFile.Format
use bb_clientd.StateFile.Reader.{FileReader}
use bb_clientd.Store.{DirectoryBackedWriter, StoreError, wrapped, opening_state}
use bb_clientd.Store.Directory.{FileSystem, FsError, IsFileSystem}
use bb_clientd.Store.Cleaning.{clean-gone, read-missing}
use bb_clientd.Persistent.Messages.{Directory}
use bb_clientd.Persistent.Restore.{FileTree}
use bb_clientd.Persistent.Factory
use bb_clientd.Persistent.Factory.{
  RootDirectory, PersistentOutputPath, RemoveError, open_failed, clean_state, clean,
  remove_all_children, start_initial_build, restore_state,
}
use bb_clientd.Persistent.Backed.{backed_store, regroup}

module _ {W V C R SE E Stamp P BE : Type 0} (store : Factory.Store W V C R SE E Stamp P) where
  clean_state-success :
      (w w' : W) (base : String)
      → clean_state store {BE = BE} w base ≡ (w', none)
      → store.clean w base ≡ (w', none)
  unfolding clean_state
  clean_state-success w w' base e =
      let (w1, x) = store.clean w base in
      elim (Option-cases x) [
        | inr (x', bad) ↦ cc (ap (λ t. t.1) (rw (bad, clean_state) at e))
        | inl fine ↦
            ap (λ t. (w1, t)) fine
            ∙ ap (λ v. (v, none)) (ap (λ t. t.0) (rw (fine, clean_state) at e))
      ]

  -- Either of the two calls ends with that of the store.
  clean-success :
      (clean_base : W → String → W × Option BE) (w w' : W) (base : String)
      → clean store clean_base w base ≡ (w', none)
      → (v : W) × (store.clean v base ≡ (w', none))
  unfolding clean
  clean-success clean_base w w' base e =
      let (w1, x) = clean_base w base in
      elim (Option-cases x) [
        | inr (x', bad) ↦ cc (ap (λ t. t.1) (rw (bad, clean) at e))
        | inl fine ↦ (w1, clean_state-success w1 w' base (rw (fine, clean) at e))
      ]

  remove_all_children-success :
      {D : Type 0} (remove_base : W → D → Bool → W × Option BE) (w w' : W)
      (op : PersistentOutputPath D Stamp)
      → remove_all_children store remove_base w op true ≡ (w', none)
      → (v : W) × (store.clean v op.output_base_id ≡ (w', none))
  unfolding remove_all_children
  remove_all_children-success remove_base w w' op e =
      let (w1, x) = remove_base w op.output_path true in
      elim (Option-cases x) [
        | inr (x', bad) ↦ cc (ap (λ t. t.1) (rw (bad, remove_all_children) at e))
        | inl fine ↦
            (w1, clean_state-success w1 w' op.output_base_id (rw (fine, remove_all_children) at e))
      ]

module _ {W H Stamp P : Type 0} (fs : FileSystem W H) (view : W → String → Option (List ℕ))
    (held : W → H → List ℕ) (Opened : W → H → String → Type 0)
    (laws : IsFileSystem fs view held Opened) (marshal : Directory P → Option (List ℕ))
    (unmarshal : List ℕ → Option (Directory P))
    (marshal_root : RootDirectory Stamp P → Option (List ℕ))
    (unmarshal_root : List ℕ → Option (RootDirectory Stamp P)) (is_component : String → Bool)
    (maximum : ℕ) where
  abbrev store :
      Factory.Store W
        (DirectoryBackedWriter W H)
        (FileReader × H)
        FileReader
        StoreError
        Format.Error
        Stamp
        P
  store = backed_store fs marshal unmarshal marshal_root unmarshal_root is_component maximum

  store-gone : (v w : W) (base : String) → store.clean v base ≡ (w, none) → view w base ≡ none
  unfolding backed_store
  store-gone v w base e = clean-gone fs view held Opened laws is_component v w base e

  -- After a Clean() or a RemoveAllChildren(true) that succeeds, over a directory that behaves as
  -- documented, a StartInitialBuild() for the same output base ID that still finds no state file
  -- restores nothing: it returns the new output path as it is, with the current time as its
  -- creation time, and logs that the state file cannot be opened.
  pub removal-forgets :
      {D K Digest X BE : Type 0} (t : FileTree W D K P Digest X) (start_base : W → String → W × D)
      (clock_now : W → Stamp) (clean_base : W → String → W × Option BE)
      (remove_base : W → D → Bool → W × Option BE) (fuel : ℕ) (w w' u0 u : W)
      (op : PersistentOutputPath D Stamp) (d : D)
      → (clean store clean_base w op.output_base_id ≡ (w', none))
        ⊎ (remove_all_children store remove_base w op true ≡ (w', none))
      → start_base u0 op.output_base_id ≡ (u, d)
      → view u op.output_base_id ≡ view w' op.output_base_id
      → (u' : W) × (e : FsError) × (start_initial_build store t start_base clock_now fuel u0
            op.output_base_id
          ≡ some (
            u',
            record {
              output_path = d;
              output_base_id = op.output_base_id;
              initial_creation_time = clock_now u';
            },
            open_failed (wrapped (some e) opening_state) ∷ [],
          ))
  unfolding start_initial_build restore_state backed_store
  removal-forgets t start_base clock_now clean_base remove_base fuel w w' u0 u op d removed started
        same =
      let base = op.output_base_id in
      let gone : view w' base ≡ none = elim removed [
        | inl e ↦
            let (v, cleaned) = clean-success store clean_base w w' base e in
            store-gone v w' base cleaned
        | inr e ↦
            let (v, cleaned) = remove_all_children-success store remove_base w w' op e in
            store-gone v w' base cleaned
      ] in
      let (u', e, found) =
        read-missing fs view held Opened laws unmarshal_root maximum u base (same ∙ gone) in
      let same_u : (start_base u0 base).0 ≡ u = ap (λ t. t.0) started in
      let same_d : (start_base u0 base).1 ≡ d = ap (λ t. t.1) started in
      (u', e, rw (same_u, same_d) (rw (found, regroup) refl))
