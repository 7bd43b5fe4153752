-- ===== src/Persistent/Factory.antt =====
-- persistentOutputPathFactory and persistentOutputPath of
-- pkg/filesystem/virtual/persistent_output_path_factory.go.
--
-- The output paths under them and the clock are arguments, on one world `W`. The directory that
-- is saved is what LookupAllChildren() returns during the call. A call that panics is `none`.
use Prim.Native.String.{String}
use bb_clientd.Prelude.{ℕ, Bool, true, Option, none, some, List, [], ◌∷◌, if◌then◌else◌}
use bb_clientd.Prelude.Results.{Result, ok, err}
use bb_clientd.Prelude.Calls.{Call}
use bb_clientd.StateFile.Format.{FileRegion}
use bb_clientd.Persistent.Messages.{Directory, Applied}
use bb_clientd.Persistent.Save.{Tree, SaveError, save_directory_recursive}
use bb_clientd.Persistent.Restore.{FileTree, RestoreError, restore_directory_recursive}

-- outputpathpersistency.RootDirectory
pub record RootDirectory (Stamp P : Type 0) : Type 0 where
  pub initial_creation_time : Option Stamp
  pub contents : Option (Directory P)

-- outputpathpersistency.Store, with its readers and writers. A reader that Read() returns is
-- also a closer. An open writer holds the world.
pub record Store (W V C R SE E Stamp P : Type 0) : Type 0 where
  pub read : W → String → Option (W × Result SE (C × RootDirectory Stamp P))
  pub reader_of : C → R
  pub read_directory : R → Option FileRegion → Option (Result E (R × Directory P))
  pub close_reader : W → C → W
  pub write : W → String → W × Result SE V
  pub write_directory : V → Directory P → V × Result E (Option FileRegion)
  pub finalize : V → RootDirectory Stamp P → W × Option SE
  pub close_writer : V → W
  pub clean : W → String → W × Option SE

-- persistentOutputPath
pub record PersistentOutputPath (D Stamp : Type 0) : Type 0 where
  pub output_path : D
  pub output_base_id : String
  pub initial_creation_time : Stamp

pub data SaveFailure (SE E : Type 0) : Type 0 where
  store_failed : SE → SaveFailure SE E
  contents_failed : SaveError E → SaveFailure SE E

-- A message to the error logger.
pub data Logged (SE E X : Type 0) : Type 0 where
  open_failed : SE → Logged SE E X
  no_root_directory : Logged SE E X
  restore_failed : RestoreError E X → Logged SE E X
  save_failed : SaveFailure SE E → Logged SE E X

-- The error of Clean() and RemoveAllChildren().
pub data RemoveError (BE SE : Type 0) : Type 0 where
  base_failed : BE → RemoveError BE SE
  state_failed : SE → RemoveError BE SE

-- if initialCreationTime == nil
abbrev pub time_or : {Stamp : Type 0} → Option Stamp → Stamp → Stamp
time_or none now = now
time_or (some time) now = time

module _ {W V C R SE E Stamp P : Type 0} (store : Store W V C R SE E Stamp P) where
  module _ {D K Digest X : Type 0} (t : FileTree W D K P Digest X) (start_base : W → String → W × D)
      (clock_now : W → Stamp) where
    abbrev pub Started : Type 0
    Started = Option (W × PersistentOutputPath D Stamp × List (Logged SE E X))

    -- The end of StartInitialBuild(): the creation time, and the output path.
    abbrev pub started : String → D → Option Stamp → List (Logged SE E X) → W → Started
    started output_base_id d time log w = some (
      w,
      record {
        output_path = d;
        output_base_id = output_base_id;
        initial_creation_time = time_or time (clock_now w);
      },
      log,
    )

    -- StartInitialBuild() from the end of the restoration on.
    unfoldable pub after_restore :
        String → D → C → Option Stamp → Call W (RestoreError E X) (Unit {0}) → Started
    after_restore output_base_id d reader time none = none
    after_restore output_base_id d reader time (some (w, ok u)) =
        started output_base_id d time [] (store.close_reader w reader)
    after_restore output_base_id d reader time (some (w, err e)) =
        started output_base_id d time (restore_failed e ∷ []) (store.close_reader w reader)

    -- StartInitialBuild() with what the store has returned.
    unfoldable pub restore_state :
        ℕ → String → D → Option (W × Result SE (C × RootDirectory Stamp P)) → Started
    restore_state fuel output_base_id d none = none
    restore_state fuel output_base_id d (some (w, err e)) =
        started output_base_id d none (open_failed e ∷ []) w
    restore_state fuel output_base_id d (some (w, ok (reader, root))) = elim root.contents [
      | none ↦ started output_base_id d none (no_root_directory ∷ []) (store.close_reader w reader)
      | some contents ↦ after_restore output_base_id d reader root.initial_creation_time (
          restore_directory_recursive t store.read_directory fuel w (store.reader_of reader)
            contents d)
    ]

    -- StartInitialBuild(), with fuel for the depth of the state file.
    unfoldable pub start_initial_build : ℕ → W → String → Started
    start_initial_build fuel w output_base_id =
        let (w1, d) = start_base w output_base_id in
        restore_state fuel output_base_id d (store.read w1 output_base_id)

  -- saveOutputPath() with the saved contents.
  unfoldable pub finish_save :
      Stamp → Call V (SaveError E) (Directory P) → Option (W × Option (SaveFailure SE E))
  finish_save time none = none
  finish_save time (some (v, err e)) = some (store.close_writer v, some (contents_failed e))
  finish_save time (some (v, ok contents)) =
      let (w, e) =
        store.finalize v (record { initial_creation_time = some time; contents = some contents }) in
      elim e [ none ↦ some (w, none) | some e' ↦ some (w, some (store_failed e')) ]

  module _ {D L : Type 0} (apply : L → Option (Applied P)) where
    -- saveOutputPath()
    unfoldable pub save_output_path :
        W → PersistentOutputPath D Stamp → Tree L → Option (W × Option (SaveFailure SE E))
    save_output_path w op children =
        let (w1, r) = store.write w op.output_base_id in
        elim r [
          | err e ↦ some (w1, some (store_failed e))
          | ok v ↦
              finish_save op.initial_creation_time
                (save_directory_recursive apply store.write_directory v true children)
        ]

    -- FinalizeBuild(), whose first call is FinalizeBuild() of the output path under it.
    unfoldable pub finalize_build :
        {X : Type 0}
        → (W → D → W)
        → W
        → PersistentOutputPath D Stamp
        → Tree L
        → Option (W × List (Logged SE E X))
    finalize_build finalize_base w op children =
        elim (save_output_path (finalize_base w op.output_path) op children) [
          | none ↦ none
          | some (w1, none) ↦ some (w1, [])
          | some (w1, some e) ↦ some (w1, save_failed e ∷ [])
        ]

  module _ {BE : Type 0} where
    -- What follows the removal in the output path under it.
    unfoldable pub clean_state : W → String → W × Option (RemoveError BE SE)
    clean_state w output_base_id =
        let (w1, e) = store.clean w output_base_id in
        elim e [ none ↦ (w1, none) | some e' ↦ (w1, some (state_failed e')) ]

    -- Clean()
    unfoldable pub clean :
        (W → String → W × Option BE) → W → String → W × Option (RemoveError BE SE)
    clean clean_base w output_base_id =
        let (w1, e) = clean_base w output_base_id in
        elim e [ some e' ↦ (w1, some (base_failed e')) | none ↦ clean_state w1 output_base_id ]

    -- RemoveAllChildren()
    unfoldable pub remove_all_children :
        {D : Type 0}
        → (W → D → Bool → W × Option BE)
        → W
        → PersistentOutputPath D Stamp
        → Bool
        → W × Option (RemoveError BE SE)
    remove_all_children remove_base w op forbid_new_children =
        let (w1, e) = remove_base w op.output_path forbid_new_children in
        elim e [
          | some e' ↦ (w1, some (base_failed e'))
          | none ↦ if forbid_new_children then clean_state w1 op.output_base_id else (w1, none)
        ]
