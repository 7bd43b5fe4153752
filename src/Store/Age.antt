-- ===== src/Store/Age.antt =====
-- pkg/outputpathpersistency/maximum_age_store.go: a store that refuses state files of another
-- epoch than the current one.
--
-- The store under it, the clock and the conversions of package time are arguments: `since_epoch`
-- is t.Sub(time.Unix(0, 0)), and `now` what the clock returns during the call. Write() and Clean()
-- are those of the store under it.
pub mod Windows
use Prim.Native.String.{String}
use bb_clientd.Prelude.{Bool, true, false, Option, none, some, if◌then◌else◌}
use bb_clientd.Prelude.Integers.{ℤ, eq_int, quot_i64}
use bb_clientd.Prelude.Results.{Result, ok, err}

pub data AgeError (E : Type 0) : Type 0 where
  base_failed : E → AgeError E
  invalid_creation_time outside_epoch : AgeError E

-- timeToEpoch(): a maximum age of zero panics.
unfoldable pub time_to_epoch : {T : Type 0} → (T → ℤ) → ℤ → T → Option ℤ
time_to_epoch since_epoch maximum_state_file_age t = quot_i64 (since_epoch t) maximum_state_file_age

-- s.timeToEpoch(t) != s.timeToEpoch(u)
unfoldable pub differs : Option ℤ → Option ℤ → Option Bool
differs none e = none
differs (some a) none = none
differs (some a) (some b) = some (if eq_int a b then false else true)

-- A ReadCloser of type `C`, a root directory of type `R` and its initial creation time, on worlds
-- of type `W`.
module _ {W C R Stamp T E : Type 0} (base_read : W → String → Option (W × Result E (C × R)))
    (close : W → C → W) (initial_creation_time : R → Stamp) (check_valid : Stamp → Bool)
    (as_time : Stamp → T) (since_epoch : T → ℤ) (maximum_state_file_age : ℤ) (now : T) where
  -- Read() with a reader of the store under it.
  unfoldable pub check_age : W → C → R → Option (W × Result (AgeError E) (C × R))
  check_age w reader root =
      if check_valid (initial_creation_time root)
      then elim (differs
          (time_to_epoch since_epoch maximum_state_file_age (as_time (initial_creation_time root)))
          (time_to_epoch since_epoch maximum_state_file_age now)) [
            | none ↦ none
            | some true ↦ some (close w reader, err outside_epoch)
            | some false ↦ some (w, ok (reader, root))
          ]
      else some (close w reader, err invalid_creation_time)

  -- Read()
  unfoldable pub maximum_age_read : W → String → Option (W × Result (AgeError E) (C × R))
  maximum_age_read w output_base_id = elim (base_read w output_base_id) [
    | none ↦ none
    | some (w1, err e) ↦ some (w1, err (base_failed e))
    | some (w1, ok (reader, root)) ↦ check_age w1 reader root
  ]
