-- ===== src/Store/Age/Windows.antt =====
-- Which state files maximumAgeStore of pkg/outputpathpersistency/maximum_age_store.go lets through.
use Prim.Native.String.{String}
use bb_clientd.Prelude.{
  ℕ, suc, ◌+◌, ◌*◌, ◌/◌, ◌≤◌, ◌<◌, ◌≡◌, ◌≢◌, ◌⊎◌, inl, inr, refl, sym, ◌∙◌, Bool, true, Bool-cases,
  Option, some, ◌==◌, ==_iff, arith,
}
use bb_clientd.Prelude.Integers.{ℤ, pos, div_window}
use bb_clientd.Prelude.Results.{Result, ok, err}
use bb_clientd.Store.Age.{
  AgeError, outside_epoch, time_to_epoch, differs, check_age, maximum_age_read,
}

-- The time `t` lies in the epoch number `e`, of `age` nanoseconds.
abbrev pub InEpoch : ℕ → ℕ → ℕ → Type 0
InEpoch age e t = (e * age ≤ t) × (t < e * age + age)

same_epoch :
    (age c n : ℕ) → 0 < age → c / age ≡ n / age → (e : ℕ) × InEpoch age e c × InEpoch age e n
same_epoch age c n h same =
    (c / age, (div_window c age (c / age) h).0 refl, (div_window n age (c / age) h).0 (sym same))

other_epoch :
    (age c n : ℕ) → 0 < age → c / age ≢ n / age → (e : ℕ) → ¬ (InEpoch age e c × InEpoch age e n)
other_epoch age c n h differ e (in_c, in_n) =
    differ ((div_window c age e h).1 in_c ∙ sym ((div_window n age e h).1 in_n))

module _ {W C R Stamp T E : Type 0} (base_read : W → String → Option (W × Result E (C × R)))
    (close : W → C → W) (initial_creation_time : R → Stamp) (check_valid : Stamp → Bool)
    (as_time : Stamp → T) (since_epoch : T → ℤ) (age : ℕ) (now : T) where
  abbrev pub aged_read : W → String → Option (W × Result (AgeError E) (C × R))
  aged_read =
      maximum_age_read base_read close initial_creation_time check_valid as_time since_epoch
        (pos (suc age)) now

  -- For a positive maximum age, a valid creation time `c` and a current time `n` that are not
  -- before 1970, a state file that the store under it returns is returned too exactly where some
  -- epoch, a maximum age long, holds both times. Otherwise its reader is closed.
  pub maximum_age_read-InEpoch :
      (w w1 : W) (base : String) (reader : C) (root : R) (c n : ℕ)
      → base_read w base ≡ some (w1, ok (reader, root))
      → check_valid (initial_creation_time root) ≡ true
      → since_epoch (as_time (initial_creation_time root)) ≡ pos c
      → since_epoch now ≡ pos n
      → (((e : ℕ) × InEpoch (suc age) e c × InEpoch (suc age) e n)
          × (aged_read w base ≡ some (w1, ok (reader, root))))
        ⊎ (((e : ℕ) → ¬ (InEpoch (suc age) e c × InEpoch (suc age) e n))
            × (aged_read w base ≡ some (close w1 reader, err outside_epoch)))
  unfolding maximum_age_read check_age differs time_to_epoch
  maximum_age_read-InEpoch w w1 base reader root c n found valid at_c at_n =
      elim (Bool-cases (c / suc age == n / suc age)) [
        | inl same ↦ inl (
          same_epoch (suc age) c n (omega arith) ((==_iff (c / suc age) (n / suc age)).0 same),
          rw (found, maximum_age_read)
              (rw (valid, check_age) (rw (at_c, at_n, time_to_epoch, differs) (rw same refl))),
        )
        | inr differ ↦ inr (
          other_epoch (suc age) c n (omega arith) (λ e. ground (arith, e)),
          rw (found, maximum_age_read)
              (rw (valid, check_age) (rw (at_c, at_n, time_to_epoch, differs) (rw differ refl))),
        )
      ]
