-- ===== src/Retry/Sleep.antt =====
-- maybeSleep() of pkg/blobstore/error_retrying_blob_access.go: when it stops, and when it waits.
use bb_clientd.Prelude.{
  ◌*◌, ◌^◌, ◌≡◌, ◌≤◌, ◌<◌, refl, ◌⊎◌, inl, inr, min, Bool, true, false, ltb, arith, Bool-cases,
}
use bb_clientd.Retry.{Intervals, Services, RetryState, next_interval, wait, maybe_sleep}
use bb_clientd.Retry.Backoff.{next_interval-eq-min}

module _ {W E : Type 0} (ba : Intervals) (services : Services W E) where
  -- The wait that follows a reading of the clock: a random duration, which is logged with the
  -- error, and a timer. It is false where the context is done first.
  abbrev pub slept : RetryState → E → W → Bool × W
  slept s e w =
      let (random_interval, w') = services.random_duration s.interval (services.now w).1 in
      services.sleep random_interval (services.log e random_interval w')

  -- Why maybeSleep() tells its caller to stop: the error is not retriable, the deadline has passed,
  -- or the context was done during the wait.
  pub data Stops (s : RetryState) (e : E) (w : W) : Type 0 where
    not_retriable : services.is_infrastructure_error e ≡ false → Stops s e w
    expired :
        services.is_infrastructure_error e ≡ true → s.end_time < (services.now w).0 → Stops s e w
    interrupted :
        services.is_infrastructure_error e ≡ true
        → (services.now w).0 ≤ s.end_time
        → (slept s e w).0 ≡ false
        → Stops s e w

  -- What maybeSleep() has done where it stops: the clock is read for retriable errors only, and
  -- nothing is waited for after the deadline.
  abbrev pub stopped : {s : RetryState} {e : E} {w : W} → Stops s e w → W
  stopped {w = w} (not_retriable fatal) = w
  stopped {w = w} (expired retriable late) = (services.now w).1
  stopped {s = s} {e = e} {w = w} (interrupted retriable early done) = (slept s e w).1

  -- The wait is over before the context is done, after an error that is retriable and before the
  -- deadline.
  pub record GoesOn (s : RetryState) (e : E) (w : W) : Type 0 where
    pub retriable : services.is_infrastructure_error e ≡ true
    pub early : (services.now w).0 ≤ s.end_time
    pub fired : (slept s e w).0 ≡ true

  wait_cases :
      (s : RetryState) (e : E) (w : W)
      → (((slept s e w).0 ≡ false)
          × (wait ba services s e (services.now w).1 ≡ (true, s, (slept s e w).1)))
        ⊎ (((slept s e w).0 ≡ true)
            × (wait ba services s e (services.now w).1 ≡ (
              false,
              record s { interval = next_interval ba.maximum_interval s.interval },
              (slept s e w).1,
            )))
  unfolding wait
  wait_cases s e w = elim (Bool-cases (slept s e w).0) [
    | inl fired ↦ inr (fired, rw fired refl)
    | inr done ↦ inl (done, rw done refl)
  ]

  -- The same, with the next interval as next_interval() has it.
  pub maybe_sleep_branches :
      (s : RetryState) (e : E) (w : W)
      → ((why : Stops s e w) × (maybe_sleep ba services s e w ≡ (true, s, stopped why)))
        ⊎ (GoesOn s e w
            × (maybe_sleep ba services s e w ≡ (
              false,
              record s { interval = next_interval ba.maximum_interval s.interval },
              (slept s e w).1,
            )))
  unfolding maybe_sleep
  maybe_sleep_branches s e w = elim (Bool-cases (services.is_infrastructure_error e)) [
    | inr fatal ↦ inl (not_retriable fatal, rw fatal refl)
    | inl retriable ↦ elim (Bool-cases (ltb s.end_time (services.now w).0)) [
      | inl late ↦ inl (expired retriable (ground arith), rw retriable (rw late refl))
      | inr in_time ↦
          let early : (services.now w).0 ≤ s.end_time = ground arith in
          elim (wait_cases s e w) [
            | inl (done, waits) ↦
                inl (interrupted retriable early done, rw retriable (rw in_time waits))
            | inr (fired, waits) ↦ inr (
              record { retriable = retriable; early = early; fired = fired },
              rw retriable (rw in_time waits),
            )
          ]
    ]
  ]

  -- maybeSleep() stops, with its state as it was, where the error is not retriable, where the
  -- deadline has passed, or where the context is done during its wait for a random duration drawn
  -- from the interval; the clock is read for retriable errors only, and the wait is made before
  -- the deadline only. Otherwise the wait has ended by its timer, and maybeSleep() goes on with
  -- the same deadline and, where the interval does not exceed the maximum and the maximum is below
  -- 2 ^ 62 nanoseconds, with twice the interval, up to the maximum.
  pub maybe_sleep_cases :
      (s : RetryState) (e : E) (w : W)
      → s.interval ≤ ba.maximum_interval
      → ba.maximum_interval < 2 ^ 62
      → ((why : Stops s e w) × (maybe_sleep ba services s e w ≡ (true, s, stopped why)))
        ⊎ (GoesOn s e w
            × (maybe_sleep ba services s e w ≡ (
              false,
              record { end_time = s.end_time; interval = min (s.interval * 2) ba.maximum_interval },
              (slept s e w).1,
            )))
  maybe_sleep_cases s e w below small = elim (maybe_sleep_branches s e w) [
    | inl stops ↦ inl stops
    | inr (goes, e) ↦
        inr (goes, rw (← next_interval-eq-min ba.maximum_interval s.interval below small) e)
  ]
