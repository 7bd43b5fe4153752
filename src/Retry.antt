-- ===== src/Retry.antt =====
-- pkg/blobstore/error_retrying_blob_access.go: retries with exponential backoff.
--
-- The world `W` is passed from call to call: the clock, the random number generator, the log and
-- the backend all change it. Times are nanoseconds, and a time.Duration is an int64 in two's
-- complement; the sum of a time and the maximum delay is not bounded.
use bb_clientd.Prelude.{
  ℕ, zero, suc, ◌+◌, ◌*◌, ◌%◌, ◌^◌, Bool, true, false, Option, none, some, if◌then◌else◌, ltb,
}
use bb_clientd.Prelude.Words.{lt_i64}
use bb_clientd.Prelude.Results.{Result, ok, err}
pub mod Backoff
pub mod Runs
pub mod Sleep
mod Tests

-- What NewErrorRetryingBlobAccess() is given besides the backend and the services below.
pub record Intervals : Type 0 where
  pub initial_interval : ℕ
  pub maximum_interval : ℕ
  pub maximum_delay : ℕ

-- The clock, the random number generator, the error logger and the context. `sleep` waits on a
-- new timer, and is false where the context is done first. `is_infrastructure_error` is
-- util.IsInfrastructureError(). random.Duration() panics for an interval that is not positive; here
-- it returns some duration for any.
pub record Services (W E : Type 0) : Type 0 where
  pub now : W → ℕ × W
  pub random_duration : ℕ → W → ℕ × W
  pub log : E → ℕ → W → W
  pub sleep : ℕ → W → Bool × W
  pub is_infrastructure_error : E → Bool

pub record RetryState : Type 0 where
  pub end_time : ℕ
  pub interval : ℕ

-- The interval is doubled, and cut off at the maximum.
unfoldable pub next_interval : ℕ → ℕ → ℕ
next_interval maximum interval =
    let doubled = (interval * 2) % 2 ^ 64 in if lt_i64 maximum doubled then maximum else doubled

module _ {W E : Type 0} (ba : Intervals) (services : Services W E) where
  unfoldable pub get_retry_state : W → RetryState × W
  get_retry_state w =
      let (now, w) = services.now w in
      (record { end_time = now + ba.maximum_delay; interval = ba.initial_interval }, w)

  -- The wait of maybeSleep(): whether it was interrupted, and the state to go on with.
  unfoldable pub wait : RetryState → E → W → Bool × RetryState × W
  wait s e w =
      let (random_interval, w) = services.random_duration s.interval w in
      let (fired, w) = services.sleep random_interval (services.log e random_interval w) in
      if fired
      then (false, record s { interval = next_interval ba.maximum_interval s.interval }, w)
      else (true, s, w)

  -- maybeSleep(): whether the caller should stop. The clock is read for retriable errors only.
  unfoldable pub maybe_sleep : RetryState → E → W → Bool × RetryState × W
  maybe_sleep s e w =
      let (now, w') = services.now w in
      if services.is_infrastructure_error e
      then (if ltb s.end_time now then (true, s, w') else wait s e w')
      else (true, s, w)

  module _ {A : Type 0} (call : W → Result E A × W) where
    -- The loop of FindMissing() and GetCapabilities() around a call of the backend.
    unfoldable pub attempt : ℕ → RetryState → W → Option (Result E A × W)
    attempt zero s w = none
    attempt (suc fuel) s w =
        let (r, w) = call w in
        elim r [
          | ok a ↦ some (ok a, w)
          | err e ↦
              let (stop, s, w) = maybe_sleep s e w in
              let rest = attempt fuel s w in if stop then some (err e, w) else rest
        ]

    unfoldable pub retry : ℕ → W → Option (Result E A × W)
    retry fuel w = let (s, w) = get_retry_state w in attempt fuel s w

  -- FindMissing() and GetCapabilities()
  unfoldable pub find_missing :
      {Digests : Type 0}
      → (Digests → W → Result E Digests × W)
      → ℕ
      → Digests
      → W
      → Option (Result E Digests × W)
  find_missing base fuel digests w = retry (base digests) fuel w

  unfoldable pub get_capabilities :
      {InstanceName Capabilities : Type 0}
      → (InstanceName → W → Result E Capabilities × W)
      → ℕ
      → InstanceName
      → W
      → Option (Result E Capabilities × W)
  get_capabilities base fuel instance_name w = retry (base instance_name) fuel w

  -- Get() and GetFromComposite() return at once, with a buffer and the state of its error
  -- handler. `call` is the call of the backend, with its digests.
  unfoldable pub get : {Buffer : Type 0} → (W → Buffer × W) → W → (Buffer × RetryState) × W
  get call w = let (s, w) = get_retry_state w in let (buffer, w) = call w in ((buffer, s), w)

  -- OnError() of both error handlers: another buffer, or the error that the reader gets.
  unfoldable pub on_error :
      {Buffer : Type 0} → (W → Buffer × W) → RetryState → E → W → Result E Buffer × RetryState × W
  on_error call s e w =
      let (stop, s, w) = maybe_sleep s e w in
      let (buffer, w') = call w in if stop then (err e, s, w) else (ok buffer, s, w')
