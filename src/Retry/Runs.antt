-- ===== src/Retry/Runs.antt =====
-- What a run of the retry loop of pkg/blobstore/error_retrying_blob_access.go is made of, and that
-- it comes to an end.
use bb_clientd.Prelude.{
  ℕ, zero, suc, ◌+◌, ◌*◌, ◌^◌, ◌≡◌, ◌≤◌, ◌<◌, refl, sym, ap, ◌∙◌, inl, inr, min, true, false, some,
  arith,
}
use bb_clientd.Prelude.Results.{Result, ok, err, Result-cases}
use bb_clientd.Retry.{
  Intervals, Services, RetryState, get_retry_state, wait, maybe_sleep, attempt, retry,
}
use bb_clientd.Retry.Sleep.{Stops, maybe_sleep_branches}
use bb_clientd.Retry.Backoff.{next_interval-eq-min, min-double, double-pow}

true_ne_false : true ≡ false → ⊥
true_ne_false h = cc

-- A retry that is in time leaves fuel for the next one.
fuel_left :
    (fuel end end' t0 now t1 t2 : ℕ)
    → end + 1 < suc fuel + t0
    → t0 < t1
    → now ≡ t1
    → now ≤ end
    → end' ≡ end
    → t1 ≤ t2
    → (end' + 1 < fuel + t2) × (0 < fuel)
fuel_left fuel end end' t0 now t1 t2 a b c d e f = (omega arith, omega arith)

module _ {W E : Type 0} (ba : Intervals) (services : Services W E) where
  module _ {A : Type 0} (call : W → Result E A × W) where
    -- `n` calls that failed, each with an error after which maybeSleep() told the loop to go on.
    pub data Attempts (s : RetryState) (w : W) : ℕ → RetryState → W → Type 0 where
      here : Attempts s w 0 s w
      again :
          {n : ℕ} {s' s'' : RetryState} {w' w'' v : W} (e : E)
          → Attempts s w n s' w'
          → call w' ≡ (err e, v)
          → maybe_sleep ba services s' e v ≡ (false, s'', w'')
          → Attempts s w (suc n) s'' w''

    -- Where the first interval does not exceed the maximum, and the maximum is below 2 ^ 62
    -- nanoseconds: the deadline is that of the first attempt throughout, and the interval doubles
    -- with each retry, up to the maximum.
    pub Attempts-backoff :
        (s : RetryState) (w : W) (n : ℕ) (s' : RetryState) (w' : W)
        → s.interval ≤ ba.maximum_interval
        → ba.maximum_interval < 2 ^ 62
        → Attempts s w n s' w'
        → (s'.end_time ≡ s.end_time) × (s'.interval ≡ min (s.interval * 2 ^ n) ba.maximum_interval)
    Attempts-backoff s w zero s' w' h m here = (refl, omega arith)
    Attempts-backoff s w (suc n) s'' w'' h m (again {s' = s'} {v = v} e r failed go) =
        let (deadline, grown) = Attempts-backoff s w n s' _ h m r in
        elim (maybe_sleep_branches ba services s' e v) [
          | inl (_, stops) ↦ absurd (true_ne_false (ap (λ t. t.0) (sym stops ∙ go)))
          | inr (_, goes) ↦ (
            ap (λ t. t.1.end_time) (sym go ∙ goes) ∙ deadline,
            ap (λ t. t.1.interval) (sym go ∙ goes)
                ∙ next_interval-eq-min ba.maximum_interval s'.interval (omega arith) m
                ∙ ap (λ i. min (i * 2) ba.maximum_interval) grown
                ∙ min-double (s.interval * 2 ^ n) ba.maximum_interval
                ∙ ap (λ i. min i ba.maximum_interval) (double-pow s.interval n),
          )
        ]

    -- How the loop ends after its last call: the call succeeds, or maybeSleep() has a reason.
    pub data Final (s : RetryState) (w : W) : Result E A → W → Type 0 where
      succeeds : {w' : W} (a : A) → call w ≡ (ok a, w') → Final s w (ok a) w'
      gives_up :
          {s' : RetryState} {w' : W} (e : E) (v : W)
          → call w ≡ (err e, v)
          → Stops ba services s e v
          → maybe_sleep ba services s e v ≡ (true, s', w')
          → Final s w (err e) w'

    -- The clock never goes back, and a call of the backend takes some time.
    pub record Clock (time : W → ℕ) : Type 0 where
      pub now_reads : (w : W) → (services.now w).0 ≡ time w
      pub now_keeps : (w : W) → time w ≤ time (services.now w).1
      pub random_keeps : (n : ℕ) (w : W) → time w ≤ time (services.random_duration n w).1
      pub log_keeps : (e : E) (n : ℕ) (w : W) → time w ≤ time (services.log e n w)
      pub sleep_keeps : (n : ℕ) (w : W) → time w ≤ time (services.sleep n w).1
      pub call_takes : (w : W) → time w < time (call w).1

    module _ (time : W → ℕ) (clock : Clock time) where
      wait-keeps : (s : RetryState) (e : E) (w : W) → time w ≤ time (wait ba services s e w).2
      unfolding wait
      wait-keeps s e w =
          let (n, w1) = services.random_duration s.interval w in
          let w2 = services.log e n w1 in
          ground
            (arith, clock.random_keeps s.interval w, clock.log_keeps e n w1, clock.sleep_keeps n w2)

      maybe_sleep-keeps :
          (s : RetryState) (e : E) (w : W) → time w ≤ time (maybe_sleep ba services s e w).2
      unfolding maybe_sleep
      maybe_sleep-keeps s e w = ground (arith, clock.now_keeps w, wait-keeps s e (services.now w).1)

      -- The loop, from any point of the run on. `fuel` counts the calls that are left: one more
      -- than the time that is left is enough.
      attempt-ends :
          (fuel : ℕ) (s0 : RetryState) (w0 : W) (n : ℕ) (s : RetryState) (w : W)
          → Attempts s0 w0 n s w
          → s.end_time + 1 < fuel + time w
          → 0 < fuel
          → (r : Result E A) × (w' : W) × (attempt ba services call fuel s w ≡ some (r, w'))
            × (m : ℕ) × (s' : RetryState) × (v : W) × Attempts s0 w0 m s' v
            × Final s' v r w'
      unfolding attempt
      attempt-ends zero s0 w0 n s w a f g = absurd (omega arith)
      attempt-ends (suc fuel) s0 w0 n s w a f' g = elim (Result-cases (call w).0) [
        | inl (x, f) ↦
            let e : call w ≡ (ok x, (call w).1) = ap (λ y. (y, (call w).1)) f in
            (ok x, (call w).1, rw (e, attempt), n, s, w, a, succeeds x e)
        | inr (x, f) ↦
            let v = (call w).1 in
            let e : call w ≡ (err x, v) = ap (λ y. (y, v)) f in
            let (stop, s', w') = maybe_sleep ba services s x v in
            elim (maybe_sleep_branches ba services s x v) [
              | inl (why, stops) ↦ (
                err x,
                w',
                rw (f, attempt) (rw stops refl),
                n,
                s,
                w,
                a,
                gives_up {s' = s'} x v e why (ground (arith, stops)),
              )
              | inr (why, goes) ↦
                  let (enough, more) =
                    fuel_left fuel s.end_time s'.end_time (time w) (services.now v).0 (time v)
                      (time w') f' (clock.call_takes w) (clock.now_reads v) why.early
                      (ap (λ t. t.1.end_time) goes) (maybe_sleep-keeps s x v) in
                  let (r, z, eq, k, t, u, tried, end) =
                    attempt-ends fuel s0 w0 (suc n) s' w'
                      (again x a e (ap (λ t. (t, s', w')) (ap (λ t. t.0) goes))) enough more in
                  (r, z, rw (f, attempt) (rw (ap (λ t. t.0) goes) eq), k, t, u, tried, end)
            ]
      ]

      -- FindMissing() and GetCapabilities() return, if the clock never goes back and every call of
      -- the backend takes some time: fuel for the maximum delay is enough. Their result is that
      -- of the last call of the backend. All calls before it failed, each with an error after
      -- which maybeSleep() told the loop to go on, and the last one succeeded, or failed with an
      -- error for which maybeSleep() had a reason to stop.
      pub retry-ends :
          (w : W)
          → (r : Result E A) × (w' : W) × (retry ba services call (ba.maximum_delay + 2) w
              ≡ some (r, w'))
            × (n : ℕ) × (s : RetryState) × (v : W) × Attempts
                (get_retry_state ba services w).0
                (get_retry_state ba services w).1
                n
                s
                v
            × Final s v r w'
      unfolding retry get_retry_state
      retry-ends w =
          let (s0, w0) = get_retry_state ba services w in
          let reads = clock.now_reads w in
          let keeps = clock.now_keeps w in
          attempt-ends (ba.maximum_delay + 2) s0 w0 0 s0 w0 here (omega arith) (omega arith)
