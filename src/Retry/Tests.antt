-- ===== src/Retry/Tests.antt =====
-- Runs and instances for pkg/blobstore/error_retrying_blob_access.go.
use bb_clientd.Prelude.{
  ℕ, ◌+◌, ◌*◌, ◌^◌, ◌≡◌, ◌⊎◌, refl, min, true, false, some, arith, leb, if◌then◌else◌,
}
use bb_clientd.Prelude.Results.{Result, ok, err}
use bb_clientd.Retry.{
  Intervals, Services, RetryState, get_retry_state, maybe_sleep, wait, next_interval, attempt,
  retry, find_missing,
}
use bb_clientd.Retry.Runs.{Clock, Attempts, again, here, Final, Attempts-backoff, retry-ends}
use bb_clientd.Retry.Sleep.{Stops, stopped, GoesOn, maybe_sleep_cases}

abbrev intervals : Intervals
intervals = record { initial_interval = 3; maximum_interval = 10; maximum_delay = 50 }

-- The world is the time. Waiting takes as long as the interval, and errors 0 to 9 are retriable.
abbrev services : Services ℕ ℕ
services = record {
  now = λ w. (w, w);
  random_duration = λ n w. (n, w);
  log = λ e n w. w;
  sleep = λ n w. (true, w + n);
  is_infrastructure_error = λ e. leb e 9;
}

-- A backend that works from time 20 on.
abbrev call : ℕ → Result ℕ ℕ × ℕ
call w = ((if leb 20 w then ok 7 else err 4), w + 1)

-- Attempts at 0, 4, 11 and 22.
call_run : retry intervals services call 52 0 ≡ some (ok 7, 23)
unfolding retry get_retry_state attempt maybe_sleep wait next_interval
call_run = refl

-- A backend that never works: the attempts end after the deadline.
fail_run : find_missing intervals services (λ (d : ℕ) w. (err 4, w + 1)) 52 0 0 ≡ some (err 4, 56)
unfolding find_missing retry get_retry_state attempt maybe_sleep wait next_interval
fail_run = refl

-- An error that is not retriable.
fatal_run : find_missing intervals services (λ (d : ℕ) w. (err 12, w + 1)) 52 0 0 ≡ some (err 12, 1)
unfolding find_missing retry get_retry_state attempt maybe_sleep wait next_interval
fatal_run = refl

clock : Clock intervals services call (λ w. w)
clock = record {
  now_reads = λ w. refl;
  now_keeps = λ w. omega arith;
  random_keeps = λ n w. omega arith;
  log_keeps = λ e n w. omega arith;
  sleep_keeps = λ n w. omega arith;
  call_takes = λ w. omega arith;
}

abbrev first : RetryState
first = record { end_time = 50; interval = 3 }

abbrev second : RetryState
second = record { end_time = 50; interval = 6 }

abbrev third : RetryState
third = record { end_time = 50; interval = 10 }

twice : Attempts intervals services call first 0 2 third 11
unfolding maybe_sleep wait next_interval
twice =
    again {s' = second} {w' = 4} {v = 5} 4 (again {s' = first} {w' = 0} {v = 1} 4 here refl refl)
      refl refl

Attempts-backoff_example :
    (third.end_time ≡ first.end_time) × (third.interval ≡ min (first.interval * 2 ^ 2) 10)
Attempts-backoff_example =
    Attempts-backoff intervals services call first 0 2 third 11 (omega arith) (omega arith) twice

retry-ends_example :
    (r : Result ℕ ℕ) × (w' : ℕ) × (retry intervals services call (50 + 2) 0 ≡ some (r, w'))
    × (n : ℕ) × (s : RetryState) × (v : ℕ) × Attempts intervals services call
        (get_retry_state intervals services 0).0
        (get_retry_state intervals services 0).1
        n
        s
        v
    × Final intervals services call s v r w'
retry-ends_example = retry-ends intervals services call (λ w. w) clock 0

maybe_sleep_cases_example :
    ((why : Stops intervals services first 4 1) × (maybe_sleep intervals services first 4 1
        ≡ (true, first, stopped intervals services why)))
    ⊎ (GoesOn intervals services first 4 1
        × (maybe_sleep intervals services first 4 1
            ≡ (false, record { end_time = 50; interval = min (3 * 2) 10 }, 4)))
maybe_sleep_cases_example =
    maybe_sleep_cases intervals services first 4 1 (omega arith) (omega arith)
