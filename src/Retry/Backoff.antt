-- ===== src/Retry/Backoff.antt =====
-- How the interval of pkg/blobstore/error_retrying_blob_access.go grows.
use native.Mathlib.Nat.{mul_assoc, pow-suc}
use bb_clientd.Prelude.{ℕ, suc, ◌*◌, ◌^◌, ◌≡◌, ◌≤◌, ◌<◌, sym, ap, ◌∙◌, min, arith}
use bb_clientd.Retry.{next_interval}

pub next_interval-eq-min :
    (maximum interval : ℕ)
    → interval ≤ maximum
    → maximum < 2 ^ 62
    → next_interval maximum interval ≡ min (interval * 2) maximum
unfolding next_interval
next_interval-eq-min maximum interval h m = ground (arith)

-- What doubling makes of a minimum.
pub min-double : (a m : ℕ) → min (min a m * 2) m ≡ min (a * 2) m
min-double a m = omega arith

pub double-pow : (a n : ℕ) → a * 2 ^ n * 2 ≡ a * 2 ^ suc n
double-pow a n = mul_assoc a (2 ^ n) 2 ∙ ap (λ k. a * k) (sym (pow-suc 2 n))
