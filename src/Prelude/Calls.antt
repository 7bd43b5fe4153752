-- ===== src/Prelude/Calls.antt =====
-- Calls that change a state and may fail or panic: the state after the call and its result, or
-- `none` for a panic.
use mathlib.Core.Path.{◌≡◌, refl, ap, ◌∙◌}
use mathlib.Core.Logic.{◌≢◌}
use mathlib.Core.Option.{Option, none, some}
use bb_clientd.Prelude.Results.{Result, ok, err}

abbrev pub Call : Type 0 → Type 0 → Type 0 → Type 0
Call V E A = Option (V × Result E A)

module _ {V E A B : Type 0} where
  -- The next call of a sequence that stops at the first error.
  unfoldable pub and_then : Call V E A → (V → A → Call V E B) → Call V E B
  and_then none next = none
  and_then (some (v, err e)) next = some (v, err e)
  and_then (some (v, ok a)) next = next v a

  -- A sequence that succeeds is two calls that succeed.
  pub and_then-success :
      (c : Call V E A) (next : V → A → Call V E B) (w : V) (b : B)
      → and_then c next ≡ some (w, ok b)
      → (v : V) × (a : A) × (c ≡ some (v, ok a)) × (next v a ≡ some (w, ok b))
  unfolding and_then
  and_then-success none next w b e = cc
  and_then-success (some (v, err x)) next w b e = cc
  and_then-success (some (v, ok a)) next w b e = (v, a, refl, e)

  and_then_next :
      (c : Call V E A) (next next' : V → A → Call V E B)
      → ((v : V) (a : A) → next v a ≡ next' v a)
      → and_then c next ≡ and_then c next'
  unfolding and_then
  and_then_next none next next' eq = refl
  and_then_next (some (v, err e)) next next' eq = refl
  and_then_next (some (v, ok a)) next next' eq = eq v a

  pub and_then_congr :
      {c c' : Call V E A} {next next' : V → A → Call V E B}
      → c ≡ c'
      → ((v : V) (a : A) → next v a ≡ next' v a)
      → and_then c next ≡ and_then c' next'
  and_then_congr {c = c} {next = next} {next' = next'} same eq =
      and_then_next c next next' eq ∙ ap (λ x. and_then x next') same

  -- A sequence panics only where one of its calls does.
  pub and_then-ne-none :
      (c : Call V E A) (next : V → A → Call V E B)
      → c ≢ none
      → ((v : V) (a : A) → c ≡ some (v, ok a) → next v a ≢ none)
      → and_then c next ≢ none
  unfolding and_then
  and_then-ne-none none next ran then_ran = absurd (ran refl)
  and_then-ne-none (some (v, err e)) next ran then_ran = λ p. cc
  and_then-ne-none (some (v, ok a)) next ran then_ran = then_ran v a refl

module _ {V E A B C : Type 0} where
  pub and_then_assoc :
      (c : Call V E A) (next : V → A → Call V E B) (last : V → B → Call V E C)
      → and_then (and_then c next) last ≡ and_then c (λ v a. and_then (next v a) last)
  unfolding and_then
  and_then_assoc none next last = refl
  and_then_assoc (some (v, err e)) next last = refl
  and_then_assoc (some (v, ok a)) next last = refl
