-- ===== src/OutputService/Cleaning.antt =====
-- Clean() of pkg/filesystem/virtual/bazel_output_service_directory.go as a whole. Its second
-- critical section is `detach`; between the two others may take the lock.
use Prim.Native.String.{String}
use bb_clientd.Prelude.{
  ℕ, ◌+◌, ◌<◌, ◌^◌, ◌≡◌, ◌≢◌, ◌⊎◌, refl, inl, inr, Option, none, some, Option-cases,
}
use mathlib.Core.Option.{map as option_map}
use bb_clientd.Prelude.Maps.{lookup}
use bb_clientd.OutputService.State.{Service, new_service, detach}
use bb_clientd.OutputService.Builds.{Reach, step, detaches}
use bb_clientd.OutputService.Sessions.{detach_cases}

-- "Output base ID is not a valid filename", or what a call returned.
pub data CleanError (X : Type 0) : Type 0 where
  invalid_argument : CleanError X
  remove_failed : X → CleanError X
  factory_failed : X → CleanError X

-- The calls of other code. RemoveAllChildren(true) and the factory's Clean() run without the lock,
-- so that other calls may change the service meanwhile.
pub record CleanCalls (W Root Fn Scope X : Type 0) : Type 0 where
  pub new_component : String → Option String
  pub remove_all_children :
      W × Service Root Fn Scope → Root → (W × Service Root Fn Scope) × Option X
  pub notify_removal : W → String → W
  pub factory_clean : W × Service Root Fn Scope → String → (W × Service Root Fn Scope) × Option X

module _ {W Root Fn Scope X : Type 0} (c : CleanCalls W Root Fn Scope X) where
  unfoldable pub clean_found :
      String
      → ℕ
      → (W × Service Root Fn Scope) × Option X
      → (W × Service Root Fn Scope) × Option (CleanError X)
  clean_found base p (s, some e) = (s, some (remove_failed e))
  clean_found base p (s, none) = ((c.notify_removal s.0 base, detach s.1 base p), none)

  unfoldable pub clean_unused :
      (W × Service Root Fn Scope) × Option X → (W × Service Root Fn Scope) × Option (CleanError X)
  clean_unused (s, some e) = (s, some (factory_failed e))
  clean_unused (s, none) = (s, none)

  unfoldable pub clean_path :
      W
      → Service Root Fn Scope
      → String
      → Option ℕ
      → (W × Service Root Fn Scope) × Option (CleanError X)
  clean_path w d base (some p) =
      clean_found base p (c.remove_all_children (w, d) (d.root_directory p))
  clean_path w d base none = clean_unused (c.factory_clean (w, d) base)

  -- Clean()
  unfoldable pub clean :
      W → Service Root Fn Scope → String → (W × Service Root Fn Scope) × Option (CleanError X)
  clean w d request = elim (c.new_component request) [
    | none ↦ ((w, d), some invalid_argument)
    | some base ↦ clean_path w d base (lookup base d.output_base_ids)
  ]

  module _ (root : Root) (w : W) (d : Service Root Fn Scope)
      (reached : (k : Root) → Reach (new_service root) (c.remove_all_children (w, d) k).0.1)
      (room : (k : Root) → (c.remove_all_children (w, d) k).0.1.change_id + 1 < 2 ^ 64) where
    found-outcome :
        (base : String) (p : ℕ) (r : (W × Service Root Fn Scope) × Option X)
        → Reach (new_service root) r.0.1
        → r.0.1.change_id + 1 < 2 ^ 64
        → let (s, failed) = clean_found base p r in
          Reach (new_service root) s.1
          × (((e : X) × (r.1 ≡ some e) × (failed ≡ some (remove_failed e)) × (s ≡ r.0))
              ⊎ ((r.1 ≡ none) × (failed ≡ none) × (lookup base s.1.output_base_ids ≢ some p)))
    unfolding clean_found
    found-outcome base p (s, some e) g free = (g, inl (e, refl, refl, refl))
    found-outcome base p ((v, d'), none) g free = (
      step g (detaches base p free),
      inr (
        refl,
        refl,
        elim (detach_cases root d' g base p free) [
          | inl (before, after, gone) ↦ λ e. cc (after, e)
          | inr (other, same) ↦ rw same other
        ],
      ),
    )

    unused-outcome :
        (base : String) (r : (W × Service Root Fn Scope) × Option X)
        → let (s, failed) = clean_unused r in (s ≡ r.0) × (failed ≡ option_map factory_failed r.1)
    unfolding clean_unused
    unused-outcome base (v, none) = (refl, refl)
    unused-outcome base (v, some e) = (refl, refl)

    -- Where others that take the lock during RemoveAllChildren() leave the service in a state that
    -- it can reach, with changeID below 2 ^ 64 - 1: Clean() refuses a name that is no component and
    -- changes nothing. For an output base without an output path it returns the error of the
    -- factory's Clean() and does no more than that. For one that has an output path it returns
    -- the error of RemoveAllChildren() and does no more after that, or it succeeds and the output
    -- base no longer has that output path; the service stays in a state that it can reach.
    pub clean-outcome :
        (request : String)
        → let (s, failed) = clean w d request in
          ((c.new_component request ≡ none) × (failed ≡ some invalid_argument) × (s ≡ (w, d)))
          ⊎ ((base : String) × (c.new_component request ≡ some base)
              × (((lookup base d.output_base_ids ≡ none)
                    × (s ≡ (c.factory_clean (w, d) base).0)
                    × (failed ≡ option_map factory_failed (c.factory_clean (w, d) base).1))
                  ⊎ ((p : ℕ) × (lookup base d.output_base_ids ≡ some p)
                      × Reach (new_service root) s.1
                      × (((e : X) × ((c.remove_all_children (w, d) (d.root_directory p)).1 ≡ some e)
                            × (failed ≡ some (remove_failed e))
                            × (s ≡ (c.remove_all_children (w, d) (d.root_directory p)).0))
                          ⊎ (((c.remove_all_children (w, d) (d.root_directory p)).1 ≡ none)
                              × (failed ≡ none)
                              × (lookup base s.1.output_base_ids ≢ some p))))))
    unfolding clean clean_path
    clean-outcome request = elim (Option-cases (c.new_component request)) [
      | inl refused ↦ inl (refused, rw (refused, clean) refl, rw (refused, clean) refl)
      | inr (base, named) ↦ inr (
        base,
        named,
        elim (Option-cases (lookup base d.output_base_ids)) [
          | inl unused ↦
              let (kept, failure) = unused-outcome base (c.factory_clean (w, d) base) in
              inl
                (unused, rw (named, clean) (rw unused kept), rw (named, clean) (rw unused failure))
          | inr (p, used) ↦
              let k = d.root_directory p in
              let (stays, result) =
                found-outcome base p (c.remove_all_children (w, d) k) (reached k) (room k) in
              inr (p, used, rw (named, clean) (rw used stays), rw (named, clean) (rw used result))
        ],
      )
    ]
