-- ===== src/OutputService/Stat/Answers.antt =====
-- What BatchStat() of pkg/filesystem/virtual/bazel_output_service_directory.go returns.
use Prim.Native.String.{String}
use bb_clientd.Prelude.{ℕ, ◌≡◌, ◌⊎◌, inl, inr, refl, Option, none, some, List, [], ◌∷◌, ◌++◌}
use bb_clientd.Prelude.Results.{Result, ok, err}
use bb_clientd.OutputService.State.{
  new_service, Service, BuildState, get_output_path_and_build_state,
}
use bb_clientd.OutputService.Builds.{Reach}
use bb_clientd.OutputService.Sessions.{get-success}
use bb_clientd.OutputService.Stat.{
  Stat, empty, StatError, unimplemented, not_a_directory, no_entry, other, StatWalker,
  stat_response, stat_all, batch_stat,
}

module _ {Dir Fn Scope L E : Type 0}
    (resolve : Fn → Scope → StatWalker Dir L → String → Option (StatError E) × StatWalker Dir L)
    (root : Dir) (build : BuildState Fn Scope) where
  -- The resolution of one path, from the root of the output path.
  abbrev pub resolved : String → Option (StatError E) × StatWalker Dir L
  resolved path =
      resolve build.digest_function build.scope_walker_factory
        (record { top = root; below = []; stat = empty }) path

  -- A path that is resolved is answered by the stat of the walker, and one that does not exist by
  -- an empty response.
  pub data Answered (path : String) (response : Option (Stat L)) : Type 0 where
    found :
        (cw : StatWalker Dir L)
        → resolved path ≡ (none, cw)
        → response ≡ some cw.stat
        → Answered path response
    missing :
        (cw : StatWalker Dir L)
        → resolved path ≡ (some no_entry, cw)
        → response ≡ none
        → Answered path response

  -- Any other error ends the call.
  pub record Fails (path : String) (e : StatError E) : Type 0 where
    pub walker : StatWalker Dir L
    pub error : resolved path ≡ (some e, walker)
    pub other_reason : ¬ (e ≡ no_entry)

  -- As many responses as paths, in the same order.
  abbrev pub AllAnswered : List String → List (Option (Stat L)) → Type 0
  AllAnswered [] [] = Unit {0}
  AllAnswered [] (response ∷ responses) = ⊥
  AllAnswered (path ∷ paths) [] = ⊥
  AllAnswered (path ∷ paths) (response ∷ responses) =
      Answered path response × AllAnswered paths responses

  -- All paths are answered, or one fails and those before it have been answered.
  pub data Answers (paths : List String)
      : Result (StatError E) (List (Option (Stat L))) → Type 0 where
    all_answered :
        (responses : List (Option (Stat L)))
        → AllAnswered paths responses
        → Answers paths (ok responses)
    fails :
        (before after : List String) (responses : List (Option (Stat L))) (path : String)
        (e : StatError E)
        → paths ≡ before ++ (path ∷ after)
        → AllAnswered before responses
        → Fails path e
        → Answers paths (err e)

  stat_response_cases :
      (path : String) (o : Option (StatError E)) (cw : StatWalker Dir L)
      → resolved path ≡ (o, cw)
      → ((response : Option (Stat L)) × (stat_response (resolved path) ≡ ok response)
          × Answered path response)
        ⊎ ((e : StatError E) × (stat_response (resolved path) ≡ err e) × Fails path e)
  unfolding stat_response
  stat_response_cases path none cw e = inl (some cw.stat, rw e refl, found cw e refl)
  stat_response_cases path (some no_entry) cw e = inl (none, rw e refl, missing cw e refl)
  stat_response_cases path (some unimplemented) cw e =
      inr (unimplemented, rw e refl, record { walker = cw; error = e; other_reason = λ h. cc })
  stat_response_cases path (some not_a_directory) cw e =
      inr (not_a_directory, rw e refl, record { walker = cw; error = e; other_reason = λ h. cc })
  stat_response_cases path (some (other x)) cw e =
      inr (other x, rw e refl, record { walker = cw; error = e; other_reason = λ h. cc })

  Answers-cons :
      (path : String) (paths : List String) (response : Option (Stat L))
      (r : Result (StatError E) (List (Option (Stat L))))
      → stat_all resolve root build paths ≡ r
      → stat_response (resolved path) ≡ ok response
      → Answered path response
      → Answers paths r
      → Answers (path ∷ paths) (stat_all resolve root build (path ∷ paths))
  unfolding stat_all
  Answers-cons path paths response _ same e answered (all_answered responses rest) =
      rw (e, stat_all) (rw (same, stat_all) (all_answered (response ∷ responses) (answered, rest)))
  Answers-cons path paths response _ same e answered
        (fails before after responses failing x split rest why) =
      rw (e, stat_all)
        (rw (same, stat_all)
          (fails (path ∷ before) after (response ∷ responses) failing x (rw split refl)
            (answered, rest) why))

  stat_all-Answers : (paths : List String) → Answers paths (stat_all resolve root build paths)
  unfolding stat_all
  stat_all-Answers [] = all_answered [] tt
  stat_all-Answers (path ∷ paths) =
      let rest = stat_all-Answers paths in
      elim (stat_response_cases path (resolved path).0 (resolved path).1 refl) [
        | inl (response, e, answered) ↦
            Answers-cons path paths response (stat_all resolve root build paths) refl e answered
              rest
        | inr (x, e, why) ↦ rw (e, stat_all) (fails [] paths [] path x refl tt why)
      ]

module _ {Dir Fn Scope L E : Type 0}
    (resolve : Fn
      → Scope
      → StatWalker Dir L
      → String
      → Option (StatError E) × StatWalker Dir L) where
  -- In a state that the service can reach, BatchStat() for a build ID that is found never goes
  -- through a nil build state. It answers each path in order, with the walker's stat for one that
  -- is resolved and an empty response for one that does not exist; or it fails with the error of
  -- a path that fails for another reason than that there is no entry, all paths before it having
  -- been answered.
  pub batch_stat-Answers :
      (root : Dir) (d : Service Dir Fn Scope) (build_id : String) (p : ℕ)
      (s : Option (BuildState Fn Scope)) (paths : List String)
      → Reach (new_service root) d
      → get_output_path_and_build_state d build_id ≡ ok (p, s)
      → (build : BuildState Fn Scope) × (r : Result (StatError E) (List (Option (Stat L))))
        × (batch_stat resolve d build_id paths ≡ some (ok r))
        × (build.id ≡ build_id)
        × Answers resolve (d.root_directory p) build paths r
  unfolding batch_stat
  batch_stat-Answers root d build_id p s paths reach known =
      let (build, e, same, _) = get-success root d reach build_id p s known in
      (
        build,
        stat_all resolve (d.root_directory p) build paths,
        rw (known, batch_stat) (rw e refl),
        same,
        stat_all-Answers resolve (d.root_directory p) build paths,
      )
