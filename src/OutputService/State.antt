-- ===== src/OutputService/State.antt =====
-- The state of BazelOutputServiceDirectory in
-- pkg/filesystem/virtual/bazel_output_service_directory.go, and what its methods do to it while
-- they hold the lock.
--
-- The outputPathState objects live on a heap: one map for each field, from the object's number.
-- Object 0 is `d.outputPaths`, the head of the circular list. Both Go maps point to objects, so
-- that one object may be reached through either. `root_directory` is a handle of what the output
-- path factory returned. changeID and the cookies are uint64.
use Prim.Native.String.{String}
use bb_clientd.Prelude.{ℕ, suc, ◌+◌, ◌%◌, ◌^◌, Option, none, some, [], ◌==◌, if◌then◌else◌}
use bb_clientd.Prelude.Maps.{StringMap, lookup, insert, delete}
use bb_clientd.Prelude.Results.{Result, ok, err}
use bb_clientd.OutputService.Ring.{update}

-- `Root` stands for the directories of output paths, `Fn` for digest functions, and `Scope` for
-- the factories of scope walkers.
pub record BuildState (Fn Scope : Type 0) : Type 0 where
  pub id : String
  pub digest_function : Fn
  pub scope_walker_factory : Scope

pub record Service (Root Fn Scope : Type 0) : Type 0 where
  pub change_id : ℕ
  pub output_base_ids : StringMap ℕ
  pub build_ids : StringMap ℕ
  pub fresh : ℕ
  pub build_state : ℕ → Option (BuildState Fn Scope)
  pub root_directory : ℕ → Root
  pub previous : ℕ → ℕ
  pub next : ℕ → ℕ
  pub cookie : ℕ → ℕ
  pub output_base_id : ℕ → String

-- "Build ID is not associated with any running build"
pub data NoBuild : Type 0 where
  failed_precondition : NoBuild

module _ {Root Fn Scope : Type 0} where
  -- NewBazelOutputServiceDirectory(): the list is empty, its head pointing to itself.
  unfoldable pub new_service : Root → Service Root Fn Scope
  new_service root = record {
    change_id = 0;
    output_base_ids = [];
    build_ids = [];
    fresh = 1;
    build_state = λ p. none;
    root_directory = λ p. root;
    previous = λ p. 0;
    next = λ p. 0;
    cookie = λ p. 0;
    output_base_id = λ p. "";
  }

  -- A new object at the end of the list, for the root directory that the factory created.
  unfoldable pub create_output_path : Service Root Fn Scope → String → Root → Service Root Fn Scope
  create_output_path d base root =
      let p = d.fresh in
      let previous = update d.previous p (d.previous 0) in
      let next = update d.next p 0 in
      let next = update next (previous p) p in
      record d {
        fresh = suc p;
        build_state = update d.build_state p none;
        root_directory = update d.root_directory p root;
        cookie = update d.cookie p d.change_id;
        output_base_id = update d.output_base_id p base;
        output_base_ids = insert base p d.output_base_ids;
        next = next;
        previous = update previous (next p) p;
        change_id = (d.change_id + 1) % 2 ^ 64;
      }

  -- A build that was not finalized is finalized by force: only its ID is forgotten.
  unfoldable pub forget_build :
      Service Root Fn Scope → ℕ → Option (BuildState Fn Scope) → Service Root Fn Scope
  forget_build d p none = d
  forget_build d p (some build) = record d {
    build_ids = delete build.id d.build_ids;
    build_state = update d.build_state p none;
  }

  -- state.buildState = &buildState{…}; d.buildIDs[request.BuildId] = state
  unfoldable pub set_build : Service Root Fn Scope → ℕ → BuildState Fn Scope → Service Root Fn Scope
  set_build d p build = record d {
    build_state = update d.build_state p (some build);
    build_ids = insert build.id p d.build_ids;
  }

  -- The object of an output base, which is created where there is none. The root directory is
  -- what StartInitialBuild() returns in that case.
  unfoldable pub use_output_path :
      Service Root Fn Scope → String → Root → Option ℕ → Service Root Fn Scope × ℕ
  use_output_path d base root (some p) = (forget_build d p (d.build_state p), p)
  use_output_path d base root none = (create_output_path d base root, d.fresh)

  unfoldable pub register :
      Service Root Fn Scope
      → String
      → Root
      → BuildState Fn Scope
      → Option ℕ
      → Service Root Fn Scope × ℕ
  register d base root build (some p) = (d, p)
  register d base root build none =
      let (d', p) = use_output_path d base root (lookup base d.output_base_ids) in
      (set_build d' p build, p)

  -- StartBuild() between Lock() and Unlock(): the object of the build comes back beside the state.
  unfoldable pub start_build_locked :
      Service Root Fn Scope → String → Root → BuildState Fn Scope → Service Root Fn Scope × ℕ
  start_build_locked d base root build = register d base root build (lookup build.id d.build_ids)

  unfoldable pub unlink : Service Root Fn Scope → String → ℕ → Service Root Fn Scope
  unlink d base p =
      let next = update d.next (d.previous p) (d.next p) in
      record d {
        output_base_ids = delete base d.output_base_ids;
        next = next;
        previous = update d.previous (next p) (d.previous p);
        change_id = (d.change_id + 1) % 2 ^ 64;
      }

  -- Clean() between its second Lock() and Unlock(), `p` being the object that it looked up under
  -- the first: another call may have replaced it in between.
  unfoldable pub detach : Service Root Fn Scope → String → ℕ → Service Root Fn Scope
  detach d base p = elim (lookup base d.output_base_ids) [
    | none ↦ d
    | some q ↦ if p == q then forget_build (unlink d base p) p (d.build_state p) else d
  ]

  -- FinalizeBuild(), which holds the lock throughout: the object whose build ends, with that
  -- build, or nothing for an unknown build ID. A nil build state would be dereferenced: `none`.
  unfoldable pub finalize_build_locked :
      Service Root Fn Scope
      → String
      → Option (Service Root Fn Scope × Option (ℕ × BuildState Fn Scope))
  finalize_build_locked d build_id = elim (lookup build_id d.build_ids) [
    | none ↦ some (d, none)
    | some p ↦ elim (d.build_state p) [
      | none ↦ none
      | some s ↦ some (forget_build d p (some s), some (p, s))
    ]
  ]

  -- getOutputPathAndBuildState()
  unfoldable pub get_output_path_and_build_state :
      Service Root Fn Scope → String → Result NoBuild (ℕ × Option (BuildState Fn Scope))
  get_output_path_and_build_state d build_id = elim (lookup build_id d.build_ids) [
    | none ↦ err failed_precondition
    | some p ↦ ok (p, d.build_state p)
  ]

  -- VirtualLookup()
  unfoldable pub virtual_lookup : Service Root Fn Scope → String → Option Root
  virtual_lookup d name = elim (lookup name d.output_base_ids) [
    | none ↦ none
    | some p ↦ some (d.root_directory p)
  ]
