-- ===== src/OutputService/Stat.antt =====
-- statWalker and BatchStat() of pkg/filesystem/virtual/bazel_output_service_directory.go.
--
-- What path.Resolve(), the virtual root and the loop detection make of the walker is an argument
-- of batch_stat. Lookups and the stat of a leaf have no effect that is modelled.
use Prim.Native.String.{String}
use bb_clientd.Prelude.{Option, none, some, List, [], ◌∷◌}
use bb_clientd.Prelude.Results.{Result, ok, err}
use bb_clientd.OutputService.State.{BuildState, Service, NoBuild, get_output_path_and_build_state}
pub mod Answers
pub mod Names
pub mod Walks
mod Tests

-- BatchStatResponse_Stat: empty for what cannot be seen, or a directory, or the stat of a leaf.
pub data Stat (L : Type 0) : Type 0 where
  empty is_directory : Stat L
  leaf_stat : L → Stat L

pub data StatError (E : Type 0) : Type 0 where
  unimplemented not_a_directory no_entry : StatError E
  other : E → StatError E

-- A child of a directory of the output path.
pub data Node (Dir Leaf : Type 0) : Type 0 where
  a_directory : Dir → Node Dir Leaf
  a_leaf : Leaf → Node Dir Leaf

-- `symlink_target` is the attribute of a leaf, and `stat_leaf` is ApplyGetBazelOutputServiceStat
-- with the digest function of the build; `none` stands for the panic where a leaf does not
-- support it.
pub record Files (Dir Leaf L Fn E : Type 0) : Type 0 where
  pub lookup_child : Dir → String → Result (StatError E) (Node Dir Leaf)
  pub symlink_target : Leaf → Option String
  pub stat_leaf : Fn → Leaf → Option (Result (StatError E) (Stat L))

-- The stack, its top first, is never empty.
pub record StatWalker (Dir L : Type 0) : Type 0 where
  pub top : Dir
  pub below : List Dir
  pub stat : Stat L

-- What a call returns to the resolver: it goes on with the walker, with the target of a symbolic
-- link in the walker, or with the void walker; or it is done with the last component.
pub data Next : Type 0 where
  continues done leaves : Next
  got_symlink : String → Next

-- PopAll() of the stack.
unfoldable pub pop_all {ℓ} : {Dir : Type ℓ} → Dir → List Dir → Dir
pop_all top [] = top
pop_all top (dir ∷ dirs) = pop_all dir dirs

module _ {Dir L E : Type 0} where
  unfoldable pub on_relative : StatWalker Dir L → Result (StatError E) Next × StatWalker Dir L
  on_relative cw = (ok continues, record cw { stat = is_directory })

  unfoldable pub on_absolute : StatWalker Dir L → Result (StatError E) Next × StatWalker Dir L
  on_absolute cw = on_relative (record cw { top = pop_all cw.top cw.below; below = [] })

  unfoldable pub on_drive_letter : StatWalker Dir L → Result (StatError E) Next × StatWalker Dir L
  on_drive_letter cw = (err unimplemented, cw)

  unfoldable pub on_share : StatWalker Dir L → Result (StatError E) Next × StatWalker Dir L
  on_share cw = (err unimplemented, cw)

  unfoldable pub on_up : StatWalker Dir L → Result (StatError E) Next × StatWalker Dir L
  on_up cw = elim cw.below [
    | [] ↦ (ok leaves, record cw { stat = empty })
    | dir ∷ dirs ↦ (ok continues, record cw { top = dir; below = dirs })
  ]

  -- The response for one path: nothing where it does not exist, and an error that ends the call.
  unfoldable pub stat_response :
      Option (StatError E) × StatWalker Dir L → Result (StatError E) (Option (Stat L))
  stat_response (none, cw) = ok (some cw.stat)
  stat_response (some no_entry, cw) = ok none
  stat_response (some unimplemented, cw) = err unimplemented
  stat_response (some not_a_directory, cw) = err not_a_directory
  stat_response (some (other e), cw) = err (other e)

module _ {Dir Leaf L Fn E : Type 0} (files : Files Dir Leaf L Fn E) where
  unfoldable pub push : StatWalker Dir L → Dir → StatWalker Dir L
  push cw dir = record cw { top = dir; below = cw.top ∷ cw.below }

  unfoldable pub on_directory :
      StatWalker Dir L → String → Result (StatError E) Next × StatWalker Dir L
  on_directory cw name = elim (files.lookup_child cw.top name) [
    | err e ↦ (err e, cw)
    | ok child ↦ elim child [
      | a_directory dir ↦ (ok continues, push cw dir)
      | a_leaf leaf ↦ elim (files.symlink_target leaf) [
        | none ↦ (err not_a_directory, cw)
        | some target ↦ (ok (got_symlink target), record cw { stat = empty })
      ]
    ]
  ]

  unfoldable pub on_terminal :
      Fn → StatWalker Dir L → String → Option (Result (StatError E) Next × StatWalker Dir L)
  on_terminal fn cw name = elim (files.lookup_child cw.top name) [
    | err e ↦ some (err e, cw)
    | ok child ↦ elim child [
      | a_directory dir ↦ some (ok done, push cw dir)
      | a_leaf leaf ↦ elim (files.stat_leaf fn leaf) [
        | none ↦ none
        | some r ↦
            some (elim r [ err e ↦ (err e, cw) | ok stat ↦ (ok done, record cw { stat = stat }) ])
      ]
    ]
  ]

module _ {Dir Fn Scope L E : Type 0}
    (resolve : Fn
      → Scope
      → StatWalker Dir L
      → String
      → Option (StatError E) × StatWalker Dir L) where
  unfoldable pub stat_all :
      Dir → BuildState Fn Scope → List String → Result (StatError E) (List (Option (Stat L)))
  stat_all root build [] = ok []
  stat_all root build (path ∷ paths) =
      let cw : StatWalker Dir L = record { top = root; below = []; stat = empty } in
      let rest = stat_all root build paths in
      elim (stat_response (resolve build.digest_function build.scope_walker_factory cw path)) [
        | err e ↦ err e
        | ok response ↦ elim rest [ err e ↦ err e | ok responses ↦ ok (response ∷ responses) ]
      ]

  -- BatchStat(). A nil build state would be dereferenced: `none`.
  unfoldable pub batch_stat :
      Service Dir Fn Scope
      → String
      → List String
      → Option (Result NoBuild (Result (StatError E) (List (Option (Stat L)))))
  batch_stat d build_id paths = elim (get_output_path_and_build_state d build_id) [
    | err e ↦ some (err e)
    | ok r ↦ elim r.1 [
      | none ↦ none
      | some build ↦ some (ok (stat_all (d.root_directory r.0) build paths))
    ]
  ]
