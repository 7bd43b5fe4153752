-- ===== src/OutputService/Stat/Names.antt =====
-- What the stat walker of pkg/filesystem/virtual/bazel_output_service_directory.go is to answer:
-- looking up names from the root of the output path.
use Prim.Native.String.{String}
use bb_clientd.Prelude.{◌≡◌, Option, none, some, List, [], ◌∷◌}
use bb_clientd.Prelude.Results.{Result, ok, err}
use bb_clientd.OutputService.Stat.{
  Stat, StatError, not_a_directory, Node, a_directory, a_leaf, Files, StatWalker, Next, continues,
  done, leaves, got_symlink, on_relative, on_absolute, on_up, on_directory, on_terminal,
}

module _ {Dir Leaf L Fn E : Type 0} (files : Files Dir Leaf L Fn E) (root : Dir) where
  -- What the names, the innermost first, lead to from the root. There is nothing below a leaf.
  abbrev pub find_in :
      Result (StatError E) (Node Dir Leaf) → String → Result (StatError E) (Node Dir Leaf)
  find_in (err e) name = err e
  find_in (ok (a_leaf leaf)) name = err not_a_directory
  find_in (ok (a_directory dir)) name = files.lookup_child dir name

  unfoldable pub find : List String → Result (StatError E) (Node Dir Leaf)
  find [] = ok (a_directory root)
  find (name ∷ names) = find_in (find names) name

  -- The names that remain after "..": the root has no parent in the output path.
  abbrev pub parent : List String → List String
  parent [] = []
  parent (name ∷ names) = names

  -- A name is entered if it leads to a directory.
  abbrev pub entered : Result (StatError E) (Node Dir Leaf) → String → List String → List String
  entered (err e) name names = names
  entered (ok (a_leaf leaf)) name names = names
  entered (ok (a_directory dir)) name names = name ∷ names

  -- Where ".." and a name lead to.
  abbrev pub going_up : List String → Next
  going_up [] = leaves
  going_up (name ∷ names) = continues

  abbrev pub going_down : Result (StatError E) (Node Dir Leaf) → Result (StatError E) Next
  going_down (err e) = err e
  going_down (ok (a_directory dir)) = ok continues
  going_down (ok (a_leaf leaf)) = elim (files.symlink_target leaf) [
    | none ↦ err not_a_directory
    | some target ↦ ok (got_symlink target)
  ]

  -- What the last name of a path shows: for a directory, the stat stays as it was.
  abbrev pub ending :
      Fn
      → Stat L
      → Result (StatError E) (Node Dir Leaf)
      → Option (Result (StatError E) Next × Stat L)
  ending fn stat (err e) = some (err e, stat)
  ending fn stat (ok (a_directory dir)) = some (ok done, stat)
  ending fn stat (ok (a_leaf leaf)) = elim (files.stat_leaf fn leaf) [
    | none ↦ none
    | some r ↦ some (elim r [ err e ↦ (err e, stat) | ok of_leaf ↦ (ok done, of_leaf) ])
  ]

  abbrev pub shown :
      Option (Result (StatError E) Next × StatWalker Dir L)
      → Option (Result (StatError E) Next × Stat L)
  shown none = none
  shown (some (r, cw)) = some (r, cw.stat)

  -- The sequences of calls that a resolver can make of the walker, with the names that they have
  -- led to.
  pub data Walked : List String → StatWalker Dir L → Type 0 where
    start :
        {names : List String} {cw : StatWalker Dir L}
        → names ≡ []
        → cw.top ≡ root
        → cw.below ≡ []
        → Walked names cw
    relative :
        {names : List String} {cw : StatWalker Dir L}
        → Walked names cw
        → Walked names (on_relative {E = E} cw).1
    absolute :
        {names names' : List String} {cw : StatWalker Dir L}
        → Walked names cw
        → names' ≡ []
        → Walked names' (on_absolute {E = E} cw).1
    up :
        {names : List String} {cw : StatWalker Dir L}
        → Walked names cw
        → Walked (parent names) (on_up {E = E} cw).1
    directory :
        {names : List String} {cw : StatWalker Dir L} (name : String)
        → Walked names cw
        → Walked (entered (find (name ∷ names)) name names) (on_directory files cw name).1
    terminal :
        {names : List String} {cw : StatWalker Dir L} (fn : Fn) (name : String)
        (r : Result (StatError E) Next) (cw' : StatWalker Dir L)
        → Walked names cw
        → on_terminal files fn cw name ≡ some (r, cw')
        → Walked (entered (find (name ∷ names)) name names) cw'
