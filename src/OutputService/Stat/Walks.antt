-- ===== src/OutputService/Stat/Walks.antt =====
-- Where the stat walker of pkg/filesystem/virtual/bazel_output_service_directory.go is: its stack
-- of directories against looking up names from the root of the output path.
use Prim.Native.String.{String}
use bb_clientd.Prelude.{◌≡◌, refl, sym, ap, ◌∙◌, inl, inr, some, List, [], ◌∷◌, Option-cases}
use bb_clientd.Prelude.Results.{Result, ok, err, Result-cases}
use bb_clientd.OutputService.Stat.{
  StatError, Node, a_directory, a_leaf, Files, StatWalker, Next, pop_all, on_relative, on_absolute,
  on_up, on_directory, on_terminal, push,
}
use bb_clientd.OutputService.Stat.Names.{
  find_in, find, parent, entered, going_up, going_down, ending, shown, Walked, start, relative,
  absolute, up, directory, terminal,
}

module _ {Dir Leaf L Fn E : Type 0} (files : Files Dir Leaf L Fn E) (root : Dir) where
  -- The stack has the directory of each name, above that of the names before it.
  abbrev Stacked : List String → Dir → List Dir → Type 0
  Stacked [] top below = (top ≡ root) × (below ≡ [])
  Stacked (name ∷ names) top below =
      (find files root (name ∷ names) ≡ ok (a_directory top))
      × (dir : Dir) × (dirs : List Dir) × (below ≡ dir ∷ dirs)
      × Stacked names dir dirs

  Stacked-find :
      (names : List String) (top : Dir) (below : List Dir)
      → Stacked names top below
      → find files root names ≡ ok (a_directory top)
  unfolding find
  Stacked-find [] top below (here, _) = ap (λ d. ok (a_directory d)) (sym here)
  Stacked-find (name ∷ names) top below (here, _, _, _, _) = here

  find-cons :
      (name : String) (names : List String)
      → find files root (name ∷ names) ≡ find_in files root (find files root names) name
  unfolding find
  find-cons name names = refl

  -- Below the directory at the top there is what is looked up in it.
  find-top :
      (names : List String) (top : Dir) (below : List Dir) (name : String)
      → Stacked names top below
      → find files root (name ∷ names) ≡ files.lookup_child top name
  find-top names top below name s =
      find-cons name names ∙ ap (λ r. find_in files root r name) (Stacked-find names top below s)

  Stacked-pop_all :
      (names : List String) (top : Dir) (below : List Dir)
      → Stacked names top below
      → pop_all top below ≡ root
  unfolding pop_all
  Stacked-pop_all [] top below (here, none_below) = rw none_below here
  Stacked-pop_all (name ∷ names) top below (_, dir, dirs, e, s) =
      rw e (Stacked-pop_all names dir dirs s)

  on_up-Stacked :
      (names : List String) (cw : StatWalker Dir L)
      → Stacked names cw.top cw.below
      → let (r, cw') = on_up {E = E} cw in
        Stacked (parent files root names) cw'.top cw'.below × (r ≡ ok (going_up files root names))
  unfolding on_up
  on_up-Stacked [] cw (here, none_below) = rw (none_below, on_up) ((here, none_below), refl)
  on_up-Stacked (name ∷ names) cw (_, dir, dirs, e, s) = rw (e, on_up) (s, refl)

  on_directory-Stacked :
      (names : List String) (cw : StatWalker Dir L) (name : String)
      (r : Result (StatError E) (Node Dir Leaf))
      → Stacked names cw.top cw.below
      → files.lookup_child cw.top name ≡ r
      → let (next, cw') = on_directory files cw name in
        Stacked (entered files root r name names) cw'.top cw'.below
        × (next ≡ going_down files root r)
  unfolding on_directory push
  on_directory-Stacked names cw name (err e) s found = rw (found, on_directory) (s, refl)
  on_directory-Stacked names cw name (ok (a_directory dir)) s found =
      rw (found, on_directory)
        ((find-top names cw.top cw.below name s ∙ found, cw.top, cw.below, refl, s), refl)
  on_directory-Stacked names cw name (ok (a_leaf leaf)) s found =
      elim (Option-cases (files.symlink_target leaf)) [
        | inl e ↦ rw (found, on_directory) (rw (e, going_down) (s, refl))
        | inr (target, e) ↦ rw (found, on_directory) (rw (e, going_down) (s, refl))
      ]

  on_terminal-ending :
      (cw : StatWalker Dir L) (fn : Fn) (name : String) (r : Result (StatError E) (Node Dir Leaf))
      → files.lookup_child cw.top name ≡ r
      → shown files root (on_terminal files fn cw name) ≡ ending files root fn cw.stat r
  unfolding on_terminal push
  on_terminal-ending cw fn name (err e) found = rw (found, on_terminal) refl
  on_terminal-ending cw fn name (ok (a_directory dir)) found = rw (found, on_terminal) refl
  on_terminal-ending cw fn name (ok (a_leaf leaf)) found =
      elim (Option-cases (files.stat_leaf fn leaf)) [
        | inl e ↦ rw (found, on_terminal) (rw (e, ending) refl)
        | inr (r, e) ↦ elim (Result-cases r) [
          | inl (stat, f) ↦ rw (found, on_terminal) (rw (e, ending) (rw f refl))
          | inr (x, f) ↦ rw (found, on_terminal) (rw (e, ending) (rw f refl))
        ]
      ]

  on_terminal-Stacked :
      (names : List String) (cw cw' : StatWalker Dir L) (fn : Fn) (name : String)
      (r : Result (StatError E) (Node Dir Leaf)) (next : Result (StatError E) Next)
      → Stacked names cw.top cw.below
      → files.lookup_child cw.top name ≡ r
      → on_terminal files fn cw name ≡ some (next, cw')
      → Stacked (entered files root r name names) cw'.top cw'.below
  unfolding on_terminal push
  on_terminal-Stacked names cw cw' fn name (err e) next s found end =
      let same : cw ≡ cw' = cc (rw (found, on_terminal) at end) in rw (← same) s
  on_terminal-Stacked names cw cw' fn name (ok (a_directory dir)) next s found end =
      let same : push files cw dir ≡ cw' = cc (rw (found, on_terminal) at end) in
      rw (← same) (find-top names cw.top cw.below name s ∙ found, cw.top, cw.below, refl, s)
  on_terminal-Stacked names cw cw' fn name (ok (a_leaf leaf)) next s found end =
      elim (Option-cases (files.stat_leaf fn leaf)) [
        | inl e ↦ cc (rw e at (rw (found, on_terminal) at end))
        | inr (r, e) ↦ elim (Result-cases r) [
          | inl (stat, f) ↦
              let same : record cw { stat = stat } ≡ cw' =
                cc (rw f at (rw e at (rw (found, on_terminal) at end))) in
              rw (← same) s
          | inr (x, f) ↦
              let same : cw ≡ cw' = cc (rw f at (rw e at (rw (found, on_terminal) at end))) in
              rw (← same) s
        ]
      ]

  Walked-Stacked :
      (names : List String) (cw : StatWalker Dir L)
      → Walked files root names cw
      → Stacked names cw.top cw.below
  unfolding on_relative on_absolute
  Walked-Stacked names cw (start none_yet at_root none_below) = rw none_yet (at_root, none_below)
  Walked-Stacked _ _ (relative {names} {cw} w) = Walked-Stacked names cw w
  Walked-Stacked _ _ (absolute {names} {names'} {cw} w none_left) =
      rw none_left (Stacked-pop_all names cw.top cw.below (Walked-Stacked names cw w), refl)
  Walked-Stacked _ _ (up {names} {cw} w) = (on_up-Stacked names cw (Walked-Stacked names cw w)).0
  Walked-Stacked _ _ (directory {names} {cw} name w) =
      let s = Walked-Stacked names cw w in
      rw (find-top names cw.top cw.below name s)
        (on_directory-Stacked names cw name (files.lookup_child cw.top name) s refl).0
  Walked-Stacked _ _ (terminal {names} {cw} fn name r cw' w end) =
      let s = Walked-Stacked names cw w in
      rw (find-top names cw.top cw.below name s)
        (on_terminal-Stacked names cw cw' fn name (files.lookup_child cw.top name) r s refl end)

  -- Whatever calls the resolver makes of the stat walker, the walker stands at the directory that
  -- its names lead to from the root of the output path: ".." takes off the last name, a name that
  -- leads to a directory is put on, and an absolute path takes off all names. There, ".." leaves
  -- the walker at the root and goes on with it elsewhere; a name goes on with the walker where it
  -- leads to a directory from the root, gives the target where it leads to a symbolic link, and
  -- fails otherwise; and the last name of a path shows what it leads to from the root.
  pub Walked-find :
      (names : List String) (cw : StatWalker Dir L) (fn : Fn) (name : String)
      → Walked files root names cw
      → (find files root names ≡ ok (a_directory cw.top))
        × ((on_up {E = E} cw).0 ≡ ok (going_up files root names))
        × ((on_directory files cw name).0 ≡ going_down files root (find files root (name ∷ names)))
        × (shown files root (on_terminal files fn cw name)
            ≡ ending files root fn cw.stat (find files root (name ∷ names)))
  Walked-find names cw fn name w =
      let s = Walked-Stacked names cw w in
      let below = find-top names cw.top cw.below name s in
      let child = files.lookup_child cw.top name in
      (
        Stacked-find names cw.top cw.below s,
        (on_up-Stacked names cw s).1,
        rw below (on_directory-Stacked names cw name child s refl).1,
        rw below (on_terminal-ending cw fn name child refl),
      )
