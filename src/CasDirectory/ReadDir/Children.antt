-- ===== src/CasDirectory/ReadDir/Children.antt =====
-- VirtualReadDir() of pkg/filesystem/virtual/cas_directory.go against one loop over all children.
use bb_clientd.Prelude.{
  ℕ, ◌+◌, ◌-◌, ◌≡◌, refl, sym, ap, ◌∙◌, Bool, Option, none, some, List, [], ◌∷◌, ◌++◌, map, arith,
  length, drop, length-drop,
}
use bb_clientd.Prelude.Results.{Result, ok, err}
use bb_clientd.Vfs.{Status}
use bb_clientd.CasDirectory.{DirectoryNode, FileNode, SymlinkNode, Directory, Child, Context}
use bb_clientd.CasDirectory.ReadDir.Nodes.{
  Node, a_directory, a_file, a_symlink, number, children, by_cases, and_then_assoc, and_then-cong,
  drop-children,
}
use bb_clientd.CasDirectory.ReadDir.{
  directory_child, file_child, symlink_child, report_child, report_directories, report_files,
  report_symlinks, after, and_then, report_contents, virtual_read_dir,
}

-- The status of a call that no child has ended.
abbrev pub status_of : Option Status → Status
status_of none = Status.ok
status_of (some s) = s

module _ {W M Digest Dir Leaf Symlink : Type 0} (context : Context W M Digest Dir Leaf Symlink)
    (report : W → ℕ → List ℕ → Child Dir Leaf → Bool × W) where
  abbrev pub node_child : Node M → W → Result Status (List ℕ × Child Dir Leaf) × W
  node_child (a_directory e) w = directory_child context e w
  node_child (a_file e) w = file_child context e w
  node_child (a_symlink i e) w = symlink_child context i e w

  -- One loop over children, the first of which has the cookie given.
  abbrev pub report_nodes : ℕ → List (Node M) → W → Option Status × W
  report_nodes cookie [] w = (none, w)
  report_nodes cookie (e ∷ es) w =
      let (s, w) = report_child context report cookie (node_child e w) in
      let rest = report_nodes (cookie + 1) es w in
      elim s [ none ↦ rest | some status ↦ (some status, w) ]

  report_nodes-step :
      (c : ℕ) (e : Node M) (es : List (Node M)) (w : W)
      → report_nodes c (e ∷ es) w
        ≡ and_then (report_child context report c (node_child e w)) (report_nodes (c + 1) es)
  report_nodes-step c e es w =
      by_cases (report_child context report c (node_child e w)) (report_nodes (c + 1) es)

  report_directories-nodes :
      (offset i c : ℕ) (es : List (DirectoryNode M)) (rest : List (Node M)) (w : W)
      → offset + i ≡ c
      → and_then
          (report_directories context report offset i es w)
          (report_nodes (c + length es) rest)
        ≡ report_nodes c (map a_directory es ++ rest) w
  unfolding report_directories
  report_directories-nodes offset i c [] rest w h = ap (λ k. report_nodes k rest w) (omega arith)
  report_directories-nodes offset i c (e ∷ es) rest w h =
      let turn : ℕ → Option Status × W =
        λ k. report_child context report k (directory_child context e w) in
      let loop = report_directories context report offset (i + 1) es in
      let after_it = report_nodes (c + length (e ∷ es)) rest in
      let count : (c + 1) + length es ≡ c + length (e ∷ es) = omega arith in
      let next : offset + (i + 1) ≡ c + 1 = omega arith in
      ap (λ t. and_then t after_it) (by_cases (turn (offset + i)) loop)
      ∙ and_then_assoc (turn (offset + i)) loop after_it
      ∙ ap (λ k. and_then (turn k) (λ v. and_then (loop v) after_it)) h
      ∙ ap (λ k. and_then (turn c) (λ v. and_then (loop v) (report_nodes k rest))) (sym count)
      ∙ and_then-cong (turn c) (λ v. and_then (loop v) (report_nodes ((c + 1) + length es) rest))
          (report_nodes (c + 1) (map a_directory es ++ rest))
          (λ v. report_directories-nodes offset (i + 1) (c + 1) es rest v next)
      ∙ sym (report_nodes-step c (a_directory e) (map a_directory es ++ rest) w)

  report_files-nodes :
      (offset i c : ℕ) (es : List (FileNode M)) (rest : List (Node M)) (w : W)
      → offset + i ≡ c
      → and_then (report_files context report offset i es w) (report_nodes (c + length es) rest)
        ≡ report_nodes c (map a_file es ++ rest) w
  unfolding report_files
  report_files-nodes offset i c [] rest w h = ap (λ k. report_nodes k rest w) (omega arith)
  report_files-nodes offset i c (e ∷ es) rest w h =
      let turn : ℕ → Option Status × W =
        λ k. report_child context report k (file_child context e w) in
      let loop = report_files context report offset (i + 1) es in
      let after_it = report_nodes (c + length (e ∷ es)) rest in
      let count : (c + 1) + length es ≡ c + length (e ∷ es) = omega arith in
      let next : offset + (i + 1) ≡ c + 1 = omega arith in
      ap (λ t. and_then t after_it) (by_cases (turn (offset + i)) loop)
      ∙ and_then_assoc (turn (offset + i)) loop after_it
      ∙ ap (λ k. and_then (turn k) (λ v. and_then (loop v) after_it)) h
      ∙ ap (λ k. and_then (turn c) (λ v. and_then (loop v) (report_nodes k rest))) (sym count)
      ∙ and_then-cong (turn c) (λ v. and_then (loop v) (report_nodes ((c + 1) + length es) rest))
          (report_nodes (c + 1) (map a_file es ++ rest))
          (λ v. report_files-nodes offset (i + 1) (c + 1) es rest v next)
      ∙ sym (report_nodes-step c (a_file e) (map a_file es ++ rest) w)

  report_symlinks-nodes :
      (offset i c : ℕ) (es : List SymlinkNode) (w : W)
      → offset + i ≡ c
      → report_symlinks context report offset i es w ≡ report_nodes c (number i es) w
  unfolding report_symlinks
  report_symlinks-nodes offset i c [] w h = refl
  report_symlinks-nodes offset i c (e ∷ es) w h =
      let turn : ℕ → Option Status × W =
        λ k. report_child context report k (symlink_child context i e w) in
      let loop = report_symlinks context report offset (i + 1) es in
      let next : offset + (i + 1) ≡ c + 1 = omega arith in
      by_cases (turn (offset + i)) loop
      ∙ ap (λ k. and_then (turn k) loop) h
      ∙ and_then-cong (turn c) loop (report_nodes (c + 1) (number (i + 1) es))
          (λ v. report_symlinks-nodes offset (i + 1) (c + 1) es v next)
      ∙ sym (report_nodes-step c (a_symlink i e) (number (i + 1) es) w)

  -- The three loops together.
  report_contents-nodes :
      (directory : Directory M) (first : ℕ) (w : W)
      → report_contents context report directory first w
        ≡ report_nodes (first + 1) (drop first (children directory)) w
  unfolding report_contents
  report_contents-nodes directory first w =
      let ds = directory.directories in
      let fs = directory.files in
      let ss = directory.symlinks in
      let n = length ds in
      let m = length fs in
      let j = after first n - n in
      let k = after j m - m in
      let c : (1 + n) + j ≡ (first + 1) + length (drop first ds) =
        omega (arith, length-drop first ds) in
      let c' : ((1 + n) + m) + k ≡ ((1 + n) + j) + length (drop j fs) =
        omega (arith, length-drop j fs) in
      let left : List (Node M) = map a_file (drop j fs) ++ number k (drop k ss) in
      and_then-cong (report_directories context report 1 first (drop first ds) w)
        (λ v.
          and_then (report_files context report (1 + n) j (drop j fs) v)
            (report_symlinks context report ((1 + n) + m) k (drop k ss)))
        (report_nodes ((first + 1) + length (drop first ds)) left)
        (λ v.
          and_then-cong (report_files context report (1 + n) j (drop j fs) v)
            (report_symlinks context report ((1 + n) + m) k (drop k ss))
            (report_nodes (((1 + n) + j) + length (drop j fs)) (number k (drop k ss)))
            (λ u.
              report_symlinks-nodes ((1 + n) + m) k (((1 + n) + j) + length (drop j fs)) (drop k ss)
                u c')
          ∙ report_files-nodes (1 + n) j ((1 + n) + j) (drop j fs) (number k (drop k ss)) v refl
          ∙ ap (λ i. report_nodes i left v) c)
      ∙ report_directories-nodes 1 first (first + 1) (drop first ds) left w (omega arith)
      ∙ ap (λ l. report_nodes (first + 1) l w) (sym (drop-children first directory))

  -- VirtualReadDir() from any cookie on, on a Directory message that could be loaded: the children
  -- from that index on are reported, directories before files before symbolic links, each with one
  -- more than its index as the cookie to go on with, until the reporter wants no more or a child
  -- cannot be reported. The status is that of the child, and OK otherwise.
  pub virtual_read_dir-eq-report_nodes :
      (directory : Directory M) (first_cookie : ℕ) (w w' : W)
      → context.get_directory_contents w ≡ (ok directory, w')
      → let (s, v) = report_nodes (first_cookie + 1) (drop first_cookie (children directory)) w' in
        virtual_read_dir context report first_cookie w ≡ (status_of s, v)
  unfolding virtual_read_dir
  virtual_read_dir-eq-report_nodes directory first w w' loads =
      ap (λ (t : Result Status (Directory M) × W). after_load t) loads
      ∙ finish (report_contents context report directory first w')
      ∙ ap (λ t. (status_of t.0, t.1)) (report_contents-nodes directory first w')
    where
      after_load : Result Status (Directory M) × W → Status × W
      after_load t = elim t.0 [
        | err s ↦ (s, t.1)
        | ok d ↦
            let (s, v) = report_contents context report d first t.1 in
            elim s [ none ↦ (Status.ok, v) | some status ↦ (status, v) ]
      ]

      finish :
          (t : Option Status × W)
          → elim t.0 as (λ s. Status × W) [ none ↦ (Status.ok, t.1) | some status ↦ (status, t.1) ]
            ≡ (status_of t.0, t.1)
      finish (none, v) = refl
      finish (some s, v) = refl
