-- ===== src/Persistent/Filling/Restored.antt =====
-- restoreDirectoryRecursive() of pkg/filesystem/virtual/persistent_output_path_factory.go on the
-- leaves of a message, against filling a directory with them.
use Prim.Native.String.{String}
use bb_clientd.Prelude.{
  ◌≡◌, inl, inr, refl, sym, ap, ◌∙◌, Bool-cases, Option, none, some, Option-cases, List, [], ◌∷◌,
  ◌++◌, map, append-nil,
}
use bb_clientd.Prelude.Maps.{StringMap, lookup}
use bb_clientd.Prelude.Results.{Result, ok, err, Result-cases}
use bb_clientd.Persistent.Messages.{Directory, FileNode, SymlinkNode, Applied}
use bb_clientd.Persistent.Restore.{
  FileTree, RestoreError, is_taken, unlink_all, file_leaf, symlink_leaf, add_each, initial_nodes,
  restore_leaves, enter_child, create_children_failed,
}
use bb_clientd.Persistent.Filling.{
  file_entry, symlink_entry, make, give_up, hand_over, fill, entered,
}

module _ {W D K P Digest X E : Type 0} (t : FileTree W D K P Digest X) where
  -- The entry that a loop adds for a leaf.
  abbrev added_as :
      String → W × Result (RestoreError E X) K → W × Result (RestoreError E X) (String × K)
  added_as name (w, ok k) = (w, ok (name, k))
  added_as name (w, err e) = (w, err e)

  file_leaf-make :
      (w : W) (nodes : StringMap K) (entry : FileNode P)
      → file_leaf t w nodes entry ≡ added_as entry.name (make t w nodes (file_entry entry))
  unfolding file_leaf make
  file_leaf-make w nodes entry = elim (Bool-cases (t.is_component entry.name)) [
    | inr bad ↦ rw bad refl
    | inl valid ↦ elim (Option-cases (lookup entry.name nodes)) [
      | inr (k, taken) ↦ rw valid (rw (taken, is_taken) refl)
      | inl free ↦ elim (Result-cases (t.new_digest entry.digest)) [
        | inl (digest, fine) ↦ rw valid (rw (free, is_taken) (rw fine refl))
        | inr (x, wrong) ↦ rw valid (rw (free, is_taken) (rw wrong refl))
      ]
    ]
  ]

  symlink_leaf-make :
      (w : W) (nodes : StringMap K) (entry : SymlinkNode)
      → symlink_leaf t w nodes entry ≡ added_as entry.name (make t w nodes (symlink_entry entry))
  unfolding symlink_leaf make
  symlink_leaf-make w nodes entry = elim (Bool-cases (t.is_component entry.name)) [
    | inr bad ↦ rw bad refl
    | inl valid ↦ elim (Option-cases (lookup entry.name nodes)) [
      | inr (k, taken) ↦ rw valid (rw (taken, is_taken) refl)
      | inl free ↦ elim (Option-cases (t.look_up_symlink w entry.target).1) [
        | inr (k, fine) ↦ rw valid (rw (free, is_taken) (rw fine refl))
        | inl wrong ↦ rw valid (rw (free, is_taken) (rw wrong refl))
      ]
    ]
  ]

  give_up-unlink_all :
      (w : W) (made : StringMap K) (e : RestoreError E X)
      → (unlink_all t.unlink w made, err e) ≡ give_up t w made e
  unfolding unlink_all give_up
  give_up-unlink_all w [] e = refl
  give_up-unlink_all w (leaf ∷ made) e = give_up-unlink_all (t.unlink w leaf.1) made e

  -- The end of restoreDirectoryRecursive(), after its loops.
  abbrev finish :
      D → (W × StringMap K × Option (RestoreError E X)) → W × Result (RestoreError E X) (Unit {0})
  finish d (w, nodes, some e) = give_up t w nodes e
  finish d (w, nodes, none) = hand_over t (t.create_children w d nodes) nodes

  abbrev then_loop :
      (W × StringMap K × Option (RestoreError E X))
      → (W → StringMap K → W × StringMap K × Option (RestoreError E X))
      → W × StringMap K × Option (RestoreError E X)
  then_loop (w, nodes, some e) after = (w, nodes, some e)
  then_loop (w, nodes, none) after = after w nodes

  -- A round of a loop, once its leaf is made.
  abbrev added :
      {A : Type 0}
      → (W → StringMap K → A → W × Result (RestoreError E X) (String × K))
      → StringMap K
      → List A
      → W × Result (RestoreError E X) (String × K)
      → W × StringMap K × Option (RestoreError E X)
  added leaf nodes entries (w, err e) = (w, nodes, some e)
  added leaf nodes entries (w, ok entry) = add_each t leaf w (nodes ++ (entry ∷ [])) entries

  -- One loop, in front of what follows it.
  loop-fill :
      {A : Type 0} (leaf : W → StringMap K → A → W × Result (RestoreError E X) (String × K))
      (entry_of : A → String × Applied P) (d : D) (rest : List (String × Applied P))
      (after : W → StringMap K → W × StringMap K × Option (RestoreError E X))
      → ((w : W) (nodes : StringMap K) (a : A)
          → leaf w nodes a ≡ added_as (entry_of a).0 (make t w nodes (entry_of a)))
      → ((w : W) (nodes : StringMap K) → finish d (after w nodes) ≡ fill t d rest w nodes)
      → (entries : List A) (w : W) (nodes : StringMap K)
      → finish d (then_loop (add_each t leaf w nodes entries) after)
        ≡ fill t d (map entry_of entries ++ rest) w nodes
  unfolding add_each fill
  loop-fill leaf entry_of d rest after made ends [] w nodes = ends w nodes
  loop-fill leaf entry_of d rest after made ends (entry ∷ entries) w nodes =
      let (w1, r) = make {E = E} t w nodes (entry_of entry) in
      let name = (entry_of entry).0 in
      let goal = fill t d (entry_of entry ∷ (map entry_of entries ++ rest)) w nodes in
      let adds : (r' : Result (RestoreError E X) K)
          → r ≡ r'
          → finish d (then_loop (add_each t leaf w nodes (entry ∷ entries)) after)
            ≡ finish d (then_loop (added leaf nodes entries (added_as name (w1, r'))) after) =
        λ r' e.
          ap (λ y. finish d (then_loop (added leaf nodes entries y) after))
            (made w nodes entry ∙ ap (λ y. added_as name (w1, y)) e) in
      elim (Result-cases r) [
        | inr (e, failed) ↦
            let gives : give_up t w1 nodes e ≡ goal = rw (failed, fill) refl in
            adds (err e) failed ∙ gives
        | inl (k, fine) ↦
            let fills : fill t d (map entry_of entries ++ rest) w1 (nodes ++ ((name, k) ∷ []))
                ≡ goal =
              rw (fine, fill) refl in
            adds (ok k) fine
            ∙ loop-fill leaf entry_of d rest after made ends entries w1 (nodes ++ ((name, k) ∷ []))
            ∙ fills
      ]

  then_loop-nil :
      (y : W × StringMap K × Option (RestoreError E X))
      → then_loop y (λ w nodes. (w, nodes, none)) ≡ y
  then_loop-nil (w, nodes, none) = refl
  then_loop-nil (w, nodes, some e) = refl

  symlinks-fill :
      (d : D) (entries : List SymlinkNode) (w : W) (nodes : StringMap K)
      → finish d (add_each t (symlink_leaf t) w nodes entries)
        ≡ fill t d (map symlink_entry entries) w nodes
  unfolding fill
  symlinks-fill d entries w nodes =
      ap (finish d) (sym (then_loop-nil (add_each t (symlink_leaf t) w nodes entries)))
      ∙ loop-fill (symlink_leaf t) symlink_entry d [] (λ w' made. (w', made, none))
          symlink_leaf-make (λ w' made. refl) entries w nodes
      ∙ ap (λ made. fill t d made w nodes) (append-nil (map symlink_entry entries))

  initial_nodes-loops :
      (w : W) (m : Directory P)
      → initial_nodes t w m
        ≡ then_loop
            (add_each t (file_leaf t) w [] m.files)
            (λ w1 nodes. add_each t (symlink_leaf t) w1 nodes m.symlinks)
  unfolding initial_nodes
  initial_nodes-loops w m = elim (Option-cases (add_each {E = E} t (file_leaf t) w [] m.files).2) [
    | inl fine ↦ rw (fine, initial_nodes) refl
    | inr (e, failed) ↦ rw (failed, initial_nodes) refl
  ]

  restore_leaves-finish :
      (w : W) (m : Directory P) (d : D) → restore_leaves t w m d ≡ finish d (initial_nodes t w m)
  unfolding restore_leaves
  restore_leaves-finish w m d =
      let (w1, nodes, e) = initial_nodes {E = E} t w m in
      elim (Option-cases e) [
        | inr (e', failed) ↦ rw (failed, restore_leaves) (give_up-unlink_all w1 nodes e')
        | inl fine ↦
            let (w2, x) = t.create_children w1 d nodes in
            elim (Option-cases x) [
              | inl created ↦ rw (fine, restore_leaves) (rw (created, restore_leaves) refl)
              | inr (x', refused) ↦
                  rw (fine, restore_leaves)
                    (rw (refused, restore_leaves)
                      (give_up-unlink_all w2 nodes (create_children_failed x')))
            ]
      ]

  -- The leaves of a message: its files, and then its symbolic links.
  pub restore_leaves-fill :
      (w : W) (m : Directory P) (d : D)
      → restore_leaves {E = E} t w m d
        ≡ fill t d (map file_entry m.files ++ map symlink_entry m.symlinks) w []
  restore_leaves-fill w m d =
      restore_leaves-finish w m d
      ∙ ap (finish d) (initial_nodes-loops w m)
      ∙ loop-fill (file_leaf t) file_entry d (map symlink_entry m.symlinks)
          (λ w1 nodes. add_each t (symlink_leaf t) w1 nodes m.symlinks) file_leaf-make
          (λ w1 nodes. symlinks-fill d m.symlinks w1 nodes) m.files w []

  pub enter_child-entered :
      (w : W) (d : D) (name : String)
      → enter_child {E = E} t w d name ≡ entered t (t.create_and_enter w d name)
  unfolding enter_child
  enter_child-entered w d name = elim (Result-cases (t.create_and_enter w d name).1) [
    | inl (d', fine) ↦ rw (fine, enter_child) refl
    | inr (x, failed) ↦ rw (failed, enter_child) refl
  ]
