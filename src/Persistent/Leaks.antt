-- ===== src/Persistent/Leaks.antt =====
-- The deferred function of restoreDirectoryRecursive() in
-- pkg/filesystem/virtual/persistent_output_path_factory.go: no leaf that was looked up is leaked.
use Prim.Native.String.{String}
use mathlib.Core.Path.{subst}
use bb_clientd.Prelude.{
  ℕ, suc, ◌+◌, ◌-◌, ◌≡◌, inl, inr, refl, Bool, Bool-cases, Option, none, some, Option-cases, List,
  [], ◌∷◌, ◌++◌, length, length-append, arith,
}
use bb_clientd.Prelude.Maps.{StringMap}
use bb_clientd.Prelude.Results.{Result, Result-cases, ok, err}
use bb_clientd.Persistent.Messages.{Directory}
use bb_clientd.Persistent.Restore.{
  FileTree, RestoreError, is_taken, unlink_all, file_leaf, symlink_leaf, add_each, initial_nodes,
  restore_leaves,
}

-- What the factories of leaves do to the number of leaves that are in use: looking one up adds it,
-- Unlink() takes it away, and CreateChildren() changes nothing.
pub record CountsLeaves {W D K P Digest X : Type 0} (t : FileTree W D K P Digest X) (live : W → ℕ)
    : Type 0 where
  pub file_lem :
      (w : W) (digest : Digest) (x : Bool) → live (t.look_up_file w digest x).0 ≡ suc (live w)
  pub symlink_found :
      (w : W) (target : String) (k : K)
      → (t.look_up_symlink w target).1 ≡ some k
      → live (t.look_up_symlink w target).0 ≡ suc (live w)
  pub symlink_missing :
      (w : W) (target : String)
      → (t.look_up_symlink w target).1 ≡ none
      → live (t.look_up_symlink w target).0 ≡ live w
  pub unlink_lem : (w : W) (k : K) → live (t.unlink w k) ≡ live w - 1
  pub create_lem :
      (w : W) (d : D) (nodes : StringMap K) → live (t.create_children w d nodes).0 ≡ live w

-- The leaves that a result holds.
abbrev pub held_by : {E A : Type 0} → ℕ → Result E A → ℕ
held_by n (ok a) = n
held_by n (err e) = 0

-- The entries that a loop which has not failed has gone through.
abbrev GoneThrough : {E : Type 0} → ℕ → ℕ → Option E → Type 0
GoneThrough m n none = m ≡ n
GoneThrough m n (some e) = Unit

module _ {W D K P Digest X : Type 0} (t : FileTree W D K P Digest X) (live : W → ℕ)
    (law : CountsLeaves t live) where
  unlink_all-live :
      (w : W) (nodes : StringMap K) → live (unlink_all t.unlink w nodes) ≡ live w - length nodes
  unfolding unlink_all
  unlink_all-live w [] = omega arith
  unlink_all-live w (n ∷ nodes) =
      omega (arith, unlink_all-live (t.unlink w n.1) nodes, law.unlink_lem w n.1)

module _ {W D K P Digest X : Type 0} (E : Type 0) (t : FileTree W D K P Digest X) (live : W → ℕ)
    (law : CountsLeaves t live) where
  -- One round adds the leaf that it returns.
  abbrev Adds :
      {A : Type 0} → (W → StringMap K → A → W × Result (RestoreError E X) (String × K)) → Type 0
  Adds {A = A} leaf =
      (w : W) (nodes : StringMap K) (entry : A)
      → live (leaf w nodes entry).0 ≡ live w + held_by 1 (leaf w nodes entry).1

  file_leaf-Adds : Adds (file_leaf t)
  unfolding file_leaf
  file_leaf-Adds w nodes entry = elim (Bool-cases (t.is_component entry.name)) [
    | inr bad ↦ rw (bad, file_leaf) (omega arith)
    | inl good ↦ elim (Bool-cases (is_taken entry.name nodes)) [
      | inl taken ↦ rw (good, taken, file_leaf) (omega arith)
      | inr free ↦ elim (Result-cases (t.new_digest entry.digest)) [
        | inr (x, failed) ↦ rw (good, free, failed, file_leaf) (omega arith)
        | inl (digest, found) ↦
            rw (good, free, found, file_leaf)
              (omega (arith, law.file_lem w digest entry.is_executable))
      ]
    ]
  ]

  symlink_leaf-Adds : Adds (symlink_leaf t)
  unfolding symlink_leaf
  symlink_leaf-Adds w nodes entry = elim (Bool-cases (t.is_component entry.name)) [
    | inr bad ↦ rw (bad, symlink_leaf) (omega arith)
    | inl good ↦ elim (Bool-cases (is_taken entry.name nodes)) [
      | inl taken ↦ rw (good, taken, symlink_leaf) (omega arith)
      | inr free ↦ elim (Option-cases (t.look_up_symlink w entry.target).1) [
        | inl missing ↦
            rw (good, free, missing, symlink_leaf)
              (omega (arith, law.symlink_missing w entry.target missing))
        | inr (k, found) ↦
            rw (good, free, found, symlink_leaf)
              (omega (arith, law.symlink_found w entry.target k found))
      ]
    ]
  ]

  -- What a loop has looked up is in its map.
  add_each-live :
      {A : Type 0} (leaf : W → StringMap K → A → W × Result (RestoreError E X) (String × K))
      → Adds leaf
      → (entries : List A) (w : W) (nodes : StringMap K)
      → (live (add_each t leaf w nodes entries).0 + length nodes
          ≡ live w + length (add_each t leaf w nodes entries).1)
        × GoneThrough
            (length (add_each t leaf w nodes entries).1)
            (length nodes + length entries)
            (add_each t leaf w nodes entries).2
  unfolding add_each
  add_each-live leaf adds [] w nodes = (refl, omega arith)
  add_each-live leaf adds (entry ∷ entries) w nodes =
      let (w1, r) = leaf w nodes entry in
      elim (Result-cases r) [
        | inr (e, failed) ↦
            let same : live w1 ≡ live w = omega (arith, rw failed at (adds w nodes entry)) in
            rw (failed, add_each) (omega (arith, same), tt)
        | inl (k, fine) ↦
            let more : live w1 ≡ live w + 1 = omega (arith, rw fine at (adds w nodes entry)) in
            let (rest, through) = add_each-live leaf adds entries w1 (nodes ++ (k ∷ [])) in
            let grown = length-append nodes (k ∷ []) in
            rw (fine, add_each)
              (
                omega (arith, more, rest, grown),
                subst
                    (λ n.
                      GoneThrough (length (add_each t leaf w1 (nodes ++ (k ∷ [])) entries).1) n
                        (add_each t leaf w1 (nodes ++ (k ∷ [])) entries).2)
                    (omega (arith, grown)) through,
              )
      ]

  initial_nodes-live :
      (w : W) (m : Directory P)
      → (live (initial_nodes {E = E} t w m).0 ≡ live w + length (initial_nodes {E = E} t w m).1)
        × GoneThrough
            (length (initial_nodes {E = E} t w m).1)
            (length m.files + length m.symlinks)
            (initial_nodes {E = E} t w m).2
  unfolding initial_nodes
  initial_nodes-live w m =
      let (w1, nodes, e) = add_each {E = E} t (file_leaf t) w [] m.files in
      let (size, through) = add_each-live (file_leaf t) file_leaf-Adds m.files w [] in
      let (size2, through2) =
        add_each-live (symlink_leaf t) symlink_leaf-Adds m.symlinks w1 nodes in
      elim (Option-cases e) [
        | inr (e', failed) ↦ rw (failed, initial_nodes) (omega (arith, size), tt)
        | inl fine ↦
            let all : length nodes ≡ 0 + length m.files = rw fine at through in
            rw (fine, initial_nodes)
              (
                omega (arith, size, size2),
                subst
                    (λ n.
                      GoneThrough
                        (length (add_each {E = E} t (symlink_leaf t) w1 nodes m.symlinks).1) n
                        (add_each {E = E} t (symlink_leaf t) w1 nodes m.symlinks).2)
                    (omega (arith, all)) through2,
              )
      ]

  -- Where looking up a leaf adds one to the leaves in use and Unlink() takes one away: after the
  -- second half of restoreDirectoryRecursive(), an error leaves as many leaves in use as before,
  -- and success adds one for each file and symbolic link of the message.
  pub restore_leaves-live :
      (w : W) (m : Directory P) (d : D)
      → live (restore_leaves {E = E} t w m d).0
        ≡ live w + held_by (length m.files + length m.symlinks) (restore_leaves {E = E} t w m d).1
  unfolding restore_leaves
  restore_leaves-live w m d =
      let (w1, nodes, e) = initial_nodes {E = E} t w m in
      let (size, through) = initial_nodes-live w m in
      let (w2, x) = t.create_children w1 d nodes in
      elim (Option-cases e) [
        | inr (e', failed) ↦
            rw (failed, restore_leaves) (omega (arith, size, unlink_all-live t live law w1 nodes))
        | inl fine ↦
            let all : length nodes ≡ length m.files + length m.symlinks = rw fine at through in
            elim (Option-cases x) [
              | inr (x', refused) ↦
                  rw (fine, refused, restore_leaves)
                    (omega
                      (arith, size, law.create_lem w1 d nodes, unlink_all-live t live law w2 nodes))
              | inl created ↦
                  rw (fine, created, restore_leaves)
                    (omega (arith, size, law.create_lem w1 d nodes, all))
            ]
      ]
