-- ===== src/Persistent/Leaves.antt =====
-- Which leaves saveDirectoryRecursive() of pkg/filesystem/virtual/persistent_output_path_factory.go
-- appends to a message.
use Prim.Native.String.{String}
use text.Mathlib.Text.{◌==◌ as str_eq}
use bb_clientd.Prelude.{
  ◌≡◌, refl, sym, ap, ◌∙◌, inl, inr, Bool, ◌&&◌, ◌||◌, Bool-cases, Option, none, some, Option-cases,
  List, [], ◌∷◌, ◌++◌, append-nil, append_assoc, if◌then◌else◌,
}
use bb_clientd.Persistent.Messages.{Directory, FileNode, SymlinkNode, Applied, file, symlink}
use bb_clientd.Persistent.Save.{append_leaf, append_if_kept, append_leaves}

-- Of the root directory, the files that Bazel keeps writing to are left out.
abbrev pub left_out : Bool → String → Bool
left_out root name = root && (str_eq name "stable-status.txt" || str_eq name "volatile-status.txt")

module _ {L P : Type 0} (apply : L → Option (Applied P)) where
  abbrev pub file_node_of : String → Option (Applied P) → List (FileNode P)
  file_node_of name none = []
  file_node_of name (some (file p x)) = record { name = name; digest = p; is_executable = x } ∷ []
  file_node_of name (some (symlink target)) = []

  abbrev pub symlink_node_of : String → Option (Applied P) → List SymlinkNode
  symlink_node_of name none = []
  symlink_node_of name (some (file p x)) = []
  symlink_node_of name (some (symlink target)) = record { name = name; target = target } ∷ []

  -- The files and the symbolic links among the leaves, in order, less the status files of the root.
  abbrev pub files_of : Bool → List (String × L) → List (FileNode P)
  files_of root [] = []
  files_of root (leaf ∷ leaves) =
      (if left_out root leaf.0 then [] else file_node_of leaf.0 (apply leaf.1))
      ++ files_of root leaves

  abbrev pub symlinks_of : Bool → List (String × L) → List SymlinkNode
  symlinks_of root [] = []
  symlinks_of root (leaf ∷ leaves) =
      (if left_out root leaf.0 then [] else symlink_node_of leaf.0 (apply leaf.1))
      ++ symlinks_of root leaves

  append_leaf-nodes :
      (leaf : String × L) (a : Applied P) (m : Directory P)
      → apply leaf.1 ≡ some a
      → ((append_leaf leaf.0 a m).directories ≡ m.directories)
        × ((append_leaf leaf.0 a m).files ≡ m.files ++ file_node_of leaf.0 (apply leaf.1))
        × ((append_leaf leaf.0 a m).symlinks ≡ m.symlinks ++ symlink_node_of leaf.0 (apply leaf.1))
  append_leaf-nodes leaf (file p x) m e = rw e (refl, refl, sym (append-nil m.symlinks))
  append_leaf-nodes leaf (symlink target) m e = rw e (refl, sym (append-nil m.files), refl)

  append_if_kept-nodes :
      (root : Bool) (leaf : String × L) (m m' : Directory P)
      → append_if_kept apply root leaf m ≡ some m'
      → (m'.directories ≡ m.directories)
        × (m'.files
            ≡ m.files ++ (if left_out root leaf.0 then [] else file_node_of leaf.0 (apply leaf.1)))
        × (m'.symlinks
            ≡ m.symlinks
              ++ (if left_out root leaf.0 then [] else symlink_node_of leaf.0 (apply leaf.1)))
  unfolding append_if_kept
  append_if_kept-nodes root leaf m m' e = elim (Bool-cases (left_out root leaf.0)) [
    | inl skip ↦
        let same : m ≡ m' = cc (rw (skip, append_if_kept) at e) in
        rw (skip, ← same) (refl, sym (append-nil m.files), sym (append-nil m.symlinks))
    | inr keep ↦ elim (Option-cases (apply leaf.1)) [
      | inl panics ↦ cc (rw (keep, panics, append_if_kept) at e)
      | inr (a, found) ↦
          let same : append_leaf leaf.0 a m ≡ m' = cc (rw (keep, found, append_if_kept) at e) in
          rw (keep, ← same) (append_leaf-nodes leaf a m found)
    ]
  ]

  -- The loop appends these leaves, and nothing else.
  pub append_leaves-nodes :
      (root : Bool) (leaves : List (String × L)) (m m' : Directory P)
      → append_leaves apply root leaves m ≡ some m'
      → (m'.directories ≡ m.directories)
        × (m'.files ≡ m.files ++ files_of root leaves)
        × (m'.symlinks ≡ m.symlinks ++ symlinks_of root leaves)
  unfolding append_leaves
  append_leaves-nodes root [] m m' e =
      let same : m ≡ m' = cc e in
      rw (← same) (refl, sym (append-nil m.files), sym (append-nil m.symlinks))
  append_leaves-nodes root (leaf ∷ leaves) m m' e =
      elim (Option-cases (append_if_kept apply root leaf m)) [
        | inl panics ↦ cc (rw (panics, append_leaves) at e)
        | inr (m1, found) ↦
            let (d1, f1, s1) = append_if_kept-nodes root leaf m m1 found in
            let (d2, f2, s2) =
              append_leaves-nodes root leaves m1 m' (rw (found, append_leaves) at e) in
            (
              d2 ∙ d1,
              f2 ∙ ap (λ xs. xs ++ files_of root leaves) f1 ∙ append_assoc m.files _ _,
              s2 ∙ ap (λ xs. xs ++ symlinks_of root leaves) s1 ∙ append_assoc m.symlinks _ _,
            )
      ]
