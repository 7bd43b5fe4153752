-- ===== src/CasDirectory/Lookup.antt =====
-- VirtualLookup() of pkg/filesystem/virtual/cas_directory.go against a lookup that looks at every
-- entry.
use bb_clientd.Prelude.{
  ℕ, zero, suc, ◌≡◌, refl, sym, ap, ◌∙◌, inl, inr, Option, none, some, List, [], ◌∷◌, if◌then◌else◌,
  arith, get_elem?, Bool-cases, Option-cases, some-injective,
}
use bb_clientd.Prelude.Results.{Result, ok, err}
use bb_clientd.Vfs.{Status}
use bb_clientd.CasDirectory.{
  DirectoryNode, FileNode, SymlinkNode, Directory, Child, Context, find_entry, name_eq,
  lookup_found, lookup_in, virtual_lookup,
}
use bb_clientd.CasDirectory.Names.{name_eq_sound, name_eq_refl}
use bb_clientd.CasDirectory.Search.{IsSorted, find_entry_sound, find_entry_complete}

none_ne_some {ℓ} : {A : Type ℓ} {a : A} → none ≡ some a → ⊥
none_ne_some h = cc

-- The first entry of a name, with its index: every entry before it is looked at.
abbrev pub first_named : {A : Type 0} → (A → List ℕ) → List A → List ℕ → Option (ℕ × A)
first_named name [] n = none
first_named name (x ∷ xs) n =
    let rest = first_named name xs n in
    if name_eq (name x) n
    then some (0, x)
    else (elim rest [ none ↦ none | some r ↦ some (suc r.0, r.1) ])

module _ {A : Type 0} (name : A → List ℕ) (n : List ℕ) where
  first_named_sound :
      (xs : List A) (i : ℕ) (x : A)
      → first_named name xs n ≡ some (i, x)
      → (get_elem? xs i ≡ some x) × (name x ≡ n)
  first_named_sound [] i x h = cc
  first_named_sound (y ∷ ys) i x h = elim (Bool-cases (name_eq (name y) n)) [
    | inl same ↦ ground (arith, same, name_eq_sound (name y) n same)
    | inr other ↦ elim (Option-cases (first_named name ys n)) [
      | inl e ↦ ground (arith, other, e)
      | inr ((j, z), e) ↦ ground (arith, other, e, first_named_sound ys j z e)
    ]
  ]

  first_named_total :
      (xs : List A) (i : ℕ) (x : A)
      → get_elem? xs i ≡ some x
      → name x ≡ n
      → (j : ℕ) × (z : A) × (first_named name xs n ≡ some (j, z))
  first_named_total [] i x h e = cc
  first_named_total (y ∷ ys) zero x h e =
      (0, y, ground (arith, some-injective h, e, name_eq_refl n))
  first_named_total (y ∷ ys) (suc i) x h e =
      let (j, z, f) = first_named_total ys i x h e in
      elim (Bool-cases (name_eq (name y) n)) [
        | inl same ↦ (0, y, ground (arith, same))
        | inr other ↦ (suc j, z, ground (arith, other, f))
      ]

  -- The binary search of a sorted list finds what looking at every entry finds.
  pub find_entry-eq-first_named :
      (xs : List A) → IsSorted name xs → find_entry name xs n ≡ first_named name xs n
  find_entry-eq-first_named xs sorted = elim (Option-cases (first_named name xs n)) [
    | inr ((i, x), e) ↦
        let (at_i, same) = first_named_sound xs i x e in
        find_entry_complete name xs n sorted i x at_i same ∙ sym e
    | inl e ↦ elim (Option-cases (find_entry name xs n)) [
      | inl f ↦ f ∙ sym e
      | inr ((i, x), f) ↦
          let (at_i, same) = find_entry_sound name xs n i x f in
          let (j, z, g) = first_named_total xs i x at_i same in absurd (none_ne_some (sym e ∙ g))
    ]
  ]

-- A Directory message as REv2 wants it: each of its lists is sorted by name.
pub record IsCanonical {M : Type 0} (directory : Directory M) : Type 0 where
  pub directories_sorted : IsSorted (λ (e : DirectoryNode M). e.name) directory.directories
  pub files_sorted : IsSorted (λ (e : FileNode M). e.name) directory.files
  pub symlinks_sorted : IsSorted (λ (e : SymlinkNode). e.name) directory.symlinks

module _ {W M Digest Dir Leaf Symlink : Type 0}
    (context : Context W M Digest Dir Leaf Symlink) where
  -- A lookup that looks at every entry.
  abbrev pub lookup_every : Directory M → List ℕ → W → Result Status (Child Dir Leaf) × W
  lookup_every directory n w =
      lookup_found context (first_named (λ (e : DirectoryNode M). e.name) directory.directories n)
        (first_named (λ (e : FileNode M). e.name) directory.files n)
        (first_named (λ (e : SymlinkNode). e.name) directory.symlinks n) w

  -- If the Directory message can be loaded and each of its lists is sorted by name,
  -- VirtualLookup() returns the child, or the error, that a lookup returns which looks at every
  -- entry.
  pub virtual_lookup-eq-lookup_every :
      (directory : Directory M) (n : List ℕ) (w w' : W)
      → IsCanonical directory
      → context.get_directory_contents w ≡ (ok directory, w')
      → virtual_lookup context n w ≡ lookup_every directory n w'
  unfolding virtual_lookup lookup_in
  virtual_lookup-eq-lookup_every directory n w w' canonical loads =
      let d =
        find_entry-eq-first_named (λ (e : DirectoryNode M). e.name) n directory.directories
          canonical.directories_sorted in
      let f =
        find_entry-eq-first_named (λ (e : FileNode M). e.name) n directory.files
          canonical.files_sorted in
      let s =
        find_entry-eq-first_named (λ (e : SymlinkNode). e.name) n directory.symlinks
          canonical.symlinks_sorted in
      let found : lookup_in context directory n w' ≡ lookup_every directory n w' =
        rw (d, f, s, lookup_in) refl in
      ap
        (λ (t : Result Status (Directory M) × W). elim t.0 [
          | err e ↦ (err e, t.1)
          | ok x ↦ lookup_in context x n t.1
        ])
        loads
      ∙ found
