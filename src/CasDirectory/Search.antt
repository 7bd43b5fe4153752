-- ===== src/CasDirectory/Search.antt =====
-- The binary searches of pkg/filesystem/virtual/cas_directory.go.
use bb_clientd.Prelude.{
  ℕ, zero, suc, ◌+◌, ◌/◌, ◌≤◌, ◌<◌, ◌≡◌, refl, sym, ◌∙◌, inl, inr, Bool, true, false, none, some,
  List, ltb, ltb→lt, arith, length, get_elem?, get_elem?-below, length-get_elem?, ◌==◌, Bool-cases,
  Option-cases,
}
use bb_clientd.CasDirectory.{search, name_at_least, find_entry, name_lt, name_eq}
use bb_clientd.CasDirectory.Names.{name_lt_irrefl, name_lt_trans, name_eq_sound, name_eq_refl}

none_ne_some {ℓ} : {A : Type ℓ} {a : A} → none ≡ some a → ⊥
none_ne_some h = cc

true_ne_false : true ≡ false → ⊥
true_ne_false h = cc

ltb-false : (a b : ℕ) → ltb a b ≡ false → b ≤ a
ltb-false a b h = ground arith

-- Once the test holds, it holds from there on.
abbrev pub Monotone : (ℕ → Bool) → Type 0
Monotone f = (a b : ℕ) → a ≤ b → f a ≡ true → f b ≡ true

pub search-least :
    (fuel : ℕ) (f : ℕ → Bool) (i j : ℕ)
    → Monotone f
    → i ≤ j
    → j < fuel + i
    → let r = search fuel f i j in
      (i ≤ r) × (r ≤ j) × ((k : ℕ) → i ≤ k → k < r → f k ≡ false) × (r < j → f r ≡ true)
unfolding search
search-least zero f i j m h g = absurd (omega arith)
search-least (suc fuel) f i j m h g = elim (Bool-cases (ltb i j)) [
  | inr done ↦
      rw done (omega arith, omega arith, λ k a b. absurd (omega arith), λ a. absurd (ground arith))
  | inl inner ↦
      let mid = (i + j) / 2 in
      let inside : (i ≤ mid) × (mid < j) = ground arith in
      elim (Bool-cases (f mid)) [
        | inl high ↦
            let (a, b, c, e) = search-least fuel f i mid m inside.0 (omega (arith, inside)) in
            rw inner (rw high (a, omega (arith, inside), c, λ k. ground (arith, e, high, m mid)))
        | inr low ↦
            let (a, b, c, e) =
              search-least fuel f (mid + 1) j m (omega (arith, inside)) (omega (arith, inside)) in
            rw inner
              (rw low (omega (arith, inside), b, (λ k p q. ground (arith, m k mid, c k, low)), e))
      ]
]

module _ {A : Type 0} (name : A → List ℕ) where
  -- Strictly sorted by name, as REv2 wants it of a Directory message.
  abbrev pub IsSorted : List A → Type 0
  IsSorted xs =
      (i j : ℕ) (x y : A)
      → i < j
      → get_elem? xs i ≡ some x
      → get_elem? xs j ≡ some y
      → name_lt (name x) (name y) ≡ true

  -- find_entry only finds entries of that name, in any list.
  pub find_entry_sound :
      (xs : List A) (n : List ℕ) (i : ℕ) (x : A)
      → find_entry name xs n ≡ some (i, x)
      → (get_elem? xs i ≡ some x) × (name x ≡ n)
  unfolding find_entry
  find_entry_sound xs n i x h =
      let r = search (length xs + 1) (name_at_least name xs n) 0 (length xs) in
      elim (Option-cases (get_elem? xs r)) [
        | inl e ↦ absurd (none_ne_some (rw (e, find_entry) at h))
        | inr (y, e) ↦ elim (Bool-cases (name_eq (name y) n)) [
          | inl same ↦
              let h' : some (r, y) ≡ some (i, x) = rw (same) at (rw (e, find_entry) at h) in
              ground (arith, h', e, name_eq_sound (name y) n same)
          | inr other ↦ absurd (none_ne_some (rw (other) at (rw (e, find_entry) at h)))
        ]
      ]

  module _ (xs : List A) (n : List ℕ) (sorted : IsSorted xs) where
    at_least-Monotone : Monotone (name_at_least name xs n)
    at_least-Monotone a b h e = elim (Option-cases (get_elem? xs b)) [
      | inl none_at ↦ rw (none_at, name_at_least) refl
      | inr (y, at_b) ↦
          let (x, at_a) = get_elem?-below xs a b y h at_b in
          elim (Bool-cases (a == b)) [
            | inl same ↦ ground (arith, same, e, at_b)
            | inr other ↦ ground (
              arith,
              e,
              at_a,
              at_b,
              sorted a b x y (ground arith) at_a at_b,
              name_lt_trans (name x) (name y) n,
            )
          ]
    ]

    -- In a sorted list, it finds every entry, with its index.
    pub find_entry_complete :
        (i : ℕ) (x : A) → get_elem? xs i ≡ some x → name x ≡ n → find_entry name xs n ≡ some (i, x)
    unfolding find_entry
    find_entry_complete i x e same =
        let r = search (length xs + 1) (name_at_least name xs n) 0 (length xs) in
        let (a, b, c, d) =
          search-least (length xs + 1) (name_at_least name xs n) 0 (length xs) at_least-Monotone
            (omega arith) (omega arith) in
        let inside = length-get_elem? xs i x e in
        let holds : name_at_least name xs n i ≡ true = ground (arith, e, same, name_lt_irrefl n) in
        let (z, at_r) = get_elem?-below xs r i x (not_beyond r holds c) e in
        let here : r ≡ i = elim (Bool-cases (ltb r i)) [
          | inr no_less ↦ omega (arith, not_beyond r holds c, ltb→lt r i, ltb-false r i no_less)
          | inl less ↦
              let before = sorted r i z x (ltb→lt r i less) at_r e in
              let true_at = d (omega (arith, inside, ltb→lt r i less)) in
              ground (arith, at_r, before, same, true_at)
        ] in
        ground (arith, here, e, same, name_eq_refl n)
      where
        not_beyond :
            (r : ℕ)
            → name_at_least name xs n i ≡ true
            → ((k : ℕ) → 0 ≤ k → k < r → name_at_least name xs n k ≡ false)
            → r ≤ i
        not_beyond r yes_at below = elim (Bool-cases (ltb i r)) [
          | inl less ↦ absurd (true_ne_false (sym yes_at ∙ below i (omega arith) (ltb→lt i r less)))
          | inr no_less ↦ ltb-false i r no_less
        ]
