-- ===== src/CasDirectory/Names.antt =====
-- The order of Go strings, which pkg/filesystem/virtual/cas_directory.go compares names by.
use bb_clientd.Prelude.{ℕ, ◌≡◌, refl, true, false, List, [], ◌∷◌, arith}
use bb_clientd.CasDirectory.{name_lt, name_eq}

pub name_lt_irrefl : (xs : List ℕ) → name_lt xs xs ≡ false
name_lt_irrefl [] = refl
name_lt_irrefl (x ∷ xs) = ground (arith, name_lt_irrefl xs)

pub name_lt_trans :
    (xs ys zs : List ℕ) → name_lt xs ys ≡ true → name_lt ys zs ≡ true → name_lt xs zs ≡ true
name_lt_trans xs [] zs h k = cc
name_lt_trans xs (y ∷ ys) [] h k = cc
name_lt_trans [] (y ∷ ys) (z ∷ zs) h k = refl
name_lt_trans (x ∷ xs) (y ∷ ys) (z ∷ zs) h k = ground (arith, name_lt_trans xs ys zs)

pub name_eq_sound : (xs ys : List ℕ) → name_eq xs ys ≡ true → xs ≡ ys
name_eq_sound [] [] h = refl
name_eq_sound [] (y ∷ ys) h = cc
name_eq_sound (x ∷ xs) [] h = cc
name_eq_sound (x ∷ xs) (y ∷ ys) h = ground (arith, name_eq_sound xs ys)

pub name_eq_refl : (xs : List ℕ) → name_eq xs xs ≡ true
name_eq_refl [] = refl
name_eq_refl (x ∷ xs) = ground (arith, name_eq_refl xs)
