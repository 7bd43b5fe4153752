-- ===== src/Parsing/Tests.antt =====
-- Runs and instances for the parsing directories of pkg/filesystem/virtual.
use bb_clientd.Prelude.{
  ℕ, suc, ◌≡◌, refl, Option, none, some, List, [], ◌∷◌, ◌==◌, if◌then◌else◌, arith,
}
use bb_clientd.Prelude.Integers.{ℤ, pos}
use bb_clientd.Prelude.Results.{Result, ok}
use bb_clientd.Vfs.{Status}
use bb_clientd.Parsing.Digests
use bb_clientd.Parsing.Digests.{Child, leaf, last_index, parse_int, digits_from, parse_filename}
use bb_clientd.Parsing.Filenames.{filename, virtual_lookup-filename}
use bb_clientd.Parsing.InstanceNames.{new_parsing_directory, walk, target}
use bb_clientd.Parsing.Identifiers.{AreComponents, write_to-prefix_free, walk-keyword}

-- A digest function that takes every hash, and a world that counts the lookups.
abbrev new_digest : List ℕ → ℤ → Option (List ℕ × ℤ)
new_digest hash size_bytes = some (hash, size_bytes)

abbrev lookup_func : ℕ → List ℕ × ℤ → ℕ × Result Status (Child ℕ (List ℕ × ℤ))
lookup_func w digest = (suc w, ok (leaf digest))

-- The bytes of "a-b-012": of two dashes the last counts, and a leading zero is one more digit.
padded :
    parse_filename new_digest (97 ∷ 45 ∷ 98 ∷ 45 ∷ 48 ∷ 49 ∷ 50 ∷ [])
    ≡ some (97 ∷ 45 ∷ 98 ∷ [], pos 12)
unfolding parse_filename last_index parse_int digits_from
padded = refl

-- The bytes of "a-": a size must have a digit.
no_size : parse_filename new_digest (97 ∷ 45 ∷ []) ≡ none
unfolding parse_filename last_index parse_int digits_from
no_size = refl

virtual_lookup-filename_example :
    Digests.virtual_lookup new_digest lookup_func 0 (filename (97 ∷ 45 ∷ 98 ∷ []) 12)
    ≡ (1, ok (leaf (97 ∷ 45 ∷ 98 ∷ [], pos 12)))
virtual_lookup-filename_example =
    virtual_lookup-filename new_digest lookup_func 0 (97 ∷ 45 ∷ 98 ∷ []) 12
      (97 ∷ 45 ∷ 98 ∷ [], pos 12) (omega arith) refl

-- The paths "a" and "b/c", with what follows them.
abbrev a_path : List (List ℕ)
a_path = (97 ∷ []) ∷ []

abbrev bc_path : List (List ℕ)
bc_path = (98 ∷ []) ∷ (99 ∷ []) ∷ []

bc_components : AreComponents bc_path
bc_components =
    ((λ e. cc), ((λ e. omega (arith, e)), tt), ((λ e. cc), ((λ e. omega (arith, e)), tt), tt))

write_to-prefix_free_example : (bc_path ≡ bc_path) × (◌≡◌ {A = List ℕ} (5 ∷ []) (5 ∷ []))
write_to-prefix_free_example =
    write_to-prefix_free bc_path bc_path (5 ∷ []) (5 ∷ []) bc_components bc_components refl

-- The one keyword is "k"; its directory is the instance name itself.
abbrev lookup_funcs : List ℕ → Option (List (List ℕ) → List (List ℕ))
lookup_funcs [] = none
lookup_funcs (c ∷ cs) = if c == 107 then some (λ i. i) else none

abbrev new_instance_name : List (List ℕ) → Option (List (List ℕ))
new_instance_name components = some components

walk-keyword_example :
    walk lookup_funcs new_instance_name new_parsing_directory
      ((98 ∷ []) ∷ (99 ∷ []) ∷ (107 ∷ []) ∷ [])
    ≡ ok (target bc_path)
walk-keyword_example =
    walk-keyword lookup_funcs new_instance_name bc_path [] (107 ∷ []) (λ i. i) (refl, (refl, tt))
      refl
