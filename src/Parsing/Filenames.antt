-- ===== src/Parsing/Filenames.antt =====
-- The names of pkg/filesystem/virtual/digest_parsing_directory.go: {hash}-{sizeBytes}.
use bb_clientd.Prelude.{
  ℕ, suc, ◌^◌, ◌<◌, ◌≡◌, refl, ap, ◌∙◌, Option, some, List, [], ◌∷◌, ◌++◌, length, take, drop,
  take-append_le, take_of_length_le, arith,
}
use bb_clientd.Prelude.Integers.{ℤ, pos}
use bb_clientd.Prelude.Results.{Result}
use bb_clientd.Vfs.{Status}
use bb_clientd.Parsing.Digests.{Child, dash, parse_int, parse_filename, virtual_lookup}
use bb_clientd.Parsing.Decimal.{decimal, parse_int-decimal, last_index-append}

-- The name of the file with a hash and a size.
abbrev pub filename : List ℕ → ℕ → List ℕ
filename hash size_bytes = hash ++ (dash ∷ decimal size_bytes)

take-length : (xs ys : List ℕ) → take (length xs) (xs ++ ys) ≡ xs
take-length xs ys =
    take-append_le (length xs) xs ys (omega arith) ∙ take_of_length_le (length xs) xs (omega arith)

drop-suc-length : (xs : List ℕ) (y : ℕ) (ys : List ℕ) → drop (suc (length xs)) (xs ++ (y ∷ ys)) ≡ ys
drop-suc-length [] y ys = refl
drop-suc-length (x ∷ xs) y ys = drop-suc-length xs y ys

module _ {Digest : Type 0} (new_digest : List ℕ → ℤ → Option Digest) where
  pub parse_filename-filename :
      (hash : List ℕ) (size_bytes : ℕ)
      → size_bytes < 2 ^ 63
      → parse_filename new_digest (filename hash size_bytes) ≡ new_digest hash (pos size_bytes)
  unfolding parse_filename
  parse_filename-filename hash size_bytes h =
      let at = last_index-append hash size_bytes in
      let size : parse_int (drop (suc (length hash)) (filename hash size_bytes))
          ≡ some (pos size_bytes) =
        ap parse_int (drop-suc-length hash dash (decimal size_bytes))
        ∙ parse_int-decimal size_bytes h in
      rw (at, parse_filename)
        (rw size
          (ap (λ t. new_digest t (pos size_bytes)) (take-length hash (dash ∷ decimal size_bytes))))

  -- For every hash and every size of an int64 that make a digest: looking up the name that is the
  -- hash, a dash and the decimal size calls the lookup function on that digest.
  pub virtual_lookup-filename :
      {W Dir Leaf : Type 0} (lookup_func : W → Digest → W × Result Status (Child Dir Leaf)) (w : W)
      (hash : List ℕ) (size_bytes : ℕ) (digest : Digest)
      → size_bytes < 2 ^ 63
      → new_digest hash (pos size_bytes) ≡ some digest
      → virtual_lookup new_digest lookup_func w (filename hash size_bytes) ≡ lookup_func w digest
  unfolding virtual_lookup
  virtual_lookup-filename lookup_func w hash size_bytes digest h made =
      rw (parse_filename-filename hash size_bytes h ∙ made, virtual_lookup) refl
