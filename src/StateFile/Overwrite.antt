-- ===== src/StateFile/Overwrite.antt =====
-- Writing into the bytes of a file, as the writers of pkg/outputpathpersistency/file_writer.go do.
use bb_clientd.Prelude.{
  ℕ, zero, suc, ◌+◌, ◌-◌, ◌≡◌, refl, sym, ap, ◌∙◌, inl, inr, List, [], ◌++◌, length, length-append,
  length-replicate, take, drop, replicate, take_of_length_le, drop_of_length_le, drop-append_le,
  append-nil, arith, Bool-cases, leb,
}

abbrev pub zeros : ℕ → List ℕ
zeros n = replicate n 0

length-zeros : (n : ℕ) → length (zeros n) ≡ n
length-zeros n = length-replicate {A = ℕ} n 0

zeros-zero_of : (n : ℕ) → n ≡ 0 → zeros n ≡ []
zeros-zero_of zero e = refl
zeros-zero_of (suc n) e = absurd (omega arith)

-- A write that leaves a gap behind the end of the file fills it with zero bytes.
abbrev pub overwrite : List ℕ → List ℕ → ℕ → List ℕ
overwrite c p offset =
    take offset (c ++ zeros (offset - length c)) ++ (p ++ drop (offset + length p) c)

-- The part behind the header, when a file that ends there, or within the header, is padded.
drop-padded :
    (c : List ℕ) (offset : ℕ)
    → offset ≡ 16 + (length c - 16)
    → drop 16 (c ++ zeros (offset - length c)) ≡ drop 16 c
drop-padded c offset e = elim (Bool-cases (leb 16 (length c))) [
  | inl h ↦
      ap (λ zs. drop 16 (c ++ zs)) (zeros-zero_of (offset - length c) (ground arith))
      ∙ ap (drop 16) (append-nil c)
  | inr h ↦
      drop_of_length_le 16 (c ++ zeros (offset - length c)) (
        ground
          (arith, length-append c (zeros (offset - length c)), length-zeros (offset - length c)))
      ∙ sym (drop_of_length_le 16 c (ground arith))
]

length-padded :
    (c : List ℕ) (offset : ℕ)
    → offset ≡ 16 + (length c - 16)
    → length (c ++ zeros (offset - length c)) ≡ offset
length-padded c offset e =
    omega (arith, length-append c (zeros (offset - length c)), length-zeros (offset - length c))

-- A write at the end appends.
overwrite_end :
    (c p : List ℕ) (offset : ℕ)
    → offset ≡ 16 + (length c - 16)
    → overwrite c p offset ≡ (c ++ zeros (offset - length c)) ++ p
overwrite_end c p offset e =
    ap (λ t. t ++ (p ++ drop (offset + length p) c))
      (take_of_length_le offset (c ++ zeros (offset - length c))
        (omega (arith, length-padded c offset e)))
    ∙ ap (λ t. (c ++ zeros (offset - length c)) ++ (p ++ t))
        (drop_of_length_le (offset + length p) c (omega arith))
    ∙ ap (◌++◌ (c ++ zeros (offset - length c))) (append-nil p)

pub drop-overwrite_end :
    (c p : List ℕ) (offset : ℕ)
    → offset ≡ 16 + (length c - 16)
    → drop 16 (overwrite c p offset) ≡ drop 16 c ++ p
drop-overwrite_end c p offset e =
    ap (drop 16) (overwrite_end c p offset e)
    ∙ drop-append_le 16 (c ++ zeros (offset - length c)) p (omega (arith, length-padded c offset e))
    ∙ ap (λ t. t ++ p) (drop-padded c offset e)

pub length-overwrite_end :
    (c p : List ℕ) (offset : ℕ)
    → offset ≡ 16 + (length c - 16)
    → length (overwrite c p offset) ≡ offset + length p
length-overwrite_end c p offset e =
    ap length (overwrite_end c p offset e)
    ∙ omega (arith, length-append (c ++ zeros (offset - length c)) p, length-padded c offset e)
