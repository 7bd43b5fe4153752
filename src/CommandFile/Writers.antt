-- ===== src/CommandFile/Writers.antt =====
-- The two writers of pkg/filesystem/virtual/blob_access_command_file_factory.go against the whole
-- text of a script: counting gives its size, and extracting gives a slice of it.
use bb_clientd.Prelude.{
  ℕ, ◌+◌, ◌-◌, ◌%◌, ◌^◌, ◌<◌, ◌≤◌, ◌≡◌, ap, ◌∙◌, sym, List, [], ◌∷◌, ◌++◌, append_assoc, append-nil,
  length, length-append, length-drop, take, drop, min, leb, flatten, drop-append_ge, drop-append_le,
  take-append, take_congr, drop-nil, take-nil, leb→le, inl, inr, Bool-cases, arith,
}
use bb_clientd.CommandFile.{
  SizeCountingWriter, count_string, RegionExtractingWriter, extract_string, write_all,
}

pub size-count :
    (w : SizeCountingWriter) (ss : List (List ℕ))
    → w.size < 2 ^ 64
    → (write_all count_string w ss).size ≡ (w.size + length (flatten ss)) % 2 ^ 64
unfolding write_all count_string
size-count w [] h = omega arith
size-count w (s ∷ ss) h =
    omega (arith, size-count (count_string w s) ss (omega arith), length-append s (flatten ss))

module _ (w : RegionExtractingWriter) (s rest : List ℕ) where
  -- A string that ends before the region starts.
  copied_skip :
      length s ≤ w.offset
      → take w.room (drop (w.offset - length s) rest) ≡ take w.room (drop w.offset (s ++ rest))
  copied_skip h = ap (take w.room) (sym (drop-append_ge w.offset s rest h))

  copied_some :
      w.offset ≤ length s
      → (w.copied ++ take w.room (drop w.offset s))
          ++ take (w.room - min w.room (length (drop w.offset s))) (drop 0 rest)
        ≡ w.copied ++ take w.room (drop w.offset (s ++ rest))
  copied_some h =
      append_assoc w.copied (take w.room (drop w.offset s)) _
      ∙ ap (◌++◌ w.copied) (sym parts ∙ ap (take w.room) (sym (drop-append_le w.offset s rest h)))
    where
      parts :
          take w.room (drop w.offset s ++ rest)
          ≡ take w.room (drop w.offset s)
            ++ take (w.room - min w.room (length (drop w.offset s))) rest
      parts =
          take-append w.room (drop w.offset s) rest
          ∙ ap (◌++◌ (take w.room (drop w.offset s))) (
              take_congr (w.room - length (drop w.offset s))
                (w.room - min w.room (length (drop w.offset s))) rest (omega arith))

pub copied-extract :
    (w : RegionExtractingWriter) (ss : List (List ℕ))
    → (write_all extract_string w ss).copied ≡ w.copied ++ take w.room (drop w.offset (flatten ss))
unfolding write_all extract_string
copied-extract w [] =
    sym (append-nil w.copied)
    ∙ ap (◌++◌ w.copied) (sym (take-nil w.room) ∙ ap (take w.room) (sym (drop-nil w.offset)))
copied-extract w (s ∷ ss) = elim (Bool-cases (leb (length s) w.offset)) [
  | inl skip ↦ rw (copied-extract (extract_string w s) ss) (
      rw skip (ap (◌++◌ w.copied) (copied_skip w s (flatten ss) (leb→le (length s) w.offset skip))))
  | inr region ↦
      rw (copied-extract (extract_string w s) ss)
        (rw region (copied_some w s (flatten ss) (ground arith)))
]

pub room-extract :
    (w : RegionExtractingWriter) (ss : List (List ℕ))
    → (write_all extract_string w ss).room ≡ w.room - (length (flatten ss) - w.offset)
unfolding write_all extract_string
room-extract w [] = omega arith
room-extract w (s ∷ ss) = ground (
  arith,
  room-extract (extract_string w s) ss,
  length-append s (flatten ss),
  length-drop w.offset s,
)
