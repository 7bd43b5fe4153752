-- ===== src/StateFile/Buffered/Writes.antt =====
-- What a write of bufio.Writer under pkg/outputpathpersistency/file_writer.go does to what it holds.
use mathlib.Core.Bool.{false≢true}
use mathlib.Core.Path.{subst}
use bb_clientd.Prelude.{
  ℕ, ◌+◌, ◌-◌, ◌≤◌, ◌<◌, ◌^◌, ◌≡◌, refl, sym, ap, ◌∙◌, inl, inr, true, false, List, [], ◌++◌,
  length, length-append, length-drop, length-take, take, drop, take-append-drop, nil_of_length,
  append_assoc, arith, Bool-cases, leb,
}
use bb_clientd.StateFile.Format.{WriteAt, IsWriterAt}
use bb_clientd.StateFile.Buffered.{
  BufferedWriter, buffer_size, flush, write_empty, write_rest, buffered_write,
}
use bb_clientd.StateFile.Buffered.Holds.{Holds, append_buffer, flush-Holds, write_empty-Holds}

module _ {F : Type 0} (write_at : F → List ℕ → ℕ → WriteAt F) (contents : F → List ℕ)
    (law : IsWriterAt write_at contents) where
  write_rest-go :
      (n : ℕ) (b : BufferedWriter F) (rest : List ℕ)
      → b.failed ≡ false
      → write_rest write_at n b rest ≡ record {
        writer = (write_empty write_at b rest).writer;
        count = n + (write_empty write_at b rest).count;
      }
  unfolding write_rest
  write_rest-go n b rest intact = rw intact

  write_rest-Holds :
      (n : ℕ) (b : BufferedWriter F) (body rest : List ℕ)
      → (b.failed ≡ false → Holds write_at contents b body × (b.buffer ≡ []))
      → 16 + length body + length rest < 2 ^ 64
      → (write_rest write_at n b rest).writer.failed ≡ false
      → Holds write_at contents (write_rest write_at n b rest).writer (body ++ rest)
        × ((write_rest write_at n b rest).count ≡ n + length rest)
  unfolding write_rest
  write_rest-Holds n b body rest h fits fine = elim (Bool-cases b.failed) [
    | inl broken ↦ absurd (false≢true (sym (rw broken at fine)))
    | inr intact ↦
        let (held, empty) = h intact in
        let e = write_rest-go n b rest intact in
        let (held', count) =
          write_empty-Holds write_at contents law b body held rest empty fits (rw e at fine) in
        rw e (held', ap (◌+◌ n) count)
  ]

  module _ (b : BufferedWriter F) (p : List ℕ) (intact : b.failed ≡ false) where
    free : ℕ
    free = buffer_size - length b.buffer

    write_copy :
        leb (length p) (buffer_size - length b.buffer) ≡ true
        → buffered_write write_at b p
          ≡ record { writer = record b { buffer = b.buffer ++ p }; count = length p }
    unfolding buffered_write
    write_copy fits = rw intact (rw fits)

    write_direct :
        leb (length p) (buffer_size - length b.buffer) ≡ false
        → leb (length b.buffer) 0 ≡ true
        → buffered_write write_at b p ≡ write_empty write_at b p
    unfolding buffered_write
    write_direct large empty = rw intact (rw large (rw empty))

    write_over :
        leb (length p) (buffer_size - length b.buffer) ≡ false
        → leb (length b.buffer) 0 ≡ false
        → buffered_write write_at b p
          ≡ write_rest write_at
              (buffer_size - length b.buffer)
              (flush write_at
                (record b { buffer = b.buffer ++ take (buffer_size - length b.buffer) p }))
              (drop (buffer_size - length b.buffer) p)
    unfolding buffered_write
    write_over large some = rw intact (rw large (rw some))

  -- A buffer that holds something is filled and flushed before the rest is written.
  write_filled :
      (b : BufferedWriter F) (body p : List ℕ)
      → Holds write_at contents b body
      → buffer_size - length b.buffer ≤ length p
      → 16 + length body + length p < 2 ^ 64
      → (write_rest write_at
          (buffer_size - length b.buffer)
          (flush write_at
            (record b { buffer = b.buffer ++ take (buffer_size - length b.buffer) p }))
          (drop (buffer_size - length b.buffer) p)).writer.failed
        ≡ false
      → Holds write_at contents
          (write_rest write_at
            (buffer_size - length b.buffer)
            (flush write_at
              (record b { buffer = b.buffer ++ take (buffer_size - length b.buffer) p }))
            (drop (buffer_size - length b.buffer) p)).writer
          (body ++ p)
        × ((write_rest write_at
              (buffer_size - length b.buffer)
              (flush write_at
                (record b { buffer = b.buffer ++ take (buffer_size - length b.buffer) p }))
              (drop (buffer_size - length b.buffer) p)).count
            ≡ length p)
  write_filled b body p h fills fits fine =
      let n : ℕ = buffer_size - length b.buffer in
      let first : List ℕ = take n p in
      let held = append_buffer write_at contents law b body h first in
      let parts : length first + length (drop n p) ≡ length p =
        omega (arith, length-take n p, length-drop n p) in
      let (held', count) =
        write_rest-Holds n (flush write_at (record b { buffer = b.buffer ++ first }))
          (body ++ first) (drop n p)
          (flush-Holds write_at contents law _ (body ++ first) held
            (omega (arith, length-append body first, parts)))
          (omega (arith, length-append body first, parts)) fine in
      (
        subst (Holds write_at contents _)
            (append_assoc body first (drop n p) ∙ ap (◌++◌ body) (take-append-drop n p)) held',
        omega (arith, count, length-drop n p),
      )

  -- What a call of Write() with no error takes is held after it, and the call took all of it.
  pub buffered_write-Holds :
      (b : BufferedWriter F) (body p : List ℕ)
      → Holds write_at contents b body
      → 16 + length body + length p < 2 ^ 64
      → (buffered_write write_at b p).writer.failed ≡ false
      → Holds write_at contents (buffered_write write_at b p).writer (body ++ p)
        × ((buffered_write write_at b p).count ≡ length p)
  buffered_write-Holds b body p h fits fine =
      elim (Bool-cases (leb (length p) (buffer_size - length b.buffer))) [
        | inl small ↦
            rw (write_copy b p h.intact small)
              (append_buffer write_at contents law b body h p, refl)
        | inr large ↦ elim (Bool-cases (leb (length b.buffer) 0)) [
          | inl empty ↦
              let e = write_direct b p h.intact large empty in
              rw e (
                write_empty-Holds write_at contents law b body h p
                  (nil_of_length b.buffer (ground arith)) fits (rw e at fine))
          | inr filled ↦
              let e = write_over b p h.intact large filled in
              rw e (write_filled b body p h (ground arith) fits (rw e at fine))
        ]
      ]
