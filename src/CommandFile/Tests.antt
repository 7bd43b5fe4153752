-- ===== src/CommandFile/Tests.antt =====
-- Runs and instances for pkg/filesystem/virtual/blob_access_command_file_factory.go.
use bb_clientd.Prelude.{ℕ, ◌+◌, ◌-◌, ◌≡◌, refl, Bool, false, some, [], ◌∷◌, min, leb, arith}
use bb_clientd.Vfs.{Status}
use bb_clientd.CommandFile.{
  Script, CommandFile, read, lookup_file, virtual_read, write_shell_script, convert_into, write_all,
  count_string, extract_string, file_of, read_of,
}
use bb_clientd.CommandFile.Read.{Bounds, virtual_read-eq-slice}

-- "#!", "/b" and "in" as three writes.
abbrev script : ℕ → Script
script command = record {
  strings = (35 ∷ 33 ∷ []) ∷ (47 ∷ 98 ∷ []) ∷ (105 ∷ command ∷ []) ∷ [];
  failed = false;
}

abbrev bound : ℕ → ℕ → ℕ → ℕ × Bool
bound n offset size = (min n (size - offset), leb size (offset + n))

bound-Bounds : Bounds bound
bound-Bounds n offset size = refl

abbrev file : CommandFile ℕ
file = record { blob_digest = 5; size = 6 }

file_found : lookup_file script 5 (some 110) ≡ (Status.ok, some file)
unfolding lookup_file write_shell_script convert_into write_all count_string file_of
file_found = refl

-- A read of three bytes from the second on, across two writes.
read_middle : virtual_read script bound file (some 110) 3 1 ≡ read (33 ∷ 47 ∷ 98 ∷ []) 3 false
unfolding virtual_read write_shell_script convert_into write_all extract_string read_of
read_middle = refl

virtual_read-eq-slice_example :
    virtual_read script bound file (some 110) 3 1 ≡ read (33 ∷ 47 ∷ 98 ∷ []) 3 false
virtual_read-eq-slice_example =
    virtual_read-eq-slice script bound 5 110 file 3 1 bound-Bounds (omega arith) file_found
