-- ===== src/Acpi/Tests.antt =====
-- A root pointer and a table of one entry.
use drastic.Base.{
  ℕ, ◌≡◌, refl, true, List, [], ◌∷◌, ◌++◌, some, ok, stop, kpanic, rsdp_checksum, assertion_failed,
  replicate, ◌>>=◌, arith,
}
use drastic.Bytes.{Bytes, bytes_get}
use drastic.Acpi.{Response, sum_from, validate, sdt_validate, setup, sdt_count, sdt_get}
use drastic.Acpi.Checksum.{validate-total}

-- The root table is at 20, 33 bytes long; the checksums are right.
abbrev root_pointer : List ℕ
root_pointer =
    82 ∷ 83 ∷ 68 ∷ 32 ∷ 80 ∷ 84 ∷ 82 ∷ 32 ∷ 205 ∷ 0 ∷ 0 ∷ 0 ∷ 0 ∷ 0 ∷ 0 ∷ 0 ∷ 20 ∷ 0 ∷ 0 ∷ 0 ∷ []

abbrev root_table : List ℕ
root_table =
    82 ∷ 83 ∷ 68 ∷ 84 ∷ 33 ∷ 0 ∷ 0 ∷ 0 ∷ 0 ∷ 92 ∷ (replicate 19 0 ++ (52 ∷ 18 ∷ 0 ∷ 0 ∷ []))

abbrev memory : List ℕ
memory = root_pointer ++ root_table

abbrev at_0 : Response
at_0 = record { revision = 0; value = 0 }

abbrev checksum_of_pointer : Bytes
checksum_of_pointer = record { ptr = 0; len = 20 }

validate-total_example : validate checksum_of_pointer memory ≡ ok true
validate-total_example = validate-total memory checksum_of_pointer (omega arith)

found :
    (setup 0 (some at_0) (some at_0) memory >>= λ acpi. sdt_get (some acpi) 0 memory) ≡ ok 0x1234
unfolding setup validate sum_from bytes_get sdt_validate sdt_get sdt_count
found = refl

not_found :
    (setup 0 (some at_0) (some at_0) memory >>= λ acpi. sdt_get (some acpi) 1 memory)
    ≡ stop assertion_failed
unfolding setup validate sum_from bytes_get sdt_validate sdt_get sdt_count
not_found = refl

damaged : setup 0 (some at_0) (some at_0) (1 ∷ memory) ≡ stop (kpanic rsdp_checksum)
unfolding setup validate sum_from bytes_get
damaged = refl
