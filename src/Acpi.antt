-- ===== src/Acpi.antt =====
-- kernel/src/system/system_acpi.c: finding the root table of ACPI and the tables that it lists.
--
-- Memory is a list of bytes and a pointer an index into it; the structures are packed, so a field is
-- read at the sum of the sizes before it, the lowest byte first. What the boot loader answers is an
-- argument. Printing is left out.
pub mod Checksum
mod Tests
use drastic.Base.{
  ℕ, zero, suc, ◌+◌, ◌-◌, ◌*◌, ◌/◌, ◌%◌, ◌^◌, ◌≤◌, ◌<◌, bit_and, Bool, true, false, not, Option,
  none, some, List, ltb, leb, ◌==◌, if◌then◌else◌, Result, ok, stop, kpanic, assertion_failed,
  bad_pointer, rsdp_checksum, xsdp_checksum, rsdt_checksum, kassert, ◌>>=◌, ◌>>◌, read,
}
use drastic.PhysicalAllocator.{u32, u64}
use drastic.Bytes.{Bytes, bytes_get}

-- The loop of `system_acpi_validate` from `i` on, with the rounds left.
unfoldable pub sum_from : ℕ → ℕ → Bytes → List ℕ → ℕ → Result ℕ
sum_from zero i rsdp_data memory result = ok result
sum_from (suc left) i rsdp_data memory result = bytes_get rsdp_data i memory >>= λ byte.
    sum_from left (i + 1) rsdp_data memory (u32 (result + byte))

-- `system_acpi_validate`
unfoldable pub validate : Bytes → List ℕ → Result Bool
validate rsdp_data memory =
    sum_from rsdp_data.len 0 rsdp_data memory 0 >>= λ result. ok (bit_and result 0xff == 0)

abbrev pub read_u32 : List ℕ → ℕ → Result ℕ
read_u32 memory p = do
  b0 ← read memory p
  b1 ← read memory (p + 1)
  b2 ← read memory (p + 2)
  b3 ← read memory (p + 3)
  ok (b0 + b1 * 2 ^ 8 + b2 * 2 ^ 16 + b3 * 2 ^ 24)

abbrev pub read_u64 : List ℕ → ℕ → Result ℕ
read_u64 memory p = do
  low ← read_u32 memory p
  high ← read_u32 memory (p + 4)
  ok (low + high * 2 ^ 32)

-- The sizes of the three structures as they are declared.
abbrev pub size_of_rsdp : ℕ
size_of_rsdp = 8 + 1 + 6 + 1 + 4

abbrev pub size_of_xsdp : ℕ
size_of_xsdp = 20 + 4 + 8 + 1 + 3

abbrev pub size_of_sdt_header : ℕ
size_of_sdt_header = 4 + 4 + 1 + 1 + 6 + 1 + 4 + 4 + 4

-- `system_acpi_sdt_validate`
unfoldable pub sdt_validate : ℕ → List ℕ → Result Bool
sdt_validate sdt memory =
    read_u32 memory (sdt + 4) >>= λ length. validate (record { ptr = sdt; len = length }) memory

-- `System_Acpi`; `none` is the zeroed structure, whose pointers are null.
pub record Acpi : Type 0 where
  pub use_extended : Bool
  pub rsdp : ℕ
  pub sdt : ℕ

-- A response of the boot loader: its revision and the address or offset in it.
pub record Response : Type 0 where
  pub revision : ℕ
  pub value : ℕ

-- `response != NULL` and then `response->revision == 0`
abbrev pub response_value : Option Response → Result ℕ
response_value none = stop assertion_failed
response_value (some r) = kassert (r.revision == 0) >> ok r.value

unfoldable pub setup : ℕ → Option Response → Option Response → List ℕ → Result Acpi
setup rsdp_request_revision rsdp_response hhdm_response memory = do
  kassert (rsdp_request_revision == 0)
  rsdp ← response_value rsdp_response
  hhdm_offset ← response_value hhdm_response
  rsdp_valid ← validate (record { ptr = rsdp; len = size_of_rsdp }) memory
  (if rsdp_valid then ok tt else stop (kpanic rsdp_checksum))
  revision ← read memory (rsdp + 15)
  let extended = revision == 2
  xsdp_valid ←
      (if extended then validate (record { ptr = rsdp; len = size_of_xsdp }) memory else ok true)
  (if xsdp_valid then ok tt else stop (kpanic xsdp_checksum))
  physical ← (if extended then read_u64 memory (rsdp + 24) else read_u32 memory (rsdp + 16))
  let sdt = u64 (physical + hhdm_offset)
  sdt_valid ← sdt_validate sdt memory
  (if sdt_valid then ok tt else stop (kpanic rsdt_checksum))
  ok (record { use_extended = extended; rsdp = rsdp; sdt = sdt })

-- `(length - size) / width` with the sign of C: a length below the size gives a count of at most 0, which
-- is 0 here; both leave no valid item.
unfoldable pub sdt_count : Acpi → List ℕ → Result ℕ
sdt_count acpi memory = read_u32 memory (acpi.sdt + 4) >>= λ length.
    ok ((length - size_of_sdt_header) / (if acpi.use_extended then 8 else 4))

unfoldable pub sdt_get : Option Acpi → ℕ → List ℕ → Result ℕ
sdt_get none item memory = stop assertion_failed
sdt_get (some acpi) item memory = do
  item_count ← sdt_count acpi memory
  kassert (ltb item item_count)
  (if acpi.use_extended
      then read_u64 memory (acpi.sdt + size_of_sdt_header + 8 * item)
      else read_u32 memory (acpi.sdt + size_of_sdt_header + 4 * item))
