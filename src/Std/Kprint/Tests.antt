-- ===== src/Std/Kprint/Tests.antt =====
-- Runs of std/kprint.c, and the theorems at concrete numbers and formats.
use brackos.Base.{
  ℕ, ◌+◌, ◌-◌, ◌*◌, ◌/◌, ◌^◌, ◌≤◌, ◌≡◌, refl, true, false, List, [], ◌∷◌, ◌++◌, replicate, length,
  arith,
}
use brackos.Base.Outcome.{ok, fault}
use brackos.Std.Kprint.{
  word, kputs, put_digits, kprint_uint, kprint_int, kprint_hex_uint, hex_bytes, kputch_hex,
  hex_char, log2, log2_from, scale, kprint_memory, kprintf,
}
use brackos.Std.Kprint.Decimal.{IsDecimal, kprint_uint-IsDecimal}
use brackos.Std.Kprint.Signed.{IsSigned, kprint_int-IsSigned, kprint_int-least}
use brackos.Std.Kprint.Hex.{hex_value, AllHex, kprint_hex_uint-hex_value}
use brackos.Std.Kprint.Memory.{Scaled, units, kprint_memory-Scaled}
use brackos.Std.Kprint.Format.{kprintf_percent, kprintf_unsigned}

abbrev stack : List ℕ
stack = replicate 13 0xAA

prints_420 : kprint_uint stack 420 ≡ ok (b'4' ∷ (b'2' ∷ (b'0' ∷ [])))
unfolding kprint_uint put_digits kputs
prints_420 = refl

prints_minus_7 : kprint_int stack (2 ^ 32 - 7) ≡ ok (b'-' ∷ (b'7' ∷ []))
unfolding kprint_int put_digits kputs
prints_minus_7 = refl

prints_beef : kprint_hex_uint 0xbeef true false ≡ b'B' ∷ (b'E' ∷ (b'E' ∷ (b'F' ∷ [])))
unfolding kprint_hex_uint hex_bytes kputch_hex hex_char
prints_beef = refl

prints_5_mega : kprint_memory stack (5 * 1024 * 1024 + 9) ≡ ok (b'5' ∷ (b'M' ∷ (b'B' ∷ [])))
unfolding kprint_memory log2 log2_from scale kprint_uint put_digits kputs
prints_5_mega = refl

kprint_uint-IsDecimal_example :
    (out : List ℕ) × (kprint_uint stack 4294967295 ≡ ok out) × IsDecimal 4294967295 out
kprint_uint-IsDecimal_example = kprint_uint-IsDecimal stack 4294967295 (omega arith) (omega arith)

kprint_int-IsSigned_instance :
    (out : List ℕ) × (kprint_int stack (2 ^ 31 + 1) ≡ ok out) × IsSigned (2 ^ 31 + 1) out
kprint_int-IsSigned_instance =
    kprint_int-IsSigned stack (2 ^ 31 + 1) (omega arith) (omega arith) (omega arith)

kprint_int-least_instance : kprint_int stack (2 ^ 31) ≡ ok (b'-' ∷ [])
kprint_int-least_instance = kprint_int-least stack (omega arith)

kprint_hex_uint-hex_value_example :
    (hex_value 0 (kprint_hex_uint 0xdeadbeef false true) ≡ 0xdeadbeef)
    × (length (kprint_hex_uint 0xdeadbeef false true) ≤ 8)
    × AllHex false (kprint_hex_uint 0xdeadbeef false true)
kprint_hex_uint-hex_value_example = kprint_hex_uint-hex_value 0xdeadbeef false true (omega arith)

kprint_memory-Scaled_instance :
    (k : ℕ) × (t : List ℕ) × (kprint_memory stack 0x7fe0000 ≡ ok (t ++ units k))
    × Scaled 0x7fe0000 k
    × IsDecimal (0x7fe0000 / 1024 ^ k) t
kprint_memory-Scaled_instance = kprint_memory-Scaled stack 0x7fe0000 (omega arith) (omega arith)

abbrev label : List ℕ
label = b'n' ∷ (b'=' ∷ [])

kprintf_percent_instance :
    (kprintf stack (label ++ (0 ∷ [])) [] ≡ ok label)
    × (kprintf stack (label ++ (b'%' ∷ (0 ∷ []))) [] ≡ fault)
    × (kprintf stack (label ++ (b'%' ∷ (b'%' ∷ (0 ∷ [])))) [] ≡ ok label)
kprintf_percent_instance = kprintf_percent stack label [] (omega arith)

kprintf_unsigned_instance :
    (t : List ℕ) × (kprintf stack
        (label ++ (b'%' ∷ (b'u' ∷ ((b'!' ∷ []) ++ (0 ∷ [])))))
        (word 99 ∷ [])
      ≡ ok (label ++ (t ++ (b'!' ∷ []))))
    × IsDecimal 99 t
kprintf_unsigned_instance =
    kprintf_unsigned stack label (b'!' ∷ []) 99 (omega arith) (omega arith) (omega arith)
      (omega arith)
