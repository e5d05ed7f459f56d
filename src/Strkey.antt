-- ===== src/Strkey.antt =====
-- The textual address form of src/soroban/strkey.ts. A text is a list of character codes.
pub mod Encoding
use stellar_debugger.Prelude.{
  ℕ, zero, suc, ◌+◌, ◌-◌, ◌*◌, ◌/◌, ◌%◌, ◌^◌, Bool, true, false, Option, none, some, List, [], ◌∷◌,
  ◌++◌, length, get_elem?, ltb, leb, ◌==◌, if◌then◌else◌,
}
use stellar_debugger.Bytes.{Result, ok, fail}
use stellar_debugger.Lines.{codes}
use Prim.Native.Nat.{bit_xor}

-- The one error: a payload that is not 32 bytes long.
pub data StrkeyError : Type 0 where
  bad_length : ℕ → StrkeyError

abbrev pub version_contract : ℕ
version_contract = 16

abbrev pub version_ed25519_public_key : ℕ
version_ed25519_public_key = 48

abbrev pub address_bytes : ℕ
address_bytes = 32

-- One bit of the CRC: `& 0x8000` is a test of the top one of 16 bits.
unfoldable pub crc_bit : ℕ → ℕ
crc_bit crc =
    if leb 0x8000 (crc % 0x10000) then bit_xor (crc * 2) 0x1021 % 0x10000 else crc * 2 % 0x10000

unfoldable pub crc_bits : ℕ → ℕ → ℕ
unfolding crc_bit
crc_bits zero crc = crc
crc_bits (suc n) crc = crc_bits n (crc_bit crc)

unfoldable pub crc_loop : List ℕ → ℕ → ℕ
unfolding crc_bits
crc_loop [] crc = crc
crc_loop (byte ∷ bytes) crc = crc_loop bytes (crc_bits 8 (bit_xor crc (byte * 0x100)))

unfoldable pub crc16_xmodem : List ℕ → ℕ
unfolding crc_loop
crc16_xmodem bytes = crc_loop bytes 0 % 0x10000

-- `BASE32_ALPHABET[value & 0x1f]`
unfoldable pub base32_char : ℕ → ℕ
base32_char value = elim (get_elem? (codes "ABCDEFGHIJKLMNOPQRSTUVWXYZ234567") (value % 32)) [
  | none ↦ 0
  | some c ↦ c
]

-- `while (bits >= 5)`: the characters, then the bits that are left. At most one round for each bit.
unfoldable pub emit : ℕ → ℕ → ℕ → List ℕ × ℕ
unfolding base32_char
emit zero bits buffer = ([], bits)
emit (suc fuel) bits buffer =
    let more = emit fuel (bits - 5) buffer in
    if leb 5 bits then (base32_char (buffer / 2 ^ (bits - 5)) ∷ more.0, more.1) else ([], bits)

-- The characters of the bytes, with the last one for the bits that are left over. A bit operation
-- of the source keeps 32 bits of the buffer, whose low 12 at most are read.
unfoldable pub base32_loop : List ℕ → ℕ → ℕ → List ℕ
unfolding emit base32_char
base32_loop [] buffer bits = if ltb 0 bits then base32_char (buffer * 2 ^ (5 - bits)) ∷ [] else []
base32_loop (byte ∷ bytes) buffer bits =
    let buffer' = (buffer * 0x100 + byte) % 2 ^ 32 in
    let emitted = emit (bits + 8) (bits + 8) buffer' in
    emitted.0 ++ base32_loop bytes buffer' emitted.1

unfoldable pub base32_encode : List ℕ → List ℕ
unfolding base32_loop
base32_encode bytes = base32_loop bytes 0 0

-- The checksum goes in little-endian.
unfoldable pub with_checksum : List ℕ → List ℕ
unfolding crc16_xmodem
with_checksum body =
    let checksum = crc16_xmodem body in body ++ checksum % 0x100 ∷ checksum / 0x100 % 0x100 ∷ []

unfoldable pub encode_check : ℕ → List ℕ → Result StrkeyError (List ℕ)
unfolding base32_encode with_checksum
encode_check version payload =
    if length payload == 32
    then ok (base32_encode (with_checksum (version ∷ payload)))
    else fail (bad_length (length payload))

unfoldable pub encode_contract : List ℕ → Result StrkeyError (List ℕ)
unfolding encode_check
encode_contract raw = encode_check version_contract raw

unfoldable pub encode_ed25519_public_key : List ℕ → Result StrkeyError (List ℕ)
unfolding encode_check
encode_ed25519_public_key raw = encode_check version_ed25519_public_key raw
