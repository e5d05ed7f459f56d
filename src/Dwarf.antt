-- ===== src/Dwarf.antt =====
-- The byte cursor of src/dwarf/cursor.ts. A reader takes the cursor and returns what it read with
-- the cursor after it.
pub mod LineTable
pub mod Abbrev
pub mod DebugLoc
pub mod Location
pub mod Forms
pub mod Die
pub mod Scope
pub mod Line
pub mod TypeRegistry
use stellar_debugger.Prelude.{
  ℕ, zero, suc, ◌+◌, ◌-◌, ◌*◌, ◌^◌, ◌%◌, String, Bool, true, false, not, ◌&&◌, Option, none, some,
  List, [], ◌∷◌, ◌++◌, length, get_elem?, take, drop, ltb, leb, ◌==◌, if◌then◌else◌,
}
use stellar_debugger.Prelude.Int.{ℤ, pos, sub_ℕ}
use stellar_debugger.Bytes.{Result, ok, fail, ◌>>=◌, subarray}

-- What a `DwarfParseError` is about. `out_of_rounds` is none of the source's: it stands for a loop
-- that the fuel does not carry to the end.
pub data DwarfParseError : Type 0 where
  past_end unsupported_64_bit unterminated unknown_form unsupported_size unsupported_version :
      DwarfParseError
  unknown_code outside_unit missing_abbrev out_of_rounds : DwarfParseError

pub record Cursor : Type 0 where
  pub buffer : List ℕ
  pub offset : ℕ

abbrev pub Read : Type 0 → Type 0
Read A = Result DwarfParseError (A × Cursor)

unfoldable pub remaining : Cursor → ℕ
remaining c = length c.buffer - c.offset

unfoldable pub at_end : Cursor → Bool
at_end c = leb (length c.buffer) c.offset

-- `require(n)`, then `offset += n`.
unfoldable pub skip : ℕ → Cursor → Result DwarfParseError Cursor
skip n c =
    if ltb (length c.buffer) (c.offset + n)
    then fail past_end
    else ok (record c { offset = c.offset + n })

unfoldable pub bytes : ℕ → Cursor → Read (List ℕ)
unfolding skip
bytes n c = skip n c >>= λ c'. ok (subarray c.buffer c.offset (c.offset + n), c')

-- `data[offset + i]`, in range once `require` has passed.
unfoldable pub byte_at : Cursor → ℕ → ℕ
byte_at c i = elim (get_elem? c.buffer (c.offset + i)) [ none ↦ 0 | some b ↦ b ]

unfoldable pub u8 : Cursor → Read ℕ
unfolding skip byte_at
u8 c = skip 1 c >>= λ c'. ok (byte_at c 0, c')

-- The bytes are below 256, so `|` adds the shifted one.
unfoldable pub u16 : Cursor → Read ℕ
unfolding skip byte_at
u16 c = skip 2 c >>= λ c'. ok (byte_at c 0 + byte_at c 1 * 0x100, c')

unfoldable pub u32 : Cursor → Read ℕ
unfolding skip byte_at
u32 c = skip 4 c >>= λ c'.
    ok (byte_at c 0 + byte_at c 1 * 0x100 + byte_at c 2 * 0x10000 + byte_at c 3 * 0x1000000, c')

-- The loop of `uleb` over the bytes that are left; a `u8` past the last one throws.
unfoldable pub uleb_loop : List ℕ → ℕ → ℕ → ℕ → Result DwarfParseError (ℕ × ℕ)
uleb_loop [] offset value shift = fail past_end
uleb_loop (byte ∷ rest) offset value shift =
    let value' = value + byte % 128 * 2 ^ shift in
    let more = uleb_loop rest (offset + 1) value' (shift + 7) in
    if ltb byte 128 then ok (value', offset + 1) else more

-- Exact on the natural numbers; the source's numbers are exact below 2^53.
unfoldable pub uleb : Cursor → Read ℕ
unfolding uleb_loop
uleb c =
    uleb_loop (drop c.offset c.buffer) c.offset 0 0 >>= λ r. ok (r.0, record c { offset = r.1 })

-- The value, with the sign that bit 6 of the last byte carries below shift 53.
unfoldable pub sign_extend : ℕ → ℕ → ℕ → ℤ
sign_extend value shift byte =
    if ltb shift 53 && leb 64 (byte % 128) then sub_ℕ value (2 ^ shift) else pos value

unfoldable pub sleb_loop : List ℕ → ℕ → ℕ → ℕ → Result DwarfParseError (ℤ × ℕ)
unfolding sign_extend
sleb_loop [] offset value shift = fail past_end
sleb_loop (byte ∷ rest) offset value shift =
    let value' = value + byte % 128 * 2 ^ shift in
    let more = sleb_loop rest (offset + 1) value' (shift + 7) in
    if ltb byte 128 then ok (sign_extend value' (shift + 7) byte, offset + 1) else more

unfoldable pub sleb : Cursor → Read ℤ
unfolding sleb_loop
sleb c =
    sleb_loop (drop c.offset c.buffer) c.offset 0 0 >>= λ r. ok (r.0, record c { offset = r.1 })

unfoldable pub initial_length : Cursor → Read ℕ
unfolding u32
initial_length c = u32 c >>= λ r. if leb 0xfffffff0 r.0 then fail unsupported_64_bit else ok r

-- `data.indexOf(0, offset)`, over the bytes from `offset` on.
unfoldable pub index_of_zero : List ℕ → ℕ → Option ℕ
index_of_zero [] offset = none
index_of_zero (b ∷ rest) offset =
    let more = index_of_zero rest (offset + 1) in if b == 0 then some offset else more

-- `Buffer.toString('utf8')` is a parameter.
unfoldable pub cstring : (List ℕ → String) → Cursor → Read String
unfolding index_of_zero
cstring utf8 c = elim (index_of_zero (drop c.offset c.buffer) c.offset) [
  | none ↦ fail unterminated
  | some end ↦ ok (utf8 (subarray c.buffer c.offset end), record c { offset = end + 1 })
]

unfoldable pub sub : ℕ → Cursor → Read Cursor
unfolding bytes
sub n c = bytes n c >>= λ r. ok (record { buffer = r.0; offset = 0 }, r.1)
