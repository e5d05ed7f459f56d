-- ===== src/Wasm.antt =====
-- The section walker of src/wasm/sections.ts.
pub mod Uleb
pub mod Sound
pub mod Tiling
pub mod Strip
use stellar_debugger.Prelude.{
  ℕ, zero, suc, ◌+◌, ◌-◌, ◌*◌, ◌^◌, ◌%◌, String, Bool, true, false, not, ◌&&◌, ◌||◌, Option, none,
  some, List, [], ◌∷◌, ◌++◌, length, get_elem?, take, drop, ltb, leb, ◌==◌, str_eq, if◌then◌else◌,
}
use stellar_debugger.Bytes.{Result, ok, fail, ◌>>=◌, subarray}

-- What a `WasmFormatError` is about. `out_of_rounds` is none of the source's: it stands for a walk
-- that the fuel does not carry to the end.
pub data WasmFormatError : Type 0 where
  too_short bad_magic bad_version section_past_end name_past_section : WasmFormatError
  uleb_runs_off uleb_too_long out_of_rounds : WasmFormatError

pub record WasmSection : Type 0 where
  pub id : ℕ
  pub name : Option String
  pub start : ℕ
  pub payload_start : ℕ
  pub payload_end : ℕ

pub record ParsedWasm : Type 0 where
  pub bytes : List ℕ
  pub sections : List WasmSection
  pub code_section : Option WasmSection

-- The rounds left of the five, the bytes from the one to read on, `i`, and the value so far. The
-- entries of a byte array are below 256, so `& 0x80` tests them against 128.
unfoldable pub uleb_rounds : ℕ → List ℕ → ℕ → ℕ → ℕ → Result WasmFormatError (ℕ × ℕ)
uleb_rounds zero rest offset i value = fail uleb_too_long
uleb_rounds (suc n) [] offset i value = fail uleb_runs_off
uleb_rounds (suc n) (byte ∷ rest) offset i value =
    let value' = value + byte % 128 * 2 ^ (7 * i) in
    let more = uleb_rounds n rest offset (i + 1) value' in
    if ltb byte 128 then ok (value', offset + i + 1) else more

-- The value at `offset`, and the offset after it.
unfoldable pub read_uleb : List ℕ → ℕ → Result WasmFormatError (ℕ × ℕ)
unfolding uleb_rounds
read_uleb bytes offset = uleb_rounds 5 (drop offset bytes) offset 0 0

-- `SECTION.every((b, i) => bytes[i] === b)`, where the buffer is long enough.
unfoldable pub every_byte : List ℕ → List ℕ → Bool
every_byte [] bytes = true
every_byte (b ∷ bs) [] = false
every_byte (b ∷ bs) (x ∷ bytes) = x == b && every_byte bs bytes

-- `sections.find((s) => s.id === CODE_SECTION_ID)`
unfoldable pub find_code : List WasmSection → Option WasmSection
find_code [] = none
find_code (s ∷ rest) = let more = find_code rest in if s.id == 10 then some s else more

-- The content of the first custom section with this name.
unfoldable pub custom_in : List ℕ → List WasmSection → String → Option (List ℕ)
custom_in bytes [] name = none
custom_in bytes (s ∷ rest) name =
    let more = custom_in bytes rest name in
    if s.id == 0 && elim s.name [ none ↦ false | some n ↦ str_eq n name ]
    then some (subarray bytes s.payload_start s.payload_end)
    else more

unfoldable pub custom_section : ParsedWasm → String → Option (List ℕ)
unfolding custom_in
custom_section parsed name = custom_in parsed.bytes parsed.sections name

-- The parts that `stripCustomSections` keeps, joined.
unfoldable pub is_removed : (String → Bool) → WasmSection → Bool
is_removed should_remove s = s.id == 0 && elim s.name [ none ↦ false | some n ↦ should_remove n ]

unfoldable pub kept_parts : (String → Bool) → List ℕ → List WasmSection → List ℕ
unfolding is_removed
kept_parts should_remove bytes [] = []
kept_parts should_remove bytes (s ∷ rest) =
    let more = kept_parts should_remove bytes rest in
    if is_removed should_remove s then more else subarray bytes s.start s.payload_end ++ more

-- `Buffer.toString('utf8')` is a parameter.
module _ (utf8 : List ℕ → String) where
  -- The name of a custom section whose content starts at `offset`, and the end of the name.
  unfoldable pub section_name : List ℕ → ℕ → ℕ → Result WasmFormatError (String × ℕ)
  unfolding read_uleb
  section_name bytes offset section_end = read_uleb bytes offset >>= λ r.
      if ltb section_end (r.1 + r.0)
      then fail name_past_section
      else ok (utf8 (subarray bytes r.1 (r.1 + r.0)), r.1 + r.0)

  unfoldable pub section_content : List ℕ → ℕ → ℕ → ℕ → ℕ → Result WasmFormatError WasmSection
  unfolding section_name
  section_content bytes id start offset section_end =
      if id == 0
      then section_name bytes offset section_end >>= (λ n. ok (record {
        id = id;
        name = some n.0;
        start = start;
        payload_start = n.1;
        payload_end = section_end;
      }))
      else ok (record {
        id = id;
        name = none;
        start = start;
        payload_start = offset;
        payload_end = section_end;
      })

  -- One round of the walk: the section whose id byte is at `start`.
  unfoldable pub read_section : List ℕ → ℕ → ℕ → Result WasmFormatError WasmSection
  unfolding read_uleb section_content
  read_section bytes start id = read_uleb bytes (start + 1) >>= λ r.
      if ltb (length bytes) (r.1 + r.0)
      then fail section_past_end
      else section_content bytes id start r.1 (r.1 + r.0)

  unfoldable pub sections_loop : ℕ → List ℕ → ℕ → Result WasmFormatError (List WasmSection)
  unfolding read_section
  sections_loop zero bytes offset = elim (get_elem? bytes offset) [
    | none ↦ ok []
    | some id ↦ fail out_of_rounds
  ]
  sections_loop (suc fuel) bytes offset = elim (get_elem? bytes offset) [
    | none ↦ ok []
    | some id ↦ read_section bytes offset id >>= λ s.
        sections_loop fuel bytes s.payload_end >>= λ rest. ok (s ∷ rest)
  ]

  unfoldable pub parse_wasm_sections : List ℕ → Result WasmFormatError ParsedWasm
  unfolding every_byte sections_loop find_code
  parse_wasm_sections bytes =
      if ltb (length bytes) 8
      then fail too_short
      else if not (every_byte (0x00 ∷ 0x61 ∷ 0x73 ∷ 0x6d ∷ []) bytes)
      then fail bad_magic
      else if not (every_byte (0x01 ∷ 0x00 ∷ 0x00 ∷ 0x00 ∷ []) (drop 4 bytes))
      then fail bad_version
      else sections_loop (length bytes) bytes 8 >>= λ sections.
          ok (record { bytes = bytes; sections = sections; code_section = find_code sections })

  unfoldable pub strip_custom_sections : List ℕ → (String → Bool) → Result WasmFormatError (List ℕ)
  unfolding parse_wasm_sections kept_parts
  strip_custom_sections bytes should_remove = parse_wasm_sections bytes >>= λ parsed.
      ok (subarray bytes 0 8 ++ kept_parts should_remove bytes parsed.sections)
