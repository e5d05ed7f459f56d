-- ===== src/Examples/Binary.antt =====
-- Runs and examples for the wasm sections, the byte cursor, the line table, strkeys and flags.
use stellar_debugger.Prelude.{
  ℕ, String, Bool, true, false, none, some, List, [], ◌∷◌, ◌≡◌, refl, ◌↔◌,
}
use stellar_debugger.Prelude.Dict.{insert}
use stellar_debugger.Bytes.{ok}
use stellar_debugger.Wasm.{ParsedWasm, WasmSection, read_uleb, parse_wasm_sections}
use stellar_debugger.Wasm.Sound.{Sound}
use stellar_debugger.Wasm.Tiling.{Tiles, parse_wasm_sections-Sound}
use stellar_debugger.Prelude.Int.{pos}
use stellar_debugger.Dwarf.LineTable.{LineEntry, sort_entries, lookup_entry}
use stellar_debugger.Dwarf.LineTable.Lookup.{IsLookup, lookup_entry-IsLookup}
use stellar_debugger.Flags.{FlagSpec, parse_flags, parsed, missing_value}
use stellar_debugger.Flags.Grammar.{
  Flag, render, AreDeclared, values_of, switches_of, parse_flags_iff,
}

abbrev three_hundred : List ℕ
three_hundred = 7 ∷ 0xac ∷ 0x02 ∷ []

three_hundred_read : read_uleb three_hundred 1 ≡ ok (300, 3)
unfolding read_uleb
three_hundred_read = refl

-- A custom section named by the byte 65, and a code section.
abbrev small_module : List ℕ
small_module =
    0x00 ∷ 0x61 ∷ 0x73 ∷ 0x6d ∷ 0x01 ∷ 0x00 ∷ 0x00 ∷ 0x00 ∷ 0 ∷ 3 ∷ 1 ∷ 65 ∷ 9 ∷ 10 ∷ 1 ∷ 0 ∷ []

abbrev one_name : List ℕ → String
one_name text = "A"

abbrev keep_debug : String → Bool
keep_debug name = false

abbrev small_parsed : ParsedWasm
small_parsed =
    let code : WasmSection = record {
      id = 10;
      name = none;
      start = 13;
      payload_start = 15;
      payload_end = 16;
    } in
    record {
      bytes = small_module;
      sections =
          record { id = 0; name = some "A"; start = 8; payload_start = 12; payload_end = 13 }
          ∷ code
          ∷ [];
      code_section = some code;
    }

small_module_parsed : parse_wasm_sections one_name small_module ≡ ok small_parsed
unfolding parse_wasm_sections
small_module_parsed = refl

parse_wasm_sections-Sound_example :
    Sound
      (λ parsed. (parsed.bytes ≡ small_module) × Tiles 8 16 parsed.sections)
      (parse_wasm_sections one_name small_module)
parse_wasm_sections-Sound_example = parse_wasm_sections-Sound one_name small_module

abbrev row_at : ℕ → ℕ → Bool → LineEntry
row_at address line last = record {
  address = address;
  path = "lib.rs";
  line = pos line;
  column = 1;
  is_stmt = true;
  end_sequence = last;
}

abbrev three_rows : List LineEntry
three_rows = row_at 20 7 false ∷ row_at 20 0 true ∷ row_at 4 3 false ∷ []

-- The row that starts where a sequence ends wins.
lookup_at_end : lookup_entry (sort_entries three_rows) 25 ≡ some (row_at 20 7 false)
unfolding lookup_entry sort_entries
lookup_at_end = refl

lookup_entry-IsLookup_example : IsLookup three_rows 25 (lookup_entry (sort_entries three_rows) 25)
lookup_entry-IsLookup_example = lookup_entry-IsLookup three_rows 25

abbrev zeros_4 : List ℕ → List ℕ
zeros_4 l = 0 ∷ 0 ∷ 0 ∷ 0 ∷ l

abbrev zero_address : List ℕ
zero_address = zeros_4 (zeros_4 (zeros_4 (zeros_4 (zeros_4 (zeros_4 (zeros_4 (zeros_4 [])))))))

abbrev out_spec : FlagSpec
out_spec = record { value = "--out" ∷ []; switches = some ("--all" ∷ []) }

out_parsed :
    parse_flags ("--out" ∷ "a" ∷ "--all" ∷ "--out" ∷ "b" ∷ []) out_spec
    ≡ parsed (("--out", "b") ∷ []) ("--all" ∷ [])
unfolding parse_flags insert
out_parsed = refl

out_missing : parse_flags ("--out" ∷ "--all" ∷ []) out_spec ≡ missing_value "--out"
unfolding parse_flags
out_missing = refl

parse_flags_iff_example : (parse_flags ("--all" ∷ []) out_spec ≡ parsed [] ("--all" ∷ [])) ↔ (
    (flags : List Flag) × ("--all" ∷ [] ≡ render flags)
    × AreDeclared out_spec flags
    × ([] ≡ values_of flags [])
    × ("--all" ∷ [] ≡ switches_of flags []))
parse_flags_iff_example = parse_flags_iff ("--all" ∷ []) out_spec [] ("--all" ∷ [])
