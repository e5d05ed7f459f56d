-- ===== src/Examples/LineTable.antt =====
-- A run of `DwarfLineTable.fromWasm` of src/dwarf/LineTable.ts on its sections.
use stellar_debugger.Prelude.{ℕ, ◌≡◌, refl, String, Bool, true, false, none, some, List, [], ◌∷◌}
use stellar_debugger.Prelude.Int.{pos}
use stellar_debugger.Bytes.{ok}
use stellar_debugger.Dwarf.{uleb, u8, u16, u32, cstring, sub, initial_length}
use stellar_debugger.Dwarf.Abbrev.{parse_abbrev_table}
use stellar_debugger.Dwarf.Die.{DebugInfoSections, CompilationUnitInfo, scan_compilation_units}
use stellar_debugger.Dwarf.Line.{parse_line_program}
use stellar_debugger.Dwarf.LineTable.{LineEntry}
use stellar_debugger.Dwarf.LineTable.Build.{
  PosixPath, DwarfLineTable, build_table, file_path, files, from_wasm,
}
use stellar_debugger.Dwarf.LineTable.Programs.{IsTableOf, build_table-IsTableOf}

abbrev as_name : List ℕ → String
as_name [] = ""
as_name (byte ∷ bytes) = "name"

-- A path is its last part.
abbrev last_parts : PosixPath
last_parts = record {
  is_absolute = λ path. false;
  normalize = λ path. path;
  join = λ base path. path;
}

-- One unit, with the program at 0.
abbrev unit_sections : DebugInfoSections
unit_sections = record {
  info = 12 ∷ 0 ∷ 0 ∷ 0 ∷ 4 ∷ 0 ∷ 0 ∷ 0 ∷ 0 ∷ 0 ∷ 4 ∷ 1 ∷ 0 ∷ 0 ∷ 0 ∷ 0 ∷ [];
  abbrevs = 1 ∷ 0x11 ∷ 0 ∷ 0x10 ∷ 0x17 ∷ 0 ∷ 0 ∷ 0 ∷ [];
  str_section = none;
  line_str_section = none;
}

-- A header of version 4 with one file, and a row at 0x10 with an end at 0x14.
abbrev line_section : List ℕ
line_section =
    44 ∷ 0 ∷ 0 ∷ 0 ∷ 4 ∷ 0 ∷ 25 ∷ 0 ∷ 0 ∷ 0 ∷ 1 ∷ 1 ∷ 1 ∷ 0xfd ∷ 12 ∷ 13 ∷ 0 ∷ 1 ∷ 1 ∷ 1 ∷ 1 ∷ 0 ∷ 0
    ∷ 0 ∷ 1 ∷ 0 ∷ 0 ∷ 1 ∷ 0 ∷ b'a' ∷ 0 ∷ 0 ∷ 0 ∷ 0 ∷ 0 ∷ 0 ∷ 5 ∷ 2 ∷ 0x10 ∷ 0 ∷ 0 ∷ 0 ∷ 1 ∷ 2 ∷ 4
    ∷ 0 ∷ 1 ∷ 1 ∷ []

abbrev one_unit : List CompilationUnitInfo
one_unit = record { stmt_list_offset = some 0; comp_dir = none; name = none } ∷ []

abbrev row_at : ℕ → Bool → LineEntry
row_at address end_sequence = record {
  address = address;
  path = "name";
  line = pos 1;
  column = 0;
  is_stmt = true;
  end_sequence = end_sequence;
}

abbrev unit_table : DwarfLineTable
unit_table = record {
  entries = row_at 0x10 false ∷ row_at 0x14 true ∷ [];
  files_by_program = (0, "" ∷ "name" ∷ []) ∷ [];
}

unit_scanned : scan_compilation_units as_name unit_sections ≡ ok one_unit
unfolding scan_compilation_units initial_length u16 u32 u8 parse_abbrev_table uleb cstring sub
unit_scanned = refl

unit_built : build_table last_parts as_name line_section unit_sections ≡ ok unit_table
unfolding build_table scan_compilation_units parse_line_program initial_length u16 u32 u8
    parse_abbrev_table uleb cstring sub
unit_built = refl

unit_files : files unit_table ≡ "name" ∷ []
unfolding files
unit_files = refl

unit_file : file_path unit_table 0 1 ≡ some "name"
unfolding file_path
unit_file = refl

build_table-IsTableOf_example :
    IsTableOf last_parts as_name line_section unit_sections one_unit unit_table
build_table-IsTableOf_example =
    build_table-IsTableOf last_parts as_name line_section unit_sections one_unit unit_table
      unit_scanned unit_built

-- A module with no sections has no table.
no_sections : from_wasm last_parts as_name (0 ∷ 0x61 ∷ 0x73 ∷ 0x6d ∷ 1 ∷ 0 ∷ 0 ∷ 0 ∷ []) ≡ ok none
unfolding from_wasm
no_sections = refl
