-- ===== src/Dwarf/LineTable/Build.antt =====
-- How src/dwarf/LineTable.ts builds its table from a wasm binary.
use stellar_debugger.Prelude.{
  ℕ, ◌+◌, String, Bool, false, ◌&&◌, ◌||◌, not, Option, none, some, List, [], ◌∷◌, ◌++◌, get_elem?,
  str_eq, if◌then◌else◌,
}
use stellar_debugger.Prelude.NatMap.{NatMap, get, set}
use stellar_debugger.Prelude.Sort.{sort_by}
use stellar_debugger.Bytes.{Result, ok, fail, ◌>>=◌}
use stellar_debugger.Ledger.Queries.{text_before}
use stellar_debugger.Wasm.{WasmFormatError, ParsedWasm, parse_wasm_sections, custom_section}
use stellar_debugger.Dwarf.{DwarfParseError, missing_abbrev}
use stellar_debugger.Dwarf.Die.{DebugInfoSections, CompilationUnitInfo, scan_compilation_units}
use stellar_debugger.Dwarf.Line.{
  LineRow, LineProgramFile, LineProgramUnit, LineProgramAux, parse_line_program,
}
use stellar_debugger.Dwarf.LineTable.{LineEntry, sort_entries}

pub record DwarfLineTable : Type 0 where
  pub entries : List LineEntry
  pub files_by_program : NatMap (List String)

-- The errors that `fromWasm` may throw.
pub data TableError : Type 0 where
  wasm_error : WasmFormatError → TableError
  dwarf_error : DwarfParseError → TableError

abbrev pub of_wasm : {A : Type 0} → Result WasmFormatError A → Result TableError A
of_wasm (ok a) = ok a
of_wasm (fail e) = fail (wasm_error e)

abbrev pub of_dwarf : {A : Type 0} → Result DwarfParseError A → Result TableError A
of_dwarf (ok a) = ok a
of_dwarf (fail e) = fail (dwarf_error e)

-- `o ?? ''`
abbrev pub or_empty : Option String → String
or_empty none = ""
or_empty (some s) = s

-- `filesByProgram.get(stmtListOffset)?.[fileIndex]`
unfoldable pub file_path : DwarfLineTable → ℕ → ℕ → Option String
unfolding get
file_path table stmt_list_offset file_index = elim (get table.files_by_program stmt_list_offset) [
  | none ↦ none
  | some paths ↦ get_elem? paths file_index
]

abbrev pub has_path : List String → String → Bool
has_path [] path = false
has_path (p ∷ paths) path = str_eq p path || has_path paths path

-- The paths of the mapped rows after those that `unique` has.
unfoldable pub unique_paths : List LineEntry → List String → List String
unique_paths [] unique = unique
unique_paths (e ∷ entries) unique =
    unique_paths entries
      (if not e.end_sequence && not (has_path unique e.path) then unique ++ e.path ∷ [] else unique)

unfoldable pub files : DwarfLineTable → List String
unfolding unique_paths sort_by text_before
files table = sort_by text_before (unique_paths table.entries [])

abbrev pub entry_of : LineRow → String → LineEntry
entry_of row path = record {
  address = row.address;
  path = path;
  line = row.line;
  column = row.column;
  is_stmt = row.is_stmt;
  end_sequence = row.end_sequence;
}

-- The offset of a program that the map does not have.
unfoldable pub new_program : NatMap (List String) → Option ℕ → Option ℕ
unfolding get
new_program known none = none
new_program known (some o) = elim (get known o) [ some paths ↦ none | none ↦ some o ]

-- The functions of Node's `path.posix`.
pub record PosixPath : Type 0 where
  pub is_absolute : String → Bool
  pub normalize : String → String
  pub join : String → String → String

module _ (posix : PosixPath) where
  unfoldable pub file_name : Option LineProgramFile → Option String → String
  file_name none cu_name = or_empty cu_name
  file_name (some file) cu_name = if str_eq file.name "" then or_empty cu_name else file.name

  unfoldable pub file_dir : LineProgramUnit → Option LineProgramFile → String
  file_dir unit none = ""
  file_dir unit (some file) = or_empty (get_elem? unit.directories file.dir_index)

  unfoldable pub resolve_file_path : LineProgramUnit → CompilationUnitInfo → ℕ → String
  unfolding file_name file_dir
  resolve_file_path unit cu file_index =
      let file = get_elem? unit.files file_index in
      let name = file_name file cu.name in
      let dir = file_dir unit file in
      let base = if posix.is_absolute dir then dir else posix.join (or_empty cu.comp_dir) dir in
      if posix.is_absolute name
      then posix.normalize name
      else posix.normalize (posix.join base name)

  -- The path of a file index, and the cache with it.
  unfoldable pub resolve_cached :
      LineProgramUnit → CompilationUnitInfo → NatMap String → ℕ → String × NatMap String
  unfolding resolve_file_path get set
  resolve_cached unit cu cache file_index = elim (get cache file_index) [
    | some path ↦ (path, cache)
    | none ↦ let path = resolve_file_path unit cu file_index in (path, set cache file_index path)
  ]

  -- What the rows add to `out`.
  unfoldable pub collect_loop :
      LineProgramUnit → CompilationUnitInfo → NatMap String → List LineRow → List LineEntry
  unfolding resolve_cached
  collect_loop unit cu cache [] = []
  collect_loop unit cu cache (row ∷ rows) =
      let r = resolve_cached unit cu cache row.file_index in
      entry_of row r.0 ∷ collect_loop unit cu r.1 rows

  unfoldable pub collect_entries : LineProgramUnit → CompilationUnitInfo → List LineEntry
  unfolding collect_loop
  collect_entries unit cu = collect_loop unit cu [] unit.rows

  -- The paths of the files from `index` on.
  unfoldable pub paths_from :
      LineProgramUnit → CompilationUnitInfo → ℕ → List LineProgramFile → List String
  unfolding resolve_file_path
  paths_from unit cu index [] = []
  paths_from unit cu index (file ∷ rest) =
      resolve_file_path unit cu index ∷ paths_from unit cu (index + 1) rest

  -- `Buffer.toString('utf8')` is a parameter.
  module _ (utf8 : List ℕ → String) where
    unfoldable pub units_loop :
        List ℕ
        → LineProgramAux
        → List CompilationUnitInfo
        → NatMap (List String)
        → List LineEntry
        → Result DwarfParseError (List LineEntry × NatMap (List String))
    unfolding new_program parse_line_program set paths_from collect_entries
    units_loop debug_line aux [] known out = ok (out, known)
    units_loop debug_line aux (cu ∷ cus) known out = elim (new_program known cu.stmt_list_offset) [
      | none ↦ units_loop debug_line aux cus known out
      | some o ↦ parse_line_program utf8 debug_line o aux >>= λ unit.
          units_loop debug_line aux cus (set known o (paths_from unit cu 0 unit.files))
            (out ++ collect_entries unit cu)
    ]

    unfoldable pub build_table : List ℕ → DebugInfoSections → Result DwarfParseError DwarfLineTable
    unfolding scan_compilation_units units_loop sort_entries
    build_table debug_line sections = scan_compilation_units utf8 sections >>= λ cus.
        units_loop debug_line
          (record {
            str_section = sections.str_section;
            line_str_section = sections.line_str_section;
          })
          cus [] []
        >>= λ r. ok (record { entries = sort_entries r.0; files_by_program = r.1 })

    unfoldable pub table_of :
        ParsedWasm → Option (List ℕ) → Option (List ℕ) → Result TableError (Option DwarfLineTable)
    unfolding custom_section build_table
    table_of parsed none info = ok none
    table_of parsed (some debug_line) none = ok none
    table_of parsed (some debug_line) (some info) = elim (custom_section parsed ".debug_abbrev") [
      | none ↦ fail (dwarf_error missing_abbrev)
      | some abbrevs ↦
          of_dwarf (
            build_table debug_line (record {
              info = info;
              abbrevs = abbrevs;
              str_section = custom_section parsed ".debug_str";
              line_str_section = custom_section parsed ".debug_line_str";
            }))
          >>= λ table. ok (some table)
    ]

    unfoldable pub from_wasm : List ℕ → Result TableError (Option DwarfLineTable)
    unfolding parse_wasm_sections custom_section table_of
    from_wasm bytes = of_wasm (parse_wasm_sections utf8 bytes) >>= λ parsed.
        table_of parsed (custom_section parsed ".debug_line") (custom_section parsed ".debug_info")
