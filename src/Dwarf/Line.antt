-- ===== src/Dwarf/Line.antt =====
-- The line programs of src/dwarf/line.ts: the unit header with its tables, and the state machine.
pub mod Sequences
pub mod Rounds
use stellar_debugger.Prelude.{
  ℕ, zero, suc, ◌+◌, ◌-◌, ◌*◌, ◌/◌, ◌%◌, ◌^◌, String, Bool, true, false, not, ◌&&◌, Option, none,
  some, List, [], ◌∷◌, ◌++◌, map, length, get_elem?, drop, ltb, leb, ◌==◌, str_eq, if◌then◌else◌,
}
use stellar_debugger.Prelude.Int.{ℤ, pos, negsuc, ◌+ℤ◌, sub_ℕ}
use stellar_debugger.Bytes.{Result, ok, fail, ◌>>=◌}
use stellar_debugger.Dwarf.{
  DwarfParseError, out_of_rounds, unsupported_version, outside_unit, unknown_form, Cursor, Read,
  remaining, at_end, skip, u8, u16, u32, uleb, sleb, cstring, initial_length, sub,
}
use stellar_debugger.Dwarf.Forms.{skip_by_form, string_at}

pub record LineRow : Type 0 where
  pub address : ℕ
  pub file_index : ℕ
  pub line : ℤ
  pub column : ℕ
  pub is_stmt : Bool
  pub end_sequence : Bool

pub record LineProgramFile : Type 0 where
  pub name : String
  pub dir_index : ℕ

pub record LineProgramUnit : Type 0 where
  pub version : ℕ
  pub end_offset : ℕ
  pub directories : List String
  pub files : List LineProgramFile
  pub rows : List LineRow

pub record LineProgramAux : Type 0 where
  pub str_section : Option (List ℕ)
  pub line_str_section : Option (List ℕ)

pub record StateMachineParams : Type 0 where
  pub min_inst_length : ℕ
  pub default_is_stmt : Bool
  pub line_base : ℤ
  pub line_range : ℕ
  pub opcode_base : ℕ
  pub standard_opcode_lengths : List ℕ

-- The local variables of `runStateMachine` but `rows`.
pub record Registers : Type 0 where
  pub address : ℕ
  pub file : ℕ
  pub line : ℤ
  pub column : ℕ
  pub is_stmt : Bool

abbrev pub initial_registers : StateMachineParams → Registers
initial_registers p = record {
  address = 0;
  file = 1;
  line = pos 1;
  column = 0;
  is_stmt = p.default_is_stmt;
}

-- `emit`
abbrev pub row_of : Registers → Bool → LineRow
row_of r end_sequence = record {
  address = r.address;
  file_index = r.file;
  line = r.line;
  column = r.column;
  is_stmt = r.is_stmt;
  end_sequence = end_sequence;
}

-- What a round emits, and the registers after it.
abbrev pub Round : Type 0
Round = List LineRow × Registers

-- A special opcode. With a line range of 0 the source's numbers are not finite.
unfoldable pub special : StateMachineParams → ℕ → Registers → Round
special p opcode r =
    let adjusted = opcode - p.opcode_base in
    let moved : Registers = record r {
      address = r.address + adjusted / p.line_range * p.min_inst_length;
      line = r.line +ℤ (p.line_base +ℤ pos (adjusted % p.line_range));
    } in
    (row_of moved false ∷ [], moved)

-- Little-endian, byte `i` of `n` on.
unfoldable pub read_uint_le : ℕ → ℕ → ℕ → Cursor → Result DwarfParseError ℕ
read_uint_le zero i value c = ok value
read_uint_le (suc n) i value c =
    u8 c >>= λ b. read_uint_le n (i + 1) (value + b.0 * 2 ^ (8 * i)) b.1

-- `length > 0 ? body.u8() : 0`
unfoldable pub ext_opcode : ℕ → Cursor → Read ℕ
ext_opcode length body = if ltb 0 length then u8 body else ok (0, body)

-- DW_LNE_end_sequence is 1 and DW_LNE_set_address 2; any other body is passed over.
unfoldable pub extended : StateMachineParams → ℕ → Cursor → Registers → Result DwarfParseError Round
unfolding read_uint_le remaining
extended p code body r =
    if code == 1
    then ok (row_of r true ∷ [], initial_registers p)
    else if code == 2
    then read_uint_le (remaining body) 0 0 body >>= (λ a. ok ([], record r { address = a }))
    else ok ([], r)

unfoldable pub extended_round : StateMachineParams → Cursor → Registers → Read Round
unfolding ext_opcode extended
extended_round p c r = uleb c >>= λ n. sub n.0 n.1 >>= λ body.
    ext_opcode n.0 body.0 >>= λ code. extended p code.0 code.1 r >>= λ round. ok (round, body.1)

-- `standardOpcodeLengths[opcode - 1] ?? 0`
unfoldable pub operand_count : StateMachineParams → ℕ → ℕ
operand_count p opcode = elim (get_elem? p.standard_opcode_lengths (opcode - 1)) [
  | none ↦ 0
  | some n ↦ n
]

unfoldable pub skip_operands : ℕ → Cursor → Result DwarfParseError Cursor
skip_operands zero c = ok c
skip_operands (suc n) c = uleb c >>= λ v. skip_operands n v.1

abbrev pub quiet : Registers → Cursor → Read Round
quiet r c = ok (([], r), c)

-- DW_LNS_copy is 1, and so on in the order of constants.ts; the default passes over the operands.
unfoldable pub standard : StateMachineParams → ℕ → Cursor → Registers → Read Round
unfolding skip_operands operand_count
standard p opcode c r =
    if opcode == 1
    then ok ((row_of r false ∷ [], r), c)
    else if opcode == 2
    then uleb c >>= (λ n. quiet (record r { address = r.address + n.0 * p.min_inst_length }) n.1)
    else if opcode == 3
    then sleb c >>= (λ n. quiet (record r { line = r.line +ℤ n.0 }) n.1)
    else if opcode == 4
    then uleb c >>= (λ n. quiet (record r { file = n.0 }) n.1)
    else if opcode == 5
    then uleb c >>= (λ n. quiet (record r { column = n.0 }) n.1)
    else if opcode == 6
    then quiet (record r { is_stmt = not r.is_stmt }) c
    else if opcode == 8
    then quiet
        (record r {
          address = r.address + (255 - p.opcode_base) / p.line_range * p.min_inst_length;
        })
        c
    else if opcode == 9
    then u16 c >>= (λ n. quiet (record r { address = r.address + n.0 }) n.1)
    else skip_operands (operand_count p opcode) c >>= (λ c'. quiet r c')

unfoldable pub round : StateMachineParams → ℕ → Cursor → Registers → Read Round
unfolding special extended_round standard
round p opcode c r =
    if leb p.opcode_base opcode
    then ok (special p opcode r, c)
    else if opcode == 0
    then extended_round p c r
    else standard p opcode c r

-- `while (!program.atEnd)`: each round takes a byte at least.
unfoldable pub machine_loop :
    StateMachineParams
    → ℕ
    → Cursor
    → Registers
    → List LineRow
    → Result DwarfParseError (List LineRow)
unfolding round at_end
machine_loop p zero c r rows = if at_end c then ok rows else fail out_of_rounds
machine_loop p (suc fuel) c r rows = elim (at_end c) [
  | true ↦ ok rows
  | false ↦ u8 c >>= λ op.
      round p op.0 op.1 r >>= λ done. machine_loop p fuel done.1 done.0.1 (rows ++ done.0.0)
]

unfoldable pub run_state_machine :
    Cursor → StateMachineParams → Result DwarfParseError (List LineRow)
unfolding machine_loop
run_state_machine c p = machine_loop p (length c.buffer + 1) c (initial_registers p) []

unfoldable pub to_signed_8 : ℕ → ℤ
to_signed_8 byte = if leb 0x80 byte then sub_ℕ byte 0x100 else pos byte

abbrev pub file_entry : String → ℕ → LineProgramFile
file_entry name dir_index = record { name = name; dir_index = dir_index }

module _ (utf8 : List ℕ → String) where
  -- Each round of the loops over texts takes a byte at least.
  unfoldable pub v4_directories : ℕ → Cursor → List String → Read (List String)
  v4_directories zero c dirs = fail out_of_rounds
  v4_directories (suc fuel) c dirs = cstring utf8 c >>= λ s. elim (str_eq s.0 "") [
    | true ↦ ok (dirs, s.1)
    | false ↦ v4_directories fuel s.1 (dirs ++ s.0 ∷ [])
  ]

  -- The modification time and the size are read and dropped.
  unfoldable pub v4_files : ℕ → Cursor → List LineProgramFile → Read (List LineProgramFile)
  v4_files zero c files = fail out_of_rounds
  v4_files (suc fuel) c files = cstring utf8 c >>= λ s. elim (str_eq s.0 "") [
    | true ↦ ok (files, s.1)
    | false ↦ uleb s.1 >>= λ dir. uleb dir.1 >>= λ mtime.
        uleb mtime.1 >>= λ size. v4_files fuel size.1 (files ++ file_entry s.0 dir.0 ∷ [])
  ]

  unfoldable pub parse_v4_tables : Cursor → Read (List String × List LineProgramFile)
  unfolding v4_directories v4_files
  parse_v4_tables c = v4_directories (length c.buffer + 1) c ("" ∷ []) >>= λ dirs.
      v4_files (length c.buffer + 1) dirs.1 (file_entry "" 0 ∷ []) >>= λ files.
      ok ((dirs.0, files.0), files.1)

  unfoldable pub text_or_empty : Option String → String
  text_or_empty none = ""
  text_or_empty (some s) = s

  unfoldable pub read_path : ℕ → LineProgramAux → ℕ → Cursor → Read String
  unfolding string_at text_or_empty
  read_path form aux size c =
      if form == 0x08
      then cstring utf8 c
      else if form == 0x0e
      then u32 c >>= (λ n. ok (text_or_empty (string_at utf8 aux.str_section n.0), n.1))
      else if form == 0x1f
      then u32 c >>= (λ n. ok (text_or_empty (string_at utf8 aux.line_str_section n.0), n.1))
      else skip_by_form utf8 form size c >>= (λ c'. ok ("", c'))

  unfoldable pub read_directory_index : ℕ → Cursor → Read ℕ
  read_directory_index form c =
      if form == 0x0b
      then u8 c
      else if form == 0x05
      then u16 c
      else if form == 0x0f
      then uleb c
      else fail unknown_form

  -- Content types and forms, as many as the count says.
  unfoldable pub read_formats : ℕ → Cursor → Read (List (ℕ × ℕ))
  read_formats zero c = ok ([], c)
  read_formats (suc n) c = uleb c >>= λ t.
      uleb t.1 >>= λ f. read_formats n f.1 >>= λ rest. ok ((t.0, f.0) ∷ rest.0, rest.1)

  -- DW_LNCT_path is 1, DW_LNCT_directory_index 2.
  unfoldable pub read_field :
      ℕ → ℕ → LineProgramAux → ℕ → LineProgramFile → Cursor → Read LineProgramFile
  unfolding read_path read_directory_index
  read_field type form aux size e c =
      if type == 1
      then read_path form aux size c >>= (λ s. ok (record e { name = s.0 }, s.1))
      else if type == 2
      then read_directory_index form c >>= (λ n. ok (record e { dir_index = n.0 }, n.1))
      else skip_by_form utf8 form size c >>= (λ c'. ok (e, c'))

  unfoldable pub read_fields :
      List (ℕ × ℕ) → LineProgramAux → ℕ → LineProgramFile → Cursor → Read LineProgramFile
  unfolding read_field
  read_fields [] aux size e c = ok (e, c)
  read_fields ((type, form) ∷ formats) aux size e c =
      read_field type form aux size e c >>= λ r. read_fields formats aux size r.0 r.1

  unfoldable pub entries_loop :
      ℕ → List (ℕ × ℕ) → LineProgramAux → ℕ → Cursor → Read (List LineProgramFile)
  unfolding read_fields
  entries_loop zero formats aux size c = ok ([], c)
  entries_loop (suc n) formats aux size c =
      read_fields formats aux size (file_entry "" 0) c >>= λ e.
      entries_loop n formats aux size e.1 >>= λ rest. ok (e.0 ∷ rest.0, rest.1)

  unfoldable pub read_entries : LineProgramAux → ℕ → Cursor → Read (List LineProgramFile)
  unfolding read_formats entries_loop
  read_entries aux size c = u8 c >>= λ n. read_formats n.0 n.1 >>= λ formats.
      uleb formats.1 >>= λ count. entries_loop count.0 formats.0 aux size count.1

  unfoldable pub parse_v5_tables :
      LineProgramAux → ℕ → Cursor → Read (List String × List LineProgramFile)
  unfolding read_entries
  parse_v5_tables aux size c = read_entries aux size c >>= λ dirs.
      read_entries aux size dirs.1 >>= λ files.
      ok ((map (λ (e : LineProgramFile). e.name) dirs.0, files.0), files.1)

  -- The address size, 4 in a version that does not state it.
  unfoldable pub read_address_size : ℕ → Cursor → Read ℕ
  read_address_size version c =
      if version == 5 then u8 c >>= (λ a. u8 a.1 >>= λ s. ok (a.0, s.1)) else ok (4, c)

  -- `opcodeBase - 1` lengths.
  unfoldable pub read_lengths : ℕ → Cursor → Read (List ℕ)
  read_lengths zero c = ok ([], c)
  read_lengths (suc n) c = u8 c >>= λ b. read_lengths n b.1 >>= λ rest. ok (b.0 ∷ rest.0, rest.1)

  unfoldable pub read_params : Cursor → Read StateMachineParams
  unfolding read_lengths to_signed_8
  read_params c = u8 c >>= λ min. u8 min.1 >>= λ most. u8 most.1 >>= λ stmt. u8 stmt.1 >>= λ base.
      u8 base.1 >>= λ range. u8 range.1 >>= λ opcodes.
      read_lengths (opcodes.0 - 1) opcodes.1 >>= λ lengths. ok (
        record {
          min_inst_length = min.0;
          default_is_stmt = not (stmt.0 == 0);
          line_base = to_signed_8 base.0;
          line_range = range.0;
          opcode_base = opcodes.0;
          standard_opcode_lengths = lengths.0;
        },
        lengths.1,
      )

  unfoldable pub read_tables :
      ℕ → LineProgramAux → ℕ → Cursor → Read (List String × List LineProgramFile)
  unfolding parse_v4_tables parse_v5_tables
  read_tables version aux size c =
      if version == 4 then parse_v4_tables c else parse_v5_tables aux size c

  -- `unit.skip(programStart - unit.pos)` after the test for an overrun.
  unfoldable pub skip_to : ℕ → Cursor → Result DwarfParseError Cursor
  skip_to start c = if ltb start c.offset then fail outside_unit else skip (start - c.offset) c

  -- The header from its length on, then the program. `unit_length` is that of the whole unit.
  unfoldable pub parse_body :
      LineProgramAux → ℕ → ℕ → ℕ → ℕ → Cursor → Result DwarfParseError LineProgramUnit
  unfolding read_params read_tables skip_to run_state_machine
  parse_body aux version size end_offset unit_length c = u32 c >>= λ n.
      if ltb unit_length (n.1.offset + n.0)
      then fail outside_unit
      else read_params n.1 >>= (λ p. read_tables version aux size p.1 >>= λ tables.
          skip_to (n.1.offset + n.0) tables.1 >>= λ program.
          run_state_machine program p.0 >>= λ rows. ok (record {
            version = version;
            end_offset = end_offset;
            directories = tables.0.0;
            files = tables.0.1;
            rows = rows;
          }))

  unfoldable pub parse_unit :
      LineProgramAux → ℕ → ℕ → Cursor → Result DwarfParseError LineProgramUnit
  unfolding read_address_size parse_body
  parse_unit aux end_offset unit_length unit = u16 unit >>= λ v.
      if v.0 == 4
      then read_address_size v.0 v.1 >>= (λ a. parse_body aux v.0 a.0 end_offset unit_length a.1)
      else if v.0 == 5
      then read_address_size v.0 v.1 >>= (λ a. parse_body aux v.0 a.0 end_offset unit_length a.1)
      else fail unsupported_version

  unfoldable pub parse_line_program :
      List ℕ → ℕ → LineProgramAux → Result DwarfParseError LineProgramUnit
  unfolding parse_unit
  parse_line_program section offset aux =
      initial_length (record { buffer = drop offset section; offset = 0 }) >>= λ n.
      if ltb (length section) (offset + n.1.offset + n.0)
      then fail outside_unit
      else sub n.0 n.1 >>= (λ unit. parse_unit aux (offset + n.1.offset + n.0) n.0 unit.0)
