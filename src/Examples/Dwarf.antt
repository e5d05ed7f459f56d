-- ===== src/Examples/Dwarf.antt =====
-- Runs and examples for the DWARF readers of src/dwarf: forms, line programs and scopes.
use stellar_debugger.Prelude.{
  ℕ, zero, suc, ◌<◌, ◌≡◌, ◌≢◌, refl, ◌↔◌, inr, String, Bool, true, false, Option, none, some, List,
  [], ◌∷◌, ◌++◌, get_elem?, arith,
}
use stellar_debugger.Prelude.Int.{ℤ, pos, negsuc}
use stellar_debugger.Prelude.Sort.{Holds}
use stellar_debugger.Bytes.{ok, fail}
use stellar_debugger.Dwarf.{
  out_of_rounds, Cursor, bytes, u8, u16, uleb, sleb, cstring, initial_length,
}
use stellar_debugger.Dwarf.Abbrev.{AbbrevAttr, parse_abbrev_table}
use stellar_debugger.Dwarf.Forms.{
  FormContext, uint, block_value, str, after, skip_by_form, read_form,
}
use stellar_debugger.Dwarf.Forms.Advance.{read_form-skip_by_form}
use stellar_debugger.Dwarf.Die.{
  DebugInfoSections, Die, Dies, entry, nil, cons, children_of, parse_debug_info,
}
use stellar_debugger.Dwarf.Scope.{RecordedFn, ScopeIndex, scope_index, record_at, ranges_cover}
use stellar_debugger.Dwarf.Scope.Ranges.{AreApart, IsProper, EndsBefore, record_at-finds}
use stellar_debugger.Dwarf.Scope.RangeLists.{
  base_entry, span, encode as encode_ranges, ranges_cover-encode,
}
use stellar_debugger.Dwarf.Scope.Variables.{ScopeVar, variables_in_scope}
use stellar_debugger.Dwarf.Scope.Variables.Collected.{IsOf, variables_in_scope-IsOf}
use stellar_debugger.Dwarf.Line.{LineRow, StateMachineParams, run_state_machine}
use stellar_debugger.Dwarf.Line.Sequences.{
  Sequence, encode as encode_lines, rows_of, run_state_machine-encode,
}
use stellar_debugger.Dwarf.Line.Rounds.{run_state_machine-ne-out_of_rounds}
use mathlib.Core.Path.{subst}

abbrev as_name : List ℕ → String
as_name bytes = "name"

abbrev wasm_context : FormContext
wasm_context = record {
  address_size = 4;
  cu_header_start = 0;
  str_section = some (b'm' ∷ 0 ∷ []);
  line_str_section = none;
}

-- An indirect form that turns out to be a block of two bytes.
abbrev indirect_block : Cursor
indirect_block = record { buffer = 0x0a ∷ 2 ∷ 7 ∷ 8 ∷ 9 ∷ []; offset = 0 }

abbrev indirect_attr : AbbrevAttr
indirect_attr = record { at = 2; form = 0x16; implicit_const = none }

block_read :
    read_form as_name indirect_attr wasm_context indirect_block
    ≡ ok (block_value (7 ∷ 8 ∷ []), record indirect_block { offset = 4 })
unfolding read_form uleb u8 bytes
block_read = refl

read_form-skip_by_form_example :
    after (read_form as_name indirect_attr wasm_context indirect_block)
    ≡ skip_by_form as_name 0x16 4 indirect_block
read_form-skip_by_form_example =
    read_form-skip_by_form as_name wasm_context indirect_attr indirect_block (inr (inr refl))

-- A program with the usual parameters, and two short sequences.
abbrev usual_params : StateMachineParams
usual_params = record {
  min_inst_length = 1;
  default_is_stmt = true;
  line_base = negsuc 2;
  line_range = 12;
  opcode_base = 13;
  standard_opcode_lengths = 0 ∷ 1 ∷ 1 ∷ 1 ∷ 1 ∷ 0 ∷ 0 ∷ 0 ∷ 1 ∷ 0 ∷ 0 ∷ 1 ∷ [];
}

abbrev two_sequences : List Sequence
two_sequences =
    record {
      start = 0x100;
      moves = record { advance = 0; lines = 7 } ∷ record { advance = 3; lines = 2 } ∷ [];
    }
    ∷ record { start = 0x200; moves = [] }
    ∷ []

run_state_machine-encode_example :
    run_state_machine
      (record { buffer = encode_lines usual_params two_sequences; offset = 0 })
      usual_params
    ≡ ok (rows_of usual_params two_sequences)
run_state_machine-encode_example =
    run_state_machine-encode usual_params two_sequences (omega arith) (omega arith)

-- DW_LNS_copy, DW_LNS_advance_line by -1, an unknown opcode with one operand, DW_LNS_copy.
abbrev standard_program : Cursor
standard_program = record { buffer = 1 ∷ 3 ∷ 0x7f ∷ 12 ∷ 9 ∷ 1 ∷ []; offset = 0 }

abbrev plain_row : ℕ → LineRow
plain_row line = record {
  address = 0;
  file_index = 1;
  line = pos line;
  column = 0;
  is_stmt = true;
  end_sequence = false;
}

standard_rows :
    run_state_machine standard_program usual_params ≡ ok (plain_row 1 ∷ plain_row 0 ∷ [])
unfolding run_state_machine u8 sleb uleb
standard_rows = refl

run_state_machine-ne-out_of_rounds_example :
    run_state_machine standard_program usual_params ≢ fail out_of_rounds
run_state_machine-ne-out_of_rounds_example =
    run_state_machine-ne-out_of_rounds usual_params standard_program

-- A unit with two functions: the first has a parameter and a block, over [4, 8), with a variable.
abbrev named : ℕ → ℕ → ℕ → Dies → Die
named tag low size children = entry 0 tag ((0x11, uint low) ∷ (0x12, uint size) ∷ []) children

abbrev variable : ℕ → String → Die
variable tag name = entry 0 tag ((0x03, str name) ∷ []) nil

abbrev first_function : Die
first_function =
    named 0x2e 0 10
      (cons (variable 0x05 "n") (cons (named 0x0b 4 4 (cons (variable 0x34 "x") nil)) nil))

abbrev two_functions : Die
two_functions = entry 0 0x11 [] (cons (named 0x2e 10 6 nil) (cons first_function nil))

abbrev two_function_index : ScopeIndex
unfolding scope_index
two_function_index =
    scope_index
      (record {
        units =
            record { version = 4; address_size = 4; header_start = 0; die = two_functions } ∷ [];
        die_by_offset = [];
      })
      none

abbrev function_record : Die → ℤ → ℤ → RecordedFn
function_record die low high = record {
  die = die;
  name = none;
  qualified_name = none;
  frame_base_expr = none;
  low_high = some (low, high);
  ranges_offset = none;
  cu_low_pc = pos 0;
  stmt_list_offset = none;
}

abbrev first_record : RecordedFn
first_record = function_record first_function (pos 0) (pos 10)

abbrev second_record : RecordedFn
second_record = function_record (named 0x2e 10 6 nil) (pos 10) (pos 16)

abbrev sorted_index : ScopeIndex
sorted_index = record {
  info = record { units = []; die_by_offset = [] };
  debug_ranges = none;
  contiguous = first_record ∷ second_record ∷ [];
  ranged = [];
}

-- The index is built in the order of the addresses.
index_sorts : two_function_index.contiguous ≡ first_record ∷ second_record ∷ []
unfolding scope_index
index_sorts = refl

abbrev ProperIn : Option RecordedFn → Type 0
ProperIn none = Unit {0}
ProperIn (some f) = IsProper f.low_high

abbrev ApartIn : Option RecordedFn → Option RecordedFn → Type 0
ApartIn (some f) (some g) = EndsBefore f.low_high g.low_high
ApartIn _ _ = Unit {0}

sorted-IsProper :
    (i : ℕ) (f : RecordedFn) → get_elem? sorted_index.contiguous i ≡ some f → IsProper f.low_high
sorted-IsProper zero f e = subst (λ o. ProperIn o) e refl
sorted-IsProper (suc zero) f e = subst (λ o. ProperIn o) e refl
sorted-IsProper (suc (suc i)) f e = cc

sorted-EndsBefore :
    (i j : ℕ) (f g : RecordedFn)
    → i < j
    → get_elem? sorted_index.contiguous i ≡ some f
    → get_elem? sorted_index.contiguous j ≡ some g
    → EndsBefore f.low_high g.low_high
sorted-EndsBefore i zero f g lt e k = absurd (omega arith)
sorted-EndsBefore zero (suc zero) f g lt e k =
    subst (λ o. ApartIn o (some g)) e (subst (λ o. ApartIn (some first_record) o) k refl)
sorted-EndsBefore (suc i) (suc zero) f g lt e k = absurd (omega arith)
sorted-EndsBefore i (suc (suc j)) f g lt e k = cc

sorted-AreApart : AreApart sorted_index.contiguous
sorted-AreApart = record { proper = sorted-IsProper; apart = sorted-EndsBefore }

record_at-finds_example : record_at sorted_index 12 ≡ ok (some second_record)
record_at-finds_example =
    record_at-finds sorted_index 12 1 second_record sorted-AreApart refl (refl, refl)

found_first : record_at sorted_index 5 ≡ ok (some first_record)
unfolding record_at
found_first = refl

-- The second range is relative to the base before it.
ranges_cover-encode_example :
    ranges_cover
      ((9 ∷ []) ++ encode_ranges (span 1 2 ∷ base_entry 0x1000 ∷ span 4 8 ∷ []) [])
      (pos 1)
      0x1005
      (pos 0)
    ≡ ok true
ranges_cover-encode_example =
    ranges_cover-encode (9 ∷ []) [] (span 1 2 ∷ base_entry 0x1000 ∷ span 4 8 ∷ []) 0x1005 (pos 0)
      (omega arith)

abbrev bare_var : String → Bool → ScopeVar
bare_var name is_param = record {
  name = some name;
  type_ref = none;
  location_expr = none;
  loc_list_offset = none;
  frame_base_expr = none;
  cu_low_pc = pos 0;
  optimized_out = true;
  is_param = is_param;
}

scope_inside : variables_in_scope sorted_index 5 ≡ ok (bare_var "n" true ∷ bare_var "x" false ∷ [])
unfolding variables_in_scope
scope_inside = refl

scope_outside : variables_in_scope sorted_index 2 ≡ ok (bare_var "n" true ∷ [])
unfolding variables_in_scope
scope_outside = refl

variables_in_scope-IsOf_example :
    Holds (bare_var "n" true ∷ bare_var "x" false ∷ []) (bare_var "x" false)
    ↔ IsOf none 5 (pos 0) none (children_of first_function) (bare_var "x" false)
variables_in_scope-IsOf_example =
    variables_in_scope-IsOf sorted_index 5 first_record
      (bare_var "n" true ∷ bare_var "x" false ∷ []) (bare_var "x" false) found_first scope_inside

-- One unit of version 4 with a root DIE of tag 0x11 and one child named "a".
abbrev small_sections : DebugInfoSections
small_sections = record {
  info = 13 ∷ 0 ∷ 0 ∷ 0 ∷ 4 ∷ 0 ∷ 0 ∷ 0 ∷ 0 ∷ 0 ∷ 4 ∷ 1 ∷ 2 ∷ b'a' ∷ 0 ∷ 0 ∷ 0 ∷ [];
  abbrevs = 1 ∷ 0x11 ∷ 1 ∷ 0 ∷ 0 ∷ 2 ∷ 0x2e ∷ 0 ∷ 3 ∷ 8 ∷ 0 ∷ 0 ∷ 0 ∷ [];
  str_section = none;
  line_str_section = none;
}

abbrev small_child : Die
small_child = entry 12 0x2e ((3, str "name") ∷ []) nil

abbrev small_root : Die
small_root = entry 11 0x11 [] (cons small_child nil)

small_info :
    parse_debug_info as_name small_sections
    ≡ ok (record {
      units = record { version = 4; address_size = 4; header_start = 0; die = small_root } ∷ [];
      die_by_offset = (12, small_child) ∷ (11, small_root) ∷ [];
    })
unfolding parse_debug_info initial_length u16 u8 parse_abbrev_table uleb read_form cstring
small_info = refl
