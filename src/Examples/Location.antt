-- ===== src/Examples/Location.antt =====
-- Runs and examples for the location expressions, the location lists and the abbreviations of
-- src/dwarf.
use stellar_debugger.Prelude.{ℕ, Option, none, some, List, [], ◌∷◌, ◌++◌, ◌≡◌, ◌≢◌, refl, arith}
use stellar_debugger.Prelude.Int.{ℤ, pos, negsuc}
use stellar_debugger.Bytes.{ok, fail}
use stellar_debugger.Dwarf.{out_of_rounds, sleb, u8, u16, u32, uleb, bytes, skip}
use stellar_debugger.Dwarf.Location.{
  RuntimeState, local, unavailable, malformed, evaluate, eval_location,
}
use stellar_debugger.Prelude.{false}
use stellar_debugger.Dwarf.{past_end}
use stellar_debugger.Dwarf.Abbrev.{AbbrevAttr, parse_abbrev_table}
use stellar_debugger.Dwarf.DebugLoc.{select_location}
use stellar_debugger.Dwarf.DebugLoc.Select.{
  LocEntry, base_entry, ranged, encode, select, select_location-encode,
}
use stellar_debugger.Dwarf.Location.Rounds.{evaluate-ne-out_of_rounds}

abbrev always : ℤ → ℕ → Option ℤ
always v i = some v

abbrev at_1000 : RuntimeState
at_1000 = record {
  local_value = always (pos 1000);
  global_value = always (pos 0);
  stack_value = always (pos 0);
}

-- DW_OP_WASM_location local 2; DW_OP_stack_value.
abbrev frame_local : List ℕ
frame_local = 0xed ∷ 0 ∷ 2 ∷ 0x9f ∷ []

frame_local_evaluated : evaluate frame_local none at_1000 ≡ ok (local 2)
unfolding evaluate u8 uleb
frame_local_evaluated = refl

truncated_expression : eval_location (0x23 ∷ 0x80 ∷ []) none at_1000 ≡ unavailable malformed
unfolding eval_location u8 uleb
truncated_expression = refl

evaluate-ne-out_of_rounds_example : evaluate (0x23 ∷ 0x80 ∷ []) none at_1000 ≢ fail out_of_rounds
evaluate-ne-out_of_rounds_example = evaluate-ne-out_of_rounds (0x23 ∷ 0x80 ∷ []) none at_1000

-- After the base 100 is selected, 4 to 8 is 104 to 108.
abbrev two_entries : List LocEntry
two_entries = base_entry 100 ∷ ranged 4 8 (0x9f ∷ []) ∷ []

selected : select_location (7 ∷ encode two_entries []) 1 105 0 ≡ ok (some (0x9f ∷ []))
unfolding select_location u16 u32 bytes skip
selected = refl

select_location-encode_example :
    select_location ((7 ∷ []) ++ encode two_entries []) 1 105 0 ≡ ok (select 105 0 two_entries)
select_location-encode_example =
    select_location-encode (7 ∷ []) [] two_entries 105 0
      (omega arith, (omega arith, omega arith, omega arith, omega arith, tt))

-- Code 1: tag 0x34 without children, one attribute with the constant -2 in the declaration.
abbrev one_decl : List ℕ
one_decl = 1 ∷ 0x34 ∷ 0 ∷ 3 ∷ 0x21 ∷ 0x7e ∷ 0 ∷ 0 ∷ 0 ∷ []

abbrev one_attr : AbbrevAttr
one_attr = record { at = 3; form = 0x21; implicit_const = some (negsuc 1) }

one_decl_parsed :
    parse_abbrev_table one_decl 0
    ≡ ok ((1, record { tag = 0x34; has_children = false; attrs = one_attr ∷ [] }) ∷ [])
unfolding parse_abbrev_table u8 uleb sleb
one_decl_parsed = refl

unterminated_table : parse_abbrev_table (1 ∷ []) 0 ≡ fail past_end
unfolding parse_abbrev_table uleb
unterminated_table = refl
