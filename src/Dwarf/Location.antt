-- ===== src/Dwarf/Location.antt =====
-- The location expressions of src/dwarf/locexpr.ts: a stack machine over the byte cursor.
pub mod Forward
pub mod Rounds
pub mod FrameOffset
use stellar_debugger.Prelude.{
  ℕ, zero, suc, ◌+◌, ◌*◌, ◌^◌, Bool, true, false, Option, none, some, List, [], ◌∷◌, length, ◌==◌,
  if◌then◌else◌,
}
use stellar_debugger.Prelude.Int.{ℤ, pos, ◌+ℤ◌}
use stellar_debugger.Bytes.{Result, ok, fail, ◌>>=◌}
use stellar_debugger.Dwarf.{
  DwarfParseError, out_of_rounds, Cursor, Read, at_end, u8, u32, uleb, sleb,
}

-- What the machine reads of the WASM state; a number or a bigint is an integer.
pub record RuntimeState : Type 0 where
  pub local_value : ℕ → Option ℤ
  pub global_value : ℕ → Option ℤ
  pub stack_value : ℕ → Option ℤ

pub data Reason : Type 0 where
  malformed empty_stack no_frame_base frame_base_unavailable unsupported_kind : Reason
  composite stack_value_empty empty_expression : Reason
  unsupported_opcode : ℕ → Reason

pub data ValueLocation : Type 0 where
  local global stack : ℕ → ValueLocation
  memory value : ℤ → ValueLocation
  unavailable : Reason → ValueLocation

-- The operand stack with its top first, the register that was named last, and whether
-- DW_OP_stack_value was seen.
pub record Machine : Type 0 where
  pub operands : List ℤ
  pub pending : Option ValueLocation
  pub is_value : Bool

abbrev pub initial_machine : Machine
initial_machine = record { operands = []; pending = none; is_value = false }

unfoldable pub register_value : ValueLocation → RuntimeState → Option ℤ
register_value (local i) state = state.local_value i
register_value (global i) state = state.global_value i
register_value (stack i) state = state.stack_value i
register_value (memory a) state = none
register_value (value v) state = none
register_value (unavailable r) state = none

-- Four bytes, the low one first.
unfoldable pub read_address : Cursor → Read ℕ
read_address c = u8 c >>= λ a. u8 a.1 >>= λ b. u8 b.1 >>= λ d.
    u8 d.1 >>= λ e. ok (a.0 * 2 ^ 0 + b.0 * 2 ^ 8 + d.0 * 2 ^ 16 + e.0 * 2 ^ 24, e.1)

unfoldable pub wasm_register : ℕ → Cursor → Read (Option ValueLocation)
wasm_register kind c =
    if kind == 0
    then uleb c >>= (λ r. ok (some (local r.0), r.1))
    else if kind == 1
    then uleb c >>= (λ r. ok (some (global r.0), r.1))
    else if kind == 2
    then uleb c >>= (λ r. ok (some (stack r.0), r.1))
    else if kind == 3
    then u32 c >>= (λ r. ok (some (global r.0), r.1))
    else ok (none, c)

unfoldable pub read_wasm_location : Cursor → Read (Option ValueLocation)
unfolding wasm_register
read_wasm_location c = u8 c >>= λ k. wasm_register k.0 k.1

-- One instruction returns a location, or goes on.
pub data Step : Type 0 where
  halt : ValueLocation → Step
  next : Machine → Cursor → Step

unfoldable pub add_operand : List ℤ → ℕ → Machine → Cursor → Step
add_operand [] addend m c = halt (unavailable empty_stack)
add_operand (x ∷ rest) addend m c = next (record m { operands = (x +ℤ pos addend) ∷ rest }) c

-- The frame base is null, or what its evaluation returned or threw.
unfoldable pub push_frame :
    Option (Result DwarfParseError (Option ℤ)) → ℤ → Machine → Cursor → Result DwarfParseError Step
push_frame none offset m c = ok (halt (unavailable no_frame_base))
push_frame (some base) offset m c = base >>= λ b. elim b [
  | none ↦ ok (halt (unavailable frame_base_unavailable))
  | some x ↦ ok (next (record m { operands = (x +ℤ offset) ∷ m.operands }) c)
]

unfoldable pub name_register : Option ValueLocation → Machine → Cursor → Step
name_register none m c = halt (unavailable unsupported_kind)
name_register (some r) m c = next (record m { pending = some r }) c

module _ (frame_base : Option (Result DwarfParseError (Option ℤ))) where
  unfoldable pub step : ℕ → Machine → Cursor → Result DwarfParseError Step
  unfolding read_address add_operand push_frame read_wasm_location name_register
  step op m c =
      if op == 0x03
      then read_address c >>= (λ r. ok (next (record m { operands = pos r.0 ∷ m.operands }) r.1))
      else if op == 0x23
      then uleb c >>= (λ r. ok (add_operand m.operands r.0 m r.1))
      else if op == 0x91
      then sleb c >>= (λ r. push_frame frame_base r.0 m r.1)
      else if op == 0x9f
      then ok (next (record m { is_value = true }) c)
      else if op == 0xed
      then read_wasm_location c >>= (λ r. ok (name_register r.0 m r.1))
      else if op == 0x93
      then ok (halt (unavailable composite))
      else if op == 0x9d
      then ok (halt (unavailable composite))
      else ok (halt (unavailable (unsupported_opcode op)))

unfoldable pub register_or : Option ValueLocation → Reason → ValueLocation
register_or none reason = unavailable reason
register_or (some r) reason = r

-- What the machine says at the end of the expression.
unfoldable pub conclude : Bool → List ℤ → Option ValueLocation → ValueLocation
unfolding register_or
conclude true (x ∷ rest) pending = value x
conclude true [] pending = register_or pending stack_value_empty
conclude false (x ∷ rest) pending = memory x
conclude false [] pending = register_or pending empty_expression

module _ (frame_base : Option (Result DwarfParseError (Option ℤ))) where
  -- `while (!cursor.atEnd)`
  unfoldable pub run : ℕ → Machine → Cursor → Result DwarfParseError ValueLocation
  unfolding step conclude at_end
  run zero m c =
      if at_end c then ok (conclude m.is_value m.operands m.pending) else fail out_of_rounds
  run (suc fuel) m c =
      if at_end c
      then ok (conclude m.is_value m.operands m.pending)
      else u8 c >>= (λ op.
        step frame_base op.0 m op.1 >>= λ s. elim s [ halt l ↦ ok l | next m' c' ↦ run fuel m' c' ])

-- Every round reads a byte, so the length of the expression is fuel enough.
unfoldable pub evaluate_with :
    Option (Result DwarfParseError (Option ℤ)) → List ℕ → Result DwarfParseError ValueLocation
unfolding run
evaluate_with frame_base expr =
    run frame_base (length expr) initial_machine (record { buffer = expr; offset = 0 })

-- The frame base is evaluated where it is asked for, without one of its own.
unfoldable pub frame_value : RuntimeState → List ℕ → Result DwarfParseError (Option ℤ)
unfolding evaluate_with register_value
frame_value state expr = evaluate_with none expr >>= λ l. ok (register_value l state)

unfoldable pub evaluate :
    List ℕ → Option (List ℕ) → RuntimeState → Result DwarfParseError ValueLocation
unfolding evaluate_with frame_value
evaluate expr frame_base_expr state =
    evaluate_with (elim frame_base_expr [ none ↦ none | some f ↦ some (frame_value state f) ]) expr

-- `catch` makes an error of the cursor a location that is not available.
unfoldable pub caught : Result DwarfParseError ValueLocation → ValueLocation
caught (ok l) = l
caught (fail e) = unavailable malformed

unfoldable pub eval_location : List ℕ → Option (List ℕ) → RuntimeState → ValueLocation
unfolding evaluate caught
eval_location expr frame_base_expr state = caught (evaluate expr frame_base_expr state)
