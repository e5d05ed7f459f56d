-- ===== src/Dwarf/Location/Rounds.antt =====
-- The evaluator of src/dwarf/locexpr.ts comes to an end: every round reads a byte.
use stellar_debugger.Prelude.{
  ℕ, zero, suc, ◌+◌, ◌≤◌, ◌≡◌, ◌≢◌, refl, ap, ◌∙◌, Bool, true, false, Option, none, some, List, [],
  ◌∷◌, length, leb, leb-false, ◌==◌, if◌then◌else◌, arith,
}
use stellar_debugger.Prelude.Int.{ℤ, pos}
use stellar_debugger.Bytes.{>>=-Yields, Result, ok, fail}
use stellar_debugger.Dwarf.{DwarfParseError, out_of_rounds, Cursor, at_end, u8, u32, uleb, sleb}
use stellar_debugger.Dwarf.Location.{
  RuntimeState, ValueLocation, local, global, stack, Machine, initial_machine, read_address,
  wasm_register, read_wasm_location, Step, halt, next, add_operand, push_frame, name_register, step,
  conclude, run, evaluate_with, frame_value, evaluate,
}
use stellar_debugger.Dwarf.Location.Forward.{
  Sane, if-Sane, Onward, Forward, u8-Sane, u8-Forward, u32-Forward, uleb-Forward, sleb-Forward,
  read_then,
}

read_address-Forward : (c : Cursor) → Forward c (read_address c)
unfolding read_address
read_address-Forward c = read_then c (u8 c) _ (u8-Forward c) (λ a.
    read_then a.1 (u8 a.1) _ (u8-Forward a.1) (λ b.
      read_then b.1 (u8 b.1) _ (u8-Forward b.1)
        (λ d. read_then d.1 (u8 d.1) _ (u8-Forward d.1) (λ e. (refl, omega arith)))))

wasm_register-Forward : (kind : ℕ) (c : Cursor) → Forward c (wasm_register kind c)
unfolding wasm_register
wasm_register-Forward kind c =
    if-Sane _ (kind == 0) _ _
      (read_then c (uleb c) (λ r. ok (some (local r.0), r.1)) (uleb-Forward c)
        (λ r. (refl, omega arith)))
      (if-Sane _ (kind == 1) _ _
        (read_then c (uleb c) (λ r. ok (some (global r.0), r.1)) (uleb-Forward c)
          (λ r. (refl, omega arith)))
        (if-Sane _ (kind == 2) _ _
          (read_then c (uleb c) (λ r. ok (some (stack r.0), r.1)) (uleb-Forward c)
            (λ r. (refl, omega arith)))
          (if-Sane _ (kind == 3) _ _
            (read_then c (u32 c) (λ r. ok (some (global r.0), r.1)) (u32-Forward c)
              (λ r. (refl, omega arith)))
            (refl, omega arith))))

read_wasm_location-Forward : (c : Cursor) → Forward c (read_wasm_location c)
unfolding read_wasm_location
read_wasm_location-Forward c =
    read_then c (u8 c) _ (u8-Forward c) (λ k. wasm_register-Forward k.0 k.1)

-- Going on, the cursor has not gone back.
abbrev StepOn : Cursor → Step → Type 0
StepOn c (halt l) = Unit {0}
StepOn c (next m c') = Onward c c'

abbrev pub SaneFrame : Option (Result DwarfParseError (Option ℤ)) → Type 0
SaneFrame none = Unit {0}
SaneFrame (some m) = Sane (λ b. Unit {0}) m

push_frame-Sane :
    (frame_base : Option (Result DwarfParseError (Option ℤ))) (offset : ℤ) (m : Machine)
    (c c' : Cursor)
    → SaneFrame frame_base
    → Onward c c'
    → Sane (StepOn c) (push_frame frame_base offset m c')
unfolding push_frame
push_frame-Sane none offset m c c' h o = tt
push_frame-Sane (some (ok none)) offset m c c' h o = tt
push_frame-Sane (some (ok (some x))) offset m c c' h o = o
push_frame-Sane (some (fail e)) offset m c c' h o = h

add_operand-StepOn :
    (l : List ℤ) (addend : ℕ) (m : Machine) (c c' : Cursor)
    → Onward c c'
    → StepOn c (add_operand l addend m c')
unfolding add_operand
add_operand-StepOn [] addend m c c' o = tt
add_operand-StepOn (x ∷ rest) addend m c c' o = o

name_register-StepOn :
    (r : Option ValueLocation) (m : Machine) (c c' : Cursor)
    → Onward c c'
    → StepOn c (name_register r m c')
unfolding name_register
name_register-StepOn none m c c' o = tt
name_register-StepOn (some r) m c c' o = o

module _ (frame_base : Option (Result DwarfParseError (Option ℤ)))
    (sane : SaneFrame frame_base) where
  step-Sane : (op : ℕ) (m : Machine) (c : Cursor) → Sane (StepOn c) (step frame_base op m c)
  unfolding step
  step-Sane op m c =
      if-Sane _ (op == 0x03) _ _
        (>>=-Yields out_of_rounds (λ r. Onward c r.1) (StepOn c) (read_address c)
          (λ r. ok (next (record m { operands = pos r.0 ∷ m.operands }) r.1))
          (read_address-Forward c) (λ r o. o))
        (if-Sane _ (op == 0x23) _ _
          (>>=-Yields out_of_rounds (λ r. Onward c r.1) (StepOn c) (uleb c)
            (λ r. ok (add_operand m.operands r.0 m r.1)) (uleb-Forward c)
            (λ r o. add_operand-StepOn m.operands r.0 m c r.1 o))
          (if-Sane _ (op == 0x91) _ _
            (>>=-Yields out_of_rounds (λ r. Onward c r.1) (StepOn c) (sleb c)
              (λ r. push_frame frame_base r.0 m r.1) (sleb-Forward c)
              (λ r o. push_frame-Sane frame_base r.0 m c r.1 sane o))
            (if-Sane _ (op == 0x9f) _ _ (refl, omega arith)
              (if-Sane _ (op == 0xed) _ _
                (>>=-Yields out_of_rounds (λ r. Onward c r.1) (StepOn c) (read_wasm_location c)
                  (λ r. ok (name_register r.0 m r.1)) (read_wasm_location-Forward c)
                  (λ r o. name_register-StepOn r.0 m c r.1 o))
                (if-Sane _ (op == 0x93) _ _ tt (if-Sane _ (op == 0x9d) _ _ tt tt))))))

  run-Sane :
      (fuel : ℕ) (m : Machine) (c : Cursor)
      → length c.buffer ≤ c.offset + fuel
      → Sane (λ l. Unit {0}) (run frame_base fuel m c)
  unfolding run at_end
  run-Sane zero m c h = pick (leb (length c.buffer) c.offset) refl
    where
      pick :
          (b : Bool)
          → leb (length c.buffer) c.offset ≡ b
          → Sane
              (λ l. Unit {0})
              (if b then ok (conclude m.is_value m.operands m.pending) else fail out_of_rounds)
      pick true t = tt
      pick false t = absurd (omega (arith, h, leb-false _ _ t))
  run-Sane (suc fuel) m c h = if-Sane _ (leb (length c.buffer) c.offset) _ _ tt (
      >>=-Yields out_of_rounds (λ r. (r.1.buffer ≡ c.buffer) × (r.1.offset ≡ c.offset + 1))
        (λ l. Unit {0}) (u8 c) _ (u8-Sane c)
        (λ op o.
          >>=-Yields out_of_rounds (StepOn op.1) (λ l. Unit {0}) (step frame_base op.0 m op.1) _
            (step-Sane op.0 m op.1)
            (λ s on. onward op.1 s o on (λ m' c' e. run-Sane fuel m' c' e))))
    where
      onward :
          (c1 : Cursor) (s : Step)
          → (c1.buffer ≡ c.buffer) × (c1.offset ≡ c.offset + 1)
          → StepOn c1 s
          → ((m' : Machine) (c' : Cursor)
              → length c'.buffer ≤ c'.offset + fuel
              → Sane (λ l. Unit {0}) (run frame_base fuel m' c'))
          → Sane (λ l. Unit {0}) (elim s [ halt l ↦ ok l | next m' c' ↦ run frame_base fuel m' c' ])
      onward c1 (halt l) o on rec = tt
      onward c1 (next m' c') o on rec =
          rec m' c' (omega (arith, ap length (on.0 ∙ o.0), h, o.1, on.1))

  evaluate_with-Sane : (expr : List ℕ) → Sane (λ l. Unit {0}) (evaluate_with frame_base expr)
  unfolding evaluate_with
  evaluate_with-Sane expr =
      run-Sane (length expr) initial_machine (record { buffer = expr; offset = 0 }) (omega arith)

frame_value-Sane :
    (state : RuntimeState) (expr : List ℕ) → Sane (λ b. Unit {0}) (frame_value state expr)
unfolding frame_value
frame_value-Sane state expr =
    >>=-Yields out_of_rounds (λ l. Unit {0}) (λ b. Unit {0}) (evaluate_with none expr) _
      (evaluate_with-Sane none tt expr) (λ l h. tt)

not_stuck :
    (m : Result DwarfParseError ValueLocation) → Sane (λ l. Unit {0}) m → m ≢ fail out_of_rounds
not_stuck (ok l) h e = cc
not_stuck (fail x) h e = h (cc)

-- The evaluation of any bytes, with any bytes for the frame base, ends with a location or with an
-- error of the cursor: one round for each byte is enough.
pub evaluate-ne-out_of_rounds :
    (expr : List ℕ) (frame_base_expr : Option (List ℕ)) (state : RuntimeState)
    → evaluate expr frame_base_expr state ≢ fail out_of_rounds
unfolding evaluate
evaluate-ne-out_of_rounds expr none state = not_stuck _ (evaluate_with-Sane none tt expr)
evaluate-ne-out_of_rounds expr (some f) state =
    not_stuck _ (evaluate_with-Sane (some (frame_value state f)) (frame_value-Sane state f) expr)
