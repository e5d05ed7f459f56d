-- ===== src/Dwarf/Location/FrameOffset.antt =====
-- A variable at an offset from the frame base, in src/dwarf/locexpr.ts.
use stellar_debugger.Prelude.{
  ℕ, zero, suc, ◌≡◌, refl, ap, ◌∙◌, false, Option, none, some, List, [], ◌∷◌, length, arith,
  if◌then◌else◌,
}
use stellar_debugger.Prelude.Int.{ℤ, ◌+ℤ◌}
use stellar_debugger.Bytes.{Result, ok, ◌>>=◌}
use stellar_debugger.Dwarf.{DwarfParseError, Cursor, at_end, skip, byte_at, u8, sleb}
use stellar_debugger.Dwarf.Location.{
  RuntimeState, ValueLocation, memory, Machine, initial_machine, register_value, Step, halt, next,
  push_frame, step, conclude, run, evaluate_with, frame_value, evaluate, eval_location, caught,
}

-- `run` at the end of the expression.
run_at_end :
    (frame_base : Option (Result DwarfParseError (Option ℤ))) (fuel : ℕ) (m : Machine)
    (buffer : List ℕ)
    → run frame_base fuel m (record { buffer = buffer; offset = length buffer })
      ≡ ok (conclude m.is_value m.operands m.pending)
unfolding run at_end
run_at_end frame_base zero m buffer = ground arith
run_at_end frame_base (suc n) m buffer = ground arith

run_next :
    (frame_base : Option (Result DwarfParseError (Option ℤ))) (fuel op : ℕ) (m m' : Machine)
    (c c1 c' : Cursor)
    → at_end c ≡ false
    → u8 c ≡ ok (op, c1)
    → step frame_base op m c1 ≡ ok (next m' c')
    → run frame_base (suc fuel) m c ≡ run frame_base fuel m' c'
unfolding run
run_next frame_base fuel op m m' c c1 c' inside read stepped =
    ap (λ b. if b then ok (conclude m.is_value m.operands m.pending) else (u8 c >>= after)) inside
    ∙ ap (λ r. r >>= after) read
    ∙ ap (λ r. r >>= continue) stepped
  where
    continue : Step → Result DwarfParseError ValueLocation
    continue s = elim s [ halt l ↦ ok l | next n d ↦ run frame_base fuel n d ]

    after : ℕ × Cursor → Result DwarfParseError ValueLocation
    after r = step frame_base r.0 m r.1 >>= continue

first_byte :
    (b : ℕ) (rest : List ℕ)
    → u8 (record { buffer = b ∷ rest; offset = 0 })
      ≡ ok (b, record { buffer = b ∷ rest; offset = 1 })
unfolding u8 skip byte_at
first_byte b rest = ground arith

not_at_end : (b : ℕ) (rest : List ℕ) → at_end (record { buffer = b ∷ rest; offset = 0 }) ≡ false
unfolding at_end
not_at_end b rest = ground arith

fbreg_step :
    (base offset : ℤ) (c c' : Cursor)
    → sleb c ≡ ok (offset, c')
    → step (some (ok (some base))) 0x91 initial_machine c
      ≡ ok (next (record initial_machine { operands = (base +ℤ offset) ∷ [] }) c')
unfolding step push_frame
fbreg_step base offset c c' h =
    ap (λ r. r >>= λ q. push_frame (some (ok (some base))) q.0 initial_machine q.1) h

-- A variable that is described by DW_OP_fbreg and an offset up to the end of its expression, where
-- the frame base evaluates to a register that has a value, lives in memory at that value plus the
-- offset.
pub eval_location_fbreg :
    (operand frame : List ℕ) (offset base : ℤ) (register : ValueLocation) (state : RuntimeState)
    → sleb (record { buffer = 0x91 ∷ operand; offset = 1 })
      ≡ ok (offset, record { buffer = 0x91 ∷ operand; offset = length (0x91 ∷ operand) })
    → evaluate frame none state ≡ ok register
    → register_value register state ≡ some base
    → eval_location (0x91 ∷ operand) (some frame) state ≡ memory (base +ℤ offset)
unfolding eval_location evaluate frame_value
eval_location_fbreg operand frame offset base register state h f r =
    ap (λ v. caught (evaluate_with (some v) expr))
      (ap (λ m. m >>= λ l. ok (register_value l state)) f ∙ ap ok r)
    ∙ ap caught (
        unfold evaluate_with in
        (run_next (some (ok (some base))) (length operand) 0x91 initial_machine pushed
            (record { buffer = expr; offset = 0 }) (record { buffer = expr; offset = 1 })
            (record { buffer = expr; offset = length expr }) (not_at_end 0x91 operand)
            (first_byte 0x91 operand) (fbreg_step base offset _ _ h)
          ∙ run_at_end (some (ok (some base))) (length operand) pushed expr))
    ∙ unfold caught in unfold conclude in refl
  where
    expr : List ℕ
    expr = 0x91 ∷ operand

    pushed : Machine
    pushed = record initial_machine { operands = (base +ℤ offset) ∷ [] }
