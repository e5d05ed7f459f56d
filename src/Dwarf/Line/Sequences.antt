-- ===== src/Dwarf/Line/Sequences.antt =====
-- What the state machine of src/dwarf/line.ts makes of encoded sequences of rows.
use stellar_debugger.Prelude.{
  ℕ, zero, suc, ◌+◌, ◌-◌, ◌*◌, ◌/◌, ◌%◌, ◌^◌, ◌≤◌, ◌<◌, ◌≡◌, refl, sym, ap, ◌∙◌, true, false, List,
  [], ◌∷◌, ◌++◌, length, append_assoc, append-nil, leb, ◌==◌, arith, if◌then◌else◌,
}
use stellar_debugger.Prelude.Int.{pos, ◌+ℤ◌}
use stellar_debugger.Bytes.{Result, ok, fail, ◌>>=◌}
use stellar_debugger.Dwarf.{DwarfParseError, Cursor, Read, u8, sub, remaining}
use stellar_debugger.Dwarf.Line.{
  LineRow, StateMachineParams, Registers, initial_registers, row_of, Round, special, read_uint_le,
  ext_opcode, extended, extended_round, standard, round, machine_loop, run_state_machine,
}
use stellar_debugger.Dwarf.DebugLoc.Reads.{
  At, moved, le4, u8-At, at_end-At, at_end-nil, uleb-At, sub-At, At-fits,
}
use native.Mathlib.Nat.{mul-add-div, mul-add-mod_self_left, div-eq_of_lt, mod-eq_of_lt}

-- A row by the address units that it is ahead of the last one, and the lines above the line base.
pub record Move : Type 0 where
  pub advance : ℕ
  pub lines : ℕ

-- A start address, and the rows from there.
pub record Sequence : Type 0 where
  pub start : ℕ
  pub moves : List Move

module _ (p : StateMachineParams) where
  -- The special opcode of a move.
  abbrev pub opcode_of : Move → ℕ
  opcode_of m = p.opcode_base + (p.line_range * m.advance + m.lines)

  abbrev pub AreMoves : List Move → Type 0
  AreMoves [] = Unit {0}
  AreMoves (m ∷ moves) = (m.lines < p.line_range) × AreMoves moves

  abbrev pub AreSequences : List Sequence → Type 0
  AreSequences [] = Unit {0}
  AreSequences (s ∷ rest) = (s.start < 2 ^ 32) × AreMoves s.moves × AreSequences rest

  abbrev pub encode_moves : List Move → List ℕ → List ℕ
  encode_moves [] tail = tail
  encode_moves (m ∷ moves) tail = opcode_of m ∷ encode_moves moves tail

  -- DW_LNE_set_address with four bytes, the special opcodes, and DW_LNE_end_sequence.
  abbrev pub encode : List Sequence → List ℕ
  encode [] = []
  encode (s ∷ rest) = 0 ∷ 5 ∷ 2 ∷ le4 s.start (encode_moves s.moves (0 ∷ 1 ∷ 1 ∷ encode rest))

  abbrev pub after_move : Registers → Move → Registers
  after_move r m = record r {
    address = r.address + m.advance * p.min_inst_length;
    line = r.line +ℤ (p.line_base +ℤ pos m.lines);
  }

  -- The rows of the moves, then one that ends the sequence where the last of them stands.
  abbrev pub rows_from : Registers → List Move → List LineRow
  rows_from r [] = row_of r true ∷ []
  rows_from r (m ∷ moves) = row_of (after_move r m) false ∷ rows_from (after_move r m) moves

  abbrev pub rows_of : List Sequence → List LineRow
  rows_of [] = []
  rows_of (s ∷ rest) =
      rows_from (record (initial_registers p) { address = s.start }) s.moves ++ rows_of rest

  loop_step :
      (fuel op : ℕ) (rest : List ℕ) (c : Cursor) (r : Registers) (rows : List LineRow)
      → At c (op ∷ rest)
      → machine_loop p (suc fuel) c r rows ≡ (
          round p op (moved 1 c) r >>= λ done.
          machine_loop p fuel done.1 done.0.1 (rows ++ done.0.0))
  unfolding machine_loop
  loop_step fuel op rest c r rows h =
      ap (λ b. elim b [ true ↦ ok rows | false ↦ u8 c >>= next ]) (at_end-At c op rest h)
      ∙ ap (λ m. m >>= next) (u8-At c op rest h).0
    where
      next : ℕ × Cursor → Result DwarfParseError (List LineRow)
      next op =
          round p op.0 op.1 r >>= λ done. machine_loop p fuel done.1 done.0.1 (rows ++ done.0.0)

  machine_loop-nil :
      (fuel : ℕ) (c : Cursor) (r : Registers) (rows : List LineRow)
      → At c []
      → machine_loop p (suc fuel) c r rows ≡ ok rows
  unfolding machine_loop
  machine_loop-nil fuel c r rows h =
      ap (λ b. elim b [ true ↦ ok rows | false ↦ u8 c >>= next ]) (at_end-nil c h)
    where
      next : ℕ × Cursor → Result DwarfParseError (List LineRow)
      next op =
          round p op.0 op.1 r >>= λ done. machine_loop p fuel done.1 done.0.1 (rows ++ done.0.0)

  special-opcode_of :
      (m : Move) (r : Registers)
      → m.lines < p.line_range
      → special p (opcode_of m) r ≡ (row_of (after_move r m) false ∷ [], after_move r m)
  unfolding special
  special-opcode_of m r lt =
      ap (λ n. result (n / p.line_range) (n % p.line_range)) adjusted
      ∙ ap (λ q. result q ((p.line_range * m.advance + m.lines) % p.line_range)) quotient
      ∙ ap (result m.advance) rest
    where
      result : ℕ → ℕ → Round
      result q k =
          let moved : Registers = record r {
            address = r.address + q * p.min_inst_length;
            line = r.line +ℤ (p.line_base +ℤ pos k);
          } in
          (row_of moved false ∷ [], moved)

      adjusted : opcode_of m - p.opcode_base ≡ p.line_range * m.advance + m.lines
      adjusted = omega arith

      quotient : (p.line_range * m.advance + m.lines) / p.line_range ≡ m.advance
      quotient =
          mul-add-div {m = p.line_range} (omega arith) m.advance m.lines
          ∙ ap (λ k. m.advance + k) (div-eq_of_lt lt)
          ∙ omega arith

      rest : (p.line_range * m.advance + m.lines) % p.line_range ≡ m.lines
      rest = mul-add-mod_self_left p.line_range m.advance m.lines ∙ mod-eq_of_lt lt

  special_round :
      (m : Move) (c : Cursor) (r : Registers)
      → m.lines < p.line_range
      → round p (opcode_of m) c r ≡ ok ((row_of (after_move r m) false ∷ [], after_move r m), c)
  unfolding round
  special_round m c r lt =
      ap (λ b. if b then ok (special p (opcode_of m) r, c) else other) above
      ∙ ap (λ s. ok (s, c)) (special-opcode_of m r lt)
    where
      other : Read Round
      other = if opcode_of m == 0 then extended_round p c r else standard p (opcode_of m) c r

      above : leb p.opcode_base (opcode_of m) ≡ true
      above = ground arith

  extended_first :
      (c : Cursor) (r : Registers) → 0 < p.opcode_base → round p 0 c r ≡ extended_round p c r
  unfolding round
  extended_first c r h = ground (arith, h)

  -- What an extended opcode does with a body of known bytes.
  extended_body :
      (c : Cursor) (text rest : List ℕ) (r : Registers) (done : Round)
      → length text < 128
      → At c (length text ∷ text ++ rest)
      → (ext_opcode (length text) (record { buffer = text; offset = 0 }) >>= λ code.
          extended p code.0 code.1 r)
        ≡ ok done
      → (extended_round p c r ≡ ok (done, moved (length text) (moved 1 c)))
        × At (moved (length text) (moved 1 c)) rest
  unfolding extended_round
  extended_body c text rest r done lt h e =
      let n = uleb-At c (length text) (text ++ rest) lt h in
      let body =
        sub-At (moved 1 c) text rest (omega (arith, At-fits c (length text) (text ++ rest) h))
          n.1 in
      (
        ap (λ m. m >>= λ n. sub n.0 n.1 >>= run n.0) n.0
            ∙ ap (λ m. m >>= run (length text)) body.0
            ∙ regroup (ext_opcode (length text) (record { buffer = text; offset = 0 }))
            ∙ ap (λ m. m >>= finish) e,
        body.1,
      )
    where
      stop : Cursor → Round → Read Round
      stop after done = ok (done, after)

      finish : Round → Read Round
      finish = stop (moved (length text) (moved 1 c))

      run : ℕ → Cursor × Cursor → Read Round
      run n body = ext_opcode n body.0 >>= λ code. extended p code.0 code.1 r >>= stop body.1

      regroup :
          (m : Read ℕ)
          → (m >>= λ code. extended p code.0 code.1 r >>= finish)
            ≡ ((m >>= λ code. extended p code.0 code.1 r) >>= finish)
      regroup (ok a) = refl
      regroup (fail e) = refl

  end_body :
      (r : Registers)
      → (ext_opcode 1 (record { buffer = 1 ∷ []; offset = 0 }) >>= λ code.
          extended p code.0 code.1 r)
        ≡ ok (row_of r true ∷ [], initial_registers p)
  unfolding ext_opcode extended u8
  end_body r = refl

  address_body :
      (a : ℕ) (r : Registers)
      → a < 2 ^ 32
      → (ext_opcode 5 (record { buffer = 2 ∷ le4 a []; offset = 0 }) >>= λ code.
          extended p code.0 code.1 r)
        ≡ ok ([], record r { address = a })
  unfolding ext_opcode extended u8 read_uint_le remaining
  address_body a r lt =
      ap (λ n. ok ([], record r { address = n }))
        {x = 0
          + a % 256 * 2 ^ (8 * 0)
          + a / 256 % 256 * 2 ^ (8 * 1)
          + a / 65536 % 256 * 2 ^ (8 * 2)
          + a / 16777216 % 256 * 2 ^ (8 * 3)}
        {y = a} (omega arith)

  -- The rows of a sequence's moves and of what follows, from any registers.
  machine_loop-moves :
      (moves : List Move) (rest : List Sequence) (fuel : ℕ) (c : Cursor) (r : Registers)
      (rows : List LineRow)
      → 0 < p.opcode_base
      → AreMoves moves
      → At c (encode_moves moves (0 ∷ 1 ∷ 1 ∷ encode rest))
      → length (encode_moves moves (0 ∷ 1 ∷ 1 ∷ encode rest)) < fuel
      → ((fuel : ℕ) (c : Cursor) (rows : List LineRow)
          → At c (encode rest)
          → length (encode rest) < fuel
          → machine_loop p fuel c (initial_registers p) rows ≡ ok (rows ++ rows_of rest))
      → machine_loop p fuel c r rows ≡ ok (rows ++ (rows_from r moves ++ rows_of rest))
  machine_loop-moves moves rest zero c r rows pos_base h at lt ih = absurd (omega arith)
  machine_loop-moves [] rest (suc fuel) c r rows pos_base h at lt ih =
      let c1 = moved 1 c in
      let done =
        extended_body c1 (1 ∷ []) (encode rest) r _ (omega arith) (u8-At c 0 _ at).1 (end_body r) in
      loop_step fuel 0 (1 ∷ 1 ∷ encode rest) c r rows at
      ∙ ap (λ m. m >>= λ done. machine_loop p fuel done.1 done.0.1 (rows ++ done.0.0))
          (extended_first c1 r pos_base ∙ done.0)
      ∙ ih fuel (moved 1 (moved 1 c1)) (rows ++ row_of r true ∷ []) done.1 (omega arith)
      ∙ ap ok (append_assoc rows (row_of r true ∷ []) (rows_of rest))
  machine_loop-moves (m ∷ moves) rest (suc fuel) c r rows pos_base h at lt ih =
      let row = row_of (after_move r m) false in
      loop_step fuel (opcode_of m) (encode_moves moves (0 ∷ 1 ∷ 1 ∷ encode rest)) c r rows at
      ∙ ap (λ q. q >>= λ done. machine_loop p fuel done.1 done.0.1 (rows ++ done.0.0))
          (special_round m (moved 1 c) r h.0)
      ∙ machine_loop-moves moves rest fuel (moved 1 c) (after_move r m) (rows ++ row ∷ []) pos_base
          h.1 (u8-At c (opcode_of m) _ at).1 (omega arith) ih
      ∙ ap ok (append_assoc rows (row ∷ []) (rows_from (after_move r m) moves ++ rows_of rest))

  length-encode_moves :
      (moves : List Move) (tail : List ℕ) → length tail ≤ length (encode_moves moves tail)
  length-encode_moves [] tail = omega arith
  length-encode_moves (m ∷ moves) tail = omega (arith, length-encode_moves moves tail)

  machine_loop-encode :
      (sequences : List Sequence) (fuel : ℕ) (c : Cursor) (rows : List LineRow)
      → 0 < p.opcode_base
      → AreSequences sequences
      → At c (encode sequences)
      → length (encode sequences) < fuel
      → machine_loop p fuel c (initial_registers p) rows ≡ ok (rows ++ rows_of sequences)
  machine_loop-encode sequences zero c rows pos_base h at lt = absurd (omega arith)
  machine_loop-encode [] (suc fuel) c rows pos_base h at lt =
      machine_loop-nil fuel c (initial_registers p) rows at ∙ ap ok (sym (append-nil rows))
  machine_loop-encode (s ∷ rest) (suc fuel) c rows pos_base h at lt =
      let c1 = moved 1 c in
      let program = encode_moves s.moves (0 ∷ 1 ∷ 1 ∷ encode rest) in
      let done =
        extended_body c1 (2 ∷ le4 s.start []) program (initial_registers p) _ (omega arith)
          (u8-At c 0 _ at).1 (address_body s.start (initial_registers p) h.0) in
      loop_step fuel 0 (5 ∷ 2 ∷ le4 s.start program) c (initial_registers p) rows at
      ∙ ap (λ m. m >>= λ done. machine_loop p fuel done.1 done.0.1 (rows ++ done.0.0))
          (extended_first c1 (initial_registers p) pos_base ∙ done.0)
      ∙ ap (machine_loop p fuel _ _) (append-nil rows)
      ∙ machine_loop-moves s.moves rest fuel (moved 5 (moved 1 c1))
          (record (initial_registers p) { address = s.start }) rows pos_base h.1 done.1
          (omega arith)
          (λ fuel c rows at lt. machine_loop-encode rest fuel c rows pos_base h.2 at lt)

  -- A program that encodes sequences of rows is decoded to exactly those rows: the address and the
  -- line of each are those of the row before, moved on by the special opcode's share of the
  -- address and of the line; each sequence starts from its own address with fresh registers and
  -- ends with a row that says so. The opcode base is positive, each line move is below the line
  -- range, and the start addresses have 32 bits.
  pub run_state_machine-encode :
      (sequences : List Sequence)
      → 0 < p.opcode_base
      → AreSequences sequences
      → run_state_machine (record { buffer = encode sequences; offset = 0 }) p
        ≡ ok (rows_of sequences)
  unfolding run_state_machine
  run_state_machine-encode sequences pos_base h =
      machine_loop-encode sequences (length (encode sequences) + 1)
        (record { buffer = encode sequences; offset = 0 }) [] pos_base h refl (omega arith)
