-- ===== src/Dwarf/Line/Rounds.antt =====
-- The state machine of src/dwarf/line.ts comes to an end on every program.
use stellar_debugger.Prelude.{
  ℕ, zero, suc, ◌+◌, ◌*◌, ◌^◌, ◌≤◌, ◌≡◌, ◌≢◌, refl, ap, ◌∙◌, Bool, true, false, List, [], ◌++◌,
  length, ltb, leb, ◌==◌, arith, if◌then◌else◌,
}
use stellar_debugger.Bytes.{Result, ok, fail, ◌>>=◌, >>=-Yields, subarray}
use stellar_debugger.Dwarf.{
  DwarfParseError, out_of_rounds, Cursor, Read, skip, at_end, bytes, u8, u16, uleb, sleb, sub,
  byte_at, remaining,
}
use stellar_debugger.Dwarf.Location.Forward.{
  Sane, if-Sane, Onward, Forward, skip-Sane, u8-Sane, u8-Forward, uleb-Forward, sleb-Forward,
  read_then,
}
use stellar_debugger.Dwarf.Line.{
  LineRow, StateMachineParams, Registers, initial_registers, Round, read_uint_le, ext_opcode,
  extended, extended_round, operand_count, skip_operands, quiet, standard, round, machine_loop,
  run_state_machine,
}

abbrev Ends : {A : Type 0} → Result DwarfParseError A → Type 0
Ends m = Sane (λ _. Unit {0}) m

-- A skip, then a value.
skip_then :
    {A : Type 0} (n : ℕ) (c : Cursor) (f : Cursor → A)
    → Forward c (skip n c >>= λ c'. ok (f c', c'))
skip_then n c f =
    >>=-Yields out_of_rounds _ (λ r. Onward c r.1) (skip n c) _ (skip-Sane n c)
      (λ c' h. (h.0, omega (arith, h.1)))

u16-Forward : (c : Cursor) → Forward c (u16 c)
unfolding u16
u16-Forward c = skip_then 2 c (λ _. byte_at c 0 + byte_at c 1 * 0x100)

sub-Forward : (n : ℕ) (c : Cursor) → Forward c (sub n c)
unfolding sub bytes
sub-Forward n c =
    read_then c (skip n c >>= λ c'. ok (subarray c.buffer c.offset (c.offset + n), c')) _
      (skip_then n c (λ _. subarray c.buffer c.offset (c.offset + n))) (λ r. (refl, omega arith))

read_uint_le-Ends : (n i value : ℕ) (c : Cursor) → Ends (read_uint_le n i value c)
unfolding read_uint_le
read_uint_le-Ends zero i value c = tt
read_uint_le-Ends (suc n) i value c =
    >>=-Yields out_of_rounds (λ r. Onward c r.1) (λ _. Unit {0}) (u8 c) _ (u8-Forward c)
      (λ b _. read_uint_le-Ends n (i + 1) (value + b.0 * 2 ^ (8 * i)) b.1)

ext_opcode-Forward : (n : ℕ) (c : Cursor) → Forward c (ext_opcode n c)
unfolding ext_opcode
ext_opcode-Forward n c =
    if-Sane (λ r. Onward c r.1) (ltb 0 n) (u8 c) (ok (0, c)) (u8-Forward c) (refl, omega arith)

module _ (p : StateMachineParams) where
  extended-Ends : (code : ℕ) (c : Cursor) (r : Registers) → Ends (extended p code c r)
  unfolding extended
  extended-Ends code c r =
      if-Sane (λ _. Unit {0}) (code == 1) _ _ tt
        (if-Sane (λ _. Unit {0}) (code == 2) _ _
          (>>=-Yields out_of_rounds (λ _. Unit {0}) (λ _. Unit {0})
            (read_uint_le (remaining c) 0 0 c) _ (read_uint_le-Ends (remaining c) 0 0 c)
            (λ a _. tt))
          tt)

  extended_round-Forward : (c : Cursor) (r : Registers) → Forward c (extended_round p c r)
  unfolding extended_round
  extended_round-Forward c r = read_then c (uleb c) _ (uleb-Forward c) (λ n.
      read_then n.1 (sub n.0 n.1) _ (sub-Forward n.0 n.1) (λ body.
        >>=-Yields out_of_rounds (λ _. Unit {0}) (λ q. Onward body.1 q.1) (ext_opcode n.0 body.0) _
          (ends body.0 (ext_opcode n.0 body.0) (ext_opcode-Forward n.0 body.0))
          (λ code _.
            >>=-Yields out_of_rounds (λ _. Unit {0}) (λ q. Onward body.1 q.1)
              (extended p code.0 code.1 r) _ (extended-Ends code.0 code.1 r)
              (λ done _. (refl, omega arith)))))
    where
      ends : (c : Cursor) (m : Read ℕ) → Forward c m → Ends m
      ends c (ok a) h = tt
      ends c (fail e) h = h

  -- An operand read, then registers.
  operand :
      {A : Type 0} (c : Cursor) (m : Read A) (f : A → Registers)
      → Forward c m
      → Forward c (m >>= λ n. quiet (f n.0) n.1)
  operand c m f h = read_then c m _ h (λ n. (refl, omega arith))

  skip_operands-Sane : (n : ℕ) (c : Cursor) → Sane (Onward c) (skip_operands n c)
  unfolding skip_operands
  skip_operands-Sane zero c = (refl, omega arith)
  skip_operands-Sane (suc n) c =
      >>=-Yields out_of_rounds (λ r. Onward c r.1) (Onward c) (uleb c) _ (uleb-Forward c)
        (λ v h. further v h (skip_operands n v.1) (skip_operands-Sane n v.1))
    where
      further :
          (v : ℕ × Cursor)
          → Onward c v.1
          → (m : Result DwarfParseError Cursor) → Sane (Onward v.1) m
          → Sane (Onward c) m
      further v h (ok c') k = (k.0 ∙ h.0, omega (arith, h.1, k.1))
      further v h (fail e) k = k

  standard-Forward : (opcode : ℕ) (c : Cursor) (r : Registers) → Forward c (standard p opcode c r)
  unfolding standard
  standard-Forward opcode c r =
      choose (opcode == 1) _ _ (refl, omega arith)
        (choose (opcode == 2) _ _ (operand c (uleb c) _ (uleb-Forward c)) (
          choose (opcode == 3) _ _ (operand c (sleb c) _ (sleb-Forward c)) (
            choose (opcode == 4) _ _ (operand c (uleb c) _ (uleb-Forward c)) (
              choose (opcode == 5) _ _ (operand c (uleb c) _ (uleb-Forward c)) (
                choose (opcode == 6) _ _ (refl, omega arith)
                  (choose (opcode == 8) _ _ (refl, omega arith)
                    (choose (opcode == 9) _ _ (operand c (u16 c) _ (u16-Forward c)) (
                      >>=-Yields out_of_rounds (Onward c) (λ q. Onward c q.1)
                        (skip_operands (operand_count p opcode) c) _
                        (skip_operands-Sane (operand_count p opcode) c) (λ c' h. h)))))))))
    where
      choose :
          (b : Bool) (x y : Read Round) → Forward c x → Forward c y → Forward c (if b then x else y)
      choose b x y = if-Sane (λ q. Onward c q.1) b x y

  round-Forward : (opcode : ℕ) (c : Cursor) (r : Registers) → Forward c (round p opcode c r)
  unfolding round
  round-Forward opcode c r =
      if-Sane (λ q. Onward c q.1) (leb p.opcode_base opcode) _ _ (refl, omega arith)
        (if-Sane (λ q. Onward c q.1) (opcode == 0) _ _ (extended_round-Forward c r)
          (standard-Forward opcode c r))

  machine_loop-Ends :
      (fuel : ℕ) (c : Cursor) (r : Registers) (rows : List LineRow)
      → length c.buffer ≤ c.offset + fuel
      → Ends (machine_loop p fuel c r rows)
  unfolding machine_loop at_end
  machine_loop-Ends zero c r rows h = over (leb (length c.buffer) c.offset) (ground arith)
    where
      over : (b : Bool) → b ≡ true → Ends (if b then ok rows else fail out_of_rounds)
      over true e = tt
      over false e = cc
  machine_loop-Ends (suc fuel) c r rows h = go (at_end c) _ (
      >>=-Yields out_of_rounds (λ q. (q.1.buffer ≡ c.buffer) × (q.1.offset ≡ c.offset + 1))
        (λ _. Unit {0}) (u8 c) _ (u8-Sane c)
        (λ op at.
          >>=-Yields out_of_rounds (λ q. Onward op.1 q.1) (λ _. Unit {0}) (round p op.0 op.1 r) _
            (round-Forward op.0 op.1 r)
            (λ done on.
              machine_loop-Ends fuel done.1 done.0.1 (rows ++ done.0.0)
                (omega (arith, h, at.1, on.1, ap length on.0, ap length at.0)))))
    where
      go :
          (b : Bool) (m : Result DwarfParseError (List LineRow))
          → Ends m
          → Ends (elim b [ true ↦ ok rows | false ↦ m ])
      go true m k = tt
      go false m k = k

  -- The program is run to its end, with rows or with an error of the source's, whatever its bytes
  -- and its parameters are: one round for each byte, and one more, is enough.
  pub run_state_machine-ne-out_of_rounds : (c : Cursor) → run_state_machine c p ≢ fail out_of_rounds
  unfolding run_state_machine
  run_state_machine-ne-out_of_rounds c =
      not_stuck _ (machine_loop-Ends (length c.buffer + 1) c (initial_registers p) [] (omega arith))
    where
      not_stuck : (m : Result DwarfParseError (List LineRow)) → Ends m → m ≢ fail out_of_rounds
      not_stuck (ok d) h e = cc
      not_stuck (fail x) h e = h (cc)
