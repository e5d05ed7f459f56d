-- ===== src/Trace.antt =====
-- The trace records of src/komet/trace.ts, as far as the stop model and the memory image read them.
use stellar_debugger.Prelude.{ℕ, String, Bool, Option, List, ◌||◌, str_eq}

-- One run of a memory snapshot: the bytes from `addr` on.
pub record MemRun : Type 0 where
  pub addr : ℕ
  pub bytes : List ℕ

-- `op` is `instr[0]`; the operands, the value stack and the variable slots are read by no
-- definition of this library.
pub record TraceRecord : Type 0 where
  pub pos : Option ℕ
  pub op : String
  pub mem : Option (List MemRun)

abbrev pub opcode : TraceRecord → String
opcode r = r.op

-- `CALL_OPCODES.has(op)`
unfoldable pub is_call : String → Bool
is_call op =
    str_eq op "call"
    || str_eq op "call_indirect"
    || str_eq op "return_call"
    || str_eq op "return_call_indirect"

-- `RETURN_OPCODES.has(op)`
unfoldable pub is_return : String → Bool
is_return op = str_eq op "return"
