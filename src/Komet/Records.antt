-- ===== src/Komet/Records.antt =====
-- The trace records of src/komet/trace.ts: `toTraceRecord`, `toTraceRecords`, `parseTraceJsonl`.
pub mod Payloads
pub mod Lines
pub mod Hex
pub mod Memory
use stellar_debugger.Prelude.{
  ℕ, zero, suc, ◌+◌, String, Bool, true, false, not, ◌&&◌, ◌||◌, Option, none, some, List, [], ◌∷◌,
  str_eq, ◌==◌, if◌then◌else◌,
}
use stellar_debugger.Lines.{codes, trim}
use stellar_debugger.Bytes.{Result, ok, fail, ◌>>=◌}
use stellar_debugger.CallStack.{from_hex}
use stellar_debugger.ScVal.{ScVal}
use stellar_debugger.Ledger.{TraceEvent}
use stellar_debugger.Trace.{MemRun, TraceRecord}
use stellar_debugger.Komet.{
  Json, null, number, string, array, object, Items, no_items, item, Members, no_members, member,
  field, items, is_hex,
}
use stellar_debugger.Komet.Fields.{Expectation}
use stellar_debugger.Komet.Payload.{parse_trace_event}

-- Why a line is rejected; `stale_trace` is the StaleTraceError.
pub data Rejection : Type 0 where
  invalid_json expected_object stale_trace bad_kind bad_pos missing_pos bad_instr : Rejection
  bad_stack not_an_object bad_slot bad_mem bad_run bad_addr bad_bytes : Rejection

pub record TraceParseError : Type 0 where
  pub line : ℕ
  pub reason : Rejection

abbrev pub Checked : Type 0 → Type 0
Checked A = Result Rejection A

-- An array passes for an object, one with none of the fields.
unfoldable pub members_of : Json → Option Members
members_of (object m) = some m
members_of (array js) = some no_members
members_of _ = none

-- `typeof kind !== 'string' || kind === ''`
unfoldable pub kind_of : Option Json → Option String
kind_of (some (string kind)) = if str_eq kind "" then none else some kind
kind_of _ = none

-- `key in obj`
unfoldable pub has_field : Option Json → Bool
has_field none = false
has_field (some j) = true

unfoldable pub pos_of : Bool → Option Json → Checked (Option ℕ)
pos_of is_instruction none = if is_instruction then fail missing_pos else ok none
pos_of is_instruction (some null) = ok none
pos_of is_instruction (some (number n)) = ok (some n)
pos_of is_instruction _ = fail bad_pos

unfoldable pub instr_op : Option Json → Checked String
instr_op (some (array (item (string op) operands))) = ok op
instr_op _ = fail bad_instr

unfoldable pub is_typed_value : Json → Bool
is_typed_value (array (item (string type) (item value no_items))) = true
is_typed_value _ = false

unfoldable pub typed_items : Items → Bool
unfolding is_typed_value
typed_items no_items = true
typed_items (item j rest) = is_typed_value j && typed_items rest

unfoldable pub stack_of : Option Json → Checked (Unit {0})
unfolding typed_items
stack_of none = ok tt
stack_of (some null) = ok tt
stack_of (some (array js)) = if typed_items js then ok tt else fail bad_stack
stack_of _ = fail bad_stack

unfoldable pub typed_members : Members → Bool
unfolding is_typed_value
typed_members no_members = true
typed_members (member slot j rest) = is_typed_value j && typed_members rest

unfoldable pub typed_value_map : Json → Checked (Unit {0})
unfolding typed_members
typed_value_map (object m) = if typed_members m then ok tt else fail bad_slot
typed_value_map _ = fail not_an_object

-- `obj.locals ?? {}`
unfoldable pub locals_of : Option Json → Checked (Unit {0})
unfolding typed_value_map
locals_of none = ok tt
locals_of (some null) = ok tt
locals_of (some j) = typed_value_map j

unfoldable pub globals_of : Option Json → Checked (Unit {0})
unfolding typed_value_map
globals_of none = ok tt
globals_of (some j) = typed_value_map j

unfoldable pub run_addr : Option Json → Checked ℕ
run_addr (some (number n)) = ok n
run_addr _ = fail bad_addr

unfoldable pub run_bytes : Option Json → Checked (List ℕ)
unfolding is_hex from_hex
run_bytes (some (string s)) = if is_hex (codes s) then ok (from_hex (codes s)) else fail bad_bytes
run_bytes _ = fail bad_bytes

unfoldable pub to_mem_run : Json → Checked MemRun
unfolding run_addr run_bytes field
to_mem_run (object m) = run_addr (field m "addr") >>= λ addr.
    run_bytes (field m "bytes") >>= λ bytes. ok (record { addr = addr; bytes = bytes })
to_mem_run _ = fail bad_run

unfoldable pub mem_runs : Items → Checked (List MemRun)
unfolding to_mem_run
mem_runs no_items = ok []
mem_runs (item j rest) = to_mem_run j >>= λ run. mem_runs rest >>= λ runs. ok (run ∷ runs)

unfoldable pub to_mem_runs : Option Json → Checked (Option (List MemRun))
unfolding mem_runs
to_mem_runs none = ok none
to_mem_runs (some null) = ok none
to_mem_runs (some (array js)) = mem_runs js >>= λ runs. ok (some runs)
to_mem_runs _ = fail bad_mem

-- An error of the payload is swallowed.
unfoldable pub event_of : Result Expectation (Option TraceEvent) → Option TraceEvent
event_of (ok e) = e
event_of (fail x) = none

abbrev pub onto_first : ℕ → List (List ℕ) → List (List ℕ)
onto_first c [] = (c ∷ []) ∷ []
onto_first c (line ∷ lines) = (c ∷ line) ∷ lines

-- `jsonl.split('\n')`
unfoldable pub split_lines : List ℕ → List (List ℕ)
split_lines [] = [] ∷ []
split_lines (c ∷ rest) =
    let lines = split_lines rest in if c == 10 then [] ∷ lines else onto_first c lines

-- A record and its event. The value stack and the slots are checked, and read by nothing here.
abbrev pub Row : Type 0
Row = TraceRecord × Option TraceEvent

-- The record of these fields, with the event that its payload gives.
unfoldable pub core_record :
    Bool
    → String
    → (pos instr stack locals globals mem : Option Json) → Option TraceEvent
    → Checked Row
unfolding pos_of instr_op stack_of locals_of globals_of to_mem_runs
core_record is_instruction kind pos instr stack locals globals mem event =
    pos_of is_instruction pos >>= λ at.
    (if is_instruction then instr_op instr else ok kind) >>= λ op. stack_of stack >>= λ _.
    locals_of locals >>= λ _. globals_of globals >>= λ _.
    to_mem_runs mem >>= λ runs. ok (record { pos = at; op = op; mem = runs }, event)

unfoldable pub with_event : Members → String → Option TraceEvent → Checked Row
unfolding core_record field
with_event m kind event =
    core_record (str_eq kind "instr") kind (field m "pos") (field m "instr") (field m "stack")
      (field m "locals") (field m "globals") (field m "mem") event

abbrev pub at_line : ℕ → Checked Row → Result TraceParseError Row
at_line line (ok r) = ok r
at_line line (fail reason) = fail (record { line = line; reason = reason })

-- `line === ''`
unfoldable pub is_blank : List ℕ → Bool
is_blank [] = true
is_blank (c ∷ line) = false

module _ (text : Json → String) (trusted : String → Json → ScVal) where
  unfoldable pub of_kind : Members → String → Checked Row
  unfolding with_event event_of parse_trace_event
  of_kind m kind = with_event m kind (event_of (parse_trace_event text trusted m kind))

  unfoldable pub of_members : Members → Option String → Checked Row
  unfolding has_field of_kind field
  of_members m none =
      if has_field (field m "instr") || has_field (field m "pos")
      then fail stale_trace
      else fail bad_kind
  of_members m (some kind) = of_kind m kind

  unfoldable pub check_record : Option Members → Checked Row
  unfolding of_members kind_of field
  check_record none = fail expected_object
  check_record (some m) = of_members m (kind_of (field m "kind"))

  unfoldable pub to_trace_record : Json → ℕ → Result TraceParseError Row
  unfolding check_record members_of
  to_trace_record value line = at_line line (check_record (members_of value))

  -- The values from index `i` on.
  unfoldable pub records_from : List Json → ℕ → Result TraceParseError (List Row)
  unfolding to_trace_record
  records_from [] i = ok []
  records_from (value ∷ values) i =
      to_trace_record value (i + 1) >>= λ r. records_from values (i + 1) >>= λ rs. ok (r ∷ rs)

  unfoldable pub to_trace_records : List Json → Result TraceParseError (List Row)
  unfolding records_from
  to_trace_records values = records_from values 0

  -- `none` where `JSON.parse` throws.
  unfoldable pub parsed_record : Option Json → ℕ → Result TraceParseError Row
  unfolding to_trace_record
  parsed_record none line = fail (record { line = line; reason = invalid_json })
  parsed_record (some value) line = to_trace_record value line

  -- `JSON.parse` is a parameter.
  module _ (parse_json : List ℕ → Option Json) where
    unfoldable pub parse_line : List ℕ → ℕ → Result TraceParseError Row
    unfolding parsed_record
    parse_line line i = parsed_record (parse_json line) (i + 1)

    -- The lines from index `i` on.
    unfoldable pub lines_loop : List (List ℕ) → ℕ → Result TraceParseError (List Row)
    unfolding parse_line trim is_blank
    lines_loop [] i = ok []
    lines_loop (raw ∷ raws) i = elim (is_blank (trim raw)) [
      | true ↦ lines_loop raws (i + 1)
      | false ↦ parse_line (trim raw) i >>= λ r. lines_loop raws (i + 1) >>= λ rs. ok (r ∷ rs)
    ]

    unfoldable pub parse_trace_jsonl : List ℕ → Result TraceParseError (List Row)
    unfolding lines_loop split_lines
    parse_trace_jsonl jsonl = lines_loop (split_lines jsonl) 0
