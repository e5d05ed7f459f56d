-- ===== src/Komet/Records/Payloads.antt =====
-- The VM records of src/komet/trace.ts: their payload never makes a record fail.
use stellar_debugger.Prelude.{
  ℕ, ◌≡◌, refl, ap, ◌∙◌, String, false, Option, none, some, str_eq, if◌then◌else◌,
}
use stellar_debugger.Bytes.{Result, ok}
use stellar_debugger.ScVal.{ScVal}
use stellar_debugger.Ledger.{
  TraceEvent, ledger, call_contract, end_wasm, put_data, del_data, data_ttl, instance_ttl, code_ttl,
  contract_code, deploy_contract, account, ledger_info, add_object,
}
use stellar_debugger.Trace.{TraceRecord}
use stellar_debugger.Komet.{Json, string, object, Members, member, field}
use stellar_debugger.Komet.Fields.{Expectation}
use stellar_debugger.Komet.Payload.{parse_trace_event}
use stellar_debugger.Komet.Print.{print_event, print_record, IsEvent, kind_name}
use stellar_debugger.Komet.Events.{parse_trace_event-print}
use stellar_debugger.Komet.Records.{
  event_of, kind_of, core_record, at_line, with_event, of_members, to_trace_record,
}

abbrev CoreFields : Type 0
CoreFields = Option Json × Option Json × Option Json × Option Json × Option Json

abbrev core_fields : Members → CoreFields
core_fields m = (field m "pos", field m "stack", field m "locals", field m "globals", field m "mem")

-- A kind other than that of instructions, and none of the fields of an instruction.
pub record IsVmRecord (m : Members) (kind : String) : Type 0 where
  pub named : field m "kind" ≡ some (string kind)
  pub is_not_empty : str_eq kind "" ≡ false
  pub is_not_instr : str_eq kind "instr" ≡ false
  pub no_pos : field m "pos" ≡ none
  pub no_stack : field m "stack" ≡ none
  pub no_locals : field m "locals" ≡ none
  pub no_globals : field m "globals" ≡ none
  pub no_mem : field m "mem" ≡ none

abbrev pub vm_record : String → TraceRecord
vm_record kind = record { pos = none; op = kind; mem = none }

event_of-ok :
    (e : TraceEvent) {r : Result Expectation (Option TraceEvent)}
    → r ≡ ok (some e)
    → event_of r ≡ some e
unfolding event_of
event_of-ok e p = ap event_of p

core_record-none :
    (kind : String) (instr : Option Json) (event : Option TraceEvent)
    → core_record false kind none instr none none none none event ≡ ok (vm_record kind, event)
unfolding core_record
core_record-none kind instr event = refl

with_event-IsVmRecord :
    (m : Members) (kind : String) (event : Option TraceEvent)
    → IsVmRecord m kind
    → with_event m kind event ≡ ok (vm_record kind, event)
unfolding with_event
with_event-IsVmRecord m kind event h = same ∙ core_record-none kind (field m "instr") event
  where
    same :
        with_event m kind event
        ≡ core_record false kind none (field m "instr") none none none none event
    same = cc (h.is_not_instr, h.no_pos, h.no_stack, h.no_locals, h.no_globals, h.no_mem)

module _ (text : Json → String) (trusted : String → Json → ScVal) where
  pub to_trace_record-IsVmRecord :
      (m : Members) (kind : String) (line : ℕ)
      → IsVmRecord m kind
      → to_trace_record text trusted (object m) line
        ≡ ok (vm_record kind, event_of (parse_trace_event text trusted m kind))
  unfolding to_trace_record kind_of
  to_trace_record-IsVmRecord m kind line h =
      ap (λ o. at_line line (of_members text trusted m (kind_of o))) h.named
      ∙ ap (λ b. at_line line (of_members text trusted m (if b then none else some kind)))
          h.is_not_empty
      ∙ ap (at_line line)
          (with_event-IsVmRecord m kind (event_of (parse_trace_event text trusted m kind)) h)

  printed :
      (m : Members) (kind : String)
      → str_eq kind "" ≡ false
      → str_eq kind "instr" ≡ false
      → core_fields m ≡ (none, none, none, none, none)
      → IsVmRecord (member "kind" (string kind) m) kind
  unfolding field
  printed m kind p q core = record {
    named = refl;
    is_not_empty = p;
    is_not_instr = q;
    no_pos = ap (λ c. c.0) core;
    no_stack = ap (λ c. c.1) core;
    no_locals = ap (λ c. c.2) core;
    no_globals = ap (λ c. c.3) core;
    no_mem = ap (λ c. c.4) core;
  }

  module _ (number_of : String → ℕ) (text-string : (s : String) → text (string s) ≡ s) where
    print_record-IsVmRecord :
        (e : TraceEvent) → IsVmRecord (print_record text number_of e) (kind_name e)
    unfolding field print_event kind_name
    print_record-IsVmRecord (ledger a b c d f) = printed _ _ refl refl refl
    print_record-IsVmRecord (call_contract a b c d f g) = printed _ _ refl refl refl
    print_record-IsVmRecord (end_wasm a b c) = printed _ _ refl refl refl
    print_record-IsVmRecord (put_data a b c none) = printed _ _ refl refl refl
    print_record-IsVmRecord (put_data a b c (some d)) = printed _ _ refl refl refl
    print_record-IsVmRecord (del_data a b c) = printed _ _ refl refl refl
    print_record-IsVmRecord (data_ttl a b c d) = printed _ _ refl refl refl
    print_record-IsVmRecord (instance_ttl a b) = printed _ _ refl refl refl
    print_record-IsVmRecord (code_ttl a b) = printed _ _ refl refl refl
    print_record-IsVmRecord (contract_code a b) = printed _ _ refl refl refl
    print_record-IsVmRecord (deploy_contract a b c) = printed _ _ refl refl refl
    print_record-IsVmRecord (account a b) = printed _ _ refl refl refl
    print_record-IsVmRecord (ledger_info a b) = printed _ _ refl refl refl
    print_record-IsVmRecord (add_object a b) = printed _ _ refl refl refl

    -- The record of an event whose addresses and hashes are even-length lowercase hex, whose values
    -- are nested in no more than 64 levels, and whose `put` has its value, is read as a record with
    -- that event, whatever its kind: the kind is its name, and it has no position and no memory.
    -- An error's code is a number, the type of a value is none that has a case of its own unless
    -- the value is of that case, and a JSON text is converted to itself.
    pub to_trace_record-print :
        (e : TraceEvent) (line : ℕ)
        → IsEvent text number_of e
        → to_trace_record text trusted (object (print_record text number_of e)) line
          ≡ ok (vm_record (kind_name e), some e)
    to_trace_record-print e line h =
        to_trace_record-IsVmRecord (print_record text number_of e) (kind_name e) line
          (print_record-IsVmRecord e)
        ∙ ap (λ r. ok (vm_record (kind_name e), r))
            (event_of-ok e (parse_trace_event-print text trusted number_of text-string e h))
