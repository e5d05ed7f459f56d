-- ===== src/Examples/Komet.antt =====
-- Runs and examples for the trace records of src/komet and the values of src/soroban/scvalJson.ts.
use stellar_debugger.Prelude.{ℕ, ◌≡◌, refl, String, Option, none, some, List, [], ◌∷◌}
use stellar_debugger.Lines.{codes, trim}
use stellar_debugger.Bytes.{ok, fail}
use stellar_debugger.ScVal.{ScVal, void, vec, scalar, nil, cons}
use stellar_debugger.ScVal.Render.{summarize_scval}
use stellar_debugger.Ledger.{persistent, TraceEvent, put_data}
use stellar_debugger.Komet.{
  Json, null, number, string, array, object, no_items, item, Members, no_members, member, field,
  is_hex,
}
use stellar_debugger.Komet.Payload.{parse_trace_event}
use stellar_debugger.Komet.Print.{IsEvent, print_record, kind_name}
use stellar_debugger.Komet.Records.{
  event_of, stale_trace, to_trace_record, to_trace_records, split_lines, parse_trace_jsonl,
}
use stellar_debugger.Komet.Records.Payloads.{vm_record, to_trace_record-print}
use stellar_debugger.Komet.Records.Lines.{IsOutcome, parse_trace_jsonl-IsOutcome}
use stellar_debugger.Komet.Records.Memory.{IsMemoryOf, to_trace_record-IsMemoryOf}

-- The texts of scalars that these examples need.
abbrev text_of : Json → String
text_of (string s) = s
text_of (number n) = "7"
text_of _ = ""

abbrev unread : String → Json → ScVal
unread type value = void

abbrev code_number : String → ℕ
code_number code = 7

abbrev as_itself : (s : String) → text_of (string s) ≡ s
as_itself s = refl

abbrev stored : TraceEvent
stored =
    put_data persistent (record { addr_type = "contract"; value = "0a" }) (scalar "symbol" "COUNT")
      (some (vec (cons (scalar "u32" "7") (cons void nil))))

stored-IsEvent : IsEvent text_of code_number stored
unfolding is_hex
stored-IsEvent =
    ((refl, refl), (refl, refl, refl, refl, refl), ((refl, refl, refl, refl, refl), (tt, tt)))

to_trace_record-print_example :
    to_trace_record text_of unread (object (print_record text_of code_number stored)) 3
    ≡ ok (vm_record "contractData", some stored)
unfolding kind_name
to_trace_record-print_example =
    to_trace_record-print text_of unread code_number as_itself stored 3 stored-IsEvent

-- A write with no fields at all.
abbrev bare_write : Members
bare_write = member "kind" (string "contractData") (member "operation" (string "put") no_members)

bare_write_event : event_of (parse_trace_event text_of unread bare_write "contractData") ≡ none
unfolding event_of parse_trace_event
bare_write_event = refl

-- An instruction with one run of memory, of two bytes.
abbrev stored_byte : Members
stored_byte = member "kind" (string "instr") (
    member "pos" (number 45) (
      member "instr" (array (item (string "i32.store8") no_items)) (
        member "mem"
          (array (
            item (object (member "addr" (number 16) (member "bytes" (string "ff0a") no_members)))
              no_items))
          no_members)))

stored_row :
    to_trace_record text_of unread (object stored_byte) 1
    ≡ ok (
      record {
        pos = some 45;
        op = "i32.store8";
        mem = some (record { addr = 16; bytes = 255 ∷ 10 ∷ [] } ∷ []);
      },
      none,
    )
unfolding to_trace_record parse_trace_event
stored_row = refl

to_trace_record-IsMemoryOf_example :
    IsMemoryOf (field stored_byte "mem") (some (record { addr = 16; bytes = 255 ∷ 10 ∷ [] } ∷ []))
to_trace_record-IsMemoryOf_example =
    to_trace_record-IsMemoryOf text_of unread stored_byte 1
      (
        record {
          pos = some 45;
          op = "i32.store8";
          mem = some (record { addr = 16; bytes = 255 ∷ 10 ∷ [] } ∷ []);
        },
        none,
      )
      stored_row

-- A record of before v0.1.87, and a stack that is not of pairs.
old_record :
    to_trace_records text_of unread (object (member "pos" null no_members) ∷ [])
    ≡ fail (record { line = 1; reason = stale_trace })
unfolding to_trace_records
old_record = refl

-- Every line is the write above.
abbrev one_json : List ℕ → Option Json
one_json line = some (object bare_write)

-- The second of three lines is blank.
abbrev three_lines : List ℕ
three_lines = b'a' ∷ 10 ∷ 32 ∷ 10 ∷ b'b' ∷ []

two_records :
    parse_trace_jsonl text_of unread one_json three_lines
    ≡ ok ((vm_record "contractData", none) ∷ (vm_record "contractData", none) ∷ [])
unfolding parse_trace_jsonl parse_trace_event
two_records = refl

parse_trace_jsonl-IsOutcome_example :
    IsOutcome text_of unread one_json
      ((b'a' ∷ [], 0) ∷ (b'b' ∷ [], 2) ∷ [])
      (parse_trace_jsonl text_of unread one_json three_lines)
unfolding split_lines trim
parse_trace_jsonl-IsOutcome_example =
    parse_trace_jsonl-IsOutcome text_of unread one_json three_lines

summary :
    summarize_scval codes (vec (cons (scalar "u32" "7") (cons void nil))) ≡ codes "vec(vec[2])"
unfolding summarize_scval
summary = refl
