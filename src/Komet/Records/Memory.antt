-- ===== src/Komet/Records/Memory.antt =====
-- The memory runs of src/komet/trace.ts: the bytes that a record holds, and the text they are of.
use stellar_debugger.Prelude.{
  ℕ, ◌≡◌, ◌⊎◌, refl, inl, inr, String, Bool, true, false, ◌||◌, Option, none, some, List, [], ◌∷◌,
  str_eq, if◌then◌else◌,
}
use stellar_debugger.Lines.{codes}
use stellar_debugger.Bytes.{Result, ok, fail, ◌>>=◌}
use stellar_debugger.CallStack.{from_hex}
use stellar_debugger.ScVal.{ScVal}
use stellar_debugger.Ledger.{TraceEvent}
use stellar_debugger.Trace.{MemRun}
use mathlib.Core.Path.{subst}
use stellar_debugger.Komet.{
  Json, null, bool, number, string, array, object, Items, no_items, item, Members, is_hex, field,
}
use stellar_debugger.Komet.Payload.{parse_trace_event}
use stellar_debugger.Komet.Records.{
  Row, Checked, bad_bytes, stale_trace, bad_kind, TraceParseError, at_line, event_of, has_field,
  kind_of, members_of, pos_of, instr_op, stack_of, locals_of, globals_of, of_members, of_kind,
  with_event, run_addr, run_bytes, to_mem_run, mem_runs, to_mem_runs, core_record, check_record,
  to_trace_record,
}
use stellar_debugger.Komet.Records.Hex.{hex_text, AreBytes, from_hex-IsDecoded}

-- What holds of the result, if there is one.
abbrev Ok : {E A : Type 0} → (A → Type 0) → Result E A → Type 0
Ok P (ok a) = P a
Ok P (fail e) = Unit {0}

>>=-Ok :
    {E A B : Type 0} (P : A → Type 0) (Q : B → Type 0) (m : Result E A) (f : A → Result E B)
    → Ok P m
    → ((a : A) → P a → Ok Q (f a))
    → Ok Q (m >>= f)
>>=-Ok P Q (ok a) f h k = k a h
>>=-Ok P Q (fail e) f h k = tt

abbrev Any : {A : Type 0} → A → Type 0
Any a = Unit {0}

Ok-Any : {E A : Type 0} (m : Result E A) → Ok Any m
Ok-Any (ok a) = tt
Ok-Any (fail e) = tt

-- The bytes are those of a text of pairs of digits.
abbrev AreBytesOf : Option Json → List ℕ → Type 0
AreBytesOf o bytes =
    (s : String) × (o ≡ some (string s)) × (codes s ≡ hex_text bytes) × AreBytes bytes

-- A run has the address and the bytes of an object.
abbrev pub IsRun : Json → MemRun → Type 0
IsRun j run =
    (m : Members) × (j ≡ object m)
    × (field m "addr" ≡ some (number run.addr))
    × AreBytesOf (field m "bytes") run.bytes

-- One run for each item, in order.
abbrev pub AreRuns : Items → List MemRun → Type 0
AreRuns no_items [] = Unit {0}
AreRuns no_items (r ∷ runs) = ⊥
AreRuns (item j rest) [] = ⊥
AreRuns (item j rest) (r ∷ runs) = IsRun j r × AreRuns rest runs

-- No snapshot where there is no memory or null, else the runs of an array.
abbrev pub IsMemoryOf : Option Json → Option (List MemRun) → Type 0
IsMemoryOf o none = (o ≡ none) ⊎ (o ≡ some null)
IsMemoryOf o (some runs) = (js : Items) × (o ≡ some (array js)) × AreRuns js runs

run_bytes-Ok : (o : Option Json) → Ok (AreBytesOf o) (run_bytes o)
unfolding run_bytes
run_bytes-Ok (some (string s)) = go (is_hex (codes s)) refl
  where
    go :
        (b : Bool)
        → is_hex (codes s) ≡ b
        → Ok (AreBytesOf (some (string s))) (if b then ok (from_hex (codes s)) else fail bad_bytes)
    go true e = let decoded = from_hex-IsDecoded (codes s) e in (s, refl, decoded.0, decoded.1)
    go false e = tt
run_bytes-Ok none = tt
run_bytes-Ok (some null) = tt
run_bytes-Ok (some (bool b)) = tt
run_bytes-Ok (some (number n)) = tt
run_bytes-Ok (some (array js)) = tt
run_bytes-Ok (some (object m)) = tt

run_addr-Ok : (o : Option Json) → Ok (λ n. o ≡ some (number n)) (run_addr o)
unfolding run_addr
run_addr-Ok (some (number n)) = refl
run_addr-Ok none = tt
run_addr-Ok (some null) = tt
run_addr-Ok (some (bool b)) = tt
run_addr-Ok (some (string s)) = tt
run_addr-Ok (some (array js)) = tt
run_addr-Ok (some (object m)) = tt

to_mem_run-Ok : (j : Json) → Ok (IsRun j) (to_mem_run j)
unfolding to_mem_run
to_mem_run-Ok (object m) =
    >>=-Ok (λ n. field m "addr" ≡ some (number n)) (IsRun (object m)) (run_addr (field m "addr")) _
      (run_addr-Ok (field m "addr"))
      (λ addr at.
        >>=-Ok (AreBytesOf (field m "bytes")) (IsRun (object m)) (run_bytes (field m "bytes")) _
          (run_bytes-Ok (field m "bytes")) (λ bytes h. (m, refl, at, h)))
to_mem_run-Ok null = tt
to_mem_run-Ok (bool b) = tt
to_mem_run-Ok (number n) = tt
to_mem_run-Ok (string s) = tt
to_mem_run-Ok (array js) = tt

mem_runs-Ok : (js : Items) → Ok (AreRuns js) (mem_runs js)
unfolding mem_runs
mem_runs-Ok no_items = tt
mem_runs-Ok (item j rest) =
    >>=-Ok (IsRun j) (AreRuns (item j rest)) (to_mem_run j) _ (to_mem_run-Ok j) (λ run h.
      >>=-Ok (AreRuns rest) (AreRuns (item j rest)) (mem_runs rest) _ (mem_runs-Ok rest)
        (λ runs k. (h, k)))

to_mem_runs-Ok : (o : Option Json) → Ok (IsMemoryOf o) (to_mem_runs o)
unfolding to_mem_runs
to_mem_runs-Ok none = inl refl
to_mem_runs-Ok (some null) = inr refl
to_mem_runs-Ok (some (bool b)) = tt
to_mem_runs-Ok (some (number n)) = tt
to_mem_runs-Ok (some (string s)) = tt
to_mem_runs-Ok (some (object m)) = tt
to_mem_runs-Ok (some (array js)) =
    >>=-Ok (AreRuns js) (IsMemoryOf (some (array js))) (mem_runs js) _ (mem_runs-Ok js)
      (λ runs h. (js, refl, h))

-- The record has the memory of this field.
abbrev RowMemory : Option Json → Row → Type 0
RowMemory o r = IsMemoryOf o r.0.mem

core_record-Ok :
    (is_instruction : Bool) (kind : String) (pos instr stack locals globals mem : Option Json)
    (event : Option TraceEvent)
    → Ok (RowMemory mem) (core_record is_instruction kind pos instr stack locals globals mem event)
unfolding core_record
core_record-Ok b kind pos instr stack locals globals mem event = skip (pos_of b pos) _ (λ at.
    skip (if b then instr_op instr else ok kind) _ (λ op. skip (stack_of stack) _ (λ _.
      skip (locals_of locals) _ (λ _. skip (globals_of globals) _ (λ _.
        >>=-Ok (IsMemoryOf mem) (RowMemory mem) (to_mem_runs mem) _ (to_mem_runs-Ok mem)
          (λ runs h. h))))))
  where
    skip :
        {A : Type 0} (m : Checked A) (f : A → Checked Row)
        → ((a : A) → Ok (RowMemory mem) (f a))
        → Ok (RowMemory mem) (m >>= f)
    skip m f k = >>=-Ok Any (RowMemory mem) m f (Ok-Any m) (λ a _. k a)

with_event-Ok :
    (m : Members) (kind : String) (event : Option TraceEvent)
    → Ok (RowMemory (field m "mem")) (with_event m kind event)
unfolding with_event
with_event-Ok m kind event =
    core_record-Ok (str_eq kind "instr") kind (field m "pos") (field m "instr") (field m "stack")
      (field m "locals") (field m "globals") (field m "mem") event

module _ (text : Json → String) (trusted : String → Json → ScVal) where
  of_members-Ok :
      (m : Members) (o : Option String)
      → Ok (RowMemory (field m "mem")) (of_members text trusted m o)
  unfolding of_members of_kind
  of_members-Ok m none = pick (has_field (field m "instr") || has_field (field m "pos"))
    where
      pick :
          (b : Bool)
          → Ok (RowMemory (field m "mem")) (if b then fail stale_trace else fail bad_kind)
      pick true = tt
      pick false = tt
  of_members-Ok m (some kind) =
      with_event-Ok m kind (event_of (parse_trace_event text trusted m kind))

  -- The memory of a record that is accepted prints back to the line's: no snapshot where the line
  -- has no `mem` or null, else one run for each object of its array, in order, at that address,
  -- whose numbers are bytes and in lowercase hex, two digits to each, are that text.
  pub to_trace_record-IsMemoryOf :
      (m : Members) (line : ℕ) (row : Row)
      → to_trace_record text trusted (object m) line ≡ ok row
      → IsMemoryOf (field m "mem") row.0.mem
  unfolding to_trace_record check_record members_of
  to_trace_record-IsMemoryOf m line row e =
      go (of_members text trusted m (kind_of (field m "kind")))
        (of_members-Ok m (kind_of (field m "kind"))) e
    where
      go :
          (c : Checked Row)
          → Ok (RowMemory (field m "mem")) c
          → at_line line c ≡ ok row
          → IsMemoryOf (field m "mem") row.0.mem
      go (fail x) h q = cc
      go (ok r) h q = subst (RowMemory (field m "mem")) (same q) h
        where
          same : Path (Result TraceParseError Row) (ok r) (ok row) → r ≡ row
          same p = cc
