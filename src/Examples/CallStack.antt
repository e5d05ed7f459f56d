-- ===== src/Examples/CallStack.antt =====
-- Runs and examples for the call stack of src/debugAdapter/callStack.ts.
use stellar_debugger.Prelude.{
  ℕ, ◌+◌, ◌≡◌, refl, String, Bool, true, false, Option, none, some, List, [], ◌∷◌, ◌++◌, length,
  ◌==◌, if◌then◌else◌,
}
use stellar_debugger.Prelude.Int.{pos}
use stellar_debugger.Trace.{TraceRecord, is_call}
use stellar_debugger.Lines.{codes}
use stellar_debugger.Frames.{
  FunctionRange, WasmFrame, outer, inner, compute_frames, function_index_at,
}
use stellar_debugger.Ledger.Image.{LedgerImage}
use stellar_debugger.CallStack.{
  MappedLocation, InlineFrame, FrameKind, rust, inline, wasm, CallFrame, CallStackInput,
  push_activation, build_call_stack, short_address, render_address,
}
use stellar_debugger.CallStack.Activations.{
  sites, activation_sites, build_call_stack-sites, build_call_stack-depth,
}
use stellar_debugger.CallStack.Levels.{IsNumbered, StartsAt, build_call_stack-levels}
use stellar_debugger.CallStack.Inlined.{IsActivation, push_activation-IsActivation}

abbrev located : ℕ → MappedLocation
located line = record { path = "/work/lib.rs"; line = pos line; column = none }

-- At address 12 a function has been inlined, at line 70.
abbrev inlined_at : ℕ → List InlineFrame
inlined_at pc =
    if pc == 12
    then record { name = some "sum"; call_site = some (located 70); variables = [] } ∷ []
    else []

-- A call at record 0 into the function at 10, which is at its second instruction in record 2.
abbrev call_records : List TraceRecord
call_records =
    record { pos = some 3; op = "call"; mem = none }
    ∷ record { pos = some 10; op = "nop"; mem = none }
    ∷ record { pos = some 12; op = "nop"; mem = none }
    ∷ []

abbrev call_positions : List (Option ℕ)
call_positions = some 3 ∷ some 10 ∷ some 12 ∷ []

abbrev call_ranges : List FunctionRange
call_ranges =
    record { start = 0; end = 10; index = some 7; name = some "main" }
    ∷ record { start = 10; end = 20; index = some 8; name = none }
    ∷ []

abbrev caller_frame : WasmFrame
caller_frame = outer (some 0) 0 none

abbrev callee_frame : WasmFrame
callee_frame = inner (some 1) 1 (some 0) caller_frame

abbrev no_ledger : LedgerImage
no_ledger = record { versions = []; version_at = []; record_count = 3; ledger_seen = false }

abbrev call_input : CallStackInput
call_input = record {
  has_line_info = true;
  location_for_index = λ i. if i == 2 then some (located 5) else none;
  location_for_file =
      λ path line column. some (record { path = path; line = line; column = column });
  inline_frames_at = inlined_at;
  qualified_function_name_at = λ pc. none;
  variables_in_scope = λ pc. [];
  positions = call_positions;
  ledger = no_ledger;
  frames = some caller_frame ∷ some callee_frame ∷ some callee_frame ∷ [];
  ranges = call_ranges;
}

abbrev same_path : List ℕ → List ℕ
same_path path = path

abbrev frame_of : ℕ → String → FrameKind → ℕ → ℕ → Option MappedLocation → Bool → CallFrame
frame_of level name kind index pc source subtle = record {
  level = level;
  name = codes name;
  kind = kind;
  state_index = some index;
  pc = some pc;
  source = source;
  subtle = subtle;
  variables = [];
}

call_stack :
    build_call_stack same_path call_input 2
    ≡ frame_of 0 "sum" inline 2 12 (some (located 5)) false
      ∷ frame_of 1 "func[8]" rust 2 12 (some (located 70)) false
      ∷ frame_of 2 "main+0x3" wasm 0 3 none true
      ∷ []
unfolding build_call_stack
call_stack = refl

build_call_stack-sites_example :
    activation_sites (build_call_stack same_path call_input 2) ≡ sites callee_frame 2
build_call_stack-sites_example = build_call_stack-sites same_path call_input 2 callee_frame refl

push_activation-IsActivation_example :
    (added : List CallFrame) × (push_activation same_path call_input (some callee_frame) 2 []
      ≡ [] ++ added)
    × IsActivation same_path call_input (some callee_frame) 2 added
push_activation-IsActivation_example =
    push_activation-IsActivation same_path call_input (some callee_frame) 2 []

build_call_stack-levels_example :
    IsNumbered (build_call_stack same_path call_input 2)
    × StartsAt call_input 2 (build_call_stack same_path call_input 2)
build_call_stack-levels_example = build_call_stack-levels same_path call_input 2

frames_computed :
    call_input.frames ≡ (compute_frames call_records call_positions call_ranges).frames
unfolding compute_frames function_index_at is_call
frames_computed = refl

build_call_stack-depth_example :
    length (activation_sites (build_call_stack same_path call_input 2)) ≡ 1 + 1
build_call_stack-depth_example =
    build_call_stack-depth same_path call_input call_records call_ranges 2 callee_frame
      frames_computed refl

elided : short_address (codes "CABCDEFGHIJKLMNOPQ") ≡ codes "CABCDE" ++ (0x2026 ∷ codes "NOPQ")
unfolding short_address
elided = refl

-- An address that is no 32 bytes long is shown as its digits.
short_digits : render_address (record { addr_type = "contract"; value = "63" }) ≡ codes "0x63"
unfolding render_address
short_digits = refl
