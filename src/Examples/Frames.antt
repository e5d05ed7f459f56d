-- ===== src/Examples/Frames.antt =====
-- Runs and examples for the frames of src/debugAdapter/stops.ts.
use stellar_debugger.Prelude.{ℕ, String, Option, none, some, List, [], ◌∷◌, ◌≡◌, refl, get_elem?}
use stellar_debugger.Trace.{TraceRecord, is_call, is_return}
use stellar_debugger.Frames.{
  FunctionRange, outer, inner, opcode_frames, opcode_depths, function_index_at, compute_frames,
  position_at,
}
use stellar_debugger.Frames.Linked.{IsLinked}
use stellar_debugger.Frames.Walk.{compute_frames-IsLinked}
use stellar_debugger.Frames.Membership.{RunsAt, compute_frames-RunsAt}

abbrev range_at : ℕ → ℕ → FunctionRange
range_at start end = record { start = start; end = end; index = none; name = none }

abbrev caller_range : FunctionRange
caller_range = range_at 10 20

abbrev callee_range : FunctionRange
callee_range = range_at 30 40

abbrev two_ranges : List FunctionRange
two_ranges = caller_range ∷ callee_range ∷ []

abbrev step_at : ℕ → String → TraceRecord
step_at pos op = record { pos = some pos; op = op; mem = none }

-- A function that calls another one, which returns.
abbrev call_trace : List TraceRecord
call_trace = step_at 12 "call" ∷ step_at 30 "i32.add" ∷ step_at 39 "return" ∷ step_at 14 "drop" ∷ []

abbrev call_positions : List (Option ℕ)
call_positions = some 12 ∷ some 30 ∷ some 39 ∷ some 14 ∷ []

opcode_depths_call : opcode_depths call_trace ≡ 0 ∷ 1 ∷ 1 ∷ 0 ∷ []
unfolding opcode_depths opcode_frames is_call is_return
opcode_depths_call = refl

frames_call_site :
    get_elem? (compute_frames call_trace call_positions two_ranges).frames 1
    ≡ some (some (inner (some 1) 1 (some 0) (outer (some 0) 0 none)))
unfolding compute_frames is_call is_return function_index_at
frames_call_site = refl

compute_frames-IsLinked_example :
    IsLinked
      (compute_frames call_trace call_positions two_ranges).frames
      1
      (inner (some 1) 1 (some 0) (outer (some 0) 0 none))
compute_frames-IsLinked_example =
    compute_frames-IsLinked call_trace call_positions two_ranges 1
      (inner (some 1) 1 (some 0) (outer (some 0) 0 none)) frames_call_site

compute_frames-RunsAt_example :
    RunsAt
      (compute_frames call_trace call_positions two_ranges).ranges
      (position_at call_positions 1)
      (some (inner (some 1) 1 (some 0) (outer (some 0) 0 none)))
compute_frames-RunsAt_example =
    compute_frames-RunsAt call_trace call_positions caller_range (callee_range ∷ []) 1
      (some (inner (some 1) 1 (some 0) (outer (some 0) 0 none))) frames_call_site
