-- ===== src/Examples/Replay.antt =====
-- Runs and examples for the replay cursor, the current PC, the breakpoints and the memory image.
use stellar_debugger.Prelude.{
  ℕ, zero, suc, ◌+◌, ◌<◌, String, true, false, Option, none, some, List, [], ◌∷◌, ◌≡◌, refl, ◌↔◌,
  ◌⊎◌, arith, get_elem?, length,
}
use stellar_debugger.Prelude.Sets.{has}
use stellar_debugger.Prelude.Int.{pos}
use stellar_debugger.Trace.{TraceRecord}
use stellar_debugger.StopModel.{StopModel, indices_of}
use stellar_debugger.Replay.{
  TraceModel, by_statement, by_instruction, stopped, terminated, breakpoint, unlimited, at_most,
  stop_points, step_forward, step_backward, run_forward, run_backward, resolve_breakpoints,
}
use stellar_debugger.Replay.Steps.{
  IsWellFormed, IsStep, IsStepBack, step_forward-IsStep, step_backward-IsStepBack,
  step_backward-step_forward,
}
use stellar_debugger.Replay.Breakpoints.{run_backward-run_forward}
use stellar_debugger.Replay.Resolve.{FromSource, FromAddresses, resolve_breakpoints_iff}
use stellar_debugger.Memory.{memory_image, read_memory}
use stellar_debugger.Memory.Copies.{byte_in}
use stellar_debugger.Memory.Reads.{latest, clamp_to, read_memory-bytes}

-- Six records, the fourth one call deeper, with three statement stops.
abbrev six_stops : StopModel
six_stops = record {
  validated_pos_to_indices = (7, 0 ∷ []) ∷ (9, 2 ∷ 5 ∷ []) ∷ [];
  visible_indices = 0 ∷ 2 ∷ 3 ∷ 5 ∷ [];
  frames = [];
  ranges = [];
  depths = 0 ∷ 0 ∷ 0 ∷ 1 ∷ 0 ∷ 0 ∷ [];
  raw_run_starts = 0 ∷ 3 ∷ 5 ∷ [];
  run_starts = 0 ∷ 3 ∷ 5 ∷ [];
  first_stop_point = 0;
  last_stop_point = 5;
}

abbrev at_first : TraceModel
at_first = record { size = 6; cursor = 0 }

abbrev at_last : TraceModel
at_last = record { size = 6; cursor = 5 }

six_stops-IsWellFormed : IsWellFormed six_stops 6
six_stops-IsWellFormed = record {
  runs = (omega arith, (omega arith, (omega arith, omega arith)));
  visible = (omega arith, (omega arith, (omega arith, (omega arith, omega arith))));
  depths = refl;
}

-- A step over at depth 0 passes the deeper stop.
step_over : step_forward six_stops by_statement (at_most 0) at_first ≡ (stopped, at_last)
unfolding step_forward
step_over = refl

step_past_end : step_forward six_stops by_statement unlimited at_last ≡ (terminated, at_last)
unfolding step_forward
step_past_end = refl

step_forward-IsStep_example :
    IsStep six_stops by_statement
      (at_most 0)
      at_first
      (step_forward six_stops by_statement (at_most 0) at_first)
step_forward-IsStep_example =
    step_forward-IsStep six_stops by_statement (at_most 0) at_first six_stops-IsWellFormed

step_backward-IsStepBack_example :
    IsStepBack six_stops by_instruction
      (at_most 0)
      at_last
      (step_backward six_stops by_instruction (at_most 0) at_last)
step_backward-IsStepBack_example =
    step_backward-IsStepBack six_stops by_instruction (at_most 0) at_last six_stops-IsWellFormed

step_backward-step_forward_example :
    step_backward six_stops by_statement unlimited
      (step_forward six_stops by_statement unlimited at_first).1
    ≡ at_first
unfolding stop_points
step_backward-step_forward_example =
    step_backward-step_forward six_stops by_statement at_first 5 six_stops-IsWellFormed refl refl
      (omega arith)

abbrev two_breakpoints : List ℕ
two_breakpoints = 5 ∷ 0 ∷ []

nothing_between : (j : ℕ) → 0 < j → j < 5 → has two_breakpoints j ≡ false
nothing_between zero h k = absurd (omega arith)
nothing_between (suc zero) h k = refl
nothing_between (suc (suc zero)) h k = refl
nothing_between (suc (suc (suc zero))) h k = refl
nothing_between (suc (suc (suc (suc zero)))) h k = refl
nothing_between (suc (suc (suc (suc (suc j))))) h k = absurd (omega arith)

run_backward-run_forward_example :
    (run_forward six_stops two_breakpoints at_first ≡ (breakpoint, at_last))
    × (run_backward six_stops two_breakpoints (run_forward six_stops two_breakpoints at_first).1
        ≡ (breakpoint, at_first))
run_backward-run_forward_example =
    run_backward-run_forward six_stops two_breakpoints at_first 5 (omega arith) (omega arith) refl
      refl nothing_between

-- Line 4 of every file resolves to the records 3 and 4.
abbrev line_four : String → ℕ → List ℕ
line_four file (suc (suc (suc (suc zero)))) = 3 ∷ 4 ∷ []
line_four file line = []

abbrev one_file : List (String × List ℕ)
one_file = ("lib.rs", 4 ∷ 6 ∷ []) ∷ []

resolved : resolve_breakpoints six_stops (some line_four) one_file (9 ∷ []) ≡ 3 ∷ 2 ∷ 5 ∷ []
unfolding resolve_breakpoints indices_of
resolved = refl

resolve_breakpoints_iff_example :
    (has (resolve_breakpoints six_stops (some line_four) one_file (9 ∷ [])) 5 ≡ true) ↔ (
      FromSource (some line_four) (0 ∷ 3 ∷ 5 ∷ []) one_file 5
      ⊎ FromAddresses ((7, 0 ∷ []) ∷ (9, 2 ∷ 5 ∷ []) ∷ []) (9 ∷ []) 5)
resolve_breakpoints_iff_example =
    resolve_breakpoints_iff six_stops (some line_four) one_file (9 ∷ []) 5

abbrev gap_positions : List (Option ℕ)
gap_positions = none ∷ some 8 ∷ none ∷ none ∷ []

abbrev plain : TraceRecord
plain = record { pos = none; op = "nop"; mem = none }

abbrev snapshot : TraceRecord
snapshot = record {
  pos = none;
  op = "i32.store";
  mem = some (record { addr = 4; bytes = 1 ∷ 2 ∷ [] } ∷ record { addr = 5; bytes = 9 ∷ [] } ∷ []);
}

abbrev memory_trace : List TraceRecord
memory_trace = plain ∷ snapshot ∷ plain ∷ []

read_over_runs : read_memory (memory_image memory_trace) 2 (pos 3) 4 ≡ some (0 ∷ 1 ∷ 9 ∷ 0 ∷ [])
unfolding read_memory
read_over_runs = refl

read_memory-bytes_example :
    (out : List ℕ) × (read_memory (memory_image memory_trace) 2 (pos 3) 4 ≡ some out)
    × (length out ≡ 4)
    × ((k : ℕ)
        → k < 4
        → get_elem? out k ≡ some (byte_in (latest [] memory_trace (clamp_to 2 3)) (3 + k) 0))
read_memory-bytes_example = read_memory-bytes memory_trace 2 3 4 (omega arith) (omega arith)
