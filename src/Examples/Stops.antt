-- ===== src/Examples/Stops.antt =====
-- Runs and examples for the stop points of src/debugAdapter/stops.ts and stopModel.ts.
use stellar_debugger.Prelude.{
  ℕ, zero, suc, Bool, ◌==◌, String, true, false, Option, none, some, List, [], ◌∷◌, ◌≡◌, refl, ◌↔◌,
  arith, get_elem?,
}
use stellar_debugger.Prelude.Sets.{has}
use stellar_debugger.Trace.{TraceRecord}
use stellar_debugger.Stops.{
  my_code_stops, compute_run_starts, statement_stops, other_same_depth_stop, LineRole, statement,
  signature,
}
use stellar_debugger.Stops.SameFrame.{SameFrameStop, other_same_depth_stop_iff}
use stellar_debugger.Stops.Iterations.{
  StopWithin, compute_run_starts-revisit, compute_run_starts-covers,
}
use stellar_debugger.Stops.Roles.{IsChosen, has-statement_stops_roles}
use stellar_debugger.StopModel.{SourceMapper, StopModel, build_stop_model, indices_of}
use stellar_debugger.StopModel.Positions.{Selects, IsVisible, build_stop_model-indices}
use stellar_debugger.Replay.Steps.{IsWellFormed}
use stellar_debugger.Replay.Session.{build_stop_model-IsWellFormed}

-- A loop of two offsets on one line, run twice after a line of its own.
abbrev loop_positions : List (Option ℕ)
loop_positions = some 1 ∷ some 5 ∷ none ∷ some 6 ∷ some 5 ∷ some 6 ∷ []

abbrev loop_depths : List ℕ
loop_depths = 0 ∷ 0 ∷ 0 ∷ 0 ∷ 0 ∷ 0 ∷ []

abbrev loop_line : ℕ → Option String
loop_line zero = some "a:1"
loop_line (suc i) = some "a:2"

loop_starts : compute_run_starts loop_positions loop_depths loop_line ≡ 0 ∷ 1 ∷ 4 ∷ []
unfolding compute_run_starts
loop_starts = refl

compute_run_starts-revisit_example :
    StopWithin (compute_run_starts loop_positions loop_depths loop_line) 2 4
compute_run_starts-revisit_example =
    compute_run_starts-revisit loop_positions loop_depths loop_line 1 4 5 "a:2" "a:2" (omega arith)
      refl refl refl refl refl

compute_run_starts-covers_example :
    StopWithin (compute_run_starts loop_positions loop_depths loop_line) 0 3
compute_run_starts-covers_example =
    compute_run_starts-covers loop_positions loop_depths loop_line 3 (6, "a:2", refl, refl)

abbrev three_starts : List ℕ
three_starts = 0 ∷ 2 ∷ 5 ∷ []

abbrev role_of_start : ℕ → LineRole
role_of_start zero = signature
role_of_start (suc i) = statement

stops_after_signature : statement_stops three_starts loop_depths role_of_start ≡ 2 ∷ 5 ∷ []
unfolding statement_stops
stops_after_signature = refl

other_same_depth_stop_iff_example :
    (other_same_depth_stop three_starts loop_depths role_of_start 0 ≡ true)
    ↔ SameFrameStop three_starts loop_depths role_of_start 0
other_same_depth_stop_iff_example =
    other_same_depth_stop_iff three_starts loop_depths role_of_start 0

has-statement_stops_roles_example :
    (has (statement_stops three_starts loop_depths role_of_start) 2 ≡ true) ↔ (
      (p : ℕ) × (get_elem? three_starts p ≡ some 2)
      × IsChosen three_starts loop_depths role_of_start p)
has-statement_stops_roles_example =
    has-statement_stops_roles three_starts loop_depths role_of_start 2

abbrev no_path : ℕ → Option (List ℕ)
no_path i = none

abbrev loop_source : SourceMapper
loop_source = record {
  line_key_for_index = loop_line;
  source_text_for_index = no_path;
  path_for_index = no_path;
}

abbrev record_at : Option ℕ → TraceRecord
record_at pos = record { pos = pos; op = "nop"; mem = none }

abbrev loop_records : List TraceRecord
loop_records =
    record_at (some 1)
    ∷ record_at (some 5)
    ∷ record_at none
    ∷ record_at (some 6)
    ∷ record_at (some 5)
    ∷ record_at (some 6)
    ∷ []

-- A normal path is taken to be the path as it is.
abbrev same_path : List ℕ → List ℕ
same_path path = path

abbrev loop_model : StopModel
loop_model = build_stop_model same_path loop_records loop_positions [] loop_source false

build_stop_model-indices_example :
    Selects loop_positions IsVisible loop_model.visible_indices
    × ((pos : ℕ)
        → Selects loop_positions
            (λ o. o ≡ some pos)
            (indices_of loop_model.validated_pos_to_indices pos))
build_stop_model-indices_example =
    build_stop_model-indices same_path loop_records loop_positions [] loop_source false

build_stop_model-IsWellFormed_example : IsWellFormed loop_model 6
build_stop_model-IsWellFormed_example =
    build_stop_model-IsWellFormed same_path loop_records loop_positions [] loop_source false refl

-- Only the third stop's file belongs to the workspace.
abbrev only_five : ℕ → Bool
only_five i = i == 5

mine_alone : my_code_stops three_starts only_five ≡ 5 ∷ []
unfolding my_code_stops
mine_alone = refl

library_alone : my_code_stops three_starts (λ _. false) ≡ three_starts
unfolding my_code_stops
library_alone = refl
