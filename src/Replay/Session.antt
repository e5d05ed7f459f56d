-- ===== src/Replay/Session.antt =====
-- The stop model that `buildStopModel` gives is one that the moves of replayCursor.ts rely on.
use stellar_debugger.Prelude.{ℕ, suc, ◌≡◌, refl, ap, ◌∙◌, Bool, Option, List, [], ◌∷◌, map, length}
use stellar_debugger.Prelude.Sets.{AscendingIn}
use stellar_debugger.Trace.{TraceRecord}
use stellar_debugger.Frames.{FunctionRange, WasmFrame, depth_or_zero, compute_frames}
use stellar_debugger.Frames.Lengths.{length-compute_frames}
use stellar_debugger.StopModel.{SourceMapper, StopModel, build_stop_model}
use stellar_debugger.StopModel.Positions.{build_stop_model-indices}
use stellar_debugger.StopModel.Ends.{stops-AscendingIn}
use stellar_debugger.Replay.Steps.{IsWellFormed}
use mathlib.Core.Path.{subst}

length-map_depth :
    (frames : List (Option WasmFrame)) → length (map depth_or_zero frames) ≡ length frames
length-map_depth [] = refl
length-map_depth (f ∷ frames) = ap suc (length-map_depth frames)

-- The stop model of any trace with one position for each record is well-formed: both kinds of stop
-- points are ascending record indices, and every record has a depth.
pub build_stop_model-IsWellFormed :
    (normalize : List ℕ → List ℕ) (records : List TraceRecord) (positions : List (Option ℕ))
    (ranges : List FunctionRange) (source : SourceMapper) (mine : Bool)
    → length positions ≡ length records
    → IsWellFormed
        (build_stop_model normalize records positions ranges source mine)
        (length records)
unfolding build_stop_model
build_stop_model-IsWellFormed normalize records positions ranges source mine e = record {
  runs =
      subst (λ n. AscendingIn 0 n m.run_starts) e
        (stops-AscendingIn normalize records positions ranges source mine);
  visible =
      subst (λ n. AscendingIn 0 n m.visible_indices) e
        (build_stop_model-indices normalize records positions ranges source mine).0.0;
  depths =
      length-map_depth (compute_frames records positions ranges).frames
      ∙ length-compute_frames records positions ranges;
}
  where
    m : StopModel
    m = build_stop_model normalize records positions ranges source mine
