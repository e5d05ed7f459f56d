-- ===== src/Frames/Lengths.antt =====
-- `computeFrames` of src/debugAdapter/stops.ts gives every record a frame.
use stellar_debugger.Prelude.{
  ℕ, ◌+◌, ◌≡◌, Option, none, some, List, [], ◌∷◌, ◌++◌, length, length-snoc, head?, arith,
}
use stellar_debugger.Trace.{TraceRecord, opcode}
use stellar_debugger.Frames.{
  FunctionRange, WasmFrame, outer, opcode_step, opcode_loop, opcode_frames, sort_ranges,
  stack_after, visible_after, position_at, frames_loop, compute_frames,
}

length-opcode_loop :
    (records : List TraceRecord) (i : ℕ) (frame : WasmFrame) (frames : List (Option WasmFrame))
    → length (opcode_loop i records frame frames) ≡ length frames + length records
unfolding opcode_loop
length-opcode_loop [] i frame frames = omega arith
length-opcode_loop (r ∷ rest) i frame frames = omega (
  arith,
  length-opcode_loop rest (i + 1) (opcode_step i (opcode r) frame) (frames ++ some frame ∷ []),
  length-snoc frames (some frame),
)

module _ (all : List TraceRecord) (ranges : List FunctionRange) (positions : List (Option ℕ)) where
  length-frames_loop :
      (records : List TraceRecord) (i : ℕ) (prev : Option ℕ) (stack : List WasmFrame)
      (frames : List (Option WasmFrame))
      → length (frames_loop all ranges positions records i prev stack frames)
        ≡ length frames + length records
  unfolding frames_loop
  length-frames_loop [] i prev stack frames = omega arith
  length-frames_loop (r ∷ rest) i prev stack frames = omega (
    arith,
    length-frames_loop rest (i + 1) (visible_after i prev (position_at positions i)) after
        (frames ++ head? after ∷ []),
    length-snoc frames (head? after),
  )
    where
      after : List WasmFrame
      after = stack_after all ranges prev (position_at positions i) stack

pub length-compute_frames :
    (records : List TraceRecord) (positions : List (Option ℕ)) (ranges : List FunctionRange)
    → length (compute_frames records positions ranges).frames ≡ length records
unfolding compute_frames opcode_frames
length-compute_frames records positions [] =
    omega (arith, length-opcode_loop records 0 (outer none 0 none) [])
length-compute_frames records positions (r ∷ rest) =
    omega
      (arith, length-frames_loop records (sort_ranges (r ∷ rest)) positions records 0 none [] [])
