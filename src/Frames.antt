-- ===== src/Frames.antt =====
-- The wasm frame stack of src/debugAdapter/stops.ts: `opcodeFrames`, `functionIndexAt`,
-- `computeFrames` and the depths read off the frames.
-- The source's stack array is a list here, its last element first.
pub mod Ranges
pub mod Linked
pub mod Opcodes
pub mod Walk
pub mod Membership
pub mod Lengths
use stellar_debugger.Prelude.{
  ℕ, zero, suc, ◌+◌, String, Bool, true, false, ◌&&◌, Option, none, some, List, [], ◌∷◌, ◌++◌, map,
  length, get_elem?, head?, ltb, leb, ◌==◌, opt_eq, if◌then◌else◌,
}
use stellar_debugger.Prelude.Search.{bisect}
use stellar_debugger.Trace.{TraceRecord, opcode, is_call, is_return}

-- A function body in code offsets, [start, end).
pub record FunctionRange : Type 0 where
  pub start : ℕ
  pub end : ℕ
  pub index : Option ℕ
  pub name : Option String

-- `fn` is the index of a range (`none` for -1), then the depth, the record of the call (or null)
-- and the caller: `outer` has a null caller.
pub data WasmFrame : Type 0 where
  outer : Option ℕ → ℕ → Option ℕ → WasmFrame
  inner : Option ℕ → ℕ → Option ℕ → WasmFrame → WasmFrame

abbrev pub fn_of : WasmFrame → Option ℕ
fn_of (outer fn d c) = fn
fn_of (inner fn d c w) = fn

abbrev pub depth_of : WasmFrame → ℕ
depth_of (outer fn d c) = d
depth_of (inner fn d c w) = d

abbrev pub call_site_of : WasmFrame → Option ℕ
call_site_of (outer fn d c) = c
call_site_of (inner fn d c w) = c

abbrev pub caller_of : WasmFrame → Option WasmFrame
caller_of (outer fn d c) = none
caller_of (inner fn d c w) = some w

-- `{ ...frame, fn }`
pub with_fn : Option ℕ → WasmFrame → WasmFrame
with_fn fn (outer _ d c) = outer fn d c
with_fn fn (inner _ d c w) = inner fn d c w

-- `frame?.depth ?? 0`
abbrev pub depth_or_zero : Option WasmFrame → ℕ
depth_or_zero none = 0
depth_or_zero (some f) = depth_of f

-- The frame that follows a record with this opcode, at record index `i`.
pub opcode_step : ℕ → String → WasmFrame → WasmFrame
opcode_step i op frame =
    if is_call op
    then inner none (depth_of frame + 1) (some i) frame
    else if is_return op
    then elim (caller_of frame) [ none ↦ frame | some w ↦ w ]
    else frame

pub opcode_loop :
    ℕ → List TraceRecord → WasmFrame → List (Option WasmFrame) → List (Option WasmFrame)
opcode_loop i [] frame frames = frames
opcode_loop i (r ∷ rest) frame frames =
    opcode_loop (i + 1) rest (opcode_step i (opcode r) frame) (frames ++ some frame ∷ [])

unfoldable pub opcode_frames : List TraceRecord → List (Option WasmFrame)
unfolding opcode_loop opcode_step
opcode_frames records = opcode_loop 0 records (outer none 0 none) []

unfoldable pub opcode_depths : List TraceRecord → List ℕ
unfolding opcode_frames
opcode_depths records = map depth_or_zero (opcode_frames records)

-- `ranges[i].start <= pos`
abbrev pub starts_by : List FunctionRange → ℕ → ℕ → Bool
starts_by ranges pos i = elim (get_elem? ranges i) [ none ↦ false | some r ↦ leb r.start pos ]

-- `candidate >= 0 && pos < ranges[candidate].end ? candidate : -1`
pub keep_candidate : List FunctionRange → ℕ → Option ℕ → Option ℕ
keep_candidate ranges pos none = none
keep_candidate ranges pos (some k) = elim (get_elem? ranges k) [
  | none ↦ none
  | some r ↦ if ltb pos r.end then some k else none
]

-- Index of the sorted range that contains `pos`, `none` for -1.
unfoldable pub function_index_at : List FunctionRange → ℕ → Option ℕ
unfolding bisect keep_candidate
function_index_at ranges pos =
    keep_candidate ranges pos (bisect (starts_by ranges pos) (length ranges) 0 (length ranges) none)

-- `[...functionRanges].sort((a, b) => a.start - b.start)`, a stable sort.
pub insert_range : FunctionRange → List FunctionRange → List FunctionRange
insert_range r [] = r ∷ []
insert_range r (s ∷ rest) =
    let later = insert_range r rest in if leb r.start s.start then r ∷ s ∷ rest else s ∷ later

pub sort_ranges : List FunctionRange → List FunctionRange
unfolding insert_range
sort_ranges [] = []
sort_ranges (r ∷ rest) = insert_range r (sort_ranges rest)

-- The stack cut down to its topmost frame of `fn`; `none` where `lastIndexOfFn` is -1.
pub pop_to : Option ℕ → List WasmFrame → Option (List WasmFrame)
pop_to fn [] = none
pop_to fn (f ∷ below) =
    let deeper = pop_to fn below in if opt_eq (fn_of f) fn then some (f ∷ below) else deeper

-- `pos === ranges[fn].start`, false for fn = -1.
pub at_body_start : List FunctionRange → Option ℕ → ℕ → Bool
at_body_start ranges none pos = false
at_body_start ranges (some k) pos = elim (get_elem? ranges k) [
  | none ↦ false
  | some r ↦ pos == r.start
]

-- The visible record before this one, if it is of the call class.
pub call_before : List TraceRecord → Option ℕ → Option ℕ
call_before records none = none
call_before records (some p) = elim (get_elem? records p) [
  | none ↦ none
  | some r ↦ if is_call (opcode r) then some p else none
]

-- Back to the frame that the search found; the top takes the new function where none was found.
pub settle : Option (List WasmFrame) → Option ℕ → WasmFrame → List WasmFrame → List WasmFrame
unfolding with_fn
settle (some stack) fn top below = stack
settle none fn top below = with_fn fn top ∷ below

-- A move into another function: an entry pushes, a return pops, anything else renames the top.
pub cross : Option ℕ → Option ℕ → WasmFrame → List WasmFrame → List WasmFrame
unfolding pop_to settle
cross (some site) fn top below = inner fn (length (top ∷ below)) (some site) top ∷ top ∷ below
cross none fn top below = settle (pop_to fn (top ∷ below)) fn top below

-- The stack after a visible record at `pos`; `prev` is the visible record before it.
pub visit : List TraceRecord → List FunctionRange → Option ℕ → ℕ → List WasmFrame → List WasmFrame
unfolding at_body_start call_before cross
visit records ranges prev pos [] = outer (function_index_at ranges pos) 0 none ∷ []
visit records ranges prev pos (top ∷ below) =
    let fn = function_index_at ranges pos in
    if opt_eq fn (fn_of top)
    then top ∷ below
    else cross (if at_body_start ranges fn pos then call_before records prev else none) fn top below

-- `positions[i] ?? null`
abbrev pub position_at : List (Option ℕ) → ℕ → Option ℕ
position_at positions i = elim (get_elem? positions i) [ none ↦ none | some p ↦ p ]

-- An invisible record leaves the stack and the last visible record alone.
pub stack_after :
    List TraceRecord → List FunctionRange → Option ℕ → Option ℕ → List WasmFrame → List WasmFrame
unfolding visit
stack_after records ranges prev none stack = stack
stack_after records ranges prev (some pos) stack = visit records ranges prev pos stack

abbrev pub visible_after : ℕ → Option ℕ → Option ℕ → Option ℕ
visible_after i prev none = prev
visible_after i prev (some pos) = some i

pub frames_loop :
    List TraceRecord
    → List FunctionRange
    → List (Option ℕ)
    → List TraceRecord
    → ℕ
    → Option ℕ
    → List WasmFrame
    → List (Option WasmFrame)
    → List (Option WasmFrame)
frames_loop records ranges positions [] i prev stack frames = frames
frames_loop records ranges positions (r ∷ rest) i prev stack frames =
    let pos = position_at positions i in
    let after = stack_after records ranges prev pos stack in
    frames_loop records ranges positions rest (i + 1) (visible_after i prev pos) after
      (frames ++ head? after ∷ [])

pub record FrameStacks : Type 0 where
  pub frames : List (Option WasmFrame)
  pub ranges : List FunctionRange

-- No ranges, or an undefined list of them, is the empty list here.
unfoldable pub compute_frames :
    List TraceRecord → List (Option ℕ) → List FunctionRange → FrameStacks
unfolding opcode_frames sort_ranges frames_loop stack_after
compute_frames records positions [] = record { frames = opcode_frames records; ranges = [] }
compute_frames records positions (r ∷ rest) =
    let ranges = sort_ranges (r ∷ rest) in
    record { frames = frames_loop records ranges positions records 0 none [] []; ranges = ranges }

unfoldable pub compute_depths : List TraceRecord → List (Option ℕ) → List FunctionRange → List ℕ
unfolding compute_frames
compute_depths records positions ranges =
    map depth_or_zero (compute_frames records positions ranges).frames
