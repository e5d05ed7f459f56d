-- ===== src/Replay.antt =====
-- The cursor of src/debugAdapter/TraceModel.ts and the moves of src/debugAdapter/replayCursor.ts.
pub mod Scans
pub mod Steps
pub mod Breakpoints
pub mod Resolve
pub mod Session
use stellar_debugger.Prelude.{
  ℕ, zero, suc, ◌+◌, ◌-◌, String, Bool, true, false, ◌&&◌, Option, none, some, List, [], ◌∷◌, ◌++◌,
  length, get_elem?, head?, last?, ltb, leb, ◌==◌, if◌then◌else◌,
}
use stellar_debugger.Prelude.Sets.{has}
use stellar_debugger.StopModel.{StopModel, IndexMap, indices_of}
use Prim.Native.Nat.{min, max}

-- The trace is seen by its number of records alone.
pub record TraceModel : Type 0 where
  pub size : ℕ
  pub cursor : ℕ

pub clamp : ℕ → ℕ → ℕ → ℕ
clamp value lo hi = max lo (min hi value)

pub seek : ℕ → TraceModel → TraceModel
unfolding clamp
seek index m = record m { cursor = clamp index 0 (m.size - 1) }

-- `for (i = …; i < n; i++) if (indexSet.has(i)) return i`, with `left` rounds to go.
pub scan_up : List ℕ → ℕ → ℕ → Option ℕ
scan_up set i zero = none
scan_up set i (suc left) = let rest = scan_up set (i + 1) left in if has set i then some i else rest

-- `for (i = n - 1; i >= 0; i--) if (indexSet.has(i)) return i`.
pub scan_down : List ℕ → ℕ → Option ℕ
scan_down set zero = none
scan_down set (suc i) = let rest = scan_down set i in if has set i then some i else rest

pub next_index_in_set : List ℕ → TraceModel → Option ℕ
unfolding scan_up
next_index_in_set set m = scan_up set (m.cursor + 1) (m.size - (m.cursor + 1))

pub prev_index_in_set : List ℕ → TraceModel → Option ℕ
unfolding scan_down
prev_index_in_set set m = scan_down set m.cursor

pub data Granularity : Type 0 where
  by_statement by_instruction : Granularity

pub data StepOutcome : Type 0 where
  stopped terminated : StepOutcome

pub data RunOutcome : Type 0 where
  breakpoint clamped : RunOutcome

-- The ceiling `maxDepth`: `Infinity`, a depth, or the -1 of a step out of the outermost frame.
pub data DepthLimit : Type 0 where
  unlimited negative : DepthLimit
  at_most : ℕ → DepthLimit

-- `depths[i] <= maxDepth`, false where `depths[i]` is undefined.
abbrev pub within : Option ℕ → DepthLimit → Bool
within none limit = false
within (some d) unlimited = true
within (some d) negative = false
within (some d) (at_most n) = leb d n

-- The depth at the cursor, `?? 0`.
pub depth_here : StopModel → TraceModel → ℕ
depth_here stops m = elim (get_elem? stops.depths m.cursor) [ none ↦ 0 | some d ↦ d ]

-- `depth - 1`, the ceiling of a step out.
abbrev pub below_depth : ℕ → DepthLimit
below_depth zero = negative
below_depth (suc d) = at_most d

pub has_statement_stops : StopModel → Granularity → Bool
has_statement_stops stops by_instruction = false
has_statement_stops stops by_statement = ltb 0 (length stops.run_starts)

unfoldable pub stop_points : StopModel → Granularity → List ℕ
unfolding has_statement_stops
stop_points stops granularity =
    if has_statement_stops stops granularity then stops.run_starts else stops.visible_indices

-- The first stop point after the cursor that is not too deep.
pub first_ahead : List ℕ → DepthLimit → ℕ → List ℕ → Option ℕ
first_ahead depths limit cursor [] = none
first_ahead depths limit cursor (i ∷ points) =
    let rest = first_ahead depths limit cursor points in
    if ltb cursor i && within (get_elem? depths i) limit then some i else rest

-- The last stop point before the cursor that is not too deep.
pub last_behind : List ℕ → DepthLimit → ℕ → List ℕ → Option ℕ
last_behind depths limit cursor [] = none
last_behind depths limit cursor (i ∷ points) = elim (last_behind depths limit cursor points) [
  | some j ↦ some j
  | none ↦ if ltb i cursor && within (get_elem? depths i) limit then some i else none
]

pub to_entry : StopModel → TraceModel → TraceModel
unfolding seek
to_entry stops m = seek stops.first_stop_point m

-- Where a forward step with nothing ahead leaves the cursor.
pub no_step : Bool → List ℕ → TraceModel → StepOutcome × TraceModel
unfolding seek
no_step true points m = (terminated, m)
no_step false points m = (stopped, elim (last? points) [ none ↦ m | some i ↦ seek i m ])

unfoldable pub step_forward :
    StopModel → Granularity → DepthLimit → TraceModel → StepOutcome × TraceModel
unfolding first_ahead no_step stop_points
step_forward stops granularity limit m =
    let points = stop_points stops granularity in
    elim (first_ahead stops.depths limit m.cursor points) [
      | some i ↦ (stopped, seek i m)
      | none ↦ no_step (has_statement_stops stops granularity) points m
    ]

-- A backward step with nothing behind clamps to the first stop point, if there is one.
pub rest_behind : Option ℕ → List ℕ → TraceModel → TraceModel
unfolding seek
rest_behind (some i) points m = seek i m
rest_behind none points m = elim (head? points) [ none ↦ m | some i ↦ seek i m ]

pub step_backward : StopModel → Granularity → DepthLimit → TraceModel → TraceModel
unfolding last_behind rest_behind stop_points
step_backward stops granularity limit m =
    let points = stop_points stops granularity in
    rest_behind (last_behind stops.depths limit m.cursor points) points m

-- `this.model.seek(target ?? limit)`, and whether there was a target.
pub run_to : Option ℕ → ℕ → TraceModel → RunOutcome × TraceModel
unfolding seek
run_to (some i) limit m = (breakpoint, seek i m)
run_to none limit m = (clamped, seek limit m)

pub run_forward : StopModel → List ℕ → TraceModel → RunOutcome × TraceModel
unfolding next_index_in_set run_to
run_forward stops breakpoints m = run_to (next_index_in_set breakpoints m) stops.last_stop_point m

pub run_backward : StopModel → List ℕ → TraceModel → RunOutcome × TraceModel
unfolding prev_index_in_set run_to
run_backward stops breakpoints m = run_to (prev_index_in_set breakpoints m) stops.first_stop_point m

-- `indices.add(i)` for each `i` that passes the test.
pub add_all : (ℕ → Bool) → List ℕ → List ℕ → List ℕ
add_all test [] set = set
add_all test (i ∷ more) set = add_all test more (if test i then set ++ i ∷ [] else set)

-- The breakpoints of one file, then of the files in the client's map. `resolve file line` is the
-- mapper's `resolveBreakpoint(file, line)?.indices ?? []`.
pub add_lines : (ℕ → List ℕ) → List ℕ → List ℕ → List ℕ → List ℕ
unfolding add_all
add_lines resolve raw [] set = set
add_lines resolve raw (line ∷ lines) set =
    add_lines resolve raw lines (add_all (has raw) (resolve line) set)

pub add_files : (String → ℕ → List ℕ) → List ℕ → List (String × List ℕ) → List ℕ → List ℕ
unfolding add_lines
add_files resolve raw [] set = set
add_files resolve raw ((file, lines) ∷ files) set =
    add_files resolve raw files (add_lines (resolve file) raw lines set)

pub add_addresses : IndexMap → List ℕ → List ℕ → List ℕ
unfolding add_all
add_addresses m [] set = set
add_addresses m (address ∷ addresses) set =
    add_addresses m addresses (add_all (λ _. true) (indices_of m address) set)

-- A null source mapper resolves no source breakpoint.
unfoldable pub resolve_breakpoints :
    StopModel → Option (String → ℕ → List ℕ) → List (String × List ℕ) → List ℕ → List ℕ
unfolding add_files add_addresses
resolve_breakpoints stops source source_breakpoints instruction_addresses =
    add_addresses stops.validated_pos_to_indices instruction_addresses (elim source [
      | none ↦ []
      | some resolve ↦ add_files resolve stops.raw_run_starts source_breakpoints []
    ])
