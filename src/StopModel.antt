-- ===== src/StopModel.antt =====
-- src/debugAdapter/stopModel.ts: the stop points of a resolved trace.
pub mod Positions
pub mod Ends
pub mod Pc
use stellar_debugger.Prelude.{
  ℕ, zero, suc, ◌+◌, ◌-◌, String, Bool, true, false, Option, none, some, List, [], ◌∷◌, ◌++◌, map,
  length, get_elem?, head?, last?, ◌==◌, if◌then◌else◌,
}
use stellar_debugger.Trace.{TraceRecord}
use stellar_debugger.Frames.{FunctionRange, WasmFrame, compute_frames, depth_or_zero, position_at}
use stellar_debugger.Stops.{compute_run_starts, statement_stops, my_code_stops}
use stellar_debugger.Lines.{classify_line_role, is_workspace_source}

-- A JavaScript `Map` from code offsets to index lists, in insertion order.
abbrev pub IndexMap : Type 0
IndexMap = List (ℕ × List ℕ)

-- `map.get(pos) ?? []`
unfoldable pub indices_of : IndexMap → ℕ → List ℕ
indices_of [] pos = []
indices_of ((p, l) ∷ m) pos = if p == pos then l else indices_of m pos

-- `list.push(i)` on the list of `pos`, or `map.set(pos, [i])`.
pub add_index : IndexMap → ℕ → ℕ → IndexMap
add_index [] pos i = (pos, i ∷ []) ∷ []
add_index ((p, l) ∷ m) pos i =
    let rest = add_index m pos i in if p == pos then (p, l ++ i ∷ []) ∷ m else (p, l) ∷ rest

-- The `forEach` over the positions: the map, and the visible indices.
pub index_loop : List (Option ℕ) → ℕ → IndexMap → List ℕ → IndexMap × List ℕ
unfolding add_index
index_loop [] i m visible = (m, visible)
index_loop (none ∷ rest) i m visible = index_loop rest (i + 1) m visible
index_loop (some pos ∷ rest) i m visible =
    index_loop rest (i + 1) (add_index m pos i) (visible ++ i ∷ [])

-- What the stop model asks of a source mapper.
pub record SourceMapper : Type 0 where
  pub line_key_for_index : ℕ → Option String
  pub source_text_for_index : ℕ → Option (List ℕ)
  pub path_for_index : ℕ → Option (List ℕ)

pub record StopModel : Type 0 where
  pub validated_pos_to_indices : IndexMap
  pub visible_indices : List ℕ
  pub frames : List (Option WasmFrame)
  pub ranges : List FunctionRange
  pub depths : List ℕ
  pub raw_run_starts : List ℕ
  pub run_starts : List ℕ
  pub first_stop_point : ℕ
  pub last_stop_point : ℕ

-- `a ?? b`
abbrev pub or_else : Option ℕ → ℕ → ℕ
or_else none b = b
or_else (some a) b = a

module _ (normalize : List ℕ → List ℕ) where
  -- `opts.justMyCode` filters the statement stops once more.
  pub source_stops : SourceMapper → Bool → List ℕ → List ℕ
  source_stops source just_my_code stops =
      if just_my_code
      then my_code_stops stops (λ i. is_workspace_source normalize (source.path_for_index i))
      else stops

  unfoldable pub build_stop_model :
      List TraceRecord → List (Option ℕ) → List FunctionRange → SourceMapper → Bool → StopModel
  unfolding index_loop source_stops
  build_stop_model records positions function_ranges source just_my_code =
      let indexed = index_loop positions 0 [] [] in
      let stacks = compute_frames records positions function_ranges in
      let depths = map depth_or_zero stacks.frames in
      let raw = compute_run_starts positions depths source.line_key_for_index in
      let stmt =
        statement_stops raw depths (λ i. classify_line_role (source.source_text_for_index i)) in
      let run_starts = source_stops source just_my_code stmt in
      record {
        validated_pos_to_indices = indexed.0;
        visible_indices = indexed.1;
        frames = stacks.frames;
        ranges = stacks.ranges;
        depths = depths;
        raw_run_starts = raw;
        run_starts = run_starts;
        first_stop_point = or_else (head? run_starts) (or_else (head? indexed.1) 0);
        last_stop_point =
            or_else (last? run_starts) (or_else (last? indexed.1) (length records - 1));
      }

-- The position at `index`, or at the nearest earlier record that has one. An index past the end
-- reads undefined, which is passed over too.
unfoldable pub pc_at_index : List (Option ℕ) → ℕ → Option ℕ
pc_at_index positions zero = position_at positions zero
pc_at_index positions (suc i) = elim (position_at positions (suc i)) [
  | some pos ↦ some pos
  | none ↦ pc_at_index positions i
]
