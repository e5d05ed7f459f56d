-- ===== src/Stops.antt =====
-- The stop points of src/debugAdapter/stops.ts: line runs, statement stops and my-code stops.
pub mod Runs
pub mod Covers
pub mod SameFrame
pub mod Iterations
pub mod Statements
pub mod Roles
pub mod Workspace
use stellar_debugger.Prelude.{
  ℕ, zero, suc, ◌+◌, ◌-◌, String, Bool, true, false, not, ◌&&◌, ◌||◌, Option, none, some, List, [],
  ◌∷◌, ◌++◌, length, get_elem?, head?, ltb, leb, ◌==◌, str_eq, if◌then◌else◌,
}
use stellar_debugger.Prelude.Sets.{has}

-- The line run that is open at one depth: its key and the offsets it has covered.
pub record Run : Type 0 where
  pub key : String
  pub offsets : List ℕ

-- `runs.length = n`: cut off, or filled up with undefined.
pub resize : ℕ → List (Option Run) → List (Option Run)
resize zero runs = []
resize (suc n) [] = none ∷ resize n []
resize (suc n) (r ∷ runs) = r ∷ resize n runs

-- `runs[i]`
pub run_at : List (Option Run) → ℕ → Option Run
run_at [] i = none
run_at (r ∷ runs) zero = r
run_at (r ∷ runs) (suc i) = run_at runs i

-- `runs[i] = run`
pub set_run : List (Option Run) → ℕ → Run → List (Option Run)
set_run [] i run = []
set_run (r ∷ runs) zero run = some run ∷ runs
set_run (r ∷ runs) (suc i) run = r ∷ set_run runs i run

-- The run goes on: same key, and the offset is new to it.
pub extends : Option Run → String → ℕ → Bool
extends none key pos = false
extends (some run) key pos = str_eq run.key key && not (has run.offsets pos)

-- The run at this depth after a record with this key and offset.
pub next_run : Option Run → String → ℕ → Run
unfolding extends
next_run none key pos = record { key = key; offsets = pos ∷ [] }
next_run (some run) key pos =
    if extends (some run) key pos
    then record { key = run.key; offsets = pos ∷ run.offsets }
    else record { key = key; offsets = pos ∷ [] }

-- `depths[i]`; every index that the loop asks for is in range.
abbrev pub depth_at : List ℕ → ℕ → ℕ
depth_at depths i = elim (get_elem? depths i) [ none ↦ 0 | some d ↦ d ]

-- A visible, mapped record: the runs after it, and whether it starts one.
pub mapped_runs : List (Option Run) → ℕ → String → ℕ → List (Option Run)
unfolding resize run_at set_run next_run
mapped_runs runs depth key pos =
    let runs' = resize (depth + 1) runs in
    set_run runs' depth (next_run (run_at runs' depth) key pos)

pub starts_run : List (Option Run) → ℕ → String → ℕ → Bool
unfolding resize run_at extends
starts_run runs depth key pos = not (extends (run_at (resize (depth + 1) runs) depth) key pos)

-- A visible record with its key and depth: `continue` where the key is null.
pub after_key : Option String → ℕ → ℕ → List (Option Run) → List (Option Run)
unfolding mapped_runs
after_key none depth pos runs = runs
after_key (some key) depth pos runs = mapped_runs runs depth key pos

pub start_key : Option String → ℕ → ℕ → List (Option Run) → Bool
unfolding starts_run
start_key none depth pos runs = false
start_key (some key) depth pos runs = starts_run runs depth key pos

module _ (depths : List ℕ) (line_key : ℕ → Option String) where
  -- The runs after record `i` at this position, null for an invisible record.
  pub runs_after : ℕ → Option ℕ → List (Option Run) → List (Option Run)
  unfolding after_key
  runs_after i none runs = runs
  runs_after i (some pos) runs = after_key (line_key i) (depth_at depths i) pos runs

  pub is_start : ℕ → Option ℕ → List (Option Run) → Bool
  unfolding start_key
  is_start i none runs = false
  is_start i (some pos) runs = start_key (line_key i) (depth_at depths i) pos runs

  pub runs_loop : List (Option ℕ) → ℕ → List (Option Run) → List ℕ → List ℕ
  unfolding runs_after is_start
  runs_loop [] i runs starts = starts
  runs_loop (pos ∷ rest) i runs starts =
      runs_loop rest (i + 1) (runs_after i pos runs)
        (if is_start i pos runs then starts ++ i ∷ [] else starts)

unfoldable pub compute_run_starts : List (Option ℕ) → List ℕ → (ℕ → Option String) → List ℕ
unfolding runs_loop
compute_run_starts positions depths line_key = runs_loop depths line_key positions 0 [] []

-- The role of a source line.
pub data LineRole : Type 0 where
  attribute signature brace statement : LineRole

module _ (run_starts depths : List ℕ) (role_at : ℕ → LineRole) where
  -- `runStarts[p]`
  start_at : ℕ → ℕ
  start_at p = elim (get_elem? run_starts p) [ none ↦ 0 | some i ↦ i ]

  -- `depths[runStarts[p]]`
  pub stop_depth : ℕ → ℕ
  unfolding start_at
  stop_depth p = depth_at depths (start_at p)

  pub stop_role : ℕ → LineRole
  unfolding start_at
  stop_role p = role_at (start_at p)

  -- A brace is kept iff it is the last run start, or the next one is shallower.
  pub keep_brace : ℕ → Bool
  unfolding stop_depth
  keep_brace p = p + 1 == length run_starts || ltb (stop_depth (p + 1)) (stop_depth p)

  pub is_kept_stop : ℕ → Bool
  unfolding stop_role keep_brace
  is_kept_stop q = elim (stop_role q) [
    | attribute ↦ false
    | signature ↦ false
    | brace ↦ keep_brace q
    | statement ↦ true
  ]

  -- The scan for `q = p + 1` and up, `n` run starts left.
  pub kept_after : ℕ → ℕ → ℕ → Bool
  unfolding is_kept_stop
  kept_after d q zero = false
  kept_after d q (suc n) =
      let rest = kept_after d (q + 1) n in
      if ltb (stop_depth q) d
      then false
      else if stop_depth q == d && is_kept_stop q
      then true
      else rest

  -- The scan for `q = p - 1` down to 0.
  pub kept_before : ℕ → ℕ → Bool
  unfolding is_kept_stop
  kept_before d zero = false
  kept_before d (suc q) =
      let rest = kept_before d q in
      if ltb (stop_depth q) d
      then false
      else if stop_depth q == d && is_kept_stop q
      then true
      else rest

  pub other_same_depth_stop : ℕ → Bool
  unfolding kept_after kept_before
  other_same_depth_stop p =
      kept_after (stop_depth p) (p + 1) (length run_starts - (p + 1))
      || kept_before (stop_depth p) p

  -- Whether the run start at position `p` passes the filter.
  pub keeps : ℕ → Bool
  unfolding stop_role keep_brace other_same_depth_stop
  keeps p = elim (stop_role p) [
    | attribute ↦ false
    | statement ↦ true
    | brace ↦ keep_brace p
    | signature ↦ not (other_same_depth_stop p)
  ]

  pub statement_loop : List ℕ → ℕ → List ℕ → List ℕ
  unfolding keeps
  statement_loop [] p result = result
  statement_loop (i ∷ rest) p result =
      statement_loop rest (p + 1) (if keeps p then result ++ i ∷ [] else result)

-- The unfiltered stops stand where the filter leaves none.
abbrev pub or_unfiltered : List ℕ → List ℕ → List ℕ
or_unfiltered [] run_starts = run_starts
or_unfiltered (i ∷ result) run_starts = i ∷ result

unfoldable pub statement_stops : List ℕ → List ℕ → (ℕ → LineRole) → List ℕ
unfolding statement_loop
statement_stops run_starts depths role_at =
    or_unfiltered (statement_loop run_starts depths role_at run_starts 0 []) run_starts

-- `runStarts.filter((i) => isWorkspaceSource(pathAt(i)))`
pub workspace_only : (ℕ → Bool) → List ℕ → List ℕ
workspace_only is_workspace [] = []
workspace_only is_workspace (i ∷ rest) =
    let kept = workspace_only is_workspace rest in if is_workspace i then i ∷ kept else kept

unfoldable pub my_code_stops : List ℕ → (ℕ → Bool) → List ℕ
unfolding workspace_only
my_code_stops run_starts is_workspace =
    or_unfiltered (workspace_only is_workspace run_starts) run_starts
