-- ===== src/Stops/Runs.antt =====
-- `computeRunStarts` of stops.ts: order, mapping and non-emptiness of the run starts.
use stellar_debugger.Prelude.{
  ℕ, suc, ◌+◌, ◌≡◌, refl, ap, ◌∙◌, String, Bool, true, false, Option, none, some, List, [], ◌∷◌,
  ◌++◌, length, get_elem?, All, All-append, arith, if◌then◌else◌,
}
use stellar_debugger.Prelude.Sets.{AscendingIn, AscendingIn-snoc, AscendingIn-widen}
use mathlib.Core.Path.{subst}
use stellar_debugger.Stops.{Run, depth_at, start_key, is_start, runs_loop, compute_run_starts}

-- The record is visible and has a line key.
abbrev pub IsMapped : (ℕ → Option String) → ℕ → Option ℕ → Type 0
IsMapped line_key i pos = (p : ℕ) × (k : String) × (pos ≡ some p) × (line_key i ≡ some k)

abbrev pub IsMappedAt : List (Option ℕ) → (ℕ → Option String) → ℕ → Type 0
IsMappedAt positions line_key i =
    (p : ℕ) × (k : String) × (get_elem? positions i ≡ some (some p)) × (line_key i ≡ some k)

start_key-mapped :
    (key : Option String) (depth pos : ℕ) (runs : List (Option Run))
    → start_key key depth pos runs ≡ true
    → (k : String) × (key ≡ some k)
unfolding start_key
start_key-mapped none depth pos runs h = cc
start_key-mapped (some k) depth pos runs h = (k, refl)

module _ (depths : List ℕ) (line_key : ℕ → Option String) where
  is_start-IsMapped :
      (i : ℕ) (pos : Option ℕ) (runs : List (Option Run))
      → is_start depths line_key i pos runs ≡ true
      → IsMapped line_key i pos
  unfolding is_start
  is_start-IsMapped i none runs h = cc
  is_start-IsMapped i (some p) runs h =
      let (k, e) = start_key-mapped (line_key i) (depth_at depths i) p runs h in (p, k, refl, e)

  -- The step of the accumulator, by its test.
  abbrev starts_after : Bool → ℕ → List ℕ → List ℕ
  starts_after b i starts = if b then starts ++ i ∷ [] else starts

  starts_after-AscendingIn :
      (b : Bool) (i : ℕ) (starts : List ℕ)
      → AscendingIn 0 i starts
      → AscendingIn 0 (suc i) (starts_after b i starts)
  starts_after-AscendingIn true i starts h = AscendingIn-snoc 0 i starts h
  starts_after-AscendingIn false i starts h =
      AscendingIn-widen 0 0 i (suc i) starts (omega arith) (omega arith) h

  runs_loop-AscendingIn :
      (rest : List (Option ℕ)) (i n : ℕ) (runs : List (Option Run)) (starts : List ℕ)
      → i + length rest ≡ n
      → AscendingIn 0 i starts
      → AscendingIn 0 n (runs_loop depths line_key rest i runs starts)
  unfolding runs_loop
  runs_loop-AscendingIn [] i n runs starts e h =
      AscendingIn-widen 0 0 i n starts (omega arith) (omega arith) h
  runs_loop-AscendingIn (pos ∷ rest) i n runs starts e h =
      runs_loop-AscendingIn rest (i + 1) n _ _ (omega arith) (
        AscendingIn-widen 0 0 (suc i) (i + 1) _ (omega arith) (omega arith)
          (starts_after-AscendingIn (is_start depths line_key i pos runs) i starts h))

  module _ (positions : List (Option ℕ)) where
    starts_after-mapped :
        (i : ℕ) (pos : Option ℕ) (runs : List (Option Run)) (starts : List ℕ) (b : Bool)
        → get_elem? positions i ≡ some pos
        → is_start depths line_key i pos runs ≡ b
        → All (IsMappedAt positions line_key) starts
        → All (IsMappedAt positions line_key) (starts_after b i starts)
    starts_after-mapped i pos runs starts false at e h = h
    starts_after-mapped i pos runs starts true at e h =
        let (p, k, hp, hk) = is_start-IsMapped i pos runs e in
        All-append (IsMappedAt positions line_key) starts (i ∷ []) h
          ((p, k, at ∙ ap some hp, hk), tt)

    runs_loop-mapped :
        (rest : List (Option ℕ)) (i : ℕ) (runs : List (Option Run)) (starts : List ℕ)
        → ((n : ℕ) (pos : Option ℕ)
            → get_elem? rest n ≡ some pos
            → get_elem? positions (i + n) ≡ some pos)
        → All (IsMappedAt positions line_key) starts
        → All (IsMappedAt positions line_key) (runs_loop depths line_key rest i runs starts)
    unfolding runs_loop
    runs_loop-mapped [] i runs starts at h = h
    runs_loop-mapped (pos ∷ rest) i runs starts at h =
        runs_loop-mapped rest (i + 1) _ _
          (λ n q e. subst (λ m. get_elem? positions m ≡ some q) (omega arith) (at (suc n) q e))
          (starts_after-mapped i pos runs starts _
            (subst (λ m. get_elem? positions m ≡ some pos) (omega arith) (at 0 pos refl)) refl h)

-- The run starts are strictly ascending record indices, and each is visible and has a line key.
pub compute_run_starts_sound :
    (positions : List (Option ℕ)) (depths : List ℕ) (line_key : ℕ → Option String)
    → AscendingIn 0 (length positions) (compute_run_starts positions depths line_key)
      × All (IsMappedAt positions line_key) (compute_run_starts positions depths line_key)
unfolding compute_run_starts
compute_run_starts_sound positions depths line_key = (
  runs_loop-AscendingIn depths line_key positions 0 (length positions) [] [] (omega arith)
      (omega arith),
  runs_loop-mapped depths line_key positions positions 0 [] []
      (λ n pos e. subst (λ m. get_elem? positions m ≡ some pos) (omega arith) e) tt,
)
