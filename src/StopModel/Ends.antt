-- ===== src/StopModel/Ends.antt =====
-- The stop points of `buildStopModel` and its first and last stop point.
use stellar_debugger.Prelude.{
  ℕ, suc, ◌-◌, ◌≤◌, ◌<◌, ◌≡◌, refl, Bool, true, false, Option, none, some, List, [], ◌∷◌, length,
  head?, last?, arith,
}
use stellar_debugger.Prelude.Sets.{AscendingIn}
use stellar_debugger.Trace.{TraceRecord}
use stellar_debugger.Frames.{FunctionRange}
use stellar_debugger.Stops.Runs.{compute_run_starts_sound}
use stellar_debugger.Stops.Statements.{statement_stops-AscendingIn, my_code_stops-AscendingIn}
use stellar_debugger.StopModel.{SourceMapper, or_else, source_stops, build_stop_model}
use stellar_debugger.StopModel.Positions.{build_stop_model-indices}
use mathlib.Core.Path.{subst}

source_stops-AscendingIn :
    (normalize : List ℕ → List ℕ) (source : SourceMapper) (mine : Bool) (lo hi : ℕ) (xs : List ℕ)
    → AscendingIn lo hi xs
    → AscendingIn lo hi (source_stops normalize source mine xs)
unfolding source_stops
source_stops-AscendingIn normalize source true lo hi xs h = my_code_stops-AscendingIn xs _ lo hi h
source_stops-AscendingIn normalize source false lo hi xs h = h

-- The two ends of a list of indices, with what stands in for an empty list.
last_bound :
    (lo hi : ℕ) (x : ℕ) (xs : List ℕ) (b : ℕ)
    → AscendingIn lo hi (x ∷ xs)
    → (x ≤ or_else (last? (x ∷ xs)) b) × (or_else (last? (x ∷ xs)) b < hi)
last_bound lo hi x [] b h = omega (arith, h.1)
last_bound lo hi x (y ∷ ys) b h =
    step (last? (y ∷ ys)) (nonempty y ys) (last_bound (suc x) hi y ys b h.1)
  where
    nonempty : (y : ℕ) (ys : List ℕ) → (z : ℕ) × (last? (y ∷ ys) ≡ some z)
    nonempty y [] = (y, refl)
    nonempty y (w ∷ ws) = let (z, e) = nonempty w ws in (z, ground (arith, e))

    step :
        (o : Option ℕ)
        → (z : ℕ) × (o ≡ some z)
        → (y ≤ or_else o b) × (or_else o b < hi)
        → (x ≤ or_else (elim o [ none ↦ some x | some z ↦ some z ]) b)
          × (or_else (elim o [ none ↦ some x | some z ↦ some z ]) b < hi)
    step none (z, e) g = cc
    step (some w) (z, e) g = omega (arith, h.1, g.0, g.1)

ends_within :
    (n : ℕ) (xs : List ℕ) (a b : ℕ)
    → AscendingIn 0 n xs
    → a ≤ b
    → b < n
    → (or_else (head? xs) a ≤ or_else (last? xs) b) × (or_else (last? xs) b < n)
ends_within n [] a b h ab bn = (ab, bn)
ends_within n (x ∷ xs) a b h ab bn = last_bound 0 n x xs b h

pub stops-AscendingIn :
    (normalize : List ℕ → List ℕ) (records : List TraceRecord) (positions : List (Option ℕ))
    (ranges : List FunctionRange) (source : SourceMapper) (mine : Bool)
    → AscendingIn 0
        (length positions)
        (build_stop_model normalize records positions ranges source mine).run_starts
unfolding build_stop_model
stops-AscendingIn normalize records positions ranges source mine =
    source_stops-AscendingIn normalize source mine 0 (length positions) _
      (statement_stops-AscendingIn _ _ _ 0 (length positions)
        (compute_run_starts_sound positions _ source.line_key_for_index).0).0

-- In a trace with a record, and with one position for each record, the source stops are ascending
-- record indices, and the first stop point does not lie after the last, which is a record index.
pub build_stop_model-ends :
    (normalize : List ℕ → List ℕ) (records : List TraceRecord) (positions : List (Option ℕ))
    (ranges : List FunctionRange) (source : SourceMapper) (mine : Bool)
    → length positions ≡ length records
    → 0 < length records
    → AscendingIn 0
        (length records)
        (build_stop_model normalize records positions ranges source mine).run_starts
      × ((build_stop_model normalize records positions ranges source mine).first_stop_point
          ≤ (build_stop_model normalize records positions ranges source mine).last_stop_point)
      × ((build_stop_model normalize records positions ranges source mine).last_stop_point
          < length records)
build_stop_model-ends normalize records positions ranges source mine e pos =
    let m = build_stop_model normalize records positions ranges source mine in
    let stops =
      subst (λ n. AscendingIn 0 n m.run_starts) e
        (stops-AscendingIn normalize records positions ranges source mine) in
    let visible =
      subst (λ n. AscendingIn 0 n m.visible_indices) e
        (build_stop_model-indices normalize records positions ranges source mine).0.0 in
    let inner =
      ends_within (length records) m.visible_indices 0 (length records - 1) visible (omega arith)
        (omega arith) in
    let outer = ends_within (length records) m.run_starts _ _ stops inner.0 inner.1 in
    (stops, unfold build_stop_model in outer.0, unfold build_stop_model in outer.1)
