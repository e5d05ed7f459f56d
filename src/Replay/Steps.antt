-- ===== src/Replay/Steps.antt =====
-- Forward and backward steps of replayCursor.ts over a well-formed stop model.
use stellar_debugger.Prelude.{
  ℕ, ◌≤◌, ◌<◌, ◌≡◌, refl, ap, ◌∙◌, ◌⊎◌, Bool, true, false, Option, none, some, inl, inr, length,
  get_elem?, get_elem?-total, head?, last?, ltb, arith, tests, Bool-cases, if◌then◌else◌,
}
use stellar_debugger.Prelude.Sets.{has, AscendingIn, AscendingIn-has}
use stellar_debugger.StopModel.{StopModel}
use stellar_debugger.Replay.{
  TraceModel, clamp, seek, Granularity, StepOutcome, stopped, terminated, DepthLimit, unlimited,
  within, has_statement_stops, stop_points, last_behind, no_step, rest_behind, step_forward,
  step_backward,
}
use stellar_debugger.Replay.Scans.{
  IsAhead, IsBehind, IsNearestAhead, IsNearestBehind, first_ahead-IsNearestAhead,
  last_behind-IsNearestBehind,
}

-- What the moves rely on: both kinds of stop points are ascending record indices, and every record
-- has a depth.
pub record IsWellFormed (stops : StopModel) (size : ℕ) : Type 0 where
  pub runs : AscendingIn 0 size stops.run_starts
  pub visible : AscendingIn 0 size stops.visible_indices
  pub depths : length stops.depths ≡ size

pub stop_points-AscendingIn :
    (stops : StopModel) (g : Granularity) (size : ℕ)
    → IsWellFormed stops size
    → AscendingIn 0 size (stop_points stops g)
unfolding stop_points
stop_points-AscendingIn stops g size w = pick (has_statement_stops stops g)
  where
    pick : (b : Bool) → AscendingIn 0 size (if b then stops.run_starts else stops.visible_indices)
    pick true = w.runs
    pick false = w.visible

pub seek-in_range : (i : ℕ) (m : TraceModel) → i < m.size → seek i m ≡ record m { cursor = i }
unfolding seek clamp
seek-in_range i m h = ap (λ c. record m { cursor = c }) (omega arith)

module _ (stops : StopModel) (g : Granularity) (limit : DepthLimit) (m : TraceModel) where
  -- Where a step with nothing ahead goes: it ends the session where there are statement stops, and
  -- clamps to the last stop point where there are none.
  abbrev pub RanOut : StepOutcome × TraceModel → Type 0
  RanOut result =
      ((has_statement_stops stops g ≡ true) × (result ≡ (terminated, m)))
      ⊎ ((has_statement_stops stops g ≡ false)
          × (result.0 ≡ stopped)
          × (result.1 ≡ elim (last? (stop_points stops g)) [ none ↦ m | some i ↦ seek i m ]))

  -- A step rests on the nearest stop point ahead that is not too deep, or runs out.
  abbrev pub IsStep : StepOutcome × TraceModel → Type 0
  IsStep result =
      ((i : ℕ) × (has (stop_points stops g) i ≡ true)
        × IsAhead stops.depths limit m.cursor i
        × ((j : ℕ)
            → has (stop_points stops g) j ≡ true
            → IsAhead stops.depths limit m.cursor j
            → i ≤ j)
        × (result ≡ (stopped, record m { cursor = i })))
      ⊎ (((j : ℕ) → has (stop_points stops g) j ≡ true → ¬ (IsAhead stops.depths limit m.cursor j))
          × RanOut result)

  no_step-RanOut :
      (b : Bool) → has_statement_stops stops g ≡ b → RanOut (no_step b (stop_points stops g) m)
  unfolding no_step
  no_step-RanOut true e = inl (e, refl)
  no_step-RanOut false e = inr (e, refl, refl)

  IsStep-cases :
      (r : Option ℕ)
      → IsWellFormed stops m.size
      → IsNearestAhead stops.depths limit m.cursor (stop_points stops g) r
      → IsStep (elim r [
        | some i ↦ (stopped, seek i m)
        | none ↦ no_step (has_statement_stops stops g) (stop_points stops g) m
      ])
  IsStep-cases none w h = inr (h, no_step-RanOut (has_statement_stops stops g) refl)
  IsStep-cases (some i) w (at, ahead, least) = inl (
    i,
    at,
    ahead,
    least,
    ap (λ x. (stopped, x))
        (seek-in_range i m
          (AscendingIn-has 0 m.size i _ (stop_points-AscendingIn stops g m.size w) at).1),
  )

-- In a well-formed stop model a forward step moves to the nearest stop point ahead whose depth is
-- within the limit. With none ahead a statement step ends the session and leaves the cursor where
-- it is, and a step over a model with no statement stops, or by instructions, clamps to the last
-- stop point.
pub step_forward-IsStep :
    (stops : StopModel) (g : Granularity) (limit : DepthLimit) (m : TraceModel)
    → IsWellFormed stops m.size
    → IsStep stops g limit m (step_forward stops g limit m)
unfolding step_forward
step_forward-IsStep stops g limit m w = IsStep-cases stops g limit m _ w (
    first_ahead-IsNearestAhead stops.depths limit m.cursor 0 m.size (stop_points stops g)
      (stop_points-AscendingIn stops g m.size w))

module _ (stops : StopModel) (g : Granularity) (limit : DepthLimit) (m : TraceModel) where
  -- A backward step rests on the nearest stop point behind that is not too deep, or clamps to the
  -- first stop point.
  abbrev pub IsStepBack : TraceModel → Type 0
  IsStepBack result =
      ((i : ℕ) × (has (stop_points stops g) i ≡ true)
        × IsBehind stops.depths limit m.cursor i
        × ((j : ℕ)
            → has (stop_points stops g) j ≡ true
            → IsBehind stops.depths limit m.cursor j
            → j ≤ i)
        × (result ≡ record m { cursor = i }))
      ⊎ (((j : ℕ) → has (stop_points stops g) j ≡ true → ¬ (IsBehind stops.depths limit m.cursor j))
          × (result ≡ elim (head? (stop_points stops g)) [ none ↦ m | some i ↦ seek i m ]))

  IsStepBack-cases :
      (r : Option ℕ)
      → IsWellFormed stops m.size
      → IsNearestBehind stops.depths limit m.cursor (stop_points stops g) r
      → IsStepBack (rest_behind r (stop_points stops g) m)
  unfolding rest_behind
  IsStepBack-cases none w h = inr (h, refl)
  IsStepBack-cases (some i) w (at, behind, most) = inl (
    i,
    at,
    behind,
    most,
    seek-in_range i m
        (AscendingIn-has 0 m.size i _ (stop_points-AscendingIn stops g m.size w) at).1,
  )

-- In a well-formed stop model a backward step never ends the session: it moves to the nearest stop
-- point behind whose depth is within the limit, or, with none behind, to the first stop point.
pub step_backward-IsStepBack :
    (stops : StopModel) (g : Granularity) (limit : DepthLimit) (m : TraceModel)
    → IsWellFormed stops m.size
    → IsStepBack stops g limit m (step_backward stops g limit m)
unfolding step_backward
step_backward-IsStepBack stops g limit m w = IsStepBack-cases stops g limit m _ w (
    last_behind-IsNearestBehind stops.depths limit m.cursor 0 m.size (stop_points stops g)
      (stop_points-AscendingIn stops g m.size w))

module _ (stops : StopModel) (g : Granularity) (m : TraceModel)
    (w : IsWellFormed stops m.size) where
  -- With no limit every stop point is shallow enough.
  any_depth :
      (j : ℕ)
      → has (stop_points stops g) j ≡ true
      → within (get_elem? stops.depths j) unlimited ≡ true
  any_depth j h =
      let lt = (AscendingIn-has 0 m.size j _ (stop_points-AscendingIn stops g m.size w) h).1 in
      let (d, e) = get_elem?-total stops.depths j (omega (arith, w.depths)) in rw e refl

  -- Between a stop point and the next one there is nothing to step back to.
  back_to :
      (i : ℕ) (r : Option ℕ)
      → has (stop_points stops g) m.cursor ≡ true
      → m.cursor < i
      → ((j : ℕ)
          → has (stop_points stops g) j ≡ true
          → IsAhead stops.depths unlimited m.cursor j
          → i ≤ j)
      → IsNearestBehind stops.depths unlimited i (stop_points stops g) r
      → r ≡ some m.cursor
  back_to i none at lt least h = absurd (h m.cursor at (lt, any_depth m.cursor at))
  back_to i (some k) at lt least (mk, (ki, _), most) = elim (Bool-cases (ltb m.cursor k)) [
    | inl t ↦ absurd (omega (arith, least k mk (omega (tests, t), any_depth k mk)))
    | inr t ↦ ap some (omega (tests, t, most m.cursor at (lt, any_depth m.cursor at)))
  ]

step_backward-some :
    (stops : StopModel) (g : Granularity) (m : TraceModel) (c : ℕ)
    → last_behind stops.depths unlimited m.cursor (stop_points stops g) ≡ some c
    → step_backward stops g unlimited m ≡ seek c m
unfolding step_backward rest_behind
step_backward-some stops g m c e = ap (λ r. rest_behind r (stop_points stops g) m) e

-- In a well-formed stop model, from a stop point with another one ahead, a step in followed by a
-- step back returns to it.
pub step_backward-step_forward :
    (stops : StopModel) (g : Granularity) (m : TraceModel) (j : ℕ)
    → IsWellFormed stops m.size
    → has (stop_points stops g) m.cursor ≡ true
    → has (stop_points stops g) j ≡ true
    → m.cursor < j
    → step_backward stops g unlimited (step_forward stops g unlimited m).1 ≡ m
step_backward-step_forward stops g m j w here ahead lt =
    elim (step_forward-IsStep stops g unlimited m w) [
      | inl (i, at, (ci, _), least, e) ↦
          ap (λ r. step_backward stops g unlimited r.1) e
          ∙ step_backward-some stops g (record m { cursor = i }) m.cursor
              (back_to stops g m w i _ here ci least (
                last_behind-IsNearestBehind stops.depths unlimited i 0 m.size (stop_points stops g)
                  (stop_points-AscendingIn stops g m.size w)))
          ∙ seek-in_range m.cursor (record m { cursor = i })
              (AscendingIn-has 0 m.size m.cursor _ (stop_points-AscendingIn stops g m.size w)
                here).1
      | inr (nothing, _) ↦ absurd (nothing j ahead (lt, any_depth stops g m w j ahead))
    ]
