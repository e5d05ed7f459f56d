-- ===== src/Replay/Breakpoints.antt =====
-- Running to breakpoints (TraceModel.ts, replayCursor.ts) and resolving them.
use stellar_debugger.Prelude.{
  ℕ, ◌+◌, ◌-◌, ◌<◌, ◌≡◌, refl, ap, ◌∙◌, true, false, Option, none, some, List, inl, inr, ltb, arith,
  tests, Bool-cases,
}
use stellar_debugger.Prelude.Sets.{has}
use stellar_debugger.StopModel.{StopModel}
use stellar_debugger.Replay.{
  TraceModel, seek, next_index_in_set, prev_index_in_set, breakpoint, clamped, run_to, run_forward,
  run_backward,
}
use stellar_debugger.Replay.Scans.{IsNextIn, IsPrevIn, scan_up-IsNextIn, scan_down-IsPrevIn}
use stellar_debugger.Replay.Steps.{seek-in_range}

module _ (set : List ℕ) (m : TraceModel) where
  next-IsNextIn : m.cursor < m.size → IsNextIn set (m.cursor + 1) m.size (next_index_in_set set m)
  unfolding next_index_in_set
  next-IsNextIn h =
      scan_up-IsNextIn set (m.cursor + 1) (m.size - (m.cursor + 1)) m.size (omega arith)

  prev-IsPrevIn : IsPrevIn set m.cursor (prev_index_in_set set m)
  unfolding prev_index_in_set
  prev-IsPrevIn = scan_down-IsPrevIn set m.cursor

-- The least member after the cursor is what the scan finds.
next_index-eq :
    (set : List ℕ) (m : TraceModel) (b : ℕ)
    → m.cursor < b
    → b < m.size
    → has set b ≡ true
    → ((j : ℕ) → m.cursor < j → j < b → has set j ≡ false)
    → next_index_in_set set m ≡ some b
next_index-eq set m b lo hi at gap =
    pick (next_index_in_set set m) (next-IsNextIn set m (omega arith))
  where
    pick : (r : Option ℕ) → IsNextIn set (m.cursor + 1) m.size r → r ≡ some b
    pick none h = cc (h b (omega arith) hi, at)
    pick (some i) (l, u, mi, all) = elim (Bool-cases (ltb i b)) [
      | inl t ↦ cc (gap i (omega arith) (omega (tests, t)), mi)
      | inr t ↦ elim (Bool-cases (ltb b i)) [
        | inl u' ↦ cc (all b (omega arith) (omega (tests, u')), at)
        | inr u' ↦ ap some (omega (tests, t, u'))
      ]
    ]

prev_index-eq :
    (set : List ℕ) (m : TraceModel) (b : ℕ)
    → b < m.cursor
    → has set b ≡ true
    → ((j : ℕ) → b < j → j < m.cursor → has set j ≡ false)
    → prev_index_in_set set m ≡ some b
prev_index-eq set m b lo at gap = pick (prev_index_in_set set m) (prev-IsPrevIn set m)
  where
    pick : (r : Option ℕ) → IsPrevIn set m.cursor r → r ≡ some b
    pick none h = cc (h b lo, at)
    pick (some i) (u, mi, all) = elim (Bool-cases (ltb i b)) [
      | inl t ↦ cc (all b (omega (tests, t)) lo, at)
      | inr t ↦ elim (Bool-cases (ltb b i)) [
        | inl u' ↦ cc (gap i (omega (tests, u')) u, mi)
        | inr u' ↦ ap some (omega (tests, t, u'))
      ]
    ]

run_forward_to :
    (stops : StopModel) (set : List ℕ) (m : TraceModel) (b : ℕ)
    → b < m.size
    → next_index_in_set set m ≡ some b
    → run_forward stops set m ≡ (breakpoint, record m { cursor = b })
unfolding run_forward run_to
run_forward_to stops set m b h e =
    ap (λ r. run_to r stops.last_stop_point m) e ∙ ap (λ x. (breakpoint, x)) (seek-in_range b m h)

run_backward_to :
    (stops : StopModel) (set : List ℕ) (m : TraceModel) (b : ℕ)
    → b < m.size
    → prev_index_in_set set m ≡ some b
    → run_backward stops set m ≡ (breakpoint, record m { cursor = b })
unfolding run_backward run_to
run_backward_to stops set m b h e =
    ap (λ r. run_to r stops.first_stop_point m) e ∙ ap (λ x. (breakpoint, x)) (seek-in_range b m h)

-- Two breakpoints on the trace with none between them: continuing forward from the first stops at
-- the second, and continuing in reverse from there stops at the first again.
pub run_backward-run_forward :
    (stops : StopModel) (set : List ℕ) (m : TraceModel) (b : ℕ)
    → m.cursor < b
    → b < m.size
    → has set m.cursor ≡ true
    → has set b ≡ true
    → ((j : ℕ) → m.cursor < j → j < b → has set j ≡ false)
    → (run_forward stops set m ≡ (breakpoint, record m { cursor = b }))
      × (run_backward stops set (run_forward stops set m).1 ≡ (breakpoint, m))
run_backward-run_forward stops set m b lo hi here at gap =
    let there = run_forward_to stops set m b hi (next_index-eq set m b lo hi at gap) in
    (
      there,
      ap (λ r. run_backward stops set r.1) there
          ∙ run_backward_to stops set (record m { cursor = b }) m.cursor (omega arith)
              (prev_index-eq set (record m { cursor = b }) m.cursor lo here gap),
    )

-- On the trace, with no breakpoint after the cursor a forward run settles on the last stop point,
-- and with none before it a reverse run settles on the first.
pub run_clamps :
    (stops : StopModel) (set : List ℕ) (m : TraceModel)
    → m.cursor < m.size
    → (((j : ℕ) → m.cursor < j → j < m.size → has set j ≡ false)
        → run_forward stops set m ≡ (clamped, seek stops.last_stop_point m))
      × (((j : ℕ) → j < m.cursor → has set j ≡ false)
          → run_backward stops set m ≡ (clamped, seek stops.first_stop_point m))
unfolding run_forward run_backward run_to
run_clamps stops set m h = (forward, backward)
  where
    none_next :
        (r : Option ℕ)
        → IsNextIn set (m.cursor + 1) m.size r
        → ((j : ℕ) → m.cursor < j → j < m.size → has set j ≡ false)
        → r ≡ none
    none_next none g miss = refl
    none_next (some i) (l, u, mi, all) miss = cc (miss i (omega arith) u, mi)

    none_prev :
        (r : Option ℕ)
        → IsPrevIn set m.cursor r
        → ((j : ℕ) → j < m.cursor → has set j ≡ false)
        → r ≡ none
    none_prev none g miss = refl
    none_prev (some i) (u, mi, all) miss = cc (miss i u, mi)

    forward :
        ((j : ℕ) → m.cursor < j → j < m.size → has set j ≡ false)
        → run_forward stops set m ≡ (clamped, seek stops.last_stop_point m)
    forward miss =
        ap (λ r. run_to r stops.last_stop_point m) (none_next _ (next-IsNextIn set m h) miss)

    backward :
        ((j : ℕ) → j < m.cursor → has set j ≡ false)
        → run_backward stops set m ≡ (clamped, seek stops.first_stop_point m)
    backward miss =
        ap (λ r. run_to r stops.first_stop_point m) (none_prev _ (prev-IsPrevIn set m) miss)
