-- ===== src/Stops/Covers.antt =====
-- The open runs of `computeRunStarts`: which offsets they have covered, and when they die.
use stellar_debugger.Prelude.{
  ℕ, zero, suc, ◌+◌, ◌≤◌, ◌<◌, ◌≡◌, refl, sym, ap, ◌∙◌, ◌≢◌, inl, inr, String, Bool, true, false,
  not, Option, none, some, List, [], ◌∷◌, arith, tests, ltb, Bool-cases,
}
use stellar_debugger.Prelude.Sets.{has}
use stellar_debugger.Stops.{
  Run, resize, run_at, set_run, extends, next_run, mapped_runs, starts_run,
}
use mathlib.Core.Path.{subst}

-- The run at depth `d` is gone or has covered `pos`: a visit to `pos` at that depth starts a run.
abbrev pub Covers : Option Run → ℕ → Type 0
Covers none pos = Unit
Covers (some run) pos = has run.offsets pos ≡ true

pub Covers-extends :
    (o : Option Run) (key : String) (pos : ℕ) → Covers o pos → extends o key pos ≡ false
unfolding extends
Covers-extends none key pos h = refl
Covers-extends (some run) key pos h = ground (arith, h)

pub next_run-Covers :
    (o : Option Run) (key : String) (pos : ℕ) → Covers (some (next_run o key pos)) pos
unfolding next_run
next_run-Covers none key pos = ground arith
next_run-Covers (some run) key pos = ground arith

-- A run that goes on forgets no offset.
next_run-keeps :
    (o : Option Run) (key : String) (pos q : ℕ)
    → extends o key q ≡ true
    → Covers o pos
    → Covers (some (next_run o key q)) pos
unfolding next_run extends
next_run-keeps none key pos q h c = cc
next_run-keeps (some run) key pos q h c = ground (arith, h, c)

run_at-resize :
    (n d : ℕ) (runs : List (Option Run)) → d < n → run_at (resize n runs) d ≡ run_at runs d
unfolding resize run_at
run_at-resize zero d runs h = absurd (omega arith)
run_at-resize (suc n) zero [] h = refl
run_at-resize (suc n) (suc d) [] h = run_at-resize n d [] (omega arith)
run_at-resize (suc n) zero (r ∷ runs) h = refl
run_at-resize (suc n) (suc d) (r ∷ runs) h = run_at-resize n d runs (omega arith)

run_at-resize_past : (n d : ℕ) (runs : List (Option Run)) → n ≤ d → run_at (resize n runs) d ≡ none
unfolding resize run_at
run_at-resize_past zero d runs h = refl
run_at-resize_past (suc n) zero runs h = absurd (omega arith)
run_at-resize_past (suc n) (suc d) [] h = run_at-resize_past n d [] (omega arith)
run_at-resize_past (suc n) (suc d) (r ∷ runs) h = run_at-resize_past n d runs (omega arith)

run_at-set_ne :
    (runs : List (Option Run)) (i j : ℕ) (run : Run)
    → i ≢ j
    → run_at (set_run runs i run) j ≡ run_at runs j
unfolding set_run run_at
run_at-set_ne [] i j run h = refl
run_at-set_ne (r ∷ runs) zero zero run h = absurd (h refl)
run_at-set_ne (r ∷ runs) zero (suc j) run h = refl
run_at-set_ne (r ∷ runs) (suc i) zero run h = refl
run_at-set_ne (r ∷ runs) (suc i) (suc j) run h = run_at-set_ne runs i j run (omega arith)

run_at-set_resize :
    (n d : ℕ) (runs : List (Option Run)) (run : Run)
    → d < n
    → run_at (set_run (resize n runs) d run) d ≡ some run
unfolding set_run run_at resize
run_at-set_resize zero d runs run h = absurd (omega arith)
run_at-set_resize (suc n) zero [] run h = refl
run_at-set_resize (suc n) (suc d) [] run h = run_at-set_resize n d [] run (omega arith)
run_at-set_resize (suc n) zero (r ∷ runs) run h = refl
run_at-set_resize (suc n) (suc d) (r ∷ runs) run h = run_at-set_resize n d runs run (omega arith)

module _ (runs : List (Option Run)) (e : ℕ) (key : String) (q : ℕ) where
  -- The visited depth itself.
  pub run_at-mapped_self :
      run_at (mapped_runs runs e key q) e ≡ some (next_run (run_at runs e) key q)
  unfolding mapped_runs
  run_at-mapped_self =
      run_at-set_resize (e + 1) e runs _ (omega arith)
      ∙ ap (λ o. some (next_run o key q)) (run_at-resize (e + 1) e runs (omega arith))

  run_at-mapped_below : (d : ℕ) → d < e → run_at (mapped_runs runs e key q) d ≡ run_at runs d
  unfolding mapped_runs
  run_at-mapped_below d h =
      run_at-set_ne (resize (e + 1) runs) e d _ (omega arith)
      ∙ run_at-resize (e + 1) d runs (omega arith)

  run_at-mapped_above : (d : ℕ) → e < d → run_at (mapped_runs runs e key q) d ≡ none
  unfolding mapped_runs
  run_at-mapped_above d h =
      run_at-set_ne (resize (e + 1) runs) e d _ (omega arith)
      ∙ run_at-resize_past (e + 1) d runs (omega arith)

  pub starts_run-eq : starts_run runs e key q ≡ not (extends (run_at runs e) key q)
  unfolding starts_run
  starts_run-eq = ap (λ o. not (extends o key q)) (run_at-resize (e + 1) e runs (omega arith))

  -- A record that starts no run leaves a covered offset covered.
  pub mapped_runs-Covers :
      (d pos : ℕ)
      → starts_run runs e key q ≡ false
      → Covers (run_at runs d) pos
      → Covers (run_at (mapped_runs runs e key q) d) pos
  mapped_runs-Covers d pos h c = elim (Bool-cases (ltb d e)) [
    | inl t ↦ rw (run_at-mapped_below d (omega (tests, t))) c
    | inr t ↦ elim (Bool-cases (ltb e d)) [
      | inl u ↦ rw (run_at-mapped_above d (omega (tests, u))) tt
      | inr u ↦
          let same : e ≡ d = omega (tests, t, u) in
          subst (λ k. Covers (run_at (mapped_runs runs e key q) k) pos) same
            (rw run_at-mapped_self (
              next_run-keeps (run_at runs e) key pos q
                (not-false (extends (run_at runs e) key q) (sym starts_run-eq ∙ h))
                (subst (λ k. Covers (run_at runs k) pos) (sym same) c)))
    ]
  ]
    where
      not-false : (b : Bool) → not b ≡ false → b ≡ true
      not-false true p = refl
      not-false false p = cc
