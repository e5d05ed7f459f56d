-- ===== src/Stops/Iterations.antt =====
-- `computeRunStarts` of stops.ts on loops: coming back to an offset is a new stop, and the first
-- mapped record is a stop.
use stellar_debugger.Prelude.{
  ℕ, zero, suc, ◌+◌, ◌≤◌, ◌<◌, ◌≡◌, sym, ap, ◌∙◌, inl, inr, String, Bool, true, false, not, Option,
  none, some, List, [], ◌∷◌, ◌++◌, get_elem?, arith, Bool-cases, if◌then◌else◌,
}
use stellar_debugger.Prelude.Sets.{has, has-snoc, has-snoc_self}
use stellar_debugger.Stops.{
  Run, run_at, depth_at, after_key, start_key, runs_after, is_start, runs_loop, compute_run_starts,
}
use stellar_debugger.Stops.Covers.{
  Covers, Covers-extends, next_run-Covers, run_at-mapped_self, starts_run-eq, mapped_runs-Covers,
}
use stellar_debugger.Stops.Runs.{IsMappedAt}
use mathlib.Core.Path.{subst}

after_key-Covers :
    (key : Option String) (e q : ℕ) (runs : List (Option Run)) (d pos : ℕ)
    → start_key key e q runs ≡ false
    → Covers (run_at runs d) pos
    → Covers (run_at (after_key key e q runs) d) pos
unfolding after_key start_key
after_key-Covers none e q runs d pos h c = c
after_key-Covers (some k) e q runs d pos h c = mapped_runs-Covers runs e k q d pos h c

after_key-Covers_self :
    (key : Option String) (k : String) (e pos : ℕ) (runs : List (Option Run))
    → key ≡ some k
    → Covers (run_at (after_key key e pos runs) e) pos
unfolding after_key
after_key-Covers_self none k e pos runs h = cc
after_key-Covers_self (some key) k e pos runs h =
    rw (run_at-mapped_self runs e key pos) (next_run-Covers (run_at runs e) key pos)

start_key-Covers :
    (key : Option String) (k : String) (e pos : ℕ) (runs : List (Option Run))
    → key ≡ some k
    → Covers (run_at runs e) pos
    → start_key key e pos runs ≡ true
unfolding start_key
start_key-Covers none k e pos runs h c = cc
start_key-Covers (some key) k e pos runs h c =
    starts_run-eq runs e key pos ∙ ap not (Covers-extends (run_at runs e) key pos c)

-- A stop from record `i` on, up to and with record `j`.
abbrev pub StopWithin : List ℕ → ℕ → ℕ → Type 0
StopWithin starts i j = (k : ℕ) × (i ≤ k) × (k ≤ j) × (has starts k ≡ true)

StopWithin-earlier :
    (starts : List ℕ) (i i' j : ℕ) → i' ≤ i → StopWithin starts i j → StopWithin starts i' j
StopWithin-earlier starts i i' j le (k, lo, hi, m) = (k, omega arith, hi, m)

module _ (depths : List ℕ) (line_key : ℕ → Option String) where
  runs_after-Covers :
      (i : ℕ) (o : Option ℕ) (runs : List (Option Run)) (d pos : ℕ)
      → is_start depths line_key i o runs ≡ false
      → Covers (run_at runs d) pos
      → Covers (run_at (runs_after depths line_key i o runs) d) pos
  unfolding is_start runs_after
  runs_after-Covers i none runs d pos h c = c
  runs_after-Covers i (some q) runs d pos h c =
      after_key-Covers (line_key i) (depth_at depths i) q runs d pos h c

  runs_loop-has :
      (rest : List (Option ℕ)) (i : ℕ) (runs : List (Option Run)) (starts : List ℕ) (k : ℕ)
      → has starts k ≡ true
      → has (runs_loop depths line_key rest i runs starts) k ≡ true
  unfolding runs_loop
  runs_loop-has [] i runs starts k h = h
  runs_loop-has (o ∷ rest) i runs starts k h =
      runs_loop-has rest (i + 1) _ _ k (kept (is_start depths line_key i o runs))
    where
      kept : (b : Bool) → has (if b then starts ++ i ∷ [] else starts) k ≡ true
      kept true = has-snoc starts k i h
      kept false = h

  runs_loop-has_start :
      (o : Option ℕ) (rest : List (Option ℕ)) (i : ℕ) (runs : List (Option Run)) (starts : List ℕ)
      → is_start depths line_key i o runs ≡ true
      → has (runs_loop depths line_key (o ∷ rest) i runs starts) i ≡ true
  unfolding runs_loop
  runs_loop-has_start o rest i runs starts h =
      runs_loop-has rest (i + 1) _ _ i (pushed (is_start depths line_key i o runs) h)
    where
      pushed : (b : Bool) → b ≡ true → has (if b then starts ++ i ∷ [] else starts) i ≡ true
      pushed true p = has-snoc_self starts i
      pushed false p = cc

  visit_again :
      (o : Option ℕ) (rest : List (Option ℕ)) (i pos : ℕ) (key : String) (runs : List (Option Run))
      (starts : List ℕ)
      → o ≡ some pos
      → line_key i ≡ some key
      → Covers (run_at runs (depth_at depths i)) pos
      → has (runs_loop depths line_key (o ∷ rest) i runs starts) i ≡ true
  unfolding is_start
  visit_again o rest i pos key runs starts e hk c = runs_loop-has_start o rest i runs starts (
      subst (λ x. is_start depths line_key i x runs ≡ true) (sym e)
        (start_key-Covers (line_key i) key (depth_at depths i) pos runs hk c))

  from_covered :
      (rest : List (Option ℕ)) (i n j pos : ℕ) (key : String) (runs : List (Option Run))
      (starts : List ℕ)
      → i + n ≡ j
      → get_elem? rest n ≡ some (some pos)
      → line_key j ≡ some key
      → Covers (run_at runs (depth_at depths j)) pos
      → StopWithin (runs_loop depths line_key rest i runs starts) i j
  unfolding runs_loop
  from_covered [] i n j pos key runs starts e at hk c = cc
  from_covered (o ∷ rest) i zero j pos key runs starts e at hk c =
      let same : j ≡ i = omega arith in
      (
        i,
        omega arith,
        omega arith,
        visit_again o rest i pos key runs starts (cc) (ap line_key (sym same) ∙ hk)
            (subst (λ k. Covers (run_at runs (depth_at depths k)) pos) same c),
      )
  from_covered (o ∷ rest) i (suc n) j pos key runs starts e at hk c =
      elim (Bool-cases (is_start depths line_key i o runs)) [
        | inl t ↦ (i, omega arith, omega arith, runs_loop-has_start o rest i runs starts t)
        | inr t ↦ StopWithin-earlier _ (i + 1) i j (omega arith) (
            from_covered rest (i + 1) n j pos key _ _ (omega arith) at hk
              (runs_after-Covers i o runs (depth_at depths j) pos t c))
      ]

  here-Covers :
      (o : Option ℕ) (i pos : ℕ) (key : String) (runs : List (Option Run))
      → o ≡ some pos
      → line_key i ≡ some key
      → Covers (run_at (runs_after depths line_key i o runs) (depth_at depths i)) pos
  unfolding runs_after
  here-Covers o i pos key runs e hk =
      subst (λ x. Covers (run_at (runs_after depths line_key i x runs) (depth_at depths i)) pos)
        (sym e) (after_key-Covers_self (line_key i) key (depth_at depths i) pos runs hk)

  from_first :
      (rest : List (Option ℕ)) (base m n i j pos : ℕ) (a b : String) (runs : List (Option Run))
      (starts : List ℕ)
      → base + m ≡ i
      → base + n ≡ j
      → m < n
      → get_elem? rest m ≡ some (some pos)
      → get_elem? rest n ≡ some (some pos)
      → line_key i ≡ some a
      → line_key j ≡ some b
      → depth_at depths i ≡ depth_at depths j
      → StopWithin (runs_loop depths line_key rest base runs starts) (suc i) j
  unfolding runs_loop
  from_first [] base m n i j pos a b runs starts ei ej lt hm hn ha hb hd = cc
  from_first (o ∷ rest) base m zero i j pos a b runs starts ei ej lt hm hn ha hb hd =
      absurd (omega arith)
  from_first (o ∷ rest) base zero (suc n) i j pos a b runs starts ei ej lt hm hn ha hb hd =
      let same : i ≡ base = omega arith in
      StopWithin-earlier _ (base + 1) (suc i) j (omega arith) (
        from_covered rest (base + 1) n j pos b _ _ (omega arith) hn hb (
          subst (λ d. Covers (run_at (runs_after depths line_key base o runs) d) pos) hd
            (subst
              (λ k.
                Covers (run_at (runs_after depths line_key base o runs) (depth_at depths k)) pos)
              (sym same) (here-Covers o base pos a runs (cc) (ap line_key (sym same) ∙ ha)))))
  from_first (o ∷ rest) base (suc m) (suc n) i j pos a b runs starts ei ej lt hm hn ha hb hd =
      from_first rest (base + 1) m n i j pos a b _ _ (omega arith) (omega arith) (omega arith) hm hn
        ha hb hd

  none_from :
      (rest : List (Option ℕ)) (base n i pos : ℕ) (a : String) (starts : List ℕ)
      → base + n ≡ i
      → get_elem? rest n ≡ some (some pos)
      → line_key i ≡ some a
      → StopWithin (runs_loop depths line_key rest base [] starts) base i
  none_from rest base n i pos a starts e h ha =
      from_covered rest base n i pos a [] starts e h ha (unfold run_at in tt)

-- A loop cannot be stepped over: between two visits to one code offset at one depth, both on mapped
-- records, there is a stop after the first and not after the second.
pub compute_run_starts-revisit :
    (positions : List (Option ℕ)) (depths : List ℕ) (line_key : ℕ → Option String) (i j pos : ℕ)
    (a b : String)
    → i < j
    → get_elem? positions i ≡ some (some pos)
    → get_elem? positions j ≡ some (some pos)
    → line_key i ≡ some a
    → line_key j ≡ some b
    → depth_at depths i ≡ depth_at depths j
    → StopWithin (compute_run_starts positions depths line_key) (suc i) j
unfolding compute_run_starts
compute_run_starts-revisit positions depths line_key i j pos a b lt hi hj ha hb hd =
    from_first depths line_key positions 0 i j i j pos a b [] [] (omega arith) (omega arith) lt hi
      hj ha hb hd

-- A mapped record has a stop at or before it, so a trace with a mapped record has a stop.
pub compute_run_starts-covers :
    (positions : List (Option ℕ)) (depths : List ℕ) (line_key : ℕ → Option String) (i : ℕ)
    → IsMappedAt positions line_key i
    → StopWithin (compute_run_starts positions depths line_key) 0 i
unfolding compute_run_starts
compute_run_starts-covers positions depths line_key i (p, k, hp, hk) =
    none_from depths line_key positions 0 i i p k [] (omega arith) hp hk
