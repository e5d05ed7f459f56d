-- ===== src/Stops/Roles.antt =====
-- `statementStops` of src/debugAdapter/stops.ts against a filter that is stated by the line roles.
use stellar_debugger.Prelude.{
  ℕ, ◌+◌, ◌<◌, ◌≡◌, refl, ◌↔◌, ◌⊎◌, inl, inr, Bool, true, false, not, ◌||◌, some, List, length,
  get_elem?, arith, ◌==◌, ==→eq, ltb, ltb→lt, Bool-cases,
}
use stellar_debugger.Prelude.Sets.{has}
use stellar_debugger.Stops.{
  LineRole, attribute, signature, brace, statement, stop_depth, stop_role, keep_brace,
  other_same_depth_stop, keeps, statement_stops,
}
use stellar_debugger.Stops.SameFrame.{SameFrameStop, other_same_depth_stop_iff}
use stellar_debugger.Stops.Statements.{PassesFilter, has-statement_stops_iff}

module _ (run_starts depths : List ℕ) (role_at : ℕ → LineRole) where
  -- What a run start of this role needs to stay: an attribute never does, a statement always, a
  -- brace where it is the last run start or the next one is shallower, and a signature where its
  -- frame has no other kept stop.
  abbrev pub StaysAs : LineRole → ℕ → Type 0
  StaysAs attribute p = ⊥
  StaysAs statement p = Unit {0}
  StaysAs brace p =
      (p + 1 ≡ length run_starts)
      ⊎ (stop_depth run_starts depths role_at (p + 1) < stop_depth run_starts depths role_at p)
  StaysAs signature p = ¬ (SameFrameStop run_starts depths role_at p)

  abbrev pub Stays : ℕ → Type 0
  Stays p = StaysAs (stop_role run_starts depths role_at p) p

  keep_brace_iff : (p : ℕ) → (keep_brace run_starts depths role_at p ≡ true) ↔ StaysAs brace p
  unfolding keep_brace
  keep_brace_iff p = (to, from)
    where
      d : ℕ → ℕ
      d = stop_depth run_starts depths role_at

      to : ((p + 1) == length run_starts || ltb (d (p + 1)) (d p)) ≡ true → StaysAs brace p
      to h = elim (Bool-cases ((p + 1) == length run_starts)) [
        | inl t ↦ inl (==→eq _ _ t)
        | inr t ↦ inr (ltb→lt _ _ (ground (arith, t, h)))
      ]

      from : StaysAs brace p → ((p + 1) == length run_starts || ltb (d (p + 1)) (d p)) ≡ true
      from (inl e) = ground (arith, e)
      from (inr lt) = ground (arith, lt)

  not_iff : (b : Bool) (P : Type 0) → (b ≡ true) ↔ P → (not b ≡ true) ↔ (¬ P)
  not_iff true P f = ((λ h. cc), λ n. absurd (n (f.0 refl)))
  not_iff false P f = ((λ h p. cc (f.1 p)), λ n. refl)

  keeps_iff : (p : ℕ) → (keeps run_starts depths role_at p ≡ true) ↔ Stays p
  unfolding keeps
  keeps_iff p = go (stop_role run_starts depths role_at p)
    where
      go :
          (r : LineRole)
          → (elim r [
            | attribute ↦ false
            | statement ↦ true
            | brace ↦ keep_brace run_starts depths role_at p
            | signature ↦ not (other_same_depth_stop run_starts depths role_at p)
          ]
              ≡ true)
            ↔ StaysAs r p
      go attribute = ((λ h. cc), λ h. absurd h)
      go statement = ((λ h. tt), λ h. refl)
      go brace = keep_brace_iff p
      go signature =
          not_iff (other_same_depth_stop run_starts depths role_at p)
            (SameFrameStop run_starts depths role_at p)
            (other_same_depth_stop_iff run_starts depths role_at p)

  -- It stays, or none does.
  abbrev pub IsChosen : ℕ → Type 0
  IsChosen p = Stays p ⊎ ((q : ℕ) → q < length run_starts → ¬ (Stays q))

  PassesFilter-iff : (p : ℕ) → PassesFilter run_starts depths role_at p ↔ IsChosen p
  PassesFilter-iff p = (to, from)
    where
      false_of : (b : Bool) → ¬ (b ≡ true) → b ≡ false
      false_of true n = absurd (n refl)
      false_of false n = refl

      to : PassesFilter run_starts depths role_at p → IsChosen p
      to (inl k) = inl ((keeps_iff p).0 k)
      to (inr all) = inr (λ q lt s. cc (all q lt, (keeps_iff q).1 s))

      from : IsChosen p → PassesFilter run_starts depths role_at p
      from (inl s) = inl ((keeps_iff p).1 s)
      from (inr all) = inr (λ q lt. false_of _ (λ k. all q lt ((keeps_iff q).0 k)))

-- A run start is a statement stop exactly when it stays by its line role, or when no run start
-- does. An attribute never stays and a statement always does; a brace stays where it is the last
-- run start or the next one is shallower; a signature stays where its frame has no other kept stop.
pub has-statement_stops_roles :
    (run_starts depths : List ℕ) (role_at : ℕ → LineRole) (i : ℕ)
    → (has (statement_stops run_starts depths role_at) i ≡ true)
      ↔ ((p : ℕ) × (get_elem? run_starts p ≡ some i) × IsChosen run_starts depths role_at p)
has-statement_stops_roles run_starts depths role_at i =
    let iff = has-statement_stops_iff run_starts depths role_at i in
    (
      (λ h.
          let (p, at, k) = iff.0 h in (p, at, (PassesFilter-iff run_starts depths role_at p).0 k)),
      λ s. let (p, at, k) = s in iff.1 (p, at, (PassesFilter-iff run_starts depths role_at p).1 k),
    )
