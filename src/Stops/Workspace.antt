-- ===== src/Stops/Workspace.antt =====
-- `myCodeStops` of src/debugAdapter/stops.ts.
use stellar_debugger.Prelude.{
  ℕ, ◌≡◌, refl, sym, ap, ◌∙◌, ◌↔◌, ◌⊎◌, inl, inr, Bool, true, false, List, [], ◌∷◌, ◌==◌, ==→eq,
  ==_self, arith, Bool-cases, if◌then◌else◌,
}
use stellar_debugger.Prelude.Sets.{has}
use stellar_debugger.Stops.{or_unfiltered, workspace_only, my_code_stops}
use mathlib.Core.Path.{subst}

module _ (is_workspace : ℕ → Bool) where
  has-workspace_only :
      (xs : List ℕ) (i : ℕ)
      → has xs i ≡ true
      → is_workspace i ≡ true
      → has (workspace_only is_workspace xs) i ≡ true
  unfolding workspace_only
  has-workspace_only [] i h w = cc
  has-workspace_only (x ∷ xs) i h w = elim (Bool-cases (x == i)) [
    | inl t ↦
        let same : is_workspace x ≡ true =
          subst (λ k. is_workspace k ≡ true) (sym (==→eq x i t)) w in
        ground (arith, same, t)
    | inr t ↦ keep (is_workspace x) (has-workspace_only xs i (ground (arith, h, t)) w)
  ]
    where
      keep :
          (b : Bool)
          → has (workspace_only is_workspace xs) i ≡ true
          → has (if b then x ∷ workspace_only is_workspace xs else workspace_only is_workspace xs) i
            ≡ true
      keep true m = ground (arith, m)
      keep false m = m

  has-workspace_only_inv :
      (xs : List ℕ) (i : ℕ)
      → has (workspace_only is_workspace xs) i ≡ true
      → (has xs i ≡ true) × (is_workspace i ≡ true)
  unfolding workspace_only
  has-workspace_only_inv [] i h = cc
  has-workspace_only_inv (x ∷ xs) i h = go (is_workspace x) refl h (has-workspace_only_inv xs i)
    where
      go :
          (b : Bool)
          → is_workspace x ≡ b
          → has (if b then x ∷ workspace_only is_workspace xs else workspace_only is_workspace xs) i
            ≡ true
          → (has (workspace_only is_workspace xs) i ≡ true
              → (has xs i ≡ true) × (is_workspace i ≡ true))
          → (has (x ∷ xs) i ≡ true) × (is_workspace i ≡ true)
      go false e m ih = (ground (arith, (ih m).0), (ih m).1)
      go true e m ih = elim (Bool-cases (x == i)) [
        | inl t ↦ (ground (arith, t), subst (λ k. is_workspace k ≡ true) (==→eq x i t) e)
        | inr t ↦ let r = ih (ground (arith, m, t)) in (ground (arith, r.0), r.1)
      ]

  -- It is workspace code, or none of the stops is.
  abbrev pub IsMine : List ℕ → ℕ → Type 0
  IsMine xs i = (is_workspace i ≡ true) ⊎ ((j : ℕ) → has xs j ≡ true → is_workspace j ≡ false)

  -- The stops that remain are those in workspace code, or all of them when none is: a trace of
  -- library code alone can still be stepped.
  pub has-my_code_stops_iff :
      (xs : List ℕ) (i : ℕ)
      → (has (my_code_stops xs is_workspace) i ≡ true) ↔ ((has xs i ≡ true) × IsMine xs i)
  unfolding my_code_stops
  has-my_code_stops_iff xs i = go (workspace_only is_workspace xs) refl
    where
      missing :
          workspace_only is_workspace xs ≡ [] → (j : ℕ) → has xs j ≡ true → is_workspace j ≡ false
      missing e j m = elim (Bool-cases (is_workspace j)) [
        | inl t ↦ absurd (none_in (ap (λ l. has l j) e) (has-workspace_only xs j m t))
        | inr t ↦ t
      ]
        where
          none_in : {b : Bool} → b ≡ false → b ≡ true → ⊥
          none_in f t = cc

      go :
          (kept : List ℕ)
          → workspace_only is_workspace xs ≡ kept
          → (has (or_unfiltered kept xs) i ≡ true) ↔ ((has xs i ≡ true) × IsMine xs i)
      go [] e = ((λ m. (m, inr (missing e))), λ m. m.0)
      go (k ∷ kept) e = (
        (λ m. let r = has-workspace_only_inv xs i (ap (λ l. has l i) e ∙ m) in (r.0, inl r.1)),
        λ m. elim m.1 [
          | inl w ↦ sym (ap (λ l. has l i) e) ∙ has-workspace_only xs i m.0 w
          | inr all ↦
              let r = has-workspace_only_inv xs k (ap (λ l. has l k) e ∙ first kept) in
              absurd (true_false (all k r.0) r.1)
        ],
      )
        where
          first : (l : List ℕ) → has (k ∷ l) k ≡ true
          first l = ground (arith, ==_self k)

          true_false : {b : Bool} → b ≡ false → b ≡ true → ⊥
          true_false f t = cc
