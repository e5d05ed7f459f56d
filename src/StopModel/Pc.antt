-- ===== src/StopModel/Pc.antt =====
-- `pcAtIndex` of stopModel.ts.
use stellar_debugger.Prelude.{
  ℕ, zero, suc, ◌≤◌, ◌<◌, ◌≡◌, refl, Option, none, some, List, inl, inr, ltb, arith, tests,
  Bool-cases,
}
use stellar_debugger.Frames.{position_at}
use stellar_debugger.StopModel.{pc_at_index}
use mathlib.Core.Path.{subst}

-- `r` is the position of the nearest record, from `i` backwards, that has one.
abbrev pub IsNearest : List (Option ℕ) → ℕ → Option ℕ → Type 0
IsNearest positions i none = (j : ℕ) → j ≤ i → position_at positions j ≡ none
IsNearest positions i (some pos) =
    (j : ℕ) × (j ≤ i)
    × (position_at positions j ≡ some pos)
    × ((k : ℕ) → j < k → k ≤ i → position_at positions k ≡ none)

IsNearest-suc :
    (positions : List (Option ℕ)) (i : ℕ) (r : Option ℕ)
    → position_at positions (suc i) ≡ none
    → IsNearest positions i r
    → IsNearest positions (suc i) r
IsNearest-suc positions i none e h = λ j le. elim (Bool-cases (ltb i j)) [
  | inl t ↦ subst (λ k. position_at positions k ≡ none) (omega (tests, t)) e
  | inr t ↦ h j (omega (tests, t))
]
IsNearest-suc positions i (some pos) e (j, le, at, between) = (
  j,
  omega arith,
  at,
  λ k lo hi. elim (Bool-cases (ltb i k)) [
    | inl t ↦ subst (λ m. position_at positions m ≡ none) (omega (tests, t)) e
    | inr t ↦ between k lo (omega (tests, t))
  ],
)

IsNearest-here :
    (positions : List (Option ℕ)) (i : ℕ) (pos : ℕ)
    → position_at positions i ≡ some pos
    → IsNearest positions i (some pos)
IsNearest-here positions i pos e = (i, omega arith, e, λ k lo hi. absurd (omega arith))

IsNearest-zero :
    (positions : List (Option ℕ)) (o : Option ℕ)
    → position_at positions 0 ≡ o
    → IsNearest positions 0 o
IsNearest-zero positions none e =
    λ j le. subst (λ k. position_at positions k ≡ none) (omega arith) e
IsNearest-zero positions (some pos) e = IsNearest-here positions 0 pos e

pc_step :
    (positions : List (Option ℕ)) (i : ℕ) (o : Option ℕ)
    → position_at positions (suc i) ≡ o
    → IsNearest positions i (pc_at_index positions i)
    → IsNearest positions (suc i) (elim o [ some pos ↦ some pos | none ↦ pc_at_index positions i ])
pc_step positions i none e h = IsNearest-suc positions i (pc_at_index positions i) e h
pc_step positions i (some pos) e h = IsNearest-here positions (suc i) pos e

-- The current PC is the position of the nearest record at or before the index that has one, and
-- null exactly when there is no such record.
pub pc_at_index-IsNearest :
    (positions : List (Option ℕ)) (i : ℕ) → IsNearest positions i (pc_at_index positions i)
unfolding pc_at_index
pc_at_index-IsNearest positions zero = IsNearest-zero positions (position_at positions 0) refl
pc_at_index-IsNearest positions (suc i) =
    pc_step positions i (position_at positions (suc i)) refl (pc_at_index-IsNearest positions i)
