-- ===== src/Replay/Scans.antt =====
-- What the scans of replayCursor.ts and TraceModel.ts find.
use stellar_debugger.Prelude.{
  ℕ, zero, suc, ◌+◌, ◌≤◌, ◌<◌, ◌≡◌, refl, sym, Bool, true, false, ◌&&◌, Option, none, some, List,
  [], ◌∷◌, inl, inr, get_elem?, ltb, ◌==◌, ==→eq, arith, tests, Bool-cases, if◌then◌else◌,
}
use stellar_debugger.Prelude.Sets.{has, AscendingIn, AscendingIn-has}
use stellar_debugger.Replay.{scan_up, scan_down, DepthLimit, within, first_ahead, last_behind}
use mathlib.Core.Path.{subst}

-- The least member of the set from `lo` on and below `hi`.
abbrev pub IsNextIn : List ℕ → ℕ → ℕ → Option ℕ → Type 0
IsNextIn set lo hi none = (j : ℕ) → lo ≤ j → j < hi → has set j ≡ false
IsNextIn set lo hi (some i) =
    (lo ≤ i) × (i < hi) × (has set i ≡ true) × ((j : ℕ) → lo ≤ j → j < i → has set j ≡ false)

-- The greatest member of the set below `hi`.
abbrev pub IsPrevIn : List ℕ → ℕ → Option ℕ → Type 0
IsPrevIn set hi none = (j : ℕ) → j < hi → has set j ≡ false
IsPrevIn set hi (some i) =
    (i < hi) × (has set i ≡ true) × ((j : ℕ) → i < j → j < hi → has set j ≡ false)

IsNextIn-earlier :
    (set : List ℕ) (lo hi : ℕ) (r : Option ℕ)
    → has set lo ≡ false
    → IsNextIn set (lo + 1) hi r
    → IsNextIn set lo hi r
IsNextIn-earlier set lo hi none miss h = λ j l u. elim (Bool-cases (ltb lo j)) [
  | inl t ↦ h j (omega (tests, t)) u
  | inr t ↦ subst (λ k. has set k ≡ false) (omega (tests, t)) miss
]
IsNextIn-earlier set lo hi (some i) miss (l, u, m, all) = (
  omega arith,
  u,
  m,
  λ j jl ju. elim (Bool-cases (ltb lo j)) [
    | inl t ↦ all j (omega (tests, t)) ju
    | inr t ↦ subst (λ k. has set k ≡ false) (omega (tests, t)) miss
  ],
)

pub scan_up-IsNextIn :
    (set : List ℕ) (i left hi : ℕ) → i + left ≡ hi → IsNextIn set i hi (scan_up set i left)
unfolding scan_up
scan_up-IsNextIn set i zero hi e = λ j l u. absurd (omega arith)
scan_up-IsNextIn set i (suc left) hi e =
    pick (has set i) refl (scan_up-IsNextIn set (i + 1) left hi (omega arith))
  where
    rest : Option ℕ
    rest = scan_up set (i + 1) left

    pick :
        (b : Bool)
        → has set i ≡ b
        → IsNextIn set (i + 1) hi rest
        → IsNextIn set i hi (if b then some i else rest)
    pick true m h = (omega arith, omega arith, m, λ j l u. absurd (omega arith))
    pick false m h = IsNextIn-earlier set i hi rest m h

IsPrevIn-later :
    (set : List ℕ) (i : ℕ) (r : Option ℕ)
    → has set i ≡ false
    → IsPrevIn set i r
    → IsPrevIn set (suc i) r
IsPrevIn-later set i none miss h = λ j u. elim (Bool-cases (ltb j i)) [
  | inl t ↦ h j (omega (tests, t))
  | inr t ↦ subst (λ k. has set k ≡ false) (omega (tests, t)) miss
]
IsPrevIn-later set i (some k) miss (u, m, all) = (
  omega arith,
  m,
  λ j jl ju. elim (Bool-cases (ltb j i)) [
    | inl t ↦ all j jl (omega (tests, t))
    | inr t ↦ subst (λ x. has set x ≡ false) (omega (tests, t)) miss
  ],
)

pub scan_down-IsPrevIn : (set : List ℕ) (hi : ℕ) → IsPrevIn set hi (scan_down set hi)
unfolding scan_down
scan_down-IsPrevIn set zero = λ j u. absurd (omega arith)
scan_down-IsPrevIn set (suc i) = pick (has set i) refl (scan_down-IsPrevIn set i)
  where
    rest : Option ℕ
    rest = scan_down set i

    pick :
        (b : Bool)
        → has set i ≡ b
        → IsPrevIn set i rest
        → IsPrevIn set (suc i) (if b then some i else rest)
    pick true m h = (omega arith, m, λ j l u. absurd (omega arith))
    pick false m h = IsPrevIn-later set i rest m h

module _ (depths : List ℕ) (limit : DepthLimit) (cursor : ℕ) where
  -- A stop point that a forward, or a backward, step may rest on.
  abbrev pub IsAhead : ℕ → Type 0
  IsAhead j = (cursor < j) × (within (get_elem? depths j) limit ≡ true)

  abbrev pub IsBehind : ℕ → Type 0
  IsBehind j = (j < cursor) × (within (get_elem? depths j) limit ≡ true)

  -- The nearest such stop point, or none.
  abbrev pub IsNearestAhead : List ℕ → Option ℕ → Type 0
  IsNearestAhead points none = (j : ℕ) → has points j ≡ true → ¬ (IsAhead j)
  IsNearestAhead points (some i) =
      (has points i ≡ true) × IsAhead i × ((j : ℕ) → has points j ≡ true → IsAhead j → i ≤ j)

  abbrev pub IsNearestBehind : List ℕ → Option ℕ → Type 0
  IsNearestBehind points none = (j : ℕ) → has points j ≡ true → ¬ (IsBehind j)
  IsNearestBehind points (some i) =
      (has points i ≡ true) × IsBehind i × ((j : ℕ) → has points j ≡ true → IsBehind j → j ≤ i)

  IsAhead-true : (i : ℕ) → (ltb cursor i && within (get_elem? depths i) limit) ≡ true → IsAhead i
  IsAhead-true i h = ground (arith, h)

  IsAhead-false :
      (i : ℕ) → (ltb cursor i && within (get_elem? depths i) limit) ≡ false → ¬ (IsAhead i)
  IsAhead-false i h a = ground (arith, h, a.0, a.1)

  pub first_ahead-IsNearestAhead :
      (lo hi : ℕ) (points : List ℕ)
      → AscendingIn lo hi points
      → IsNearestAhead points (first_ahead depths limit cursor points)
  unfolding first_ahead
  first_ahead-IsNearestAhead lo hi [] h = λ j m. cc
  first_ahead-IsNearestAhead lo hi (i ∷ points) h =
      pick (ltb cursor i && within (get_elem? depths i) limit) refl
        (first_ahead depths limit cursor points) (first_ahead-IsNearestAhead (suc i) hi points h.1)
    where
      pick :
          (b : Bool)
          → (ltb cursor i && within (get_elem? depths i) limit) ≡ b
          → (r : Option ℕ) → IsNearestAhead points r
          → IsNearestAhead (i ∷ points) (if b then some i else r)
      pick true e r g = (
        ground arith,
        IsAhead-true i e,
        λ j m a. elim (Bool-cases (i == j)) [
          | inl t ↦ omega (tests, t)
          | inr t ↦ omega (arith, AscendingIn-has (suc i) hi j points h.1 (ground (arith, m, t)))
        ],
      )
      pick false e none g = λ j m a. elim (Bool-cases (i == j)) [
        | inl t ↦ IsAhead-false i e (subst IsAhead (sym (==→eq i j t)) a)
        | inr t ↦ g j (ground (arith, m, t)) a
      ]
      pick false e (some k) (m, a, least) = (
        ground (arith, m),
        a,
        λ j mj aj. elim (Bool-cases (i == j)) [
          | inl t ↦ absurd (IsAhead-false i e (subst IsAhead (sym (==→eq i j t)) aj))
          | inr t ↦ least j (ground (arith, mj, t)) aj
        ],
      )

  IsBehind-true : (i : ℕ) → (ltb i cursor && within (get_elem? depths i) limit) ≡ true → IsBehind i
  IsBehind-true i h = ground (arith, h)

  IsBehind-false :
      (i : ℕ) → (ltb i cursor && within (get_elem? depths i) limit) ≡ false → ¬ (IsBehind i)
  IsBehind-false i h a = ground (arith, h, a.0, a.1)

  pub last_behind-IsNearestBehind :
      (lo hi : ℕ) (points : List ℕ)
      → AscendingIn lo hi points
      → IsNearestBehind points (last_behind depths limit cursor points)
  unfolding last_behind
  last_behind-IsNearestBehind lo hi [] h = λ j m. cc
  last_behind-IsNearestBehind lo hi (i ∷ points) h =
      pick (last_behind depths limit cursor points)
        (ltb i cursor && within (get_elem? depths i) limit) refl
        (last_behind-IsNearestBehind (suc i) hi points h.1)
    where
      pick :
          (r : Option ℕ) (b : Bool)
          → (ltb i cursor && within (get_elem? depths i) limit) ≡ b
          → IsNearestBehind points r
          → IsNearestBehind
              (i ∷ points)
              (elim r [ some j ↦ some j | none ↦ if b then some i else none ])
      pick (some k) b e (m, a, most) = (
        ground (arith, m),
        a,
        λ j mj aj. elim (Bool-cases (i == j)) [
          | inl t ↦ omega (tests, t, AscendingIn-has (suc i) hi k points h.1 m)
          | inr t ↦ most j (ground (arith, mj, t)) aj
        ],
      )
      pick none true e g = (
        ground arith,
        IsBehind-true i e,
        λ j mj aj. elim (Bool-cases (i == j)) [
          | inl t ↦ omega (tests, t)
          | inr t ↦ absurd (g j (ground (arith, mj, t)) aj)
        ],
      )
      pick none false e g = λ j mj aj. elim (Bool-cases (i == j)) [
        | inl t ↦ IsBehind-false i e (subst IsBehind (sym (==→eq i j t)) aj)
        | inr t ↦ g j (ground (arith, mj, t)) aj
      ]
