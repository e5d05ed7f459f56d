-- ===== src/Prelude/Search.antt =====
-- The binary search that stops.ts and LineTable.ts both write out: the last index that passes a
-- test which holds up to some index and fails from there on. `hi` is the source's `hi` plus one.
use Prim.Native.Nat.{ℕ, zero, suc, ◌+◌, ◌-◌, ◌/◌, ◌≤◌, ◌<◌}
use mathlib.Core.Path.{◌≡◌, subst}
use mathlib.Core.Logic.{inl, inr}
use mathlib.Core.Bool.{Bool, true, false}
use mathlib.Core.Option.{Option, none, some}
use native.Mathlib.Omega.{arith}
use stellar_debugger.Prelude.Tests.{ltb, Bool-cases, tests}

unfoldable pub bisect : (ℕ → Bool) → ℕ → ℕ → ℕ → Option ℕ → Option ℕ
bisect test zero lo hi candidate = candidate
bisect test (suc fuel) lo hi candidate =
    let mid = (lo + (hi - 1)) / 2 in
    elim (ltb lo hi) [
      | false ↦ candidate
      | true ↦ elim (test mid) [
        | true ↦ bisect test fuel (mid + 1) hi (some mid)
        | false ↦ bisect test fuel lo mid candidate
      ]
    ]

-- `r` is the last index below `n` that passes the test.
abbrev pub IsLast : (ℕ → Bool) → ℕ → Option ℕ → Type 0
IsLast test n none = (j : ℕ) → j < n → test j ≡ false
IsLast test n (some k) = (k < n) × (test k ≡ true) × ((j : ℕ) → k < j → j < n → test j ≡ false)

IsLast-extend :
    (test : ℕ → Bool) (m n : ℕ) (r : Option ℕ)
    → m ≤ n
    → ((j : ℕ) → m ≤ j → j < n → test j ≡ false)
    → IsLast test m r
    → IsLast test n r
IsLast-extend test m n none h above below = λ j hj. elim (Bool-cases (ltb j m)) [
  | inl t ↦ below j (omega (tests, t))
  | inr t ↦ above j (omega (tests, t)) hj
]
IsLast-extend test m n (some k) h above (lt, at, below) = (
  omega arith,
  at,
  λ j kj hj. elim (Bool-cases (ltb j m)) [
    | inl t ↦ below j kj (omega (tests, t))
    | inr t ↦ above j (omega (tests, t)) hj
  ],
)

IsLast-single : (test : ℕ → Bool) (k : ℕ) → test k ≡ true → IsLast test (k + 1) (some k)
IsLast-single test k h = (omega arith, h, λ j kj hj. absurd (omega arith))

module _ (test : ℕ → Bool) (fuel lo hi : ℕ) (c : Option ℕ) where
  bisect_done : ltb lo hi ≡ false → c ≡ bisect test (suc fuel) lo hi c
  unfolding bisect
  bisect_done h = ground arith

  bisect_right :
      ltb lo hi ≡ true
      → test ((lo + (hi - 1)) / 2) ≡ true
      → bisect test fuel ((lo + (hi - 1)) / 2 + 1) hi (some ((lo + (hi - 1)) / 2))
        ≡ bisect test (suc fuel) lo hi c
  unfolding bisect
  bisect_right h k = ground arith

  bisect_left :
      ltb lo hi ≡ true
      → test ((lo + (hi - 1)) / 2) ≡ false
      → bisect test fuel lo ((lo + (hi - 1)) / 2) c ≡ bisect test (suc fuel) lo hi c
  unfolding bisect
  bisect_left h k = ground arith

module _ (test : ℕ → Bool) (n : ℕ)
    (closed : (i j : ℕ) → i ≤ j → j < n → test i ≡ false → test j ≡ false) where
  bisect_from :
      (fuel lo hi : ℕ) (c : Option ℕ)
      → lo ≤ hi
      → hi ≤ n
      → hi - lo ≤ fuel
      → IsLast test lo c
      → ((j : ℕ) → hi ≤ j → j < n → test j ≡ false)
      → IsLast test n (bisect test fuel lo hi c)
  unfolding bisect
  bisect_from zero lo hi c h hn hf below above =
      IsLast-extend test lo n c (omega arith) (λ j p q. above j (omega arith) q) below
  bisect_from (suc fuel) lo hi c h hn hf below above = elim (Bool-cases (ltb lo hi)) [
    | inr t ↦
        subst (IsLast test n) (bisect_done test fuel lo hi c t)
          (IsLast-extend test lo n c (omega arith) (λ j p q. above j (omega (tests, t)) q) below)
    | inl t ↦ elim (Bool-cases (test ((lo + (hi - 1)) / 2))) [
      | inl m ↦ subst (IsLast test n) (bisect_right test fuel lo hi c t m) (
          bisect_from fuel _ hi _ (omega (tests, t)) hn (omega (tests, t)) (IsLast-single test _ m)
            above)
      | inr m ↦ subst (IsLast test n) (bisect_left test fuel lo hi c t m) (
          bisect_from fuel lo _ c (omega (tests, t)) (omega (tests, t)) (omega (tests, t)) below
            (λ j p q. closed _ j p q m))
    ]
  ]

  -- Over all `n` indices, with fuel `n`, the search finds the last index that passes.
  pub bisect-IsLast : IsLast test n (bisect test n 0 n none)
  bisect-IsLast =
      bisect_from n 0 n none (omega arith) (omega arith) (omega arith) (λ j h. absurd (omega arith))
        (λ j p q. absurd (omega arith))
