-- ===== src/Prelude/Sets.antt =====
-- Membership in a list of numbers, the source's `Set.has` and `includes`, and ascending lists.
use Prim.Native.Nat.{ℕ, zero, suc, ◌≤◌, ◌<◌}
use mathlib.Core.Path.{◌≡◌}
use mathlib.Core.Logic.{◌⊎◌, inl, inr}
use mathlib.Core.Bool.{Bool, true, false, ◌||◌}
use mathlib.Core.Option.{some}
use mathlib.Core.List.{List, [], ◌∷◌, ◌++◌}
use native.Mathlib.Omega.{arith}
use stellar_debugger.Prelude.Tests.{◌==◌, Bool-cases, ==→eq}
use stellar_debugger.Prelude.Lists.{get_elem?}

abbrev pub has : List ℕ → ℕ → Bool
has [] a = false
has (x ∷ xs) a = x == a || has xs a

pub has-snoc_self : (xs : List ℕ) (a : ℕ) → has (xs ++ a ∷ []) a ≡ true
has-snoc_self [] a = ground arith
has-snoc_self (x ∷ xs) a = ground (arith, has-snoc_self xs a)

pub has-snoc : (xs : List ℕ) (a b : ℕ) → has xs a ≡ true → has (xs ++ b ∷ []) a ≡ true
has-snoc [] a b h = cc
has-snoc (x ∷ xs) a b h = ground (arith, has-snoc xs a b)

pub has-snoc_cases :
    (xs : List ℕ) (a b : ℕ) → has (xs ++ b ∷ []) a ≡ true → (has xs a ≡ true) ⊎ (a ≡ b)
has-snoc_cases [] a b h = inr (ground arith)
has-snoc_cases (x ∷ xs) a b h = elim (Bool-cases (x == a)) [
  | inl t ↦ inl (ground (arith, t))
  | inr t ↦ elim (has-snoc_cases xs a b (ground (arith, t))) [
    | inl m ↦ inl (ground (arith, m))
    | inr e ↦ inr e
  ]
]

pub has-get_elem? : (xs : List ℕ) (i : ℕ) {a : ℕ} → get_elem? xs i ≡ some a → has xs a ≡ true
has-get_elem? [] i h = cc
has-get_elem? (x ∷ xs) zero h = ground arith
has-get_elem? (x ∷ xs) (suc i) h = ground (arith, has-get_elem? xs i h)

pub get_elem?-has : (xs : List ℕ) (a : ℕ) → has xs a ≡ true → (i : ℕ) × (get_elem? xs i ≡ some a)
get_elem?-has [] a h = cc
get_elem?-has (x ∷ xs) a h = elim (Bool-cases (x == a)) [
  | inl t ↦ (0, ground (arith, t))
  | inr t ↦ let (i, e) = get_elem?-has xs a (ground (arith, t)) in (suc i, e)
]

-- Strictly ascending, from `lo` on and below `hi`.
abbrev pub AscendingIn : ℕ → ℕ → List ℕ → Type 0
AscendingIn lo hi [] = lo ≤ hi
AscendingIn lo hi (x ∷ xs) = (lo ≤ x) × AscendingIn (suc x) hi xs

pub AscendingIn-snoc :
    (lo n : ℕ) (xs : List ℕ) → AscendingIn lo n xs → AscendingIn lo (suc n) (xs ++ n ∷ [])
AscendingIn-snoc lo n [] h = (h, omega arith)
AscendingIn-snoc lo n (x ∷ xs) h = (h.0, AscendingIn-snoc (suc x) n xs h.1)

pub AscendingIn-widen :
    (lo lo' n m : ℕ) (xs : List ℕ) → lo' ≤ lo → n ≤ m → AscendingIn lo n xs → AscendingIn lo' m xs
AscendingIn-widen lo lo' n m [] p q h = omega arith
AscendingIn-widen lo lo' n m (x ∷ xs) p q h =
    (omega arith, AscendingIn-widen (suc x) (suc x) n m xs (omega arith) q h.1)

pub AscendingIn-has :
    (lo hi a : ℕ) (xs : List ℕ) → AscendingIn lo hi xs → has xs a ≡ true → (lo ≤ a) × (a < hi)
AscendingIn-has lo hi a [] h m = cc
AscendingIn-has lo hi a (x ∷ xs) h m = elim (Bool-cases (x == a)) [
  | inl t ↦ (omega (arith, ==→eq x a t), omega (arith, ==→eq x a t, top xs h.1))
  | inr t ↦ let ih = AscendingIn-has (suc x) hi a xs h.1 (ground (arith, t)) in (omega arith, ih.1)
]
  where
    top : {n : ℕ} (ys : List ℕ) → AscendingIn n hi ys → n ≤ hi
    top [] g = g
    top (y ∷ ys) g = omega (arith, top ys g.1)
