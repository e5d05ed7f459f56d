-- ===== src/Prelude/NatMap.antt =====
-- A JavaScript `Map` with number keys as an association list in insertion order.
use Prim.Native.Nat.{ℕ}
use mathlib.Core.Path.{◌≡◌, refl}
use mathlib.Core.Option.{Option, none, some}
use mathlib.Core.List.{List, [], ◌∷◌}
use native.Mathlib.Omega.{arith}
use stellar_debugger.Prelude.Tests.{◌==◌, if◌then◌else◌}

abbrev pub NatMap {ℓ} : Type ℓ → Type ℓ
NatMap V = List (ℕ × V)

module _ {ℓ} {V : Type ℓ} where
  -- `map.get(k)`
  unfoldable pub get : NatMap V → ℕ → Option V
  get [] k = none
  get ((j, v) ∷ m) k = if j == k then some v else get m k

  -- `map.set(k, v)`
  unfoldable pub set : NatMap V → ℕ → V → NatMap V
  set [] k v = (k, v) ∷ []
  set ((j, w) ∷ m) k v = let rest = set m k v in if j == k then (k, v) ∷ m else (j, w) ∷ rest

  pub get-set :
      (m : NatMap V) (k j : ℕ) (v : V) → get (set m k v) j ≡ (if k == j then some v else get m j)
  unfolding get set
  get-set [] k j v = refl
  get-set ((i, w) ∷ m) k j v = ground (arith, get-set m k j v)
