-- ===== src/Prelude/Dict.antt =====
-- A JavaScript `Map` with text keys: an association list in insertion order.
use Prim.Native.String.{String}
use mathlib.Core.Path.{◌≡◌, refl}
use mathlib.Core.Option.{Option, none, some}
use mathlib.Core.List.{List, [], ◌∷◌}
use native.Mathlib.Omega.{arith}
use stellar_debugger.Prelude.Tests.{str_eq, str_eq_iff, if◌then◌else◌}

abbrev pub Dict {ℓ} : Type ℓ → Type ℓ
Dict V = List (String × V)

module _ {ℓ} {V : Type ℓ} where
  -- `map.get(k)`
  unfoldable pub lookup : String → Dict V → Option V
  lookup k [] = none
  lookup k ((j, v) ∷ m) = if str_eq j k then some v else lookup k m

  -- `map.set(k, v)`: a key that is there keeps its place.
  unfoldable pub insert : String → V → Dict V → Dict V
  insert k v [] = (k, v) ∷ []
  insert k v ((j, w) ∷ m) =
      let rest = insert k v m in if str_eq j k then (j, v) ∷ m else (j, w) ∷ rest

  -- `map.delete(k)`
  unfoldable pub remove : String → Dict V → Dict V
  remove k [] = []
  remove k ((j, w) ∷ m) = let rest = remove k m in if str_eq j k then rest else (j, w) ∷ rest

  pub lookup-insert :
      (k j : String) (v : V) (m : Dict V)
      → lookup j (insert k v m) ≡ (if str_eq k j then some v else lookup j m)
  unfolding lookup insert
  lookup-insert k j v [] = refl
  lookup-insert k j v ((i, w) ∷ m) =
      ground (arith, str_eq_iff k j, str_eq_iff i k, str_eq_iff i j, lookup-insert k j v m)

  pub lookup-remove :
      (k j : String) (m : Dict V)
      → lookup j (remove k m) ≡ (if str_eq k j then none else lookup j m)
  unfolding lookup remove
  lookup-remove k j [] = ground arith
  lookup-remove k j ((i, w) ∷ m) =
      ground (arith, str_eq_iff k j, str_eq_iff i k, str_eq_iff i j, lookup-remove k j m)
