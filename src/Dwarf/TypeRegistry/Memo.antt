-- ===== src/Dwarf/TypeRegistry/Memo.antt =====
-- The cache of src/dwarf/TypeRegistry.ts is not observable.
use stellar_debugger.Prelude.{
  ℕ, ◌≡◌, refl, sym, ap, ◌∙◌, Option, none, some, Bool, true, false, ◌==◌, ==→eq, if◌then◌else◌,
}
use stellar_debugger.Prelude.NatMap.{get, set, get-set}
use stellar_debugger.Bytes.{ok, fail, ◌>>=◌}
use stellar_debugger.Dwarf.Die.{Die, DieMap}
use stellar_debugger.Dwarf.TypeRegistry.{
  DwarfType, unresolved, Typed, Cache, decode, decode_cached, resolve,
}
use mathlib.Core.Path.{subst}

-- A cached type is what its DIE decodes to.
abbrev pub IsCoherent : DieMap → Cache → Type 0
IsCoherent dies cache =
    (o : ℕ) (t : DwarfType)
    → get cache o ≡ some t
    → (d : Die) × (get dies o ≡ some d) × (decode dies d ≡ ok t)

-- The type of a DIE, with no cache.
abbrev pub decoded : DieMap → Option Die → Typed DwarfType
decoded dies none = ok (unresolved none)
decoded dies (some d) = decode dies d

-- The continuations of the two, the one that keeps a cache and the one that adds to it.
abbrev pub keep : Cache → DwarfType → Typed (DwarfType × Cache)
keep cache t = ok (t, cache)

abbrev add : Cache → ℕ → DwarfType → Typed (DwarfType × Cache)
add cache o t = ok (t, set cache o t)

abbrev pub fresh : DieMap → Option ℕ → Typed DwarfType
fresh dies none = ok (unresolved none)
fresh dies (some o) = decoded dies (get dies o)

module _ (dies : DieMap) where
  pub IsCoherent-set :
      (cache : Cache) (o : ℕ) (d : Die) (t : DwarfType)
      → IsCoherent dies cache
      → get dies o ≡ some d
      → decode dies d ≡ ok t
      → IsCoherent dies (set cache o t)
  IsCoherent-set cache o d t h at e k u got = pick (o == k) refl (sym (get-set cache o k t) ∙ got)
    where
      pick :
          (b : Bool)
          → (o == k) ≡ b
          → (if b then some t else get cache k) ≡ some u
          → (d : Die) × (get dies k ≡ some d) × (decode dies d ≡ ok u)
      pick false f g = h k u g
      pick true f g = (d, subst (λ n. get dies n ≡ some d) (==→eq o k f) at, e ∙ ap ok (some_eq g))
        where
          some_eq : some t ≡ some u → t ≡ u
          some_eq q = cc

  -- The cache is coherent after the call, and the type or the error is that of a call with none.
  abbrev pub SameAsFresh : Cache → Option ℕ → Typed (DwarfType × Cache) → Type 0
  SameAsFresh cache o m =
      (after : Cache) × IsCoherent dies after × (m ≡ (fresh dies o >>= keep after))

  decode_cached-same :
      (cache : Cache) (o : ℕ) (found : Option Die)
      → IsCoherent dies cache
      → get dies o ≡ found
      → (after : Cache) × IsCoherent dies after
        × (decode_cached dies cache o found ≡ (decoded dies found >>= keep after))
  unfolding decode_cached
  decode_cached-same cache o none h at = (cache, h, refl)
  decode_cached-same cache o (some d) h at = go (decode dies d) refl
    where
      go :
          (m : Typed DwarfType)
          → decode dies d ≡ m
          → (after : Cache) × IsCoherent dies after × ((m >>= add cache o) ≡ (m >>= keep after))
      go (fail x) e = (cache, h, refl)
      go (ok t) e = (set cache o t, IsCoherent-set cache o d t h at e, refl)

  -- From a coherent cache, a type is resolved as it is with no cache at all: the same type or the
  -- same error; and the cache that it leaves is coherent.
  pub resolve-SameAsFresh :
      (cache : Cache) (o : Option ℕ)
      → IsCoherent dies cache
      → SameAsFresh cache o (resolve dies cache o)
  unfolding resolve
  resolve-SameAsFresh cache none h = (cache, h, refl)
  resolve-SameAsFresh cache (some o) h = go (get cache o) refl
    where
      go :
          (c : Option DwarfType)
          → get cache o ≡ c
          → SameAsFresh cache
              (some o)
              (elim c [ some t ↦ ok (t, cache) | none ↦ decode_cached dies cache o (get dies o) ])
      go none e = decode_cached-same cache o (get dies o) h refl
      go (some t) e =
          let (d, at, dec) = h o t e in
          (
            cache,
            h,
            sym (ap (λ x. decoded dies x >>= keep cache) at ∙ ap (λ m. m >>= keep cache) dec),
          )
