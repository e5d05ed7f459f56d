-- ===== src/Dwarf/TypeRegistry/Strip.antt =====
-- The loop of `stripTypedefs` in src/dwarf/TypeRegistry.ts comes to an end.
use stellar_debugger.Prelude.{
  ℕ, zero, suc, ◌+◌, ◌≤◌, ◌<◌, ◌≡◌, refl, sym, ap, ◌∙◌, ◌⊎◌, inl, inr, Bool, true, false, Option,
  none, some, Bool-cases, List, [], ◌∷◌, length, ◌==◌, arith, if◌then◌else◌,
}
use stellar_debugger.Prelude.NatMap.{get}
use stellar_debugger.Prelude.Sets.{has}
use stellar_debugger.Bytes.{ok, fail, ◌>>=◌, Yields}
use stellar_debugger.Dwarf.{out_of_rounds}
use stellar_debugger.Dwarf.Location.Forward.{Sane}
use stellar_debugger.Dwarf.Die.{Die, DieMap}
use stellar_debugger.Dwarf.TypeRegistry.{
  DwarfType, unresolved, Typed, Cache, decode, target_of, resolve, strip_loop, strip_typedefs,
}
use stellar_debugger.Dwarf.TypeRegistry.Ends.{decode-Ends}
use stellar_debugger.Dwarf.TypeRegistry.Memo.{IsCoherent, fresh, decoded, keep, resolve-SameAsFresh}
use mathlib.Core.Path.{subst}

-- The keys of the DIEs that are not in `seen`.
abbrev unseen : DieMap → List ℕ → ℕ
unseen [] seen = 0
unseen ((o, d) ∷ rest) seen = (if has seen o then 0 else 1) + unseen rest seen

unseen-nil : (dies : DieMap) → unseen dies [] ≡ length dies
unseen-nil [] = refl
unseen-nil (entry ∷ rest) = omega (arith, unseen-nil rest)

unseen-cons : (dies : DieMap) (t : ℕ) (seen : List ℕ) → unseen dies (t ∷ seen) ≤ unseen dies seen
unseen-cons [] t seen = omega arith
unseen-cons ((o, d) ∷ rest) t seen = ground (arith, unseen-cons rest t seen)

unseen-cons_found :
    (dies : DieMap) (t : ℕ) (seen : List ℕ) {d : Die}
    → get dies t ≡ some d
    → has seen t ≡ false
    → unseen dies (t ∷ seen) < unseen dies seen
unfolding get
unseen-cons_found [] t seen at new = cc
unseen-cons_found ((o, d) ∷ rest) t seen at new = elim (Bool-cases (o == t)) [
  | inl same ↦ ground (arith, unseen-cons rest t seen)
  | inr other ↦ ground (
    arith,
    other,
    unseen-cons_found rest t seen (sym (ap (λ b. if b then some d else get rest t) other) ∙ at) new,
  )
]

module _ (dies : DieMap) where
  -- From `start`, through the targets that `seen` has, the last one first.
  pub data Chain (start : DwarfType) : List ℕ → DwarfType → Type 0 where
    here : Chain start [] start
    follow :
        {seen : List ℕ} {current type : DwarfType} (t : ℕ)
        → Chain start seen current
        → target_of current ≡ some t
        → has seen t ≡ false
        → fresh dies (some t) ≡ ok type
        → Chain start (t ∷ seen) type

  -- No target, or one that the chain has been at.
  abbrev pub IsEnd : List ℕ → DwarfType → Type 0
  IsEnd seen type =
      (target_of type ≡ none) ⊎ ((t : ℕ) × (target_of type ≡ some t) × (has seen t ≡ true))

  abbrev pub IsStripped : DwarfType → DwarfType × Cache → Type 0
  IsStripped start r = IsCoherent dies r.1 × (seen : List ℕ) × Chain start seen r.0 × IsEnd seen r.0

  strip_loop-unresolved :
      (start : DwarfType) (fuel : ℕ) (seen : List ℕ) (cache : Cache)
      → Chain start seen (unresolved none)
      → IsCoherent dies cache
      → 1 ≤ fuel
      → Sane (IsStripped start) (strip_loop dies fuel (unresolved none) seen cache)
  unfolding strip_loop target_of
  strip_loop-unresolved start zero seen cache chain h bound = absurd (omega arith)
  strip_loop-unresolved start (suc fuel) seen cache chain h bound = (h, seen, chain, inl refl)

  -- What a loop on `fuel` does wherever the chain has come to.
  abbrev Peels : DwarfType → ℕ → Type 0
  Peels start fuel =
      (current : DwarfType) (seen : List ℕ) (cache : Cache)
      → Chain start seen current
      → IsCoherent dies cache
      → unseen dies seen + 2 ≤ fuel
      → Sane (IsStripped start) (strip_loop dies fuel current seen cache)

  strip_round-Peels : (start : DwarfType) (fuel : ℕ) → Peels start fuel → Peels start (suc fuel)
  unfolding strip_loop
  strip_round-Peels start fuel rest current seen cache chain h bound =
      at_target (target_of current) refl
    where
      at_die :
          (t : ℕ)
          → target_of current ≡ some t
          → has seen t ≡ false
          → (after : Cache) → IsCoherent dies after
          → (found : Option Die) → get dies t ≡ found
          → Sane
              (IsStripped start)
              (decoded dies found >>= keep after >>= λ r. strip_loop dies fuel r.0 (t ∷ seen) r.1)
      at_die t e new after h' none at =
          strip_loop-unresolved start fuel (t ∷ seen) after
            (follow t chain e new (ap (decoded dies) at)) h' (omega arith)
      at_die t e new after h' (some d) at = go (decode dies d) refl (decode-Ends dies d)
        where
          go :
              (m : Typed DwarfType)
              → decode dies d ≡ m
              → Yields out_of_rounds (λ _. Unit {0}) m
              → Sane
                  (IsStripped start)
                  (m >>= keep after >>= λ r. strip_loop dies fuel r.0 (t ∷ seen) r.1)
          go (fail x) e' ends = ends
          go (ok type) e' ends =
              rest type (t ∷ seen) after (follow t chain e new (ap (decoded dies) at ∙ e')) h'
                (omega (arith, unseen-cons_found dies t seen at new))

      at_seen :
          (t : ℕ)
          → target_of current ≡ some t
          → (b : Bool) → has seen t ≡ b
          → Sane (IsStripped start) (elim b [
            | true ↦ ok (current, cache)
            | false ↦ resolve dies cache (some t) >>= λ r. strip_loop dies fuel r.0 (t ∷ seen) r.1
          ])
      at_seen t e true old = (h, seen, chain, inr (t, e, old))
      at_seen t e false new =
          let (after, h', same) = resolve-SameAsFresh dies cache (some t) h in
          subst (λ m. Sane (IsStripped start) (m >>= λ r. strip_loop dies fuel r.0 (t ∷ seen) r.1))
            (sym same) (at_die t e new after h' (get dies t) refl)

      at_target :
          (o : Option ℕ)
          → target_of current ≡ o
          → Sane (IsStripped start) (elim o [
            | none ↦ ok (current, cache)
            | some t ↦ elim (has seen t) [
              | true ↦ ok (current, cache)
              | false ↦ resolve dies cache (some t) >>= λ r. strip_loop dies fuel r.0 (t ∷ seen) r.1
            ]
          ])
      at_target none e = (h, seen, chain, inl e)
      at_target (some t) e = at_seen t e (has seen t) refl

  strip_loop-Peels : (start : DwarfType) (fuel : ℕ) → Peels start fuel
  strip_loop-Peels start zero current seen cache chain h bound = absurd (omega arith)
  strip_loop-Peels start (suc fuel) current seen cache chain h bound =
      strip_round-Peels start fuel (strip_loop-Peels start fuel) current seen cache chain h bound

  -- From a coherent cache the loop comes to an end: it does not run out of rounds. Where it gives
  -- a type, that type is reached from the given one through the targets of typedefs and
  -- qualifiers, each target once and each resolved as it is without a cache; it has no target, or
  -- one that the way has been at, as a cycle has; and the cache it leaves is coherent.
  pub strip_typedefs-IsStripped :
      (cache : Cache) (type : DwarfType)
      → IsCoherent dies cache
      → Sane (IsStripped type) (strip_typedefs dies cache type)
  unfolding strip_typedefs
  strip_typedefs-IsStripped cache type h =
      strip_loop-Peels type (length dies + 2) type [] cache here h (omega (arith, unseen-nil dies))
