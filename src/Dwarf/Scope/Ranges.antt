-- ===== src/Dwarf/Scope/Ranges.antt =====
-- The function around an address, of src/dwarf/ScopeIndex.ts.
use stellar_debugger.Prelude.{
  ℕ, zero, suc, ◌+◌, ◌-◌, ◌/◌, ◌≤◌, ◌<◌, ◌≡◌, refl, sym, ap, ◌∙◌, ◌⊎◌, inl, inr, Bool, true, false,
  Option, none, some, List, [], ◌∷◌, length, get_elem?, get_elem?-lt, get_elem?-total, ltb, arith,
  tests, Bool-cases,
}
use stellar_debugger.Prelude.Int.{ℤ, pos, leb_int, ltb_int}
use stellar_debugger.Bytes.{ok, fail, ◌>>=◌}
use stellar_debugger.Dwarf.Scope.{
  Scoped, RecordedFn, ScopeIndex, Side, below, inside, above, side_of, side_at, find_inside,
  found_fn, fn_covers, ranged_at, record_at,
}
use mathlib.Core.Path.{subst}

Side-cases : (s : Side) → (s ≡ below) ⊎ (s ≡ inside) ⊎ (s ≡ above)
Side-cases below = inl refl
Side-cases inside = inr (inl refl)
Side-cases above = inr (inr refl)

module _ (side : ℕ → Side) where
  -- What the search returns is inside.
  find_inside-inside : (fuel lo hi k : ℕ) → find_inside side fuel lo hi ≡ some k → side k ≡ inside
  unfolding find_inside
  find_inside-inside zero lo hi k e = cc
  find_inside-inside (suc fuel) lo hi k e = grind (
    arith,
    find_inside-inside fuel lo ((lo + (hi - 1)) / 2) k,
    find_inside-inside fuel ((lo + (hi - 1)) / 2 + 1) hi k,
  )

  -- It finds the place that all before are above and all after below of.
  find_inside-finds :
      (n k : ℕ)
      → ((j : ℕ) → j < k → side j ≡ above)
      → ((j : ℕ) → k < j → j < n → side j ≡ below)
      → side k ≡ inside
      → (fuel lo hi : ℕ) → lo ≤ k
      → k < hi
      → hi ≤ n
      → hi ≤ lo + fuel
      → find_inside side fuel lo hi ≡ some k
  unfolding find_inside
  find_inside-finds n k before after here zero lo hi a b c d = absurd (omega arith)
  find_inside-finds n k before after here (suc fuel) lo hi a b c d =
      elim (Bool-cases (ltb ((lo + (hi - 1)) / 2) k)) [
        | inl t ↦ ground (
          arith,
          before ((lo + (hi - 1)) / 2) (omega (tests, t)),
          find_inside-finds n k before after here fuel ((lo + (hi - 1)) / 2 + 1) hi
              (omega (tests, t)) b c (omega arith),
        )
        | inr t ↦ elim (Bool-cases (ltb k ((lo + (hi - 1)) / 2))) [
          | inl u ↦ ground (
            arith,
            after ((lo + (hi - 1)) / 2) (omega (tests, u)) (omega arith),
            find_inside-finds n k before after here fuel lo ((lo + (hi - 1)) / 2) a
                (omega (tests, u)) (omega arith) (omega arith),
          )
          | inr u ↦
              let e : (lo + (hi - 1)) / 2 ≡ k = omega (tests, t, u) in
              let at : side ((lo + (hi - 1)) / 2) ≡ inside =
                subst (λ m. side m ≡ inside) (sym e) here in
              ground (arith, at, e)
        ]
      ]

-- `pc >= low && pc < high`, of a range that both ends are known of.
abbrev pub Contains : ℕ → Option (ℤ × ℤ) → Type 0
Contains pc none = ⊥
Contains pc (some r) = (leb_int r.0 (pos pc) ≡ true) × (ltb_int (pos pc) r.1 ≡ true)

-- One range ends where the other starts, or before.
abbrev pub EndsBefore : Option (ℤ × ℤ) → Option (ℤ × ℤ) → Type 0
EndsBefore (some r) (some s) = leb_int r.1 s.0 ≡ true
EndsBefore _ _ = ⊥

abbrev pub IsProper : Option (ℤ × ℤ) → Type 0
IsProper none = ⊥
IsProper (some r) = leb_int r.0 r.1 ≡ true

-- The functions stand in order and do not overlap.
pub record AreApart (fns : List RecordedFn) : Type 0 where
  pub proper : (i : ℕ) (f : RecordedFn) → get_elem? fns i ≡ some f → IsProper f.low_high
  pub apart :
      (i j : ℕ) (f g : RecordedFn)
      → i < j
      → get_elem? fns i ≡ some f
      → get_elem? fns j ≡ some g
      → EndsBefore f.low_high g.low_high

side_of-inside : (pc : ℕ) (r : Option (ℤ × ℤ)) → Contains pc r → side_of pc r ≡ inside
unfolding side_of
side_of-inside pc none h = elim h [ ]
side_of-inside pc (some (low, high)) h = ground arith

side_of-inside_inv : (pc : ℕ) (r : Option (ℤ × ℤ)) → side_of pc r ≡ inside → Contains pc r
unfolding side_of
side_of-inside_inv pc none h = cc
side_of-inside_inv pc (some (low, high)) h = ground arith

side_of-above :
    (pc : ℕ) (r s : Option (ℤ × ℤ))
    → IsProper r
    → EndsBefore r s
    → Contains pc s
    → side_of pc r ≡ above
unfolding side_of
side_of-above pc none s p e h = elim p [ ]
side_of-above pc (some r) none p e h = elim h [ ]
side_of-above pc (some (low, high)) (some (low', high')) p e h = ground arith

side_of-below :
    (pc : ℕ) (r s : Option (ℤ × ℤ)) → EndsBefore s r → Contains pc s → side_of pc r ≡ below
unfolding side_of
side_of-below pc none none e h = elim h [ ]
side_of-below pc none (some s) e h = elim e [ ]
side_of-below pc (some r) none e h = elim h [ ]
side_of-below pc (some (low, high)) (some (low', high')) e h = ground arith

module _ (fns : List RecordedFn) (pc : ℕ) where
  side_at-some :
      (i : ℕ) (f : RecordedFn) → get_elem? fns i ≡ some f → side_at fns pc i ≡ side_of pc f.low_high
  unfolding side_at
  side_at-some i f e = ap (λ o. elim o [ none ↦ below | some f ↦ side_of pc f.low_high ]) e

  find_inside-AreApart :
      (k : ℕ) (f : RecordedFn)
      → AreApart fns
      → get_elem? fns k ≡ some f
      → Contains pc f.low_high
      → find_inside (side_at fns pc) (length fns) 0 (length fns) ≡ some k
  find_inside-AreApart k f apart e h =
      find_inside-finds (side_at fns pc) (length fns) k
        (λ j jk.
          let (g, at) = get_elem?-total fns j (omega (arith, jk, get_elem?-lt fns k e)) in
          side_at-some j g at
          ∙ side_of-above pc g.low_high f.low_high (apart.proper j g at)
              (apart.apart j k g f jk at e) h)
        (λ j kj jn.
          let (g, at) = get_elem?-total fns j jn in
          side_at-some j g at
          ∙ side_of-below pc g.low_high f.low_high (apart.apart k j f g kj e at) h)
        (side_at-some k f e ∙ side_of-inside pc f.low_high h) (length fns) 0 (length fns)
        (omega arith) (get_elem?-lt fns k e) (omega arith) (omega arith)

-- Where the contiguous functions are in order, proper and apart, the function whose range contains
-- the address is the one that is found, wherever it stands.
pub record_at-finds :
    (x : ScopeIndex) (pc k : ℕ) (f : RecordedFn)
    → AreApart x.contiguous
    → get_elem? x.contiguous k ≡ some f
    → Contains pc f.low_high
    → record_at x pc ≡ ok (some f)
unfolding record_at found_fn
record_at-finds x pc k f apart e h =
    ap (found_fn x pc) (find_inside-AreApart x.contiguous pc k f apart e h) ∙ ap ok e

-- The function is one of the contiguous with the address in its range, or one of those with a
-- range list, whose list covers the address.
abbrev pub IsAround : ScopeIndex → ℕ → RecordedFn → Type 0
IsAround x pc f =
    ((k : ℕ) × (get_elem? x.contiguous k ≡ some f) × Contains pc f.low_high)
    ⊎ ((k : ℕ) × (section : List ℕ) × (get_elem? x.ranged k ≡ some f)
        × (x.debug_ranges ≡ some section)
        × (fn_covers section pc f ≡ ok true))

ranged_at-covers :
    (section : List ℕ) (fns : List RecordedFn) (pc : ℕ) (f : RecordedFn)
    → ranged_at section fns pc ≡ ok (some f)
    → (k : ℕ) × (get_elem? fns k ≡ some f) × (fn_covers section pc f ≡ ok true)
unfolding ranged_at
ranged_at-covers section [] pc f e = cc
ranged_at-covers section (g ∷ fns) pc f e =
    go (fn_covers section pc g) refl e (ranged_at-covers section fns pc f)
  where
    go :
        (m : Scoped Bool)
        → fn_covers section pc g ≡ m
        → (m >>= λ b. elim b [ true ↦ ok (some g) | false ↦ ranged_at section fns pc ])
          ≡ ok (some f)
        → (ranged_at section fns pc ≡ ok (some f)
            → (k : ℕ) × (get_elem? fns k ≡ some f) × (fn_covers section pc f ≡ ok true))
        → (k : ℕ) × (get_elem? (g ∷ fns) k ≡ some f) × (fn_covers section pc f ≡ ok true)
    go (fail err) at e rec = cc
    go (ok true) at e rec =
        let same : g ≡ f = cc in
        (0, ap some same, subst (λ h. fn_covers section pc h ≡ ok true) same at)
    go (ok false) at e rec = let (k, there, covers) = rec e in (suc k, there, covers)

-- A function that is found is around the address, whatever the index holds.
pub record_at-IsAround :
    (x : ScopeIndex) (pc : ℕ) (f : RecordedFn) → record_at x pc ≡ ok (some f) → IsAround x pc f
unfolding record_at
record_at-IsAround x pc f e =
    go (find_inside (side_at x.contiguous pc) (length x.contiguous) 0 (length x.contiguous)) refl e
  where
    from_list :
        (o : Option (List ℕ))
        → x.debug_ranges ≡ o
        → (elim o [ none ↦ ok none | some section ↦ ranged_at section x.ranged pc ]) ≡ ok (some f)
        → IsAround x pc f
    from_list none at e = cc
    from_list (some section) at e =
        let (k, there, covers) = ranged_at-covers section x.ranged pc f e in
        inr (k, section, there, at, covers)

    go :
        (o : Option ℕ)
        → find_inside (side_at x.contiguous pc) (length x.contiguous) 0 (length x.contiguous) ≡ o
        → found_fn x pc o ≡ ok (some f)
        → IsAround x pc f
    go none at e = from_list x.debug_ranges refl (unfold found_fn in e)
    go (some k) at e =
        let there : get_elem? x.contiguous k ≡ some f = unfold found_fn in cc in
        let within =
          find_inside-inside (side_at x.contiguous pc) (length x.contiguous) 0 (length x.contiguous)
            k at in
        inl (
          k,
          there,
          side_of-inside_inv pc f.low_high (sym (side_at-some x.contiguous pc k f there) ∙ within),
        )
