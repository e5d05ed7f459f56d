-- ===== src/Dwarf/LineTable/Lookup.antt =====
-- The lookup in the line table of src/dwarf/LineTable.ts.
use stellar_debugger.Prelude.{
  ℕ, ◌+◌, ◌*◌, ◌≤◌, ◌<◌, ◌≡◌, refl, sym, ap, ◌∙◌, ◌⊎◌, inl, inr, Bool, true, false, Option, none,
  some, List, length, get_elem?, get_elem?-lt, get_elem?-total, ltb, leb, leb→le, leb-false,
  if◌then◌else◌, arith, tests, Bool-cases,
}
use stellar_debugger.Prelude.Search.{IsLast, bisect-IsLast}
use stellar_debugger.Dwarf.LineTable.{
  LineEntry, sort_entries, starts_by_offset, mapped_entry, found_entry, lookup_entry,
}
use stellar_debugger.Dwarf.LineTable.Sorted.{
  row_key, Has, SortedFrom, SortedFrom-le, sort_entries-Has, sort_entries-SortedFrom, Has-get_elem?,
  get_elem?-Has,
}

-- A row at or below the offset with the greatest address there is, and no end_sequence row if
-- another row has that address.
abbrev pub IsCovering : List LineEntry → ℕ → LineEntry → Type 0
IsCovering raw offset e =
    Has raw e
    × (e.address ≤ offset)
    × ((x : LineEntry) → Has raw x → x.address ≤ offset → row_key x ≤ row_key e)

abbrev pub IsLookup : List LineEntry → ℕ → Option LineEntry → Type 0
IsLookup raw offset result =
    ((e : LineEntry) × IsCovering raw offset e
      × (result ≡ (if e.end_sequence then none else some e)))
    ⊎ (((x : LineEntry) → Has raw x → offset < x.address) × (result ≡ none))

address-le : (x y : LineEntry) → row_key x ≤ row_key y → x.address ≤ y.address
address-le x y h = go x.address y.address x.end_sequence y.end_sequence h
  where
    go :
        (m n : ℕ) (b c : Bool) → 2 * m + (if b then 0 else 1) ≤ 2 * n + (if c then 0 else 1) → m ≤ n
    go m n true true e = omega arith
    go m n true false e = omega arith
    go m n false true e = omega arith
    go m n false false e = omega arith

test_at :
    (t : List LineEntry) (offset i : ℕ) (x : LineEntry)
    → get_elem? t i ≡ some x
    → starts_by_offset t offset i ≡ leb x.address offset
test_at t offset i x e = ap (λ o. elim o [ none ↦ false | some y ↦ leb y.address offset ]) e

module _ (raw : List LineEntry) (offset : ℕ) where
  starts-closed :
      (t : List LineEntry) (i j : ℕ)
      → SortedFrom 0 t
      → i ≤ j
      → j < length t
      → starts_by_offset t offset i ≡ false
      → starts_by_offset t offset j ≡ false
  starts-closed t i j s le lt h =
      let (x, atx) = get_elem?-total t i (omega arith) in
      let (y, aty) = get_elem?-total t j lt in
      let order = address-le x y (SortedFrom-le 0 t i j x y s le atx aty) in
      let over = leb-false x.address offset (sym (test_at t offset i x atx) ∙ h) in
      test_at t offset j y aty ∙ above y.address (omega arith)
    where
      above : (m : ℕ) → offset < m → leb m offset ≡ false
      above m h = ground arith

  found-IsLookup :
      (r : Option ℕ)
      → IsLast (starts_by_offset (sort_entries raw) offset) (length (sort_entries raw)) r
      → IsLookup raw offset (mapped_entry (found_entry (sort_entries raw) r))
  unfolding mapped_entry found_entry
  found-IsLookup none last = inr (
    (λ x h.
        let (i, at) = Has-get_elem? (sort_entries raw) x ((sort_entries-Has x raw).1 h) in
        leb-false x.address offset (
          sym (test_at (sort_entries raw) offset i x at)
          ∙ last i (get_elem?-lt (sort_entries raw) i at))),
    refl,
  )
  found-IsLookup (some k) (lt, here, after) =
      let (e, at) = get_elem?-total (sort_entries raw) k lt in
      inl (e, covering e at, ap mapped_entry at)
    where
      covering : (e : LineEntry) → get_elem? (sort_entries raw) k ≡ some e → IsCovering raw offset e
      covering e at = (
        (sort_entries-Has e raw).0 (get_elem?-Has (sort_entries raw) k e at),
        leb→le e.address offset (sym (test_at (sort_entries raw) offset k e at) ∙ here),
        λ x h low.
            let (j, atj) = Has-get_elem? (sort_entries raw) x ((sort_entries-Has x raw).1 h) in
            elim (Bool-cases (ltb k j)) [
              | inl t ↦ absurd (
                  missed x j atj low
                    (after j (omega (tests, t)) (get_elem?-lt (sort_entries raw) j atj)))
              | inr t ↦
                  SortedFrom-le 0 (sort_entries raw) j k x e (sort_entries-SortedFrom raw)
                    (omega (tests, t)) atj at
            ],
      )
        where
          missed :
              (x : LineEntry) (j : ℕ)
              → get_elem? (sort_entries raw) j ≡ some x
              → x.address ≤ offset
              → starts_by_offset (sort_entries raw) offset j ≡ false
              → ⊥
          missed x j atj low h =
              let over =
                leb-false x.address offset (sym (test_at (sort_entries raw) offset j x atj) ∙ h) in
              omega arith

-- In the sorted table of any rows, a lookup finds a row at the greatest address that is not above
-- the offset: null when that address has end_sequence rows only, or when no row is at or below the
-- offset.
pub lookup_entry-IsLookup :
    (raw : List LineEntry) (offset : ℕ)
    → IsLookup raw offset (lookup_entry (sort_entries raw) offset)
unfolding lookup_entry
lookup_entry-IsLookup raw offset = found-IsLookup raw offset _ (
    bisect-IsLast (starts_by_offset (sort_entries raw) offset) (length (sort_entries raw))
      (λ i j le lt h.
        starts-closed raw offset (sort_entries raw) i j (sort_entries-SortedFrom raw) le lt h))
