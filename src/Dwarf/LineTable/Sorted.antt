-- ===== src/Dwarf/LineTable/Sorted.antt =====
-- The order of the line table of src/dwarf/LineTable.ts.
use stellar_debugger.Prelude.{
  ℕ, zero, suc, ◌+◌, ◌*◌, ◌≤◌, ◌<◌, ◌≡◌, refl, ap, ◌↔◌, inl, inr, Bool, true, false, not, ◌&&◌,
  ◌||◌, some, List, [], ◌∷◌, get_elem?, ltb, ◌==◌, if◌then◌else◌, arith,
}
use stellar_debugger.Prelude.Sort.{Holds, insert_by, sort_by, sort_by-Holds}
use stellar_debugger.Dwarf.LineTable.{LineEntry, comes_before, sort_entries}
use mathlib.Core.Path.{subst}

-- The order of the table: by address, an end_sequence row before the other rows of its address.
abbrev pub row_key : LineEntry → ℕ
row_key e = 2 * e.address + (if e.end_sequence then 0 else 1)

comes_before-lt : (a b : LineEntry) → comes_before a b ≡ true → row_key a < row_key b
unfolding comes_before
comes_before-lt a b h = go a.address b.address a.end_sequence b.end_sequence h
  where
    go :
        (m n : ℕ) (x y : Bool)
        → (ltb m n || m == n && x && not y) ≡ true
        → 2 * m + (if x then 0 else 1) < 2 * n + (if y then 0 else 1)
    go m n true true e = ground (arith, e)
    go m n true false e = ground (arith, e)
    go m n false true e = ground (arith, e)
    go m n false false e = ground (arith, e)

comes_before-false : (a b : LineEntry) → comes_before a b ≡ false → row_key b ≤ row_key a
unfolding comes_before
comes_before-false a b h = go a.address b.address a.end_sequence b.end_sequence h
  where
    go :
        (m n : ℕ) (x y : Bool)
        → (ltb m n || m == n && x && not y) ≡ false
        → 2 * n + (if y then 0 else 1) ≤ 2 * m + (if x then 0 else 1)
    go m n true true e = ground (arith, e)
    go m n true false e = ground (arith, e)
    go m n false true e = ground (arith, e)
    go m n false false e = ground (arith, e)

abbrev pub Has : List LineEntry → LineEntry → Type 0
Has l e = Holds l e

pub sort_entries-Has : (x : LineEntry) (l : List LineEntry) → Has (sort_entries l) x ↔ Has l x
unfolding sort_entries
sort_entries-Has x l = sort_by-Holds comes_before x l

-- Sorted by the key, from a bound on.
abbrev pub SortedFrom : ℕ → List LineEntry → Type 0
SortedFrom n [] = Unit {0}
SortedFrom n (e ∷ l) = (n ≤ row_key e) × SortedFrom (row_key e) l

insert_by-SortedFrom :
    (n : ℕ) (e : LineEntry) (l : List LineEntry)
    → n ≤ row_key e
    → SortedFrom n l
    → SortedFrom n (insert_by comes_before e l)
unfolding insert_by
insert_by-SortedFrom n e [] h s = (h, tt)
insert_by-SortedFrom n e (y ∷ l) h s =
    pick (comes_before y e) refl (λ lt. insert_by-SortedFrom (row_key y) e l lt s.1)
  where
    pick :
        (b : Bool)
        → comes_before y e ≡ b
        → (row_key y ≤ row_key e → SortedFrom (row_key y) (insert_by comes_before e l))
        → SortedFrom n (if b then y ∷ insert_by comes_before e l else e ∷ y ∷ l)
    pick true t ih = (s.0, ih (omega (arith, comes_before-lt y e t)))
    pick false t ih = (h, (comes_before-false y e t, s.1))

sort_by-SortedFrom : (l : List LineEntry) → SortedFrom 0 (sort_by comes_before l)
unfolding sort_by
sort_by-SortedFrom [] = tt
sort_by-SortedFrom (e ∷ l) =
    insert_by-SortedFrom 0 e (sort_by comes_before l) (omega arith) (sort_by-SortedFrom l)

pub sort_entries-SortedFrom : (l : List LineEntry) → SortedFrom 0 (sort_entries l)
unfolding sort_entries
sort_entries-SortedFrom l = sort_by-SortedFrom l

pub Has-get_elem? :
    (l : List LineEntry) (x : LineEntry) → Has l x → (i : ℕ) × (get_elem? l i ≡ some x)
Has-get_elem? [] x h = absurd h
Has-get_elem? (y ∷ l) x (inl q) = (0, ap some q)
Has-get_elem? (y ∷ l) x (inr h) = let (i, at) = Has-get_elem? l x h in (suc i, at)

pub get_elem?-Has : (l : List LineEntry) (i : ℕ) (x : LineEntry) → get_elem? l i ≡ some x → Has l x
get_elem?-Has [] i x h = cc
get_elem?-Has (y ∷ l) zero x h = inl (cc)
get_elem?-Has (y ∷ l) (suc i) x h = inr (get_elem?-Has l i x h)

SortedFrom-bound :
    (n : ℕ) (l : List LineEntry) (j : ℕ) (x : LineEntry)
    → SortedFrom n l
    → get_elem? l j ≡ some x
    → n ≤ row_key x
SortedFrom-bound n [] j x s h = cc
SortedFrom-bound n (y ∷ l) zero x s h = subst (λ e. n ≤ row_key e) (some_eq h) s.0
  where
    some_eq : some y ≡ some x → y ≡ x
    some_eq e = cc
SortedFrom-bound n (y ∷ l) (suc j) x s h =
    omega (arith, s.0, SortedFrom-bound (row_key y) l j x s.1 h)

pub SortedFrom-le :
    (n : ℕ) (l : List LineEntry) (i j : ℕ) (x y : LineEntry)
    → SortedFrom n l
    → i ≤ j
    → get_elem? l i ≡ some x
    → get_elem? l j ≡ some y
    → row_key x ≤ row_key y
SortedFrom-le n [] i j x y s h p q = cc
SortedFrom-le n (z ∷ l) (suc i) zero x y s h p q = absurd (omega arith)
SortedFrom-le n (z ∷ l) (suc i) (suc j) x y s h p q =
    SortedFrom-le (row_key z) l i j x y s.1 (omega arith) p q
SortedFrom-le n (z ∷ l) zero j x y s h p q =
    subst (λ e. row_key e ≤ row_key y) (some_eq p)
      (SortedFrom-bound (row_key z) (z ∷ l) j y (omega arith, s.1) q)
  where
    some_eq : some z ≡ some x → z ≡ x
    some_eq e = cc
