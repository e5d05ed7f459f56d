-- ===== src/Frames/Ranges.antt =====
-- `functionIndexAt` of stops.ts against containment, and the sort of the ranges.
use stellar_debugger.Prelude.{
  ℕ, zero, suc, ◌≤◌, ◌<◌, ◌≡◌, refl, ap, ◌↔◌, inl, inr, false, Option, none, some, List, [], ◌∷◌,
  length, get_elem?, get_elem?-lt, get_elem?-total, ltb, leb, arith, tests, Bool-cases,
  if◌then◌else◌,
}
use stellar_debugger.Prelude.Search.{bisect, IsLast, bisect-IsLast}
use stellar_debugger.Frames.{
  FunctionRange, starts_by, keep_candidate, function_index_at, insert_range, sort_ranges,
}

-- Sorted by start.
abbrev pub StartsFrom : ℕ → List FunctionRange → Type 0
StartsFrom n [] = Unit
StartsFrom n (r ∷ rest) = (n ≤ r.start) × StartsFrom r.start rest

-- Sorted, and each body ends before the next one starts.
abbrev pub DisjointFrom : ℕ → List FunctionRange → Type 0
DisjointFrom n [] = Unit
DisjointFrom n (r ∷ rest) = (n ≤ r.start) × (r.start ≤ r.end) × DisjointFrom r.end rest

-- The range with this index contains `pos`.
abbrev pub Contains : List FunctionRange → ℕ → ℕ → Type 0
Contains ranges pos k =
    (r : FunctionRange) × (get_elem? ranges k ≡ some r) × (r.start ≤ pos) × (pos < r.end)

insert_range-StartsFrom :
    (n : ℕ) (r : FunctionRange) (rest : List FunctionRange)
    → n ≤ r.start
    → StartsFrom n rest
    → StartsFrom n (insert_range r rest)
unfolding insert_range
insert_range-StartsFrom n r [] h s = (h, tt)
insert_range-StartsFrom n r (q ∷ rest) h s = elim (Bool-cases (leb r.start q.start)) [
  | inl t ↦ rw t (h, (omega (tests, t), s.1))
  | inr t ↦ rw t (s.0, insert_range-StartsFrom q.start r rest (omega (tests, t)) s.1)
]

pub sort_ranges-StartsFrom : (ranges : List FunctionRange) → StartsFrom 0 (sort_ranges ranges)
unfolding sort_ranges
sort_ranges-StartsFrom [] = tt
sort_ranges-StartsFrom (r ∷ rest) =
    insert_range-StartsFrom 0 r (sort_ranges rest) (omega arith) (sort_ranges-StartsFrom rest)

DisjointFrom-StartsFrom :
    (n : ℕ) (ranges : List FunctionRange) → DisjointFrom n ranges → StartsFrom n ranges
DisjointFrom-StartsFrom n [] h = tt
DisjointFrom-StartsFrom n (r ∷ rest) (h, ok, d) =
    (h, weaken r.start r.end rest ok (DisjointFrom-StartsFrom r.end rest d))
  where
    weaken : (m n : ℕ) (l : List FunctionRange) → m ≤ n → StartsFrom n l → StartsFrom m l
    weaken m n [] le s = tt
    weaken m n (q ∷ l) le s = (omega arith, s.1)

-- In a sorted list a range that starts after `pos` is followed by such ranges only.
starts_by-closed :
    (n : ℕ) (ranges : List FunctionRange) (pos i j : ℕ)
    → StartsFrom n ranges
    → i ≤ j
    → j < length ranges
    → starts_by ranges pos i ≡ false
    → starts_by ranges pos j ≡ false
starts_by-closed n [] pos i j s le lt h = refl
starts_by-closed n (r ∷ rest) pos (suc i) zero s le lt h = absurd (omega arith)
starts_by-closed n (r ∷ rest) pos (suc i) (suc j) s le lt h =
    starts_by-closed r.start rest pos i j s.1 (omega arith) (omega arith) h
starts_by-closed n (r ∷ rest) pos zero zero s le lt h = h
starts_by-closed n (r ∷ rest) pos zero (suc j) s le lt h =
    after r.start rest j s.1 (omega tests) (omega arith)
  where
    after :
        (n : ℕ) (l : List FunctionRange) (j : ℕ)
        → StartsFrom n l
        → pos < n
        → j < length l
        → starts_by l pos j ≡ false
    after n [] j s p lt = refl
    after n (q ∷ l) zero s p lt = ground arith
    after n (q ∷ l) (suc j) s p lt = after q.start l j s.1 (omega arith) (omega arith)

-- Containment picks out the last range that starts at or before `pos`.
later_start :
    (n : ℕ) (ranges : List FunctionRange) (pos k j : ℕ) (r q : FunctionRange)
    → DisjointFrom n ranges
    → get_elem? ranges k ≡ some r
    → pos < r.end
    → k < j
    → get_elem? ranges j ≡ some q
    → pos < q.start
later_start n [] pos k j r q d hk lt kj hj = cc
later_start n (x ∷ rest) pos (suc k) (suc j) r q d hk lt kj hj =
    later_start x.end rest pos k j r q d.2 hk lt (omega arith) hj
later_start n (x ∷ rest) pos zero (suc j) r q d hk lt kj hj =
    omega (arith, bound x.end rest j d.2 hj, ap FunctionRange.end (some_eq hk))
  where
    some_eq : {a b : FunctionRange} → some a ≡ some b → a ≡ b
    some_eq e = cc

    bound :
        (n : ℕ) (l : List FunctionRange) (j : ℕ)
        → DisjointFrom n l
        → get_elem? l j ≡ some q
        → n ≤ q.start
    bound n [] j d e = cc
    bound n (y ∷ l) zero d e = omega (arith, d.0, ap FunctionRange.start (some_eq e))
    bound n (y ∷ l) (suc j) d e = omega (arith, d.0, d.1, bound y.end l j d.2 e)
later_start n (x ∷ rest) pos (suc k) zero r q d hk lt kj hj = absurd (omega arith)
later_start n (x ∷ rest) pos zero zero r q d hk lt kj hj = absurd (omega arith)

keep_candidate-Contains :
    (ranges : List FunctionRange) (pos k : ℕ) (c : Option ℕ)
    → IsLast (starts_by ranges pos) (length ranges) c
    → keep_candidate ranges pos c ≡ some k
    → Contains ranges pos k
unfolding keep_candidate
keep_candidate-Contains ranges pos k none last h = cc
keep_candidate-Contains ranges pos k (some m) (lt, at, above) h =
    let (r, e) = get_elem?-total ranges m lt in
    (r, ground (arith, e), ground (arith, e, at), ground (arith, e))

Contains-keep_candidate :
    (ranges : List FunctionRange) (pos k : ℕ) (c : Option ℕ)
    → DisjointFrom 0 ranges
    → IsLast (starts_by ranges pos) (length ranges) c
    → Contains ranges pos k
    → keep_candidate ranges pos c ≡ some k
unfolding keep_candidate
Contains-keep_candidate ranges pos k none d last (r, e, lo, hi) =
    let missed : starts_by ranges pos k ≡ false = last k (get_elem?-lt ranges k e) in
    absurd (ground (arith, e, missed))
Contains-keep_candidate ranges pos k (some m) d (lt, at, above) (r, e, lo, hi) =
    elim (Bool-cases (ltb k m)) [
      | inl t ↦ absurd (omega (arith, past (omega (tests, t)), at_m))
      | inr t ↦ elim (Bool-cases (ltb m k)) [
        | inl u ↦
            let missed : starts_by ranges pos k ≡ false =
              above k (omega (tests, u)) (get_elem?-lt ranges k e) in
            absurd (ground (arith, e, missed))
        | inr u ↦ same (omega (tests, t, u))
      ]
    ]
  where
    q : FunctionRange
    q = (get_elem?-total ranges m lt).0

    at_q : get_elem? ranges m ≡ some q
    at_q = (get_elem?-total ranges m lt).1

    at_m : q.start ≤ pos
    at_m = ground (arith, at_q, at)

    past : k < m → pos < q.start
    past km = later_start 0 ranges pos k m r q d e hi km at_q

    same :
        m ≡ k
        → (elim (get_elem? ranges m) [
          | none ↦ none
          | some x ↦ if ltb pos x.end then some m else none
        ])
          ≡ some k
    same mk = rw mk (ground (arith, e))

search-IsLast :
    (ranges : List FunctionRange) (pos : ℕ)
    → StartsFrom 0 ranges
    → IsLast
        (starts_by ranges pos)
        (length ranges)
        (bisect (starts_by ranges pos) (length ranges) 0 (length ranges) none)
search-IsLast ranges pos s =
    bisect-IsLast (starts_by ranges pos) (length ranges)
      (λ i j le lt h. starts_by-closed 0 ranges pos i j s le lt h)

-- In sorted ranges that do not overlap, the binary search returns an index exactly when the range
-- with that index contains the position.
pub function_index_at-iff-Contains :
    (ranges : List FunctionRange) (pos k : ℕ)
    → DisjointFrom 0 ranges
    → (function_index_at ranges pos ≡ some k) ↔ Contains ranges pos k
unfolding function_index_at
function_index_at-iff-Contains ranges pos k d =
    let last = search-IsLast ranges pos (DisjointFrom-StartsFrom 0 ranges d) in
    (keep_candidate-Contains ranges pos k _ last, Contains-keep_candidate ranges pos k _ d last)
