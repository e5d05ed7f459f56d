-- ===== src/StopModel/Positions.antt =====
-- The visible indices and the position map of `buildStopModel`.
use stellar_debugger.Prelude.{
  ℕ, zero, suc, ◌+◌, ◌≡◌, refl, sym, ap, ◌∙◌, ◌↔◌, inl, inr, Bool, true, false, Option, none, some,
  List, [], ◌∷◌, ◌++◌, length, get_elem?, ◌==◌, ==→eq, arith, tests, Bool-cases, if◌then◌else◌,
  append-nil, append_assoc,
}
use stellar_debugger.Prelude.Sets.{has, AscendingIn, AscendingIn-widen}
use stellar_debugger.Trace.{TraceRecord}
use stellar_debugger.Frames.{FunctionRange}
use stellar_debugger.StopModel.{
  IndexMap, indices_of, add_index, index_loop, SourceMapper, build_stop_model,
}
use mathlib.Core.Path.{subst}

-- The indices from `i` on whose element passes the test.
abbrev where_at : (Option ℕ → Bool) → ℕ → List (Option ℕ) → List ℕ
where_at test i [] = []
where_at test i (o ∷ rest) =
    let later = where_at test (i + 1) rest in if test o then i ∷ later else later

abbrev is_visible : Option ℕ → Bool
is_visible none = false
is_visible (some pos) = true

abbrev is_pos : ℕ → Option ℕ → Bool
is_pos pos none = false
is_pos pos (some p) = p == pos

where_at-AscendingIn :
    (test : Option ℕ → Bool) (i n : ℕ) (rest : List (Option ℕ))
    → i + length rest ≡ n
    → AscendingIn i n (where_at test i rest)
where_at-AscendingIn test i n [] h = omega arith
where_at-AscendingIn test i n (o ∷ rest) h =
    pick (test o) (where_at-AscendingIn test (i + 1) n rest (omega arith))
  where
    later : List ℕ
    later = where_at test (i + 1) rest

    pick :
        (b : Bool) → AscendingIn (i + 1) n later → AscendingIn i n (if b then i ∷ later else later)
    pick true ih =
        (omega arith, AscendingIn-widen (i + 1) (suc i) n n later (omega arith) (omega arith) ih)
    pick false ih = AscendingIn-widen (i + 1) i n n later (omega arith) (omega arith) ih

has-where_at :
    (test : Option ℕ → Bool) (i k : ℕ) (rest : List (Option ℕ)) {o : Option ℕ}
    → get_elem? rest k ≡ some o
    → test o ≡ true
    → has (where_at test i rest) (i + k) ≡ true
has-where_at test i k [] h t = cc
has-where_at test i zero (x ∷ rest) h t = let t' : test x ≡ true = cc in ground (arith, t')
has-where_at test i (suc k) (x ∷ rest) h t =
    let ih = has-where_at test (i + 1) k rest h t in
    let e : i + 1 + k ≡ i + suc k = omega arith in
    let ih' = subst (λ a. has (where_at test (i + 1) rest) a ≡ true) e ih in ground (arith, ih')

has-where_at_inv :
    (test : Option ℕ → Bool) (i a : ℕ) (rest : List (Option ℕ))
    → has (where_at test i rest) a ≡ true
    → (k : ℕ) × (o : Option ℕ) × (i + k ≡ a) × (get_elem? rest k ≡ some o) × (test o ≡ true)
has-where_at_inv test i a [] h = cc
has-where_at_inv test i a (x ∷ rest) h = elim (Bool-cases (test x)) [
  | inl t ↦ elim (Bool-cases (i == a)) [
    | inl e ↦ (0, x, omega (tests, ==→eq i a e), refl, t)
    | inr e ↦ later (has-where_at_inv test (i + 1) a rest (ground (arith, t, e, h)))
  ]
  | inr t ↦ later (has-where_at_inv test (i + 1) a rest (ground (arith, t, h)))
]
  where
    later :
        (k : ℕ) × (o : Option ℕ) × (i + 1 + k ≡ a) × (get_elem? rest k ≡ some o) × (test o ≡ true)
        → (k : ℕ) × (o : Option ℕ) × (i + k ≡ a)
          × (get_elem? (x ∷ rest) k ≡ some o)
          × (test o ≡ true)
    later (k, o, e, at, t) = (suc k, o, omega arith, at, t)

indices_of-add_index :
    (m : IndexMap) (pos i q : ℕ)
    → indices_of (add_index m pos i) q
      ≡ (if pos == q then indices_of m q ++ i ∷ [] else indices_of m q)
unfolding indices_of add_index
indices_of-add_index [] pos i q = ground arith
indices_of-add_index ((p, l) ∷ m) pos i q = ground (arith, indices_of-add_index m pos i q)

index_loop-visible :
    (rest : List (Option ℕ)) (i : ℕ) (m : IndexMap) (visible : List ℕ)
    → (index_loop rest i m visible).1 ≡ visible ++ where_at is_visible i rest
unfolding index_loop
index_loop-visible [] i m visible = sym (append-nil visible)
index_loop-visible (none ∷ rest) i m visible = index_loop-visible rest (i + 1) m visible
index_loop-visible (some pos ∷ rest) i m visible =
    index_loop-visible rest (i + 1) (add_index m pos i) (visible ++ i ∷ [])
    ∙ append_assoc visible (i ∷ []) (where_at is_visible (i + 1) rest)

index_loop-map :
    (rest : List (Option ℕ)) (i : ℕ) (m : IndexMap) (visible : List ℕ) (q : ℕ)
    → indices_of (index_loop rest i m visible).0 q ≡ indices_of m q ++ where_at (is_pos q) i rest
unfolding index_loop
index_loop-map [] i m visible q = sym (append-nil (indices_of m q))
index_loop-map (none ∷ rest) i m visible q = index_loop-map rest (i + 1) m visible q
index_loop-map (some pos ∷ rest) i m visible q =
    index_loop-map rest (i + 1) (add_index m pos i) (visible ++ i ∷ []) q
    ∙ ap (λ l. l ++ where_at (is_pos q) (i + 1) rest) (indices_of-add_index m pos i q)
    ∙ push (pos == q)
  where
    later : List ℕ
    later = where_at (is_pos q) (i + 1) rest

    push :
        (b : Bool)
        → (if b then indices_of m q ++ i ∷ [] else indices_of m q) ++ later
          ≡ indices_of m q ++ (if b then i ∷ later else later)
    push true = append_assoc (indices_of m q) (i ∷ []) later
    push false = refl

-- The numbers in `l` are the indices of the positions that pass, in ascending order.
abbrev pub Selects : List (Option ℕ) → (Option ℕ → Type 0) → List ℕ → Type 0
Selects positions P l =
    AscendingIn 0 (length positions) l
    × ((i : ℕ) → (has l i ≡ true) ↔ ((o : Option ℕ) × (get_elem? positions i ≡ some o) × P o))

where_at-Selects :
    (test : Option ℕ → Bool) (P : Option ℕ → Type 0) (positions : List (Option ℕ))
    → ((o : Option ℕ) → (test o ≡ true) ↔ P o)
    → Selects positions P (where_at test 0 positions)
where_at-Selects test P positions iff = (
  where_at-AscendingIn test 0 (length positions) positions (omega arith),
  λ i. (
    λ h.
        let (k, o, e, at, t) = has-where_at_inv test 0 i positions h in
        (o, subst (λ a. get_elem? positions a ≡ some o) (omega arith) at, (iff o).0 t),
    λ s.
        subst (λ a. has (where_at test 0 positions) a ≡ true) (omega arith)
          (has-where_at test 0 i positions s.1 ((iff s.0).1 s.2)),
  ),
)

-- The position is visible, and it is `pos`.
abbrev pub IsVisible : Option ℕ → Type 0
IsVisible none = ⊥
IsVisible (some pos) = Unit

IsVisible-iff : (o : Option ℕ) → (is_visible o ≡ true) ↔ IsVisible o
IsVisible-iff none = ((λ h. cc), λ h. absurd h)
IsVisible-iff (some pos) = ((λ h. tt), λ h. refl)

pos_iff : (pos : ℕ) (o : Option ℕ) → (is_pos pos o ≡ true) ↔ (o ≡ some pos)
pos_iff pos none = ((λ h. cc), λ h. cc)
pos_iff pos (some p) = ((λ h. ap some (==→eq p pos h)), λ h. ground (arith, h))

-- The stop model's visible indices are, in ascending order, the indices of all positions that are
-- not null, and its map gives for each offset, in ascending order, the indices that have it.
pub build_stop_model-indices :
    (normalize : List ℕ → List ℕ) (records : List TraceRecord) (positions : List (Option ℕ))
    (ranges : List FunctionRange) (source : SourceMapper) (mine : Bool)
    → Selects positions IsVisible
        (build_stop_model normalize records positions ranges source mine).visible_indices
      × ((pos : ℕ)
          → Selects positions
              (λ o. o ≡ some pos)
              (indices_of
                (build_stop_model normalize records positions ranges source
                  mine).validated_pos_to_indices
                pos))
unfolding build_stop_model
build_stop_model-indices normalize records positions ranges source mine = (
  subst (Selects positions IsVisible) (sym (index_loop-visible positions 0 [] []))
      (where_at-Selects is_visible IsVisible positions IsVisible-iff),
  λ pos.
      subst (Selects positions (λ o. o ≡ some pos))
        (sym (index_loop-map positions 0 [] [] pos ∙ empty pos))
        (where_at-Selects (is_pos pos) (λ o. o ≡ some pos) positions (pos_iff pos)),
)
  where
    empty :
        (pos : ℕ)
        → indices_of [] pos ++ where_at (is_pos pos) 0 positions ≡ where_at (is_pos pos) 0 positions
    empty pos = unfold indices_of in refl
