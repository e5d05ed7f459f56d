-- ===== src/Stops/Statements.antt =====
-- `statementStops` and `myCodeStops` of stops.ts: which run starts remain, and their order.
use stellar_debugger.Prelude.{
  ℕ, zero, suc, ◌+◌, ◌<◌, ◌≡◌, refl, sym, ap, ◌∙◌, ◌↔◌, ◌⊎◌, inl, inr, Bool, true, false, some,
  List, [], ◌∷◌, ◌++◌, length, get_elem?, get_elem?-total, arith, ◌==◌, ==→eq, Bool-cases,
  if◌then◌else◌, append-nil, append_assoc,
}
use stellar_debugger.Prelude.Sets.{
  has, has-get_elem?, get_elem?-has, AscendingIn, AscendingIn-widen,
}
use stellar_debugger.Stops.{
  LineRole, keeps, statement_loop, or_unfiltered, statement_stops, workspace_only, my_code_stops,
}
use mathlib.Core.Path.{subst}

-- The elements whose position, counted from `p`, passes the test.
abbrev filter_from : (ℕ → Bool) → ℕ → List ℕ → List ℕ
filter_from keep p [] = []
filter_from keep p (i ∷ rest) =
    let kept = filter_from keep (p + 1) rest in if keep p then i ∷ kept else kept

statement_loop-eq :
    (run_starts depths : List ℕ) (role_at : ℕ → LineRole) (rest : List ℕ) (p : ℕ) (result : List ℕ)
    → statement_loop run_starts depths role_at rest p result
      ≡ result ++ filter_from (keeps run_starts depths role_at) p rest
unfolding statement_loop
statement_loop-eq run_starts depths role_at [] p result = sym (append-nil result)
statement_loop-eq run_starts depths role_at (i ∷ rest) p result =
    statement_loop-eq run_starts depths role_at rest (p + 1) _
    ∙ push (keeps run_starts depths role_at p)
  where
    tail : List ℕ
    tail = filter_from (keeps run_starts depths role_at) (p + 1) rest

    push :
        (b : Bool)
        → (if b then result ++ i ∷ [] else result) ++ tail
          ≡ result ++ (if b then i ∷ tail else tail)
    push true = append_assoc result (i ∷ []) tail
    push false = refl

filter_from-AscendingIn :
    (keep : ℕ → Bool) (p lo hi : ℕ) (xs : List ℕ)
    → AscendingIn lo hi xs
    → AscendingIn lo hi (filter_from keep p xs)
filter_from-AscendingIn keep p lo hi [] h = h
filter_from-AscendingIn keep p lo hi (x ∷ xs) h =
    pick (keep p) (filter_from-AscendingIn keep (p + 1) (suc x) hi xs h.1)
  where
    pick :
        (b : Bool)
        → AscendingIn (suc x) hi (filter_from keep (p + 1) xs)
        → AscendingIn lo hi
            (if b then x ∷ filter_from keep (p + 1) xs else filter_from keep (p + 1) xs)
    pick true ih = (h.0, ih)
    pick false ih = AscendingIn-widen (suc x) lo hi hi _ (omega (arith, h.0)) (omega arith) ih

filter_from-has :
    (keep : ℕ → Bool) (p n : ℕ) (xs : List ℕ) {i : ℕ}
    → get_elem? xs n ≡ some i
    → keep (p + n) ≡ true
    → has (filter_from keep p xs) i ≡ true
filter_from-has keep p n [] h k = cc
filter_from-has keep p zero (x ∷ xs) h k =
    let k' : keep p ≡ true = subst (λ m. keep m ≡ true) (omega arith) k in ground (arith, k', h)
filter_from-has keep p (suc n) (x ∷ xs) h k =
    ground (arith, filter_from-has keep (p + 1) n xs h (subst (λ m. keep m ≡ true) (omega arith) k))

filter_from-has_inv :
    (keep : ℕ → Bool) (p : ℕ) (xs : List ℕ) (i : ℕ)
    → has (filter_from keep p xs) i ≡ true
    → (n : ℕ) × (get_elem? xs n ≡ some i) × (keep (p + n) ≡ true)
filter_from-has_inv keep p [] i h = cc
filter_from-has_inv keep p (x ∷ xs) i h = elim (Bool-cases (keep p)) [
  | inl k ↦ elim (Bool-cases (x == i)) [
    | inl e ↦ (0, ap some (==→eq x i e), subst (λ m. keep m ≡ true) (omega arith) k)
    | inr e ↦ later (filter_from-has_inv keep (p + 1) xs i (ground (arith, k, e, h)))
  ]
  | inr k ↦ later (filter_from-has_inv keep (p + 1) xs i (ground (arith, k, h)))
]
  where
    later :
        (n : ℕ) × (get_elem? xs n ≡ some i) × (keep (p + 1 + n) ≡ true)
        → (n : ℕ) × (get_elem? (x ∷ xs) n ≡ some i) × (keep (p + n) ≡ true)
    later (n, e, k) = (suc n, e, subst (λ m. keep m ≡ true) (omega arith) k)

-- Nothing is left exactly when no position passes.
filter_from-nil :
    (keep : ℕ → Bool) (p : ℕ) (xs : List ℕ)
    → ((q : ℕ) → q < length xs → keep (p + q) ≡ false)
    → filter_from keep p xs ≡ []
filter_from-nil keep p [] h = refl
filter_from-nil keep p (x ∷ xs) h =
    let here : keep p ≡ false = subst (λ m. keep m ≡ false) (omega arith) (h 0 (omega arith)) in
    rw here (
      filter_from-nil keep (p + 1) xs
        (λ q lt. subst (λ m. keep m ≡ false) (omega arith) (h (suc q) (omega arith))))

filter_from-nil_inv :
    (keep : ℕ → Bool) (p q : ℕ) (xs : List ℕ)
    → filter_from keep p xs ≡ []
    → q < length xs
    → keep (p + q) ≡ false
filter_from-nil_inv keep p q xs e lt = elim (Bool-cases (keep (p + q))) [
  | inl t ↦
      let (x, at) = get_elem?-total xs q lt in
      cc (filter_from-has keep p q xs at t, ap (λ l. has l x) e)
  | inr t ↦ t
]

-- What the source does with the two lists at the end, as far as order goes.
pub or_unfiltered-AscendingIn :
    (lo hi : ℕ) (result run_starts : List ℕ)
    → AscendingIn lo hi result
    → AscendingIn lo hi run_starts
    → AscendingIn lo hi (or_unfiltered result run_starts)
or_unfiltered-AscendingIn lo hi [] run_starts h k = k
or_unfiltered-AscendingIn lo hi (i ∷ result) run_starts h k = h

module _ (run_starts depths : List ℕ) (role_at : ℕ → LineRole) where
  stops-eq :
      statement_stops run_starts depths role_at
      ≡ or_unfiltered (filter_from (keeps run_starts depths role_at) 0 run_starts) run_starts
  unfolding statement_stops
  stops-eq =
      ap (λ r. or_unfiltered r run_starts)
        (statement_loop-eq run_starts depths role_at run_starts 0 [])

  -- The stop at position `p` passes the filter, or nothing passes it.
  abbrev pub PassesFilter : ℕ → Type 0
  PassesFilter p =
      (keeps run_starts depths role_at p ≡ true)
      ⊎ ((q : ℕ) → q < length run_starts → keeps run_starts depths role_at q ≡ false)

  or_unfiltered-has :
      (result : List ℕ) (i : ℕ)
      → has (or_unfiltered result run_starts) i ≡ true
      → (has result i ≡ true) ⊎ ((has run_starts i ≡ true) × (result ≡ []))
  or_unfiltered-has [] i h = inr (h, refl)
  or_unfiltered-has (r ∷ result) i h = inl h

  has-or_unfiltered :
      (result : List ℕ) (i : ℕ)
      → has result i ≡ true
      → has (or_unfiltered result run_starts) i ≡ true
  has-or_unfiltered [] i h = cc
  has-or_unfiltered (r ∷ result) i h = h

-- Where the run starts are ascending within bounds, so are the statement stops, and there are none
-- of these only if there is no run start.
pub statement_stops-AscendingIn :
    (run_starts depths : List ℕ) (role_at : ℕ → LineRole) (lo hi : ℕ)
    → AscendingIn lo hi run_starts
    → AscendingIn lo hi (statement_stops run_starts depths role_at)
      × (statement_stops run_starts depths role_at ≡ [] → run_starts ≡ [])
statement_stops-AscendingIn run_starts depths role_at lo hi h = (
  subst (AscendingIn lo hi) (sym (stops-eq run_starts depths role_at)) (
      or_unfiltered-AscendingIn lo hi _ run_starts (filter_from-AscendingIn _ 0 lo hi run_starts h)
        h),
  λ e.
      nonempty (filter_from (keeps run_starts depths role_at) 0 run_starts) run_starts
        (sym (stops-eq run_starts depths role_at) ∙ e),
)
  where
    nonempty : (result l : List ℕ) → or_unfiltered result l ≡ [] → l ≡ []
    nonempty [] l e = e
    nonempty (x ∷ r) l e = cc

-- A run start is a statement stop exactly when it passes the filter, or when no run start does.
pub has-statement_stops_iff :
    (run_starts depths : List ℕ) (role_at : ℕ → LineRole) (i : ℕ)
    → (has (statement_stops run_starts depths role_at) i ≡ true)
      ↔ ((p : ℕ) × (get_elem? run_starts p ≡ some i) × PassesFilter run_starts depths role_at p)
has-statement_stops_iff run_starts depths role_at i = (to, from)
  where
    keep : ℕ → Bool
    keep = keeps run_starts depths role_at

    kept : List ℕ
    kept = filter_from keep 0 run_starts

    to :
        has (statement_stops run_starts depths role_at) i ≡ true
        → (p : ℕ) × (get_elem? run_starts p ≡ some i) × PassesFilter run_starts depths role_at p
    to h =
        elim (or_unfiltered-has run_starts depths role_at kept i
          (ap (λ l. has l i) (sym (stops-eq run_starts depths role_at)) ∙ h)) [
            | inl m ↦
                let (n, at, k) = filter_from-has_inv keep 0 run_starts i m in
                (n, at, inl (subst (λ q. keep q ≡ true) (omega arith) k))
            | inr (m, e) ↦
                let (n, at) = get_elem?-has run_starts i m in
                (
                  n,
                  at,
                  inr (λ q lt.
                      subst (λ m. keep m ≡ false) (omega arith)
                        (filter_from-nil_inv keep 0 q run_starts e lt)),
                )
          ]

    from :
        (p : ℕ) × (get_elem? run_starts p ≡ some i) × PassesFilter run_starts depths role_at p
        → has (statement_stops run_starts depths role_at) i ≡ true
    from (p, at, inl k) =
        ap (λ l. has l i) (stops-eq run_starts depths role_at)
        ∙ has-or_unfiltered run_starts depths role_at kept i
            (filter_from-has keep 0 p run_starts at (subst (λ q. keep q ≡ true) (omega arith) k))
    from (p, at, inr all) =
        ap (λ l. has l i) (stops-eq run_starts depths role_at)
        ∙ ap (λ l. has (or_unfiltered l run_starts) i)
            (filter_from-nil keep 0 run_starts
              (λ q lt. subst (λ m. keep m ≡ false) (omega arith) (all q lt)))
        ∙ has-get_elem? run_starts p at

workspace_only-AscendingIn :
    (is_workspace : ℕ → Bool) (lo hi : ℕ) (xs : List ℕ)
    → AscendingIn lo hi xs
    → AscendingIn lo hi (workspace_only is_workspace xs)
unfolding workspace_only
workspace_only-AscendingIn is_workspace lo hi [] h = h
workspace_only-AscendingIn is_workspace lo hi (x ∷ xs) h =
    pick (is_workspace x) (workspace_only-AscendingIn is_workspace (suc x) hi xs h.1)
  where
    kept : List ℕ
    kept = workspace_only is_workspace xs

    pick :
        (b : Bool) → AscendingIn (suc x) hi kept → AscendingIn lo hi (if b then x ∷ kept else kept)
    pick true ih = (h.0, ih)
    pick false ih = AscendingIn-widen (suc x) lo hi hi kept (omega (arith, h.0)) (omega arith) ih

pub my_code_stops-AscendingIn :
    (xs : List ℕ) (is_workspace : ℕ → Bool) (lo hi : ℕ)
    → AscendingIn lo hi xs
    → AscendingIn lo hi (my_code_stops xs is_workspace)
unfolding my_code_stops
my_code_stops-AscendingIn xs is_workspace lo hi h =
    or_unfiltered-AscendingIn lo hi _ xs (workspace_only-AscendingIn is_workspace lo hi xs h) h
