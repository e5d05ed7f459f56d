-- ===== src/Stops/SameFrame.antt =====
-- The frame scan of `statementStops` in stops.ts, `otherSameDepthStopInFrame`.
use stellar_debugger.Prelude.{
  ℕ, zero, suc, ◌+◌, ◌-◌, ◌≤◌, ◌<◌, ◌≡◌, ◌↔◌, ◌⊎◌, inl, inr, true, ◌&&◌, ◌||◌, List, length, arith,
  tests, ltb, ◌==◌, Bool-cases,
}
use stellar_debugger.Stops.{
  LineRole, stop_depth, is_kept_stop, kept_after, kept_before, other_same_depth_stop,
}
use mathlib.Core.Path.{subst}

module _ (run_starts depths : List ℕ) (role_at : ℕ → LineRole) where
  -- Another stop of the same frame: same depth, kept, and no shallower run start on the way.
  abbrev KeptAfter : ℕ → ℕ → ℕ → Type 0
  KeptAfter d p n =
      (q : ℕ) × (p ≤ q)
      × (q < p + n)
      × (stop_depth run_starts depths role_at q ≡ d)
      × (is_kept_stop run_starts depths role_at q ≡ true)
      × ((m : ℕ) → p ≤ m → m < q → d ≤ stop_depth run_starts depths role_at m)

  abbrev KeptBefore : ℕ → ℕ → Type 0
  KeptBefore d p =
      (q : ℕ) × (q < p)
      × (stop_depth run_starts depths role_at q ≡ d)
      × (is_kept_stop run_starts depths role_at q ≡ true)
      × ((m : ℕ) → q < m → m < p → d ≤ stop_depth run_starts depths role_at m)

  kept_after_sound :
      (d p n : ℕ) → kept_after run_starts depths role_at d p n ≡ true → KeptAfter d p n
  unfolding kept_after
  kept_after_sound d p zero h = cc
  kept_after_sound d p (suc n) h =
      elim (Bool-cases (ltb (stop_depth run_starts depths role_at p) d)) [
        | inl t ↦ absurd (ground (arith, t, h))
        | inr t ↦
            elim (Bool-cases (
              stop_depth run_starts depths role_at p == d
              && is_kept_stop run_starts depths role_at p)) [
                | inl u ↦ (
                  p,
                  omega arith,
                  omega arith,
                  ground (arith, u),
                  ground (arith, u),
                  λ m lo hi. absurd (omega arith),
                )
                | inr u ↦
                    next (kept_after_sound d (p + 1) n (ground (arith, t, u, h))) (omega (tests, t))
              ]
      ]
    where
      next :
          KeptAfter d (p + 1) n → d ≤ stop_depth run_starts depths role_at p → KeptAfter d p (suc n)
      next (q, lo, hi, e, k, all) here = (
        q,
        omega arith,
        omega arith,
        e,
        k,
        λ m l u. elim (Bool-cases (ltb p m)) [
          | inl t ↦ all m (omega (tests, t)) u
          | inr t ↦ subst (λ x. d ≤ stop_depth run_starts depths role_at x) (omega (tests, t)) here
        ],
      )

  kept_after_complete :
      (d p n : ℕ) → KeptAfter d p n → kept_after run_starts depths role_at d p n ≡ true
  unfolding kept_after
  kept_after_complete d p zero (q, lo, hi, e, k, all) = absurd (omega arith)
  kept_after_complete d p (suc n) (q, lo, hi, e, k, all) = elim (Bool-cases (ltb p q)) [
    | inl t ↦
        let here : d ≤ stop_depth run_starts depths role_at p =
          all p (omega arith) (omega (tests, t)) in
        ground (
          arith,
          here,
          kept_after_complete d (p + 1) n
              (q, omega (tests, t), omega arith, e, k, λ m l u. all m (omega arith) u),
        )
    | inr t ↦
        let same : q ≡ p = omega (tests, t) in
        here (subst (λ x. stop_depth run_starts depths role_at x ≡ d) same e)
          (subst (λ x. is_kept_stop run_starts depths role_at x ≡ true) same k)
  ]
    where
      here :
          stop_depth run_starts depths role_at p ≡ d
          → is_kept_stop run_starts depths role_at p ≡ true
          → kept_after run_starts depths role_at d p (suc n) ≡ true
      here x y = ground (arith, x, y)

  kept_before_sound : (d p : ℕ) → kept_before run_starts depths role_at d p ≡ true → KeptBefore d p
  unfolding kept_before
  kept_before_sound d zero h = cc
  kept_before_sound d (suc p) h =
      elim (Bool-cases (ltb (stop_depth run_starts depths role_at p) d)) [
        | inl t ↦ absurd (ground (arith, t, h))
        | inr t ↦
            elim (Bool-cases (
              stop_depth run_starts depths role_at p == d
              && is_kept_stop run_starts depths role_at p)) [
                | inl u ↦ (
                  p,
                  omega arith,
                  ground (arith, u),
                  ground (arith, u),
                  λ m lo hi. absurd (omega arith),
                )
                | inr u ↦ next (kept_before_sound d p (ground (arith, t, u, h))) (omega (tests, t))
              ]
      ]
    where
      next : KeptBefore d p → d ≤ stop_depth run_starts depths role_at p → KeptBefore d (suc p)
      next (q, lo, e, k, all) here = (
        q,
        omega arith,
        e,
        k,
        λ m l u. elim (Bool-cases (ltb m p)) [
          | inl t ↦ all m l (omega (tests, t))
          | inr t ↦ subst (λ x. d ≤ stop_depth run_starts depths role_at x) (omega (tests, t)) here
        ],
      )

  kept_before_complete :
      (d p : ℕ) → KeptBefore d p → kept_before run_starts depths role_at d p ≡ true
  unfolding kept_before
  kept_before_complete d zero (q, lo, e, k, all) = absurd (omega arith)
  kept_before_complete d (suc p) (q, lo, e, k, all) = elim (Bool-cases (ltb q p)) [
    | inl t ↦
        let here : d ≤ stop_depth run_starts depths role_at p =
          all p (omega (tests, t)) (omega arith) in
        ground (
          arith,
          here,
          kept_before_complete d p (q, omega (tests, t), e, k, λ m l u. all m l (omega arith)),
        )
    | inr t ↦
        let same : q ≡ p = omega (tests, t) in
        here (subst (λ x. stop_depth run_starts depths role_at x ≡ d) same e)
          (subst (λ x. is_kept_stop run_starts depths role_at x ≡ true) same k)
  ]
    where
      here :
          stop_depth run_starts depths role_at p ≡ d
          → is_kept_stop run_starts depths role_at p ≡ true
          → kept_before run_starts depths role_at d (suc p) ≡ true
      here x y = ground (arith, x, y)

-- A kept stop other than `p`, at the depth of `p`, with no shallower run start between the two.
abbrev pub SameFrameStop : List ℕ → List ℕ → (ℕ → LineRole) → ℕ → Type 0
SameFrameStop run_starts depths role_at p =
    KeptAfter run_starts depths role_at (stop_depth run_starts depths role_at p) (p + 1)
      (length run_starts - (p + 1))
    ⊎ KeptBefore run_starts depths role_at (stop_depth run_starts depths role_at p) p

-- The two scans find another stop of the frame exactly when there is one: a kept run start at the
-- same depth on either side, with no shallower run start on the way to it.
pub other_same_depth_stop_iff :
    (run_starts depths : List ℕ) (role_at : ℕ → LineRole) (p : ℕ)
    → (other_same_depth_stop run_starts depths role_at p ≡ true)
      ↔ SameFrameStop run_starts depths role_at p
unfolding other_same_depth_stop
other_same_depth_stop_iff run_starts depths role_at p = (to, from)
  where
    d : ℕ
    d = stop_depth run_starts depths role_at p

    n : ℕ
    n = length run_starts - (p + 1)

    to :
        (kept_after run_starts depths role_at d (p + 1) n
            || kept_before run_starts depths role_at d p)
          ≡ true
        → SameFrameStop run_starts depths role_at p
    to h = elim (Bool-cases (kept_after run_starts depths role_at d (p + 1) n)) [
      | inl t ↦ inl (kept_after_sound run_starts depths role_at d (p + 1) n t)
      | inr t ↦ inr (kept_before_sound run_starts depths role_at d p (ground (arith, t, h)))
    ]

    from :
        SameFrameStop run_starts depths role_at p
        → (kept_after run_starts depths role_at d (p + 1) n
            || kept_before run_starts depths role_at d p)
          ≡ true
    from (inl k) = ground (arith, kept_after_complete run_starts depths role_at d (p + 1) n k)
    from (inr k) = ground (arith, kept_before_complete run_starts depths role_at d p k)
