-- ===== src/Prelude/Sort.antt =====
-- A stable sort by a comparison, as `Array.sort` is: `before a b` stands for a negative result.
use mathlib.Core.Path.{◌≡◌, refl}
use mathlib.Core.Logic.{◌↔◌, ◌⊎◌, inl, inr}
use mathlib.Core.Bool.{Bool, true, false}
use mathlib.Core.List.{List, [], ◌∷◌, ◌++◌}
use stellar_debugger.Prelude.Tests.{if◌then◌else◌}

module _ {A : Type 0} where
  abbrev pub Holds : List A → A → Type 0
  Holds [] e = ⊥
  Holds (x ∷ l) e = (x ≡ e) ⊎ Holds l e

  pub Holds-append : (xs ys : List A) (v : A) → Holds (xs ++ ys) v ↔ (Holds xs v ⊎ Holds ys v)
  Holds-append [] ys v = ((λ h. inr h), λ h. elim h [ inl n ↦ absurd n | inr m ↦ m ])
  Holds-append (x ∷ xs) ys v =
      let ih = Holds-append xs ys v in
      (
        (λ h. elim h [
          | inl e ↦ inl (inl e)
          | inr m ↦ elim (ih.0 m) [ inl a ↦ inl (inr a) | inr b ↦ inr b ]
        ]),
        (λ h. elim h [
          | inl a ↦ elim a [ inl e ↦ inl e | inr m ↦ inr (ih.1 (inl m)) ]
          | inr b ↦ inr (ih.1 (inr b))
        ]),
      )

module _ {A : Type 0} (before : A → A → Bool) where
  unfoldable pub insert_by : A → List A → List A
  insert_by e [] = e ∷ []
  insert_by e (x ∷ l) = let more = insert_by e l in if before x e then x ∷ more else e ∷ x ∷ l

  unfoldable pub sort_by : List A → List A
  unfolding insert_by
  sort_by [] = []
  sort_by (e ∷ l) = insert_by e (sort_by l)

  -- No element comes before the one in front of it.
  abbrev pub InOrder : List A → Type 0
  InOrder [] = Unit {0}
  InOrder (x ∷ []) = Unit {0}
  InOrder (x ∷ y ∷ l) = (before y x ≡ false) × InOrder (y ∷ l)

  insert_by-Holds : (e x : A) (l : List A) → Holds (insert_by e l) x ↔ ((e ≡ x) ⊎ Holds l x)
  unfolding insert_by
  insert_by-Holds e x [] = ((λ h. h), λ h. h)
  insert_by-Holds e x (y ∷ l) = pick (before y e) (insert_by-Holds e x l)
    where
      pick :
          (b : Bool)
          → Holds (insert_by e l) x ↔ ((e ≡ x) ⊎ Holds l x)
          → Holds (if b then y ∷ insert_by e l else e ∷ y ∷ l) x ↔ ((e ≡ x) ⊎ ((y ≡ x) ⊎ Holds l x))
      pick false ih = ((λ h. h), λ h. h)
      pick true ih = (
        (λ h. elim h [
          | inl q ↦ inr (inl q)
          | inr m ↦ elim (ih.0 m) [ inl q ↦ inl q | inr o ↦ inr (inr o) ]
        ]),
        λ h. elim h [
          | inl q ↦ inr (ih.1 (inl q))
          | inr m ↦ elim m [ inl q ↦ inl q | inr o ↦ inr (ih.1 (inr o)) ]
        ],
      )

  pub sort_by-Holds : (x : A) (l : List A) → Holds (sort_by l) x ↔ Holds l x
  unfolding sort_by
  sort_by-Holds x [] = ((λ h. h), λ h. h)
  sort_by-Holds x (e ∷ l) = join (insert_by-Holds e x (sort_by l)) (sort_by-Holds x l)
    where
      join :
          Holds (insert_by e (sort_by l)) x ↔ ((e ≡ x) ⊎ Holds (sort_by l) x)
          → Holds (sort_by l) x ↔ Holds l x
          → Holds (insert_by e (sort_by l)) x ↔ ((e ≡ x) ⊎ Holds l x)
      join p ih = (
        (λ h. elim (p.0 h) [ inl q ↦ inl q | inr o ↦ inr (ih.0 o) ]),
        λ h. elim h [ inl q ↦ p.1 (inl q) | inr o ↦ p.1 (inr (ih.1 o)) ],
      )

  module _ (asymmetric : (a b : A) → before a b ≡ true → before b a ≡ false) where
    -- An element that is not before `x` may go behind it.
    insert_behind :
        (x e : A) (l : List A)
        → before e x ≡ false
        → InOrder (x ∷ l)
        → InOrder (insert_by e l)
        → InOrder (x ∷ insert_by e l)
    unfolding insert_by
    insert_behind x e [] h o i = (h, tt)
    insert_behind x e (y ∷ l) h o i = pick (before y e) i
      where
        pick :
            (b : Bool)
            → InOrder (if b then y ∷ insert_by e l else e ∷ y ∷ l)
            → InOrder (x ∷ (if b then y ∷ insert_by e l else e ∷ y ∷ l))
        pick true i = (o.0, i)
        pick false i = (h, i)

    tail-InOrder : (x : A) (l : List A) → InOrder (x ∷ l) → InOrder l
    tail-InOrder x [] h = tt
    tail-InOrder x (y ∷ l) h = h.1

    insert_by-InOrder : (e : A) (l : List A) → InOrder l → InOrder (insert_by e l)
    unfolding insert_by
    insert_by-InOrder e [] h = tt
    insert_by-InOrder e (y ∷ l) h =
        pick (before y e) refl (insert_by-InOrder e l (tail-InOrder y l h))
      where
        pick :
            (b : Bool)
            → before y e ≡ b
            → InOrder (insert_by e l)
            → InOrder (if b then y ∷ insert_by e l else e ∷ y ∷ l)
        pick true t i = insert_behind y e l (asymmetric y e t) h i
        pick false t i = (t, h)

    pub sort_by-InOrder : (l : List A) → InOrder (sort_by l)
    unfolding sort_by
    sort_by-InOrder [] = tt
    sort_by-InOrder (e ∷ l) = insert_by-InOrder e (sort_by l) (sort_by-InOrder l)
