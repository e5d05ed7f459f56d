-- ===== src/Dwarf/Scope/Variables/Visible.antt =====
-- The variables of a scope are those that its DIE tree makes visible at the address.
use stellar_debugger.Prelude.{
  arith, ==→eq, Bool-cases, ◌&&◌, ℕ, ◌≡◌, refl, ap, ◌∙◌, ◌↔◌, ◌⊎◌, inl, inr, Bool, true, false,
  Option, none, some, List, ◌==◌,
}
use mathlib.Core.Path.{subst}
use stellar_debugger.Prelude.Int.{ℤ, pos, ◌+ℤ◌, leb_int, ltb_int}
use stellar_debugger.Bytes.{ok}
use stellar_debugger.Dwarf.Die.{Die, Dies, cons, tag_of, children_of, die_uint}
use stellar_debugger.Dwarf.Scope.{Scoped, own_range, range_of, ranges_cover}
use stellar_debugger.Dwarf.Scope.Variables.{in_range, list_covers, block_covers, is_declaration}

module _ (section : Option (List ℕ)) (pc : ℕ) (low : ℤ) where
  -- The block's own range contains the address, its range list does, or it has neither.
  pub data IsCovered (b : Die) : Type 0 where
    bounded :
        (start size : ℤ)
        → die_uint b 0x11 ≡ some start
        → die_uint b 0x12 ≡ some size
        → leb_int start (pos pc) ≡ true
        → ltb_int (pos pc) (start +ℤ size) ≡ true
        → IsCovered b
    by_list :
        (o : ℤ) (bytes : List ℕ)
        → own_range b ≡ none
        → die_uint b 0x55 ≡ some o
        → section ≡ some bytes
        → ranges_cover bytes o pc low ≡ ok true
        → IsCovered b
    unbounded : own_range b ≡ none → die_uint b 0x55 ≡ none → IsCovered b

  -- A parameter or a variable.
  abbrev pub IsDeclared : Die → Type 0
  IsDeclared d = (tag_of d ≡ 0x05) ⊎ (tag_of d ≡ 0x34)

  -- A declaration of this scope, or one of a block in it that covers the address.
  pub data Visible : Dies → Die → Type 0 where
    own : (d : Die) (rest : Dies) → IsDeclared d → Visible (cons d rest) d
    nested :
        (b d : Die) (rest : Dies)
        → tag_of b ≡ 0x0b
        → IsCovered b
        → Visible (children_of b) d
        → Visible (cons b rest) d
    later : (d e : Die) (rest : Dies) → Visible rest d → Visible (cons e rest) d

  is_declaration_iff : (d : Die) → (is_declaration (tag_of d) ≡ true) ↔ IsDeclared d
  unfolding is_declaration
  is_declaration_iff d =
      (split, λ h. elim h [ inl e ↦ ground (arith, e) | inr e ↦ ground (arith, e) ])
    where
      split : is_declaration (tag_of d) ≡ true → IsDeclared d
      split h = elim (Bool-cases (tag_of d == 0x05)) [
        | inl t ↦ inl (==→eq (tag_of d) 0x05 t)
        | inr f ↦ inr (ground (arith, h, f))
      ]

  block-not_declaration : (d : Die) → tag_of d ≡ 0x0b → is_declaration (tag_of d) ≡ false
  unfolding is_declaration
  block-not_declaration d e = ground (arith, e)

  own_range-some :
      (b : Die) (start size : ℤ)
      → die_uint b 0x11 ≡ some start
      → die_uint b 0x12 ≡ some size
      → own_range b ≡ some (start, start +ℤ size)
  unfolding own_range range_of
  own_range-some b start size e f =
      ap (λ o. range_of o (die_uint b 0x12)) e ∙ ap (range_of (some start)) f

  same : {a b : ℤ × ℤ} → some a ≡ some b → b ≡ a
  same e = cc

  own_range-ends :
      (b : Die) (r : ℤ × ℤ)
      → own_range b ≡ some r
      → (start : ℤ) × (size : ℤ) × (die_uint b 0x11 ≡ some start)
        × (die_uint b 0x12 ≡ some size)
        × (r ≡ (start, start +ℤ size))
  unfolding own_range
  own_range-ends b r e = ends (die_uint b 0x11) (die_uint b 0x12) refl refl e
    where
      ends :
          (l h : Option ℤ)
          → die_uint b 0x11 ≡ l
          → die_uint b 0x12 ≡ h
          → range_of l h ≡ some r
          → (start : ℤ) × (size : ℤ) × (die_uint b 0x11 ≡ some start)
            × (die_uint b 0x12 ≡ some size)
            × (r ≡ (start, start +ℤ size))
      ends none h p q e = unfold range_of in cc
      ends (some l) none p q e = unfold range_of in cc
      ends (some l) (some h) p q e = (l, h, p, q, same (unfold range_of in e))

  abbrev covered_if : Option (ℤ × ℤ) → Die → Scoped Bool
  covered_if o b = elim o [ some r ↦ ok (in_range pc r) | none ↦ list_covers true section b pc low ]

  abbrev covered_list : Option ℤ → Option (List ℕ) → Scoped Bool
  covered_list u s = elim u [
    | none ↦ ok true
    | some o ↦ elim s [ none ↦ ok false | some bytes ↦ ranges_cover bytes o pc low ]
  ]

  IsCovered-covers : (b : Die) → IsCovered b → block_covers section b pc low ≡ ok true
  unfolding block_covers list_covers
  IsCovered-covers b (bounded start size e f lo hi) =
      ap (λ o. covered_if o b) (own_range-some b start size e f) ∙ ap ok (both lo hi)
    where
      both : {x y : Bool} → x ≡ true → y ≡ true → (x && y) ≡ true
      both p q = cc
  IsCovered-covers b (by_list o bytes e f g h) =
      ap (λ o. covered_if o b) e
      ∙ ap (λ u. covered_list u section) f
      ∙ ap (covered_list (some o)) g
      ∙ h
  IsCovered-covers b (unbounded e f) =
      ap (λ o. covered_if o b) e ∙ ap (λ u. covered_list u section) f

  ok_true : {x : Bool} → ◌≡◌ {A = Scoped Bool} (ok x) (ok true) → x ≡ true
  ok_true e = cc

  both_true : {x y : Bool} → (x && y) ≡ true → (x ≡ true) × (y ≡ true)
  both_true e = (ground arith, ground arith)

  covers-IsCovered : (b : Die) → block_covers section b pc low ≡ ok true → IsCovered b
  unfolding block_covers list_covers
  covers-IsCovered b h = from (own_range b) refl h
    where
      listed_by :
          (u : Option ℤ) (s : Option (List ℕ))
          → own_range b ≡ none
          → die_uint b 0x55 ≡ u
          → section ≡ s
          → covered_list u s ≡ ok true
          → IsCovered b
      listed_by none s e f g h = unbounded e f
      listed_by (some o) none e f g h = cc
      listed_by (some o) (some bytes) e f g h = by_list o bytes e f g h

      from : (r : Option (ℤ × ℤ)) → own_range b ≡ r → covered_if r b ≡ ok true → IsCovered b
      from none e h = listed_by (die_uint b 0x55) section e refl refl h
      from (some r) e h =
          let (start, size, p, q, ends) = own_range-ends b r e in
          let hit : in_range pc (start, start +ℤ size) ≡ true =
            subst (λ k. in_range pc k ≡ true) ends (ok_true h) in
          bounded start size p q (both_true hit).0 (both_true hit).1

  -- What makes the first DIE of a list show another.
  abbrev pub ByFirst : Die → Die → Type 0
  ByFirst b d =
      ((is_declaration (tag_of b) ≡ true) × (b ≡ d))
      ⊎ ((is_declaration (tag_of b) ≡ false)
          × ((tag_of b == 0x0b) ≡ true)
          × (block_covers section b pc low ≡ ok true)
          × Visible (children_of b) d)

  pub Visible-first :
      (b d : Die) (rest : Dies) → Visible (cons b rest) d → ByFirst b d ⊎ Visible rest d
  Visible-first _ _ _ (own b rest h) = inl (inl ((is_declaration_iff b).1 h, refl))
  Visible-first _ _ _ (nested b d rest h c v) =
      inl (inr (block-not_declaration b h, ground (arith, h), IsCovered-covers b c, v))
  Visible-first _ _ _ (later d e rest v) = inr v

  pub first-Visible :
      (b d : Die) (rest : Dies) → ByFirst b d ⊎ Visible rest d → Visible (cons b rest) d
  first-Visible b d rest (inl (inl (h, e))) =
      subst (Visible (cons b rest)) e (own b rest ((is_declaration_iff b).0 h))
  first-Visible b d rest (inl (inr (h, k, c, v))) =
      nested b d rest (==→eq (tag_of b) 0x0b k) (covers-IsCovered b c) v
  first-Visible b d rest (inr v) = later d b rest v
