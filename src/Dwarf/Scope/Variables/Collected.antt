-- ===== src/Dwarf/Scope/Variables/Collected.antt =====
-- The collected variables of src/dwarf/ScopeIndex.ts are those of the visible declarations.
use stellar_debugger.Prelude.{
  ℕ, ◌≡◌, refl, sym, ap, ◌∙◌, ◌↔◌, ◌⊎◌, inl, inr, Bool, true, false, Option, none, some, List, [],
  ◌++◌, ◌==◌,
}
use mathlib.Core.Path.{subst}
use stellar_debugger.Prelude.Int.{ℤ}
use stellar_debugger.Prelude.Sort.{Holds, Holds-append}
use stellar_debugger.Bytes.{ok, ◌>>=◌, first_step}
use stellar_debugger.Dwarf.Die.{Die, Dies, entry, nil, cons, tag_of, children_of}
use stellar_debugger.Dwarf.Scope.{Scoped, RecordedFn, ScopeIndex, record_at}
use stellar_debugger.Dwarf.Scope.Variables.Visible.{Visible, ByFirst, Visible-first, first-Visible}
use stellar_debugger.Dwarf.Scope.Variables.{
  ScopeVar, block_covers, to_scope_var, is_declaration, listed, collect, variables_in,
  variables_in_scope,
}

module _ (section : Option (List ℕ)) (pc : ℕ) (low : ℤ) where
  -- The variable is that of a visible DIE.
  abbrev pub IsOf : Option (List ℕ) → Dies → ScopeVar → Type 0
  IsOf frame ds v = (d : Die) × Visible section pc low ds d × (to_scope_var d frame low ≡ some v)

  module _ (frame : Option (List ℕ)) where
    -- A variable of what the first DIE shows.
    abbrev IsOfFirst : Die → ScopeVar → Type 0
    IsOfFirst b v = (d : Die) × ByFirst section pc low b d × (to_scope_var d frame low ≡ some v)

    IsOf-cons :
        (b : Die) (rest : Dies) (v : ScopeVar)
        → IsOf frame (cons b rest) v ↔ (IsOfFirst b v ⊎ IsOf frame rest v)
    IsOf-cons b rest v = (
      (λ h. elim (Visible-first section pc low b h.0 rest h.1) [
        | inl f ↦ inl (h.0, f, h.2)
        | inr l ↦ inr (h.0, l, h.2)
      ]),
      (λ h. elim h [
        | inl f ↦ (f.0, first-Visible section pc low b f.0 rest (inl f.1), f.2)
        | inr l ↦ (l.0, first-Visible section pc low b l.0 rest (inr l.1), l.2)
      ]),
    )

    -- The list of the first DIE, then that of the rest.
    onward-IsOf :
        (b : Die) (rest : Dies) (mine more out : List ScopeVar) (v : ScopeVar)
        → mine ++ more ≡ out
        → Holds mine v ↔ IsOfFirst b v
        → Holds more v ↔ IsOf frame rest v
        → Holds out v ↔ IsOf frame (cons b rest) v
    onward-IsOf b rest mine more out v e p q = (
      (λ h.
          (IsOf-cons b rest v).1
            (elim ((Holds-append mine more v).0 (subst (λ l. Holds l v) (sym e) h)) [
              | inl a ↦ inl (p.0 a)
              | inr c ↦ inr (q.0 c)
            ])),
      (λ h.
          subst (λ l. Holds l v) e
            ((Holds-append mine more v).1
              (elim ((IsOf-cons b rest v).0 h) [ inl a ↦ inl (p.1 a) | inr c ↦ inr (q.1 c) ]))),
    )

    Holds-listed : (o : Option ScopeVar) (v : ScopeVar) → Holds (listed o) v ↔ (o ≡ some v)
    Holds-listed none v = ((λ h. absurd h), λ e. cc)
    Holds-listed (some a) v =
        ((λ h. elim h [ inl e ↦ ap some e | inr n ↦ absurd n ]), λ e. inl (cc))

    declared :
        (b : Die) (v : ScopeVar)
        → is_declaration (tag_of b) ≡ true
        → Holds (listed (to_scope_var b frame low)) v ↔ IsOfFirst b v
    declared b v h = (
      (λ l. (b, inl (h, refl), (Holds-listed (to_scope_var b frame low) v).0 l)),
      (λ f. (Holds-listed (to_scope_var b frame low) v).1 (elim f.1 [
        | inl p ↦ ap (λ d. to_scope_var d frame low) p.1 ∙ f.2
        | inr n ↦ absurd (true_false h n.0)
      ])),
    )
      where
        true_false : {x : Bool} → x ≡ true → x ≡ false → ⊥
        true_false t f = cc

    -- Nothing is shown by a DIE that is no declaration, and no block that covers the address.
    hidden :
        (b : Die) (v : ScopeVar)
        → is_declaration (tag_of b) ≡ false
        → ((tag_of b == 0x0b) ≡ false) ⊎ (block_covers section b pc low ≡ ok false)
        → Holds [] v ↔ IsOfFirst b v
    hidden b v h k = (
      (λ n. absurd n),
      (λ f. elim f.1 [ inl p ↦ cc | inr n ↦ elim k [ inl q ↦ cc | inr q ↦ cc (n.2) ] ]),
    )

    within :
        (b : Die) (v : ScopeVar) (mine : List ScopeVar)
        → is_declaration (tag_of b) ≡ false
        → (tag_of b == 0x0b) ≡ true
        → block_covers section b pc low ≡ ok true
        → Holds mine v ↔ IsOf frame (children_of b) v
        → Holds mine v ↔ IsOfFirst b v
    within b v mine h k c ih = (
      (λ m. let r = ih.0 m in (r.0, inr (h, k, c, r.1), r.2)),
      (λ f. elim f.1 [ inl p ↦ cc | inr n ↦ ih.1 (f.0, n.3, f.2) ]),
    )

    Visible-nil : {d : Die} → Visible section pc low nil d → ⊥
    Visible-nil h = elim h [ ]

    empty : (out : List ScopeVar) → collect section pc frame low nil ≡ ok out → out ≡ []
    unfolding collect
    empty out e = cc

    -- Where the collection succeeds, its variables are exactly those of the declarations that are
    -- visible at the address: the scope's own, and those of the blocks in it that cover it.
    pub collect-IsOf :
        (ds : Dies) (out : List ScopeVar) (v : ScopeVar)
        → collect section pc frame low ds ≡ ok out
        → Holds out v ↔ IsOf frame ds v
    unfolding collect
    collect-IsOf nil out v e =
        ((λ h. absurd (subst (λ l. Holds l v) (empty out e) h)), λ h. absurd (Visible-nil h.1))
    collect-IsOf (cons (entry o t a children) rest) out v e =
        whether (is_declaration t) refl e (λ more. collect-IsOf rest more v)
          (λ mine. collect-IsOf children mine v)
      where
        b : Die
        b = entry o t a children

        Goal : Type 0
        Goal = Holds out v ↔ IsOf frame (cons b rest) v

        OfRest : Type 0
        OfRest =
            (more : List ScopeVar)
            → collect section pc frame low rest ≡ ok more
            → Holds more v ↔ IsOf frame rest v

        OfChildren : Type 0
        OfChildren =
            (mine : List ScopeVar)
            → collect section pc frame low children ≡ ok mine
            → Holds mine v ↔ IsOf frame children v

        onward : List ScopeVar → Scoped (List ScopeVar)
        onward mine = collect section pc frame low rest >>= λ more. ok (mine ++ more)

        inner : Bool → Scoped (List ScopeVar)
        inner c = elim c [
          | false ↦ onward []
          | true ↦ collect section pc frame low children >>= onward
        ]

        block : Bool → Scoped (List ScopeVar)
        block k = elim k [ false ↦ onward [] | true ↦ block_covers section b pc low >>= inner ]

        finish :
            (mine : List ScopeVar)
            → onward mine ≡ ok out
            → Holds mine v ↔ IsOfFirst b v
            → OfRest
            → Goal
        finish mine e p ih =
            let (more, last, at) = first_step _ (collect section pc frame low rest) e in
            onward-IsOf b rest mine more out v (cc) p (ih more at)

        covering :
            (c : Bool)
            → is_declaration t ≡ false
            → (t == 0x0b) ≡ true
            → block_covers section b pc low ≡ ok c
            → inner c ≡ ok out
            → OfRest
            → OfChildren
            → Goal
        covering false h k at e ih kids = finish [] e (hidden b v h (inr at)) ih
        covering true h k at e ih kids =
            let (mine, last, got) = first_step onward (collect section pc frame low children) e in
            finish mine last (within b v mine h k at (kids mine got)) ih

        blocked :
            (k : Bool)
            → is_declaration t ≡ false
            → (t == 0x0b) ≡ k
            → block k ≡ ok out
            → OfRest
            → OfChildren
            → Goal
        blocked false h k e ih kids = finish [] e (hidden b v h (inl k)) ih
        blocked true h k e ih kids =
            let (c, last, at) = first_step inner (block_covers section b pc low) e in
            covering c h k at last ih kids

        whether :
            (k : Bool)
            → is_declaration t ≡ k
            → (elim k [
              | true ↦ onward (listed (to_scope_var b frame low))
              | false ↦ block (t == 0x0b)
            ])
              ≡ ok out
            → OfRest
            → OfChildren
            → Goal
        whether true h e ih kids = finish (listed (to_scope_var b frame low)) e (declared b v h) ih
        whether false h e ih kids = blocked (t == 0x0b) h refl e ih kids

-- In a function that is found at the address, the variables in scope are exactly those of the
-- declarations of its DIE that are visible at it: the function's own, and those of its blocks that
-- cover the address, each inside blocks that do.
pub variables_in_scope-IsOf :
    (x : ScopeIndex) (pc : ℕ) (f : RecordedFn) (out : List ScopeVar) (v : ScopeVar)
    → record_at x pc ≡ ok (some f)
    → variables_in_scope x pc ≡ ok out
    → Holds out v ↔ IsOf x.debug_ranges pc f.cu_low_pc f.frame_base_expr (children_of f.die) v
unfolding variables_in_scope variables_in
variables_in_scope-IsOf x pc f out v found e =
    collect-IsOf x.debug_ranges pc f.cu_low_pc f.frame_base_expr (children_of f.die) out v
      (sym (ap (λ m. m >>= variables_in x pc) found) ∙ e)
