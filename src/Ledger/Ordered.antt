-- ===== src/Ledger/Ordered.antt =====
-- `storageAt` of LedgerImage.ts: what it returns, and in which order.
use stellar_debugger.Prelude.{
  ℕ, ◌<◌, ◌≡◌, refl, ap, ◌∙◌, ◌↔◌, ◌⊎◌, inl, inr, String, Bool, true, false, ◌&&◌, ◌||◌, ltb, ◌==◌,
  Option, none, some, List, [], ◌∷◌, ◌++◌, if◌then◌else◌, arith, Bool-cases, str_eq_iff,
}
use stellar_debugger.Prelude.Dict.{Dict}
use stellar_debugger.Prelude.Sort.{Holds, InOrder, sort_by, sort_by-Holds, sort_by-InOrder}
use stellar_debugger.Lines.{codes}
use stellar_debugger.Ledger.{
  Durability, instance_storage, persistent, temporary, LedgerStorageEntry,
}
use stellar_debugger.Ledger.Image.{LedgerImage, version_of}
use stellar_debugger.Ledger.Queries.{
  durability_order, utf16_units, codes_before, text_before, entry_before, of_contract,
  chosen_entries, storage_at,
}
use mathlib.Core.Path.{subst}

codes_before_asymmetric : (a b : List ℕ) → codes_before a b ≡ true → codes_before b a ≡ false
unfolding codes_before
codes_before_asymmetric a [] h = cc
codes_before_asymmetric [] (d ∷ b) h = refl
codes_before_asymmetric (c ∷ a) (d ∷ b) h = elim (Bool-cases (codes_before a b)) [
  | inl t ↦ ground (arith, h, t, codes_before_asymmetric a b t)
  | inr t ↦ ground (arith, h, t)
]

entry_before_asymmetric :
    (a b : LedgerStorageEntry) → entry_before a b ≡ true → entry_before b a ≡ false
unfolding entry_before text_before
entry_before_asymmetric a b h =
    elim (Bool-cases (codes_before (utf16_units (codes a.id)) (utf16_units (codes b.id)))) [
      | inl t ↦ ground (
        arith,
        h,
        t,
        codes_before_asymmetric (utf16_units (codes a.id)) (utf16_units (codes b.id)) t,
      )
      | inr t ↦ ground (arith, h, t)
    ]

-- The storage has the entry under its id.
abbrev pub IsStored : Dict LedgerStorageEntry → LedgerStorageEntry → Type 0
IsStored [] e = ⊥
IsStored ((id, x) ∷ m) e = (x ≡ e) ⊎ IsStored m e

chosen_entries-Holds :
    (contract : Option String) (m : Dict LedgerStorageEntry) (e : LedgerStorageEntry)
    → Holds (chosen_entries contract m) e ↔ (IsStored m e × (of_contract contract e ≡ true))
unfolding chosen_entries
chosen_entries-Holds contract [] e = ((λ h. absurd h), λ h. h.0)
chosen_entries-Holds contract ((id, x) ∷ m) e =
    pick (of_contract contract x) refl (chosen_entries-Holds contract m e)
  where
    pick :
        (b : Bool)
        → of_contract contract x ≡ b
        → Holds (chosen_entries contract m) e ↔ (IsStored m e × (of_contract contract e ≡ true))
        → Holds (if b then x ∷ chosen_entries contract m else chosen_entries contract m) e
          ↔ (((x ≡ e) ⊎ IsStored m e) × (of_contract contract e ≡ true))
    pick true t ih = (
      (λ h. elim h [
        | inl q ↦ (inl q, subst (λ y. of_contract contract y ≡ true) q t)
        | inr o ↦ (inr (ih.0 o).0, (ih.0 o).1)
      ]),
      λ h. elim h.0 [ inl q ↦ inl q | inr o ↦ inr (ih.1 (o, h.1)) ],
    )
    pick false t ih = (
      (λ h. (inr (ih.0 h).0, (ih.0 h).1)),
      λ h. elim h.0 [
        | inl q ↦ absurd (not_both (subst (λ y. of_contract contract y ≡ false) q t) h.1)
        | inr o ↦ ih.1 (o, h.1)
      ],
    )
      where
        not_both : {b : Bool} → b ≡ false → b ≡ true → ⊥
        not_both f t = cc

-- The first list is a proper prefix of the second, or they differ first at a smaller number.
abbrev pub Precedes : List ℕ → List ℕ → Type 0
Precedes a b =
    ((d : ℕ) × (rest : List ℕ) × (b ≡ a ++ d ∷ rest))
    ⊎ ((p : List ℕ) × (c d : ℕ) × (more rest : List ℕ) × (a ≡ p ++ c ∷ more)
        × (b ≡ p ++ d ∷ rest)
        × (c < d))

prefix-before : (p : List ℕ) (d : ℕ) (rest : List ℕ) → codes_before p (p ++ d ∷ rest) ≡ true
unfolding codes_before
prefix-before [] d rest = refl
prefix-before (c ∷ p) d rest = ground (arith, prefix-before p d rest)

split-before :
    (p : List ℕ) (c d : ℕ) (more rest : List ℕ)
    → c < d
    → codes_before (p ++ c ∷ more) (p ++ d ∷ rest) ≡ true
unfolding codes_before
split-before [] c d more rest h = ground arith
split-before (x ∷ p) c d more rest h = ground (arith, split-before p c d more rest h)

Precedes-before : (a b : List ℕ) → Precedes a b → codes_before a b ≡ true
Precedes-before a b (inl (d, rest, q)) = ap (codes_before a) q ∙ prefix-before a d rest
Precedes-before a b (inr (p, c, d, more, rest, q, r, h)) =
    ap (λ x. codes_before x b) q
    ∙ ap (codes_before (p ++ c ∷ more)) r
    ∙ split-before p c d more rest h

-- The text comes before the other one, by its UTF-16 units.
abbrev pub IdPrecedes : LedgerStorageEntry → LedgerStorageEntry → Type 0
IdPrecedes a b = Precedes (utf16_units (codes a.id)) (utf16_units (codes b.id))

-- Instance storage first, then persistent, then temporary.
abbrev pub ComesFirst : Durability → Durability → Type 0
ComesFirst instance_storage persistent = Unit {0}
ComesFirst instance_storage temporary = Unit {0}
ComesFirst persistent temporary = Unit {0}
ComesFirst _ _ = ⊥

-- The second entry may stand behind the first.
abbrev pub Follows : LedgerStorageEntry → LedgerStorageEntry → Type 0
Follows a b =
    ComesFirst a.durability b.durability ⊎ ((a.durability ≡ b.durability) × ¬ (IdPrecedes b a))

Follows-before : (a b : LedgerStorageEntry) → entry_before b a ≡ false → Follows a b
unfolding entry_before text_before
Follows-before a b h = go a.durability b.durability h
  where
    after :
        codes_before (utf16_units (codes b.id)) (utf16_units (codes a.id)) ≡ false
        → ¬ (IdPrecedes b a)
    after f p = cc (f, Precedes-before _ _ p)

    go :
        (d e : Durability)
        → (ltb (durability_order e) (durability_order d)
            || durability_order e == durability_order d
              && codes_before (utf16_units (codes b.id)) (utf16_units (codes a.id)))
          ≡ false
        → ComesFirst d e ⊎ ((d ≡ e) × ¬ (IdPrecedes b a))
    go instance_storage instance_storage f = inr (refl, after f)
    go instance_storage persistent f = inl tt
    go instance_storage temporary f = inl tt
    go persistent instance_storage f = cc
    go persistent persistent f = inr (refl, after f)
    go persistent temporary f = inl tt
    go temporary instance_storage f = cc
    go temporary persistent f = cc
    go temporary temporary f = inr (refl, after f)

-- Each entry may stand behind the one before it.
abbrev pub AreOrdered : List LedgerStorageEntry → Type 0
AreOrdered [] = Unit {0}
AreOrdered (a ∷ []) = Unit {0}
AreOrdered (a ∷ b ∷ l) = Follows a b × AreOrdered (b ∷ l)

AreOrdered-InOrder : (l : List LedgerStorageEntry) → InOrder entry_before l → AreOrdered l
AreOrdered-InOrder [] h = tt
AreOrdered-InOrder (a ∷ []) h = tt
AreOrdered-InOrder (a ∷ b ∷ l) h = (Follows-before a b h.0, AreOrdered-InOrder (b ∷ l) h.1)

-- The entry is of the contract that is asked for, if one is.
abbrev pub IsAskedFor : Option String → LedgerStorageEntry → Type 0
IsAskedFor none e = Unit {0}
IsAskedFor (some contract) e = e.contract ≡ contract

of_contract_iff :
    (contract : Option String) (e : LedgerStorageEntry)
    → (of_contract contract e ≡ true) ↔ IsAskedFor contract e
unfolding of_contract
of_contract_iff none e = ((λ h. tt), λ h. refl)
of_contract_iff (some contract) e = str_eq_iff e.contract contract

-- The storage view at a cursor has exactly the entries of the storage there, or those of the
-- contract that is asked for. From each to the next, instance storage comes before persistent and
-- both come before temporary; within one durability the id of the next does not come first, by its
-- UTF-16 units.
pub storage_at-AreOrdered :
    (image : LedgerImage) (cursor : ℕ) (contract : Option String)
    → AreOrdered (storage_at image cursor contract)
      × ((e : LedgerStorageEntry)
          → Holds (storage_at image cursor contract) e
            ↔ (IsStored (version_of image cursor).world.storage e × IsAskedFor contract e))
unfolding storage_at
storage_at-AreOrdered image cursor contract = (
  AreOrdered-InOrder (sort_by entry_before stored)
      (sort_by-InOrder entry_before entry_before_asymmetric stored),
  λ e.
      let sorted = sort_by-Holds entry_before e stored in
      let chosen = chosen_entries-Holds contract (version_of image cursor).world.storage e in
      let asked = of_contract_iff contract e in
      (
        (λ h. let (m, c) = chosen.0 (sorted.0 h) in (m, asked.0 c)),
        λ h. sorted.1 (chosen.1 (h.0, asked.1 h.1)),
      ),
)
  where
    stored : List LedgerStorageEntry
    stored = chosen_entries contract (version_of image cursor).world.storage
