-- ===== src/Ledger/Changes.antt =====
-- `changedSince` of LedgerImage.ts.
use stellar_debugger.Prelude.{
  ℕ, ◌≡◌, refl, ap, ◌∙◌, inl, inr, String, Bool, true, false, Option, none, some, List, [], ◌∷◌,
  ◌++◌, arith, Bool-cases, str_eq, str_eq_iff, if◌then◌else◌,
}
use stellar_debugger.Prelude.Dict.{Dict, lookup}
use stellar_debugger.Ledger.{LedgerStorageEntry}
use stellar_debugger.Ledger.Image.{
  LedgerImage, version_of, is_changed, added_or_changed, gone, changed_since,
}
use mathlib.Core.Path.{subst}

-- `set.has(id)`
abbrev pub contains : List String → String → Bool
contains [] id = false
contains (x ∷ xs) id = if str_eq x id then true else contains xs id

contains-append :
    (xs ys : List String) (id : String)
    → contains (xs ++ ys) id ≡ (if contains xs id then true else contains ys id)
contains-append [] ys id = refl
contains-append (x ∷ xs) ys id = ground (arith, contains-append xs ys id)

-- No key stands twice, as in a `Map`.
abbrev pub HasNoKey : String → Dict LedgerStorageEntry → Type 0
HasNoKey id m = lookup id m ≡ none

abbrev pub KeysDiffer : Dict LedgerStorageEntry → Type 0
KeysDiffer [] = Unit {0}
KeysDiffer ((id, e) ∷ m) = HasNoKey id m × KeysDiffer m

-- The entry of `after` under the id is new or differs.
abbrev pub changed_entry : Dict LedgerStorageEntry → String → Option LedgerStorageEntry → Bool
changed_entry before id none = false
changed_entry before id (some entry) = is_changed (lookup id before) entry

abbrev pub gone_entry : Option LedgerStorageEntry → Option LedgerStorageEntry → Bool
gone_entry none o = false
gone_entry (some e) none = true
gone_entry (some e) (some f) = false

contains-added :
    (before after : Dict LedgerStorageEntry) (id : String)
    → KeysDiffer after
    → contains (added_or_changed before after) id ≡ changed_entry before id (lookup id after)
unfolding added_or_changed lookup
contains-added before [] id h = refl
contains-added before ((j, e) ∷ after) id h = elim (Bool-cases (str_eq j id)) [
  | inl t ↦
      let same : j ≡ id = (str_eq_iff j id).0 t in
      let absent : lookup id after ≡ none = subst (λ k. lookup k after ≡ none) same h.0 in
      let ih = contains-added before after id h.1 in
      let test : is_changed (lookup j before) e ≡ is_changed (lookup id before) e =
        ap (λ k. is_changed (lookup k before) e) same in
      ground (arith, t, absent, ih, test)
  | inr t ↦ ground (arith, t, contains-added before after id h.1)
]

contains-gone :
    (before after : Dict LedgerStorageEntry) (id : String)
    → KeysDiffer before
    → contains (gone before after) id ≡ gone_entry (lookup id before) (lookup id after)
unfolding gone lookup
contains-gone [] after id h = refl
contains-gone ((j, e) ∷ before) after id h = elim (Bool-cases (str_eq j id)) [
  | inl t ↦
      let same : j ≡ id = (str_eq_iff j id).0 t in
      let absent : lookup id before ≡ none = subst (λ k. lookup k before ≡ none) same h.0 in
      let ih = contains-gone before after id h.1 in
      let test : lookup j after ≡ lookup id after = ap (λ k. lookup k after) same in
      ground (arith, t, absent, ih, test)
  | inr t ↦ ground (arith, t, contains-gone before after id h.1)
]

-- What is reported of an id is what the two loops find of its entries at the two cursors, where no
-- id stands twice in either storage.
pub contains-changed_since :
    (image : LedgerImage) (from to : ℕ) (id : String)
    → KeysDiffer (version_of image from).world.storage
    → KeysDiffer (version_of image to).world.storage
    → contains (changed_since image from to) id ≡ (
        if changed_entry
          (version_of image from).world.storage
          id
          (lookup id (version_of image to).world.storage)
        then true
        else gone_entry
            (lookup id (version_of image from).world.storage)
            (lookup id (version_of image to).world.storage))
unfolding changed_since
contains-changed_since image from to id hf ht =
    contains-append (added_or_changed before after) (gone before after) id
    ∙ ap (λ b. if b then true else contains (gone before after) id)
        (contains-added before after id ht)
    ∙ ap (λ b. if changed_entry before id (lookup id after) then true else b)
        (contains-gone before after id hf)
  where
    before : Dict LedgerStorageEntry
    before = (version_of image from).world.storage

    after : Dict LedgerStorageEntry
    after = (version_of image to).world.storage
