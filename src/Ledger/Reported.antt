-- ===== src/Ledger/Reported.antt =====
-- Which ids `changedSince` of LedgerImage.ts reports.
use stellar_debugger.Prelude.{
  ℕ, ◌≡◌, refl, sym, ap, ◌∙◌, ◌⊎◌, inl, inr, ◌↔◌, String, true, Option, none, some, List,
  Bool-cases, str_eq, str_eq_iff, ◌==◌, ==→eq, arith, if◌then◌else◌, not, ◌||◌,
}
use stellar_debugger.Prelude.Dict.{Dict, lookup}
use stellar_debugger.ScVal.{scval_key}
use stellar_debugger.Ledger.{LedgerStorageEntry, TraceEvent}
use stellar_debugger.Ledger.Image.{ledger_image, version_of, is_changed, changed_since}
use stellar_debugger.Ledger.Changes.{contains, changed_entry, gone_entry, contains-changed_since}
use stellar_debugger.Ledger.Distinct.{version_of-KeysDiffer}

-- Two entries of one id are told apart by their TTL and by the identity keys of their values.
abbrev pub Differ : LedgerStorageEntry → LedgerStorageEntry → Type 0
Differ p e = (¬ (p.live_until ≡ e.live_until)) ⊎ (¬ (scval_key p.value ≡ scval_key e.value))

-- What stands under an id at the two cursors, where something is reported.
abbrev pub IsReported : Option LedgerStorageEntry → Option LedgerStorageEntry → Type 0
IsReported none none = ⊥
IsReported none (some e) = Unit {0}
IsReported (some p) none = Unit {0}
IsReported (some p) (some e) = Differ p e

is_changed-Differ : (p e : LedgerStorageEntry) → (is_changed (some p) e ≡ true) ↔ Differ p e
unfolding is_changed
is_changed-Differ p e = (there, back)
  where
    there :
        (not (p.live_until == e.live_until) || not (str_eq (scval_key p.value) (scval_key e.value)))
          ≡ true
        → Differ p e
    there h = elim (Bool-cases (p.live_until == e.live_until)) [
      | inl t ↦ inr (λ same.
          ground (arith, (str_eq_iff (scval_key p.value) (scval_key e.value)).1 same, t, h))
      | inr f ↦ inl (λ same. ground (arith, same, f))
    ]

    back :
        Differ p e
        → (not (p.live_until == e.live_until)
            || not (str_eq (scval_key p.value) (scval_key e.value)))
          ≡ true
    back (inl n) = elim (Bool-cases (p.live_until == e.live_until)) [
      | inl t ↦ absurd (n (==→eq p.live_until e.live_until t))
      | inr f ↦ ground (arith, f)
    ]
    back (inr n) = elim (Bool-cases (str_eq (scval_key p.value) (scval_key e.value))) [
      | inl t ↦ absurd (n ((str_eq_iff (scval_key p.value) (scval_key e.value)).0 t))
      | inr f ↦ ground (arith, f)
    ]

IsReported-iff :
    (before : Dict LedgerStorageEntry) (id : String) (p e : Option LedgerStorageEntry)
    → lookup id before ≡ p
    → ((if changed_entry before id e then true else gone_entry p e) ≡ true) ↔ IsReported p e
unfolding is_changed
IsReported-iff before id none none at = (λ h. cc, λ h. absurd h)
IsReported-iff before id (some p) none at = (λ h. tt, λ h. refl)
IsReported-iff before id none (some e) at = (λ h. tt, λ h. ground (arith, at))
IsReported-iff before id (some p) (some e) at =
    let known : is_changed (lookup id before) e ≡ is_changed (some p) e =
      ap (λ o. is_changed o e) at in
    let both = is_changed-Differ p e in
    (λ h. both.0 (ground (arith, known, h)), λ h. ground (arith, known, both.1 h))

-- For two cursors on a trace an id is reported as changed exactly when it stands at only one of
-- them, or its entries at the two have different TTLs or different identity keys of their values.
pub contains-changed_since_iff :
    (events : List (Option TraceEvent)) (from to : ℕ) (id : String)
    → (contains (changed_since (ledger_image events) from to) id ≡ true)
      ↔ IsReported
          (lookup id (version_of (ledger_image events) from).world.storage)
          (lookup id (version_of (ledger_image events) to).world.storage)
contains-changed_since_iff events from to id =
    let told =
      contains-changed_since (ledger_image events) from to id (version_of-KeysDiffer events from)
        (version_of-KeysDiffer events to) in
    let reported =
      IsReported-iff (version_of (ledger_image events) from).world.storage id
        (lookup id (version_of (ledger_image events) from).world.storage)
        (lookup id (version_of (ledger_image events) to).world.storage) refl in
    (λ h. reported.0 (sym told ∙ h), λ h. told ∙ reported.1 h)
