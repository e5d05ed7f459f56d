-- ===== src/Ledger/Image.antt =====
-- The class `LedgerImage` of LedgerImage.ts: the scan over a trace, and the queries at a cursor.
use stellar_debugger.Prelude.{
  ℕ, ◌+◌, ◌-◌, String, Bool, true, ◌||◌, not, Option, none, some, List, [], ◌∷◌, ◌++◌, length,
  get_elem?, ◌==◌, str_eq, if◌then◌else◌,
}
use stellar_debugger.Prelude.Dict.{Dict, lookup}
use stellar_debugger.ScVal.{scval_key}
use stellar_debugger.Ledger.{
  TraceEvent, LedgerStorageEntry, LedgerInfo, LedgerHostObject, LedgerCallFrame, Version, Scan,
  empty_version, initial_scan, mark_cursor,
}
use stellar_debugger.Ledger.Events.{apply_snapshot, apply_mutation}
use mathlib.Core.List.{reverse}
use Prim.Native.Nat.{min, max}

-- One record of the constructor's loop; `none` is a record without an event.
unfoldable pub scan_record : Option TraceEvent → ℕ → Scan → Scan
unfolding apply_snapshot apply_mutation mark_cursor
scan_record none i s = mark_cursor s
scan_record (some event) i s =
    apply_mutation event (mark_cursor (apply_snapshot event i (record s { ledger_seen = true })))

unfoldable pub scan_loop : List (Option TraceEvent) → ℕ → Scan → Scan
unfolding scan_record
scan_loop [] i s = s
scan_loop (event ∷ rest) i s = scan_loop rest (i + 1) (scan_record event i s)

pub record LedgerImage : Type 0 where
  pub versions : List Version
  pub version_at : List ℕ
  pub record_count : ℕ
  pub ledger_seen : Bool

-- `new LedgerImage(records)`, from the records' `event` fields.
unfoldable pub ledger_image : List (Option TraceEvent) → LedgerImage
unfolding scan_loop initial_scan
ledger_image events =
    let scan = scan_loop events 0 initial_scan in
    record {
      versions = scan.versions;
      version_at = scan.version_at;
      record_count = length events;
      ledger_seen = scan.ledger_seen;
    }

-- `this.versions[this.versionAt[clamped]]`
abbrev pub version_with : List Version → Option ℕ → Version
version_with versions none = empty_version
version_with versions (some k) = elim (get_elem? versions k) [ none ↦ empty_version | some v ↦ v ]

-- The version in effect at `cursor`, clamped to the trace.
unfoldable pub version_of : LedgerImage → ℕ → Version
version_of image cursor =
    if image.record_count == 0
    then empty_version
    else version_with image.versions
        (get_elem? image.version_at (max 0 (min cursor (image.record_count - 1))))

unfoldable pub has_ledger : LedgerImage → Bool
has_ledger image = image.ledger_seen

unfoldable pub version_count : LedgerImage → ℕ
version_count image = length image.versions

unfoldable pub ledger_info_at : LedgerImage → ℕ → Option LedgerInfo
unfolding version_of
ledger_info_at image cursor = (version_of image cursor).world.info

unfoldable pub host_objects_at : LedgerImage → ℕ → List LedgerHostObject
unfolding version_of
host_objects_at image cursor = (version_of image cursor).host_objects

-- Innermost first.
unfoldable pub call_stack_at : LedgerImage → ℕ → List LedgerCallFrame
unfolding version_of
call_stack_at image cursor = reverse (version_of image cursor).call_stack

-- The callee of the last frame.
unfoldable pub last_callee : List LedgerCallFrame → Option String
last_callee [] = none
last_callee (f ∷ []) = some f.to.value
last_callee (f ∷ g ∷ rest) = last_callee (g ∷ rest)

unfoldable pub executing_contract_at : LedgerImage → ℕ → Option String
unfolding version_of last_callee
executing_contract_at image cursor = last_callee (version_of image cursor).call_stack

-- The entry is new, or its TTL or the identity key of its value differs.
unfoldable pub is_changed : Option LedgerStorageEntry → LedgerStorageEntry → Bool
is_changed none entry = true
is_changed (some previous) entry =
    not (previous.live_until == entry.live_until)
    || not (str_eq (scval_key previous.value) (scval_key entry.value))

-- The loop over the storage after, then the one over the keys before.
unfoldable pub added_or_changed : Dict LedgerStorageEntry → Dict LedgerStorageEntry → List String
unfolding is_changed
added_or_changed before [] = []
added_or_changed before ((id, entry) ∷ rest) =
    let more = added_or_changed before rest in
    if is_changed (lookup id before) entry then id ∷ more else more

unfoldable pub gone : Dict LedgerStorageEntry → Dict LedgerStorageEntry → List String
gone [] after = []
gone ((id, entry) ∷ rest) after =
    let more = gone rest after in elim (lookup id after) [ none ↦ id ∷ more | some _ ↦ more ]

-- `before === after` is not observed: for one map both loops add nothing.
unfoldable pub changed_since : LedgerImage → ℕ → ℕ → List String
unfolding version_of added_or_changed gone
changed_since image from to =
    let before = (version_of image from).world.storage in
    let after = (version_of image to).world.storage in
    added_or_changed before after ++ gone before after
