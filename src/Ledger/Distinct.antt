-- ===== src/Ledger/Distinct.antt =====
-- The association lists that stand for the storage `Map` of LedgerImage.ts have an id once.
use stellar_debugger.Prelude.{
  ℕ, zero, suc, ◌-◌, length, ◌+◌, Bool, true, false, Option, none, some, List, [], ◌∷◌, All,
  get_elem?, if◌then◌else◌, ◌==◌,
}
use stellar_debugger.Ledger.{TraceEvent, Version, Scan, mark_cursor, initial_scan, empty_version}
use Prim.Native.Nat.{min, max}
use stellar_debugger.Ledger.Image.{scan_record, scan_loop, ledger_image, version_with, version_of}
use stellar_debugger.Ledger.Changes.{KeysDiffer}
use stellar_debugger.Ledger.Keys.{HasKeys, KeysOk}
use stellar_debugger.Ledger.Mutations.{apply_snapshot-KeysOk, apply_mutation-KeysOk}

scan_record-KeysOk :
    (event : Option TraceEvent) (i : ℕ) (s : Scan) → KeysOk s → KeysOk (scan_record event i s)
unfolding scan_record mark_cursor
scan_record-KeysOk none i s k = record {
  current = k.current;
  versions = k.versions;
  saved = k.saved;
}
scan_record-KeysOk (some event) i s k =
    let seen : KeysOk (record s { ledger_seen = true }) = record {
      current = k.current;
      versions = k.versions;
      saved = k.saved;
    } in
    let rested = apply_snapshot-KeysOk event i (record s { ledger_seen = true }) seen in
    apply_mutation-KeysOk event _
      (record { current = rested.current; versions = rested.versions; saved = rested.saved })

scan_loop-KeysOk :
    (events : List (Option TraceEvent)) (i : ℕ) (s : Scan)
    → KeysOk s
    → KeysOk (scan_loop events i s)
unfolding scan_loop
scan_loop-KeysOk [] i s k = k
scan_loop-KeysOk (event ∷ rest) i s k =
    scan_loop-KeysOk rest (i + 1) (scan_record event i s) (scan_record-KeysOk event i s k)

version_with-HasKeys :
    (versions : List Version) (o : Option ℕ)
    → All HasKeys versions
    → HasKeys (version_with versions o)
version_with-HasKeys versions none h = tt
version_with-HasKeys versions (some n) h = go (get_elem? versions n) (held versions n h)
  where
    Holds : Option Version → Type 0
    Holds none = Unit {0}
    Holds (some v) = HasKeys v

    held : (versions : List Version) (n : ℕ) → All HasKeys versions → Holds (get_elem? versions n)
    held [] n h = tt
    held (v ∷ versions) zero h = h.0
    held (v ∷ versions) (suc n) h = held versions n h.1

    go : (o : Option Version) → Holds o → HasKeys (elim o [ none ↦ empty_version | some v ↦ v ])
    go none h = tt
    go (some v) h = h

-- The association list at any cursor has an id once, as the `Map` of the source does.
pub version_of-KeysDiffer :
    (events : List (Option TraceEvent)) (cursor : ℕ)
    → KeysDiffer (version_of (ledger_image events) cursor).world.storage
unfolding version_of ledger_image
version_of-KeysDiffer events cursor = pick (length events == 0)
  where
    scan : Scan
    scan = scan_loop events 0 initial_scan

    n : ℕ
    n = max 0 (min cursor (length events - 1))

    start : KeysOk initial_scan
    start = unfold initial_scan in record { current = tt; versions = (tt, tt); saved = tt }

    pick :
        (b : Bool)
        → HasKeys
            (if b then empty_version else version_with scan.versions (get_elem? scan.version_at n))
    pick true = tt
    pick false =
        version_with-HasKeys scan.versions (get_elem? scan.version_at n)
          (scan_loop-KeysOk events 0 initial_scan start).versions
