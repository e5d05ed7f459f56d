-- ===== src/Ledger/Replay.antt =====
-- The query table of LedgerImage.ts against a replay of the trace up to the cursor.
use stellar_debugger.Prelude.{
  ℕ, zero, suc, ◌+◌, ◌-◌, ◌<◌, ◌≡◌, refl, sym, ap, ◌∙◌, true, false, get_elem?-lt, Option, none,
  some, List, [], ◌∷◌, ◌++◌, length, get_elem?, get_elem?-append, get_elem?-snoc, length-snoc, take,
  arith, ◌==◌,
}
use stellar_debugger.Ledger.{TraceEvent, Version, Scan, initial_scan, mark_cursor, empty_version}
use stellar_debugger.Ledger.Events.{apply_snapshot, apply_mutation}
use stellar_debugger.Ledger.Image.{scan_record, scan_loop, ledger_image, version_with, version_of}
use stellar_debugger.Ledger.Versions.{IsCurrent, Grows, apply_snapshot-Grows, apply_mutation-Grows}
use Prim.Native.Nat.{min, max}
use mathlib.Core.Path.{subst}

-- What later records leave alone in the two tables.
record Persists (s t : Scan) : Type 0 where
  versions :
      (k : ℕ) (v : Version) → get_elem? s.versions k ≡ some v → get_elem? t.versions k ≡ some v
  marks : (k n : ℕ) → get_elem? s.version_at k ≡ some n → get_elem? t.version_at k ≡ some n

-- The scan when the cursor rests on a record: its snapshot is applied, its mutation is not.
abbrev pub at_record : Option TraceEvent → ℕ → Scan → Scan
at_record none i s = s
at_record (some event) i s = apply_snapshot event i (record s { ledger_seen = true })

-- One record: the mark is for the scan at the record, and the tables persist.
record IsRound (event : Option TraceEvent) (i : ℕ) (s t : Scan) : Type 0 where
  persists : Persists s t
  is_current : IsCurrent t
  marked : t.version_at ≡ s.version_at ++ (at_record event i s).current_index ∷ []
  here :
      get_elem? t.versions (at_record event i s).current_index ≡ some (at_record event i s).current

scan_record-IsRound :
    (event : Option TraceEvent) (i : ℕ) (s : Scan)
    → IsCurrent s
    → IsRound event i s (scan_record event i s)
unfolding scan_record mark_cursor
scan_record-IsRound none i s h = record {
  persists = record {
    versions = λ k v e. e;
    marks = λ k n e. get_elem?-append s.version_at (s.current_index ∷ []) k e;
  };
  is_current = h;
  marked = refl;
  here = h;
}
scan_record-IsRound (some event) i s h = record {
  persists = record {
    versions = λ k v e. after.keeps k v (before.keeps k v e);
    marks = λ k n e.
        subst (λ l. get_elem? l k ≡ some n) (sym marks)
          (get_elem?-append s.version_at (rested.current_index ∷ []) k e);
  };
  is_current = after.is_current;
  marked = marks;
  here = after.keeps rested.current_index rested.current before.is_current;
}
  where
    seen : Scan
    seen = record s { ledger_seen = true }

    rested : Scan
    rested = apply_snapshot event i seen

    before : Grows seen rested
    before = apply_snapshot-Grows event i seen h

    after : Grows (mark_cursor rested) (apply_mutation event (mark_cursor rested))
    after = apply_mutation-Grows event (mark_cursor rested) before.is_current

    marks :
        (apply_mutation event (mark_cursor rested)).version_at
        ≡ s.version_at ++ rested.current_index ∷ []
    marks = after.marks ∙ ap (λ l. l ++ rested.current_index ∷ []) before.marks

scan_loop-Persists :
    (rest : List (Option TraceEvent)) (i : ℕ) (s : Scan)
    → IsCurrent s
    → Persists s (scan_loop rest i s)
unfolding scan_loop
scan_loop-Persists [] i s h = record { versions = λ k v e. e; marks = λ k n e. e }
scan_loop-Persists (event ∷ rest) i s h = join (scan_record-IsRound event i s h) (
    scan_loop-Persists rest (i + 1) (scan_record event i s)
      (scan_record-IsRound event i s h).is_current)
  where
    join : {t u : Scan} → IsRound event i s t → Persists t u → Persists s u
    join r p = record {
      versions = λ k v e. p.versions k v (r.persists.versions k v e);
      marks = λ k n e. p.marks k n (r.persists.marks k n e);
    }

-- The table entry of record `k`, counted from `i`.
Finds : Scan → ℕ → Version → Type 0
Finds t m v = (n : ℕ) × (get_elem? t.version_at m ≡ some n) × (get_elem? t.versions n ≡ some v)

scan_loop-Finds :
    (rest : List (Option TraceEvent)) (i k m : ℕ) (s : Scan) (event : Option TraceEvent)
    → IsCurrent s
    → length s.version_at + k ≡ m
    → get_elem? rest k ≡ some event
    → Finds (scan_loop rest i s) m (at_record event (i + k) (scan_loop (take k rest) i s)).current
unfolding scan_loop Finds
scan_loop-Finds [] i k m s event h e at = cc
scan_loop-Finds (x ∷ rest) i zero m s event h e at =
    let r = scan_record-IsRound x i s h in
    let p = scan_loop-Persists rest (i + 1) (scan_record x i s) r.is_current in
    subst
      (λ (o : Option TraceEvent).
        Finds (scan_loop (x ∷ rest) i s) m (at_record o (i + zero) s).current)
      (some_eq at)
      (subst (λ j. Finds (scan_loop (x ∷ rest) i s) m (at_record x j s).current) (omega arith)
        (
          (at_record x i s).current_index,
          p.marks m _ (
              subst (λ l. get_elem? l m ≡ some (at_record x i s).current_index) (sym r.marked)
                (subst
                  (λ j.
                    get_elem? (s.version_at ++ (at_record x i s).current_index ∷ []) j
                    ≡ some (at_record x i s).current_index)
                  (omega arith) (get_elem?-snoc s.version_at (at_record x i s).current_index))),
          p.versions _ _ r.here,
        ))
  where
    some_eq : {a b : Option TraceEvent} → some a ≡ some b → a ≡ b
    some_eq q = cc
scan_loop-Finds (x ∷ rest) i (suc k) m s event h e at =
    let r = scan_record-IsRound x i s h in
    subst
      (λ j.
        Finds (scan_loop (x ∷ rest) i s) m
          (at_record event j (scan_loop (take (suc k) (x ∷ rest)) i s)).current)
      (omega arith)
      (scan_loop-Finds rest (i + 1) k m (scan_record x i s) event r.is_current
        (omega
          (arith, e, ap length r.marked, length-snoc s.version_at (at_record x i s).current_index))
        at)

found_version :
    (t : Scan) (m : ℕ) (v : Version)
    → Finds t m v
    → version_with t.versions (get_elem? t.version_at m) ≡ v
unfolding Finds
found_version t m v (n, a, b) = ap (version_with t.versions) a ∙ found (get_elem? t.versions n) b
  where
    found : (o : Option Version) → o ≡ some v → (elim o [ none ↦ empty_version | some w ↦ w ]) ≡ v
    found none e = cc
    found (some w) e = cc

-- What a query sees at a cursor on the trace is the state of a scan that applied all the events
-- before that record and the record's own snapshot.
pub version_of-replay :
    (events : List (Option TraceEvent)) (cursor : ℕ) (event : Option TraceEvent)
    → get_elem? events cursor ≡ some event
    → version_of (ledger_image events) cursor
      ≡ (at_record event cursor (scan_loop (take cursor events) 0 initial_scan)).current
unfolding version_of ledger_image
version_of-replay events cursor event at = rw nonempty (
    ap (λ k. version_with scan.versions (get_elem? scan.version_at k)) inside
    ∙ found_version scan cursor _ (
        subst
          (λ j.
            Finds scan cursor
              (at_record event j (scan_loop (take cursor events) 0 initial_scan)).current)
          (omega arith)
          (scan_loop-Finds events 0 cursor cursor initial_scan event (unfold initial_scan in refl)
            (unfold initial_scan in omega arith) at)))
  where
    scan : Scan
    scan = scan_loop events 0 initial_scan

    lt : cursor < length events
    lt = get_elem?-lt events cursor at

    nonempty : (length events == 0) ≡ false
    nonempty = ground (arith, lt)

    inside : max 0 (min cursor (length events - 1)) ≡ cursor
    inside = omega (arith, lt)
