-- ===== src/Ledger/Quiet.antt =====
-- Balanced stretches of a trace in LedgerImage.ts, and what the events between calls leave alone.
use stellar_debugger.Prelude.{
  ℕ, ◌≡◌, refl, sym, ap, ◌∙◌, String, Bool, true, Option, none, some, List, [], ◌∷◌, ◌++◌,
  append-nil, append_assoc,
}
use stellar_debugger.ScVal.{ScVal}
use stellar_debugger.Ledger.{
  TraceAddress, StorageEntry, TraceEvent, ledger, call_contract, end_wasm, put_data, del_data,
  data_ttl, instance_ttl, code_ttl, contract_code, deploy_contract, account, ledger_info,
  add_object, LedgerStorageEntry, LedgerHostObject, ContractMeta, World, Scan, commit, patch_world,
  patch_storage, mark_cursor,
}
use stellar_debugger.Ledger.Events.{
  apply_snapshot, apply_mutation, put_entry, bump_entry, drop_entry, bump_contract, bump_code,
  set_contract,
}
use stellar_debugger.Ledger.Image.{scan_record}

-- Records that open and close calls in pairs; a record that does neither is `quiet`.
abbrev pub IsQuiet : Option TraceEvent → Type 0
IsQuiet (some (call_contract from to function args depth storage)) = ⊥
IsQuiet (some (end_wasm success depth result)) = ⊥
IsQuiet _ = Unit

pub data IsBalanced : List (Option TraceEvent) → Type 0 where
  done : IsBalanced []
  quiet :
      {event : Option TraceEvent} {rest : List (Option TraceEvent)}
      → IsQuiet event
      → IsBalanced rest
      → IsBalanced (event ∷ rest)
  call :
      {opened closed whole : List (Option TraceEvent)} (from to : TraceAddress) (function : String)
      (args : List ScVal) (depth : ℕ) (storage : List StorageEntry) (success : Bool) (end_depth : ℕ)
      (result : Option ScVal)
      → IsBalanced opened
      → IsBalanced closed
      → whole
        ≡ some (call_contract from to function args depth storage)
          ∷ (opened ++ (some (end_wasm success end_depth result) ∷ closed))
      → IsBalanced whole

-- The open calls are the same, and host objects are added at the end only.
pub record SameCalls (s t : Scan) : Type 0 where
  pub saved : t.saved_worlds ≡ s.saved_worlds
  pub stack : t.current.call_stack ≡ s.current.call_stack
  pub objects : List LedgerHostObject
  pub grown : t.current.host_objects ≡ s.current.host_objects ++ objects

pub SameCalls-refl : (s : Scan) → SameCalls s s
SameCalls-refl s = record {
  saved = refl;
  stack = refl;
  objects = [];
  grown = sym (append-nil s.current.host_objects);
}

pub SameCalls-trans : {s t u : Scan} → SameCalls s t → SameCalls t u → SameCalls s u
SameCalls-trans {s} g h = record {
  saved = h.saved ∙ g.saved;
  stack = h.stack ∙ g.stack;
  objects = g.objects ++ h.objects;
  grown =
      h.grown
      ∙ ap (λ l. l ++ h.objects) g.grown
      ∙ append_assoc s.current.host_objects g.objects h.objects;
}

-- A patch of the world alone.
patch_world-SameCalls : (w : World) (s : Scan) → SameCalls s (patch_world w s)
unfolding patch_world commit
patch_world-SameCalls w s = record {
  saved = refl;
  stack = refl;
  objects = [];
  grown = sym (append-nil s.current.host_objects);
}

module _ (s : Scan) where
  bump_entry-SameCalls :
      (o : Option LedgerStorageEntry) (id : String) (n : ℕ) → SameCalls s (bump_entry o id n s)
  unfolding bump_entry patch_storage
  bump_entry-SameCalls none id n = SameCalls-refl s
  bump_entry-SameCalls (some e) id n = patch_world-SameCalls _ s

  drop_entry-SameCalls :
      (o : Option LedgerStorageEntry) (id : String) → SameCalls s (drop_entry o id s)
  unfolding drop_entry patch_storage
  drop_entry-SameCalls none id = SameCalls-refl s
  drop_entry-SameCalls (some e) id = patch_world-SameCalls _ s

  bump_contract-SameCalls :
      (o : Option ContractMeta) (c : String) (n : ℕ) → SameCalls s (bump_contract o c n s)
  unfolding bump_contract
  bump_contract-SameCalls none c n = SameCalls-refl s
  bump_contract-SameCalls (some e) c n = patch_world-SameCalls _ s

  bump_code-SameCalls : (o : Option ℕ) (c : String) (n : ℕ) → SameCalls s (bump_code o c n s)
  unfolding bump_code
  bump_code-SameCalls none c n = SameCalls-refl s
  bump_code-SameCalls (some e) c n = patch_world-SameCalls _ s

mutation-SameCalls :
    (event : TraceEvent) (s : Scan) → IsQuiet (some event) → SameCalls s (apply_mutation event s)
unfolding apply_mutation
mutation-SameCalls (put_data d c k (some v)) s q =
    unfold put_entry patch_storage in patch_world-SameCalls _ s
mutation-SameCalls (put_data d c k none) s q = SameCalls-refl s
mutation-SameCalls (del_data d c k) s q = drop_entry-SameCalls s _ _
mutation-SameCalls (code_ttl hash n) s q = bump_code-SameCalls s _ _ _
mutation-SameCalls (instance_ttl c n) s q = bump_contract-SameCalls s _ _ _
mutation-SameCalls (data_ttl c d k n) s q = bump_entry-SameCalls s _ _ _
mutation-SameCalls (deploy_contract c w n) s q = unfold set_contract in patch_world-SameCalls _ s
mutation-SameCalls (contract_code c w) s q = unfold set_contract in patch_world-SameCalls _ s
mutation-SameCalls (account a b) s q = patch_world-SameCalls _ s
mutation-SameCalls (ledger_info a b) s q = patch_world-SameCalls _ s
mutation-SameCalls (add_object i v) s q =
    unfold commit in
    record {
      saved = refl;
      stack = refl;
      objects = (record { index = i; value = v }) ∷ [];
      grown = refl;
    }
mutation-SameCalls (ledger a b c d e) s q = SameCalls-refl s
mutation-SameCalls (end_wasm b d r) s q = absurd q
mutation-SameCalls (call_contract a b c d e f) s q = absurd q

snapshot-SameCalls :
    (event : TraceEvent) (i : ℕ) (s : Scan)
    → IsQuiet (some event)
    → SameCalls s (apply_snapshot event i s)
unfolding apply_snapshot
snapshot-SameCalls (ledger a b c d e) i s q = patch_world-SameCalls _ s
snapshot-SameCalls (call_contract a b c d e f) i s q = absurd q
snapshot-SameCalls _ i s q = SameCalls-refl s

pub quiet-SameCalls :
    (event : Option TraceEvent) (i : ℕ) (s : Scan)
    → IsQuiet event
    → SameCalls s (scan_record event i s)
unfolding scan_record mark_cursor
quiet-SameCalls none i s q = record {
  saved = refl;
  stack = refl;
  objects = [];
  grown = sym (append-nil s.current.host_objects);
}
quiet-SameCalls (some event) i s q =
    SameCalls-trans (moved (snapshot-SameCalls event i (record s { ledger_seen = true }) q)) (
      mutation-SameCalls event
        (mark_cursor (apply_snapshot event i (record s { ledger_seen = true }))) q)
  where
    moved : {t : Scan} → SameCalls (record s { ledger_seen = true }) t → SameCalls s (mark_cursor t)
    moved g = record { saved = g.saved; stack = g.stack; objects = g.objects; grown = g.grown }
