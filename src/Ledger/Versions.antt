-- ===== src/Ledger/Versions.antt =====
-- The version table of LedgerImage.ts: no event loses or changes a version that is published.
use stellar_debugger.Prelude.{
  ℕ, ◌≡◌, refl, String, Bool, Option, none, some, List, [], ◌∷◌, ◌++◌, get_elem?, get_elem?-append,
  get_elem?-snoc, length-snoc, arith,
}
use stellar_debugger.ScVal.{ScVal}
use stellar_debugger.Ledger.{
  Durability, TraceAddress, TraceEvent, ledger, call_contract, end_wasm, put_data, del_data,
  data_ttl, instance_ttl, code_ttl, contract_code, deploy_contract, account, ledger_info,
  add_object, LedgerStorageEntry, ContractMeta, LedgerCallFrame, World, Version, Scan, commit,
  patch_world, patch_storage, save_world, drop_saved_world, saved_world,
}
use stellar_debugger.Ledger.Events.{
  apply_snapshot, apply_mutation, put_entry, bump_entry, drop_entry, bump_contract, bump_code,
  set_contract, close_call,
}
use mathlib.Core.Path.{subst}

-- The current version is the one that the table has at the current index.
abbrev pub IsCurrent : Scan → Type 0
IsCurrent s = get_elem? s.versions s.current_index ≡ some s.current

-- The table has grown at its end, the marks are the same, and the current version is in the table.
pub record Grows (s t : Scan) : Type 0 where
  pub keeps :
      (k : ℕ) (v : Version) → get_elem? s.versions k ≡ some v → get_elem? t.versions k ≡ some v
  pub marks : t.version_at ≡ s.version_at
  pub is_current : IsCurrent t

Grows-refl : (s : Scan) → IsCurrent s → Grows s s
Grows-refl s h = record { keeps = λ k v e. e; marks = refl; is_current = h }

commit-Grows : (v : Version) (s : Scan) → Grows s (commit v s)
unfolding commit
commit-Grows v s = record {
  keeps = λ k u e. get_elem?-append s.versions (v ∷ []) k e;
  marks = refl;
  is_current =
      subst (λ k. get_elem? (s.versions ++ v ∷ []) k ≡ some v)
        (omega (arith, length-snoc s.versions v)) (get_elem?-snoc s.versions v);
}

patch_world-Grows : (w : World) (s : Scan) → Grows s (patch_world w s)
unfolding patch_world
patch_world-Grows w s = commit-Grows _ s

module _ (s : Scan) (h : IsCurrent s) where
  put_entry-Grows :
      (d : Durability) (c : TraceAddress) (k v : ScVal) → Grows s (put_entry d c k v s)
  unfolding put_entry patch_storage
  put_entry-Grows d c k v = patch_world-Grows _ s

  bump_entry-Grows :
      (o : Option LedgerStorageEntry) (id : String) (n : ℕ) → Grows s (bump_entry o id n s)
  unfolding bump_entry patch_storage
  bump_entry-Grows none id n = Grows-refl s h
  bump_entry-Grows (some e) id n = patch_world-Grows _ s

  drop_entry-Grows : (o : Option LedgerStorageEntry) (id : String) → Grows s (drop_entry o id s)
  unfolding drop_entry patch_storage
  drop_entry-Grows none id = Grows-refl s h
  drop_entry-Grows (some e) id = patch_world-Grows _ s

  bump_contract-Grows :
      (o : Option ContractMeta) (c : String) (n : ℕ) → Grows s (bump_contract o c n s)
  unfolding bump_contract
  bump_contract-Grows none c n = Grows-refl s h
  bump_contract-Grows (some e) c n = patch_world-Grows _ s

  bump_code-Grows : (o : Option ℕ) (c : String) (n : ℕ) → Grows s (bump_code o c n s)
  unfolding bump_code
  bump_code-Grows none c n = Grows-refl s h
  bump_code-Grows (some e) c n = patch_world-Grows _ s

  set_contract-Grows : (c : String) (m : ContractMeta) → Grows s (set_contract c m s)
  unfolding set_contract
  set_contract-Grows c m = patch_world-Grows _ s

  close_call-Grows :
      (b : Bool) (stack : List LedgerCallFrame) (o : Option World)
      → Grows s (close_call b stack o s)
  unfolding close_call
  close_call-Grows b [] o = Grows-refl s h
  close_call-Grows b (f ∷ stack) o = commit-Grows _ s

-- The saved worlds are no part of the table.
Grows-saved : (s t : Scan) (ws : List World) → Grows s t → Grows s (record t { saved_worlds = ws })
Grows-saved s t ws g = record { keeps = g.keeps; marks = g.marks; is_current = g.is_current }

Grows-unsaved :
    (s t : Scan) (ws : List World) → Grows (record s { saved_worlds = ws }) t → Grows s t
Grows-unsaved s t ws g = record { keeps = g.keeps; marks = g.marks; is_current = g.is_current }

pub apply_snapshot-Grows :
    (event : TraceEvent) (i : ℕ) (s : Scan) → IsCurrent s → Grows s (apply_snapshot event i s)
unfolding apply_snapshot
apply_snapshot-Grows (ledger a b c d e) i s h = patch_world-Grows _ s
apply_snapshot-Grows (call_contract a b c d e f) i s h =
    unfold save_world in Grows-saved s _ _ (commit-Grows _ s)
apply_snapshot-Grows _ i s h = Grows-refl s h

pub apply_mutation-Grows :
    (event : TraceEvent) (s : Scan) → IsCurrent s → Grows s (apply_mutation event s)
unfolding apply_mutation
apply_mutation-Grows (put_data d c k (some v)) s h = put_entry-Grows s h d c k v
apply_mutation-Grows (put_data d c k none) s h = Grows-refl s h
apply_mutation-Grows (del_data d c k) s h = drop_entry-Grows s h _ _
apply_mutation-Grows (code_ttl hash n) s h = bump_code-Grows s h _ _ _
apply_mutation-Grows (instance_ttl c n) s h = bump_contract-Grows s h _ _ _
apply_mutation-Grows (data_ttl c d k n) s h = bump_entry-Grows s h _ _ _
apply_mutation-Grows (deploy_contract c w n) s h = set_contract-Grows s h _ _
apply_mutation-Grows (contract_code c w) s h = set_contract-Grows s h _ _
apply_mutation-Grows (account a b) s h = patch_world-Grows _ s
apply_mutation-Grows (ledger_info a b) s h = patch_world-Grows _ s
apply_mutation-Grows (add_object i v) s h = commit-Grows _ s
apply_mutation-Grows (end_wasm b d r) s h =
    unfold drop_saved_world in
    Grows-unsaved s _ _
      (close_call-Grows (drop_saved_world s) h b s.current.call_stack (saved_world s.saved_worlds))
apply_mutation-Grows (ledger a b c d e) s h = Grows-refl s h
apply_mutation-Grows (call_contract a b c d e f) s h = Grows-refl s h
