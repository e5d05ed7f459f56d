-- ===== src/Ledger/Mutations.antt =====
-- No event of LedgerImage.ts gives a storage an id twice.
use stellar_debugger.Prelude.{
  ℕ, ◌≡◌, refl, String, Bool, true, false, Option, none, some, List, [], ◌∷◌, ◌++◌, All,
}
use stellar_debugger.ScVal.{ScVal}
use stellar_debugger.Ledger.{
  Durability, TraceAddress, TraceEvent, ledger, call_contract, end_wasm, put_data, del_data,
  data_ttl, instance_ttl, code_ttl, contract_code, deploy_contract, account, ledger_info,
  add_object, LedgerStorageEntry, ContractMeta, LedgerCallFrame, World, Scan, commit, storage_id,
  patch_storage, save_world, drop_saved_world, saved_world,
}
use mathlib.Core.Path.{subst}
use stellar_debugger.Ledger.Events.{
  seed_all, baseline_world, entry_world, apply_snapshot, apply_mutation, put_entry, bump_entry,
  drop_entry, bump_contract, bump_code, set_contract, close_call, world_after,
}
use stellar_debugger.Ledger.Changes.{KeysDiffer}
use stellar_debugger.Ledger.Keys.{
  KeysOk, insert-KeysDiffer, remove-KeysDiffer, seed_all-KeysDiffer, seed_contracts-KeysDiffer,
  commit-KeysOk, patch_world-KeysOk,
}

module _ (s : Scan) (k : KeysOk s) where
  put_entry-KeysOk :
      (d : Durability) (c : TraceAddress) (key v : ScVal) → KeysOk (put_entry d c key v s)
  unfolding put_entry patch_storage
  put_entry-KeysOk d c key v =
      patch_world-KeysOk _ s
        (insert-KeysDiffer (storage_id c.value d key) _ s.current.world.storage k.current) k

  bump_entry-KeysOk :
      (o : Option LedgerStorageEntry) (id : String) (n : ℕ) → KeysOk (bump_entry o id n s)
  unfolding bump_entry patch_storage
  bump_entry-KeysOk none id n = k
  bump_entry-KeysOk (some e) id n =
      patch_world-KeysOk _ s (insert-KeysDiffer id _ s.current.world.storage k.current) k

  drop_entry-KeysOk : (o : Option LedgerStorageEntry) (id : String) → KeysOk (drop_entry o id s)
  unfolding drop_entry patch_storage
  drop_entry-KeysOk none id = k
  drop_entry-KeysOk (some e) id =
      patch_world-KeysOk _ s (remove-KeysDiffer id s.current.world.storage k.current) k

  bump_contract-KeysOk :
      (o : Option ContractMeta) (c : String) (n : ℕ) → KeysOk (bump_contract o c n s)
  unfolding bump_contract
  bump_contract-KeysOk none c n = k
  bump_contract-KeysOk (some e) c n = patch_world-KeysOk _ s k.current k

  bump_code-KeysOk : (o : Option ℕ) (c : String) (n : ℕ) → KeysOk (bump_code o c n s)
  unfolding bump_code
  bump_code-KeysOk none c n = k
  bump_code-KeysOk (some e) c n = patch_world-KeysOk _ s k.current k

  set_contract-KeysOk : (c : String) (m : ContractMeta) → KeysOk (set_contract c m s)
  unfolding set_contract
  set_contract-KeysOk c m = patch_world-KeysOk _ s k.current k

  close_call-KeysOk :
      (b : Bool) (stack : List LedgerCallFrame) (o : Option World)
      → ((w : World) → o ≡ some w → KeysDiffer w.storage)
      → KeysOk (close_call b stack o s)
  unfolding close_call world_after
  close_call-KeysOk b [] o h = k
  close_call-KeysOk b (f ∷ stack) o h = commit-KeysOk _ s (restored b o h) k
    where
      restored :
          (b : Bool) (o : Option World)
          → ((w : World) → o ≡ some w → KeysDiffer w.storage)
          → KeysDiffer (world_after b o s.current.world).storage
      restored true o h = k.current
      restored false none h = k.current
      restored false (some w) h = h w refl

saved_world-KeysDiffer :
    (ws : List World) (w : World)
    → All (λ v. KeysDiffer v.storage) ws
    → saved_world ws ≡ some w
    → KeysDiffer w.storage
unfolding saved_world
saved_world-KeysDiffer [] w h e = cc
saved_world-KeysDiffer (v ∷ ws) w h e = subst (λ o. Holds o) e h.0
  where
    Holds : Option World → Type 0
    Holds none = Unit {0}
    Holds (some u) = KeysDiffer u.storage

drop_saved_world-KeysOk : (s : Scan) → KeysOk s → KeysOk (drop_saved_world s)
unfolding drop_saved_world
drop_saved_world-KeysOk s k = record {
  current = k.current;
  versions = k.versions;
  saved = dropped s.saved_worlds k.saved;
}
  where
    dropped :
        (ws : List World)
        → All (λ v. KeysDiffer v.storage) ws
        → All (λ v. KeysDiffer v.storage) (elim ws [ [] ↦ [] | w ∷ rest ↦ rest ])
    dropped [] h = tt
    dropped (w ∷ ws) h = h.1

pub apply_snapshot-KeysOk :
    (event : TraceEvent) (i : ℕ) (s : Scan) → KeysOk s → KeysOk (apply_snapshot event i s)
unfolding apply_snapshot baseline_world entry_world save_world
apply_snapshot-KeysOk (ledger a b c d e) i s k =
    patch_world-KeysOk _ s (seed_contracts-KeysDiffer d s.current.world.storage k.current) k
apply_snapshot-KeysOk (call_contract from to f args depth storage) i s k =
    let h = seed_all-KeysDiffer to.value storage s.current.world.storage k.current in
    let c =
      commit-KeysOk
        (record s.current {
          world = record s.current.world {
            storage = seed_all to.value storage s.current.world.storage;
          };
          call_stack =
              s.current.call_stack
              ++ record {
                from = from;
                to = to;
                function = f;
                args = args;
                depth = depth;
                index = i;
              }
                ∷ [];
        })
        s h k in
    record { current = c.current; versions = c.versions; saved = unfold commit in (h, k.saved) }
apply_snapshot-KeysOk _ i s k = k

pub apply_mutation-KeysOk :
    (event : TraceEvent) (s : Scan) → KeysOk s → KeysOk (apply_mutation event s)
unfolding apply_mutation
apply_mutation-KeysOk (put_data d c key (some v)) s k = put_entry-KeysOk s k d c key v
apply_mutation-KeysOk (put_data d c key none) s k = k
apply_mutation-KeysOk (del_data d c key) s k = drop_entry-KeysOk s k _ _
apply_mutation-KeysOk (code_ttl hash n) s k = bump_code-KeysOk s k _ _ _
apply_mutation-KeysOk (instance_ttl c n) s k = bump_contract-KeysOk s k _ _ _
apply_mutation-KeysOk (data_ttl c d key n) s k = bump_entry-KeysOk s k _ _ _
apply_mutation-KeysOk (deploy_contract c w n) s k = set_contract-KeysOk s k _ _
apply_mutation-KeysOk (contract_code c w) s k = set_contract-KeysOk s k _ _
apply_mutation-KeysOk (account a b) s k = patch_world-KeysOk _ s k.current k
apply_mutation-KeysOk (ledger_info a b) s k = patch_world-KeysOk _ s k.current k
apply_mutation-KeysOk (add_object i v) s k = commit-KeysOk _ s k.current k
apply_mutation-KeysOk (end_wasm b d r) s k =
    close_call-KeysOk (drop_saved_world s) (drop_saved_world-KeysOk s k) b s.current.call_stack
      (saved_world s.saved_worlds) (λ w e. saved_world-KeysDiffer s.saved_worlds w k.saved e)
apply_mutation-KeysOk _ s k = k
