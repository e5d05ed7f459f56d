-- ===== src/Ledger/Events.antt =====
-- The event semantics of LedgerImage.ts: `applySnapshot`, `applyMutation`, `seedStorage`.
use stellar_debugger.Prelude.{ℕ, String, Bool, true, false, Option, none, some, List, [], ◌∷◌, ◌++◌}
use stellar_debugger.Prelude.Dict.{Dict, lookup, insert, remove}
use stellar_debugger.ScVal.{ScVal}
use stellar_debugger.Ledger.{
  Durability, TraceAddress, StorageEntry, AccountEntry, ContractEntry, CodeEntry, TraceEvent,
  ledger, call_contract, end_wasm, put_data, del_data, data_ttl, instance_ttl, code_ttl,
  contract_code, deploy_contract, account, ledger_info, add_object, LedgerStorageEntry,
  ContractMeta, LedgerCallFrame, World, Scan, storage_id, commit, patch_world, patch_storage,
  save_world, saved_world, drop_saved_world,
}

-- `storage.set(id, { id, contract, …entry })`
unfoldable pub seed_storage :
    String → StorageEntry → Dict LedgerStorageEntry → Dict LedgerStorageEntry
unfolding storage_id
seed_storage contract e storage =
    let id = storage_id contract e.durability e.key in
    insert id
      (record {
        id = id;
        contract = contract;
        durability = e.durability;
        key = e.key;
        value = e.value;
        live_until = e.live_until;
      })
      storage

unfoldable pub seed_all :
    String → List StorageEntry → Dict LedgerStorageEntry → Dict LedgerStorageEntry
unfolding seed_storage
seed_all contract [] storage = storage
seed_all contract (e ∷ entries) storage =
    seed_all contract entries (seed_storage contract e storage)

-- The three loops of a `ledger` baseline, over the contracts' storage too.
unfoldable pub set_accounts : List AccountEntry → Dict ℕ → Dict ℕ
set_accounts [] accounts = accounts
set_accounts (a ∷ rest) accounts = set_accounts rest (insert a.account.value a.balance accounts)

unfoldable pub set_contracts : List ContractEntry → Dict ContractMeta → Dict ContractMeta
set_contracts [] contracts = contracts
set_contracts (c ∷ rest) contracts = set_contracts rest (
    insert c.contract.value (record { wasm_hash = c.wasm_hash; live_until = c.live_until })
      contracts)

unfoldable pub seed_contracts :
    List ContractEntry → Dict LedgerStorageEntry → Dict LedgerStorageEntry
unfolding seed_all
seed_contracts [] storage = storage
seed_contracts (c ∷ rest) storage =
    seed_contracts rest (seed_all c.contract.value c.storage storage)

unfoldable pub set_codes : List CodeEntry → Dict ℕ → Dict ℕ
set_codes [] codes = codes
set_codes (c ∷ rest) codes = set_codes rest (insert c.hash c.live_until codes)

-- The world of a baseline, and that of a call with the callee's storage merged in.
unfoldable pub baseline_world :
    ℕ → ℕ → List AccountEntry → List ContractEntry → List CodeEntry → World → World
unfolding set_accounts set_contracts seed_contracts set_codes
baseline_world sequence timestamp accounts contracts codes w = record {
  storage = seed_contracts contracts w.storage;
  accounts = set_accounts accounts w.accounts;
  contracts = set_contracts contracts w.contracts;
  codes = set_codes codes w.codes;
  info = some (record { sequence = sequence; timestamp = timestamp });
}

unfoldable pub entry_world : TraceAddress → List StorageEntry → World → World
unfolding seed_all
entry_world to storage w = record w { storage = seed_all to.value storage w.storage }

-- The events that take effect at their own record, `i`.
unfoldable pub apply_snapshot : TraceEvent → ℕ → Scan → Scan
unfolding baseline_world entry_world patch_world save_world commit
apply_snapshot (ledger sequence timestamp accounts contracts codes) i s =
    patch_world (baseline_world sequence timestamp accounts contracts codes s.current.world) s
apply_snapshot (call_contract from to function args depth storage) i s =
    let world = entry_world to storage s.current.world in
    let frame : LedgerCallFrame = record {
      from = from;
      to = to;
      function = function;
      args = args;
      depth = depth;
      index = i;
    } in
    save_world world (
      commit (record s.current { world = world; call_stack = s.current.call_stack ++ frame ∷ [] })
        s)
apply_snapshot _ i s = s

-- `put`: an existing entry keeps its TTL, a new one gets 0.
unfoldable pub put_entry : Durability → TraceAddress → ScVal → ScVal → Scan → Scan
unfolding storage_id patch_storage
put_entry durability contract key value s =
    let id = storage_id contract.value durability key in
    patch_storage
      (insert id
        (record {
          id = id;
          contract = contract.value;
          durability = durability;
          key = key;
          value = value;
          live_until = elim (lookup id s.current.world.storage) [
            | none ↦ 0
            | some e ↦ e.live_until
          ];
        })
        s.current.world.storage)
      s

-- The updates that publish a version only where there is something to change.
unfoldable pub bump_entry : Option LedgerStorageEntry → String → ℕ → Scan → Scan
unfolding patch_storage
bump_entry none id live_until s = s
bump_entry (some e) id live_until s =
    patch_storage (insert id (record e { live_until = live_until }) s.current.world.storage) s

unfoldable pub drop_entry : Option LedgerStorageEntry → String → Scan → Scan
unfolding patch_storage
drop_entry none id s = s
drop_entry (some _) id s = patch_storage (remove id s.current.world.storage) s

unfoldable pub bump_contract : Option ContractMeta → String → ℕ → Scan → Scan
unfolding patch_world
bump_contract none contract live_until s = s
bump_contract (some c) contract live_until s =
    patch_world
      (record s.current.world {
        contracts =
            insert contract (record c { live_until = live_until }) s.current.world.contracts;
      })
      s

unfoldable pub bump_code : Option ℕ → String → ℕ → Scan → Scan
unfolding patch_world
bump_code none hash live_until s = s
bump_code (some _) hash live_until s =
    patch_world (record s.current.world { codes = insert hash live_until s.current.world.codes }) s

unfoldable pub set_contract : String → ContractMeta → Scan → Scan
unfolding patch_world
set_contract contract c s =
    patch_world (record s.current.world { contracts = insert contract c s.current.world.contracts })
      s

-- `callStack.slice(0, -1)`
unfoldable pub drop_last : List LedgerCallFrame → List LedgerCallFrame
drop_last [] = []
drop_last (f ∷ []) = []
drop_last (f ∷ g ∷ rest) = f ∷ drop_last (g ∷ rest)

-- `!success && restore !== undefined ? restore : world`
unfoldable pub world_after : Bool → Option World → World → World
world_after true restore world = world
world_after false none world = world
world_after false (some saved) world = saved

-- The end of a call: nothing is closed where no call is open.
unfoldable pub close_call : Bool → List LedgerCallFrame → Option World → Scan → Scan
unfolding drop_last world_after commit
close_call success [] restore s = s
close_call success (f ∷ stack) restore s =
    commit
      (record s.current {
        world = world_after success restore s.current.world;
        call_stack = drop_last (f ∷ stack);
      })
      s

-- The events that take effect from the next record on.
unfoldable pub apply_mutation : TraceEvent → Scan → Scan
unfolding put_entry drop_entry bump_entry bump_contract bump_code set_contract close_call
    drop_saved_world saved_world patch_world commit storage_id
apply_mutation (put_data durability contract key (some value)) s =
    put_entry durability contract key value s
apply_mutation (put_data durability contract key none) s = s
apply_mutation (del_data durability contract key) s =
    let id = storage_id contract.value durability key in
    drop_entry (lookup id s.current.world.storage) id s
apply_mutation (code_ttl hash live_until) s =
    bump_code (lookup hash s.current.world.codes) hash live_until s
apply_mutation (instance_ttl contract live_until) s =
    bump_contract (lookup contract.value s.current.world.contracts) contract.value live_until s
apply_mutation (data_ttl contract durability key live_until) s =
    let id = storage_id contract.value durability key in
    bump_entry (lookup id s.current.world.storage) id live_until s
apply_mutation (deploy_contract contract wasm_hash live_until) s =
    set_contract contract.value (record { wasm_hash = wasm_hash; live_until = live_until }) s
apply_mutation (contract_code contract wasm_hash) s =
    set_contract contract.value
      (record {
        wasm_hash = wasm_hash;
        live_until = elim (lookup contract.value s.current.world.contracts) [
          | none ↦ 0
          | some c ↦ c.live_until
        ];
      })
      s
apply_mutation (account acc balance) s =
    patch_world
      (record s.current.world { accounts = insert acc.value balance s.current.world.accounts }) s
apply_mutation (ledger_info sequence timestamp) s =
    patch_world
      (record s.current.world {
        info = some (record { sequence = sequence; timestamp = timestamp });
      })
      s
apply_mutation (add_object index value) s =
    commit
      (record s.current {
        host_objects = s.current.host_objects ++ (record { index = index; value = value }) ∷ [];
      })
      s
apply_mutation (end_wasm success depth result) s =
    close_call success s.current.call_stack (saved_world s.saved_worlds) (drop_saved_world s)
apply_mutation (ledger sequence timestamp accounts contracts codes) s = s
apply_mutation (call_contract from to function args depth storage) s = s
