-- ===== src/Ledger.antt =====
-- The event records of src/komet/traceEvents.ts and the ledger reconstruction of
-- src/debugAdapter/LedgerImage.ts: the state of the scan.
pub mod Events
pub mod Image
pub mod Versions
pub mod Replay
pub mod Quiet
pub mod Rollback
pub mod Changes
pub mod Keys
pub mod Mutations
pub mod Distinct
pub mod Reported
pub mod Queries
pub mod Ordered
use stellar_debugger.Prelude.{
  ℕ, suc, ◌-◌, String, Bool, false, Option, none, some, List, [], ◌∷◌, ◌++◌, length,
}
use stellar_debugger.Prelude.Dict.{Dict, insert}
use stellar_debugger.ScVal.{ScVal, scval_key}
use Prim.Native.String.{◌++◌ as concat}

pub data Durability : Type 0 where
  instance_storage persistent temporary : Durability

-- As komet spells them.
unfoldable pub durability_name : Durability → String
durability_name instance_storage = "instance"
durability_name persistent = "persistent"
durability_name temporary = "temporary"

pub record TraceAddress : Type 0 where
  pub addr_type : String
  pub value : String

pub record StorageEntry : Type 0 where
  pub durability : Durability
  pub key : ScVal
  pub value : ScVal
  pub live_until : ℕ

pub record AccountEntry : Type 0 where
  pub account : TraceAddress
  pub balance : ℕ

pub record ContractEntry : Type 0 where
  pub contract : TraceAddress
  pub wasm_hash : String
  pub live_until : ℕ
  pub storage : List StorageEntry

pub record CodeEntry : Type 0 where
  pub hash : String
  pub live_until : ℕ

-- The payload of a VM record, one constructor for each `kind`; `contractData` by its `op` and
-- `contractTtl` by its `target`. A `put` may come without a value.
pub data TraceEvent : Type 0 where
  ledger : ℕ → ℕ → List AccountEntry → List ContractEntry → List CodeEntry → TraceEvent
  call_contract :
      TraceAddress → TraceAddress → String → List ScVal → ℕ → List StorageEntry → TraceEvent
  end_wasm : Bool → ℕ → Option ScVal → TraceEvent
  put_data : Durability → TraceAddress → ScVal → Option ScVal → TraceEvent
  del_data : Durability → TraceAddress → ScVal → TraceEvent
  data_ttl : TraceAddress → Durability → ScVal → ℕ → TraceEvent
  instance_ttl : TraceAddress → ℕ → TraceEvent
  code_ttl : String → ℕ → TraceEvent
  contract_code : TraceAddress → String → TraceEvent
  deploy_contract : TraceAddress → String → ℕ → TraceEvent
  account : TraceAddress → ℕ → TraceEvent
  ledger_info : ℕ → ℕ → TraceEvent
  add_object : ℕ → ScVal → TraceEvent

pub record LedgerStorageEntry : Type 0 where
  pub id : String
  pub contract : String
  pub durability : Durability
  pub key : ScVal
  pub value : ScVal
  pub live_until : ℕ

pub record ContractMeta : Type 0 where
  pub wasm_hash : String
  pub live_until : ℕ

pub record LedgerInfo : Type 0 where
  pub sequence : ℕ
  pub timestamp : ℕ

pub record LedgerHostObject : Type 0 where
  pub index : ℕ
  pub value : ScVal

pub record LedgerCallFrame : Type 0 where
  pub from : TraceAddress
  pub to : TraceAddress
  pub function : String
  pub args : List ScVal
  pub depth : ℕ
  pub index : ℕ

-- What a failed call rolls back.
pub record World : Type 0 where
  pub storage : Dict LedgerStorageEntry
  pub accounts : Dict ℕ
  pub contracts : Dict ContractMeta
  pub codes : Dict ℕ
  pub info : Option LedgerInfo

-- The host objects are outside the world; the call stack has its outermost frame first.
pub record Version : Type 0 where
  pub world : World
  pub host_objects : List LedgerHostObject
  pub call_stack : List LedgerCallFrame

abbrev pub empty_world : World
empty_world = record { storage = []; accounts = []; contracts = []; codes = []; info = none }

abbrev pub empty_version : Version
empty_version = record { world = empty_world; host_objects = []; call_stack = [] }

-- `${contract} ${durability} ${scvalKey(key)}`
unfoldable pub storage_id : String → Durability → ScVal → String
unfolding durability_name
storage_id contract durability key =
    concat contract (concat " " (concat (durability_name durability) (concat " " (scval_key key))))

-- The load-time scan. `saved_worlds` has the innermost open call first.
pub record Scan : Type 0 where
  pub versions : List Version
  pub version_at : List ℕ
  pub ledger_seen : Bool
  pub current : Version
  pub current_index : ℕ
  pub saved_worlds : List World

unfoldable pub initial_scan : Scan
initial_scan = record {
  versions = empty_version ∷ [];
  version_at = [];
  ledger_seen = false;
  current = empty_version;
  current_index = 0;
  saved_worlds = [];
}

unfoldable pub commit : Version → Scan → Scan
commit next s = record s {
  current = next;
  versions = s.versions ++ next ∷ [];
  current_index = length (s.versions ++ next ∷ []) - 1;
}

-- `commit({ ...this.current, world })`, where the caller has merged the patch.
unfoldable pub patch_world : World → Scan → Scan
unfolding commit
patch_world world s = commit (record s.current { world = world }) s

unfoldable pub patch_storage : Dict LedgerStorageEntry → Scan → Scan
unfolding patch_world
patch_storage storage s = patch_world (record s.current.world { storage = storage }) s

unfoldable pub mark_cursor : Scan → Scan
mark_cursor s = record s { version_at = s.version_at ++ s.current_index ∷ [] }

unfoldable pub save_world : World → Scan → Scan
save_world world s = record s { saved_worlds = world ∷ s.saved_worlds }

-- The pop of the saved worlds: what it returns, and the scan after it.
unfoldable pub saved_world : List World → Option World
saved_world [] = none
saved_world (w ∷ ws) = some w

unfoldable pub drop_saved_world : Scan → Scan
drop_saved_world s = record s { saved_worlds = elim s.saved_worlds [ [] ↦ [] | w ∷ ws ↦ ws ] }
