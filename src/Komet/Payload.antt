-- ===== src/Komet/Payload.antt =====
-- `parseTraceEvent` of src/komet/traceEvents.ts.
use stellar_debugger.Prelude.{String, Option, none, some, List, [], ◌∷◌, str_eq, if◌then◌else◌}
use stellar_debugger.Bytes.{ok, fail, ◌>>=◌}
use stellar_debugger.ScVal.{ScVal}
use stellar_debugger.Ledger.{
  StorageEntry, AccountEntry, ContractEntry, CodeEntry, TraceEvent, ledger, call_contract, end_wasm,
  put_data, del_data, data_ttl, instance_ttl, code_ttl, contract_code, deploy_contract, account,
  ledger_info, add_object,
}
use stellar_debugger.Komet.{Json, null, string, Members, field}
use stellar_debugger.Komet.Fields.{
  Reads, needs_arguments, read_each, as_int, as_string, as_hex, as_bool, as_durability, as_address,
  as_array, objects,
}
use stellar_debugger.Komet.Values.{to_scval, as_scval}

module _ (text : Json → String) (trusted : String → Json → ScVal) where
  unfoldable pub as_scvals : Option Json → Reads (List ScVal)
  unfolding as_array read_each to_scval
  as_scvals o = as_array o >>= read_each (to_scval text trusted 64)

  unfoldable pub storage_entry : Members → Reads StorageEntry
  unfolding field as_durability as_scval as_int
  storage_entry m = as_durability (field m "durability") >>= λ durability.
      as_scval text trusted (field m "key") >>= λ key.
      as_scval text trusted (field m "value") >>= λ value.
      as_int (field m "liveUntil") >>= λ live_until.
      ok (record { durability = durability; key = key; value = value; live_until = live_until })

  unfoldable pub as_storage : Option Json → Reads (List StorageEntry)
  unfolding objects read_each storage_entry
  as_storage o = objects o >>= read_each storage_entry

  unfoldable pub account_entry : Members → Reads AccountEntry
  unfolding field as_address as_int
  account_entry m = as_address (field m "account") >>= λ account.
      as_int (field m "balance") >>= λ balance. ok (record { account = account; balance = balance })

  unfoldable pub contract_entry : Members → Reads ContractEntry
  unfolding field as_address as_hex as_int as_storage
  contract_entry m = as_address (field m "contract") >>= λ contract.
      as_hex (field m "wasmHash") >>= λ wasm_hash. as_int (field m "liveUntil") >>= λ live_until.
      as_storage (field m "storage") >>= λ storage. ok (record {
        contract = contract;
        wasm_hash = wasm_hash;
        live_until = live_until;
        storage = storage;
      })

  unfoldable pub code_entry : Members → Reads CodeEntry
  unfolding field as_hex as_int
  code_entry m = as_hex (field m "hash") >>= λ hash. as_int (field m "liveUntil") >>= λ live_until.
      ok (record { hash = hash; live_until = live_until })

  unfoldable pub read_ledger : Members → Reads TraceEvent
  unfolding field as_int objects read_each account_entry contract_entry code_entry
  read_ledger m = as_int (field m "sequence") >>= λ sequence.
      as_int (field m "timestamp") >>= λ timestamp.
      objects (field m "accounts") >>= read_each account_entry >>= λ accounts.
      objects (field m "contracts") >>= read_each contract_entry >>= λ contracts.
      objects (field m "codes") >>= read_each code_entry >>= λ codes.
      ok (ledger sequence timestamp accounts contracts codes)

  unfoldable pub read_call : Members → Reads TraceEvent
  unfolding field as_address as_string as_scvals as_int as_storage
  read_call m = as_address (field m "from") >>= λ from. as_address (field m "to") >>= λ to.
      as_string (field m "function") >>= λ function. as_scvals (field m "args") >>= λ args.
      as_int (field m "depth") >>= λ depth. as_storage (field m "storage") >>= λ storage.
      ok (call_contract from to function args depth storage)

  -- `f.raw('result') == null`
  unfoldable pub call_result : Option Json → Reads (Option ScVal)
  unfolding as_scval
  call_result none = ok none
  call_result (some null) = ok none
  call_result o = as_scval text trusted o >>= λ v. ok (some v)

  unfoldable pub read_end : Members → Reads TraceEvent
  unfolding field as_bool as_int call_result
  read_end m = as_bool (field m "success") >>= λ success. as_int (field m "depth") >>= λ depth.
      call_result (field m "result") >>= λ result. ok (end_wasm success depth result)

  unfoldable pub read_put : Members → List ScVal → Reads TraceEvent
  unfolding field as_durability as_address
  read_put m (key ∷ value ∷ rest) = as_durability (field m "durability") >>= λ durability.
      as_address (field m "contract") >>= λ contract.
      ok (put_data durability contract key (some value))
  read_put m _ = fail needs_arguments

  unfoldable pub read_del : Members → List ScVal → Reads TraceEvent
  unfolding field as_durability as_address
  read_del m (key ∷ rest) = as_durability (field m "durability") >>= λ durability.
      as_address (field m "contract") >>= λ contract. ok (del_data durability contract key)
  read_del m [] = fail needs_arguments

  abbrev pub modelled : Reads TraceEvent → Reads (Option TraceEvent)
  modelled r = r >>= λ e. ok (some e)

  unfoldable pub read_data : Members → Option Json → Reads (Option TraceEvent)
  unfolding field as_scvals read_put read_del
  read_data m (some (string op)) =
      if str_eq op "put"
      then modelled (as_scvals (field m "args") >>= read_put m)
      else if str_eq op "del"
      then modelled (as_scvals (field m "args") >>= read_del m)
      else ok none
  read_data m _ = ok none

  unfoldable pub read_data_ttl : Members → Reads TraceEvent
  unfolding field as_address as_durability as_scval as_int
  read_data_ttl m = as_address (field m "contract") >>= λ contract.
      as_durability (field m "durability") >>= λ durability.
      as_scval text trusted (field m "key") >>= λ key.
      as_int (field m "liveUntil") >>= λ live_until.
      ok (data_ttl contract durability key live_until)

  unfoldable pub read_instance_ttl : Members → Reads TraceEvent
  unfolding field as_address as_int
  read_instance_ttl m = as_address (field m "contract") >>= λ contract.
      as_int (field m "liveUntil") >>= λ live_until. ok (instance_ttl contract live_until)

  unfoldable pub read_code_ttl : Members → Reads TraceEvent
  unfolding field as_hex as_int
  read_code_ttl m = as_hex (field m "hash") >>= λ hash.
      as_int (field m "liveUntil") >>= λ live_until. ok (code_ttl hash live_until)

  unfoldable pub read_ttl : Members → Option Json → Reads (Option TraceEvent)
  unfolding read_data_ttl read_instance_ttl read_code_ttl
  read_ttl m (some (string target)) =
      if str_eq target "data"
      then modelled (read_data_ttl m)
      else if str_eq target "instance"
      then modelled (read_instance_ttl m)
      else if str_eq target "code"
      then modelled (read_code_ttl m)
      else ok none
  read_ttl m _ = ok none

  unfoldable pub read_code : Members → Reads TraceEvent
  unfolding field as_address as_hex
  read_code m = as_address (field m "contract") >>= λ contract.
      as_hex (field m "wasmHash") >>= λ wasm_hash. ok (contract_code contract wasm_hash)

  unfoldable pub read_deploy : Members → Reads TraceEvent
  unfolding field as_address as_hex as_int
  read_deploy m = as_address (field m "contract") >>= λ contract.
      as_hex (field m "wasmHash") >>= λ wasm_hash. as_int (field m "liveUntil") >>= λ live_until.
      ok (deploy_contract contract wasm_hash live_until)

  unfoldable pub read_account : Members → Reads TraceEvent
  unfolding account_entry
  read_account m = account_entry m >>= λ a. ok (account a.account a.balance)

  unfoldable pub read_info : Members → Reads TraceEvent
  unfolding field as_int
  read_info m = as_int (field m "sequence") >>= λ sequence.
      as_int (field m "timestamp") >>= λ timestamp. ok (ledger_info sequence timestamp)

  unfoldable pub read_object : Members → Reads TraceEvent
  unfolding field as_int as_scval
  read_object m = as_int (field m "index") >>= λ index.
      as_scval text trusted (field m "value") >>= λ value. ok (add_object index value)

  -- The kinds in the order of the source; `none` for a record that moves nothing.
  unfoldable pub parse_trace_event : Members → String → Reads (Option TraceEvent)
  unfolding read_ledger read_call read_end read_data read_ttl read_code read_deploy read_account
      read_info read_object field
  parse_trace_event m kind =
      if str_eq kind "ledger"
      then modelled (read_ledger m)
      else if str_eq kind "callContract"
      then modelled (read_call m)
      else if str_eq kind "endWasm"
      then modelled (read_end m)
      else if str_eq kind "contractData"
      then read_data m (field m "operation")
      else if str_eq kind "contractTtl"
      then read_ttl m (field m "target")
      else if str_eq kind "contractCode"
      then modelled (read_code m)
      else if str_eq kind "deployContract"
      then modelled (read_deploy m)
      else if str_eq kind "account"
      then modelled (read_account m)
      else if str_eq kind "ledgerInfo"
      then modelled (read_info m)
      else if str_eq kind "addObject"
      then modelled (read_object m)
      else ok none
