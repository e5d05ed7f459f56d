-- ===== src/Komet/Print.antt =====
-- The records that src/komet/traceEvents.ts documents: how a value, an entry and an event are
-- written as JSON, and which of them are well-formed.
use stellar_debugger.Prelude.{
  ℕ, zero, suc, ◌≡◌, String, true, false, ◌||◌, Option, none, some, List, [], ◌∷◌, str_eq, All,
}
use stellar_debugger.Lines.{codes}
use stellar_debugger.ScVal.{
  ScVal, void, error, address, vec, map, scalar, ScVals, nil, cons, Entries, end, entry,
}
use stellar_debugger.Ledger.{
  durability_name, TraceAddress, StorageEntry, AccountEntry, ContractEntry, CodeEntry, TraceEvent,
  ledger, call_contract, end_wasm, put_data, del_data, data_ttl, instance_ttl, code_ttl,
  contract_code, deploy_contract, account, ledger_info, add_object,
}
use stellar_debugger.Komet.{
  Json, null, bool, number, string, array, object, Items, no_items, item, Members, no_members,
  member, is_hex,
}

abbrev pub print_list : {A : Type 0} → (A → Json) → List A → Items
print_list f [] = no_items
print_list f (a ∷ rest) = item (f a) (print_list f rest)

abbrev pub IsHex : String → Type 0
IsHex s = is_hex (codes s) ≡ true

abbrev pub IsAddressKind : String → Type 0
IsAddressKind kind = (str_eq kind "account" || str_eq kind "contract") ≡ true

abbrev pub IsAddress : TraceAddress → Type 0
IsAddress a = IsAddressKind a.addr_type × IsHex a.value

-- A type with no case of its own.
abbrev pub IsPlainType : String → Type 0
IsPlainType type =
    (str_eq type "void" ≡ false)
    × (str_eq type "address" ≡ false)
    × (str_eq type "error" ≡ false)
    × (str_eq type "vec" ≡ false)
    × (str_eq type "map" ≡ false)

abbrev pub address_members : String → String → Members
address_members kind value =
    member "addrType" (string kind) (member "value" (string value) no_members)

abbrev pub print_address : TraceAddress → Json
print_address a = object (address_members a.addr_type a.value)

-- `number_of` gives the number of an error's code.
module _ (text : Json → String) (number_of : String → ℕ) where
  abbrev mutual
    pub print_scval : ScVal → Json
    print_scval void = object (member "type" (string "void") no_members)
    print_scval (error kind code) = object (
        member "type" (string "error")
          (member "errType" (string kind) (member "code" (number (number_of code)) no_members)))
    print_scval (address kind value) =
        object (member "type" (string "address") (address_members kind value))
    print_scval (vec vs) =
        object (member "type" (string "vec") (member "value" (array (print_scvals vs)) no_members))
    print_scval (map es) =
        object (member "type" (string "map") (member "value" (array (print_entries es)) no_members))
    print_scval (scalar type value) =
        object (member "type" (string type) (member "value" (string value) no_members))

    pub print_scvals : ScVals → Items
    print_scvals nil = no_items
    print_scvals (cons v vs) = item (print_scval v) (print_scvals vs)

    pub print_entries : Entries → Items
    print_entries end = no_items
    print_entries (entry k v es) =
        item (array (item (print_scval k) (item (print_scval v) no_items))) (print_entries es)

  -- Nested in no more than so many levels, with valid addresses and with codes that are numbers.
  abbrev mutual
    pub IsValue : ℕ → ScVal → Type 0
    IsValue n void = Unit {0}
    IsValue n (error kind code) = text (number (number_of code)) ≡ code
    IsValue n (address kind value) = IsAddressKind kind × IsHex value
    IsValue zero (vec vs) = ⊥
    IsValue (suc n) (vec vs) = AreValues n vs
    IsValue zero (map es) = ⊥
    IsValue (suc n) (map es) = AreEntries n es
    IsValue n (scalar type value) = IsPlainType type

    pub AreValues : ℕ → ScVals → Type 0
    AreValues n nil = Unit {0}
    AreValues n (cons v vs) = IsValue n v × AreValues n vs

    pub AreEntries : ℕ → Entries → Type 0
    AreEntries n end = Unit {0}
    AreEntries n (entry k v es) = IsValue n k × IsValue n v × AreEntries n es

  unfoldable pub print_storage : StorageEntry → Members
  unfolding durability_name
  print_storage e = member "durability" (string (durability_name e.durability)) (
      member "key" (print_scval e.key) (
        member "value" (print_scval e.value) (member "liveUntil" (number e.live_until) no_members)))

  abbrev pub IsStorage : StorageEntry → Type 0
  IsStorage e = IsValue 64 e.key × IsValue 64 e.value

  abbrev pub print_account : AccountEntry → Members
  print_account e =
      member "account" (print_address e.account) (member "balance" (number e.balance) no_members)

  abbrev pub print_contract : ContractEntry → Members
  print_contract e = member "contract" (print_address e.contract) (
      member "wasmHash" (string e.wasm_hash) (
        member "liveUntil" (number e.live_until) (
          member "storage" (array (print_list (λ s. object (print_storage s)) e.storage))
            no_members)))

  abbrev pub IsContract : ContractEntry → Type 0
  IsContract e = IsAddress e.contract × IsHex e.wasm_hash × All IsStorage e.storage

  abbrev pub print_code : CodeEntry → Members
  print_code e = member "hash" (string e.hash) (member "liveUntil" (number e.live_until) no_members)

  abbrev pub print_result : Option ScVal → Json
  print_result none = null
  print_result (some v) = print_scval v

  -- The fields of its record, other than `kind`.
  unfoldable pub print_event : TraceEvent → Members
  unfolding durability_name
  print_event (ledger sequence timestamp accounts contracts codes) =
      member "sequence" (number sequence) (
        member "timestamp" (number timestamp) (
          member "accounts" (array (print_list (λ e. object (print_account e)) accounts)) (
            member "contracts" (array (print_list (λ e. object (print_contract e)) contracts))
              (member "codes" (array (print_list (λ e. object (print_code e)) codes)) no_members))))
  print_event (call_contract from to function args depth storage) =
      member "from" (print_address from) (
        member "to" (print_address to) (
          member "function" (string function) (
            member "args" (array (print_list print_scval args)) (
              member "depth" (number depth) (
                member "storage" (array (print_list (λ e. object (print_storage e)) storage))
                  no_members)))))
  print_event (end_wasm success depth result) =
      member "success" (bool success)
        (member "depth" (number depth) (member "result" (print_result result) no_members))
  print_event (put_data durability contract key none) = no_members
  print_event (put_data durability contract key (some value)) = member "operation" (string "put") (
      member "durability" (string (durability_name durability)) (
        member "contract" (print_address contract)
          (member "args" (array (print_list print_scval (key ∷ value ∷ []))) no_members)))
  print_event (del_data durability contract key) = member "operation" (string "del") (
      member "durability" (string (durability_name durability)) (
        member "contract" (print_address contract)
          (member "args" (array (print_list print_scval (key ∷ []))) no_members)))
  print_event (data_ttl contract durability key live_until) = member "target" (string "data") (
      member "contract" (print_address contract) (
        member "durability" (string (durability_name durability))
          (member "key" (print_scval key) (member "liveUntil" (number live_until) no_members))))
  print_event (instance_ttl contract live_until) = member "target" (string "instance") (
      member "contract" (print_address contract)
        (member "liveUntil" (number live_until) no_members))
  print_event (code_ttl hash live_until) =
      member "target" (string "code")
        (member "hash" (string hash) (member "liveUntil" (number live_until) no_members))
  print_event (contract_code contract wasm_hash) =
      member "contract" (print_address contract) (member "wasmHash" (string wasm_hash) no_members)
  print_event (deploy_contract contract wasm_hash live_until) =
      member "contract" (print_address contract)
        (member "wasmHash" (string wasm_hash) (member "liveUntil" (number live_until) no_members))
  print_event (account a balance) =
      member "account" (print_address a) (member "balance" (number balance) no_members)
  print_event (ledger_info sequence timestamp) =
      member "sequence" (number sequence) (member "timestamp" (number timestamp) no_members)
  print_event (add_object index value) =
      member "index" (number index) (member "value" (print_scval value) no_members)

  abbrev pub IsResult : Option ScVal → Type 0
  IsResult none = Unit {0}
  IsResult (some v) = IsValue 64 v

  -- Addresses and hashes are hex, values are nested in no more than 64 levels, and a `put` has its
  -- value.
  abbrev pub IsEvent : TraceEvent → Type 0
  IsEvent (ledger sequence timestamp accounts contracts codes) =
      All (λ (e : AccountEntry). IsAddress e.account) accounts
      × All IsContract contracts
      × All (λ (e : CodeEntry). IsHex e.hash) codes
  IsEvent (call_contract from to function args depth storage) =
      IsAddress from × IsAddress to × All (IsValue 64) args × All IsStorage storage
  IsEvent (end_wasm success depth result) = IsResult result
  IsEvent (put_data durability contract key none) = ⊥
  IsEvent (put_data durability contract key (some value)) =
      IsAddress contract × IsValue 64 key × IsValue 64 value
  IsEvent (del_data durability contract key) = IsAddress contract × IsValue 64 key
  IsEvent (data_ttl contract durability key live_until) = IsAddress contract × IsValue 64 key
  IsEvent (instance_ttl contract live_until) = IsAddress contract
  IsEvent (code_ttl hash live_until) = IsHex hash
  IsEvent (contract_code contract wasm_hash) = IsAddress contract × IsHex wasm_hash
  IsEvent (deploy_contract contract wasm_hash live_until) = IsAddress contract × IsHex wasm_hash
  IsEvent (account a balance) = IsAddress a
  IsEvent (ledger_info sequence timestamp) = Unit {0}
  IsEvent (add_object index value) = IsValue 64 value

-- The `kind` of its record.
unfoldable pub kind_name : TraceEvent → String
kind_name (ledger sequence timestamp accounts contracts codes) = "ledger"
kind_name (call_contract from to function args depth storage) = "callContract"
kind_name (end_wasm success depth result) = "endWasm"
kind_name (put_data durability contract key value) = "contractData"
kind_name (del_data durability contract key) = "contractData"
kind_name (data_ttl contract durability key live_until) = "contractTtl"
kind_name (instance_ttl contract live_until) = "contractTtl"
kind_name (code_ttl hash live_until) = "contractTtl"
kind_name (contract_code contract wasm_hash) = "contractCode"
kind_name (deploy_contract contract wasm_hash live_until) = "deployContract"
kind_name (account a balance) = "account"
kind_name (ledger_info sequence timestamp) = "ledgerInfo"
kind_name (add_object index value) = "addObject"

-- The record of an event.
abbrev pub print_record : (Json → String) → (String → ℕ) → TraceEvent → Members
print_record text number_of e = member "kind" (string (kind_name e)) (print_event text number_of e)
