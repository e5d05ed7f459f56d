-- ===== src/Ledger/Queries.antt =====
-- The queries of LedgerImage.ts that order their entries.
use stellar_debugger.Prelude.{
  ℕ, ◌+◌, ◌-◌, ◌/◌, ◌%◌, String, Bool, true, false, ◌||◌, ◌&&◌, Option, none, some, List, [], ◌∷◌,
  ltb, ◌==◌, str_eq, if◌then◌else◌,
}
use stellar_debugger.Prelude.Dict.{Dict}
use stellar_debugger.Prelude.Sort.{sort_by}
use stellar_debugger.Lines.{codes}
use stellar_debugger.Ledger.{
  Durability, instance_storage, persistent, temporary, LedgerStorageEntry, ContractMeta, CodeEntry,
}
use stellar_debugger.Ledger.Image.{LedgerImage, version_of}

pub record LedgerAccount : Type 0 where
  pub account : String
  pub balance : ℕ

pub record LedgerContract : Type 0 where
  pub contract : String
  pub wasm_hash : String
  pub live_until : ℕ

-- `DURABILITY_ORDER`
unfoldable pub durability_order : Durability → ℕ
durability_order instance_storage = 0
durability_order persistent = 1
durability_order temporary = 2

-- The UTF-16 units of a text's code points.
unfoldable pub utf16_units : List ℕ → List ℕ
utf16_units [] = []
utf16_units (c ∷ text) =
    let rest = utf16_units text in
    if ltb c 0x10000
    then c ∷ rest
    else (0xd800 + (c - 0x10000) / 0x400) ∷ (0xdc00 + (c - 0x10000) % 0x400) ∷ rest

-- `a < b` on texts, unit by unit.
unfoldable pub codes_before : List ℕ → List ℕ → Bool
codes_before a [] = false
codes_before [] (d ∷ b) = true
codes_before (c ∷ a) (d ∷ b) = let rest = codes_before a b in ltb c d || c == d && rest

-- `compare(a, b) < 0`
unfoldable pub text_before : String → String → Bool
unfolding codes_before utf16_units
text_before a b = codes_before (utf16_units (codes a)) (utf16_units (codes b))

unfoldable pub entry_before : LedgerStorageEntry → LedgerStorageEntry → Bool
unfolding durability_order text_before
entry_before a b =
    ltb (durability_order a.durability) (durability_order b.durability)
    || durability_order a.durability == durability_order b.durability && text_before a.id b.id

-- `entries.filter((e) => e.contract === contract)`, or all of them.
unfoldable pub of_contract : Option String → LedgerStorageEntry → Bool
of_contract none e = true
of_contract (some contract) e = str_eq e.contract contract

unfoldable pub chosen_entries : Option String → Dict LedgerStorageEntry → List LedgerStorageEntry
unfolding of_contract
chosen_entries contract [] = []
chosen_entries contract ((id, e) ∷ rest) =
    let more = chosen_entries contract rest in if of_contract contract e then e ∷ more else more

unfoldable pub storage_at : LedgerImage → ℕ → Option String → List LedgerStorageEntry
unfolding version_of chosen_entries sort_by entry_before
storage_at image cursor contract =
    sort_by entry_before (chosen_entries contract (version_of image cursor).world.storage)

unfoldable pub all_accounts : Dict ℕ → List LedgerAccount
all_accounts [] = []
all_accounts ((account, balance) ∷ rest) =
    record { account = account; balance = balance } ∷ all_accounts rest

unfoldable pub account_before : LedgerAccount → LedgerAccount → Bool
unfolding text_before
account_before a b = text_before a.account b.account

unfoldable pub accounts_at : LedgerImage → ℕ → List LedgerAccount
unfolding version_of all_accounts sort_by account_before
accounts_at image cursor =
    sort_by account_before (all_accounts (version_of image cursor).world.accounts)

unfoldable pub all_contracts : Dict ContractMeta → List LedgerContract
all_contracts [] = []
all_contracts ((contract, c) ∷ rest) =
    record { contract = contract; wasm_hash = c.wasm_hash; live_until = c.live_until }
    ∷ all_contracts rest

unfoldable pub contract_before : LedgerContract → LedgerContract → Bool
unfolding text_before
contract_before a b = text_before a.contract b.contract

unfoldable pub contracts_at : LedgerImage → ℕ → List LedgerContract
unfolding version_of all_contracts sort_by contract_before
contracts_at image cursor =
    sort_by contract_before (all_contracts (version_of image cursor).world.contracts)

unfoldable pub all_codes : Dict ℕ → List CodeEntry
all_codes [] = []
all_codes ((hash, live_until) ∷ rest) =
    record { hash = hash; live_until = live_until } ∷ all_codes rest

unfoldable pub code_before : CodeEntry → CodeEntry → Bool
unfolding text_before
code_before a b = text_before a.hash b.hash

unfoldable pub codes_at : LedgerImage → ℕ → List CodeEntry
unfolding version_of all_codes sort_by code_before
codes_at image cursor = sort_by code_before (all_codes (version_of image cursor).world.codes)
