-- ===== src/Komet/Events.antt =====
-- `parseTraceEvent` of src/komet/traceEvents.ts on the records of events.
use stellar_debugger.Prelude.{ℕ, ◌≡◌, refl, String, Option, none, some, List, [], ◌∷◌}
use stellar_debugger.Bytes.{ok}
use stellar_debugger.ScVal.{ScVal}
use stellar_debugger.Ledger.{
  Durability, TraceAddress, StorageEntry, AccountEntry, ContractEntry, CodeEntry, TraceEvent,
  ledger, call_contract, end_wasm, put_data, del_data, data_ttl, instance_ttl, code_ttl,
  contract_code, deploy_contract, account, ledger_info, add_object,
}
use stellar_debugger.Komet.{Json, string}
use stellar_debugger.Komet.Payload.{account_entry, contract_entry, code_entry, parse_trace_event}
use stellar_debugger.Komet.Print.{
  IsHex, IsAddress, print_account, print_contract, IsContract, print_code, print_event,
  print_record, IsEvent, kind_name,
}
use stellar_debugger.Komet.RoundTrip.{ok_then, as_address-print}
use stellar_debugger.Komet.Entries.{
  as_durability-print, as_hex-IsHex, objects-print, as_scval-print, as_scvals-print,
  call_result-print, account_entry-print, contract_entry-print, code_entry-print, as_storage-print,
}

module _ (text : Json → String) (trusted : String → Json → ScVal) (number_of : String → ℕ)
    (text-string : (s : String) → text (string s) ≡ s) where
  -- The events of the ledger, of calls and of storage.
  abbrev IsReadBack : TraceEvent → Type 0
  IsReadBack e =
      parse_trace_event text trusted (print_record text number_of e) (kind_name e) ≡ ok (some e)

  ledger-IsReadBack :
      (sequence timestamp : ℕ) (accounts : List AccountEntry) (contracts : List ContractEntry)
      (codes : List CodeEntry)
      → IsEvent text number_of (ledger sequence timestamp accounts contracts codes)
      → IsReadBack (ledger sequence timestamp accounts contracts codes)
  unfolding parse_trace_event print_event kind_name
  ledger-IsReadBack sequence timestamp accounts contracts codes h =
      ok_then _
        (ok_then _
          (objects-print (account_entry text trusted) (print_account text number_of)
            (λ e. IsAddress e.account) accounts
            (account_entry-print text trusted number_of text-string) h.0)
          (ok_then _
            (objects-print (contract_entry text trusted) (print_contract text number_of)
              (IsContract text number_of) contracts
              (contract_entry-print text trusted number_of text-string) h.1)
            (ok_then _
              (objects-print (code_entry text trusted) (print_code text number_of)
                (λ e. IsHex e.hash) codes (code_entry-print text trusted number_of text-string) h.2)
              refl)))
        refl

  call-IsReadBack :
      (from to : TraceAddress) (function : String) (args : List ScVal) (depth : ℕ)
      (storage : List StorageEntry)
      → IsEvent text number_of (call_contract from to function args depth storage)
      → IsReadBack (call_contract from to function args depth storage)
  unfolding parse_trace_event print_event kind_name
  call-IsReadBack from to function args depth storage h =
      ok_then _
        (ok_then _ (as_address-print from h.0) (
          ok_then _ (as_address-print to h.1) (
            ok_then _ (as_scvals-print text trusted number_of text-string args h.2)
              (ok_then _ (as_storage-print text trusted number_of text-string storage h.3) refl))))
        refl

  put-IsReadBack :
      (durability : Durability) (contract : TraceAddress) (key : ScVal) (value : Option ScVal)
      → IsEvent text number_of (put_data durability contract key value)
      → IsReadBack (put_data durability contract key value)
  unfolding parse_trace_event print_event kind_name
  put-IsReadBack durability contract key none h = absurd h
  put-IsReadBack durability contract key (some value) h =
      ok_then _
        (ok_then _
          (as_scvals-print text trusted number_of text-string (key ∷ value ∷ []) (h.1, (h.2, tt)))
          (ok_then _ (as_durability-print durability)
            (ok_then _ (as_address-print contract h.0) refl)))
        refl

  -- An event whose addresses and hashes are even-length lowercase hex, whose values are nested in
  -- no more than 64 levels, and whose `put` has its value, is read back from the record that is
  -- written for it, whatever its kind.
  pub parse_trace_event-print :
      (e : TraceEvent)
      → IsEvent text number_of e
      → parse_trace_event text trusted (print_record text number_of e) (kind_name e) ≡ ok (some e)
  unfolding parse_trace_event print_event kind_name
  parse_trace_event-print (ledger sequence timestamp accounts contracts codes) h =
      ledger-IsReadBack sequence timestamp accounts contracts codes h
  parse_trace_event-print (call_contract from to function args depth storage) h =
      call-IsReadBack from to function args depth storage h
  parse_trace_event-print (end_wasm success depth result) h =
      ok_then _ (ok_then _ (call_result-print text trusted number_of text-string result h) refl)
        refl
  parse_trace_event-print (put_data durability contract key value) h =
      put-IsReadBack durability contract key value h
  parse_trace_event-print (del_data durability contract key) h =
      ok_then _
        (ok_then _ (as_scvals-print text trusted number_of text-string (key ∷ []) (h.1, tt)) (
          ok_then _ (as_durability-print durability)
            (ok_then _ (as_address-print contract h.0) refl)))
        refl
  parse_trace_event-print (data_ttl contract durability key live_until) h =
      ok_then _
        (ok_then _ (as_address-print contract h.0) (
          ok_then _ (as_durability-print durability)
            (ok_then _ (as_scval-print text trusted number_of text-string key h.1) refl)))
        refl
  parse_trace_event-print (instance_ttl contract live_until) h =
      ok_then _ (ok_then _ (as_address-print contract h) refl) refl
  parse_trace_event-print (code_ttl hash live_until) h =
      ok_then _ (ok_then _ (as_hex-IsHex hash h) refl) refl
  parse_trace_event-print (contract_code contract wasm_hash) h =
      ok_then _
        (ok_then _ (as_address-print contract h.0) (ok_then _ (as_hex-IsHex wasm_hash h.1) refl))
        refl
  parse_trace_event-print (deploy_contract contract wasm_hash live_until) h =
      ok_then _
        (ok_then _ (as_address-print contract h.0) (ok_then _ (as_hex-IsHex wasm_hash h.1) refl))
        refl
  parse_trace_event-print (account a balance) h =
      ok_then _
        (ok_then _
          (account_entry-print text trusted number_of text-string
            (record { account = a; balance = balance }) h)
          refl)
        refl
  parse_trace_event-print (ledger_info sequence timestamp) h = refl
  parse_trace_event-print (add_object index value) h =
      ok_then _ (ok_then _ (as_scval-print text trusted number_of text-string value h) refl) refl
