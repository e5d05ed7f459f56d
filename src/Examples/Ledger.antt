-- ===== src/Examples/Ledger.antt =====
-- Runs and examples for the ledger reconstruction of src/debugAdapter/LedgerImage.ts.
use stellar_debugger.Prelude.{
  String, true, false, Option, none, some, List, [], ◌∷◌, ◌≡◌, refl, take, map,
}
use stellar_debugger.Prelude.Dict.{lookup, insert}
use stellar_debugger.Prelude.{◌↔◌}
use stellar_debugger.Prelude.Sort.{Holds}
use stellar_debugger.Ledger.{LedgerStorageEntry}
use stellar_debugger.Ledger.Queries.{storage_at}
use stellar_debugger.Ledger.Ordered.{IsStored, IsAskedFor, AreOrdered, storage_at-AreOrdered}
use stellar_debugger.Ledger.Reported.{IsReported, contains-changed_since_iff}
use stellar_debugger.ScVal.{vec, cons, nil, ScVal, scalar, scval_key}
use stellar_debugger.Ledger.{
  TraceAddress, instance_storage, persistent, TraceEvent, call_contract, end_wasm, put_data,
  del_data, initial_scan, storage_id,
}
use stellar_debugger.Ledger.Events.{entry_world}
use stellar_debugger.Ledger.Image.{scan_record, scan_loop, ledger_image, version_of, changed_since}
use stellar_debugger.Ledger.Replay.{at_record, version_of-replay}
use stellar_debugger.Ledger.Quiet.{done, quiet, SameCalls}
use stellar_debugger.Ledger.Rollback.{whole_call, call_rollback}
use stellar_debugger.Ledger.Changes.{contains}

abbrev user : TraceAddress
user = record { addr_type = "account"; value = "GA" }

abbrev token : TraceAddress
token = record { addr_type = "contract"; value = "CA" }

abbrev number : String → ScVal
number text = scalar "u32" text

-- A failed call that wrote one entry.
abbrev write : Option TraceEvent
write = some (put_data persistent token (number "1") (some (number "7")))

abbrev failed_call : List (Option TraceEvent)
failed_call =
    some (call_contract user token "set" [] 0 []) ∷ write ∷ none ∷ some (end_wasm false 0 none) ∷ []

version_of-replay_example :
    version_of (ledger_image failed_call) 2
    ≡ (at_record none 2 (scan_loop (take 2 failed_call) 0 initial_scan)).current
version_of-replay_example = version_of-replay failed_call 2 none refl

call_rollback_example :
    SameCalls initial_scan (
      scan_loop
        (whole_call user token "set" [] 0 [] false 0 none (write ∷ none ∷ []) [])
        0
        initial_scan)
    × ((scan_loop
          (whole_call user token "set" [] 0 [] false 0 none (write ∷ none ∷ []) [])
          0
          initial_scan).current.world
        ≡ entry_world token [] initial_scan.current.world)
call_rollback_example =
    call_rollback user token "set" [] 0 [] false 0 none (write ∷ none ∷ []) 0 initial_scan
      (quiet tt (quiet tt done))

abbrev one_write : List (Option TraceEvent)
one_write = write ∷ none ∷ some (del_data persistent token (number "1")) ∷ none ∷ []

-- The entry is there after the write, and gone once the deletion has taken effect.
written : changed_since (ledger_image one_write) 0 1 ≡ storage_id "CA" persistent (number "1") ∷ []
unfolding changed_since version_of ledger_image scan_loop scan_record lookup insert scval_key
written = refl

abbrev one_id : String
one_id = storage_id "CA" persistent (number "1")

contains-changed_since_iff_example :
    (contains (changed_since (ledger_image one_write) 0 1) one_id ≡ true)
    ↔ IsReported
        (lookup one_id (version_of (ledger_image one_write) 0).world.storage)
        (lookup one_id (version_of (ledger_image one_write) 1).world.storage)
contains-changed_since_iff_example = contains-changed_since_iff one_write 0 1 one_id

-- Two different vectors have one key: a comma in a text is not told from the one between items.
vec_keys_collide :
    scval_key (vec (cons (scalar "string" "a,string:b") nil))
    ≡ scval_key (vec (cons (scalar "string" "a") (cons (scalar "string" "b") nil)))
unfolding scval_key
vec_keys_collide = refl

storage_at_write : storage_at (ledger_image one_write) 0 none ≡ []
unfolding storage_at version_of ledger_image scan_loop scan_record lookup insert scval_key
storage_at_write = refl

-- A persistent and then an instance entry are written.
abbrev two_writes : List (Option TraceEvent)
two_writes =
    write ∷ some (put_data instance_storage token (number "1") (some (number "8"))) ∷ none ∷ []

instance_first :
    map (λ e. e.durability) (storage_at (ledger_image two_writes) 2 (some "CA"))
    ≡ instance_storage ∷ persistent ∷ []
unfolding storage_at version_of ledger_image scan_loop scan_record lookup insert scval_key
instance_first = refl

storage_at-AreOrdered_example :
    AreOrdered (storage_at (ledger_image two_writes) 2 (some "CA"))
    × ((e : LedgerStorageEntry)
        → Holds (storage_at (ledger_image two_writes) 2 (some "CA")) e ↔ (
            IsStored (version_of (ledger_image two_writes) 2).world.storage e
            × IsAskedFor (some "CA") e))
storage_at-AreOrdered_example = storage_at-AreOrdered (ledger_image two_writes) 2 (some "CA")
