-- ===== src/Ledger/Keys.antt =====
-- No storage of LedgerImage.ts has an id twice.
use stellar_debugger.Prelude.{
  ◌≡◌, refl, ◌∙◌, String, Bool, true, false, List, [], ◌∷◌, All, All-append, arith, str_eq,
  str_eq_iff, if◌then◌else◌,
}
use stellar_debugger.Prelude.Dict.{Dict, lookup, insert, remove, lookup-insert, lookup-remove}
use stellar_debugger.Ledger.{
  StorageEntry, ContractEntry, LedgerStorageEntry, World, Version, Scan, commit, storage_id,
  patch_world,
}
use stellar_debugger.Ledger.Events.{seed_storage, seed_all, seed_contracts}
use stellar_debugger.Ledger.Changes.{KeysDiffer}

pub insert-KeysDiffer :
    (k : String) (e : LedgerStorageEntry) (m : Dict LedgerStorageEntry)
    → KeysDiffer m
    → KeysDiffer (insert k e m)
unfolding insert lookup
insert-KeysDiffer k e [] h = (refl, tt)
insert-KeysDiffer k e ((j, w) ∷ m) h = go (str_eq j k) refl (insert-KeysDiffer k e m h.1)
  where
    go :
        (b : Bool)
        → str_eq j k ≡ b
        → KeysDiffer (insert k e m)
        → KeysDiffer (if b then (j, e) ∷ m else (j, w) ∷ insert k e m)
    go true t ih = h
    go false t ih =
        (lookup-insert k j e m ∙ ground (arith, t, h.0, str_eq_iff j k, str_eq_iff k j), ih)

pub remove-KeysDiffer :
    (k : String) (m : Dict LedgerStorageEntry) → KeysDiffer m → KeysDiffer (remove k m)
unfolding remove lookup
remove-KeysDiffer k [] h = tt
remove-KeysDiffer k ((j, w) ∷ m) h = go (str_eq j k) (remove-KeysDiffer k m h.1)
  where
    go :
        (b : Bool)
        → KeysDiffer (remove k m)
        → KeysDiffer (if b then remove k m else (j, w) ∷ remove k m)
    go true ih = ih
    go false ih = (lookup-remove k j m ∙ ground (arith, h.0), ih)

pub seed_all-KeysDiffer :
    (contract : String) (entries : List StorageEntry) (m : Dict LedgerStorageEntry)
    → KeysDiffer m
    → KeysDiffer (seed_all contract entries m)
unfolding seed_all seed_storage
seed_all-KeysDiffer contract [] m h = h
seed_all-KeysDiffer contract (e ∷ entries) m h =
    seed_all-KeysDiffer contract entries _
      (insert-KeysDiffer (storage_id contract e.durability e.key) _ m h)

pub seed_contracts-KeysDiffer :
    (contracts : List ContractEntry) (m : Dict LedgerStorageEntry)
    → KeysDiffer m
    → KeysDiffer (seed_contracts contracts m)
unfolding seed_contracts
seed_contracts-KeysDiffer [] m h = h
seed_contracts-KeysDiffer (c ∷ rest) m h =
    seed_contracts-KeysDiffer rest _ (seed_all-KeysDiffer c.contract.value c.storage m h)

abbrev pub HasKeys : Version → Type 0
HasKeys v = KeysDiffer v.world.storage

-- In the current version, in every published one and in every saved world.
pub record KeysOk (s : Scan) : Type 0 where
  pub current : HasKeys s.current
  pub versions : All HasKeys s.versions
  pub saved : All (λ w. KeysDiffer w.storage) s.saved_worlds

pub commit-KeysOk : (v : Version) (s : Scan) → HasKeys v → KeysOk s → KeysOk (commit v s)
unfolding commit
commit-KeysOk v s h k = record {
  current = h;
  versions = All-append HasKeys s.versions (v ∷ []) k.versions (h, tt);
  saved = k.saved;
}

pub patch_world-KeysOk :
    (w : World) (s : Scan) → KeysDiffer w.storage → KeysOk s → KeysOk (patch_world w s)
unfolding patch_world
patch_world-KeysOk w s h k = commit-KeysOk (record s.current { world = w }) s h k
