-- ===== src/Komet/Entries.antt =====
-- What src/komet/traceEvents.ts reads back from the lists of values and entries of a record.
use stellar_debugger.Prelude.{
  ℕ, ◌≡◌, refl, ap, ◌∙◌, String, Option, none, some, List, [], ◌∷◌, map, All,
}
use stellar_debugger.Bytes.{ok, ◌>>=◌}
use stellar_debugger.ScVal.{ScVal, void, error, address, vec, map as map_value, scalar}
use stellar_debugger.Ledger.{
  Durability, instance_storage, persistent, temporary, durability_name, StorageEntry, AccountEntry,
  ContractEntry, CodeEntry,
}
use stellar_debugger.Komet.{Json, string, array, object, Members, items}
use stellar_debugger.Komet.Fields.{
  Reads, read_each, as_hex, as_durability, as_array, as_object, objects,
}
use stellar_debugger.Komet.Values.{to_scval, as_scval}
use stellar_debugger.Komet.Payload.{
  as_scvals, storage_entry, as_storage, account_entry, contract_entry, code_entry, call_result,
}
use stellar_debugger.Komet.Print.{
  print_list, IsHex, IsAddress, print_scval, IsValue, print_storage, IsStorage, print_account,
  print_contract, IsContract, print_code, print_result, IsResult,
}
use stellar_debugger.Komet.RoundTrip.{ok_then, checked_hex-IsHex, as_address-print, to_scval-print}

pub as_durability-print :
    (d : Durability) → as_durability (some (string (durability_name d))) ≡ ok d
unfolding as_durability durability_name
as_durability-print instance_storage = refl
as_durability-print persistent = refl
as_durability-print temporary = refl

pub as_hex-IsHex : (s : String) → IsHex s → as_hex (some (string s)) ≡ ok s
unfolding as_hex
as_hex-IsHex s h = checked_hex-IsHex s h

module _ {A B : Type 0} where
  read_each-map :
      (f : A → Reads B) (g : B → A) (P : B → Type 0) (bs : List B)
      → ((b : B) → P b → f (g b) ≡ ok b)
      → All P bs
      → read_each f (map g bs) ≡ ok bs
  unfolding read_each
  read_each-map f g P [] step h = refl
  read_each-map f g P (b ∷ bs) step h =
      ok_then (λ x. read_each f (map g bs) >>= λ xs. ok (x ∷ xs)) (step b h.0)
        (ok_then (λ xs. ok (b ∷ xs)) (read_each-map f g P bs step h.1) refl)

module _ {A : Type 0} where
  items-print_list : (f : A → Json) (l : List A) → items (print_list f l) ≡ map f l
  unfolding items
  items-print_list f [] = refl
  items-print_list f (a ∷ rest) = ap (λ l. f a ∷ l) (items-print_list f rest)

  as_object-map :
      (g : A → Members) (l : List A)
      → read_each as_object (map (λ a. object (g a)) l) ≡ ok (map g l)
  unfolding read_each as_object
  as_object-map g [] = refl
  as_object-map g (a ∷ l) = ok_then (λ ms. ok (g a ∷ ms)) (as_object-map g l) refl

  -- Objects that are written one by one are read back.
  pub objects-print :
      (f : Members → Reads A) (g : A → Members) (P : A → Type 0) (l : List A)
      → ((a : A) → P a → f (g a) ≡ ok a)
      → All P l
      → (objects (some (array (print_list (λ a. object (g a)) l))) >>= read_each f) ≡ ok l
  unfolding objects as_array
  objects-print f g P l step h =
      ok_then (read_each f)
        (ap (read_each as_object) (items-print_list (λ a. object (g a)) l) ∙ as_object-map g l)
        (read_each-map f g P l step h)

module _ (text : Json → String) (trusted : String → Json → ScVal) (number_of : String → ℕ)
    (text-string : (s : String) → text (string s) ≡ s) where
  pub as_scval-print :
      (v : ScVal)
      → IsValue text number_of 64 v
      → as_scval text trusted (some (print_scval text number_of v)) ≡ ok v
  unfolding as_scval
  as_scval-print v h = to_scval-print text trusted number_of text-string 64 v h

  pub as_scvals-print :
      (vs : List ScVal)
      → All (IsValue text number_of 64) vs
      → as_scvals text trusted (some (array (print_list (print_scval text number_of) vs))) ≡ ok vs
  unfolding as_scvals as_array
  as_scvals-print vs h =
      ap (read_each (to_scval text trusted 64)) (items-print_list (print_scval text number_of) vs)
      ∙ read_each-map (to_scval text trusted 64) (print_scval text number_of)
          (IsValue text number_of 64) vs (to_scval-print text trusted number_of text-string 64) h

  pub call_result-print :
      (r : Option ScVal)
      → IsResult text number_of r
      → call_result text trusted (some (print_result text number_of r)) ≡ ok r
  unfolding call_result
  call_result-print none h = refl
  call_result-print (some v) h = value v (ok_then (λ x. ok (some x)) (as_scval-print v h) refl)
    where
      value :
          (v : ScVal)
          → (as_scval text trusted (some (print_scval text number_of v)) >>= λ x. ok (some x))
            ≡ ok (some v)
          → call_result text trusted (some (print_scval text number_of v)) ≡ ok (some v)
      value void e = e
      value (error k c) e = e
      value (address k c) e = e
      value (vec vs) e = e
      value (map_value es) e = e
      value (scalar t s) e = e

  storage_entry-print :
      (e : StorageEntry)
      → IsStorage text number_of e
      → storage_entry text trusted (print_storage text number_of e) ≡ ok e
  unfolding storage_entry print_storage
  storage_entry-print e h =
      ok_then _ (as_durability-print e.durability)
        (ok_then _ (as_scval-print e.key h.0) (ok_then _ (as_scval-print e.value h.1) refl))

  pub account_entry-print :
      (e : AccountEntry)
      → IsAddress e.account
      → account_entry text trusted (print_account text number_of e) ≡ ok e
  unfolding account_entry
  account_entry-print e h = ok_then _ (as_address-print e.account h) refl

  pub as_storage-print :
      (es : List StorageEntry)
      → All (IsStorage text number_of) es
      → as_storage text trusted
          (some (array (print_list (λ e. object (print_storage text number_of e)) es)))
        ≡ ok es
  unfolding as_storage
  as_storage-print es h =
      objects-print (storage_entry text trusted) (print_storage text number_of)
        (IsStorage text number_of) es storage_entry-print h

  pub contract_entry-print :
      (e : ContractEntry)
      → IsContract text number_of e
      → contract_entry text trusted (print_contract text number_of e) ≡ ok e
  unfolding contract_entry
  contract_entry-print e h =
      ok_then _ (as_address-print e.contract h.0)
        (ok_then _ (as_hex-IsHex e.wasm_hash h.1) (ok_then _ (as_storage-print e.storage h.2) refl))

  pub code_entry-print :
      (e : CodeEntry) → IsHex e.hash → code_entry text trusted (print_code text number_of e) ≡ ok e
  unfolding code_entry
  code_entry-print e h = ok_then _ (as_hex-IsHex e.hash h) refl
