-- ===== src/Komet/RoundTrip.antt =====
-- What src/komet/traceEvents.ts reads back from the records that Komet/Print writes.
use stellar_debugger.Prelude.{
  ℕ, zero, suc, ◌≡◌, refl, ap, ◌∙◌, String, false, Option, none, some, str_eq, if◌then◌else◌,
}
use stellar_debugger.Bytes.{Result, ok, fail, ◌>>=◌}
use stellar_debugger.ScVal.{
  ScVal, void, error, address, vec, map, scalar, ScVals, nil, cons, Entries, end, entry,
}
use stellar_debugger.Ledger.{TraceAddress}
use stellar_debugger.Komet.{Json, string, number, Members, member, field, items}
use stellar_debugger.Komet.Fields.{
  Reads, checked_hex, addr_type, hex_value, address_of, as_address, must_be_hex,
  must_be_account_or_contract,
}
use stellar_debugger.Komet.Values.{
  vec_items, map_entries, to_vec, to_map, carried, by_type, of_typed, typed, to_scval,
}
use stellar_debugger.Komet.Print.{
  IsHex, IsAddressKind, IsAddress, address_members, IsPlainType, print_address, print_scval,
  print_scvals, print_entries, IsValue, AreValues, AreEntries,
}

pub ok_then :
    {E A B : Type 0} {m : Result E A} {a : A} (f : A → Result E B) {r : Result E B}
    → m ≡ ok a
    → f a ≡ r
    → (m >>= f) ≡ r
ok_then f p q = ap (λ x. x >>= f) p ∙ q

pub checked_hex-IsHex : (s : String) → IsHex s → checked_hex s ≡ ok s
unfolding checked_hex
checked_hex-IsHex s h = ap (λ b. if b then ok s else fail must_be_hex) h

address_of-fields :
    (m : Members) (kind value : String)
    → field m "addrType" ≡ some (string kind)
    → field m "value" ≡ some (string value)
    → IsAddressKind kind
    → IsHex value
    → address_of m ≡ ok (record { addr_type = kind; value = value })
unfolding address_of addr_type hex_value
address_of-fields m kind value at_kind at_value k h =
    ok_then _
      (ap addr_type at_kind ∙ ap (λ b. if b then ok kind else fail must_be_account_or_contract) k)
      (ok_then _ (ap hex_value at_value ∙ checked_hex-IsHex value h) refl)

pub as_address-print : (a : TraceAddress) → IsAddress a → as_address (some (print_address a)) ≡ ok a
unfolding as_address field
as_address-print a h =
    address_of-fields (address_members a.addr_type a.value) a.addr_type a.value refl refl h.0 h.1

module _ (text : Json → String) (trusted : String → Json → ScVal) (number_of : String → ℕ)
    (text-string : (s : String) → text (string s) ≡ s) where
  abbrev reader : ℕ → Option (Json → Reads ScVal)
  reader zero = none
  reader (suc n) = some (to_scval text trusted n)

  to_scval-reader :
      (n : ℕ) (j : Json) → to_scval text trusted n j ≡ of_typed text trusted (reader n) (typed j)
  unfolding to_scval
  to_scval-reader zero j = refl
  to_scval-reader (suc n) j = refl

  -- A value with no items.
  void-print :
      (read : Option (Json → Reads ScVal))
      → of_typed text trusted read (typed (print_scval text number_of void)) ≡ ok void
  unfolding of_typed by_type typed field
  void-print read = refl

  error-print :
      (read : Option (Json → Reads ScVal)) (kind code : String)
      → text (number (number_of code)) ≡ code
      → of_typed text trusted read (typed (print_scval text number_of (error kind code)))
        ≡ ok (error kind code)
  unfolding of_typed by_type typed field
  error-print read kind code h = ap (λ c. ok (error kind c)) h

  address-print :
      (read : Option (Json → Reads ScVal)) (kind value : String)
      → IsAddressKind kind
      → IsHex value
      → of_typed text trusted read (typed (print_scval text number_of (address kind value)))
        ≡ ok (address kind value)
  unfolding of_typed by_type typed field
  address-print read kind value k h =
      ok_then (λ a. ok (address a.addr_type a.value))
        (address_of-fields (member "type" (string "address") (address_members kind value)) kind
          value refl refl k h)
        refl

  carried-plain :
      (read : Option (Json → Reads ScVal)) (type : String) (v : Json)
      → str_eq type "vec" ≡ false
      → str_eq type "map" ≡ false
      → carried text trusted read type v ≡ ok (scalar type (text v))
  unfolding carried
  carried-plain none type v p q = simp (p, q)
  carried-plain (some read) type v p q = simp (p, q)

  scalar-print :
      (read : Option (Json → Reads ScVal)) (type value : String)
      → IsPlainType type
      → of_typed text trusted read (typed (print_scval text number_of (scalar type value)))
        ≡ ok (scalar type value)
  unfolding of_typed by_type typed field
  scalar-print read type value h =
      simp (h.0, h.1, h.2, carried-plain read type (string value) h.3 h.4, text-string value)

  vec-print :
      (n : ℕ) (vs : ScVals)
      → vec_items (to_scval text trusted n) (items (print_scvals text number_of vs)) ≡ ok vs
      → to_scval text trusted (suc n) (print_scval text number_of (vec vs)) ≡ ok (vec vs)
  unfolding to_scval of_typed by_type carried to_vec typed field
  vec-print n vs h = ok_then _ h refl

  map-print :
      (n : ℕ) (es : Entries)
      → map_entries (to_scval text trusted n) (items (print_entries text number_of es)) ≡ ok es
      → to_scval text trusted (suc n) (print_scval text number_of (map es)) ≡ ok (map es)
  unfolding to_scval of_typed by_type carried to_map typed field
  map-print n es h = ok_then _ h refl

  vec_items-nil :
      (n : ℕ)
      → vec_items (to_scval text trusted n) (items (print_scvals text number_of nil)) ≡ ok nil
  unfolding vec_items items
  vec_items-nil n = refl

  vec_items-cons :
      (n : ℕ) (v : ScVal) (vs : ScVals)
      → to_scval text trusted n (print_scval text number_of v) ≡ ok v
      → vec_items (to_scval text trusted n) (items (print_scvals text number_of vs)) ≡ ok vs
      → vec_items (to_scval text trusted n) (items (print_scvals text number_of (cons v vs)))
        ≡ ok (cons v vs)
  unfolding vec_items items
  vec_items-cons n v vs p q = ok_then _ p (ok_then _ q refl)

  map_entries-end :
      (n : ℕ)
      → map_entries (to_scval text trusted n) (items (print_entries text number_of end)) ≡ ok end
  unfolding map_entries items
  map_entries-end n = refl

  map_entries-entry :
      (n : ℕ) (k v : ScVal) (es : Entries)
      → to_scval text trusted n (print_scval text number_of k) ≡ ok k
      → to_scval text trusted n (print_scval text number_of v) ≡ ok v
      → map_entries (to_scval text trusted n) (items (print_entries text number_of es)) ≡ ok es
      → map_entries (to_scval text trusted n) (items (print_entries text number_of (entry k v es)))
        ≡ ok (entry k v es)
  unfolding map_entries items
  map_entries-entry n k v es p q r = ok_then _ p (ok_then _ q (ok_then _ r refl))

  mutual
    pub to_scval-print :
        (n : ℕ) (v : ScVal)
        → IsValue text number_of n v
        → to_scval text trusted n (print_scval text number_of v) ≡ ok v
    to_scval-print n void h = to_scval-reader n _ ∙ void-print (reader n)
    to_scval-print n (error kind code) h = to_scval-reader n _ ∙ error-print (reader n) kind code h
    to_scval-print n (address kind value) h =
        to_scval-reader n _ ∙ address-print (reader n) kind value h.0 h.1
    to_scval-print n (scalar type value) h =
        to_scval-reader n _ ∙ scalar-print (reader n) type value h
    to_scval-print zero (vec vs) h = absurd h
    to_scval-print (suc n) (vec vs) h = vec-print n vs (vec_items-print n vs h)
    to_scval-print zero (map es) h = absurd h
    to_scval-print (suc n) (map es) h = map-print n es (map_entries-print n es h)

    vec_items-print :
        (n : ℕ) (vs : ScVals)
        → AreValues text number_of n vs
        → vec_items (to_scval text trusted n) (items (print_scvals text number_of vs)) ≡ ok vs
    vec_items-print n nil h = vec_items-nil n
    vec_items-print n (cons v vs) h =
        vec_items-cons n v vs (to_scval-print n v h.0) (vec_items-print n vs h.1)

    map_entries-print :
        (n : ℕ) (es : Entries)
        → AreEntries text number_of n es
        → map_entries (to_scval text trusted n) (items (print_entries text number_of es)) ≡ ok es
    map_entries-print n end h = map_entries-end n
    map_entries-print n (entry k v es) h =
        map_entries-entry n k v es (to_scval-print n k h.0) (to_scval-print n v h.1)
          (map_entries-print n es h.2)
