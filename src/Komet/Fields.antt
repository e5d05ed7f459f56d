-- ===== src/Komet/Fields.antt =====
-- The accessors of `Fields` in src/komet/traceEvents.ts. A `Fields` is the members of its object;
-- the path that an error names is left out.
use stellar_debugger.Prelude.{
  ℕ, String, Bool, ◌||◌, Option, none, some, List, [], ◌∷◌, str_eq, if◌then◌else◌,
}
use stellar_debugger.Lines.{codes}
use stellar_debugger.Bytes.{Result, ok, fail, ◌>>=◌}
use stellar_debugger.Ledger.{Durability, instance_storage, persistent, temporary, TraceAddress}
use stellar_debugger.Komet.{
  Json, null, bool, number, string, array, object, Members, field, items, is_hex,
}

-- What a field must be.
pub data Expectation : Type 0 where
  must_be_number must_be_string must_be_hex must_be_bool must_be_durability : Expectation
  must_be_array must_be_object must_be_address must_be_scval must_be_pair : Expectation
  must_be_account_or_contract must_carry_value must_carry_array needs_arguments : Expectation

abbrev pub Reads : Type 0 → Type 0
Reads A = Result Expectation A

unfoldable pub read_each : {A B : Type 0} → (A → Reads B) → List A → Reads (List B)
read_each f [] = ok []
read_each f (a ∷ rest) = f a >>= λ b. read_each f rest >>= λ bs. ok (b ∷ bs)

unfoldable pub as_int : Option Json → Reads ℕ
as_int (some (number n)) = ok n
as_int _ = fail must_be_number

unfoldable pub as_string : Option Json → Reads String
as_string (some (string s)) = ok s
as_string _ = fail must_be_string

unfoldable pub checked_hex : String → Reads String
unfolding is_hex
checked_hex s = if is_hex (codes s) then ok s else fail must_be_hex

unfoldable pub as_hex : Option Json → Reads String
unfolding as_string checked_hex
as_hex o = as_string o >>= checked_hex

unfoldable pub as_bool : Option Json → Reads Bool
as_bool (some (bool b)) = ok b
as_bool _ = fail must_be_bool

unfoldable pub durability_of : String → Reads Durability
durability_of s =
    if str_eq s "instance"
    then ok instance_storage
    else if str_eq s "persistent"
    then ok persistent
    else if str_eq s "temporary"
    then ok temporary
    else fail must_be_durability

unfoldable pub as_durability : Option Json → Reads Durability
unfolding durability_of
as_durability (some (string s)) = durability_of s
as_durability _ = fail must_be_durability

-- `isEvenLengthHex` of any value.
unfoldable pub hex_value : Option Json → Reads String
unfolding checked_hex
hex_value (some (string s)) = checked_hex s
hex_value _ = fail must_be_hex

unfoldable pub addr_type : Option Json → Reads String
addr_type (some (string s)) =
    if str_eq s "account" || str_eq s "contract" then ok s else fail must_be_account_or_contract
addr_type _ = fail must_be_account_or_contract

unfoldable pub address_of : Members → Reads TraceAddress
unfolding field addr_type hex_value
address_of m = addr_type (field m "addrType") >>= λ kind.
    hex_value (field m "value") >>= λ value. ok (record { addr_type = kind; value = value })

unfoldable pub as_address : Option Json → Reads TraceAddress
unfolding address_of
as_address (some (object m)) = address_of m
as_address _ = fail must_be_address

-- `this.obj[key] ?? []`
unfoldable pub as_array : Option Json → Reads (List Json)
unfolding items
as_array none = ok []
as_array (some null) = ok []
as_array (some (array js)) = ok (items js)
as_array _ = fail must_be_array

unfoldable pub as_object : Json → Reads Members
as_object (object m) = ok m
as_object _ = fail must_be_object

unfoldable pub objects : Option Json → Reads (List Members)
unfolding as_array read_each as_object
objects o = as_array o >>= read_each as_object
