-- ===== src/Komet/Values.antt =====
-- `toScVal` of src/komet/traceEvents.ts.
use stellar_debugger.Prelude.{
  ℕ, zero, suc, String, ◌||◌, Option, none, some, List, [], ◌∷◌, str_eq, if◌then◌else◌,
}
use stellar_debugger.Bytes.{ok, fail, ◌>>=◌}
use stellar_debugger.ScVal.{
  ScVal, void, error, address, vec, map, scalar, ScVals, nil, cons, Entries, end, entry,
}
use stellar_debugger.Komet.{
  Json, number, string, array, object, no_items, item, Members, field, items,
}
use stellar_debugger.Komet.Fields.{
  Reads, must_be_scval, must_be_pair, must_carry_value, must_carry_array, as_int, as_string,
  address_of,
}

-- A value's type and members, if it is an object with a text as its `type`.
unfoldable pub type_of : Option Json → Members → Option (String × Members)
type_of (some (string type)) m = some (type, m)
type_of _ m = none

unfoldable pub typed : Json → Option (String × Members)
unfolding type_of field
typed (object m) = type_of (field m "type") m
typed _ = none

unfoldable pub pair_of : Json → Option (Json × Json)
pair_of (array (item k (item v no_items))) = some (k, v)
pair_of _ = none

-- The items, each read by `read`.
unfoldable pub vec_items : (Json → Reads ScVal) → List Json → Reads ScVals
vec_items read [] = ok nil
vec_items read (j ∷ js) = read j >>= λ v. vec_items read js >>= λ vs. ok (cons v vs)

unfoldable pub map_entries : (Json → Reads ScVal) → List Json → Reads Entries
unfolding pair_of
map_entries read [] = ok end
map_entries read (j ∷ js) = elim (pair_of j) [
  | none ↦ fail must_be_pair
  | some p ↦ read p.0 >>= λ k. read p.1 >>= λ v. map_entries read js >>= λ es. ok (entry k v es)
]

unfoldable pub to_vec : (Json → Reads ScVal) → Json → Reads ScVal
unfolding vec_items items
to_vec read (array js) = vec_items read (items js) >>= λ vs. ok (vec vs)
to_vec read _ = fail must_carry_array

unfoldable pub to_map : (Json → Reads ScVal) → Json → Reads ScVal
unfolding map_entries items
to_map read (array js) = map_entries read (items js) >>= λ es. ok (map es)
to_map read _ = fail must_carry_array

-- `text` is JavaScript's `String`. A vec or a map below the depth limit is kept as it is: `trusted`
-- stands for the value that later code reads there.
module _ (text : Json → String) (trusted : String → Json → ScVal) where
  -- The value of a type with no case of its own, with the reader for its items above the limit.
  unfoldable pub carried : Option (Json → Reads ScVal) → String → Json → Reads ScVal
  unfolding to_vec to_map
  carried none type v =
      if str_eq type "vec" || str_eq type "map"
      then ok (trusted type v)
      else ok (scalar type (text v))
  carried (some read) type v =
      if str_eq type "vec"
      then to_vec read v
      else if str_eq type "map"
      then to_map read v
      else ok (scalar type (text v))

  unfoldable pub by_type : Option (Json → Reads ScVal) → String → Members → Reads ScVal
  unfolding carried address_of as_string as_int field
  by_type read type m =
      if str_eq type "void"
      then ok void
      else if str_eq type "address"
      then address_of m >>= (λ a. ok (address a.addr_type a.value))
      else if str_eq type "error"
      then as_string (field m "errType")
        >>= (λ kind. as_int (field m "code") >>= λ code. ok (error kind (text (number code))))
      else elim (field m "value") [ none ↦ fail must_carry_value | some v ↦ carried read type v ]

  unfoldable pub of_typed : Option (Json → Reads ScVal) → Option (String × Members) → Reads ScVal
  unfolding by_type
  of_typed read none = fail must_be_scval
  of_typed read (some t) = by_type read t.0 t.1

  -- With so many levels of nesting left.
  unfoldable pub to_scval : ℕ → Json → Reads ScVal
  unfolding of_typed typed
  to_scval zero j = of_typed none (typed j)
  to_scval (suc levels) j = of_typed (some (to_scval levels)) (typed j)

  -- MAX_SCVAL_DEPTH is 64.
  unfoldable pub as_scval : Option Json → Reads ScVal
  unfolding to_scval
  as_scval none = fail must_be_scval
  as_scval (some j) = to_scval 64 j
