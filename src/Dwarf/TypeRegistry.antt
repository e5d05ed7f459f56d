-- ===== src/Dwarf/TypeRegistry.antt =====
-- The types of src/dwarf/TypeRegistry.ts.
pub mod Ends
pub mod Memo
pub mod Strip
use stellar_debugger.Prelude.{
  ℕ, zero, suc, ◌+◌, String, Bool, true, false, Option, none, some, List, [], ◌∷◌, map, length,
  ◌==◌, if◌then◌else◌,
}
use stellar_debugger.Prelude.Int.{ℤ, pos, ◌+ℤ◌}
use stellar_debugger.Prelude.NatMap.{NatMap, get, set}
use stellar_debugger.Prelude.Sets.{has}
use stellar_debugger.Bytes.{Result, ok, fail, ◌>>=◌}
use stellar_debugger.Dwarf.{DwarfParseError, out_of_rounds, uleb}
use stellar_debugger.Dwarf.Forms.{AttrValue, uint, int, block_value}
use stellar_debugger.Dwarf.Die.{
  Die, Dies, nil, cons, tag_of, attrs_of, children_of, DieMap, die_name, die_uint, die_ref,
}

pub record Member : Type 0 where
  pub name : Option String
  pub type_ref : Option ℕ
  pub offset : ℤ

pub record Variant : Type 0 where
  pub discr_value : Option ℤ
  pub member : Member

pub record Discr : Type 0 where
  pub offset : ℤ
  pub type_ref : Option ℕ

-- The kinds in the order of the source, with their fields.
pub data DwarfType : Type 0 where
  base : Option String → Option ℤ → Option ℤ → DwarfType
  pointer : Option ℕ → ℤ → DwarfType
  struct_type union_type : Option String → Option ℤ → List Member → DwarfType
  array_type : Option ℕ → Option ℤ → DwarfType
  enum_type : Option String → Option ℤ → Option ℕ → List (Option String × Option ℤ) → DwarfType
  typedef : Option String → Option ℕ → DwarfType
  qualifier : Option ℕ → DwarfType
  rust_enum : Option String → Option ℤ → Option Discr → List Variant → DwarfType
  unresolved : Option ℕ → DwarfType

abbrev pub Typed : Type 0 → Type 0
Typed A = Result DwarfParseError A

-- `children.find((c) => c.tag === tag)`
unfoldable pub find_child : ℕ → Dies → Option Die
find_child tag nil = none
find_child tag (cons d rest) = if tag_of d == tag then some d else find_child tag rest

-- `children.filter((c) => c.tag === tag)`
unfoldable pub children_with : ℕ → Dies → List Die
children_with tag nil = []
children_with tag (cons d rest) =
    let others = children_with tag rest in if tag_of d == tag then d ∷ others else others

-- DW_OP_plus_uconst is 0x23; its operand is read from after it.
unfoldable pub expr_offset : List ℕ → Typed ℤ
expr_offset [] = ok (pos 0)
expr_offset (op ∷ rest) =
    if op == 0x23
    then uleb (record { buffer = rest; offset = 0 }) >>= (λ n. ok (pos n.0))
    else ok (pos 0)

unfoldable pub offset_of : Option AttrValue → Typed ℤ
unfolding expr_offset
offset_of (some (uint n)) = ok (pos n)
offset_of (some (int n)) = ok n
offset_of (some (block_value bytes)) = expr_offset bytes
offset_of _ = ok (pos 0)

-- DW_AT_data_member_location is 0x38.
unfoldable pub member_offset : Die → Typed ℤ
unfolding offset_of get
member_offset d = offset_of (get (attrs_of d) 0x38)

-- DW_AT_type is 0x49.
unfoldable pub build_member : Die → Typed Member
unfolding member_offset die_name die_ref
build_member d = member_offset d >>= λ offset.
    ok (record { name = die_name d; type_ref = die_ref d 0x49; offset = offset })

unfoldable pub each : {A : Type 0} → (Die → Typed A) → List Die → Typed (List A)
each f [] = ok []
each f (d ∷ ds) = f d >>= λ a. each f ds >>= λ rest. ok (a ∷ rest)

-- DW_TAG_member is 0x0d.
unfoldable pub members : Die → Typed (List Member)
unfolding each build_member children_with
members d = each build_member (children_with 0x0d (children_of d))

-- DW_AT_count is 0x37, DW_AT_upper_bound 0x2f.
unfoldable pub count_of : Option Die → Option ℤ
unfolding die_uint
count_of none = none
count_of (some sub) = elim (die_uint sub 0x37) [
  | some n ↦ some n
  | none ↦ elim (die_uint sub 0x2f) [ none ↦ none | some upper ↦ some (upper +ℤ pos 1) ]
]

-- DW_TAG_subrange_type is 0x21.
unfoldable pub array_count : Die → Option ℤ
unfolding find_child count_of
array_count d = count_of (find_child 0x21 (children_of d))

-- DW_TAG_enumerator is 0x28, DW_AT_const_value 0x1c.
unfoldable pub enumerators : Die → List (Option String × Option ℤ)
unfolding children_with die_name die_uint
enumerators d =
    map (λ (c : Die). (die_name c, die_uint c 0x1c)) (children_with 0x28 (children_of d))

-- DW_AT_discr is 0x15.
unfoldable pub discr_of : DieMap → Option ℕ → Typed (Option Discr)
unfolding member_offset die_ref get
discr_of dies none = ok none
discr_of dies (some o) = elim (get dies o) [
  | none ↦ ok none
  | some d ↦ member_offset d >>= λ offset.
      ok (some (record { offset = offset; type_ref = die_ref d 0x49 }))
]

abbrev pub no_member : Member
no_member = record { name = none; type_ref = none; offset = pos 0 }

unfoldable pub payload : Option Die → Typed Member
unfolding build_member
payload none = ok no_member
payload (some d) = build_member d

-- DW_AT_discr_value is 0x1e.
unfoldable pub build_variant : Die → Typed Variant
unfolding payload find_child die_uint
build_variant v = payload (find_child 0x0d (children_of v)) >>= λ m.
    ok (record { discr_value = die_uint v 0x1e; member = m })

-- DW_AT_byte_size is 0x0b, DW_TAG_variant 0x59.
unfoldable pub decode_rust_enum : DieMap → Die → Die → Typed DwarfType
unfolding discr_of each build_variant children_with die_name die_uint die_ref
decode_rust_enum dies d part = discr_of dies (die_ref part 0x15) >>= λ discr.
    each build_variant (children_with 0x59 (children_of part)) >>= λ variants.
    ok (rust_enum (die_name d) (die_uint d 0x0b) discr variants)

-- `byteSize || undefined`
unfoldable pub positive_size : Option ℤ → Option ℤ
positive_size (some (pos zero)) = none
positive_size o = o

-- `byteSize ?? 4`
unfoldable pub pointer_size : Option ℤ → ℤ
pointer_size none = pos 4
pointer_size (some n) = n

-- DW_TAG_variant_part is 0x33.
unfoldable pub decode_structure : DieMap → Die → Option Die → Typed DwarfType
unfolding decode_rust_enum members die_name die_uint
decode_structure dies d (some part) = decode_rust_enum dies d part
decode_structure dies d none =
    members d >>= λ ms. ok (struct_type (die_name d) (die_uint d 0x0b) ms)

-- The tags of DW_TAG_base_type and so on, in the order of the source; DW_AT_encoding is 0x3e.
unfoldable pub decode : DieMap → Die → Typed DwarfType
unfolding decode_structure members array_count enumerators positive_size pointer_size find_child
    die_name die_uint die_ref
decode dies d =
    let tag = tag_of d in
    if tag == 0x24
    then ok (base (die_name d) (die_uint d 0x3e) (positive_size (die_uint d 0x0b)))
    else if tag == 0x0f
    then ok (pointer (die_ref d 0x49) (pointer_size (die_uint d 0x0b)))
    else if tag == 0x13
    then decode_structure dies d (find_child 0x33 (children_of d))
    else if tag == 0x17
    then members d >>= (λ ms. ok (union_type (die_name d) (die_uint d 0x0b) ms))
    else if tag == 0x01
    then ok (array_type (die_ref d 0x49) (array_count d))
    else if tag == 0x04
    then ok (enum_type (die_name d) (die_uint d 0x0b) (die_ref d 0x49) (enumerators d))
    else if tag == 0x16
    then ok (typedef (die_name d) (die_ref d 0x49))
    else if tag == 0x26
    then ok (qualifier (die_ref d 0x49))
    else if tag == 0x35
    then ok (qualifier (die_ref d 0x49))
    else ok (unresolved (some tag))

abbrev pub Cache : Type 0
Cache = NatMap DwarfType

-- The cached type, or the decoded DIE, which is then cached.
unfoldable pub decode_cached : DieMap → Cache → ℕ → Option Die → Typed (DwarfType × Cache)
unfolding decode set
decode_cached dies cache o none = ok (unresolved none, cache)
decode_cached dies cache o (some d) = decode dies d >>= λ t. ok (t, set cache o t)

unfoldable pub resolve : DieMap → Cache → Option ℕ → Typed (DwarfType × Cache)
unfolding decode_cached get
resolve dies cache none = ok (unresolved none, cache)
resolve dies cache (some o) = elim (get cache o) [
  | some t ↦ ok (t, cache)
  | none ↦ decode_cached dies cache o (get dies o)
]

-- The target of a wrapper.
unfoldable pub target_of : DwarfType → Option ℕ
target_of (typedef name target) = target
target_of (qualifier target) = target
target_of _ = none

-- `seen` is a set, its newest element first.
unfoldable pub strip_loop : DieMap → ℕ → DwarfType → List ℕ → Cache → Typed (DwarfType × Cache)
unfolding resolve target_of
strip_loop dies zero current seen cache = fail out_of_rounds
strip_loop dies (suc fuel) current seen cache = elim (target_of current) [
  | none ↦ ok (current, cache)
  | some t ↦ elim (has seen t) [
    | true ↦ ok (current, cache)
    | false ↦ resolve dies cache (some t) >>= λ r. strip_loop dies fuel r.0 (t ∷ seen) r.1
  ]
]

-- A round adds an offset to `seen`, and goes on only from one that a DIE has.
unfoldable pub strip_typedefs : DieMap → Cache → DwarfType → Typed (DwarfType × Cache)
unfolding strip_loop
strip_typedefs dies cache type = strip_loop dies (length dies + 2) type [] cache
