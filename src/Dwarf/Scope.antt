-- ===== src/Dwarf/Scope.antt =====
-- The scope index of src/dwarf/ScopeIndex.ts: the functions that carry code, and the search for
-- the one around an address.
pub mod Ranges
pub mod RangeLists
pub mod Variables
use stellar_debugger.Prelude.{
  ℕ, zero, suc, ◌+◌, ◌-◌, ◌/◌, String, Bool, true, false, ◌&&◌, ◌||◌, Option, none, some, List, [],
  ◌∷◌, ◌++◌, ◌⊎◌, inl, inr, length, get_elem?, ltb, leb, ◌==◌, if◌then◌else◌,
}
use stellar_debugger.Prelude.Int.{ℤ, pos, negsuc, ◌+ℤ◌, ltb_int, leb_int}
use stellar_debugger.Prelude.NatMap.{get}
use stellar_debugger.Prelude.Sort.{sort_by}
use stellar_debugger.Bytes.{Result, ok, fail, ◌>>=◌}
use stellar_debugger.Dwarf.{DwarfParseError, past_end, out_of_rounds, Cursor, skip, u32}
use stellar_debugger.Dwarf.Forms.{AttrValue, block_value}
use stellar_debugger.Dwarf.Die.{
  Die, Dies, entry, nil, cons, tag_of, attrs_of, children_of, CompUnit, DebugInfo, die_name,
  die_uint,
}
use Prim.Native.String.{◌++◌ as concat}

abbrev pub Scoped : Type 0 → Type 0
Scoped A = Result DwarfParseError A

-- `FunctionScope` with the range material of `RecordedFn`.
pub record RecordedFn : Type 0 where
  pub die : Die
  pub name : Option String
  pub qualified_name : Option String
  pub frame_base_expr : Option (List ℕ)
  pub low_high : Option (ℤ × ℤ)
  pub ranges_offset : Option ℤ
  pub cu_low_pc : ℤ
  pub stmt_list_offset : Option ℤ

pub record UnitContext : Type 0 where
  pub cu_low_pc : ℤ
  pub stmt_list_offset : Option ℤ
  pub scope : List String

-- The functions of a contiguous range, and those of a range list.
pub record Recorded : Type 0 where
  pub contiguous : List RecordedFn
  pub ranged : List RecordedFn

unfoldable pub block_of : Option AttrValue → Option (List ℕ)
block_of (some (block_value b)) = some b
block_of _ = none

unfoldable pub expr_bytes : Die → ℕ → Option (List ℕ)
unfolding block_of get
expr_bytes d at = block_of (get (attrs_of d) at)

-- `?? 0`
unfoldable pub or_zero : Option ℤ → ℤ
or_zero none = pos 0
or_zero (some n) = n

-- `[...scope, name].join('::')`
unfoldable pub join_scope : List String → String → String
join_scope [] name = name
join_scope (s ∷ scope) name = concat s (concat "::" (join_scope scope name))

abbrev pub qualify : List String → Option String → Option String
qualify scope none = none
qualify scope (some name) = some (join_scope scope name)

-- `low` and `high`, the length, of a range that both bound.
unfoldable pub range_of : Option ℤ → Option ℤ → Option (ℤ × ℤ)
range_of (some low) (some high) = some (low, low +ℤ high)
range_of _ _ = none

-- DW_AT_low_pc is 0x11, DW_AT_high_pc 0x12.
unfoldable pub own_range : Die → Option (ℤ × ℤ)
unfolding range_of die_uint
own_range d = range_of (die_uint d 0x11) (die_uint d 0x12)

-- DW_AT_frame_base is 0x40, DW_AT_ranges 0x55. A contiguous function has no use of its range list.
unfoldable pub recorded_fn : Die → UnitContext → RecordedFn
unfolding own_range die_name die_uint expr_bytes join_scope
recorded_fn d unit = record {
  die = d;
  name = die_name d;
  qualified_name = qualify unit.scope (die_name d);
  frame_base_expr = expr_bytes d 0x40;
  low_high = own_range d;
  ranges_offset = elim (own_range d) [ none ↦ die_uint d 0x55 | some r ↦ none ];
  cu_low_pc = unit.cu_low_pc;
  stmt_list_offset = unit.stmt_list_offset;
}

-- A function with no range, such as a declaration, is left out.
unfoldable pub file_fn : RecordedFn → Recorded → Recorded
file_fn f r = elim f.low_high [
  | some range ↦ record r { contiguous = r.contiguous ++ f ∷ [] }
  | none ↦ elim f.ranges_offset [ some o ↦ record r { ranged = r.ranged ++ f ∷ [] } | none ↦ r ]
]

-- DW_TAG_namespace is 0x39, DW_TAG_structure_type 0x13.
unfoldable pub inner_context : Die → UnitContext → UnitContext
unfolding die_name
inner_context d unit =
    if tag_of d == 0x39 || tag_of d == 0x13
    then elim (die_name d) [ none ↦ unit | some n ↦ record unit { scope = unit.scope ++ n ∷ [] } ]
    else unit

-- DW_TAG_subprogram is 0x2e.
unfoldable mutual
  unfolding recorded_fn file_fn inner_context

  pub index_tree : Die → UnitContext → Recorded → Recorded
  index_tree (entry offset tag attrs children) unit r =
      let d = entry offset tag attrs children in
      index_children children (inner_context d unit)
        (if tag == 0x2e then file_fn (recorded_fn d unit) r else r)

  pub index_children : Dies → UnitContext → Recorded → Recorded
  index_children nil unit r = r
  index_children (cons d rest) unit r = index_children rest unit (index_tree d unit r)

-- DW_AT_stmt_list is 0x10.
unfoldable pub index_units : List CompUnit → Recorded → Recorded
unfolding index_tree or_zero die_uint
index_units [] r = r
index_units (u ∷ units) r = index_units units (
    index_tree u.die
      (record {
        cu_low_pc = or_zero (die_uint u.die 0x11);
        stmt_list_offset = die_uint u.die 0x10;
        scope = [];
      })
      r)

-- `a.lowHigh[0] - b.lowHigh[0]` is negative.
unfoldable pub starts_before : RecordedFn → RecordedFn → Bool
starts_before a b = elim a.low_high [
  | none ↦ false
  | some r ↦ elim b.low_high [ none ↦ false | some s ↦ ltb_int r.0 s.0 ]
]

pub record ScopeIndex : Type 0 where
  pub info : DebugInfo
  pub debug_ranges : Option (List ℕ)
  pub contiguous : List RecordedFn
  pub ranged : List RecordedFn

unfoldable pub scope_index : DebugInfo → Option (List ℕ) → ScopeIndex
unfolding index_units sort_by starts_before
scope_index info debug_ranges =
    let r = index_units info.units (record { contiguous = []; ranged = [] }) in
    record {
      info = info;
      debug_ranges = debug_ranges;
      contiguous = sort_by starts_before r.contiguous;
      ranged = r.ranged;
    }

-- One pair of the list: the end, a new base, or a range that covers the address or does not.
unfoldable pub pair_covers : ℤ → ℕ → ℕ → ℕ → Option Bool ⊎ ℤ
pair_covers base pc begin end =
    if begin == 0 && end == 0
    then inl (some false)
    else if begin == 0xffffffff
    then inr (pos end)
    else if leb_int (base +ℤ pos begin) (pos pc) && ltb_int (pos pc) (base +ℤ pos end)
    then inl (some true)
    else inl none

-- Each round takes eight bytes.
unfoldable pub cover_loop : ℕ → ℕ → ℤ → Cursor → Scoped Bool
unfolding pair_covers
cover_loop zero pc base c = fail out_of_rounds
cover_loop (suc fuel) pc base c = u32 c >>= λ b. u32 b.1 >>= λ e.
    elim (pair_covers base pc b.0 e.0) [
      | inl (some found) ↦ ok found
      | inl none ↦ cover_loop fuel pc base e.1
      | inr base' ↦ cover_loop fuel pc base' e.1
    ]

-- A negative offset, which no reader of this library yields for a range list, is out of bounds.
unfoldable pub ranges_cover : List ℕ → ℤ → ℕ → ℤ → Scoped Bool
unfolding cover_loop
ranges_cover section (negsuc n) pc cu_low_pc = fail past_end
ranges_cover section (pos offset) pc cu_low_pc =
    skip offset (record { buffer = section; offset = 0 }) >>= λ c.
    cover_loop (length section + 1) pc cu_low_pc c

-- Where the address stands to a range.
pub data Side : Type 0 where
  below inside above : Side

unfoldable pub side_of : ℕ → Option (ℤ × ℤ) → Side
side_of pc none = above
side_of pc (some r) =
    if ltb_int (pos pc) r.0 then below else if leb_int r.1 (pos pc) then above else inside

unfoldable pub side_at : List RecordedFn → ℕ → ℕ → Side
unfolding side_of
side_at fns pc i = elim (get_elem? fns i) [ none ↦ below | some f ↦ side_of pc f.low_high ]

-- The binary search, with the source's `hi` plus one.
unfoldable pub find_inside : (ℕ → Side) → ℕ → ℕ → ℕ → Option ℕ
find_inside side zero lo hi = none
find_inside side (suc fuel) lo hi =
    let mid = (lo + (hi - 1)) / 2 in
    elim (ltb lo hi) [
      | false ↦ none
      | true ↦ elim (side mid) [
        | below ↦ find_inside side fuel lo mid
        | above ↦ find_inside side fuel (mid + 1) hi
        | inside ↦ some mid
      ]
    ]

unfoldable pub fn_covers : List ℕ → ℕ → RecordedFn → Scoped Bool
unfolding ranges_cover
fn_covers section pc f = elim f.ranges_offset [
  | none ↦ ok false
  | some o ↦ ranges_cover section o pc f.cu_low_pc
]

unfoldable pub ranged_at : List ℕ → List RecordedFn → ℕ → Scoped (Option RecordedFn)
unfolding fn_covers
ranged_at section [] pc = ok none
ranged_at section (f ∷ fns) pc =
    fn_covers section pc f >>= λ b. elim b [ true ↦ ok (some f) | false ↦ ranged_at section fns pc ]

-- The contiguous function that the search found, or else one with a range list.
unfoldable pub found_fn : ScopeIndex → ℕ → Option ℕ → Scoped (Option RecordedFn)
unfolding ranged_at
found_fn x pc (some k) = ok (get_elem? x.contiguous k)
found_fn x pc none = elim x.debug_ranges [
  | none ↦ ok none
  | some section ↦ ranged_at section x.ranged pc
]

unfoldable pub record_at : ScopeIndex → ℕ → Scoped (Option RecordedFn)
unfolding find_inside side_at found_fn
record_at x pc =
    found_fn x pc
      (find_inside (side_at x.contiguous pc) (length x.contiguous) 0 (length x.contiguous))

unfoldable pub has_functions : ScopeIndex → Bool
has_functions x = ltb 0 (length x.contiguous) || ltb 0 (length x.ranged)

unfoldable pub name_or : Option RecordedFn → Option String → Option String
name_or none fallback = fallback
name_or (some f) fallback = elim f.name [ none ↦ fallback | some n ↦ some n ]

-- `fallback` is `nameFallback?.(pc)`.
unfoldable pub function_name_at : (ℕ → Option String) → ScopeIndex → ℕ → Scoped (Option String)
unfolding record_at name_or
function_name_at fallback x pc = record_at x pc >>= λ f. ok (name_or f (fallback pc))
