-- ===== src/Dwarf/Scope/Variables.antt =====
-- The declarations in scope and the inlined functions at an address, of src/dwarf/ScopeIndex.ts.
pub mod Visible
pub mod Collected
use stellar_debugger.Prelude.{
  ℕ, zero, suc, String, Bool, true, false, not, ◌&&◌, ◌||◌, Option, none, some, List, [], ◌∷◌, ◌++◌,
  ◌==◌, if◌then◌else◌,
}
use stellar_debugger.Prelude.Int.{ℤ, pos, leb_int, ltb_int}
use stellar_debugger.Prelude.NatMap.{get}
use stellar_debugger.Bytes.{Result, ok, fail, ◌>>=◌}
use stellar_debugger.Dwarf.Forms.{AttrValue, uint, block_value}
use stellar_debugger.Dwarf.Die.{
  Die, Dies, entry, nil, cons, tag_of, attrs_of, children_of, DieMap, die_name, die_string,
  die_uint, die_ref,
}
use stellar_debugger.Dwarf.Scope.{
  Scoped, RecordedFn, ScopeIndex, own_range, ranges_cover, record_at, block_of,
}

pub record ScopeVar : Type 0 where
  pub name : Option String
  pub type_ref : Option ℕ
  pub location_expr : Option (List ℕ)
  pub loc_list_offset : Option ℕ
  pub frame_base_expr : Option (List ℕ)
  pub cu_low_pc : ℤ
  pub optimized_out : Bool
  pub is_param : Bool

pub record InlineScope : Type 0 where
  pub name : Option String
  pub call_file_index : Option ℤ
  pub call_line : Option ℤ
  pub call_column : Option ℤ
  pub stmt_list_offset : Option ℤ
  pub variables : List ScopeVar

-- `pc >= low && pc < end`
abbrev pub in_range : ℕ → ℤ × ℤ → Bool
in_range pc r = leb_int r.0 (pos pc) && ltb_int (pos pc) r.1

-- What covers an address where the DIE bounds no range of its own: DW_AT_ranges (0x55), or what
-- the caller says of a DIE without.
unfoldable pub list_covers : Bool → Option (List ℕ) → Die → ℕ → ℤ → Scoped Bool
unfolding die_uint
list_covers otherwise section d pc cu_low_pc = elim (die_uint d 0x55) [
  | none ↦ ok otherwise
  | some o ↦ elim section [ none ↦ ok false | some s ↦ ranges_cover s o pc cu_low_pc ]
]

-- LLVM writes 0xffffffff for code that the linker dropped.
unfoldable pub is_tombstone : ℤ → Bool
is_tombstone low = leb_int low (pos 0xffffffff) && leb_int (pos 0xffffffff) low

unfoldable pub range_covers : Option (List ℕ) → Die → ℕ → ℤ → Scoped Bool
unfolding own_range list_covers is_tombstone
range_covers section d pc cu_low_pc = elim (own_range d) [
  | some r ↦ ok (not (is_tombstone r.0) && in_range pc r)
  | none ↦ list_covers false section d pc cu_low_pc
]

-- A block with no range covers what its parent does.
unfoldable pub block_covers : Option (List ℕ) → Die → ℕ → ℤ → Scoped Bool
unfolding own_range list_covers
block_covers section d pc cu_low_pc = elim (own_range d) [
  | some r ↦ ok (in_range pc r)
  | none ↦ list_covers true section d pc cu_low_pc
]

unfoldable pub uint_of : Option AttrValue → Option ℕ
uint_of (some (uint n)) = some n
uint_of _ = none

abbrev pub is_none : {A : Type 0} → Option A → Bool
is_none none = true
is_none (some a) = false

-- DW_AT_location is 0x02, DW_AT_type 0x49, DW_TAG_formal_parameter 0x05.
unfoldable pub to_scope_var : Die → Option (List ℕ) → ℤ → Option ScopeVar
unfolding die_name die_ref block_of uint_of get
to_scope_var d frame_base cu_low_pc =
    let location = get (attrs_of d) 0x02 in
    if is_none (die_name d) && is_none location
    then none
    else some (record {
      name = die_name d;
      type_ref = die_ref d 0x49;
      location_expr = block_of location;
      loc_list_offset = uint_of location;
      frame_base_expr = frame_base;
      cu_low_pc = cu_low_pc;
      optimized_out = is_none location;
      is_param = tag_of d == 0x05;
    })

-- DW_TAG_variable is 0x34.
unfoldable pub is_declaration : ℕ → Bool
is_declaration tag = tag == 0x05 || tag == 0x34

abbrev pub listed : {A : Type 0} → Option A → List A
listed none = []
listed (some a) = a ∷ []

-- The children of a scope in turn; a list for the variables that the source pushes. A block's tag
-- is 0x0b.
unfoldable pub collect : Option (List ℕ) → ℕ → Option (List ℕ) → ℤ → Dies → Scoped (List ScopeVar)
unfolding to_scope_var is_declaration block_covers
collect section pc frame_base low nil = ok []
collect section pc frame_base low (cons (entry offset tag attrs children) rest) =
    let d = entry offset tag attrs children in
    let onward = λ (own : List ScopeVar).
      collect section pc frame_base low rest >>= λ more. ok (own ++ more) in
    elim (is_declaration tag) [
      | true ↦ onward (listed (to_scope_var d frame_base low))
      | false ↦ elim (tag == 0x0b) [
        | false ↦ onward []
        | true ↦ block_covers section d pc low >>= λ b. elim b [
          | false ↦ onward []
          | true ↦ collect section pc frame_base low children >>= onward
        ]
      ]
    ]

unfoldable pub variables_in : ScopeIndex → ℕ → Option RecordedFn → Scoped (List ScopeVar)
unfolding collect
variables_in x pc none = ok []
variables_in x pc (some f) =
    collect x.debug_ranges pc f.frame_base_expr f.cu_low_pc (children_of f.die)

unfoldable pub variables_in_scope : ScopeIndex → ℕ → Scoped (List ScopeVar)
unfolding variables_in record_at
variables_in_scope x pc = record_at x pc >>= variables_in x pc

-- `a ?? b`
abbrev pub first_of : {A : Type 0} → Option A → Option A → Option A
first_of none b = b
first_of (some a) b = some a

-- The name that a reference leads to, by the names of DIEs.
unfoldable pub name_through : (Die → Option String) → DieMap → Option ℕ → Option String
unfolding get
name_through name m none = none
name_through name m (some o) = elim (get m o) [ none ↦ none | some d ↦ name d ]

-- By the hops that are left. DW_AT_abstract_origin is 0x31, DW_AT_specification 0x47 and
-- DW_AT_linkage_name 0x6e.
unfoldable pub resolved_name : ℕ → DieMap → Die → Option String
unfolding die_name die_string die_ref name_through
resolved_name zero m d = first_of (die_name d) (die_string d 0x6e)
resolved_name (suc hops) m d = first_of (die_name d) (
    first_of (name_through (resolved_name hops m) m (die_ref d 0x31))
      (first_of (name_through (resolved_name hops m) m (die_ref d 0x47)) (die_string d 0x6e)))

abbrev pub max_name_hops : ℕ
max_name_hops = 4

-- `callColumn > 0`
unfoldable pub positive : Option ℤ → Option ℤ
positive none = none
positive (some n) = if ltb_int (pos 0) n then some n else none

-- DW_AT_call_file is 0x58, DW_AT_call_line 0x59 and DW_AT_call_column 0x57.
unfoldable pub to_inline_scope : ScopeIndex → Die → ℕ → RecordedFn → Scoped InlineScope
unfolding collect resolved_name positive die_uint
to_inline_scope x d pc f =
    collect x.debug_ranges pc f.frame_base_expr f.cu_low_pc (children_of d) >>= λ vars. ok (record {
      name = resolved_name max_name_hops x.info.die_by_offset d;
      call_file_index = die_uint d 0x58;
      call_line = die_uint d 0x59;
      call_column = positive (die_uint d 0x57);
      stmt_list_offset = f.stmt_list_offset;
      variables = vars;
    })

-- DW_TAG_inlined_subroutine is 0x1d. An instance stands before those within it.
unfoldable pub collect_inlines : ScopeIndex → ℕ → RecordedFn → Dies → Scoped (List InlineScope)
unfolding range_covers block_covers to_inline_scope
collect_inlines x pc f nil = ok []
collect_inlines x pc f (cons (entry offset tag attrs children) rest) =
    let d = entry offset tag attrs children in
    let onward =
      λ (own : List InlineScope). collect_inlines x pc f rest >>= λ more. ok (own ++ more) in
    let within = collect_inlines x pc f children in
    elim (tag == 0x1d) [
      | true ↦ range_covers x.debug_ranges d pc f.cu_low_pc >>= λ b. elim b [
        | false ↦ onward []
        | true ↦ to_inline_scope x d pc f >>= λ i. within >>= λ inner. onward (i ∷ inner)
      ]
      | false ↦ elim (tag == 0x0b) [
        | false ↦ onward []
        | true ↦ block_covers x.debug_ranges d pc f.cu_low_pc >>= λ b. elim b [
          | false ↦ onward []
          | true ↦ within >>= onward
        ]
      ]
    ]

unfoldable pub inlines_in : ScopeIndex → ℕ → Option RecordedFn → Scoped (List InlineScope)
unfolding collect_inlines
inlines_in x pc none = ok []
inlines_in x pc (some f) = collect_inlines x pc f (children_of f.die)

unfoldable pub inline_scopes_at : ScopeIndex → ℕ → Scoped (List InlineScope)
unfolding inlines_in record_at
inline_scopes_at x pc = record_at x pc >>= inlines_in x pc
