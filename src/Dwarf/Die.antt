-- ===== src/Dwarf/Die.antt =====
-- The unit scan of src/dwarf/info.ts and the DIE trees of src/dwarf/die.ts.
use stellar_debugger.Prelude.{
  ℕ, zero, suc, ◌+◌, ◌-◌, ◌*◌, String, true, false, ◌&&◌, ◌||◌, Option, none, some, List, [], ◌∷◌,
  ◌++◌, length, ltb, ◌==◌, if◌then◌else◌,
}
use stellar_debugger.Prelude.Int.{ℤ, pos}
use stellar_debugger.Prelude.NatMap.{NatMap, get, set}
use stellar_debugger.Bytes.{Result, ok, fail, ◌>>=◌}
use stellar_debugger.Dwarf.{
  DwarfParseError, out_of_rounds, unsupported_version, unknown_code, Cursor, Read, at_end, skip, u8,
  u16, u32, uleb, cstring, initial_length, sub,
}
use stellar_debugger.Dwarf.Abbrev.{AbbrevAttr, AbbrevDecl, parse_abbrev_table}
use stellar_debugger.Dwarf.Forms.{
  AttrValue, uint, int, str, ref, FormContext, skip_by_form, string_at, read_form,
}

pub record DebugInfoSections : Type 0 where
  pub info : List ℕ
  pub abbrevs : List ℕ
  pub str_section : Option (List ℕ)
  pub line_str_section : Option (List ℕ)

pub record CompilationUnitInfo : Type 0 where
  pub stmt_list_offset : Option ℕ
  pub comp_dir : Option String
  pub name : Option String

-- The abbreviation offset and the address size of a unit header, after its length.
pub record UnitHeader : Type 0 where
  pub version : ℕ
  pub abbrev_offset : ℕ
  pub address_size : ℕ

unfoldable pub read_header : Cursor → Read UnitHeader
read_header c = u16 c >>= λ v.
    if v.0 == 4
    then u32 v.1 >>= (λ o.
      u8 o.1 >>= λ a. ok (record { version = v.0; abbrev_offset = o.0; address_size = a.0 }, a.1))
    else if v.0 == 5
    then u8 v.1 >>= (λ t. u8 t.1 >>= λ a. u32 a.1 >>= λ o.
        ok (record { version = v.0; abbrev_offset = o.0; address_size = a.0 }, o.1))
    else fail unsupported_version

-- `value ?? old`
unfoldable pub or_old : Option String → Option String → Option String
or_old none old = old
or_old (some s) old = some s

module _ (utf8 : List ℕ → String) where
  -- The address size is 4 whatever the header says.
  unfoldable pub read_string_form : ℕ → DebugInfoSections → Cursor → Read (Option String)
  unfolding string_at
  read_string_form form sections c =
      if form == 0x08
      then cstring utf8 c >>= (λ s. ok (some s.0, s.1))
      else if form == 0x0e
      then u32 c >>= (λ n. ok (string_at utf8 sections.str_section n.0, n.1))
      else if form == 0x1f
      then u32 c >>= (λ n. ok (string_at utf8 sections.line_str_section n.0, n.1))
      else skip_by_form utf8 form 4 c >>= (λ c'. ok (none, c'))

  -- One attribute of the root DIE: DW_AT_stmt_list is 0x10, DW_AT_comp_dir 0x1b, DW_AT_name 0x03.
  unfoldable pub scan_attr :
      AbbrevAttr → ℕ → DebugInfoSections → CompilationUnitInfo → Cursor → Read CompilationUnitInfo
  unfolding read_string_form or_old
  scan_attr attr size sections found c =
      if attr.at == 0x10 && (attr.form == 0x17 || attr.form == 0x06)
      then u32 c >>= (λ n. ok (record found { stmt_list_offset = some n.0 }, n.1))
      else if attr.at == 0x1b
      then read_string_form attr.form sections c
        >>= (λ s. ok (record found { comp_dir = or_old s.0 found.comp_dir }, s.1))
      else if attr.at == 0x03
      then read_string_form attr.form sections c
        >>= (λ s. ok (record found { name = or_old s.0 found.name }, s.1))
      else skip_by_form utf8 attr.form size c >>= (λ c'. ok (found, c'))

  unfoldable pub scan_attrs :
      List AbbrevAttr
      → ℕ
      → DebugInfoSections
      → CompilationUnitInfo
      → Cursor
      → Result DwarfParseError CompilationUnitInfo
  unfolding scan_attr
  scan_attrs [] size sections found c = ok found
  scan_attrs (a ∷ attrs) size sections found c =
      scan_attr a size sections found c >>= λ r. scan_attrs attrs size sections r.0 r.1

  abbrev pub no_info : CompilationUnitInfo
  no_info = record { stmt_list_offset = none; comp_dir = none; name = none }

  unfoldable pub scan_root :
      Option AbbrevDecl
      → ℕ
      → DebugInfoSections
      → Cursor
      → Result DwarfParseError CompilationUnitInfo
  unfolding scan_attrs
  scan_root none size sections c = fail unknown_code
  scan_root (some d) size sections c = scan_attrs d.attrs size sections no_info c

  unfoldable pub scan_unit : Cursor → DebugInfoSections → Result DwarfParseError CompilationUnitInfo
  unfolding read_header scan_root get
  scan_unit c sections = read_header c >>= λ h. uleb h.1 >>= λ code.
      if code.0 == 0
      then ok no_info
      else parse_abbrev_table sections.abbrevs h.0.abbrev_offset
        >>= (λ t. scan_root (get t code.0) h.0.address_size sections code.1)

  unfoldable pub scan_loop :
      ℕ
      → DebugInfoSections
      → Cursor
      → List CompilationUnitInfo
      → Result DwarfParseError (List CompilationUnitInfo)
  unfolding scan_unit at_end
  scan_loop zero sections c units = fail out_of_rounds
  scan_loop (suc fuel) sections c units = elim (at_end c) [
    | true ↦ ok units
    | false ↦ initial_length c >>= λ n. sub n.0 n.1 >>= λ body.
        scan_unit body.0 sections >>= λ u. scan_loop fuel sections body.1 (units ++ u ∷ [])
  ]

  -- Each unit takes four bytes at least.
  unfoldable pub scan_compilation_units :
      DebugInfoSections → Result DwarfParseError (List CompilationUnitInfo)
  unfolding scan_loop
  scan_compilation_units sections =
      scan_loop (length sections.info + 1) sections (record { buffer = sections.info; offset = 0 })
        []

-- A DIE by its offset in the section, its tag, its attributes and its children.
mutual
  pub data Die : Type 0 where
    entry : ℕ → ℕ → NatMap AttrValue → Dies → Die

  pub data Dies : Type 0 where
    nil : Dies
    cons : Die → Dies → Dies

abbrev pub sec_offset_of : Die → ℕ
sec_offset_of (entry offset tag attrs children) = offset

abbrev pub tag_of : Die → ℕ
tag_of (entry offset tag attrs children) = tag

abbrev pub attrs_of : Die → NatMap AttrValue
attrs_of (entry offset tag attrs children) = attrs

abbrev pub children_of : Die → Dies
children_of (entry offset tag attrs children) = children

abbrev pub DieMap : Type 0
DieMap = NatMap Die

pub record CompUnit : Type 0 where
  pub version : ℕ
  pub address_size : ℕ
  pub header_start : ℕ
  pub die : Die

pub record DebugInfo : Type 0 where
  pub units : List CompUnit
  pub die_by_offset : DieMap

module _ (utf8 : List ℕ → String) where
  unfoldable pub read_attrs :
      List AbbrevAttr → FormContext → NatMap AttrValue → Cursor → Read (NatMap AttrValue)
  unfolding set
  read_attrs [] ctx values c = ok (values, c)
  read_attrs (a ∷ attrs) ctx values c =
      read_form utf8 a ctx c >>= λ v. read_attrs attrs ctx (set values a.at v.0) v.1

  -- The source sets the map's entry before it reads the children, which it then adds to the entry.
  unfoldable pub finish_die :
      ℕ → ℕ → NatMap AttrValue → (Dies × DieMap) × Cursor → (Option Die × DieMap) × Cursor
  unfolding set
  finish_die offset tag attrs r =
      let d = entry offset tag attrs r.0.0 in ((some d, set r.0.1 offset d), r.1)

  -- A null entry is `none`. A call takes a byte at least before it makes another.
  unfoldable mutual
    unfolding read_attrs finish_die get

    pub read_die :
        ℕ → NatMap AbbrevDecl → FormContext → DieMap → Cursor → Read (Option Die × DieMap)
    read_die zero abbrevs ctx dies c = fail out_of_rounds
    read_die (suc fuel) abbrevs ctx dies c = uleb c >>= λ code. elim (code.0 == 0) [
      | true ↦ ok ((none, dies), code.1)
      | false ↦ elim (get abbrevs code.0) [
        | none ↦ fail unknown_code
        | some d ↦ read_attrs d.attrs ctx [] code.1 >>= λ a. elim d.has_children [
          | false ↦ ok (finish_die c.offset d.tag a.0 ((nil, dies), a.1))
          | true ↦
              read_children fuel abbrevs ctx dies a.1 >>= λ r. ok (finish_die c.offset d.tag a.0 r)
        ]
      ]
    ]

    pub read_children : ℕ → NatMap AbbrevDecl → FormContext → DieMap → Cursor → Read (Dies × DieMap)
    read_children zero abbrevs ctx dies c = fail out_of_rounds
    read_children (suc fuel) abbrevs ctx dies c = read_die fuel abbrevs ctx dies c >>= λ r.
        elim r.0.0 [
          | none ↦ ok ((nil, r.0.1), r.1)
          | some d ↦ read_children fuel abbrevs ctx r.0.1 r.1 >>= λ rest.
              ok ((cons d rest.0.0, rest.0.1), rest.1)
        ]

  unfoldable pub add_root : ℕ → UnitHeader → Option Die → List CompUnit → List CompUnit
  add_root start h none units = units
  add_root start h (some d) units =
      units
      ++ record {
        version = h.version;
        address_size = h.address_size;
        header_start = start;
        die = d;
      }
        ∷ []

  abbrev pub context_of : ℕ → UnitHeader → DebugInfoSections → FormContext
  context_of start h sections = record {
    address_size = h.address_size;
    cu_header_start = start;
    str_section = sections.str_section;
    line_str_section = sections.line_str_section;
  }

  -- Padding up to the end of the unit.
  unfoldable pub skip_padding : ℕ → Cursor → Result DwarfParseError Cursor
  skip_padding end c = if ltb c.offset end then skip (end - c.offset) c else ok c

  -- One unit.
  unfoldable pub read_unit :
      ℕ → DebugInfoSections → List CompUnit → DieMap → Cursor → Read (List CompUnit × DieMap)
  unfolding read_header read_die add_root skip_padding
  read_unit fuel sections units dies c = initial_length c >>= λ n. read_header n.1 >>= λ h.
      parse_abbrev_table sections.abbrevs h.0.abbrev_offset >>= λ abbrevs.
      read_die fuel abbrevs (context_of c.offset h.0 sections) dies h.1 >>= λ r.
      skip_padding (n.1.offset + n.0) r.1 >>= λ c'.
      ok ((add_root c.offset h.0 r.0.0 units, r.0.1), c')

  unfoldable pub units_loop :
      ℕ → ℕ → DebugInfoSections → List CompUnit → DieMap → Cursor → Result DwarfParseError DebugInfo
  unfolding read_unit at_end
  units_loop inner zero sections units dies c = fail out_of_rounds
  units_loop inner (suc fuel) sections units dies c = elim (at_end c) [
    | true ↦ ok (record { units = units; die_by_offset = dies })
    | false ↦ read_unit inner sections units dies c >>= λ r.
        units_loop inner fuel sections r.0.0 r.0.1 r.1
  ]

  unfoldable pub parse_debug_info : DebugInfoSections → Result DwarfParseError DebugInfo
  unfolding units_loop
  parse_debug_info sections =
      units_loop (2 * length sections.info + 2) (length sections.info + 1) sections [] []
        (record { buffer = sections.info; offset = 0 })

-- DW_AT_name is 0x03.
unfoldable pub str_value : Option AttrValue → Option String
str_value (some (str s)) = some s
str_value _ = none

unfoldable pub die_string : Die → ℕ → Option String
unfolding str_value get
die_string d at = str_value (get (attrs_of d) at)

unfoldable pub die_name : Die → Option String
unfolding die_string
die_name d = die_string d 0x03

unfoldable pub number_value : Option AttrValue → Option ℤ
number_value (some (uint n)) = some (pos n)
number_value (some (int n)) = some n
number_value _ = none

unfoldable pub die_uint : Die → ℕ → Option ℤ
unfolding number_value get
die_uint d at = number_value (get (attrs_of d) at)

unfoldable pub ref_value : Option AttrValue → Option ℕ
ref_value (some (ref n)) = some n
ref_value _ = none

unfoldable pub die_ref : Die → ℕ → Option ℕ
unfolding ref_value get
die_ref d at = ref_value (get (attrs_of d) at)
