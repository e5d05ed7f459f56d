-- ===== src/Dwarf/Forms.antt =====
-- The attribute forms of src/dwarf/constants.ts, `skipByForm` of src/dwarf/info.ts and `readForm`
-- of src/dwarf/forms.ts.
pub mod Advance
use stellar_debugger.Prelude.{
  ℕ, zero, suc, ◌+◌, ◌-◌, ◌*◌, ◌^◌, String, Bool, true, not, Option, none, some, List, [], ◌∷◌,
  length, get_elem?, drop, leb, ◌==◌, if◌then◌else◌,
}
use stellar_debugger.Prelude.Int.{ℤ, pos}
use stellar_debugger.Bytes.{Result, ok, fail, ◌>>=◌, subarray}
use stellar_debugger.Dwarf.{
  DwarfParseError, unterminated, unknown_form, unsupported_size, out_of_rounds, Cursor, Read, skip,
  bytes, u8, u16, u32, uleb, sleb, cstring, index_of_zero,
}
use stellar_debugger.Dwarf.Abbrev.{AbbrevAttr}

-- The forms by their names, `DW_FORM_` left off.
pub data Form : Type 0 where
  addr block2 block4 data2 data4 data8 string block block1 data1 flag sdata strp udata : Form
  ref_addr ref1 ref2 ref4 ref8 ref_udata indirect sec_offset exprloc flag_present : Form
  strx addrx ref_sup4 strp_sup data16 line_strp ref_sig8 implicit_const loclistx rnglistx : Form
  ref_sup8 strx1 strx2 strx3 strx4 addrx1 addrx2 addrx3 addrx4 : Form

-- The forms from code 0 on: there is none of code 0 or 2.
abbrev forms : List (Option Form)
forms =
    none
    ∷ some addr
    ∷ none
    ∷ some block2
    ∷ some block4
    ∷ some data2
    ∷ some data4
    ∷ some data8
    ∷ some string
    ∷ some block
    ∷ some block1
    ∷ some data1
    ∷ some flag
    ∷ some sdata
    ∷ some strp
    ∷ some udata
    ∷ some ref_addr
    ∷ some ref1
    ∷ some ref2
    ∷ some ref4
    ∷ some ref8
    ∷ some ref_udata
    ∷ some indirect
    ∷ some sec_offset
    ∷ some exprloc
    ∷ some flag_present
    ∷ some strx
    ∷ some addrx
    ∷ some ref_sup4
    ∷ some strp_sup
    ∷ some data16
    ∷ some line_strp
    ∷ some ref_sig8
    ∷ some implicit_const
    ∷ some loclistx
    ∷ some rnglistx
    ∷ some ref_sup8
    ∷ some strx1
    ∷ some strx2
    ∷ some strx3
    ∷ some strx4
    ∷ some addrx1
    ∷ some addrx2
    ∷ some addrx3
    ∷ some addrx4
    ∷ []

-- What the `switch` on a form selects; `none` is its default case.
unfoldable pub form_of : ℕ → Option Form
form_of code = elim (get_elem? forms code) [ none ↦ none | some f ↦ f ]

abbrev pub after : {A : Type 0} → Read A → Result DwarfParseError Cursor
after m = m >>= λ r. ok r.1

-- `cursor.skip(cursor.u8())` and the like.
abbrev pub skip_counted : Read ℕ → Result DwarfParseError Cursor
skip_counted m = m >>= λ n. skip n.0 n.1

-- `new TextDecoder` of the platform.
module _ (utf8 : List ℕ → String) where
  -- The cases of the `switch`; `again` is the recursive call in the case of `indirect`.
  unfoldable pub skip_form :
      Form → ℕ → Cursor → Result DwarfParseError Cursor → Result DwarfParseError Cursor
  skip_form addr size c again = skip size c
  skip_form data1 size c again = skip 1 c
  skip_form ref1 size c again = skip 1 c
  skip_form flag size c again = skip 1 c
  skip_form strx1 size c again = skip 1 c
  skip_form addrx1 size c again = skip 1 c
  skip_form data2 size c again = skip 2 c
  skip_form ref2 size c again = skip 2 c
  skip_form strx2 size c again = skip 2 c
  skip_form addrx2 size c again = skip 2 c
  skip_form strx3 size c again = skip 3 c
  skip_form addrx3 size c again = skip 3 c
  skip_form data4 size c again = skip 4 c
  skip_form ref4 size c again = skip 4 c
  skip_form strx4 size c again = skip 4 c
  skip_form addrx4 size c again = skip 4 c
  skip_form sec_offset size c again = skip 4 c
  skip_form strp size c again = skip 4 c
  skip_form line_strp size c again = skip 4 c
  skip_form strp_sup size c again = skip 4 c
  skip_form ref_addr size c again = skip 4 c
  skip_form ref_sup4 size c again = skip 4 c
  skip_form data8 size c again = skip 8 c
  skip_form ref8 size c again = skip 8 c
  skip_form ref_sig8 size c again = skip 8 c
  skip_form ref_sup8 size c again = skip 8 c
  skip_form data16 size c again = skip 16 c
  skip_form string size c again = after (cstring utf8 c)
  skip_form block1 size c again = skip_counted (u8 c)
  skip_form block2 size c again = skip_counted (u16 c)
  skip_form block4 size c again = skip_counted (u32 c)
  skip_form block size c again = skip_counted (uleb c)
  skip_form exprloc size c again = skip_counted (uleb c)
  skip_form sdata size c again = after (sleb c)
  skip_form udata size c again = after (uleb c)
  skip_form ref_udata size c again = after (uleb c)
  skip_form strx size c again = after (uleb c)
  skip_form addrx size c again = after (uleb c)
  skip_form loclistx size c again = after (uleb c)
  skip_form rnglistx size c again = after (uleb c)
  skip_form indirect size c again = again
  skip_form flag_present size c again = ok c
  skip_form implicit_const size c again = ok c

  -- `indirect` reads the form and calls itself; each such call takes a byte at least.
  unfoldable pub skip_rounds : ℕ → ℕ → ℕ → Cursor → Result DwarfParseError Cursor
  unfolding skip_form form_of
  skip_rounds zero form size c = fail out_of_rounds
  skip_rounds (suc fuel) form size c =
      let again = uleb c >>= λ f. skip_rounds fuel f.0 size f.1 in
      elim (form_of form) [ none ↦ fail unknown_form | some f ↦ skip_form f size c again ]

  unfoldable pub skip_by_form : ℕ → ℕ → Cursor → Result DwarfParseError Cursor
  unfolding skip_rounds
  skip_by_form form size c = skip_rounds (length c.buffer + 2) form size c

-- A decoded value by its kind.
pub data AttrValue : Type 0 where
  uint : ℕ → AttrValue
  int : ℤ → AttrValue
  str : String → AttrValue
  flag_value : Bool → AttrValue
  ref : ℕ → AttrValue
  block_value : List ℕ → AttrValue
  unavailable : AttrValue

pub record FormContext : Type 0 where
  pub address_size : ℕ
  pub cu_header_start : ℕ
  pub str_section : Option (List ℕ)
  pub line_str_section : Option (List ℕ)

unfoldable pub read_uint : Cursor → ℕ → Read ℕ
read_uint c size =
    if size == 1
    then u8 c
    else if size == 2
    then u16 c
    else if size == 4
    then u32 c
    else fail unsupported_size

unfoldable pub read_u64 : Cursor → Read ℕ
read_u64 c = u32 c >>= λ low. u32 low.1 >>= λ high. ok (low.0 + high.0 * 2 ^ 32, high.1)

-- A value read, under a constructor.
abbrev pub under : {A : Type 0} → (A → AttrValue) → Read A → Read AttrValue
under kind m = m >>= λ r. ok (kind r.0, r.1)

-- `cursor.bytes(cursor.u8())` and the like.
abbrev pub counted_bytes : Read ℕ → Read AttrValue
counted_bytes m = m >>= λ n. bytes n.0 n.1 >>= λ b. ok (block_value b.0, b.1)

unfoldable pub implicit_value : Option ℤ → ℤ
implicit_value none = pos 0
implicit_value (some v) = v

module _ (utf8 : List ℕ → String) where
  -- The bytes up to the NUL at or after the offset, in a section that may be missing.
  unfoldable pub string_end : List ℕ → ℕ → Option ℕ → Option String
  string_end section offset none = none
  string_end section offset (some end) = some (utf8 (subarray section offset end))

  unfoldable pub string_at : Option (List ℕ) → ℕ → Option String
  unfolding string_end index_of_zero
  string_at none offset = none
  string_at (some section) offset =
      if leb (length section) offset
      then none
      else string_end section offset (index_of_zero (drop offset section) offset)

  unfoldable pub resolve_string : Option String → AttrValue
  resolve_string none = unavailable
  resolve_string (some s) = str s

  unfoldable pub string_in : Option (List ℕ) → Cursor → Read AttrValue
  unfolding string_at resolve_string
  string_in section c = u32 c >>= λ n. ok (resolve_string (string_at section n.0), n.1)

  -- `ctx.cuHeaderStart + …`
  abbrev pub relative : FormContext → Read ℕ → Read AttrValue
  relative ctx m = under (λ n. ref (ctx.cu_header_start + n)) m

  -- `skipByForm` at a form other than `indirect`.
  abbrev pub passed_over : Form → FormContext → Cursor → Read AttrValue
  passed_over f ctx c =
      skip_form utf8 f ctx.address_size c (fail unknown_form) >>= λ c'. ok (unavailable, c')

  -- The cases of the `switch`; `again` is the recursive call in the case of `indirect`.
  unfoldable pub form_value :
      Form → Option ℤ → FormContext → Cursor → Read AttrValue → Read AttrValue
  unfolding read_uint read_u64 implicit_value string_in skip_form
  form_value addr k ctx c again = under uint (read_uint c ctx.address_size)
  form_value data1 k ctx c again = under uint (u8 c)
  form_value data2 k ctx c again = under uint (u16 c)
  form_value data4 k ctx c again = under uint (u32 c)
  form_value data8 k ctx c again = under uint (read_u64 c)
  form_value data16 k ctx c again = under block_value (bytes 16 c)
  form_value sdata k ctx c again = under int (sleb c)
  form_value udata k ctx c again = under uint (uleb c)
  form_value string k ctx c again = under str (cstring utf8 c)
  form_value strp k ctx c again = string_in ctx.str_section c
  form_value line_strp k ctx c again = string_in ctx.line_str_section c
  form_value ref1 k ctx c again = relative ctx (u8 c)
  form_value ref2 k ctx c again = relative ctx (u16 c)
  form_value ref4 k ctx c again = relative ctx (u32 c)
  form_value ref8 k ctx c again = relative ctx (read_u64 c)
  form_value ref_udata k ctx c again = relative ctx (uleb c)
  form_value ref_addr k ctx c again = under ref (u32 c)
  form_value sec_offset k ctx c again = under uint (u32 c)
  form_value exprloc k ctx c again = counted_bytes (uleb c)
  form_value block k ctx c again = counted_bytes (uleb c)
  form_value block1 k ctx c again = counted_bytes (u8 c)
  form_value block2 k ctx c again = counted_bytes (u16 c)
  form_value block4 k ctx c again = counted_bytes (u32 c)
  form_value flag k ctx c again = under (λ (b : ℕ). flag_value (not (b == 0))) (u8 c)
  form_value flag_present k ctx c again = ok (flag_value true, c)
  form_value implicit_const k ctx c again = ok (int (implicit_value k), c)
  form_value indirect k ctx c again = again
  form_value strx k ctx c again = passed_over strx ctx c
  form_value strx1 k ctx c again = passed_over strx1 ctx c
  form_value strx2 k ctx c again = passed_over strx2 ctx c
  form_value strx3 k ctx c again = passed_over strx3 ctx c
  form_value strx4 k ctx c again = passed_over strx4 ctx c
  form_value addrx k ctx c again = passed_over addrx ctx c
  form_value addrx1 k ctx c again = passed_over addrx1 ctx c
  form_value addrx2 k ctx c again = passed_over addrx2 ctx c
  form_value addrx3 k ctx c again = passed_over addrx3 ctx c
  form_value addrx4 k ctx c again = passed_over addrx4 ctx c
  form_value strp_sup k ctx c again = passed_over strp_sup ctx c
  form_value ref_sup4 k ctx c again = passed_over ref_sup4 ctx c
  form_value ref_sup8 k ctx c again = passed_over ref_sup8 ctx c
  form_value ref_sig8 k ctx c again = passed_over ref_sig8 ctx c
  form_value loclistx k ctx c again = passed_over loclistx ctx c
  form_value rnglistx k ctx c again = passed_over rnglistx ctx c

  -- The form that `indirect` reads comes without an implicit constant.
  unfoldable pub read_rounds : ℕ → ℕ → Option ℤ → FormContext → Cursor → Read AttrValue
  unfolding form_value form_of
  read_rounds zero form k ctx c = fail out_of_rounds
  read_rounds (suc fuel) form k ctx c =
      let again = uleb c >>= λ f. read_rounds fuel f.0 none ctx f.1 in
      elim (form_of form) [ none ↦ fail unknown_form | some f ↦ form_value f k ctx c again ]

  unfoldable pub read_form : AbbrevAttr → FormContext → Cursor → Read AttrValue
  unfolding read_rounds
  read_form attr ctx c = read_rounds (length c.buffer + 2) attr.form attr.implicit_const ctx c
