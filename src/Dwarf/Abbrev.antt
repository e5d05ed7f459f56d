-- ===== src/Dwarf/Abbrev.antt =====
-- The abbreviation tables of src/dwarf/abbrev.ts.
pub mod Progress
pub mod Rounds
use stellar_debugger.Prelude.{
  ℕ, zero, suc, ◌+◌, Bool, true, false, not, ◌&&◌, Option, none, some, List, [], ◌∷◌, ◌++◌, length,
  drop, ◌==◌, if◌then◌else◌,
}
use stellar_debugger.Prelude.Int.{ℤ}
use stellar_debugger.Bytes.{Result, ok, fail, ◌>>=◌}
use stellar_debugger.Dwarf.{DwarfParseError, out_of_rounds, Cursor, Read, u8, uleb, sleb}

pub record AbbrevAttr : Type 0 where
  pub at : ℕ
  pub form : ℕ
  pub implicit_const : Option ℤ

pub record AbbrevDecl : Type 0 where
  pub tag : ℕ
  pub has_children : Bool
  pub attrs : List AbbrevAttr

-- `decls.set(code, …)`
unfoldable pub set_decl : ℕ → AbbrevDecl → List (ℕ × AbbrevDecl) → List (ℕ × AbbrevDecl)
set_decl code d [] = (code, d) ∷ []
set_decl code d ((k, e) ∷ decls) =
    let rest = set_decl code d decls in if k == code then (k, d) ∷ decls else (k, e) ∷ rest

-- The value that DW_FORM_implicit_const keeps in the declaration.
unfoldable pub attr_value : ℕ → ℕ → Cursor → Read AbbrevAttr
attr_value at form c =
    if form == 0x21
    then sleb c >>= (λ v. ok (record { at = at; form = form; implicit_const = some v.0 }, v.1))
    else ok (record { at = at; form = form; implicit_const = none }, c)

-- One attribute, or `none` for the pair of zeros that ends them.
unfoldable pub read_attr : Cursor → Read (Option AbbrevAttr)
unfolding attr_value
read_attr c = uleb c >>= λ at. uleb at.1 >>= λ form.
    if at.0 == 0 && form.0 == 0
    then ok (none, form.1)
    else attr_value at.0 form.0 form.1 >>= (λ a. ok (some a.0, a.1))

unfoldable pub attrs_loop : ℕ → Cursor → List AbbrevAttr → Read (List AbbrevAttr)
unfolding read_attr
attrs_loop zero c attrs = fail out_of_rounds
attrs_loop (suc fuel) c attrs = read_attr c >>= λ a. elim a.0 [
  | none ↦ ok (attrs, a.1)
  | some attr ↦ attrs_loop fuel a.1 (attrs ++ attr ∷ [])
]

-- The declaration after its code.
unfoldable pub read_decl : ℕ → Cursor → Read AbbrevDecl
unfolding attrs_loop
read_decl fuel c = uleb c >>= λ tag. u8 tag.1 >>= λ children.
    attrs_loop fuel children.1 [] >>= λ attrs.
    ok (record { tag = tag.0; has_children = not (children.0 == 0); attrs = attrs.0 }, attrs.1)

unfoldable pub decls_loop :
    ℕ → ℕ → Cursor → List (ℕ × AbbrevDecl) → Result DwarfParseError (List (ℕ × AbbrevDecl))
unfolding read_decl set_decl
decls_loop inner zero c decls = fail out_of_rounds
decls_loop inner (suc fuel) c decls = uleb c >>= λ code. elim (code.0 == 0) [
  | true ↦ ok decls
  | false ↦ read_decl inner code.1 >>= λ d. decls_loop inner fuel d.1 (set_decl code.0 d.0 decls)
]

-- Every round of a loop takes a byte, or the read past the end throws.
unfoldable pub parse_abbrev_table : List ℕ → ℕ → Result DwarfParseError (List (ℕ × AbbrevDecl))
unfolding decls_loop
parse_abbrev_table section offset =
    let table = drop offset section in
    decls_loop (length table + 1) (length table + 1) (record { buffer = table; offset = 0 }) []
