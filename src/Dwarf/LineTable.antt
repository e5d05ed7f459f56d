-- ===== src/Dwarf/LineTable.antt =====
-- The sorted line table of src/dwarf/LineTable.ts and its queries.
pub mod Sorted
pub mod Lookup
pub mod Build
pub mod Collect
pub mod Rows
pub mod Programs
use stellar_debugger.Prelude.{
  ℕ, zero, suc, ◌+◌, ◌-◌, ◌*◌, ◌≤◌, ◌<◌, ◌≡◌, refl, sym, ap, ◌∙◌, ◌⊎◌, inl, inr, String, Bool, true,
  false, not, ◌&&◌, ◌||◌, Option, none, some, List, [], ◌∷◌, length, get_elem?, get_elem?-lt,
  get_elem?-total, ltb, leb, leb→le, leb-false, le→leb, ◌==◌, str_eq, if◌then◌else◌, arith, tests,
  Bool-cases, Option-cases,
}
use stellar_debugger.Prelude.Int.{ℤ, int_eq}
use stellar_debugger.Prelude.Sort.{sort_by}
use stellar_debugger.Prelude.Search.{bisect, IsLast, bisect-IsLast}

pub record LineEntry : Type 0 where
  pub address : ℕ
  pub path : String
  pub line : ℤ
  pub column : ℕ
  pub is_stmt : Bool
  pub end_sequence : Bool

-- The comparison is negative: a lower address, or an end_sequence row against another row there.
unfoldable pub comes_before : LineEntry → LineEntry → Bool
comes_before a b =
    ltb a.address b.address || a.address == b.address && a.end_sequence && not b.end_sequence

-- `entries.sort(…)`, which is stable.
unfoldable pub sort_entries : List LineEntry → List LineEntry
unfolding sort_by comes_before
sort_entries entries = sort_by comes_before entries

-- `entries[i].address <= codeOffset`
abbrev pub starts_by_offset : List LineEntry → ℕ → ℕ → Bool
starts_by_offset entries offset i = elim (get_elem? entries i) [
  | none ↦ false
  | some e ↦ leb e.address offset
]

-- `found < 0 || entries[found].endSequence ? null : entries[found]`
unfoldable pub mapped_entry : Option LineEntry → Option LineEntry
mapped_entry none = none
mapped_entry (some e) = if e.end_sequence then none else some e

unfoldable pub found_entry : List LineEntry → Option ℕ → Option LineEntry
found_entry entries none = none
found_entry entries (some k) = get_elem? entries k

unfoldable pub lookup_entry : List LineEntry → ℕ → Option LineEntry
unfolding bisect mapped_entry found_entry
lookup_entry entries offset = mapped_entry (
    found_entry entries
      (bisect (starts_by_offset entries offset) (length entries) 0 (length entries) none))

unfoldable pub addresses_for : List LineEntry → String → ℤ → List ℕ
addresses_for [] path line = []
addresses_for (e ∷ entries) path line =
    let rest = addresses_for entries path line in
    if not e.end_sequence && str_eq e.path path && int_eq e.line line
    then e.address ∷ rest
    else rest
