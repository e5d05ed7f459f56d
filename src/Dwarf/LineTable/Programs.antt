-- ===== src/Dwarf/LineTable/Programs.antt =====
-- Which line programs the table of src/dwarf/LineTable.ts has: each that a unit names, once.
use stellar_debugger.Prelude.{
  ℕ, ◌≡◌, refl, sym, ap, ◌∙◌, inl, inr, String, Option, none, some, List, [], ◌∷◌, ◌++◌,
}
use stellar_debugger.Prelude.NatMap.{NatMap, get, set}
use stellar_debugger.Prelude.Sort.{Holds}
use stellar_debugger.Bytes.{Result, ok, fail, ◌>>=◌}
use stellar_debugger.Dwarf.{DwarfParseError}
use stellar_debugger.Dwarf.Die.{DebugInfoSections, CompilationUnitInfo, scan_compilation_units}
use stellar_debugger.Dwarf.Line.{LineProgramUnit, LineProgramAux, parse_line_program}
use stellar_debugger.Dwarf.LineTable.{LineEntry, sort_entries}
use stellar_debugger.Dwarf.LineTable.Sorted.{sort_entries-Has}
use stellar_debugger.Dwarf.LineTable.Build.{
  PosixPath, DwarfLineTable, new_program, units_loop, build_table, collect_entries, paths_from,
}
use stellar_debugger.Dwarf.LineTable.Rows.{
  IsRowOf, HasProgram, Built, Built-nil, Built-skip, Built-add,
}
use mathlib.Core.Path.{subst}

new_program-none :
    (known : NatMap (List String)) (m : Option ℕ) (o : ℕ)
    → new_program known m ≡ none
    → m ≡ some o
    → (ps : List String) × (get known o ≡ some ps)
unfolding new_program
new_program-none known none o e q = cc
new_program-none known (some k) o e q = go (get known k) refl e
  where
    same : some k ≡ some o → k ≡ o
    same x = cc

    go :
        (g : Option (List String))
        → get known k ≡ g
        → elim g [ some ps ↦ none | none ↦ some k ] ≡ none
        → (ps : List String) × (get known o ≡ some ps)
    go none a b = cc
    go (some ps) a b = (ps, subst (λ n. get known n ≡ some ps) (same q) a)

new_program-some :
    (known : NatMap (List String)) (m : Option ℕ) (o : ℕ)
    → new_program known m ≡ some o
    → (m ≡ some o) × (get known o ≡ none)
unfolding new_program
new_program-some known none o e = cc
new_program-some known (some k) o e = go (get known k) refl e
  where
    go :
        (g : Option (List String))
        → get known k ≡ g
        → elim g [ some ps ↦ none | none ↦ some k ] ≡ some o
        → (some k ≡ some o) × (get known o ≡ none)
    go none a b = (b, subst (λ n. get known n ≡ none) (same b) a)
      where
        same : some k ≡ some o → k ≡ o
        same x = cc
    go (some ps) a b = cc

module _ (posix : PosixPath) (utf8 : List ℕ → String) (debug_line : List ℕ) where
  abbrev Loops :
      LineProgramAux → List CompilationUnitInfo → List LineEntry × NatMap (List String) → Type 0
  Loops aux cus r =
      (known : NatMap (List String)) (out : List LineEntry)
      → units_loop posix utf8 debug_line aux cus known out ≡ ok r
      → Built posix utf8 debug_line aux cus known out r

  units_round-Built :
      (aux : LineProgramAux) (cu : CompilationUnitInfo) (cus : List CompilationUnitInfo)
      (r : List LineEntry × NatMap (List String))
      → Loops aux cus r
      → Loops aux (cu ∷ cus) r
  unfolding units_loop
  units_round-Built aux cu cus r rest known out e =
      by_program (new_program known cu.stmt_list_offset) refl e
    where
      added :
          (o : ℕ) → LineProgramUnit → Result DwarfParseError (List LineEntry × NatMap (List String))
      added o unit =
          units_loop posix utf8 debug_line aux cus
            (set known o (paths_from posix unit cu 0 unit.files))
            (out ++ collect_entries posix unit cu)

      by_unit :
          (o : ℕ)
          → cu.stmt_list_offset ≡ some o
          → get known o ≡ none
          → (m : Result DwarfParseError LineProgramUnit)
          → parse_line_program utf8 debug_line o aux ≡ m
          → (m >>= added o) ≡ ok r
          → Built posix utf8 debug_line aux (cu ∷ cus) known out r
      by_unit o at new (fail x) parsed q = cc
      by_unit o at new (ok unit) parsed q =
          Built-add posix utf8 debug_line aux cu o at unit parsed cus known out r new (
            rest (set known o (paths_from posix unit cu 0 unit.files))
              (out ++ collect_entries posix unit cu) q)

      by_program :
          (m : Option ℕ)
          → new_program known cu.stmt_list_offset ≡ m
          → elim m [
            | none ↦ units_loop posix utf8 debug_line aux cus known out
            | some o ↦ parse_line_program utf8 debug_line o aux >>= added o
          ]
            ≡ ok r
          → Built posix utf8 debug_line aux (cu ∷ cus) known out r
      by_program none at q =
          Built-skip posix utf8 debug_line aux cu cus known out r
            (λ o e. new_program-none known cu.stmt_list_offset o at e) (rest known out q)
      by_program (some o) at q =
          let (named, new) = new_program-some known cu.stmt_list_offset o at in
          by_unit o named new (parse_line_program utf8 debug_line o aux) refl q

  units_loop-Built :
      (aux : LineProgramAux) (cus : List CompilationUnitInfo)
      (r : List LineEntry × NatMap (List String))
      → Loops aux cus r
  unfolding units_loop
  units_loop-Built aux [] r known out e =
      subst (λ x. Built posix utf8 debug_line aux [] known out x) (same e)
        (Built-nil posix utf8 debug_line aux known out)
    where
      same :
          Path
            (Result DwarfParseError (List LineEntry × NatMap (List String)))
            (ok (out, known))
            (ok r)
          → (out, known) ≡ r
      same q = cc
  units_loop-Built aux (cu ∷ cus) r known out e =
      units_round-Built aux cu cus r (units_loop-Built aux cus r) known out e

  abbrev pub aux_of : DebugInfoSections → LineProgramAux
  aux_of sections = record {
    str_section = sections.str_section;
    line_str_section = sections.line_str_section;
  }

  -- The entries are the rows of the programs, and each program that a unit names is there.
  abbrev pub IsTableOf : DebugInfoSections → List CompilationUnitInfo → DwarfLineTable → Type 0
  IsTableOf sections cus table =
      ((e : LineEntry)
        → Holds table.entries e
        → IsRowOf posix utf8 debug_line (aux_of sections) cus e)
      × ((cu : CompilationUnitInfo) (o : ℕ)
          → Holds cus cu
          → cu.stmt_list_offset ≡ some o
          → HasProgram posix utf8 debug_line (aux_of sections) cus table.entries
              table.files_by_program o)

  table_IsTableOf :
      (sections : DebugInfoSections) (cus : List CompilationUnitInfo)
      (r : List LineEntry × NatMap (List String))
      → Built posix utf8 debug_line (aux_of sections) cus [] [] r
      → IsTableOf sections cus (record { entries = sort_entries r.0; files_by_program = r.1 })
  unfolding get
  table_IsTableOf sections cus r b = (
    (λ e h. elim (b.sound e ((sort_entries-Has e r.0).0 h)) [ inl m ↦ absurd m | inr m ↦ m ]),
    λ cu o h e. elim (b.complete cu o h e) [
      | inl m ↦
          let (c, held, (at, unit, parsed, rows, files)) = m in
          (c, held, (at, unit, parsed, (λ row k. (sort_entries-Has _ r.0).1 (rows row k)), files))
      | inr m ↦ absurd (empty m.0 m.1)
    ],
  )
    where
      empty : (ps : List String) → Path (Option (List String)) none (some ps) → ⊥
      empty ps q = cc

  -- Where the scan of the sections gives these units and the table is built: every entry is a row
  -- of a line program that one of the units names, with its file index resolved by that unit; and
  -- of each program that some unit names, one of the units that name it has all rows of the
  -- program in the table, and the paths of its files in the map under the program's offset.
  pub build_table-IsTableOf :
      (sections : DebugInfoSections) (cus : List CompilationUnitInfo) (table : DwarfLineTable)
      → scan_compilation_units utf8 sections ≡ ok cus
      → build_table posix utf8 debug_line sections ≡ ok table
      → IsTableOf sections cus table
  unfolding build_table
  build_table-IsTableOf sections cus table scanned e =
      go (loop cus) refl (ap (λ m. m >>= (λ us. loop us >>= tabled)) (sym scanned) ∙ e)
    where
      loop :
          List CompilationUnitInfo → Result DwarfParseError (List LineEntry × NatMap (List String))
      loop us = units_loop posix utf8 debug_line (aux_of sections) us [] []

      tabled : List LineEntry × NatMap (List String) → Result DwarfParseError DwarfLineTable
      tabled r = ok (record { entries = sort_entries r.0; files_by_program = r.1 })

      same :
          {t : DwarfLineTable}
          → Path (Result DwarfParseError DwarfLineTable) (ok t) (ok table)
          → t ≡ table
      same q = cc

      go :
          (m : Result DwarfParseError (List LineEntry × NatMap (List String)))
          → loop cus ≡ m
          → (m >>= tabled) ≡ ok table
          → IsTableOf sections cus table
      go (fail x) looped q = cc
      go (ok r) looped q =
          subst (IsTableOf sections cus) (same q)
            (table_IsTableOf sections cus r (units_loop-Built (aux_of sections) cus r [] [] looped))
