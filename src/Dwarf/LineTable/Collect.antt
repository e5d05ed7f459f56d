-- ===== src/Dwarf/LineTable/Collect.antt =====
-- The path cache of `collectEntries` in src/dwarf/LineTable.ts is not observable.
use stellar_debugger.Prelude.{
  ℕ, ◌≡◌, refl, sym, ap, ◌∙◌, String, Bool, true, false, Option, none, some, List, [], ◌∷◌, map,
  ◌==◌, ==→eq, if◌then◌else◌,
}
use stellar_debugger.Prelude.NatMap.{NatMap, get, set, get-set}
use stellar_debugger.Dwarf.Die.{CompilationUnitInfo}
use stellar_debugger.Dwarf.Line.{LineRow, LineProgramUnit}
use stellar_debugger.Dwarf.LineTable.{LineEntry}
use stellar_debugger.Dwarf.LineTable.Build.{
  PosixPath, resolve_file_path, resolve_cached, entry_of, collect_loop, collect_entries,
}

module _ (posix : PosixPath) where
  -- The entry of a row.
  abbrev pub resolved : LineProgramUnit → CompilationUnitInfo → LineRow → LineEntry
  resolved unit cu row = entry_of row (resolve_file_path posix unit cu row.file_index)

  module _ (unit : LineProgramUnit) (cu : CompilationUnitInfo) where
    abbrev path_of : ℕ → String
    path_of i = resolve_file_path posix unit cu i

    -- A cached path is that of its file.
    abbrev IsCached : NatMap String → Type 0
    IsCached cache = (i : ℕ) (p : String) → get cache i ≡ some p → p ≡ path_of i

    IsCached-set :
        (cache : NatMap String) (i : ℕ) → IsCached cache → IsCached (set cache i (path_of i))
    IsCached-set cache i h j p got = pick (i == j) refl (sym (get-set cache i j (path_of i)) ∙ got)
      where
        pick :
            (b : Bool)
            → (i == j) ≡ b
            → (if b then some (path_of i) else get cache j) ≡ some p
            → p ≡ path_of j
        pick false e g = h j p g
        pick true e g = sym (some_eq g) ∙ ap path_of (==→eq i j e)
          where
            some_eq : some (path_of i) ≡ some p → path_of i ≡ p
            some_eq q = cc

    resolve_cached-path :
        (cache : NatMap String) (i : ℕ)
        → IsCached cache
        → ((resolve_cached posix unit cu cache i).0 ≡ path_of i)
          × IsCached (resolve_cached posix unit cu cache i).1
    unfolding resolve_cached
    resolve_cached-path cache i h = go (get cache i) refl
      where
        result : Option String → String × NatMap String
        result (some path) = (path, cache)
        result none = (path_of i, set cache i (path_of i))

        go :
            (o : Option String)
            → get cache i ≡ o
            → ((result o).0 ≡ path_of i) × IsCached (result o).1
        go none e = (refl, IsCached-set cache i h)
        go (some p) e = (h i p e, h)

    collect_loop-map :
        (cache : NatMap String) (rows : List LineRow)
        → IsCached cache
        → collect_loop posix unit cu cache rows ≡ map (resolved unit cu) rows
    unfolding collect_loop
    collect_loop-map cache [] h = refl
    collect_loop-map cache (row ∷ rows) h =
        let (same, h') = resolve_cached-path cache row.file_index h in
        ap
          (λ p.
            entry_of row p
            ∷ collect_loop posix unit cu (resolve_cached posix unit cu cache row.file_index).1 rows)
          same
        ∙ ap (λ l. resolved unit cu row ∷ l)
            (collect_loop-map (resolve_cached posix unit cu cache row.file_index).1 rows h')

    pub collect_entries-map : collect_entries posix unit cu ≡ map (resolved unit cu) unit.rows
    unfolding collect_entries get
    collect_entries-map = collect_loop-map [] unit.rows nothing
      where
        nothing : IsCached []
        nothing i p e = cc
