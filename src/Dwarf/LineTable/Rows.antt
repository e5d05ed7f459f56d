-- ===== src/Dwarf/LineTable/Rows.antt =====
-- What the table that src/dwarf/LineTable.ts builds has.
use stellar_debugger.Prelude.{
  ℕ, ◌≡◌, refl, sym, ap, ◌∙◌, ◌⊎◌, inl, inr, ◌↔◌, String, false, Option, none, some, Bool-cases,
  List, [], ◌∷◌, ◌++◌, map, ◌==◌, ==→eq, ==_self, arith, if◌then◌else◌,
}
use stellar_debugger.Prelude.NatMap.{NatMap, get, set, get-set}
use stellar_debugger.Prelude.Sort.{Holds, Holds-append}
use stellar_debugger.Bytes.{ok}
use stellar_debugger.Dwarf.Die.{CompilationUnitInfo}
use stellar_debugger.Dwarf.Line.{LineRow, LineProgramUnit, LineProgramAux, parse_line_program}
use stellar_debugger.Dwarf.LineTable.{LineEntry}
use stellar_debugger.Dwarf.LineTable.Build.{PosixPath, collect_entries, paths_from}
use stellar_debugger.Dwarf.LineTable.Collect.{resolved, collect_entries-map}
use mathlib.Core.Path.{subst}

Holds-map :
    {A B : Type 0} (f : A → B) (l : List A) (b : B)
    → Holds (map f l) b
    → (a : A) × Holds l a × (b ≡ f a)
Holds-map f [] b h = absurd h
Holds-map f (x ∷ l) b (inl e) = (x, inl refl, sym e)
Holds-map f (x ∷ l) b (inr h) = let (a, m, e) = Holds-map f l b h in (a, inr m, e)

map-Holds : {A B : Type 0} (f : A → B) (l : List A) (a : A) → Holds l a → Holds (map f l) (f a)
map-Holds f [] a h = absurd h
map-Holds f (x ∷ l) a (inl e) = inl (ap f e)
map-Holds f (x ∷ l) a (inr h) = inr (map-Holds f l a h)

module _ (posix : PosixPath) (utf8 : List ℕ → String) (debug_line : List ℕ)
    (aux : LineProgramAux) where
  -- A row of the line program of a unit.
  abbrev pub IsRowOf : List CompilationUnitInfo → LineEntry → Type 0
  IsRowOf cus e =
      (cu : CompilationUnitInfo) × Holds cus cu
      × (o : ℕ) × (cu.stmt_list_offset ≡ some o)
      × (unit : LineProgramUnit) × (parse_line_program utf8 debug_line o aux ≡ ok unit)
      × (row : LineRow) × Holds unit.rows row
      × (e ≡ resolved posix unit cu row)

  -- One unit with the program at `o` has all its rows in the table, and its files under `o`.
  abbrev pub IsEntered : List LineEntry → NatMap (List String) → ℕ → CompilationUnitInfo → Type 0
  IsEntered entries known o cu =
      (cu.stmt_list_offset ≡ some o)
      × (unit : LineProgramUnit) × (parse_line_program utf8 debug_line o aux ≡ ok unit)
      × ((row : LineRow) → Holds unit.rows row → Holds entries (resolved posix unit cu row))
      × (get known o ≡ some (paths_from posix unit cu 0 unit.files))

  abbrev pub HasProgram :
      List CompilationUnitInfo → List LineEntry → NatMap (List String) → ℕ → Type 0
  HasProgram cus entries known o =
      (cu : CompilationUnitInfo) × Holds cus cu × IsEntered entries known o cu

  -- What the loop has made of the units, and of what was there before them.
  pub record Built (cus : List CompilationUnitInfo) (known : NatMap (List String))
      (out : List LineEntry) (r : List LineEntry × NatMap (List String)) : Type 0 where
    pub keeps : (e : LineEntry) → Holds out e → Holds r.0 e
    pub keeps_files :
        (o : ℕ) (paths : List String) → get known o ≡ some paths → get r.1 o ≡ some paths
    pub sound : (e : LineEntry) → Holds r.0 e → Holds out e ⊎ IsRowOf cus e
    pub complete :
        (cu : CompilationUnitInfo) (o : ℕ)
        → Holds cus cu
        → cu.stmt_list_offset ≡ some o
        → HasProgram cus r.0 r.1 o ⊎ ((paths : List String) × (get known o ≡ some paths))

  pub Built-nil :
      (known : NatMap (List String)) (out : List LineEntry) → Built [] known out (out, known)
  Built-nil known out = record {
    keeps = λ e h. h;
    keeps_files = λ o paths e. e;
    sound = λ e h. inl h;
    complete = λ cu o h e. absurd h;
  }

  IsRowOf-cons :
      (cu : CompilationUnitInfo) (cus : List CompilationUnitInfo) (e : LineEntry)
      → IsRowOf cus e
      → IsRowOf (cu ∷ cus) e
  IsRowOf-cons cu cus e h =
      let (c, m, o, at, unit, parsed, row, held, same) = h in
      (c, inr m, o, at, unit, parsed, row, held, same)

  HasProgram-cons :
      (cu : CompilationUnitInfo) (cus : List CompilationUnitInfo) (entries : List LineEntry)
      (known : NatMap (List String)) (o : ℕ)
      → HasProgram cus entries known o
      → HasProgram (cu ∷ cus) entries known o
  HasProgram-cons cu cus entries known o h = let (c, m, entered) = h in (c, inr m, entered)

  -- A unit with no program, or with one that is known.
  pub Built-skip :
      (cu : CompilationUnitInfo) (cus : List CompilationUnitInfo) (known : NatMap (List String))
      (out : List LineEntry) (r : List LineEntry × NatMap (List String))
      → ((o : ℕ)
          → cu.stmt_list_offset ≡ some o
          → (paths : List String) × (get known o ≡ some paths))
      → Built cus known out r
      → Built (cu ∷ cus) known out r
  Built-skip cu cus known out r old b = record {
    keeps = b.keeps;
    keeps_files = b.keeps_files;
    sound = λ e h. elim (b.sound e h) [ inl m ↦ inl m | inr m ↦ inr (IsRowOf-cons cu cus e m) ];
    complete = complete;
  }
    where
      complete :
          (c : CompilationUnitInfo) (o : ℕ)
          → Holds (cu ∷ cus) c
          → c.stmt_list_offset ≡ some o
          → HasProgram (cu ∷ cus) r.0 r.1 o ⊎ ((paths : List String) × (get known o ≡ some paths))
      complete c o (inl same) e = inr (old o (ap (λ x. x.stmt_list_offset) same ∙ e))
      complete c o (inr h) e = elim (b.complete c o h e) [
        | inl m ↦ inl (HasProgram-cons cu cus r.0 r.1 o m)
        | inr m ↦ inr m
      ]

  -- A unit with a program that is not known.
  module _ (cu : CompilationUnitInfo) (o : ℕ) (at : cu.stmt_list_offset ≡ some o)
      (unit : LineProgramUnit) (parsed : parse_line_program utf8 debug_line o aux ≡ ok unit) where
    abbrev paths : List String
    paths = paths_from posix unit cu 0 unit.files

    abbrev rows : List LineEntry
    rows = collect_entries posix unit cu

    rows-Holds : (e : LineEntry) → Holds rows e ↔ Holds (map (resolved posix unit cu) unit.rows) e
    rows-Holds e =
        subst (λ l. Holds l e ↔ Holds (map (resolved posix unit cu) unit.rows) e)
          (sym (collect_entries-map posix unit cu)) ((λ h. h), λ h. h)

    rows-IsRowOf :
        (cus : List CompilationUnitInfo) (e : LineEntry) → Holds rows e → IsRowOf (cu ∷ cus) e
    rows-IsRowOf cus e h =
        let (row, m, same) = Holds-map (resolved posix unit cu) unit.rows e ((rows-Holds e).0 h) in
        (cu, inl refl, o, at, unit, parsed, row, m, same)

    module _ (cus : List CompilationUnitInfo) (known : NatMap (List String)) (out : List LineEntry)
        (r : List LineEntry × NatMap (List String)) (new : get known o ≡ none)
        (b : Built cus (set known o paths) (out ++ rows) r) where
      added :
          (k : ℕ) (ps : List String) → get known k ≡ some ps → get (set known o paths) k ≡ some ps
      added k ps e = elim (Bool-cases (o == k)) [
        | inl t ↦ absurd (none_some (sym new ∙ ap (get known) (==→eq o k t) ∙ e))
        | inr f ↦ get-set known o k paths ∙ ap (λ x. if x then some paths else get known k) f ∙ e
      ]
        where
          none_some : Path (Option (List String)) none (some ps) → ⊥
          none_some q = cc

      program-Entered : HasProgram (cu ∷ cus) r.0 r.1 o
      program-Entered = (
        cu,
        inl refl,
        (
          at,
          unit,
          parsed,
          (λ row h. b.keeps (resolved posix unit cu row) (
              (Holds-append out rows (resolved posix unit cu row)).1 (
                inr (
                  (rows-Holds (resolved posix unit cu row)).1
                    (map-Holds (resolved posix unit cu) unit.rows row h))))),
          b.keeps_files o paths (
              get-set known o o paths
              ∙ ap (λ x. if x then some paths else get known o) (==_self o)),
        ),
      )

      others-Entered :
          (c : CompilationUnitInfo) (k : ℕ)
          → (o == k) ≡ false
          → Holds (cu ∷ cus) c
          → c.stmt_list_offset ≡ some k
          → HasProgram (cu ∷ cus) r.0 r.1 k ⊎ ((ps : List String) × (get known k ≡ some ps))
      others-Entered c k f (inl same) e =
          absurd (other (sym at ∙ ap (λ x. x.stmt_list_offset) same ∙ e))
        where
          other : some o ≡ some k → ⊥
          other q = ground (arith, f, q)
      others-Entered c k f (inr h) e = elim (b.complete c k h e) [
        | inl m ↦ inl (HasProgram-cons cu cus r.0 r.1 k m)
        | inr m ↦ inr (
          m.0,
          sym (get-set known o k paths ∙ ap (λ x. if x then some paths else get known k) f) ∙ m.1,
        )
      ]

      pub Built-add : Built (cu ∷ cus) known out r
      Built-add = record {
        keeps = λ e h. b.keeps e ((Holds-append out rows e).1 (inl h));
        keeps_files = λ k ps e. b.keeps_files k ps (added k ps e);
        sound = λ e h. elim (b.sound e h) [
          | inl m ↦ elim ((Holds-append out rows e).0 m) [
            | inl old ↦ inl old
            | inr mine ↦ inr (rows-IsRowOf cus e mine)
          ]
          | inr m ↦ inr (IsRowOf-cons cu cus e m)
        ];
        complete = λ c k h e. elim (Bool-cases (o == k)) [
          | inl t ↦ inl (subst (λ n. HasProgram (cu ∷ cus) r.0 r.1 n) (==→eq o k t) program-Entered)
          | inr f ↦ others-Entered c k f h e
        ];
      }
