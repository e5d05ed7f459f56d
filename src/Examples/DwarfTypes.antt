-- ===== src/Examples/DwarfTypes.antt =====
-- Runs and examples for the types of src/dwarf/TypeRegistry.ts.
use stellar_debugger.Prelude.{◌≡◌, refl, none, some, [], ◌∷◌}
use stellar_debugger.Prelude.Int.{pos}
use stellar_debugger.Prelude.NatMap.{get, set}
use stellar_debugger.Bytes.{ok}
use stellar_debugger.Dwarf.Location.Forward.{Sane}
use stellar_debugger.Dwarf.Forms.{uint, ref, str}
use stellar_debugger.Dwarf.Die.{Die, DieMap, entry, nil}
use stellar_debugger.Dwarf.TypeRegistry.{
  DwarfType, base, typedef, qualifier, Cache, decode, resolve, strip_typedefs,
}
use stellar_debugger.Dwarf.TypeRegistry.Memo.{
  IsCoherent, SameAsFresh, IsCoherent-set, resolve-SameAsFresh,
}
use stellar_debugger.Dwarf.TypeRegistry.Strip.{IsStripped, strip_typedefs-IsStripped}

abbrev u32_die : Die
u32_die = entry 30 0x24 ((3, str "u32") ∷ (0x0b, uint 4) ∷ (0x3e, uint 7) ∷ []) nil

-- The qualifier at 10 and the typedef at 20 name each other; the typedef at 40 leads to a base
-- type.
abbrev type_dies : DieMap
type_dies =
    (10, entry 10 0x26 ((0x49, ref 20) ∷ []) nil)
    ∷ (20, entry 20 0x16 ((3, str "cycle") ∷ (0x49, ref 10) ∷ []) nil)
    ∷ (30, u32_die)
    ∷ (40, entry 40 0x16 ((3, str "word") ∷ (0x49, ref 30) ∷ []) nil)
    ∷ []

abbrev u32_type : DwarfType
u32_type = base (some "u32") (some (pos 7)) (some (pos 4))

abbrev one_cached : Cache
one_cached = (30, u32_type) ∷ []

u32_decoded : decode type_dies u32_die ≡ ok u32_type
unfolding decode
u32_decoded = refl

nothing-IsCoherent : IsCoherent type_dies []
unfolding get
nothing-IsCoherent o t e = cc

one_cached-IsCoherent : IsCoherent type_dies one_cached
unfolding get set
one_cached-IsCoherent =
    IsCoherent-set type_dies [] 30 u32_die u32_type nothing-IsCoherent refl u32_decoded

resolve-SameAsFresh_example :
    SameAsFresh type_dies one_cached (some 30) (resolve type_dies one_cached (some 30))
resolve-SameAsFresh_example =
    resolve-SameAsFresh type_dies one_cached (some 30) one_cached-IsCoherent

through_typedef :
    strip_typedefs type_dies one_cached (typedef none (some 40))
    ≡ ok (u32_type, (30, u32_type) ∷ (40, typedef (some "word") (some 30)) ∷ [])
unfolding strip_typedefs
through_typedef = refl

through_cycle :
    strip_typedefs type_dies [] (qualifier (some 20))
    ≡ ok (
      qualifier (some 20),
      (20, typedef (some "cycle") (some 10)) ∷ (10, qualifier (some 20)) ∷ [],
    )
unfolding strip_typedefs
through_cycle = refl

strip_typedefs-IsStripped_example :
    Sane
      (IsStripped type_dies (qualifier (some 20)))
      (strip_typedefs type_dies [] (qualifier (some 20)))
strip_typedefs-IsStripped_example =
    strip_typedefs-IsStripped type_dies [] (qualifier (some 20)) nothing-IsCoherent
