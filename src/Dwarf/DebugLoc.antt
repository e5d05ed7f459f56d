-- ===== src/Dwarf/DebugLoc.antt =====
-- The location lists of src/dwarf/debugLoc.ts.
pub mod Reads
pub mod Select
use stellar_debugger.Prelude.{
  ℕ, zero, suc, ◌+◌, ◌*◌, Bool, true, false, ◌&&◌, Option, none, some, List, [], ◌∷◌, length, ltb,
  leb, ◌==◌, if◌then◌else◌,
}
use stellar_debugger.Bytes.{Result, ok, fail, ◌>>=◌}
use stellar_debugger.Dwarf.{
  DwarfParseError, out_of_rounds, Cursor, Read, at_end, skip, bytes, u16, u32,
}

-- One entry of the list returns, or the walk goes on with a base and a cursor.
pub data Entry : Type 0 where
  finished : Option (List ℕ) → Entry
  further : ℕ → Cursor → Entry

-- `pc >= base + begin && pc < base + end ? exprBytes : …`
unfoldable pub covered : Bool → ℕ → List ℕ × Cursor → Entry
covered true base r = finished (some r.0)
covered false base r = further base r.1

unfoldable pub range_entry : ℕ → ℕ → ℕ → ℕ → Cursor → Result DwarfParseError Entry
unfolding covered
range_entry pc base begin end c = u16 c >>= λ n.
    bytes n.0 n.1 >>= λ r. ok (covered (leb (base + begin) pc && ltb pc (base + end)) base r)

unfoldable pub bounded_entry : ℕ → ℕ → ℕ → ℕ → Cursor → Result DwarfParseError Entry
unfolding range_entry
bounded_entry pc base begin end c =
    if begin == 0 && end == 0
    then ok (finished none)
    else if begin == 0xffffffff
    then ok (further end c)
    else range_entry pc base begin end c

unfoldable pub read_entry : ℕ → ℕ → Cursor → Result DwarfParseError Entry
unfolding bounded_entry
read_entry pc base c = u32 c >>= λ b. u32 b.1 >>= λ e. bounded_entry pc base b.0 e.0 e.1

-- `while (!cursor.atEnd)`
unfoldable pub select_loop : ℕ → ℕ → ℕ → Cursor → Result DwarfParseError (Option (List ℕ))
unfolding read_entry at_end
select_loop zero pc base c = if at_end c then ok none else fail out_of_rounds
select_loop (suc fuel) pc base c =
    if at_end c
    then ok none
    else read_entry pc base c
      >>= (λ e. elim e [ finished r ↦ ok r | further base' c' ↦ select_loop fuel pc base' c' ])

-- Every entry takes eight bytes at least, so the length of the section is fuel enough.
unfoldable pub select_location : List ℕ → ℕ → ℕ → ℕ → Result DwarfParseError (Option (List ℕ))
unfolding select_loop
select_location section offset pc cu_low_pc =
    skip offset (record { buffer = section; offset = 0 }) >>= λ c.
    select_loop (length section) pc cu_low_pc c
