-- ===== src/Dwarf/DebugLoc/Select.antt =====
-- `selectLocation` of src/dwarf/debugLoc.ts against the entries that a list encodes.
use stellar_debugger.Prelude.{
  ℕ, zero, suc, ◌+◌, ◌^◌, ◌<◌, ◌≡◌, refl, ap, ◌∙◌, Bool, true, false, ◌&&◌, Option, none, some,
  List, [], ◌∷◌, ◌++◌, length, length-append, drop, ltb, leb, arith, if◌then◌else◌,
}
use stellar_debugger.Bytes.{Result, ok, ◌>>=◌}
use stellar_debugger.Dwarf.{DwarfParseError, Cursor, at_end, skip, bytes, u32}
use stellar_debugger.Dwarf.DebugLoc.{
  Entry, finished, further, covered, range_entry, bounded_entry, read_entry, select_loop,
  select_location,
}
use stellar_debugger.Dwarf.DebugLoc.Reads.{
  At, moved, le2, le4, at_end-At, u32-At, u16-At, bytes-At, le2-fits,
}

-- An entry that selects a base, and one with a range relative to the base.
pub data LocEntry : Type 0 where
  base_entry : ℕ → LocEntry
  ranged : ℕ → ℕ → List ℕ → LocEntry

-- The bytes of a list, its terminator and what follows it.
abbrev pub encode : List LocEntry → List ℕ → List ℕ
encode [] tail = le4 0 (le4 0 tail)
encode (base_entry base ∷ rest) tail = le4 0xffffffff (le4 base (encode rest tail))
encode (ranged begin end text ∷ rest) tail =
    le4 begin (le4 end (le2 (length text) (text ++ encode rest tail)))

-- Addresses of 32 bits, lengths of 16, and no range that reads as a base entry or a terminator.
abbrev pub AreEncodable : List LocEntry → Type 0
AreEncodable [] = Unit {0}
AreEncodable (base_entry base ∷ rest) = (base < 2 ^ 32) × AreEncodable rest
AreEncodable (ranged begin end text ∷ rest) =
    (begin < 0xffffffff)
    × (0 < begin + end)
    × (end < 2 ^ 32)
    × (length text < 2 ^ 16)
    × AreEncodable rest

-- The first range that contains the pc.
abbrev pub select : ℕ → ℕ → List LocEntry → Option (List ℕ)
select pc base [] = none
select pc base (base_entry new ∷ rest) = select pc new rest
select pc base (ranged begin end text ∷ rest) =
    if leb (base + begin) pc && ltb pc (base + end) then some text else select pc base rest

module _ (pc : ℕ) where
  -- Two addresses of an entry.
  read_bounds :
      (base : ℕ) (c : Cursor) (begin end : ℕ) (rest : List ℕ)
      → begin < 2 ^ 32
      → end < 2 ^ 32
      → At c (le4 begin (le4 end rest))
      → (read_entry pc base c ≡ bounded_entry pc base begin end (moved 4 (moved 4 c)))
        × At (moved 4 (moved 4 c)) rest
  unfolding read_entry
  read_bounds base c begin end rest hb he h =
      let first = u32-At c begin (le4 end rest) hb h in
      let second = u32-At (moved 4 c) end rest he first.1 in
      (
        ap (λ r. r >>= λ b. u32 b.1 >>= λ e. bounded_entry pc base b.0 e.0 e.1) first.0
            ∙ ap (λ r. r >>= λ e. bounded_entry pc base begin e.0 e.1) second.0,
        second.1,
      )

  read_range :
      (base begin end : ℕ) (text rest : List ℕ) (c : Cursor)
      → begin < 0xffffffff
      → 0 < begin + end
      → length text < 2 ^ 16
      → At c (le2 (length text) (text ++ rest))
      → (bounded_entry pc base begin end c
          ≡ ok (
              covered
                (leb (base + begin) pc && ltb pc (base + end))
                base
                (text, moved (length text) (moved 2 c))))
        × At (moved (length text) (moved 2 c)) rest
  unfolding bounded_entry range_entry
  read_range base begin end text rest c hb hne ht h =
      let n = u16-At c (length text) (text ++ rest) ht h in
      let b = bytes-At (moved 2 c) text rest (le2-fits c (length text) (text ++ rest) h) n.1 in
      (
        to_range
            ∙ ap
                (λ r. r >>= λ n. bytes n.0 n.1 >>= λ q.
                  ok (covered (leb (base + begin) pc && ltb pc (base + end)) base q))
                n.0
            ∙ ap
                (λ r. r >>= λ q. ok (covered (leb (base + begin) pc && ltb pc (base + end)) base q))
                b.0,
        b.1,
      )
    where
      to_range : bounded_entry pc base begin end c ≡ range_entry pc base begin end c
      to_range = ground (arith, hb, hne)

  entry_result : ℕ → Entry → Result DwarfParseError (Option (List ℕ))
  entry_result fuel (finished r) = ok r
  entry_result fuel (further base c) = select_loop fuel pc base c

  loop_step :
      (fuel base : ℕ) (c : Cursor) (e : Entry)
      → at_end c ≡ false
      → read_entry pc base c ≡ ok e
      → select_loop (suc fuel) pc base c ≡ entry_result fuel e
  unfolding select_loop entry_result
  loop_step fuel base c e inside read =
      ap (λ b. if b then ok none else (read_entry pc base c >>= after)) inside
      ∙ ap (λ r. r >>= after) read
      ∙ each e
    where
      after : Entry → Result DwarfParseError (Option (List ℕ))
      after e = elim e [ finished r ↦ ok r | further base' c' ↦ select_loop fuel pc base' c' ]

      each : (e : Entry) → after e ≡ entry_result fuel e
      each (finished r) = refl
      each (further base' c') = refl

  select_loop-encode :
      (entries : List LocEntry) (tail : List ℕ) (fuel base : ℕ) (c : Cursor)
      → AreEncodable entries
      → length entries < fuel
      → At c (encode entries tail)
      → select_loop fuel pc base c ≡ ok (select pc base entries)
  unfolding entry_result
  select_loop-encode entries tail zero base c h lt at = absurd (omega arith)
  select_loop-encode [] tail (suc fuel) base c h lt at =
      let r = read_bounds base c 0 0 tail (omega arith) (omega arith) at in
      loop_step fuel base c (finished none) (at_end-At c _ _ at)
        (r.0 ∙ unfold bounded_entry in refl)
  select_loop-encode (base_entry new ∷ rest) tail (suc fuel) base c h lt at =
      let r = read_bounds base c 0xffffffff new (encode rest tail) (omega arith) h.0 at in
      loop_step fuel base c (further new (moved 4 (moved 4 c))) (at_end-At c _ _ at)
        (r.0 ∙ unfold bounded_entry in refl)
      ∙ select_loop-encode rest tail fuel new (moved 4 (moved 4 c)) h.1 (omega arith) r.1
  select_loop-encode (ranged begin end text ∷ rest) tail (suc fuel) base c h lt at =
      let r =
        read_bounds base c begin end (le2 (length text) (text ++ encode rest tail))
          (omega (arith, h.0)) h.2 at in
      let q =
        read_range base begin end text (encode rest tail) (moved 4 (moved 4 c)) h.0 h.1 h.3 r.1 in
      let c' = moved (length text) (moved 2 (moved 4 (moved 4 c))) in
      loop_step fuel base c _ (at_end-At c _ _ at) (r.0 ∙ q.0)
      ∙ chosen (leb (base + begin) pc && ltb pc (base + end)) c'
          (select_loop-encode rest tail fuel base c' h.4 (omega arith) q.1)
    where
      chosen :
          (b : Bool) (c' : Cursor)
          → select_loop fuel pc base c' ≡ ok (select pc base rest)
          → entry_result fuel (covered b base (text, c'))
            ≡ ok (if b then some text else select pc base rest)
      chosen true c' e = unfold covered in refl
      chosen false c' e = unfold covered in e

length-lt-encode :
    (entries : List LocEntry) (tail : List ℕ) → length entries < length (encode entries tail)
length-lt-encode [] tail = omega arith
length-lt-encode (base_entry b ∷ rest) tail = omega (arith, length-lt-encode rest tail)
length-lt-encode (ranged b e x ∷ rest) tail =
    omega (arith, length-lt-encode rest tail, length-append x (encode rest tail))

pub drop-prefix : (prefix l : List ℕ) → drop (length prefix) (prefix ++ l) ≡ l
drop-prefix [] l = refl
drop-prefix (x ∷ prefix) l = drop-prefix prefix l

-- In a list with addresses of 32 bits, expression lengths of 16 bits and no range that reads as a
-- base entry or as the terminator: from the offset of the encoded list, whatever stands before and
-- after it, the expression of the first range that contains the pc is selected, each range being
-- relative to the base that was selected last, and null where no range contains it.
pub select_location-encode :
    (prefix tail : List ℕ) (entries : List LocEntry) (pc base : ℕ)
    → AreEncodable entries
    → select_location (prefix ++ encode entries tail) (length prefix) pc base
      ≡ ok (select pc base entries)
unfolding select_location skip
select_location-encode prefix tail entries pc base h =
    ap (λ r. r >>= λ c. select_loop (length section) pc base c) fits
    ∙ select_loop-encode pc entries tail (length section) base
        (record { buffer = section; offset = length prefix }) h
        (omega (arith, length-lt-encode entries tail, length-append prefix (encode entries tail)))
        (drop-prefix prefix (encode entries tail))
  where
    section : List ℕ
    section = prefix ++ encode entries tail

    fits :
        skip (length prefix) (record { buffer = section; offset = 0 })
        ≡ ok (record { buffer = section; offset = length prefix })
    fits = ground (arith, length-append prefix (encode entries tail))
