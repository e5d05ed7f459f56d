-- ===== src/Dwarf/Scope/RangeLists.antt =====
-- `rangesCover` of src/dwarf/ScopeIndex.ts against the entries that a range list encodes.
use stellar_debugger.Prelude.{
  ℕ, zero, suc, ◌+◌, ◌^◌, ◌<◌, ◌≡◌, refl, ap, ◌∙◌, inl, inr, ◌⊎◌, Bool, true, false, ◌&&◌, Option,
  none, some, List, [], ◌∷◌, ◌++◌, length, length-append, arith, if◌then◌else◌,
}
use stellar_debugger.Prelude.Int.{ℤ, pos, ◌+ℤ◌, leb_int, ltb_int}
use stellar_debugger.Bytes.{ok, ◌>>=◌}
use stellar_debugger.Dwarf.{Cursor, skip, u32}
use stellar_debugger.Dwarf.DebugLoc.Reads.{At, moved, le4, u32-At}
use stellar_debugger.Dwarf.DebugLoc.Select.{drop-prefix}
use stellar_debugger.Dwarf.Scope.{Scoped, pair_covers, cover_loop, ranges_cover}

-- An entry that selects a base, and a range relative to the base.
pub data RangeEntry : Type 0 where
  base_entry : ℕ → RangeEntry
  span : ℕ → ℕ → RangeEntry

-- The bytes of a list, its terminator and what follows it.
abbrev pub encode : List RangeEntry → List ℕ → List ℕ
encode [] tail = le4 0 (le4 0 tail)
encode (base_entry base ∷ rest) tail = le4 0xffffffff (le4 base (encode rest tail))
encode (span begin end ∷ rest) tail = le4 begin (le4 end (encode rest tail))

-- Addresses of 32 bits, and no range that reads as a base entry or a terminator.
abbrev pub AreEncodable : List RangeEntry → Type 0
AreEncodable [] = Unit {0}
AreEncodable (base_entry base ∷ rest) = (base < 2 ^ 32) × AreEncodable rest
AreEncodable (span begin end ∷ rest) =
    (begin < 0xffffffff) × (0 < begin + end) × (end < 2 ^ 32) × AreEncodable rest

-- Some range contains the pc.
abbrev pub covers : ℕ → ℤ → List RangeEntry → Bool
covers pc base [] = false
covers pc base (base_entry new ∷ rest) = covers pc (pos new) rest
covers pc base (span begin end ∷ rest) =
    if leb_int (base +ℤ pos begin) (pos pc) && ltb_int (pos pc) (base +ℤ pos end)
    then true
    else covers pc base rest

module _ (pc : ℕ) where
  -- What a round makes of a pair, with the list read on from after it.
  round_result : ℕ → ℤ → Cursor → Option Bool ⊎ ℤ → Scoped Bool
  round_result fuel base c (inl (some found)) = ok found
  round_result fuel base c (inl none) = cover_loop fuel pc base c
  round_result fuel base c (inr new) = cover_loop fuel pc new c

  loop_step :
      (fuel : ℕ) (base : ℤ) (c : Cursor) (begin end : ℕ) (rest : List ℕ)
      → begin < 2 ^ 32
      → end < 2 ^ 32
      → At c (le4 begin (le4 end rest))
      → (cover_loop (suc fuel) pc base c
          ≡ round_result fuel base (moved 4 (moved 4 c)) (pair_covers base pc begin end))
        × At (moved 4 (moved 4 c)) rest
  unfolding cover_loop round_result
  loop_step fuel base c begin end rest hb he h =
      let first = u32-At c begin (le4 end rest) hb h in
      let second = u32-At (moved 4 c) end rest he first.1 in
      (
        ap (λ r. r >>= λ b. u32 b.1 >>= λ e. after (pair_covers base pc b.0 e.0) e.1) first.0
            ∙ ap (λ r. r >>= λ e. after (pair_covers base pc begin e.0) e.1) second.0
            ∙ each (pair_covers base pc begin end) (moved 4 (moved 4 c)),
        second.1,
      )
    where
      after : Option Bool ⊎ ℤ → Cursor → Scoped Bool
      after p c' = elim p [
        | inl (some found) ↦ ok found
        | inl none ↦ cover_loop fuel pc base c'
        | inr new ↦ cover_loop fuel pc new c'
      ]

      each : (p : Option Bool ⊎ ℤ) (c' : Cursor) → after p c' ≡ round_result fuel base c' p
      each (inl (some found)) c' = refl
      each (inl none) c' = refl
      each (inr new) c' = refl

  base_step :
      (fuel : ℕ) (base : ℤ) (new : ℕ) (c : Cursor)
      → round_result fuel base c (pair_covers base pc 0xffffffff new)
        ≡ cover_loop fuel pc (pos new) c
  unfolding round_result pair_covers
  base_step fuel base new c = refl

  cover_loop-encode :
      (entries : List RangeEntry) (tail : List ℕ) (fuel : ℕ) (base : ℤ) (c : Cursor)
      → AreEncodable entries
      → length entries < fuel
      → At c (encode entries tail)
      → cover_loop fuel pc base c ≡ ok (covers pc base entries)
  unfolding round_result
  cover_loop-encode entries tail zero base c h lt at = absurd (omega arith)
  cover_loop-encode [] tail (suc fuel) base c h lt at =
      (loop_step fuel base c 0 0 tail (omega arith) (omega arith) at).0 ∙ unfold pair_covers in refl
  cover_loop-encode (base_entry new ∷ rest) tail (suc fuel) base c h lt at =
      let r = loop_step fuel base c 0xffffffff new (encode rest tail) (omega arith) h.0 at in
      r.0
      ∙ base_step fuel base new (moved 4 (moved 4 c))
      ∙ cover_loop-encode rest tail fuel (pos new) (moved 4 (moved 4 c)) h.1 (omega arith) r.1
  cover_loop-encode (span begin end ∷ rest) tail (suc fuel) base c h lt at =
      let r = loop_step fuel base c begin end (encode rest tail) (omega (arith, h.0)) h.2 at in
      r.0
      ∙ ap (round_result fuel base (moved 4 (moved 4 c))) plain
      ∙ chosen (leb_int (base +ℤ pos begin) (pos pc) && ltb_int (pos pc) (base +ℤ pos end))
          (cover_loop-encode rest tail fuel base (moved 4 (moved 4 c)) h.3 (omega arith) r.1)
    where
      hit : Bool
      hit = leb_int (base +ℤ pos begin) (pos pc) && ltb_int (pos pc) (base +ℤ pos end)

      plain : pair_covers base pc begin end ≡ (if hit then inl (some true) else inl none)
      plain = unfold pair_covers in ground (arith, h.0, h.1)

      chosen :
          (b : Bool)
          → cover_loop fuel pc base (moved 4 (moved 4 c)) ≡ ok (covers pc base rest)
          → round_result fuel base (moved 4 (moved 4 c)) (if b then inl (some true) else inl none)
            ≡ ok (if b then true else covers pc base rest)
      chosen true e = refl
      chosen false e = e

length-lt-encode :
    (entries : List RangeEntry) (tail : List ℕ) → length entries < length (encode entries tail)
length-lt-encode [] tail = omega arith
length-lt-encode (base_entry b ∷ rest) tail = omega (arith, length-lt-encode rest tail)
length-lt-encode (span b e ∷ rest) tail = omega (arith, length-lt-encode rest tail)

-- In a list with addresses of 32 bits and no range that reads as a base entry or as the
-- terminator: from the offset of the encoded list, whatever stands before and after it, the answer
-- is whether some range of the list contains the pc, each relative to the base selected last.
pub ranges_cover-encode :
    (prefix tail : List ℕ) (entries : List RangeEntry) (pc : ℕ) (base : ℤ)
    → AreEncodable entries
    → ranges_cover (prefix ++ encode entries tail) (pos (length prefix)) pc base
      ≡ ok (covers pc base entries)
unfolding ranges_cover skip
ranges_cover-encode prefix tail entries pc base h =
    ap (λ r. r >>= λ c. cover_loop (length section + 1) pc base c) fits
    ∙ cover_loop-encode pc entries tail (length section + 1) base
        (record { buffer = section; offset = length prefix }) h
        (omega (arith, length-lt-encode entries tail, length-append prefix (encode entries tail)))
        (drop-prefix prefix (encode entries tail))
  where
    section : List ℕ
    section = prefix ++ encode entries tail

    fits :
        skip (length prefix) (record { buffer = section; offset = 0 })
        ≡ ok (record { buffer = section; offset = length prefix })
    fits = ground (arith, length-append prefix (encode entries tail))
