-- ===== src/Wasm/Tiling.antt =====
-- `parseWasmSections` of src/wasm/sections.ts: the sections tile the file, and the walk ends.
use stellar_debugger.Prelude.{
  ℕ, zero, suc, ◌-◌, ◌≤◌, ◌<◌, ◌≡◌, refl, inl, inr, String, not, Option, none, some, List, [], ◌∷◌,
  length, get_elem?, get_elem?-lt, get_elem?-total, drop, arith, tests, ltb, ltb-false, Bool-cases,
}
use stellar_debugger.Bytes.{>>=-Yields, if-Yields, Result, ok, fail, ◌>>=◌}
use stellar_debugger.Wasm.{
  WasmFormatError, too_short, bad_magic, bad_version, out_of_rounds, WasmSection, read_section,
  sections_loop, parse_wasm_sections, every_byte,
}
use stellar_debugger.Wasm.Sound.{Sound, read_section-Sound}

-- The sections follow one another from `from` to `end`, without a gap.
abbrev pub Tiles : ℕ → ℕ → List WasmSection → Type 0
Tiles from end [] = from ≡ end
Tiles from end (s ∷ rest) =
    (s.start ≡ from)
    × (s.start < s.payload_start)
    × (s.payload_start ≤ s.payload_end)
    × Tiles s.payload_end end rest

module _ (utf8 : List ℕ → String) (bytes : List ℕ) where
  -- Where the loop stops, the offset is the end of the file.
  past_last :
      (offset : ℕ) → offset ≤ length bytes → get_elem? bytes offset ≡ none → offset ≡ length bytes
  past_last offset le e = elim (Bool-cases (ltb offset (length bytes))) [
    | inl t ↦ let (a, at) = get_elem?-total bytes offset (omega (tests, t)) in absurd (cc)
    | inr t ↦ omega (tests, t)
  ]

  tiled :
      (offset : ℕ) (s : WasmSection) (m : Result WasmFormatError (List WasmSection))
      → (s.start ≡ offset)
        × (offset < s.payload_start)
        × (s.payload_start ≤ s.payload_end)
        × (s.payload_end ≤ length bytes)
      → Sound (Tiles s.payload_end (length bytes)) m
      → Sound (Tiles offset (length bytes)) (m >>= λ rest. ok (s ∷ rest))
  tiled offset s (ok rest) h t = (h.0, omega (arith, h.0, h.1), h.2, t)
  tiled offset s (fail e) h t = t

  sections_loop-Sound :
      (fuel offset : ℕ)
      → offset ≤ length bytes
      → length bytes - offset ≤ fuel
      → Sound (Tiles offset (length bytes)) (sections_loop utf8 fuel bytes offset)
  unfolding sections_loop
  sections_loop-Sound zero offset le enough = go (get_elem? bytes offset) refl
    where
      go :
          (o : Option ℕ)
          → get_elem? bytes offset ≡ o
          → Sound
              (Tiles offset (length bytes))
              (elim o [ none ↦ ok [] | some id ↦ fail out_of_rounds ])
      go none e = past_last offset le e
      go (some id) e = absurd (omega (arith, get_elem?-lt bytes offset e))
  sections_loop-Sound (suc fuel) offset le enough =
      go (get_elem? bytes offset) refl (λ from h k. sections_loop-Sound fuel from h k)
    where
      go :
          (o : Option ℕ)
          → get_elem? bytes offset ≡ o
          → ((from : ℕ)
              → from ≤ length bytes
              → length bytes - from ≤ fuel
              → Sound (Tiles from (length bytes)) (sections_loop utf8 fuel bytes from))
          → Sound (Tiles offset (length bytes)) (elim o [
            | none ↦ ok []
            | some id ↦ read_section utf8 bytes offset id >>= λ s.
                sections_loop utf8 fuel bytes s.payload_end >>= λ rest. ok (s ∷ rest)
          ])
      go none e rec = past_last offset le e
      go (some id) e rec =
          >>=-Yields out_of_rounds
            (λ s.
              (s.start ≡ offset)
              × (offset < s.payload_start)
              × (s.payload_start ≤ s.payload_end)
              × (s.payload_end ≤ length bytes))
            (Tiles offset (length bytes)) (read_section utf8 bytes offset id) _
            (read_section-Sound utf8 bytes offset id)
            (λ s h.
              tiled offset s (sections_loop utf8 fuel bytes s.payload_end) h
                (rec s.payload_end h.3 (omega (arith, h.1, h.2))))

  -- Whatever the bytes, the walk ends within one round for each byte: it gives one of the source's
  -- errors, or sections that follow one another without a gap from the header to the end of the
  -- file, each with its content between its id byte and its end.
  pub parse_wasm_sections-Sound :
      Sound
        (λ parsed. (parsed.bytes ≡ bytes) × Tiles 8 (length bytes) parsed.sections)
        (parse_wasm_sections utf8 bytes)
  unfolding parse_wasm_sections
  parse_wasm_sections-Sound =
      if-Yields out_of_rounds _ (ltb (length bytes) 8) (fail too_short) _ (λ q. cc)
        (λ long.
          if-Yields out_of_rounds _ (not (every_byte (0x00 ∷ 0x61 ∷ 0x73 ∷ 0x6d ∷ []) bytes))
            (fail bad_magic) _ (λ q. cc)
            (λ _.
              if-Yields out_of_rounds _
                (not (every_byte (0x01 ∷ 0x00 ∷ 0x00 ∷ 0x00 ∷ []) (drop 4 bytes)))
                (fail bad_version) _ (λ q. cc)
                (λ _.
                  >>=-Yields out_of_rounds (Tiles 8 (length bytes))
                    (λ parsed. (parsed.bytes ≡ bytes) × Tiles 8 (length bytes) parsed.sections)
                    (sections_loop utf8 (length bytes) bytes 8) _
                    (sections_loop-Sound (length bytes) 8 (ltb-false _ _ long) (omega arith))
                    (λ sections t. (refl, t)))))
