-- ===== src/Wasm/Sound.antt =====
-- The readers of src/wasm/sections.ts: errors and bounds of one section.
use stellar_debugger.Prelude.{
  ℕ, zero, suc, ◌+◌, ◌*◌, ◌^◌, ◌%◌, ◌≤◌, ◌<◌, ◌≡◌, refl, ◌≢◌, inl, inr, String, Bool, true, false,
  none, some, List, [], ◌∷◌, length, drop, arith, ltb, ltb-false, ◌==◌, Bool-cases, if◌then◌else◌,
}
use stellar_debugger.Bytes.{Yields, >>=-Yields, if-Yields, Result, ok, fail, ◌>>=◌}
use stellar_debugger.Wasm.{
  WasmFormatError, section_past_end, name_past_section, out_of_rounds, WasmSection, uleb_rounds,
  read_uleb, section_name, section_content, read_section,
}
use stellar_debugger.Wasm.Uleb.{read_uleb_bounds}

-- The result satisfies `P`, or is an error of the source's.
abbrev pub Sound : {A : Type 0} → (A → Type 0) → Result WasmFormatError A → Type 0
Sound P m = Yields out_of_rounds P m

uleb_rounds-fails :
    (n : ℕ) (rest : List ℕ) (offset i value : ℕ) {e : WasmFormatError}
    → uleb_rounds n rest offset i value ≡ fail e
    → e ≢ out_of_rounds
unfolding uleb_rounds
uleb_rounds-fails zero rest offset i value h = λ q. cc
uleb_rounds-fails (suc n) [] offset i value h = λ q. cc
uleb_rounds-fails (suc n) (b ∷ rest) offset i value h = elim (Bool-cases (ltb b 128)) [
  | inl t ↦ absurd (ground (arith, t, h))
  | inr t ↦
      uleb_rounds-fails n rest offset (i + 1) (value + b % 128 * 2 ^ (7 * i)) (ground (arith, t, h))
]

read_uleb-Sound :
    (bytes : List ℕ) (offset : ℕ)
    → Sound (λ r. (offset < r.1) × (r.1 ≤ length bytes)) (read_uleb bytes offset)
read_uleb-Sound bytes offset = go (read_uleb bytes offset) refl
  where
    go :
        (m : Result WasmFormatError (ℕ × ℕ))
        → read_uleb bytes offset ≡ m
        → Sound (λ r. (offset < r.1) × (r.1 ≤ length bytes)) m
    go (ok (value, after)) e = let b = read_uleb_bounds bytes offset value after e in (b.0, b.2)
    go (fail e) h = uleb_rounds-fails 5 (drop offset bytes) offset 0 0 (unfold read_uleb in h)

module _ (utf8 : List ℕ → String) where
  -- Where a section stands: id byte at `start`, content up to `payload_end`.
  abbrev SectionAt : ℕ → ℕ → WasmSection → Type 0
  SectionAt start end s =
      (s.start ≡ start)
      × (start < s.payload_start)
      × (s.payload_start ≤ s.payload_end)
      × (s.payload_end ≡ end)

  section_name-Sound :
      (bytes : List ℕ) (offset section_end : ℕ)
      → Sound
          (λ n. (offset < n.1) × (n.1 ≤ section_end))
          (section_name utf8 bytes offset section_end)
  unfolding section_name
  section_name-Sound bytes offset section_end =
      >>=-Yields out_of_rounds (λ r. (offset < r.1) × (r.1 ≤ length bytes))
        (λ n. (offset < n.1) × (n.1 ≤ section_end)) (read_uleb bytes offset) _
        (read_uleb-Sound bytes offset)
        (λ r h.
          if-Yields out_of_rounds _ (ltb section_end (r.1 + r.0)) (fail name_past_section) _
            (λ q. cc) (λ t. (omega (arith, h.0), ltb-false _ _ t)))

  section_content-Sound :
      (bytes : List ℕ) (id start offset section_end : ℕ)
      → start < offset
      → offset ≤ section_end
      → Sound (SectionAt start section_end) (section_content utf8 bytes id start offset section_end)
  unfolding section_content
  section_content-Sound bytes id start offset section_end lt le = pick (id == 0)
    where
      custom : Result WasmFormatError WasmSection
      custom = section_name utf8 bytes offset section_end >>= (λ n. ok (record {
        id = id;
        name = some n.0;
        start = start;
        payload_start = n.1;
        payload_end = section_end;
      }))

      pick :
          (b : Bool)
          → Sound (SectionAt start section_end) (
              if b
              then custom
              else ok (record {
                id = id;
                name = none;
                start = start;
                payload_start = offset;
                payload_end = section_end;
              }))
      pick true =
          >>=-Yields out_of_rounds (λ n. (offset < n.1) × (n.1 ≤ section_end))
            (SectionAt start section_end) (section_name utf8 bytes offset section_end) _
            (section_name-Sound bytes offset section_end)
            (λ n h. (refl, omega (arith, h.0), h.1, refl))
      pick false = (refl, lt, le, refl)

  pub read_section-Sound :
      (bytes : List ℕ) (start id : ℕ)
      → Sound
          (λ s.
            (s.start ≡ start)
            × (start < s.payload_start)
            × (s.payload_start ≤ s.payload_end)
            × (s.payload_end ≤ length bytes))
          (read_section utf8 bytes start id)
  unfolding read_section
  read_section-Sound bytes start id =
      >>=-Yields out_of_rounds (λ r. (start + 1 < r.1) × (r.1 ≤ length bytes))
        (λ s.
          (s.start ≡ start)
          × (start < s.payload_start)
          × (s.payload_start ≤ s.payload_end)
          × (s.payload_end ≤ length bytes))
        (read_uleb bytes (start + 1)) _ (read_uleb-Sound bytes (start + 1))
        (λ r h.
          if-Yields out_of_rounds _ (ltb (length bytes) (r.1 + r.0)) (fail section_past_end) _
            (λ q. cc)
            (λ t.
              bounded r (section_content utf8 bytes id start r.1 (r.1 + r.0)) (ltb-false _ _ t) (
                section_content-Sound bytes id start r.1 (r.1 + r.0) (omega (arith, h.0))
                  (omega arith))))
    where
      bounded :
          (r : ℕ × ℕ) (m : Result WasmFormatError WasmSection)
          → r.1 + r.0 ≤ length bytes
          → Sound (SectionAt start (r.1 + r.0)) m
          → Sound
              (λ s.
                (s.start ≡ start)
                × (start < s.payload_start)
                × (s.payload_start ≤ s.payload_end)
                × (s.payload_end ≤ length bytes))
              m
      bounded r (ok s) le h = (h.0, h.1, h.2, omega (arith, h.3, le))
      bounded r (fail e) le h = h
