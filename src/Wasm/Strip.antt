-- ===== src/Wasm/Strip.antt =====
-- `stripCustomSections` of src/wasm/sections.ts.
use stellar_debugger.Prelude.{
  ℕ, zero, suc, ◌≡◌, refl, sym, ap, ◌∙◌, String, Bool, true, false, List, [], ◌∷◌, ◌++◌, length,
  drop, arith, if◌then◌else◌,
}
use stellar_debugger.Bytes.{ok, ◌>>=◌, subarray, subarray-append_drop}
use stellar_debugger.Wasm.{
  WasmSection, ParsedWasm, parse_wasm_sections, is_removed, kept_parts, strip_custom_sections,
}
use stellar_debugger.Wasm.Sound.{Sound}
use stellar_debugger.Wasm.Tiling.{Tiles, parse_wasm_sections-Sound}
use mathlib.Core.Path.{subst}

-- No section of the list is removed.
abbrev pub KeepsAll : (String → Bool) → List WasmSection → Type 0
KeepsAll should_remove [] = Unit {0}
KeepsAll should_remove (s ∷ rest) =
    (is_removed should_remove s ≡ false) × KeepsAll should_remove rest

kept_parts-eq-drop :
    (should_remove : String → Bool) (bytes : List ℕ) (from : ℕ) (sections : List WasmSection)
    → KeepsAll should_remove sections
    → Tiles from (length bytes) sections
    → kept_parts should_remove bytes sections ≡ drop from bytes
unfolding kept_parts
kept_parts-eq-drop should_remove bytes from [] k t = sym (nothing_left bytes from t)
  where
    nothing_left : (l : List ℕ) (n : ℕ) → n ≡ length l → drop n l ≡ []
    nothing_left [] zero e = refl
    nothing_left [] (suc n) e = refl
    nothing_left (x ∷ l) zero e = absurd (omega arith)
    nothing_left (x ∷ l) (suc n) e = nothing_left l n (omega arith)
kept_parts-eq-drop should_remove bytes from (s ∷ rest) k t =
    let ih = kept_parts-eq-drop should_remove bytes s.payload_end rest k.1 t.3 in
    kept (is_removed should_remove s) k.0
    ∙ ap (λ l. subarray bytes s.start s.payload_end ++ l) ih
    ∙ subarray-append_drop bytes s.start s.payload_end (omega (arith, t.1, t.2))
    ∙ ap (λ n. drop n bytes) t.0
  where
    more : List ℕ
    more = kept_parts should_remove bytes rest

    kept :
        (b : Bool)
        → b ≡ false
        → (if b then more else subarray bytes s.start s.payload_end ++ more)
          ≡ subarray bytes s.start s.payload_end ++ more
    kept true e = cc
    kept false e = refl

-- Stripping leaves a module as it is when none of its custom sections is to be removed.
pub strip_custom_sections-identity :
    (utf8 : List ℕ → String) (bytes : List ℕ) (should_remove : String → Bool) (parsed : ParsedWasm)
    → parse_wasm_sections utf8 bytes ≡ ok parsed
    → KeepsAll should_remove parsed.sections
    → strip_custom_sections utf8 bytes should_remove ≡ ok bytes
unfolding strip_custom_sections
strip_custom_sections-identity utf8 bytes should_remove parsed e k =
    ap (λ m. m >>= λ p. ok (subarray bytes 0 8 ++ kept_parts should_remove bytes p.sections)) e
    ∙ ap ok (
        ap (λ l. subarray bytes 0 8 ++ l)
          (kept_parts-eq-drop should_remove bytes 8 parsed.sections k tiles)
        ∙ subarray-append_drop bytes 0 8 (omega arith))
  where
    tiles : Tiles 8 (length bytes) parsed.sections
    tiles =
        (subst (Sound (λ p. (p.bytes ≡ bytes) × Tiles 8 (length bytes) p.sections)) e
          (parse_wasm_sections-Sound utf8 bytes)).1
