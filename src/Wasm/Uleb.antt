-- ===== src/Wasm/Uleb.antt =====
-- `readUleb` of src/wasm/sections.ts: its bounds, and that src/dwarf/cursor.ts agrees.
use stellar_debugger.Prelude.{
  ℕ, zero, suc, ◌+◌, ◌*◌, ◌^◌, ◌%◌, ◌≤◌, ◌<◌, ◌≡◌, ap, ◌∙◌, inl, inr, List, [], ◌∷◌, length, drop,
  length-drop, arith, ltb, Bool-cases,
}
use stellar_debugger.Bytes.{ok, ◌>>=◌}
use stellar_debugger.Wasm.{uleb_rounds, read_uleb}
use stellar_debugger.Dwarf.{uleb, uleb_loop}
use native.Mathlib.Nat.{mul-le-mul_left, pow-suc, pow-le-pow_right}
use mathlib.Core.Path.{subst}

pow_seven : (k : ℕ) → 2 ^ (k + 7) ≡ 2 ^ k * 128
pow_seven k =
    let raised : 2 ^ (k + 7) ≡ 2 ^ suc (suc (suc (suc (suc (suc (suc k)))))) =
      ap (λ n. 2 ^ n) (omega arith) in
    raised
    ∙ omega (
      arith,
      pow-suc 2 k,
      pow-suc 2 (suc k),
      pow-suc 2 (suc (suc k)),
      pow-suc 2 (suc (suc (suc k))),
      pow-suc 2 (suc (suc (suc (suc k)))),
      pow-suc 2 (suc (suc (suc (suc (suc k))))),
      pow-suc 2 (suc (suc (suc (suc (suc (suc k)))))),
    )

digit-lt-pow : (i b v : ℕ) → v < 2 ^ (7 * i) → v + b % 128 * 2 ^ (7 * i) < 2 ^ (7 * (i + 1))
digit-lt-pow i b v h =
    let p : 2 ^ (7 * i) * (b % 128) ≤ 2 ^ (7 * i) * 127 =
      mul-le-mul_left (2 ^ (7 * i)) (omega arith) in
    let q : 2 ^ (7 * (i + 1)) ≡ 2 ^ (7 * i) * 128 =
      ap (λ k. 2 ^ k) {x = 7 * (i + 1)} {y = 7 * i + 7} (omega arith) ∙ pow_seven (7 * i) in
    omega (arith, p, q, h)

abbrev InBounds : ℕ → List ℕ → ℕ → ℕ → ℕ × ℕ → Type 0
InBounds n rest offset i r =
    (offset + i < r.1)
    × (r.1 ≤ offset + i + n)
    × (r.1 ≤ offset + i + length rest)
    × (r.0 < 2 ^ (7 * (i + n)))

uleb_rounds-InBounds :
    (n : ℕ) (rest : List ℕ) (offset i value : ℕ) {r : ℕ × ℕ}
    → value < 2 ^ (7 * i)
    → uleb_rounds n rest offset i value ≡ ok r
    → InBounds n rest offset i r
unfolding uleb_rounds
uleb_rounds-InBounds zero rest offset i value h e = cc
uleb_rounds-InBounds (suc n) [] offset i value h e = cc
uleb_rounds-InBounds (suc n) (b ∷ rest) offset i value {r} h e = elim (Bool-cases (ltb b 128)) [
  | inl t ↦ last (ground (arith, t, e))
  | inr t ↦
      let ih : InBounds n rest offset (i + 1) r =
        uleb_rounds-InBounds n rest offset (i + 1) (value + b % 128 * 2 ^ (7 * i))
          (digit-lt-pow i b value h) (ground (arith, t, e)) in
      (
        omega (arith, ih.0),
        omega (arith, ih.1),
        omega (arith, ih.2),
        subst (λ k. r.0 < 2 ^ (7 * k)) (omega arith) ih.3,
      )
]
  where
    one_more : 2 ^ (7 * (i + 1)) ≤ 2 ^ (7 * (i + suc n))
    one_more = pow-le-pow_right (omega arith) (omega arith)

    last :
        (value + b % 128 * 2 ^ (7 * i), offset + i + 1) ≡ r → InBounds (suc n) (b ∷ rest) offset i r
    last q =
        subst (InBounds (suc n) (b ∷ rest) offset i) q
          (omega arith, omega arith, omega arith, omega (arith, digit-lt-pow i b value h, one_more))

-- A ULEB128 that is read takes from one to five bytes of the buffer and its value is below 2^35, so
-- a double holds it exactly.
pub read_uleb_bounds :
    (bytes : List ℕ) (offset value after : ℕ)
    → read_uleb bytes offset ≡ ok (value, after)
    → (offset < after) × (after ≤ offset + 5) × (after ≤ length bytes) × (value < 2 ^ 35)
unfolding read_uleb
read_uleb_bounds bytes offset value after e =
    let b = uleb_rounds-InBounds 5 (drop offset bytes) offset 0 0 (omega arith) e in
    (omega (arith, b.0), omega (arith, b.1), omega (arith, b.0, b.2, length-drop offset bytes), b.3)

uleb_loop-uleb_rounds :
    (n : ℕ) (rest : List ℕ) (offset i value : ℕ) {r : ℕ × ℕ}
    → uleb_rounds n rest offset i value ≡ ok r
    → uleb_loop rest (offset + i) value (7 * i) ≡ ok r
unfolding uleb_rounds uleb_loop
uleb_loop-uleb_rounds zero rest offset i value e = cc
uleb_loop-uleb_rounds (suc n) [] offset i value e = cc
uleb_loop-uleb_rounds (suc n) (b ∷ rest) offset i value {r} e = elim (Bool-cases (ltb b 128)) [
  | inl t ↦ ground (arith, t, e)
  | inr t ↦
      let ih : uleb_loop rest (offset + (i + 1)) (value + b % 128 * 2 ^ (7 * i)) (7 * (i + 1))
          ≡ ok r =
        uleb_loop-uleb_rounds n rest offset (i + 1) (value + b % 128 * 2 ^ (7 * i))
          (ground (arith, t, e)) in
      let moved : uleb_loop rest (offset + i + 1) (value + b % 128 * 2 ^ (7 * i)) (7 * i + 7)
          ≡ ok r =
        subst (λ o. uleb_loop rest o (value + b % 128 * 2 ^ (7 * i)) (7 * i + 7) ≡ ok r)
          (omega arith)
          (subst (λ s. uleb_loop rest (offset + (i + 1)) (value + b % 128 * 2 ^ (7 * i)) s ≡ ok r)
            (omega arith) ih) in
      ground (arith, t, moved)
]

-- The DWARF cursor agrees with the wasm reader: what `readUleb` reads at an offset, `Cursor.uleb`
-- reads there too, and both stop at the same byte.
pub uleb-read_uleb :
    (buffer : List ℕ) (offset value after : ℕ)
    → read_uleb buffer offset ≡ ok (value, after)
    → uleb (record { buffer = buffer; offset = offset })
      ≡ ok (value, record { buffer = buffer; offset = after })
unfolding read_uleb uleb
uleb-read_uleb buffer offset value after e =
    ap (λ q. q >>= λ r. ok (r.0, record { buffer = buffer; offset = r.1 }))
      (subst (λ o. uleb_loop (drop offset buffer) o 0 0 ≡ ok (value, after)) (omega arith)
        (uleb_loop-uleb_rounds 5 (drop offset buffer) offset 0 0 e))
