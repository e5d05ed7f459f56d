-- ===== src/Komet/Records/Hex.antt =====
-- Bytes and their lowercase hex, for the runs of memory of src/komet/trace.ts.
use stellar_debugger.Prelude.{
  ℕ, ◌+◌, ◌-◌, ◌*◌, ◌<◌, ◌/◌, ◌%◌, ◌≡◌, refl, sym, ap, ◌∙◌, inl, inr, true, ◌&&◌, leb, ltb,
  Bool-cases, Option, none, some, List, [], ◌∷◌, All, arith, if◌then◌else◌,
}
use stellar_debugger.CallStack.{digit_value, from_hex}
use mathlib.Core.Path.{subst}
use stellar_debugger.Komet.{is_hex_digit, is_hex}

-- A number below 16 in lowercase hex, and a byte in two digits.
abbrev pub hex_char : ℕ → ℕ
hex_char d = if ltb d 10 then b'0' + d else b'a' + (d - 10)

abbrev pub hex_text : List ℕ → List ℕ
hex_text [] = []
hex_text (b ∷ bytes) = hex_char (b / 16) ∷ hex_char (b % 16) ∷ hex_text bytes

abbrev pub AreBytes : List ℕ → Type 0
AreBytes bytes = All (λ b. b < 256) bytes

-- The digit that a character stands for.
abbrev IsHexOf : ℕ → ℕ → Type 0
IsHexOf c d = (digit_value c ≡ some d) × (d < 16) × (hex_char d ≡ c)

digit_value-IsHexOf : (c : ℕ) → is_hex_digit c ≡ true → (d : ℕ) × IsHexOf c d
unfolding digit_value
digit_value-IsHexOf c h = elim (Bool-cases (leb b'0' c && leb c b'9')) [
  | inl t ↦ (c - b'0', (ground (arith, t), ground (arith, t), ground (arith, t)))
  | inr f ↦ (c - b'a' + 10, (ground (arith, f, h), ground (arith, f, h), ground (arith, f, h)))
]

from_hex-digits :
    (a b x y : ℕ) (rest : List ℕ)
    → digit_value a ≡ some x
    → digit_value b ≡ some y
    → from_hex (a ∷ b ∷ rest) ≡ (x * 16 + y) ∷ from_hex rest
unfolding from_hex
from_hex-digits a b x y rest p q =
    ap (λ o. elim o [ none ↦ [] | some d ↦ low d (digit_value b) ]) p ∙ ap (low x) q
  where
    low : ℕ → Option ℕ → List ℕ
    low d none = []
    low d (some e) = (d * 16 + e) ∷ from_hex rest

abbrev pub IsDecoded : List ℕ → List ℕ → Type 0
IsDecoded text bytes = (text ≡ hex_text bytes) × AreBytes bytes

digits-IsDecoded :
    (a b : ℕ) (rest : List ℕ)
    → (x : ℕ) × IsHexOf a x
    → (y : ℕ) × IsHexOf b y
    → IsDecoded rest (from_hex rest)
    → IsDecoded (a ∷ b ∷ rest) (from_hex (a ∷ b ∷ rest))
digits-IsDecoded a b rest (x, (at_a, x_lt, x_of)) (y, (at_b, y_lt, y_of)) (text, bytes) =
    let high : (x * 16 + y) / 16 ≡ x = omega (arith, y_lt) in
    let low : (x * 16 + y) % 16 ≡ y = omega (arith, y_lt) in
    let first : a ≡ hex_char ((x * 16 + y) / 16) = sym (ap hex_char high ∙ x_of) in
    let second : b ≡ hex_char ((x * 16 + y) % 16) = sym (ap hex_char low ∙ y_of) in
    subst (IsDecoded (a ∷ b ∷ rest)) (sym (from_hex-digits a b x y rest at_a at_b))
      (pair first second text, (omega (arith, x_lt, y_lt), bytes))
  where
    pair : {c d : ℕ} {l : List ℕ} → a ≡ c → b ≡ d → rest ≡ l → a ∷ b ∷ rest ≡ c ∷ d ∷ l
    pair p q r = cc

pub from_hex-IsDecoded : (text : List ℕ) → is_hex text ≡ true → IsDecoded text (from_hex text)
unfolding is_hex from_hex
from_hex-IsDecoded [] h = (refl, tt)
from_hex-IsDecoded (a ∷ []) h = cc
from_hex-IsDecoded (a ∷ b ∷ rest) h =
    digits-IsDecoded a b rest (digit_value-IsHexOf a (ground (arith, h)))
      (digit_value-IsHexOf b (ground (arith, h))) (from_hex-IsDecoded rest (ground (arith, h)))
