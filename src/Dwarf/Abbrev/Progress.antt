-- ===== src/Dwarf/Abbrev/Progress.antt =====
-- The readers of src/dwarf/cursor.ts that take a byte at least stay within their buffer.
use stellar_debugger.Prelude.{
  sym, ◌⊎◌, inl, inr, ℕ, ◌+◌, ◌*◌, ◌^◌, ◌%◌, ◌≤◌, ◌<◌, ◌≡◌, refl, ap, ◌∙◌, List, [], ◌∷◌, length,
  drop, length-drop, ltb, ltb-false, arith, if◌then◌else◌,
}
use stellar_debugger.Bytes.{Result, ok, fail, ◌>>=◌, Yields, >>=-Yields, if-Yields}
use stellar_debugger.Dwarf.{
  DwarfParseError, past_end, out_of_rounds, Cursor, Read, skip, u8, uleb, uleb_loop, sleb,
  sleb_loop,
}
use mathlib.Core.Path.{subst}

-- Further on in the same buffer.
abbrev pub Within : Cursor → Cursor → Type 0
Within c c' = (c'.buffer ≡ c.buffer) × (c.offset < c'.offset) × (c'.offset ≤ length c.buffer)

abbrev pub Advances : {A : Type 0} → Cursor → Result DwarfParseError (A × Cursor) → Type 0
Advances c m = Yields out_of_rounds (λ r. Within c r.1) m

abbrev InRest : {A : Type 0} → ℕ → List ℕ → Result DwarfParseError (A × ℕ) → Type 0
InRest offset rest m = Yields out_of_rounds (λ r. (offset < r.1) × (r.1 ≤ offset + length rest)) m

later :
    {A : Type 0} (offset byte : ℕ) (rest : List ℕ) (m : Result DwarfParseError (A × ℕ))
    → InRest (offset + 1) rest m
    → InRest offset (byte ∷ rest) m
later offset byte rest (ok r) h = omega (arith, h.0, h.1)
later offset byte rest (fail e) h = h

uleb_loop-InRest :
    (rest : List ℕ) (offset value shift : ℕ)
    → InRest offset rest (uleb_loop rest offset value shift)
unfolding uleb_loop
uleb_loop-InRest [] offset value shift = λ e. cc
uleb_loop-InRest (byte ∷ rest) offset value shift =
    if-Yields out_of_rounds (λ r. (offset < r.1) × (r.1 ≤ offset + length (byte ∷ rest)))
      (ltb byte 128) _ _ (omega arith, omega arith)
      (λ _.
        later offset byte rest _
          (uleb_loop-InRest rest (offset + 1) (value + byte % 128 * 2 ^ shift) (shift + 7)))

sleb_loop-InRest :
    (rest : List ℕ) (offset value shift : ℕ)
    → InRest offset rest (sleb_loop rest offset value shift)
unfolding sleb_loop
sleb_loop-InRest [] offset value shift = λ e. cc
sleb_loop-InRest (byte ∷ rest) offset value shift =
    if-Yields out_of_rounds (λ r. (offset < r.1) × (r.1 ≤ offset + length (byte ∷ rest)))
      (ltb byte 128) _ _ (omega arith, omega arith)
      (λ _.
        later offset byte rest _
          (sleb_loop-InRest rest (offset + 1) (value + byte % 128 * 2 ^ shift) (shift + 7)))

pub uleb-Advances : (c : Cursor) → Advances c (uleb c)
unfolding uleb
uleb-Advances c =
    >>=-Yields out_of_rounds _ (λ r. Within c r.1) (uleb_loop (drop c.offset c.buffer) c.offset 0 0)
      _ (uleb_loop-InRest (drop c.offset c.buffer) c.offset 0 0)
      (λ r h. (refl, h.0, omega (arith, h.0, h.1, length-drop c.offset c.buffer)))

pub sleb-Advances : (c : Cursor) → Advances c (sleb c)
unfolding sleb
sleb-Advances c =
    >>=-Yields out_of_rounds _ (λ r. Within c r.1) (sleb_loop (drop c.offset c.buffer) c.offset 0 0)
      _ (sleb_loop-InRest (drop c.offset c.buffer) c.offset 0 0)
      (λ r h. (refl, h.0, omega (arith, h.0, h.1, length-drop c.offset c.buffer)))

pub u8-Advances : (c : Cursor) → Advances c (u8 c)
unfolding u8 skip
u8-Advances c =
    >>=-Yields out_of_rounds (λ c'. Within c c') (λ r. Within c r.1)
      (if ltb (length c.buffer) (c.offset + 1)
        then fail past_end
        else ok (record c { offset = c.offset + 1 }))
      _
      (if-Yields out_of_rounds (λ c'. Within c c') (ltb (length c.buffer) (c.offset + 1))
        (fail past_end) (ok (record c { offset = c.offset + 1 })) (λ e. cc)
        (λ t. (refl, omega arith, ltb-false _ _ t)))
      (λ c' h. h)

pub Within-trans : (a b c : Cursor) → Within a b → Within b c → Within a c
Within-trans a b c h k = (k.0 ∙ h.0, omega (arith, h.1, k.1), omega (arith, k.2, ap length h.0))

-- A reader that advances, then one that does.
pub both_advance :
    {A B : Type 0} (c : Cursor) (m : Read A) (f : A × Cursor → Read B)
    → Advances c m
    → ((r : A × Cursor) → Within c r.1 → Advances r.1 (f r))
    → Advances c (m >>= f)
both_advance {A = A} {B = B} c m f h k =
    >>=-Yields out_of_rounds (λ r. Within c r.1) (λ r. Within c r.1) m f h
      (λ a o. onward a (f a) o (k a o))
  where
    onward : (a : A × Cursor) (n : Read B) → Within c a.1 → Advances a.1 n → Advances c n
    onward a (ok r) o g = Within-trans c a.1 r.1 o g
    onward a (fail e) o g = g

-- Not moved, or further on.
abbrev pub Stays : {A : Type 0} → Cursor → Result DwarfParseError (A × Cursor) → Type 0
Stays c m = Yields out_of_rounds (λ r. (r.1 ≡ c) ⊎ Within c r.1) m

pub then_stay :
    {A B : Type 0} (c : Cursor) (m : Read A) (f : A × Cursor → Read B)
    → Advances c m
    → ((r : A × Cursor) → Within c r.1 → Stays r.1 (f r))
    → Advances c (m >>= f)
then_stay {A = A} {B = B} c m f h k =
    >>=-Yields out_of_rounds (λ r. Within c r.1) (λ r. Within c r.1) m f h
      (λ a o. onward a (f a) o (k a o))
  where
    onward : (a : A × Cursor) (n : Read B) → Within c a.1 → Stays a.1 n → Advances c n
    onward a (ok r) o (inl e) = subst (Within c) (sym e) o
    onward a (ok r) o (inr g) = Within-trans c a.1 r.1 o g
    onward a (fail e) o g = g
