-- ===== src/Dwarf/Location/Forward.antt =====
-- The readers of src/dwarf/cursor.ts never go back, and stay in their buffer.
use stellar_debugger.Prelude.{
  ℕ, ◌+◌, ◌*◌, ◌^◌, ◌%◌, ◌≤◌, ◌≡◌, refl, ◌∙◌, Bool, List, [], ◌∷◌, length, drop, ltb, if◌then◌else◌,
  arith,
}
use stellar_debugger.Prelude.Int.{ℤ}
use stellar_debugger.Bytes.{Yields, >>=-Yields, if-Yields, Result, ok, fail, ◌>>=◌}
use stellar_debugger.Dwarf.{
  DwarfParseError, past_end, out_of_rounds, Cursor, Read, skip, u8, u32, uleb, uleb_loop, sleb,
  sleb_loop,
}

-- The result satisfies `P`, or is an error of the source's.
abbrev pub Sane : {A : Type 0} → (A → Type 0) → Result DwarfParseError A → Type 0
Sane P m = Yields out_of_rounds P m

pub if-Sane :
    {A : Type 0} (P : A → Type 0) (b : Bool) (x y : Result DwarfParseError A)
    → Sane P x
    → Sane P y
    → Sane P (if b then x else y)
if-Sane P b x y h k = if-Yields out_of_rounds P b x y h (λ _. k)

-- The same buffer, and not further back.
abbrev pub Onward : Cursor → Cursor → Type 0
Onward c c' = (c'.buffer ≡ c.buffer) × (c.offset ≤ c'.offset)

pub Onward-trans : (a b c : Cursor) → Onward a b → Onward b c → Onward a c
Onward-trans a b c h k = (k.0 ∙ h.0, omega (arith, h.1, k.1))

abbrev pub Forward : {A : Type 0} → Cursor → Result DwarfParseError (A × Cursor) → Type 0
Forward c m = Sane (λ r. Onward c r.1) m

pub skip-Sane :
    (n : ℕ) (c : Cursor)
    → Sane (λ c'. (c'.buffer ≡ c.buffer) × (c'.offset ≡ c.offset + n)) (skip n c)
unfolding skip
skip-Sane n c =
    if-Sane (λ c'. (c'.buffer ≡ c.buffer) × (c'.offset ≡ c.offset + n))
      (ltb (length c.buffer) (c.offset + n)) (fail past_end)
      (ok (record c { offset = c.offset + n })) (λ e. cc) (refl, refl)

pub u8-Sane :
    (c : Cursor) → Sane (λ r. (r.1.buffer ≡ c.buffer) × (r.1.offset ≡ c.offset + 1)) (u8 c)
unfolding u8
u8-Sane c =
    >>=-Yields out_of_rounds _ (λ r. (r.1.buffer ≡ c.buffer) × (r.1.offset ≡ c.offset + 1))
      (skip 1 c) _ (skip-Sane 1 c) (λ c' h. h)

pub u8-Forward : (c : Cursor) → Forward c (u8 c)
u8-Forward c = weaken (u8 c) (u8-Sane c)
  where
    weaken :
        (m : Read ℕ)
        → Sane (λ r. (r.1.buffer ≡ c.buffer) × (r.1.offset ≡ c.offset + 1)) m
        → Forward c m
    weaken (ok r) h = (h.0, omega (arith, h.1))
    weaken (fail e) h = h

pub u32-Forward : (c : Cursor) → Forward c (u32 c)
unfolding u32
u32-Forward c =
    >>=-Yields out_of_rounds _ (λ r. Onward c r.1) (skip 4 c) _ (skip-Sane 4 c)
      (λ c' h. (h.0, omega (arith, h.1)))

uleb_loop-Sane :
    (rest : List ℕ) (offset value shift : ℕ)
    → Sane (λ r. offset ≤ r.1) (uleb_loop rest offset value shift)
unfolding uleb_loop
uleb_loop-Sane [] offset value shift = λ e. cc
uleb_loop-Sane (byte ∷ rest) offset value shift =
    if-Sane (λ r. offset ≤ r.1) (ltb byte 128) _ _ (omega arith)
      (later _ (uleb_loop-Sane rest (offset + 1) (value + byte % 128 * 2 ^ shift) (shift + 7)))
  where
    later :
        (m : Result DwarfParseError (ℕ × ℕ))
        → Sane (λ r. offset + 1 ≤ r.1) m
        → Sane (λ r. offset ≤ r.1) m
    later (ok r) h = omega arith
    later (fail e) h = h

sleb_loop-Sane :
    (rest : List ℕ) (offset value shift : ℕ)
    → Sane (λ r. offset ≤ r.1) (sleb_loop rest offset value shift)
unfolding sleb_loop
sleb_loop-Sane [] offset value shift = λ e. cc
sleb_loop-Sane (byte ∷ rest) offset value shift =
    if-Sane (λ r. offset ≤ r.1) (ltb byte 128) _ _ (omega arith)
      (later _ (sleb_loop-Sane rest (offset + 1) (value + byte % 128 * 2 ^ shift) (shift + 7)))
  where
    later :
        (m : Result DwarfParseError (ℤ × ℕ))
        → Sane (λ r. offset + 1 ≤ r.1) m
        → Sane (λ r. offset ≤ r.1) m
    later (ok r) h = omega arith
    later (fail e) h = h

pub uleb-Forward : (c : Cursor) → Forward c (uleb c)
unfolding uleb
uleb-Forward c =
    >>=-Yields out_of_rounds _ (λ r. Onward c r.1) (uleb_loop (drop c.offset c.buffer) c.offset 0 0)
      _ (uleb_loop-Sane (drop c.offset c.buffer) c.offset 0 0) (λ r h. (refl, h))

pub sleb-Forward : (c : Cursor) → Forward c (sleb c)
unfolding sleb
sleb-Forward c =
    >>=-Yields out_of_rounds _ (λ r. Onward c r.1) (sleb_loop (drop c.offset c.buffer) c.offset 0 0)
      _ (sleb_loop-Sane (drop c.offset c.buffer) c.offset 0 0) (λ r h. (refl, h))

-- A reader, then what follows it, which goes on from there.
pub read_then :
    {A B : Type 0} (c : Cursor) (m : Read A) (f : A × Cursor → Read B)
    → Forward c m
    → ((r : A × Cursor) → Forward r.1 (f r))
    → Forward c (m >>= f)
read_then {A = A} {B = B} c m f h k =
    >>=-Yields out_of_rounds (λ r. Onward c r.1) (λ r. Onward c r.1) m f h
      (λ a o. onward a (f a) o (k a))
  where
    onward : (a : A × Cursor) (n : Read B) → Onward c a.1 → Forward a.1 n → Forward c n
    onward a (ok r) o g = Onward-trans c a.1 r.1 o g
    onward a (fail e) o g = g
