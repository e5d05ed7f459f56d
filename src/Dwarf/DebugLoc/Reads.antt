-- ===== src/Dwarf/DebugLoc/Reads.antt =====
-- What the readers of src/dwarf/cursor.ts read from a little-endian encoding.
use stellar_debugger.Prelude.{
  ℕ, zero, suc, ◌+◌, ◌-◌, ◌*◌, ◌/◌, ◌%◌, ◌^◌, ◌≤◌, ◌<◌, ◌≡◌, refl, sym, ap, ◌∙◌, true, false, none,
  some, List, [], ◌∷◌, ◌++◌, length, length-append, get_elem?, take, drop, length-drop, arith,
}
use stellar_debugger.Bytes.{ok, ◌>>=◌, subarray, drop-drop}
use stellar_debugger.Dwarf.{
  Cursor, at_end, skip, byte_at, bytes, u8, u16, u32, uleb, uleb_loop, sub,
}

-- The cursor stands before these bytes.
abbrev pub At : Cursor → List ℕ → Type 0
At c l = drop c.offset c.buffer ≡ l

abbrev pub moved : ℕ → Cursor → Cursor
moved n c = record c { offset = c.offset + n }

abbrev pub le2 : ℕ → List ℕ → List ℕ
le2 v rest = v % 256 ∷ v / 256 % 256 ∷ rest

abbrev pub le4 : ℕ → List ℕ → List ℕ
le4 v rest = v % 256 ∷ v / 256 % 256 ∷ v / 65536 % 256 ∷ v / 16777216 % 256 ∷ rest

get_elem?-drop : (n i : ℕ) (xs : List ℕ) → get_elem? (drop n xs) i ≡ get_elem? xs (n + i)
get_elem?-drop zero i xs = ap (get_elem? xs) (omega arith)
get_elem?-drop (suc n) i [] = refl
get_elem?-drop (suc n) i (x ∷ xs) =
    get_elem?-drop n i xs ∙ ap (get_elem? (x ∷ xs)) {x = suc (n + i)} {y = suc n + i} (omega arith)

take-append : (xs ys : List ℕ) → take (length xs) (xs ++ ys) ≡ xs
take-append [] ys = refl
take-append (x ∷ xs) ys = ap (λ l. x ∷ l) (take-append xs ys)

drop-append : (xs ys : List ℕ) → drop (length xs) (xs ++ ys) ≡ ys
drop-append [] ys = refl
drop-append (x ∷ xs) ys = drop-append xs ys

module _ (c : Cursor) where
  At-moved : (n : ℕ) (l : List ℕ) → At c l → At (moved n c) (drop n l)
  At-moved n l h = sym (drop-drop c.offset n c.buffer) ∙ ap (drop n) h

  skip-At : (n : ℕ) (l : List ℕ) → At c l → 0 < n → n ≤ length l → skip n c ≡ ok (moved n c)
  unfolding skip
  skip-At n l h pos le = ground (arith, length-drop c.offset c.buffer, ap length h)

  byte_at-At : (i b : ℕ) (l : List ℕ) → At c l → get_elem? l i ≡ some b → byte_at c i ≡ b
  unfolding byte_at
  byte_at-At i b l h e =
      ap (λ o. elim o [ none ↦ 0 | some b ↦ b ])
        (sym (get_elem?-drop c.offset i c.buffer) ∙ ap (λ m. get_elem? m i) h ∙ e)

  pub at_end-At : (b : ℕ) (l : List ℕ) → At c (b ∷ l) → at_end c ≡ false
  unfolding at_end
  at_end-At b l h = ground (arith, length-drop c.offset c.buffer, ap length h)

  pub u32-At :
      (v : ℕ) (rest : List ℕ)
      → v < 2 ^ 32
      → At c (le4 v rest)
      → (u32 c ≡ ok (v, moved 4 c)) × At (moved 4 c) rest
  unfolding u32
  u32-At v rest lt h = (
    ap
          (λ r. r >>= λ c'. ok (
            byte_at c 0 + byte_at c 1 * 0x100 + byte_at c 2 * 0x10000 + byte_at c 3 * 0x1000000,
            c',
          ))
          (skip-At 4 (le4 v rest) h (omega arith) (omega arith))
        ∙ ap (λ n. ok (n, moved 4 c)) value,
    At-moved 4 (le4 v rest) h,
  )
    where
      value :
          byte_at c 0 + byte_at c 1 * 0x100 + byte_at c 2 * 0x10000 + byte_at c 3 * 0x1000000 ≡ v
      value = omega (
        arith,
        byte_at-At 0 _ _ h refl,
        byte_at-At 1 _ _ h refl,
        byte_at-At 2 _ _ h refl,
        byte_at-At 3 _ _ h refl,
      )

  pub u16-At :
      (v : ℕ) (rest : List ℕ)
      → v < 2 ^ 16
      → At c (le2 v rest)
      → (u16 c ≡ ok (v, moved 2 c)) × At (moved 2 c) rest
  unfolding u16
  u16-At v rest lt h = (
    ap (λ r. r >>= λ c'. ok (byte_at c 0 + byte_at c 1 * 0x100, c'))
          (skip-At 2 (le2 v rest) h (omega arith) (omega arith))
        ∙ ap (λ n. ok (n, moved 2 c)) value,
    At-moved 2 (le2 v rest) h,
  )
    where
      value : byte_at c 0 + byte_at c 1 * 0x100 ≡ v
      value = omega (arith, byte_at-At 0 _ _ h refl, byte_at-At 1 _ _ h refl)

  pub bytes-At :
      (text rest : List ℕ)
      → c.offset ≤ length c.buffer
      → At c (text ++ rest)
      → (bytes (length text) c ≡ ok (text, moved (length text) c)) × At (moved (length text) c) rest
  unfolding bytes skip
  bytes-At text rest le h = (
    ap (λ r. r >>= λ c'. ok (subarray c.buffer c.offset (c.offset + length text), c')) fits
        ∙ ap (λ l. ok (l, moved (length text) c)) slice,
    At-moved (length text) (text ++ rest) h ∙ drop-append text rest,
  )
    where
      fits : skip (length text) c ≡ ok (moved (length text) c)
      fits = ground (arith, le, length-drop c.offset c.buffer, ap length h, length-append text rest)

      slice : subarray c.buffer c.offset (c.offset + length text) ≡ text
      slice =
          ap (λ n. take n (drop c.offset c.buffer)) {x = c.offset + length text - c.offset}
            {y = length text} (omega arith)
          ∙ ap (take (length text)) h
          ∙ take-append text rest

  pub le2-fits : (v : ℕ) (rest : List ℕ) → At c (le2 v rest) → c.offset + 2 ≤ length c.buffer
  le2-fits v rest h = omega (arith, length-drop c.offset c.buffer, ap length h)

  pub u8-At :
      (b : ℕ) (rest : List ℕ) → At c (b ∷ rest) → (u8 c ≡ ok (b, moved 1 c)) × At (moved 1 c) rest
  unfolding u8
  u8-At b rest h = (
    ap (λ r. r >>= λ c'. ok (byte_at c 0, c')) (skip-At 1 (b ∷ rest) h (omega arith) (omega arith))
        ∙ ap (λ n. ok (n, moved 1 c)) (byte_at-At 0 b (b ∷ rest) h refl),
    At-moved 1 (b ∷ rest) h,
  )

  pub at_end-nil : At c [] → at_end c ≡ true
  unfolding at_end
  at_end-nil h = ground (arith, length-drop c.offset c.buffer, ap length h)

  pub uleb-At :
      (b : ℕ) (rest : List ℕ)
      → b < 128
      → At c (b ∷ rest)
      → (uleb c ≡ ok (b, moved 1 c)) × At (moved 1 c) rest
  unfolding uleb uleb_loop
  uleb-At b rest lt h = (
    ap (λ l. uleb_loop l c.offset 0 0 >>= λ r. ok (r.0, record c { offset = r.1 })) h
        ∙ ground (arith, lt),
    At-moved 1 (b ∷ rest) h,
  )

  pub sub-At :
      (text rest : List ℕ)
      → c.offset ≤ length c.buffer
      → At c (text ++ rest)
      → (sub (length text) c ≡ ok (record { buffer = text; offset = 0 }, moved (length text) c))
        × At (moved (length text) c) rest
  unfolding sub
  sub-At text rest le h =
      let b = bytes-At text rest le h in
      (ap (λ r. r >>= λ q. ok (record { buffer = q.0; offset = 0 }, q.1)) b.0, b.1)

  pub At-fits : (b : ℕ) (rest : List ℕ) → At c (b ∷ rest) → c.offset < length c.buffer
  At-fits b rest h = omega (arith, length-drop c.offset c.buffer, ap length h)
