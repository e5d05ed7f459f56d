-- ===== src/Strkey/Encoding.antt =====
-- What `encodeContract` and `encodeEd25519PublicKey` of src/soroban/strkey.ts return.
use stellar_debugger.Prelude.{
  ℕ, zero, suc, ◌+◌, ◌-◌, ◌*◌, ◌/◌, ◌%◌, ◌^◌, ◌≤◌, ◌<◌, ◌≡◌, refl, ◌∙◌, some, List, [], ◌∷◌, ◌++◌,
  length, length-append, head?, leb, arith, Bool-cases, inl, inr,
}
use stellar_debugger.Bytes.{Result, ok}
use stellar_debugger.Strkey.{
  emit, base32_char, base32_loop, base32_encode, with_checksum, crc16_xmodem, encode_check,
  encode_contract, encode_ed25519_public_key, StrkeyError,
}

length-emit :
    (fuel bits buffer : ℕ)
    → bits ≤ fuel
    → (length (emit fuel bits buffer).0 ≡ bits / 5) × ((emit fuel bits buffer).1 ≡ bits % 5)
unfolding emit
length-emit zero bits buffer h = (omega arith, omega arith)
length-emit (suc fuel) bits buffer h = elim (Bool-cases (leb 5 bits)) [
  | inl t ↦
      let ih = length-emit fuel (bits - 5) buffer (omega arith) in
      (ground (arith, t, ih.0), ground (arith, t, ih.1))
  | inr t ↦ (ground (arith, t), ground (arith, t))
]

-- Five bits make a character.
length-base32_loop :
    (bytes : List ℕ) (buffer bits : ℕ)
    → (bits + 8 * length bytes) % 5 ≡ 0
    → bits < 5
    → length (base32_loop bytes buffer bits) ≡ (bits + 8 * length bytes) / 5
unfolding base32_loop
length-base32_loop [] buffer bits h lt = ground arith
length-base32_loop (byte ∷ bytes) buffer bits h lt =
    let e = length-emit (bits + 8) (bits + 8) ((buffer * 0x100 + byte) % 2 ^ 32) (omega arith) in
    let ih =
      length-base32_loop bytes ((buffer * 0x100 + byte) % 2 ^ 32)
        (emit (bits + 8) (bits + 8) ((buffer * 0x100 + byte) % 2 ^ 32)).1 (omega (arith, e.1))
        (omega (arith, e.1)) in
    length-append after.0 (base32_loop bytes rest after.1) ∙ omega (arith, e.0, e.1, ih)
  where
    rest : ℕ
    rest = (buffer * 0x100 + byte) % 2 ^ 32

    after : List ℕ × ℕ
    after = emit (bits + 8) (bits + 8) rest

first_char :
    (version : ℕ) (bytes : List ℕ)
    → head? (base32_encode (version ∷ bytes)) ≡ some (base32_char ((0 + version) % 2 ^ 32 / 2 ^ 3))
unfolding base32_encode base32_loop emit
first_char version bytes = refl

-- What an encoded address looks like.
abbrev pub IsAddress : ℕ → Result StrkeyError (List ℕ) → Type 0
IsAddress first result =
    (text : List ℕ) × (result ≡ ok text) × (length text ≡ 56) × (head? text ≡ some first)

encode_check-IsAddress :
    (version : ℕ) (raw : List ℕ)
    → length raw ≡ 32
    → IsAddress (base32_char ((0 + version) % 2 ^ 32 / 2 ^ 3)) (encode_check version raw)
unfolding encode_check with_checksum
encode_check-IsAddress version raw h = (
  base32_encode (with_checksum (version ∷ raw)),
  ground (arith, h),
  unfold base32_encode in
      (length-base32_loop (with_checksum (version ∷ raw)) 0 0 (omega (arith, full)) (omega arith)
        ∙ omega (arith, full)),
  first_char version (raw ++ check % 0x100 ∷ check / 0x100 % 0x100 ∷ []),
)
  where
    check : ℕ
    check = crc16_xmodem (version ∷ raw)

    full : length (with_checksum (version ∷ raw)) ≡ 35
    full = omega (arith, length-append raw (check % 0x100 ∷ check / 0x100 % 0x100 ∷ []), h)

-- Every 32-byte address is encoded, in 56 characters: a contract's begins with C and a public key's
-- with G.
pub encode_contract-IsAddress :
    (raw : List ℕ)
    → length raw ≡ 32
    → IsAddress b'C' (encode_contract raw) × IsAddress b'G' (encode_ed25519_public_key raw)
unfolding encode_contract encode_ed25519_public_key base32_char
encode_contract-IsAddress raw h = (encode_check-IsAddress 16 raw h, encode_check-IsAddress 48 raw h)
