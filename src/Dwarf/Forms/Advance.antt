-- ===== src/Dwarf/Forms/Advance.antt =====
-- `readForm` of src/dwarf/forms.ts and `skipByForm` of src/dwarf/info.ts pass the same bytes.
use stellar_debugger.Prelude.{
  ℕ, zero, suc, ◌+◌, ◌≡◌, refl, ap, ◌∙◌, ◌⊎◌, inl, inr, String, Option, none, some, List, length,
  arith,
}
use stellar_debugger.Prelude.Int.{ℤ}
use stellar_debugger.Bytes.{Result, ok, fail, ◌>>=◌}
use stellar_debugger.Dwarf.{
  DwarfParseError, unknown_form, Cursor, Read, skip, bytes, u8, u16, u32, uleb, sleb, byte_at,
  cstring,
}
use stellar_debugger.Dwarf.Abbrev.{AbbrevAttr}
use stellar_debugger.Dwarf.Forms.{
  Form, form_of, AttrValue, uint, block_value, FormContext, after, skip_counted, counted_bytes,
  skip_form, skip_rounds, skip_by_form, read_uint, read_u64, string_in, form_value, read_rounds,
  read_form,
}
use stellar_debugger.Dwarf.Forms.{
  addr, block2, block4, data2, data4, data8, string, block, block1, data1, flag, sdata, strp, udata,
  ref_addr, ref1, ref2, ref4, ref8, ref_udata, indirect, sec_offset, exprloc, flag_present, strx,
  addrx, ref_sup4, strp_sup, data16, line_strp, ref_sig8, implicit_const, loclistx, rnglistx,
  ref_sup8, strx1, strx2, strx3, strx4, addrx1, addrx2, addrx3, addrx4,
}

-- A reader that goes on from where it skips to.
after-skip :
    {A : Type 0} (f : Cursor → A) (m : Result DwarfParseError Cursor)
    → after (m >>= λ c'. ok (f c', c')) ≡ m
after-skip f (ok c') = refl
after-skip f (fail e) = refl

after-map : {A B : Type 0} (f : A → B) (m : Read A) → after (m >>= λ r. ok (f r.0, r.1)) ≡ after m
after-map f (ok r) = refl
after-map f (fail e) = refl

after-bind :
    {A B : Type 0} (m : Read A) (f : A × Cursor → Read B)
    (g : Cursor → Result DwarfParseError Cursor)
    → ((r : A × Cursor) → after (f r) ≡ g r.1)
    → after (m >>= f) ≡ (after m >>= g)
after-bind (ok r) f g h = h r
after-bind (fail e) f g h = refl

after-each :
    {A B : Type 0} (m : Read A) (f : A × Cursor → Read B)
    (g : A × Cursor → Result DwarfParseError Cursor)
    → ((r : A × Cursor) → after (f r) ≡ g r)
    → after (m >>= f) ≡ (m >>= g)
after-each (ok r) f g h = h r
after-each (fail e) f g h = refl

module _ (c : Cursor) where
  after-u8 : after (u8 c) ≡ skip 1 c
  unfolding u8
  after-u8 = after-skip (λ _. byte_at c 0) (skip 1 c)

  after-u16 : after (u16 c) ≡ skip 2 c
  unfolding u16
  after-u16 = after-skip _ (skip 2 c)

  after-u32 : after (u32 c) ≡ skip 4 c
  unfolding u32
  after-u32 = after-skip _ (skip 4 c)

  after-bytes : (n : ℕ) → after (bytes n c) ≡ skip n c
  unfolding bytes
  after-bytes n = after-skip _ (skip n c)

  skip-skip : (skip 4 c >>= skip 4) ≡ skip 8 c
  unfolding skip
  skip-skip = ground arith

after-read_u64 : (c : Cursor) → after (read_u64 c) ≡ skip 8 c
unfolding read_u64
after-read_u64 c =
    after-bind (u32 c) _ (skip 4) (λ low. after-map _ (u32 low.1) ∙ after-u32 low.1)
    ∙ ap (λ m. m >>= skip 4) (after-u32 c)
    ∙ skip-skip c

after-counted_bytes : (m : Read ℕ) → after (counted_bytes m) ≡ skip_counted m
after-counted_bytes (fail e) = refl
after-counted_bytes (ok n) = after-map block_value (bytes n.0 n.1) ∙ after-bytes n.1 n.0

-- A size that `readUint` reads.
abbrev pub IsSize : ℕ → Type 0
IsSize n = (n ≡ 1) ⊎ (n ≡ 2) ⊎ (n ≡ 4)

after-read_uint : (c : Cursor) (size : ℕ) → IsSize size → after (read_uint c size) ≡ skip size c
unfolding read_uint
after-read_uint c size (inl e) = rw e (after-u8 c)
after-read_uint c size (inr (inl e)) = rw e (after-u16 c)
after-read_uint c size (inr (inr e)) = rw e (after-u32 c)

module _ (utf8 : List ℕ → String) (ctx : FormContext) where
  after-string_in :
      (section : Option (List ℕ)) (c : Cursor) → after (string_in utf8 section c) ≡ skip 4 c
  unfolding string_in
  after-string_in section c = after-map _ (u32 c) ∙ after-u32 c

  after-form_value :
      (f : Form) (k : Option ℤ) (c : Cursor) (read : Read AttrValue)
      (passed : Result DwarfParseError Cursor)
      → IsSize ctx.address_size
      → after read ≡ passed
      → after (form_value utf8 f k ctx c read) ≡ skip_form utf8 f ctx.address_size c passed
  unfolding form_value
  after-form_value addr k c read passed h again =
      after-map uint (read_uint c ctx.address_size) ∙ after-read_uint c ctx.address_size h
  after-form_value block2 k c read passed h again = after-counted_bytes (u16 c)
  after-form_value block4 k c read passed h again = after-counted_bytes (u32 c)
  after-form_value data2 k c read passed h again = after-map _ (u16 c) ∙ after-u16 c
  after-form_value data4 k c read passed h again = after-map _ (u32 c) ∙ after-u32 c
  after-form_value data8 k c read passed h again = after-map _ (read_u64 c) ∙ after-read_u64 c
  after-form_value string k c read passed h again = after-map _ (cstring utf8 c)
  after-form_value block k c read passed h again = after-counted_bytes (uleb c)
  after-form_value block1 k c read passed h again = after-counted_bytes (u8 c)
  after-form_value data1 k c read passed h again = after-map _ (u8 c) ∙ after-u8 c
  after-form_value flag k c read passed h again = after-map _ (u8 c) ∙ after-u8 c
  after-form_value sdata k c read passed h again = after-map _ (sleb c)
  after-form_value strp k c read passed h again = after-string_in ctx.str_section c
  after-form_value udata k c read passed h again = after-map _ (uleb c)
  after-form_value ref_addr k c read passed h again = after-map _ (u32 c) ∙ after-u32 c
  after-form_value ref1 k c read passed h again = after-map _ (u8 c) ∙ after-u8 c
  after-form_value ref2 k c read passed h again = after-map _ (u16 c) ∙ after-u16 c
  after-form_value ref4 k c read passed h again = after-map _ (u32 c) ∙ after-u32 c
  after-form_value ref8 k c read passed h again = after-map _ (read_u64 c) ∙ after-read_u64 c
  after-form_value ref_udata k c read passed h again = after-map _ (uleb c)
  after-form_value indirect k c read passed h again = again
  after-form_value sec_offset k c read passed h again = after-map _ (u32 c) ∙ after-u32 c
  after-form_value exprloc k c read passed h again = after-counted_bytes (uleb c)
  after-form_value flag_present k c read passed h again = refl
  after-form_value strx k c read passed h again =
      after-skip _ (skip_form utf8 strx ctx.address_size c (fail unknown_form))
  after-form_value addrx k c read passed h again =
      after-skip _ (skip_form utf8 addrx ctx.address_size c (fail unknown_form))
  after-form_value ref_sup4 k c read passed h again =
      after-skip _ (skip_form utf8 ref_sup4 ctx.address_size c (fail unknown_form))
  after-form_value strp_sup k c read passed h again =
      after-skip _ (skip_form utf8 strp_sup ctx.address_size c (fail unknown_form))
  after-form_value data16 k c read passed h again = after-map _ (bytes 16 c) ∙ after-bytes c 16
  after-form_value line_strp k c read passed h again = after-string_in ctx.line_str_section c
  after-form_value ref_sig8 k c read passed h again =
      after-skip _ (skip_form utf8 ref_sig8 ctx.address_size c (fail unknown_form))
  after-form_value implicit_const k c read passed h again = refl
  after-form_value loclistx k c read passed h again =
      after-skip _ (skip_form utf8 loclistx ctx.address_size c (fail unknown_form))
  after-form_value rnglistx k c read passed h again =
      after-skip _ (skip_form utf8 rnglistx ctx.address_size c (fail unknown_form))
  after-form_value ref_sup8 k c read passed h again =
      after-skip _ (skip_form utf8 ref_sup8 ctx.address_size c (fail unknown_form))
  after-form_value strx1 k c read passed h again =
      after-skip _ (skip_form utf8 strx1 ctx.address_size c (fail unknown_form))
  after-form_value strx2 k c read passed h again =
      after-skip _ (skip_form utf8 strx2 ctx.address_size c (fail unknown_form))
  after-form_value strx3 k c read passed h again =
      after-skip _ (skip_form utf8 strx3 ctx.address_size c (fail unknown_form))
  after-form_value strx4 k c read passed h again =
      after-skip _ (skip_form utf8 strx4 ctx.address_size c (fail unknown_form))
  after-form_value addrx1 k c read passed h again =
      after-skip _ (skip_form utf8 addrx1 ctx.address_size c (fail unknown_form))
  after-form_value addrx2 k c read passed h again =
      after-skip _ (skip_form utf8 addrx2 ctx.address_size c (fail unknown_form))
  after-form_value addrx3 k c read passed h again =
      after-skip _ (skip_form utf8 addrx3 ctx.address_size c (fail unknown_form))
  after-form_value addrx4 k c read passed h again =
      after-skip _ (skip_form utf8 addrx4 ctx.address_size c (fail unknown_form))

  after-read_rounds :
      (fuel form : ℕ) (k : Option ℤ) (c : Cursor)
      → IsSize ctx.address_size
      → after (read_rounds utf8 fuel form k ctx c) ≡ skip_rounds utf8 fuel form ctx.address_size c
  unfolding read_rounds skip_rounds
  after-read_rounds zero form k c h = refl
  after-read_rounds (suc fuel) form k c h =
      go (form_of form) (after-each (uleb c) _ _ (λ f. after-read_rounds fuel f.0 none f.1 h))
    where
      read : Read AttrValue
      read = uleb c >>= λ f. read_rounds utf8 fuel f.0 none ctx f.1

      passed : Result DwarfParseError Cursor
      passed = uleb c >>= λ f. skip_rounds utf8 fuel f.0 ctx.address_size f.1

      go :
          (o : Option Form)
          → after read ≡ passed
          → after (elim o [ none ↦ fail unknown_form | some f ↦ form_value utf8 f k ctx c read ])
            ≡ elim o [
              | none ↦ fail unknown_form
              | some f ↦ skip_form utf8 f ctx.address_size c passed
            ]
      go none again = refl
      go (some f) again = after-form_value f k c read passed h again

  -- Reading a value passes the same bytes as skipping it, and fails with the same error, whatever
  -- the form and the bytes are, where the address size is one that `readForm` reads: 1, 2 or 4.
  pub read_form-skip_by_form :
      (attr : AbbrevAttr) (c : Cursor)
      → IsSize ctx.address_size
      → after (read_form utf8 attr ctx c) ≡ skip_by_form utf8 attr.form ctx.address_size c
  unfolding read_form skip_by_form
  read_form-skip_by_form attr c h =
      after-read_rounds (length c.buffer + 2) attr.form attr.implicit_const c h
