-- ===== src/Dwarf/Abbrev/Rounds.antt =====
-- The loops of src/dwarf/abbrev.ts come to an end.
use stellar_debugger.Prelude.{
  ℕ, zero, suc, ◌+◌, ◌≤◌, ◌<◌, ◌≡◌, ◌≢◌, refl, ap, ◌⊎◌, inl, inr, Bool, true, false, ◌&&◌, Option,
  none, some, List, [], ◌∷◌, ◌++◌, length, drop, ◌==◌, arith, if◌then◌else◌,
}
use stellar_debugger.Bytes.{Result, ok, fail, ◌>>=◌, Yields, >>=-Yields}
use stellar_debugger.Dwarf.{DwarfParseError, out_of_rounds, Cursor, Read, u8, uleb, sleb}
use stellar_debugger.Dwarf.Abbrev.{
  AbbrevAttr, AbbrevDecl, set_decl, attr_value, read_attr, attrs_loop, read_decl, decls_loop,
  parse_abbrev_table,
}
use stellar_debugger.Dwarf.Abbrev.Progress.{
  Within, Advances, Stays, Within-trans, both_advance, then_stay, uleb-Advances, sleb-Advances,
  u8-Advances,
}

attr_value-Stays : (at form : ℕ) (c : Cursor) → Stays c (attr_value at form c)
unfolding attr_value
attr_value-Stays at form c = pick (form == 0x21)
  where
    with_const : Read AbbrevAttr
    with_const =
        sleb c >>= (λ v. ok (record { at = at; form = form; implicit_const = some v.0 }, v.1))

    pick :
        (b : Bool)
        → Stays c (
            if b
            then with_const
            else ok (record { at = at; form = form; implicit_const = none }, c))
    pick true =
        >>=-Yields out_of_rounds (λ r. Within c r.1) (λ r. (r.1 ≡ c) ⊎ Within c r.1) (sleb c) _
          (sleb-Advances c) (λ r w. inr w)
    pick false = inl refl

read_attr-Advances : (c : Cursor) → Advances c (read_attr c)
unfolding read_attr
read_attr-Advances c = both_advance c (uleb c) _ (uleb-Advances c) (λ at _.
    then_stay at.1 (uleb at.1) _ (uleb-Advances at.1)
      (λ form _. pick at.0 form.0 form.1 (at.0 == 0 && form.0 == 0)))
  where
    pick :
        (at form : ℕ) (c1 : Cursor) (b : Bool)
        → Stays c1
            (if b then ok (none, c1) else attr_value at form c1 >>= (λ a. ok (some a.0, a.1)))
    pick at form c1 true = inl refl
    pick at form c1 false =
        >>=-Yields out_of_rounds (λ r. (r.1 ≡ c1) ⊎ Within c1 r.1) (λ r. (r.1 ≡ c1) ⊎ Within c1 r.1)
          (attr_value at form c1) _ (attr_value-Stays at form c1) (λ r w. w)

-- Enough rounds for the bytes that are left.
abbrev Enough : ℕ → Cursor → Type 0
Enough fuel c = (c.offset ≤ length c.buffer) × (length c.buffer < c.offset + fuel)

Enough-Within :
    (fuel : ℕ) (c c' : Cursor)
    → Within c c'
    → length c.buffer < c.offset + suc fuel
    → Enough fuel c'
Enough-Within fuel c c' w h = (omega (arith, w.2, ap length w.0), omega (arith, w.1, ap length w.0))

attrs_loop-Advances :
    (fuel : ℕ) (c : Cursor) (attrs : List AbbrevAttr)
    → Enough fuel c
    → Advances c (attrs_loop fuel c attrs)
unfolding attrs_loop
attrs_loop-Advances zero c attrs h = absurd (omega (arith, h.0, h.1))
attrs_loop-Advances (suc fuel) c attrs h =
    >>=-Yields out_of_rounds (λ r. Within c r.1) (λ r. Within c r.1) (read_attr c) _
      (read_attr-Advances c)
      (λ a w. go a.0 a.1 w (λ attr.
        attrs_loop-Advances fuel a.1 (attrs ++ attr ∷ []) (Enough-Within fuel c a.1 w h.1)))
  where
    go :
        (o : Option AbbrevAttr) (c' : Cursor)
        → Within c c'
        → ((attr : AbbrevAttr) → Advances c' (attrs_loop fuel c' (attrs ++ attr ∷ [])))
        → Advances c
            (elim o [ none ↦ ok (attrs, c') | some attr ↦ attrs_loop fuel c' (attrs ++ attr ∷ []) ])
    go none c' w rec = w
    go (some attr) c' w rec = through (attrs_loop fuel c' (attrs ++ attr ∷ [])) (rec attr)
      where
        through : (m : Read (List AbbrevAttr)) → Advances c' m → Advances c m
        through (ok r) g = Within-trans c c' r.1 w g
        through (fail e) g = g

read_decl-Advances :
    (fuel : ℕ) (c : Cursor) → length c.buffer < c.offset + fuel → Advances c (read_decl fuel c)
unfolding read_decl
read_decl-Advances fuel c h = both_advance c (uleb c) _ (uleb-Advances c) (λ tag w.
    both_advance tag.1 (u8 tag.1) _ (u8-Advances tag.1) (λ ch v.
      then_stay ch.1 (attrs_loop fuel ch.1 []) _
        (attrs_loop-Advances fuel ch.1 [] (
          omega (arith, v.2, ap length v.0),
          omega (arith, h, w.1, v.1, ap length w.0, ap length v.0),
        ))
        (λ attrs _. inl refl)))

decls_loop-Yields :
    (inner fuel : ℕ) (c : Cursor) (decls : List (ℕ × AbbrevDecl))
    → length c.buffer < c.offset + inner
    → Enough fuel c
    → Yields out_of_rounds (λ d. Unit {0}) (decls_loop inner fuel c decls)
unfolding decls_loop
decls_loop-Yields inner zero c decls hi h = absurd (omega (arith, h.0, h.1))
decls_loop-Yields inner (suc fuel) c decls hi h =
    >>=-Yields out_of_rounds (λ r. Within c r.1) (λ d. Unit {0}) (uleb c) _ (uleb-Advances c)
      (λ code w. go (code.0 == 0) code w (λ d v.
        decls_loop-Yields inner fuel d.1 (set_decl code.0 d.0 decls)
          (omega (arith, hi, w.1, v.1, ap length w.0, ap length v.0))
          (Enough-Within fuel c d.1 (Within-trans c code.1 d.1 w v) h.1)))
  where
    go :
        (b : Bool) (code : ℕ × Cursor)
        → Within c code.1
        → ((d : AbbrevDecl × Cursor)
            → Within code.1 d.1
            → Yields out_of_rounds
                (λ d. Unit {0})
                (decls_loop inner fuel d.1 (set_decl code.0 d.0 decls)))
        → Yields out_of_rounds
            (λ d. Unit {0})
            (elim b [
              | true ↦ ok decls
              | false ↦ read_decl inner code.1 >>= λ d.
                  decls_loop inner fuel d.1 (set_decl code.0 d.0 decls)
            ])
    go true code w rec = tt
    go false code w rec =
        >>=-Yields out_of_rounds (λ r. Within code.1 r.1) (λ d. Unit {0}) (read_decl inner code.1) _
          (read_decl-Advances inner code.1 (omega (arith, hi, w.1, ap length w.0))) rec

-- The parse of any section at any offset ends with a table or with an error of the cursor: one
-- round of each loop for every byte, and one more, is enough.
pub parse_abbrev_table-ne-out_of_rounds :
    (section : List ℕ) (offset : ℕ) → parse_abbrev_table section offset ≢ fail out_of_rounds
unfolding parse_abbrev_table
parse_abbrev_table-ne-out_of_rounds section offset = not_stuck _ (
    decls_loop-Yields (length (drop offset section) + 1) (length (drop offset section) + 1)
      (record { buffer = drop offset section; offset = 0 }) [] (omega arith)
      (omega arith, omega arith))
  where
    not_stuck :
        (m : Result DwarfParseError (List (ℕ × AbbrevDecl)))
        → Yields out_of_rounds (λ d. Unit {0}) m
        → m ≢ fail out_of_rounds
    not_stuck (ok d) h e = cc
    not_stuck (fail x) h e = h (cc)
