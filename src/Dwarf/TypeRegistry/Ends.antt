-- ===== src/Dwarf/TypeRegistry/Ends.antt =====
-- `decode` of src/dwarf/TypeRegistry.ts gives a type or an error of the source's.
use stellar_debugger.Prelude.{ℕ, Bool, Option, none, some, List, [], ◌∷◌, ◌==◌, if◌then◌else◌}
use stellar_debugger.Prelude.Int.{pos}
use stellar_debugger.Prelude.NatMap.{get}
use stellar_debugger.Bytes.{ok, ◌>>=◌, >>=-Yields}
use stellar_debugger.Dwarf.{out_of_rounds, Cursor, uleb}
use stellar_debugger.Dwarf.Location.Forward.{Sane, if-Sane, Onward, uleb-Forward}
use stellar_debugger.Dwarf.Forms.{
  AttrValue, uint, int, str, flag_value, ref, block_value, unavailable,
}
use stellar_debugger.Dwarf.Die.{Die, tag_of, children_of, attrs_of, DieMap, die_ref}
use stellar_debugger.Dwarf.TypeRegistry.{
  Discr, Typed, find_child, children_with, expr_offset, offset_of, member_offset, build_member,
  each, members, discr_of, payload, build_variant, decode_rust_enum, decode_structure, decode,
}

abbrev pub Ends : {A : Type 0} → Typed A → Type 0
Ends m = Sane (λ _. Unit {0}) m

-- Two steps in a row.
both-Ends :
    {A B : Type 0} (m : Typed A) (f : A → Typed B)
    → Ends m
    → ((a : A) → Ends (f a))
    → Ends (m >>= f)
both-Ends m f h k = >>=-Yields out_of_rounds (λ _. Unit {0}) (λ _. Unit {0}) m f h (λ a _. k a)

expr_offset-Ends : (bytes : List ℕ) → Ends (expr_offset bytes)
unfolding expr_offset
expr_offset-Ends [] = tt
expr_offset-Ends (op ∷ rest) =
    if-Sane (λ _. Unit {0}) (op == 0x23) _ (ok (pos 0))
      (>>=-Yields out_of_rounds (λ r. Onward c r.1) (λ _. Unit {0}) (uleb c) _ (uleb-Forward c)
        (λ _ _. tt))
      tt
  where
    c : Cursor
    c = record { buffer = rest; offset = 0 }

offset_of-Ends : (o : Option AttrValue) → Ends (offset_of o)
unfolding offset_of
offset_of-Ends none = tt
offset_of-Ends (some (uint n)) = tt
offset_of-Ends (some (int n)) = tt
offset_of-Ends (some (str n)) = tt
offset_of-Ends (some (flag_value b)) = tt
offset_of-Ends (some (ref n)) = tt
offset_of-Ends (some (block_value bytes)) = expr_offset-Ends bytes
offset_of-Ends (some unavailable) = tt

member_offset-Ends : (d : Die) → Ends (member_offset d)
unfolding member_offset
member_offset-Ends d = offset_of-Ends (get (attrs_of d) 0x38)

build_member-Ends : (d : Die) → Ends (build_member d)
unfolding build_member
build_member-Ends d = both-Ends (member_offset d) _ (member_offset-Ends d) (λ _. tt)

each-Ends :
    {A : Type 0} (f : Die → Typed A) (ds : List Die) → ((d : Die) → Ends (f d)) → Ends (each f ds)
unfolding each
each-Ends f [] h = tt
each-Ends f (d ∷ ds) h =
    both-Ends (f d) _ (h d) (λ a. both-Ends (each f ds) _ (each-Ends f ds h) (λ _. tt))

members-Ends : (d : Die) → Ends (members d)
unfolding members
members-Ends d = each-Ends build_member (children_with 0x0d (children_of d)) build_member-Ends

payload-Ends : (o : Option Die) → Ends (payload o)
unfolding payload
payload-Ends none = tt
payload-Ends (some d) = build_member-Ends d

build_variant-Ends : (v : Die) → Ends (build_variant v)
unfolding build_variant
build_variant-Ends v =
    both-Ends (payload (find_child 0x0d (children_of v))) _
      (payload-Ends (find_child 0x0d (children_of v))) (λ _. tt)

module _ (dies : DieMap) where
  discr_of-Ends : (o : Option ℕ) → Ends (discr_of dies o)
  unfolding discr_of
  discr_of-Ends none = tt
  discr_of-Ends (some o) = elim (get dies o) as (λ found. Ends (m found)) [
    | none ↦ tt
    | some d ↦ both-Ends (member_offset d) _ (member_offset-Ends d) (λ _. tt)
  ]
    where
      m : Option Die → Typed (Option Discr)
      m none = ok none
      m (some d) = member_offset d >>= λ offset.
          ok (some (record { offset = offset; type_ref = die_ref d 0x49 }))

  decode_structure-Ends : (d : Die) (o : Option Die) → Ends (decode_structure dies d o)
  unfolding decode_structure decode_rust_enum
  decode_structure-Ends d none = both-Ends (members d) _ (members-Ends d) (λ _. tt)
  decode_structure-Ends d (some part) =
      both-Ends (discr_of dies (die_ref part 0x15)) _ (discr_of-Ends (die_ref part 0x15)) (λ _.
        both-Ends (each build_variant variants) _
          (each-Ends build_variant variants build_variant-Ends) (λ _. tt))
    where
      variants : List Die
      variants = children_with 0x59 (children_of part)

  pick : {A : Type 0} (b : Bool) (x y : Typed A) → Ends x → Ends y → Ends (if b then x else y)
  pick b x y h k = if-Sane (λ _. Unit {0}) b x y h k

  pub decode-Ends : (d : Die) → Ends (decode dies d)
  unfolding decode
  decode-Ends d = pick (tag == 0x24) _ _ tt (
      pick (tag == 0x0f) _ _ tt (
        pick (tag == 0x13) _ _ (decode_structure-Ends d (find_child 0x33 (children_of d))) (
          pick (tag == 0x17) _ _ (both-Ends (members d) _ (members-Ends d) (λ _. tt)) (
            pick (tag == 0x01) _ _ tt (
              pick (tag == 0x04) _ _ tt (
                pick (tag == 0x16) _ _ tt
                  (pick (tag == 0x26) _ _ tt (pick (tag == 0x35) _ _ tt tt))))))))
    where
      tag : ℕ
      tag = tag_of d
