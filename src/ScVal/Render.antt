-- ===== src/ScVal/Render.antt =====
-- How src/soroban/scvalJson.ts shows a Soroban value: `renderScVal` and `summarizeScVal`. A text is
-- a list of code points.
use stellar_debugger.Prelude.{
  ℕ, suc, ◌+◌, String, Bool, true, false, List, ◌++◌, str_eq, if◌then◌else◌,
}
use stellar_debugger.Lines.{codes}
use stellar_debugger.ScVal.{
  ScVal, void, error, address, vec, map, scalar, ScVals, nil, cons, Entries, end, entry,
}
use stellar_debugger.CallStack.{decimal, render_address}

-- `decoded display type_name children`; the source makes the children when they are asked for.
mutual
  pub data DecodedValue : Type 0 where
    decoded : List ℕ → List ℕ → Children → DecodedValue

  pub data Children : Type 0 where
    no_children : Children
    child : List ℕ → DecodedValue → Children → Children

abbrev pub display_of : DecodedValue → List ℕ
display_of (decoded display type_name _) = display

abbrev pub type_name_of : DecodedValue → List ℕ
type_name_of (decoded display type_name _) = type_name

unfoldable pub count : ScVals → ℕ
count nil = 0
count (cons v vs) = suc (count vs)

unfoldable pub entry_count : Entries → ℕ
entry_count end = 0
entry_count (entry k v es) = suc (entry_count es)

abbrev pub counted : String → ℕ → String → List ℕ
counted opening n closing = codes opening ++ (decimal n ++ codes closing)

-- `value.addrType === 'account' ? 'account' : 'contract'`
abbrev pub address_kind : String → String
address_kind kind = if str_eq kind "account" then "account" else "contract"

-- `JSON.stringify` of a text is a parameter.
module _ (stringify : String → List ℕ) where
  unfoldable pub scalar_display : String → String → List ℕ
  scalar_display type text =
      if str_eq type "string"
      then stringify text
      else if str_eq type "bytes"
      then codes "0x" ++ codes text
      else codes text

  unfoldable mutual
    unfolding scalar_display count entry_count decimal render_address

    pub render_scval : ScVal → DecodedValue
    render_scval void = decoded (codes "void") (codes "void") no_children
    render_scval (error kind code) =
        decoded (codes kind ++ (codes "#" ++ codes code)) (codes "error") no_children
    render_scval (address kind value) =
        decoded (render_address (record { addr_type = address_kind kind; value = value }))
          (codes "address") no_children
    render_scval (vec vs) =
        decoded (counted "vec[" (count vs) "]") (codes "vec") (render_items vs 0)
    render_scval (map es) =
        decoded (counted "map{" (entry_count es) "}") (codes "map") (render_entries es)
    render_scval (scalar type text) = decoded (scalar_display type text) (codes type) no_children

    -- The items from index `i` on.
    pub render_items : ScVals → ℕ → Children
    render_items nil i = no_children
    render_items (cons v vs) i =
        child (counted "[" i "]") (render_scval v) (render_items vs (i + 1))

    pub render_entries : Entries → Children
    render_entries end = no_children
    render_entries (entry k v es) =
        child (display_of (render_scval k)) (render_scval v) (render_entries es)

  -- `rendered.typeName === 'void'`
  unfoldable pub is_void : ScVal → Bool
  is_void void = true
  is_void (scalar type text) = str_eq type "void"
  is_void _ = false

  -- `type(value)`
  unfoldable pub summarize_scval : ScVal → List ℕ
  unfolding render_scval is_void
  summarize_scval v =
      let r = render_scval v in
      if is_void v
      then codes "void"
      else type_name_of r ++ (codes "(" ++ (display_of r ++ codes ")"))
