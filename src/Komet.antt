-- ===== src/Komet.antt =====
-- The JSON values that src/komet/trace.ts and src/komet/traceEvents.ts read, as `JSON.parse`
-- returns them.
pub mod Fields
pub mod Values
pub mod Payload
pub mod Print
pub mod RoundTrip
pub mod Entries
pub mod Events
pub mod Records
use stellar_debugger.Prelude.{
  ℕ, String, Bool, true, false, not, ◌&&◌, ◌||◌, leb, Option, none, some, List, [], ◌∷◌, str_eq,
  if◌then◌else◌,
}

-- A number of a trace is a natural one. `array` and `object` hold the two lists below.
mutual
  pub data Json : Type 0 where
    null : Json
    bool : Bool → Json
    number : ℕ → Json
    string : String → Json
    array : Items → Json
    object : Members → Json

  pub data Items : Type 0 where
    no_items : Items
    item : Json → Items → Items

  pub data Members : Type 0 where
    no_members : Members
    member : String → Json → Members → Members

-- `obj[key]`, where `none` is undefined.
unfoldable pub field : Members → String → Option Json
field no_members key = none
field (member k j rest) key = if str_eq k key then some j else field rest key

unfoldable pub items : Items → List Json
items no_items = []
items (item j rest) = j ∷ items rest

-- A digit of lowercase hex.
abbrev pub is_hex_digit : ℕ → Bool
is_hex_digit c = leb b'0' c && leb c b'9' || leb b'a' c && leb c b'f'

-- `/^([0-9a-f]{2})*$/`
unfoldable pub is_hex : List ℕ → Bool
is_hex [] = true
is_hex (a ∷ []) = false
is_hex (a ∷ b ∷ rest) = is_hex_digit a && is_hex_digit b && is_hex rest
