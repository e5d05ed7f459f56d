-- ===== src/Flags.antt =====
-- The argument tokenizer of src/cli/flags.ts.
pub mod Grammar
use stellar_debugger.Prelude.{
  ℕ, String, Bool, true, false, ◌||◌, ◌&&◌, Option, none, some, List, [], ◌∷◌, ◌++◌, ltb, leb,
  str_eq, if◌then◌else◌,
}
use stellar_debugger.Prelude.Dict.{Dict, insert}
use stellar_debugger.Lines.{codes}

-- `switches` may be left out.
pub record FlagSpec : Type 0 where
  pub value : List String
  pub switches : Option (List String)

-- The two results; a message is the kind of the error and the token that it names.
pub data FlagResult : Type 0 where
  parsed : Dict String → List String → FlagResult
  missing_value unknown_option unexpected_argument : String → FlagResult

-- `set.has(token)` and `argv.includes(token)`
abbrev pub has_text : List String → String → Bool
has_text [] token = false
has_text (x ∷ xs) token = if str_eq x token then true else has_text xs token

-- `set.add(token)`
abbrev pub add_text : List String → String → List String
add_text set token = if has_text set token then set else set ++ token ∷ []

-- `token.startsWith('-')`
unfoldable pub is_option : String → Bool
is_option String.[] = false
is_option (String.◌∷◌ c s) = str_eq (String.◌∷◌ c String.[]) "-"

unfoldable pub wants_help : List String → Bool
wants_help argv = has_text argv "-h" || has_text argv "--help"

unfoldable pub is_switch : FlagSpec → String → Bool
is_switch spec token = elim spec.switches [ none ↦ false | some l ↦ has_text l token ]

-- What the loop takes a token for.
pub data TokenKind : Type 0 where
  value_flag switch_flag unknown argument : TokenKind

unfoldable pub token_kind : FlagSpec → String → TokenKind
unfolding is_switch is_option
token_kind spec token =
    if has_text spec.value token
    then value_flag
    else if is_switch spec token
    then switch_flag
    else if is_option token
    then unknown
    else argument

unfoldable pub flags_loop : FlagSpec → List String → Dict String → List String → FlagResult
unfolding token_kind is_option
flags_loop spec [] values switches = parsed values switches
flags_loop spec (token ∷ []) values switches = elim (token_kind spec token) [
  | value_flag ↦ missing_value token
  | switch_flag ↦ parsed values (add_text switches token)
  | unknown ↦ unknown_option token
  | argument ↦ unexpected_argument token
]
flags_loop spec (token ∷ next ∷ rest) values switches =
    let after_value = flags_loop spec rest (insert token next values) switches in
    let after_switch = flags_loop spec (next ∷ rest) values (add_text switches token) in
    elim (token_kind spec token) [
      | value_flag ↦ if is_option next then missing_value token else after_value
      | switch_flag ↦ after_switch
      | unknown ↦ unknown_option token
      | argument ↦ unexpected_argument token
    ]

unfoldable pub parse_flags : List String → FlagSpec → FlagResult
unfolding flags_loop
parse_flags argv spec = flags_loop spec argv [] []

-- `/^\d+$/`
abbrev pub all_digits : List ℕ → Bool
all_digits [] = true
all_digits (c ∷ text) = leb b'0' c && leb c b'9' && all_digits text

unfoldable pub is_non_negative_int : String → Bool
is_non_negative_int String.[] = false
is_non_negative_int (String.◌∷◌ c s) = all_digits (codes (String.◌∷◌ c s))
