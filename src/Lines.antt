-- ===== src/Lines.antt =====
-- The text tests of src/debugAdapter/stops.ts: `classifyLineRole`, `firstNonWhitespaceColumn`,
-- `isWorkspaceSource`. A text is the list of its UTF-16 units, and a missing text is `none`.
-- The regular expressions are matched from left to right: after each optional part the next unit
-- decides, so that no choice has to be taken back.
pub mod Columns
use stellar_debugger.Prelude.{
  ℕ, zero, suc, ◌+◌, String, Bool, true, false, not, ◌&&◌, ◌||◌, Option, none, some, List, [], ◌∷◌,
  ◌++◌, length, leb, ◌==◌, if◌then◌else◌,
}
use stellar_debugger.Stops.{LineRole, attribute, signature, brace, statement}
use mathlib.Core.List.{reverse}
use Prim.Native.String
use Prim.Native.Char.{code}

-- The code points of a literal.
abbrev pub codes : String → List ℕ
codes String.[] = []
codes (String.◌∷◌ c s) = code c ∷ codes s

-- `\s`, and what `trim` takes off.
unfoldable pub is_space : ℕ → Bool
is_space c =
    leb 9 c && leb c 13
    || c == 32
    || c == 0xa0
    || c == 0x1680
    || leb 0x2000 c && leb c 0x200a
    || c == 0x2028
    || c == 0x2029
    || c == 0x202f
    || c == 0x205f
    || c == 0x3000
    || c == 0xfeff

-- `\w`, whose edge `\b` is.
is_word : ℕ → Bool
is_word c =
    leb b'0' c && leb c b'9' || leb b'A' c && leb c b'Z' || c == b'_' || leb b'a' c && leb c b'z'

unfoldable pub trim_start : List ℕ → List ℕ
unfolding is_space
trim_start [] = []
trim_start (c ∷ text) = let rest = trim_start text in if is_space c then rest else c ∷ text

unfoldable pub trim : List ℕ → List ℕ
unfolding trim_start
trim text = reverse (trim_start (reverse (trim_start text)))

-- What follows a literal at the front.
after : List ℕ → List ℕ → Option (List ℕ)
after [] text = some text
after (p ∷ prefix) [] = none
after (p ∷ prefix) (c ∷ text) = if p == c then after prefix text else none

-- `\s+`
after_spaces : List ℕ → Option (List ℕ)
unfolding trim_start
after_spaces [] = none
after_spaces (c ∷ text) = if is_space c then some (trim_start text) else none

-- What follows the first `stop`, as `[^x]*x` does.
after_first : ℕ → List ℕ → Option (List ℕ)
after_first stop [] = none
after_first stop (c ∷ text) =
    let rest = after_first stop text in if c == stop then some text else rest

-- What follows `open [^close]* close`; the text itself where it is not there.
skip_group : ℕ → ℕ → List ℕ → List ℕ → List ℕ
unfolding after_first
skip_group opening closing text [] = text
skip_group opening closing text (c ∷ rest) =
    if c == opening then elim (after_first closing rest) [ none ↦ text | some r ↦ r ] else text

-- `(pub(\s*\([^)]*\))?\s+)?`
skip_pub : List ℕ → List ℕ
unfolding after skip_group after_spaces
skip_pub text = elim (after (codes "pub") text) [
  | none ↦ text
  | some rest ↦ elim (after_spaces (skip_group b'(' b')' rest (trim_start rest))) [
    | none ↦ text
    | some r ↦ r
  ]
]

-- `extern(\s+"[^"]*")?\s+`: the quoted part needs a space before it.
after_extern : List ℕ → Option (List ℕ)
unfolding skip_group after_spaces
after_extern text = elim (after_spaces text) [
  | none ↦ none
  | some rest ↦ elim (skip_group b'"' b'"' [] rest) [
    | [] ↦ some rest
    | (c ∷ quoted) ↦ elim (after_spaces (c ∷ quoted)) [ none ↦ some rest | some r ↦ some r ]
  ]
]

-- One of `const\s+`, `async\s+`, `unsafe\s+`, `extern…\s+`.
after_qualifier : List ℕ → Option (List ℕ)
unfolding after after_spaces after_extern
after_qualifier text = elim (after (codes "const") text) [
  | some r ↦ after_spaces r
  | none ↦ elim (after (codes "async") text) [
    | some r ↦ after_spaces r
    | none ↦ elim (after (codes "unsafe") text) [
      | some r ↦ after_spaces r
      | none ↦ elim (after (codes "extern") text) [ some r ↦ after_extern r | none ↦ none ]
    ]
  ]
]

-- The starred group; each round takes a unit at least, so the length is enough fuel.
skip_qualifiers : ℕ → List ℕ → List ℕ
unfolding after_qualifier
skip_qualifiers zero text = text
skip_qualifiers (suc fuel) text = elim (after_qualifier text) [
  | none ↦ text
  | some r ↦ skip_qualifiers fuel r
]

-- `word\b` at the front.
at_word : List ℕ → List ℕ → Bool
unfolding after is_word
at_word word text = elim (after word text) [
  | none ↦ false
  | some [] ↦ true
  | some (c ∷ _) ↦ not (is_word c)
]

-- SIGNATURE_RE and ITEM_RE.
is_signature : List ℕ → Bool
unfolding skip_pub skip_qualifiers at_word
is_signature text = at_word (codes "fn") (skip_qualifiers (length text) (skip_pub text))

is_item : List ℕ → Bool
unfolding at_word
is_item text =
    at_word (codes "impl") text || at_word (codes "trait") text || at_word (codes "mod") text

-- ATTRIBUTE_RE: `#[` or `#![`.
unfoldable pub is_attribute : List ℕ → Bool
is_attribute (a ∷ b ∷ []) = a == b'#' && b == b'['
is_attribute (a ∷ b ∷ c ∷ text) = a == b'#' && (b == b'[' || b == b'!' && c == b'[')
is_attribute text = false

-- BRACE_RE: `}`, or `}` and one of `,` and `;`. After `trim` no line break is left for `$`.
is_brace : List ℕ → Bool
is_brace (a ∷ []) = a == b'}'
is_brace (a ∷ b ∷ []) = a == b'}' && (b == b',' || b == b';')
is_brace text = false

unfoldable pub classify_line_role : Option (List ℕ) → LineRole
unfolding trim is_attribute is_signature is_item is_brace
classify_line_role none = statement
classify_line_role (some text) =
    let trimmed = trim text in
    if is_attribute trimmed
    then attribute
    else if is_signature trimmed || is_item trimmed
    then signature
    else if is_brace trimmed
    then brace
    else statement

-- The scan of `firstNonWhitespaceColumn`, at index `i`.
first_column : ℕ → List ℕ → Option ℕ
unfolding is_space
first_column i [] = none
first_column i (c ∷ text) =
    let rest = first_column (i + 1) text in if is_space c then rest else some (i + 1)

unfoldable pub first_non_whitespace_column : Option (List ℕ) → Option ℕ
unfolding first_column
first_non_whitespace_column none = none
first_non_whitespace_column (some text) = first_column 0 text

-- `text.includes(marker)`
includes : List ℕ → List ℕ → Bool
unfolding after
includes [] marker = elim (after marker []) [ none ↦ false | some _ ↦ true ]
includes (c ∷ text) marker =
    let rest = includes text marker in
    elim (after marker (c ∷ text)) [ none ↦ rest | some _ ↦ true ]

-- `.replace(/\\/g, '/')`
forward_slashes : List ℕ → List ℕ
forward_slashes [] = []
forward_slashes (c ∷ text) = (if c == 0x5c then b'/' else c) ∷ forward_slashes text

-- `normalize` is `path.normalize` of Node.
unfoldable pub is_workspace_source : (List ℕ → List ℕ) → Option (List ℕ) → Bool
unfolding includes forward_slashes
is_workspace_source normalize none = true
is_workspace_source normalize (some path) =
    let normalized = forward_slashes (normalize path) in
    not (
      includes normalized (codes "/.rustup/")
      || includes normalized (codes "/.cargo/")
      || includes normalized (codes "/rustc/"))
