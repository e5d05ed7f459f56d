-- ===== src/CallStack.antt =====
-- The call stack of src/debugAdapter/callStack.ts, with `renderAddress` of
-- src/soroban/scvalJson.ts. A label is a list of character codes.
pub mod Levels
pub mod Activations
pub mod Inlined
use stellar_debugger.Prelude.{
  ℕ, zero, suc, ◌+◌, ◌-◌, ◌*◌, ◌/◌, ◌%◌, String, Bool, true, false, not, ◌&&◌, ◌||◌, Option, none,
  some, List, [], ◌∷◌, ◌++◌, length, get_elem?, take, drop, ltb, leb, ◌==◌, str_eq, if◌then◌else◌,
}
use stellar_debugger.Prelude.Int.{ℤ}
use stellar_debugger.Bytes.{Result, ok, fail}
use stellar_debugger.Strkey.{encode_contract, encode_ed25519_public_key, address_bytes}
use stellar_debugger.Lines.{codes, is_workspace_source}
use stellar_debugger.Frames.{FunctionRange, WasmFrame, outer, inner, fn_of}
use stellar_debugger.StopModel.{pc_at_index}
use stellar_debugger.Ledger.{TraceAddress, LedgerCallFrame}
use stellar_debugger.Ledger.Image.{LedgerImage, has_ledger, call_stack_at}
use stellar_debugger.Dwarf.Scope.Variables.{ScopeVar}
use mathlib.Core.List.{reverse}

pub record MappedLocation : Type 0 where
  pub path : String
  pub line : ℤ
  pub column : Option ℤ

pub record InlineFrame : Type 0 where
  pub name : Option String
  pub call_site : Option MappedLocation
  pub variables : List ScopeVar

pub data FrameKind : Type 0 where
  rust inline wasm contract : FrameKind

pub record CallFrame : Type 0 where
  pub level : ℕ
  pub name : List ℕ
  pub kind : FrameKind
  pub state_index : Option ℕ
  pub pc : Option ℕ
  pub source : Option MappedLocation
  pub subtle : Bool
  pub variables : List ScopeVar

-- What `push` is given: a frame without its level and without `subtle`.
pub record PushedFrame : Type 0 where
  pub name : List ℕ
  pub kind : FrameKind
  pub state_index : Option ℕ
  pub pc : Option ℕ
  pub source : Option MappedLocation
  pub variables : List ScopeVar

-- What the call stack reads of a `ResolvedTrace`, and of `computeFrames`.
pub record CallStackInput : Type 0 where
  pub has_line_info : Bool
  pub location_for_index : ℕ → Option MappedLocation
  pub location_for_file : String → ℤ → Option ℤ → Option MappedLocation
  pub inline_frames_at : ℕ → List InlineFrame
  pub qualified_function_name_at : ℕ → Option String
  pub variables_in_scope : ℕ → List ScopeVar
  pub positions : List (Option ℕ)
  pub ledger : LedgerImage
  pub frames : List (Option WasmFrame)
  pub ranges : List FunctionRange

unfoldable pub hex_digit : ℕ → ℕ
hex_digit d = if ltb d 10 then b'0' + d else b'a' + (d - 10)

-- The digits of a number to a base, before `tail`; a round divides by the base.
unfoldable pub digits : ℕ → ℕ → ℕ → List ℕ → List ℕ
unfolding hex_digit
digits base zero n tail = tail
digits base (suc fuel) n tail =
    let more = digits base fuel (n / base) (hex_digit (n % base) ∷ tail) in
    if ltb n base then hex_digit n ∷ tail else more

-- `value.toString(16)` with `0x`, and an index in a template.
unfoldable pub hex : ℕ → List ℕ
unfolding digits
hex n = codes "0x" ++ digits 16 (n + 1) n []

unfoldable pub decimal : ℕ → List ℕ
unfolding digits
decimal n = digits 10 (n + 1) n []

-- `hex(a - b)`; a negative difference has its sign after the prefix.
unfoldable pub hex_difference : ℕ → ℕ → List ℕ
unfolding hex digits
hex_difference a b =
    if leb b a then hex (a - b) else codes "0x-" ++ digits 16 (b - a + 1) (b - a) []

-- One digit of `Buffer.from(…, 'hex')`.
unfoldable pub digit_value : ℕ → Option ℕ
digit_value c =
    if leb b'0' c && leb c b'9'
    then some (c - b'0')
    else if leb b'a' c && leb c b'f'
    then some (c - b'a' + 10)
    else if leb b'A' c && leb c b'F'
    then some (c - b'A' + 10)
    else none

-- The bytes of the pairs of digits, up to the first that is none.
unfoldable pub from_hex : List ℕ → List ℕ
unfolding digit_value
from_hex [] = []
from_hex (a ∷ []) = []
from_hex (a ∷ b ∷ rest) = elim (digit_value a) [
  | none ↦ []
  | some x ↦ elim (digit_value b) [ none ↦ [] | some y ↦ (x * 16 + y) ∷ from_hex rest ]
]

-- An encoder's error falls through to the hex digits.
unfoldable pub encoded_or : {E : Type 0} → Result E (List ℕ) → List ℕ → List ℕ
encoded_or (ok text) hex = text
encoded_or (fail e) hex = hex

unfoldable pub render_address : TraceAddress → List ℕ
unfolding from_hex encoded_or encode_contract encode_ed25519_public_key
render_address a =
    let text = codes a.value in
    let plain = codes "0x" ++ text in
    if length text == address_bytes * 2
    then if str_eq a.addr_type "contract"
      then encoded_or (encode_contract (from_hex text)) plain
      else encoded_or (encode_ed25519_public_key (from_hex text)) plain
    else plain

-- The ellipsis is U+2026.
unfoldable pub short_address : List ℕ → List ℕ
short_address a = if ltb 16 (length a) then take 6 a ++ (0x2026 ∷ drop (length a - 4) a) else a

unfoldable pub contract_frame_name : LedgerCallFrame → List ℕ
unfolding short_address render_address
contract_frame_name call =
    codes call.function ++ (codes "() @ " ++ short_address (render_address call.to))

-- `qualified ?? range?.name ?? indexed`
unfoldable pub ladder : Option String → Option FunctionRange → Option (List ℕ)
unfolding decimal
ladder (some q) range = some (codes q)
ladder none none = none
ladder none (some r) = elim r.name [
  | some n ↦ some (codes n)
  | none ↦ elim r.index [ none ↦ none | some i ↦ some (codes "func[" ++ (decimal i ++ codes "]")) ]
]

-- The offset is stated where there is no source.
unfoldable pub with_offset :
    List ℕ → Option MappedLocation → Option ℕ → Option FunctionRange → List ℕ
unfolding hex_difference
with_offset name (some l) pc range = name
with_offset name none none range = name
with_offset name none (some pc) none = name
with_offset name none (some pc) (some r) =
    if pc == r.start then name else name ++ (codes "+" ++ hex_difference pc r.start)

unfoldable pub address_name : Option ℕ → List ℕ
unfolding hex
address_name none = codes "<synthetic>"
address_name (some pc) = codes "wasm@" ++ hex pc

unfoldable pub activation_name :
    Option String → Option FunctionRange → Option ℕ → Option MappedLocation → List ℕ
unfolding ladder with_offset address_name
activation_name qualified range pc source = elim (ladder qualified range) [
  | none ↦ address_name pc
  | some name ↦ with_offset name source pc range
]

-- `inline.name ?? '<inlined>'`
unfoldable pub inline_name : Option String → List ℕ
inline_name none = codes "<inlined>"
inline_name (some n) = codes n

-- `frame && frame.fn >= 0 ? ranges[frame.fn] : undefined`
unfoldable pub range_of_frame : List FunctionRange → Option WasmFrame → Option FunctionRange
range_of_frame ranges none = none
range_of_frame ranges (some f) = elim (fn_of f) [ none ↦ none | some k ↦ get_elem? ranges k ]

abbrev pub is_contract : FrameKind → Bool
is_contract contract = true
is_contract _ = false

unfoldable pub activation_kind : Option MappedLocation → FrameKind
activation_kind none = wasm
activation_kind (some l) = rust

-- `pc === null ? … : …`
abbrev pub at_pc : {A : Type 0} → A → (ℕ → A) → Option ℕ → A
at_pc default f none = default
at_pc default f (some pc) = f pc

-- `normalize` is `path.normalize` of Node.
module _ (normalize : List ℕ → List ℕ) (input : CallStackInput) where
  unfoldable pub is_subtle : FrameKind → Option MappedLocation → Bool
  unfolding is_workspace_source
  is_subtle kind none = not (is_contract kind) && input.has_line_info
  is_subtle kind (some l) =
      not (is_contract kind) && not (is_workspace_source normalize (some (codes l.path)))

  unfoldable pub push : PushedFrame → List CallFrame → List CallFrame
  unfolding is_subtle
  push f built =
      built
      ++ record {
        level = length built;
        name = f.name;
        kind = f.kind;
        state_index = f.state_index;
        pc = f.pc;
        source = f.source;
        subtle = is_subtle f.kind f.source;
        variables = f.variables;
      }
        ∷ []

  unfoldable pub call_site_location : InlineFrame → Option MappedLocation
  call_site_location i = elim i.call_site [
    | none ↦ none
    | some site ↦ input.location_for_file site.path site.line site.column
  ]

  abbrev pub inline_frame : ℕ → Option ℕ → Option MappedLocation → InlineFrame → PushedFrame
  inline_frame at pc below i = record {
    name = inline_name i.name;
    kind = inline;
    state_index = some at;
    pc = pc;
    source = below;
    variables = i.variables;
  }

  -- The inlined frames, innermost first, with the location of the frame below them.
  unfoldable pub push_inlines :
      ℕ
      → Option ℕ
      → List InlineFrame
      → Option MappedLocation
      → List CallFrame
      → List CallFrame × Option MappedLocation
  unfolding push call_site_location inline_name
  push_inlines at pc [] below built = (built, below)
  push_inlines at pc (i ∷ rest) below built =
      push_inlines at pc rest (call_site_location i) (push (inline_frame at pc below i) built)

  abbrev pub activation_frame :
      Option WasmFrame → ℕ → Option ℕ → Option MappedLocation → PushedFrame
  activation_frame frame at pc below = record {
    name =
        activation_name (at_pc none input.qualified_function_name_at pc)
          (range_of_frame input.ranges frame) pc below;
    kind = activation_kind below;
    state_index = some at;
    pc = pc;
    source = below;
    variables = at_pc [] input.variables_in_scope pc;
  }

  unfoldable pub push_activation : Option WasmFrame → ℕ → List CallFrame → List CallFrame
  unfolding push_inlines push activation_name range_of_frame activation_kind pc_at_index
  push_activation frame at built =
      let pc = pc_at_index input.positions at in
      let inlines = at_pc [] input.inline_frames_at pc in
      let pushed = push_inlines at pc (reverse inlines) (input.location_for_index at) built in
      push (activation_frame frame at pc pushed.1) pushed.0

  -- The walk from an activation outwards; it ends where there is no call site or no caller.
  unfoldable pub push_activations : WasmFrame → ℕ → List CallFrame → List CallFrame
  unfolding push_activation
  push_activations (outer fn d site) at built = push_activation (some (outer fn d site)) at built
  push_activations (inner fn d site caller) at built =
      let pushed = push_activation (some (inner fn d site caller)) at built in
      elim site [ none ↦ pushed | some k ↦ push_activations caller k pushed ]

  -- `frames[index] ?? null`. Where nothing is pushed, one frame tells where the cursor is.
  unfoldable pub push_code : Option (Option WasmFrame) → ℕ → List CallFrame
  unfolding push_activations push_activation
  push_code (some (some f)) index = push_activations f index []
  push_code _ index = push_activation none index []

  abbrev pub contract_frame : LedgerCallFrame → PushedFrame
  contract_frame call = record {
    name = contract_frame_name call;
    kind = contract;
    state_index = none;
    pc = none;
    source = none;
    variables = [];
  }

  unfoldable pub push_contracts : List LedgerCallFrame → List CallFrame → List CallFrame
  unfolding push contract_frame_name
  push_contracts [] built = built
  push_contracts (call ∷ calls) built = push_contracts calls (push (contract_frame call) built)

  unfoldable pub build_call_stack : ℕ → List CallFrame
  unfolding push_code push_contracts has_ledger call_stack_at
  build_call_stack index =
      let built = push_code (get_elem? input.frames index) index in
      if has_ledger input.ledger
      then push_contracts (call_stack_at input.ledger index) built
      else built
