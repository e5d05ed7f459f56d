-- ===== src/CallStack/Inlined.antt =====
-- The frames that one wasm activation adds in src/debugAdapter/callStack.ts: the inlined functions
-- at its record, and its own.
use stellar_debugger.Prelude.{
  ℕ, ◌≡◌, refl, sym, ap, ◌∙◌, String, Option, none, some, List, [], ◌∷◌, ◌++◌, map, append_assoc,
  append-nil, length,
}
use stellar_debugger.Lines.{codes}
use stellar_debugger.Frames.{WasmFrame}
use stellar_debugger.StopModel.{pc_at_index}
use stellar_debugger.CallStack.{
  MappedLocation, InlineFrame, PushedFrame, FrameKind, inline, rust, wasm, CallFrame,
  CallStackInput, at_pc, inline_frame, inline_name, activation_frame, activation_name,
  activation_kind, range_of_frame, is_subtle, call_site_location, push, push_inlines,
  push_activation,
}
use mathlib.Core.List.{reverse}

-- The last of `x` and the items.
abbrev pub last_or : {A : Type 0} → A → List A → A
last_or x [] = x
last_or x (y ∷ ys) = last_or y ys

-- An inlined function by its name, or by a placeholder.
abbrev pub shown_name : InlineFrame → List ℕ
shown_name i = elim i.name [ none ↦ codes "<inlined>" | some n ↦ codes n ]

-- An activation with a source is shown as Rust code, one without as wasm.
abbrev pub own_kind : Option MappedLocation → FrameKind
own_kind source = elim source [ none ↦ wasm | some l ↦ rust ]

map-snoc :
    {A B : Type 0} (f : A → B) (xs : List A) (x : A) → map f (xs ++ x ∷ []) ≡ map f xs ++ f x ∷ []
map-snoc f [] x = refl
map-snoc f (y ∷ ys) x = ap (λ l. f y ∷ l) (map-snoc f ys x)

module _ (normalize : List ℕ → List ℕ) (input : CallStackInput) where
  abbrev site : InlineFrame → Option MappedLocation
  site = call_site_location normalize input

  -- The frames added for the inlined functions `is`, where the first of them stands at `below`.
  record AreInlined (at : ℕ) (pc : Option ℕ) (below : Option MappedLocation) (is : List InlineFrame)
      (added : List CallFrame) : Type 0 where
    kinds : map (λ f. f.kind) added ≡ map (λ i. inline) is
    names : map (λ f. f.name) added ≡ map shown_name is
    indices : map (λ f. f.state_index) added ≡ map (λ i. some at) is
    pcs : map (λ f. f.pc) added ≡ map (λ i. pc) is
    sources : map (λ f. f.source) added ++ last_or below (map site is) ∷ [] ≡ below ∷ map site is
    variables : map (λ f. f.variables) added ≡ map (λ i. i.variables) is

  abbrev pc_of : ℕ → Option ℕ
  pc_of at = pc_at_index input.positions at

  -- The functions inlined at the record, innermost first.
  abbrev inlines : ℕ → List InlineFrame
  inlines at = reverse (at_pc [] input.inline_frames_at (pc_of at))

  -- The last call site, or the location of the record where nothing is inlined.
  abbrev own_source : ℕ → Option MappedLocation
  own_source at = last_or (input.location_for_index at) (map site (inlines at))

  abbrev own_name : Option WasmFrame → ℕ → List ℕ
  own_name frame at =
      activation_name (at_pc none input.qualified_function_name_at (pc_of at))
        (range_of_frame input.ranges frame) (pc_of at) (own_source at)

  -- The frames added for one activation: one for each inlined function, then its own.
  pub record IsActivation (frame : Option WasmFrame) (at : ℕ) (added : List CallFrame)
      : Type 0 where
    pub kinds :
        map (λ f. f.kind) added ≡ map (λ i. inline) (inlines at) ++ own_kind (own_source at) ∷ []
    pub names : map (λ f. f.name) added ≡ map shown_name (inlines at) ++ own_name frame at ∷ []
    pub indices : map (λ f. f.state_index) added ≡ map (λ i. some at) (inlines at) ++ some at ∷ []
    pub pcs : map (λ f. f.pc) added ≡ map (λ i. pc_of at) (inlines at) ++ pc_of at ∷ []
    pub sources : map (λ f. f.source) added ≡ input.location_for_index at ∷ map site (inlines at)
    pub variables :
        map (λ f. f.variables) added
        ≡ map (λ i. i.variables) (inlines at) ++ at_pc [] input.variables_in_scope (pc_of at) ∷ []

  AreInlined-item :
      (at : ℕ) (pc : Option ℕ) (below : Option MappedLocation) (i : InlineFrame)
      (is : List InlineFrame) (f : CallFrame) (added : List CallFrame)
      → f.kind ≡ inline
      → f.name ≡ shown_name i
      → f.state_index ≡ some at
      → f.pc ≡ pc
      → f.source ≡ below
      → f.variables ≡ i.variables
      → AreInlined at pc (site i) is added
      → AreInlined at pc below (i ∷ is) (f ∷ added)
  AreInlined-item at pc below i is f added k n s p o v h = record {
    kinds = cons k h.kinds;
    names = cons n h.names;
    indices = cons s h.indices;
    pcs = cons p h.pcs;
    sources = cons o h.sources;
    variables = cons v h.variables;
  }
    where
      cons : {A : Type 0} → {x y : A} → {xs ys : List A} → x ≡ y → xs ≡ ys → x ∷ xs ≡ y ∷ ys
      cons p q = cc

  -- What the inlined functions add to `l`, and where they leave the next frame.
  abbrev Adds :
      ℕ
      → Option ℕ
      → List InlineFrame
      → Option MappedLocation
      → List CallFrame
      → List CallFrame × Option MappedLocation
      → Type 0
  Adds at pc is below l pushed =
      (added : List CallFrame) × (pushed.0 ≡ l ++ added)
      × (pushed.1 ≡ last_or below (map site is))
      × AreInlined at pc below is added

  shown_name-inline_name : (i : InlineFrame) → inline_name i.name ≡ shown_name i
  unfolding inline_name
  shown_name-inline_name i = go i.name
    where
      go :
          (o : Option String)
          → inline_name o ≡ elim o [ none ↦ codes "<inlined>" | some n ↦ codes n ]
      go none = refl
      go (some n) = refl

  -- The frame that `push` makes of `f` after `l`.
  abbrev placed : PushedFrame → List CallFrame → CallFrame
  placed f l = record {
    level = length l;
    name = f.name;
    kind = f.kind;
    state_index = f.state_index;
    pc = f.pc;
    source = f.source;
    subtle = is_subtle normalize input f.kind f.source;
    variables = f.variables;
  }

  push_inlines-Adds :
      (at : ℕ) (pc : Option ℕ) (is : List InlineFrame) (below : Option MappedLocation)
      (l : List CallFrame)
      → Adds at pc is below l (push_inlines normalize input at pc is below l)
  unfolding push_inlines push
  push_inlines-Adds at pc [] below l = (
    [],
    sym (append-nil l),
    refl,
    record {
      kinds = refl;
      names = refl;
      indices = refl;
      pcs = refl;
      sources = refl;
      variables = refl;
    },
  )
  push_inlines-Adds at pc (i ∷ is) below l =
      let (added, grown, last, shown) =
        push_inlines-Adds at pc is (site i)
          (push normalize input (inline_frame normalize input at pc below i) l) in
      let frame = placed (inline_frame normalize input at pc below i) l in
      (
        frame ∷ added,
        grown ∙ append_assoc l (frame ∷ []) added,
        last,
        AreInlined-item at pc below i is frame added refl (shown_name-inline_name i) refl refl refl
            refl shown,
      )

  -- The inlined frames, then a frame at the location that they leave.
  own-IsActivation :
      (frame : Option WasmFrame) (at : ℕ) (source : Option MappedLocation)
      (l added : List CallFrame)
      → source ≡ own_source at
      → AreInlined at (pc_of at) (input.location_for_index at) (inlines at) added
      → IsActivation frame at
          (added ++ placed (activation_frame normalize input frame at (pc_of at) source) l ∷ [])
  unfolding activation_kind
  own-IsActivation frame at source l added left h = record {
    kinds = snoc (λ f. f.kind) h.kinds (kind_of source ∙ ap own_kind left);
    names =
        snoc (λ f. f.name) h.names
          (ap
            (activation_name (at_pc none input.qualified_function_name_at (pc_of at))
              (range_of_frame input.ranges frame) (pc_of at))
            left);
    indices = snoc (λ f. f.state_index) h.indices refl;
    pcs = snoc (λ f. f.pc) h.pcs refl;
    sources =
        map-snoc (λ f. f.source) added own
        ∙ ap (λ o. map (λ f. f.source) added ++ o ∷ []) left
        ∙ h.sources;
    variables = snoc (λ f. f.variables) h.variables refl;
  }
    where
      own : CallFrame
      own = placed (activation_frame normalize input frame at (pc_of at) source) l

      kind_of : (o : Option MappedLocation) → activation_kind o ≡ own_kind o
      kind_of none = refl
      kind_of (some m) = refl

      snoc :
          {A : Type 0} (g : CallFrame → A) {ys : List A} {y : A}
          → map g added ≡ ys
          → g own ≡ y
          → map g (added ++ own ∷ []) ≡ ys ++ y ∷ []
      snoc g {ys} {y} p q =
          map-snoc g added own ∙ ap (λ zs. zs ++ g own ∷ []) p ∙ ap (λ z. ys ++ z ∷ []) q

  -- An activation at a record leaves the frames built so far as they are and adds, in this order,
  -- a frame of kind inline for each function inlined at the record, innermost first, with its name
  -- and variables, and one frame of its own, of kind rust where it has a source and wasm where it
  -- has none, with the name and the variables of the activation. All have the record's index and
  -- address. The first stands at the location of the record, and each other at the call site of
  -- the inlined function before it.
  pub push_activation-IsActivation :
      (frame : Option WasmFrame) (at : ℕ) (l : List CallFrame)
      → (added : List CallFrame) × (push_activation normalize input frame at l ≡ l ++ added)
        × IsActivation frame at added
  unfolding push_activation push
  push_activation-IsActivation frame at l =
      let (added, grown, left, shown) =
        push_inlines-Adds at (pc_of at) (inlines at) (input.location_for_index at) l in
      let pushed =
        push_inlines normalize input at (pc_of at) (inlines at) (input.location_for_index at) l in
      let own = placed (activation_frame normalize input frame at (pc_of at) pushed.1) pushed.0 in
      (
        added ++ own ∷ [],
        ap (λ m. m ++ own ∷ []) grown ∙ append_assoc l added (own ∷ []),
        own-IsActivation frame at pushed.1 pushed.0 added left shown,
      )
