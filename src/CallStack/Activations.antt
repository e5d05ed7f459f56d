-- ===== src/CallStack/Activations.antt =====
-- The frames of wasm activations and where they stand, of src/debugAdapter/callStack.ts.
use stellar_debugger.Prelude.{
  ℕ, ◌+◌, ◌≡◌, refl, sym, ap, ◌∙◌, Bool, true, false, Option, none, some, List, [], ◌∷◌, ◌++◌,
  length, get_elem?, append_assoc, append-nil, arith, if◌then◌else◌,
}
use stellar_debugger.Trace.{TraceRecord}
use stellar_debugger.Frames.{FunctionRange, WasmFrame, outer, inner, depth_of, compute_frames}
use stellar_debugger.Frames.Linked.{IsLinked}
use stellar_debugger.Frames.Walk.{compute_frames-IsLinked}
use stellar_debugger.StopModel.{pc_at_index}
use stellar_debugger.Ledger.{LedgerCallFrame}
use stellar_debugger.Ledger.Image.{has_ledger, call_stack_at}
use stellar_debugger.CallStack.{
  MappedLocation, InlineFrame, FrameKind, rust, wasm, CallFrame, PushedFrame, CallStackInput, at_pc,
  inline_frame, activation_frame, activation_kind, contract_frame, push, call_site_location,
  push_inlines, push_activation, push_activations, push_code, push_contracts, build_call_stack,
}
use mathlib.Core.List.{reverse}

-- The record of each activation from this one outwards: where the innermost is, then each call.
abbrev pub sites : WasmFrame → ℕ → List ℕ
sites (outer fn d site) at = at ∷ []
sites (inner fn d none caller) at = at ∷ []
sites (inner fn d (some k) caller) at = at ∷ sites caller k

-- The records of the frames that stand for activations.
abbrev pub site_of : FrameKind → Option ℕ → List ℕ
site_of rust (some i) = i ∷ []
site_of wasm (some i) = i ∷ []
site_of _ _ = []

abbrev pub activation_sites : List CallFrame → List ℕ
activation_sites [] = []
activation_sites (f ∷ l) = site_of f.kind f.state_index ++ activation_sites l

activation_sites-append :
    (xs ys : List CallFrame)
    → activation_sites (xs ++ ys) ≡ activation_sites xs ++ activation_sites ys
activation_sites-append [] ys = refl
activation_sites-append (x ∷ xs) ys =
    ap (λ l. site_of x.kind x.state_index ++ l) (activation_sites-append xs ys)
    ∙ sym (append_assoc (site_of x.kind x.state_index) (activation_sites xs) (activation_sites ys))

site_of-activation :
    (o : Option MappedLocation) (i : ℕ) → site_of (activation_kind o) (some i) ≡ i ∷ []
unfolding activation_kind
site_of-activation none i = refl
site_of-activation (some l) i = refl

module _ (normalize : List ℕ → List ℕ) (input : CallStackInput) where
  sites-push :
      (f : PushedFrame) (l : List CallFrame)
      → activation_sites (push normalize input f l)
        ≡ activation_sites l ++ site_of f.kind f.state_index
  unfolding push
  sites-push f l =
      activation_sites-append l _
      ∙ ap (λ m. activation_sites l ++ m) (append-nil (site_of f.kind f.state_index))

  sites-inlines :
      (at : ℕ) (pc : Option ℕ) (is : List InlineFrame) (below : Option MappedLocation)
      (l : List CallFrame)
      → activation_sites (push_inlines normalize input at pc is below l).0 ≡ activation_sites l
  unfolding push_inlines
  sites-inlines at pc [] below l = refl
  sites-inlines at pc (i ∷ is) below l =
      sites-inlines at pc is (call_site_location normalize input i) _
      ∙ sites-push (inline_frame normalize input at pc below i) l
      ∙ append-nil (activation_sites l)

  sites-activation_frame :
      (frame : Option WasmFrame) (at : ℕ) (pc : Option ℕ) (below : Option MappedLocation)
      (l : List CallFrame)
      → activation_sites
          (push normalize input (activation_frame normalize input frame at pc below) l)
        ≡ activation_sites l ++ at ∷ []
  sites-activation_frame frame at pc below l =
      sites-push (activation_frame normalize input frame at pc below) l
      ∙ ap (λ m. activation_sites l ++ m) (site_of-activation below at)

  sites-activation :
      (frame : Option WasmFrame) (at : ℕ) (l : List CallFrame)
      → activation_sites (push_activation normalize input frame at l)
        ≡ activation_sites l ++ at ∷ []
  unfolding push_activation
  sites-activation frame at l =
      sites-activation_frame frame at pc pushed.1 pushed.0
      ∙ ap (λ m. m ++ at ∷ []) (sites-inlines at pc inlines (input.location_for_index at) l)
    where
      pc : Option ℕ
      pc = pc_at_index input.positions at

      inlines : List InlineFrame
      inlines = reverse (at_pc [] input.inline_frames_at pc)

      pushed : List CallFrame × Option MappedLocation
      pushed = push_inlines normalize input at pc inlines (input.location_for_index at) l

  sites-activations :
      (f : WasmFrame) (at : ℕ) (l : List CallFrame)
      → activation_sites (push_activations normalize input f at l)
        ≡ activation_sites l ++ sites f at
  unfolding push_activations
  sites-activations (outer fn d site) at l = sites-activation (some (outer fn d site)) at l
  sites-activations (inner fn d none w) at l = sites-activation (some (inner fn d none w)) at l
  sites-activations (inner fn d (some k) w) at l =
      sites-activations w k _
      ∙ ap (λ m. m ++ sites w k) (sites-activation (some (inner fn d (some k) w)) at l)
      ∙ append_assoc (activation_sites l) (at ∷ []) (sites w k)

  sites-contracts :
      (calls : List LedgerCallFrame) (l : List CallFrame)
      → activation_sites (push_contracts normalize input calls l) ≡ activation_sites l
  unfolding push_contracts
  sites-contracts [] l = refl
  sites-contracts (call ∷ calls) l =
      sites-contracts calls _
      ∙ sites-push (contract_frame normalize input call) l
      ∙ append-nil (activation_sites l)

  -- At an index that has a wasm frame, the frames of the stack that stand for wasm activations are
  -- one for each frame from that one to its outermost caller, in this order: the first at the
  -- index itself, each other at the record of the call into the one before. Inlined functions and
  -- contract calls add none.
  pub build_call_stack-sites :
      (index : ℕ) (f : WasmFrame)
      → get_elem? input.frames index ≡ some (some f)
      → activation_sites (build_call_stack normalize input index) ≡ sites f index
  unfolding build_call_stack push_code
  build_call_stack-sites index f e =
      go (has_ledger input.ledger)
      ∙ ap (λ o. activation_sites (push_code normalize input o index)) e
      ∙ sites-activations f index []
    where
      go :
          (b : Bool)
          → activation_sites (
              if b
              then push_contracts normalize input
                  (call_stack_at input.ledger index)
                  (push_code normalize input (get_elem? input.frames index) index)
              else push_code normalize input (get_elem? input.frames index) index)
            ≡ activation_sites (push_code normalize input (get_elem? input.frames index) index)
      go true = sites-contracts (call_stack_at input.ledger index) _
      go false = refl

-- A frame that is linked to its callers has one site for itself and for each of them.
sites-depth :
    (frames : List (Option WasmFrame)) (f : WasmFrame) (at : ℕ)
    → IsLinked frames at f
    → length (sites f at) ≡ depth_of f + 1
sites-depth frames (outer fn d c) at h = omega (arith, h.0)
sites-depth frames (inner fn d c w) at (hd, (k, hc, lt, found, up)) =
    go c hc (sites-depth frames w k up)
  where
    go :
        (c : Option ℕ)
        → c ≡ some k
        → length (sites w k) ≡ depth_of w + 1
        → length (sites (inner fn d c w) at) ≡ d + 1
    go none e ih = cc
    go (some j) e ih =
        let same : j ≡ k = cc in omega (arith, hd, ih, ap (λ m. length (sites w m)) same)

-- On the frames that are computed from a trace, the stack has as many wasm activations as the
-- depth of the frame at the index says, counted with the outermost: what the call stack shows and
-- what stepping compares never disagree.
pub build_call_stack-depth :
    (normalize : List ℕ → List ℕ) (input : CallStackInput) (records : List TraceRecord)
    (ranges : List FunctionRange) (index : ℕ) (f : WasmFrame)
    → input.frames ≡ (compute_frames records input.positions ranges).frames
    → get_elem? input.frames index ≡ some (some f)
    → length (activation_sites (build_call_stack normalize input index)) ≡ depth_of f + 1
build_call_stack-depth normalize input records ranges index f same e =
    ap length (build_call_stack-sites normalize input index f e)
    ∙ sites-depth (compute_frames records input.positions ranges).frames f index (
        compute_frames-IsLinked records input.positions ranges index f
          (ap (λ l. get_elem? l index) (sym same) ∙ e))
