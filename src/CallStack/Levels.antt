-- ===== src/CallStack/Levels.antt =====
-- The frames of src/debugAdapter/callStack.ts are numbered, and the first is at the cursor.
use stellar_debugger.Prelude.{
  ℕ, zero, suc, ◌≡◌, refl, sym, ap, ◌∙◌, ◌⊎◌, inl, inr, Bool, true, false, Option, none, some, List,
  [], ◌∷◌, ◌++◌, length, get_elem?, if◌then◌else◌,
}
use stellar_debugger.Frames.{WasmFrame, outer, inner}
use stellar_debugger.StopModel.{pc_at_index}
use stellar_debugger.Ledger.{LedgerCallFrame}
use stellar_debugger.Ledger.Image.{has_ledger, call_stack_at}
use stellar_debugger.CallStack.{
  MappedLocation, InlineFrame, CallFrame, PushedFrame, CallStackInput, at_pc, inline_frame,
  activation_frame, contract_frame, push, call_site_location, push_inlines, push_activation,
  push_activations, push_code, push_contracts, build_call_stack,
}
use mathlib.Core.List.{reverse}

-- A frame's level is its place.
abbrev pub IsNumbered : List CallFrame → Type 0
IsNumbered l = (i : ℕ) (f : CallFrame) → get_elem? l i ≡ some f → f.level ≡ i

-- The first frame has the state, the address and the location of the record.
abbrev pub StartsAt : CallStackInput → ℕ → List CallFrame → Type 0
StartsAt input index [] = ⊥
StartsAt input index (f ∷ rest) =
    (f.state_index ≡ some index)
    × (f.pc ≡ pc_at_index input.positions index)
    × (f.source ≡ input.location_for_index index)

module _ (normalize : List ℕ → List ℕ) (input : CallStackInput) where
  last_place :
      (xs : List CallFrame) (y : CallFrame) (i : ℕ) (f : CallFrame)
      → get_elem? (xs ++ y ∷ []) i ≡ some f
      → (get_elem? xs i ≡ some f) ⊎ ((i ≡ length xs) × (y ≡ f))
  last_place [] y zero f e = inr (refl, cc)
  last_place [] y (suc i) f e = cc
  last_place (x ∷ xs) y zero f e = inl e
  last_place (x ∷ xs) y (suc i) f e = elim (last_place xs y i f e) [
    | inl l ↦ inl l
    | inr r ↦ inr (ap suc r.0, r.1)
  ]

  push-IsNumbered :
      (f : PushedFrame) (l : List CallFrame) → IsNumbered l → IsNumbered (push normalize input f l)
  unfolding push
  push-IsNumbered f l h i g e = elim (last_place l _ i g e) [
    | inl old ↦ h i g old
    | inr new ↦ sym (ap (λ (g : CallFrame). g.level) new.1) ∙ sym new.0
  ]

  push-StartsAt :
      (index : ℕ) (f : PushedFrame) (l : List CallFrame)
      → StartsAt input index l
      → StartsAt input index (push normalize input f l)
  unfolding push
  push-StartsAt index f [] h = elim h [ ]
  push-StartsAt index f (g ∷ l) h = h

  -- What `push` keeps, each step of the call stack keeps.
  module _ (P : List CallFrame → Type 0)
      (kept : (f : PushedFrame) (l : List CallFrame) → P l → P (push normalize input f l)) where
    push_inlines-keeps :
        (at : ℕ) (pc : Option ℕ) (is : List InlineFrame) (below : Option MappedLocation)
        (l : List CallFrame)
        → P l
        → P (push_inlines normalize input at pc is below l).0
    unfolding push_inlines
    push_inlines-keeps at pc [] below l h = h
    push_inlines-keeps at pc (i ∷ is) below l h =
        push_inlines-keeps at pc is (call_site_location normalize input i) _
          (kept (inline_frame normalize input at pc below i) l h)

    push_activation-keeps :
        (frame : Option WasmFrame) (at : ℕ) (l : List CallFrame)
        → P l
        → P (push_activation normalize input frame at l)
    unfolding push_activation
    push_activation-keeps frame at l h = kept _ _ (
        push_inlines-keeps at (pc_at_index input.positions at)
          (reverse (at_pc [] input.inline_frames_at (pc_at_index input.positions at)))
          (input.location_for_index at) l h)

    push_activations-keeps :
        (f : WasmFrame) (at : ℕ) (l : List CallFrame)
        → P l
        → P (push_activations normalize input f at l)
    unfolding push_activations
    push_activations-keeps (outer fn d site) at l h =
        push_activation-keeps (some (outer fn d site)) at l h
    push_activations-keeps (inner fn d none w) at l h =
        push_activation-keeps (some (inner fn d none w)) at l h
    push_activations-keeps (inner fn d (some k) w) at l h =
        push_activations-keeps w k _ (push_activation-keeps (some (inner fn d (some k) w)) at l h)

    push_contracts-keeps :
        (calls : List LedgerCallFrame) (l : List CallFrame)
        → P l
        → P (push_contracts normalize input calls l)
    unfolding push_contracts
    push_contracts-keeps [] l h = h
    push_contracts-keeps (call ∷ calls) l h =
        push_contracts-keeps calls _ (kept (contract_frame normalize input call) l h)

    build_call_stack-keeps :
        (index : ℕ)
        → P (push_code normalize input (get_elem? input.frames index) index)
        → P (build_call_stack normalize input index)
    unfolding build_call_stack
    build_call_stack-keeps index h = go (has_ledger input.ledger)
      where
        go :
            (b : Bool)
            → P (
                if b
                then push_contracts normalize input
                    (call_stack_at input.ledger index)
                    (push_code normalize input (get_elem? input.frames index) index)
                else push_code normalize input (get_elem? input.frames index) index)
        go true = push_contracts-keeps (call_stack_at input.ledger index) _ h
        go false = h

  push_code-IsNumbered :
      (o : Option (Option WasmFrame)) (index : ℕ) → IsNumbered (push_code normalize input o index)
  unfolding push_code
  push_code-IsNumbered none index =
      push_activation-keeps IsNumbered push-IsNumbered none index [] (λ i f e. cc)
  push_code-IsNumbered (some none) index =
      push_activation-keeps IsNumbered push-IsNumbered none index [] (λ i f e. cc)
  push_code-IsNumbered (some (some f)) index =
      push_activations-keeps IsNumbered push-IsNumbered f index [] (λ i f e. cc)

  push_activation-StartsAt :
      (frame : Option WasmFrame) (index : ℕ)
      → StartsAt input index (push_activation normalize input frame index [])
  unfolding push_activation push_inlines push
  push_activation-StartsAt frame index =
      go (reverse (at_pc [] input.inline_frames_at (pc_at_index input.positions index)))
    where
      pc : Option ℕ
      pc = pc_at_index input.positions index

      first : (is : List InlineFrame) → List CallFrame × Option MappedLocation
      first is = push_inlines normalize input index pc is (input.location_for_index index) []

      go :
          (is : List InlineFrame)
          → StartsAt input index (
              push normalize input
                (activation_frame normalize input frame index pc (first is).1)
                (first is).0)
      go [] = (refl, refl, refl)
      go (i ∷ is) = push-StartsAt index _ _ (
          push_inlines-keeps (StartsAt input index) (push-StartsAt index) index pc is
            (call_site_location normalize input i) _ (refl, refl, refl))

  push_code-StartsAt :
      (o : Option (Option WasmFrame)) (index : ℕ)
      → StartsAt input index (push_code normalize input o index)
  unfolding push_code push_activations
  push_code-StartsAt none index = push_activation-StartsAt none index
  push_code-StartsAt (some none) index = push_activation-StartsAt none index
  push_code-StartsAt (some (some (outer fn d site))) index =
      push_activation-StartsAt (some (outer fn d site)) index
  push_code-StartsAt (some (some (inner fn d none w))) index =
      push_activation-StartsAt (some (inner fn d none w)) index
  push_code-StartsAt (some (some (inner fn d (some k) w))) index =
      push_activations-keeps (StartsAt input index) (push-StartsAt index) w k _
        (push_activation-StartsAt (some (inner fn d (some k) w)) index)

  -- At every index there is a frame, the levels of the frames count them from 0, and the first
  -- frame has the state of the cursor's record, its program counter and its source location.
  pub build_call_stack-levels :
      (index : ℕ)
      → IsNumbered (build_call_stack normalize input index)
        × StartsAt input index (build_call_stack normalize input index)
  build_call_stack-levels index = (
    build_call_stack-keeps IsNumbered push-IsNumbered index
        (push_code-IsNumbered (get_elem? input.frames index) index),
    build_call_stack-keeps (StartsAt input index) (push-StartsAt index) index
        (push_code-StartsAt (get_elem? input.frames index) index),
  )
