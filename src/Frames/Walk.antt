-- ===== src/Frames/Walk.antt =====
-- The loop of `computeFrames` keeps the caller links.
use stellar_debugger.Prelude.{
  ℕ, ◌+◌, ◌≡◌, refl, sym, Bool, true, false, Option, none, some, List, [], ◌∷◌, ◌++◌, inl, inr,
  length, get_elem?, head?, length-snoc, get_elem?-append, get_elem?-snoc, get_elem?-lt, opt_eq,
  arith, Bool-cases, if◌then◌else◌,
}
use stellar_debugger.Trace.{TraceRecord}
use stellar_debugger.Frames.{
  FunctionRange, WasmFrame, inner, fn_of, sort_ranges, settle, pop_to, at_body_start, call_before,
  cross, visit, position_at, stack_after, visible_after, frames_loop, compute_frames,
  function_index_at,
}
use mathlib.Core.Path.{subst}
use stellar_debugger.Frames.Opcodes.{opcode_frames-AllOk}
use stellar_debugger.Frames.Linked.{
  IsLinked, FrameOk, AllOk, AllOk-snoc, StackOk, StackOk-later, pop_to-StackOk, with_fn-StackOk,
}

-- The last visible record carries the top of the stack.
abbrev PrevOk : List (Option WasmFrame) → Option ℕ → List WasmFrame → Type 0
PrevOk frames prev [] = Unit
PrevOk frames prev (top ∷ below) =
    (p : ℕ) × (prev ≡ some p) × (get_elem? frames p ≡ some (some top))

call_before-eq :
    (records : List TraceRecord) (prev : Option ℕ) (s : ℕ)
    → call_before records prev ≡ some s
    → prev ≡ some s
unfolding call_before
call_before-eq records none s h = cc
call_before-eq records (some p) s h = ground arith

-- Where the entry test holds, the call site is the last visible record.
entry_site :
    (records : List TraceRecord) (prev : Option ℕ) (b : Bool) (s : ℕ)
    → (if b then call_before records prev else none) ≡ some s
    → prev ≡ some s
entry_site records prev true s h = call_before-eq records prev s h
entry_site records prev false s h = cc

push_linked :
    (frames : List (Option WasmFrame)) (fn : Option ℕ) (top : WasmFrame) (below : List WasmFrame)
    (p : ℕ)
    → AllOk frames
    → get_elem? frames p ≡ some (some top)
    → StackOk frames (length frames) (top ∷ below)
    → StackOk frames (length frames) (inner fn (length (top ∷ below)) (some p) top ∷ top ∷ below)
push_linked frames fn top below p all at h = (
  (omega (arith, h.1), (p, refl, get_elem?-lt frames p at, at, all p (some top) at)),
  refl,
  refl,
  h,
)

settle-StackOk :
    (frames : List (Option WasmFrame)) (i : ℕ) (found : Option (List WasmFrame)) (fn : Option ℕ)
    (top : WasmFrame) (below : List WasmFrame)
    → pop_to fn (top ∷ below) ≡ found
    → StackOk frames i (top ∷ below)
    → StackOk frames i (settle found fn top below)
unfolding settle
settle-StackOk frames i (some s) fn top below e h = pop_to-StackOk frames i fn (top ∷ below) s h e
settle-StackOk frames i none fn top below e h = with_fn-StackOk frames i fn top below h

cross-StackOk :
    (frames : List (Option WasmFrame)) (site fn : Option ℕ) (top : WasmFrame)
    (below : List WasmFrame)
    → AllOk frames
    → ((s : ℕ) → site ≡ some s → get_elem? frames s ≡ some (some top))
    → StackOk frames (length frames) (top ∷ below)
    → StackOk frames (length frames) (cross site fn top below)
unfolding cross
cross-StackOk frames (some s) fn top below all at h =
    push_linked frames fn top below s all (at s refl) h
cross-StackOk frames none fn top below all at h =
    settle-StackOk frames (length frames) (pop_to fn (top ∷ below)) fn top below refl h

visit-StackOk :
    (records : List TraceRecord) (ranges : List FunctionRange) (frames : List (Option WasmFrame))
    (prev : Option ℕ) (pos : ℕ) (stack : List WasmFrame)
    → AllOk frames
    → PrevOk frames prev stack
    → StackOk frames (length frames) stack
    → StackOk frames (length frames) (visit records ranges prev pos stack)
unfolding visit
visit-StackOk records ranges frames prev pos [] all hp h = ((refl, refl), refl, refl, tt)
visit-StackOk records ranges frames prev pos (top ∷ below) all (p, hp, at) h =
    elim (Bool-cases (opt_eq (function_index_at ranges pos) (fn_of top))) [
      | inl t ↦ rw t h
      | inr t ↦ rw t (cross-StackOk frames _ _ top below all site h)
    ]
  where
    is_start : Bool
    is_start = at_body_start ranges (function_index_at ranges pos) pos

    site :
        (s : ℕ)
        → (if is_start then call_before records prev else none) ≡ some s
        → get_elem? frames s ≡ some (some top)
    site s e =
        subst (λ k. get_elem? frames k ≡ some (some top))
          (same s (entry_site records prev is_start s e)) at
      where
        same : (s : ℕ) → prev ≡ some s → p ≡ s
        same s q = cc (hp, q)

-- One round keeps everything that the loop relies on.
pub LoopOk : List (Option WasmFrame) → Option ℕ → List WasmFrame → Type 0
LoopOk frames prev stack =
    AllOk frames × StackOk frames (length frames) stack × PrevOk frames prev stack

head_ok :
    (frames : List (Option WasmFrame)) (i : ℕ) (stack : List WasmFrame)
    → StackOk frames i stack
    → FrameOk frames i (head? stack)
head_ok frames i [] h = tt
head_ok frames i (f ∷ below) h = h.0

PrevOk-append :
    (frames more : List (Option WasmFrame)) (prev : Option ℕ) (stack : List WasmFrame)
    → PrevOk frames prev stack
    → PrevOk (frames ++ more) prev stack
PrevOk-append frames more prev [] h = h
PrevOk-append frames more prev (t ∷ below) (p, e, at) = (p, e, get_elem?-append frames more p at)

PrevOk-here :
    (frames : List (Option WasmFrame)) (stack : List WasmFrame)
    → PrevOk (frames ++ head? stack ∷ []) (some (length frames)) stack
PrevOk-here frames [] = tt
PrevOk-here frames (t ∷ below) = (length frames, refl, get_elem?-snoc frames (some t))

module _ (records : List TraceRecord) (ranges : List FunctionRange) where
  round-StackOk :
      (frames : List (Option WasmFrame)) (prev pos : Option ℕ) (stack : List WasmFrame)
      → LoopOk frames prev stack
      → StackOk frames (length frames) (stack_after records ranges prev pos stack)
  unfolding stack_after LoopOk
  round-StackOk frames prev none stack (all, st, hp) = st
  round-StackOk frames prev (some pos) stack (all, st, hp) =
      visit-StackOk records ranges frames prev pos stack all hp st

  round-PrevOk :
      (frames : List (Option WasmFrame)) (prev pos : Option ℕ) (stack : List WasmFrame)
      → PrevOk frames prev stack
      → PrevOk
          (frames ++ head? (stack_after records ranges prev pos stack) ∷ [])
          (visible_after (length frames) prev pos)
          (stack_after records ranges prev pos stack)
  unfolding stack_after
  round-PrevOk frames prev none stack h = PrevOk-append frames _ prev stack h
  round-PrevOk frames prev (some pos) stack h = PrevOk-here frames _

  round-LoopOk :
      (frames : List (Option WasmFrame)) (prev pos : Option ℕ) (stack : List WasmFrame)
      → LoopOk frames prev stack
      → LoopOk
          (frames ++ head? (stack_after records ranges prev pos stack) ∷ [])
          (visible_after (length frames) prev pos)
          (stack_after records ranges prev pos stack)
  unfolding LoopOk
  round-LoopOk frames prev pos stack h =
      let after = stack_after records ranges prev pos stack in
      let st = round-StackOk frames prev pos stack h in
      (
        AllOk-snoc frames (head? after) h.0 (head_ok frames (length frames) after st),
        StackOk-later frames _ (length frames) _ after
            (omega (arith, length-snoc frames (head? after))) st,
        round-PrevOk frames prev pos stack h.2,
      )

  pub frames_loop-AllOk :
      (positions : List (Option ℕ)) (rest : List TraceRecord) (i : ℕ) (prev : Option ℕ)
      (stack : List WasmFrame) (frames : List (Option WasmFrame))
      → i ≡ length frames
      → LoopOk frames prev stack
      → AllOk (frames_loop records ranges positions rest i prev stack frames)
  unfolding frames_loop
  frames_loop-AllOk positions [] i prev stack frames e h = unfold LoopOk in h.0
  frames_loop-AllOk positions (r ∷ rest) i prev stack frames e h =
      frames_loop-AllOk positions rest (i + 1) _ _ _
        (omega (arith, length-snoc frames (head? after), e))
        (subst
          (λ k.
            LoopOk (frames ++ head? after ∷ []) (visible_after k prev (position_at positions i))
              after)
          (sym e) (round-LoopOk frames prev _ stack h))
    where
      after : List WasmFrame
      after = stack_after records ranges prev (position_at positions i) stack

-- In the frames of any trace, with ranges or by opcodes, each frame's depth counts its callers, its
-- call site is an earlier record, and its caller is the frame of that record; the outermost frame
-- has depth 0 and no call site.
pub compute_frames-IsLinked :
    (records : List TraceRecord) (positions : List (Option ℕ)) (ranges : List FunctionRange) (i : ℕ)
    (f : WasmFrame)
    → get_elem? (compute_frames records positions ranges).frames i ≡ some (some f)
    → IsLinked (compute_frames records positions ranges).frames i f
unfolding compute_frames
compute_frames-IsLinked records positions [] i f h = opcode_frames-AllOk records i (some f) h
compute_frames-IsLinked records positions (r ∷ rest) i f h =
    frames_loop-AllOk records (sort_ranges (r ∷ rest)) positions records 0 none [] [] refl
      (unfold LoopOk in ((λ j o e. cc), tt, tt)) i (some f) h
