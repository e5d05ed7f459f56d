-- ===== src/Frames/Membership.antt =====
-- The executing frame belongs to the function whose body holds the record's position.
use stellar_debugger.Prelude.{
  ℕ, ◌+◌, ◌≡◌, refl, sym, ◌∙◌, Option, none, some, List, [], ◌∷◌, inl, inr, length, get_elem?,
  head?, length-snoc, opt_eq, opt_eq→eq, arith, Bool-cases,
}
use mathlib.Core.Path.{subst}
use stellar_debugger.Frames.Linked.{snoc_cases}
use stellar_debugger.Trace.{TraceRecord}
use stellar_debugger.Frames.{
  FunctionRange, WasmFrame, outer, inner, fn_of, with_fn, settle, pop_to, cross, visit, position_at,
  stack_after, frames_loop, compute_frames, function_index_at, sort_ranges,
}

-- The stack is not empty, and its top runs `fn`.
abbrev TopIs : Option ℕ → List WasmFrame → Type 0
TopIs fn [] = ⊥
TopIs fn (f ∷ below) = fn_of f ≡ fn

pop_to-TopIs : (fn : Option ℕ) (stack s : List WasmFrame) → pop_to fn stack ≡ some s → TopIs fn s
unfolding pop_to
pop_to-TopIs fn [] s h = cc
pop_to-TopIs fn (f ∷ below) s h = elim (Bool-cases (opt_eq (fn_of f) fn)) [
  | inl t ↦ let e : f ∷ below ≡ s = ground arith in subst (TopIs fn) e (opt_eq→eq (fn_of f) fn t)
  | inr t ↦ pop_to-TopIs fn below s (ground arith)
]

fn-with_fn : (fn : Option ℕ) (f : WasmFrame) → fn_of (with_fn fn f) ≡ fn
unfolding with_fn
fn-with_fn fn (outer _ d c) = refl
fn-with_fn fn (inner _ d c w) = refl

settle-TopIs :
    (found : Option (List WasmFrame)) (fn : Option ℕ) (top : WasmFrame) (below : List WasmFrame)
    → pop_to fn (top ∷ below) ≡ found
    → TopIs fn (settle found fn top below)
unfolding settle
settle-TopIs (some s) fn top below h = pop_to-TopIs fn (top ∷ below) s h
settle-TopIs none fn top below h = fn-with_fn fn top

cross-TopIs :
    (site fn : Option ℕ) (top : WasmFrame) (below : List WasmFrame)
    → TopIs fn (cross site fn top below)
unfolding cross
cross-TopIs (some s) fn top below = refl
cross-TopIs none fn top below = settle-TopIs _ fn top below refl

module _ (records : List TraceRecord) (ranges : List FunctionRange) where
  visit-TopIs :
      (prev : Option ℕ) (pos : ℕ) (stack : List WasmFrame)
      → TopIs (function_index_at ranges pos) (visit records ranges prev pos stack)
  unfolding visit
  visit-TopIs prev pos [] = refl
  visit-TopIs prev pos (top ∷ below) =
      elim (Bool-cases (opt_eq (function_index_at ranges pos) (fn_of top))) [
        | inl t ↦ rw t (sym (opt_eq→eq _ _ t))
        | inr t ↦ rw t (cross-TopIs _ _ top below)
      ]

-- The frame of a visible record exists and runs the function at its position.
abbrev pub RunsAt : List FunctionRange → Option ℕ → Option WasmFrame → Type 0
RunsAt ranges none o = Unit
RunsAt ranges (some pos) none = ⊥
RunsAt ranges (some pos) (some f) = fn_of f ≡ function_index_at ranges pos

module _ (records : List TraceRecord) (ranges : List FunctionRange)
    (positions : List (Option ℕ)) where
  top-RunsAt :
      (fn : Option ℕ) (pos : ℕ) (stack : List WasmFrame)
      → TopIs (function_index_at ranges pos) stack
      → RunsAt ranges (some pos) (head? stack)
  top-RunsAt fn pos [] h = h
  top-RunsAt fn pos (f ∷ below) h = h

  after-RunsAt :
      (prev pos : Option ℕ) (stack : List WasmFrame)
      → RunsAt ranges pos (head? (stack_after records ranges prev pos stack))
  unfolding stack_after
  after-RunsAt prev none stack = tt
  after-RunsAt prev (some pos) stack =
      top-RunsAt none pos _ (visit-TopIs records ranges prev pos stack)

  frames_loop-RunsAt :
      (rest : List TraceRecord) (i : ℕ) (prev : Option ℕ) (stack : List WasmFrame)
      (frames : List (Option WasmFrame))
      → i ≡ length frames
      → ((j : ℕ) (o : Option WasmFrame)
          → get_elem? frames j ≡ some o
          → RunsAt ranges (position_at positions j) o)
      → (j : ℕ) (o : Option WasmFrame)
      → get_elem? (frames_loop records ranges positions rest i prev stack frames) j ≡ some o
      → RunsAt ranges (position_at positions j) o
  unfolding frames_loop
  frames_loop-RunsAt [] i prev stack frames e all = all
  frames_loop-RunsAt (r ∷ rest) i prev stack frames e all =
      frames_loop-RunsAt rest (i + 1) _ _ _ (omega (arith, length-snoc frames (head? after), e))
        (λ j o h. elim (snoc_cases frames (head? after) j h) [
          | inl old ↦ all j o old
          | inr (at, new) ↦ subst (RunsAt ranges (position_at positions j)) new (
              subst (λ k. RunsAt ranges (position_at positions k) (head? after)) (e ∙ sym at)
                (after-RunsAt prev (position_at positions i) stack))
        ])
    where
      after : List WasmFrame
      after = stack_after records ranges prev (position_at positions i) stack

-- With function ranges, the frame of every visible record exists, and its function is the one that
-- the binary search finds in the sorted ranges at the record's position.
pub compute_frames-RunsAt :
    (records : List TraceRecord) (positions : List (Option ℕ)) (r : FunctionRange)
    (rest : List FunctionRange) (i : ℕ) (o : Option WasmFrame)
    → get_elem? (compute_frames records positions (r ∷ rest)).frames i ≡ some o
    → RunsAt (compute_frames records positions (r ∷ rest)).ranges (position_at positions i) o
unfolding compute_frames
compute_frames-RunsAt records positions r rest i o h =
    frames_loop-RunsAt records (sort_ranges (r ∷ rest)) positions records 0 none [] [] refl
      (λ j o e. cc) i o h
