-- ===== src/Frames/Linked.antt =====
-- The caller links of the frames (stops.ts, `WasmFrame` and `computeFrames`).
use stellar_debugger.Prelude.{
  ℕ, zero, suc, ◌+◌, ◌≤◌, ◌<◌, ◌≡◌, refl, sym, ap, Option, none, some, List, [], ◌∷◌, ◌++◌, ◌⊎◌,
  inl, inr, length, get_elem?, head?, get_elem?-append, opt_eq, arith, Bool-cases,
}
use stellar_debugger.Frames.{WasmFrame, outer, inner, fn_of, depth_of, caller_of, with_fn, pop_to}
use mathlib.Core.Path.{subst}

-- A frame seen by record `i`: it counts its callers, and its caller is the frame of the earlier
-- record from which it was called.
abbrev pub IsLinked : List (Option WasmFrame) → ℕ → WasmFrame → Type 0
IsLinked frames i (outer fn d c) = (d ≡ 0) × (c ≡ none)
IsLinked frames i (inner fn d c w) =
    (d ≡ depth_of w + 1)
    × ((k : ℕ) × (c ≡ some k)
        × (k < i)
        × (get_elem? frames k ≡ some (some w))
        × IsLinked frames k w)

pub IsLinked-append :
    (frames more : List (Option WasmFrame)) (i : ℕ) (f : WasmFrame)
    → IsLinked frames i f
    → IsLinked (frames ++ more) i f
IsLinked-append frames more i (outer fn d c) h = h
IsLinked-append frames more i (inner fn d c w) (hd, (k, hc, lt, at, up)) =
    (hd, (k, hc, lt, get_elem?-append frames more k at, IsLinked-append frames more k w up))

pub IsLinked-later :
    (frames : List (Option WasmFrame)) (i j : ℕ) (f : WasmFrame)
    → i ≤ j
    → IsLinked frames i f
    → IsLinked frames j f
IsLinked-later frames i j (outer fn d c) le h = h
IsLinked-later frames i j (inner fn d c w) le (hd, (k, hc, lt, at, up)) =
    (hd, (k, hc, omega arith, at, up))

IsLinked-with_fn :
    (frames : List (Option WasmFrame)) (i : ℕ) (fn : Option ℕ) (f : WasmFrame)
    → IsLinked frames i f
    → IsLinked frames i (with_fn fn f)
unfolding with_fn
IsLinked-with_fn frames i fn (outer _ d c) h = h
IsLinked-with_fn frames i fn (inner _ d c w) h = h

-- What every frame of the output satisfies, at the record that carries it.
abbrev pub FrameOk : List (Option WasmFrame) → ℕ → Option WasmFrame → Type 0
FrameOk frames i none = Unit
FrameOk frames i (some f) = IsLinked frames i f

abbrev pub AllOk : List (Option WasmFrame) → Type 0
AllOk frames = (i : ℕ) (o : Option WasmFrame) → get_elem? frames i ≡ some o → FrameOk frames i o

pub FrameOk-append :
    (frames more : List (Option WasmFrame)) (i : ℕ) (o : Option WasmFrame)
    → FrameOk frames i o
    → FrameOk (frames ++ more) i o
FrameOk-append frames more i none h = h
FrameOk-append frames more i (some f) h = IsLinked-append frames more i f h

-- An element of `frames ++ [o]` is one of `frames`, or `o` at the end.
pub snoc_cases {ℓ} :
    {A : Type ℓ} (xs : List A) (y : A) (i : ℕ) {x : A}
    → get_elem? (xs ++ y ∷ []) i ≡ some x
    → (get_elem? xs i ≡ some x) ⊎ ((i ≡ length xs) × (y ≡ x))
snoc_cases [] y zero h = inr (refl, (cc))
snoc_cases [] y (suc i) h = cc
snoc_cases (x ∷ xs) y zero h = inl h
snoc_cases (x ∷ xs) y (suc i) h = elim (snoc_cases xs y i h) [
  | inl e ↦ inl e
  | inr (e, q) ↦ inr (ap suc e, q)
]

pub AllOk-snoc :
    (frames : List (Option WasmFrame)) (o : Option WasmFrame)
    → AllOk frames
    → FrameOk frames (length frames) o
    → AllOk (frames ++ o ∷ [])
AllOk-snoc frames o all new i p h = elim (snoc_cases frames o i h) [
  | inl e ↦ FrameOk-append frames (o ∷ []) i p (all i p e)
  | inr (e, q) ↦
      FrameOk-append frames (o ∷ []) i p
        (subst (FrameOk frames i) q (subst (λ k. FrameOk frames k o) (sym e) new))
]

-- The stack lists the callers of its top.
abbrev pub StackOk : List (Option WasmFrame) → ℕ → List WasmFrame → Type 0
StackOk frames i [] = Unit
StackOk frames i (f ∷ below) =
    IsLinked frames i f
    × (depth_of f ≡ length below)
    × (caller_of f ≡ head? below)
    × StackOk frames i below

pub StackOk-later :
    (frames more : List (Option WasmFrame)) (i j : ℕ) (stack : List WasmFrame)
    → i ≤ j
    → StackOk frames i stack
    → StackOk (frames ++ more) j stack
StackOk-later frames more i j [] le h = h
StackOk-later frames more i j (f ∷ below) le (hf, hd, hc, hb) = (
  IsLinked-append frames more j f (IsLinked-later frames i j f le hf),
  hd,
  hc,
  StackOk-later frames more i j below le hb,
)

pub pop_to-StackOk :
    (frames : List (Option WasmFrame)) (i : ℕ) (fn : Option ℕ) (stack s : List WasmFrame)
    → StackOk frames i stack
    → pop_to fn stack ≡ some s
    → StackOk frames i s
unfolding pop_to
pop_to-StackOk frames i fn [] s h e = cc
pop_to-StackOk frames i fn (f ∷ below) s h e = elim (Bool-cases (opt_eq (fn_of f) fn)) [
  | inl t ↦ subst (StackOk frames i) {x = f ∷ below} (ground arith) h
  | inr t ↦ pop_to-StackOk frames i fn below s h.3 (ground arith)
]

pub with_fn-StackOk :
    (frames : List (Option WasmFrame)) (i : ℕ) (fn : Option ℕ) (top : WasmFrame)
    (below : List WasmFrame)
    → StackOk frames i (top ∷ below)
    → StackOk frames i (with_fn fn top ∷ below)
unfolding with_fn
with_fn-StackOk frames i fn (outer _ d c) below h = h
with_fn-StackOk frames i fn (inner _ d c w) below h = h
