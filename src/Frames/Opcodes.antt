-- ===== src/Frames/Opcodes.antt =====
-- The fallback walk of stops.ts, `opcodeFrames`.
use stellar_debugger.Prelude.{
  ℕ, suc, ◌+◌, ◌≤◌, ◌≡◌, refl, sym, ap, ◌∙◌, Option, none, some, List, [], ◌∷◌, ◌++◌, inl, inr,
  length, length-snoc, get_elem?-snoc, arith, Bool-cases, Option-cases, if◌then◌else◌,
}
use stellar_debugger.Trace.{TraceRecord, opcode, is_call, is_return}
use stellar_debugger.Frames.{
  WasmFrame, outer, inner, depth_of, caller_of, opcode_step, opcode_loop, opcode_frames,
}
use mathlib.Core.Path.{subst}
use stellar_debugger.Frames.{opcode_depths, depth_or_zero}
use stellar_debugger.Prelude.{map, String, append-nil, ◌-◌}
use stellar_debugger.Frames.Linked.{IsLinked, AllOk, AllOk-snoc, IsLinked-append, IsLinked-later}

caller-IsLinked :
    (frames more : List (Option WasmFrame)) (i j : ℕ) (f w : WasmFrame)
    → i ≤ j
    → IsLinked frames i f
    → caller_of f ≡ some w
    → IsLinked (frames ++ more) j w
caller-IsLinked frames more i j (outer fn d c) w le h e = cc
caller-IsLinked frames more i j (inner fn d c v) w le (hd, (k, hc, lt, at, up)) e =
    subst (IsLinked (frames ++ more) j) (some_eq e)
      (IsLinked-append frames more j v (IsLinked-later frames k j v (omega arith) up))
  where
    some_eq : {a b : WasmFrame} → some a ≡ some b → a ≡ b
    some_eq q = cc

up_one :
    (frames more : List (Option WasmFrame)) (i : ℕ) (frame : WasmFrame)
    → IsLinked frames i frame
    → IsLinked (frames ++ more) (suc i) (elim (caller_of frame) [ none ↦ frame | some w ↦ w ])
up_one frames more i frame h = elim (Option-cases (caller_of frame)) [
  | inl e ↦ rw e (
      IsLinked-append frames more (suc i) frame
        (IsLinked-later frames i (suc i) frame (omega arith) h))
  | inr (w, e) ↦ rw e (caller-IsLinked frames more i (suc i) frame w (omega arith) h e)
]

opcode_step-IsLinked :
    (frames : List (Option WasmFrame)) (op : String) (frame : WasmFrame)
    → IsLinked frames (length frames) frame
    → IsLinked
        (frames ++ some frame ∷ [])
        (suc (length frames))
        (opcode_step (length frames) op frame)
unfolding opcode_step
opcode_step-IsLinked frames op frame h = elim (Bool-cases (is_call op)) [
  | inl t ↦ rw t (
    refl,
    (
      length frames,
      refl,
      omega arith,
      get_elem?-snoc frames (some frame),
      IsLinked-append frames _ (length frames) frame h,
    ),
  )
  | inr t ↦ elim (Bool-cases (is_return op)) [
    | inl u ↦ rw (t, u) (up_one frames _ (length frames) frame h)
    | inr u ↦
        rw (t, u)
          (IsLinked-append frames _ _ frame
            (IsLinked-later frames (length frames) _ frame (omega arith) h))
  ]
]

opcode_loop-AllOk :
    (rest : List TraceRecord) (i : ℕ) (frame : WasmFrame) (frames : List (Option WasmFrame))
    → i ≡ length frames
    → AllOk frames
    → IsLinked frames (length frames) frame
    → AllOk (opcode_loop i rest frame frames)
unfolding opcode_loop
opcode_loop-AllOk [] i frame frames e all h = all
opcode_loop-AllOk (r ∷ rest) i frame frames e all h =
    opcode_loop-AllOk rest (i + 1) _ _ (omega (arith, length-snoc frames (some frame), e))
      (AllOk-snoc frames (some frame) all h)
      (subst (λ n. IsLinked (frames ++ some frame ∷ []) n (opcode_step i (opcode r) frame))
        (sym (length-snoc frames (some frame)))
        (subst
          (λ k.
            IsLinked (frames ++ some frame ∷ []) (suc (length frames))
              (opcode_step k (opcode r) frame))
          (sym e) (opcode_step-IsLinked frames (opcode r) frame h)))

pub opcode_frames-AllOk : (records : List TraceRecord) → AllOk (opcode_frames records)
unfolding opcode_frames
opcode_frames-AllOk records =
    opcode_loop-AllOk records 0 (outer none 0 none) [] refl (λ j o e. cc) (refl, refl)

-- The depths as a counter that calls raise and returns lower.
abbrev pub depth_walk : ℕ → List TraceRecord → List ℕ
depth_walk d [] = []
depth_walk d (r ∷ rest) =
    d
    ∷ depth_walk (if is_call (opcode r) then d + 1 else if is_return (opcode r) then d - 1 else d)
        rest

module _ (i : ℕ) (op : String) where
  depth-opcode_step :
      (frames : List (Option WasmFrame)) (frame : WasmFrame)
      → IsLinked frames (length frames) frame
      → depth_of (opcode_step i op frame) ≡ (
          if is_call op
          then depth_of frame + 1
          else if is_return op
          then depth_of frame - 1
          else depth_of frame)
  unfolding opcode_step
  depth-opcode_step frames (outer fn d c) h = ground arith
  depth-opcode_step frames (inner fn d c w) h = ground arith

map-snoc_depth :
    (frames : List (Option WasmFrame)) (frame : WasmFrame) (more : List ℕ)
    → map depth_or_zero (frames ++ some frame ∷ []) ++ more
      ≡ map depth_or_zero frames ++ (depth_of frame ∷ more)
map-snoc_depth [] frame more = refl
map-snoc_depth (f ∷ frames) frame more =
    ap (λ r. depth_or_zero f ∷ r) (map-snoc_depth frames frame more)

opcode_loop-depths :
    (rest : List TraceRecord) (i : ℕ) (frame : WasmFrame) (frames : List (Option WasmFrame))
    → i ≡ length frames
    → IsLinked frames (length frames) frame
    → map depth_or_zero (opcode_loop i rest frame frames)
      ≡ map depth_or_zero frames ++ depth_walk (depth_of frame) rest
unfolding opcode_loop
opcode_loop-depths [] i frame frames e h = sym (append-nil _)
opcode_loop-depths (r ∷ rest) i frame frames e h =
    opcode_loop-depths rest (i + 1) (opcode_step i (opcode r) frame) (frames ++ some frame ∷ [])
      (omega (arith, length-snoc frames (some frame), e))
      (subst (λ n. IsLinked (frames ++ some frame ∷ []) n (opcode_step i (opcode r) frame))
        (sym (length-snoc frames (some frame)))
        (subst
          (λ k.
            IsLinked (frames ++ some frame ∷ []) (suc (length frames))
              (opcode_step k (opcode r) frame))
          (sym e) (opcode_step-IsLinked frames (opcode r) frame h)))
    ∙ map-snoc_depth frames frame _
    ∙ ap (λ d. map depth_or_zero frames ++ (depth_of frame ∷ depth_walk d rest))
        (depth-opcode_step i (opcode r) frames frame h)

-- Without ranges the depths are those of a counter that starts at 0, goes up after a call record,
-- down after a `return` and never below 0.
pub opcode_depths-eq-walk :
    (records : List TraceRecord) → opcode_depths records ≡ depth_walk 0 records
unfolding opcode_depths opcode_frames
opcode_depths-eq-walk records =
    opcode_loop-depths records 0 (outer none 0 none) [] refl (refl, refl)
