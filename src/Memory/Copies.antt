-- ===== src/Memory/Copies.antt =====
-- How `readMemory` of MemoryImage.ts copies the runs of a snapshot.
use stellar_debugger.Prelude.{
  ℕ, zero, suc, ◌+◌, ◌-◌, ◌≤◌, ◌<◌, ◌≡◌, ◌≢◌, ◌⊎◌, refl, sym, ap, ◌∙◌, Bool, true, false, ◌&&◌, inl,
  inr, some, List, [], ◌∷◌, length, get_elem?, leb, ltb, arith, tests, Bool-cases, if◌then◌else◌,
}
use stellar_debugger.Trace.{MemRun}
use stellar_debugger.Memory.{zeros, set, byte_of, copy_loop, copy_run, copy_runs}
use Prim.Native.Nat.{min, max}
use mathlib.Core.Path.{subst}

length-set : (out : List ℕ) (i v : ℕ) → length (set out i v) ≡ length out
unfolding set
length-set [] i v = refl
length-set (x ∷ xs) zero v = refl
length-set (x ∷ xs) (suc i) v = ap suc (length-set xs i v)

get_elem?-set_self : (out : List ℕ) (i v : ℕ) → i < length out → get_elem? (set out i v) i ≡ some v
unfolding set
get_elem?-set_self [] i v h = elim h [ ]
get_elem?-set_self (x ∷ xs) zero v h = refl
get_elem?-set_self (x ∷ xs) (suc i) v h = get_elem?-set_self xs i v (omega arith)

get_elem?-set_ne : (out : List ℕ) (i j v : ℕ) → i ≢ j → get_elem? (set out i v) j ≡ get_elem? out j
unfolding set
get_elem?-set_ne [] i j v h = refl
get_elem?-set_ne (x ∷ xs) zero zero v h = absurd (h refl)
get_elem?-set_ne (x ∷ xs) zero (suc j) v h = refl
get_elem?-set_ne (x ∷ xs) (suc i) zero v h = refl
get_elem?-set_ne (x ∷ xs) (suc i) (suc j) v h = get_elem?-set_ne xs i j v (omega arith)

pub length-zeros : (n : ℕ) → length (zeros n) ≡ n
unfolding zeros
length-zeros zero = refl
length-zeros (suc n) = ap suc (length-zeros n)

pub get_elem?-zeros : (n k : ℕ) → k < n → get_elem? (zeros n) k ≡ some 0
unfolding zeros
get_elem?-zeros zero k h = elim h [ ]
get_elem?-zeros (suc n) zero h = refl
get_elem?-zeros (suc n) (suc k) h = get_elem?-zeros n k (omega arith)

module _ (run : MemRun) (addr : ℕ) where
  length-copy_loop :
      (left a : ℕ) (out : List ℕ) → length (copy_loop run addr a left out) ≡ length out
  unfolding copy_loop
  length-copy_loop zero a out = refl
  length-copy_loop (suc left) a out =
      length-copy_loop left (a + 1) _ ∙ length-set out (a - addr) (byte_of run a)

  -- The loop writes the bytes of `[a, a + left)`, and leaves the others.
  copy_loop_outside :
      (left a k : ℕ) (out : List ℕ)
      → addr ≤ a
      → addr + k < a
      → get_elem? (copy_loop run addr a left out) k ≡ get_elem? out k
  unfolding copy_loop
  copy_loop_outside zero a k out ha h = refl
  copy_loop_outside (suc left) a k out ha h =
      copy_loop_outside left (a + 1) k _ (omega arith) (omega arith)
      ∙ get_elem?-set_ne out (a - addr) k _ (omega arith)

  copy_loop_past :
      (left a k : ℕ) (out : List ℕ)
      → addr ≤ a
      → a + left ≤ addr + k
      → get_elem? (copy_loop run addr a left out) k ≡ get_elem? out k
  unfolding copy_loop
  copy_loop_past zero a k out ha h = refl
  copy_loop_past (suc left) a k out ha h =
      copy_loop_past left (a + 1) k _ (omega arith) (omega arith)
      ∙ get_elem?-set_ne out (a - addr) k _ (omega arith)

  copy_loop_inside :
      (left a k : ℕ) (out : List ℕ)
      → addr ≤ a
      → a ≤ addr + k
      → addr + k < a + left
      → k < length out
      → get_elem? (copy_loop run addr a left out) k ≡ some (byte_of run (addr + k))
  unfolding copy_loop
  copy_loop_inside zero a k out ha h lt hk = absurd (omega arith)
  copy_loop_inside (suc left) a k out ha h lt hk = elim (Bool-cases (ltb a (addr + k))) [
    | inl t ↦
        copy_loop_inside left (a + 1) k _ (omega arith) (omega (tests, t)) (omega arith)
          (omega (arith, length-set out (a - addr) (byte_of run a)))
    | inr t ↦
        let here : a ≡ addr + k = omega (tests, t) in
        let at : a - addr ≡ k = omega arith in
        copy_loop_outside left (a + 1) k _ (omega arith) (omega arith)
        ∙ subst (λ j. get_elem? (set out (a - addr) (byte_of run a)) j ≡ some (byte_of run a)) at
            (get_elem?-set_self out (a - addr) (byte_of run a) (omega arith))
        ∙ ap (λ j. some (byte_of run j)) here
  ]

-- The run covers the address.
abbrev pub covers : MemRun → ℕ → Bool
covers run a = leb run.addr a && ltb a (run.addr + length run.bytes)

-- The byte that the last run over an address has there, `d` where no run covers it.
abbrev pub byte_in : List MemRun → ℕ → ℕ → ℕ
byte_in [] a d = d
byte_in (run ∷ runs) a d = byte_in runs a (if covers run a then byte_of run a else d)

copy_run-get_elem? :
    (addr size k d : ℕ) (run : MemRun) (out : List ℕ)
    → length out ≡ size
    → k < size
    → get_elem? out k ≡ some d
    → get_elem? (copy_run addr size run out) k
      ≡ some (if covers run (addr + k) then byte_of run (addr + k) else d)
unfolding copy_run
copy_run-get_elem? addr size k d run out hl hk e = elim (Bool-cases (covers run (addr + k))) [
  | inl t ↦
      copy_loop_inside run addr (to - from) from k out (omega arith) (omega (arith, within t))
        (omega (arith, within t)) (omega arith)
      ∙ sym (ap (λ b. some (if b then byte_of run (addr + k) else d)) t)
  | inr t ↦
      missed t (Bool-cases (ltb (addr + k) (max addr run.addr)))
      ∙ e
      ∙ sym (ap (λ b. some (if b then byte_of run (addr + k) else d)) t)
]
  where
    within :
        covers run (addr + k) ≡ true
        → (run.addr ≤ addr + k) × (addr + k < run.addr + length run.bytes)
    within t = ground (arith, t)

    from : ℕ
    from = max addr run.addr

    to : ℕ
    to = min (addr + size) (run.addr + length run.bytes)

    missed :
        covers run (addr + k) ≡ false
        → (ltb (addr + k) from ≡ true) ⊎ (ltb (addr + k) from ≡ false)
        → get_elem? (copy_loop run addr from (to - from) out) k ≡ get_elem? out k
    missed t (inl b) =
        copy_loop_outside run addr (to - from) from k out (omega arith) (omega (tests, b))
    missed t (inr b) =
        copy_loop_past run addr (to - from) from k out (omega arith) (past t (omega (tests, b)))
      where
        past : covers run (addr + k) ≡ false → from ≤ addr + k → from + (to - from) ≤ addr + k
        past t h =
            let over : run.addr + length run.bytes ≤ addr + k = beyond t (omega arith) in
            omega arith
          where
            beyond :
                covers run (addr + k) ≡ false
                → run.addr ≤ addr + k
                → run.addr + length run.bytes ≤ addr + k
            beyond t h = ground (arith, t, h)

length-copy_run :
    (addr size : ℕ) (run : MemRun) (out : List ℕ) → length (copy_run addr size run out) ≡ length out
unfolding copy_run
length-copy_run addr size run out =
    length-copy_loop run addr (min (addr + size) (run.addr + length run.bytes) - max addr run.addr)
      (max addr run.addr) out

pub copy_runs-get_elem? :
    (runs : List MemRun) (addr size k d : ℕ) (out : List ℕ)
    → length out ≡ size
    → k < size
    → get_elem? out k ≡ some d
    → get_elem? (copy_runs addr size runs out) k ≡ some (byte_in runs (addr + k) d)
unfolding copy_runs
copy_runs-get_elem? [] addr size k d out hl hk e = e
copy_runs-get_elem? (run ∷ runs) addr size k d out hl hk e =
    copy_runs-get_elem? runs addr size k _ _ (length-copy_run addr size run out ∙ hl) hk
      (copy_run-get_elem? addr size k d run out hl hk e)

pub length-copy_runs :
    (runs : List MemRun) (addr size : ℕ) (out : List ℕ)
    → length (copy_runs addr size runs out) ≡ length out
unfolding copy_runs
length-copy_runs [] addr size out = refl
length-copy_runs (run ∷ runs) addr size out =
    length-copy_runs runs addr size _ ∙ length-copy_run addr size run out
