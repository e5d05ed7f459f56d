-- ===== src/Memory/Reads.antt =====
-- What `readMemory` of MemoryImage.ts returns.
use stellar_debugger.Prelude.{
  ℕ, zero, suc, ◌+◌, ◌-◌, ◌<◌, ◌≡◌, refl, ap, ◌∙◌, Option, none, some, List, [], ◌∷◌, ◌++◌, length,
  get_elem?, get_elem?-append, get_elem?-snoc, length-snoc, arith,
}
use stellar_debugger.Prelude.Int.{pos}
use stellar_debugger.Trace.{MemRun, TraceRecord}
use stellar_debugger.Memory.{
  snapshot_loop, memory_image, zeros, copy_runs, runs_at, joined, snapshot_before, read_memory,
}
use Prim.Native.Nat.{min, max}
use mathlib.Core.Path.{subst}
use stellar_debugger.Memory.Copies.{
  byte_in, length-zeros, get_elem?-zeros, copy_runs-get_elem?, length-copy_runs,
}

-- The snapshot that holds at record `n`: that of the last record up to it that carries one, or the
-- given runs.
abbrev pub latest : List MemRun → List TraceRecord → ℕ → List MemRun
latest runs [] n = runs
latest runs (r ∷ rest) zero = elim r.mem [ none ↦ runs | some new ↦ new ]
latest runs (r ∷ rest) (suc n) = latest (elim r.mem [ none ↦ runs | some new ↦ new ]) rest n

-- The index in a record is clamped to the trace.
abbrev pub clamp_to : ℕ → ℕ → ℕ
clamp_to cursor size = min cursor (size - 1)

snapshot_loop-keeps :
    (rest : List TraceRecord) (i : ℕ) (last : Option ℕ) (table : List (Option ℕ)) (k : ℕ)
    {o : Option ℕ}
    → get_elem? table k ≡ some o
    → get_elem? (snapshot_loop rest i last table) k ≡ some o
unfolding snapshot_loop
snapshot_loop-keeps [] i last table k e = e
snapshot_loop-keeps (r ∷ rest) i last table k e =
    snapshot_loop-keeps rest (i + 1) _ _ k (get_elem?-append table _ k e)

module _ (records : List TraceRecord) where
  -- The index that the loop carries on, and the runs that it stands for.
  carried :
      (r : TraceRecord) (i : ℕ) (last : Option ℕ) (runs : List MemRun)
      → get_elem? records i ≡ some r
      → runs_at records last ≡ runs
      → runs_at records (elim r.mem [ none ↦ last | some _ ↦ some i ])
        ≡ elim r.mem [ none ↦ runs | some new ↦ new ]
  unfolding runs_at
  carried r i last runs at e = ground (arith, at, e)

  snapshot_loop-latest :
      (rest : List TraceRecord) (i : ℕ) (last : Option ℕ) (table : List (Option ℕ)) (n : ℕ)
      (runs : List MemRun)
      → i ≡ length table
      → ((k : ℕ) (r : TraceRecord) → get_elem? rest k ≡ some r → get_elem? records (i + k) ≡ some r)
      → runs_at records last ≡ runs
      → n < length rest
      → (o : Option ℕ) × (get_elem? (snapshot_loop rest i last table) (i + n) ≡ some o)
        × (runs_at records o ≡ latest runs rest n)
  unfolding snapshot_loop
  snapshot_loop-latest [] i last table n runs ei at e lt = elim lt [ ]
  snapshot_loop-latest (r ∷ rest) i last table zero runs ei at e lt = (
    _,
    snapshot_loop-keeps rest (i + 1) _ _ (i + zero) (
        subst
          (λ k.
            get_elem? (table ++ (elim r.mem [ none ↦ last | some _ ↦ some i ]) ∷ []) k
            ≡ some (elim r.mem [ none ↦ last | some _ ↦ some i ]))
          (omega (arith, ei)) (get_elem?-snoc table _)),
    carried r i last runs (subst (λ k. get_elem? records k ≡ some r) (omega arith) (at 0 r refl)) e,
  )
  snapshot_loop-latest (r ∷ rest) i last table (suc n) runs ei at e lt =
      let (o, here, ok) =
        snapshot_loop-latest rest (i + 1) (elim r.mem [ none ↦ last | some _ ↦ some i ])
          (table ++ (elim r.mem [ none ↦ last | some _ ↦ some i ]) ∷ []) n
          (elim r.mem [ none ↦ runs | some new ↦ new ])
          (omega (arith, ei, length-snoc table (elim r.mem [ none ↦ last | some _ ↦ some i ])))
          (λ k q h. subst (λ m. get_elem? records m ≡ some q) (omega arith) (at (suc k) q h))
          (carried r i last runs
            (subst (λ k. get_elem? records k ≡ some r) (omega arith) (at 0 r refl)) e)
          (omega arith) in
      (
        o,
        subst (λ k. get_elem? (snapshot_loop (r ∷ rest) i last table) k ≡ some o) (omega arith)
            here,
        ok,
      )

snapshot_before-latest :
    (records : List TraceRecord) (cursor : ℕ)
    → 0 < length records
    → runs_at records (snapshot_before (memory_image records) cursor)
      ≡ latest [] records (clamp_to cursor (length records))
unfolding snapshot_before memory_image
snapshot_before-latest records cursor h =
    let n = clamp_to cursor (length records) in
    let (o, here, ok) =
      snapshot_loop-latest records records 0 none [] n [] refl
        (λ k r e. subst (λ m. get_elem? records m ≡ some r) (omega arith) e)
        (unfold runs_at in refl) (omega arith) in
    let at : get_elem? (snapshot_loop records 0 none []) (max 0 n) ≡ some o =
      subst (λ k. get_elem? (snapshot_loop records 0 none []) k ≡ some o) (omega arith) here in
    ap (λ x. runs_at records (joined x)) at ∙ ok

-- On a trace with a record, a read of at least one byte at a non-negative address returns that many
-- bytes. Each is the byte that the latest snapshot at or before the cursor has there, the last run
-- over the address counting, and 0 where no run covers it.
pub read_memory-bytes :
    (records : List TraceRecord) (cursor addr size : ℕ)
    → 0 < length records
    → 0 < size
    → (out : List ℕ) × (read_memory (memory_image records) cursor (pos addr) size ≡ some out)
      × (length out ≡ size)
      × ((k : ℕ)
          → k < size
          → get_elem? out k
            ≡ some (byte_in (latest [] records (clamp_to cursor (length records))) (addr + k) 0))
unfolding read_memory
read_memory-bytes records cursor addr zero h hs = elim hs [ ]
read_memory-bytes records cursor addr (suc n) h hs = (
  copy_runs addr (suc n) (runs_at records (snapshot_before (memory_image records) cursor))
      (zeros (suc n)),
  refl,
  length-copy_runs (runs_at records (snapshot_before (memory_image records) cursor)) addr (suc n)
        (zeros (suc n))
      ∙ length-zeros (suc n),
  λ k lt.
      copy_runs-get_elem? (runs_at records (snapshot_before (memory_image records) cursor)) addr
        (suc n) k 0 (zeros (suc n)) (length-zeros (suc n)) lt (get_elem?-zeros (suc n) k lt)
      ∙ ap (λ runs. some (byte_in runs (addr + k) 0)) (snapshot_before-latest records cursor h),
)
