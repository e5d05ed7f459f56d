-- ===== src/Memory.antt =====
-- src/debugAdapter/MemoryImage.ts: linear memory at a cursor, from full snapshots.
pub mod Copies
pub mod Reads
use stellar_debugger.Prelude.{
  ℕ, zero, suc, ◌+◌, ◌-◌, Option, none, some, List, [], ◌∷◌, ◌++◌, length, get_elem?, leb, ltb,
  if◌then◌else◌, Bool, ◌&&◌,
}
use stellar_debugger.Prelude.Int.{ℤ, pos, negsuc}
use stellar_debugger.Trace.{MemRun, TraceRecord}
use Prim.Native.Nat.{min, max}

-- The constructor's loop: for each record the last index that carries a snapshot, `none` for -1.
pub snapshot_loop : List TraceRecord → ℕ → Option ℕ → List (Option ℕ) → List (Option ℕ)
snapshot_loop [] i last table = table
snapshot_loop (r ∷ rest) i last table =
    let last' : Option ℕ = elim r.mem [ none ↦ last | some _ ↦ some i ] in
    snapshot_loop rest (i + 1) last' (table ++ last' ∷ [])

pub record MemoryImage : Type 0 where
  pub records : List TraceRecord
  pub last_snapshot_at : List (Option ℕ)

pub memory_image : List TraceRecord → MemoryImage
unfolding snapshot_loop
memory_image records = record {
  records = records;
  last_snapshot_at = snapshot_loop records 0 none [];
}

-- `new Uint8Array(size)`
pub zeros : ℕ → List ℕ
zeros zero = []
zeros (suc n) = 0 ∷ zeros n

-- `out[i] = v`; a write past the end of a typed array does nothing.
pub set : List ℕ → ℕ → ℕ → List ℕ
set [] i v = []
set (x ∷ xs) zero v = v ∷ xs
set (x ∷ xs) (suc i) v = x ∷ set xs i v

-- `run.bytes[a - run.addr]`
abbrev pub byte_of : MemRun → ℕ → ℕ
byte_of run a = elim (get_elem? run.bytes (a - run.addr)) [ none ↦ 0 | some b ↦ b ]

-- `for (let a = from; a < to; a++)`, `left` rounds to go.
pub copy_loop : MemRun → ℕ → ℕ → ℕ → List ℕ → List ℕ
unfolding set
copy_loop run addr a zero out = out
copy_loop run addr a (suc left) out =
    copy_loop run addr (a + 1) left (set out (a - addr) (byte_of run a))

-- The part of one run that lies in `[addr, addr + size)`.
pub copy_run : ℕ → ℕ → MemRun → List ℕ → List ℕ
unfolding copy_loop
copy_run addr size run out =
    let from = max addr run.addr in
    let to = min (addr + size) (run.addr + length run.bytes) in
    copy_loop run addr from (to - from) out

pub copy_runs : ℕ → ℕ → List MemRun → List ℕ → List ℕ
unfolding copy_run
copy_runs addr size [] out = out
copy_runs addr size (run ∷ runs) out = copy_runs addr size runs (copy_run addr size run out)

-- The runs of the snapshot at an index, which has one.
pub runs_at : List TraceRecord → Option ℕ → List MemRun
runs_at records none = []
runs_at records (some j) = elim (get_elem? records j) [
  | none ↦ []
  | some r ↦ elim r.mem [ none ↦ [] | some runs ↦ runs ]
]

-- `lastSnapshotAt[clamped]`
abbrev pub joined : Option (Option ℕ) → Option ℕ
joined none = none
joined (some j) = j

pub snapshot_before : MemoryImage → ℕ → Option ℕ
snapshot_before image cursor =
    joined (get_elem? image.last_snapshot_at (max 0 (min cursor (length image.records - 1))))

-- No runs leave the zeros as they are, which covers the two early returns of `out`. A negative size
-- is answered as 0 is.
unfoldable pub read_memory : MemoryImage → ℕ → ℤ → ℕ → Option (List ℕ)
unfolding zeros copy_runs runs_at snapshot_before memory_image
read_memory image cursor (negsuc _) size = none
read_memory image cursor (pos addr) zero = none
read_memory image cursor (pos addr) (suc n) =
    some (
      copy_runs addr (suc n) (runs_at image.records (snapshot_before image cursor)) (zeros (suc n)))
