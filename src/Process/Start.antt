-- ===== src/Process/Start.antt =====
-- grass/process.c: the process table that `proc_initialize` leaves is sane.
use operating_system_practic.Base.{
  ℕ, zero, suc, ◌+◌, ◌<◌, ◌≡◌, refl, ap, true, arith, Option, none, some,
}
use operating_system_practic.Run.{Returns, returns, ok, halt, bind}
use operating_system_practic.Process.{max_procs, is_runnable, Kernel}
use operating_system_practic.Process.Create.{range, start, proc_initialize}
use operating_system_practic.Process.Count.{count_if}
use operating_system_practic.Process.Sane.{Quiet, Sane}
use operating_system_practic.Process.Search.{Absent}
use operating_system_practic.Process.Slots.{FreeSlots, Pooled, Allocated, proc_alloc-Allocated}

range-Absent : (q n p : ℕ) → q < p → Absent q (range n p)
unfolding Absent
range-Absent q zero p h = tt
range-Absent q (suc n) p h = (λ e. omega arith, range-Absent q n (p + 1) (omega arith))

range-FreeSlots : (n p : ℕ) → p + n ≡ max_procs → FreeSlots start.proc_set (range n p)
unfolding FreeSlots
range-FreeSlots zero p e = tt
range-FreeSlots (suc n) p e = (
  omega arith,
  refl,
  range-Absent p n (p + 1) (omega arith),
  range-FreeSlots n (p + 1) (omega arith),
)

start-Sane : Sane start
unfolding Sane Quiet count_if
start-Sane = (λ p h. tt, refl)

start-Pooled : Pooled start
unfolding Pooled count_if
start-Pooled = (range-FreeSlots max_procs 0 refl, refl)

-- The first process runs and has process id 1.
abbrev pub Started : Kernel → Type 0
Started k =
    Sane k
    × Pooled k
    × (is_runnable (k.proc_set k.proc_current).state ≡ true)
    × ((k.proc_set k.proc_current).pid ≡ 1)

first_process :
    (r : Option ℕ) (k : Kernel)
    → Sane k × Pooled k × Allocated start 1 0 r k
    → Returns
        (λ _ k1. Started k1)
        (elim r [ none ↦ halt | some p ↦ ok tt (record k { proc_current = p }) ])
unfolding Sane Pooled
first_process none k (s, pool, (e, empty)) = absurd (ground arith)
first_process (some p) k (s, pool, (h, was_free, current, at, others)) =
    returns (s, pool, ap (λ v. is_runnable v.state) at, ap (λ v. v.pid) at)

-- `proc_initialize` returns with a sane table, a free list of distinct free slots and a
-- `proc_nprocs` that counts the taken ones; the current process is runnable and has process id 1.
pub proc_initialize-Started : Returns (λ _ k. Started k) proc_initialize
unfolding proc_initialize
proc_initialize-Started =
    bind (proc_alloc-Allocated start 1 0 start-Sane start-Pooled) first_process
