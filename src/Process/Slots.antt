-- ===== src/Process/Slots.antt =====
-- grass/process.c: the slots of the process table are handed out and given back.
use operating_system_practic.Base.{
  ℕ, ◌<◌, ◌≡◌, ◌≢◌, refl, sym, ap, Bool, true, false, not, update, arith, Option, none, some, List,
  [], ◌∷◌, ◌++◌,
}
use operating_system_practic.Run.{Returns, returns}
use operating_system_practic.Process.{
  modify, proc_to_runqueue, max_procs, ProcState, is_free, is_runnable, is_zombie, Process, Kernel,
}
use operating_system_practic.Process.Life.{
  new_process, take_slot, proc_alloc, release, proc_release,
}
use operating_system_practic.Process.Count.{count_if, update_self, update_ne, kept, raised, lowered}
use operating_system_practic.Process.Sane.{Quiet, Sane, runs, Quiet-update, Elsewhere}
use operating_system_practic.Process.Search.{Absent}

-- A list of distinct slots of the table that are free.
unfoldable pub FreeSlots : (ℕ → Process) → List ℕ → Type 0
unfolding Absent
FreeSlots procs [] = Unit
FreeSlots procs (p ∷ ps) =
    (p < max_procs) × (is_free (procs p).state ≡ true) × Absent p ps × FreeSlots procs ps

abbrev pub taken : Process → Bool
taken v = not (is_free v.state)

-- `proc_free` lists free slots, and `proc_nprocs` counts the slots that are taken.
unfoldable pub Pooled : Kernel → Type 0
unfolding FreeSlots count_if
Pooled k = FreeSlots k.proc_set k.proc_free × (k.proc_nprocs ≡ count_if taken k.proc_set max_procs)

FreeSlots-update :
    (procs : ℕ → Process) (p : ℕ) (v : Process) (ps : List ℕ)
    → Absent p ps
    → FreeSlots procs ps
    → FreeSlots (update procs p v) ps
unfolding FreeSlots Absent
FreeSlots-update procs p v [] a free = tt
FreeSlots-update procs p v (q ∷ qs) (ne, a) (h, f, once, free) =
    (h, rw (update_ne procs p q v ne) f, once, FreeSlots-update procs p v qs a free)

taken-Absent :
    (procs : ℕ → Process) (p : ℕ) (ps : List ℕ)
    → is_free (procs p).state ≡ false
    → FreeSlots procs ps
    → Absent p ps
unfolding FreeSlots Absent
taken-Absent procs p [] t free = tt
taken-Absent procs p (q ∷ qs) t (h, f, once, free) =
    (λ e. ground (arith, ap (λ i. is_free (procs i).state) e), taken-Absent procs p qs t free)

Absent-append : (p q : ℕ) (ps : List ℕ) → Absent p ps → p ≢ q → Absent p (ps ++ q ∷ [])
unfolding Absent
Absent-append p q [] a ne = (ne, tt)
Absent-append p q (r ∷ rs) (ne1, a) ne = (ne1, Absent-append p q rs a ne)

FreeSlots-append :
    (procs : ℕ → Process) (p : ℕ) (ps : List ℕ)
    → p < max_procs
    → is_free (procs p).state ≡ true
    → Absent p ps
    → FreeSlots procs ps
    → FreeSlots procs (ps ++ p ∷ [])
unfolding FreeSlots Absent
FreeSlots-append procs p [] h f a free = (h, f, tt, tt)
FreeSlots-append procs p (q ∷ qs) h f (ne, a) (hq, fq, once, free) =
    (hq, fq, Absent-append q p qs once (λ e. ne (sym e)), FreeSlots-append procs p qs h f a free)

free-not_runnable : (s : ProcState) → is_free s ≡ true → is_runnable s ≡ false
free-not_runnable ProcState.free e = refl
free-not_runnable ProcState.runnable e = ground arith
free-not_runnable ProcState.waiting e = ground arith
free-not_runnable ProcState.zombie e = ground arith

zombie-taken : (s : ProcState) → is_zombie s ≡ true → (is_free s ≡ false) × (is_runnable s ≡ false)
zombie-taken ProcState.free e = ground arith
zombie-taken ProcState.runnable e = ground arith
zombie-taken ProcState.waiting e = ground arith
zombie-taken ProcState.zombie e = (refl, refl)

-- What `proc_alloc` gives: nothing when there is no free slot, else a new process in a slot that was
-- free, with the next process id.
abbrev pub Allocated : Kernel → (owner uid : ℕ) → Option ℕ → Kernel → Type 0
Allocated k owner uid none k1 = (k1 ≡ k) × (k.proc_free ≡ [])
Allocated k owner uid (some p) k1 =
    (p < max_procs)
    × (is_free (k.proc_set p).state ≡ true)
    × (k1.proc_current ≡ k.proc_current)
    × (k1.proc_set p ≡ new_process owner uid k.pid_gen)
    × Elsewhere k p k1

take_slot-Allocated :
    (k : Kernel) (owner uid : ℕ) (ps : List ℕ)
    → k.proc_free ≡ ps
    → FreeSlots k.proc_set ps
    → Sane k
    → Pooled k
    → Returns (λ r k1. Sane k1 × Pooled k1 × Allocated k owner uid r k1) (take_slot ps owner uid k)
unfolding take_slot Sane Pooled FreeSlots
take_slot-Allocated k owner uid [] e free s pool = returns (s, pool, (refl, e))
take_slot-Allocated k owner uid (p ∷ ps) e (h, f, once, free) (q, count) (listed, n) =
    let v = new_process owner uid k.pid_gen in
    returns (
      (
        Quiet-update k.proc_set p v q refl,
        raised runs k.proc_set k.proc_nrunnable p v h count
            (free-not_runnable (k.proc_set p).state f) refl,
      ),
      (
        FreeSlots-update k.proc_set p v ps once free,
        raised taken k.proc_set k.proc_nprocs p v h n (ap not f) refl,
      ),
      (h, f, refl, update_self k.proc_set p v, λ i ne. update_ne k.proc_set p i v ne),
    )

take_slot-run_queue :
    (k : Kernel) (owner uid : ℕ) (ps : List ℕ)
    → Returns (λ _ k1. k1.run_queue ≡ k.run_queue) (take_slot ps owner uid k)
unfolding take_slot
take_slot-run_queue k owner uid [] = returns refl
take_slot-run_queue k owner uid (p ∷ ps) = returns refl

-- On a sane table whose free list holds distinct free slots and whose `proc_nprocs` counts the
-- taken ones, `proc_alloc` keeps all this; it returns nothing only when the list is empty, else a
-- slot that was free, which holds a new process with the next process id, and no other process
-- has changed.
pub proc_alloc-Allocated :
    (k : Kernel) (owner uid : ℕ)
    → Sane k
    → Pooled k
    → Returns (λ r k1. Sane k1 × Pooled k1 × Allocated k owner uid r k1) (proc_alloc owner uid k)
unfolding proc_alloc Pooled
proc_alloc-Allocated k owner uid s (free, n) =
    take_slot-Allocated k owner uid k.proc_free refl free s (free, n)

-- On a sane table whose free list holds distinct free slots and whose `proc_nprocs` counts the
-- taken ones, `proc_release` of a zombie of the table passes its `assert` and keeps all this; the
-- slot is free, and no other process has changed.
pub proc_release-Pooled :
    (k : Kernel) (p : ℕ)
    → Sane k
    → Pooled k
    → p < max_procs
    → is_zombie (k.proc_set p).state ≡ true
    → Returns
        (λ _ k1. Sane k1 × Pooled k1 × (is_free (k1.proc_set p).state ≡ true) × Elsewhere k p k1)
        (proc_release p k)
unfolding proc_release Sane Pooled
proc_release-Pooled k p (q, count) (free, n) h z =
    let v = release (k.proc_set p) in
    let (t, r) = zombie-taken (k.proc_set p).state z in
    let absent = taken-Absent k.proc_set p k.proc_free t free in
    let now_free : is_free (update k.proc_set p v p).state ≡ true =
      ap (λ w. is_free w.state) (update_self k.proc_set p v) in
    rw (z) (
      returns (
        (Quiet-update k.proc_set p v q tt, kept runs k.proc_set k.proc_nrunnable p v h count r),
        (
          FreeSlots-append (update k.proc_set p v) p k.proc_free h now_free absent
              (FreeSlots-update k.proc_set p v k.proc_free absent free),
          lowered taken k.proc_set k.proc_nprocs p v h n (ap not t) refl,
        ),
        now_free,
        λ i ne. update_ne k.proc_set p i v ne,
      ))

-- A process that is rewritten but keeps its state and its message queues.
pub touch-Pooled :
    (k : Kernel) (p : ℕ) (g : Process → Process)
    → Sane k
    → Pooled k
    → p < max_procs
    → is_free (k.proc_set p).state ≡ false
    → (g (k.proc_set p)).state ≡ (k.proc_set p).state
    → (g (k.proc_set p)).mboxes ≡ (k.proc_set p).mboxes
    → Sane (modify p g k) × Pooled (modify p g k)
unfolding Sane Pooled Quiet
touch-Pooled k p g (q, count) (free, n) h t e m =
    let v = g (k.proc_set p) in
    let absent = taken-Absent k.proc_set p k.proc_free t free in
    (
      (
        Quiet-update k.proc_set p v q (rw (e, m) (q p h)),
        kept runs k.proc_set k.proc_nrunnable p v h count (ap is_runnable (sym e)),
      ),
      (
        FreeSlots-update k.proc_set p v k.proc_free absent free,
        kept taken k.proc_set k.proc_nprocs p v h n (ap (λ x. not (is_free x)) (sym e)),
      ),
    )

-- The process goes to the end of the queue of its level, and nothing else changes.
pub to_runqueue-Pooled :
    (k : Kernel) (p : ℕ)
    → Sane k
    → Pooled k
    → is_runnable (k.proc_set p).state ≡ true
    → Returns
        (λ _ k1.
          let level = (k.proc_set p).priority in
          Sane k1
          × Pooled k1
          × (k1.proc_set ≡ k.proc_set)
          × (k1.proc_current ≡ k.proc_current)
          × (k1.run_queue ≡ update k.run_queue level (k.run_queue level ++ p ∷ [])))
        (proc_to_runqueue p k)
unfolding proc_to_runqueue Sane Pooled
to_runqueue-Pooled k p s pool r = rw (r) (returns (s, pool, refl, refl, refl))

-- The allocation of a slot leaves the run queues alone.
pub proc_alloc-run_queue :
    (k : Kernel) (owner uid : ℕ)
    → Returns (λ _ k1. k1.run_queue ≡ k.run_queue) (proc_alloc owner uid k)
unfolding proc_alloc
proc_alloc-run_queue k owner uid = take_slot-run_queue k owner uid k.proc_free
