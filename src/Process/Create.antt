-- ===== src/Process/Create.antt =====
-- grass/process.c: the creation of processes, and `proc_initialize`.
use operating_system_practic.Base.{
  Bool, true, ℕ, zero, suc, ◌+◌, false, ◌==◌, Option, none, some, List, [], ◌∷◌, if◌then◌else◌,
}
use operating_system_practic.Run.{Cmd, Run, ok, halt, and_then}
use operating_system_practic.Process.{
  max_procs, quantum, ProcState, FrameStatus, Process, Kernel, modify, proc_find, proc_to_runqueue,
}
use operating_system_practic.Process.Life.{new_process, proc_alloc}

-- A new process starts at the highest level.
abbrev pub top_level : Process → Process
top_level v = record v { priority = 0; remain_quantum = quantum 0 }

abbrev pub starts_at : ℕ → Process → Process
starts_at now v = record v { last_run = now }

-- What follows the allocation: the current process goes to the run queue.
unfoldable pub enter : (now : ℕ) → Option ℕ → Cmd Kernel (Option ℕ)
enter now none k = ok none k
enter now (some p) k =
    and_then (proc_to_runqueue k.proc_current (modify p top_level k))
      (λ _ k1. ok (some p) (modify p (starts_at now) k1))

-- A process that is not the superuser's has children of its own user id only.
abbrev pub child_uid : ℕ → Process → ℕ
child_uid uid parent = if parent.uid == 0 then uid else parent.uid

-- `proc_create_uid` up to the context switch: the slot of the new process, which runs next.
unfoldable pub create_child : (owner uid now : ℕ) → Process → Cmd Kernel (Option ℕ)
create_child owner uid now parent k =
    and_then (proc_alloc owner (child_uid uid parent) k) (λ r k1. enter now r k1)

-- No process is created for an unknown owner.
unfoldable pub create_for : Option ℕ → (owner uid now : ℕ) → Cmd Kernel (Option ℕ)
create_for none owner uid now k = ok none k
create_for (some o) owner uid now k = create_child owner uid now (k.proc_set o) k

-- `if (proc_shutting_down)`
unfoldable pub create_unless : Bool → (owner uid now : ℕ) → Cmd Kernel (Option ℕ)
create_unless true owner uid now k = ok none k
create_unless false owner uid now k = create_for (proc_find owner k) owner uid now k

unfoldable pub proc_create_uid : (owner uid now : ℕ) → Cmd Kernel (Option ℕ)
proc_create_uid owner uid now k = create_unless k.proc_shutting_down owner uid now k

-- the numbers from `p` on, `n` of them
abbrev pub range : (n p : ℕ) → List ℕ
range zero p = []
range (suc n) p = p ∷ range n (p + 1)

-- The global variables before `proc_initialize` allocates the first process.
abbrev pub start : Kernel
start = record {
  proc_set = λ i. record (new_process 0 0 i) { state = ProcState.free };
  proc_current = 0;
  run_queue = λ level. [];
  proc_free = range max_procs 0;
  proc_nprocs = 0;
  proc_nrunnable = 0;
  pid_gen = 1;
  proc_shutting_down = false;
  proc_curfew = 0;
  proc_frame_status = λ f. FrameStatus.available;
  proc_freeframes = range 128 0;
  proc_freeblocks = range 1024 0;
}

-- The first process belongs to itself.
unfoldable pub proc_initialize : Run Kernel (Unit {0})
proc_initialize =
    and_then (proc_alloc 1 0 start)
      (λ r k. elim r [ none ↦ halt | some p ↦ ok tt (record k { proc_current = p }) ])
