-- ===== src/Process/Tests.antt =====
-- The theorems on grass/process.c at a small process table: the main process in slot 0 runs, a
-- server in slot 1 waits for requests and a client in slot 2 for the server's reply; slot 3 holds a
-- runnable process of the middle level. The other slots are free.
use operating_system_practic.Base.{
  update, ℕ, ◌≤◌, ◌≡◌, refl, true, false, ◌==◌, if◌then◌else◌, inl, inr, ◌⊎◌, arith, Bool-cases,
  List, [], ◌∷◌, none, some,
}
use operating_system_practic.Run.{Returns}
use operating_system_practic.Process.{
  is_free, max_priority, ProcState, Message, MsgQueue, MsgType, mbox, mq_init, Process, Kernel,
  FrameStatus, find_from, proc_find,
}
use operating_system_practic.Process.Send.{proc_send, accepts, proc_wakeup, proc_recv, receive}
use operating_system_practic.Process.Life.{proc_alloc, proc_release, new_process, no_messages}
use operating_system_practic.Process.Schedule.{check_priority}
use operating_system_practic.Process.Sane.{Quiet-update, Elsewhere, Quiet, Sane}
use operating_system_practic.Process.Count.{count_if}
use operating_system_practic.Process.Wake.{Woken, proc_wakeup-Woken}
use operating_system_practic.Process.Deliver.{DeadSame, Arrived, proc_send-Sane, proc_send-arrives}
use operating_system_practic.Process.Slots.{
  FreeSlots, Pooled, Allocated, proc_alloc-Allocated, proc_release-Pooled,
}
use operating_system_practic.Process.Create.{proc_create_uid}
use operating_system_practic.Process.Birth.{Runs, Created, proc_create_uid-Created}
use operating_system_practic.Process.Receive.{HandedOut, proc_recv-Sane, receive-Sane}
use operating_system_practic.Process.Search.{Ready, Absent, levels, Finds, pick-Finds}
use operating_system_practic.Process.Quantum.{InLevel, check_priority-InLevel, check_priority-twice}

abbrev main : Process
main = record (new_process 1 0 1) {
  remain_quantum = 50;
  last_run = 10;
  mboxes = record no_messages {
    event = record mq_init { messages = record { src = 3; contents = 1 ∷ 2 ∷ []; size = 2 } ∷ [] };
  };
}

abbrev waits : MsgQueue
waits = record mq_init { waiting = true }

abbrev server : Process
server = record (new_process 1 0 2) {
  state = ProcState.waiting;
  mboxes = record no_messages { request = waits };
}

abbrev client : Process
client = record (new_process 1 7 3) {
  state = ProcState.waiting;
  server = 2;
  priority = 2;
  mboxes = record no_messages { reply = waits };
}

abbrev worker : Process
worker = record (new_process 1 7 4) { priority = 1 }

abbrev nobody : Process
nobody = record (new_process 0 0 0) { state = ProcState.free }

abbrev table : ℕ → Process
table p =
    if p == 0
    then main
    else if p == 1
    then server
    else if p == 2
    then client
    else if p == 3
    then worker
    else nobody

abbrev kernel : Kernel
kernel = record {
  proc_set = table;
  proc_current = 0;
  run_queue = λ level. if level == 1 then 3 ∷ [] else [];
  proc_free = 4 ∷ [];
  proc_nprocs = 4;
  proc_nrunnable = 2;
  pid_gen = 5;
  proc_shutting_down = false;
  proc_curfew = 0;
  proc_frame_status = λ f. FrameStatus.available;
  proc_freeframes = [];
  proc_freeblocks = [];
}

table-Quiet : Quiet table
unfolding Quiet
table-Quiet p h = elim (Bool-cases (p == 0)) [
  | inl e0 ↦ rw (e0) refl
  | inr e0 ↦ elim (Bool-cases (p == 1)) [
    | inl e1 ↦ rw (e0, e1) refl
    | inr e1 ↦ elim (Bool-cases (p == 2)) [
      | inl e2 ↦ rw (e0, e1, e2) refl
      | inr e2 ↦ elim (Bool-cases (p == 3)) [
        | inl e3 ↦ rw (e0, e1, e2, e3) refl
        | inr e3 ↦ rw (e0, e1, e2, e3) tt
      ]
    ]
  ]
]

kernel-Sane : Sane kernel
unfolding Sane count_if
kernel-Sane = (table-Quiet, refl)

proc_wakeup-Woken_example : Returns (λ _ k1. Woken kernel 2 k1) (proc_wakeup 2 kernel)
proc_wakeup-Woken_example = proc_wakeup-Woken kernel 2 kernel-Sane (omega arith) refl

proc_send-Sane_example :
    Returns
      (λ sent k1. Sane k1 × ((sent ≡ true) ⊎ (k1 ≡ kernel)) × DeadSame kernel k1)
      (proc_send 3 2 MsgType.request (7 ∷ 8 ∷ []) 2 kernel)
proc_send-Sane_example = proc_send-Sane kernel 3 2 MsgType.request (7 ∷ 8 ∷ []) 2 kernel-Sane

found : proc_find 3 kernel ≡ some 2
unfolding proc_find find_from
found = refl

accepted : accepts 2 MsgType.reply client ≡ true
unfolding accepts
accepted = refl

proc_send-arrives_example :
    Returns
      (λ sent k1.
        (sent ≡ true)
        × Arrived kernel 2 MsgType.reply (record { src = 2; contents = 9 ∷ []; size = 1 }) k1)
      (proc_send 2 3 MsgType.reply (9 ∷ []) 1 kernel)
proc_send-arrives_example =
    proc_send-arrives kernel 2 3 2 MsgType.reply (9 ∷ []) 1 kernel-Sane found accepted

proc_recv-Sane_example :
    Returns
      (λ yields k1.
        Sane k1
        × (((yields ≡ true) × ((k1.proc_set k1.proc_current).state ≡ ProcState.waiting))
            ⊎ ((yields ≡ false) × (k1 ≡ kernel))))
      (proc_recv MsgType.request 100 20 kernel)
proc_recv-Sane_example =
    proc_recv-Sane kernel MsgType.request kernel-Sane (omega arith) refl 100 20 (inl refl)

receive-Sane_example :
    Returns
      (λ got k1.
        let ms = (mbox (kernel.proc_set 0).mboxes MsgType.event).messages in
        Sane k1
        × (((ms ≡ []) × (got ≡ none) × (k1 ≡ kernel))
            ⊎ ((m : Message) × (rest : List Message) × (ms ≡ m ∷ rest)
                × HandedOut m 64 got
                × Elsewhere kernel 0 k1
                × ((mbox (k1.proc_set k1.proc_current).mboxes MsgType.event).messages ≡ rest))))
      (receive MsgType.event 64 kernel)
receive-Sane_example = receive-Sane kernel MsgType.event kernel-Sane (omega arith) refl 64

kernel-Ready : Ready kernel.proc_set (levels kernel.run_queue max_priority 0)
unfolding Ready Absent
kernel-Ready = (refl, tt, tt)

pick-Finds_example : Finds max_priority 0 kernel
pick-Finds_example = pick-Finds max_priority 0 kernel kernel-Ready

check_priority-InLevel_example :
    InLevel (check_priority 100 main) × (0 ≤ (check_priority 100 main).priority)
check_priority-InLevel_example = check_priority-InLevel 100 main (omega arith, omega arith)

check_priority-twice_example : (check_priority 30 (check_priority 20 main)).remain_quantum ≡ 20
check_priority-twice_example =
    check_priority-twice main 20 30 (omega arith) (omega arith) (omega arith) (omega arith)

kernel-Pooled : Pooled kernel
unfolding Pooled FreeSlots Absent count_if
kernel-Pooled = ((omega arith, refl, tt, tt), refl)

proc_alloc-Allocated_example :
    Returns (λ r k1. Sane k1 × Pooled k1 × Allocated kernel 1 7 r k1) (proc_alloc 1 7 kernel)
proc_alloc-Allocated_example = proc_alloc-Allocated kernel 1 7 kernel-Sane kernel-Pooled

-- The worker has died.
abbrev morgue : Kernel
morgue = record kernel {
  proc_set = update table 3 (record worker { state = ProcState.zombie });
  proc_nrunnable = 1;
}

morgue-Sane : Sane morgue
unfolding Sane count_if
morgue-Sane =
    (Quiet-update table 3 (record worker { state = ProcState.zombie }) table-Quiet tt, refl)

morgue-Pooled : Pooled morgue
unfolding Pooled FreeSlots Absent count_if
morgue-Pooled = ((omega arith, refl, tt, tt), refl)

proc_release-Pooled_example :
    Returns
      (λ _ k1. Sane k1 × Pooled k1 × (is_free (k1.proc_set 3).state ≡ true) × Elsewhere morgue 3 k1)
      (proc_release 3 morgue)
proc_release-Pooled_example =
    proc_release-Pooled morgue 3 morgue-Sane morgue-Pooled (omega arith) refl

main_found : proc_find 1 kernel ≡ some 0
unfolding proc_find find_from
main_found = refl

proc_create_uid-Created_example :
    Returns
      (λ r k1. Sane k1 × Pooled k1 × Runs k1 × Created kernel 7 30 r k1)
      (proc_create_uid 1 7 30 kernel)
proc_create_uid-Created_example =
    proc_create_uid-Created kernel 1 7 30 0 kernel-Sane kernel-Pooled refl main_found
