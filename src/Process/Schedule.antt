-- ===== src/Process/Schedule.antt =====
-- grass/process.c: the scheduler. `proc_yield` waits for interrupts in every round of its loop, so a
-- round and the switch that ends the loop are functions of their own, each with the time it reads.
use operating_system_practic.Base.{
  ℕ, zero, suc, ◌+◌, ◌-◌, ◌%◌, ◌^◌, true, ltb, leb, ◌==◌, ◌&&◌, not, Option, none, some, List, [],
  ◌∷◌, update, add_u32, if◌then◌else◌,
}
use operating_system_practic.Run.{Cmd, ok, halt, and_then}
use operating_system_practic.Process.{
  max_procs, max_priority, quantum, is_free, is_runnable, is_waiting, is_zombie, Process, Kernel,
  modify, proc_to_runqueue,
}
use operating_system_practic.Process.Send.{proc_wakeup}
use operating_system_practic.Process.Life.{proc_release, proc_zap}

-- `now - last_run` of two `unsigned long`
abbrev pub since : (now last_run : ℕ) → ℕ
since now last_run = (now + 2 ^ 64 - last_run) % 2 ^ 64

unfoldable pub check_priority : (now : ℕ) → Process → Process
check_priority now v =
    let used = since now v.last_run in
    let level = if v.priority == 2 then v.priority else v.priority + 1 in
    if ltb v.remain_quantum used
    then record v { priority = level; remain_quantum = quantum level }
    else record v { remain_quantum = v.remain_quantum - used }

-- The inner loop of the search: the queue of one level until a runnable process.
unfoldable pub pick_level : (level : ℕ) → List ℕ → Cmd Kernel (Option ℕ)
pick_level level [] k = ok none (record k { run_queue = update k.run_queue level [] })
pick_level level (p ∷ ps) k =
    let k1 = record k { run_queue = update k.run_queue level ps } in
    if is_runnable (k.proc_set p).state
    then ok (some p) k1
    else and_then (proc_release p k1) (λ _ k2. pick_level level ps k2)

-- The outer loop, with `n` levels to go.
unfoldable pub pick : (n level : ℕ) → Cmd Kernel (Option ℕ)
unfolding pick_level
pick zero level k = ok none k
pick (suc n) level k =
    and_then (pick_level level (k.run_queue level) k)
      (λ r k1. elim r [ none ↦ pick n (level + 1) k1 | some p ↦ ok (some p) k1 ])

-- `STAT_SHUTDOWN`, -4
abbrev stat_shutdown : ℕ
stat_shutdown = 2 ^ 32 - 4

-- One slot of the loop that wakes up the processes whose time is over; `next` is the time of the
-- next alarm.
unfoldable pub check_slot : (now p next : ℕ) → Cmd Kernel ℕ
check_slot now p next k =
    let v = k.proc_set p in
    if k.proc_shutting_down && not (is_free v.state)
    then and_then (proc_zap none p stat_shutdown k) (λ _ k1. ok next k1)
    else if is_waiting v.state && v.alarm_set
    then and_then (if leb v.exptime now then proc_wakeup p k else ok tt k)
        (λ _ k1. ok (if ltb v.exptime next then v.exptime else next) k1)
    else ok next k

unfoldable pub check_slots : (now n p next : ℕ) → Cmd Kernel ℕ
check_slots now zero p next k = ok next k
check_slots now (suc n) p next k =
    and_then (check_slot now p next k) (λ next1 k1. check_slots now n (p + 1) next1 k1)

-- How a round of the loop of `proc_yield` ends: it switches to a process, returns to the current
-- one, stops the kernel, or waits some time for an interrupt.
pub data Outcome : Type 0 where
  switch : ℕ → Outcome
  resume : Outcome
  exit : Outcome
  suspend : ℕ → Outcome

unfoldable pub after_pick : (now next : ℕ) → Option ℕ → Cmd Kernel Outcome
after_pick now next r k = if k.proc_nprocs == 0 then halt else elim r [
  | some p ↦ ok (switch p) k
  | none ↦
      if is_runnable (k.proc_set k.proc_current).state
      then ok resume k
      else if (k.proc_nprocs == 1) && k.proc_shutting_down
      then ok exit k
      else ok (suspend (since next now)) k
]

unfoldable pub round : (now : ℕ) → Cmd Kernel Outcome
unfolding check_slots pick
round now k =
    if not (k.proc_curfew == 0) && ltb k.proc_curfew now
    then ok exit k
    else and_then (check_slots now max_procs 0 (now + 1000) k)
        (λ next k1. and_then (pick max_priority 0 k1) (λ r k2. after_pick now next r k2))

-- `proc_after_switch` with `proc_next`
unfoldable pub proc_after_switch : ℕ → Cmd Kernel (Unit {0})
proc_after_switch p k =
    if not (p == k.proc_current) && is_runnable (k.proc_set p).state
    then and_then
        (if is_zombie (k.proc_set k.proc_current).state
          then proc_release k.proc_current k
          else ok tt k)
        (λ _ k1. ok tt (record k1 { proc_current = p }))
    else halt

-- `proc_yield` after its loop, through the context switch.
unfoldable pub switch_to : (now p : ℕ) → Cmd Kernel (Unit {0})
switch_to now p k =
    let c = k.proc_current in
    let v = k.proc_set p in
    if not (p == c) && not (v.pid == (k.proc_set c).pid) && is_runnable v.state
    then and_then (if is_runnable (k.proc_set c).state then proc_to_runqueue c k else ok tt k)
        (λ _ k1. proc_after_switch p (
          modify c (λ w. record w { yield_cnt = add_u32 w.yield_cnt 1 })
            (modify p (λ w. record w { last_run = now }) k1)))
    else halt

-- A clock interrupt: `proc_got_interrupt` up to `proc_yield`.
unfoldable pub clock_interrupt : (now : ℕ) → Kernel → Kernel
clock_interrupt now k =
    modify k.proc_current (λ v. record v { tick_cnt = add_u32 v.tick_cnt 1 })
      (modify k.proc_current (check_priority now) k)

-- `proc_shutdown`
abbrev pub proc_shutdown : (clock_now : ℕ) → Kernel → Kernel
proc_shutdown clock_now k = record k { proc_shutting_down = true; proc_curfew = clock_now + 3000 }
