-- ===== src/Process/Life.antt =====
-- grass/process.c: how processes come to be and end. The memory of messages and stacks is not
-- modelled, nor are the `finish` functions that the servers register.
use operating_system_practic.Base.{
  ℕ, zero, suc, ◌+◌, ◌/◌, ◌%◌, Bool, true, false, ◌==◌, ◌&&◌, ◌||◌, not, Option, none, some, List,
  [], ◌∷◌, ◌++◌, add_u32, update, if◌then◌else◌,
}
use operating_system_practic.Run.{Cmd, ok, halt, and_then}
use operating_system_practic.Process.{
  max_procs, virt_pages, ProcState, is_free, is_runnable, is_waiting, is_zombie, MsgType, Mboxes,
  mq_init, PageInfo, FrameStatus, Process, Kernel, dec_u32, modify, proc_find,
}
use operating_system_practic.Process.Send.{proc_wakeup, proc_send}

abbrev pub no_messages : Mboxes
no_messages = record { request = mq_init; reply = mq_init; event = mq_init }

-- The process that `proc_alloc` writes, every other field zero.
abbrev pub new_process : (owner uid pid : ℕ) → Process
new_process owner uid pid = record {
  priority = 0;
  remain_quantum = 0;
  last_run = 0;
  yield_cnt = 0;
  tick_cnt = 0;
  pid = pid;
  uid = uid;
  owner = owner;
  state = ProcState.runnable;
  mboxes = no_messages;
  server = 0;
  alarm_set = false;
  exptime = 0;
  interruptable = false;
  pages = λ i. PageInfo.uninit;
}

-- `proc_alloc` once it has looked at the free list
unfoldable pub take_slot : List ℕ → (owner uid : ℕ) → Cmd Kernel (Option ℕ)
take_slot [] owner uid k = ok none k
take_slot (p ∷ ps) owner uid k =
    ok (some p) (record (modify p (λ v. new_process owner uid k.pid_gen) k) {
      proc_free = ps;
      pid_gen = add_u32 k.pid_gen 1;
      proc_nprocs = add_u32 k.proc_nprocs 1;
      proc_nrunnable = add_u32 k.proc_nrunnable 1;
    })

unfoldable pub proc_alloc : (owner uid : ℕ) → Cmd Kernel (Option ℕ)
proc_alloc owner uid k = take_slot k.proc_free owner uid k

abbrev pub release : Process → Process
release v =
    let m = v.mboxes in
    record v {
      state = ProcState.free;
      mboxes = record {
        request = record m.request { messages = [] };
        reply = record m.reply { messages = [] };
        event = record m.event { messages = [] };
      };
    }

unfoldable pub proc_release : ℕ → Cmd Kernel (Unit {0})
proc_release p k =
    if is_zombie (k.proc_set p).state
    then ok tt (record (modify p release k) {
      proc_nprocs = dec_u32 k.proc_nprocs;
      proc_free = k.proc_free ++ p ∷ [];
    })
    else halt

-- The bytes of an `unsigned int`, the least significant first.
abbrev pub bytes : ℕ → List ℕ
bytes x = x % 256 ∷ x / 256 % 256 ∷ x / 65536 % 256 ∷ x / 16777216 % 256 ∷ []

-- A `struct msg_event` of type MEV_PROCDIED; `status` is the bit pattern of an `int`.
abbrev pub died_event : (pid status : ℕ) → List ℕ
died_event pid status = bytes 1 ++ bytes pid ++ bytes status

unfoldable pub notify : (status : ℕ) → Process → Option ℕ → Cmd Kernel (Unit {0})
notify status v none k = ok tt k
notify status v (some o) k =
    and_then (proc_send v.pid (k.proc_set o).pid MsgType.event (died_event v.pid status) 12 k)
      (λ _ k1. ok tt k1)

-- Whether the process waits for a reply from the server.
abbrev pub awaits : ℕ → Process → Bool
awaits server v = is_waiting v.state && v.mboxes.reply.waiting && (v.server == server)

-- The loop that fails the calls of the clients of `proc`: slots from `p` on, with `n` to go. The
-- process id is read again in every round.
unfoldable pub fail_clients : (proc n p : ℕ) → Cmd Kernel (Unit {0})
fail_clients proc zero p k = ok tt k
fail_clients proc (suc n) p k =
    and_then (if awaits (k.proc_set proc).pid (k.proc_set p) then proc_wakeup p k else ok tt k)
      (λ _ k1. fail_clients proc n (p + 1) k1)

abbrev pub is_available : FrameStatus → Bool
is_available FrameStatus.available = true
is_available FrameStatus.unref = false
is_available FrameStatus.ref = false
is_available FrameStatus.pinned = false

unfoldable pub release_page : PageInfo → Cmd Kernel (Unit {0})
release_page PageInfo.uninit k = ok tt k
release_page (PageInfo.valid f) k =
    if is_available (k.proc_frame_status f)
    then halt
    else ok tt (record k {
      proc_frame_status = update k.proc_frame_status f FrameStatus.available;
      proc_freeframes = k.proc_freeframes ++ f ∷ [];
    })
release_page (PageInfo.ondisk b) k =
    ok tt (record k { proc_freeblocks = k.proc_freeblocks ++ b ∷ [] })

-- The loop over the pages of `proc`, which it does not change.
unfoldable pub release_pages : (proc n i : ℕ) → Cmd Kernel (Unit {0})
release_pages proc zero i k = ok tt k
release_pages proc (suc n) i k =
    and_then (release_page ((k.proc_set proc).pages i) k) (λ _ k1. release_pages proc n (i + 1) k1)

-- What follows when the state is PROC_ZOMBIE.
unfoldable pub bury : (proc status : ℕ) → Cmd Kernel (Unit {0})
unfolding fail_clients
bury proc status k =
    let v = k.proc_set proc in
    and_then (notify status v (proc_find v.owner k) k) (λ _ k1. fail_clients proc max_procs 0 k1)

-- `if (proc->state != PROC_ZOMBIE)`
unfoldable pub die : (proc status : ℕ) → Cmd Kernel (Unit {0})
die proc status k =
    if is_zombie (k.proc_set proc).state
    then ok tt k
    else bury proc status (modify proc (λ v. record v { state = ProcState.zombie }) k)

-- `if (proc->state == PROC_RUNNABLE)`
abbrev pub count_out : ℕ → Kernel → Kernel
count_out proc k =
    if is_runnable (k.proc_set proc).state
    then record k { proc_nrunnable = dec_u32 k.proc_nrunnable }
    else k

unfoldable pub proc_term : (proc status : ℕ) → Cmd Kernel (Unit {0})
unfolding release_pages
proc_term proc status k =
    if 0 == k.proc_nprocs
    then halt
    else and_then (die proc status (count_out proc k)) (λ _ k1. release_pages proc virt_pages 0 k1)

-- Whether the killer, if there is one, may kill the process.
abbrev pub may_kill : (ℕ → Process) → Option ℕ → Process → Bool
may_kill procs none v = true
may_kill procs (some killer) v = ((procs killer).uid == 0) || ((procs killer).uid == v.uid)

-- `switch (p->state)` in `proc_zap`
unfoldable pub zap_state : ProcState → (p status : ℕ) → Cmd Kernel (Unit {0})
zap_state ProcState.free p status k = halt
zap_state ProcState.runnable p status k = proc_term p status k
zap_state ProcState.waiting p status k =
    and_then (proc_term p status k)
      (λ _ k1. if p == k1.proc_current then ok tt k1 else proc_release p k1)
zap_state ProcState.zombie p status k = ok tt k

unfoldable pub proc_zap : (killer : Option ℕ) → (p status : ℕ) → Cmd Kernel (Unit {0})
proc_zap killer p status k =
    let v = k.proc_set p in
    if may_kill k.proc_set killer v
    then if 0 == k.proc_nprocs then halt else zap_state v.state p status k
    else ok tt k

-- The loop of `proc_kill` over the slots from `p` on, with `n` to go.
unfoldable pub kill_all : (killer n p status : ℕ) → Cmd Kernel (Unit {0})
kill_all killer zero p status k = ok tt k
kill_all killer (suc n) p status k =
    let v = k.proc_set p in
    and_then
      (if not (is_free v.state) && v.interruptable
        then proc_zap (some killer) p status k
        else ok tt k)
      (λ _ k1. kill_all killer n (p + 1) status k1)

unfoldable pub kill_by : (killer pid status : ℕ) → Cmd Kernel Bool
unfolding kill_all
kill_by killer pid status k =
    if pid == 0
    then and_then (kill_all killer max_procs 0 status k)
        (λ _ k1. ok (is_zombie (k1.proc_set k1.proc_current).state) k1)
    else elim (proc_find pid k) [
      | none ↦ ok false k
      | some p ↦
          and_then (proc_zap (some killer) p status k)
            (λ _ k1. ok (is_zombie (k1.proc_set p).state) k1)
    ]

-- `proc_kill`; the result is whether it ends in `proc_yield`.
unfoldable pub proc_kill : (killer pid status : ℕ) → Cmd Kernel Bool
proc_kill killer pid status k = elim (proc_find killer k) [
  | none ↦ ok false k
  | some p ↦ kill_by p pid status k
]
