-- ===== src/Process.antt =====
-- grass/process.c: the state of the process module. The table `proc_set` is a function of the slot,
-- a process is named by its slot, and each `struct queue` is the list of what it holds (Queue).
pub mod Find
pub mod Count
pub mod Sane
pub mod Wake
pub mod Deliver
pub mod Receive
pub mod Search
pub mod Slots
pub mod Quantum
pub mod Death
mod Tests
pub mod Life
pub mod Create
pub mod Start
pub mod Birth
pub mod Send
pub mod Schedule
use operating_system_practic.Base.{
  ℕ, zero, suc, ◌+◌, ◌-◌, ◌*◌, ◌/◌, ◌%◌, Bool, true, false, ◌==◌, ◌&&◌, not, Option, none, some,
  List, [], ◌∷◌, ◌++◌, u32_mod, update, if◌then◌else◌,
}
use operating_system_practic.Run.{Cmd, Run, ok, halt}

abbrev pub max_procs : ℕ
max_procs = 100

-- the number of levels of the run queue; 0 is the highest priority
abbrev pub max_priority : ℕ
max_priority = 3

-- `quantum[i]`, as `proc_initialize` sets it
abbrev pub quantum : ℕ → ℕ
quantum i = (i + 1) * 100

-- the states of a process
pub data ProcState : Type 0 where
  free runnable waiting zombie : ProcState

abbrev pub is_free : ProcState → Bool
is_free free = true
is_free runnable = false
is_free waiting = false
is_free zombie = false

abbrev pub is_runnable : ProcState → Bool
is_runnable runnable = true
is_runnable free = false
is_runnable waiting = false
is_runnable zombie = false

abbrev pub is_waiting : ProcState → Bool
is_waiting waiting = true
is_waiting free = false
is_waiting runnable = false
is_waiting zombie = false

abbrev pub is_zombie : ProcState → Bool
is_zombie zombie = true
is_zombie free = false
is_zombie runnable = false
is_zombie waiting = false

-- `struct message`
pub record Message : Type 0 where
  pub src : ℕ
  pub contents : List ℕ
  pub size : ℕ

-- `struct msg_queue`
pub record MsgQueue : Type 0 where
  pub waiting : Bool
  pub messages : List Message

-- `enum msg_type`, without the count
pub data MsgType : Type 0 where
  request reply event : MsgType

-- `mboxes`, an array over the message types
pub record Mboxes : Type 0 where
  pub request : MsgQueue
  pub reply : MsgQueue
  pub event : MsgQueue

abbrev pub mbox : Mboxes → MsgType → MsgQueue
mbox m MsgType.request = m.request
mbox m MsgType.reply = m.reply
mbox m MsgType.event = m.event

abbrev pub set_mbox : Mboxes → MsgType → MsgQueue → Mboxes
set_mbox m MsgType.request q = record m { request = q }
set_mbox m MsgType.reply q = record m { reply = q }
set_mbox m MsgType.event q = record m { event = q }

-- `mq_init`
abbrev pub mq_init : MsgQueue
mq_init = record { waiting = false; messages = [] }

-- `struct page_info`, its union under the status that tells which member is meant
pub data PageInfo : Type 0 where
  uninit : PageInfo
  valid ondisk : ℕ → PageInfo

-- the status of a frame
pub data FrameStatus : Type 0 where
  available unref ref pinned : FrameStatus

-- `VIRT_PAGES`
abbrev pub virt_pages : ℕ
virt_pages = 256

-- `struct process`, without what only the hardware and the dumps use
pub record Process : Type 0 where
  pub priority : ℕ
  pub remain_quantum : ℕ
  pub last_run : ℕ
  pub yield_cnt : ℕ
  pub tick_cnt : ℕ
  pub pid : ℕ
  pub uid : ℕ
  pub owner : ℕ
  pub state : ProcState
  pub mboxes : Mboxes
  pub server : ℕ
  pub alarm_set : Bool
  pub exptime : ℕ
  pub interruptable : Bool
  pub pages : ℕ → PageInfo

-- The global variables of the module.
pub record Kernel : Type 0 where
  pub proc_set : ℕ → Process
  pub proc_current : ℕ
  pub run_queue : ℕ → List ℕ
  pub proc_free : List ℕ
  pub proc_nprocs : ℕ
  pub proc_nrunnable : ℕ
  pub pid_gen : ℕ
  pub proc_shutting_down : Bool
  pub proc_curfew : ℕ
  pub proc_frame_status : ℕ → FrameStatus
  pub proc_freeframes : List ℕ
  pub proc_freeblocks : List ℕ

-- `x - 1` of an `unsigned int`
abbrev pub dec_u32 : ℕ → ℕ
dec_u32 x = (x + u32_mod - 1) % u32_mod

-- `*p = f (*p)` for the process in a slot
abbrev pub modify : ℕ → (Process → Process) → Kernel → Kernel
modify p f k = record k { proc_set = update k.proc_set p (f (k.proc_set p)) }

-- `proc_find`: the first slot from `p` on, with `n` to go, that is taken and has the process id.
unfoldable pub find_from : (ℕ → Process) → ℕ → (n p : ℕ) → Option ℕ
find_from procs pid zero p = none
find_from procs pid (suc n) p =
    let rest = find_from procs pid n (p + 1) in
    if not (is_free (procs p).state) && ((procs p).pid == pid) then some p else rest

unfoldable pub proc_find : ℕ → Kernel → Option ℕ
unfolding find_from
proc_find pid k = find_from k.proc_set pid max_procs 0

-- `proc_to_runqueue`, with its `assert`
unfoldable pub proc_to_runqueue : ℕ → Cmd Kernel (Unit {0})
proc_to_runqueue p k =
    let level = (k.proc_set p).priority in
    if is_runnable (k.proc_set p).state
    then ok tt (record k { run_queue = update k.run_queue level (k.run_queue level ++ p ∷ []) })
    else halt
