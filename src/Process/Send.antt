-- ===== src/Process/Send.antt =====
-- grass/process.c: messages between processes. `proc_recv` is two functions, what it does before it
-- gives up the processor (`proc_recv`) and what it does with its message queue (`receive`), since
-- anything can happen between them. Copying a message cannot fail here.
use operating_system_practic.Base.{
  ℕ, zero, suc, ◌+◌, Bool, true, false, ltb, ◌==◌, ◌&&◌, ◌||◌, not, Option, none, some, List, [],
  ◌∷◌, ◌++◌, add_u32, if◌then◌else◌,
}
use operating_system_practic.Run.{Cmd, ok, halt, and_then}
use operating_system_practic.Process.{
  ProcState, is_runnable, is_waiting, is_zombie, Message, MsgQueue, MsgType, mbox, set_mbox,
  Process, Kernel, dec_u32, modify, proc_find, proc_to_runqueue,
}

abbrev pub is_reply : MsgType → Bool
is_reply MsgType.request = false
is_reply MsgType.reply = true
is_reply MsgType.event = false

-- The first `n` bytes, which is what `memcpy` takes.
abbrev pub take : ℕ → List ℕ → List ℕ
take zero xs = []
take (suc n) [] = []
take (suc n) (x ∷ xs) = x ∷ take n xs

abbrev pub with_mbox : MsgType → (MsgQueue → MsgQueue) → Process → Process
with_mbox t f v = record v { mboxes = set_mbox v.mboxes t (f (mbox v.mboxes t)) }

abbrev pub push : Message → MsgQueue → MsgQueue
push m q = record q { messages = q.messages ++ m ∷ [] }

abbrev pub set_waiting : Bool → MsgQueue → MsgQueue
set_waiting b q = record q { waiting = b }

-- `p->state = PROC_RUNNABLE; p->alarm_set = False`
abbrev pub wake : Process → Process
wake v = record v { state = ProcState.runnable; alarm_set = false }

-- The loop that lowers the `waiting` flag of every message queue.
abbrev pub clear_waiting : Process → Process
clear_waiting v =
    with_mbox MsgType.event (set_waiting false) (
      with_mbox MsgType.reply (set_waiting false) (with_mbox MsgType.request (set_waiting false) v))

abbrev pub count_runnable : Kernel → Kernel
count_runnable k = record k { proc_nrunnable = add_u32 k.proc_nrunnable 1 }

-- A process of the lowest priority that waited goes up one level.
abbrev pub improve : Process → Process
improve v = record v { priority = if v.priority == 2 then 1 else v.priority }

-- `if (p != proc_current)`: the current process resumes by itself from `intr_suspend`.
unfoldable pub requeue : Bool → ℕ → Cmd Kernel (Unit {0})
requeue true p k = ok tt k
requeue false p k = proc_to_runqueue p k

unfoldable pub proc_wakeup : ℕ → Cmd Kernel (Unit {0})
proc_wakeup p k =
    let k1 = count_runnable (modify p wake k) in
    let self = p == k.proc_current in
    let k2 = if self then k1 else modify p improve k1 in
    if is_waiting (k.proc_set p).state
    then and_then (requeue self p k2) (λ _ k3. ok tt (modify p clear_waiting k3))
    else halt

-- `if (mq->waiting)`: a process that waits for the message wakes up.
unfoldable pub wake_receiver : Bool → ℕ → MsgType → Cmd Kernel Bool
wake_receiver false p t k = ok true k
wake_receiver true p t k =
    if is_waiting (k.proc_set p).state
    then and_then (requeue (p == k.proc_current) p (count_runnable (modify p wake k)))
        (λ _ k1. ok true (modify p (with_mbox t (set_waiting false)) k1))
    else halt

-- The end of `proc_send`, from `queue_add` on.
unfoldable pub deliver : ℕ → MsgType → Message → Cmd Kernel Bool
deliver p t msg k =
    let k1 = modify p (with_mbox t (push msg)) k in
    wake_receiver (mbox (k1.proc_set p).mboxes t).waiting p t k1

-- Whether a process in this state takes a message of the type from the source.
unfoldable pub accepts : ℕ → MsgType → Process → Bool
accepts src t v =
    not (is_zombie v.state)
    && (not (is_reply t) || (is_waiting v.state && (mbox v.mboxes t).waiting && (v.server == src)))

unfoldable pub send_to : ℕ → MsgType → Message → Option ℕ → Cmd Kernel Bool
send_to src t msg none k = ok false k
send_to src t msg (some p) k =
    if accepts src t (k.proc_set p) then deliver p t msg k else ok false k

unfoldable pub proc_send : ℕ → ℕ → MsgType → List ℕ → ℕ → Cmd Kernel Bool
proc_send src dst t contents size k =
    send_to src t (record { src = src; contents = take size contents; size = size })
      (proc_find dst k) k

abbrev pub block_on : MsgType → ℕ → ℕ → Process → Process
block_on t now max_time v =
    let w = record (with_mbox t (set_waiting true) v) { state = ProcState.waiting } in
    if max_time == 0 then w else record w { exptime = now + max_time; alarm_set = true }

-- `if (queue_empty(&mq->messages))`
unfoldable pub wait_if_empty : List Message → MsgType → (max_time now : ℕ) → Cmd Kernel Bool
wait_if_empty [] t max_time now k =
    ok true (record (modify k.proc_current (block_on t now max_time) k) {
      proc_nrunnable = dec_u32 k.proc_nrunnable;
    })
wait_if_empty (m ∷ ms) t max_time now k = if is_reply t then halt else ok false k

-- `proc_recv` up to `proc_yield`: the result is whether it has to yield.
unfoldable pub proc_recv : MsgType → (max_time now : ℕ) → Cmd Kernel Bool
proc_recv t max_time now k =
    let v = k.proc_set k.proc_current in
    if is_runnable v.state && not (mbox v.mboxes t).waiting
    then wait_if_empty (mbox v.mboxes t).messages t max_time now k
    else halt

-- What the caller of `proc_recv` finds in `contents`, `*psize` and `*psrc`.
pub record Received : Type 0 where
  pub contents : List ℕ
  pub psize : ℕ
  pub psrc : ℕ

abbrev pub copy_out : ℕ → Message → Received
copy_out psize m =
    let n = if ltb m.size psize then m.size else psize in
    record { contents = take n m.contents; psize = n; psrc = m.src }

-- Taking the first of the messages.
unfoldable pub take_message : List Message → MsgType → ℕ → Cmd Kernel (Option Received)
take_message [] t psize k = ok none k
take_message (m ∷ ms) t psize k =
    ok (some (copy_out psize m))
      (modify k.proc_current (with_mbox t (λ q. record q { messages = ms })) k)

-- `proc_recv` after `proc_yield`
unfoldable pub receive : MsgType → ℕ → Cmd Kernel (Option Received)
receive t psize k =
    let v = k.proc_set k.proc_current in
    if is_runnable v.state && not (mbox v.mboxes t).waiting
    then take_message (mbox v.mboxes t).messages t psize k
    else halt
