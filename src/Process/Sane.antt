-- ===== src/Process/Sane.antt =====
-- grass/process.c: what is true of the process table between two steps.
use operating_system_practic.Base.{
  ℕ, ◌+◌, ◌<◌, ◌≡◌, ◌≢◌, ap, ◌∙◌, Bool, ◌==◌, inl, inr, update, Bool-cases,
}
use operating_system_practic.Process.Count.{bit, count_if, update_ne}
use operating_system_practic.Process.{max_procs, ProcState, is_runnable, Mboxes, Process, Kernel}

-- how many message queues a process waits on
abbrev pub flags : Mboxes → ℕ
flags m = bit m.request.waiting + bit m.reply.waiting + bit m.event.waiting

-- A runnable process waits on no message queue, a waiting one on exactly one. What the flags of a
-- dead process say does not matter.
abbrev pub Settled : ProcState → Mboxes → Type 0
Settled ProcState.free m = Unit
Settled ProcState.runnable m = flags m ≡ 0
Settled ProcState.waiting m = flags m ≡ 1
Settled ProcState.zombie m = Unit

abbrev pub runs : Process → Bool
runs v = is_runnable v.state

unfoldable pub Quiet : (ℕ → Process) → Type 0
Quiet procs = (p : ℕ) → p < max_procs → Settled (procs p).state (procs p).mboxes

-- The flags fit the states, and `proc_nrunnable` is the number of runnable processes.
unfoldable pub Sane : Kernel → Type 0
unfolding count_if
Sane k = Quiet k.proc_set × (k.proc_nrunnable ≡ count_if runs k.proc_set max_procs)

module _ (f : ℕ → Process) (p : ℕ) (v : Process) where
  pub Quiet-update : Quiet f → Settled v.state v.mboxes → Quiet (update f p v)
  unfolding Quiet
  Quiet-update q s i h = elim (Bool-cases (p == i)) [ inl e ↦ rw (e) s | inr e ↦ rw (e) (q i h) ]

-- No slot but one has changed.
abbrev pub Elsewhere : Kernel → ℕ → Kernel → Type 0
Elsewhere k p k1 = (q : ℕ) → p ≢ q → k1.proc_set q ≡ k.proc_set q

pub Elsewhere-update :
    (k k1 : Kernel) (p : ℕ) (v : Process) → k1.proc_set ≡ update k.proc_set p v → Elsewhere k p k1
Elsewhere-update k k1 p v e q ne = ap (λ t. t q) e ∙ update_ne k.proc_set p q v ne
