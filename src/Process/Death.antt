-- ===== src/Process/Death.antt =====
-- grass/process.c: the death of a process. Nobody is left waiting for a reply from it.
use operating_system_practic.Base.{
  ℕ, ◌<◌, ◌≡◌, true, false, if◌then◌else◌, Option, none, some, [], ◌∷◌, ◌++◌,
}
use operating_system_practic.Process.{
  ProcState, is_zombie, Message, MsgType, Process, Kernel, modify,
}
use operating_system_practic.Process.Life.{bytes, awaits, count_out}
use operating_system_practic.Process.Sane.{Sane}
use operating_system_practic.Process.Wake.{inbox}

-- The process in the slot is a zombie with the process id.
abbrev pub Dead : Kernel → (proc pid : ℕ) → Type 0
Dead k proc pid = (is_zombie (k.proc_set proc).state ≡ true) × ((k.proc_set proc).pid ≡ pid)

-- No slot before `p` waits for a reply from the process id.
abbrev pub Nobody : Kernel → (pid p : ℕ) → Type 0
Nobody k pid p = (q : ℕ) → q < p → awaits pid (k.proc_set q) ≡ false

-- The events that the processes have.
abbrev SameEvents : Kernel → Kernel → Type 0
SameEvents k k1 = (q : ℕ) → inbox MsgType.event (k1.proc_set q) ≡ inbox MsgType.event (k.proc_set q)

-- The message that tells of the death of the process id.
abbrev pub obituary : (pid status : ℕ) → Message
obituary pid status = record {
  src = pid;
  contents = 1 ∷ 0 ∷ 0 ∷ 0 ∷ (bytes pid ++ bytes status);
  size = 12;
}

-- The owner in the slot, if there is one, has the message as its last event, unless it is dead.
abbrev pub Told : Kernel → (pid status : ℕ) → (owner : Option ℕ) → Kernel → Type 0
Told k pid status none k1 = Unit {0}
Told k pid status (some o) k1 = inbox MsgType.event (k1.proc_set o) ≡ (
    if is_zombie (k.proc_set o).state
    then inbox MsgType.event (k.proc_set o)
    else inbox MsgType.event (k.proc_set o) ++ obituary pid status ∷ [])

module _ (k0 : Kernel) (proc pid : ℕ) where
  abbrev Freed : (p : ℕ) → Kernel → Type 0
  Freed p k = Sane k × Dead k proc pid × Nobody k pid p × SameEvents k0 k

-- `proc_term` up to the state PROC_ZOMBIE.
abbrev pub dying : ℕ → Kernel → Kernel
dying proc k = modify proc (λ v. record v { state = ProcState.zombie }) (count_out proc k)
