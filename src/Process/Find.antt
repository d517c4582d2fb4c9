-- ===== src/Process/Find.antt =====
-- grass/process.c: what `proc_find` finds.
use operating_system_practic.Base.{
  ℕ, zero, suc, ◌+◌, ◌<◌, ◌≡◌, sym, true, false, ◌==◌, ◌&&◌, not, some, inl, inr, arith, Bool-cases,
}
use operating_system_practic.Process.{max_procs, is_free, Process, Kernel, find_from, proc_find}

-- The slot is a slot of the table, taken, and its process has the process id.
abbrev pub Named : (ℕ → Process) → ℕ → ℕ → Type 0
Named procs pid q = (is_free (procs q).state ≡ false) × ((procs q).pid ≡ pid)

pub matches-Named :
    (procs : ℕ → Process) (pid p : ℕ)
    → (not (is_free (procs p).state) && ((procs p).pid == pid)) ≡ true
    → Named procs pid p
matches-Named procs pid p e = ground arith

pub find_from-Named :
    (procs : ℕ → Process) (pid n p q : ℕ)
    → find_from procs pid n p ≡ some q
    → Named procs pid q × (q < p + n)
unfolding find_from
find_from-Named procs pid zero p q e = ground arith
find_from-Named procs pid (suc n) p q e =
    elim (Bool-cases (not (is_free (procs p).state) && ((procs p).pid == pid))) [
      | inl m ↦
          let same : p ≡ q = ground arith in
          rw (sym same) (matches-Named procs pid p m, omega arith)
      | inr m ↦
          let (named, bound) = find_from-Named procs pid n (p + 1) q (ground arith) in
          (named, omega arith)
    ]

pub proc_find-Named :
    (k : Kernel) (pid q : ℕ) → proc_find pid k ≡ some q → Named k.proc_set pid q × (q < max_procs)
unfolding proc_find
proc_find-Named k pid q e = find_from-Named k.proc_set pid max_procs 0 q e
