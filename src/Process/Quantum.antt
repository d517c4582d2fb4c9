-- ===== src/Process/Quantum.antt =====
-- grass/process.c: the priorities and the quanta.
use operating_system_practic.Base.{
  ℕ, ◌+◌, ◌-◌, ◌^◌, ◌<◌, ◌≤◌, ◌≡◌, refl, false, ltb, ◌==◌, inl, inr, arith, Bool-cases,
}
use operating_system_practic.Process.{max_priority, quantum, Process}
use operating_system_practic.Process.Schedule.{check_priority, since}

-- The level exists and what is left of the quantum is no more than the level gives.
abbrev pub InLevel : Process → Type 0
InLevel v = (v.priority < max_priority) × (v.remain_quantum ≤ quantum v.priority)

pub since-no_wrap : (now last : ℕ) → last ≤ now → now < 2 ^ 64 → since now last ≡ now - last
since-no_wrap now last le lt = omega arith

-- For a process at one of the levels with no more quantum left than its level gives,
-- `check_priority` keeps both bounds at any time, and does not raise the process to a higher
-- level.
pub check_priority-InLevel :
    (now : ℕ) (v : Process)
    → InLevel v
    → InLevel (check_priority now v) × (v.priority ≤ (check_priority now v).priority)
unfolding check_priority
check_priority-InLevel now v (p, r) =
    elim (Bool-cases (ltb v.remain_quantum (since now v.last_run))) [
      | inl e ↦ elim (Bool-cases (v.priority == 2)) [
        | inl e2 ↦ rw (e, e2) ((p, omega arith), omega arith)
        | inr e2 ↦ rw (e, e2) ((ground arith, omega arith), omega arith)
      ]
      | inr e ↦ rw (e) ((p, omega (arith, r)), omega arith)
    ]

check_priority-charges :
    (now : ℕ) (v : Process)
    → v.last_run ≤ now
    → now < 2 ^ 64
    → now - v.last_run ≤ v.remain_quantum
    → check_priority now v ≡ record v { remain_quantum = v.remain_quantum - (now - v.last_run) }
unfolding check_priority
check_priority-charges now v le lt room =
    let enough : ltb v.remain_quantum (now - v.last_run) ≡ false = ground arith in
    rw (since-no_wrap now v.last_run le lt, enough) refl

-- Two calls of `check_priority` at later and later times, within 64 bits, take from the quantum
-- the sum of both times since `last_run`, where that is no more than the quantum: the time up to
-- the first call is charged twice.
pub check_priority-twice :
    (v : Process) (now now1 : ℕ)
    → v.last_run ≤ now
    → now ≤ now1
    → now1 < 2 ^ 64
    → (now - v.last_run) + (now1 - v.last_run) ≤ v.remain_quantum
    → (check_priority now1 (check_priority now v)).remain_quantum
      ≡ v.remain_quantum - ((now - v.last_run) + (now1 - v.last_run))
check_priority-twice v now now1 le le1 lt room =
    let once = check_priority-charges now v le (omega arith) (omega arith) in
    let charged : Process = record v { remain_quantum = v.remain_quantum - (now - v.last_run) } in
    rw (once, check_priority-charges now1 charged (omega arith) lt (omega arith)) (omega arith)
