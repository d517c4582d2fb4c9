-- ===== src/Process/Birth.antt =====
-- grass/process.c: creating a process keeps the process table sane and gives the child its user id.
use operating_system_practic.Base.{
  if◌then◌else◌, ◌==◌, ℕ, ◌≡◌, ◌≢◌, refl, sym, ap, ◌∙◌, update, [], ◌∷◌, ◌++◌, Bool, true, false,
  arith, Option, none, some,
}
use operating_system_practic.Run.{Returns, returns, bind, both}
use mathlib.Core.Path.{subst}
use operating_system_practic.Process.{
  quantum, ProcState, is_free, is_runnable, Kernel, modify, proc_find,
}
use operating_system_practic.Process.Life.{new_process}
use operating_system_practic.Process.Create.{
  top_level, starts_at, enter, child_uid, create_child, create_for, create_unless, proc_create_uid,
}
use operating_system_practic.Process.Count.{update_self, update_ne}
use operating_system_practic.Process.Sane.{Sane, Elsewhere}
use operating_system_practic.Process.Slots.{
  Pooled, Allocated, proc_alloc-Allocated, proc_alloc-run_queue, touch-Pooled, to_runqueue-Pooled,
}

-- The process in the slot is a user's, runnable, at the highest level with its whole quantum.
abbrev pub Newborn : Kernel → (uid now : ℕ) → ℕ → Kernel → Type 0
Newborn k uid now p k1 =
    (is_free (k.proc_set p).state ≡ true)
    × ((k1.proc_set p).state ≡ ProcState.runnable)
    × ((k1.proc_set p).uid ≡ uid)
    × ((k1.proc_set p).pid ≡ k.pid_gen)
    × ((k1.proc_set p).priority ≡ 0)
    × ((k1.proc_set p).remain_quantum ≡ quantum 0)
    × ((k1.proc_set p).last_run ≡ now)

-- The current process stays the current one and goes to the end of the queue of its level, the
-- other queues are as they were, and no slot but one has changed.
abbrev pub Queued : Kernel → ℕ → Kernel → Type 0
Queued k p k1 =
    let c = k.proc_current in
    let level = (k.proc_set c).priority in
    (k1.proc_current ≡ c)
    × (k1.run_queue ≡ update k.run_queue level (k.run_queue level ++ c ∷ []))
    × Elsewhere k p k1

-- Nothing is created, or a slot that was free holds the new process.
abbrev pub Created : Kernel → (uid now : ℕ) → Option ℕ → Kernel → Type 0
Created k uid now none k1 = k1 ≡ k
Created k uid now (some p) k1 = Newborn k uid now p k1 × Queued k p k1

abbrev pub Runs : Kernel → Type 0
Runs k = is_runnable (k.proc_set k.proc_current).state ≡ true

apart : (s : ProcState) → is_free s ≡ true → is_runnable s ≢ true
apart ProcState.free f r = ground arith
apart ProcState.runnable f r = ground arith
apart ProcState.waiting f r = ground arith
apart ProcState.zombie f r = ground arith

free-ne_runnable :
    (k : Kernel) (p c : ℕ)
    → is_free (k.proc_set p).state ≡ true
    → is_runnable (k.proc_set c).state ≡ true
    → p ≢ c
free-ne_runnable k p c f r e =
    apart (k.proc_set p).state f (ap (λ i. is_runnable (k.proc_set i).state) e ∙ r)

-- A slot that has kept its process has kept it running.
still_Runs :
    (k k1 : Kernel) (p : ℕ) → is_free (k.proc_set p).state ≡ true → Runs k → Queued k p k1 → Runs k1
still_Runs k k1 p was_free running (current, queue, others) =
    ap (λ i. is_runnable (k1.proc_set i).state) current
    ∙ ap (λ v. is_runnable v.state)
        (others k.proc_current (free-ne_runnable k p k.proc_current was_free running))
    ∙ running

enter-Created :
    (k : Kernel) (owner uid now : ℕ) (r : Option ℕ) (k1 : Kernel)
    → Runs k
    → Sane k1 × Pooled k1 × Allocated k owner uid r k1
    → k1.run_queue ≡ k.run_queue
    → Returns (λ r k2. Sane k2 × Pooled k2 × Runs k2 × Created k uid now r k2) (enter now r k1)
unfolding enter
enter-Created k owner uid now none k1 running (s, pool, (e, empty)) queues =
    returns (s, pool, subst Runs (sym e) running, e)
enter-Created k owner uid now (some p) k1 running (s, pool, (h, was_free, current, at, others))
      queues =
    let c = k1.proc_current in
    let v = new_process owner uid k.pid_gen in
    let k2 = modify p top_level k1 in
    let ne : p ≢ c = λ e. free-ne_runnable k p k.proc_current was_free running (e ∙ current) in
    let same : k2.proc_set c ≡ k.proc_set k.proc_current =
      update_ne k1.proc_set p c (top_level (k1.proc_set p)) ne
      ∙ others c ne
      ∙ ap (λ i. k.proc_set i) current in
    let at2 : k2.proc_set p ≡ top_level v =
      update_self k1.proc_set p (top_level (k1.proc_set p)) ∙ ap top_level at in
    let (s2, pool2) =
      touch-Pooled k1 p top_level s pool h (ap (λ w. is_free w.state) at) refl refl in
    bind (to_runqueue-Pooled k2 c s2 pool2 (ap (λ w. is_runnable w.state) same ∙ running))
      (λ a k3 (s3, pool3, table, current3, queue3).
        let at3 : k3.proc_set p ≡ top_level v = ap (λ t. t p) table ∙ at2 in
        let (s4, pool4) =
          touch-Pooled k3 p (starts_at now) s3 pool3 h (ap (λ w. is_free w.state) at3) refl refl in
        let k4 = modify p (starts_at now) k3 in
        let at4 : k4.proc_set p ≡ starts_at now (top_level v) =
          update_self k3.proc_set p (starts_at now (k3.proc_set p)) ∙ ap (starts_at now) at3 in
        let queued : Queued k p k4 = (
          current3 ∙ current,
          queue3
              ∙ ap (λ w. update k1.run_queue w.priority (k1.run_queue w.priority ++ c ∷ [])) same
              ∙ rw (queues, current) refl,
          λ q apart.
              update_ne k3.proc_set p q (starts_at now (k3.proc_set p)) apart
              ∙ ap (λ t. t q) table
              ∙ update_ne k1.proc_set p q (top_level (k1.proc_set p)) apart
              ∙ others q apart,
        ) in
        returns (
          s4,
          pool4,
          still_Runs k k4 p was_free running queued,
          (
            (
              was_free,
              ap (λ w. w.state) at4,
              ap (λ w. w.uid) at4,
              ap (λ w. w.pid) at4,
              ap (λ w. w.priority) at4,
              ap (λ w. w.remain_quantum) at4,
              ap (λ w. w.last_run) at4,
            ),
            queued,
          ),
        ))

create_unless-Created :
    (k : Kernel) (shutting : Bool) (owner uid now o : ℕ)
    → Sane k
    → Pooled k
    → Runs k
    → proc_find owner k ≡ some o
    → Returns
        (λ r k1. Sane k1 × Pooled k1 × Runs k1 × Created k (child_uid uid (k.proc_set o)) now r k1)
        (create_unless shutting owner uid now k)
unfolding create_unless create_for create_child
create_unless-Created k true owner uid now o s pool running found = returns (s, pool, running, refl)
create_unless-Created k false owner uid now o s pool running found =
    let id = child_uid uid (k.proc_set o) in
    rw (found) (
      bind (both (proc_alloc-Allocated k owner id s pool) (proc_alloc-run_queue k owner id))
        (λ r k1 (allocated, queues). enter-Created k owner id now r k1 running allocated queues))

-- On a sane table whose free list holds distinct free slots and whose `proc_nprocs` counts the
-- taken ones, with a runnable current process and an owner that `proc_find` finds,
-- `proc_create_uid` returns without a failed `assert`, on a table that is sane, with such a free
-- list, such a `proc_nprocs` and a runnable current process. It creates nothing and changes
-- nothing, or a slot that was free holds a runnable process with the next process id, at the
-- highest level with its whole quantum, and its user id is the owner's unless that is 0. Then the
-- current process is the same and goes to the end of the queue of its level, and no other queue
-- and no other slot has changed.
pub proc_create_uid-Created :
    (k : Kernel) (owner uid now o : ℕ)
    → Sane k
    → Pooled k
    → Runs k
    → proc_find owner k ≡ some o
    → Returns
        (λ r k1.
          Sane k1
          × Pooled k1
          × Runs k1
          × Created k (if (k.proc_set o).uid == 0 then uid else (k.proc_set o).uid) now r k1)
        (proc_create_uid owner uid now k)
unfolding proc_create_uid
proc_create_uid-Created k owner uid now o s pool running found =
    create_unless-Created k k.proc_shutting_down owner uid now o s pool running found
