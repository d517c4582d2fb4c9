-- ===== src/Process/Wake.antt =====
-- grass/process.c: waking up a process keeps the process table sane, and no `assert` fails.
use operating_system_practic.Base.{
  ℕ, ◌<◌, ◌≡◌, refl, sym, ap, ◌∙◌, Bool, true, false, ◌==◌, inl, inr, update, arith, add_u32,
  Bool-cases, List,
}
use mathlib.Core.Path.{subst}
use operating_system_practic.Run.{Returns, returns, bind}
use operating_system_practic.Process.{
  max_procs, ProcState, is_runnable, is_waiting, MsgType, mbox, Message, Process, Kernel, modify,
  proc_to_runqueue,
}
use operating_system_practic.Process.Send.{
  wake, clear_waiting, improve, requeue, proc_wakeup, count_runnable,
}
use operating_system_practic.Process.Sane.{
  Settled, Quiet, Sane, Quiet-update, Elsewhere, Elsewhere-update, runs,
}
use operating_system_practic.Process.Count.{count_if, update_self, raised, update_twice}

pub waiting-not_runnable : (s : ProcState) → is_waiting s ≡ true → is_runnable s ≡ false
waiting-not_runnable ProcState.free e = refl
waiting-not_runnable ProcState.runnable e = ground arith
waiting-not_runnable ProcState.waiting e = refl
waiting-not_runnable ProcState.zombie e = refl

-- What putting a process on the run queue leaves alone.
abbrev pub SameTable : Kernel → Kernel → Type 0
SameTable k k1 = (k1.proc_set ≡ k.proc_set) × (k1.proc_nrunnable ≡ k.proc_nrunnable)

pub to_runqueue-SameTable :
    (k : Kernel) (p : ℕ)
    → is_runnable (k.proc_set p).state ≡ true
    → Returns (λ _ k1. SameTable k k1) (proc_to_runqueue p k)
unfolding proc_to_runqueue
to_runqueue-SameTable k p r = rw (r) (returns (refl, refl))

pub requeue-SameTable :
    (k : Kernel) (self : Bool) (p : ℕ)
    → is_runnable (k.proc_set p).state ≡ true
    → Returns (λ _ k1. SameTable k k1) (requeue self p k)
unfolding requeue
requeue-SameTable k true p r = returns (refl, refl)
requeue-SameTable k false p r = to_runqueue-SameTable k p r

-- A process that is woken up in two strokes: what happens before it goes on the run queue, `v`, and
-- after, `g`.
pub wake_up-Sane :
    (f : ℕ → Process) (n p : ℕ) (v : Process) (g : Process → Process) (k : Kernel)
    → p < max_procs
    → Quiet f × (n ≡ count_if runs f max_procs)
    → is_runnable (f p).state ≡ false
    → is_runnable v.state ≡ true
    → (g v).state ≡ ProcState.runnable
    → Settled (g v).state (g v).mboxes
    → (k.proc_set ≡ update f p v) × (k.proc_nrunnable ≡ add_u32 n 1)
    → Sane (modify p g k) × ((modify p g k).proc_set ≡ update f p (g v))
unfolding Sane
wake_up-Sane f n p v g k h (q, count) was is_now running s (e, e1) =
    let at : k.proc_set p ≡ v = rw (e) (update_self f p v) in
    let all : update k.proc_set p (g (k.proc_set p)) ≡ update f p (g v) =
      rw (at, e) (update_twice f p v (g v)) in
    let counts = raised runs f n p (g v) h count was (ap is_runnable running) in
    (
      (
        subst Quiet (sym all) (Quiet-update f p (g v) q s),
        e1 ∙ subst (λ t. add_u32 n 1 ≡ count_if runs t max_procs) (sym all) counts,
      ),
      all,
    )

-- The messages of a type on the queues of a process.
abbrev pub inbox : MsgType → Process → List Message
inbox t v = (mbox v.mboxes t).messages

-- The table is sane, the process is runnable and has the messages that it had, and no other process
-- has changed.
abbrev pub Woken : Kernel → ℕ → Kernel → Type 0
Woken k p k1 =
    Sane k1
    × ((k1.proc_set p).state ≡ ProcState.runnable)
    × ((t : MsgType) → inbox t (k1.proc_set p) ≡ inbox t (k.proc_set p))
    × Elsewhere k p k1

clear_waiting-inbox : (t : MsgType) (v : Process) → inbox t (clear_waiting v) ≡ inbox t v
clear_waiting-inbox MsgType.request v = refl
clear_waiting-inbox MsgType.reply v = refl
clear_waiting-inbox MsgType.event v = refl

Woken-update :
    (k k1 : Kernel) (p : ℕ) (v : Process)
    → Sane k1
    → k1.proc_set ≡ update k.proc_set p v
    → v.state ≡ ProcState.runnable
    → ((t : MsgType) → inbox t v ≡ inbox t (k.proc_set p))
    → Woken k p k1
Woken-update k k1 p v sane all runs kept = (
  sane,
  ap (λ t. (t p).state) all ∙ ap (λ x. x.state) (update_self k.proc_set p v) ∙ runs,
  λ t. ap (λ f. inbox t (f p)) all ∙ ap (inbox t) (update_self k.proc_set p v) ∙ kept t,
  Elsewhere-update k k1 p v all,
)

-- On a sane process table `proc_wakeup` of a waiting process of the table returns without a
-- failed `assert`, leaves the table sane, the process runnable with the messages that it had, and
-- every other process as it was.
pub proc_wakeup-Woken :
    (k : Kernel) (p : ℕ)
    → Sane k
    → p < max_procs
    → is_waiting (k.proc_set p).state ≡ true
    → Returns (λ _ k1. Woken k p k1) (proc_wakeup p k)
unfolding proc_wakeup Sane
proc_wakeup-Woken k p s h w =
    let f = k.proc_set in
    let was = waiting-not_runnable (f p).state w in
    let k1 = count_runnable (modify p wake k) in
    let k2 = modify p improve k1 in
    let v2 = improve (wake (f p)) in
    let set1 : k1.proc_set p ≡ wake (f p) = update_self f p (wake (f p)) in
    let set2 : k2.proc_set ≡ update f p v2 = rw (set1) (update_twice f p (wake (f p)) v2) in
    let at2 : k2.proc_set p ≡ v2 = ap (λ t. t p) set2 ∙ update_self f p v2 in
    elim (Bool-cases (p == k.proc_current)) [
      | inl e ↦
          rw (w, e)
            (bind (requeue-SameTable k1 true p (ap (λ v. is_runnable v.state) set1)) (λ a k3 same.
              let (sane, all) =
                wake_up-Sane f k.proc_nrunnable p (wake (f p)) clear_waiting k3 h s was refl refl
                  refl same in
              returns (
                Woken-update k (modify p clear_waiting k3) p (clear_waiting (wake (f p))) sane all
                  refl (λ t. clear_waiting-inbox t (wake (f p))))))
      | inr e ↦
          rw (w, e)
            (bind (requeue-SameTable k2 false p (ap (λ v. is_runnable v.state) at2))
              (λ a k3 (e1, e2).
                let (sane, all) =
                  wake_up-Sane f k.proc_nrunnable p v2 clear_waiting k3 h s was refl refl refl
                    (e1 ∙ set2, e2) in
                returns (
                  Woken-update k (modify p clear_waiting k3) p (clear_waiting v2) sane all refl
                    (λ t. clear_waiting-inbox t v2))))
    ]
