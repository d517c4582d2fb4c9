-- ===== src/Process/Deliver.antt =====
-- grass/process.c: sending a message keeps the process table sane, whoever sends it and whenever,
-- and no `assert` fails.
use operating_system_practic.Base.{
  ℕ, ◌<◌, ◌≡◌, ◌≢◌, refl, ap, ◌∙◌, Bool, true, false, ◌==◌, inl, inr, ◌⊎◌, arith, Bool-cases, some,
  List, [], ◌∷◌, ◌++◌, Option-cases,
}
use operating_system_practic.Run.{Returns, returns, bind, mono}
use operating_system_practic.Process.{
  max_procs, ProcState, is_free, is_runnable, is_waiting, is_zombie, Message, MsgType, Mboxes, mbox,
  set_mbox, Process, Kernel, modify, proc_find,
}
use operating_system_practic.Process.Send.{
  wake, with_mbox, push, set_waiting, count_runnable, wake_receiver, deliver, accepts, send_to,
  proc_send, take,
}
use operating_system_practic.Process.Sane.{
  flags, Settled, Quiet, Sane, Elsewhere, Elsewhere-update, Quiet-update, runs,
}
use operating_system_practic.Process.Count.{bit, update_self, update_ne, kept}
use operating_system_practic.Process.Find.{proc_find-Named}
use operating_system_practic.Process.Wake.{requeue-SameTable, wake_up-Sane, waiting-not_runnable}

mbox-push :
    (t : MsgType) (msg : Message) (m : Mboxes)
    → flags (set_mbox m t (push msg (mbox m t))) ≡ flags m
mbox-push MsgType.request msg m = refl
mbox-push MsgType.reply msg m = refl
mbox-push MsgType.event msg m = refl

pub flag-flags : (t : MsgType) (m : Mboxes) → (mbox m t).waiting ≡ true → flags m ≢ 0
flag-flags MsgType.request m e z = omega (arith, ap bit e)
flag-flags MsgType.reply m e z = omega (arith, ap bit e)
flag-flags MsgType.event m e z = omega (arith, ap bit e)

-- A live process that has raised a flag waits, on that queue alone.
flag-waiting :
    (s : ProcState) (t : MsgType) (m : Mboxes)
    → Settled s m
    → (mbox m t).waiting ≡ true
    → is_free s ≡ false
    → is_zombie s ≡ false
    → (is_waiting s ≡ true) × (flags m ≡ 1)
flag-waiting ProcState.free t m h e nf nz = ground arith
flag-waiting ProcState.runnable t m h e nf nz = absurd (flag-flags t m e h)
flag-waiting ProcState.waiting t m h e nf nz = (refl, h)
flag-waiting ProcState.zombie t m h e nf nz = ground arith

flags-lower :
    (t : MsgType) (m : Mboxes)
    → (mbox m t).waiting ≡ true
    → flags m ≡ 1
    → flags (set_mbox m t (set_waiting false (mbox m t))) ≡ 0
flags-lower MsgType.request m e one = omega (arith, ap bit e)
flags-lower MsgType.reply m e one = omega (arith, ap bit e)
flags-lower MsgType.event m e one = omega (arith, ap bit e)

flag-push :
    (t : MsgType) (msg : Message) (m : Mboxes)
    → mbox (set_mbox m t (push msg (mbox m t))) t ≡ push msg (mbox m t)
flag-push MsgType.request msg m = refl
flag-push MsgType.reply msg m = refl
flag-push MsgType.event msg m = refl

push-Settled :
    (s : ProcState) (t : MsgType) (msg : Message) (m : Mboxes)
    → Settled s m
    → Settled s (set_mbox m t (push msg (mbox m t)))
push-Settled ProcState.free t msg m h = tt
push-Settled ProcState.runnable t msg m h = mbox-push t msg m ∙ h
push-Settled ProcState.waiting t msg m h = mbox-push t msg m ∙ h
push-Settled ProcState.zombie t msg m h = tt

messages-lower :
    (t : MsgType) (m : Mboxes)
    → (mbox (set_mbox m t (set_waiting false (mbox m t))) t).messages ≡ (mbox m t).messages
messages-lower MsgType.request m = refl
messages-lower MsgType.reply m = refl
messages-lower MsgType.event m = refl

-- The table is sane, the message is the last one on its queue, and no other process has changed.
abbrev pub Arrived : Kernel → ℕ → MsgType → Message → Kernel → Type 0
Arrived k p t msg k1 =
    Sane k1
    × ((mbox (k1.proc_set p).mboxes t).messages
        ≡ (mbox (k.proc_set p).mboxes t).messages ++ msg ∷ [])
    × Elsewhere k p k1

wake_receiver-Sane :
    (k : Kernel) (p : ℕ) (t : MsgType) (b : Bool)
    → Sane k
    → p < max_procs
    → is_free (k.proc_set p).state ≡ false
    → is_zombie (k.proc_set p).state ≡ false
    → (mbox (k.proc_set p).mboxes t).waiting ≡ b
    → Returns
        (λ sent k1.
          (sent ≡ true)
          × Sane k1
          × ((mbox (k1.proc_set p).mboxes t).messages ≡ (mbox (k.proc_set p).mboxes t).messages)
          × Elsewhere k p k1)
        (wake_receiver b p t k)
unfolding wake_receiver Sane Quiet
wake_receiver-Sane k p t false s h nf nz e = returns (refl, s, refl, λ q ne. refl)
wake_receiver-Sane k p t true (q, count) h nf nz e =
    let f = k.proc_set in
    let k2 = count_runnable (modify p wake k) in
    let g = with_mbox t (set_waiting false) in
    let at2 : k2.proc_set p ≡ wake (f p) = update_self f p (wake (f p)) in
    let (w, one) = flag-waiting (f p).state t (f p).mboxes (q p h) e nf nz in
    rw (w) (
      bind (requeue-SameTable k2 (p == k.proc_current) p (ap (λ v. is_runnable v.state) at2))
        (λ a k3 same.
          let (sane, all) =
            wake_up-Sane f k.proc_nrunnable p (wake (f p)) g k3 h (q, count)
              (waiting-not_runnable (f p).state w) refl refl (flags-lower t (f p).mboxes e one)
              same in
          returns (
            refl,
            sane,
            ap (λ u. (mbox (u p).mboxes t).messages) all
                ∙ ap (λ v. (mbox v.mboxes t).messages) (update_self f p (g (wake (f p))))
                ∙ messages-lower t (f p).mboxes,
            Elsewhere-update k (modify p g k3) p (g (wake (f p))) all,
          )))

deliver-Arrived :
    (k : Kernel) (p : ℕ) (t : MsgType) (msg : Message)
    → Sane k
    → p < max_procs
    → is_free (k.proc_set p).state ≡ false
    → is_zombie (k.proc_set p).state ≡ false
    → Returns (λ sent k1. (sent ≡ true) × Arrived k p t msg k1) (deliver p t msg k)
unfolding deliver Sane Quiet
deliver-Arrived k p t msg (q, count) h nf nz =
    let f = k.proc_set in
    let v = with_mbox t (push msg) (f p) in
    let k1 = modify p (with_mbox t (push msg)) k in
    let at : k1.proc_set p ≡ v = update_self f p v in
    let sane : Sane k1 = (
      Quiet-update f p v q (push-Settled (f p).state t msg (f p).mboxes (q p h)),
      kept runs f k.proc_nrunnable p v h count refl,
    ) in
    mono
      (wake_receiver-Sane k1 p t (mbox (k1.proc_set p).mboxes t).waiting sane h
        (ap (λ w. is_free w.state) at ∙ nf) (ap (λ w. is_zombie w.state) at ∙ nz) refl)
      (λ sent k2 (was_sent, sane2, e, others). (
        was_sent,
        (
          sane2,
          e
              ∙ ap (λ w. (mbox w.mboxes t).messages) at
              ∙ ap (λ b. b.messages) (flag-push t msg (f p).mboxes),
          λ i ne. others i ne ∙ update_ne f p i v ne,
        ),
      ))

accepts-live :
    (src : ℕ) (t : MsgType) (v : Process) → accepts src t v ≡ true → is_zombie v.state ≡ false
unfolding accepts
accepts-live src t v e = ground arith

-- Sending changes no dead process.
abbrev pub DeadSame : Kernel → Kernel → Type 0
DeadSame k k1 = (q : ℕ) → is_zombie (k.proc_set q).state ≡ true → k1.proc_set q ≡ k.proc_set q

live-ne :
    (k : Kernel) (p q : ℕ)
    → is_zombie (k.proc_set p).state ≡ false
    → is_zombie (k.proc_set q).state ≡ true
    → p ≢ q
live-ne k p q live dead e = ground arith

-- On a sane process table, whoever sends what to whom, `proc_send` returns without a failed
-- `assert` and the table is sane: the waiting flags fit the process states and `proc_nrunnable`
-- is the number of runnable processes. If it reports failure it has changed nothing, and no
-- zombie has changed.
pub proc_send-Sane :
    (k : Kernel) (src dst : ℕ) (t : MsgType) (contents : List ℕ) (size : ℕ)
    → Sane k
    → Returns
        (λ sent k1. Sane k1 × ((sent ≡ true) ⊎ (k1 ≡ k)) × DeadSame k k1)
        (proc_send src dst t contents size k)
unfolding proc_send send_to
proc_send-Sane k src dst t contents size s = elim (Option-cases (proc_find dst k)) [
  | inl e ↦ rw (e) (returns (s, inr refl, λ q d. refl))
  | inr (p, e) ↦
      let ((nf, named), h) = proc_find-Named k dst p e in
      elim (Bool-cases (accepts src t (k.proc_set p))) [
        | inl a ↦
            let live = accepts-live src t (k.proc_set p) a in
            rw (e, a)
              (mono (deliver-Arrived k p t _ s h nf live)
                (λ sent k1 (was_sent, (sane, arrived, others)).
                  (sane, inl was_sent, λ q d. others q (live-ne k p q live d))))
        | inr a ↦ rw (e, a) (returns (s, inr refl, λ q d. refl))
      ]
]

-- On a sane process table a message that its destination accepts is sent: it is the last one on
-- the queue of its type there, with its source and its first `size` bytes, and no other process
-- has changed.
pub proc_send-arrives :
    (k : Kernel) (src dst p : ℕ) (t : MsgType) (contents : List ℕ) (size : ℕ)
    → Sane k
    → proc_find dst k ≡ some p
    → accepts src t (k.proc_set p) ≡ true
    → Returns
        (λ sent k1.
          (sent ≡ true)
          × Arrived k p t (record { src = src; contents = take size contents; size = size }) k1)
        (proc_send src dst t contents size k)
unfolding proc_send send_to
proc_send-arrives k src dst p t contents size s e a =
    let ((nf, named), h) = proc_find-Named k dst p e in
    rw (e, a) (deliver-Arrived k p t _ s h nf (accepts-live src t (k.proc_set p) a))
