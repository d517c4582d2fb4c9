-- ===== src/Process/Receive.antt =====
-- grass/process.c: a process that waits for a message, and one that takes it, keep the table sane.
use operating_system_practic.Base.{
  ℕ, zero, suc, ◌<◌, ◌≤◌, length, ◌++◌, ltb, Option, ◌≡◌, refl, ap, ◌∙◌, true, false, ◌==◌, inl,
  inr, ◌⊎◌, arith, Bool-cases, List, [], ◌∷◌, none, some,
}
use operating_system_practic.Run.{Returns, returns}
use operating_system_practic.Process.{
  max_procs, ProcState, is_runnable, Message, MsgType, Mboxes, mbox, set_mbox, Process, Kernel,
}
use operating_system_practic.Process.Send.{
  with_mbox, set_waiting, is_reply, block_on, wait_if_empty, proc_recv, take_message, receive,
  copy_out, Received, take,
}
use operating_system_practic.Process.Sane.{
  flags, Settled, Quiet, Sane, Quiet-update, Elsewhere, runs,
}
use operating_system_practic.Process.Count.{update_self, update_ne, kept, lowered}
use operating_system_practic.Process.Deliver.{flag-flags}

flags-raise :
    (t : MsgType) (m : Mboxes)
    → flags m ≡ 0
    → flags (set_mbox m t (set_waiting true (mbox m t))) ≡ 1
flags-raise MsgType.request m e = omega (arith, e)
flags-raise MsgType.reply m e = omega (arith, e)
flags-raise MsgType.event m e = omega (arith, e)

runnable-flags : (s : ProcState) (m : Mboxes) → Settled s m → is_runnable s ≡ true → flags m ≡ 0
runnable-flags ProcState.free m h e = ground arith
runnable-flags ProcState.runnable m h e = h
runnable-flags ProcState.waiting m h e = ground arith
runnable-flags ProcState.zombie m h e = ground arith

block_on-state :
    (t : MsgType) (now max_time : ℕ) (v : Process)
    → (block_on t now max_time v).state ≡ ProcState.waiting
block_on-state t now max_time v = elim (Bool-cases (max_time == 0)) [
  | inl e ↦ rw (e) refl
  | inr e ↦ rw (e) refl
]

block_on-flags :
    (t : MsgType) (now max_time : ℕ) (v : Process)
    → flags v.mboxes ≡ 0
    → flags (block_on t now max_time v).mboxes ≡ 1
block_on-flags t now max_time v z = elim (Bool-cases (max_time == 0)) [
  | inl e ↦ rw (e) (flags-raise t v.mboxes z)
  | inr e ↦ rw (e) (flags-raise t v.mboxes z)
]

waits-Settled :
    (v : Process) → v.state ≡ ProcState.waiting → flags v.mboxes ≡ 1 → Settled v.state v.mboxes
waits-Settled v e one = rw (e) one

no_flag : (t : MsgType) (m : Mboxes) → flags m ≡ 0 → (mbox m t).waiting ≡ false
no_flag t m z = elim (Bool-cases (mbox m t).waiting) [
  | inl e ↦ absurd (flag-flags t m e z)
  | inr e ↦ e
]

set_messages-flags :
    (t : MsgType) (ms : List Message) (m : Mboxes)
    → flags (set_mbox m t (record (mbox m t) { messages = ms })) ≡ flags m
set_messages-flags MsgType.request ms m = refl
set_messages-flags MsgType.reply ms m = refl
set_messages-flags MsgType.event ms m = refl

set_messages-get :
    (t : MsgType) (ms : List Message) (m : Mboxes)
    → (mbox (set_mbox m t (record (mbox m t) { messages = ms })) t).messages ≡ ms
set_messages-get MsgType.request ms m = refl
set_messages-get MsgType.reply ms m = refl
set_messages-get MsgType.event ms m = refl

set_messages-Settled :
    (s : ProcState) (t : MsgType) (ms : List Message) (m : Mboxes)
    → Settled s m
    → Settled s (set_mbox m t (record (mbox m t) { messages = ms }))
set_messages-Settled ProcState.free t ms m h = tt
set_messages-Settled ProcState.runnable t ms m h = set_messages-flags t ms m ∙ h
set_messages-Settled ProcState.waiting t ms m h = set_messages-flags t ms m ∙ h
set_messages-Settled ProcState.zombie t ms m h = tt

-- What the caller has of a message when it has room for `psize` bytes: its source, and from the
-- start of its contents as many bytes as it has and there is room for.
abbrev pub HandedOut : Message → (psize : ℕ) → Option Received → Type 0
HandedOut m psize none = ⊥
HandedOut m psize (some r) =
    (r.psrc ≡ m.src)
    × (r.psize ≤ psize)
    × (r.psize ≤ m.size)
    × ((r.psize ≡ psize) ⊎ (r.psize ≡ m.size))
    × ((rest : List ℕ) × (m.contents ≡ r.contents ++ rest))
    × ((length r.contents ≡ r.psize) ⊎ ((r.contents ≡ m.contents) × (length m.contents < r.psize)))

take_prefix : (n : ℕ) (xs : List ℕ) → (rest : List ℕ) × (xs ≡ take n xs ++ rest)
take_prefix zero xs = (xs, refl)
take_prefix (suc n) [] = ([], refl)
take_prefix (suc n) (x ∷ xs) = let (rest, e) = take_prefix n xs in (rest, ap (λ ys. x ∷ ys) e)

take-length :
    (n : ℕ) (xs : List ℕ) → (length (take n xs) ≡ n) ⊎ ((take n xs ≡ xs) × (length xs < n))
take-length zero xs = inl refl
take-length (suc n) [] = inr (refl, omega arith)
take-length (suc n) (x ∷ xs) = elim (take-length n xs) [
  | inl e ↦ inl (ap suc e)
  | inr (e, lt) ↦ inr (ap (λ ys. x ∷ ys) e, omega (arith, lt))
]

copy_out-HandedOut : (psize : ℕ) (m : Message) → HandedOut m psize (some (copy_out psize m))
copy_out-HandedOut psize m = elim (Bool-cases (ltb m.size psize)) [
  | inl e ↦ rw (e) (
    refl,
    ground arith,
    ground arith,
    inr refl,
    take_prefix m.size m.contents,
    take-length m.size m.contents,
  )
  | inr e ↦ rw (e) (
    refl,
    ground arith,
    ground arith,
    inl refl,
    take_prefix psize m.contents,
    take-length psize m.contents,
  )
]

module _ (k : Kernel) (t : MsgType) (s : Sane k) (h : k.proc_current < max_procs)
    (r : is_runnable (k.proc_set k.proc_current).state ≡ true) where
  flags_down : flags (k.proc_set k.proc_current).mboxes ≡ 0
  unfolding Sane Quiet
  flags_down =
      let v = k.proc_set k.proc_current in runnable-flags v.state v.mboxes (s.0 k.proc_current h) r

  wait_if_empty-Sane :
      (ms : List Message) (max_time now : ℕ)
      → (is_reply t ≡ false) ⊎ (ms ≡ [])
      → Returns
          (λ yields k1.
            Sane k1
            × (((yields ≡ true) × ((k1.proc_set k1.proc_current).state ≡ ProcState.waiting))
                ⊎ ((yields ≡ false) × (k1 ≡ k))))
          (wait_if_empty ms t max_time now k)
  unfolding wait_if_empty Sane
  wait_if_empty-Sane [] max_time now no_reply =
      let f = k.proc_set in
      let p = k.proc_current in
      let v = block_on t now max_time (f p) in
      let state = block_on-state t now max_time (f p) in
      let settled = waits-Settled v state (block_on-flags t now max_time (f p) flags_down) in
      returns (
        (
          Quiet-update f p v s.0 settled,
          lowered runs f k.proc_nrunnable p v h s.1 r (ap is_runnable state),
        ),
        inl (refl, ap (λ w. w.state) (update_self f p v) ∙ state),
      )
  wait_if_empty-Sane (m ∷ ms) max_time now (inl e) = rw (e) (returns (s, inr (refl, refl)))
  wait_if_empty-Sane (m ∷ ms) max_time now (inr e) = ground arith

  -- On a sane process table, with a runnable current process of the table, and for a reply no
  -- message on its queue, `proc_recv` up to `proc_yield` returns without a failed `assert` and
  -- the table is sane: either it yields and the process waits, or it goes on and nothing has
  -- changed.
  pub proc_recv-Sane :
      (max_time now : ℕ)
      → (is_reply t ≡ false) ⊎ ((mbox (k.proc_set k.proc_current).mboxes t).messages ≡ [])
      → Returns
          (λ yields k1.
            Sane k1
            × (((yields ≡ true) × ((k1.proc_set k1.proc_current).state ≡ ProcState.waiting))
                ⊎ ((yields ≡ false) × (k1 ≡ k))))
          (proc_recv t max_time now k)
  unfolding proc_recv
  proc_recv-Sane max_time now no_reply =
      let v = k.proc_set k.proc_current in
      rw (r, no_flag t v.mboxes flags_down)
        (wait_if_empty-Sane (mbox v.mboxes t).messages max_time now no_reply)

  -- After it has slept, it takes the first message, if one has come.
  take_message-Sane :
      (ms : List Message) (psize : ℕ)
      → Returns
          (λ got k1.
            Sane k1
            × (((ms ≡ []) × (got ≡ none) × (k1 ≡ k))
                ⊎ ((m : Message) × (rest : List Message) × (ms ≡ m ∷ rest)
                    × HandedOut m psize got
                    × Elsewhere k k.proc_current k1
                    × ((mbox (k1.proc_set k1.proc_current).mboxes t).messages ≡ rest))))
          (take_message ms t psize k)
  unfolding take_message Sane Quiet
  take_message-Sane [] psize = returns (s, inl (refl, refl, refl))
  take_message-Sane (m ∷ ms) psize =
      let f = k.proc_set in
      let p = k.proc_current in
      let v = with_mbox t (λ q. record q { messages = ms }) (f p) in
      returns (
        (
          Quiet-update f p v s.0 (set_messages-Settled (f p).state t ms (f p).mboxes (s.0 p h)),
          kept runs f k.proc_nrunnable p v h s.1 refl,
        ),
        inr (
          m,
          ms,
          refl,
          copy_out-HandedOut psize m,
          λ q ne. update_ne f p q v ne,
          ap (λ w. (mbox w.mboxes t).messages) (update_self f p v)
              ∙ set_messages-get t ms (f p).mboxes,
        ),
      )

  -- On a sane process table, with a runnable current process of the table, the end of `proc_recv`
  -- returns without a failed `assert` and the table is sane: with no message it returns nothing
  -- and changes nothing; else it hands out the source of the first message and its contents from
  -- the start, as many bytes as the message has and the caller has room for, leaves the rest of
  -- the messages on the queue, and leaves every other process as it was.
  pub receive-Sane :
      (psize : ℕ)
      → Returns
          (λ got k1.
            let ms = (mbox (k.proc_set k.proc_current).mboxes t).messages in
            Sane k1
            × (((ms ≡ []) × (got ≡ none) × (k1 ≡ k))
                ⊎ ((m : Message) × (rest : List Message) × (ms ≡ m ∷ rest)
                    × HandedOut m psize got
                    × Elsewhere k k.proc_current k1
                    × ((mbox (k1.proc_set k1.proc_current).mboxes t).messages ≡ rest))))
          (receive t psize k)
  unfolding receive
  receive-Sane psize =
      let v = k.proc_set k.proc_current in
      rw (r, no_flag t v.mboxes flags_down) (take_message-Sane (mbox v.mboxes t).messages psize)
