-- ===== src/Process/Count.antt =====
-- grass/process.c: how many processes of the table pass a test, and how a write to one slot changes
-- that.
use operating_system_practic.Base.{
  ℕ, zero, suc, ◌+◌, ◌<◌, ◌≤◌, ◌≡◌, ◌≢◌, refl, ap, sym, Bool, true, false, ◌==◌, inl, inr, update,
  add_u32, arith, Bool-cases,
}
use mathlib.Core.Path.{fun_ext}
use operating_system_practic.Process.{max_procs, Process, dec_u32}

abbrev pub bit : Bool → ℕ
bit true = 1
bit false = 0

-- how many of the first `n` slots hold a process that passes the test
unfoldable pub count_if : (Process → Bool) → (ℕ → Process) → ℕ → ℕ
count_if test procs zero = 0
count_if test procs (suc n) = count_if test procs n + bit (test (procs n))

bit-bound : (b : Bool) → bit b ≤ 1
bit-bound true = omega arith
bit-bound false = omega arith

pub count_if-bound :
    (test : Process → Bool) (procs : ℕ → Process) (n : ℕ) → count_if test procs n ≤ n
unfolding count_if
count_if-bound test procs zero = omega arith
count_if-bound test procs (suc n) =
    omega (arith, count_if-bound test procs n, bit-bound (test (procs n)))

pub update_self : (f : ℕ → Process) (p : ℕ) (v : Process) → update f p v p ≡ v
update_self f p v = ground arith

pub update_ne : (f : ℕ → Process) (p q : ℕ) (v : Process) → p ≢ q → update f p v q ≡ f q
update_ne f p q v h = ground arith

module _ (test : Process → Bool) (f : ℕ → Process) (p : ℕ) (v : Process) where
  count_if-update_out : (n : ℕ) → n ≤ p → count_if test (update f p v) n ≡ count_if test f n
  unfolding count_if
  count_if-update_out zero h = refl
  count_if-update_out (suc n) h =
      rw (count_if-update_out n (omega arith), update_ne f p n v (omega arith)) refl

  pub count_if-update :
      (n : ℕ)
      → p < n
      → count_if test (update f p v) n + bit (test (f p)) ≡ count_if test f n + bit (test v)
  unfolding count_if
  count_if-update zero h = absurd (omega arith)
  count_if-update (suc n) h = elim (Bool-cases (p == n)) [
    | inl e ↦
        let same : p ≡ n = ground arith in
        rw (sym same, count_if-update_out p (omega arith), update_self f p v) (omega arith)
    | inr e ↦
        let other : p ≢ n = ground arith in
        rw (update_ne f p n v other) (omega (arith, count_if-update n (omega arith)))
  ]

module _ (test : Process → Bool) (f : ℕ → Process) (n p : ℕ) (v : Process) (h : p < max_procs)
    (count : n ≡ count_if test f max_procs) where
  -- The count when the process in the slot keeps or changes whether it passes the test.
  pub kept : test (f p) ≡ test v → n ≡ count_if test (update f p v) max_procs
  kept e = omega (arith, ap bit e, count_if-update test f p v max_procs h, count)

  pub raised :
      test (f p) ≡ false → test v ≡ true → add_u32 n 1 ≡ count_if test (update f p v) max_procs
  raised e e1 = omega (
    arith,
    ap bit e,
    ap bit e1,
    count_if-update test f p v max_procs h,
    count_if-bound test (update f p v) max_procs,
    count,
  )

  pub lowered :
      test (f p) ≡ true → test v ≡ false → dec_u32 n ≡ count_if test (update f p v) max_procs
  lowered e e1 = omega (
    arith,
    ap bit e,
    ap bit e1,
    count_if-update test f p v max_procs h,
    count_if-bound test f max_procs,
    count,
  )

pub update_twice :
    (f : ℕ → Process) (p : ℕ) (v w : Process) → update (update f p v) p w ≡ update f p w
update_twice f p v w = fun_ext (λ i. ground arith)
