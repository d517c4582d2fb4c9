-- ===== src/Process/Search.antt =====
-- grass/process.c: the search of the scheduler takes the first runnable process of the highest level
-- that has one, and the quantum of a process stays within that of its level.
use operating_system_practic.Base.{
  ℕ, zero, suc, ◌+◌, ◌<◌, ◌≤◌, ◌≡◌, ◌≢◌, refl, sym, ap, ◌∙◌, true, false, ◌||◌, if◌then◌else◌, inl,
  inr, update, arith, Bool-cases, List, [], ◌∷◌, ◌++◌, Option, none, some,
}
use mathlib.Core.Path.{subst}
use operating_system_practic.Run.{Returns, returns, ok, bind, mono}
use operating_system_practic.Process.{is_runnable, is_zombie, Process, Kernel, modify, dec_u32}
use operating_system_practic.Process.Life.{release, proc_release}
use operating_system_practic.Process.Schedule.{pick_level, pick}
use operating_system_practic.Process.Count.{update_ne}

-- The specification of the search.
unfoldable pub first_runnable : (ℕ → Process) → List ℕ → Option ℕ
first_runnable procs [] = none
first_runnable procs (p ∷ ps) =
    let rest = first_runnable procs ps in if is_runnable (procs p).state then some p else rest

unfoldable pub Absent : ℕ → List ℕ → Type 0
Absent p [] = Unit
Absent p (q ∷ qs) = (p ≢ q) × Absent p qs

-- What is queued is runnable or dead, and is queued once.
unfoldable pub Ready : (ℕ → Process) → List ℕ → Type 0
unfolding Absent
Ready procs [] = Unit
Ready procs (p ∷ ps) =
    ((is_runnable (procs p).state || is_zombie (procs p).state) ≡ true)
    × Absent p ps
    × Ready procs ps

-- The queues of `n` levels, from `level` on.
abbrev pub levels : (ℕ → List ℕ) → (n level : ℕ) → List ℕ
levels q zero level = []
levels q (suc n) level = q level ++ levels q n (level + 1)

module _ (procs : ℕ → Process) (p : ℕ) (v : Process) where
  first_runnable-update :
      (ps : List ℕ) → Absent p ps → first_runnable (update procs p v) ps ≡ first_runnable procs ps
  unfolding first_runnable Absent
  first_runnable-update [] a = refl
  first_runnable-update (q ∷ qs) (ne, a) =
      rw (update_ne procs p q v ne, first_runnable-update qs a) refl

  Ready-update : (ps : List ℕ) → Absent p ps → Ready procs ps → Ready (update procs p v) ps
  unfolding Ready Absent
  Ready-update [] a r = tt
  Ready-update (q ∷ qs) (ne, a) (live, once, r) =
      (rw (update_ne procs p q v ne) live, once, Ready-update qs a r)

-- What the search of one level leaves for the others: nothing, or the same search on `rest`.
abbrev pub Left : Kernel → List ℕ → (level : ℕ) → List ℕ → Option ℕ → Kernel → Type 0
Left k all level rest (some p) k1 = first_runnable k.proc_set all ≡ some p
Left k all level rest none k1 =
    (first_runnable k.proc_set all ≡ first_runnable k1.proc_set rest)
    × Ready k1.proc_set rest
    × ((j : ℕ) → level < j → k1.run_queue j ≡ k.run_queue j)

update_other : (q : ℕ → List ℕ) (i : ℕ) (ps : List ℕ) (j : ℕ) → i ≢ j → update q i ps j ≡ q j
update_other q i ps j h = ground arith

-- Skipping a dead process does not change what the search finds.
Left-skip :
    (k k1 : Kernel) (p : ℕ) (ps : List ℕ) (level : ℕ) (rest : List ℕ) (r : Option ℕ) (k2 : Kernel)
    → is_runnable (k.proc_set p).state ≡ false
    → first_runnable k1.proc_set ps ≡ first_runnable k.proc_set ps
    → ((j : ℕ) → level < j → k1.run_queue j ≡ k.run_queue j)
    → Left k1 ps level rest r k2
    → Left k (p ∷ ps) level rest r k2
unfolding first_runnable
Left-skip k k1 p ps level rest none k2 e same queues (l, ready, kept) =
    (rw (e) (sym same ∙ l), ready, λ j lt. kept j lt ∙ queues j lt)
Left-skip k k1 p ps level rest (some q) k2 e same queues l = rw (e) (sym same ∙ l)

zombie-release :
    (k : Kernel) (p : ℕ)
    → (is_runnable (k.proc_set p).state || is_zombie (k.proc_set p).state) ≡ true
    → is_runnable (k.proc_set p).state ≡ false
    → is_zombie (k.proc_set p).state ≡ true
zombie-release k p live r = ground arith

pick_level-Left :
    (k : Kernel) (level : ℕ) (ps rest : List ℕ)
    → Ready k.proc_set (ps ++ rest)
    → Returns (Left k (ps ++ rest) level rest) (pick_level level ps k)
unfolding pick_level first_runnable Ready proc_release
pick_level-Left k level [] rest ready =
    returns (refl, ready, λ j lt. update_other k.run_queue level [] j (omega arith))
pick_level-Left k level (p ∷ ps) rest (live, once, ready) =
    elim (Bool-cases (is_runnable (k.proc_set p).state)) [
      | inl e ↦ rw (e) (returns (rw (e) refl))
      | inr e ↦
          let v = release (k.proc_set p) in
          let k1 =
            record (modify p release (record k { run_queue = update k.run_queue level ps })) {
              proc_nprocs = dec_u32 k.proc_nprocs;
              proc_free = k.proc_free ++ p ∷ [];
            } in
          rw (e, zombie-release k p live e)
            (mono
              (pick_level-Left k1 level ps rest
                (Ready-update k.proc_set p v (ps ++ rest) once ready))
              (λ r k2 l.
                Left-skip k k1 p (ps ++ rest) level rest r k2 e
                  (first_runnable-update k.proc_set p v (ps ++ rest) once)
                  (λ j lt. update_other k.run_queue level ps j (omega arith)) l))
    ]

levels-same :
    (n level : ℕ) (q q1 : ℕ → List ℕ)
    → ((j : ℕ) → level ≤ j → q1 j ≡ q j)
    → levels q1 n level ≡ levels q n level
levels-same zero level q q1 same = refl
levels-same (suc n) level q q1 same =
    rw (same level (omega arith), levels-same n (level + 1) q q1 (λ j le. same j (omega arith)))
      refl

-- A search of the levels finds what the specification finds in their queues, one after the other.
abbrev pub Finds : (n level : ℕ) → Kernel → Type 0
Finds n level k =
    Returns (λ r k1. r ≡ first_runnable k.proc_set (levels k.run_queue n level)) (pick n level k)

pick-rest :
    (n level : ℕ) (k : Kernel) (all : List ℕ) (r : Option ℕ) (k1 : Kernel)
    → Left k all level (levels k.run_queue n (level + 1)) r k1
    → ((k2 : Kernel)
        → Ready k2.proc_set (levels k2.run_queue n (level + 1))
        → Finds n (level + 1) k2)
    → Returns
        (λ r1 k2. r1 ≡ first_runnable k.proc_set all)
        (elim r [ none ↦ pick n (level + 1) k1 | some p ↦ ok (some p) k1 ])
pick-rest n level k all none k1 (e, ready, same) next =
    let q = levels-same n (level + 1) k.run_queue k1.run_queue (λ j le. same j (omega arith)) in
    mono (next k1 (subst (Ready k1.proc_set) (sym q) ready))
      (λ r k2 found. found ∙ ap (first_runnable k1.proc_set) q ∙ sym e)
pick-rest n level k all (some p) k1 e next = returns (sym e)

-- Where every process on the queues of some levels is runnable or a zombie and is queued once,
-- the search of these levels returns, without a failed `assert`, the first runnable process of
-- their queues taken one after the other.
pub pick-Finds :
    (n level : ℕ) (k : Kernel) → Ready k.proc_set (levels k.run_queue n level) → Finds n level k
unfolding pick first_runnable
pick-Finds zero level k ready = returns refl
pick-Finds (suc n) level k ready =
    bind (pick_level-Left k level (k.run_queue level) (levels k.run_queue n (level + 1)) ready)
      (λ r k1 l.
        pick-rest n level k (levels k.run_queue (suc n) level) r k1 l (pick-Finds n (level + 1)))

-- What the specification finds is runnable.
pub first_runnable-runs :
    (procs : ℕ → Process) (ps : List ℕ) (p : ℕ)
    → first_runnable procs ps ≡ some p
    → is_runnable (procs p).state ≡ true
unfolding first_runnable
first_runnable-runs procs [] p e = ground arith
first_runnable-runs procs (q ∷ qs) p e = elim (Bool-cases (is_runnable (procs q).state)) [
  | inl r ↦ let same : q ≡ p = ground arith in rw (sym same) r
  | inr r ↦ first_runnable-runs procs qs p (ground arith)
]
