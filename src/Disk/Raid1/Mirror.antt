-- ===== src/Disk/Raid1/Mirror.antt =====
-- The working stores of grass/block/raid1disk.c all hold the same array.
use operating_system_practic.Base.{
  ℕ, zero, suc, ◌+◌, ◌<◌, ◌≤◌, ◌≡◌, ◌⊎◌, refl, ◌∙◌, Bool-cases, true, false, ◌==◌, inl, inr, ℤ,
  success, failure, Option, some, update, u32_mod, arith,
}
use operating_system_practic.Run
use operating_system_practic.Run.{Returns, returns}
use operating_system_practic.Store.{Block, BlockStore, IsStore, Stored, Fetched}
use operating_system_practic.Disk.Raid1.{
  Raid1State, answered, read_loop, raid1disk_read, write_loop, raid1disk_write,
}

-- Store `w` is a working one.
pub record IsWorking {S : Type 0} (rds : Raid1State S) (w : ℕ) : Type 0 where
  pub in_range : w < rds.nbelow
  pub working : rds.broken w ≡ false

module _ {S : Type 0} (Valid : ℕ → S → Type 0) (view : ℕ → S → ℕ → Option Block) where
  -- Store `j` shows the array `f`.
  pub record Shows (f : ℕ → Option Block) (j : ℕ) (s : S) : Type 0 where
    pub valid : Valid j s
    pub same : (q : ℕ) → view j s q ≡ f q

  -- Each working store shows the array.
  abbrev pub Mirrors : (ℕ → Option Block) → Raid1State S → Type 0
  Mirrors f rds = (j : ℕ) → j < rds.nbelow → rds.broken j ≡ false → Shows f j (rds.below j)

  pub record ReadMirror (f : ℕ → Option Block) (o : ℕ) (rds : Raid1State S) (rc : ℤ × Block)
      (t : Raid1State S) : Type 0 where
    pub mirrors : Mirrors f t
    pub broken : t.broken ≡ rds.broken
    pub fetched : Fetched (f o) rc

  pub record WriteMirror (g : ℕ → Option Block) (rds : Raid1State S) (r : ℤ) (t : Raid1State S)
      : Type 0 where
    pub succeeded : r ≡ success
    pub mirrors : Mirrors g t
    pub broken : (j : ℕ) → t.broken j ≡ rds.broken j
    pub nbelow : t.nbelow ≡ rds.nbelow

module _ {S : Type 0} {below : ℕ → BlockStore S} {Valid : ℕ → S → Type 0}
    {view : ℕ → S → ℕ → Option Block} (store : (i : ℕ) → IsStore (below i) (Valid i) (view i))
    (f : ℕ → Option Block) (o : ℕ) (lt : o < u32_mod) where
  -- With a read that changes no block the stores stay mirrors.
  Mirrors-update :
      (rds : Raid1State S) (i : ℕ) (s : S)
      → Mirrors Valid view f rds
      → Shows Valid view f i s
      → Mirrors Valid view f (record rds { below = update rds.below i s })
  Mirrors-update rds i s m w j h e = elim (Bool-cases (i == j)) [
    | inl t ↦ let same : i ≡ j = ground arith in rw (t, ← same) w
    | inr t ↦ rw t (m j h e)
  ]

  -- The first working store answers for the array.
  read_loop-Mirrors :
      (k i w : ℕ) (b : Block) (rds : Raid1State S)
      → Mirrors Valid view f rds
      → i + k ≡ rds.nbelow
      → i ≤ w
      → IsWorking rds w
      → (c : Block) → f o ≡ some c
      → Returns (ReadMirror Valid view f o rds) (read_loop below o k i b rds)
  unfolding read_loop
  read_loop-Mirrors zero i w b rds m e le work c has = absurd (omega arith)
  read_loop-Mirrors (suc k) i w b rds m e le work c has = elim (Bool-cases (rds.broken i)) [
    | inl t ↦
        rw (t, read_loop)
          (read_loop-Mirrors k (i + 1) w b rds m (omega arith) (ground arith) work c has)
    | inr t ↦
        let here = m i (omega arith) t in
        rw (t, read_loop)
          (Run.bind ((store i).read_lem (rds.below i) o b lt here.valid) λ rc s p.
            let answer : Fetched (some c) rc = rw (here.same o, has) at p.fetched in
            rw answer.0 (
              returns (record {
                mirrors =
                    Mirrors-update rds i s m
                      (record { valid = p.keeps.valid; same = λ q. p.keeps.same q ∙ here.same q });
                broken = refl;
                fetched = rw has (refl, answer.1);
              })))
  ]

  -- Where every working store shows the same array and one store works, a read of a block of the
  -- array gives that block, and the stores stay mirrors.
  pub raid1disk_read-Mirrors :
      (w : ℕ) (b c : Block) (rds : Raid1State S)
      → Mirrors Valid view f rds
      → IsWorking rds w
      → f o ≡ some c
      → Returns (ReadMirror Valid view f o rds) (raid1disk_read below o b rds)
  unfolding raid1disk_read
  raid1disk_read-Mirrors w b c rds m work has =
      read_loop-Mirrors rds.nbelow 0 w b rds m (omega arith) (omega arith) work c has

  module _ (b c : Block) (has : f o ≡ some c) where
    -- The array after the write.
    abbrev pub written : ℕ → Option Block
    written = update f o (some b)

    -- The stores before `i` have been written.
    record Written (i : ℕ) (rds : Raid1State S) : Type 0 where
      done : (j : ℕ) → j < i → rds.broken j ≡ false → Shows Valid view written j (rds.below j)
      todo :
          (j : ℕ)
          → i ≤ j
          → j < rds.nbelow
          → rds.broken j ≡ false
          → Shows Valid view f j (rds.below j)

    Written-answered :
        (i : ℕ) (s : S) (rds : Raid1State S)
        → Written i rds
        → Shows Valid view written i s
        → Written (i + 1) (answered rds i false s)
    Written-answered i s rds m w = record {
      done = λ j h e. elim (Bool-cases (i == j)) [
        | inl t ↦ let same : i ≡ j = ground arith in rw (t, ← same) w
        | inr t ↦ rw t (m.done j (ground arith) (ground arith))
      ];
      todo = λ j h n e.
          let t : (i == j) ≡ false = ground arith in rw t (m.todo j (omega arith) n (ground arith));
    }

    Written-broken :
        (i : ℕ) (rds : Raid1State S) → rds.broken i ≡ true → Written i rds → Written (i + 1) rds
    Written-broken i rds t m = record {
      done = λ j h e. m.done j (ground arith) e;
      todo = λ j h n e. m.todo j (omega arith) n e;
    }

    later :
        (i w : ℕ) (rds : Raid1State S) → rds.broken i ≡ true → i ≤ w → IsWorking rds w → i + 1 ≤ w
    later i w rds t le work = ground arith

    write_loop-Mirrors :
        (k i : ℕ) (result : ℤ) (rds : Raid1State S)
        → i + k ≡ rds.nbelow
        → Written i rds
        → (result ≡ success) ⊎ ((w : ℕ) × (i ≤ w) × IsWorking rds w)
        → Returns (WriteMirror Valid view written rds) (write_loop below o b k i result rds)
    unfolding write_loop
    write_loop-Mirrors zero i result rds e m h = returns (record {
      succeeded = ground (arith, beyond);
      mirrors = λ j lt w. m.done j (omega arith) w;
      broken = λ j. refl;
      nbelow = refl;
    })
      where
        beyond : (w : ℕ) → i ≤ w → IsWorking rds w → ⊥
        beyond w le work = absurd (omega arith)
    write_loop-Mirrors (suc k) i result rds e m h = elim (Bool-cases (rds.broken i)) [
      | inl t ↦
          rw (t, write_loop)
            (write_loop-Mirrors k (i + 1) result rds (omega arith) (Written-broken i rds t m)
              (elim h [
                | inl d ↦ inl d
                | inr (w, le, work) ↦ inr (w, later i w rds t le work, work)
              ]))
      | inr t ↦
          let here = m.todo i (omega arith) (omega arith) t in
          rw (t, write_loop)
            (Run.bind ((store i).write_lem (rds.below i) o b lt here.valid) λ r s p.
              let answer : Stored (some c) (view i (rds.below i)) (view i s) o b r =
                rw (here.same o, has) at p.stored in
              let shows : Shows Valid view written i s = record {
                valid = p.valid;
                same = λ q. ground (arith, answer.1 q, here.same q);
              } in
              rw answer.0 (
                Run.mono
                  (write_loop-Mirrors k (i + 1) success (answered rds i false s) (omega arith)
                    (Written-answered i s rds m shows) (inl refl))
                  λ r' u q. record {
                    succeeded = q.succeeded;
                    mirrors = q.mirrors;
                    broken = λ j. ground (arith, q.broken j);
                    nbelow = q.nbelow;
                  }))
    ]

    -- Where every working store shows the same array and one store works, a write of a block of
    -- the array succeeds, reaches every working store, and marks none as broken.
    pub raid1disk_write-Mirrors :
        (w : ℕ) (rds : Raid1State S)
        → Mirrors Valid view f rds
        → IsWorking rds w
        → Returns (WriteMirror Valid view written rds) (raid1disk_write below o b rds)
    unfolding raid1disk_write
    raid1disk_write-Mirrors w rds m work =
        write_loop-Mirrors rds.nbelow 0 failure rds (omega arith)
          (record { done = λ j h e. absurd (omega arith); todo = λ j h n e. m j n e })
          (inr (w, omega arith, work))
