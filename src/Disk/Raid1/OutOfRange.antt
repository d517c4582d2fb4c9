-- ===== src/Disk/Raid1/OutOfRange.antt =====
-- grass/block/raid1disk.c marks a store as broken when it refuses a write, also where the store
-- works and the offset lies beyond its end.
use operating_system_practic.Base.{
  ℕ, zero, suc, ◌+◌, ◌<◌, ◌≤◌, ◌≡◌, refl, Bool-cases, true, false, ◌==◌, inl, inr, ℤ, failure,
  Option, none, u32_mod, arith,
}
use operating_system_practic.Run
use operating_system_practic.Run.{Returns, returns, ok}
use operating_system_practic.Store.{Block, BlockStore, IsStore, Stored}
use operating_system_practic.Disk.Raid1.{
  Raid1State, answered, read_loop, raid1disk_read, write_loop, raid1disk_write,
}
use operating_system_practic.Disk.Raid1.Mirror.{Mirrors, Shows}

module _ {S : Type 0} (below : ℕ → BlockStore S) where
  -- With every store marked the read loop fails at once.
  read_loop-broken :
      (o k i : ℕ) (b : Block) (rds : Raid1State S)
      → ((j : ℕ) → i ≤ j → j < i + k → rds.broken j ≡ true)
      → read_loop below o k i b rds ≡ ok (failure, b) rds
  unfolding read_loop
  read_loop-broken o zero i b rds h = refl
  read_loop-broken o (suc k) i b rds h =
      rw (h i (omega arith) (omega arith), read_loop)
        (read_loop-broken o k (i + 1) b rds λ j lo hi. h j (omega arith) (omega arith))

-- Every store is marked as broken.
pub record AllBroken {S : Type 0} (r : ℤ) (rds t : Raid1State S) : Type 0 where
  pub failed : r ≡ failure
  pub broken : (j : ℕ) → j < t.nbelow → t.broken j ≡ true

module _ {S : Type 0} {below : ℕ → BlockStore S} {Valid : ℕ → S → Type 0}
    {view : ℕ → S → ℕ → Option Block} (store : (i : ℕ) → IsStore (below i) (Valid i) (view i))
    (f : ℕ → Option Block) (o : ℕ) (lt : o < u32_mod) (b : Block) (beyond : f o ≡ none) where
  write_loop-AllBroken :
      (k i : ℕ) (rds : Raid1State S)
      → i + k ≡ rds.nbelow
      → ((j : ℕ) → j < i → rds.broken j ≡ true)
      → ((j : ℕ)
          → i ≤ j
          → j < rds.nbelow
          → rds.broken j ≡ false
          → Shows Valid view f j (rds.below j))
      → Returns (λ r t. AllBroken r rds t) (write_loop below o b k i failure rds)
  unfolding write_loop
  write_loop-AllBroken zero i rds e past todo =
      returns (record { failed = refl; broken = λ j h. past j (omega arith) })
  write_loop-AllBroken (suc k) i rds e past todo = elim (Bool-cases (rds.broken i)) [
    | inl t ↦
        rw (t, write_loop)
          (write_loop-AllBroken k (i + 1) rds (omega arith) (λ j h. ground (arith, past j))
            (λ j h n w. todo j (omega arith) n w))
    | inr t ↦
        let here = todo i (omega arith) (omega arith) t in
        rw (t, write_loop)
          (Run.bind ((store i).write_lem (rds.below i) o b lt here.valid) λ r s p.
            let answer : Stored none (view i (rds.below i)) (view i s) o b r =
              rw (here.same o, beyond) at p.stored in
            rw answer.0 (
              Run.mono
                (write_loop-AllBroken k (i + 1) (answered rds i true s) (omega arith)
                  (λ j h. ground (arith, past j))
                  λ j lo hi w.
                    let t' : (i == j) ≡ false = ground arith in
                    rw t' (todo j (omega arith) hi (ground arith)))
                λ r' u q. record { failed = q.failed; broken = q.broken }))
  ]

  -- Where every working store shows the same array, a write at a number that the array lacks
  -- fails and leaves no store working: every read that follows fails, and leaves the state as it
  -- is.
  pub raid1disk_write-beyond :
      (rds : Raid1State S)
      → Mirrors Valid view f rds
      → Returns
          (λ r t.
            (r ≡ failure) × ((q : ℕ) (c : Block) → raid1disk_read below q c t ≡ ok (failure, c) t))
          (raid1disk_write below o b rds)
  unfolding raid1disk_write raid1disk_read
  raid1disk_write-beyond rds m =
      Run.mono
        (write_loop-AllBroken rds.nbelow 0 rds (omega arith) (λ j h. absurd (omega arith))
          (λ j h n e. m j n e))
        λ r t p. (
          p.failed,
          λ q c. read_loop-broken below q t.nbelow 0 c t λ j lo hi. p.broken j (omega arith),
        )
