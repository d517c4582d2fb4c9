-- ===== src/Disk/Raid1.antt =====
-- grass/block/raid1disk.c: every block is written to all stores that still work.
-- The array `below` is a function of the index: the states in the record, the interfaces (over
-- one type of states) as the section's parameter.
pub mod Mirror
pub mod OutOfRange
mod Tests
use operating_system_practic.Base.{
  ℕ, zero, suc, ◌+◌, Bool, true, false, ℤ, is_neg, success, failure, update, if◌then◌else◌,
}
use operating_system_practic.Run.{Cmd, ok, and_then}
use operating_system_practic.Store.{Block, BlockStore}

-- `struct raid1disk_state`; `calloc` makes every store a working one.
pub record Raid1State (S : Type 0) : Type 0 where
  pub below : ℕ → S
  pub nbelow : ℕ
  pub broken : ℕ → Bool

abbrev pub raid1disk_init : {S : Type 0} → (ℕ → S) → ℕ → Raid1State S
raid1disk_init below nbelow = record { below = below; nbelow = nbelow; broken = λ i. false }

module _ {S : Type 0} where
  -- Store `i` has answered: its new state, and the mark that a failure leaves.
  abbrev pub answered : Raid1State S → ℕ → Bool → S → Raid1State S
  answered rds i failed s = record rds {
    below = update rds.below i s;
    broken = update rds.broken i (if failed then true else rds.broken i);
  }

module _ {S : Type 0} (below : ℕ → BlockStore S) where
  -- The loops have `k` rounds to go and are at store `i`.
  -- `raid1disk_nblocks` asks store 0, whichever store `i` it is at.
  pub nblocks_loop : (k i : ℕ) → Cmd (Raid1State S) ℤ
  nblocks_loop zero i rds = ok failure rds
  nblocks_loop (suc k) i rds = elim (rds.broken i) [
    | true ↦ nblocks_loop k (i + 1) rds
    | false ↦ and_then ((below 0).nblocks (rds.below 0)) λ r s.
        let rds' = record rds { below = update rds.below 0 s } in
        elim (is_neg r) [
          | true ↦ nblocks_loop k (i + 1) (record rds' { broken = update rds'.broken i true })
          | false ↦ ok r rds'
        ]
  ]

  pub raid1disk_nblocks : Cmd (Raid1State S) ℤ
  unfolding nblocks_loop
  raid1disk_nblocks rds = nblocks_loop rds.nbelow 0 rds

  pub setsize_loop : (n k i : ℕ) → ℤ → Cmd (Raid1State S) ℤ
  setsize_loop n zero i oldsize rds = ok oldsize rds
  setsize_loop n (suc k) i oldsize rds = and_then ((below i).setsize n (rds.below i)) λ r s.
      setsize_loop n k (i + 1) (if is_neg r then oldsize else r) (answered rds i (is_neg r) s)

  pub raid1disk_setsize : ℕ → Cmd (Raid1State S) ℤ
  unfolding setsize_loop
  raid1disk_setsize n rds = setsize_loop n rds.nbelow 0 failure rds

  pub read_loop : ℕ → (k i : ℕ) → Block → Cmd (Raid1State S) (ℤ × Block)
  read_loop offset zero i block rds = ok (failure, block) rds
  read_loop offset (suc k) i block rds = elim (rds.broken i) [
    | true ↦ read_loop offset k (i + 1) block rds
    | false ↦ and_then ((below i).read offset block (rds.below i)) λ (r, got) s.
        let rds' = record rds { below = update rds.below i s } in
        elim (is_neg r) [
          | true ↦ read_loop offset k (i + 1) got rds'
          | false ↦ ok (success, got) rds'
        ]
  ]

  pub raid1disk_read : ℕ → Block → Cmd (Raid1State S) (ℤ × Block)
  unfolding read_loop
  raid1disk_read offset block rds = read_loop offset rds.nbelow 0 block rds

  pub write_loop : ℕ → Block → (k i : ℕ) → ℤ → Cmd (Raid1State S) ℤ
  write_loop offset block zero i result rds = ok result rds
  write_loop offset block (suc k) i result rds = elim (rds.broken i) [
    | true ↦ write_loop offset block k (i + 1) result rds
    | false ↦ and_then ((below i).write offset block (rds.below i)) λ r s.
        write_loop offset block k (i + 1) (if is_neg r then result else success)
          (answered rds i (is_neg r) s)
  ]

  pub raid1disk_write : ℕ → Block → Cmd (Raid1State S) ℤ
  unfolding write_loop
  raid1disk_write offset block rds = write_loop offset block rds.nbelow 0 failure rds
