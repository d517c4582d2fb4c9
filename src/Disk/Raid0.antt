-- ===== src/Disk/Raid0.antt =====
-- grass/block/raid0disk.c: block `offset` is block `offset / nbelow` of store `offset % nbelow`.
-- The array `below` is a function of the index: the states in the record, the interfaces (over
-- one type of states) as the section's parameter.
pub mod Stripes
mod Tests
use operating_system_practic.Base.{
  ℕ, zero, suc, ◌/◌, ◌%◌, ◌==◌, ℤ, pos, negsuc, failure, to_int, add_u32, update, if◌then◌else◌,
}
use operating_system_practic.Run.{Cmd, Run, ok, halt, and_then}
use operating_system_practic.Store.{Block, BlockStore}

-- `struct raid0disk_state`
pub record Raid0State (S : Type 0) : Type 0 where
  pub below : ℕ → S
  pub nbelow : ℕ

module _ {S : Type 0} (below : ℕ → BlockStore S) where
  -- The loop of `raid0disk_nblocks` with `k` rounds to go; it asks store 0 each time, as the code
  -- does. `total` is an `int`, kept as its bit pattern.
  pub nblocks_loop : (k total : ℕ) → Cmd (Raid0State S) ℤ
  nblocks_loop zero total rds = ok (to_int total) rds
  nblocks_loop (suc k) total rds = and_then ((below 0).nblocks (rds.below 0)) λ r s.
      let rds' = record rds { below = update rds.below 0 s } in
      elim r [ pos n ↦ nblocks_loop k (add_u32 total n) rds' | negsuc n ↦ ok (negsuc n) rds' ]

  pub raid0disk_nblocks : Cmd (Raid0State S) ℤ
  unfolding nblocks_loop
  raid0disk_nblocks rds = nblocks_loop rds.nbelow 0 rds

  pub raid0disk_setsize : ℕ → Cmd (Raid0State S) ℤ
  raid0disk_setsize n rds = ok failure rds

  -- `% nbelow` traps at an array of no stores.
  pub raid0disk_read : ℕ → Block → Cmd (Raid0State S) (ℤ × Block)
  raid0disk_read offset block rds =
      let i = offset % rds.nbelow in
      if rds.nbelow == 0
      then halt
      else and_then ((below i).read (offset / rds.nbelow) block (rds.below i))
          (λ r s. ok r (record rds { below = update rds.below i s }))

  pub raid0disk_write : ℕ → Block → Cmd (Raid0State S) ℤ
  raid0disk_write offset block rds =
      let i = offset % rds.nbelow in
      if rds.nbelow == 0
      then halt
      else and_then ((below i).write (offset / rds.nbelow) block (rds.below i))
          (λ r s. ok r (record rds { below = update rds.below i s }))
