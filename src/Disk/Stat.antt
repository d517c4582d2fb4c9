-- ===== src/Disk/Stat.antt =====
-- grass/block/statdisk.c: forwards its calls to the store below and counts them.
pub mod Refines
pub mod Counts
mod Tests
use operating_system_practic.Base.{ℕ, ℤ, add_u32}
use operating_system_practic.Run.{Cmd, ok, and_then}
use operating_system_practic.Store.{Block, BlockStore}

-- `struct statdisk_state`; the counters are `unsigned int`
pub record StatState (S : Type 0) : Type 0 where
  pub below : S
  pub nnblocks : ℕ
  pub nsetsize : ℕ
  pub nread : ℕ
  pub nwrite : ℕ

module _ {S : Type 0} (below : BlockStore S) where
  pub statdisk_nblocks : Cmd (StatState S) ℤ
  statdisk_nblocks sds =
      and_then (below.nblocks sds.below)
        (λ r s. ok r (record sds { below = s; nnblocks = add_u32 sds.nnblocks 1 }))

  pub statdisk_setsize : ℕ → Cmd (StatState S) ℤ
  statdisk_setsize n sds =
      and_then (below.setsize n sds.below)
        (λ r s. ok r (record sds { below = s; nsetsize = add_u32 sds.nsetsize 1 }))

  pub statdisk_read : ℕ → Block → Cmd (StatState S) (ℤ × Block)
  statdisk_read offset block sds =
      and_then (below.read offset block sds.below)
        (λ r s. ok r (record sds { below = s; nread = add_u32 sds.nread 1 }))

  pub statdisk_write : ℕ → Block → Cmd (StatState S) ℤ
  statdisk_write offset block sds =
      and_then (below.write offset block sds.below)
        (λ r s. ok r (record sds { below = s; nwrite = add_u32 sds.nwrite 1 }))

  -- `statdisk_init`: the interface, and the state that it starts from
  unfoldable pub statdisk : BlockStore (StatState S)
  unfolding statdisk_nblocks statdisk_setsize statdisk_read statdisk_write
  statdisk = record {
    nblocks = statdisk_nblocks;
    read = statdisk_read;
    write = statdisk_write;
    setsize = statdisk_setsize;
  }

abbrev pub statdisk_init : {S : Type 0} → S → StatState S
statdisk_init below = record { below = below; nnblocks = 0; nsetsize = 0; nread = 0; nwrite = 0 }
