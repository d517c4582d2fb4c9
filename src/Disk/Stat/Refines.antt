-- ===== src/Disk/Stat/Refines.antt =====
-- The counting layer of grass/block/statdisk.c is transparent.
use operating_system_practic.Base.{ℕ, Option}
use operating_system_practic.Run
use operating_system_practic.Run.{returns}
use operating_system_practic.Store.{Block, BlockStore, IsStore, IsSized}
use operating_system_practic.Disk.Stat.{
  statdisk, statdisk_nblocks, statdisk_setsize, statdisk_read, statdisk_write,
}

-- Counting the calls leaves the contract of the store below as it is, with the same blocks shown.
pub statdisk-IsStore :
    {S : Type 0} {below : BlockStore S} {Valid : S → Type 0} {view : S → ℕ → Option Block}
    → IsStore below Valid view
    → IsStore (statdisk below) (λ sds. Valid sds.below) (λ sds. view sds.below)
unfolding statdisk statdisk_nblocks statdisk_setsize statdisk_read statdisk_write
statdisk-IsStore store = record {
  nblocks_lem = λ sds v. Run.bind (store.nblocks_lem sds.below v) λ r s p.
      returns (record {
        keeps = record { valid = p.keeps.valid; same = p.keeps.same };
        beyond = p.beyond;
      });
  read_lem = λ sds o b h v. Run.bind (store.read_lem sds.below o b h v) λ r s p. returns (record {
    keeps = record { valid = p.keeps.valid; same = p.keeps.same };
    fetched = p.fetched;
  });
  write_lem = λ sds o b h v.
      Run.bind (store.write_lem sds.below o b h v)
        λ r s p. returns (record { valid = p.valid; stored = p.stored });
  setsize_lem = λ sds n h v.
      Run.bind (store.setsize_lem sds.below n h v)
        λ r s p. returns (record { valid = p.valid; kept = p.kept });
}

-- A size query and a new size are answered by the store below.
pub statdisk-IsSized :
    {S : Type 0} {below : BlockStore S} {Valid : S → Type 0} {view : S → ℕ → Option Block}
    → IsSized below Valid view
    → IsSized (statdisk below) (λ sds. Valid sds.below) (λ sds. view sds.below)
unfolding statdisk statdisk_nblocks statdisk_setsize
statdisk-IsSized sized = record {
  counts_lem = λ s v. Run.bind (sized.counts_lem s.below v) λ r t p. returns p;
  resize_lem = λ s n h v. Run.bind (sized.resize_lem s.below n h v) λ r t p. returns p;
}
