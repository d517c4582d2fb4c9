-- ===== src/Disk/Ram/Refines.antt =====
-- The memory disk of grass/block/ramdisk.c meets the contract of a block store.
use operating_system_practic.Base.{ℕ, ◌≡◌, to_int, refl, Bool-cases, inl, inr, ltb, arith}
use operating_system_practic.Run.{Returns, returns}
use operating_system_practic.Store.{Block, IsStore, IsSized, Counts, Reads, Writes}
use operating_system_practic.Disk.Ram.{
  RamState, ramdisk, ramdisk_nblocks, ramdisk_setsize, ramdisk_read, ramdisk_write, ram_view,
}

abbrev pub AnyState : RamState → Type 0
AnyState rs = Unit {0}

module _ (rs : RamState) (o : ℕ) (b : Block) where
  read-Reads : Returns (Reads AnyState ram_view rs o) (ramdisk_read o b rs)
  unfolding ramdisk_read
  read-Reads = elim (Bool-cases (ltb o rs.nblocks)) [
    | inl e ↦ rw e (
        returns
          (record { keeps = record { valid = tt; same = λ j. refl }; fetched = rw e (refl, refl) }))
    | inr e ↦
        rw e (
          returns (record { keeps = record { valid = tt; same = λ j. refl }; fetched = rw e refl }))
  ]

  write-Writes : Returns (Writes AnyState ram_view rs o b) (ramdisk_write o b rs)
  unfolding ramdisk_write
  write-Writes = elim (Bool-cases (ltb o rs.nblocks)) [
    | inl e ↦ rw e (returns (record { valid = tt; stored = rw e (refl, λ j. ground arith) }))
    | inr e ↦ rw e (returns (record { valid = tt; stored = rw e (refl, λ j. refl) }))
  ]

pub ramdisk_nblocks_lem :
    (P : RamState → Type 0) (rs : RamState)
    → P rs
    → Returns (λ r t. (r ≡ to_int rs.nblocks) × P t) (ramdisk.nblocks rs)
unfolding ramdisk ramdisk_nblocks
ramdisk_nblocks_lem P rs p = returns (refl, p)

-- The memory disk is a block store on every state: it shows the blocks below its size.
pub ramdisk-IsStore : IsStore ramdisk AnyState ram_view
unfolding ramdisk ramdisk_nblocks ramdisk_setsize
ramdisk-IsStore = record {
  nblocks_lem = λ s v. returns (record {
    keeps = record { valid = tt; same = λ j. refl };
    beyond = λ n o e h. ground arith;
  });
  read_lem = λ s o b h v. read-Reads s o b;
  write_lem = λ s o b h v. write-Writes s o b;
  setsize_lem = λ s n h v. returns (record { valid = tt; kept = λ j c l e. ground arith });
}

ram_view-Counts : (s : RamState) → Counts (ram_view s) (to_int s.nblocks)
ram_view-Counts s = (s.nblocks, refl, (λ o h e. ground arith), λ o h. ground arith)

-- It answers a size query with the number of its blocks, and a new size with the old one.
pub ramdisk-IsSized : IsSized ramdisk AnyState ram_view
unfolding ramdisk ramdisk_nblocks ramdisk_setsize
ramdisk-IsSized = record {
  counts_lem = λ s v. returns (ram_view-Counts s);
  resize_lem = λ s n h v. returns (ram_view-Counts s, λ j le. ground arith);
}
