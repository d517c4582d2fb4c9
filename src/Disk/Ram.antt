-- ===== src/Disk/Ram.antt =====
-- grass/block/ramdisk.c: a block store in memory. The memory from `blocks` on is a function of the
-- index, since `setsize` may raise the bound beyond the array that `init` was given.
pub mod Refines
use operating_system_practic.Base.{
  ℕ, ltb, Option, none, some, ℤ, success, failure, to_int, update, if◌then◌else◌,
}
use operating_system_practic.Run.{Cmd, ok}
use operating_system_practic.Store.{Block, BlockStore}

-- `struct ramdisk_state` (its `fd` is never used)
pub record RamState : Type 0 where
  pub blocks : ℕ → Block
  pub nblocks : ℕ

pub ramdisk_nblocks : Cmd RamState ℤ
ramdisk_nblocks rs = ok (to_int rs.nblocks) rs

pub ramdisk_setsize : ℕ → Cmd RamState ℤ
ramdisk_setsize n rs = ok (to_int rs.nblocks) (record rs { nblocks = n })

pub ramdisk_read : ℕ → Block → Cmd RamState (ℤ × Block)
ramdisk_read offset block rs =
    if ltb offset rs.nblocks then ok (success, rs.blocks offset) rs else ok (failure, block) rs

pub ramdisk_write : ℕ → Block → Cmd RamState ℤ
ramdisk_write offset block rs =
    if ltb offset rs.nblocks
    then ok success (record rs { blocks = update rs.blocks offset block })
    else ok failure rs

-- `ramdisk_init`: the interface, and the state that it starts from
unfoldable pub ramdisk : BlockStore RamState
unfolding ramdisk_nblocks ramdisk_setsize ramdisk_read ramdisk_write
ramdisk = record {
  nblocks = ramdisk_nblocks;
  read = ramdisk_read;
  write = ramdisk_write;
  setsize = ramdisk_setsize;
}

abbrev pub ramdisk_init : (ℕ → Block) → ℕ → RamState
ramdisk_init blocks nblocks = record { blocks = blocks; nblocks = nblocks }

-- The array that the store shows: the blocks below its size.
abbrev pub ram_view : RamState → ℕ → Option Block
ram_view rs o = if ltb o rs.nblocks then some (rs.blocks o) else none
