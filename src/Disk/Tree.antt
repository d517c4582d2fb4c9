-- ===== src/Disk/Tree.antt =====
-- grass/block/treedisk.h and treedisk.c: virtual block stores on a block store, each of them a tree
-- of blocks under an inode. A block is its 32-bit words, so `refs[i]` is word i, the superblock is
-- (n_inodeblocks, free_list) and inode j of a block is (root, nblocks) at the words 2 j and 2 j + 1.
-- A buffer that C leaves uninitialised before a read holds null bytes here.
pub mod Blocks
pub mod Read
pub mod Write
pub mod Size
pub mod Create
pub mod Shows
pub mod Labels
pub mod Lists
pub mod Takes
pub mod Nodes
pub mod Walks
pub mod Puts
pub mod Joins
pub mod Stores
pub mod Descents
pub mod Levels
pub mod Grows
pub mod Files
pub mod Places
pub mod Inodes
pub mod Writes
pub mod Updates
pub mod Fresh
pub mod Formats
pub mod Capacity
pub mod Missing
pub mod Frees
pub mod Gives
pub mod Counts
pub mod Clears
pub mod Empties
pub mod Tests
pub mod OneBlock
use operating_system_practic.Base.{
  ℕ, zero, suc, ◌+◌, ◌-◌, ◌*◌, ◌/◌, ◌%◌, ◌^◌, ltb, leb, ◌==◌, Bool, true, false, Option, none, some,
  List, get_or, set, replicate, ℤ, is_neg, success, failure, to_int, add_u32, if◌then◌else◌,
}
use operating_system_practic.Run.{Cmd, Run, ok, halt, and_then}
use operating_system_practic.Store.{Block, BlockStore}

-- BLOCK_SIZE is 1024 (earth/earth.h)
abbrev pub refs_per_block : ℕ
refs_per_block = 256

abbrev pub inodes_per_block : ℕ
inodes_per_block = 128

-- log2(REFS_PER_BLOCK), as `treedisk_init` computes it
abbrev pub log_rpb : ℕ
log_rpb = 8

abbrev pub null_block : Block
null_block = replicate refs_per_block 0

abbrev pub word : Block → ℕ → ℕ
word b i = get_or b i 0

-- `struct treedisk_snapshot`; `inode` is the index of the inode in its block
pub record Snapshot : Type 0 where
  pub superblock : Block
  pub inodeblock : Block
  pub inode_blockno : ℕ
  pub inode : ℕ

abbrev pub n_inodeblocks : Block → ℕ
n_inodeblocks b = word b 0

abbrev pub free_list : Block → ℕ
free_list b = word b 1

abbrev pub set_free_list : ℕ → Snapshot → Snapshot
set_free_list b sn = record sn { superblock = set sn.superblock 1 b }

abbrev pub root : Snapshot → ℕ
root sn = word sn.inodeblock (2 * sn.inode)

abbrev pub nblocks : Snapshot → ℕ
nblocks sn = word sn.inodeblock (2 * sn.inode + 1)

abbrev pub set_root : ℕ → Snapshot → Snapshot
set_root b sn = record sn { inodeblock = set sn.inodeblock (2 * sn.inode) b }

abbrev pub set_nblocks : ℕ → Snapshot → Snapshot
set_nblocks n sn = record sn { inodeblock = set sn.inodeblock (2 * sn.inode + 1) n }

-- `struct treedisk_state`, with the state of the store below in place of the pointer to it
pub record TreeState (S : Type 0) : Type 0 where
  pub below : S
  pub inode_no : ℕ

unfoldable pub log_shift_r : (x nbits : ℕ) → ℕ
log_shift_r x nbits = if leb 32 nbits then 0 else x / 2 ^ nbits

-- `log_shift_r(offset, nlevels * log_rpb) % REFS_PER_BLOCK`
unfoldable pub index : (offset nlevels : ℕ) → ℕ
index offset nlevels = log_shift_r offset (nlevels * log_rpb) % refs_per_block

-- `while (log_shift_r(x, n * log_rpb) != 0) n++`: it ends at 4 levels at the latest, where the shift
-- is by 32 bits.
unfoldable pub levels_from : (fuel n x : ℕ) → ℕ
levels_from zero n x = n
levels_from (suc fuel) n x =
    let rest = levels_from fuel (n + 1) x in if log_shift_r x (n * log_rpb) == 0 then n else rest

unfoldable pub levels_for : (last_block : ℕ) → ℕ
unfolding levels_from
levels_for last_block = levels_from 4 0 last_block

-- the levels of a file's tree
abbrev pub nlevels : (nblocks : ℕ) → ℕ
nlevels zero = 0
nlevels (suc n) = levels_for n

-- what follows a call that may not fail
abbrev pub or_panic : {S A : Type 0} → ℤ → Run S A → Run S A
or_panic r next = if is_neg r then halt else next

module _ {S : Type 0} (below : BlockStore S) where
  -- `treedisk_get_snapshot`; there is no snapshot where it returns -1
  unfoldable pub get_inode : (inode_no : ℕ) → Block → Cmd S (Option Snapshot)
  get_inode inode_no sb s =
      if leb (n_inodeblocks sb * inodes_per_block) inode_no
      then ok none s
      else and_then (below.read (1 + inode_no / inodes_per_block) null_block s) (λ (r, ib) t.
        if is_neg r
        then ok none t
        else ok
            (some (record {
              superblock = sb;
              inodeblock = ib;
              inode_blockno = 1 + inode_no / inodes_per_block;
              inode = inode_no % inodes_per_block;
            }))
            t)

  unfoldable pub treedisk_get_snapshot : (inode_no : ℕ) → Cmd S (Option Snapshot)
  treedisk_get_snapshot inode_no s =
      and_then (below.read 0 null_block s)
        (λ (r, sb) t. if is_neg r then ok none t else get_inode inode_no sb t)
