-- ===== src/Disk/Tree/Write.antt =====
-- grass/block/treedisk.c: writing a block of a file. `*parent_no` is the word `i` of the block
-- `parent_block`, which belongs at `parent_off`.
use operating_system_practic.Base.{
  ℕ, zero, suc, ◌-◌, ◌*◌, ◌==◌, ltb, Bool, true, false, ◌||◌, Option, none, some, if◌then◌else◌,
  set, ℤ, success, failure, add_u32,
}
use operating_system_practic.Run.{Cmd, ok, and_then}
use operating_system_practic.Store.{Block, BlockStore}
use operating_system_practic.Disk.Tree.{
  null_block, word, Snapshot, root, nblocks, set_root, set_nblocks, TreeState, index, levels_for,
  nlevels, treedisk_get_snapshot, or_panic,
}
use operating_system_practic.Disk.Tree.Blocks.{treedisk_alloc_block}

module _ {S : Type 0} (below : BlockStore S) where
  unfoldable pub store_block : ℕ → Block → Cmd S ℤ
  store_block b block s = and_then (below.write b block s) (λ r t. or_panic r (ok success t))

  -- `*parent_no` when it is not 0, else a new block, which goes there.
  unfoldable pub get_child :
      (parent_block : Block) (i parent_off : ℕ) → Snapshot → Cmd S (ℕ × Snapshot)
  get_child parent_block i parent_off sn s =
      if word parent_block i == 0
      then and_then (treedisk_alloc_block below sn s) (λ (b, sn') t.
        and_then (below.write parent_off (set parent_block i b) t)
          (λ r u. or_panic r (ok (b, sn') u)))
      else ok (word parent_block i, sn) s

  -- The words of the block `b`: those on disk, or null bytes when it is new.
  unfoldable pub get_refs : (is_new : Bool) (b : ℕ) → Cmd S Block
  get_refs true b s = ok null_block s
  get_refs false b s = and_then (below.read b null_block s) (λ (r, tib) t. or_panic r (ok tib t))

  -- The loop that walks down `n` levels, and the write of the data.
  unfoldable pub write_down :
      (n offset : ℕ) → Block → (parent_block : Block) (i parent_off : ℕ) → Snapshot → Cmd S ℤ
  write_down zero offset block parent_block i parent_off sn s =
      and_then (get_child parent_block i parent_off sn s) (λ (b, sn') t. store_block b block t)
  write_down (suc n) offset block parent_block i parent_off sn s =
      and_then (get_child parent_block i parent_off sn s) (λ (b, sn') t.
        and_then (get_refs (word parent_block i == 0) b t)
          (λ tib u. write_down n offset block tib (index offset n) b sn' u))

  -- The loop that inserts `k` indirect blocks above the root.
  unfoldable pub grow : (k : ℕ) → Snapshot → Cmd S Snapshot
  grow zero sn s = ok sn s
  grow (suc k) sn s = and_then (treedisk_alloc_block below sn s) (λ (indir, sn') t.
      and_then (below.write indir (set null_block 0 (root sn')) t)
        (λ r u. or_panic r (grow k (set_root indir sn') u)))

  -- `if (dirty_inode)`
  unfoldable pub write_inode : (dirty : Bool) → Snapshot → Cmd S (Unit {0})
  write_inode false sn s = ok tt s
  write_inode true sn s =
      and_then (below.write sn.inode_blockno sn.inodeblock s) (λ r t. or_panic r (ok tt t))

  -- The file has `from` levels and needs `to`, which are more only if it grows.
  unfoldable pub write_levels : (from to offset : ℕ) → Block → (dirty : Bool) → Snapshot → Cmd S ℤ
  unfolding grow write_down
  write_levels from to offset block dirty sn s =
      and_then (grow (if nblocks sn == 0 then 0 else to - from) sn s) (λ sn' t.
        and_then (write_inode (if nblocks sn == 0 then dirty else dirty || ltb from to) sn' t)
          (λ _ u.
            write_down to offset block sn'.inodeblock (2 * sn'.inode) sn'.inode_blockno sn' u))

  unfoldable pub write_file : (offset : ℕ) → Block → Option Snapshot → Cmd S ℤ
  write_file offset block none s = ok failure s
  write_file offset block (some sn) s =
      let from = nlevels (nblocks sn) in
      if ltb offset (nblocks sn)
      then write_levels from from offset block false sn s
      else write_levels from (levels_for offset) offset block true
          (set_nblocks (add_u32 offset 1) sn) s

  unfoldable pub treedisk_write : (offset : ℕ) → Block → Cmd (TreeState S) ℤ
  treedisk_write offset block ts =
      and_then (treedisk_get_snapshot below ts.inode_no ts.below)
        (λ sn t. and_then (write_file offset block sn t) (λ r u. ok r (record ts { below = u })))
