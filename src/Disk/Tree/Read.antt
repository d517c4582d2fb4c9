-- ===== src/Disk/Tree/Read.antt =====
-- grass/block/treedisk.c: reading a block of a file.
use operating_system_practic.Base.{
  ℕ, zero, suc, ◌==◌, ltb, Option, none, some, if◌then◌else◌, ℤ, is_neg, success, failure, to_int,
}
use operating_system_practic.Run.{Cmd, ok, and_then}
use operating_system_practic.Store.{Block, BlockStore}
use operating_system_practic.Disk.Tree.{
  null_block, word, Snapshot, root, nblocks, TreeState, index, nlevels, treedisk_get_snapshot,
}

module _ {S : Type 0} (below : BlockStore S) where
  -- The walk from block `b` down `n` levels. A hole reads as null bytes.
  unfoldable pub read_down : (n offset b : ℕ) → Block → Cmd S (ℤ × Block)
  read_down zero offset b block s =
      if b == 0 then ok (success, null_block) s else below.read b block s
  read_down (suc n) offset b block s =
      if b == 0
      then ok (success, null_block) s
      else and_then (below.read b block s) (λ (r, tib) t.
        if is_neg r then ok (r, tib) t else read_down n offset (word tib (index offset n)) tib t)

  unfoldable pub read_file : (offset : ℕ) → Block → Option Snapshot → Cmd S (ℤ × Block)
  unfolding read_down
  read_file offset block none s = ok (failure, block) s
  read_file offset block (some sn) s =
      if ltb offset (nblocks sn)
      then read_down (nlevels (nblocks sn)) offset (root sn) block s
      else ok (failure, block) s

  unfoldable pub treedisk_read : (offset : ℕ) → Block → Cmd (TreeState S) (ℤ × Block)
  treedisk_read offset block ts =
      and_then (treedisk_get_snapshot below ts.inode_no ts.below)
        (λ sn t. and_then (read_file offset block sn t) (λ r u. ok r (record ts { below = u })))

  unfoldable pub treedisk_nblocks : Cmd (TreeState S) ℤ
  treedisk_nblocks ts = and_then (treedisk_get_snapshot below ts.inode_no ts.below) (λ sn t.
      elim sn [
        | none ↦ ok failure (record ts { below = t })
        | some sn ↦ ok (to_int (nblocks sn)) (record ts { below = t })
      ])
