-- ===== src/Disk/Tree/Size.antt =====
-- grass/block/treedisk.c: giving up the blocks of a file.
use operating_system_practic.Base.{
  ℕ, zero, suc, ◌+◌, ◌*◌, ◌%◌, ◌==◌, ltb, Option, none, some, if◌then◌else◌, ℤ, failure, success,
  to_int, u32_mod,
}
use operating_system_practic.Run.{Cmd, ok, halt, spin, and_then}
use operating_system_practic.Store.{Block, BlockStore}
use operating_system_practic.Disk.Tree.{
  refs_per_block, null_block, word, Snapshot, root, nblocks, set_root, set_nblocks, TreeState,
  treedisk_get_snapshot, or_panic,
}
use operating_system_practic.Disk.Tree.Blocks.{treedisk_free_block}

-- `while (max_capacity < nblocks)`, with the product taken modulo 2^32
unfoldable pub free_level : {S : Type 0} → (fuel level max_capacity nblocks : ℕ) → Cmd S ℕ
free_level zero level max_capacity nblocks s = if ltb max_capacity nblocks then spin else ok level s
free_level (suc fuel) level max_capacity nblocks s =
    let rest = free_level fuel (level + 1) (max_capacity * refs_per_block % u32_mod) nblocks s in
    if ltb max_capacity nblocks then rest else ok level s

module _ {S : Type 0} (below : BlockStore S) where
  -- The loop over the words of an indirect block from `i` on, with `n` to go; `free` is the call for
  -- a block one level down.
  unfoldable pub free_refs :
      (free : ℕ → Snapshot → Cmd S Snapshot) → Block → (n i : ℕ) → Snapshot → Cmd S Snapshot
  free_refs free ib zero i sn s = ok sn s
  free_refs free ib (suc n) i sn s =
      and_then (if word ib i == 0 then ok sn s else free (word ib i) sn s)
        (λ sn' t. free_refs free ib n (i + 1) sn' t)

  -- `recursive_free_file` for a block with `n` levels below it, that is level - curr_level
  unfoldable pub recursive_free_file : (n b : ℕ) → Snapshot → Cmd S Snapshot
  unfolding free_refs
  recursive_free_file zero b sn s = treedisk_free_block below b sn s
  recursive_free_file (suc n) b sn s = and_then (below.read b null_block s) (λ (r, ib) t.
      or_panic r (
        and_then (free_refs (recursive_free_file n) ib refs_per_block 0 sn t)
          (λ sn' u. treedisk_free_block below b sn' u)))

  -- The search for the level runs on fuel.
  unfoldable pub treedisk_free_file : (fuel : ℕ) → Snapshot → Cmd S Snapshot
  unfolding recursive_free_file free_level
  treedisk_free_file fuel sn s =
      if nblocks sn == 0
      then ok sn s
      else if nblocks sn == 1
      then treedisk_free_block below (root sn) sn s
      else and_then (free_level fuel 1 refs_per_block (nblocks sn) s)
          (λ level t. recursive_free_file level (root sn) sn t)

  -- `treedisk_setsize` does not look at what `treedisk_get_snapshot` returns, and goes on with memory
  -- that nobody has written.
  unfoldable pub resize_file : (fuel n : ℕ) → Option Snapshot → Cmd S ℤ
  resize_file fuel n none s = halt
  resize_file fuel n (some sn) s =
      if n == nblocks sn
      then ok (to_int n) s
      else if ltb 0 n
      then ok failure s
      else and_then (treedisk_free_file fuel sn s) (λ sn' t.
        and_then (below.write sn'.inode_blockno (set_root 0 (set_nblocks 0 sn')).inodeblock t)
          (λ r u. or_panic r (ok success u)))

  unfoldable pub treedisk_setsize : (fuel n : ℕ) → Cmd (TreeState S) ℤ
  treedisk_setsize fuel n ts =
      and_then (treedisk_get_snapshot below ts.inode_no ts.below)
        (λ sn t. and_then (resize_file fuel n sn t) (λ r u. ok r (record ts { below = u })))
