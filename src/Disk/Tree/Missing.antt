-- ===== src/Disk/Tree/Missing.antt =====
-- grass/block/treedisk.c: the calls on a file that no inode block has room for.
use operating_system_practic.Base.{ℕ, ◌*◌, ◌<◌, ◌≤◌, ◌≡◌, refl, u32_mod, Option, none, failure}
use operating_system_practic.Run.{Returns, returns, bind}
use operating_system_practic.Store.{Block, BlockStore, IsStore}
use operating_system_practic.Disk.Tree.{inodes_per_block}
use operating_system_practic.Disk.Tree.Read.{read_file, treedisk_read, treedisk_nblocks}
use operating_system_practic.Disk.Tree.Write.{write_file, treedisk_write}
use operating_system_practic.Disk.Tree.Create.{treedisk_init}
use operating_system_practic.Disk.Tree.Shows.{Disk, Shows}
use operating_system_practic.Disk.Tree.Labels.{Labels}
use operating_system_practic.Disk.Tree.Files.{FileSystem, no_snapshot}

module _ {S : Type 0} {below : BlockStore S} {Valid : S → Type 0} {view : S → ℕ → Option Block}
    (store : IsStore below Valid view) (size : ℕ) (small : size < u32_mod) (d : Disk)
    (label : Labels) (k n : ℕ) (fs : FileSystem size d label k n) (i : ℕ)
    (beyond : n * inodes_per_block ≤ i) (some_blocks : 0 < size) (s : S)
    (sh : Shows Valid view size s d) where
  -- On a file system over a block store with the contract, of fewer than 2^32 blocks, which has
  -- blocks at all, for an inode number beyond the inode blocks: `treedisk_read` fails and leaves
  -- the caller's block as it was, `treedisk_write` and `treedisk_nblocks` fail, `treedisk_init`
  -- gives no store, and all leave the blocks as they are.
  pub missing-fails :
      (o : ℕ) (block : Block)
      → Returns
          (λ rc ts. (rc ≡ (failure, block)) × Shows Valid view size ts.below d)
          (treedisk_read below o block (record { below = s; inode_no = i }))
        × Returns
            (λ r ts. (r ≡ failure) × Shows Valid view size ts.below d)
            (treedisk_write below o block (record { below = s; inode_no = i }))
        × Returns
            (λ r ts. (r ≡ failure) × Shows Valid view size ts.below d)
            (treedisk_nblocks below (record { below = s; inode_no = i }))
        × Returns (λ x t. (x ≡ none) × Shows Valid view size t d) (treedisk_init below i s)
  unfolding treedisk_read treedisk_write treedisk_nblocks treedisk_init read_file write_file
  missing-fails o block =
      let gone = no_snapshot store size small d label k n fs i s beyond some_blocks sh in
      (
        bind gone (λ sn t (e, sh1). rw (e) (returns (refl, sh1))),
        bind gone (λ sn t (e, sh1). rw (e) (returns (refl, sh1))),
        bind gone (λ sn t (e, sh1). rw (e) (returns (refl, sh1))),
        bind gone (λ sn t (e, sh1). rw (e) (returns (refl, sh1))),
      )
