-- ===== src/Disk/Tree/Writes.antt =====
-- grass/block/treedisk.c: `treedisk_write` as a write to one of the files.
use operating_system_practic.Base.{
  ℕ, suc, ◌+◌, ◌-◌, ◌*◌, ◌<◌, ◌≤◌, ◌≡◌, ◌≢◌, sym, ap, ◌∙◌, false, ◌==◌, ltb, arith, if◌then◌else◌,
  u32_mod, set,
}
use mathlib.Core.Path.{subst}
use operating_system_practic.Store.{Block}
use operating_system_practic.Disk.Tree.{
  inodes_per_block, n_inodeblocks, Snapshot, free_list, root, nlevels,
}
use operating_system_practic.Disk.Tree.Shows.{Disk}
use operating_system_practic.Disk.Tree.Labels.{Labels, room, Free}
use operating_system_practic.Disk.Tree.Nodes.{Tree}
use operating_system_practic.Disk.Tree.Grows.{holds}
use operating_system_practic.Disk.Tree.Files.{
  inode_block, inode_slot, file_root, file_size, file_block, File, FileSystem,
}
use operating_system_practic.Disk.Tree.Inodes.{
  Edited, size_now, root_now, edited-FileSystem, others_kept,
}
use operating_system_practic.Disk.Tree.Places.{Placed}

-- The number of blocks after a write at an offset.
abbrev pub size_after : (size o : ℕ) → ℕ
size_after size o = if ltb o size then size else o + 1

-- The file holds the block at the offset; the rest of it, and the other files, are as they were. The
-- write has taken nine blocks at most.
pub record Written (size : ℕ) (d : Disk) (k n i o : ℕ) (blk : Block) (d1 : Disk) (label1 : Labels)
    (k1 : ℕ) : Type 0 where
  pub system : FileSystem size d1 label1 k1 n
  pub sized : file_size d1 i ≡ size_after (file_size d i) o
  pub content : (o1 : ℕ) → file_block d1 i o1 ≡ (if o == o1 then blk else file_block d i o1)
  pub others :
      (i1 : ℕ)
      → i1 ≢ i
      → i1 < n * inodes_per_block
      → (file_size d1 i1 ≡ file_size d i1) × ((o1 : ℕ) → file_block d1 i1 o1 ≡ file_block d i1 o1)
  pub count : room d k (free_list (d 0)) ≤ room d1 k1 (free_list (d1 0)) + 9

module _ (size : ℕ) (d : Disk) (label : Labels) (k n : ℕ) (fs : FileSystem size d label k n)
    (i o : ℕ) (lt : i < n * inodes_per_block) (blk : Block) (sn : Snapshot) (from to nb : ℕ)
    (blockno : sn.inode_blockno ≡ inode_block i) (slot : sn.inode ≡ inode_slot i)
    (block : sn.inodeblock ≡ set (d (inode_block i)) (2 * inode_slot i + 1) nb)
    (super_block : sn.superblock ≡ d 0) (levels : to ≡ nlevels nb)
    (from_levels : from ≡ nlevels (file_size d i)) (bound : to - from + suc to ≤ 9)
    (grows : file_size d i ≤ nb) (covers : o < nb) (small_nb : nb < u32_mod)
    (new_size : nb ≡ size_after (file_size d i) o) (old_root : root sn ≡ file_root d i) (d1 : Disk)
    (label1 : Labels) (k1 : ℕ) (sb1 : Block) (b1 : ℕ)
    (placed : Placed size d label k sn i from to o blk d1 label1 k1 sb1 b1) where
  write_Edited : Edited d label i to nb b1 d1 label1
  write_Edited = record {
    inode =
        ap d1 (sym blockno)
        ∙ placed.linked
        ∙ ap (λ x. set sn.inodeblock (2 * x) b1) slot
        ∙ ap (λ x. set x (2 * inode_slot i) b1) block;
    frame = λ c u nz ne away. placed.frame c u nz (λ e. ne (e ∙ blockno)) away;
    labels = λ c u away. placed.labels c u;
  }

  new_size_now : file_size d1 i ≡ nb
  new_size_now = size_now size d label k n fs i lt to nb b1 d1 label1 write_Edited

  new_root_now : file_root d1 i ≡ b1
  new_root_now = root_now size d label k n fs i lt to nb b1 d1 label1 write_Edited

  content_now : (o1 : ℕ) → file_block d1 i o1 ≡ (if o == o1 then blk else file_block d i o1)
  content_now o1 =
      ap (λ x. holds d1 (nlevels x) (file_root d1 i) o1) new_size_now
      ∙ ap (λ x. holds d1 (nlevels nb) x o1) new_root_now
      ∙ ap (λ x. holds d1 x b1 o1) (sym levels)
      ∙ placed.content o1
      ∙ ap (λ x. if o == o1 then blk else holds d x (root sn) o1) from_levels
      ∙ ap (λ x. if o == o1 then blk else holds d (nlevels (file_size d i)) x o1) old_root

  File-now : File d1 label1 i
  File-now = record {
    tree =
        subst (λ x. Tree d1 label1 i (nlevels x) 0 (file_root d1 i)) (sym new_size_now)
          (subst (Tree d1 label1 i (nlevels nb) 0) (sym new_root_now)
            (subst (λ x. Tree d1 label1 i x 0 b1) levels placed.tree));
    empty = λ o1 le.
        let beyond : nb ≤ o1 = omega (arith, le, new_size_now) in
        let miss : (o == o1) ≡ false = ground arith in
        content_now o1
        ∙ ap (λ x. if x then blk else file_block d i o1) miss
        ∙ (fs.files i lt).empty o1 (omega (arith, beyond, grows));
    rooted = λ pos z. placed.rooted (sym new_root_now ∙ z);
    sized = omega (arith, new_size_now, small_nb);
  }

  pub Placed-Written : Written size d k n i o blk d1 label1 k1
  Placed-Written = record {
    system =
        edited-FileSystem size d label k n fs i lt to nb b1 d1 label1 write_Edited k1
          (subst (Free size d1 label1 k1) (sym placed.free.on_disk) placed.free)
          (ap n_inodeblocks placed.free.on_disk ∙ placed.inodeblocks ∙ ap n_inodeblocks super_block)
          File-now;
    sized = new_size_now ∙ new_size;
    content = content_now;
    others = others_kept size d label k n fs i lt to nb b1 d1 label1 write_Edited;
    count = omega (
      arith,
      placed.count,
      bound,
      ap (λ x. room d k (free_list x)) super_block,
      ap (λ x. room d1 k1 (free_list x)) placed.free.on_disk,
    );
  }
