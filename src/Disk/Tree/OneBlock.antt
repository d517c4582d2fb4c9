-- ===== src/Disk/Tree/OneBlock.antt =====
-- grass/block/treedisk.c on a small memory disk with a file of one block, which is emptied.
use operating_system_practic.Base.{
  ℕ, ◌≡◌, refl, sym, ap, true, false, ◌==◌, ltb, inl, inr, arith, success, set, update,
}
use operating_system_practic.Run.{Returns}
use operating_system_practic.Disk.Ram.{RamState, ramdisk, ramdisk_init, ram_view}
use operating_system_practic.Disk.Ram.Refines.{AnyState, ramdisk-IsStore}
use operating_system_practic.Disk.Tree.{levels_for, levels_from, log_shift_r}
use operating_system_practic.Disk.Tree.Create.{fill_refs}
use operating_system_practic.Disk.Tree.Size.{treedisk_setsize}
use operating_system_practic.Disk.Tree.Shows.{Disk, Shows}
use operating_system_practic.Disk.Tree.Labels.{in_use, node, Labels}
use operating_system_practic.Disk.Tree.Takes.{update_label_ne, update_disk_ne}
use operating_system_practic.Disk.Tree.Puts.{Free-write}
use operating_system_practic.Disk.Tree.Nodes.{Tree, anc, walk}
use operating_system_practic.Disk.Tree.Files.{File, FileSystem}
use operating_system_practic.Disk.Tree.Inodes.{Edited, edited-FileSystem}
use operating_system_practic.Disk.Tree.Fresh.{fresh}
use operating_system_practic.Disk.Tree.Empties.{Emptied, treedisk_setsize-Emptied}
use operating_system_practic.Disk.Tree.Tests.{made, made-Formatted, lent, lent-Free, outside_100}

-- File 5 has the block 100.
abbrev held : Disk
held = update made 1 (set (set (made 1) 11 1) 10 100)

abbrev held_ram : RamState
held_ram = ramdisk_init held 101

held-Shows : Shows AnyState ram_view 101 held_ram held
unfolding fill_refs
held-Shows = (tt, λ o lt. let there : ltb o 101 ≡ true = ground (arith, lt) in rw (there) refl)

-- The file system before, with one block more than it knows of.
wider-FileSystem : FileSystem 101 made (fresh 100 1) 1 1
wider-FileSystem =
    let fs = made-Formatted.system in
    record {
      free = record {
        on_disk = refl;
        long = fs.free.long;
        super_lem = fs.free.super_lem;
        list = fs.free.list;
        inside = λ b. elim (fs.free.inside b) [ inl o ↦ inl o | inr lt ↦ inr (omega (arith, lt)) ];
      };
      blocks = fs.blocks;
      inodes_lem = fs.inodes_lem;
      long = fs.long;
      files = fs.files;
    }

held-Edited : Edited made (fresh 100 1) 5 0 1 100 held lent
held-Edited = record {
  inode = refl;
  frame =
      λ c u nz ne away. update_disk_ne made 1 (set (set (made 1) 11 1) 10 100) c (λ e. ne (sym e));
  labels = λ c u away.
      update_label_ne (fresh 100 1) 100 (node 5 0 0) c
        (λ e. ground (arith, outside_100, u, ap in_use e));
}

held-File : File held lent 5
unfolding Tree anc walk levels_for levels_from log_shift_r
held-File = record {
  tree = inr refl;
  empty = λ o le. let beyond : (o == 0) ≡ false = ground (arith, le) in rw (beyond) refl;
  rooted = λ pos. omega arith;
  sized = omega arith;
}

held-FileSystem : FileSystem 101 held lent 1 1
unfolding fresh
held-FileSystem =
    let (free, same_room) =
      Free-write 101 made lent 1 (made 0) 1 (set (set (made 1) 11 1) 10 100) lent-Free refl
        (omega arith) in
    edited-FileSystem 101 made (fresh 100 1) 1 1 wider-FileSystem 5 (omega arith) 0 1 100 held lent
      held-Edited 1 free refl held-File

treedisk_setsize-Emptied_example :
    Returns
      (λ r ts.
        (r ≡ success)
        × (ts.inode_no ≡ 5)
        × (d1 : Disk) × (label1 : Labels) × (k1 : ℕ) × Shows AnyState ram_view 101 ts.below d1
        × Emptied 101 held 1 1 5 d1 label1 k1)
      (treedisk_setsize ramdisk 2 0 (record { below = held_ram; inode_no = 5 }))
treedisk_setsize-Emptied_example =
    treedisk_setsize-Emptied ramdisk-IsStore 101 (omega arith) held lent 1 1 held-FileSystem 5
      (omega arith) 2 held_ram (omega arith) (omega arith) (omega arith) held-Shows
