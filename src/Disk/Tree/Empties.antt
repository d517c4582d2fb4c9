-- ===== src/Disk/Tree/Empties.antt =====
-- grass/block/treedisk.c: `treedisk_setsize`, which makes a file empty.
use operating_system_practic.Base.{
  ℕ, ◌+◌, ◌*◌, ◌^◌, ◌<◌, ◌≤◌, ◌≡◌, ◌≢◌, refl, sym, ap, ◌∙◌, true, false, ◌==◌, inl, inr, arith,
  Bool-cases, if◌then◌else◌, u32_mod, Option, some, success, update,
}
use mathlib.Core.Path.{subst}
use operating_system_practic.Run.{Returns, returns, bind}
use operating_system_practic.Store.{Block, BlockStore, IsStore}
use operating_system_practic.Disk.Tree.{
  null_block, inodes_per_block, n_inodeblocks, Snapshot, free_list, set_root, set_nblocks, nlevels,
  levels_for, levels_from, log_shift_r,
}
use operating_system_practic.Disk.Tree.Size.{
  recursive_free_file, treedisk_free_file, resize_file, treedisk_setsize,
}
use operating_system_practic.Disk.Tree.Shows.{Disk, Shows, write_then}
use operating_system_practic.Disk.Tree.Labels.{inodes, in_use, Labels, room, Free}
use operating_system_practic.Disk.Tree.Takes.{labelled_there, update_disk_ne, update_disk_self}
use operating_system_practic.Disk.Tree.Puts.{Free-write}
use operating_system_practic.Disk.Tree.Nodes.{anc, walk, Under, Tree}
use operating_system_practic.Disk.Tree.Files.{
  inode_block, file_root, file_size, file_block, File, FileSystem, snapshot, get_snapshot-snapshot,
}
use operating_system_practic.Disk.Tree.Inodes.{
  Edited, size_now, root_now, edited-FileSystem, others_kept,
}
use operating_system_practic.Disk.Tree.Counts.{tree_size}
use operating_system_practic.Disk.Tree.Capacity.{free_level-nlevels}
use operating_system_practic.Disk.Tree.Clears.{Cleared, Clears, recursive_free_file-Clears}

-- The blocks of a file.
abbrev pub blocks_of : Disk → (i : ℕ) → ℕ
blocks_of d i = tree_size d (nlevels (file_size d i)) (file_root d i)

-- File `i` is empty and its blocks are free; the other files are as they were.
pub record Emptied (size : ℕ) (d : Disk) (k n i : ℕ) (d1 : Disk) (label1 : Labels) (k1 : ℕ)
    : Type 0 where
  pub system : FileSystem size d1 label1 k1 n
  pub empty : file_size d1 i ≡ 0
  pub others :
      (i1 : ℕ)
      → i1 ≢ i
      → i1 < n * inodes_per_block
      → (file_size d1 i1 ≡ file_size d i1) × ((o1 : ℕ) → file_block d1 i1 o1 ≡ file_block d i1 o1)
  pub count : room d1 k1 (free_list (d1 0)) ≡ room d k (free_list (d 0)) + blocks_of d i

nlevels-one : nlevels 1 ≡ 0
unfolding levels_for levels_from log_shift_r
nlevels-one = refl

empty_File :
    (d : Disk) (label : Labels) (i : ℕ) → file_size d i ≡ 0 → file_root d i ≡ 0 → File d label i
unfolding Tree walk anc
empty_File d label i size0 root0 = record {
  tree = subst (λ x. Tree d label i (nlevels x) 0 (file_root d i)) (sym size0) (inl root0);
  empty = λ o le. rw (size0, root0) (hole o);
  rooted = λ h. absurd (omega (arith, h, size0));
  sized = omega (arith, size0);
}
  where
    hole : (o : ℕ) → (if o == 0 then null_block else null_block) ≡ null_block
    hole o = elim (Bool-cases (o == 0)) [ inl e ↦ rw (e) refl | inr e ↦ rw (e) refl ]

module _ {S : Type 0} {below : BlockStore S} {Valid : S → Type 0} {view : S → ℕ → Option Block}
    (store : IsStore below Valid view) (size : ℕ) (small : size < u32_mod) (d : Disk)
    (label : Labels) (k n : ℕ) (fs : FileSystem size d label k n) (i : ℕ)
    (lt : i < n * inodes_per_block) where
  treedisk_free_file-Clears :
      (fuel : ℕ) (s : S)
      → 2 ≤ fuel
      → 0 < file_size d i
      → file_size d i ≤ 2 ^ 24
      → Shows Valid view size s d
      → Returns
          (Clears store size small d label k
            (snapshot d i)
            (Under i (nlevels (file_size d i)) 0)
            (blocks_of d i))
          (treedisk_free_file below fuel (snapshot d i) s)
  unfolding treedisk_free_file
  treedisk_free_file-Clears fuel s enough pos le sh =
      let nb = file_size d i in
      let f = fs.files i lt in
      let sn = snapshot d i in
      let some_blocks : (nb == 0) ≡ false = ground (arith, pos) in
      let cleared =
        recursive_free_file-Clears store size small i (nlevels nb) d label k sn 0 (file_root d i) s
          (f.rooted pos) fs.free f.tree sh in
      elim (Bool-cases (nb == 1)) [
        | inl e ↦
            let one : nb ≡ 1 = ground arith in
            rw (some_blocks, e)
              (subst
                (λ x.
                  Returns
                    (Clears store size small d label k sn (Under i (nlevels nb) 0) (blocks_of d i))
                    (recursive_free_file below x (file_root d i) sn s))
                (ap nlevels one ∙ nlevels-one) cleared)
        | inr e ↦
            let two : 2 ≤ nb = ground (arith, pos, e) in
            rw (some_blocks, e, free_level-nlevels fuel nb s enough two le) cleared
      ]

  -- The blocks of the file are free, and its inode is cleared.
  module _ (sn1 : Snapshot) (d1 : Disk) (label1 : Labels) (k1 : ℕ)
      (cleared : Cleared size d label k
        (snapshot d i)
        (Under i (nlevels (file_size d i)) 0)
        (blocks_of d i)
        sn1
        d1
        label1
        k1) where
    abbrev no_inode : Block
    no_inode = (set_root 0 (set_nblocks 0 sn1)).inodeblock

    away_inode : Under i (nlevels (file_size d i)) 0 (label (inode_block i)) → ⊥
    away_inode (m, q, g, e, s, a) = ground (arith, e, inodes_label)
      where
        inodes_label : label (inode_block i) ≡ inodes (inode_block i)
        inodes_label = fs.inodes_lem (inode_block i) (omega arith) (omega (arith, lt))

    inode_used : in_use (label1 (inode_block i)) ≡ true
    inode_used =
        let l = fs.inodes_lem (inode_block i) (omega arith) (omega (arith, lt)) in
        ap in_use (cleared.labels (inode_block i) (ap in_use l) away_inode ∙ l)

    Cleared-Edited :
        Edited d label i (nlevels (file_size d i)) 0 0 (update d1 (inode_block i) no_inode) label1
    Cleared-Edited = record {
      inode =
          update_disk_self d1 (inode_block i) no_inode
          ∙ ap (λ x. (set_root 0 (set_nblocks 0 x)).inodeblock) cleared.rest;
      frame = λ c u nz ne away.
          update_disk_ne d1 (inode_block i) no_inode c (λ e. ne (sym e))
          ∙ cleared.frame c u nz away;
      labels = cleared.labels;
    }

    Cleared-Emptied : Emptied size d k n i (update d1 (inode_block i) no_inode) label1 k1
    unfolding Tree anc walk
    Cleared-Emptied =
        let d2 = update d1 (inode_block i) no_inode in
        let to = nlevels (file_size d i) in
        let (free2, room2) =
          Free-write size d1 label1 k1 sn1.superblock (inode_block i) no_inode cleared.free
            inode_used (omega arith) in
        let size0 = size_now size d label k n fs i lt to 0 0 d2 label1 Cleared-Edited in
        let root0 = root_now size d label k n fs i lt to 0 0 d2 label1 Cleared-Edited in
        record {
          system =
              edited-FileSystem size d label k n fs i lt to 0 0 d2 label1 Cleared-Edited k1
                (subst (Free size d2 label1 k1) (sym free2.on_disk) free2)
                (ap n_inodeblocks free2.on_disk ∙ cleared.inodeblocks)
                (empty_File d2 label1 i size0 root0);
          empty = size0;
          others = others_kept size d label k n fs i lt to 0 0 d2 label1 Cleared-Edited;
          count =
              omega (arith, cleared.count, room2, ap (λ x. room d2 k1 (free_list x)) free2.on_disk);
        }

  resize_file-Emptied :
      (fuel : ℕ) (s : S)
      → 2 ≤ fuel
      → 0 < file_size d i
      → file_size d i ≤ 2 ^ 24
      → Shows Valid view size s d
      → Returns
          (λ r t.
            (r ≡ success)
            × (d1 : Disk) × (label1 : Labels) × (k1 : ℕ) × Shows Valid view size t d1
            × Emptied size d k n i d1 label1 k1)
          (resize_file below fuel 0 (some (snapshot d i)) s)
  unfolding resize_file
  resize_file-Emptied fuel s enough pos le sh =
      let other : (0 == file_size d i) ≡ false = ground (arith, pos) in
      rw (other) (
        bind (treedisk_free_file-Clears fuel s enough pos le sh)
          (λ sn1 u (d1, label1, k1, sh2, cleared).
            let ib = sn1.inode_blockno in
            let at : ib ≡ inode_block i = ap (λ y. y.inode_blockno) cleared.rest in
            let used = ap (λ y. in_use (label1 y)) at ∙ inode_used sn1 d1 label1 k1 cleared in
            let there =
              labelled_there size label1 ib cleared.free.inside (λ h. ground (arith, h, used)) in
            write_then store size small _ u d1 ib (no_inode sn1 d1 label1 k1 cleared) sh2 there
              (λ v sh3. returns (
                refl,
                _,
                label1,
                k1,
                subst
                    (λ y. Shows Valid view size v (update d1 y (no_inode sn1 d1 label1 k1 cleared)))
                    at sh3,
                Cleared-Emptied sn1 d1 label1 k1 cleared,
              ))))

  -- On a file system over a block store with the contract, of fewer than 2^32 blocks,
  -- `treedisk_setsize` to 0 of file `i` that has between one and 2^24 blocks, with fuel for two
  -- rounds or more, returns and answers 0, not the old size: the store shows a file system again,
  -- the file is empty, every other file has the size and the blocks that it had, and the free
  -- list has as many blocks more to give as the tree of the file had.
  pub treedisk_setsize-Emptied :
      (fuel : ℕ) (s : S)
      → 2 ≤ fuel
      → 0 < file_size d i
      → file_size d i ≤ 2 ^ 24
      → Shows Valid view size s d
      → Returns
          (λ r ts.
            (r ≡ success)
            × (ts.inode_no ≡ i)
            × (d1 : Disk) × (label1 : Labels) × (k1 : ℕ) × Shows Valid view size ts.below d1
            × Emptied size d k n i d1 label1 k1)
          (treedisk_setsize below fuel 0 (record { below = s; inode_no = i }))
  unfolding treedisk_setsize
  treedisk_setsize-Emptied fuel s enough pos le sh =
      bind (get_snapshot-snapshot store size small d label k n fs i s lt sh) (λ x t (e, sh1).
        rw (e) (
          bind (resize_file-Emptied fuel t enough pos le sh1)
            (λ r u (done, d1, label1, k1, sh2, emptied).
              returns (done, refl, d1, label1, k1, sh2, emptied))))
