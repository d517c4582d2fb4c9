-- ===== src/Disk/Tree/Places.antt =====
-- grass/block/treedisk.c: `treedisk_write` from a snapshot on, with the levels counted.
use operating_system_practic.Base.{
  ℕ, suc, ◌+◌, ◌-◌, ◌*◌, ◌<◌, ◌≤◌, ◌≡◌, ◌≢◌, refl, sym, ap, ◌∙◌, true, false, ◌==◌, ltb, inl, inr,
  arith, Bool-cases, if◌then◌else◌, u32_mod, Option, ℤ, success, set, length, update,
}
use mathlib.Core.Path.{subst}
use operating_system_practic.Run.{Returns, returns, mono, bind}
use operating_system_practic.Store.{Block, BlockStore, IsStore}
use operating_system_practic.Disk.Tree.{word, null_block, Snapshot, free_list, root, nblocks}
use operating_system_practic.Disk.Tree.Write.{write_inode, write_levels, grow}
use operating_system_practic.Disk.Tree.Shows.{Disk, Shows, write_then}
use operating_system_practic.Disk.Tree.Labels.{inodes, in_use, Labels, room, Free}
use operating_system_practic.Disk.Tree.Takes.{labelled_there, update_disk_ne, update_disk_self}
use operating_system_practic.Disk.Tree.Puts.{Free-write}
use operating_system_practic.Disk.Tree.Nodes.{anc, Under, Tree, walk, Tree-same}
use operating_system_practic.Disk.Tree.Descents.{write_down-Put}
use operating_system_practic.Disk.Tree.Grows.{holds, grow-Grown, set-set}

-- What is left: the block at the offset, the rest of the file and of the store as it was.
pub record Placed (size : ℕ) (d : Disk) (label : Labels) (k : ℕ) (sn : Snapshot) (i from to o : ℕ)
    (blk : Block) (d1 : Disk) (label1 : Labels) (k1 : ℕ) (sb1 : Block) (b1 : ℕ) : Type 0 where
  pub free : Free size d1 label1 k1 sb1
  pub linked : d1 sn.inode_blockno ≡ set sn.inodeblock (2 * sn.inode) b1
  pub rooted : b1 ≢ 0
  pub tree : Tree d1 label1 i to 0 b1
  pub content : (o1 : ℕ) → holds d1 to b1 o1 ≡ (if o == o1 then blk else holds d from (root sn) o1)
  pub frame :
      (c : ℕ)
      → in_use (label c) ≡ true
      → c ≢ 0
      → c ≢ sn.inode_blockno
      → (Under i to 0 (label c) → ⊥)
      → d1 c ≡ d c
  pub labels : (c : ℕ) → in_use (label c) ≡ true → label1 c ≡ label c
  pub count : room d k (free_list sn.superblock) ≤ room d1 k1 (free_list sb1) + (to - from + suc to)
  pub inodeblocks : word sb1 0 ≡ word sn.superblock 0

-- The walk's view of the contents as the file's.
holds-Put :
    (d d1 : Disk) (n r b1 o : ℕ) (blk : Block)
    → anc n o ≡ 0
    → ((o1 : ℕ) → anc n o1 ≡ 0 → walk d1 n b1 o1 ≡ (if o == o1 then blk else walk d n r o1))
    → (o1 : ℕ) → holds d1 n b1 o1 ≡ (if o == o1 then blk else holds d n r o1)
holds-Put d d1 n r b1 o blk at put o1 = elim (Bool-cases (anc n o1 == 0)) [
  | inl e ↦ rw (e) (put o1 (ground arith))
  | inr e ↦
      let ne : o ≢ o1 = λ h. ground (arith, at, e, ap (anc n) h) in
      let miss : (o == o1) ≡ false = ground arith in rw (e, miss) refl
]

inodes-away : (label : Labels) (b c i n p : ℕ) → label c ≡ inodes b → Under i n p (label c) → ⊥
inodes-away label b c i n p e (m, q, g, e1, s, a) = ground (arith, e, e1)

module _ {S : Type 0} {below : BlockStore S} {Valid : S → Type 0} {view : S → ℕ → Option Block}
    (store : IsStore below Valid view) (size : ℕ) (small : size < u32_mod) where
  abbrev pub Places :
      (d : Disk) (label : Labels) (k : ℕ) (sn : Snapshot) (i from to o : ℕ) (blk : Block)
      → ℤ
      → S
      → Type 0
  Places d label k sn i from to o blk r t =
      (r ≡ success)
      × (d1 : Disk) × (label1 : Labels) × (k1 : ℕ) × (sb1 : Block) × (b1 : ℕ) × Shows Valid view
          size t d1
      × Placed size d label k sn i from to o blk d1 label1 k1 sb1 b1

  write_inode-Shows :
      (d : Disk) (sn : Snapshot) (s : S)
      → sn.inode_blockno < size
      → Shows Valid view size s d
      → Returns
          (λ _ t. Shows Valid view size t (update d sn.inode_blockno sn.inodeblock))
          (write_inode below true sn s)
  unfolding write_inode
  write_inode-Shows d sn s there sh =
      write_then store size small _ s d sn.inode_blockno sn.inodeblock sh there
        (λ t sh1. returns sh1)

  module _ (d : Disk) (label : Labels) (k : ℕ) (sn : Snapshot) (i o : ℕ) (blk : Block) (s : S)
      (f : Free size d label k sn.superblock)
      (used : label sn.inode_blockno ≡ inodes sn.inode_blockno)
      (long : 2 * sn.inode < length sn.inodeblock) (some_blocks : (nblocks sn == 0) ≡ false)
      (sh : Shows Valid view size s d) where
    -- A write within the file, which does not touch the inode before the walk.
    pub write_levels-within :
        (n : ℕ)
        → n ≤ 4
        → anc n o ≡ 0
        → suc n ≤ room d k (free_list sn.superblock)
        → Tree d label i n 0 (root sn)
        → d sn.inode_blockno ≡ sn.inodeblock
        → Returns (Places d label k sn i n n o blk) (write_levels below n n o blk false sn s)
    unfolding write_levels write_inode grow
    write_levels-within n le at roomy tree on_disk =
        let nz : sn.inode_blockno ≢ 0 = λ z. ground (arith, f.super_lem, used, ap label z) in
        let no_more : n - n ≡ 0 = omega arith in
        let same_levels : ltb n n ≡ false = ground arith in
        rw (some_blocks, no_more, same_levels)
          (mono
            (write_down-Put store size small n d label k sn i 0 o blk sn.inodeblock (2 * sn.inode)
              sn.inode_blockno s le at f roomy (ap in_use used) nz
              (inodes-away label sn.inode_blockno sn.inode_blockno i n 0 used) tree (inl on_disk)
              sh)
            (λ r t (done, d1, label1, k1, sb1, b1, sh1, put). (
              done,
              d1,
              label1,
              k1,
              sb1,
              b1,
              sh1,
              record {
                free = put.free;
                linked = put.linked;
                rooted = put.rooted;
                tree = put.tree;
                content = holds-Put d d1 n (root sn) b1 o blk at put.content;
                frame = put.frame;
                labels = put.labels;
                count = omega (arith, put.count);
                inodeblocks = put.inodeblocks;
              },
            )))

    -- A write beyond the end of the file.
    pub write_levels-beyond :
        (from to : ℕ)
        → from ≤ to
        → to ≤ 4
        → anc to o ≡ 0
        → to - from + suc to ≤ room d k (free_list sn.superblock)
        → Tree d label i from 0 (root sn)
        → Returns (Places d label k sn i from to o blk) (write_levels below from to o blk true sn s)
    unfolding write_levels
    write_levels-beyond from to le four at roomy tree = rw (some_blocks) (
        bind
          (grow-Grown store size small (to - from) d label k sn i from to s (omega (arith, le)) four
            (omega (arith, roomy)) long f tree sh)
          (λ sn1 t (d1, label1, k1, sh1, g).
            let ib = sn1.inode_blockno in
            let x = sn1.inodeblock in
            let used1 : label1 ib ≡ inodes sn.inode_blockno =
              ap label1 g.inode_blockno ∙ g.labels sn.inode_blockno (ap in_use used) ∙ used in
            let nz : ib ≢ 0 = λ z. ground (arith, g.free.super_lem, used1, ap label1 z) in
            let there =
              labelled_there size label1 ib g.free.inside (λ h. ground (arith, h, used1)) in
            let d2 = update d1 ib x in
            let (f2, room2) =
              Free-write size d1 label1 k1 sn1.superblock ib x g.free (ap in_use used1) nz in
            let (tree2, walks) =
              Tree-same d1 d2 label1 label1 i to 0 (root sn1)
                (λ c u. (
                  update_disk_ne d1 ib x c (λ e.
                      inodes-away label1 sn.inode_blockno ib i to 0 used1
                        (subst (λ y. Under i to 0 (label1 y)) (sym e) u)),
                  refl,
                ))
                g.tree in
            bind (write_inode-Shows d1 sn1 t there sh1) (λ _ u sh2.
              mono
                (write_down-Put store size small to d2 label1 k1 sn1 i 0 o blk x (2 * sn1.inode) ib
                  u four at f2 (omega (arith, roomy, room2, g.count)) (ap in_use used1) nz
                  (inodes-away label1 sn.inode_blockno ib i to 0 used1) tree2
                  (inl (update_disk_self d1 ib x)) sh2)
                (λ r v (done, d3, label3, k3, sb3, b3, sh3, put). (
                  done,
                  d3,
                  label3,
                  k3,
                  sb3,
                  b3,
                  sh3,
                  record {
                    free = put.free;
                    linked =
                        ap d3 (sym g.inode_blockno)
                        ∙ put.linked
                        ∙ ap (λ y. set x (2 * y) b3) g.inode
                        ∙ ap (λ y. set y (2 * sn.inode) b3) g.inodeblock
                        ∙ set-set sn.inodeblock (2 * sn.inode) (root sn1) b3;
                    rooted = put.rooted;
                    tree = put.tree;
                    content = λ o1.
                        holds-Put d2 d3 to (root sn1) b3 o blk at put.content o1
                        ∙ ap (λ y. if o == o1 then blk else y)
                            (ap (λ y. if anc to o1 == 0 then y else null_block) (walks o1)
                              ∙ g.content o1);
                    frame = λ c uc z ne away.
                        put.frame c (ap in_use (g.labels c uc) ∙ uc) z
                          (λ e. ne (e ∙ g.inode_blockno))
                          (λ under. away (subst (Under i to 0) (g.labels c uc) under))
                        ∙ update_disk_ne d1 ib x c (λ e. ne (sym e ∙ g.inode_blockno))
                        ∙ g.frame c uc z;
                    labels = λ c uc. put.labels c (ap in_use (g.labels c uc) ∙ uc) ∙ g.labels c uc;
                    count = omega (arith, put.count, room2, g.count);
                    inodeblocks = put.inodeblocks ∙ g.inodeblocks;
                  },
                )))))
