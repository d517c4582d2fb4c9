-- ===== src/Disk/Tree/Inodes.antt =====
-- grass/block/treedisk.c: a change of one inode and of the tree below it leaves the other files as they
-- are.
use operating_system_practic.Base.{
  ℕ, ◌+◌, ◌*◌, ◌<◌, ◌≤◌, ◌≡◌, ◌≢◌, sym, ap, ◌∙◌, true, ◌==◌, inl, inr, arith, Bool-cases,
  if◌then◌else◌, set, length, length-set, get_or-set_self, get_or-set_ne,
}
use mathlib.Core.Path.{subst}
use operating_system_practic.Disk.Tree.{
  word, null_block, refs_per_block, inodes_per_block, n_inodeblocks, nlevels,
}
use operating_system_practic.Disk.Tree.Shows.{Disk}
use operating_system_practic.Disk.Tree.Labels.{Label, inodes, in_use, Labels, Free}
use operating_system_practic.Disk.Tree.Nodes.{anc, Under, Tree, Tree-same}
use operating_system_practic.Disk.Tree.Grows.{holds}
use operating_system_practic.Disk.Tree.Files.{
  inode_block, inode_slot, file_root, file_size, file_block, File, FileSystem,
}

-- Inode `i` has `nb` blocks and the root `b1`; of what was in use, the blocks of its tree of `to` levels
-- may have changed, and no others.
pub record Edited (d : Disk) (label : Labels) (i to nb b1 : ℕ) (d1 : Disk) (label1 : Labels)
    : Type 0 where
  pub inode :
      d1 (inode_block i)
      ≡ set (set (d (inode_block i)) (2 * inode_slot i + 1) nb) (2 * inode_slot i) b1
  pub frame :
      (c : ℕ)
      → in_use (label c) ≡ true
      → c ≢ 0
      → c ≢ inode_block i
      → (Under i to 0 (label c) → ⊥)
      → d1 c ≡ d c
  pub labels : (c : ℕ) → in_use (label c) ≡ true → (Under i to 0 (label c) → ⊥) → label1 c ≡ label c

-- Nodes of one file are not below the place of another.
Under-other : (i i1 n p n1 p1 : ℕ) (t : Label) → i1 ≢ i → Under i1 n1 p1 t → Under i n p t → ⊥
Under-other i i1 n p n1 p1 t ne (m, q, g, e, s, a) (m1, q1, g1, e1, s1, a1) =
    ne (ground (arith, e, e1))

module _ (size : ℕ) (d : Disk) (label : Labels) (k n : ℕ) (fs : FileSystem size d label k n) (i : ℕ)
    (lt : i < n * inodes_per_block) (to nb b1 : ℕ) (d1 : Disk) (label1 : Labels)
    (edited : Edited d label i to nb b1 d1 label1) where
  block_label :
      (i1 : ℕ) → i1 < n * inodes_per_block → label (inode_block i1) ≡ inodes (inode_block i1)
  block_label i1 l = fs.inodes_lem (inode_block i1) (omega arith) (omega (arith, l))

  block_long : (i1 : ℕ) → i1 < n * inodes_per_block → length (d (inode_block i1)) ≡ refs_per_block
  block_long i1 l = fs.long (inode_block i1) (omega arith) (omega (arith, l))

  -- The block of an inode is no part of the tree.
  block_away : (b p m : ℕ) → label b ≡ inodes p → Under i m 0 (label b) → ⊥
  block_away b p m e (m1, q, g, e1, s, a) = ground (arith, e, e1)

  -- Other inode blocks do not change.
  block_same : (b : ℕ) → 1 ≤ b → b ≤ n → b ≢ inode_block i → d1 b ≡ d b
  block_same b low high ne =
      let l = fs.inodes_lem b low high in
      edited.frame b (ap in_use l) (λ z. omega (arith, z, low)) ne (block_away b b to l)

  pub size_now : file_size d1 i ≡ nb
  size_now =
      ap (λ x. word x (2 * inode_slot i + 1)) edited.inode
      ∙ get_or-set_ne (set (d (inode_block i)) (2 * inode_slot i + 1) nb) {i = 2 * inode_slot i}
          {j = 2 * inode_slot i + 1} b1 0 (omega arith)
      ∙ get_or-set_self (d (inode_block i)) (2 * inode_slot i + 1) nb 0
          (omega (arith, block_long i lt))

  pub root_now : file_root d1 i ≡ b1
  root_now =
      ap (λ x. word x (2 * inode_slot i)) edited.inode
      ∙ get_or-set_self (set (d (inode_block i)) (2 * inode_slot i + 1) nb) (2 * inode_slot i) b1 0
          (omega (arith, block_long i lt, length-set (d (inode_block i)) (2 * inode_slot i + 1) nb))

  -- The inode of another file does not change.
  inode_same :
      (i1 w : ℕ)
      → i1 < n * inodes_per_block
      → (inode_block i1 ≡ inode_block i → (w ≢ 2 * inode_slot i) × (w ≢ 2 * inode_slot i + 1))
      → word (d1 (inode_block i1)) w ≡ word (d (inode_block i1)) w
  inode_same i1 w l apart = elim (Bool-cases (inode_block i1 == inode_block i)) [
    | inl e ↦
        let same : inode_block i1 ≡ inode_block i = ground arith in
        let (a, b) = apart same in
        ap (λ x. word (d1 x) w) same
        ∙ ap (λ x. word x w) edited.inode
        ∙ get_or-set_ne (set (d (inode_block i)) (2 * inode_slot i + 1) nb) {i = 2 * inode_slot i}
            {j = w} b1 0 (λ h. a (sym h))
        ∙ get_or-set_ne (d (inode_block i)) {i = 2 * inode_slot i + 1} {j = w} nb 0 (λ h. b (sym h))
        ∙ ap (λ x. word (d x) w) (sym same)
    | inr e ↦
        let ne : inode_block i1 ≢ inode_block i = ground arith in
        ap (λ x. word x w) (block_same (inode_block i1) (omega arith) (omega (arith, l)) ne)
  ]

  size_same : (i1 : ℕ) → i1 ≢ i → i1 < n * inodes_per_block → file_size d1 i1 ≡ file_size d i1
  size_same i1 ne l =
      inode_same i1 (2 * inode_slot i1 + 1) l (λ e. (omega arith, omega (arith, e, ne)))

  root_same : (i1 : ℕ) → i1 ≢ i → i1 < n * inodes_per_block → file_root d1 i1 ≡ file_root d i1
  root_same i1 ne l = inode_same i1 (2 * inode_slot i1) l (λ e. (omega (arith, e, ne), omega arith))

  other_same :
      (i1 : ℕ)
      → i1 ≢ i
      → (l : i1 < n * inodes_per_block)
      → Tree d1 label1 i1 (nlevels (file_size d i1)) 0 (file_root d i1)
        × ((o1 : ℕ) → file_block d1 i1 o1 ≡ file_block d i1 o1)
  other_same i1 ne l =
      let m = nlevels (file_size d i1) in
      let (tree, walks) =
        Tree-same d d1 label label1 i1 m 0 (file_root d i1)
          (λ c (m1, q, g, e, s, a). (
            edited.frame c (ap in_use e) (λ z. ground (arith, fs.free.super_lem, e, ap label z))
                (λ z. ground (arith, e, ap label z, block_label i lt))
                (Under-other i i1 to 0 m 0 (label c) ne (m1, q, g, e, s, a)),
            edited.labels c (ap in_use e)
                (Under-other i i1 to 0 m 0 (label c) ne (m1, q, g, e, s, a)),
          ))
          (fs.files i1 l).tree in
      (
        tree,
        λ o1.
            ap (λ x. holds d1 (nlevels x) (file_root d1 i1) o1) (size_same i1 ne l)
            ∙ ap (λ x. holds d1 m x o1) (root_same i1 ne l)
            ∙ ap (λ x. if anc m o1 == 0 then x else null_block) (walks o1),
      )

  File-other : (i1 : ℕ) → i1 ≢ i → i1 < n * inodes_per_block → File d1 label1 i1
  File-other i1 ne l =
      let (tree, blocks) = other_same i1 ne l in
      record {
        tree =
            subst (λ x. Tree d1 label1 i1 (nlevels x) 0 (file_root d1 i1)) (sym (size_same i1 ne l))
              (subst (Tree d1 label1 i1 (nlevels (file_size d i1)) 0) (sym (root_same i1 ne l))
                tree);
        empty =
            λ o1 le. blocks o1 ∙ (fs.files i1 l).empty o1 (omega (arith, le, size_same i1 ne l));
        rooted = λ pos z.
            (fs.files i1 l).rooted (omega (arith, pos, size_same i1 ne l))
              (sym (root_same i1 ne l) ∙ z);
        sized = omega (arith, size_same i1 ne l, (fs.files i1 l).sized);
      }

  long_now : (b : ℕ) → 1 ≤ b → b ≤ n → length (d1 b) ≡ refs_per_block
  long_now b low high = elim (Bool-cases (b == inode_block i)) [
    | inl e ↦
        let same : b ≡ inode_block i = ground arith in
        ap (λ x. length (d1 x)) same
        ∙ ap length edited.inode
        ∙ length-set (set (d (inode_block i)) (2 * inode_slot i + 1) nb) (2 * inode_slot i) b1
        ∙ length-set (d (inode_block i)) (2 * inode_slot i + 1) nb
        ∙ block_long i lt
    | inr e ↦ ap length (block_same b low high (ground arith)) ∙ fs.long b low high
  ]

  -- A file system, when the file is one and the free list is sound.
  pub edited-FileSystem :
      (k1 : ℕ)
      → Free size d1 label1 k1 (d1 0)
      → n_inodeblocks (d1 0) ≡ n_inodeblocks (d 0)
      → File d1 label1 i
      → FileSystem size d1 label1 k1 n
  edited-FileSystem k1 free blocks file = record {
    free = free;
    blocks = blocks ∙ fs.blocks;
    inodes_lem = λ b low high.
        let l = fs.inodes_lem b low high in edited.labels b (ap in_use l) (block_away b b to l) ∙ l;
    long = long_now;
    files = λ i1 l. elim (Bool-cases (i1 == i)) [
      | inl e ↦ let same : i ≡ i1 = ground arith in subst (File d1 label1) same file
      | inr e ↦ File-other i1 (ground arith) l
    ];
  }

  pub others_kept :
      (i1 : ℕ)
      → i1 ≢ i
      → i1 < n * inodes_per_block
      → (file_size d1 i1 ≡ file_size d i1) × ((o1 : ℕ) → file_block d1 i1 o1 ≡ file_block d i1 o1)
  others_kept i1 ne l = (size_same i1 ne l, (other_same i1 ne l).1)
