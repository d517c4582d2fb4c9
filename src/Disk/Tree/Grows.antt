-- ===== src/Disk/Tree/Grows.antt =====
-- grass/block/treedisk.c: the indirect blocks that `treedisk_write` inserts above the root leave the
-- contents of the file as they are.
use operating_system_practic.Base.{
  ℕ, zero, suc, ◌+◌, ◌*◌, ◌/◌, ◌<◌, ◌≤◌, ◌≡◌, ◌≢◌, refl, sym, ap, ◌∙◌, true, false, ◌==◌, inl, inr,
  arith, Bool-cases, if◌then◌else◌, u32_mod, Option, set, length, length-set, get_or-set_self,
  get_or-set_ne, update, [], ◌∷◌,
}
use mathlib.Core.Path.{subst}
use operating_system_practic.Run.{Returns, returns, mono, bind}
use operating_system_practic.Store.{Block, BlockStore, IsStore}
use operating_system_practic.Disk.Tree.{
  word, null_block, refs_per_block, index, Snapshot, free_list, root, set_root,
}
use operating_system_practic.Disk.Tree.Write.{grow}
use operating_system_practic.Disk.Tree.Shows.{Disk, Shows, write_then}
use operating_system_practic.Disk.Tree.Labels.{node, in_use, Labels, room, Free, super}
use operating_system_practic.Disk.Tree.Takes.{
  Taken, treedisk_alloc_block-Takes, update_disk_ne, update_disk_self,
}
use operating_system_practic.Disk.Tree.Puts.{Free-write, set-get_or}
use operating_system_practic.Disk.Tree.Stores.{
  word-replicate, Tree-hole, walk-hole, update_label_self, new_labels,
}
use operating_system_practic.Disk.Tree.Nodes.{anc, Tree, walk, index-anc, Tree-same}

-- What a tree of `n` levels holds at any offset.
abbrev pub holds : Disk → (n b o : ℕ) → Block
holds d n b o = if anc n o == 0 then walk d n b o else null_block

-- The words of a new node above the root.
abbrev pub above : ℕ → Block
above r = set null_block 0 r

pub set-set : (xs : Block) (i x y : ℕ) → set (set xs i x) i y ≡ set xs i y
set-set [] i x y = refl
set-set (z ∷ zs) zero x y = refl
set-set (z ∷ zs) (suc i) x y = ap (λ t. z ∷ t) (set-set zs i x y)

above-other : (r j : ℕ) → 0 ≢ j → word (above r) j ≡ 0
above-other r j ne = get_or-set_ne null_block {i = 0} {j = j} r 0 ne ∙ word-replicate 256 j

module _ (d : Disk) (label : Labels) (i n r b : ℕ) (placed : label b ≡ node i (suc n) 0)
    (there : d b ≡ above r) (nz : b ≢ 0) (tree : Tree d label i n 0 r) where
  Tree-above : Tree d label i (suc n) 0 b
  unfolding Tree
  Tree-above = inr (
    placed,
    ap length there,
    λ j lt. elim (Bool-cases (0 == j)) [
      | inl e ↦
          let z : ◌≡◌ {A = ℕ} 0 j = ground arith in
          subst (λ x. Tree d label i n (0 * refs_per_block + x) (word (d b) x)) z
            (subst (Tree d label i n 0) (sym (ap (λ x. word x 0) there)) tree)
      | inr e ↦
          let ne : 0 ≢ j = ground arith in
          Tree-hole d label i n (0 * refs_per_block + j) (word (d b) j)
            (ap (λ x. word x j) there ∙ above-other r j ne)
    ],
  )

  walk-above : (o : ℕ) → walk d (suc n) b o ≡ walk d n (word (above r) (index o n)) o
  unfolding walk
  walk-above o = let nonzero : (b == 0) ≡ false = ground (arith, nz) in rw (nonzero, there) refl

  holds-above : (o : ℕ) → n < 4 → holds d (suc n) b o ≡ holds d n r o
  unfolding anc
  holds-above o lt =
      let e = index-anc o n lt in
      elim (Bool-cases (anc n o == 0)) [
        | inl z ↦
            let zero_place : anc n o ≡ 0 = ground arith in
            let up : (anc n o / refs_per_block == 0) ≡ true = ground arith in
            let at : index o n ≡ 0 = omega (arith, e, zero_place) in
            rw (z, up) (walk-above o ∙ ap (λ j. walk d n (word (above r) j) o) at)
        | inr z ↦
            let place : anc n o ≢ 0 = ground arith in
            elim (Bool-cases (anc n o / refs_per_block == 0)) [
              | inl up ↦
                  let low : anc n o / refs_per_block ≡ 0 = ground arith in
                  let at : 0 ≢ index o n = omega (arith, e, place, low) in
                  rw (z, up)
                    (walk-above o
                      ∙ walk-hole d n (word (above r) (index o n)) o (above-other r (index o n) at))
              | inr up ↦ rw (z, up) refl
            ]
      ]

module _ {S : Type 0} {below : BlockStore S} {Valid : S → Type 0} {view : S → ℕ → Option Block}
    (store : IsStore below Valid view) (size : ℕ) (small : size < u32_mod) where
  -- The tree has `to` levels instead of `n`, which took `m` blocks, and all that was in use is as it was.
  pub record Grown (d : Disk) (label : Labels) (k : ℕ) (sn : Snapshot) (i n to m : ℕ)
      (sn1 : Snapshot) (d1 : Disk) (label1 : Labels) (k1 : ℕ) : Type 0 where
    pub free : Free size d1 label1 k1 sn1.superblock
    pub tree : Tree d1 label1 i to 0 (root sn1)
    pub content : (o : ℕ) → holds d1 to (root sn1) o ≡ holds d n (root sn) o
    pub frame : (c : ℕ) → in_use (label c) ≡ true → c ≢ 0 → d1 c ≡ d c
    pub labels : (c : ℕ) → in_use (label c) ≡ true → label1 c ≡ label c
    pub count : room d k (free_list sn.superblock) ≤ room d1 k1 (free_list sn1.superblock) + m
    pub inodeblocks : word sn1.superblock 0 ≡ word sn.superblock 0
    pub inode : sn1.inode ≡ sn.inode
    pub inode_blockno : sn1.inode_blockno ≡ sn.inode_blockno
    pub inodeblock : sn1.inodeblock ≡ set sn.inodeblock (2 * sn.inode) (root sn1)

  -- One block above the root.
  one_more :
      (d : Disk) (label : Labels) (k : ℕ) (sn : Snapshot) (i n : ℕ) (b : ℕ) (sn1 : Snapshot)
      (d1 : Disk) (k1 : ℕ)
      → n < 4
      → 2 * sn.inode < length sn.inodeblock
      → label 0 ≡ super
      → Tree d label i n 0 (root sn)
      → Taken size d label k sn (node i (suc n) 0) b sn1 d1 k1
      → Grown d label k sn i n
          (suc n)
          1
          (set_root b sn1)
          (update d1 b (above (root sn1)))
          (update label b (node i (suc n) 0))
          k1
  one_more d label k sn i n b sn1 d1 k1 lt inside super_lem tree taken =
      let to = node i (suc n) 0 in
      let label1 = update label b to in
      let x = above (root sn1) in
      let d2 = update d1 b x in
      let placed = update_label_self label b to in
      let bz : b ≢ 0 = λ z. ground (arith, taken.unused, super_lem, ap (λ c. in_use (label c)) z) in
      let (free1, room1) =
        Free-write size d1 label1 k1 sn1.superblock b x taken.free (ap in_use placed) bz in
      let same_block : sn1.inodeblock ≡ sn.inodeblock = ap (λ y. y.inodeblock) taken.rest in
      let same_inode : sn1.inode ≡ sn.inode = ap (λ y. y.inode) taken.rest in
      let frame = λ (c : ℕ) (u : in_use (label c) ≡ true) (nz : c ≢ 0).
        update_disk_ne d1 b x c (λ e. ground (arith, taken.unused, u, ap (λ y. in_use (label y)) e))
        ∙ taken.frame c u nz in
      let labels = new_labels store size small label b to taken.unused in
      let same_root : root sn1 ≡ root sn = ap (λ y. root y) taken.rest in
      let (tree1, walks) =
        Tree-same d d2 label label1 i n 0 (root sn)
          (λ c (m, q, g, e, s, a). (
            frame c (ap in_use e) (λ z. ground (arith, super_lem, e, ap label z)),
            labels c (ap in_use e),
          ))
          tree in
      let at : d2 b ≡ above (root sn) = update_disk_self d1 b x ∙ ap above same_root in
      let new_root : root (set_root b sn1) ≡ b =
        get_or-set_self sn1.inodeblock (2 * sn1.inode) b 0
          (subst (λ y. 2 * y.inode < length y.inodeblock) (sym taken.rest) inside) in
      record {
        free = free1;
        tree =
            subst (Tree d2 label1 i (suc n) 0) (sym new_root)
              (Tree-above d2 label1 i n (root sn) b placed at bz tree1);
        content = λ o.
            ap (λ y. holds d2 (suc n) y o) new_root
            ∙ holds-above d2 label1 i n (root sn) b placed at bz tree1 o lt
            ∙ ap (λ y. if anc n o == 0 then y else null_block) (walks o);
        frame = frame;
        labels = labels;
        count = omega (arith, room1, taken.count);
        inodeblocks = taken.inodeblocks;
        inode = same_inode;
        inode_blockno = ap (λ y. y.inode_blockno) taken.rest;
        inodeblock =
            ap (λ y. set y.inodeblock (2 * y.inode) b) taken.rest
            ∙ ap (λ y. set sn.inodeblock (2 * sn.inode) y) (sym new_root);
      }

  Grown-trans :
      (d : Disk) (label : Labels) (k : ℕ) (sn : Snapshot) (i n to to1 m : ℕ) (sn1 : Snapshot)
      (d1 : Disk) (label1 : Labels) (k1 : ℕ) (sn2 : Snapshot) (d2 : Disk) (label2 : Labels) (k2 : ℕ)
      → Grown d label k sn i n to 1 sn1 d1 label1 k1
      → Grown d1 label1 k1 sn1 i to to1 m sn2 d2 label2 k2
      → Grown d label k sn i n to1 (suc m) sn2 d2 label2 k2
  Grown-trans d label k sn i n to to1 m sn1 d1 label1 k1 sn2 d2 label2 k2 g h = record {
    free = h.free;
    tree = h.tree;
    content = λ o. h.content o ∙ g.content o;
    frame = λ c u nz. h.frame c (ap in_use (g.labels c u) ∙ u) nz ∙ g.frame c u nz;
    labels = λ c u. h.labels c (ap in_use (g.labels c u) ∙ u) ∙ g.labels c u;
    count = omega (arith, g.count, h.count);
    inodeblocks = h.inodeblocks ∙ g.inodeblocks;
    inode = h.inode ∙ g.inode;
    inode_blockno = h.inode_blockno ∙ g.inode_blockno;
    inodeblock =
        h.inodeblock
        ∙ ap (λ x. set sn1.inodeblock (2 * x) (root sn2)) g.inode
        ∙ ap (λ x. set x (2 * sn.inode) (root sn2)) g.inodeblock
        ∙ set-set sn.inodeblock (2 * sn.inode) (root sn1) (root sn2);
  }

  pub grow-Grown :
      (m : ℕ) (d : Disk) (label : Labels) (k : ℕ) (sn : Snapshot) (i n to : ℕ) (s : S)
      → m + n ≡ to
      → to ≤ 4
      → m ≤ room d k (free_list sn.superblock)
      → 2 * sn.inode < length sn.inodeblock
      → Free size d label k sn.superblock
      → Tree d label i n 0 (root sn)
      → Shows Valid view size s d
      → Returns
          (λ sn1 t.
            (d1 : Disk) × (label1 : Labels) × (k1 : ℕ) × Shows Valid view size t d1
            × Grown d label k sn i n to m sn1 d1 label1 k1)
          (grow below m sn s)
  unfolding grow
  grow-Grown zero d label k sn i n to s e le roomy inside f tree sh =
      let same : n ≡ to = omega (arith, e) in
      returns (
        d,
        label,
        k,
        sh,
        record {
          free = f;
          tree = subst (λ x. Tree d label i x 0 (root sn)) same tree;
          content = λ o. ap (λ x. holds d x (root sn) o) (sym same);
          frame = λ c u nz. refl;
          labels = λ c u. refl;
          count = omega arith;
          inodeblocks = refl;
          inode = refl;
          inode_blockno = refl;
          inodeblock = sym (set-get_or sn.inodeblock (2 * sn.inode));
        },
      )
  grow-Grown (suc m) d label k sn i n to s e le roomy inside f tree sh =
      bind
        (treedisk_alloc_block-Takes store size small d label k sn (node i (suc n) 0) s f
          (omega (arith, roomy)) refl sh)
        (λ (b, sn1) t (d1, k1, sh1, taken).
          let step =
            one_more d label k sn i n b sn1 d1 k1 (omega (arith, e, le)) inside f.super_lem tree
              taken in
          write_then store size small _ t d1 b (above (root sn1)) sh1 taken.there (λ u sh2.
            mono
              (grow-Grown m (update d1 b (above (root sn1))) (update label b (node i (suc n) 0)) k1
                (set_root b sn1) i (suc n) to u (omega (arith, e)) le
                (omega (arith, roomy, step.count))
                (omega (
                  arith,
                  inside,
                  ap (λ x. 2 * x) step.inode,
                  ap length step.inodeblock,
                  length-set sn.inodeblock (2 * sn.inode) (root (set_root b sn1)),
                ))
                step.free step.tree sh2)
              (λ sn2 v (d2, label2, k2, sh3, more). (
                d2,
                label2,
                k2,
                sh3,
                Grown-trans d label k sn i n (suc n) to m (set_root b sn1)
                    (update d1 b (above (root sn1))) (update label b (node i (suc n) 0)) k1 sn2 d2
                    label2 k2 step more,
              ))))
