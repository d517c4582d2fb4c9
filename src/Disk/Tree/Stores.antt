-- ===== src/Disk/Tree/Stores.antt =====
-- grass/block/treedisk.c: `treedisk_write`, from the inode down. A store with room enough ends the
-- walk with the block at its offset.
use operating_system_practic.Base.{
  ℕ, zero, suc, ◌+◌, ◌<◌, ◌≤◌, ◌≡◌, ◌≢◌, refl, sym, ap, ◌∙◌, true, false, ◌==◌, inl, inr, ◌⊎◌,
  arith, ℤ, success, u32_mod, Option, set, update, replicate,
}
use operating_system_practic.Run.{Returns, returns, bind}
use operating_system_practic.Store.{Block, BlockStore, IsStore}
use operating_system_practic.Disk.Tree.{word, null_block, Snapshot, free_list}
use operating_system_practic.Disk.Tree.Write.{store_block, get_child}
use operating_system_practic.Disk.Tree.Shows.{Disk, Shows, write_then}
use operating_system_practic.Disk.Tree.Labels.{Label, node, in_use, Labels, room, Free}
use operating_system_practic.Disk.Tree.Takes.{
  labelled_there, treedisk_alloc_block-Takes, update_disk_ne, update_disk_self, update_label_ne,
}
use operating_system_practic.Disk.Tree.Puts.{Put, Free-write}
use operating_system_practic.Disk.Tree.Nodes.{anc, Under, Tree, walk, Under-self}

pub word-replicate : (n i : ℕ) → word (replicate n 0) i ≡ 0
word-replicate zero i = refl
word-replicate (suc n) zero = refl
word-replicate (suc n) (suc i) = word-replicate n i

pub Tree-hole : (d : Disk) (label : Labels) (i n p b : ℕ) → b ≡ 0 → Tree d label i n p b
unfolding Tree
Tree-hole d label i zero p b z = inl z
Tree-hole d label i (suc n) p b z = inl z

pub walk-hole : (d : Disk) (n b o : ℕ) → b ≡ 0 → walk d n b o ≡ null_block
unfolding walk
walk-hole d zero b o z = rw (z) refl
walk-hole d (suc n) b o z = rw (z) refl

pub Tree-label :
    (d : Disk) (label : Labels) (i n p b : ℕ) → b ≢ 0 → Tree d label i n p b → label b ≡ node i n p
unfolding Tree
Tree-label d label i zero p b nz (inl z) = absurd (nz z)
Tree-label d label i zero p b nz (inr l) = l
Tree-label d label i (suc n) p b nz (inl z) = absurd (nz z)
Tree-label d label i (suc n) p b nz (inr (l, len, kids)) = l

pub update_label_self : (label : Labels) (b : ℕ) (to : Label) → update label b to b ≡ to
update_label_self label b to = ground arith

module _ {S : Type 0} {below : BlockStore S} {Valid : S → Type 0} {view : S → ℕ → Option Block}
    (store : IsStore below Valid view) (size : ℕ) (small : size < u32_mod) where
  -- A new block on the place, linked from the word.
  pub record New (d : Disk) (label : Labels) (k : ℕ) (sb : Block) (i n p : ℕ) (pb : Block)
      (idx off : ℕ) (b : ℕ) (sb1 : Block) (d1 : Disk) (k1 : ℕ) : Type 0 where
    pub free : Free size d1 (update label b (node i n p)) k1 sb1
    pub unused : in_use (label b) ≡ false
    pub there : b < size
    pub linked : d1 off ≡ set pb idx b
    pub frame : (c : ℕ) → in_use (label c) ≡ true → c ≢ 0 → c ≢ off → d1 c ≡ d c
    pub count : room d k (free_list sb) ≤ room d1 k1 (free_list sb1) + 1
    pub inodeblocks : word sb1 0 ≡ word sb 0

  pub new_labels :
      (label : Labels) (b : ℕ) (to : Label)
      → in_use (label b) ≡ false
      → (c : ℕ) → in_use (label c) ≡ true
      → update label b to c ≡ label c
  new_labels label b to f c u =
      update_label_ne label b to c (λ e. ground (arith, f, u, ap in_use e))

  pub get_child-New :
      (d : Disk) (label : Labels) (k : ℕ) (sn : Snapshot) (i n p : ℕ) (pb : Block) (idx off : ℕ)
      (s : S)
      → (word pb idx == 0) ≡ true
      → Free size d label k sn.superblock
      → 0 < room d k (free_list sn.superblock)
      → in_use (label off) ≡ true
      → off ≢ 0
      → off < size
      → Shows Valid view size s d
      → Returns
          (λ r t.
            (d1 : Disk) × (k1 : ℕ) × Shows Valid view size t d1
            × New d label k sn.superblock i n p pb idx off r.0 r.1.superblock d1 k1)
          (get_child below pb idx off sn s)
  unfolding get_child
  get_child-New d label k sn i n p pb idx off s e f some_room used nz lt sh =
      let to = node i n p in
      rw (e) (
        bind (treedisk_alloc_block-Takes store size small d label k sn to s f some_room refl sh)
          (λ (b, sn1) t (d1, k1, sh1, taken).
            let x = set pb idx b in
            let used1 = ap in_use (new_labels label b to taken.unused off used) ∙ used in
            let (free1, room1) =
              Free-write size d1 (update label b to) k1 sn1.superblock off x taken.free used1 nz in
            write_then store size small _ t d1 off x sh1 lt (λ u sh2. returns (
              update d1 off x,
              k1,
              sh2,
              record {
                free = free1;
                unused = taken.unused;
                there = taken.there;
                linked = update_disk_self d1 off x;
                frame =
                    λ c uc z ne. update_disk_ne d1 off x c (λ h. ne (sym h)) ∙ taken.frame c uc z;
                count = omega (arith, room1, taken.count);
                inodeblocks = taken.inodeblocks;
              },
            ))))

  -- The result of the walk.
  abbrev pub StoredDown :
      (d : Disk) (label : Labels) (k : ℕ) (sb : Block) (i n p o : ℕ) (blk pb : Block) (idx off : ℕ)
      → ℤ
      → S
      → Type 0
  StoredDown d label k sb i n p o blk pb idx off r t =
      (r ≡ success)
      × (d1 : Disk) × (label1 : Labels) × (k1 : ℕ) × (sb1 : Block) × (b1 : ℕ) × Shows Valid view
          size t d1
      × Put size d label k sb i n p o blk pb idx off d1 label1 k1 sb1 b1

  -- The data goes to a block on its place.
  pub leaf-Put :
      (d : Disk) (label : Labels) (k : ℕ) (sb : Block) (i p o : ℕ) (blk pb : Block) (idx off b : ℕ)
      (d1 : Disk) (label1 : Labels) (k1 : ℕ) (sb1 : Block) (s : S)
      → o ≡ p
      → Free size d1 label1 k1 sb1
      → label1 b ≡ node i 0 p
      → (in_use (label b) ≡ false) ⊎ (label b ≡ node i 0 p)
      → d1 off ≡ set pb idx b
      → ((c : ℕ) → in_use (label c) ≡ true → c ≢ 0 → c ≢ off → d1 c ≡ d c)
      → ((c : ℕ) → in_use (label c) ≡ true → label1 c ≡ label c)
      → room d k (free_list sb) ≤ room d1 k1 (free_list sb1) + 1
      → word sb1 0 ≡ word sb 0
      → in_use (label off) ≡ true
      → off ≢ 0
      → (Under i 0 p (label off) → ⊥)
      → Shows Valid view size s d1
      → Returns (StoredDown d label k sb i 0 p o blk pb idx off) (store_block below b blk s)
  unfolding store_block Tree walk anc
  leaf-Put d label k sb i p o blk pb idx off b d1 label1 k1 sb1 s at f placed owned linked frame
        labels count blocks used nz away sh =
      let there = labelled_there size label1 b f.inside (λ h. ground (arith, placed, h)) in
      let bz : b ≢ 0 = λ z. ground (arith, f.super_lem, placed, ap label1 z) in
      let elsewhere =
        λ (c : ℕ) (u : in_use (label c) ≡ true) (a : Under i 0 p (label c) → ⊥) (e : b ≡ c).
          elim owned as (λ x. ⊥) [
            | inl h ↦ ground (arith, h, u, ap label e)
            | inr l ↦ a (Under-self i 0 p (label c) (ap label (sym e) ∙ l))
          ] in
      let (free1, room1) = Free-write size d1 label1 k1 sb1 b blk f (ap in_use placed) bz in
      write_then store size small _ s d1 b blk sh there (λ t sh1. returns (
        refl,
        update d1 b blk,
        label1,
        k1,
        sb1,
        b,
        sh1,
        record {
          free = free1;
          linked = update_disk_ne d1 b blk off (elsewhere off used away) ∙ linked;
          rooted = bz;
          tree = inr placed;
          content = λ o1 e.
              let hit : (o == o1) ≡ true = ground (arith, at, e) in
              let nonzero : (b == 0) ≡ false = ground (arith, bz) in
              rw (hit, nonzero) (update_disk_self d1 b blk);
          frame = λ c u z ne a. update_disk_ne d1 b blk c (elsewhere c u a) ∙ frame c u z ne;
          labels = labels;
          count = omega (arith, room1, count);
          inodeblocks = blocks;
        },
      ))
