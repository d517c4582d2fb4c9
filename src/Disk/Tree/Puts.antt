-- ===== src/Disk/Tree/Puts.antt =====
-- grass/block/treedisk.c: the walk of `treedisk_write` changes what the tree holds at one offset.
use operating_system_practic.Base.{
  ℕ, zero, suc, ◌+◌, ◌*◌, ◌<◌, ◌≤◌, ◌≡◌, ◌≢◌, refl, ap, ◌∙◌, true, false, ◌==◌, ◌⊎◌, arith,
  if◌then◌else◌, set, get_or, length, update, [], ◌∷◌,
}
use operating_system_practic.Store.{Block}
use operating_system_practic.Disk.Tree.{word, refs_per_block, index, free_list}
use operating_system_practic.Disk.Tree.Shows.{Disk}
use operating_system_practic.Disk.Tree.Labels.{
  node, in_use, Labels, room, Free, SameList, Chain-same,
}
use operating_system_practic.Disk.Tree.Takes.{update_disk_ne}
use operating_system_practic.Disk.Tree.Nodes.{anc, Under, Tree, walk}

pub set-get_or : (xs : Block) (i : ℕ) → set xs i (get_or xs i 0) ≡ xs
set-get_or [] i = refl
set-get_or (x ∷ xs) zero = refl
set-get_or (x ∷ xs) (suc i) = ap (λ ys. x ∷ ys) (set-get_or xs i)

-- A write to a block in use, other than the superblock, leaves the free list alone.
pub Free-write :
    (size : ℕ) (d : Disk) (label : Labels) (k : ℕ) (sb : Block) (c : ℕ) (x : Block)
    → Free size d label k sb
    → in_use (label c) ≡ true
    → c ≢ 0
    → Free size (update d c x) label k sb
      × (room (update d c x) k (free_list sb) ≡ room d k (free_list sb))
Free-write size d label k sb c x f u nz =
    let same : SameList k d (update d c x) label label = record {
      blocks = λ a j lt e. (update_disk_ne d c x a (λ h. ground (arith, e, u, ap label h)), refl);
      slots = λ a j m lt e. refl;
    } in
    let (list, r) = Chain-same k (free_list sb) d (update d c x) label label same f.list in
    (
      record {
        on_disk = update_disk_ne d c x 0 nz ∙ f.on_disk;
        long = f.long;
        super_lem = f.super_lem;
        list = list;
        inside = f.inside;
      },
      r,
    )

-- What a write at offset `o` below word `idx` of `parent_block` leaves: the word leads to a tree that
-- holds the block at `o`, and what it held elsewhere.
pub record Put (size : ℕ) (d : Disk) (label : Labels) (k : ℕ) (sb : Block) (i n p o : ℕ)
    (blk : Block) (parent_block : Block) (idx parent_off : ℕ) (d1 : Disk) (label1 : Labels) (k1 : ℕ)
    (sb1 : Block) (b1 : ℕ) : Type 0 where
  pub free : Free size d1 label1 k1 sb1
  pub linked : d1 parent_off ≡ set parent_block idx b1
  pub rooted : b1 ≢ 0
  pub tree : Tree d1 label1 i n p b1
  pub content :
      (o1 : ℕ)
      → anc n o1 ≡ p
      → walk d1 n b1 o1 ≡ (if o == o1 then blk else walk d n (word parent_block idx) o1)
  pub frame :
      (c : ℕ)
      → in_use (label c) ≡ true
      → c ≢ 0
      → c ≢ parent_off
      → (Under i n p (label c) → ⊥)
      → d1 c ≡ d c
  pub labels : (c : ℕ) → in_use (label c) ≡ true → label1 c ≡ label c
  pub count : room d k (free_list sb) ≤ room d1 k1 (free_list sb1) + suc n
  pub inodeblocks : word sb1 0 ≡ word sb 0

-- The state halfway: the word leads to the block `b`, which is on its place, and whose words are
-- `tib`.
pub record Half (size : ℕ) (d : Disk) (label : Labels) (k : ℕ) (sb : Block) (i n p o : ℕ)
    (parent_block : Block) (idx parent_off : ℕ) (d1 : Disk) (label1 : Labels) (k1 : ℕ) (sb1 : Block)
    (b : ℕ) (tib : Block) : Type 0 where
  pub free : Free size d1 label1 k1 sb1
  pub linked : d1 parent_off ≡ set parent_block idx b
  pub placed : label1 b ≡ node i (suc n) p
  pub owned : (in_use (label b) ≡ false) ⊎ (label b ≡ node i (suc n) p)
  pub long : length tib ≡ refs_per_block
  pub current : (d1 b ≡ tib) ⊎ (word tib (index o n) ≡ 0)
  pub kids : (j : ℕ) → j < refs_per_block → Tree d1 label1 i n (p * refs_per_block + j) (word tib j)
  pub content :
      (o1 : ℕ) → walk d1 n (word tib (index o1 n)) o1 ≡ walk d (suc n) (word parent_block idx) o1
  pub frame : (c : ℕ) → in_use (label c) ≡ true → c ≢ 0 → c ≢ parent_off → d1 c ≡ d c
  pub labels : (c : ℕ) → in_use (label c) ≡ true → label1 c ≡ label c
  pub count : room d k (free_list sb) ≤ room d1 k1 (free_list sb1) + 1
  pub inodeblocks : word sb1 0 ≡ word sb 0
