-- ===== src/Disk/Tree/Labels.antt =====
-- What each block of a treedisk (grass/block/treedisk.h) is for. A label names the one place of a
-- block in the file system, so blocks at different places are different blocks.
use operating_system_practic.Base.{
  ℕ, zero, suc, ◌+◌, ◌<◌, ◌≡◌, refl, ap, ◌∙◌, Bool, true, false, inl, inr, ◌⊎◌, length, arith,
}
use operating_system_practic.Store.{Block}
use operating_system_practic.Disk.Tree.{word, free_list, refs_per_block}
use operating_system_practic.Disk.Tree.Lists.{used_slots}
use operating_system_practic.Disk.Tree.Shows.{Disk}

-- No block of the store; the superblock; the inode block at a number; a block of the free list, with
-- `k` others behind it; what its slot `j` holds; and the block of the file with inode number `i`
-- at level `n`, the `p`-th of its level.
pub data Label : Type 0 where
  outside super : Label
  inodes : ℕ → Label
  chain : (k : ℕ) → Label
  slot : (k j : ℕ) → Label
  node : (i n p : ℕ) → Label

-- Whether a block is in use: no part of the free list.
abbrev pub in_use : Label → Bool
in_use outside = false
in_use super = true
in_use (inodes b) = true
in_use (chain k) = false
in_use (slot k j) = false
in_use (node i n p) = true

abbrev pub Labels : Type 0
Labels = ℕ → Label

-- The used slots of the block at place `k` of the free list.
abbrev pub Slots : Labels → (k : ℕ) → Block → Type 0
Slots label k fl =
    (j : ℕ) → 0 < j → j < refs_per_block → (word fl j ≡ 0) ⊎ (label (word fl j) ≡ slot k j)

-- The free list from block `b` on has `k` blocks.
unfoldable pub Chain : Disk → Labels → (k b : ℕ) → Type 0
Chain d label zero b = b ≡ 0
Chain d label (suc k) b =
    (label b ≡ chain k)
    × (length (d b) ≡ refs_per_block)
    × Slots label k (d b)
    × Chain d label k (word (d b) 0)

-- How many blocks a free list of `k` blocks has to give.
unfoldable pub room : Disk → (k b : ℕ) → ℕ
room d zero b = 0
room d (suc k) b = suc (used_slots (d b) 255 + room d k (word (d b) 0))

-- The superblock on disk is that of the snapshot; the free list has `k` blocks; what has a label is
-- a block of the store.
pub record Free (size : ℕ) (d : Disk) (label : Labels) (k : ℕ) (sb : Block) : Type 0 where
  pub on_disk : d 0 ≡ sb
  pub long : length sb ≡ refs_per_block
  pub super_lem : label 0 ≡ super
  pub list : Chain d label k (free_list sb)
  pub inside : (b : ℕ) → (label b ≡ outside) ⊎ (b < size)

-- The first `k` places of the free list are as they were.
pub record SameList (k : ℕ) (d d1 : Disk) (label label1 : Labels) : Type 0 where
  pub blocks : (c j : ℕ) → j < k → label c ≡ chain j → (d1 c ≡ d c) × (label1 c ≡ label c)
  pub slots : (c j i : ℕ) → j < k → label c ≡ slot j i → label1 c ≡ label c

Slots-same :
    (k m : ℕ) (d d1 : Disk) (label label1 : Labels) (fl : Block)
    → SameList k d d1 label label1
    → m < k
    → Slots label m fl
    → Slots label1 m fl
Slots-same k m d d1 label label1 fl same lt s j pos le = elim (s j pos le) [
  | inl e ↦ inl e
  | inr e ↦ inr (same.slots (word fl j) m j lt e ∙ e)
]

SameList-less :
    (k : ℕ) (d d1 : Disk) (label label1 : Labels)
    → SameList (suc k) d d1 label label1
    → SameList k d d1 label label1
SameList-less k d d1 label label1 same = record {
  blocks = λ c j lt. same.blocks c j (omega arith);
  slots = λ c j i lt. same.slots c j i (omega arith);
}

pub Chain-same :
    (k b : ℕ) (d d1 : Disk) (label label1 : Labels)
    → SameList k d d1 label label1
    → Chain d label k b
    → Chain d1 label1 k b × (room d1 k b ≡ room d k b)
unfolding Chain room
Chain-same zero b d d1 label label1 same c = (c, refl)
Chain-same (suc k) b d d1 label label1 same (l, len, s, rest) =
    let (e, el) = same.blocks b k (omega arith) l in
    let (c1, r1) =
      Chain-same k (word (d b) 0) d d1 label label1 (SameList-less k d d1 label label1 same) rest in
    rw (e) (
      (el ∙ l, len, Slots-same (suc k) k d d1 label label1 (d b) same (omega arith) s, c1),
      ap (λ r. suc (used_slots (d b) 255 + r)) r1,
    )
