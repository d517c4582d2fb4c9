-- ===== src/Disk/Check/Entries.antt =====
-- The list of blocks that grass/block/checkdisk.c keeps (`struct block_list`).
use operating_system_practic.Base.{
  ℕ, ◌≡◌, refl, List, [], ◌∷◌, Option, none, some, Bool, true, false, ◌&&◌, ltb, ◌==◌,
  if◌then◌else◌, arith,
}
use operating_system_practic.Store.{Block}

abbrev pub Entry : Type 0
Entry = ℕ × Block

-- The first entry with the offset.
unfoldable pub find : List Entry → ℕ → Option Block
find [] o = none
find ((p, b) ∷ bl) o = if p == o then some b else find bl o

-- `bl->block = *block` at the first entry with the offset
unfoldable pub overwrite : List Entry → ℕ → Block → List Entry
overwrite [] o c = []
overwrite ((p, b) ∷ bl) o c = if p == o then (p, c) ∷ bl else (p, b) ∷ overwrite bl o c

-- The loop of `checkdisk_setsize`: the entries at or beyond the new size are removed.
unfoldable pub below_size : ℕ → List Entry → List Entry
below_size n [] = []
below_size n ((p, b) ∷ bl) = if ltb p n then (p, b) ∷ below_size n bl else below_size n bl

-- `memcmp(...) == 0`
unfoldable pub block_eq : Block → Block → Bool
block_eq [] [] = true
block_eq [] (y ∷ ys) = false
block_eq (x ∷ xs) [] = false
block_eq (x ∷ xs) (y ∷ ys) = (x == y) && block_eq xs ys

pub eq_of_block_eq : (xs ys : Block) → block_eq xs ys ≡ true → xs ≡ ys
unfolding block_eq
eq_of_block_eq [] [] h = refl
eq_of_block_eq [] (y ∷ ys) h = ground arith
eq_of_block_eq (x ∷ xs) [] h = ground arith
eq_of_block_eq (x ∷ xs) (y ∷ ys) h = ground (arith, eq_of_block_eq xs ys)

pub block_eq_refl : (xs : Block) → block_eq xs xs ≡ true
unfolding block_eq
block_eq_refl [] = refl
block_eq_refl (x ∷ xs) = ground (arith, block_eq_refl xs)

pub find-overwrite :
    (bl : List Entry) (o j : ℕ) (c d : Block)
    → find bl o ≡ some d
    → find (overwrite bl o c) j ≡ (if o == j then some c else find bl j)
unfolding find overwrite
find-overwrite [] o j c d h = ground arith
find-overwrite ((p, b) ∷ bl) o j c d h = ground (arith, find-overwrite bl o j c d)

pub find-below_size :
    (n : ℕ) (bl : List Entry) (j : ℕ)
    → find (below_size n bl) j ≡ (if ltb j n then find bl j else none)
unfolding find below_size
find-below_size n [] j = ground arith
find-below_size n ((p, b) ∷ bl) j = ground (arith, find-below_size n bl j)
