-- ===== src/Disk/Tree/Counts.antt =====
-- grass/block/treedisk.c: how many blocks a tree of a file has.
use operating_system_practic.Base.{
  ℕ, zero, suc, ◌+◌, ◌*◌, ◌<◌, ◌≤◌, ◌≡◌, refl, ◌==◌, inl, inr, arith, if◌then◌else◌,
}
use operating_system_practic.Store.{Block}
use operating_system_practic.Disk.Tree.{word, refs_per_block}
use operating_system_practic.Disk.Tree.Shows.{Disk}
use operating_system_practic.Disk.Tree.Labels.{Labels}
use operating_system_practic.Disk.Tree.Nodes.{Under, Tree, Under-self, Under-lift}

-- The sum of what `f` says of the words of a block from word `j` on, with `m` to go.
unfoldable pub refs_total : (f : ℕ → ℕ) → Block → (m j : ℕ) → ℕ
refs_total f ib zero j = 0
refs_total f ib (suc m) j = f (word ib j) + refs_total f ib m (j + 1)

-- The blocks of the tree of `n` levels below block `b`.
unfoldable pub tree_size : Disk → (n b : ℕ) → ℕ
tree_size d zero b = if b == 0 then 0 else 1
tree_size d (suc n) b =
    let kids = refs_total (tree_size d n) (d b) refs_per_block 0 in if b == 0 then 0 else kids + 1

pub tree_size-hole : (d : Disk) (n b : ℕ) → b ≡ 0 → tree_size d n b ≡ 0
unfolding tree_size
tree_size-hole d zero b z = rw (z) refl
tree_size-hole d (suc n) b z = rw (z) refl

pub refs_total-same :
    (f g : ℕ → ℕ) (ib : Block) (m j : ℕ)
    → ((i : ℕ) → j ≤ i → i < j + m → f (word ib i) ≡ g (word ib i))
    → refs_total f ib m j ≡ refs_total g ib m j
unfolding refs_total
refs_total-same f g ib zero j same = refl
refs_total-same f g ib (suc m) j same = omega (
  arith,
  same j (omega arith) (omega arith),
  refs_total-same f g ib m (j + 1) (λ i low high. same i (omega arith) (omega arith)),
)

-- A tree that is as it was has the blocks that it had.
pub tree_size-same :
    (d d1 : Disk) (label : Labels) (i n p b : ℕ)
    → ((c : ℕ) → Under i n p (label c) → d1 c ≡ d c)
    → Tree d label i n p b
    → tree_size d1 n b ≡ tree_size d n b
unfolding Tree tree_size
tree_size-same d d1 label i zero p b same t = refl
tree_size-same d d1 label i (suc n) p b same (inl z) = rw (z) refl
tree_size-same d d1 label i (suc n) p b same (inr (l, len, kids)) =
    let below =
      refs_total-same (tree_size d1 n) (tree_size d n) (d b) refs_per_block 0 (λ j low high.
        tree_size-same d d1 label i n (p * refs_per_block + j) (word (d b) j)
          (λ c u. same c (Under-lift i n p j (label c) (omega (arith, high)) u))
          (kids j (omega (arith, high)))) in
    rw (same b (Under-self i (suc n) p (label b) l), below) refl
