-- ===== src/Disk/Tree/Walks.antt =====
-- grass/block/treedisk.c: `treedisk_read` finds what the tree holds.
use operating_system_practic.Base.{
  ℕ, zero, suc, ◌+◌, ◌*◌, ◌<◌, ◌≡◌, refl, ◌==◌, inl, inr, ◌⊎◌, arith, Bool-cases, success, u32_mod,
  Option,
}
use operating_system_practic.Run.{Returns, returns}
use operating_system_practic.Store.{Block, BlockStore, IsStore}
use operating_system_practic.Disk.Tree.{word, refs_per_block, index}
use operating_system_practic.Disk.Tree.Read.{read_down}
use operating_system_practic.Disk.Tree.Shows.{Disk, Shows, read_lem, read_then}
use operating_system_practic.Disk.Tree.Labels.{outside, Labels}
use operating_system_practic.Disk.Tree.Takes.{labelled_there}
use operating_system_practic.Disk.Tree.Nodes.{Tree, walk, index-lt}

module _ {S : Type 0} {below : BlockStore S} {Valid : S → Type 0} {view : S → ℕ → Option Block}
    (store : IsStore below Valid view) (size : ℕ) (small : size < u32_mod) (d : Disk)
    (label : Labels) (inside : (b : ℕ) → (label b ≡ outside) ⊎ (b < size)) where
  -- The walk down `n` levels.
  pub read_down-walk :
      (i n p o b : ℕ) (block : Block) (s : S)
      → Tree d label i n p b
      → Shows Valid view size s d
      → Returns
          (λ rc t. (rc ≡ (success, walk d n b o)) × Shows Valid view size t d)
          (read_down below n o b block s)
  unfolding read_down walk Tree
  read_down-walk i zero p o b block s tree sh = elim (Bool-cases (b == 0)) [
    | inl e ↦ rw (e) (returns (refl, sh))
    | inr e ↦ elim tree [
      | inl z ↦ absurd (ground arith)
      | inr l ↦ rw (e) (
          read_lem store size small s d b block sh
            (labelled_there size label b inside (λ h. ground (arith, l, h))))
    ]
  ]
  read_down-walk i (suc n) p o b block s tree sh = elim (Bool-cases (b == 0)) [
    | inl e ↦ rw (e) (returns (refl, sh))
    | inr e ↦ elim tree [
      | inl z ↦ absurd (ground arith)
      | inr (l, len, kids) ↦ rw (e) (
          read_then store size small _ s d b block sh
            (labelled_there size label b inside (λ h. ground (arith, l, h)))
            (λ t sh1.
              read_down-walk i n (p * refs_per_block + index o n) o (word (d b) (index o n)) (d b) t
                (kids (index o n) (index-lt o n)) sh1))
    ]
  ]
