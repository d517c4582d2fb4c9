-- ===== src/Disk/Tree/Joins.antt =====
-- grass/block/treedisk.c: a node whose subtree has been written is a tree again.
use operating_system_practic.Base.{
  ℕ, suc, ◌+◌, ◌*◌, ◌<◌, ◌≡◌, ◌≢◌, refl, sym, ap, ◌∙◌, true, false, ◌==◌, inl, inr, arith,
  Bool-cases, if◌then◌else◌, set, length, length-set, get_or-set_self, get_or-set_ne,
}
use mathlib.Core.Path.{subst}
use operating_system_practic.Store.{Block}
use operating_system_practic.Disk.Tree.{word, refs_per_block, index}
use operating_system_practic.Disk.Tree.Shows.{Disk}
use operating_system_practic.Disk.Tree.Labels.{node, super, in_use, Labels}
use operating_system_practic.Disk.Tree.Puts.{Put, Half}
use operating_system_practic.Disk.Tree.Nodes.{
  anc, Under, Tree, walk, index-lt, anc-step, Under-lift, Under-self, Under-apart, Under-level,
  Tree-same,
}

-- A node is in use and no superblock.
node_used : (label : Labels) (c i m q : ℕ) → label c ≡ node i m q → in_use (label c) ≡ true
node_used label c i m q e = ap in_use e

node_nonzero : (label : Labels) (c i m q : ℕ) → label 0 ≡ super → label c ≡ node i m q → c ≢ 0
node_nonzero label c i m q e0 e z = ground (arith, e0, e, ap label z)

module _ (size : ℕ) (d : Disk) (label : Labels) (k : ℕ) (sb : Block) (i n p o : ℕ) (blk : Block)
    (parent_block : Block) (idx parent_off : ℕ) (d1 : Disk) (label1 : Labels) (k1 : ℕ) (sb1 : Block)
    (b : ℕ) (tib : Block) (small_n : n < 4) (place : anc (suc n) o ≡ p)
    (used : in_use (label parent_off) ≡ true) (nz : parent_off ≢ 0)
    (off : Under i (suc n) p (label parent_off) → ⊥)
    (half : Half size d label k sb i n p o parent_block idx parent_off d1 label1 k1 sb1 b tib)
    (d2 : Disk) (label2 : Labels) (k2 : ℕ) (sb2 : Block) (c1 : ℕ)
    (put : Put size d1 label1 k1 sb1 i n
      (anc n o)
      o
      blk
      tib
      (index o n)
      b
      d2
      label2
      k2
      sb2
      c1) where
  -- The other subtrees stay.
  others_same :
      (j : ℕ)
      → index o n ≢ j
      → j < refs_per_block
      → Tree d2 label2 i n (p * refs_per_block + j) (word tib j)
        × ((o1 : ℕ) → walk d2 n (word tib j) o1 ≡ walk d1 n (word tib j) o1)
  others_same j ne lt =
      Tree-same d1 d2 label1 label2 i n (p * refs_per_block + j) (word tib j)
        (λ c (m, q, g, e, s, a).
          let u = node_used label1 c i m q e in
          (
            put.frame c u (node_nonzero label1 c i m q half.free.super_lem e)
                (λ h.
                  Under-level i n (p * refs_per_block + j) p (label1 c) (ap label1 h ∙ half.placed)
                    (m, q, g, e, s, a))
                (λ under.
                  let same =
                    Under-apart i n (p * refs_per_block + j) (anc n o) (label1 c) (m, q, g, e, s, a)
                      under in
                  ne (omega (arith, anc-step o n p small_n place, same))),
            put.labels c u,
          ))
        (half.kids j lt)

  at_b : d2 b ≡ set tib (index o n) c1
  at_b = put.linked

  joined : Tree d2 label2 i (suc n) p b
  unfolding Tree
  joined = inr (
    put.labels b (node_used label1 b i (suc n) p half.placed) ∙ half.placed,
    ap length at_b ∙ length-set tib (index o n) c1 ∙ half.long,
    λ j lt. elim (Bool-cases (index o n == j)) [
      | inl e ↦
          let same : index o n ≡ j = ground arith in
          let w : word (d2 b) j ≡ c1 =
            ap (λ x. word x j) at_b
            ∙ ap (word (set tib (index o n) c1)) (sym same)
            ∙ get_or-set_self tib (index o n) c1 0 (omega (arith, half.long, index-lt o n)) in
          let pl : anc n o ≡ p * refs_per_block + j =
            sym (anc-step o n p small_n place) ∙ ap (λ x. p * refs_per_block + x) same in
          subst (Tree d2 label2 i n (p * refs_per_block + j)) (sym w)
            (subst (λ x. Tree d2 label2 i n x c1) pl put.tree)
      | inr e ↦
          let ne : index o n ≢ j = ground arith in
          let w : word (d2 b) j ≡ word tib j =
            ap (λ x. word x j) at_b ∙ get_or-set_ne tib {i = index o n} {j = j} c1 0 ne in
          subst (Tree d2 label2 i n (p * refs_per_block + j)) (sym w) (others_same j ne lt).0
    ],
  )

  apart_of_index : (o1 : ℕ) → anc (suc n) o1 ≡ p → index o n ≢ index o1 n → (o == o1) ≡ false
  apart_of_index o1 e ne = elim (Bool-cases (o == o1)) [
    | inl h ↦ let same : o ≡ o1 = ground arith in absurd (ne (ap (λ x. index x n) same))
    | inr h ↦ h
  ]

  joined_content :
      (o1 : ℕ)
      → anc (suc n) o1 ≡ p
      → walk d2 (suc n) b o1 ≡ (if o == o1 then blk else walk d (suc n) (word parent_block idx) o1)
  unfolding walk
  joined_content o1 e1 =
      let j = index o1 n in
      let nonzero : (b == 0) ≡ false =
        ground (arith, node_nonzero label1 b i (suc n) p half.free.super_lem half.placed) in
      let step : walk d2 (suc n) b o1 ≡ walk d2 n (word (d2 b) j) o1 = rw (nonzero) refl in
      elim (Bool-cases (index o n == j)) [
        | inl e ↦
            let same : index o n ≡ j = ground arith in
            let w : word (d2 b) j ≡ c1 =
              ap (λ x. word x j) at_b
              ∙ ap (word (set tib (index o n) c1)) (sym same)
              ∙ get_or-set_self tib (index o n) c1 0 (omega (arith, half.long, index-lt o n)) in
            let pl : anc n o1 ≡ anc n o =
              omega (arith, anc-step o n p small_n place, anc-step o1 n p small_n e1, same) in
            step
            ∙ ap (λ x. walk d2 n x o1) w
            ∙ put.content o1 pl
            ∙ ap (λ x. if o == o1 then blk else walk d1 n (word tib x) o1) same
            ∙ ap (λ x. if o == o1 then blk else x) (half.content o1)
        | inr e ↦
            let ne : index o n ≢ j = ground arith in
            let w : word (d2 b) j ≡ word tib j =
              ap (λ x. word x j) at_b ∙ get_or-set_ne tib {i = index o n} {j = j} c1 0 ne in
            step
            ∙ ap (λ x. walk d2 n x o1) w
            ∙ (others_same j ne (index-lt o1 n)).1 o1
            ∙ half.content o1
            ∙ ap (λ x. if x then blk else walk d (suc n) (word parent_block idx) o1)
                (sym (apart_of_index o1 e1 ne))
      ]

  -- A block in use elsewhere is not the node.
  elsewhere : (c : ℕ) → in_use (label c) ≡ true → (Under i (suc n) p (label c) → ⊥) → c ≢ b
  elsewhere c u away e = elim half.owned [
    | inl f ↦ ground (arith, f, u, ap label e)
    | inr l ↦ away (Under-self i (suc n) p (label c) (ap label e ∙ l))
  ]

  below_away :
      (c : ℕ)
      → in_use (label c) ≡ true
      → (Under i (suc n) p (label c) → ⊥)
      → Under i n (anc n o) (label1 c)
      → ⊥
  below_away c u away under = away (
      Under-lift i n p (index o n) (label c) (index-lt o n) (
        subst (λ x. Under i n x (label c)) (sym (anc-step o n p small_n place))
          (subst (Under i n (anc n o)) (half.labels c u) under)))

  joined_frame :
      (c : ℕ) → in_use (label c) ≡ true → c ≢ 0 → (Under i (suc n) p (label c) → ⊥) → d2 c ≡ d1 c
  joined_frame c u z away =
      put.frame c (ap in_use (half.labels c u) ∙ u) z (elsewhere c u away) (below_away c u away)

  pub Put-join :
      Put size d label k sb i (suc n) p o blk parent_block idx parent_off d2 label2 k2 sb2 b
  Put-join = record {
    free = put.free;
    linked = joined_frame parent_off used nz off ∙ half.linked;
    rooted = λ z. ground (arith, half.free.super_lem, half.placed, ap label1 z);
    tree = joined;
    content = joined_content;
    frame = λ c u z ne away. joined_frame c u z away ∙ half.frame c u z ne;
    labels = λ c u. put.labels c (ap in_use (half.labels c u) ∙ u) ∙ half.labels c u;
    count = omega (arith, put.count, half.count);
    inodeblocks = put.inodeblocks ∙ half.inodeblocks;
  }
