-- ===== src/Disk/Tree/Clears.antt =====
-- grass/block/treedisk.c: `recursive_free_file` gives up the blocks of a tree, and no others.
use operating_system_practic.Base.{
  ℕ, zero, suc, ◌+◌, ◌*◌, ◌<◌, ◌≤◌, ◌≡◌, ◌≢◌, refl, sym, ap, ◌∙◌, true, false, ◌==◌, inl, inr,
  arith, Bool-cases, if◌then◌else◌, u32_mod, Option,
}
use mathlib.Core.Path.{subst}
use operating_system_practic.Run.{Cmd, ok, Returns, returns, mono, bind}
use operating_system_practic.Store.{Block, BlockStore, IsStore}
use operating_system_practic.Disk.Tree.{word, null_block, refs_per_block, Snapshot, free_list}
use operating_system_practic.Disk.Tree.Size.{free_refs, recursive_free_file}
use operating_system_practic.Disk.Tree.Shows.{Disk, Shows, read_then}
use operating_system_practic.Disk.Tree.Labels.{Label, in_use, Labels, room, Free}
use operating_system_practic.Disk.Tree.Takes.{labelled_there}
use operating_system_practic.Disk.Tree.Stores.{Tree-label}
use operating_system_practic.Disk.Tree.Nodes.{
  Under, Tree, Tree-same, Under-self, Under-lift, Under-apart, Under-level,
}
use operating_system_practic.Disk.Tree.Frees.{Given}
use operating_system_practic.Disk.Tree.Gives.{treedisk_free_block-Gives}
use operating_system_practic.Disk.Tree.Counts.{
  refs_total, tree_size, tree_size-hole, refs_total-same, tree_size-same,
}

-- What is left when the blocks on the places `Gone`, `m` of them, were given up.
pub record Cleared (size : ℕ) (d : Disk) (label : Labels) (k : ℕ) (sn : Snapshot)
    (Gone : Label → Type 0) (m : ℕ) (sn1 : Snapshot) (d1 : Disk) (label1 : Labels) (k1 : ℕ)
    : Type 0 where
  pub free : Free size d1 label1 k1 sn1.superblock
  pub frame : (c : ℕ) → in_use (label c) ≡ true → c ≢ 0 → (Gone (label c) → ⊥) → d1 c ≡ d c
  pub labels : (c : ℕ) → in_use (label c) ≡ true → (Gone (label c) → ⊥) → label1 c ≡ label c
  pub count : room d1 k1 (free_list sn1.superblock) ≡ room d k (free_list sn.superblock) + m
  pub rest : sn1 ≡ record sn { superblock = sn1.superblock }
  pub inodeblocks : word sn1.superblock 0 ≡ word sn.superblock 0

module _ (size : ℕ) where
  Cleared-none :
      (d : Disk) (label : Labels) (k : ℕ) (sn : Snapshot) (Gone : Label → Type 0) (m : ℕ)
      → m ≡ 0
      → Free size d label k sn.superblock
      → Cleared size d label k sn Gone m sn d label k
  Cleared-none d label k sn Gone m none f = record {
    free = f;
    frame = λ c u nz away. refl;
    labels = λ c u away. refl;
    count = omega (arith, none);
    rest = refl;
    inodeblocks = refl;
  }

  pub Given-Cleared :
      (d : Disk) (label : Labels) (k : ℕ) (sn : Snapshot) (b : ℕ) (Gone : Label → Type 0)
      (sn1 : Snapshot) (d1 : Disk) (label1 : Labels) (k1 : ℕ)
      → Gone (label b)
      → Given size d label k sn b sn1 d1 label1 k1
      → Cleared size d label k sn Gone 1 sn1 d1 label1 k1
  Given-Cleared d label k sn b Gone sn1 d1 label1 k1 gone g = record {
    free = g.free;
    frame = λ c u nz away. g.frame c u nz (λ e. away (subst (λ x. Gone (label x)) (sym e) gone));
    labels = λ c u away. g.labels c u (λ e. away (subst (λ x. Gone (label x)) (sym e) gone));
    count = g.count;
    rest = g.rest;
    inodeblocks = g.inodeblocks;
  }

  Cleared-trans :
      (d : Disk) (label : Labels) (k : ℕ) (sn : Snapshot) (G H K : Label → Type 0) (m m1 m2 : ℕ)
      (sn1 : Snapshot) (d1 : Disk) (label1 : Labels) (k1 : ℕ) (sn2 : Snapshot) (d2 : Disk)
      (label2 : Labels) (k2 : ℕ)
      → ((t : Label) → G t → K t)
      → ((t : Label) → H t → K t)
      → m2 ≡ m + m1
      → Cleared size d label k sn G m sn1 d1 label1 k1
      → Cleared size d1 label1 k1 sn1 H m1 sn2 d2 label2 k2
      → Cleared size d label k sn K m2 sn2 d2 label2 k2
  Cleared-trans d label k sn G H K m m1 m2 sn1 d1 label1 k1 sn2 d2 label2 k2 gk hk total g h =
      let kept = λ (c : ℕ) (u : in_use (label c) ≡ true) (away : K (label c) → ⊥).
        g.labels c u (λ x. away (gk (label c) x)) in
      let gone =
        λ (c : ℕ) (u : in_use (label c) ≡ true) (away : K (label c) → ⊥) (x : H (label1 c)).
          away (hk (label c) (subst H (kept c u away) x)) in
      record {
        free = h.free;
        frame = λ c u nz away.
            h.frame c (ap in_use (kept c u away) ∙ u) nz (gone c u away)
            ∙ g.frame c u nz (λ x. away (gk (label c) x));
        labels =
            λ c u away. h.labels c (ap in_use (kept c u away) ∙ u) (gone c u away) ∙ kept c u away;
        count = omega (arith, g.count, h.count, total);
        rest =
            h.rest
            ∙ ap {A = Snapshot} {B = Snapshot} (λ x. record x { superblock = sn2.superblock })
                g.rest;
        inodeblocks = h.inodeblocks ∙ g.inodeblocks;
      }

-- A place below one of the words from `j` on of the node at place `p`.
abbrev Kids : (i n p j : ℕ) → Label → Type 0
Kids i n p j t = (j1 : ℕ) × (j ≤ j1) × (j1 < refs_per_block) × Under i n (p * refs_per_block + j1) t

module _ {S : Type 0} {below : BlockStore S} {Valid : S → Type 0} {view : S → ℕ → Option Block}
    (store : IsStore below Valid view) (size : ℕ) (small : size < u32_mod) where
  abbrev pub Clears :
      (d : Disk) (label : Labels) (k : ℕ) (sn : Snapshot) (Gone : Label → Type 0) (m : ℕ)
      → Snapshot
      → S
      → Type 0
  Clears d label k sn Gone m sn1 t =
      (d1 : Disk) × (label1 : Labels) × (k1 : ℕ) × Shows Valid view size t d1
      × Cleared size d label k sn Gone m sn1 d1 label1 k1

  -- A call that clears any tree of `n` levels of file `i`.
  abbrev ClearsTree : (i n : ℕ) → (ℕ → Snapshot → Cmd S Snapshot) → Type 0
  ClearsTree i n free =
      (d : Disk) (label : Labels) (k : ℕ) (sn : Snapshot) (p b : ℕ) (s : S)
      → b ≢ 0
      → Free size d label k sn.superblock
      → Tree d label i n p b
      → Shows Valid view size s d
      → Returns (Clears d label k sn (Under i n p) (tree_size d n b)) (free b sn s)

  -- The other trees are as they were.
  kids_kept :
      (d : Disk) (label : Labels) (k : ℕ) (sn : Snapshot) (i n p j m : ℕ) (sn1 : Snapshot)
      (d1 : Disk) (label1 : Labels) (k1 : ℕ)
      → Free size d label k sn.superblock
      → Cleared size d label k sn (Under i n (p * refs_per_block + j)) m sn1 d1 label1 k1
      → (j1 : ℕ) → j < j1
      → (c : ℕ) → Under i n (p * refs_per_block + j1) (label c)
      → (d1 c ≡ d c) × (label1 c ≡ label c)
  kids_kept d label k sn i n p j m sn1 d1 label1 k1 f g j1 lt c under =
      let (m1, q, g1, e, s, a) = under in
      let away : Under i n (p * refs_per_block + j) (label c) → ⊥ = λ u. omega (
        arith,
        lt,
        Under-apart i n (p * refs_per_block + j) (p * refs_per_block + j1) (label c) u under,
      ) in
      (
        g.frame c (ap in_use e) (λ z. ground (arith, f.super_lem, e, ap label z)) away,
        g.labels c (ap in_use e) away,
      )

  free_refs-Clears :
      (i n : ℕ) (free : ℕ → Snapshot → Cmd S Snapshot) (ib : Block) (p m j : ℕ) (d : Disk)
      (label : Labels) (k : ℕ) (sn : Snapshot) (s : S)
      → ClearsTree i n free
      → j + m ≡ refs_per_block
      → Free size d label k sn.superblock
      → ((j1 : ℕ)
          → j ≤ j1
          → j1 < refs_per_block
          → Tree d label i n (p * refs_per_block + j1) (word ib j1))
      → Shows Valid view size s d
      → Returns
          (Clears d label k sn (Kids i n p j) (refs_total (tree_size d n) ib m j))
          (free_refs below free ib m j sn s)
  unfolding free_refs refs_total
  free_refs-Clears i n free ib p zero j d label k sn s each all f kids sh =
      returns (d, label, k, sh, Cleared-none size d label k sn (Kids i n p j) 0 refl f)
  free_refs-Clears i n free ib p (suc m) j d label k sn s each all f kids sh =
      let place = p * refs_per_block + j in
      let low : j < refs_per_block = omega (arith, all) in
      let first : Returns (Clears d label k sn (Under i n place) (tree_size d n (word ib j)))
          (if word ib j == 0 then ok sn s else free (word ib j) sn s) =
        elim (Bool-cases (word ib j == 0)) [
          | inl e ↦
              let z : word ib j ≡ 0 = ground arith in
              rw (e) (
                returns (
                  d,
                  label,
                  k,
                  sh,
                  Cleared-none size d label k sn (Under i n place) (tree_size d n (word ib j))
                      (tree_size-hole d n (word ib j) z) f,
                ))
          | inr e ↦
              rw (e) (
                each d label k sn place (word ib j) s (ground arith) f (kids j (omega arith) low)
                  sh)
        ] in
      bind first (λ sn1 t (d1, label1, k1, sh1, g).
        let kept =
          kids_kept d label k sn i n p j (tree_size d n (word ib j)) sn1 d1 label1 k1 f g in
        let others = refs_total-same (tree_size d1 n) (tree_size d n) ib m (j + 1) (λ j1 lo hi.
          tree_size-same d d1 label i n (p * refs_per_block + j1) (word ib j1)
            (λ c u. (kept j1 (omega (arith, lo)) c u).0)
            (kids j1 (omega (arith, lo)) (omega (arith, hi, all)))) in
        mono
          (free_refs-Clears i n free ib p m (j + 1) d1 label1 k1 sn1 t each (omega (arith, all))
            g.free
            (λ j1 lo hi.
              (Tree-same d d1 label label1 i n (p * refs_per_block + j1) (word ib j1)
                (kept j1 (omega (arith, lo))) (kids j1 (omega (arith, lo)) hi)).0)
            sh1)
          (λ sn2 u (d2, label2, k2, sh2, h). (
            d2,
            label2,
            k2,
            sh2,
            Cleared-trans size d label k sn (Under i n place) (Kids i n p (j + 1)) (Kids i n p j)
                (tree_size d n (word ib j)) (refs_total (tree_size d1 n) ib m (j + 1))
                (tree_size d n (word ib j) + refs_total (tree_size d n) ib m (j + 1)) sn1 d1 label1
                k1 sn2 d2 label2 k2 (λ x u1. (j, omega arith, low, u1))
                (λ x (j1, lo, hi, u1). (j1, omega (arith, lo), hi, u1)) (omega (arith, others)) g h,
          )))

  pub recursive_free_file-Clears : (i n : ℕ) → ClearsTree i n (recursive_free_file below n)
  unfolding recursive_free_file tree_size Tree
  recursive_free_file-Clears i zero d label k sn p b s nz f tree sh =
      let l = Tree-label d label i 0 p b nz tree in
      let some_block : (b == 0) ≡ false = ground (arith, nz) in
      rw (some_block) (
        mono (treedisk_free_block-Gives store size small d label k sn b s f (ap in_use l) nz sh)
          (λ sn1 t (d1, label1, k1, sh1, g). (
            d1,
            label1,
            k1,
            sh1,
            Given-Cleared size d label k sn b (Under i 0 p) sn1 d1 label1 k1
                (Under-self i 0 p (label b) l) g,
          )))
  recursive_free_file-Clears i (suc n) d label k sn p b s nz f (inl z) sh = absurd (nz z)
  recursive_free_file-Clears i (suc n) d label k sn p b s nz f (inr (l, len, kids)) sh =
      let some_block : (b == 0) ≡ false = ground (arith, nz) in
      let there = labelled_there size label b f.inside (λ h. ground (arith, h, l)) in
      let total = refs_total (tree_size d n) (d b) refs_per_block 0 in
      let own = λ (x : Kids i n p 0 (label b)).
        let (j1, lo, hi, u) = x in Under-level i n (p * refs_per_block + j1) p (label b) l u in
      rw (some_block) (
        read_then store size small _ s d b null_block sh there (λ t sh1.
          bind
            (free_refs-Clears i n (recursive_free_file below n) (d b) p refs_per_block 0 d label k
              sn t (recursive_free_file-Clears i n) refl f (λ j1 lo hi. kids j1 hi) sh1)
            (λ sn1 u (d1, label1, k1, sh2, g).
              let l1 = g.labels b (ap in_use l) own ∙ l in
              mono
                (treedisk_free_block-Gives store size small d1 label1 k1 sn1 b u g.free
                  (ap in_use l1) nz sh2)
                (λ sn2 v (d2, label2, k2, sh3, h). (
                  d2,
                  label2,
                  k2,
                  sh3,
                  Cleared-trans size d label k sn (Kids i n p 0) (Under i (suc n) p)
                      (Under i (suc n) p) total 1 (total + 1) sn1 d1 label1 k1 sn2 d2 label2 k2
                      (λ x (j1, lo, hi, u1). Under-lift i n p j1 x hi u1) (λ x u1. u1) refl g
                      (Given-Cleared size d1 label1 k1 sn1 b (Under i (suc n) p) sn2 d2 label2 k2
                        (Under-self i (suc n) p (label1 b) l1) h),
                )))))
