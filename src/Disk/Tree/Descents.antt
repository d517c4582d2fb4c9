-- ===== src/Disk/Tree/Descents.antt =====
-- grass/block/treedisk.c: the walk of `treedisk_write`, by the number of levels.
use operating_system_practic.Base.{
  ℕ, zero, suc, ◌+◌, ◌*◌, ◌<◌, ◌≤◌, ◌≡◌, ◌≢◌, refl, sym, ap, ◌∙◌, true, false, ◌==◌, inl, inr, ◌⊎◌,
  arith, Bool-cases, u32_mod, Option, set, update,
}
use mathlib.Core.Path.{subst}
use operating_system_practic.Run.{ok, Returns, returns, mono, bind}
use operating_system_practic.Store.{Block, BlockStore, IsStore}
use operating_system_practic.Disk.Tree.{
  word, null_block, refs_per_block, index, Snapshot, free_list,
}
use operating_system_practic.Disk.Tree.Write.{get_child, get_refs, write_down}
use operating_system_practic.Disk.Tree.Shows.{Disk, Shows, read_then}
use operating_system_practic.Disk.Tree.Labels.{node, in_use, Labels, room, Free}
use operating_system_practic.Disk.Tree.Takes.{labelled_there}
use operating_system_practic.Disk.Tree.Puts.{Half, set-get_or}
use operating_system_practic.Disk.Tree.Joins.{Put-join}
use operating_system_practic.Disk.Tree.Stores.{
  word-replicate, Tree-hole, walk-hole, Tree-label, update_label_self, New, new_labels,
  get_child-New, StoredDown, leaf-Put,
}
use operating_system_practic.Disk.Tree.Nodes.{
  anc, Under, Tree, walk, index-lt, anc-step, Under-level,
}

module _ {S : Type 0} {below : BlockStore S} {Valid : S → Type 0} {view : S → ℕ → Option Block}
    (store : IsStore below Valid view) (size : ℕ) (small : size < u32_mod) where
  get_child_old :
      (pb : Block) (idx off : ℕ) (sn : Snapshot) (s : S)
      → (word pb idx == 0) ≡ false
      → get_child below pb idx off sn s ≡ ok (word pb idx, sn) s
  unfolding get_child
  get_child_old pb idx off sn s e = rw (e) refl

  get_refs_old :
      (d : Disk) (b : ℕ) (s : S)
      → b < size
      → Shows Valid view size s d
      → Returns (λ tib t. (tib ≡ d b) × Shows Valid view size t d) (get_refs below false b s)
  unfolding get_refs
  get_refs_old d b s lt sh =
      read_then store size small _ s d b null_block sh lt (λ t sh1. returns (refl, sh1))

  current_old :
      (x pb : Block) (idx : ℕ)
      → (x ≡ pb) ⊎ (word pb idx ≡ 0)
      → word pb idx ≢ 0
      → x ≡ set pb idx (word pb idx)
  current_old x pb idx (inl e) nz = e ∙ sym (set-get_or pb idx)
  current_old x pb idx (inr z) nz = absurd (nz z)

  -- A new node holds nothing.
  New-Half :
      (d : Disk) (label : Labels) (k : ℕ) (sb : Block) (i n p o : ℕ) (pb : Block) (idx off b : ℕ)
      (sb1 : Block) (d1 : Disk) (k1 : ℕ)
      → word pb idx ≡ 0
      → New store size small d label k sb i (suc n) p pb idx off b sb1 d1 k1
      → Half size d label k sb i n p o pb idx off d1
          (update label b (node i (suc n) p))
          k1
          sb1
          b
          null_block
  New-Half d label k sb i n p o pb idx off b sb1 d1 k1 z new = record {
    free = new.free;
    linked = new.linked;
    placed = update_label_self label b (node i (suc n) p);
    owned = inl new.unused;
    long = refl;
    current = inr (word-replicate 256 (index o n));
    kids = λ j lt.
        Tree-hole d1 _ i n (p * refs_per_block + j) (word null_block j) (word-replicate 256 j);
    content = λ o1.
        walk-hole d1 n (word null_block (index o1 n)) o1 (word-replicate 256 (index o1 n))
        ∙ sym (walk-hole d (suc n) (word pb idx) o1 z);
    frame = new.frame;
    labels = new_labels store size small label b (node i (suc n) p) new.unused;
    count = new.count;
    inodeblocks = new.inodeblocks;
  }

  old-Half :
      (d : Disk) (label : Labels) (k : ℕ) (sb : Block) (i n p o : ℕ) (pb : Block) (idx off : ℕ)
      → word pb idx ≢ 0
      → Free size d label k sb
      → Tree d label i (suc n) p (word pb idx)
      → (d off ≡ pb) ⊎ (word pb idx ≡ 0)
      → Half size d label k sb i n p o pb idx off d label k sb (word pb idx) (d (word pb idx))
  unfolding Tree walk
  old-Half d label k sb i n p o pb idx off nz f (inl z) current = absurd (nz z)
  old-Half d label k sb i n p o pb idx off nz f (inr (l, len, kids)) current = record {
    free = f;
    linked = current_old (d off) pb idx current nz;
    placed = l;
    owned = inr l;
    long = len;
    current = inl refl;
    kids = kids;
    content = λ o1. let e : (word pb idx == 0) ≡ false = ground (arith, nz) in rw (e) refl;
    frame = λ c u z ne. refl;
    labels = λ c u. refl;
    count = omega arith;
    inodeblocks = refl;
  }

  pub write_down-Put :
      (n : ℕ) (d : Disk) (label : Labels) (k : ℕ) (sn : Snapshot) (i p o : ℕ) (blk pb : Block)
      (idx off : ℕ) (s : S)
      → n ≤ 4
      → anc n o ≡ p
      → Free size d label k sn.superblock
      → suc n ≤ room d k (free_list sn.superblock)
      → in_use (label off) ≡ true
      → off ≢ 0
      → (Under i n p (label off) → ⊥)
      → Tree d label i n p (word pb idx)
      → (d off ≡ pb) ⊎ (word pb idx ≡ 0)
      → Shows Valid view size s d
      → Returns
          (StoredDown store size small d label k sn.superblock i n p o blk pb idx off)
          (write_down below n o blk pb idx off sn s)
  unfolding write_down get_refs anc
  write_down-Put zero d label k sn i p o blk pb idx off s le at f roomy used nz away tree current
        sh =
      let lt = labelled_there size label off f.inside (λ h. ground (arith, h, used)) in
      elim (Bool-cases (word pb idx == 0)) [
        | inl e ↦
            bind
              (get_child-New store size small d label k sn i 0 p pb idx off s e f
                (omega (arith, roomy)) used nz lt sh)
              (λ (b, sn1) t (d1, k1, sh1, new).
                leaf-Put store size small d label k sn.superblock i p o blk pb idx off b d1
                  (update label b (node i 0 p)) k1 sn1.superblock t at new.free
                  (update_label_self label b (node i 0 p)) (inl new.unused) new.linked new.frame
                  (new_labels store size small label b (node i 0 p) new.unused) new.count
                  new.inodeblocks used nz away sh1)
        | inr e ↦
            let bz : word pb idx ≢ 0 = ground arith in
            let l = Tree-label d label i 0 p (word pb idx) bz tree in
            rw (get_child_old pb idx off sn s e) (
              leaf-Put store size small d label k sn.superblock i p o blk pb idx off (word pb idx) d
                label k sn.superblock s at f l (inr l) (current_old (d off) pb idx current bz)
                (λ c u z ne. refl) (λ c u. refl) (omega arith) refl used nz away sh)
      ]
  write_down-Put (suc n) d label k sn i p o blk pb idx off s le at f roomy used nz away tree current
        sh =
      let lt = labelled_there size label off f.inside (λ h. ground (arith, h, used)) in
      elim (Bool-cases (word pb idx == 0)) [
        | inl e ↦
            let z : word pb idx ≡ 0 = ground arith in
            rw (e) (
              bind
                (get_child-New store size small d label k sn i (suc n) p pb idx off s e f
                  (omega (arith, roomy)) used nz lt sh)
                (λ (b, sn1) t (d1, k1, sh1, new).
                  let label1 = update label b (node i (suc n) p) in
                  let half =
                    New-Half d label k sn.superblock i n p o pb idx off b sn1.superblock d1 k1 z
                      new in
                  mono
                    (write_down-Put n d1 label1 k1 sn1 i (anc n o) o blk null_block (index o n) b t
                      (omega (arith, le)) refl new.free (omega (arith, roomy, new.count))
                      (ap in_use half.placed)
                      (λ h. ground (arith, half.free.super_lem, half.placed, ap label1 h))
                      (Under-level i n (anc n o) p (label1 b) half.placed)
                      (Tree-hole d1 label1 i n (anc n o) (word null_block (index o n))
                        (word-replicate 256 (index o n)))
                      half.current sh1)
                    (λ r u (done, d2, label2, k2, sb2, c1, sh2, put). (
                      done,
                      d2,
                      label2,
                      k2,
                      sb2,
                      b,
                      sh2,
                      Put-join size d label k sn.superblock i n p o blk pb idx off d1 label1 k1
                          sn1.superblock b null_block (omega (arith, le)) at used nz away half d2
                          label2 k2 sb2 c1 put,
                    ))))
        | inr e ↦
            let bz : word pb idx ≢ 0 = ground arith in
            let b = word pb idx in
            let l = Tree-label d label i (suc n) p b bz tree in
            let there = labelled_there size label b f.inside (λ h. ground (arith, h, l)) in
            let half = old-Half d label k sn.superblock i n p o pb idx off bz f tree current in
            rw (get_child_old pb idx off sn s e, e)
              (bind (get_refs_old d b s there sh) (λ tib t (same, sh1).
                subst
                  (λ x.
                    Returns
                      (StoredDown store size small d label k sn.superblock i (suc n) p o blk pb idx
                        off)
                      (write_down below n o blk x (index o n) b sn t))
                  (sym same)
                  (mono
                    (write_down-Put n d label k sn i (anc n o) o blk (d b) (index o n) b t
                      (omega (arith, le)) refl f (omega (arith, roomy)) (ap in_use l) bz
                      (Under-level i n (anc n o) p (label b) l)
                      (subst (λ x. Tree d label i n x (word (d b) (index o n)))
                        (anc-step o n p (omega (arith, le)) at)
                        (half.kids (index o n) (index-lt o n)))
                      half.current sh1)
                    (λ r u (done, d2, label2, k2, sb2, c1, sh2, put). (
                      done,
                      d2,
                      label2,
                      k2,
                      sb2,
                      b,
                      sh2,
                      Put-join size d label k sn.superblock i n p o blk pb idx off d label k
                          sn.superblock b (d b) (omega (arith, le)) at used nz away half d2 label2
                          k2 sb2 c1 put,
                    )))))
      ]
