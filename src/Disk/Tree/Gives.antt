-- ===== src/Disk/Tree/Gives.antt =====
-- grass/block/treedisk.c: every branch of `treedisk_free_block` gives the block up.
use operating_system_practic.Base.{
  ℕ, zero, suc, ◌<◌, ◌≡◌, ◌≢◌, refl, sym, ap, ◌∙◌, true, false, ◌==◌, inl, inr, ◌⊎◌, arith,
  Bool-cases, u32_mod, Option, some, set, length-set, get_or-set_self, get_or-set_ne, update,
}
use mathlib.Core.Path.{subst}
use operating_system_practic.Run.{Returns, returns, mono}
use operating_system_practic.Store.{Block, BlockStore, IsStore}
use operating_system_practic.Disk.Tree.{word, null_block, refs_per_block, Snapshot, free_list}
use operating_system_practic.Disk.Tree.Blocks.{first_empty, put_ref, add_free, treedisk_free_block}
use operating_system_practic.Disk.Tree.Shows.{Disk, Shows, read_then, write_then}
use operating_system_practic.Disk.Tree.Labels.{in_use, Labels, Chain, Free}
use operating_system_practic.Disk.Tree.Takes.{update_disk_ne, update_disk_self, labelled_there}
use operating_system_practic.Disk.Tree.Puts.{Free-write}
use operating_system_practic.Disk.Tree.Stores.{word-replicate}
use operating_system_practic.Disk.Tree.Frees.{first_empty-empty, Gives, new_head, new_slot}

module _ {S : Type 0} {below : BlockStore S} {Valid : S → Type 0} {view : S → ℕ → Option Block}
    (store : IsStore below Valid view) (size : ℕ) (small : size < u32_mod) (d : Disk)
    (label : Labels) (sn : Snapshot) (b : ℕ) (used : in_use (label b) ≡ true) (nz : b ≢ 0)
    (there : b < size) where
  put_ref-Gives :
      (k r h : ℕ) (s : S)
      → h ≡ free_list sn.superblock
      → Free size d label (suc k) sn.superblock
      → 0 < r
      → (r ≡ refs_per_block) ⊎ ((r < refs_per_block) × (word (d h) r ≡ 0))
      → Shows Valid view size s d
      → Returns (Gives store size small d label (suc k) sn b) (put_ref below r h b (d h) sn s)
  unfolding put_ref Chain
  put_ref-Gives k r h s e f pos (inl full) sh =
      let x = set null_block 0 h in
      rw (full) (
        write_then store size small _ s d 0 (set sn.superblock 1 b) sh (omega (arith, there))
          (λ t sh1.
            write_then store size small _ t (update d 0 (set sn.superblock 1 b)) b x sh1 there
              (λ u sh2. returns (
                _,
                _,
                suc (suc k),
                sh2,
                new_head store size small d label sn b used nz there (suc k) x f
                    (length-set null_block 0 h) (get_or-set_self null_block 0 h 0 (omega arith) ∙ e)
                    (λ j gt.
                      get_or-set_ne null_block {i = 0} {j = j} h 0 (omega (arith, gt))
                      ∙ word-replicate 256 j),
              ))))
  put_ref-Gives k r h s e f pos (inr (lt, hole)) sh =
      let some_slot : (r == refs_per_block) ≡ false = ground arith in
      let l = f.list.0 in
      let head_there =
        labelled_there size label h f.inside (λ o. ground (arith, o, l, ap label e)) in
      rw (some_slot) (
        write_then store size small _ s d h (set (d h) r b) sh head_there (λ t sh1. returns (
          _,
          _,
          suc k,
          subst (λ y. Shows Valid view size t (update d y (set (d y) r b))) e sh1,
          new_slot store size small d label sn b used nz there k r f pos (omega (arith, lt))
              (ap (λ y. word (d y) r) (sym e) ∙ hole),
        )))

  -- The block holds null bytes.
  add_free-Gives :
      (k h : ℕ) (s : S)
      → h ≡ free_list sn.superblock
      → d b ≡ null_block
      → Free size d label k sn.superblock
      → Shows Valid view size s d
      → Returns (Gives store size small d label k sn b) (add_free below h b sn s)
  unfolding add_free Chain
  add_free-Gives zero zero s e clear f sh =
      write_then store size small _ s d 0 (set sn.superblock 1 b) sh (omega (arith, there))
        (λ t sh1. returns (
          _,
          _,
          1,
          shows_clear t sh1,
          new_head store size small d label sn b used nz there 0 null_block f refl e
              (λ j gt. word-replicate 256 j),
        ))
    where
      shows_clear :
          (t : S)
          → Shows Valid view size t (update d 0 (set sn.superblock 1 b))
          → Shows Valid view size t (update (update d 0 (set sn.superblock 1 b)) b null_block)
      shows_clear t (v, holds) = (v, λ o lt. holds o lt ∙ ap some (clear_at o))
        where
          clear_at :
              (o : ℕ)
              → update d 0 (set sn.superblock 1 b) o
                ≡ update (update d 0 (set sn.superblock 1 b)) b null_block o
          clear_at o = elim (Bool-cases (b == o)) [
            | inl e1 ↦
                let here : b ≡ o = ground arith in
                rw (e1) (
                  ap (update d 0 (set sn.superblock 1 b)) (sym here)
                  ∙ update_disk_ne d 0 (set sn.superblock 1 b) b (λ z. nz (sym z))
                  ∙ clear)
            | inr e1 ↦ rw (e1) refl
          ]
  add_free-Gives zero (suc c) s e clear f sh = absurd (omega (arith, e, f.list))
  add_free-Gives (suc k) zero s e clear f sh =
      let l = f.list.0 in absurd (ground (arith, f.super_lem, l, ap label e))
  add_free-Gives (suc k) (suc c) s e clear f sh =
      let l = f.list.0 in
      let head_there =
        labelled_there size label (suc c) f.inside (λ o. ground (arith, o, l, ap label e)) in
      let (pos, found) = first_empty-empty (d (suc c)) 255 1 in
      read_then store size small _ s d (suc c) null_block sh head_there (λ t sh1.
        put_ref-Gives k (first_empty (d (suc c)) 255 1) (suc c) t e f (omega (arith, pos)) found
          sh1)

module _ {S : Type 0} {below : BlockStore S} {Valid : S → Type 0} {view : S → ℕ → Option Block}
    (store : IsStore below Valid view) (size : ℕ) (small : size < u32_mod) where
  -- Over a block store with the contract, of fewer than 2^32 blocks, where the free list is
  -- sound, `treedisk_free_block` of a block in use that is not the superblock returns. The free
  -- list with it is sound and has one block more to give, and everything else in use, but for the
  -- superblock, is as it was.
  pub treedisk_free_block-Gives :
      (d : Disk) (label : Labels) (k : ℕ) (sn : Snapshot) (b : ℕ) (s : S)
      → Free size d label k sn.superblock
      → in_use (label b) ≡ true
      → b ≢ 0
      → Shows Valid view size s d
      → Returns (Gives store size small d label k sn b) (treedisk_free_block below b sn s)
  unfolding treedisk_free_block
  treedisk_free_block-Gives d label k sn b s f used nz sh =
      let there = labelled_there size label b f.inside (λ o. ground (arith, used, ap in_use o)) in
      let d0 = update d b null_block in
      let (f0, room0) = Free-write size d label k sn.superblock b null_block f used nz in
      write_then store size small _ s d b null_block sh there (λ t sh1.
        mono
          (add_free-Gives store size small d0 label sn b used nz there k (free_list sn.superblock) t
            refl (update_disk_self d b null_block) f0 sh1)
          (λ sn1 u (d1, label1, k1, sh2, g). (
            d1,
            label1,
            k1,
            sh2,
            record {
              free = g.free;
              unused = g.unused;
              frame = λ c uc z ne.
                  g.frame c uc z ne ∙ update_disk_ne d b null_block c (λ h. ne (sym h));
              labels = g.labels;
              count = omega (arith, g.count, room0);
              rest = g.rest;
              inodeblocks = g.inodeblocks;
            },
          )))
