-- ===== src/Disk/Tree/Frees.antt =====
-- grass/block/treedisk.c: `treedisk_free_block` puts a block in use onto the free list.
use operating_system_practic.Base.{
  ℕ, zero, suc, ◌+◌, ◌<◌, ◌≤◌, ◌≡◌, ◌≢◌, refl, sym, ap, ◌∙◌, true, false, ◌==◌, inl, inr, ◌⊎◌,
  arith, Bool-cases, u32_mod, Option, set, length, length-set, get_or-set_self, get_or-set_ne,
  update,
}
use mathlib.Core.Path.{subst}
use operating_system_practic.Store.{Block, BlockStore, IsStore}
use operating_system_practic.Disk.Tree.{word, refs_per_block, Snapshot, free_list, set_free_list}
use operating_system_practic.Disk.Tree.Blocks.{first_empty}
use operating_system_practic.Disk.Tree.Shows.{Disk, Shows}
use operating_system_practic.Disk.Tree.Lists.{used_slots}
use operating_system_practic.Disk.Tree.Labels.{
  Label, chain, slot, in_use, Labels, Slots, Chain, room, Free, SameList, Chain-same,
}
use operating_system_practic.Disk.Tree.Takes.{
  update_label_ne, update_disk_ne, update_disk_self, update_label_inside,
}
use operating_system_practic.Disk.Tree.Stores.{update_label_self}

-- What the search for an empty slot finds.
pub first_empty-empty :
    (fl : Block) (n i : ℕ)
    → i ≤ first_empty fl n i
      × ((first_empty fl n i ≡ i + n)
          ⊎ ((first_empty fl n i < i + n) × (word fl (first_empty fl n i) ≡ 0)))
unfolding first_empty
first_empty-empty fl zero i = (omega arith, inl (omega arith))
first_empty-empty fl (suc n) i = elim (Bool-cases (word fl i == 0)) [
  | inl e ↦ rw (e) (omega arith, inr (omega arith, ground arith))
  | inr e ↦ rw (e) (
      let (le, found) = first_empty-empty fl n (i + 1) in
      elim found [
        | inl a ↦ (omega (arith, le), inl (omega (arith, a)))
        | inr (a, z) ↦ (omega (arith, le), inr (omega (arith, a), z))
      ])
]

-- Filling an empty slot makes the used ones one more.
used_slots-same : (fl : Block) (i v n : ℕ) → n < i → used_slots (set fl i v) n ≡ used_slots fl n
unfolding used_slots
used_slots-same fl i v zero lt = refl
used_slots-same fl i v (suc n) lt =
    rw
      (
        get_or-set_ne fl {i = i} {j = suc n} v 0 (omega arith),
        used_slots-same fl i v n (omega arith),
      )
      refl

pub used_slots-fill :
    (fl : Block) (i v n : ℕ)
    → 0 < i
    → i ≤ n
    → n < length fl
    → word fl i ≡ 0
    → v ≢ 0
    → used_slots (set fl i v) n ≡ used_slots fl n + 1
unfolding used_slots
used_slots-fill fl i v zero pos le lt z nz = absurd (omega arith)
used_slots-fill fl i v (suc n) pos le lt z nz = elim (Bool-cases (i == suc n)) [
  | inl e ↦
      let same : i ≡ suc n = ground arith in
      let used : (v == 0) ≡ false = ground (arith, nz) in
      let empty : word fl (suc n) ≡ 0 = ap (word fl) (sym same) ∙ z in
      rw
        (
          used_slots-same fl i v n (omega (arith, same)),
          same,
          get_or-set_self fl (suc n) v 0 lt,
          used,
          empty,
        )
        (omega arith)
  | inr e ↦
      let other : i ≢ suc n = ground arith in
      rw (get_or-set_ne fl {i = i} {j = suc n} v 0 other)
        (omega (arith, used_slots-fill fl i v n pos (omega arith) (omega arith) z nz))
]

-- What is left when the block `b` was given up.
pub record Given (size : ℕ) (d : Disk) (label : Labels) (k : ℕ) (sn : Snapshot) (b : ℕ)
    (sn1 : Snapshot) (d1 : Disk) (label1 : Labels) (k1 : ℕ) : Type 0 where
  pub free : Free size d1 label1 k1 sn1.superblock
  pub unused : in_use (label1 b) ≡ false
  pub frame : (c : ℕ) → in_use (label c) ≡ true → c ≢ 0 → c ≢ b → d1 c ≡ d c
  pub labels : (c : ℕ) → in_use (label c) ≡ true → c ≢ b → label1 c ≡ label c
  pub count : room d1 k1 (free_list sn1.superblock) ≡ room d k (free_list sn.superblock) + 1
  pub rest : sn1 ≡ record sn { superblock = sn1.superblock }
  pub inodeblocks : word sn1.superblock 0 ≡ word sn.superblock 0

null-Slots :
    (label : Labels) (k : ℕ) (x : Block) → ((j : ℕ) → 0 < j → word x j ≡ 0) → Slots label k x
null-Slots label k x z j pos le = inl (z j pos)

no_slots : (x : Block) (n : ℕ) → ((j : ℕ) → 0 < j → word x j ≡ 0) → used_slots x n ≡ 0
unfolding used_slots
no_slots x zero z = refl
no_slots x (suc n) z = rw (z (suc n) (omega arith), no_slots x n z) refl

-- The labels of the free list do not change when a block in use gets another one.
relabel_same :
    (d d1 : Disk) (label : Labels) (b k : ℕ) (to : Label)
    → in_use (label b) ≡ true
    → ((c j : ℕ) → j < k → label c ≡ chain j → d1 c ≡ d c)
    → SameList k d d1 label (update label b to)
relabel_same d d1 label b k to used same = record {
  blocks = λ c j lt e.
      (same c j lt e, update_label_ne label b to c (λ h. ground (arith, used, e, ap in_use h)));
  slots = λ c j i lt e. update_label_ne label b to c (λ h. ground (arith, used, e, ap in_use h));
}

module _ {S : Type 0} {below : BlockStore S} {Valid : S → Type 0} {view : S → ℕ → Option Block}
    (store : IsStore below Valid view) (size : ℕ) (small : size < u32_mod) where
  -- The result of a call that gives up a block.
  abbrev pub Gives :
      (d : Disk) (label : Labels) (k : ℕ) (sn : Snapshot) (b : ℕ) → Snapshot → S → Type 0
  Gives d label k sn b sn1 t =
      (d1 : Disk) × (label1 : Labels) × (k1 : ℕ) × Shows Valid view size t d1
      × Given size d label k sn b sn1 d1 label1 k1

  -- The block has been cleared.
  module _ (d : Disk) (label : Labels) (sn : Snapshot) (b : ℕ) (used : in_use (label b) ≡ true)
      (nz : b ≢ 0) (there : b < size) where
    -- The block is the new head of the list.
    module _ (k : ℕ) (x : Block) (f : Free size d label k sn.superblock)
        (len : length x ≡ refs_per_block) (next : word x 0 ≡ free_list sn.superblock)
        (empty : (j : ℕ) → 0 < j → word x j ≡ 0) where
      pub new_head :
          Given size d label k sn b
            (set_free_list b sn)
            (update (update d 0 (set sn.superblock 1 b)) b x)
            (update label b (chain k))
            (suc k)
      unfolding room Chain
      new_head =
          let sb1 = set sn.superblock 1 b in
          let d1 = update d 0 sb1 in
          let d2 = update d1 b x in
          let label1 = update label b (chain k) in
          let placed = update_label_self label b (chain k) in
          let at1 : word sb1 1 ≡ b = get_or-set_self sn.superblock 1 b 0 (omega (arith, f.long)) in
          let at_b = update_disk_self d1 b x in
          let same = relabel_same d d2 label b k (chain k) used (λ c j lt e.
            update_disk_ne d1 b x c (λ h. ground (arith, used, e, ap (λ y. in_use (label y)) h))
            ∙ update_disk_ne d 0 sb1 c (λ h. ground (arith, f.super_lem, e, ap label h))) in
          let (c1, r1) = Chain-same k (free_list sn.superblock) d d2 label label1 same f.list in
          record {
            free = record {
              on_disk = update_disk_ne d1 b x 0 nz ∙ update_disk_self d 0 sb1;
              long = length-set sn.superblock 1 b ∙ f.long;
              super_lem = update_label_zero ∙ f.super_lem;
              list = rw (at1) (
                placed,
                ap length at_b ∙ len,
                subst (Slots label1 k) (sym at_b) (null-Slots label1 k x empty),
                subst (Chain d2 label1 k) (sym (ap (λ y. word y 0) at_b ∙ next)) c1,
              );
              inside = update_label_inside size label b (chain k) f.inside there;
            };
            unused = ap in_use placed;
            frame = λ c u z ne.
                update_disk_ne d1 b x c (λ h. ne (sym h))
                ∙ update_disk_ne d 0 sb1 c (λ h. z (sym h));
            labels = λ c u ne. update_label_other c (λ h. ne (sym h));
            count =
                ap (room d2 (suc k)) at1
                ∙ ap (λ y. suc (used_slots y 255 + room d2 k (word y 0))) at_b
                ∙ ap (λ y. suc (y + room d2 k (word x 0))) (no_slots x 255 empty)
                ∙ ap (λ y. suc (0 + room d2 k y)) next
                ∙ omega (arith, r1);
            rest = refl;
            inodeblocks = get_or-set_ne sn.superblock {i = 1} {j = 0} b 0 (omega arith);
          }
        where
          update_label_other : (c : ℕ) → b ≢ c → update label b (chain k) c ≡ label c
          update_label_other c ne = ground arith

          update_label_zero : update label b (chain k) 0 ≡ label 0
          update_label_zero = ground (arith, nz)

    -- The block goes to slot `r` of the head of the list.
    module _ (k r : ℕ) (f : Free size d label (suc k) sn.superblock) (pos : 0 < r) (le : r ≤ 255)
        (hole : word (d (free_list sn.superblock)) r ≡ 0) where
      pub new_slot :
          Given size d label
            (suc k)
            sn
            b
            sn
            (update d (free_list sn.superblock) (set (d (free_list sn.superblock)) r b))
            (update label b (slot k r))
            (suc k)
      unfolding room Chain
      new_slot =
          let head = free_list sn.superblock in
          let fl = d head in
          let fl1 = set fl r b in
          let d1 = update d head fl1 in
          let label1 = update label b (slot k r) in
          let (l, len, slots, list) = f.list in
          let at = update_disk_self d head fl1 in
          let same =
            relabel_same d d1 label b k (slot k r) used
              (λ c j lt e. update_disk_ne d head fl1 c (λ h. ground (arith, l, e, ap label h))) in
          let (c1, r1) = Chain-same k (word fl 0) d d1 label label1 same list in
          let next : word (d1 head) 0 ≡ word fl 0 =
            ap (λ y. word y 0) at ∙ get_or-set_ne fl {i = r} {j = 0} b 0 (omega (arith, pos)) in
          record {
            free = record {
              on_disk =
                  update_disk_ne d head fl1 0 (λ h. ground (arith, l, f.super_lem, ap label h))
                  ∙ f.on_disk;
              long = f.long;
              super_lem = update_label_other 0 nz ∙ f.super_lem;
              list = (
                update_label_ne label b (slot k r) head (λ h. ground (arith, used, l, ap in_use h))
                    ∙ l,
                ap length at ∙ length-set fl r b ∙ len,
                subst (Slots label1 k) (sym at) (fill_Slots fl len slots),
                subst (Chain d1 label1 k) (sym next) c1,
              );
              inside = update_label_inside size label b (slot k r) f.inside there;
            };
            unused = ap in_use (update_label_self label b (slot k r));
            frame = λ c u z ne. update_disk_ne d head fl1 c (λ h. ground (arith, l, u, ap label h));
            labels = λ c u ne. update_label_other c (λ h. ne (sym h));
            count =
                ap (λ y. suc (used_slots y 255 + room d1 k (word (d1 head) 0))) at
                ∙ ap (λ y. suc (used_slots fl1 255 + room d1 k y)) next
                ∙ ap (λ y. suc (used_slots fl1 255 + y)) r1
                ∙ omega (arith, used_slots-fill fl r b 255 pos le (omega (arith, len)) hole nz);
            rest = refl;
            inodeblocks = refl;
          }
        where
          update_label_other : (c : ℕ) → b ≢ c → update label b (slot k r) c ≡ label c
          update_label_other c ne = ground arith

          fill_Slots :
              (fl : Block)
              → length fl ≡ refs_per_block
              → Slots label k fl
              → Slots (update label b (slot k r)) k (set fl r b)
          fill_Slots fl len slots j posj lt = elim (Bool-cases (r == j)) [
            | inl e ↦
                let here : r ≡ j = ground arith in
                let at : word (set fl r b) j ≡ b =
                  ap (word (set fl r b)) (sym here)
                  ∙ get_or-set_self fl r b 0 (omega (arith, len, le)) in
                inr (
                  ap (update label b (slot k r)) at
                  ∙ update_label_self label b (slot k r)
                  ∙ ap (slot k) here)
            | inr e ↦
                let other : r ≢ j = ground arith in
                let at : word (set fl r b) j ≡ word fl j =
                  get_or-set_ne fl {i = r} {j = j} b 0 other in
                elim (slots j posj lt) [
                  | inl z ↦ inl (at ∙ z)
                  | inr s ↦ inr (
                      ap (update label b (slot k r)) at
                      ∙ update_label_ne label b (slot k r) (word fl j)
                          (λ h. ground (arith, used, s, ap in_use h))
                      ∙ s)
                ]
          ]
