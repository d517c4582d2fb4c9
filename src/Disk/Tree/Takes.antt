-- ===== src/Disk/Tree/Takes.antt =====
-- grass/block/treedisk.c: a block that `treedisk_alloc_block` gives was free, and the free list is
-- what is left.
use operating_system_practic.Base.{
  ℕ, zero, suc, ◌+◌, ◌<◌, ◌≤◌, ◌≡◌, ◌≢◌, refl, sym, ap, ◌∙◌, true, false, ◌==◌, inl, inr, ◌⊎◌, set,
  length, length-set, get_or-set_self, get_or-set_ne, update, u32_mod, arith, Bool-cases, Option,
}
use mathlib.Core.Path.{subst}
use operating_system_practic.Run.{Returns, returns}
use operating_system_practic.Store.{Block, BlockStore, IsStore}
use operating_system_practic.Disk.Tree.{word, null_block, free_list, refs_per_block, Snapshot}
use operating_system_practic.Disk.Tree.Blocks.{take_ref, treedisk_alloc_block}
use operating_system_practic.Disk.Tree.Lists.{used_slots, last_ref-used, used_slots-clear}
use operating_system_practic.Disk.Tree.Shows.{Disk, Shows, read_then, write_then}
use operating_system_practic.Disk.Tree.Labels.{
  Label, outside, chain, slot, in_use, Labels, Slots, Chain, room, Free, SameList, Chain-same,
}

-- What is left when a block was taken for the place `to`.
pub record Taken (size : ℕ) (d : Disk) (label : Labels) (k : ℕ) (sn : Snapshot) (to : Label) (b : ℕ)
    (sn1 : Snapshot) (d1 : Disk) (k1 : ℕ) : Type 0 where
  pub free : Free size d1 (update label b to) k1 sn1.superblock
  pub unused : in_use (label b) ≡ false
  pub there : b < size
  pub frame : (c : ℕ) → in_use (label c) ≡ true → c ≢ 0 → d1 c ≡ d c
  pub count : room d1 k1 (free_list sn1.superblock) + 1 ≡ room d k (free_list sn.superblock)
  pub rest : sn1 ≡ record sn { superblock = sn1.superblock }
  pub inodeblocks : word sn1.superblock 0 ≡ word sn.superblock 0

-- A label is not another.
pub update_label_ne :
    (label : Labels) (b : ℕ) (to : Label) (c : ℕ)
    → label b ≢ label c
    → update label b to c ≡ label c
update_label_ne label b to c ne = elim (Bool-cases (b == c)) [
  | inl e ↦ let same : b ≡ c = ground arith in absurd (ne (ap label same))
  | inr e ↦ rw (e) refl
]

used-ne : (label : Labels) (b c : ℕ) → in_use (label b) ≡ false → in_use (label c) ≡ true → b ≢ c
used-ne label b c f u e = ground (arith, ap (λ x. in_use (label x)) e)

pub update_disk_ne : (d : Disk) (o : ℕ) (b : Block) (c : ℕ) → o ≢ c → update d o b c ≡ d c
update_disk_ne d o b c ne = ground arith

pub update_disk_self : (d : Disk) (o : ℕ) (b : Block) → update d o b o ≡ b
update_disk_self d o b = ground arith

-- The other slots of a free list block keep what they hold when one is cleared.
Slots-clear :
    (label : Labels) (k i : ℕ) (fl : Block) (to : Label)
    → length fl ≡ refs_per_block
    → label (word fl i) ≡ slot k i
    → i < refs_per_block
    → Slots label k fl
    → Slots (update label (word fl i) to) k (set fl i 0)
Slots-clear label k i fl to len l lt slots j pos le = elim (Bool-cases (i == j)) [
  | inl e ↦
      let same : i ≡ j = ground arith in
      inl (ap (λ x. word (set fl i 0) x) (sym same) ∙ get_or-set_self fl i 0 0 (omega (arith, len)))
  | inr e ↦
      let other : i ≢ j = ground arith in
      let at : word (set fl i 0) j ≡ word fl j = get_or-set_ne fl {i = i} {j = j} 0 0 other in
      elim (slots j pos le) [
        | inl z ↦ inl (at ∙ z)
        | inr e1 ↦ inr (
            ap (update label (word fl i) to) at
            ∙ update_label_ne label (word fl i) to (word fl j) (λ h. ground (arith, l, e1, h))
            ∙ e1)
      ]
]

pub update_label_inside :
    (size : ℕ) (label : Labels) (b : ℕ) (to : Label)
    → ((c : ℕ) → (label c ≡ outside) ⊎ (c < size))
    → b < size
    → (c : ℕ) → (update label b to c ≡ outside) ⊎ (c < size)
update_label_inside size label b to inside lt c = elim (Bool-cases (b == c)) [
  | inl e ↦ let same : b ≡ c = ground arith in inr (omega arith)
  | inr e ↦ rw (e) (inside c)
]

-- A block with a label of its own is on the store.
pub labelled_there :
    (size : ℕ) (label : Labels) (b : ℕ)
    → ((c : ℕ) → (label c ≡ outside) ⊎ (c < size))
    → label b ≢ outside
    → b < size
labelled_there size label b inside ne = elim (inside b) [ inl e ↦ absurd (ne e) | inr h ↦ h ]

fewer : (u1 u r : ℕ) → u1 + 1 ≡ u → suc (u1 + r) + 1 ≡ suc (u + r)
fewer u1 u r e = omega (arith, e)

module _ {S : Type 0} {below : BlockStore S} {Valid : S → Type 0} {view : S → ℕ → Option Block}
    (store : IsStore below Valid view) (size : ℕ) (small : size < u32_mod) where
  -- The result of a call that takes a block.
  abbrev pub Takes :
      (d : Disk) (label : Labels) (k : ℕ) (sn : Snapshot) (to : Label) → ℕ × Snapshot → S → Type 0
  Takes d label k sn to r s =
      (d1 : Disk) × (k1 : ℕ) × Shows Valid view size s d1 × Taken size d label k sn to r.0 r.1 d1 k1

  module _ (d : Disk) (label : Labels) (k : ℕ) (sn : Snapshot) (to : Label)
      (f : Free size d label (suc k) sn.superblock) (l : label (free_list sn.superblock) ≡ chain k)
      (len : length (d (free_list sn.superblock)) ≡ refs_per_block)
      (slots : Slots label k (d (free_list sn.superblock)))
      (list : Chain d label k (word (d (free_list sn.superblock)) 0)) where
    take_head :
        (s : S)
        → in_use to ≡ true
        → used_slots (d (free_list sn.superblock)) 255 ≡ 0
        → Shows Valid view size s d
        → Returns
            (Takes d label (suc k) sn to)
            (take_ref below 0 (free_list sn.superblock) (d (free_list sn.superblock)) sn s)
    unfolding take_ref room
    take_head s used none sh =
        let b = free_list sn.superblock in
        let next = word (d b) 0 in
        let sb1 = set sn.superblock 1 next in
        let d1 = update d 0 sb1 in
        let at1 : word sb1 1 ≡ next =
          get_or-set_self sn.superblock 1 next 0 (omega (arith, f.long)) in
        let zero_free : (c : ℕ) → 0 ≡ c → in_use (label c) ≢ false =
          λ c z u. ground (arith, ap (λ i. in_use (label i)) z, f.super_lem, u) in
        let there = labelled_there size label b f.inside (λ h. ground (arith, l, h)) in
        let same : SameList k d d1 label (update label b to) = record {
          blocks = λ c j lt e. (
            update_disk_ne d 0 sb1 c (λ z. zero_free c z (ap in_use e)),
            update_label_ne label b to c (λ h. ground (arith, l, e, h)),
          );
          slots = λ c j i lt e. update_label_ne label b to c (λ h. ground (arith, l, e, h));
        } in
        let (c1, r1) = Chain-same k next d d1 label (update label b to) same list in
        write_then store size small _ s d 0 sb1 sh (omega (arith, there)) (λ t sh1. returns (
          d1,
          k,
          sh1,
          record {
            free = record {
              on_disk = refl;
              long = length-set sn.superblock 1 next ∙ f.long;
              super_lem =
                  update_label_ne label b to 0 (λ h. ground (arith, l, f.super_lem, h))
                  ∙ f.super_lem;
              list = rw (at1) c1;
              inside = λ c. update_label_inside size label b to f.inside there c;
            };
            unused = ap in_use l;
            there = there;
            frame = λ c u nz. update_disk_ne d 0 sb1 c (λ e. nz (sym e));
            count = rw (at1, r1, none) (omega arith);
            rest = refl;
            inodeblocks = get_or-set_ne sn.superblock {i = 1} {j = 0} next 0 (omega arith);
          },
        ))

    take_slot :
        (s : S) (i : ℕ)
        → in_use to ≡ true
        → suc i ≤ 255
        → word (d (free_list sn.superblock)) (suc i) ≢ 0
        → Shows Valid view size s d
        → Returns
            (Takes d label (suc k) sn to)
            (take_ref below (suc i) (free_list sn.superblock) (d (free_list sn.superblock)) sn s)
    unfolding take_ref room Chain
    take_slot s i used le nz sh =
        let b = free_list sn.superblock in
        let fl = d b in
        let fl1 = set fl (suc i) 0 in
        let r = word fl (suc i) in
        let d1 = update d b fl1 in
        let lr : label r ≡ slot k (suc i) = elim (slots (suc i) (omega arith) (omega arith)) [
          | inl z ↦ absurd (nz z)
          | inr h ↦ h
        ] in
        let there = labelled_there size label b f.inside (λ h. ground (arith, l, h)) in
        let there_r = labelled_there size label r f.inside (λ h. ground (arith, lr, h)) in
        let same : SameList k d d1 label (update label r to) = record {
          blocks = λ c j lt e. (
            update_disk_ne d b fl1 c (λ z. ground (arith, l, e, ap label z)),
            update_label_ne label r to c (λ h. ground (arith, lr, e, h)),
          );
          slots = λ c j m lt e. update_label_ne label r to c (λ h. ground (arith, lr, e, h));
        } in
        let next : word (d1 b) 0 ≡ word fl 0 =
          ap (λ x. word x 0) (update_disk_self d b fl1)
          ∙ get_or-set_ne fl {i = suc i} {j = 0} 0 0 (omega arith) in
        let (c1, r1) = Chain-same k (word fl 0) d d1 label (update label r to) same list in
        write_then store size small _ s d b fl1 sh there (λ t sh1. returns (
          d1,
          suc k,
          sh1,
          record {
            free = record {
              on_disk =
                  update_disk_ne d b fl1 0 (λ z. ground (arith, l, f.super_lem, ap label z))
                  ∙ f.on_disk;
              long = f.long;
              super_lem =
                  update_label_ne label r to 0 (λ h. ground (arith, lr, f.super_lem, h))
                  ∙ f.super_lem;
              list = (
                update_label_ne label r to b (λ h. ground (arith, lr, l, h)) ∙ l,
                ap length (update_disk_self d b fl1) ∙ length-set fl (suc i) 0 ∙ len,
                subst (Slots (update label r to) k) (sym (update_disk_self d b fl1))
                    (Slots-clear label k (suc i) fl to len lr (omega arith) slots),
                subst (Chain d1 (update label r to) k) (sym next) c1,
              );
              inside = update_label_inside size label r to f.inside there_r;
            };
            unused = ap in_use lr;
            there = there_r;
            frame = λ c u z. update_disk_ne d b fl1 c (λ h. ground (arith, l, u, ap label h));
            count =
                ap (λ x. suc (used_slots x 255 + room d1 k (word (d1 b) 0)) + 1)
                  (update_disk_self d b fl1)
                ∙ ap (λ x. suc (used_slots fl1 255 + room d1 k x) + 1) next
                ∙ ap (λ x. suc (used_slots fl1 255 + x) + 1) r1
                ∙ fewer (used_slots fl1 255) (used_slots fl 255) (room d k (word fl 0))
                    (used_slots-clear fl (suc i) 255 (omega arith) le (omega (arith, len)) nz);
            rest = refl;
            inodeblocks = refl;
          },
        ))

  -- Over a block store with the contract, of fewer than 2^32 blocks, where the free list is sound
  -- and not used up, `treedisk_alloc_block` returns a block that was not in use. The free list
  -- without it is sound and has one block less to give, and what is in use, but for the
  -- superblock, is as it was.
  pub treedisk_alloc_block-Takes :
      (d : Disk) (label : Labels) (k : ℕ) (sn : Snapshot) (to : Label) (s : S)
      → Free size d label k sn.superblock
      → 0 < room d k (free_list sn.superblock)
      → in_use to ≡ true
      → Shows Valid view size s d
      → Returns (Takes d label k sn to) (treedisk_alloc_block below sn s)
  unfolding treedisk_alloc_block Chain room
  treedisk_alloc_block-Takes d label zero sn to s f some_room used sh = absurd (omega arith)
  treedisk_alloc_block-Takes d label (suc k) sn to s f some_room used sh =
      let b = free_list sn.superblock in
      let (l, len, slots, list) = f.list in
      let nz : (b == 0) ≡ false = ground (arith, f.super_lem, l, ap label) in
      let there = labelled_there size label b f.inside (λ h. ground (arith, l, h)) in
      rw (nz) (
        read_then store size small _ s d b null_block sh there (λ t sh1.
          elim (last_ref-used (d b) 255) [
            | inl (z, none) ↦ rw (z) (take_head d label k sn to f l len slots list t used none sh1)
            | inr (i, e, le, at) ↦
                rw (e) (take_slot d label k sn to f l len slots list t i used le at sh1)
          ]))
