-- ===== src/Disk/Tree/Fresh.antt =====
-- grass/block/treedisk.c: the free list that `setup_freelist` writes.
use operating_system_practic.Base.{
  ℕ, zero, suc, ◌+◌, ◌-◌, ◌*◌, ◌/◌, ◌%◌, ◌<◌, ◌≤◌, ◌≡◌, refl, ap, ◌∙◌, true, false, ◌==◌, ltb, leb,
  inl, inr, ◌⊎◌, arith, Bool-cases, if◌then◌else◌, u32_mod, Option, ◌∷◌, length, update,
}
use operating_system_practic.Run.{Returns, returns, mono}
use operating_system_practic.Store.{Block, BlockStore, IsStore}
use operating_system_practic.Disk.Tree.{word, refs_per_block}
use operating_system_practic.Disk.Tree.Create.{fill_refs, next_after, freelist_loop, setup_freelist}
use operating_system_practic.Disk.Tree.Shows.{Disk, Shows, write_then}
use operating_system_practic.Disk.Tree.Lists.{used_slots}
use operating_system_practic.Disk.Tree.Labels.{
  Label, outside, super, inodes, chain, slot, Labels, Slots, Chain, room, Chain-same,
}
use operating_system_practic.Disk.Tree.Takes.{update_disk_ne, update_disk_self}

-- The place of the block `x` beyond the inode blocks.
abbrev free_label : ℕ → Label
free_label x =
    if x % refs_per_block == 0
    then chain (x / refs_per_block)
    else slot (x / refs_per_block) (x % refs_per_block)

-- The places of the blocks of a store of `size` blocks, `n` of them inode blocks.
unfoldable pub fresh : (size n : ℕ) → Labels
fresh size n b =
    if b == 0
    then super
    else if leb b n
    then inodes b
    else if ltb b size
    then free_label (b - suc n)
    else outside

pub length-fill_refs : (n next_free nblocks : ℕ) → length (fill_refs n next_free nblocks) ≡ n
unfolding fill_refs
length-fill_refs zero next_free nblocks = refl
length-fill_refs (suc n) next_free nblocks =
    ap suc (length-fill_refs n (if ltb next_free nblocks then next_free + 1 else next_free) nblocks)

-- A slot holds its free number, if there are so many.
fill_refs-there :
    (n j next_free nblocks : ℕ)
    → j < n
    → next_free + j < nblocks
    → word (fill_refs n next_free nblocks) j ≡ next_free + j
unfolding fill_refs
fill_refs-there zero j next_free nblocks lt there = absurd (omega arith)
fill_refs-there (suc n) zero next_free nblocks lt there = ground arith
fill_refs-there (suc n) (suc j) next_free nblocks lt there =
    let more : ltb next_free nblocks ≡ true = ground arith in
    rw (more)
      (fill_refs-there n j (next_free + 1) nblocks (omega arith) (omega arith) ∙ omega arith)

fill_refs-beyond :
    (n j next_free nblocks : ℕ)
    → nblocks ≤ next_free + j
    → word (fill_refs n next_free nblocks) j ≡ 0
unfolding fill_refs
fill_refs-beyond zero j next_free nblocks le = refl
fill_refs-beyond (suc n) zero next_free nblocks le = ground arith
fill_refs-beyond (suc n) (suc j) next_free nblocks le = elim (Bool-cases (ltb next_free nblocks)) [
  | inl e ↦ rw (e) (fill_refs-beyond n j (next_free + 1) nblocks (omega arith))
  | inr e ↦ rw (e) (fill_refs-beyond n j next_free nblocks (ground arith))
]

next_after-min :
    (n next_free nblocks : ℕ)
    → next_free ≤ nblocks
    → ((next_after n next_free nblocks ≡ next_free + n) × (next_free + n ≤ nblocks))
      ⊎ ((next_after n next_free nblocks ≡ nblocks) × (nblocks < next_free + n))
unfolding next_after
next_after-min zero next_free nblocks le = inl (omega arith, omega arith)
next_after-min (suc n) next_free nblocks le = elim (Bool-cases (ltb next_free nblocks)) [
  | inl e ↦ rw (e) (ground (arith, next_after-min n (next_free + 1) nblocks (ground arith)))
  | inr e ↦ rw (e) (ground (arith, next_after-min n next_free nblocks le))
]

-- The slots that are used are those with a number in them.
used_slots-filled :
    (m head next_free nblocks : ℕ)
    → m ≤ 255
    → 0 < next_free
    → next_free ≤ nblocks
    → (next_free + m ≤ nblocks → used_slots (head ∷ fill_refs 255 next_free nblocks) m ≡ m)
      × (nblocks ≤ next_free + m
          → used_slots (head ∷ fill_refs 255 next_free nblocks) m + next_free ≡ nblocks)
unfolding used_slots
used_slots-filled zero head next_free nblocks le pos few = (λ h. refl, λ h. omega arith)
used_slots-filled (suc m) head next_free nblocks le pos few =
    let (full, part) = used_slots-filled m head next_free nblocks (omega arith) pos few in
    elim (Bool-cases (ltb (next_free + m) nblocks)) [
      | inl e ↦
          let there : next_free + m < nblocks = ground arith in
          let nz : (next_free + m == 0) ≡ false = ground arith in
          rw (fill_refs-there 255 m next_free nblocks (omega arith) there, nz)
            (
              λ h. omega (arith, full (omega arith)),
              λ h. omega (arith, full (omega arith), there, h),
            )
      | inr e ↦
          let beyond : nblocks ≤ next_free + m = ground arith in
          rw (fill_refs-beyond 255 m next_free nblocks beyond)
            (λ h. absurd (omega arith), λ h. omega (arith, part beyond))
    ]

fresh-free : (size n b : ℕ) → n < b → b < size → fresh size n b ≡ free_label (b - suc n)
unfolding fresh
fresh-free size n b gt lt =
    let nz : (b == 0) ≡ false = ground arith in
    let beyond : leb b n ≡ false = ground arith in
    let there : ltb b size ≡ true = ground arith in rw (nz, beyond, there) refl

fresh-chain : (size n b c : ℕ) → b ≡ suc n + 256 * c → b < size → fresh size n b ≡ chain c
fresh-chain size n b c e lt =
    let first : ((b - suc n) % 256 == 0) ≡ true = ground (arith, e) in
    let at : (b - suc n) / 256 ≡ c = omega (arith, e) in
    fresh-free size n b (omega (arith, e)) lt ∙ rw (first) (ap chain at)

fresh-slot :
    (size n b c j : ℕ)
    → b ≡ suc n + 256 * c + j
    → 0 < j
    → j < 256
    → b < size
    → fresh size n b ≡ slot c j
fresh-slot size n b c j e pos small lt =
    let later : ((b - suc n) % 256 == 0) ≡ false = ground (arith, e) in
    let at : (b - suc n) / 256 ≡ c = omega (arith, e) in
    let place : (b - suc n) % 256 ≡ j = omega (arith, e) in
    fresh-free size n b (omega (arith, e)) lt ∙ rw (later, at, place) refl

-- One more block in front of the list.
pub Chain-cons :
    (size n : ℕ) (d : Disk) (c head b : ℕ)
    → n < b
    → b < size
    → b ≡ suc n + 256 * c
    → Chain d (fresh size n) c head
    → Chain (update d b (head ∷ fill_refs 255 (b + 1) size)) (fresh size n) (suc c) b
      × (room (update d b (head ∷ fill_refs 255 (b + 1) size)) (suc c) b
          ≡ suc (used_slots (head ∷ fill_refs 255 (b + 1) size) 255 + room d c head))
unfolding Chain room
Chain-cons size n d c head b gt lt e list =
    let x = head ∷ fill_refs 255 (b + 1) size in
    let placed = fresh-chain size n b c e lt in
    let (list1, room1) =
      Chain-same c head d (update d b x) (fresh size n) (fresh size n)
        (record {
          blocks = λ a j small l. (
            update_disk_ne d b x a (λ h. ground (arith, placed, l, small, ap (fresh size n) h)),
            refl,
          );
          slots = λ a j i small l. refl;
        })
        list in
    rw (update_disk_self d b x) (
      (placed, ap suc (length-fill_refs 255 (b + 1) size), slots, list1),
      ap (λ r. suc (used_slots x 255 + r)) room1,
    )
  where
    slot_holds :
        (j : ℕ)
        → 0 < j
        → j < refs_per_block
        → b + j < size
        → word (head ∷ fill_refs 255 (b + 1) size) j ≡ b + j
    slot_holds zero pos small there = absurd (omega arith)
    slot_holds (suc j) pos small there =
        fill_refs-there 255 j (b + 1) size (omega arith) (omega arith) ∙ omega arith

    slot_empty : (j : ℕ) → 0 < j → size ≤ b + j → word (head ∷ fill_refs 255 (b + 1) size) j ≡ 0
    slot_empty zero pos beyond = absurd (omega arith)
    slot_empty (suc j) pos beyond = fill_refs-beyond 255 j (b + 1) size (omega arith)

    slots : Slots (fresh size n) c (head ∷ fill_refs 255 (b + 1) size)
    slots j pos small = elim (Bool-cases (ltb (b + j) size)) [
      | inl h ↦
          let there : b + j < size = ground arith in
          inr (
            ap (fresh size n) (slot_holds j pos small there)
            ∙ fresh-slot size n (b + j) c j (omega (arith, e)) pos small there)
      | inr h ↦ inl (slot_empty j pos (ground arith))
    ]

module _ {S : Type 0} {below : BlockStore S} {Valid : S → Type 0} {view : S → ℕ → Option Block}
    (store : IsStore below Valid view) (size : ℕ) (small : size < u32_mod) (n : ℕ) where
  -- The list has room for every block beyond the inode blocks, and these are as they were.
  abbrev pub Listed : Disk → ℕ → S → Type 0
  Listed d head t =
      (d1 : Disk) × (c : ℕ) × Shows Valid view size t d1
      × Chain d1 (fresh size n) c head
      × (room d1 c head + suc n ≡ size)
      × ((b : ℕ) → b ≤ n → d1 b ≡ d b)

  freelist_loop-Listed :
      (fuel c head next_free : ℕ) (d : Disk) (s : S)
      → size ≤ next_free + fuel
      → n < next_free
      → (next_free ≡ suc n + 256 * c) ⊎ (next_free ≡ size)
      → next_free ≤ size
      → Chain d (fresh size n) c head
      → room d c head + suc n ≡ next_free
      → Shows Valid view size s d
      → Returns (Listed d) (freelist_loop below fuel head next_free size s)
  unfolding freelist_loop
  freelist_loop-Listed zero c head next_free d s enough gt at le list count sh =
      let done : ltb next_free size ≡ false = ground (arith, enough) in
      rw (done) (returns (d, c, sh, list, omega (arith, count, enough, le), λ b h. refl))
  freelist_loop-Listed (suc fuel) c head next_free d s enough gt at le list count sh =
      elim (Bool-cases (ltb next_free size)) [
        | inl e ↦
            let there : next_free < size = ground arith in
            let x = head ∷ fill_refs 255 (next_free + 1) size in
            let place : next_free ≡ suc n + 256 * c = ground (arith, at, there) in
            let (list1, room1) = Chain-cons size n d c head next_free gt there place list in
            let after = next_after-min 255 (next_free + 1) size (omega arith) in
            let (full, part) =
              used_slots-filled 255 head (next_free + 1) size (omega arith) (omega arith)
                (omega arith) in
            let next = next_after 255 (next_free + 1) size in
            let steps : ((next ≡ suc n + 256 * suc c) ⊎ (next ≡ size))
                × (next ≤ size)
                × (n < next)
                × (next_free < next)
                × (room (update d next_free x) (suc c) next_free + suc n ≡ next) =
              elim after [
                | inl (a, b) ↦ (
                  inl (omega (arith, a, place)),
                  omega (arith, a, b),
                  omega (arith, a, gt),
                  omega (arith, a),
                  omega (arith, a, full b, room1, count),
                )
                | inr (a, b) ↦ (
                  inr a,
                  omega (arith, a),
                  omega (arith, a, le, gt, there),
                  omega (arith, a, there),
                  omega (arith, a, part (omega (arith, b)), room1, count),
                )
              ] in
            let (at1, le1, gt1, more, count1) = steps in
            rw (e) (
              write_then store size small _ s d next_free x sh there (λ t sh1.
                mono
                  (freelist_loop-Listed fuel (suc c) next_free next (update d next_free x) t
                    (omega (arith, enough, more)) gt1 at1 le1 list1 count1 sh1)
                  (λ h u (d1, c1, sh2, list2, count2, same). (
                    d1,
                    c1,
                    sh2,
                    list2,
                    count2,
                    λ b low. same b low ∙ update_disk_ne d next_free x b (omega (arith, gt, low)),
                  ))))
        | inr e ↦ rw (e) (returns (d, c, sh, list, ground (arith, count, le), λ b h. refl))
      ]

  -- The fuel is enough: no run of `setup_freelist` is cut short.
  pub setup_freelist-Listed :
      (d : Disk) (s : S)
      → n < size
      → Shows Valid view size s d
      → Returns (Listed d) (setup_freelist below (n + 1) size s)
  unfolding setup_freelist Chain room
  setup_freelist-Listed d s lt sh =
      freelist_loop-Listed (size - (n + 1)) 0 0 (n + 1) d s (omega arith) (omega arith)
        (inl (omega arith)) (omega (arith, lt)) refl (omega arith) sh
