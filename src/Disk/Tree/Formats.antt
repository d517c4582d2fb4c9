-- ===== src/Disk/Tree/Formats.antt =====
-- grass/block/treedisk.c: `treedisk_create` makes a file system of empty files.
use operating_system_practic.Base.{
  ℕ, zero, suc, ◌+◌, ◌*◌, ◌<◌, ◌≤◌, ◌≡◌, ◌≢◌, refl, sym, ap, ◌∙◌, true, false, ◌==◌, ltb, leb, inl,
  inr, ◌⊎◌, arith, Bool-cases, if◌then◌else◌, u32_mod, Option, ℤ, success, failure, set, length,
  length-set, get_or-set_self, get_or-set_ne, update,
}
use mathlib.Core.Path.{subst}
use operating_system_practic.Run.{Returns, returns, mono, bind}
use operating_system_practic.Store.{Block, BlockStore, IsStore}
use operating_system_practic.Disk.Tree.{
  word, null_block, inodes_per_block, n_inodeblocks, free_list, nlevels,
}
use operating_system_practic.Disk.Tree.Create.{
  clear_inodes, format, create_on, as_unsigned, inodeblocks_for, treedisk_create,
}
use operating_system_practic.Disk.Tree.Shows.{Disk, Shows, read_then, write_then}
use operating_system_practic.Disk.Tree.Labels.{
  outside, inodes, chain, Labels, Chain, room, Chain-same,
}
use operating_system_practic.Disk.Tree.Takes.{update_disk_ne, update_disk_self}
use operating_system_practic.Disk.Tree.Stores.{word-replicate}
use operating_system_practic.Disk.Tree.Nodes.{anc, Tree, walk}
use operating_system_practic.Disk.Tree.Files.{
  inode_block, inode_slot, file_root, file_size, File, FileSystem,
}
use operating_system_practic.Disk.Tree.Fresh.{fresh, setup_freelist-Listed}

-- A file system of `n` inode blocks, with empty files and every other block free.
pub record Formatted (size n : ℕ) (d : Disk) (c : ℕ) : Type 0 where
  pub system : FileSystem size d (fresh size n) c n
  pub all_free : room d c (free_list (d 0)) + suc n ≡ size
  pub empty : (i : ℕ) → i < n * inodes_per_block → file_size d i ≡ 0

fresh_inodes : (size n b : ℕ) → 1 ≤ b → b ≤ n → fresh size n b ≡ inodes b
unfolding fresh
fresh_inodes size n b low high =
    let nz : (b == 0) ≡ false = ground arith in
    let le : leb b n ≡ true = ground arith in rw (nz, le) refl

fresh_inside : (size n b : ℕ) → n < size → (fresh size n b ≡ outside) ⊎ (b < size)
unfolding fresh
fresh_inside size n b lt = elim (Bool-cases (ltb b size)) [
  | inl e ↦ inr (ground arith)
  | inr e ↦
      let beyond : leb b n ≡ false = ground (arith, e, lt) in
      let nz : (b == 0) ≡ false = ground (arith, e, lt) in rw (nz, beyond, e) (inl refl)
]

-- An inode of null bytes is an empty file.
null_File :
    (d : Disk) (label : Labels) (i : ℕ)
    → d (inode_block i) ≡ null_block
    → (file_size d i ≡ 0) × File d label i
unfolding Tree walk anc
null_File d label i e =
    let size0 : file_size d i ≡ 0 =
      ap (λ x. word x (2 * inode_slot i + 1)) e ∙ word-replicate 256 (2 * inode_slot i + 1) in
    let root0 : file_root d i ≡ 0 =
      ap (λ x. word x (2 * inode_slot i)) e ∙ word-replicate 256 (2 * inode_slot i) in
    (
      size0,
      record {
        tree = subst (λ x. Tree d label i (nlevels x) 0 (file_root d i)) (sym size0) (inl root0);
        empty = λ o le. rw (size0, root0) (hole o);
        rooted = λ h. absurd (omega (arith, h, size0));
        sized = omega (arith, size0);
      },
    )
  where
    hole : (o : ℕ) → (if o == 0 then null_block else null_block) ≡ null_block
    hole zero = refl
    hole (suc o) = elim (Bool-cases (suc o == 0)) [ inl e ↦ rw (e) refl | inr e ↦ rw (e) refl ]

module _ {S : Type 0} {below : BlockStore S} {Valid : S → Type 0} {view : S → ℕ → Option Block}
    (store : IsStore below Valid view) (size : ℕ) (small : size < u32_mod) where
  -- The blocks from `i` on hold null bytes, and the others are as they were.
  clear_inodes-Shows :
      (n i : ℕ) (d : Disk) (s : S)
      → i + n ≤ size
      → Shows Valid view size s d
      → Returns
          (λ r t.
            (r ≡ success)
            × (d1 : Disk) × Shows Valid view size t d1
            × ((b : ℕ) → i ≤ b → b < i + n → d1 b ≡ null_block)
            × ((b : ℕ) → (b < i) ⊎ (i + n ≤ b) → d1 b ≡ d b))
          (clear_inodes below n i s)
  unfolding clear_inodes
  clear_inodes-Shows zero i d s le sh =
      returns (refl, d, sh, λ b low high. absurd (omega arith), λ b out. refl)
  clear_inodes-Shows (suc n) i d s le sh =
      write_then store size small _ s d i null_block sh (omega (arith, le)) (λ t sh1.
        mono (clear_inodes-Shows n (i + 1) (update d i null_block) t (omega (arith, le)) sh1)
          (λ r u (done, d1, sh2, cleared, same). (
            done,
            d1,
            sh2,
            λ b low high. elim (Bool-cases (i == b)) [
              | inl e ↦
                  let here : i ≡ b = ground arith in
                  same b (inl (omega (arith, here)))
                  ∙ ap (update d i null_block) (sym here)
                  ∙ update_disk_self d i null_block
              | inr e ↦ cleared b (ground (arith, low)) (omega (arith, high))
            ],
            λ b out.
                same b (ground (arith, out))
                ∙ update_disk_ne d i null_block b (ground (arith, out)),
          )))

  -- What `format` leaves, from what its three steps do.
  pub formatted :
      (n c head : ℕ) (d d1 : Disk)
      → n < size
      → Chain d (fresh size n) c head
      → room d c head + suc n ≡ size
      → d1 0 ≡ set (set null_block 0 n) 1 head
      → ((b : ℕ) → 1 ≤ b → b ≤ n → d1 b ≡ null_block)
      → ((b : ℕ) → n < b → d1 b ≡ d b)
      → Formatted size n d1 c
  unfolding fresh
  formatted n c head d d1 lt list count at0 cleared same =
      let head_at : free_list (d1 0) ≡ head =
        ap free_list at0
        ∙ get_or-set_self (set null_block 0 n) 1 head 0
            (omega (arith, length-set null_block 0 n)) in
      let label = fresh size n in
      let (list1, room1) =
        Chain-same c head d d1 label label
          (record {
            blocks = λ a j lt l. (same a (free_beyond a j l), refl);
            slots = λ a j i lt l. refl;
          })
          list in
      let file = λ (i : ℕ) (l : i < n * inodes_per_block).
        cleared (inode_block i) (omega arith) (omega (arith, l)) in
      record {
        system = record {
          free = record {
            on_disk = refl;
            long =
                ap length at0 ∙ length-set (set null_block 0 n) 1 head ∙ length-set null_block 0 n;
            super_lem = refl;
            list = subst (Chain d1 label c) (sym head_at) list1;
            inside = λ b. fresh_inside size n b lt;
          };
          blocks =
              ap n_inodeblocks at0
              ∙ get_or-set_ne (set null_block 0 n) {i = 1} {j = 0} head 0 (omega arith);
          inodes_lem = fresh_inodes size n;
          long = λ b low high. ap length (cleared b low high);
          files = λ i l. (null_File d1 label i (file i l)).1;
        };
        all_free = omega (arith, ap (room d1 c) head_at, room1, count);
        empty = λ i l. (null_File d1 label i (file i l)).0;
      }
    where
      free_beyond : (a j : ℕ) → fresh size n a ≡ chain j → n < a
      free_beyond a j l = elim (Bool-cases (leb a n)) [
        | inl e ↦ elim (Bool-cases (a == 0)) [
          | inl z ↦ ground (arith, l, ap (fresh size n) (at_zero z))
          | inr z ↦ ground (arith, l, fresh_inodes size n a (ground arith) (ground arith))
        ]
        | inr e ↦ ground arith
      ]
        where
          at_zero : (a == 0) ≡ true → a ≡ 0
          at_zero z = ground arith

  format-Formatted :
      (n : ℕ) (d : Disk) (s : S)
      → n + 2 ≤ size
      → Shows Valid view size s d
      → Returns
          (λ r t.
            (r ≡ success)
            × (d1 : Disk) × (c : ℕ) × Shows Valid view size t d1
            × Formatted size n d1 c)
          (format below n size s)
  unfolding format
  format-Formatted n d s le sh =
      bind (setup_freelist-Listed store size small n d s (omega (arith, le)) sh)
        (λ head t (d1, c, sh1, list, count, same).
          let x = set (set null_block 0 n) 1 head in
          write_then store size small _ t d1 0 x sh1 (omega (arith, le)) (λ u sh2.
            mono (clear_inodes-Shows n 1 (update d1 0 x) u (omega (arith, le)) sh2)
              (λ r v (done, d2, sh3, cleared, others). (
                done,
                d2,
                c,
                sh3,
                formatted n c head d1 d2 (omega (arith, le)) list count
                    (others 0 (inl (omega arith)) ∙ update_disk_self d1 0 x)
                    (λ b low high. cleared b low (omega (arith, high)))
                    (λ b beyond.
                      others b (inr (omega (arith, beyond)))
                      ∙ update_disk_ne d1 0 x b (omega (arith, beyond))),
              ))))

  -- What `treedisk_create` does for `n` inode blocks.
  abbrev pub Created : (d : Disk) (n : ℕ) → ℤ → S → Type 0
  Created d n r t =
      ((size < n + 2) × (r ≡ failure) × Shows Valid view size t d)
      ⊎ ((n + 2 ≤ size)
          × (n_inodeblocks (d 0) ≡ 0)
          × (r ≡ success)
          × (d1 : Disk) × (c : ℕ) × Shows Valid view size t d1
          × Formatted size n d1 c)
      ⊎ ((n + 2 ≤ size) × (n_inodeblocks (d 0) ≢ 0) × (r ≡ success) × Shows Valid view size t d)

  create_on-Created :
      (n : ℕ) (d : Disk) (s : S)
      → (n_inodeblocks (d 0) ≡ 0) ⊎ (n_inodeblocks (d 0) ≡ n)
      → Shows Valid view size s d
      → Returns (Created d n) (create_on below n size s)
  unfolding create_on
  create_on-Created n d s usable sh = elim (Bool-cases (ltb size (n + 2))) [
    | inl e ↦ rw (e) (returns (inl (ground arith, refl, sh)))
    | inr e ↦
        let room_for : n + 2 ≤ size = ground arith in
        rw (e) (
          read_then store size small _ s d 0 null_block sh (omega (arith, room_for)) (λ t sh1.
            elim (Bool-cases (n_inodeblocks (d 0) == 0)) [
              | inl z ↦ rw (z) (
                  mono (format-Formatted n d t room_for sh1) (λ r u (done, d1, c, sh2, f).
                    inr (inl (room_for, ground arith, done, d1, c, sh2, f))))
              | inr z ↦
                  let same : (n_inodeblocks (d 0) == n) ≡ true = ground (arith, usable) in
                  rw (z, same) (returns (inr (inr (room_for, ground arith, refl, sh1))))
            ]))
  ]

  -- On a block store with the contract, of fewer than 2^32 blocks, whose superblock is clear or
  -- has as many inode blocks as asked for, and whose size call answers its number of blocks,
  -- `treedisk_create` returns. It fails and changes nothing where the store has no two blocks
  -- beyond the inode blocks; else it succeeds, and on a clear superblock it makes a file system
  -- of empty files, with every block beyond the inode blocks free, and otherwise changes nothing.
  pub treedisk_create-Created :
      (n_inodes : ℕ) (d : Disk) (s : S)
      → Returns (λ r t. (as_unsigned r ≡ size) × Shows Valid view size t d) (below.nblocks s)
      → (n_inodeblocks (d 0) ≡ 0) ⊎ (n_inodeblocks (d 0) ≡ inodeblocks_for n_inodes)
      → Returns (Created d (inodeblocks_for n_inodes)) (treedisk_create below n_inodes s)
  unfolding treedisk_create
  treedisk_create-Created n_inodes d s sized usable = bind sized (λ r t (e, sh1).
      subst
        (λ x.
          Returns (Created d (inodeblocks_for n_inodes))
            (create_on below (inodeblocks_for n_inodes) x t))
        (sym e) (create_on-Created (inodeblocks_for n_inodes) d t usable sh1))
