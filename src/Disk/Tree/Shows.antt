-- ===== src/Disk/Tree/Shows.antt =====
-- grass/block/treedisk.c: the store below as a function from block numbers to blocks, with a rule for
-- each call of it.
use operating_system_practic.Base.{
  ℕ, ◌<◌, ◌≡◌, sym, ◌∙◌, Option, some, ℤ, success, update, u32_mod, arith,
}
use mathlib.Core.Path.{subst}
use operating_system_practic.Run
use operating_system_practic.Run.{Run, Returns, returns, and_then}
use operating_system_practic.Store.{Block, BlockStore, IsStore, Stored, Fetched}

-- The blocks of a disk, by number.
abbrev pub Disk : Type 0
Disk = ℕ → Block

module _ {S : Type 0} (Valid : S → Type 0) (view : S → ℕ → Option Block) (size : ℕ) where
  -- The store is valid, and holds the blocks of the disk.
  abbrev pub Shows : S → Disk → Type 0
  Shows s d = Valid s × ((o : ℕ) → o < size → view s o ≡ some (d o))

-- A write to the array of blocks that are there.
update-some :
    (d : Disk) (o : ℕ) (b : Block) (j : ℕ) (view : ℕ → Option Block)
    → view j ≡ some (d j)
    → update view o (some b) j ≡ some (update d o b j)
update-some d o b j view e = ground (arith, e)

module _ {S : Type 0} {below : BlockStore S} {Valid : S → Type 0} {view : S → ℕ → Option Block}
    (store : IsStore below Valid view) (size : ℕ) (small : size < u32_mod) where
  pub read_lem :
      (s : S) (d : Disk) (o : ℕ) (b : Block)
      → Shows Valid view size s d
      → o < size
      → Returns (λ rc t. (rc ≡ (success, d o)) × Shows Valid view size t d) (below.read o b s)
  read_lem s d o b (v, holds) lt = Run.mono (store.read_lem s o b (omega arith) v) λ rc t p.
      let f : Fetched (some (d o)) rc = subst (λ x. Fetched x rc) (holds o lt) p.fetched in
      (λ i. (f.0 i, f.1 i), (p.keeps.valid, λ j l. p.keeps.same j ∙ holds j l))

  pub read_then :
      {T B : Type 0} {Q : B → T → Type 0} (k : ℤ × Block → S → Run T B) (s : S) (d : Disk) (o : ℕ)
      (b : Block)
      → Shows Valid view size s d
      → o < size
      → ((t : S) → Shows Valid view size t d → Returns Q (k (success, d o) t))
      → Returns Q (and_then (below.read o b s) k)
  read_then {Q} k s d o b sh lt next =
      Run.bind (read_lem s d o b sh lt)
        λ rc t (e, sh1). subst (λ x. Returns Q (k x t)) (sym e) (next t sh1)

  pub write_then :
      {T B : Type 0} {Q : B → T → Type 0} (k : ℤ → S → Run T B) (s : S) (d : Disk) (o : ℕ)
      (b : Block)
      → Shows Valid view size s d
      → o < size
      → ((t : S) → Shows Valid view size t (update d o b) → Returns Q (k success t))
      → Returns Q (and_then (below.write o b s) k)
  write_then {Q} k s d o b (v, holds) lt next =
      Run.bind (store.write_lem s o b (omega arith) v) λ r t p.
        let f : Stored (some (d o)) (view s) (view t) o b r =
          subst (λ x. Stored x (view s) (view t) o b r) (holds o lt) p.stored in
        subst (λ x. Returns Q (k x t)) (sym f.0)
          (next t (p.valid, λ j l. f.1 j ∙ update-some d o b j (view s) (holds j l)))
