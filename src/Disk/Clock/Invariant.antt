-- ===== src/Disk/Clock/Invariant.antt =====
-- The invariant of the cache of grass/block/clockdisk.c: each live slot holds the block that the
-- store below shows at its offset, and no offset has two slots.
use operating_system_practic.Base.{
  ℕ, ◌^◌, ◌<◌, ◌≡◌, ◌≢◌, Bool-cases, true, ◌==◌, inl, inr, Option, some, update, arith,
}
use operating_system_practic.Store.{Block}
use operating_system_practic.Disk.Clock.{is_live, ClockState, touch}
use operating_system_practic.Disk.Clock.Lookup.{Holds}
use operating_system_practic.Disk.Clock.Replace.{Placed}

-- The live slots agree with the array `f`.
abbrev pub Coherent : {S : Type 0} → (ℕ → Option Block) → ClockState S → Type 0
Coherent f cs = (i o : ℕ) → i < cs.nblocks → Holds cs.binfo o i → f o ≡ some (cs.blocks i)

abbrev pub Unique : {S : Type 0} → ClockState S → Type 0
Unique cs =
    (i j o : ℕ) → i < cs.nblocks → j < cs.nblocks → Holds cs.binfo o i → Holds cs.binfo o j → i ≡ j

pub record ClockValid {S : Type 0} (Valid : S → Type 0) (view : S → ℕ → Option Block)
    (cs : ClockState S) : Type 0 where
  pub below_valid : Valid cs.below
  pub coherent : Coherent (view cs.below) cs
  pub unique : Unique cs
  pub slots : 0 < cs.nblocks
  pub small : cs.nblocks < 2 ^ 30

module _ {S : Type 0} {cs t : ClockState S} {o : ℕ} {b : Block} (p : Placed cs o b t) where
  Holds-Placed_ne : (i q : ℕ) → i ≢ p.slot → Holds t.binfo q i → Holds cs.binfo q i
  Holds-Placed_ne i q ne h = ground (arith, p.offsets_kept i ne, p.live_kept i ne)

  pub Placed-Coherent : (f : ℕ → Option Block) → Coherent f cs → f o ≡ some b → Coherent f t
  Placed-Coherent f c e i q lt h = elim (Bool-cases (i == p.slot)) [
    | inl at ↦ ground arith
    | inr off ↦
        let ne : i ≢ p.slot = ground arith in
        rw (p.blocks_kept i ne) (c i q (ground arith) (Holds-Placed_ne i q ne h))
  ]

  pub Placed-Unique : Unique cs → ((j : ℕ) → j < cs.nblocks → ¬ Holds cs.binfo o j) → Unique t
  Placed-Unique u new i j q hi hj holds_i holds_j =
      ground (arith, u i j q, new i, new j, Holds-Placed_ne i q, Holds-Placed_ne j q)

module _ {S : Type 0} (cs : ClockState S) (i : ℕ) (live : is_live (cs.binfo i).status ≡ true) where
  Holds-touch : (j q : ℕ) → Holds (touch cs i).binfo q j → Holds cs.binfo q j
  Holds-touch j q h = ground arith

  pub touch-Coherent : (f : ℕ → Option Block) → Coherent f cs → Coherent f (touch cs i)
  touch-Coherent f c j q lt h = c j q lt (Holds-touch j q h)

  pub touch-Unique : Unique cs → Unique (touch cs i)
  touch-Unique u j k q hj hk a b = u j k q hj hk (Holds-touch j q a) (Holds-touch k q b)

-- A block written to the one slot of its offset, and to the array, keeps them in agreement.
pub update-Coherent :
    {S : Type 0} (cs : ClockState S) (i o : ℕ) (b : Block) (f g : ℕ → Option Block)
    → i < cs.nblocks
    → Holds cs.binfo o i
    → Unique cs
    → Coherent f cs
    → ((j : ℕ) → g j ≡ update f o (some b) j)
    → Coherent g (record cs { blocks = update cs.blocks i b })
update-Coherent cs i o b f g lt here u c e j q hj h = ground (arith, e q, u i j o, c j q)
