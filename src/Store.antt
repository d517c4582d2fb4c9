-- ===== src/Store.antt =====
-- grass/block/block_store.h: the interface of a block store, and the contract that it promises.
pub mod Client
pub mod Array
use operating_system_practic.Base.{
  ℕ, ◌≤◌, ◌<◌, ◌≡◌, Option, none, some, List, ℤ, pos, success, failure, to_int, update, u32_mod,
  ◌≢◌,
}
use operating_system_practic.Run.{Cmd, Returns}

-- A block, as the 32-bit words that it holds.
abbrev pub Block : Type 0
Block = List ℕ

-- `struct block_store`, over the type `S` of its state. `read` is handed what `*block` holds and
-- gives back what it holds afterwards.
pub record BlockStore (S : Type 0) : Type 0 where
  pub nblocks : Cmd S ℤ
  pub read : ℕ → Block → Cmd S (ℤ × Block)
  pub write : ℕ → Block → Cmd S ℤ
  pub setsize : ℕ → Cmd S ℤ

-- What `read` answers at a block that is there, and at one that is not.
abbrev pub Fetched : Option Block → ℤ × Block → Type 0
Fetched (some c) rc = (rc.0 ≡ success) × (rc.1 ≡ c)
Fetched none rc = rc.0 ≡ failure

-- A write at a block that is there succeeds and changes that block alone; elsewhere it fails and
-- changes nothing.
abbrev pub Stored : Option Block → (before after : ℕ → Option Block) → ℕ → Block → ℤ → Type 0
Stored (some c) before after o b r =
    (r ≡ success) × ((j : ℕ) → after j ≡ update before o (some b) j)
Stored none before after o b r = (r ≡ failure) × ((j : ℕ) → after j ≡ before j)

module _ {S : Type 0} (Valid : S → Type 0) (view : S → ℕ → Option Block) where
  -- The call leaves every block as it was.
  pub record Keeps (s t : S) : Type 0 where
    pub valid : Valid t
    pub same : (j : ℕ) → view t j ≡ view s j

  -- The number of blocks, when it is one: no block lies beyond.
  pub record Measures (s : S) (r : ℤ) (t : S) : Type 0 where
    pub keeps : Keeps s t
    pub beyond : (n o : ℕ) → r ≡ pos n → n ≤ o → view s o ≡ none

  pub record Reads (s : S) (o : ℕ) (rc : ℤ × Block) (t : S) : Type 0 where
    pub keeps : Keeps s t
    pub fetched : Fetched (view s o) rc

  pub record Writes (s : S) (o : ℕ) (b : Block) (r : ℤ) (t : S) : Type 0 where
    pub valid : Valid t
    pub stored : Stored (view s o) (view s) (view t) o b r

  -- A new size keeps the blocks below it.
  pub record Resizes (s : S) (n : ℕ) (t : S) : Type 0 where
    pub valid : Valid t
    pub kept : (j : ℕ) (c : Block) → j < n → view s j ≡ some c → view t j ≡ some c

-- The contract of a block store: from a valid state every call returns, as a call on the array of
-- blocks that `view` shows would. A `block_no` is a 32-bit number.
pub record IsStore {S : Type 0} (bs : BlockStore S) (Valid : S → Type 0)
    (view : S → ℕ → Option Block) : Type 0 where
  pub nblocks_lem : (s : S) → Valid s → Returns (Measures Valid view s) (bs.nblocks s)
  pub read_lem :
      (s : S) (o : ℕ) (b : Block)
      → o < u32_mod
      → Valid s
      → Returns (Reads Valid view s o) (bs.read o b s)
  pub write_lem :
      (s : S) (o : ℕ) (b : Block)
      → o < u32_mod
      → Valid s
      → Returns (Writes Valid view s o b) (bs.write o b s)
  pub setsize_lem :
      (s : S) (n : ℕ)
      → n < u32_mod
      → Valid s
      → Returns (λ _ t. Resizes Valid view s n t) (bs.setsize n s)

-- The reply is the number of the array's blocks, as an `int`: its blocks are those below a number.
abbrev pub Counts : (ℕ → Option Block) → ℤ → Type 0
Counts f r =
    (n : ℕ) × (r ≡ to_int n) × ((o : ℕ) → o < n → f o ≢ none) × ((o : ℕ) → n ≤ o → f o ≡ none)

-- A block store that also tells its size: a size query answers it, and a new size answers the old
-- one and leaves no block beyond.
pub record IsSized {S : Type 0} (bs : BlockStore S) (Valid : S → Type 0)
    (view : S → ℕ → Option Block) : Type 0 where
  pub counts_lem : (s : S) → Valid s → Returns (λ r t. Counts (view s) r) (bs.nblocks s)
  pub resize_lem :
      (s : S) (n : ℕ)
      → n < u32_mod
      → Valid s
      → Returns (λ r t. Counts (view s) r × ((j : ℕ) → n ≤ j → view t j ≡ none)) (bs.setsize n s)
