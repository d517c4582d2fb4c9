-- ===== src/Store/Client.antt =====
-- A client of a block store (grass/block/block_store.h): its calls, and what it is told.
use operating_system_practic.Base.{ℕ, List, [], ◌∷◌, ℤ}
use operating_system_practic.Run.{Cmd, ok, and_then}
use operating_system_practic.Store.{Block, BlockStore}

pub data Request : Type 0 where
  get : ℕ → Block → Request
  put : ℕ → Block → Request
  resize : ℕ → Request
  measure : Request

pub data Reply : Type 0 where
  got : ℤ → Block → Reply
  done : ℤ → Reply

module _ {S : Type 0} (bs : BlockStore S) where
  unfoldable pub call : Request → Cmd S Reply
  call (get o b) s = and_then (bs.read o b s) (λ (r, c) t. ok (got r c) t)
  call (put o b) s = and_then (bs.write o b s) (λ r t. ok (done r) t)
  call (resize n) s = and_then (bs.setsize n s) (λ r t. ok (done r) t)
  call measure s = and_then (bs.nblocks s) (λ r t. ok (done r) t)

  -- The calls in order, with the answers.
  unfoldable pub play : List Request → Cmd S (List Reply)
  play [] s = ok [] s
  play (q ∷ qs) s = and_then (call q s) (λ a t. and_then (play qs t) (λ rest u. ok (a ∷ rest) u))
