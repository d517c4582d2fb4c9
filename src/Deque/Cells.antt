-- ===== src/Deque/Cells.antt =====
-- The nodes of a queue of src/p0/queue.c, as a list of addresses and items.
use operating_system_practic.Base.{
  ◌≡◌, ◌≢◌, refl, ap, true, false, Option, none, some, [], ◌∷◌, length, pos, update, arith,
}
use operating_system_practic.Run.{Run, ok, halt, and_then}
use operating_system_practic.Queue.Chain.{Cells, has, head_ptr}
use operating_system_practic.Deque.{Ptr, null, Node, Deque, set_next, set_prev}

-- The last cell, or `p` when there is none.
abbrev pub last_ptr : (p : Ptr) → Cells → Ptr
last_ptr p [] = p
last_ptr p ((a, x) ∷ xs) = last_ptr a xs

-- The cells are distinct nodes of the heap, linked both ways; the first one has `p` before it.
abbrev pub Linked : (Ptr → Option Node) → (p : Ptr) → Cells → Type 0
Linked h p [] = Unit {0}
Linked h p ((a, x) ∷ xs) =
    (a ≢ null)
    × (h a ≡ some (record { prev = p; next = head_ptr xs; item = x }))
    × (has a xs ≡ false)
    × Linked h a xs

-- The queue consists of the cells.
pub record IsDeque (q : Deque) (xs : Cells) : Type 0 where
  pub head : q.head ≡ head_ptr xs
  pub tail : q.tail ≡ last_ptr null xs
  pub length : q.length ≡ pos (length xs)
  pub linked : Linked q.heap null xs

pub Linked-frame :
    {h g : Ptr → Option Node} (p : Ptr) (xs : Cells)
    → Linked h p xs
    → ((a : Ptr) → has a xs ≡ true → g a ≡ h a)
    → Linked g p xs
Linked-frame p [] c same = tt
Linked-frame p ((a, x) ∷ xs) (ne, at, out, c) same =
    (ne, ground (arith, same a), out, Linked-frame a xs c (λ b i. same b (ground arith)))

pub not-has_of_none :
    (h : Ptr → Option Node) (p a : Ptr) (xs : Cells) → Linked h p xs → h a ≡ none → has a xs ≡ false
not-has_of_none h p a [] c e = refl
not-has_of_none h p a ((b, x) ∷ xs) (ne, at, out, c) e =
    ground (arith, not-has_of_none h b a xs c e)

-- What a load gives.
abbrev fetched : Option Node → Deque → Run Deque Node
fetched m q = elim m [ none ↦ halt | some n ↦ ok n q ]

-- Writes through a pointer to a node.
pub set_next_at :
    (q : Deque) (p v : Ptr) (n : Node)
    → q.heap p ≡ some n
    → set_next p v q ≡ ok tt (record q { heap = update q.heap p (some (record n { next = v })) })
set_next_at q p v n e =
    ap
      (λ m.
        and_then (fetched m q)
          (λ x t. ok tt (record t { heap = update t.heap p (some (record x { next = v })) })))
      e

pub set_prev_at :
    (q : Deque) (p v : Ptr) (n : Node)
    → q.heap p ≡ some n
    → set_prev p v q ≡ ok tt (record q { heap = update q.heap p (some (record n { prev = v })) })
set_prev_at q p v n e =
    ap
      (λ m.
        and_then (fetched m q)
          (λ x t. ok tt (record t { heap = update t.heap p (some (record x { prev = v })) })))
      e

pub update_there : (h : Ptr → Option Node) (p : Ptr) (v : Option Node) → update h p v p ≡ v
update_there h p v = ground arith

pub update_elsewhere :
    (h : Ptr → Option Node) (p : Ptr) (v : Option Node) (a : Ptr) → p ≢ a → update h p v a ≡ h a
update_elsewhere h p v a ne = ground arith
