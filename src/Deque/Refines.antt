-- ===== src/Deque/Refines.antt =====
-- The queue of src/p0/queue.c is a list, with `queue_prepend`, `queue_append`, `queue_dequeue` and
-- `queue_length` at its ends.
use operating_system_practic.Base.{
  ℕ, ◌≡◌, ◌≢◌, refl, sym, ap, true, Option, none, some, [], ◌∷◌, ◌++◌, length, pos, ◌<◌, ◌^◌, ◌+◌,
  ℤ, success, failure,
}
use mathlib.Core.Path.{subst}
use operating_system_practic.Run.{ok, Returns, returns}
use operating_system_practic.Queue.Chain.{Cells}
use operating_system_practic.Deque.{
  null, Node, Deque, queue_prepend, queue_append, queue_dequeue, queue_length,
}
use operating_system_practic.Deque.Cells.{IsDeque, Linked}
use operating_system_practic.Deque.Ends.{Holds, queue_of, prepend-Holds, dequeue-Holds}
use operating_system_practic.Deque.Append.{append-Holds}

queue_of-same : (q : Deque) (xs : Cells) → IsDeque q xs → queue_of q.heap xs ≡ q
queue_of-same q xs is = λ i. record {
  heap = q.heap;
  head = sym is.head i;
  tail = sym is.tail i;
  length = sym is.length i;
}

-- The first item, and a queue of the others.
abbrev pub Dequeued : Cells → ℤ × ℕ → Option Deque → Type 0
Dequeued [] r t = (r ≡ (failure, 0)) × Holds [] t
Dequeued ((p, x) ∷ xs) r t = (r ≡ (success, x)) × Holds xs t

dequeue-Dequeued :
    (h : ℕ → Option Node) (xs : Cells)
    → Linked h null xs
    → Returns (Dequeued xs) (queue_dequeue true (some (queue_of h xs)))
unfolding queue_dequeue
dequeue-Dequeued h [] c =
    returns (refl, record { head = refl; tail = refl; length = refl; linked = tt })
dequeue-Dequeued h ((p, x) ∷ xs) c = dequeue-Holds h p x xs c

-- On a queue of given cells, with an item that is not NULL, an unused address from `malloc`, and
-- fewer than 2^31 - 1 cells, the most that the `int` length can count: `queue_prepend` succeeds
-- and puts the item before them, `queue_append` succeeds and puts it behind them, `queue_dequeue`
-- gives the first item and leaves a queue of the others, or fails on no cells and leaves none,
-- and `queue_length` is their number. All of these queues are linked both ways.
pub queue_ends-Holds :
    (q : Deque) (xs : Cells) (fresh : ℕ) (memory : Node) (item : ℕ)
    → IsDeque q xs
    → item ≢ 0
    → fresh ≢ null
    → q.heap fresh ≡ none
    → length xs + 1 < 2 ^ 31
    → Returns
        (λ r t. (r ≡ success) × Holds ((fresh, item) ∷ xs) t)
        (queue_prepend fresh memory item (some q))
      × Returns
          (λ r t. (r ≡ success) × Holds (xs ++ (fresh, item) ∷ []) t)
          (queue_append fresh memory item (some q))
      × Returns (Dequeued xs) (queue_dequeue true (some q))
      × (queue_length (some q) ≡ ok (pos (length xs)) (some q))
unfolding queue_length
queue_ends-Holds q xs fresh memory item is real_item ne unused small =
    let same = queue_of-same q xs is in
    (
      subst
          (λ y.
            Returns (λ r t. (r ≡ success) × Holds ((fresh, item) ∷ xs) t)
              (queue_prepend fresh memory item (some y)))
          same (prepend-Holds q.heap fresh memory item xs is.linked real_item ne unused small),
      subst
          (λ y.
            Returns (λ r t. (r ≡ success) × Holds (xs ++ (fresh, item) ∷ []) t)
              (queue_append fresh memory item (some y)))
          same (append-Holds q.heap fresh memory item xs is.linked real_item ne unused small),
      subst (λ y. Returns (Dequeued xs) (queue_dequeue true (some y))) same
          (dequeue-Dequeued q.heap xs is.linked),
      ap (λ y. ok y (some q)) is.length,
    )
