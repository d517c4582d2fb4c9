-- ===== src/Queue/Tests.antt =====
-- Runs of the queue of shared/queue.c.
use operating_system_practic.Base.{◌≡◌, refl, none, some, [], ◌∷◌, ◌++◌, update, arith}
use operating_system_practic.Run.{Returns}
use operating_system_practic.Queue.{next_link, Queue, queue_add, queue_tget}
use operating_system_practic.Queue.Chain.{IsQueue, Cells}
use operating_system_practic.Queue.Order.{queue_add-append, queue_tget-cons}

-- Items 7 and 8 at addresses 1 and 2.
abbrev two_cells : Cells
two_cells = (1, 7) ∷ (2, 8) ∷ []

abbrev two_items : Queue
two_items = record {
  heap =
      update (update (λ a. none) 2 (some (record { next = 0; item = 8 }))) 1
        (some (record { next = 2; item = 7 }));
  first = 1;
  last = next_link 2;
}

two_items-IsQueue : IsQueue two_items two_cells
two_items-IsQueue = record {
  first = refl;
  last = refl;
  chain = (omega arith, refl, refl, (omega arith, refl, refl, tt));
}

queue_add-append_example :
    Returns (λ _ t. IsQueue t (two_cells ++ (3, 9) ∷ [])) (queue_add 3 9 two_items)
queue_add-append_example =
    queue_add-append 3 9 two_items two_cells two_items-IsQueue (omega arith) refl

queue_tget-cons_example :
    Returns
      (λ r t. (r ≡ some 7) × IsQueue t ((2, 8) ∷ []) × (t.heap 1 ≡ none))
      (queue_tget two_items)
queue_tget-cons_example = queue_tget-cons two_items 1 7 ((2, 8) ∷ []) two_items-IsQueue
