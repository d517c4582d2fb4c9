-- ===== src/Deque/Tests.antt =====
-- Tests of src/p0/queue.c on small queues.
use operating_system_practic.Base.{
  ℕ, ◌≡◌, refl, true, ◌==◌, Option, none, some, [], ◌∷◌, ◌++◌, arith, pos, success, if◌then◌else◌,
}
use operating_system_practic.Run.{ok, halt, and_then, Returns}
use operating_system_practic.Queue.Chain.{Cells}
use operating_system_practic.Deque.{
  Node, Deque, queue_prepend, queue_append, append_node, queue_dequeue, queue_length, queue_delete,
  find_node, unlink, take_head,
}
use operating_system_practic.Deque.Cells.{IsDeque}
use operating_system_practic.Deque.Ends.{Holds}
use operating_system_practic.Deque.Refines.{Dequeued, queue_ends-Holds}

abbrev two_nodes : ℕ → Option Node
two_nodes a =
    if a == 1
    then some (record { prev = 0; next = 2; item = 7 })
    else if a == 2
    then some (record { prev = 1; next = 0; item = 8 })
    else none

abbrev pair_queue : Deque
pair_queue = record { heap = two_nodes; head = 1; tail = 2; length = pos 2 }

abbrev pair_cells : Cells
pair_cells = (1, 7) ∷ (2, 8) ∷ []

abbrev junk : Node
junk = record { prev = 5; next = 5; item = 5 }

pair_queue-IsDeque : IsDeque pair_queue pair_cells
pair_queue-IsDeque = record {
  head = refl;
  tail = refl;
  length = refl;
  linked = (omega arith, refl, refl, (omega arith, refl, refl, tt));
}

queue_ends-Holds_example :
    Returns
      (λ r t. (r ≡ success) × Holds ((3, 9) ∷ pair_cells) t)
      (queue_prepend 3 junk 9 (some pair_queue))
    × Returns
        (λ r t. (r ≡ success) × Holds (pair_cells ++ (3, 9) ∷ []) t)
        (queue_append 3 junk 9 (some pair_queue))
    × Returns (Dequeued pair_cells) (queue_dequeue true (some pair_queue))
    × (queue_length (some pair_queue) ≡ ok (pos 2) (some pair_queue))
queue_ends-Holds_example =
    queue_ends-Holds pair_queue pair_cells 3 junk 9 pair_queue-IsDeque (omega arith) (omega arith)
      refl (omega arith)

-- After the removal of one of two items, two calls of `queue_dequeue` stop the program.
dequeue_after_delete :
    and_then
      (queue_delete 9 7 (some pair_queue))
      (λ _ t. and_then (queue_dequeue true t) (λ _ u. queue_dequeue true u))
    ≡ halt
unfolding queue_delete find_node unlink queue_dequeue take_head
dequeue_after_delete = refl

abbrev single_queue : Deque
single_queue = record {
  heap = λ a. if a == 1 then some (record { prev = 0; next = 0; item = 7 }) else none;
  head = 1;
  tail = 1;
  length = pos 1;
}

-- The only item stays.
delete_only : queue_delete 9 7 (some single_queue) ≡ ok success (some single_queue)
unfolding queue_delete find_node unlink
delete_only = refl

-- At 2^31 - 1 items one more overflows the length.
full_queue : queue_append 3 junk 9 (some (record pair_queue { length = pos 2147483647 })) ≡ halt
unfolding queue_append append_node
full_queue = refl
