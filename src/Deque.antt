-- ===== src/Deque.antt =====
-- src/p0/queue.c: a doubly linked queue over an explicit heap. A queue_t* is an option, `none` for NULL;
-- an item is the word that the queue is handed, 0 for NULL. `fresh` is what `malloc` returns and
-- `memory` what its memory holds.
pub mod Cells
pub mod Ends
pub mod Append
pub mod Refines
mod Tests
use operating_system_practic.Base.{
  ℕ, zero, suc, ◌+◌, ◌==◌, Bool, true, false, ◌||◌, Option, none, some, update, if◌then◌else◌, ℤ,
  pos, negsuc, ltb, ◌^◌, success, failure,
}
use operating_system_practic.Run.{Cmd, Run, ok, halt, spin, and_then, map_state}

abbrev pub Ptr : Type 0
Ptr = ℕ

abbrev pub null : Ptr
null = 0

-- `struct node`
pub record Node : Type 0 where
  pub prev : Ptr
  pub next : Ptr
  pub item : ℕ

-- Arithmetic of `int`, undefined (`none`) where it overflows.
abbrev pub is_int : ℕ → ℤ → Bool
is_int n (pos m) = m == n
is_int n (negsuc m) = false

abbrev pub inc_int : ℤ → Option ℤ
inc_int (pos n) = if ltb (n + 1) (2 ^ 31) then some (pos (n + 1)) else none
inc_int (negsuc zero) = some (pos 0)
inc_int (negsuc (suc n)) = some (negsuc n)

abbrev pub dec_int : ℤ → Option ℤ
dec_int (pos zero) = some (negsuc 0)
dec_int (pos (suc n)) = some (pos n)
dec_int (negsuc n) = if ltb (n + 1) (2 ^ 31) then some (negsuc (n + 1)) else none

-- `struct queue`, its length an `int`, and the heap of its nodes
pub record Deque : Type 0 where
  pub heap : Ptr → Option Node
  pub head : Ptr
  pub tail : Ptr
  pub length : ℤ

-- The length becomes what the arithmetic gives; where that is undefined the model stops.
abbrev pub set_length : {A : Type 0} → Option ℤ → A → Cmd Deque A
set_length none a q = halt
set_length (some n) a q = ok a (record q { length = n })

-- `*p`: a fault at an address that holds no node
abbrev pub load : Ptr → Cmd Deque Node
load p q = elim (q.heap p) [ none ↦ halt | some n ↦ ok n q ]

-- `p->next = v`
abbrev pub set_next : Ptr → Ptr → Cmd Deque (Unit {0})
set_next p v q =
    and_then (load p q)
      (λ n t. ok tt (record t { heap = update t.heap p (some (record n { next = v })) }))

-- `p->prev = v`
abbrev pub set_prev : Ptr → Ptr → Cmd Deque (Unit {0})
set_prev p v q =
    and_then (load p q)
      (λ n t. ok tt (record t { heap = update t.heap p (some (record n { prev = v })) }))

-- A call on a queue that may be NULL.
abbrev pub on_queue : {A : Type 0} → A → Cmd Deque A → Cmd (Option Deque) A
on_queue fail f none = ok fail none
on_queue fail f (some q) = map_state some (f q)

-- There is no queue when `malloc` gives none.
pub queue_new : (heap : Ptr → Option Node) → (allocated : Bool) → Option Deque
queue_new heap false = none
queue_new heap true = some (record { heap = heap; head = null; tail = null; length = pos 0 })

-- The new node with its item.
abbrev pub place_node : (fresh : Ptr) → Node → ℕ → Deque → Deque
place_node fresh memory item q = record q {
  heap = update q.heap fresh (some (record memory { item = item }));
}

-- What follows the allocation.
unfoldable pub prepend_node : (fresh : Ptr) → Cmd Deque ℤ
prepend_node fresh q =
    and_then
      (if is_int 0 q.length
        then set_next fresh null (record q { tail = fresh })
        else and_then (set_prev q.head fresh q) (λ _ t. set_next fresh t.head t))
      (λ _ t.
        and_then (set_prev fresh null (record t { head = fresh }))
          (λ _ u. set_length (inc_int u.length) success u))

unfoldable pub queue_prepend : (fresh : Ptr) → Node → ℕ → Cmd (Option Deque) ℤ
unfolding prepend_node
queue_prepend fresh memory item q =
    on_queue failure
      (λ q1.
        if item == 0
        then ok failure q1
        else if fresh == null
        then ok failure q1
        else prepend_node fresh (place_node fresh memory item q1))
      q

unfoldable pub append_node : (fresh : Ptr) → Cmd Deque ℤ
append_node fresh q =
    and_then
      (if is_int 0 q.length
        then set_prev fresh null (record q { head = fresh })
        else and_then (set_next q.tail fresh q) (λ _ t. set_prev fresh t.tail t))
      (λ _ t.
        and_then (set_next fresh null (record t { tail = fresh }))
          (λ _ u. set_length (inc_int u.length) success u))

unfoldable pub queue_append : (fresh : Ptr) → Node → ℕ → Cmd (Option Deque) ℤ
unfolding append_node
queue_append fresh memory item q =
    on_queue failure
      (λ q1.
        if item == 0
        then ok failure q1
        else if fresh == null
        then ok failure q1
        else append_node fresh (place_node fresh memory item q1))
      q

-- The head of a queue that is not empty.
unfoldable pub take_head : Cmd Deque (ℤ × ℕ)
take_head q = and_then (load q.head q) (λ n t.
    and_then
      (if is_int 1 t.length
        then ok tt (record t { head = null; tail = null })
        else set_prev n.next null (record t { head = n.next }))
      (λ _ u. set_length (dec_int u.length) (success, n.item) u))

-- The second of the results is what goes through `item`; `item` may be NULL, and then the guard for it
-- writes through it.
unfoldable pub queue_dequeue : (has_item : Bool) → Cmd (Option Deque) (ℤ × ℕ)
unfolding take_head
queue_dequeue false q = halt
queue_dequeue true q =
    on_queue (failure, 0) (λ q1. if is_int 0 q1.length then ok (failure, 0) q1 else take_head q1) q

-- The loop of `queue_iterate` from `cur` on, on fuel; `f` is the caller's function with its argument.
unfoldable pub iterate_from :
    (f : Ptr → Cmd Deque (Unit {0})) → (fuel : ℕ) → Ptr → Cmd Deque (Unit {0})
iterate_from f zero cur q = if cur == null then ok tt q else spin
iterate_from f (suc fuel) cur q =
    if cur == null
    then ok tt q
    else and_then (f cur q) (λ _ t. and_then (load cur t) (λ n u. iterate_from f fuel n.next u))

unfoldable pub queue_iterate :
    (f : Option (Ptr → Cmd Deque (Unit {0}))) → (fuel : ℕ) → Cmd (Option Deque) ℤ
unfolding iterate_from
queue_iterate none fuel q = ok failure q
queue_iterate (some f) fuel q =
    on_queue failure (λ q1. and_then (iterate_from f fuel q1.head q1) (λ _ t. ok success t)) q

-- The queue is gone when it was empty.
pub queue_free : Cmd (Option Deque) ℤ
queue_free none = ok failure none
queue_free (some q) = if is_int 0 q.length then ok success none else ok failure (some q)

pub queue_length : Cmd (Option Deque) ℤ
queue_length q = on_queue failure (λ q1. ok q1.length q1) q

-- The search of `queue_delete`: the node that holds the item, or NULL.
unfoldable pub find_node : (fuel : ℕ) → (item : ℕ) → Ptr → Cmd Deque Ptr
find_node zero item p q = if p == null then ok null q else spin
find_node (suc fuel) item p q =
    if p == null
    then ok null q
    else and_then (load p q)
        (λ n t. if n.item == item then ok p t else find_node fuel item n.next t)

-- The links around the node `n`; the length stays as it is, and so does a queue of one node.
unfoldable pub unlink : Node → Cmd Deque ℤ
unlink n q =
    if n.prev == null
    then if n.next == null
      then ok success q
      else and_then (set_prev n.next null (record q { head = n.next })) (λ _ t. ok success t)
    else if n.next == null
    then and_then (set_next n.prev null (record q { tail = n.prev })) (λ _ t. ok success t)
    else and_then (set_next n.prev n.next q)
        (λ _ t. and_then (set_prev n.next n.prev t) (λ _ u. ok success u))

unfoldable pub queue_delete : (fuel : ℕ) → (item : ℕ) → Cmd (Option Deque) ℤ
unfolding find_node unlink
queue_delete fuel item q =
    on_queue failure
      (λ q1.
        if (item == 0) || is_int 0 q1.length
        then ok failure q1
        else and_then (find_node fuel item q1.head q1)
            (λ p t. if p == null then ok failure t else and_then (load p t) (λ n u. unlink n u)))
      q
