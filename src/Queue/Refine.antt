-- ===== src/Queue/Refine.antt =====
-- A valid `file_queue_t` behaves as a bounded first-in first-out queue of items.

use chat_app_in_c.Common.{
  ℕ, ◌≡◌, refl, ap, ap₂, ◌∙◌, Bool, true, false, none, some, List, [], ◌∷◌, ◌++◌, length, ltb, ◌==◌,
  if◌then◌else◌, Bool-cases, inl, inr, arith,
}
use chat_app_in_c.Queue.{
  FileItem, FileQueue, file_queue_is_full, put, get, file_queue_try_enqueue, file_queue_enqueue,
  file_queue_dequeue,
}
use chat_app_in_c.Queue.Contents.{
  tabulate, slot, contents, length-contents, contents-put, contents-get, capacity-put, capacity-get,
}
use chat_app_in_c.Queue.Invariant.{IsValid, put-IsValid, get-IsValid}

-- The queue's calls, and what a caller sees of each: an answer, an item, or that it has to wait.
pub data Call : Type 0 where
  asks_full takes : Call
  tries puts : FileItem → Call

pub data Reply : Type 0 where
  told : Bool → Reply
  gave : FileItem → Reply
  waits done : Reply

-- One call of the code
pub call : FileQueue → Call → Reply × FileQueue
call q asks_full = (told (file_queue_is_full q), q)
call q (tries item) = let (ok, q') = file_queue_try_enqueue q item in (told ok, q')
call q (puts item) = elim (file_queue_enqueue q item) [ none ↦ (waits, q) | some q' ↦ (done, q') ]
call q takes = elim (file_queue_dequeue q) [ none ↦ (waits, q) | some (item, q') ↦ (gave item, q') ]

pub run : FileQueue → List Call → List Reply
run q [] = []
run q (c ∷ cs) = (call q c).0 ∷ run (call q c).1 cs

-- One call of a bounded queue: a list of items, oldest first, of at most `capacity`
module _ (capacity : ℕ) where
  pub spec_call : List FileItem → Call → Reply × List FileItem
  spec_call xs asks_full = (told (length xs == capacity), xs)
  spec_call xs (tries item) =
      if ltb (length xs) capacity then (told true, xs ++ item ∷ []) else (told false, xs)
  spec_call xs (puts item) =
      if ltb (length xs) capacity then (done, xs ++ item ∷ []) else (waits, xs)
  spec_call [] takes = (waits, [])
  spec_call (x ∷ xs) takes = (gave x, xs)

  pub spec_run : List FileItem → List Call → List Reply
  spec_run xs [] = []
  spec_run xs (c ∷ cs) = (spec_call xs c).0 ∷ spec_run (spec_call xs c).1 cs

-- What one call has to do: answer as the bounded queue, hold what that holds, and stay valid.
record Agrees (q : FileQueue) (c : Call) : Type 0 where
  reply : (call q c).0 ≡ (spec_call q.capacity (contents q) c).0
  items : contents (call q c).1 ≡ (spec_call q.capacity (contents q) c).1
  capacity : (call q c).1.capacity ≡ q.capacity
  valid : IsValid (call q c).1

asks_full-Agrees : {q : FileQueue} → IsValid q → Agrees q asks_full
unfolding call spec_call file_queue_is_full
asks_full-Agrees {q} v = record {
  reply = rw (length-contents q);
  items = refl;
  capacity = refl;
  valid = v;
}

tries-Agrees : {q : FileQueue} (item : FileItem) → IsValid q → Agrees q (tries item)
unfolding call spec_call file_queue_try_enqueue
tries-Agrees {q} item v = elim (Bool-cases (ltb q.count q.capacity)) [
  | inl e ↦ record {
    reply = rw (length-contents q, e);
    items = rw (length-contents q, e) (contents-put item v (ground arith));
    capacity = rw e put-capacity;
    valid = rw e (put-IsValid item v (ground arith));
  }
  | inr e ↦ record {
    reply = rw (length-contents q, e);
    items = rw (length-contents q, e) refl;
    capacity = rw e refl;
    valid = rw e v;
  }
]
  where
    put-capacity : (put q item).capacity ≡ q.capacity
    put-capacity = capacity-put q item

call_puts_full :
    (q : FileQueue) (item : FileItem)
    → (q.count == q.capacity) ≡ true
    → call q (puts item) ≡ (waits, q)
unfolding call file_queue_enqueue
call_puts_full q item e = ground arith

call_puts_room :
    (q : FileQueue) (item : FileItem)
    → (q.count == q.capacity) ≡ false
    → call q (puts item) ≡ (done, put q item)
unfolding call file_queue_enqueue
call_puts_room q item e = ground arith

puts-Agrees : {q : FileQueue} (item : FileItem) → IsValid q → Agrees q (puts item)
unfolding spec_call
puts-Agrees {q} item v = elim (Bool-cases (q.count == q.capacity)) [
  | inl e ↦
      let full : ltb q.count q.capacity ≡ false = ground arith in
      record {
        reply = rw (call_puts_full q item e, length-contents q, full);
        items = rw (call_puts_full q item e, length-contents q, full);
        capacity = rw (call_puts_full q item e);
        valid = rw (call_puts_full q item e) v;
      }
  | inr e ↦
      let room : ltb q.count q.capacity ≡ true = ground arith in
      record {
        reply = rw (call_puts_room q item e, length-contents q, room);
        items =
            rw (call_puts_room q item e, length-contents q, room)
              (contents-put item v (ground arith));
        capacity = rw (call_puts_room q item e) (capacity-put q item);
        valid = rw (call_puts_room q item e) (put-IsValid item v (ground arith));
      }
]

spec_takes :
    (capacity : ℕ) (xs : List FileItem) (x : FileItem) (rest : List FileItem)
    → xs ≡ x ∷ rest
    → spec_call capacity xs takes ≡ (gave x, rest)
unfolding spec_call
spec_takes capacity xs x rest e = rw e

call_takes_empty : (q : FileQueue) → (q.count == 0) ≡ true → call q takes ≡ (waits, q)
unfolding call file_queue_dequeue
call_takes_empty q e = ground arith

call_takes_some :
    (q : FileQueue) → (q.count == 0) ≡ false → call q takes ≡ (gave (get q).0, (get q).1)
unfolding call file_queue_dequeue
call_takes_some q e = ground arith

takes-Agrees : {q : FileQueue} → IsValid q → Agrees q takes
takes-Agrees {q} v = elim (Bool-cases (q.count == 0)) [
  | inl e ↦
      let none_left : contents q ≡ [] = ap (tabulate (slot q)) {y = 0} (ground arith) in
      record {
        reply = rw (call_takes_empty q e, none_left) (unfold spec_call in refl);
        items = rw (call_takes_empty q e, none_left) (unfold spec_call in refl);
        capacity = rw (call_takes_empty q e);
        valid = rw (call_takes_empty q e) v;
      }
  | inr e ↦
      let front = spec_takes q.capacity _ _ _ (contents-get v (ground arith)) in
      record {
        reply = rw (call_takes_some q e, front);
        items = rw (call_takes_some q e, front);
        capacity = rw (call_takes_some q e) (capacity-get q);
        valid = rw (call_takes_some q e) (get-IsValid v (ground arith));
      }
]

call-Agrees : {q : FileQueue} (c : Call) → IsValid q → Agrees q c
call-Agrees asks_full v = asks_full-Agrees v
call-Agrees takes v = takes-Agrees v
call-Agrees (tries item) v = tries-Agrees item v
call-Agrees (puts item) v = puts-Agrees item v

-- No sequence of calls tells a valid queue from the bounded first-in first-out list of its items: the
-- replies to `file_queue_is_full`, `file_queue_try_enqueue`, `file_queue_enqueue` and
-- `file_queue_dequeue`, the waits included, are those of the list.
pub run_refines :
    (cs : List Call) {q : FileQueue} → IsValid q → run q cs ≡ spec_run q.capacity (contents q) cs
unfolding run spec_run
run_refines [] v = refl
run_refines (c ∷ cs) {q} v =
    let a = call-Agrees c v in
    ap₂ ◌∷◌ a.reply (run_refines cs a.valid ∙ ap₂ (λ n xs. spec_run n xs cs) a.capacity a.items)
