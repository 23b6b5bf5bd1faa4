-- ===== src/Queue/Threads/Invariant.antt =====
-- The threads of the queue keep `Inv`: no wake-up is lost, and the order is kept.
use chat_app_in_c.Common.{
  ◌+◌, ◌-◌, ◌<◌, ◌≤◌, ◌≡◌, refl, sym, ap, ◌⊎◌, inl, [], ◌∷◌, ◌++◌, append_assoc, arith,
}
use chat_app_in_c.Queue.{FileItem, FileQueue, put, get}
use chat_app_in_c.Queue.Contents.{
  tabulate, slot, contents, contents-put, contents-get, capacity-put, capacity-get,
}
use chat_app_in_c.Queue.Invariant.{IsValid, no_wrap, put-IsValid, get-IsValid}
use chat_app_in_c.Queue.Threads.{
  System, signal_not_empty, signal_not_full, producer, consumer, Step, produce, consume,
  produce_again, consume_again, spurious_full, spurious_empty, idle_system, Reach, start, later,
  Inv,
}

count-put : {q : FileQueue} (item : FileItem) → IsValid q → (put q item).count ≡ q.count + 1
unfolding put
count-put item v = (no_wrap v).2

count-get : (q : FileQueue) → (get q).1.count ≡ q.count - 1
unfolding get
count-get q = refl

module _ (s : System) (item : FileItem) (valid : IsValid s.queue)
    (items : (s.wait_empty ≡ 0) ⊎ (s.count ≤ s.woken_empty))
    (room : (s.wait_full ≡ 0) ⊎ (s.capacity ≤ s.count + s.woken_full + 1))
    (order : s.entered ≡ s.left ++ contents s.queue) where
  producer-Inv : Inv (producer item s)
  unfolding producer signal_not_empty
  producer-Inv = ground (
    arith,
    count-put item valid,
    capacity-put s.queue item,
    put-IsValid item valid,
    contents-put item valid,
    append_assoc s.left (contents s.queue) (item ∷ []),
  )

module _ (s : System) (valid : IsValid s.queue)
    (items : (s.wait_empty ≡ 0) ⊎ (s.count ≤ s.woken_empty + 1))
    (room : (s.wait_full ≡ 0) ⊎ (s.capacity ≤ s.count + s.woken_full))
    (order : s.entered ≡ s.left ++ contents s.queue) where
  consumer-Inv : Inv (consumer s)
  unfolding consumer signal_not_full
  consumer-Inv = ground (
    arith,
    count-get s.queue,
    capacity-get s.queue,
    get-IsValid valid,
    contents-get valid,
    append_assoc s.left ((get s.queue).0 ∷ []) (contents (get s.queue).1),
  )

-- Every step of a thread keeps the invariant.
pub Step-Inv : {s t : System} → Step s t → Inv s → Inv t
Step-Inv {s} (produce item) v =
    producer-Inv s item v.valid v.no_lost_item_wakeup (ground (arith, v.no_lost_room_wakeup))
      v.in_order
Step-Inv {s} consume v =
    consumer-Inv s v.valid (ground (arith, v.no_lost_item_wakeup)) v.no_lost_room_wakeup v.in_order
Step-Inv {s} (produce_again item h) v =
    producer-Inv (record s { woken_full = s.woken_full - 1 }) item v.valid v.no_lost_item_wakeup
      (ground (arith, v.no_lost_room_wakeup)) v.in_order
Step-Inv {s} (consume_again h) v =
    consumer-Inv (record s { woken_empty = s.woken_empty - 1 }) v.valid
      (ground (arith, v.no_lost_item_wakeup)) v.no_lost_room_wakeup v.in_order
Step-Inv (spurious_full h) v = ground (arith, v.no_lost_room_wakeup)
Step-Inv (spurious_empty h) v = ground (arith, v.no_lost_item_wakeup)

idle_system-Inv : {q : FileQueue} → IsValid q → q.count ≡ 0 → Inv (idle_system q)
idle_system-Inv {q} v e = record {
  valid = v;
  no_lost_item_wakeup = inl refl;
  no_lost_room_wakeup = inl refl;
  in_order = sym (ap (tabulate (slot q)) {y = 0} e);
}

Reach-Inv : {q : FileQueue} {s : System} → IsValid q → q.count ≡ 0 → Reach q s → Inv s
Reach-Inv v e start = idle_system-Inv v e
Reach-Inv v e (later r st) = Step-Inv st (Reach-Inv v e r)

-- Whatever the threads do from a valid, empty queue on, in any order, the items that come out are
-- those that went in, in the same order, and the rest is what the queue still holds.
pub first_in_first_out :
    {q : FileQueue} {s : System}
    → IsValid q
    → q.count ≡ 0
    → Reach q s
    → s.entered ≡ s.left ++ contents s.queue
first_in_first_out v e r = (Reach-Inv v e r).in_order

-- No wake-up is lost: in every reachable state either no consumer waits, or every queued item has a
-- consumer that is woken and yet to test; and either no producer waits, or every free slot has a
-- producer that is woken and yet to test.
pub no_lost_wakeup :
    {q : FileQueue} {s : System}
    → IsValid q
    → q.count ≡ 0
    → Reach q s
    → ((s.wait_empty ≡ 0) ⊎ (s.count ≤ s.woken_empty))
      × ((s.wait_full ≡ 0) ⊎ (s.capacity ≤ s.count + s.woken_full))
no_lost_wakeup {s} v e r = let i = Reach-Inv v e r in (i.no_lost_item_wakeup, i.no_lost_room_wakeup)

-- The queue cannot get stuck: in a reachable state in which a producer and a consumer wait, some thread
-- is woken and yet to test.
pub never_stuck :
    {q : FileQueue} {s : System}
    → IsValid q
    → q.count ≡ 0
    → Reach q s
    → 0 < s.wait_full
    → 0 < s.wait_empty
    → 0 < s.woken_full + s.woken_empty
never_stuck {s} v e r a b =
    let i = Reach-Inv v e r in
    let cap = i.valid.head_in in ground (arith, i.no_lost_item_wakeup, i.no_lost_room_wakeup, cap)
