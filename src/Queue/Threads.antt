-- ===== src/Queue/Threads.antt =====
-- The queue among its threads: producers that call `file_queue_enqueue`, consumers that call
-- `file_queue_dequeue`, and the two condition variables. Each step is what a thread does from taking
-- the mutex to giving it up: a call that goes through, or one that waits. A waiting thread goes on
-- after a signal, or spuriously, as POSIX allows; it then tests again.
pub mod Invariant
use chat_app_in_c.Common.{
  ℕ, zero, suc, ◌+◌, ◌-◌, ◌<◌, ◌≤◌, ◌≡◌, refl, ap, ◌∙◌, Bool, true, false, Option, none, some, ◌⊎◌,
  inl, inr, ◌≢◌, List, [], ◌∷◌, ◌++◌, append_assoc, append-nil, length, if◌then◌else◌, ◌==◌,
  Bool-cases, arith,
}
use chat_app_in_c.Queue.{
  FileItem, FileQueue, file_queue_is_full, file_queue_is_empty, put, get, file_queue_enqueue,
  file_queue_dequeue, add_size,
}
use chat_app_in_c.Queue.Contents.{contents, contents-put, contents-get, capacity-put, capacity-get}
use chat_app_in_c.Queue.Invariant.{IsValid, no_wrap, put-IsValid, get-IsValid}

-- The queue, how many threads wait on each condition variable, how many of them have been woken and
-- have yet to test again, and the items that went in and came out, oldest first.
pub record System : Type 0 where
  pub queue : FileQueue
  pub open queue use *
  pub wait_full : ℕ
  pub woken_full : ℕ
  pub wait_empty : ℕ
  pub woken_empty : ℕ
  pub entered : List FileItem
  pub left : List FileItem

-- `pthread_cond_signal(&q->not_empty)`: one waiting consumer, if there is one, is woken.
unfoldable pub signal_not_empty : System → System
signal_not_empty s =
    if s.wait_empty == 0
    then s
    else record s { wait_empty = s.wait_empty - 1; woken_empty = s.woken_empty + 1 }

-- `pthread_cond_signal(&q->not_full)`
unfoldable pub signal_not_full : System → System
signal_not_full s =
    if s.wait_full == 0
    then s
    else record s { wait_full = s.wait_full - 1; woken_full = s.woken_full + 1 }

-- A producer with the mutex: it waits, or it puts its item and signals.
unfoldable pub producer : FileItem → System → System
unfolding file_queue_enqueue
producer item s = elim (file_queue_enqueue s.queue item) [
  | none ↦ record s { wait_full = s.wait_full + 1 }
  | some q ↦ signal_not_empty (record s { queue = q; entered = s.entered ++ item ∷ [] })
]

-- A consumer with the mutex: it waits, or it takes an item and signals.
unfoldable pub consumer : System → System
unfolding file_queue_dequeue
consumer s = elim (file_queue_dequeue s.queue) [
  | none ↦ record s { wait_empty = s.wait_empty + 1 }
  | some (item, q) ↦ signal_not_full (record s { queue = q; left = s.left ++ item ∷ [] })
]

-- A thread that comes new to the queue, one that has been woken and tests again, and one that wakes
-- with no signal.
pub data Step (s : System) : System → Type 0 where
  produce : (item : FileItem) → Step s (producer item s)
  consume : Step s (consumer s)
  produce_again :
      (item : FileItem)
      → 0 < s.woken_full
      → Step s (producer item (record s { woken_full = s.woken_full - 1 }))
  consume_again :
      0 < s.woken_empty → Step s (consumer (record s { woken_empty = s.woken_empty - 1 }))
  spurious_full :
      0 < s.wait_full
      → Step s (record s { wait_full = s.wait_full - 1; woken_full = s.woken_full + 1 })
  spurious_empty :
      0 < s.wait_empty
      → Step s (record s { wait_empty = s.wait_empty - 1; woken_empty = s.woken_empty + 1 })

-- A valid, empty queue before the first call
abbrev pub idle_system : FileQueue → System
idle_system q = record {
  queue = q;
  wait_full = 0;
  woken_full = 0;
  wait_empty = 0;
  woken_empty = 0;
  entered = [];
  left = [];
}

pub data Reach (q : FileQueue) : System → Type 0 where
  start : Reach q (idle_system q)
  later : {s t : System} → Reach q s → Step s t → Reach q t

-- While consumers wait, every queued item has a woken consumer; while producers wait, every free slot
-- has a woken producer. The items that went in are those that came out and, behind them, the queue's.
pub record Inv (s : System) : Type 0 where
  pub valid : IsValid s.queue
  pub no_lost_item_wakeup : (s.wait_empty ≡ 0) ⊎ (s.count ≤ s.woken_empty)
  pub no_lost_room_wakeup : (s.wait_full ≡ 0) ⊎ (s.capacity ≤ s.count + s.woken_full)
  pub in_order : s.entered ≡ s.left ++ contents s.queue
