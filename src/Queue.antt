-- ===== src/Queue.antt =====
-- server/src/file_queue.c and server/include/file_queue.h: the bounded queue of file uploads.
-- `size_t` additions keep their wrap-around. The mutex makes each function one step, but for the
-- waits on the two condition variables, which Queue/Threads.antt models.
pub mod Invariant
pub mod Contents
pub mod Refine
pub mod Cleanup
pub mod Threads
mod Tests
use chat_app_in_c.Common.{
  ℕ, zero, suc, ◌+◌, ◌-◌, ◌%◌, ◌^◌, Bool, true, false, Option, none, some, List, [], ◌∷◌, ltb, ◌==◌,
  if◌then◌else◌, get_or, set, replicate,
}
use chat_app_in_c.CString.{Bytes}

-- A heap buffer, such as the one that `data` points to: its address and its bytes.
pub record Block : Type 0 where
  pub address : ℕ
  pub bytes : Bytes

-- `file_item_t`; `payload` is the field `data`, and `none` its NULL.
pub record FileItem : Type 0 where
  pub filename : Bytes
  pub size : ℕ
  pub payload : Option Block
  pub sender : Bytes
  pub target : Bytes
  pub is_sentinel : Bool

-- `struct file_queue`, less the mutex and the condition variables
pub record FileQueue : Type 0 where
  pub buffer : List FileItem
  pub capacity : ℕ
  pub head : ℕ
  pub tail : ℕ
  pub count : ℕ

-- An item of zero bytes, as `calloc` and `= {0}` give it
abbrev pub zero_item : FileItem
zero_item = record {
  filename = [];
  size = 0;
  payload = none;
  sender = [];
  target = [];
  is_sentinel = false;
}

-- `size_t` addition
abbrev pub add_size : ℕ → ℕ → ℕ
add_size a b = (a + b) % 2 ^ 64

-- `file_queue_init`; the two Booleans say whether `malloc` and `calloc` succeed.
unfoldable pub file_queue_init : Bool → Bool → ℕ → Option FileQueue
file_queue_init malloc_ok calloc_ok capacity =
    if malloc_ok then if calloc_ok then some fresh else none else none
  where
    fresh : FileQueue
    fresh = record {
      buffer = replicate capacity zero_item;
      capacity = capacity;
      head = 0;
      tail = 0;
      count = 0;
    }

-- `file_queue_is_full`
unfoldable pub file_queue_is_full : FileQueue → Bool
file_queue_is_full q = q.count == q.capacity

-- The test of the wait loop of `file_queue_dequeue`
unfoldable pub file_queue_is_empty : FileQueue → Bool
file_queue_is_empty q = q.count == 0

-- `q->buffer[q->tail] = *item; q->tail = (q->tail + 1) % q->capacity; q->count++;`
unfoldable pub put : FileQueue → FileItem → FileQueue
put q item = record q {
  buffer = set q.buffer q.tail item;
  tail = add_size q.tail 1 % q.capacity;
  count = add_size q.count 1;
}

-- `file_queue_try_enqueue`
unfoldable pub file_queue_try_enqueue : FileQueue → FileItem → Bool × FileQueue
file_queue_try_enqueue q item = if ltb q.count q.capacity then (true, put q item) else (false, q)

-- One round of `file_queue_enqueue`: `none` is a wait on `not_full`.
unfoldable pub file_queue_enqueue : FileQueue → FileItem → Option FileQueue
unfolding file_queue_is_full
file_queue_enqueue q item = if file_queue_is_full q then none else some (put q item)

-- The copy out of `buffer[head]`, and the new `head` and `count`
unfoldable pub get : FileQueue → FileItem × FileQueue
get q = (
  get_or q.buffer q.head zero_item,
  record q { head = add_size q.head 1 % q.capacity; count = q.count - 1 },
)

-- One round of `file_queue_dequeue`: `none` is a wait on `not_empty`.
unfoldable pub file_queue_dequeue : FileQueue → Option (FileItem × FileQueue)
unfolding file_queue_is_empty
file_queue_dequeue q = if file_queue_is_empty q then none else some (get q)

-- The loop of `file_queue_destroy`: the addresses that it frees, from the first slot on.
unfoldable pub freed_by : List FileItem → List ℕ
freed_by [] = []
freed_by (item ∷ items) = elim item.payload [
  | none ↦ freed_by items
  | some block ↦ block.address ∷ freed_by items
]

-- `file_queue_destroy`: what it frees besides the queue itself. The loop is bounded by `capacity`,
-- which is the length of the buffer.
unfoldable pub file_queue_destroy : FileQueue → List ℕ
unfolding freed_by
file_queue_destroy q = freed_by q.buffer
