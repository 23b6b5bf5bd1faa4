-- ===== src/Queue/Invariant.antt =====
-- The representation invariant of `file_queue_t`, and that every operation keeps it.
use chat_app_in_c.Common.{
  ℕ, ◌+◌, ◌%◌, ◌^◌, ◌<◌, ◌≤◌, ◌≡◌, Bool, some, length, length-set, length-replicate, arith, ap, ◌∙◌,
}
use native.Mathlib.Nat.{mod-lt, mod-add-mod, mod-eq_of_lt}
use chat_app_in_c.Queue.{zero_item, FileItem, FileQueue, file_queue_init, put, get, add_size}

pub record IsValid (q : FileQueue) : Type 0 where
  pub storage : length q.buffer ≡ q.capacity
  pub small : q.capacity < 2 ^ 63
  pub head_in : q.head < q.capacity
  pub count_in : q.count ≤ q.capacity
  pub tail_at : q.tail ≡ (q.head + q.count) % q.capacity

-- No `size_t` addition of the queue wraps.
pub no_wrap :
    {q : FileQueue}
    → IsValid q
    → (add_size q.tail 1 ≡ q.tail + 1)
      × (add_size q.head 1 ≡ q.head + 1)
      × (add_size q.count 1 ≡ q.count + 1)
      × (q.tail < q.capacity)
no_wrap {q} v =
    let tail_in : q.tail < q.capacity =
      omega (arith, mod-lt (q.head + q.count) {m = q.capacity} (omega arith)) in
    (omega (arith, tail_in), omega arith, omega arith, tail_in)

pub init-IsValid :
    (a b : Bool) (capacity : ℕ) {q : FileQueue}
    → 0 < capacity
    → capacity < 2 ^ 63
    → file_queue_init a b capacity ≡ some q
    → IsValid q × (q.count ≡ 0) × (q.capacity ≡ capacity)
unfolding file_queue_init
init-IsValid a b capacity pos small e =
    ground (arith, length-replicate capacity zero_item, mod-eq_of_lt {n = 0} {m = capacity} pos)

pub put-IsValid :
    {q : FileQueue} (item : FileItem) → IsValid q → q.count < q.capacity → IsValid (put q item)
unfolding put
put-IsValid {q} item v room = record {
  storage = length-set q.buffer q.tail item ∙ v.storage;
  small = v.small;
  head_in = v.head_in;
  count_in = omega arith;
  tail_at =
      rw ((no_wrap v).0, (no_wrap v).2, v.tail_at, mod-add-mod)
        (ap (λ n. n % q.capacity) (omega arith));
}

pub get-IsValid : {q : FileQueue} → IsValid q → 0 < q.count → IsValid (get q).1
unfolding get
get-IsValid {q} v some_left = record {
  storage = v.storage;
  small = v.small;
  head_in = mod-lt (add_size q.head 1) (omega arith);
  count_in = omega arith;
  tail_at = rw ((no_wrap v).1, mod-add-mod) (v.tail_at ∙ ap (λ n. n % q.capacity) (omega arith));
}
