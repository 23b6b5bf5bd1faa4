-- ===== src/Queue/Tests.antt =====
-- Runs of the queue, and its theorems at concrete queues.
use chat_app_in_c.Common.{◌+◌, ◌<◌, ◌≤◌, ◌≡◌, refl, true, some, ◌⊎◌, List, [], ◌∷◌, ◌++◌, arith}
use chat_app_in_c.CString.{codes}
use chat_app_in_c.Queue.{
  FileItem, FileQueue, zero_item, file_queue_init, file_queue_enqueue, file_queue_dequeue,
  file_queue_destroy, put, get,
}
use chat_app_in_c.Queue.Invariant.{IsValid}
use chat_app_in_c.Queue.Contents.{contents}
use chat_app_in_c.Queue.Refine.{Call, tries, puts, takes, asks_full, run, spec_run, run_refines}
use chat_app_in_c.Queue.Cleanup.{IsFreed, destroy_frees_dequeued}
use chat_app_in_c.Queue.Threads.{
  System, signal_not_empty, signal_not_full, idle_system, producer, consumer, Reach, start, later,
  produce, consume,
}
use chat_app_in_c.Queue.Threads.Invariant.{first_in_first_out, no_lost_wakeup, never_stuck}

abbrev notes : FileItem
notes = record zero_item {
  filename = codes "a.txt";
  size = 2;
  payload = some (record { address = 7; bytes = codes "hi" });
}

abbrev picture : FileItem
picture = record zero_item {
  filename = codes "b.png";
  size = 1;
  payload = some (record { address = 9; bytes = codes "x" });
}

-- Two slots, the second of which is the head
abbrev wrapped : FileQueue
wrapped = record { buffer = picture ∷ notes ∷ []; capacity = 2; head = 1; tail = 1; count = 2 }

abbrev empty : FileQueue
empty = record { buffer = zero_item ∷ zero_item ∷ []; capacity = 2; head = 0; tail = 0; count = 0 }

wrapped-IsValid : IsValid wrapped
wrapped-IsValid = omega arith

empty-IsValid : IsValid empty
empty-IsValid = omega arith

init_two : file_queue_init true true 2 ≡ some empty
unfolding file_queue_init
init_two = refl

contents-wrapped : contents wrapped ≡ notes ∷ picture ∷ []
contents-wrapped = refl

abbrev script : List Call
script = tries notes ∷ takes ∷ puts notes ∷ puts notes ∷ takes ∷ takes ∷ takes ∷ asks_full ∷ []

run_refines_example : run wrapped script ≡ spec_run 2 (notes ∷ picture ∷ []) script
run_refines_example = run_refines script wrapped-IsValid

destroy_frees_dequeued_example : IsFreed 7 (file_queue_destroy (get wrapped).1)
unfolding file_queue_dequeue get
destroy_frees_dequeued_example =
    destroy_frees_dequeued {q = wrapped} notes (record { address = 7; bytes = codes "hi" })
      wrapped-IsValid refl refl

-- A consumer waits, a producer puts an item and wakes it.
abbrev woken : System
woken = producer notes (consumer (idle_system empty))

woken-Reach : Reach empty woken
woken-Reach = later (later start consume) (produce notes)

first_in_first_out_example : woken.entered ≡ woken.left ++ contents woken.queue
first_in_first_out_example = first_in_first_out {s = woken} empty-IsValid refl woken-Reach

no_lost_wakeup_example :
    ((woken.wait_empty ≡ 0) ⊎ (woken.count ≤ woken.woken_empty))
    × ((woken.wait_full ≡ 0) ⊎ (woken.capacity ≤ woken.count + woken.woken_full))
no_lost_wakeup_example = no_lost_wakeup {s = woken} empty-IsValid refl woken-Reach

-- One slot: two producers wait, a consumer takes the item, and a second consumer waits.
abbrev one_slot : FileQueue
one_slot = record { buffer = zero_item ∷ []; capacity = 1; head = 0; tail = 0; count = 0 }

abbrev contested : System
contested =
    consumer (consumer (producer notes (producer picture (producer notes (idle_system one_slot)))))

contested-Reach : Reach one_slot contested
contested-Reach =
    later
      (later (later (later (later start (produce notes)) (produce picture)) (produce notes))
        consume)
      consume

never_stuck_example : 0 < contested.woken_full + contested.woken_empty
unfolding producer consumer signal_not_empty signal_not_full put get file_queue_enqueue
    file_queue_dequeue
never_stuck_example =
    never_stuck {q = one_slot} {s = contested} (omega arith) refl contested-Reach (omega arith)
      (omega arith)
