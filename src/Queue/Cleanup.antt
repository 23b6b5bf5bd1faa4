-- ===== src/Queue/Cleanup.antt =====
-- `file_queue_destroy`: which of the items' buffers it frees.
use chat_app_in_c.Common.{
  ℕ, zero, suc, ◌+◌, ◌<◌, ◌≡◌, refl, some, ◌⊎◌, inl, List, [], ◌∷◌, length, get_or, arith,
}
use native.Mathlib.Nat.{mod-lt}
use chat_app_in_c.Queue.{
  Block, FileItem, FileQueue, zero_item, get, freed_by, file_queue_dequeue, file_queue_destroy,
}
use chat_app_in_c.Queue.Contents.{slot}
use chat_app_in_c.Queue.Invariant.{IsValid}

-- The address is in the list.
abbrev pub IsFreed : ℕ → List ℕ → Type 0
IsFreed a [] = ⊥
IsFreed a (b ∷ bs) = (a ≡ b) ⊎ IsFreed a bs

-- The loop frees the buffer of every slot that has one.
freed_by-slot :
    (items : List FileItem) (i : ℕ) (block : Block)
    → i < length items
    → (get_or items i zero_item).payload ≡ some block
    → IsFreed block.address (freed_by items)
unfolding freed_by
freed_by-slot [] i block lt e = absurd (omega arith)
freed_by-slot (item ∷ items) zero block lt e = rw (e, freed_by) (inl refl)
freed_by-slot (item ∷ items) (suc i) block lt e =
    keep item (freed_by-slot items i block (omega arith) e)
  where
    keep :
        (item : FileItem)
        → IsFreed block.address (freed_by items)
        → IsFreed block.address (freed_by (item ∷ items))
    keep item h = ground arith

-- `file_queue_destroy` on a valid queue frees the buffer of every item that is still queued.
pub destroy_frees_queued :
    {q : FileQueue} (i : ℕ) (block : Block)
    → IsValid q
    → i < q.count
    → (slot q i).payload ≡ some block
    → IsFreed block.address (file_queue_destroy q)
unfolding file_queue_destroy
destroy_frees_queued {q} i block v lt e =
    freed_by-slot q.buffer _ block
      (rw v.storage (mod-lt (q.head + i) {m = q.capacity} (omega arith))) e

-- `file_queue_dequeue` leaves the pointer in its slot: if the item that it hands to the caller has a
-- buffer, `file_queue_destroy` right after it frees that buffer as well, which the caller owns.
pub destroy_frees_dequeued :
    {q q' : FileQueue} (item : FileItem) (block : Block)
    → IsValid q
    → file_queue_dequeue q ≡ some (item, q')
    → item.payload ≡ some block
    → IsFreed block.address (file_queue_destroy q')
unfolding file_queue_destroy file_queue_dequeue get
destroy_frees_dequeued {q} item block v e h = ground (arith, freed_by-slot q.buffer q.head block)
