-- ===== src/Server/Uploads.antt =====
-- The upload queue of the whole server: what it holds in every state, whichever thread takes its turn.
pub mod Kept
pub mod Always
use chat_app_in_c.Common.{
  ◌+◌, ◌<◌, ◌≡◌, refl, sym, ap, ◌∙◌, Bool-cases, inl, inr, Option, none, some, List, [], ◌∷◌, ◌++◌,
  ◌==◌, arith,
}
use mathlib.Core.Path.{subst}
use chat_app_in_c.Queue.{
  FileItem, FileQueue, put, get, file_queue_is_full, file_queue_is_empty, file_queue_enqueue,
  file_queue_dequeue,
}
use chat_app_in_c.Queue.Invariant.{IsValid, put-IsValid, get-IsValid}
use chat_app_in_c.Queue.Contents.{
  IsFile, AllFiles, contents, contents-put, contents-get, capacity-put, capacity-get,
}
use chat_app_in_c.Server.{Ptr, room_capacity}
use chat_app_in_c.Server.Frames.{Frame}

-- A valid queue of the capacity that `main` gives it, with nothing in it but files
pub record HoldsFiles (q : FileQueue) : Type 0 where
  pub valid : IsValid q
  pub capacity : q.capacity ≡ room_capacity
  pub all_files : AllFiles (contents q)

AllFiles-append :
    (items : List FileItem) (item : FileItem)
    → AllFiles items
    → IsFile item
    → AllFiles (items ++ item ∷ [])
AllFiles-append [] item all file = (file, tt)
AllFiles-append (x ∷ items) item (first, all) file = (first, AllFiles-append items item all file)

pub enqueue-HoldsFiles :
    (q q' : FileQueue) (item : FileItem)
    → IsFile item
    → file_queue_enqueue q item ≡ some q'
    → HoldsFiles q
    → HoldsFiles q'
unfolding file_queue_enqueue file_queue_is_full
enqueue-HoldsFiles q q' item file e h = elim (Bool-cases (q.count == q.capacity)) [
  | inl full ↦ absurd (ground (arith, full, e))
  | inr space ↦
      let count_in = h.valid.count_in in
      let room : q.count < q.capacity = ground arith in
      let is_put : put q item ≡ q' = ground arith in
      subst HoldsFiles is_put (record {
        valid = put-IsValid item h.valid room;
        capacity = capacity-put q item ∙ h.capacity;
        all_files =
            subst AllFiles (sym (contents-put item h.valid room))
              (AllFiles-append (contents q) item h.all_files file);
      })
]

abbrev queue_left : Option (FileItem × FileQueue) → FileQueue → FileQueue
queue_left none q = q
queue_left (some (item, q')) q = q'

pub dequeue-HoldsFiles :
    (q q' : FileQueue) (item : FileItem)
    → file_queue_dequeue q ≡ some (item, q')
    → HoldsFiles q
    → HoldsFiles q'
unfolding file_queue_dequeue file_queue_is_empty
dequeue-HoldsFiles q q' item e h = elim (Bool-cases (q.count == 0)) [
  | inl empty ↦ absurd (ground (arith, empty, e))
  | inr queued ↦
      let some_left : 0 < q.count = ground arith in
      let got : file_queue_dequeue q ≡ some (get q) = rw queued refl in
      let is_rest : (get q).1 ≡ q' = ap (λ o. queue_left o q) (sym got ∙ e) in
      let (_, files) = subst AllFiles (contents-get h.valid some_left) h.all_files in
      subst HoldsFiles is_rest (record {
        valid = get-IsValid h.valid some_left;
        capacity = capacity-get q ∙ h.capacity;
        all_files = files;
      })
]

-- That the queue is such, as a condition of Server/Frames
abbrev pub queue : (c : Ptr) → Frame c
queue c = record {
  keeps = λ f q. HoldsFiles q;
  write = λ f q o h. h;
  enqueue = λ f q q' item file e h. enqueue-HoldsFiles q q' item file e h;
}
