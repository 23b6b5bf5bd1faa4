-- ===== src/Server/Worker/Transfer.antt =====
-- A file's way through the server: from the sender's socket by the upload queue to the recipient.

use chat_app_in_c.Common.{
  ℕ, suc, ◌<◌, ◌≤◌, ◌≡◌, refl, ap, sym, ◌∙◌, false, some, List, [], ◌∷◌, ◌++◌, append-nil, ◌==◌,
  length, length-take, take, take-all, arith,
}
use chat_app_in_c.CString.{Bytes, copy_into}
use chat_app_in_c.Queue.{
  Block, FileItem, FileQueue, zero_item, get, file_queue_dequeue, file_queue_is_empty, put,
}
use chat_app_in_c.Queue.Invariant.{IsValid as QueueIsValid, put-IsValid}
use chat_app_in_c.Queue.Contents.{contents, contents-get, contents-put, length-contents}
use chat_app_in_c.Server.{Ptr, Connection, Server}
use chat_app_in_c.Server.Invariant.{IsValid, name_of}
use chat_app_in_c.Server.Handler.{Thread}
use chat_app_in_c.Server.Handler.Upload.{goes_on, receive_file, recv_file}
use chat_app_in_c.Server.Handler.Upload.Queued.{
  NoneEmpty, joined_bytes, stored, with_queued, recv_file_exact, receive_file_run,
}
use chat_app_in_c.Server.Worker.{Served, frees, file_header, serve, dequeued, worker_round}
use chat_app_in_c.Server.Worker.Delivery.{output, NoneFails, total, file_is_delivered}

head_of : FileItem → List FileItem → FileItem
head_of d [] = d
head_of d (x ∷ xs) = x

-- A queue that holds items gives the oldest.
dequeue_oldest :
    (q : FileQueue) (item : FileItem) (items : List FileItem)
    → QueueIsValid q
    → contents q ≡ item ∷ items
    → file_queue_dequeue q ≡ some (item, (get q).1)
unfolding file_queue_dequeue file_queue_is_empty head_of
dequeue_oldest q item items valid e =
    let counted : q.count ≡ suc (length items) = sym (length-contents q) ∙ ap length e in
    let some_left : (q.count == 0) ≡ false = ground (arith, counted) in
    let oldest : (get q).0 ≡ item =
      ap (head_of zero_item) (sym (contents-get valid (omega (arith, counted))) ∙ e) in
    simp some_left (ap (λ x. some (x, (get q).1)) oldest)

-- A worker that takes an item which the queue holds first does with it what `serve` does.
pub worker_serves :
    (s s' : Server) (item : FileItem) (items : List FileItem) (writes : List ℕ) (served : Served)
    → QueueIsValid s.upload_queue
    → contents s.upload_queue ≡ item ∷ items
    → serve item writes (record s { upload_queue = (get s.upload_queue).1 }) ≡ some (served, s')
    → worker_round writes s ≡ some (some served, s')
unfolding worker_round dequeued
worker_serves s s' item items writes served valid e f =
    simp (dequeue_oldest s.upload_queue item items valid e, f) refl

-- A worker delivers the item that the queue holds first, to a connected user, under the conditions of
-- `file_is_delivered`.
pub worker_delivers :
    (s : Server) (p : Ptr) (u : Connection) (item : FileItem) (items : List FileItem)
    (block : Block) (writes : List ℕ)
    → IsValid s.world
    → QueueIsValid s.upload_queue
    → contents s.upload_queue ≡ item ∷ items
    → s.conn_at p ≡ some u
    → u.username ≡ item.target
    → item.is_sentinel ≡ false
    → item.payload ≡ some block
    → length block.bytes ≡ item.size
    → length (file_header item) ≤ 4095
    → NoneFails writes
    → item.size ≤ total writes
    → (s' : Server) × (worker_round writes s ≡ some (some (frees item.payload), s'))
      × (output u.notify_writer s'.trace
          ≡ output u.notify_writer s.trace ++ (file_header item ++ block.bytes))
worker_delivers s p u item items block writes valid qvalid queued there same real full size short ok
      enough =
    let (s', e, _, out) =
      file_is_delivered (record s { upload_queue = (get s.upload_queue).1 }) p u item block writes
        valid there same real full size short ok enough in
    (s', worker_serves s s' item items writes (frees item.payload) qvalid queued e, out)

module _ (t : Thread) (s : Server) (v : Connection) (filename target : Bytes) (size address : ℕ)
    (chunks : List Bytes) (p : Ptr) (u : Connection) (writes : List ℕ) where
  abbrev item : FileItem
  item = stored v filename target size address chunks

  -- A file that a client sends to a connected user reaches that user through an empty queue: what the
  -- next worker writes to the user's notify socket is the header and the first `size` bytes that the
  -- client sent, in order. The header has to fit its buffer, and no `recv` and no `write` may fail.
  pub file_reaches_target :
      IsValid s.world
      → QueueIsValid s.upload_queue
      → contents s.upload_queue ≡ []
      → s.conn_at t.connection ≡ some v
      → s.conn_at p ≡ some u
      → u.username ≡ target
      → NoneEmpty chunks
      → size ≤ length (joined_bytes chunks)
      → length (file_header item) ≤ 4095
      → NoneFails writes
      → size ≤ total writes
      → (s1 s2 : Server) × (receive_file t filename target size (some address) chunks s
          ≡ some (goes_on, s1))
        × (worker_round writes s1 ≡ some (some (frees item.payload), s2))
        × (output u.notify_writer s2.trace
            ≡ output u.notify_writer s.trace
              ++ (file_header item ++ take size (joined_bytes chunks)))
  file_reaches_target valid qvalid empty known there same some_bytes enough short ok writes_enough =
      let got : recv_file size chunks ≡ take size (joined_bytes chunks) =
        recv_file_exact size chunks some_bytes in
      let whole : length (recv_file size chunks) ≡ size =
        ap length got ∙ omega (arith, length-take size (joined_bytes chunks)) in
      let (s2, e, _, out) =
        file_is_delivered after p u item
          (record { address = address; bytes = recv_file size chunks }) writes valid there targets
          refl refl whole short ok writes_enough in
      (
        with_queued s t v filename target item,
        s2,
        receive_file_run t s v filename target size address chunks qvalid known whole space,
        worker_serves (with_queued s t v filename target item) s2 item [] writes
            (frees item.payload) (put-IsValid item qvalid space)
            (contents-put item qvalid space ∙ ap (λ xs. xs ++ item ∷ []) empty) e,
        out
            ∙ ap (λ xs. xs ++ (file_header item ++ recv_file size chunks)) nothing_written
            ∙ ap (λ xs. output u.notify_writer s.trace ++ (file_header item ++ xs)) got,
      )
    where
      after : Server
      after = record (with_queued s t v filename target item) {
        upload_queue = (get (put s.upload_queue item)).1;
      }

      none_queued : s.upload_queue.count ≡ 0
      none_queued = sym (length-contents s.upload_queue) ∙ ap length empty

      space : s.upload_queue.count < s.upload_queue.capacity
      space = omega (arith, none_queued, qvalid.head_in)

      targets : u.username ≡ copy_into 16 target
      targets =
          same
          ∙ sym (
              take-all 15 target
                (ground (arith, valid.users_fit p u.username (ap name_of there), ap length same)))

      nothing_written : output u.notify_writer after.trace ≡ output u.notify_writer s.trace
      nothing_written =
          append-nil ((output u.notify_writer s.trace ++ []) ++ [])
          ∙ append-nil (output u.notify_writer s.trace ++ [])
          ∙ append-nil (output u.notify_writer s.trace)
