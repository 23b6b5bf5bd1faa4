-- ===== src/Server/Frames/Upload.antt =====
-- `/sendfile` keeps every condition of Server/Frames: what it puts into the upload queue is a file
-- with its bytes.
use chat_app_in_c.Common.{
  ℕ, ◌≡◌, refl, ◌||◌, Option, none, some, List, ◌==◌, ==_iff, ltb, Bool-cases, inl, inr,
  Option-cases, length,
}
use chat_app_in_c.CString.{Bytes, strtoul}
use chat_app_in_c.Queue.{FileItem, FileQueue, Block, file_queue_is_full, file_queue_enqueue}
use chat_app_in_c.Queue.Contents.{IsFile}
use chat_app_in_c.Server.{Server}
use chat_app_in_c.Server.Frames.{Frame, Holds, Framed}
use chat_app_in_c.Server.Handler.{Thread}
use chat_app_in_c.Server.Handler.Upload.{
  acknowledge, enqueued, enqueue_upload, upload_item, file_received, receive_file, sendfile_args,
  do_sendfile, recv_file, max_file_size,
}

module _ (t : Thread) (w : Frame t.connection) where
  abbrev Kept : {A : Type 0} → Option (A × Server) → Type 0
  Kept o = Framed t.connection w o

  enqueued-Framed :
      (item : FileItem) (filename target : Bytes) (o : Option FileQueue) (s : Server)
      → IsFile item
      → file_queue_enqueue s.upload_queue item ≡ o
      → Holds t.connection w s
      → Kept (enqueued t item filename target o s)
  unfolding enqueued acknowledge
  enqueued-Framed item filename target none s file e h = h
  enqueued-Framed item filename target (some q) s file e h =
      elim (Option-cases (s.conn_at t.connection)) [
        | inl f ↦ rw f tt
        | inr (v, f) ↦ rw f (w.enqueue s.conn_at s.upload_queue q item file e h)
      ]

  pub enqueue_upload-Framed :
      (item : FileItem) (filename target : Bytes) (s : Server)
      → IsFile item
      → Holds t.connection w s
      → Kept (enqueue_upload t item filename target s)
  unfolding enqueue_upload
  enqueue_upload-Framed item filename target s file h =
      enqueued-Framed item filename target _ s file refl h

  file_received-Framed :
      (filename target : Bytes) (size : ℕ) (block : Block) (s : Server)
      → length block.bytes ≡ size
      → Holds t.connection w s
      → Kept (file_received t filename target size block s)
  unfolding file_received
  file_received-Framed filename target size block s whole h =
      elim (Option-cases (s.conn_at t.connection)) [
        | inl e ↦ rw e tt
        | inr (v, e) ↦
            let file : IsFile (upload_item v filename target size block) =
              (refl, block, refl, whole) in
            elim (Bool-cases (file_queue_is_full s.upload_queue)) [
              | inl full ↦ rw (e, full) (enqueue_upload-Framed _ filename target _ file h)
              | inr space ↦ rw (e, space) (enqueue_upload-Framed _ filename target _ file h)
            ]
      ]

  receive_file-Framed :
      (filename target : Bytes) (size : ℕ) (malloc : Option ℕ) (chunks : List Bytes) (s : Server)
      → Holds t.connection w s
      → Kept (receive_file t filename target size malloc chunks s)
  unfolding receive_file
  receive_file-Framed filename target size none chunks s h = h
  receive_file-Framed filename target size (some address) chunks s h =
      elim (Bool-cases (length (recv_file size chunks) == size)) [
        | inl whole ↦
            rw whole (file_received-Framed filename target size _ s ((==_iff _ size).0 whole) h)
        | inr short ↦ rw short h
      ]

  sendfile_args-Framed :
      (malloc : Option ℕ) (chunks : List Bytes) (o o' o'' : Option Bytes) (s : Server)
      → Holds t.connection w s
      → Kept (sendfile_args t malloc chunks o o' o'' s)
  unfolding sendfile_args
  sendfile_args-Framed malloc chunks none o' o'' s h = h
  sendfile_args-Framed malloc chunks (some f) none o'' s h = h
  sendfile_args-Framed malloc chunks (some f) (some g) none s h = h
  sendfile_args-Framed malloc chunks (some f) (some g) (some n) s h =
      elim (Bool-cases ((strtoul n == 0) || ltb max_file_size (strtoul n))) [
        | inl bad ↦ rw bad h
        | inr good ↦ rw good (receive_file-Framed f g (strtoul n) malloc chunks s h)
      ]

  pub do_sendfile-Framed :
      (malloc : Option ℕ) (chunks : List Bytes) (args : Bytes) (s : Server)
      → Holds t.connection w s
      → Kept (do_sendfile t malloc chunks args s)
  unfolding do_sendfile
  do_sendfile-Framed malloc chunks args s h = sendfile_args-Framed malloc chunks _ _ _ s h
