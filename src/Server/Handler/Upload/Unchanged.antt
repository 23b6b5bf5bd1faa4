-- ===== src/Server/Handler/Upload/Unchanged.antt =====
-- `/sendfile` changes the upload queue and no table.
use chat_app_in_c.Common.{
  ℕ, ◌≡◌, refl, ◌||◌, Option, none, some, List, ◌==◌, ltb, Bool-cases, inl, inr, length,
}
use chat_app_in_c.CString.{Bytes, strtoul}
use chat_app_in_c.Queue.{FileItem, FileQueue, Block, file_queue_is_full}
use chat_app_in_c.Server.{Connection, Server}
use chat_app_in_c.Server.Invariant.{Returns}
use chat_app_in_c.Server.Handler.{Thread}
use chat_app_in_c.Server.Handler.Upload.{
  Next, acknowledge, enqueued, enqueue_upload, file_received, receive_file, sendfile_args,
  do_sendfile, recv_file, max_file_size,
}

-- `/sendfile` changes no table: it answers the client, and its item goes to the upload queue.
module _ (t : Thread) (s : Server) (v : Connection) (known : s.conn_at t.connection ≡ some v) where
  abbrev Same : Option (Next × Server) → Type 0
  Same o = Returns o (λ _ w. w ≡ s.world)

  enqueued-Same :
      (item : FileItem) (filename target : Bytes) (o : Option FileQueue)
      → Same (enqueued t item filename target o s)
  unfolding enqueued acknowledge
  enqueued-Same item filename target none = refl
  enqueued-Same item filename target (some q) = rw known refl

module _ (t : Thread) (v : Connection) where
  pub enqueue_upload_same :
      (s : Server) (item : FileItem) (filename target : Bytes)
      → s.conn_at t.connection ≡ some v
      → Returns (enqueue_upload t item filename target s) (λ _ w. w ≡ s.world)
  unfolding enqueue_upload
  enqueue_upload_same s item filename target known =
      enqueued-Same t s v known item filename target _

  file_received_same :
      (s : Server) (filename target : Bytes) (size : ℕ) (block : Block)
      → s.conn_at t.connection ≡ some v
      → Returns (file_received t filename target size block s) (λ _ w. w ≡ s.world)
  unfolding file_received
  file_received_same s filename target size block known =
      elim (Bool-cases (file_queue_is_full s.upload_queue)) [
        | inl full ↦ rw (known, full) (enqueue_upload_same _ _ filename target known)
        | inr space ↦ rw (known, space) (enqueue_upload_same _ _ filename target known)
      ]

  receive_file_same :
      (s : Server) (filename target : Bytes) (size : ℕ) (malloc : Option ℕ) (chunks : List Bytes)
      → s.conn_at t.connection ≡ some v
      → Returns (receive_file t filename target size malloc chunks s) (λ _ w. w ≡ s.world)
  unfolding receive_file
  receive_file_same s filename target size none chunks known = refl
  receive_file_same s filename target size (some address) chunks known =
      elim (Bool-cases (length (recv_file size chunks) == size)) [
        | inl whole ↦ rw whole (file_received_same s filename target size _ known)
        | inr short ↦ rw short refl
      ]

  sendfile_args_same :
      (s : Server) (malloc : Option ℕ) (chunks : List Bytes) (o o' o'' : Option Bytes)
      → s.conn_at t.connection ≡ some v
      → Returns (sendfile_args t malloc chunks o o' o'' s) (λ _ w. w ≡ s.world)
  unfolding sendfile_args
  sendfile_args_same s malloc chunks none o' o'' known = refl
  sendfile_args_same s malloc chunks (some f) none o'' known = refl
  sendfile_args_same s malloc chunks (some f) (some g) none known = refl
  sendfile_args_same s malloc chunks (some f) (some g) (some n) known =
      elim (Bool-cases ((strtoul n == 0) || ltb max_file_size (strtoul n))) [
        | inl bad ↦ rw bad refl
        | inr good ↦ rw good (receive_file_same s f g (strtoul n) malloc chunks known)
      ]

  pub do_sendfile_same :
      (s : Server) (malloc : Option ℕ) (chunks : List Bytes) (args : Bytes)
      → s.conn_at t.connection ≡ some v
      → Returns (do_sendfile t malloc chunks args s) (λ _ w. w ≡ s.world)
  unfolding do_sendfile
  do_sendfile_same s malloc chunks args known = sendfile_args_same s malloc chunks _ _ _ known
