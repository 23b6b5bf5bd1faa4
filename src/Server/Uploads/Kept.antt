-- ===== src/Server/Uploads/Kept.antt =====
-- The handshake, a worker's round, the calls of `/join` and the clean-up keep the upload queue one that
-- holds files.
use chat_app_in_c.Common.{
  ℕ, zero, suc, ◌≡◌, refl, Bool-cases, inl, inr, Option, none, some, List, [], ◌∷◌, ◌==◌, length,
  drop, Option-cases,
}
use chat_app_in_c.CString.{Bytes, c_string, copy_into}
use chat_app_in_c.Queue.{Block, FileItem, FileQueue, file_queue_dequeue}
use chat_app_in_c.Server.{Ptr, Connection, Server, username_len}
use chat_app_in_c.Server.Connections.{
  find_slot, find_user, find_connection, find_free_slot, remove_connection,
}
use chat_app_in_c.Server.Names.{is_valid_username}
use chat_app_in_c.Server.Accept.{
  Line, failed, ended, bytes, insert_user, take_slot, refuse_taken, unless_taken, refuse_invalid,
  register_name, handshake_round, drop_newline,
}
use chat_app_in_c.Server.Worker.{
  send_bytes, report, send_file, drop_file, send_to, serve, dequeued, worker_round,
}
use chat_app_in_c.Server.Handler.{Thread, leave_current}
use chat_app_in_c.Server.Handler.Loop.{close_down}
use chat_app_in_c.Server.Frames.{Framed, call-Framed, if_Framed}
use chat_app_in_c.Server.Frames.Handler.{leave_current-Framed}
use chat_app_in_c.Server.Threads.{begin_join, begin_end}
use chat_app_in_c.Server.Uploads.{HoldsFiles, dequeue-HoldsFiles, queue}

module _ (c : Ptr) where
  abbrev pub Kept : {A : Type 0} → Option (A × Server) → Type 0
  Kept o = Framed c (queue c) o

  find_connection-Kept :
      (name : Bytes) (s : Server) → HoldsFiles s.upload_queue → Kept (find_connection name s)
  unfolding find_connection find_slot
  find_connection-Kept name s h = elim (Option-cases (find_user s.conn_at name s.connections)) [
    | inl e ↦ rw e tt
    | inr (slot, e) ↦ rw e h
  ]

  take_slot-Kept :
      (client_fd : ℕ) (username : Bytes) (calloc : Option Ptr) (idx : Option ℕ) (s : Server)
      → HoldsFiles s.upload_queue
      → Kept (take_slot client_fd username calloc idx s)
  unfolding take_slot insert_user
  take_slot-Kept client_fd username calloc none s h = h
  take_slot-Kept client_fd username none (some idx) s h = h
  take_slot-Kept client_fd username (some p) (some idx) s h = h

  unless_taken-Kept :
      (client_fd : ℕ) (username : Bytes) (calloc taken : Option Ptr) (s : Server)
      → HoldsFiles s.upload_queue
      → Kept (unless_taken client_fd username calloc taken s)
  unfolding unless_taken refuse_taken find_free_slot
  unless_taken-Kept client_fd username calloc (some p) s h = h
  unless_taken-Kept client_fd username calloc none s h =
      take_slot-Kept client_fd username calloc _ s h

  register_name-Kept :
      (client_fd : ℕ) (username : Bytes) (calloc : Option Ptr) (s : Server)
      → HoldsFiles s.upload_queue
      → Kept (register_name client_fd username calloc s)
  unfolding register_name
  register_name-Kept client_fd username calloc s h =
      call-Framed c (queue c) (find_connection username s) _ (find_connection-Kept username s h)
        (λ taken s' h'. unless_taken-Kept client_fd username calloc taken s' h')

  pub handshake_round-Kept :
      (client_fd : ℕ) (calloc : Option Ptr) (line : Line) (s : Server)
      → HoldsFiles s.upload_queue
      → Kept (handshake_round client_fd calloc line s)
  unfolding handshake_round refuse_invalid
  handshake_round-Kept client_fd calloc ended s h = h
  handshake_round-Kept client_fd calloc (failed errno text) s h = h
  handshake_round-Kept client_fd calloc (bytes buf) s h =
      if_Framed c (queue c) (is_valid_username (c_string (drop_newline buf)))
        (register_name client_fd (c_string (drop_newline buf)) calloc) (refuse_invalid client_fd) s
        (register_name-Kept client_fd _ calloc s h) h

  send_bytes-Kept :
      (fd : ℕ) (bytes : Bytes) (writes : List ℕ) (s : Server)
      → HoldsFiles s.upload_queue
      → Kept (send_bytes fd bytes writes s)
  unfolding send_bytes
  send_bytes-Kept fd [] writes s h = h
  send_bytes-Kept fd (b ∷ bs) [] s h = h
  send_bytes-Kept fd (b ∷ bs) (zero ∷ writes) s h = h
  send_bytes-Kept fd (b ∷ bs) (suc n ∷ writes) s h = send_bytes-Kept fd (drop n bs) writes _ h

  send_file-Kept :
      (item : FileItem) (writes : List ℕ) (v : Connection) (payload : Option Block) (s : Server)
      → HoldsFiles s.upload_queue
      → Kept (send_file item writes v payload s)
  unfolding send_file report
  send_file-Kept item writes v none s h = tt
  send_file-Kept item writes v (some block) s h =
      elim (Bool-cases (length block.bytes == item.size)) [
        | inl whole ↦ rw whole (
            call-Framed c (queue c) (send_bytes v.notify_writer block.bytes writes _) _
              (send_bytes-Kept v.notify_writer block.bytes writes _ h) (λ sent s' h'. h'))
        | inr short ↦ rw short tt
      ]

  send_to-Kept :
      (item : FileItem) (writes : List ℕ) (o : Option Ptr) (s : Server)
      → HoldsFiles s.upload_queue
      → Kept (send_to item writes o s)
  unfolding send_to drop_file
  send_to-Kept item writes none s h = h
  send_to-Kept item writes (some p) s h = elim (Option-cases (s.conn_at p)) [
    | inl e ↦ rw e tt
    | inr (v, e) ↦ rw e (send_file-Kept item writes v item.payload s h)
  ]

  serve-Kept :
      (item : FileItem) (writes : List ℕ) (s : Server)
      → HoldsFiles s.upload_queue
      → Kept (serve item writes s)
  unfolding serve
  serve-Kept item writes s h = if_Framed c (queue c) item.is_sentinel _ _ s h (
      call-Framed c (queue c) (find_connection item.target s) _
        (find_connection-Kept item.target s h) (λ o s' h'. send_to-Kept item writes o s' h'))

  dequeued-Kept :
      (writes : List ℕ) (o : Option (FileItem × FileQueue)) (s : Server)
      → file_queue_dequeue s.upload_queue ≡ o
      → HoldsFiles s.upload_queue
      → Kept (dequeued writes o s)
  unfolding dequeued
  dequeued-Kept writes none s e h = h
  dequeued-Kept writes (some (item, q)) s e h =
      call-Framed c (queue c) (serve item writes (record s { upload_queue = q })) _
        (serve-Kept item writes _ (dequeue-HoldsFiles s.upload_queue q item e h))
        (λ served s' h'. h')

  pub worker_round-Kept :
      (writes : List ℕ) (s : Server) → HoldsFiles s.upload_queue → Kept (worker_round writes s)
  unfolding worker_round
  worker_round-Kept writes s h = dequeued-Kept writes _ s refl h

  remove_connection-Kept :
      (user : Bytes) (s : Server) → HoldsFiles s.upload_queue → Kept (remove_connection user s)
  unfolding remove_connection find_slot
  remove_connection-Kept user s h = elim (Option-cases (find_user s.conn_at user s.connections)) [
    | inl e ↦ rw e tt
    | inr (none, e) ↦ rw e tt
    | inr (some (i, p), e) ↦ elim (Option-cases (s.conn_at p)) [
      | inl f ↦ rw (e, f) tt
      | inr (v, f) ↦ rw (e, f) h
    ]
  ]

module _ (t : Thread) where
  pub begin_join-Kept :
      (name : Bytes) (s : Server)
      → HoldsFiles s.upload_queue
      → Kept t.connection (begin_join t name s)
  unfolding begin_join
  begin_join-Kept name s h =
      call-Framed t.connection (queue t.connection) (leave_current t.connection s) _
        (leave_current-Framed t (queue t.connection) s h) (λ _ s' h'. h')

  pub begin_end-Kept : (s : Server) → HoldsFiles s.upload_queue → Kept t.connection (begin_end t s)
  unfolding begin_end
  begin_end-Kept s h =
      call-Framed t.connection (queue t.connection) (leave_current t.connection s) _
        (leave_current-Framed t (queue t.connection) s h) (λ _ s' h'. h')

  pub close_down-Kept :
      (s : Server) → HoldsFiles s.upload_queue → Kept t.connection (close_down t s)
  unfolding close_down
  close_down-Kept s h = elim (Option-cases (s.conn_at t.connection)) [
    | inl e ↦ rw e tt
    | inr (v, e) ↦
        rw e (remove_connection-Kept t.connection (copy_into username_len v.username) _ h)
  ]
