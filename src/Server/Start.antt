-- ===== src/Server/Start.antt =====
-- The start of `main` in server/src/chatserver.c, up to its accept loop, and the parts of that loop
-- before and behind the handshake.
pub mod Ready
use chat_app_in_c.Common.{ℕ, Bool, true, false, Option, none, some, ◌++◌, if◌then◌else◌}
use chat_app_in_c.CString.{Bytes, codes, decimal}
use chat_app_in_c.Queue.{FileQueue, file_queue_init}
use chat_app_in_c.Server.{
  Ptr, Connection, Event, M, pure, ◌>>=◌, ◌>>◌, read_conn, emit, say, when, room_capacity,
}
use chat_app_in_c.Server.Message.{fmt}

-- What the system answers to the calls of the start
pub record Calls : Type 0 where
  pub pid : ℕ
  pub malloc_ok : Bool
  pub calloc_ok : Bool
  pub socket : Option ℕ
  pub setsockopt_ok : Bool
  pub bind_ok : Bool
  pub listen_ok : Bool

-- How the start ends: with a status, or with the listening socket
pub data Started : Type 0 where
  exits : ℕ → Started
  listens : ℕ → Started

abbrev pub started_text : ℕ → Bytes
started_text pid = fmt (codes "[SERVER-START] Server started with pid: " ++ decimal pid)

abbrev pub no_socket_text : Bytes
no_socket_text = codes "[SERVER-ERROR] Could not create server_fd socket"

abbrev pub no_reuse_text : Bytes
no_reuse_text = codes "[WARN] SO_REUSEADDR could not be set."

abbrev pub bind_text : Bytes
bind_text = codes "[SERVER-ERROR] Bind error."

abbrev pub listen_text : Bytes
listen_text = codes "[SERVER-ERROR] listen error."

abbrev pub listening_text : Bytes → Bytes
listening_text port = fmt (codes "[SERVER-INFO] Server listening on port: " ++ port)

-- `safe_print(msg); log_write(msg);`
abbrev print_and_log : Bytes → M (Unit {0})
print_and_log msg = do emit (Event.printed msg); emit (Event.logged msg)

-- `log_write(msg); safe_print(msg); exit(1);`
abbrev gives_up : Bytes → M Started
gives_up msg = do say msg; pure (exits 1)

abbrev set_queue : FileQueue → M (Unit {0})
set_queue q s = some (tt, record s { upload_queue = q })

-- With the socket; `port` is the text of the port's number.
unfoldable pub bind_and_listen : Calls → Bytes → ℕ → M Started
bind_and_listen calls port fd = do
  when (if calls.setsockopt_ok then false else true) (say no_reuse_text)
  if calls.bind_ok
      then (if calls.listen_ok
          then (do print_and_log (listening_text port); pure (listens fd))
          else gives_up listen_text)
      else gives_up bind_text

-- With the queue, if there is one
unfoldable pub open_socket : Calls → Bytes → Option FileQueue → M Started
open_socket calls port none = pure (exits 1)
open_socket calls port (some q) = do
  set_queue q
  elim calls.socket [ none ↦ gives_up no_socket_text | some fd ↦ bind_and_listen calls port fd ]

-- From the arguments to the accept loop, besides the text of `perror`. Lines are printed without their
-- newlines. The queue has the capacity of a room.
unfoldable pub start_server : Bool → Bytes → Calls → Bytes → M Started
start_server false program calls port = do
  emit (Event.printed (codes "[ERROR] Usage: " ++ (program ++ codes " <port>")))
  pure (exits 1)
start_server true program calls port = do
  say (started_text calls.pid)
  open_socket calls port (file_queue_init calls.malloc_ok calls.calloc_ok room_capacity)

-- What `accept` gives: an error by SIGINT's closing of the socket, another interruption, an error, or a
-- client's socket
pub data Accepted : Type 0 where
  stopped interrupted failed : Accepted
  client : ℕ → Accepted

-- How the loop goes on: it ends, it calls `accept` again, or the handshake with a client begins.
pub data Accepting : Type 0 where
  leaves retries : Accepting
  handshakes : ℕ → Accepting

abbrev pub accept_failed_text : Bytes
accept_failed_text =
    codes "[WARN] accept() failed: client connection could not be established. Will retry."

abbrev pub client_connected_text : ℕ → Bytes
client_connected_text fd = fmt (codes "[SERVER-INFO] A client is connected to sock=" ++ decimal fd)

-- The part of a round of the accept loop before the handshake
unfoldable pub accept_client : Accepted → M Accepting
accept_client stopped = pure leaves
accept_client interrupted = pure retries
accept_client failed = do emit (Event.logged accept_failed_text); pure retries
accept_client (client fd) = do print_and_log (client_connected_text fd); pure (handshakes fd)

abbrev pub thread_created_text : Connection → Bytes
thread_created_text c = fmt (
    codes "[SERVER-INFO] Messaging thread (TID: "
    ++ decimal c.tid
    ++ codes ") is created for "
    ++ c.username
    ++ codes ".")

-- The part behind the handshake, once the new thread has signalled that it has its id
unfoldable pub announce_thread : Ptr → M (Unit {0})
announce_thread p = do c ← read_conn p; say (thread_created_text c)
