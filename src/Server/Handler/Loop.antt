-- ===== src/Server/Handler/Loop.antt =====
-- The loop of `client_handler`, from its start to its clean-up.
use chat_app_in_c.Common.{ℕ, true, Option, none, some, List, if◌then◌else◌}
use chat_app_in_c.CString.{Bytes, codes, c_string, str_eq, strtok, is_blank_crnl, copy_into}
use chat_app_in_c.Server.{
  Ptr, Event, M, pure, ◌>>=◌, ◌>>◌, read_conn, write_conn, emit, say, username_len,
}
use chat_app_in_c.Server.Message
use chat_app_in_c.Server.Connections.{remove_connection}
use chat_app_in_c.Server.Handler.{
  Thread, do_exit, do_whisper, leave_current, do_join, do_leave, do_broadcast, do_unknown,
}
use chat_app_in_c.Server.Handler.Upload.{Next, goes_on, continues, stops, waits_full, do_sendfile}

-- What the system gives during a round: the address for a new room, the address for a file, and the
-- data that later calls of `recv` give.
pub record Supply : Type 0 where
  pub calloc : Option Ptr
  pub malloc : Option ℕ
  pub chunks : List Bytes

-- The branches on the command word
unfoldable pub dispatch : Thread → Supply → Bytes → Bytes → M Next
dispatch t supply cmd args =
    if str_eq cmd (codes "/exit")
    then do_exit t >> pure stops
    else if str_eq cmd (codes "/whisper")
    then do_whisper t cmd args >> pure goes_on
    else if str_eq cmd (codes "/join")
    then do_join t supply.calloc args >> pure goes_on
    else if str_eq cmd (codes "/leave")
    then do_leave t >> pure goes_on
    else if str_eq cmd (codes "/broadcast")
    then do_broadcast t args >> pure goes_on
    else if str_eq cmd (codes "/sendfile")
    then do_sendfile t supply.malloc supply.chunks args
    else do_unknown t >> pure goes_on

-- The log names the command, or says `(null)`.
unfoldable pub run_command : Thread → Supply → Option Bytes → Bytes → M Next
run_command t supply none args = do
  c ← read_conn t.connection
  say (Message.sent_command c (codes "(null)"))
  do_unknown t
  pure goes_on
run_command t supply (some cmd) args = do
  c ← read_conn t.connection
  say (Message.sent_command c cmd)
  dispatch t supply cmd args

-- What `recv` on the client's socket gives: an error, the end, or at most 4095 bytes
pub data Received : Type 0 where
  failed ended : Received
  bytes : Bytes → Received

-- The part of a round for the client's socket
unfoldable pub client_ready : Thread → Supply → Received → M Next
client_ready t supply ended = do c ← read_conn t.connection; say (Message.user_closed c); pure stops
client_ready t supply failed = do c ← read_conn t.connection; say (Message.recv_error c); pure stops
client_ready t supply (bytes buf) =
    let (cmd, args) = strtok is_blank_crnl (c_string buf) in run_command t supply cmd args

-- The part of a round for the notify socket: what was read goes to the client as it is.
unfoldable pub notify_ready : Thread → Received → M Next
notify_ready t (bytes buf) = do emit (Event.sent t.tcp_fd buf); pure goes_on
notify_ready t _ = pure stops

unfoldable pub notify_part : Thread → Option Received → M Next
notify_part t none = pure goes_on
notify_part t (some received) = notify_ready t received

unfoldable pub after_client : Thread → Option Received → Next → M Next
after_client t notify goes_on = notify_part t notify
after_client t notify continues = pure goes_on
after_client t notify stops = pure stops
after_client t notify (waits_full item filename target) = pure (waits_full item filename target)

-- What `select` gives: an error, with its text, or what the two sockets have ready
pub data Selected : Type 0 where
  select_error : Bytes → Selected
  ready : Option Received → Option Received → Selected

-- One round of the loop
unfoldable pub round : Thread → Supply → Selected → M Next
round t supply (select_error text) = do
  c ← read_conn t.connection
  say (Message.select_failed c text)
  pure stops
round t supply (ready none notify) = notify_part t notify
round t supply (ready (some received) notify) = do
  next ← client_ready t supply received
  after_client t notify next

-- The start of the thread: its id, and its socket pair, `none` if there is none; then the thread ends
-- and its connection stays in the table.
unfoldable pub start_thread : Ptr → ℕ → Option (ℕ × ℕ) → M (Option Thread)
start_thread connection tid fds = do
  c ← read_conn connection
  write_conn connection (record c { tid = tid; initialized = true })
  c ← read_conn connection
  elim fds [
    | none ↦ do
      say (Message.no_socketpair c)
      emit (Event.shut c.sockfd)
      emit (Event.closed c.sockfd)
      pure none
    | some (reader, writer) ↦ do
      say (Message.has_socketpair c)
      write_conn connection (record c { notify_fd = reader; notify_writer = writer })
      pure (some (record { connection = connection; tcp_fd = c.sockfd }))
  ]

-- The clean-up behind the loop, once the client has left its room
unfoldable pub close_down : Thread → M (Unit {0})
close_down t = do
  c ← read_conn t.connection
  emit (Event.shut c.sockfd)
  emit (Event.shut c.notify_fd)
  emit (Event.shut c.notify_writer)
  emit (Event.closed c.sockfd)
  emit (Event.closed c.notify_fd)
  emit (Event.closed c.notify_writer)
  let removed_user = copy_into username_len c.username
  say (Message.disconnected c removed_user)
  remove_connection removed_user

-- The whole clean-up
unfoldable pub clean_up : Thread → M (Unit {0})
clean_up t = do leave_current t.connection; close_down t
