-- ===== src/Server/Accept.antt =====
-- The handshake of `main` in server/src/chatserver.c, in which a client gets its user name and its slot.
pub mod Text
pub mod Register
use chat_app_in_c.Common.{
  ℕ, Bool, true, false, Option, none, some, List, [], ◌∷◌, ◌==◌, if◌then◌else◌, is_some, set,
}
use chat_app_in_c.CString.{Bytes, c_string, copy_into}
use chat_app_in_c.Server.{
  Ptr, Connection, Server, Event, M, username_len, pure, ◌>>=◌, ◌>>◌, bind_result, modify,
  write_conn, emit, say,
}
use chat_app_in_c.Server.Names.{is_valid_username}
use chat_app_in_c.Server.Connections.{find_connection, find_free_slot}
use chat_app_in_c.Server.Accept.Text

-- What one `recv` of the handshake gives: an error, with its number and text, the end, or 1 to 15 bytes
pub data Line : Type 0 where
  failed : ℕ → Bytes → Line
  ended : Line
  bytes : Bytes → Line

-- How a round of the handshake ends: another round, no client, or the new connection and its slot
pub data Outcome : Type 0 where
  again given_up : Outcome
  accepted : ℕ → Ptr → Outcome

-- A zero takes the place of a newline that is the last byte.
unfoldable pub drop_newline : Bytes → Bytes
drop_newline [] = []
drop_newline (c ∷ []) = if c == 10 then [] else c ∷ []
drop_newline (c ∷ d ∷ s) = c ∷ drop_newline (d ∷ s)

-- A `connection_t` of zero bytes with its name and its socket
abbrev pub new_connection : ℕ → Bytes → Connection
new_connection client_fd username = record {
  username = copy_into username_len username;
  sockfd = client_fd;
  notify_fd = 0;
  notify_writer = 0;
  tid = 0;
  initialized = false;
  room = none;
}

-- With a free slot; `calloc` is the address of the new connection, `none` for NULL.
unfoldable pub insert_user : ℕ → Bytes → ℕ → Option Ptr → M Outcome
insert_user client_fd username idx none = do
  emit (Event.sent client_fd Text.no_memory)
  say (Text.no_memory_log username client_fd)
  emit (Event.closed client_fd)
  pure again
insert_user client_fd username idx (some p) = do
  write_conn p (new_connection client_fd username)
  modify (λ w. record w { connections = set w.connections idx (some p) })
  emit (Event.sent client_fd Text.username_ok)
  say (Text.username_ok_log username)
  pure (accepted idx p)

-- With a name that nobody has
unfoldable pub take_slot : ℕ → Bytes → Option Ptr → Option ℕ → M Outcome
take_slot client_fd username calloc none = do
  emit (Event.sent client_fd Text.server_full)
  say Text.server_full_log
  pure again
take_slot client_fd username calloc (some idx) = insert_user client_fd username idx calloc

unfoldable pub refuse_taken : ℕ → M Outcome
refuse_taken client_fd = do
  emit (Event.sent client_fd Text.username_taken)
  say (Text.sent_username_taken client_fd)
  pure again

-- With a valid name, by the answer of `find_connection`
unfoldable pub unless_taken : ℕ → Bytes → Option Ptr → Option Ptr → M Outcome
unless_taken client_fd username calloc (some taken) = refuse_taken client_fd
unless_taken client_fd username calloc none = do
  idx ← find_free_slot
  take_slot client_fd username calloc idx

unfoldable pub refuse_invalid : ℕ → M Outcome
refuse_invalid client_fd = do
  emit (Event.sent client_fd Text.bad_username)
  say (Text.sent_bad_username client_fd)
  pure again

unfoldable pub register_name : ℕ → Bytes → Option Ptr → M Outcome
register_name client_fd username calloc = do
  taken ← find_connection username
  unless_taken client_fd username calloc taken

-- One round of the handshake
unfoldable pub handshake_round : ℕ → Option Ptr → Line → M Outcome
handshake_round client_fd calloc ended = do
  say Text.closed_in_handshake
  emit (Event.closed client_fd)
  pure given_up
handshake_round client_fd calloc (failed errno text) = do
  say (Text.recv_failed errno text)
  emit (Event.closed client_fd)
  pure given_up
handshake_round client_fd calloc (bytes buf) =
    let username = c_string (drop_newline buf) in
    if is_valid_username username
    then register_name client_fd username calloc
    else refuse_invalid client_fd
