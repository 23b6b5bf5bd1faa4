-- ===== src/Server/Accept/Text.antt =====
-- The texts of the handshake in `main` of server/src/chatserver.c.
use chat_app_in_c.Common.{ℕ, ◌++◌}
use chat_app_in_c.CString.{Bytes, codes, decimal}
use chat_app_in_c.Server.Message.{fmt, newline, en_dash}

abbrev pub closed_in_handshake : Bytes
closed_in_handshake = codes "[SERVER-INFO] Client closed the connection during handshake."

-- `errno` and its text come from the system.
abbrev pub recv_failed : ℕ → Bytes → Bytes
recv_failed errno text = fmt (
    codes "[SERVER-ERROR] recv() failed during handshake (errno="
    ++ decimal errno
    ++ codes ": "
    ++ text
    ++ codes ")")

abbrev pub bad_username : Bytes
bad_username =
    codes "[ERROR] Username must be 1" ++ en_dash ++ codes "16 alphanumeric characters." ++ newline

abbrev pub sent_bad_username : ℕ → Bytes
sent_bad_username fd =
    fmt (
      codes "[SERVER-INFO] sock: " ++ decimal fd ++ codes " was sent invalid username for creation")

abbrev pub username_taken : Bytes
username_taken = codes "[ERROR] Username already taken. Choose another." ++ newline

abbrev pub sent_username_taken : ℕ → Bytes
sent_username_taken fd = fmt (
    codes "[SERVER-INFO] sock: "
    ++ decimal fd
    ++ codes " was sent an already taken username for creation")

abbrev pub server_full : Bytes
server_full = codes "[ERROR] Server is full. Try again later." ++ newline

abbrev pub server_full_log : Bytes
server_full_log = fmt (codes "[SERVER-INFO] A client tried to connect when server is full.")

abbrev pub no_memory : Bytes
no_memory = codes "[ERROR] Server out of memory. Try later." ++ newline

abbrev pub no_memory_log : Bytes → ℕ → Bytes
no_memory_log username fd = fmt (
    codes "[SERVER-ERROR] calloc failed while accepting user '"
    ++ username
    ++ codes "' from sock="
    ++ decimal fd)

abbrev pub username_ok : Bytes
username_ok = codes "[OK] Username accepted." ++ newline

abbrev pub username_ok_log : Bytes → Bytes
username_ok_log username = fmt (codes "[OK] Username: " ++ username ++ codes " accepted.")
