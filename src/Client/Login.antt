-- ===== src/Client/Login.antt =====
-- The start of `main` in client/src/chatclient.c: the connection to the server, and the rounds in which
-- the user chooses a name.
pub mod Agreement
use chat_app_in_c.Common.{ℕ, Bool, Option, none, some, List, [], ◌∷◌, ◌++◌, ◌==◌, if◌then◌else◌}
use chat_app_in_c.CString.{Bytes, codes, c_string, starts_with}
use chat_app_in_c.Client.{Event, newline}

-- How far `main` gets with its arguments, its socket, the address and the connection; a text is what
-- `perror` says.
pub data Attempt : Type 0 where
  wrong_arguments connected : Attempt
  no_socket bad_address not_connected : Bytes → Attempt

-- What is done, and the status with which `main` returns, if it does
unfoldable pub connect_to_server : Bytes → Attempt → List Event × Option ℕ
connect_to_server program wrong_arguments = (
  Event.printed (codes "[ERROR] Usage: " ++ (program ++ (codes " <server-ip> <port>" ++ newline)))
      ∷ [],
  some 1,
)
connect_to_server program (no_socket text) =
    (Event.printed (codes "socket: " ++ (text ++ newline)) ∷ [], some 1)
connect_to_server program (bad_address text) =
    (Event.printed (codes "inet_pton: " ++ (text ++ newline)) ∷ Event.closed ∷ [], some 1)
connect_to_server program (not_connected text) =
    (Event.printed (codes "connect: " ++ (text ++ newline)) ∷ Event.closed ∷ [], some 1)
connect_to_server program connected = ([], none)

-- How a round ends: another one, the name that the server has accepted, or the end with a status
pub data Outcome : Type 0 where
  again : Outcome
  accepted : Bytes → Outcome
  ended : ℕ → Outcome

-- A zero takes the place of a newline that is the last byte.
unfoldable pub strip_newline : Bytes → Bytes
strip_newline [] = []
strip_newline (c ∷ []) = if c == 10 then [] else c ∷ []
strip_newline (c ∷ d ∷ s) = c ∷ strip_newline (d ∷ s)

abbrev pub ask : Event
ask = Event.printed (codes "Enter username: ")

-- By what `recv` gives, `none` for an error or the end; the name is the one that was sent.
unfoldable pub answered : Bytes → Option Bytes → List Event × Outcome
answered name none =
    (Event.printed (codes "[ERROR] Handshake failed." ++ newline) ∷ Event.closed ∷ [], ended 1)
answered name (some buf) = (
  Event.printed (c_string buf) ∷ [],
  if starts_with (c_string buf) (codes "[OK]") then accepted name else again,
)

-- One round, by what `fgets` stores, at most 15 bytes, and what `recv` gives
unfoldable pub login_round : Option Bytes → Option Bytes → List Event × Outcome
unfolding answered
login_round none reply = (ask ∷ Event.closed ∷ [], ended 0)
login_round (some line) reply =
    let text = c_string line in
    let (events, outcome) = answered (strip_newline text) reply in
    (ask ∷ Event.sent text ∷ events, outcome)
