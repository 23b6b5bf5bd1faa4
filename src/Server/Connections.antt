-- ===== src/Server/Connections.antt =====
-- The connection table of server/src/chatserver.c. `conn_mutex` makes each function one step.
pub mod Lookup
pub mod Removal
use chat_app_in_c.Common.{
  ℕ, zero, suc, ◌+◌, ◌-◌, Bool, true, false, Option, none, some, List, [], ◌∷◌, ◌++◌, ◌==◌,
  if◌then◌else◌, length, set, get_or,
}
use mathlib.Core.Option
use chat_app_in_c.CString.{Bytes, str_eq, copy_into}
use chat_app_in_c.Server.{
  Ptr, Room, Connection, Server, M, pure, undefined, ◌>>=◌, ◌>>◌, gets, deref, read_conn, modify,
  free_conn, emit, say, write_formatted,
}
use chat_app_in_c.Server.Rooms.{find_free}
use chat_app_in_c.Server.Message

-- The loop of `find_slot_locked`: the index of the first slot whose user has that name, and the
-- pointer in it; the outer `none` is a slot that points to nothing.
unfoldable pub find_user :
    (Ptr → Option Connection) → Bytes → List (Option Ptr) → Option (Option (ℕ × Ptr))
find_user heap username [] = some none
find_user heap username (none ∷ slots) =
    Option.map (Option.map (λ (i, p). (suc i, p))) (find_user heap username slots)
find_user heap username (some p ∷ slots) = elim (heap p) [
  | none ↦ none
  | some c ↦
      if str_eq c.username username
      then some (some (0, p))
      else Option.map (Option.map (λ (i, q). (suc i, q))) (find_user heap username slots)
]

-- `find_slot_locked` and `find_slot`
unfoldable pub find_slot : Bytes → M (Option (ℕ × Ptr))
find_slot username s = deref (find_user s.conn_at username s.connections) s

-- `find_connection_locked` and `find_connection`
unfoldable pub find_connection : Bytes → M (Option Ptr)
find_connection username = do slot ← find_slot username; pure (Option.map (λ (i, p). p) slot)

-- `find_free_slot`
unfoldable pub find_free_slot : M (Option ℕ)
find_free_slot = gets (λ s. find_free s.connections)

-- `broadcast_message_via_notify`
unfoldable pub broadcast_message_via_notify : Bytes → Bytes → Bytes → M (Unit {0})
broadcast_message_via_notify from to msg = do
  found ← find_connection to
  elim found [
    | none ↦ pure tt
    | some p ↦ do
      c ← read_conn p
      emit (write_formatted c.notify_writer (Message.chat_line from msg))
  ]

-- `remove_connection`: for a name that is not there, the code reads through the NULL slot pointer.
unfoldable pub remove_connection : Bytes → M (Unit {0})
remove_connection user = do
  slot ← find_slot user
  elim slot [
    | none ↦ undefined
    | some (i, p) ↦ do
      c ← read_conn p
      say (Message.connection_deleted c user)
      free_conn p
      modify (λ w. record w { connections = set w.connections i none })
  ]
