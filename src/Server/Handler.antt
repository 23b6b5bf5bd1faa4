-- ===== src/Server/Handler.antt =====
-- `client_handler` of server/src/chatserver.c: the thread of one client. One round of its loop takes
-- what `recv` or `read` gave; each command is a function of its own.
pub mod Upload
pub mod Loop
pub mod Commands
pub mod Talk
pub mod Keeps
pub mod Session
pub mod Starting
pub mod Ending
use chat_app_in_c.Common.{
  ℕ, zero, suc, ◌+◌, ◌-◌, Bool, true, false, ◌&&◌, ◌||◌, not, Option, none, some, List, [], ◌∷◌,
  ◌++◌, leb, ltb, ◌==◌, if◌then◌else◌, length, is_some,
}
use chat_app_in_c.CString.{
  Bytes, codes, c_string, str_eq, strtok, is_blank, is_newline, is_blank_nl, is_blank_crnl, decimal,
}
use chat_app_in_c.Server.{
  Ptr, Room, Connection, Server, Event, M, pure, undefined, bind_result, ◌>>=◌, ◌>>◌, gets, deref,
  read_conn, read_room, modify, write_conn, emit, say, when, room_capacity,
}
use chat_app_in_c.Server.Message
use chat_app_in_c.Server.Names.{is_valid_roomname}
use chat_app_in_c.Server.Rooms.{room_create, room_add_member, room_remove_member, room_broadcast}
use chat_app_in_c.Server.Connections.{find_connection, broadcast_message_via_notify}

-- The thread's local variables
pub record Thread : Type 0 where
  pub connection : Ptr
  pub tcp_fd : ℕ

-- `send(tcp_fd, text, strlen(text), 0)`
abbrev pub reply : Thread → Bytes → M (Unit {0})
reply t text = emit (Event.sent t.tcp_fd text)

-- `/exit`
unfoldable pub do_exit : Thread → M (Unit {0})
do_exit t = reply t Message.shutting_down

unfoldable pub whisper_offline : Thread → Connection → Bytes → M (Unit {0})
whisper_offline t c target = do
  reply t (Message.not_online target)
  say (Message.whispered_offline c target)

unfoldable pub whisper_online : Bytes → Connection → Bytes → Bytes → M (Unit {0})
whisper_online cmd c target message = do
  emit (Event.printed (Message.whisper_out cmd c target message))
  say (Message.whispered c target)
  broadcast_message_via_notify c.username target message

-- `/whisper` with its two arguments
unfoldable pub whisper_to : Thread → Bytes → Option Bytes → Option Bytes → M (Unit {0})
whisper_to t cmd none message = reply t Message.whisper_usage
whisper_to t cmd (some target) none = reply t Message.whisper_usage
whisper_to t cmd (some target) (some message) = do
  found ← find_connection target
  c ← read_conn t.connection
  if is_some found then whisper_online cmd c target message else whisper_offline t c target

unfoldable pub do_whisper : Thread → Bytes → Bytes → M (Unit {0})
do_whisper t cmd args =
    let (target, more) = strtok is_blank args in
    let (message, _) = strtok is_newline more in whisper_to t cmd target message

-- `room_remove_member(connection->room, connection)`, if the connection is in a room
unfoldable pub leave_current : Ptr → M (Unit {0})
leave_current connection = do
  c ← read_conn connection
  when (is_some c.room) (room_remove_member c.room connection)

unfoldable pub no_room_slot : Thread → Bytes → M (Unit {0})
no_room_slot t name = do
  reply t Message.room_slots_full
  c ← read_conn t.connection
  say (Message.room_slots_full_log c name)

unfoldable pub refuse_full_room : Thread → Bytes → M (Unit {0})
refuse_full_room t name = do
  reply t Message.room_full
  c ← read_conn t.connection
  say (Message.room_full_log c name)

-- What `/join` says behind `room_add_member`
unfoldable pub tell_joined : Thread → Bytes → Ptr → M (Unit {0})
tell_joined t name room = do
  c ← read_conn t.connection
  r ← read_room room
  reply t (Message.joined c.username r.name)
  say (Message.joined_log c name)

unfoldable pub enter_room : Thread → Bytes → Ptr → M (Unit {0})
unfolding tell_joined
enter_room t name room = do room_add_member (some room) t.connection; tell_joined t name room

-- `/join` behind `room_create`
unfoldable pub join_found : Thread → Bytes → Option Ptr → M (Unit {0})
join_found t name none = no_room_slot t name
join_found t name (some room) = do
  r ← read_room room
  if leb room_capacity r.member_count then refuse_full_room t name else enter_room t name room

-- `/join` with a valid room name; `calloc` is the address for a new room.
unfoldable pub join_room : Thread → Option Ptr → Bytes → M (Unit {0})
join_room t calloc name = do
  leave_current t.connection
  found ← room_create calloc name (some t.connection)
  join_found t name found

unfoldable pub reject_room_name : Thread → Bytes → M (Unit {0})
reject_room_name t name = do
  reply t Message.bad_room_name
  c ← read_conn t.connection
  say (Message.sent_bad_room_name c name)

unfoldable pub join_args : Thread → Option Ptr → Option Bytes → Option Bytes → M (Unit {0})
join_args t calloc none extra = reply t Message.join_usage
join_args t calloc (some name) (some extra) = reply t Message.join_usage
join_args t calloc (some name) none =
    if is_valid_roomname name then join_room t calloc name else reject_room_name t name

unfoldable pub do_join : Thread → Option Ptr → Bytes → M (Unit {0})
do_join t calloc args =
    let (name, more) = strtok is_blank_nl args in
    let (extra, _) = strtok is_blank_nl more in join_args t calloc name extra

unfoldable pub leave_room : Thread → Connection → Option Ptr → M (Unit {0})
leave_room t c none = do reply t (Message.not_in_room c.username); say (Message.not_in_room_log c)
leave_room t c (some room) = do
  r ← read_room room
  room_remove_member (some room) t.connection
  reply t (Message.left_room c.username r.name)
  say (Message.left_log c r.name)

-- `/leave`
unfoldable pub do_leave : Thread → M (Unit {0})
do_leave t = do c ← read_conn t.connection; leave_room t c c.room

unfoldable pub broadcast_no_room : Thread → Connection → M (Unit {0})
broadcast_no_room t c = do reply t Message.join_first; say (Message.broadcast_no_room_log c)

unfoldable pub broadcast_message : Thread → Option Bytes → M (Unit {0})
broadcast_message t none = reply t Message.broadcast_usage
broadcast_message t (some message) = do
  c ← read_conn t.connection
  if is_some c.room then room_broadcast c.room c.username message else broadcast_no_room t c

-- `/broadcast`
unfoldable pub do_broadcast : Thread → Bytes → M (Unit {0})
do_broadcast t args = broadcast_message t (strtok is_newline args).0

-- Any other command
unfoldable pub do_unknown : Thread → M (Unit {0})
do_unknown t = do
  reply t Message.unknown_command
  c ← read_conn t.connection
  say (Message.unknown_command_log c)
