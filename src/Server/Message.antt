-- ===== src/Server/Message.antt =====
-- The texts of server/src/chatserver.c: replies to a client, and lines of the log.
pub mod Form
pub mod File
use chat_app_in_c.Common.{◌++◌}
use chat_app_in_c.CString.{Bytes, codes}
use chat_app_in_c.Server.{Connection}
use chat_app_in_c.Server.Message.Form.{thread, info, apostrophe, arrow}
pub use chat_app_in_c.Server.Message.Form.{fmt, newline, en_dash}
unfoldable pub use chat_app_in_c.Server.Message.Form.{chat_line}
pub use chat_app_in_c.Server.Message.File.{
  sendfile_usage, bad_file_size, out_of_memory, short_file, queue_full, file_queued,
  file_queued_log,
}

abbrev pub room_not_created_null : Bytes → Bytes
room_not_created_null name = fmt (
    codes "[THREAD-ERROR (TID: ERROR)] New room "
    ++ name
    ++ codes " is not created because given connection was NULL")

abbrev pub room_created : Connection → Bytes → Bytes
room_created c name = fmt (info c ++ codes "New room " ++ name ++ codes " is created")

abbrev pub no_free_room_slot : Connection → Bytes
no_free_room_slot c =
    fmt (thread (codes "WARN") c ++ codes "There is no free room slot, room is not created")

abbrev pub room_is_null : Connection → Bytes
room_is_null c = fmt (info c ++ codes "room is NULL. Threw from room_add_member")

abbrev pub not_added_full : Connection → Bytes → Bytes
not_added_full c name = fmt (
    info c
    ++ codes "user "
    ++ c.username
    ++ codes " is not added to room "
    ++ name
    ++ codes ". Room is full.")

abbrev pub added : Connection → Bytes → Bytes
added c name = fmt (info c ++ codes "user " ++ c.username ++ codes " is added to room " ++ name)

abbrev pub removed : Connection → Bytes → Bytes
removed c name =
    fmt (info c ++ codes "username " ++ c.username ++ codes " removed from room " ++ name)

abbrev pub room_deleted : Connection → Bytes → Bytes
room_deleted c name = fmt (
    info c
    ++ codes "The room "
    ++ name
    ++ codes " was deleted because there was no one left in the room")

abbrev pub connection_deleted : Connection → Bytes → Bytes
connection_deleted c user = fmt (info c ++ codes "Connection of " ++ user ++ codes " is deleted")

abbrev pub sent_command : Connection → Bytes → Bytes
sent_command c cmd =
    fmt (info c ++ codes "User '" ++ c.username ++ codes "' sent " ++ cmd ++ codes " command")

abbrev pub shutting_down : Bytes
shutting_down = codes "[INFO] Server is shutting down your connection." ++ newline

abbrev pub whisper_usage : Bytes
whisper_usage = codes "[ERROR] Usage: /whisper <user> <message>" ++ newline

abbrev pub not_online : Bytes → Bytes
not_online target = fmt (codes "[ERROR] User '" ++ target ++ codes "' not online." ++ newline)

abbrev pub whispered_offline : Connection → Bytes → Bytes
whispered_offline c target = fmt (
    info c
    ++ codes "User '"
    ++ c.username
    ++ codes "' tried to whisper to offline user '"
    ++ target
    ++ codes "'")

abbrev pub whisper_out : Bytes → Connection → Bytes → Bytes → Bytes
whisper_out cmd c target message = fmt (
    cmd
    ++ codes " "
    ++ c.username
    ++ codes " "
    ++ arrow
    ++ codes " "
    ++ target
    ++ codes ": "
    ++ message
    ++ newline)

abbrev pub whispered : Connection → Bytes → Bytes
whispered c target =
    fmt (info c ++ codes "User '" ++ c.username ++ codes "' sent whisper to " ++ target)

abbrev pub join_usage : Bytes
join_usage = codes "[ERROR] Usage: /join <room>" ++ newline

abbrev pub bad_room_name : Bytes
bad_room_name =
    codes "[ERROR] Room name must be 1" ++ en_dash ++ codes "32 alphanumeric characters." ++ newline

abbrev pub sent_bad_room_name : Connection → Bytes → Bytes
sent_bad_room_name c name =
    fmt (info c ++ codes "User '" ++ c.username ++ codes "' sent invalid room name " ++ name)

abbrev pub room_slots_full : Bytes
room_slots_full =
    codes "[WARN] Room slots are full. Room is not created. Try again later." ++ newline

abbrev pub room_slots_full_log : Connection → Bytes → Bytes
room_slots_full_log c name =
    fmt (info c ++ codes "Room " ++ name ++ codes " is not created. Room slots are full")

abbrev pub room_full : Bytes
room_full = codes "[WARN] Room is full" ++ newline

abbrev pub room_full_log : Connection → Bytes → Bytes
room_full_log c name = fmt (
    info c
    ++ codes "User '"
    ++ c.username
    ++ codes "' could not join room "
    ++ name
    ++ codes ". Room is full.")

abbrev pub joined : Bytes → Bytes → Bytes
joined user name =
    fmt (codes "[OK] User \"" ++ user ++ codes "\" joined the room: " ++ name ++ newline)

abbrev pub joined_log : Connection → Bytes → Bytes
joined_log c name =
    fmt (info c ++ codes "User '" ++ c.username ++ codes "' joined the room " ++ name ++ codes ".")

abbrev pub left_log : Connection → Bytes → Bytes
left_log c name =
    fmt (info c ++ codes "User '" ++ c.username ++ codes "' left the room " ++ name ++ codes ".")

abbrev pub left_room : Bytes → Bytes → Bytes
left_room user name =
    fmt (codes "[INFO] User \"" ++ user ++ codes "\" left the room: " ++ name ++ newline)

abbrev pub not_in_room : Bytes → Bytes
not_in_room user = fmt (codes "[INFO] User \"" ++ user ++ codes "\" is not in any room" ++ newline)

abbrev pub not_in_room_log : Connection → Bytes
not_in_room_log c = fmt (
    info c
    ++ codes "User '"
    ++ c.username
    ++ codes "' tried to leave a room but was not in any room.")

abbrev pub broadcast_usage : Bytes
broadcast_usage = codes "[ERROR] Usage: /broadcast <msg>" ++ newline

abbrev pub join_first : Bytes
join_first = codes "[ERROR] Join a room first" ++ newline

abbrev pub broadcast_no_room_log : Connection → Bytes
broadcast_no_room_log c = fmt (
    info c ++ codes "User '" ++ c.username ++ codes "' tried to broadcast but was not in any room.")

abbrev pub unknown_command : Bytes
unknown_command = codes "[ERROR] Unknown command." ++ newline

abbrev pub unknown_command_log : Connection → Bytes
unknown_command_log c =
    fmt (info c ++ codes "User '" ++ c.username ++ codes "' sent unknown command.")

abbrev pub user_closed : Connection → Bytes
user_closed c = fmt (info c ++ codes "User '" ++ c.username ++ codes "' closed the connection.")

abbrev pub recv_error : Connection → Bytes
recv_error c =
    fmt (info c ++ codes "Connection of user '" ++ c.username ++ codes "' is over (recv error).")

abbrev pub disconnected : Connection → Bytes → Bytes
disconnected c user =
    fmt (info c ++ codes "User \"" ++ user ++ codes "\" has been disconnected and removed.")

abbrev pub select_failed : Connection → Bytes → Bytes
select_failed c text = fmt (
    thread (codes "ERROR") c
    ++ codes "select() failed in thread for user "
    ++ c.username
    ++ codes ": "
    ++ text)

abbrev pub no_socketpair : Connection → Bytes
no_socketpair c = fmt (
    info c
    ++ c.username
    ++ apostrophe
    ++ codes "s socketpair could not be created. Error in client_handler thread")

abbrev pub has_socketpair : Connection → Bytes
has_socketpair c = fmt (info c ++ c.username ++ apostrophe ++ codes "s socketpair is created.")
