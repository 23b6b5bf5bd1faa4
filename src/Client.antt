-- ===== src/Client.antt =====
-- The client, client/src/chatclient.c: what its functions do to the outside, and the texts they show.
pub mod Commands
mod Tests
pub mod Requests
pub mod Guards
pub mod Sending
pub mod Receiver
pub mod Travel
pub mod Login
pub mod Exit
pub mod Main
use chat_app_in_c.Common.{ℕ, ◌-◌, List, [], ◌∷◌, ◌++◌, take}
use chat_app_in_c.CString.{Bytes, codes}
use chat_app_in_c.Terminal.{
  InputHandler, input_message, server_message, esc_byte, color_reset, ti_draw_message,
  ti_draw_newline, ti_draw_prompt,
}

abbrev pub buf_size : ℕ
buf_size = 8192

-- What the process does to the outside: the terminal drawn to, text of `printf`, data given to `send`
-- on the socket, `shutdown` and `close` of the socket, and the end of the process with a status
pub data Event : Type 0 where
  shown printed sent : Bytes → Event
  shut closed : Event
  exited : ℕ → Event

-- The global variables `ih` and `client_username`
pub record Client : Type 0 where
  pub handler : InputHandler
  pub username : Bytes

abbrev pub newline : Bytes
newline = 10 ∷ []

-- `snprintf(buf, BUF_SIZE, …)`
abbrev pub fmt : Bytes → Bytes
fmt text = take (buf_size - 1) text

abbrev pub color_red : Bytes
color_red = esc_byte ∷ codes "[31m"

abbrev pub color_green : Bytes
color_green = esc_byte ∷ codes "[32m"

abbrev pub color_magenta : Bytes
color_magenta = esc_byte ∷ codes "[35m"

-- `ti_draw_message(&ih, text, INPUT_MESSAGE, color)`
abbrev pub tell : Client → Bytes → Bytes → Event
tell c text color = Event.shown (ti_draw_message c.handler text input_message color)

-- `ti_draw_message(&ih, text, SERVER_MESSAGE, color)`
abbrev pub display : Client → Bytes → Bytes → Event
display c text color = Event.shown (ti_draw_message c.handler text server_message color)

-- `ti_draw_newline(); ti_draw_prompt(&ih);`
abbrev pub fresh_line : Client → List Event
fresh_line c = Event.shown ti_draw_newline ∷ Event.shown (ti_draw_prompt c.handler) ∷ []

-- `USAGE_TEXT`
abbrev pub usage_text : Bytes
usage_text =
    codes "Available commands:"
    ++ newline
    ++ codes "  /join <room_name>        Join or create a room"
    ++ newline
    ++ codes "  /leave                   Leave the current room"
    ++ newline
    ++ codes "  /broadcast <message>     Send message to everyone in the room"
    ++ newline
    ++ codes "  /whisper <user> <msg>    Send private message"
    ++ newline
    ++ codes "  /sendfile <file> <user>  Send file to user"
    ++ newline
    ++ codes "  /exit                    Disconnect from server"
    ++ newline
    ++ codes "  /usage                   Show this help message"
    ++ newline

abbrev pub join_usage : Bytes
join_usage = codes "[WARN] Usage: /join <room_name>" ++ newline

abbrev pub broadcast_usage : Bytes
broadcast_usage = codes "[WARN] Usage: /broadcast <message>" ++ newline

abbrev pub whisper_self : Bytes
whisper_self = codes "[ERROR] Cannot whisper to yourself." ++ newline

abbrev pub whisper_usage : Bytes
whisper_usage = codes "[WARN] Usage: /whisper <user> <message>" ++ newline

abbrev pub sendfile_self : Bytes
sendfile_self = codes "[ERROR] Cannot sendfile to yourself." ++ newline

abbrev pub sendfile_usage : Bytes
sendfile_usage = codes "[WARN] Usage: /sendfile <file> <user>" ++ newline

abbrev pub file_not_found : Bytes
file_not_found = codes "[ERROR] File not found." ++ newline

abbrev pub bad_file_size : Bytes
bad_file_size = codes "[ERROR] File size must be between 1 byte and 3MB." ++ newline

abbrev pub bad_extension : Bytes
bad_extension = codes "[ERROR] Only .txt, .pdf, .jpg, .png allowed." ++ newline

abbrev pub cannot_open : Bytes
cannot_open = codes "[ERROR] Cannot open file for reading." ++ newline

abbrev pub invalid_command : Bytes
invalid_command = codes "[WARN] Invalid command. Use /usage" ++ newline
