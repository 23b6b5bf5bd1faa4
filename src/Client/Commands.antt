-- ===== src/Client/Commands.antt =====
-- `process_command` of client/src/chatclient.c: a line that the user typed. The result is what the
-- client does, in order, or `none` where C leaves it undefined.
use chat_app_in_c.Common.{
  ℕ, ◌+◌, ◌*◌, Bool, false, ◌&&◌, ◌||◌, Option, none, some, List, [], ◌∷◌, ◌++◌, ltb, ◌==◌,
  if◌then◌else◌, length,
}
use chat_app_in_c.CString.{Bytes, codes, str_eq, strtok, strrchr, is_newline, is_blank_nl, decimal}
use chat_app_in_c.Client.{
  Event, Client, newline, fmt, tell, fresh_line, usage_text, color_red, color_magenta, join_usage,
  broadcast_usage, whisper_self, whisper_usage, sendfile_self, sendfile_usage, file_not_found,
  bad_file_size, bad_extension, cannot_open, invalid_command,
}
use chat_app_in_c.Terminal.{ti_draw_newline, color_reset}

-- What the file system answers: the size that `stat` gives, `none` if it fails, and what the calls of
-- `read` give after `open`, `none` if it fails.
pub record FileSystem : Type 0 where
  pub stat : Bytes → Option ℕ
  pub open_read : Bytes → Option (List Bytes)

-- A line of text for the server, on a fresh line of the terminal
abbrev pub request : Client → Bytes → List Event
request c text = fresh_line c ++ Event.sent (fmt text) ∷ []

abbrev pub warn : Client → Bytes → List Event
warn c text = tell c text color_magenta ∷ []

abbrev pub refuse : Client → Bytes → List Event
refuse c text = tell c text color_red ∷ []

-- `/join` with the words behind it
unfoldable pub join_words : Client → Option Bytes → Option Bytes → List Event
join_words c none extra = warn c join_usage
join_words c (some room) (some extra) = warn c join_usage
join_words c (some room) none = request c (codes "/join " ++ (room ++ newline))

unfoldable pub join_line : Client → Bytes → List Event
unfolding join_words
join_line c args =
    let (room, more) = strtok is_blank_nl args in
    let (extra, _) = strtok is_blank_nl more in join_words c room extra

-- `/leave`
unfoldable pub leave_line : Client → List Event
leave_line c = fresh_line c ++ Event.sent (codes "/leave" ++ newline) ∷ []

unfoldable pub broadcast_text : Client → Option Bytes → List Event
broadcast_text c none = warn c broadcast_usage
broadcast_text c (some msg) = request c (codes "/broadcast " ++ (msg ++ newline))

-- `/broadcast`
unfoldable pub broadcast_line : Client → Bytes → List Event
unfolding broadcast_text
broadcast_line c args = broadcast_text c (strtok is_newline args).0

unfoldable pub whisper_text : Client → Bytes → Option Bytes → List Event
whisper_text c user none = warn c whisper_usage
whisper_text c user (some msg) = request c (codes "/whisper " ++ (user ++ b' ' ∷ (msg ++ newline)))

-- The words of `/whisper`, which are printed first. Without a user name `printf` gets NULL for `%s`.
unfoldable pub whisper_words : Client → Option Bytes → Option Bytes → Option (List Event)
unfolding whisper_text
whisper_words c none msg = none
whisper_words c (some user) msg =
    let debug = Event.printed (newline ++ (user ++ (codes " - " ++ c.username))) in
    some
      (debug ∷ (if str_eq user c.username then refuse c whisper_self else whisper_text c user msg))

unfoldable pub whisper_line : Client → Bytes → Option (List Event)
unfolding whisper_words
whisper_line c args =
    let (user, more) = strtok is_blank_nl args in
    let (msg, _) = strtok is_newline more in whisper_words c user msg

abbrev pub max_file_size : ℕ
max_file_size = 3 * 1024 * 1024

unfoldable pub allowed_extension : Option Bytes → Bool
allowed_extension none = false
allowed_extension (some ext) =
    str_eq ext (codes ".txt")
    || str_eq ext (codes ".pdf")
    || str_eq ext (codes ".jpg")
    || str_eq ext (codes ".png")

-- The loop that sends the file. Each entry of the list is what one `read` gives; an empty one, or the
-- end of the list, is a `read` that gives no byte.
unfoldable pub send_chunks : ℕ → ℕ → List Bytes → List Event
send_chunks total filesize [] = []
send_chunks total filesize (chunk ∷ chunks) =
    let more = send_chunks (total + length chunk) filesize chunks in
    if ltb total filesize && ltb 0 (length chunk) then Event.sent chunk ∷ more else []

unfoldable pub send_opened : Client → ℕ → Option (List Bytes) → List Event
unfolding send_chunks
send_opened c filesize none = refuse c cannot_open
send_opened c filesize (some chunks) = send_chunks 0 filesize chunks

-- `/sendfile %s %s %zu\n`
abbrev pub sendfile_header : Bytes → Bytes → ℕ → Bytes
sendfile_header filename user filesize =
    codes "/sendfile " ++ (filename ++ b' ' ∷ (user ++ b' ' ∷ (decimal filesize ++ newline)))

unfoldable pub send_sized : FileSystem → Client → Bytes → Bytes → Option ℕ → List Event
unfolding allowed_extension send_opened
send_sized files c user filename none = refuse c file_not_found
send_sized files c user filename (some filesize) =
    if (filesize == 0) || ltb max_file_size filesize
    then refuse c bad_file_size
    else if allowed_extension (strrchr b'.' filename)
    then request c (sendfile_header filename user filesize)
      ++ send_opened c filesize (files.open_read filename)
    else refuse c bad_extension

unfoldable pub sendfile_words : FileSystem → Client → Bytes → Option Bytes → List Event
unfolding send_sized
sendfile_words files c user none = warn c sendfile_usage
sendfile_words files c user (some filename) = send_sized files c user filename (files.stat filename)

-- `/sendfile` by its first word
unfoldable pub sendfile_user : FileSystem → Client → Option Bytes → Bytes → List Event
unfolding sendfile_words
sendfile_user files c none more = warn c sendfile_usage
sendfile_user files c (some user) more =
    if str_eq user c.username
    then refuse c sendfile_self
    else sendfile_words files c user (strtok is_blank_nl more).0

unfoldable pub sendfile_line : FileSystem → Client → Bytes → List Event
unfolding sendfile_user
sendfile_line files c args =
    let (user, more) = strtok is_blank_nl args in sendfile_user files c user more

-- `/exit`
unfoldable pub exit_line : List Event
exit_line = Event.shown ti_draw_newline ∷ Event.sent (codes "/exit" ++ newline) ∷ []

-- The branches on the first word
unfoldable pub command : FileSystem → Client → Bytes → Bytes → Option (List Event)
unfolding join_line leave_line broadcast_line whisper_line sendfile_line exit_line
command files c tok args =
    if str_eq tok (codes "/usage")
    then some (tell c usage_text color_reset ∷ [])
    else if str_eq tok (codes "/join")
    then some (join_line c args)
    else if str_eq tok (codes "/leave")
    then some (leave_line c)
    else if str_eq tok (codes "/broadcast")
    then some (broadcast_line c args)
    else if str_eq tok (codes "/whisper")
    then whisper_line c args
    else if str_eq tok (codes "/sendfile")
    then some (sendfile_line files c args)
    else if str_eq tok (codes "/exit")
    then some exit_line
    else some (warn c invalid_command)

unfoldable pub first_word : FileSystem → Client → Option Bytes → Bytes → Option (List Event)
unfolding command
first_word files c none args = some []
first_word files c (some tok) args = command files c tok args

-- `process_command`
unfoldable pub process_command : FileSystem → Client → Bytes → Option (List Event)
unfolding first_word
process_command files c line =
    let (tok, args) = strtok is_blank_nl line in first_word files c tok args
