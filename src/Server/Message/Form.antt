-- ===== src/Server/Message/Form.antt =====
-- What the texts of server/src/chatserver.c are made of. A text that is formatted into a buffer of
-- `BUF_SIZE` bytes is cut to fit. Bytes above 127 are the UTF-8 of the source's typographic signs.
use chat_app_in_c.Common.{◌-◌, [], ◌∷◌, ◌++◌, take}
use chat_app_in_c.CString.{Bytes, codes, decimal}
use chat_app_in_c.Server.{buf_size, Connection}

-- `snprintf(buf, BUF_SIZE, …)`
abbrev pub fmt : Bytes → Bytes
fmt text = take (buf_size - 1) text

abbrev pub newline : Bytes
newline = 10 ∷ []

abbrev pub en_dash : Bytes
en_dash = 0xE2 ∷ 0x80 ∷ 0x93 ∷ []

abbrev pub apostrophe : Bytes
apostrophe = 0xE2 ∷ 0x80 ∷ 0x99 ∷ []

abbrev pub arrow : Bytes
arrow = 0xE2 ∷ 0x86 ∷ 0x92 ∷ []

abbrev pub thread : Bytes → Connection → Bytes
thread level c = codes "[THREAD-" ++ level ++ codes " (TID: " ++ decimal c.tid ++ codes ")] "

abbrev pub info : Connection → Bytes
info = thread (codes "INFO")

-- `[%s] %s\n`, the form of a broadcast and of a whisper
unfoldable pub chat_line : Bytes → Bytes → Bytes
chat_line from msg = b'[' ∷ from ++ (codes "] " ++ (msg ++ newline))
