-- ===== src/Server/Message/File.antt =====
-- The texts of `/sendfile` in server/src/chatserver.c.
use chat_app_in_c.Common.{ℕ, ◌++◌}
use chat_app_in_c.CString.{Bytes, codes, decimal}
use chat_app_in_c.Server.Message.Form.{fmt, newline}

abbrev pub sendfile_usage : Bytes
sendfile_usage = codes "[ERROR] Usage: /sendfile <filename> <user> <size>" ++ newline

abbrev pub bad_file_size : Bytes
bad_file_size = codes "[ERROR] File size must be between 1 byte and 3MB." ++ newline

abbrev pub out_of_memory : Bytes
out_of_memory = codes "[ERROR] Server out of memory. Try later." ++ newline

abbrev pub short_file : Bytes
short_file = codes "[ERROR] Failed to receive full file data." ++ newline

abbrev pub queue_full : Bytes → Bytes
queue_full filename = fmt (
    codes "[INFO] Upload queue is full. Your file '"
    ++ filename
    ++ codes "' will be queued."
    ++ newline)

abbrev pub file_queued : Bytes → Bytes → ℕ → Bytes
file_queued filename target size = fmt (
    codes "[OK] File '"
    ++ filename
    ++ codes "' queued for sending to "
    ++ target
    ++ codes ". Size: "
    ++ decimal size
    ++ codes " bytes."
    ++ newline)

abbrev pub file_queued_log : Bytes → Bytes → Bytes → Bytes
file_queued_log filename user target = fmt (
    codes "[FILE-QUEUE] Upload '"
    ++ filename
    ++ codes "' from "
    ++ user
    ++ codes " enqueued for "
    ++ target
    ++ codes ".")
