-- ===== src/Server/Worker.antt =====
-- `file_upload_worker` of server/src/chatserver.c: from the upload queue to the recipient's notify
-- socket.
pub mod Delivery
pub mod Unchanged
pub mod Transfer
use chat_app_in_c.Common.{
  ℕ, zero, suc, Bool, true, false, Option, none, some, List, [], ◌∷◌, ◌++◌, ◌==◌, if◌then◌else◌,
  length, take, drop,
}
use chat_app_in_c.CString.{Bytes, codes, decimal}
use chat_app_in_c.Queue.{Block, FileItem, FileQueue, file_queue_dequeue}
use chat_app_in_c.Server.{
  Ptr, Connection, Server, Event, M, pure, undefined, ◌>>=◌, ◌>>◌, bind_result, gets, read_conn,
  emit, say, write_formatted,
}
use chat_app_in_c.Server.Message.{fmt, newline}
use chat_app_in_c.Server.Connections.{find_connection}

-- `[FILE <filename> <size> <sender>]`, the line before the bytes of a file
unfoldable pub file_header : FileItem → Bytes
file_header item =
    codes "[FILE "
    ++ item.filename
    ++ codes " "
    ++ decimal item.size
    ++ codes " "
    ++ item.sender
    ++ codes "]"
    ++ newline

abbrev pub recipient_missing : FileItem → Bytes
recipient_missing item = fmt (
    codes "[FILE-QUEUE] Recipient '"
    ++ item.target
    ++ codes "' not found for file '"
    ++ item.filename
    ++ codes "' from '"
    ++ item.sender
    ++ codes "'. Dropping.")

abbrev pub sending_failed : FileItem → Bytes
sending_failed item = fmt (
    codes "[FILE-ERROR] Failed sending '"
    ++ item.filename
    ++ codes "' to '"
    ++ item.target
    ++ codes "'.")

abbrev pub sending_done : FileItem → Bytes
sending_done item = fmt (
    codes "[SEND FILE] '"
    ++ item.filename
    ++ codes "' sent from "
    ++ item.sender
    ++ codes " to "
    ++ item.target
    ++ codes " (success).")

-- What the worker does with an item: it ends, or it frees the item's data when it is done with it.
pub data Served : Type 0 where
  exits : Served
  frees : Option Block → Served

-- The loop that writes the file. Each entry of the list says how many of the remaining bytes one `write`
-- takes; 0, or the end of the list, is a `write` that fails. The result says whether all were written.
unfoldable pub send_bytes : ℕ → Bytes → List ℕ → M Bool
send_bytes fd [] writes = pure true
send_bytes fd (b ∷ bs) [] = pure false
send_bytes fd (b ∷ bs) (zero ∷ writes) = pure false
send_bytes fd (b ∷ bs) (suc n ∷ writes) = do
  emit (Event.written fd (take (suc n) (b ∷ bs)))
  send_bytes fd (drop (suc n) (b ∷ bs)) writes

unfoldable pub report : FileItem → Bool → M Served
report item sent = do
  say (if sent then sending_done item else sending_failed item)
  pure (frees item.payload)

-- With the recipient found. An item whose block has not `size` bytes would be read past its end.
unfoldable pub send_file : FileItem → List ℕ → Connection → Option Block → M Served
send_file item writes c none = undefined
send_file item writes c (some block) =
    if length block.bytes == item.size
    then (do
      emit (write_formatted c.notify_writer (file_header item))
      sent ← send_bytes c.notify_writer block.bytes writes
      report item sent)
    else undefined

unfoldable pub drop_file : FileItem → M Served
drop_file item = do say (recipient_missing item); pure (frees item.payload)

-- By the answer of `find_connection_locked`. The code has let go of `conn_mutex` when it goes on with
-- the recipient; here nothing comes between.
unfoldable pub send_to : FileItem → List ℕ → Option Ptr → M Served
send_to item writes none = drop_file item
send_to item writes (some p) = do c ← read_conn p; send_file item writes c item.payload

unfoldable pub serve : FileItem → List ℕ → M Served
serve item writes =
    if item.is_sentinel
    then pure exits
    else do recipient ← find_connection item.target; send_to item writes recipient

abbrev with_queue : FileQueue → M (Unit {0})
with_queue q s = some (tt, record s { upload_queue = q })

-- What follows the dequeue; `none` is a worker that waits on `not_empty`.
unfoldable pub dequeued : List ℕ → Option (FileItem × FileQueue) → M (Option Served)
dequeued writes none = pure none
dequeued writes (some (item, q)) = do with_queue q; served ← serve item writes; pure (some served)

-- One round of the worker's loop
unfoldable pub worker_round : List ℕ → M (Option Served)
worker_round writes = do
  result ← gets (λ s. file_queue_dequeue s.upload_queue)
  dequeued writes result
