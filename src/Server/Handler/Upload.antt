-- ===== src/Server/Handler/Upload.antt =====
-- The `/sendfile` command of `client_handler`: from the client's socket into the upload queue.
pub mod Unchanged
pub mod Queued
use chat_app_in_c.Common.{
  ℕ, zero, suc, ◌+◌, ◌-◌, ◌*◌, ◌<◌, ◌≤◌, ◌≡◌, refl, Bool, true, false, ◌||◌, Option, none, some,
  List, [], ◌∷◌, ◌++◌, ltb, ◌==◌, if◌then◌else◌, length, take, min, arith,
}
use chat_app_in_c.CString.{Bytes, strtok, strtoul, is_blank_crnl, copy_into}
use chat_app_in_c.Queue.{
  Block, FileItem, FileQueue, zero_item, file_queue_is_full, file_queue_enqueue,
}
use chat_app_in_c.Server.{
  Connection, Server, Event, M, pure, bind_result, ◌>>=◌, ◌>>◌, gets, deref, read_conn, emit, say,
  when, username_len,
}
use chat_app_in_c.Server.Message
use chat_app_in_c.Server.Handler.{Thread, reply}

-- `MAX_FILENAME`
abbrev pub max_filename : ℕ
max_filename = 256

abbrev pub max_file_size : ℕ
max_file_size = 3 * 1024 * 1024

-- The loop that receives the file. Each entry of the list is what is ready for one `recv`, which takes
-- at most what is still missing; an empty one, or the end of the list, is a `recv` that gives no byte.
-- The result is what has been received when the loop ends.
unfoldable pub recv_file : ℕ → List Bytes → Bytes
recv_file missing [] = []
recv_file missing (chunk ∷ chunks) =
    let got = take missing chunk in
    let more = got ++ recv_file (missing - length got) chunks in
    if (missing == 0) || (length got == 0) then [] else more

-- How the part of a round of `client_handler` for the client's socket ends: it goes on to the notify
-- socket, goes back to `select` by `continue`, leaves the loop, or waits on `not_full` inside
-- `file_queue_enqueue`.
pub data Next : Type 0 where
  goes_on continues stops : Next
  waits_full : FileItem → Bytes → Bytes → Next

-- What the handler does once its item is in the queue
unfoldable pub acknowledge : Thread → Connection → Bytes → Bytes → ℕ → M Next
acknowledge t c filename target size = do
  reply t (Message.file_queued filename target size)
  say (Message.file_queued_log filename c.username target)
  pure goes_on

abbrev set_queue : FileQueue → M (Unit {0})
set_queue q s = some (tt, record s { upload_queue = q })

-- What follows one round of the wait in `file_queue_enqueue`, by its result
unfoldable pub enqueued : Thread → FileItem → Bytes → Bytes → Option FileQueue → M Next
enqueued t item filename target none = pure (waits_full item filename target)
enqueued t item filename target (some q) = do
  set_queue q
  c ← read_conn t.connection
  acknowledge t c filename target item.size

-- One round of that wait, and the rest; a thread that has waited comes back here.
unfoldable pub enqueue_upload : Thread → FileItem → Bytes → Bytes → M Next
enqueue_upload t item filename target = do
  result ← gets (λ s. file_queue_enqueue s.upload_queue item)
  enqueued t item filename target result

abbrev pub upload_item : Connection → Bytes → Bytes → ℕ → Block → FileItem
upload_item c filename target size block = record {
  filename = copy_into max_filename filename;
  size = size;
  payload = some block;
  sender = copy_into username_len c.username;
  target = copy_into username_len target;
  is_sentinel = false;
}

-- The file has arrived: the item is made, and the client told if the queue is full.
unfoldable pub file_received : Thread → Bytes → Bytes → ℕ → Block → M Next
file_received t filename target size block = do
  c ← read_conn t.connection
  full ← gets (λ s. file_queue_is_full s.upload_queue)
  when full (reply t (Message.queue_full filename))
  enqueue_upload t (upload_item c filename target size block) filename target

unfoldable pub receive_file : Thread → Bytes → Bytes → ℕ → Option ℕ → List Bytes → M Next
receive_file t filename target size none chunks = do reply t Message.out_of_memory; pure continues
receive_file t filename target size (some address) chunks =
    let bytes = recv_file size chunks in
    if length bytes == size
    then file_received t filename target size (record { address = address; bytes = bytes })
    else reply t Message.short_file >> pure continues

-- `/sendfile` with its three arguments; `malloc` is the address for the file, `none` for NULL.
unfoldable pub sendfile_args :
    Thread → Option ℕ → List Bytes → Option Bytes → Option Bytes → Option Bytes → M Next
sendfile_args t malloc chunks (some filename) (some target) (some size_str) =
    let size = strtoul size_str in
    if (size == 0) || ltb max_file_size size
    then reply t Message.bad_file_size >> pure continues
    else receive_file t filename target size malloc chunks
sendfile_args t malloc chunks _ _ _ = reply t Message.sendfile_usage >> pure continues

unfoldable pub do_sendfile : Thread → Option ℕ → List Bytes → Bytes → M Next
do_sendfile t malloc chunks args =
    let (filename, more) = strtok is_blank_crnl args in
    let (target, rest) = strtok is_blank_crnl more in
    let (size_str, _) = strtok is_blank_crnl rest in
    sendfile_args t malloc chunks filename target size_str
