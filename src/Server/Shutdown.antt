-- ===== src/Server/Shutdown.antt =====
-- The end of `main` in server/src/chatserver.c, and its handler of SIGINT.
pub mod Drain
pub mod Goodbye
pub mod Interrupted
use chat_app_in_c.Common.{
  ℕ, zero, suc, Bool, true, false, Option, none, some, List, [], ◌∷◌, ◌++◌, get_or, is_some,
}
use chat_app_in_c.CString.{Bytes, codes}
use chat_app_in_c.Queue.{FileItem, FileQueue, zero_item, file_queue_enqueue}
use chat_app_in_c.Server.{
  Ptr, Connection, Server, Event, M, pure, ◌>>=◌, ◌>>◌, bind_result, gets, deref, read_conn, when,
  max_conn, emit, say,
}

-- The global variables of the accept loop; `none` is a `server_fd` of -1.
pub record Listening : Type 0 where
  pub stop : Bool
  pub server_fd : Option ℕ

-- `handle_sigint`: what it closes, and the variables
unfoldable pub handle_sigint : Listening → List Event × Listening
handle_sigint v = elim v.server_fd [
  | none ↦ ([], record v { stop = true })
  | some fd ↦ (Event.closed fd ∷ [], record v { stop = true })
]

-- `NUM_UPLOAD_WORKERS`
abbrev pub num_upload_workers : ℕ
num_upload_workers = 5

-- An item of zero bytes but for its flag
abbrev pub sentinel : FileItem
sentinel = record zero_item { is_sentinel = true }

abbrev pub unless_waits : Option FileQueue → (FileQueue → Option FileQueue) → Option FileQueue
unless_waits none next = none
unless_waits (some q) next = next q

-- The loop that enqueues the sentinels; `none` is a wait on `not_full`.
unfoldable pub enqueue_sentinels : ℕ → FileQueue → Option FileQueue
enqueue_sentinels zero q = some q
enqueue_sentinels (suc n) q = unless_waits (file_queue_enqueue q sentinel) (enqueue_sentinels n)

abbrev pub goodbye : Bytes
goodbye = codes "[SERVER] shutting down. Goodbye." ++ 10 ∷ []

-- `connections[i]->`: the slot is read, and the connection that it points to.
unfoldable pub connection_at : ℕ → M Connection
connection_at i = do slot ← gets (λ s. get_or s.connections i none); p ← deref slot; read_conn p

-- Up to the call of `shutdown` that wakes the connection's thread
unfoldable pub begin_goodbye : ℕ → M (Unit {0})
begin_goodbye i = do
  c ← connection_at i
  emit (Event.sent c.sockfd goodbye)
  c ← connection_at i
  emit (Event.shut c.sockfd)

-- What follows; the slot is read again for each call.
unfoldable pub end_goodbye : ℕ → M (Unit {0})
end_goodbye i = do
  c ← connection_at i
  emit (Event.closed c.sockfd)
  c ← connection_at i
  emit (Event.shut c.notify_fd)
  c ← connection_at i
  emit (Event.closed c.notify_fd)
  c ← connection_at i
  emit (Event.shut c.notify_writer)
  c ← connection_at i
  emit (Event.closed c.notify_writer)

unfoldable pub say_goodbye : ℕ → M (Unit {0})
say_goodbye i = do begin_goodbye i; end_goodbye i

-- The loop over the slots, with the number of rounds left and the index
unfoldable pub goodbyes : ℕ → ℕ → M (Unit {0})
goodbyes zero i = pure tt
goodbyes (suc n) i = do
  slot ← gets (λ s. get_or s.connections i none)
  when (is_some slot) (say_goodbye i)
  goodbyes n (suc i)

abbrev with_queue : FileQueue → M (Unit {0})
with_queue q s = some (tt, record s { upload_queue = q })

-- What follows the sentinels; the result says whether `main` has got past them.
unfoldable pub after_sentinels : Option FileQueue → M Bool
after_sentinels none = pure false
after_sentinels (some q) = do with_queue q; goodbyes max_conn 0; pure true

-- From the end of the accept loop to the joins, with no other thread in between. The code holds no mutex
-- here but inside its calls of the queue.
unfoldable pub shut_down : M Bool
shut_down = do
  result ← gets (λ s. enqueue_sentinels num_upload_workers s.upload_queue)
  after_sentinels result

abbrev pub shutdown_text : Bytes
shutdown_text = codes "[SHUTDOWN] SIGINT received. Server exiting gracefully."

-- Behind the joins, before the log is closed
unfoldable pub last_words : M (Unit {0})
last_words = say shutdown_text
