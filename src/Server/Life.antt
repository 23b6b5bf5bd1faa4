-- ===== src/Server/Life.antt =====
-- The life of the server in server/src/chatserver.c: the start of `main`, the turns of all threads behind
-- it, and the shutdown.
use chat_app_in_c.Common.{ℕ, ◌+◌, ◌≤◌, ◌≡◌, sym, true, some, List, [], length, arith}
use mathlib.Core.Path.{subst}
use chat_app_in_c.CString.{Bytes}
use chat_app_in_c.Queue.{FileQueue}
use chat_app_in_c.Queue.Contents.{AllFiles, contents}
use chat_app_in_c.Server.{Ptr, Connection, Server, room_capacity}
use chat_app_in_c.Server.Invariant.{IsValid}
use chat_app_in_c.Server.Start.{Calls, listens, start_server}
use chat_app_in_c.Server.Start.Ready.{IsReady, listens-IsReady}
use chat_app_in_c.Server.Steps.{started, started-IsValid}
use chat_app_in_c.Server.Threads.{between, Places, Turns}
use chat_app_in_c.Server.Threads.Held.{AllHeld}
use chat_app_in_c.Server.Threads.Reached.{Turns-AllHeld}
use chat_app_in_c.Server.Uploads.{HoldsFiles}
use chat_app_in_c.Server.Uploads.Always.{Turns-HoldsFiles}
use chat_app_in_c.Server.Shutdown.{shut_down, num_upload_workers}
use chat_app_in_c.Server.Shutdown.Drain.{rounds, results}
use chat_app_in_c.Server.Shutdown.Goodbye.{Told, shut_down_ends}

module _ (program port : Bytes) (calls : Calls) (q : FileQueue) (fd : ℕ) (s0 s : Server)
    (f : Places)
    (listening : start_server true program calls port (started q) ≡ some (listens fd, s0))
    (served : Turns s0 (λ _. between) s f) where
  ready : IsReady (started q) s0
  ready = listens-IsReady program port calls (started q) fd s0 listening

  -- A server that has been started and listens on a socket, and whose threads have then taken any turns
  -- in any order between the calls of `/join` and of the clean-up: its tables are valid; a thread inside
  -- `/join` or its clean-up finds its own connection there, in no room or in the one that it has just
  -- entered; and its upload queue is valid, of the capacity of a room, 15, and holds nothing but files with
  -- their bytes. Each turn is one that C defines; `calloc` gives memory that is not in use.
  pub running_server-AllHeld : AllHeld s f × HoldsFiles s.upload_queue
  running_server-AllHeld = (
    Turns-AllHeld served (record {
      valid = subst IsValid (sym ready.world_kept) (started-IsValid q);
      held = λ c. tt;
    }),
    Turns-HoldsFiles served (record {
      valid = ready.queue_valid;
      capacity = ready.capacity;
      all_files = subst AllFiles (sym ready.queue_empty) tt;
    }),
  )

  -- The whole life of the server. It has been started and listens on a socket, and its threads have then
  -- taken any turns in any order. If there is space for the five sentinels in its upload queue when it is
  -- shut down, and no other thread takes a turn from then on until `main` has come to its joins, which
  -- the code does not ensure, then `main` gets past the sentinels without waiting, every connected client is told goodbye and its
  -- sockets are closed, and as many rounds of the workers as there are queued files and sentinels then serve
  -- the files, in order, end all five workers and leave the queue empty.
  pub whole_life :
      (more : List (List ℕ))
      → s.upload_queue.count + num_upload_workers ≤ room_capacity
      → length more ≡ length (contents s.upload_queue) + num_upload_workers
      → (s1 s2 : Server) × (shut_down s ≡ some (true, s1))
        × ((p : Ptr) (c : Connection) → s.conn_at p ≡ some c → Told c s1.trace)
        × (rounds more s1 ≡ some (results (contents s.upload_queue) num_upload_workers, s2))
        × (contents s2.upload_queue ≡ [])
  whole_life more space enough =
      let (all, holds) = running_server-AllHeld in
      shut_down_ends s more all.valid holds.valid holds.all_files
        (omega (arith, space, holds.capacity)) enough
