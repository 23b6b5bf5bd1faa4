-- ===== src/Server/Threads.antt =====
-- The clients' threads of server/src/chatserver.c at a finer grain: `/join` and the clean-up of
-- `client_handler` are cut where they hold no mutex, so that other threads come between. A room that
-- `room_create` has found is then held by a pointer that nothing protects.
pub mod Held
pub mod Calls
pub mod Reached
pub mod Stale
pub mod Emptied
pub mod Safe
use chat_app_in_c.Common.{ℕ, ◌<◌, ◌≡◌, ◌≢◌, Option, none, some, leb, if◌then◌else◌, length, List}
use chat_app_in_c.CString.{Bytes}
use chat_app_in_c.Queue.{FileItem}
use chat_app_in_c.Queue.Contents.{IsFile}
use chat_app_in_c.Server.{
  Ptr, Connection, Server, M, pure, ◌>>=◌, ◌>>◌, read_room, room_capacity, room_name_len, update,
}
use chat_app_in_c.Server.Rooms.{room_find, create_unless, room_add_member}
use chat_app_in_c.Server.Handler.{
  Thread, leave_current, no_room_slot, refuse_full_room, tell_joined,
}
use chat_app_in_c.Server.Handler.Upload.{Next, enqueue_upload}
use chat_app_in_c.Server.Handler.Loop.{Supply, Selected, round, start_thread, close_down}
use chat_app_in_c.Server.Handler.Keeps.{Fresh}
use chat_app_in_c.Server.Accept.{Line, Outcome, handshake_round}
use chat_app_in_c.Server.Worker.{Served, worker_round}

-- Where a client's thread stands: between two rounds; in `/join`, behind the call that takes it out of
-- its room, behind the search in `room_create` with what that found, behind `room_create` with what that
-- gave, behind the test of the room's capacity, or behind `room_add_member`; or in the clean-up, out of
-- its room
pub data Place : Type 0 where
  between closing : Place
  outside : Bytes → Place
  searched found : Bytes → Option Ptr → Place
  tested entered : Bytes → Ptr → Place

-- The first call of `/join` with a valid name
unfoldable pub begin_join : Thread → Bytes → M Place
begin_join t name = do leave_current t.connection; pure (outside name)

-- The first call of the clean-up
unfoldable pub begin_end : Thread → M Place
begin_end t = do leave_current t.connection; pure closing

-- `/join` with the room that was found; the capacity is read without the room's mutex.
unfoldable pub test_capacity : Thread → Bytes → Option Ptr → M Place
test_capacity t name none = do no_room_slot t name; pure between
test_capacity t name (some room) = do
  r ← read_room room
  if leb room_capacity r.member_count
      then (do refuse_full_room t name; pure between)
      else pure (tested name room)

-- The thread's next call; `calloc` is the address that it would give.
unfoldable pub advance : Thread → Option Ptr → Place → M Place
unfolding test_capacity
advance t calloc between = pure between
advance t calloc closing = do close_down t; pure between
advance t calloc (outside name) = do room ← room_find name; pure (searched name room)
advance t calloc (searched name room) = do
  room ← create_unless calloc name t.connection room
  pure (found name room)
advance t calloc (found name room) = test_capacity t name room
advance t calloc (tested name room) = do
  room_add_member (some room) t.connection
  pure (entered name room)
advance t calloc (entered name room) = do tell_joined t name room; pure between

-- The places of all threads, each under the address of its connection
abbrev pub Places : Type 0
Places = Ptr → Place

-- A turn of one thread: of the accept loop, of a worker, or of a client, which starts, takes a whole
-- round, tries again to queue the file with which it waits, or goes on to its next call. Each turn is
-- defined in C: it returns.
pub data Turn : Server → Places → Server → Places → Type 0 where
  handshake_turn :
      {s s' : Server} {f : Places} (client_fd : ℕ) (calloc : Option Ptr) (line : Line)
      (outcome : Outcome)
      → ((p : Ptr) → calloc ≡ some p → s.conn_at p ≡ none)
      → handshake_round client_fd calloc line s ≡ some (outcome, s')
      → Turn s f s' f
  start_turn :
      {s s' : Server} {f : Places} (connection : Ptr) (v : Connection) (tid : ℕ)
      (fds : Option (ℕ × ℕ)) (t : Option Thread)
      → s.conn_at connection ≡ some v
      → f connection ≡ between
      → start_thread connection tid fds s ≡ some (t, s')
      → Turn s f s' f
  round_turn :
      {s s' : Server} {f : Places} (t : Thread) (v : Connection) (supply : Supply)
      (selected : Selected) (next : Next)
      → s.conn_at t.connection ≡ some v
      → f t.connection ≡ between
      → Fresh t.connection supply s.world
      → round t supply selected s ≡ some (next, s')
      → Turn s f s' f
  wait_turn :
      {s s' : Server} {f : Places} (t : Thread) (v : Connection) (item : FileItem)
      (filename target : Bytes) (next : Next)
      → s.conn_at t.connection ≡ some v
      → f t.connection ≡ between
      → IsFile item
      → enqueue_upload t item filename target s ≡ some (next, s')
      → Turn s f s' f
  worker_turn :
      {s s' : Server} {f : Places} (writes : List ℕ) (served : Option Served)
      → worker_round writes s ≡ some (served, s')
      → Turn s f s' f
  join_turn :
      {s s' : Server} {f : Places} (t : Thread) (v : Connection) (name : Bytes) (place : Place)
      → s.conn_at t.connection ≡ some v
      → f t.connection ≡ between
      → length name < room_name_len
      → begin_join t name s ≡ some (place, s')
      → Turn s f s' (update f t.connection place)
  end_turn :
      {s s' : Server} {f : Places} (t : Thread) (v : Connection) (place : Place)
      → s.conn_at t.connection ≡ some v
      → f t.connection ≡ between
      → begin_end t s ≡ some (place, s')
      → Turn s f s' (update f t.connection place)
  next_turn :
      {s s' : Server} {f : Places} (t : Thread) (fresh : Ptr) (place place' : Place)
      → f t.connection ≡ place
      → place ≢ between
      → s.room_at fresh ≡ none
      → advance t (some fresh) place s ≡ some (place', s')
      → Turn s f s' (update f t.connection place')

pub data Turns : Server → Places → Server → Places → Type 0 where
  stay : {s : Server} {f : Places} → Turns s f s f
  turn :
      {s s' s'' : Server} {f f' f'' : Places}
      → Turns s f s' f'
      → Turn s' f' s'' f''
      → Turns s f s'' f''
