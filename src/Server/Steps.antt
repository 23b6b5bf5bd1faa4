-- ===== src/Server/Steps.antt =====
-- The server as a whole: its handshakes and its clients' threads, in any order.
use chat_app_in_c.Common.{
  replicate, length-replicate, [], arith, none, sym, List, ℕ, ◌≡◌, Option, none, some,
}
use chat_app_in_c.Server.{Ptr, Connection, Server}
use chat_app_in_c.Server.Invariant.{IsValid, Returns_mono, Returns_result}
use chat_app_in_c.Server.Handler.{Thread}
use chat_app_in_c.Server.Handler.Upload.{Next}
use chat_app_in_c.Server.Handler.Loop.{Supply, Selected, round, clean_up}
use chat_app_in_c.Server.Handler.Keeps.{Fresh}
use chat_app_in_c.Server.Handler.Session.{round_returns}
use chat_app_in_c.Server.Handler.Loop.{start_thread}
use chat_app_in_c.Server.Handler.Ending.{clean_up_returns}
use chat_app_in_c.Server.Handler.Starting.{start_thread_returns}
use mathlib.Core.Path.{subst}
use chat_app_in_c.Queue.{FileQueue}
use chat_app_in_c.Server.{max_conn, max_rooms}
use chat_app_in_c.Server.Rooms.Slots.{uses-replicate}
use chat_app_in_c.Server.Worker.{Served, worker_round}
use chat_app_in_c.Server.Worker.Unchanged.{Leaves, worker_round-Leaves}
use chat_app_in_c.Server.Accept.{Line, Outcome, handshake_round}
use chat_app_in_c.Server.Accept.Register.{any_line_returns}

-- A step of the server: a round of a handshake, the start of a client's thread, a round of it, or its
-- end, or a round of an upload worker. Steps of different threads follow one another here.
pub data Step : Server → Server → Type 0 where
  handshake_step :
      {s s' : Server} (client_fd : ℕ) (calloc : Option Ptr) (line : Line) (outcome : Outcome)
      → ((p : Ptr) → calloc ≡ some p → s.conn_at p ≡ none)
      → handshake_round client_fd calloc line s ≡ some (outcome, s')
      → Step s s'
  start_step :
      {s s' : Server} (connection : Ptr) (v : Connection) (tid : ℕ) (fds : Option (ℕ × ℕ))
      (t : Option Thread)
      → s.conn_at connection ≡ some v
      → start_thread connection tid fds s ≡ some (t, s')
      → Step s s'
  round_step :
      {s s' : Server} (t : Thread) (v : Connection) (supply : Supply) (selected : Selected)
      (next : Next)
      → s.conn_at t.connection ≡ some v
      → Fresh t.connection supply s.world
      → round t supply selected s ≡ some (next, s')
      → Step s s'
  worker_step :
      {s s' : Server} (writes : List ℕ) (served : Option Served)
      → worker_round writes s ≡ some (served, s')
      → Step s s'
  end_step :
      {s s' : Server} (t : Thread) (v : Connection)
      → s.conn_at t.connection ≡ some v
      → clean_up t s ≡ some (tt, s')
      → Step s s'

pub data Steps : Server → Server → Type 0 where
  stay : {s : Server} → Steps s s
  step : {s s' s'' : Server} → Steps s s' → Step s' s'' → Steps s s''

-- From a server whose invariant holds, whatever the clients send and in whichever order the handshakes,
-- the clients' threads and the workers take their rounds, the invariant holds in every state reached.
-- Each step gets memory from `calloc` that is not in use.
pub Steps-IsValid : {s s' : Server} → Steps s s' → IsValid s.world → IsValid s'.world
Steps-IsValid stay valid = valid
Steps-IsValid (step {s'} {s''} before (handshake_step client_fd calloc line outcome unused e))
      valid =
    Returns_result IsValid (handshake_round client_fd calloc line s') outcome s'' e
      (any_line_returns client_fd s' calloc line (Steps-IsValid before valid) unused)
Steps-IsValid (step {s'} {s''} before (start_step connection v tid fds t known e)) valid =
    Returns_result IsValid (start_thread connection tid fds s') t s'' e
      (start_thread_returns s' connection v tid fds (Steps-IsValid before valid) known)
Steps-IsValid (step {s'} {s''} before (round_step t v supply selected next known fresh e)) valid =
    Returns_result IsValid (round t supply selected s') next s'' e (
      Returns_mono _ (λ _ w. IsValid w) (round t supply selected s') (λ _ w (ok, _, _). ok)
        (round_returns t s' v supply selected (Steps-IsValid before valid) known fresh))
Steps-IsValid (step {s'} {s''} before (worker_step writes served e)) valid =
    subst IsValid (sym (subst (λ o. Leaves s'.world o) e (worker_round-Leaves writes s')))
      (Steps-IsValid before valid)
Steps-IsValid (step {s'} {s''} before (end_step t v known e)) valid =
    Returns_result IsValid (clean_up t s') tt s'' e (
      Returns_mono _ (λ _ w. IsValid w) (clean_up t s') (λ _ w (ok, _). ok)
        (clean_up_returns t s' v (Steps-IsValid before valid) known))

-- The server when it starts: no connection, no room, and its upload queue
abbrev pub started : FileQueue → Server
started q = record {
  world = record {
    connections = replicate max_conn none;
    rooms = replicate max_rooms none;
    conn_at = λ _. none;
    room_at = λ _. none;
  };
  upload_queue = q;
  trace = [];
}

pub started-IsValid : (q : FileQueue) → IsValid (started q).world
started-IsValid q = record {
  conns_size = length-replicate {A = Option Ptr} max_conn none;
  rooms_size = length-replicate {A = Option Ptr} max_rooms none;
  conns_once = λ c. uses-replicate max_conn c;
  rooms_once = λ p. uses-replicate max_rooms p;
  rooms_valid = λ p r e. absurd (ground arith);
  members_agree = λ p r e. absurd (ground arith);
  no_dangling = λ c v p e f. absurd (ground arith);
  users_fit = λ c n e. absurd (ground arith);
  users_distinct = λ c d n e f. absurd (ground arith);
}

-- Every state that the server reaches from its start satisfies the invariant: each connection and each
-- room stands in one slot of its table, a room's members are the connections that point to it, no room
-- pointer dangles, and no two users have the same name.
pub reached-IsValid : {q : FileQueue} {s : Server} → Steps (started q) s → IsValid s.world
reached-IsValid {q} steps = Steps-IsValid steps (started-IsValid q)
