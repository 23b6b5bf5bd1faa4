-- ===== src/Server/Threads/Stale.antt =====
-- What the threads may rely on inside `/join` and while a file is sent, and what they may not.

use chat_app_in_c.Common.{
  ℕ, zero, suc, ◌+◌, ◌≤◌, ◌≡◌, refl, ◌≢◌, true, Option, none, some, List, ◌∷◌, leb, set, arith,
}
use chat_app_in_c.CString.{Bytes}
use chat_app_in_c.Queue.{FileItem}
use chat_app_in_c.Server.{
  Ptr, Room, Connection, World, Server, Event, M, pure, ◌>>=◌, room_capacity, max_rooms,
}
use chat_app_in_c.Server.Message
use chat_app_in_c.Server.Rooms.{
  find_room, room_find, new_room, create_at, create_unless, refuse_member, room_add_member,
  room_remove_member,
}
use chat_app_in_c.Server.Rooms.Slots.{uses, filled, find_free-Gains}
use chat_app_in_c.Server.Rooms.Leaving.{remove_member_returns}
use chat_app_in_c.Server.Invariant.{live, IsValid, Returns}
use chat_app_in_c.Server.Handler.{Thread, leave_current, tell_joined}
use chat_app_in_c.Server.Handler.Loop.{clean_up}
use chat_app_in_c.Server.Handler.Ending.{clean_up_returns}
use chat_app_in_c.Server.Worker.{send_to}
use chat_app_in_c.Server.Threads.{Place, between, outside, found, tested, advance}

-- The action that returns, with the state that it leaves
pub returned :
    {A : Type 0} (Q : A → World → Type 0) (o : Option (A × Server))
    → Returns o Q
    → (a : A) × (s : Server) × (o ≡ some (a, s)) × Q a s.world
returned Q none h = absurd h
returned Q (some (a, s)) h = (a, s, refl, h)

module _ (t : Thread) (calloc : Option Ptr) (name : Bytes) (room : Ptr) (s : Server)
    (gone : s.room_at room ≡ none) where
  found-undefined : advance t calloc (found name (some room)) s ≡ none
  unfolding advance
  found-undefined = rw gone refl

  tested-undefined : advance t calloc (tested name room) s ≡ none
  unfolding advance room_add_member
  tested-undefined = rw gone refl

-- The room that a `/join` has found may be freed before it is used. If another client is the only one in
-- that room and leaves it, which returns, then the next call of the thread that has found the room, and
-- of one that has tested its capacity, reads freed memory.
pub found_room_freed :
    (s : Server) (other : Ptr) (v : Connection) (room : Ptr) (r : Room) (t : Thread)
    (calloc : Option Ptr) (name : Bytes)
    → IsValid s.world
    → s.conn_at other ≡ some v
    → v.room ≡ some room
    → s.room_at room ≡ some r
    → r.member_count ≡ 1
    → (s' : Server) × (leave_current other s ≡ some (tt, s'))
      × (advance t calloc (found name (some room)) s' ≡ none)
      × (advance t calloc (tested name room) s' ≡ none)
unfolding leave_current
found_room_freed s other v room r t calloc name valid known inside there alone =
    let (_, s', e, (_, _, freed)) =
      returned _ (room_remove_member (some room) other s)
        (remove_member_returns s room other r v valid there known inside) in
    let gone : s'.room_at room ≡ none = nothing (s'.room_at room) (rw alone at freed) in
    (
      s',
      rw (known, inside) e,
      found-undefined t calloc name room s' gone,
      tested-undefined t calloc name room s' gone,
    )
  where
    nothing : (o : Option Room) → live o ≡ 0 → o ≡ none
    nothing none h = refl
    nothing (some x) h = absurd (omega (arith, h))

-- The thread's next calls, `n` of them
abbrev pub go_on : ℕ → Thread → Option Ptr → Place → M Place
go_on zero t calloc place = pure place
go_on (suc n) t calloc place = advance t calloc place >>= go_on n t calloc

-- A room may fill up between the test of its capacity and `room_add_member`. Then the client is told
-- that it has joined the room, and it is not in the room: nothing has changed but the log.
pub joined_though_full :
    (s : Server) (t : Thread) (calloc : Option Ptr) (name : Bytes) (room : Ptr) (r : Room)
    (v : Connection)
    → s.conn_at t.connection ≡ some v
    → s.room_at room ≡ some r
    → room_capacity ≤ r.member_count
    → (s' : Server) × (go_on 2 t calloc (tested name room) s ≡ some (between, s'))
      × (s'.world ≡ s.world)
      × (s'.trace
          ≡ Event.printed (Message.joined_log v name)
            ∷ Event.logged (Message.joined_log v name)
            ∷ Event.sent t.tcp_fd (Message.joined v.username r.name)
            ∷ Event.printed (Message.not_added_full v r.name)
            ∷ Event.logged (Message.not_added_full v r.name)
            ∷ s.trace)
unfolding advance room_add_member refuse_member tell_joined
joined_though_full s t calloc name room r v known there full =
    let over : leb room_capacity r.member_count ≡ true = ground arith in
    rw (there, over, known, known, there) (_, refl, refl, refl)

-- The recipient of a file may end before the worker writes to it: once its thread's clean-up has
-- returned, the worker, which still has the pointer that `find_connection` gave, reads freed memory.
pub recipient_freed :
    (s : Server) (t : Thread) (v : Connection) (item : FileItem) (writes : List ℕ)
    → IsValid s.world
    → s.conn_at t.connection ≡ some v
    → (s' : Server) × (clean_up t s ≡ some (tt, s'))
      × (send_to item writes (some t.connection) s' ≡ none)
unfolding send_to
recipient_freed s t v item writes valid known =
    let (_, s', e, (_, gone)) = returned _ (clean_up t s) (clean_up_returns t s v valid known) in
    (s', e, rw gone refl)

-- The two threads search, and then each creates a room.
abbrev pub join_both : Thread → Thread → Ptr → Ptr → Bytes → M (Place × Place)
join_both t t' fresh fresh' name = do
  one ← advance t (some fresh) (outside name)
  other ← advance t' (some fresh') (outside name)
  one ← advance t (some fresh) one
  other ← advance t' (some fresh') other
  pure (one, other)

-- Two threads that join a name at the same time, of which no room of a valid server has the name, and
-- that both search before either creates its room, create two rooms of that name: each thread goes on
-- with its own, and each of the two stands once in the table. There are two free slots, and `calloc`
-- gives two addresses that are not in use.
pub twin_rooms :
    (s : Server) (t t' : Thread) (v v' : Connection) (fresh fresh' : Ptr) (name : Bytes)
    → IsValid s.world
    → s.conn_at t.connection ≡ some v
    → s.conn_at t'.connection ≡ some v'
    → s.room_at fresh ≡ none
    → s.room_at fresh' ≡ none
    → fresh ≢ fresh'
    → find_room s.room_at name s.rooms ≡ some none
    → filled s.rooms + 2 ≤ max_rooms
    → (s' : Server) × (join_both t t' fresh fresh' name s
        ≡ some ((found name (some fresh), found name (some fresh')), s'))
      × (s'.room_at fresh ≡ some (new_room name))
      × (s'.room_at fresh' ≡ some (new_room name))
      × (uses fresh s'.rooms ≡ 1)
      × (uses fresh' s'.rooms ≡ 1)
unfolding advance create_unless create_at room_find
twin_rooms s t t' v v' fresh fresh' name valid known known' unused unused' other missing space =
    let size = valid.rooms_size in
    let (i, free, gains) = find_free-Gains fresh s.rooms (omega (arith, size, space)) in
    let (j, free', gains') =
      find_free-Gains fresh' (set s.rooms i (some fresh))
        (omega (arith, gains.size, gains.count, size, space)) in
    rw (missing, missing, free, known, free', known')
      (
        _,
        refl,
        ground arith,
        ground arith,
        ground
            (arith, gains.gained fresh, gains'.gained fresh, valid.rooms_once fresh, unused, other),
        ground (
          arith,
          gains.gained fresh',
          gains'.gained fresh',
          valid.rooms_once fresh',
          unused',
          other,
        ),
      )
