-- ===== src/Server/Tests.antt =====
-- A server with two users, one of them in a room, and the theorems at it.
pub mod Threads
pub mod Files
mod Spawned
mod Interleaved
mod Life
use chat_app_in_c.Common.{
  take, ◌↔◌, ℕ, zero, suc, ◌+◌, ◌-◌, ◌<◌, ◌≤◌, ◌≡◌, refl, ap, sym, ◌∙◌, Bool, true, false, Option,
  none, some, ◌≢◌, List, [], ◌∷◌, ◌==◌, ◌++◌, if◌then◌else◌, replicate, length, length-replicate,
  set, arith,
}
use chat_app_in_c.CString.{Bytes, codes}
use chat_app_in_c.Queue.{FileQueue, zero_item}
use chat_app_in_c.Server.{Ptr, Room, Connection, World, Server, room_capacity, max_conn, max_rooms}
use chat_app_in_c.Server.Rooms.Slots.{uses, filled, uses-replicate, filled-replicate}
use chat_app_in_c.CString.{c_string, isalnum}
use chat_app_in_c.CString.Token.{AllBytes}
use chat_app_in_c.Server.{Event, update, write_formatted, bind_result}
use chat_app_in_c.Server.Message
use chat_app_in_c.Server.Names.{is_valid_username, is_valid_roomname, is_valid_username_iff}
use chat_app_in_c.Server.Rooms.{
  room_find, room_create, room_add_member, room_remove_member, room_broadcast, drop_member,
  delete_room, forget_room, clear, all_null, find_room,
}
use chat_app_in_c.Server.Rooms.Lookup.{Found, CreateResult, room_find_returns, room_create_returns}
use chat_app_in_c.Server.Rooms.Members.{HasJoined, add_member_returns}
use chat_app_in_c.Server.Rooms.Leaving.{remove_member_returns}
use chat_app_in_c.Server.Rooms.Broadcast.{
  deliveries, room_broadcast_lem, chat_line_whole, chat_line_over,
}
use chat_app_in_c.Server.Connections.{remove_connection, broadcast_message_via_notify}
use chat_app_in_c.Server.Connections.Lookup.{broadcast_message_via_notify_lem}
use chat_app_in_c.Server.Connections.Removal.{remove_connection_returns}
use chat_app_in_c.Server.Accept.{Line, bytes, drop_newline, handshake_round}
use chat_app_in_c.Server.Accept.Register.{Registered, handshake_round_returns}
use chat_app_in_c.Server.Invariant.{live, in_room, name_of, RoomIsValid, IsValid, Returns}

abbrev pub alice : Connection
alice = record {
  username = codes "alice";
  sockfd = 4;
  notify_fd = 5;
  notify_writer = 6;
  tid = 100;
  initialized = true;
  room = some 7;
}

abbrev pub bob : Connection
bob = record {
  username = codes "bob";
  sockfd = 8;
  notify_fd = 9;
  notify_writer = 10;
  tid = 101;
  initialized = true;
  room = none;
}

abbrev lobby : Room
lobby = record { name = codes "lobby"; members = some 1 ∷ replicate 14 none; member_count = 1 }

abbrev pub two_users : World
two_users = record {
  connections = some 1 ∷ some 2 ∷ replicate 254 none;
  rooms = some 7 ∷ replicate 255 none;
  conn_at = λ c. if c == 1 then some alice else if c == 2 then some bob else none;
  room_at = λ p. if p == 7 then some lobby else none;
}

abbrev pub empty_queue : FileQueue
empty_queue = record {
  buffer = replicate 15 zero_item;
  capacity = 15;
  head = 0;
  tail = 0;
  count = 0;
}

abbrev pub running : Server
running = record { world = two_users; upload_queue = empty_queue; trace = [] }

lobby-RoomIsValid : RoomIsValid lobby
unfolding filled
lobby-RoomIsValid = record { size = refl; counted = refl; name_fits = omega arith }

pub two_users-IsValid : IsValid two_users
unfolding uses
two_users-IsValid = record {
  conns_size = refl;
  rooms_size = refl;
  conns_once = λ c. ground (arith, uses-replicate 254 c);
  rooms_once = λ p. ground (arith, uses-replicate 255 p);
  rooms_valid = λ p r e. ground (arith, lobby-RoomIsValid);
  members_agree = λ p r e c. ground (arith, uses-replicate 14 c);
  no_dangling = λ c v p e f. ground arith;
  users_fit = λ c n e. ground arith;
  users_distinct = λ c d n e f. ground arith;
}

-- The last member leaves, and the room is freed.
leave_run : Returns (room_remove_member (some 7) 1 running) (λ _ w. w.room_at 7 ≡ none)
unfolding room_remove_member drop_member delete_room forget_room clear all_null
leave_run = refl

remove_member_returns_example : Returns (room_remove_member (some 7) 1 running) (λ _ w.
    IsValid w
    × (w.conn_at 1 ≡ some (record alice { room = none }))
    × (live (w.room_at 7) ≡ (if lobby.member_count == 1 then 0 else 1)))
remove_member_returns_example =
    remove_member_returns running 7 1 lobby alice two_users-IsValid refl refl refl

handshake_round_returns_example :
    Returns
      (handshake_round 12 (some 3) (bytes (codes "carol\n")) running)
      (λ o w. IsValid w × Registered two_users 12 (c_string (drop_newline (codes "carol\n"))) o w)
handshake_round_returns_example =
    handshake_round_returns 12 running (some 3) (codes "carol\n") two_users-IsValid unused
  where
    unused : (p : Ptr) → some 3 ≡ some p → running.conn_at p ≡ none
    unused p e = ground arith
