-- ===== src/Server/Rooms.antt =====
-- The room functions of server/src/chatserver.c. Each takes one step here; Server/Threads lets other
-- threads into the gaps that `rooms_mutex` and the room's mutex leave.
pub mod Slots
pub mod Lookup
pub mod Members
pub mod Leaving
pub mod Broadcast
use chat_app_in_c.Common.{
  ℕ, zero, suc, ◌+◌, ◌-◌, Bool, true, false, ◌&&◌, Option, none, some, List, [], ◌∷◌, ◌++◌, leb,
  ltb, ◌==◌, if◌then◌else◌, length, set, replicate, is_some,
}
use mathlib.Core.Option
use chat_app_in_c.CString.{Bytes, str_eq, copy_into}
use chat_app_in_c.Server.{
  Ptr, Room, Connection, Server, M, pure, undefined, ◌>>=◌, ◌>>◌, gets, deref, read_conn, read_room,
  modify, write_conn, write_room, free_room, emit, say, when, update, room_name_len, room_capacity,
  write_formatted,
}
use chat_app_in_c.Server.Message

-- `room_find_free_slot_locked`, and the search of `find_free_slot`: the first slot that is NULL
unfoldable pub find_free : List (Option Ptr) → Option ℕ
find_free [] = none
find_free (none ∷ slots) = some 0
find_free (some p ∷ slots) = Option.map suc (find_free slots)

-- The loop of `room_find` over a slot array; the outer `none` is a slot that points to nothing.
unfoldable pub find_room : (Ptr → Option Room) → Bytes → List (Option Ptr) → Option (Option Ptr)
find_room heap name [] = some none
find_room heap name (none ∷ slots) = find_room heap name slots
find_room heap name (some p ∷ slots) = elim (heap p) [
  | none ↦ none
  | some r ↦ if str_eq r.name name then some (some p) else find_room heap name slots
]

-- `room_find`
unfoldable pub room_find : Bytes → M (Option Ptr)
room_find name s = deref (find_room s.room_at name s.rooms) s

-- A `room_t` of zero bytes with its name copied in
abbrev pub new_room : Bytes → Room
new_room name = record {
  name = copy_into room_name_len name;
  members = replicate room_capacity none;
  member_count = 0;
}

-- The part of `room_create` behind the search; `calloc` is the address that it gives, `none` for
-- NULL, through which the code then writes.
unfoldable pub create_at : Option Ptr → Bytes → Ptr → Option ℕ → M (Option Ptr)
create_at calloc name connection none = do
  c ← read_conn connection
  say (Message.no_free_room_slot c)
  pure none
create_at calloc name connection (some idx) = do
  p ← deref calloc
  write_room p (new_room name)
  modify (λ w. record w { rooms = set w.rooms idx (some p) })
  c ← read_conn connection
  say (Message.room_created c name)
  pure (some p)

-- What `room_create` does with the result of its search
unfoldable pub create_unless : Option Ptr → Bytes → Ptr → Option Ptr → M (Option Ptr)
create_unless calloc name connection (some p) = pure (some p)
create_unless calloc name connection none = do
  idx ← gets (λ s. find_free s.rooms)
  create_at calloc name connection idx

-- `room_create`
unfoldable pub room_create : Option Ptr → Bytes → Option Ptr → M (Option Ptr)
room_create calloc name none = do say (Message.room_not_created_null name); pure none
room_create calloc name (some connection) = do
  found ← room_find name
  create_unless calloc name connection found

-- The loop of `room_add_member`: the first free slot takes the connection.
unfoldable pub place : Ptr → List (Option Ptr) → Option (List (Option Ptr))
place c [] = none
place c (none ∷ slots) = some (some c ∷ slots)
place c (some d ∷ slots) = Option.map (λ rest. some d ∷ rest) (place c slots)

-- The body of that loop, at the slot it finds
unfoldable pub insert_member : Ptr → Ptr → Room → Option (List (Option Ptr)) → M (Unit {0})
insert_member room connection r none = pure tt
insert_member room connection r (some members) = do
  write_room room (record r { members = members; member_count = r.member_count + 1 })
  c ← read_conn connection
  say (Message.added c r.name)

-- The branch of `room_add_member` for a room at capacity
unfoldable pub refuse_member : Ptr → Room → M (Unit {0})
refuse_member connection r = do c ← read_conn connection; say (Message.not_added_full c r.name)

-- The rest of `room_add_member`; the room pointer is set whether or not a slot was found.
unfoldable pub add_to : Ptr → Ptr → Room → M (Unit {0})
add_to room connection r = do
  insert_member room connection r (place connection r.members)
  c ← read_conn connection
  write_conn connection (record c { room = some room })

-- `room_add_member`
unfoldable pub room_add_member : Option Ptr → Ptr → M (Unit {0})
room_add_member none connection = do c ← read_conn connection; say (Message.room_is_null c)
room_add_member (some room) connection = do
  r ← read_room room
  if leb room_capacity r.member_count then refuse_member connection r else add_to room connection r

-- The first loop of `room_remove_member`: the first slot with the connection becomes NULL.
unfoldable pub clear : Ptr → List (Option Ptr) → Option (List (Option Ptr))
clear c [] = none
clear c (none ∷ slots) = Option.map (λ rest. none ∷ rest) (clear c slots)
clear c (some d ∷ slots) =
    if d == c then some (none ∷ slots) else Option.map (λ rest. some d ∷ rest) (clear c slots)

-- The second loop: no slot is in use.
unfoldable pub all_null : List (Option Ptr) → Bool
all_null [] = true
all_null (none ∷ slots) = all_null slots
all_null (some d ∷ slots) = false

-- The loop over `rooms[]` that takes a room out
unfoldable pub unlist : Ptr → List (Option Ptr) → List (Option Ptr)
unlist p [] = []
unlist p (none ∷ slots) = none ∷ unlist p slots
unlist p (some q ∷ slots) = if q == p then none ∷ slots else some q ∷ unlist p slots

-- The body of the first loop, at the slot it finds; the room as it is afterwards
unfoldable pub drop_member : Ptr → Ptr → Room → Option (List (Option Ptr)) → M Room
drop_member room connection r none = pure r
drop_member room connection r (some members) = do
  c ← read_conn connection
  say (Message.removed c r.name)
  let r' = record r {
    members = members;
    member_count = if ltb 0 r.member_count then r.member_count - 1 else r.member_count;
  }
  write_room room r'
  pure r'

-- What `room_remove_member` does to a room that nobody is left in
unfoldable pub delete_room : Ptr → Ptr → Room → M (Unit {0})
delete_room room connection r = do
  modify (λ w. record w { rooms = unlist room w.rooms })
  c ← read_conn connection
  say (Message.room_deleted c r.name)
  free_room room

abbrev pub points_to : Option Ptr → Ptr → Bool
points_to none p = false
points_to (some q) p = q == p

-- The end of `room_remove_member`
unfoldable pub forget_room : Ptr → Ptr → M (Unit {0})
forget_room room connection = do
  c ← read_conn connection
  when (points_to c.room room) (write_conn connection (record c { room = none }))

-- `room_remove_member`
unfoldable pub room_remove_member : Option Ptr → Ptr → M (Unit {0})
room_remove_member none connection = pure tt
room_remove_member (some room) connection = do
  r ← read_room room
  r' ← drop_member room connection r (clear connection r.members)
  when (all_null r'.members) (delete_room room connection r')
  forget_room room connection

-- The loop of `room_broadcast`
unfoldable pub broadcast_to : Bytes → List (Option Ptr) → M (Unit {0})
broadcast_to line [] = pure tt
broadcast_to line (none ∷ slots) = broadcast_to line slots
broadcast_to line (some m ∷ slots) = do
  c ← read_conn m
  emit (write_formatted c.notify_writer line)
  broadcast_to line slots

-- `room_broadcast`
unfoldable pub room_broadcast : Option Ptr → Bytes → Bytes → M (Unit {0})
room_broadcast none from msg = pure tt
room_broadcast (some room) from msg = do
  r ← read_room room
  broadcast_to (Message.chat_line from msg) r.members
