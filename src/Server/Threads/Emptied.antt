-- ===== src/Server/Threads/Emptied.antt =====
-- The gap inside `room_remove_member` of server/src/chatserver.c, which lets go of the room's mutex
-- between its test that nobody is left and the removal and freeing of the room.
use chat_app_in_c.Common.{◌≡◌, refl, ◌==◌, ◌≢◌, true, false, none, some, ==_refl, arith}
use chat_app_in_c.Server.{Ptr, Room, Connection, Server, M, pure, ◌>>=◌, ◌>>◌, read_room, when}
use chat_app_in_c.Server.Rooms.{
  clear, place, all_null, insert_member, add_to, room_add_member, drop_member, delete_room,
  forget_room, room_remove_member,
}
use chat_app_in_c.Server.Rooms.Slots.{Slots, filled, clear-Gains, place-Gains, all_null-filled}
use chat_app_in_c.Server.Invariant.{IsValid}

-- `room_remove_member`, with what other threads do in the gap
unfoldable pub remove_member_around : M (Unit {0}) → Ptr → Ptr → M (Unit {0})
remove_member_around others room connection = do
  r ← read_room room
  r' ← drop_member room connection r (clear connection r.members)
  others
  when (all_null r'.members) (delete_room room connection r')
  forget_room room connection

-- If the others do nothing there, it is `room_remove_member`.
pub remove_member_around-pure :
    (room connection : Ptr) (s : Server)
    → remove_member_around (pure tt) room connection s ≡ room_remove_member (some room) connection s
unfolding remove_member_around room_remove_member
remove_member_around-pure room connection s = refl

module _ (s : Server) (room leaver joiner : Ptr) (r : Room) (v v' : Connection)
    (members members' : Slots) (there : s.room_at room ≡ some r) (known : s.conn_at leaver ≡ some v)
    (known' : s.conn_at joiner ≡ some v') (inside : v.room ≡ some room)
    (apart : (joiner == leaver) ≡ false) (found : clear leaver r.members ≡ some members)
    (nobody : all_null members ≡ true) (alone : r.member_count ≡ 1)
    (placed : place joiner members ≡ some members') where
  runs_through :
      (s' : Server) × (remove_member_around (room_add_member (some room) joiner) room leaver s
        ≡ some (tt, s'))
      × (s'.conn_at joiner ≡ some (record v' { room = some room }))
      × (s'.room_at room ≡ none)
  unfolding remove_member_around drop_member room_add_member add_to insert_member delete_room
      forget_room
  runs_through =
      rw
        (
          there,
          found,
          known,
          alone,
          ==_refl room,
          placed,
          known',
          known',
          nobody,
          delete_room,
          forget_room,
          apart,
          known,
          forget_room,
          apart,
          known,
          inside,
          ==_refl room,
        )
        (_, refl, ground arith, ground arith)

-- A room may be freed with a member in it. If the only member of a room of a valid server leaves it and
-- another client is added in the gap, then the removal returns, and it leaves the other client with a
-- room pointer to freed memory.
pub member_of_freed_room :
    (s : Server) (room leaver joiner : Ptr) (r : Room) (v v' : Connection)
    → IsValid s.world
    → s.room_at room ≡ some r
    → s.conn_at leaver ≡ some v
    → s.conn_at joiner ≡ some v'
    → v.room ≡ some room
    → r.member_count ≡ 1
    → joiner ≢ leaver
    → (s' : Server) × (remove_member_around (room_add_member (some room) joiner) room leaver s
        ≡ some (tt, s'))
      × (s'.conn_at joiner ≡ some (record v' { room = some room }))
      × (s'.room_at room ≡ none)
member_of_freed_room s room leaver joiner r v v' valid there known known' inside alone other =
    let fits = valid.rooms_valid room r there in
    let (members, found, gains) =
      clear-Gains leaver r.members
        (rw (valid.members_agree room r there leaver, known, inside, ==_refl room) (omega arith)) in
    let empty : filled members ≡ 0 = omega (arith, gains.count, fits.counted) in
    let (members', placed, _) = place-Gains joiner members (omega (arith, gains.size, fits.size)) in
    runs_through s room leaver joiner r v v' members members' there known known' inside
      (ground (arith, other)) found (rw (all_null-filled members, empty) refl) alone placed
