-- ===== src/Server/Rooms/Members.antt =====
-- `room_add_member`: joining a room keeps the invariant.
use chat_app_in_c.Common.{◌+◌, ◌<◌, ◌≤◌, ◌≡◌, refl, sym, ◌∙◌, true, false, none, some, leb, arith}
use chat_app_in_c.Server.{Ptr, Room, Connection, World, Server, room_capacity, update}
use chat_app_in_c.Server.Rooms.{place, insert_member, refuse_member, add_to, room_add_member}
use chat_app_in_c.Server.Rooms.Slots.{Slots, Gains, place-Gains}
use chat_app_in_c.Server.Invariant.{name_of, name_of-update, IsValid, Returns, Returns_world}

-- The tables and heap after `connection` has joined `room`, the array being `members` then
abbrev pub joined : World → Ptr → Ptr → Room → Connection → Slots → World
joined w room connection r v members = record w {
  room_at =
      update w.room_at room
        (some (record r { members = members; member_count = r.member_count + 1 }));
  conn_at = update w.conn_at connection (some (record v { room = some room }));
}

module _ (w : World) (room connection : Ptr) (r : Room) (v : Connection) (members : Slots)
    (valid : IsValid w) (there : w.room_at room ≡ some r) (known : w.conn_at connection ≡ some v)
    (out : v.room ≡ none) (gains : Gains connection r.members members) where
  joined-IsValid : IsValid (joined w room connection r v members)
  joined-IsValid = record {
    conns_size = valid.conns_size;
    rooms_size = valid.rooms_size;
    conns_once = λ c. ground (arith, valid.conns_once c);
    rooms_once = λ p. ground (arith, valid.rooms_once p);
    rooms_valid = λ p s e. ground (arith, valid.rooms_valid p s, valid.rooms_valid room r, gains);
    members_agree = λ p s e c. ground (
      arith,
      λ (h : w.room_at p ≡ some s). valid.members_agree p s h c,
      valid.members_agree room r there c,
      gains.gained c,
    );
    no_dangling =
        λ c u p e f. ground (arith, λ (h : w.conn_at c ≡ some u). valid.no_dangling c u p h f);
    users_fit = λ c n e. valid.users_fit c n (sym (same c) ∙ e);
    users_distinct = λ c d n e f. valid.users_distinct c d n (sym (same c) ∙ e) (sym (same d) ∙ f);
  }
    where
      same :
          (c : Ptr)
          → name_of (update w.conn_at connection (some (record v { room = (some room) })) c)
            ≡ name_of (w.conn_at c)
      same = name_of-update w connection v (some room) known

-- The last step of `room_add_member` for a room that has space
add_to_returns :
    (s : Server) (room connection : Ptr) (r : Room) (v : Connection) (members : Slots)
    → s.conn_at connection ≡ some v
    → place connection r.members ≡ some members
    → Returns (add_to room connection r s) (λ _ w. w ≡ joined s.world room connection r v members)
unfolding add_to insert_member
add_to_returns s room connection r v members known found = rw (found, insert_member, known, known)

-- `connection` is in `room`, which has one member more than `r`.
abbrev pub HasJoined : Ptr → Ptr → Connection → Room → World → Type 0
HasJoined room connection v r w =
    (w.conn_at connection ≡ some (record v { room = some room }))
    × (r' : Room) × (w.room_at room ≡ some r')
    × (r'.name ≡ r.name)
    × (r'.member_count ≡ r.member_count + 1)

-- `room_add_member` on a room with space, for a connection in no room of a valid server, returns; it
-- is then in the room, which has the same name and one member more, and the invariant holds.
pub add_member_returns :
    (s : Server) (room connection : Ptr) (r : Room) (v : Connection)
    → IsValid s.world
    → s.room_at room ≡ some r
    → s.conn_at connection ≡ some v
    → v.room ≡ none
    → r.member_count < room_capacity
    → Returns
        (room_add_member (some room) connection s)
        (λ _ w. IsValid w × HasJoined room connection v r w)
unfolding room_add_member
add_member_returns s room connection r v valid there known out space =
    let ok = valid.rooms_valid room r there in
    let (members, found, gains) = place-Gains connection r.members (omega arith) in
    let fits : leb room_capacity r.member_count ≡ false = ground arith in
    rw (there, fits)
      (Returns_world (λ w. IsValid w × HasJoined room connection v r w) (add_to room connection r s)
        (add_to_returns s room connection r v members known found)
        (
          joined-IsValid s.world room connection r v members valid there known out gains,
          (
            ground arith,
            record r { members = members; member_count = r.member_count + 1 },
            ground arith,
            refl,
            refl,
          ),
        ))

-- `room_add_member` on a full room changes nothing but the log.
pub add_member_full :
    (s : Server) (room connection : Ptr) (r : Room) (v : Connection)
    → s.room_at room ≡ some r
    → s.conn_at connection ≡ some v
    → room_capacity ≤ r.member_count
    → Returns (room_add_member (some room) connection s) (λ _ w. w ≡ s.world)
unfolding room_add_member refuse_member
add_member_full s room connection r v there known full =
    let over : leb room_capacity r.member_count ≡ true = ground arith in rw (there, over, known)
