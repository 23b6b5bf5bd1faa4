-- ===== src/Server/Rooms/Leaving.antt =====
-- `room_remove_member`: leaving a room keeps the invariant, and frees the room with its last member.
use chat_app_in_c.Common.{
  ◌+◌, ◌-◌, ◌≡◌, sym, ap, ◌∙◌, true, false, none, some, ◌≢◌, inl, inr, ltb, ◌==◌, if◌then◌else◌,
  Bool-cases, ==_refl, fun_ext, arith,
}
use chat_app_in_c.Server.{Ptr, Room, Connection, World, Server, update}
use chat_app_in_c.Server.Rooms.{
  clear, all_null, unlist, drop_member, delete_room, forget_room, room_remove_member,
}
use chat_app_in_c.Server.Rooms.Slots.{
  Slots, filled, uses-le-filled, Gains, clear-Gains, unlist-Gains, all_null-filled,
}
use chat_app_in_c.Server.Invariant.{name_of, name_of-update, live, IsValid, Returns, Returns_world}

-- The tables and heap after `connection` has left `room`, which others are still in
abbrev pub departed : World → Ptr → Ptr → Room → Connection → Slots → World
departed w room connection r v members = record w {
  room_at =
      update w.room_at room
        (some (record r { members = members; member_count = r.member_count - 1 }));
  conn_at = update w.conn_at connection (some (record v { room = none }));
}

-- and after the last one has left, and the room is freed
abbrev pub deserted : World → Ptr → Ptr → Connection → World
deserted w room connection v = record w {
  rooms = unlist room w.rooms;
  room_at = update w.room_at room none;
  conn_at = update w.conn_at connection (some (record v { room = none }));
}

module _ (w : World) (room connection : Ptr) (r : Room) (v : Connection) (members : Slots)
    (valid : IsValid w) (there : w.room_at room ≡ some r) (known : w.conn_at connection ≡ some v)
    (inside : v.room ≡ some room) (gains : Gains connection members r.members) where
  departed-IsValid : IsValid (departed w room connection r v members)
  departed-IsValid = record {
    conns_size = valid.conns_size;
    rooms_size = valid.rooms_size;
    conns_once = λ c. ground (arith, valid.conns_once c);
    rooms_once = λ p. ground (arith, valid.rooms_once p);
    rooms_valid = λ p s e. ground (arith, valid.rooms_valid p s, valid.rooms_valid room r, gains);
    members_agree = λ p s e c. ground (
      arith,
      λ (h : w.room_at p ≡ some s). valid.members_agree p s h c,
      valid.members_agree room r there c,
      gains.gained c,
    );
    no_dangling =
        λ c u p e f. ground (arith, λ (h : w.conn_at c ≡ some u). valid.no_dangling c u p h f);
    users_fit = λ c n e. valid.users_fit c n (sym (same c) ∙ e);
    users_distinct = λ c d n e f. valid.users_distinct c d n (sym (same c) ∙ e) (sym (same d) ∙ f);
  }
    where
      same :
          (c : Ptr)
          → name_of (update w.conn_at connection (some (record v { room = none })) c)
            ≡ name_of (w.conn_at c)
      same = name_of-update w connection v none known

  -- The connections that still point at an empty room: none.
  nobody_inside :
      filled members ≡ 0
      → (c : Ptr) (u : Connection) → c ≢ connection
      → w.conn_at c ≡ some u
      → u.room ≢ some room
  nobody_inside empty c u ne e f =
      ground (arith, valid.members_agree room r there c, gains.gained c, uses-le-filled c members)

  listed_once : Gains room (unlist room w.rooms) w.rooms
  listed_once = unlist-Gains room w.rooms (ground (arith, valid.rooms_once room))

  deserted-IsValid : filled members ≡ 0 → IsValid (deserted w room connection v)
  deserted-IsValid empty = record {
    conns_size = valid.conns_size;
    rooms_size = sym listed_once.size ∙ valid.rooms_size;
    conns_once = λ c. ground (arith, valid.conns_once c);
    rooms_once = λ p. ground (arith, valid.rooms_once p, listed_once.gained p);
    rooms_valid = λ p s e. ground (arith, valid.rooms_valid p s);
    members_agree =
        λ p s e c. ground (arith, λ (h : w.room_at p ≡ some s). valid.members_agree p s h c);
    no_dangling = λ c u p e f.
        ground (
          arith,
          λ (h : w.conn_at c ≡ some u). valid.no_dangling c u p h f,
          nobody_inside empty c u,
        );
    users_fit = λ c n e. valid.users_fit c n (sym (same c) ∙ e);
    users_distinct = λ c d n e f. valid.users_distinct c d n (sym (same c) ∙ e) (sym (same d) ∙ f);
  }
    where
      same :
          (c : Ptr)
          → name_of (update w.conn_at connection (some (record v { room = none })) c)
            ≡ name_of (w.conn_at c)
      same = name_of-update w connection v none known

update-update :
    {A : Type 0} (f : Ptr → A) (p : Ptr) (a b : A) → update (update f p a) p b ≡ update f p b
update-update f p a b = fun_ext λ q. ground arith

module _ (s : Server) (room connection : Ptr) (r : Room) (v : Connection) (members : Slots)
    (there : s.room_at room ≡ some r) (known : s.conn_at connection ≡ some v)
    (inside : v.room ≡ some room) (found : clear connection r.members ≡ some members)
    (counted : ltb 0 r.member_count ≡ true) where
  remove_some_returns :
      all_null members ≡ false
      → Returns
          (room_remove_member (some room) connection s)
          (λ _ w. w ≡ departed s.world room connection r v members)
  unfolding room_remove_member drop_member forget_room
  remove_some_returns others =
      rw (there, found, known, counted, others, known, inside, ==_refl room)

  remove_last_returns :
      all_null members ≡ true
      → Returns
          (room_remove_member (some room) connection s)
          (λ _ w. w ≡ deserted s.world room connection v)
  unfolding room_remove_member drop_member forget_room delete_room
  remove_last_returns nobody =
      rw (there, found, known, counted, nobody, known, forget_room, known, inside, ==_refl room)
        (ap (λ f. record (deserted s.world room connection v) { room_at = f })
          (update-update s.room_at room _ none))

module _ (s : Server) (room connection : Ptr) (r : Room) (v : Connection) (members : Slots)
    (valid : IsValid s.world) (there : s.room_at room ≡ some r)
    (known : s.conn_at connection ≡ some v) (inside : v.room ≡ some room)
    (found : clear connection r.members ≡ some members)
    (gains : Gains connection members r.members) where
  leaves_room : Returns (room_remove_member (some room) connection s) (λ _ w.
      IsValid w
      × (w.conn_at connection ≡ some (record v { room = none }))
      × (live (w.room_at room) ≡ (if r.member_count == 1 then 0 else 1)))
  leaves_room = elim (Bool-cases (all_null members)) [
    | inl nobody ↦
        Returns_world _ (room_remove_member (some room) connection s)
          (remove_last_returns s room connection r v members there known inside found counted
            nobody)
          (
            deserted-IsValid s.world room connection r v members valid there known inside gains
                (ground (arith, all_null-filled members)),
            ground arith,
            ground (arith, size, all_null-filled members),
          )
    | inr others ↦
        Returns_world _ (room_remove_member (some room) connection s)
          (remove_some_returns s room connection r v members there known inside found counted
            others)
          (
            departed-IsValid s.world room connection r v members valid there known inside gains,
            ground arith,
            ground (arith, size, all_null-filled members),
          )
  ]
    where
      size : r.member_count ≡ filled members + 1
      size = omega (arith, gains.count, (valid.rooms_valid room r there).counted)

      counted : ltb 0 r.member_count ≡ true
      counted = ground (arith, size)

-- `room_remove_member` on a connection of a valid server and the room that it is in returns; the
-- connection then points to no room, the invariant holds, and the room is freed exactly if nobody else
-- was in it.
pub remove_member_returns :
    (s : Server) (room connection : Ptr) (r : Room) (v : Connection)
    → IsValid s.world
    → s.room_at room ≡ some r
    → s.conn_at connection ≡ some v
    → v.room ≡ some room
    → Returns (room_remove_member (some room) connection s) (λ _ w.
      IsValid w
      × (w.conn_at connection ≡ some (record v { room = none }))
      × (live (w.room_at room) ≡ (if r.member_count == 1 then 0 else 1)))
remove_member_returns s room connection r v valid there known inside =
    let once = valid.members_agree room r there connection in
    let (members, found, gains) = clear-Gains connection r.members (ground (arith, once)) in
    leaves_room s room connection r v members valid there known inside found gains
