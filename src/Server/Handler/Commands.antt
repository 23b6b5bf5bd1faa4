-- ===== src/Server/Handler/Commands.antt =====
-- Every command of a client returns and keeps the invariant.
use chat_app_in_c.Common.{
  ◌<◌, ◌≤◌, ◌≡◌, refl, sym, ap, ◌∙◌, Option, none, some, ◌⊎◌, inl, inr, leb, ◌==◌, if◌then◌else◌,
  Bool-cases, Option-cases, length, arith,
}
use mathlib.Core.Path.{subst}
use chat_app_in_c.CString.{Bytes}
use chat_app_in_c.Server.{
  Ptr, Room, Connection, World, Server, M, room_capacity, max_rooms, room_name_len, bind_result,
}
use chat_app_in_c.Server.Rooms.{room_create, room_add_member, room_remove_member}
use chat_app_in_c.Server.Rooms.Slots.{filled}
use chat_app_in_c.Server.Rooms.Lookup.{CreateResult, room_create_returns}
use chat_app_in_c.Server.Rooms.Members.{HasJoined, add_member_returns}
use chat_app_in_c.Server.Rooms.Leaving.{remove_member_returns}
use chat_app_in_c.Server.Invariant.{live, IsValid, Returns, Returns_mono, Returns_world}
use chat_app_in_c.Server.Handler.{
  Thread, leave_current, no_room_slot, refuse_full_room, enter_room, join_found, join_room,
}

-- The rest of an action may use what is known of its first part.
pub Returns-bind :
    {A B : Type 0} (P : A → World → Type 0) (Q : B → World → Type 0) (o : Option (A × Server))
    (f : A → M B)
    → Returns o P
    → ((a : A) (s : Server) → P a s.world → Returns (f a s) Q)
    → Returns (bind_result o f) Q
Returns-bind P Q none f h k = h
Returns-bind P Q (some (a, s)) f h k = k a s h

pub Returns-bind_eq :
    {A B : Type 0} (P : A → World → Type 0) (Q : B → World → Type 0) (o : Option (A × Server))
    (f : A → M B)
    → Returns o P
    → ((a : A) (s : Server) → o ≡ some (a, s) → P a s.world → Returns (f a s) Q)
    → Returns (bind_result o f) Q
Returns-bind_eq P Q none f h k = h
Returns-bind_eq P Q (some (a, s)) f h k = k a s refl h

-- The connection is there, with this user name, and in no room.
abbrev pub InNoRoom : Ptr → Connection → World → Type 0
InNoRoom connection v w = w.conn_at connection ≡ some (record v { room = none })

-- A room pointer of a live connection leads to a live room.
pub room_of :
    (w : World) (connection : Ptr) (v : Connection) (room : Ptr)
    → IsValid w
    → w.conn_at connection ≡ some v
    → v.room ≡ some room
    → (r : Room) × (w.room_at room ≡ some r)
room_of w connection v room valid known inside = elim (Option-cases (w.room_at room)) [
  | inl e ↦ absurd (ground (arith, valid.no_dangling connection v room known inside))
  | inr found ↦ found
]

pub leave_current_returns :
    (s : Server) (connection : Ptr) (v : Connection)
    → IsValid s.world
    → s.conn_at connection ≡ some v
    → Returns (leave_current connection s) (λ _ w. IsValid w × InNoRoom connection v w)
unfolding leave_current
leave_current_returns s connection v valid known = elim (Option-cases v.room) [
  | inl out ↦ rw (known, out) (valid, known ∙ ap (λ o. some (record v { room = o })) out)
  | inr (room, inside) ↦
      let (r, there) = room_of s.world connection v room valid known inside in
      rw (known, inside)
        (Returns_mono
          (λ _ w.
            IsValid w
            × InNoRoom connection v w
            × (live (w.room_at room) ≡ (if r.member_count == 1 then 0 else 1)))
          (λ _ w. IsValid w × InNoRoom connection v w) (room_remove_member (some room) connection s)
          (λ _ w (a, b, _). (a, b))
          (remove_member_returns s room connection r v valid there known inside))
]

-- The connection is in a room of that name.
abbrev pub InRoomNamed : Ptr → Connection → Bytes → World → Type 0
InRoomNamed connection v name w =
    (p : Ptr) × (w.conn_at connection ≡ some (record v { room = some p }))
    × (r : Room) × (w.room_at p ≡ some r)
    × (r.name ≡ name)

-- Why a client may not get into the room: all room slots are taken, or a room of that name is full.
abbrev pub Refused : Bytes → World → Type 0
Refused name w =
    (max_rooms ≤ filled w.rooms)
    ⊎ ((p : Ptr) × (r : Room) × (w.room_at p ≡ some r)
        × (r.name ≡ name)
        × (room_capacity ≤ r.member_count))

-- What `/join` leaves: the connection in a room of that name, or refused and in no room
abbrev pub JoinResult : Thread → Connection → Bytes → World → Type 0
JoinResult t v name w =
    IsValid w × (InRoomNamed t.connection v name w ⊎ (InNoRoom t.connection v w × Refused name w))

module _ (t : Thread) (s : Server) (v : Connection) (name : Bytes) (valid : IsValid s.world)
    (known : s.conn_at t.connection ≡ some v) (out : v.room ≡ none) where
  enter_room_returns :
      (room : Ptr) (r : Room)
      → s.room_at room ≡ some r
      → r.name ≡ name
      → r.member_count < room_capacity
      → Returns (enter_room t name room s) (λ _ w. IsValid w × InRoomNamed t.connection v name w)
  unfolding enter_room
  enter_room_returns room r there named space =
      Returns-bind (λ _ w. IsValid w × HasJoined room t.connection v r w) _
        (room_add_member (some room) t.connection s) _
        (add_member_returns s room t.connection r v valid there known out space)
        (λ _ s' (ok, (inside, r', e, same, _)).
          rw (inside, e) (ok, (room, inside, r', e, same ∙ named)))

  still_out : InNoRoom t.connection v s.world
  still_out = known ∙ ap (λ o. some (record v { room = o })) out

  refuse_full_room_returns : Returns (refuse_full_room t name s) (λ _ w. w ≡ s.world)
  unfolding refuse_full_room
  refuse_full_room_returns = rw known refl

  no_room_slot_returns : Returns (no_room_slot t name s) (λ _ w. w ≡ s.world)
  unfolding no_room_slot
  no_room_slot_returns = rw known refl

  enter_or_refuse :
      (room : Ptr) (r : Room)
      → s.room_at room ≡ some r
      → r.name ≡ name
      → Returns (join_found t name (some room) s) (λ _ w. JoinResult t v name w)
  unfolding join_found
  enter_or_refuse room r there named = elim (Bool-cases (leb room_capacity r.member_count)) [
    | inl full ↦
        rw (there, full)
          (Returns_world (JoinResult t v name) (refuse_full_room t name s) refuse_full_room_returns
            (valid, inr (still_out, inr (room, r, there, named, ground arith))))
    | inr space ↦
        rw (there, space)
          (Returns_mono _ (λ _ w. JoinResult t v name w) (enter_room t name room s)
            (λ _ w (ok, h). (ok, inl h)) (enter_room_returns room r there named (ground arith)))
  ]

  nowhere :
      max_rooms ≤ filled s.rooms → Returns (join_found t name none s) (λ _ w. JoinResult t v name w)
  unfolding join_found
  nowhere full =
      Returns_world (JoinResult t v name) (no_room_slot t name s) no_room_slot_returns
        (valid, inr (still_out, inl full))

module _ (t : Thread) (s : Server) (v : Connection) (name : Bytes) (valid : IsValid s.world)
    (known : s.conn_at t.connection ≡ some v) (out : v.room ≡ none) where
  after_create :
      (a : Option Ptr) (s' : Server)
      → IsValid s'.world
      → CreateResult s.world name a s'.world
      → Returns (join_found t name a s') (λ _ w. JoinResult t v name w)
  after_create none s' ok (same, full) =
      nowhere t s' v name ok (ap (λ (w : World). w.conn_at t.connection) same ∙ known) out
        (subst (λ (w : World). max_rooms ≤ filled w.rooms) (sym same) full)
  after_create (some p) s' ok (r, there, named, same) =
      enter_or_refuse t s' v name ok (ap (λ f. f t.connection) same ∙ known) out p r there named

-- `/join` with a room name that fits returns, for a client in a room or in none. The client is then in a
-- room of that name; or in no room, and then a room of that name is full or all room slots are taken.
-- The invariant holds. The address that `calloc` gives must hold no room when it is called.
pub join_room_returns :
    (t : Thread) (s : Server) (v : Connection) (fresh : Ptr) (name : Bytes)
    → IsValid s.world
    → s.conn_at t.connection ≡ some v
    → ((s' : Server) → leave_current t.connection s ≡ some (tt, s') → s'.room_at fresh ≡ none)
    → length name < room_name_len
    → Returns (join_room t (some fresh) name s) (λ _ w. JoinResult t v name w)
unfolding join_room
join_room_returns t s v fresh name valid known unused fits =
    Returns-bind_eq _ (λ _ w. JoinResult t v name w) (leave_current t.connection s) _
      (leave_current_returns s t.connection v valid known)
      (λ _ s' e (ok, gone).
        Returns-bind _ (λ _ w. JoinResult t v name w)
          (room_create (some fresh) name (some t.connection) s') _
          (room_create_returns s' fresh t.connection (record v { room = none }) name ok
            (unused s' e) gone fits)
          (λ a s'' (ok', result).
            after_create t s' (record v { room = none }) name ok gone refl a s'' ok' result))
