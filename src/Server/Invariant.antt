-- ===== src/Server/Invariant.antt =====
-- The invariant of the server's tables and heap, and what it means for an action to return.
use chat_app_in_c.Common.{arith, ℕ, ◌<◌, ◌≡◌, sym, Option, none, some, length}
use mathlib.Core.Path.{subst}
use chat_app_in_c.CString.{Bytes}
use chat_app_in_c.Server.{
  Ptr, Room, Connection, World, Server, max_conn, max_rooms, room_capacity, room_name_len,
  username_len, update,
}
use chat_app_in_c.Server.Rooms.{points_to}
use chat_app_in_c.Server.Rooms.Slots.{uses, filled, one_if}

-- 1 for an object that is there, 0 for none
abbrev pub live {ℓ} : {A : Type ℓ} → Option A → ℕ
live none = 0
live (some a) = 1

-- 1 for a connection whose room pointer is `p`
abbrev pub in_room : Option Connection → Ptr → ℕ
in_room none p = 0
in_room (some v) p = one_if (points_to v.room p)

-- The name of a user that is there
abbrev pub name_of : Option Connection → Option Bytes
name_of none = none
name_of (some v) = some v.username

-- The array and the counter of a room agree, and its name fits.
pub record RoomIsValid (r : Room) : Type 0 where
  pub size : length r.members ≡ room_capacity
  pub counted : filled r.members ≡ r.member_count
  pub name_fits : length r.name < room_name_len

-- Each live object stands in exactly one slot of its table, and every slot points to a live object. A
-- room's members are exactly the connections whose room pointer is that room, each once. No room
-- pointer dangles.
pub record IsValid (w : World) : Type 0 where
  pub conns_size : length w.connections ≡ max_conn
  pub rooms_size : length w.rooms ≡ max_rooms
  pub conns_once : (c : Ptr) → uses c w.connections ≡ live (w.conn_at c)
  pub rooms_once : (p : Ptr) → uses p w.rooms ≡ live (w.room_at p)
  pub rooms_valid : (p : Ptr) (r : Room) → w.room_at p ≡ some r → RoomIsValid r
  pub members_agree :
      (p : Ptr) (r : Room)
      → w.room_at p ≡ some r
      → (c : Ptr) → uses c r.members ≡ in_room (w.conn_at c) p
  pub no_dangling :
      (c : Ptr) (v : Connection) (p : Ptr)
      → w.conn_at c ≡ some v
      → v.room ≡ some p
      → live (w.room_at p) ≡ 1
  pub users_fit : (c : Ptr) (n : Bytes) → name_of (w.conn_at c) ≡ some n → length n < username_len
  pub users_distinct :
      (c d : Ptr) (n : Bytes)
      → name_of (w.conn_at c) ≡ some n
      → name_of (w.conn_at d) ≡ some n
      → c ≡ d

-- A new room pointer leaves the user's name as it was.
pub name_of-update :
    (w : World) (connection : Ptr) (v : Connection) (room : Option Ptr)
    → w.conn_at connection ≡ some v
    → (c : Ptr)
    → name_of (update w.conn_at connection (some (record v { room = room })) c)
      ≡ name_of (w.conn_at c)
name_of-update w connection v room known c = ground arith

-- The action returns, that is, does nothing undefined, and its result and the tables and heap after it
-- satisfy the condition.
abbrev pub Returns : {A : Type 0} → Option (A × Server) → (A → World → Type 0) → Type 0
Returns none Q = ⊥
Returns (some (a, s)) Q = Q a s.world

pub Returns_mono :
    {A : Type 0} (P Q : A → World → Type 0) (o : Option (A × Server))
    → ((a : A) (w : World) → P a w → Q a w)
    → Returns o P
    → Returns o Q
Returns_mono P Q none k h = h
Returns_mono P Q (some (a, s)) k h = k a s.world h

-- From the tables and heap that an action leaves, what holds of them
pub Returns_world :
    {A : Type 0} (Q : World → Type 0) (o : Option (A × Server)) {w : World}
    → Returns o (λ _ w'. w' ≡ w)
    → Q w
    → Returns o (λ _ w'. Q w')
Returns_world Q none h q = h
Returns_world Q (some (a, s)) h q = subst Q (sym h) q

-- What an action that returns is known to leave holds of what it has left.
pub Returns_result :
    {A : Type 0} (Q : World → Type 0) (o : Option (A × Server)) (a : A) (s : Server)
    → o ≡ some (a, s)
    → Returns o (λ _ w. Q w)
    → Q s.world
Returns_result Q o a s e h = subst (λ x. Returns x (λ _ w. Q w)) e h
