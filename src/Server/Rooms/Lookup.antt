-- ===== src/Server/Rooms/Lookup.antt =====
-- `room_find` and `room_create` on valid tables.
use chat_app_in_c.Common.{
  ℕ, ◌<◌, ◌≤◌, ◌≡◌, refl, ◌∙◌, false, Option, none, some, ◌≢◌, inl, inr, [], ◌∷◌, Bool-cases,
  Option-cases, length, set, arith, length-take, take-all, length-replicate,
}
use chat_app_in_c.CString.{Bytes, str_eq, str_eq_iff}
use chat_app_in_c.Server.{
  Ptr, Room, Connection, World, Server, room_capacity, room_name_len, update, max_rooms,
}
use chat_app_in_c.Server.Rooms.{
  find_free, find_room, room_find, new_room, create_at, create_unless, room_create, points_to,
}
use chat_app_in_c.Server.Rooms.Slots.{
  Slots, uses, filled, Gains, find_free-Gains, find_free-some, uses-replicate, filled-replicate,
}
use chat_app_in_c.Server.Invariant.{live, in_room, RoomIsValid, IsValid, Returns}

-- A search by name found the first listed room with that name, or there is none.
abbrev pub Found : (Ptr → Option Room) → Bytes → Slots → Option Ptr → Type 0
Found heap name slots none =
    (p : Ptr) (r : Room) → 0 < uses p slots → heap p ≡ some r → r.name ≢ name
Found heap name slots (some p) =
    (r : Room) × (heap p ≡ some r) × (r.name ≡ name) × (0 < uses p slots)

module _ (heap : Ptr → Option Room) (name : Bytes) where
  Found-none :
      (slots : Slots) (o : Option Ptr) → Found heap name slots o → Found heap name (none ∷ slots) o
  unfolding uses
  Found-none slots none h = h
  Found-none slots (some p) h = h

  Found-skip :
      (q : Ptr) (s : Room) (slots : Slots) (o : Option Ptr)
      → heap q ≡ some s
      → str_eq s.name name ≡ false
      → Found heap name slots o
      → Found heap name (some q ∷ slots) o
  unfolding uses
  Found-skip q s slots none e miss h =
      λ p r used there same. ground (arith, h p r, str_eq_iff s.name name)
  Found-skip q s slots (some p) e miss (r, there, same, used) =
      (r, there, same, omega (arith, used))

  -- If every slot points to a room, the loop of `room_find` reads no freed one.
  find_room-Found :
      (slots : Slots)
      → ((p : Ptr) → 0 < uses p slots → live (heap p) ≡ 1)
      → (o : Option Ptr) × (find_room heap name slots ≡ some o) × Found heap name slots o
  unfolding find_room uses
  find_room-Found [] safe = (none, refl, λ p r used. absurd (omega arith))
  find_room-Found (none ∷ slots) safe =
      let (o, e, h) = find_room-Found slots safe in (o, e, Found-none slots o h)
  find_room-Found (some q ∷ slots) safe = elim (Option-cases (heap q)) [
    | inl e ↦ absurd (ground (arith, safe q))
    | inr (s, e) ↦ elim (Bool-cases (str_eq s.name name)) [
      | inl hit ↦
          (some q, rw (e, find_room, hit), (s, e, (str_eq_iff s.name name).0 hit, ground arith))
      | inr miss ↦
          let (o, eq, h) = find_room-Found slots (λ p used. safe p (omega (arith, used))) in
          (o, rw (e, find_room, miss) eq, Found-skip q s slots o e miss h)
    ]
  ]

-- `room_find` on valid tables returns, changes nothing, and finds a room with that name if there is one.
pub room_find_returns :
    (s : Server) (name : Bytes)
    → IsValid s.world
    → (o : Option Ptr) × (room_find name s ≡ some (o, s)) × Found s.room_at name s.rooms o
unfolding room_find
room_find_returns s name valid =
    let (o, e, h) = find_room-Found s.room_at name s.rooms listed in (o, rw e, h)
  where
    listed : (p : Ptr) → 0 < uses p s.rooms → live (s.room_at p) ≡ 1
    listed p used = ground (arith, valid.rooms_once p)

-- The tables and heap with a new room at `p`, in the slot `i`
abbrev pub created : World → Ptr → ℕ → Bytes → World
created w p i name = record w {
  room_at = update w.room_at p (some (new_room name));
  rooms = set w.rooms i (some p);
}

new_room-RoomIsValid : (name : Bytes) → RoomIsValid (new_room name)
new_room-RoomIsValid name = record {
  size = length-replicate {A = Option Ptr} room_capacity none;
  counted = filled-replicate room_capacity;
  name_fits = omega (arith, length-take 31 name);
}

module _ (w : World) (p : Ptr) (valid : IsValid w) (fresh : w.room_at p ≡ none) where
  -- No connection points at an address that holds no room.
  nobody_at : (c : Ptr) → in_room (w.conn_at c) p ≡ 0
  nobody_at c = elim (Option-cases (w.conn_at c)) [
    | inl e ↦ rw e
    | inr (v, e) ↦ elim (Bool-cases (points_to v.room p)) [
      | inl here ↦ absurd (ground (arith, valid.no_dangling c v p e))
      | inr elsewhere ↦ rw (e, elsewhere)
    ]
  ]

  created-IsValid :
      (i : ℕ) (name : Bytes)
      → Gains p w.rooms (set w.rooms i (some p))
      → IsValid (created w p i name)
  created-IsValid i name gains = record {
    conns_size = valid.conns_size;
    rooms_size = gains.size ∙ valid.rooms_size;
    conns_once = valid.conns_once;
    rooms_once = λ q. ground (arith, valid.rooms_once q, gains.gained q);
    rooms_valid = λ q r e. ground (arith, valid.rooms_valid q r, new_room-RoomIsValid name);
    members_agree = λ q r e c. ground (
      arith,
      λ (h : w.room_at q ≡ some r). valid.members_agree q r h c,
      nobody_at c,
      uses-replicate room_capacity c,
    );
    no_dangling = λ c v q e f. ground (arith, valid.no_dangling c v q e f);
    users_fit = valid.users_fit;
    users_distinct = valid.users_distinct;
  }

-- What `room_create` may answer: NULL, if every slot is taken, with nothing changed; or a room with the
-- wanted name, every connection being as it was.
abbrev pub CreateResult : World → Bytes → Option Ptr → World → Type 0
CreateResult w name none w' = (w' ≡ w) × (max_rooms ≤ filled w.rooms)
CreateResult w name (some p) w' =
    (r : Room) × (w'.room_at p ≡ some r) × (r.name ≡ name) × (w'.conn_at ≡ w.conn_at)

module _ (s : Server) (fresh connection : Ptr) (v : Connection) (name : Bytes)
    (valid : IsValid s.world) (unused : s.room_at fresh ≡ none)
    (known : s.conn_at connection ≡ some v) (fits : length name < room_name_len) where
  created_here :
      (i : ℕ)
      → Gains fresh s.rooms (set s.rooms i (some fresh))
      → CreateResult s.world name (some fresh) (created s.world fresh i name)
  created_here i gains = (new_room name, ground arith, take-all 31 name (omega arith), refl)

  pub create_at_returns :
      (o : Option ℕ)
      → find_free s.rooms ≡ o
      → Returns
          (create_at (some fresh) name connection o s)
          (λ a w. IsValid w × CreateResult s.world name a w)
  unfolding create_at
  create_at_returns none e = rw known (valid, (refl, ground (arith, full)))
    where
      full : (filled s.rooms < length s.rooms) → ⊥
      full h = let (i, found, gains) = find_free-Gains fresh s.rooms h in cc
  create_at_returns (some i) e =
      let gains = find_free-some fresh s.rooms i e in
      rw known (created-IsValid s.world fresh valid unused i name gains, created_here i gains)

  create_unless_returns :
      (o : Option Ptr)
      → Found s.room_at name s.rooms o
      → Returns
          (create_unless (some fresh) name connection o s)
          (λ a w. IsValid w × CreateResult s.world name a w)
  unfolding create_unless
  create_unless_returns (some p) (r, there, same, used) = (valid, (r, there, same, refl))
  create_unless_returns none h = create_at_returns (find_free s.rooms) refl

  -- `room_create` on a valid server, for a connection that is there, a name that fits and with memory for
  -- a new room, returns: it finds the room of that name or creates it, or answers NULL because all room
  -- slots are taken. The invariant holds afterwards.
  pub room_create_returns :
      Returns
        (room_create (some fresh) name (some connection) s)
        (λ a w. IsValid w × CreateResult s.world name a w)
  unfolding room_create
  room_create_returns =
      let (o, e, h) = room_find_returns s name valid in rw e (create_unless_returns o h)
