-- ===== src/Server/Threads/Safe.antt =====
-- The next call of a thread is defined as long as the room that it holds is there.
use chat_app_in_c.Common.{◌≡◌, refl, inl, inr, Option, none, some, leb, Bool-cases, arith}
use chat_app_in_c.Queue.{FileQueue}
use chat_app_in_c.Server.{Ptr, Room, World, Server, M, bind_result, room_capacity, update}
use chat_app_in_c.Server.Rooms.{find_free, create_at, create_unless, room_find, room_add_member}
use chat_app_in_c.Server.Rooms.Lookup.{CreateResult, room_find_returns, create_at_returns}
use chat_app_in_c.Server.Rooms.Members.{HasJoined, add_member_returns, add_member_full}
use chat_app_in_c.Server.Invariant.{IsValid, Returns}
use chat_app_in_c.Server.Handler.{Thread, no_room_slot, refuse_full_room, tell_joined}
use chat_app_in_c.Server.Handler.Loop.{close_down}
use chat_app_in_c.Server.Handler.Ending.{close_down_returns}
use chat_app_in_c.Server.Steps.{started}
use chat_app_in_c.Server.Threads.{
  Place, between, closing, outside, searched, found, tested, entered, Places, test_capacity,
  advance, Turns,
}
use chat_app_in_c.Server.Threads.Held.{Held}
use chat_app_in_c.Server.Threads.Reached.{reached-AllHeld}

-- The room that the thread holds, if it holds one, has not been freed.
abbrev pub RoomIsThere : Place → World → Type 0
RoomIsThere (found name (some room)) w = (r : Room) × (w.room_at room ≡ some r)
RoomIsThere (tested name room) w = (r : Room) × (w.room_at room ≡ some r)
RoomIsThere (entered name room) w = (r : Room) × (w.room_at room ≡ some r)
RoomIsThere _ w = Unit

-- The action returns.
abbrev pub IsDefined : {A : Type 0} → Option (A × Server) → Type 0
IsDefined {A} o = (a : A) × (s : Server) × (o ≡ some (a, s))

defined :
    {A B : Type 0} (Q : A → World → Type 0) (o : Option (A × Server)) (f : A → M B)
    → Returns o Q
    → ((a : A) (s : Server) → IsDefined (f a s))
    → IsDefined (bind_result o f)
defined Q none f h k = absurd h
defined Q (some (a, s)) f h k = k a s

place-IsDefined :
    (t : Thread) (s : Server) (fresh : Ptr) (place : Place)
    → IsValid s.world
    → s.room_at fresh ≡ none
    → Held place (s.conn_at t.connection)
    → RoomIsThere place s.world
    → IsDefined (advance t (some fresh) place s)
unfolding advance room_find create_unless test_capacity no_room_slot refuse_full_room tell_joined
place-IsDefined t s fresh between valid unused held there = (between, s, refl)
place-IsDefined t s fresh closing valid unused (v, known, out) there =
    defined (λ _ w. IsValid w × (w.conn_at ≡ update s.conn_at t.connection none)) (close_down t s) _
      (close_down_returns t s v valid known out) (λ _ s'. (between, s', refl))
place-IsDefined t s fresh (outside name) valid unused held there =
    let (o, e, _) = room_find_returns s name valid in rw e (searched name o, s, refl)
place-IsDefined t s fresh (searched name (some room)) valid unused held there =
    (found name (some room), s, refl)
place-IsDefined t s fresh (searched name none) valid unused ((v, known, out), fits) there =
    defined (λ a w. IsValid w × CreateResult s.world name a w)
      (create_at (some fresh) name t.connection (find_free s.rooms) s) _
      (create_at_returns s fresh t.connection v name valid unused known fits (find_free s.rooms)
        refl)
      (λ room s'. (found name room, s', refl))
place-IsDefined t s fresh (found name none) valid unused (v, known, out) there =
    rw known (between, _, refl)
place-IsDefined t s fresh (found name (some room)) valid unused (v, known, out) (r, there) =
    elim (Bool-cases (leb room_capacity r.member_count)) [
      | inl full ↦ rw (there, full, known) (between, _, refl)
      | inr space ↦ rw (there, space) (tested name room, s, refl)
    ]
place-IsDefined t s fresh (tested name room) valid unused (v, known, out) (r, there) =
    elim (Bool-cases (leb room_capacity r.member_count)) [
      | inl full ↦
          defined (λ _ w. w ≡ s.world) (room_add_member (some room) t.connection s) _
            (add_member_full s room t.connection r v there known (ground arith))
            (λ _ s'. (entered name room, s', refl))
      | inr space ↦
          defined (λ _ w. IsValid w × HasJoined room t.connection v r w)
            (room_add_member (some room) t.connection s) _
            (add_member_returns s room t.connection r v valid there known out (ground arith))
            (λ _ s'. (entered name room, s', refl))
    ]
place-IsDefined t s fresh (entered name room) valid unused (v, known, _) (r, there) =
    rw (known, there) (between, _, refl)

-- In every state that the server reaches from its start, the threads taking turns in any order between
-- the calls of `/join` and of the clean-up, the next call of a thread is defined if the room that it
-- holds, if any, has not been freed. `calloc` gives memory that is not in use.
pub next_call-IsDefined :
    {q : FileQueue} {s : Server} {f : Places} (t : Thread) (fresh : Ptr)
    → Turns (started q) (λ _. between) s f
    → s.room_at fresh ≡ none
    → RoomIsThere (f t.connection) s.world
    → IsDefined (advance t (some fresh) (f t.connection) s)
next_call-IsDefined {q} {s} {f} t fresh turns unused there =
    let all = reached-AllHeld turns in
    place-IsDefined t s fresh (f t.connection) all.valid unused (all.held t.connection) there
