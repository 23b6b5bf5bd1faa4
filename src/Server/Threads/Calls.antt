-- ===== src/Server/Threads/Calls.antt =====
-- Each call of a thread inside `/join` and the clean-up keeps the tables valid.
use mathlib.Core.Path.{subst}
use chat_app_in_c.Common.{
  ◌<◌, ◌≡◌, refl, sym, ap, ◌∙◌, ◌≢◌, inl, inr, Bool, true, false, Option, none, some, leb,
  if◌then◌else◌, Bool-cases, Option-cases, length, arith,
}
use chat_app_in_c.CString.{Bytes}
use chat_app_in_c.Server.{
  Ptr, Connection, World, Server, M, pure, bind_result, ◌>>◌, room_capacity, room_name_len, update,
}
use chat_app_in_c.Server.Rooms.{
  find_free, create_at, find_room, room_find, create_unless, room_add_member,
}
use chat_app_in_c.Server.Rooms.Lookup.{CreateResult, create_at_returns}
use chat_app_in_c.Server.Rooms.Members.{HasJoined, add_member_returns, add_member_full}
use chat_app_in_c.Server.Invariant.{IsValid, Returns}
use chat_app_in_c.Server.Handler.{
  Thread, leave_current, no_room_slot, refuse_full_room, tell_joined,
}
use chat_app_in_c.Server.Handler.Loop.{close_down}
use chat_app_in_c.Server.Handler.Commands.{InNoRoom, leave_current_returns}
use chat_app_in_c.Server.Handler.Ending.{close_down_returns}
use chat_app_in_c.Server.Frames.{Others, Others-refl, others, Framed}
use chat_app_in_c.Server.Frames.Rooms.{create_unless-Framed, room_add_member-Framed}
use chat_app_in_c.Server.Frames.Handler.{leave_current-Framed}
use chat_app_in_c.Server.Threads.{
  Place, between, closing, outside, searched, found, tested, entered, test_capacity, advance,
}
use chat_app_in_c.Server.Threads.Held.{OutOfRoom, Held, Moves}

-- Behind a call that leaves what `P` says
Moves-bind :
    {A : Type 0} (c : Ptr) (w : World) (P : A → World → Type 0) (o : Option (A × Server))
    (f : A → M Place)
    → Returns o P
    → ((a : A) (s : Server) → P a s.world → Moves c w (f a s))
    → Moves c w (bind_result o f)
Moves-bind c w P none f h k = absurd h
Moves-bind c w P (some (a, s)) f h k = k a s h

Returns-Framed :
    {A : Type 0} (c : Ptr) (w : World) (P : A → World → Type 0) (o : Option (A × Server))
    → Returns o P
    → Framed c (others c w) o
    → Returns o (λ a w'. P a w' × Others c w w')
Returns-Framed c w P none h k = h
Returns-Framed c w P (some (a, s)) h k = (h, k)

add_member-freed :
    (s : Server) (room connection : Ptr)
    → s.room_at room ≡ none
    → room_add_member (some room) connection s ≡ none
unfolding room_add_member
add_member-freed s room connection e = rw e refl

Moves-if :
    (c : Ptr) (w : World) (b : Bool) (m k : M Place) (s : Server)
    → Moves c w (m s)
    → Moves c w (k s)
    → Moves c w ((if b then m else k) s)
Moves-if c w true m k s h h' = h
Moves-if c w false m k s h h' = h'

module _ (t : Thread) (s : Server) (v : Connection) (valid : IsValid s.world)
    (known : s.conn_at t.connection ≡ some v) where
  abbrev c : Ptr
  c = t.connection

  closing-Moves : v.room ≡ none → Moves c s.world (advance t none closing s)
  unfolding advance
  closing-Moves out =
      Moves-bind c s.world (λ _ w. IsValid w × (w.conn_at ≡ update s.conn_at c none))
        (close_down t s) _ (close_down_returns t s v valid known out)
        (λ _ s' (ok, e). (ok, tt, λ d other. ap (λ g. g d) e ∙ ground arith))

  -- Behind a call that changes nothing
  told :
      (o : Option (Unit {0} × Server)) (place : Place)
      → Returns o (λ _ w. w ≡ s.world)
      → Held place (s.conn_at c)
      → Moves c s.world (bind_result o (λ _. pure place))
  told o place h mine =
      Moves-bind c s.world (λ _ w. w ≡ s.world) o (λ _. pure place) h
        (λ _ s' e.
          subst (λ w. IsValid w × Held place (w.conn_at c) × Others c s.world w) (sym e)
            (valid, mine, Others-refl c s.world))

  searched-Moves :
      (name : Bytes)
      → v.room ≡ none
      → length name < room_name_len
      → (fresh : Ptr) → s.room_at fresh ≡ none
      → (room : Option Ptr) → Moves c s.world (advance t (some fresh) (searched name room) s)
  unfolding advance create_unless
  searched-Moves name out fits fresh unused (some p) =
      (valid, (v, known, out), Others-refl c s.world)
  searched-Moves name out fits fresh unused none =
      Moves-bind c s.world (λ a w. (IsValid w × CreateResult s.world name a w) × Others c s.world w)
        (create_at (some fresh) name c (find_free s.rooms) s) _
        (Returns-Framed c s.world (λ a w. IsValid w × CreateResult s.world name a w) _
          (create_at_returns s fresh c v name valid unused known fits (find_free s.rooms) refl)
          (create_unless-Framed c (others c s.world) (some fresh) name none s
            (Others-refl c s.world)))
        (λ room s' ((ok, made), others). (ok, (v, unmoved room s'.world made, out), others))
    where
      unmoved :
          (room : Option Ptr) (w : World) → CreateResult s.world name room w → w.conn_at c ≡ some v
      unmoved none w (same, _) = subst (λ x. x.conn_at c ≡ some v) (sym same) known
      unmoved (some p) w (_, _, _, same) = ap (λ g. g c) same ∙ known

  tested-Moves :
      (name : Bytes) (room : Ptr)
      → v.room ≡ none
      → Moves c s.world (advance t none (tested name room) s)
  unfolding advance
  tested-Moves name room out = elim (Option-cases (s.room_at room)) [
    | inl e ↦ rw (add_member-freed s room c e) tt
    | inr (r, e) ↦ elim (Bool-cases (leb room_capacity r.member_count)) [
      | inl full ↦
          told (room_add_member (some room) c s) (entered name room)
            (add_member_full s room c r v e known (ground arith)) (v, known, inl out)
      | inr space ↦
          Moves-bind c s.world (λ _ w. (IsValid w × HasJoined room c v r w) × Others c s.world w)
            (room_add_member (some room) c s) _
            (Returns-Framed c s.world (λ _ w. IsValid w × HasJoined room c v r w) _
              (add_member_returns s room c r v valid e known out (ground arith))
              (room_add_member-Framed c (others c s.world) (some room) s (Others-refl c s.world)))
            (λ _ s' ((ok, (joined, _, _, _, _)), others). (ok, (_, joined, inr refl), others))
    ]
  ]

  entered-Moves :
      (name : Bytes) (room : Ptr) → Moves c s.world (advance t none (entered name room) s)
  unfolding advance tell_joined
  entered-Moves name room = elim (Option-cases (s.room_at room)) [
    | inl e ↦ rw (known, e) tt
    | inr (r, e) ↦ rw (known, e) (valid, tt, Others-refl c s.world)
  ]

  found-Moves :
      (name : Bytes) (room : Option Ptr)
      → v.room ≡ none
      → Moves c s.world (advance t none (found name room) s)
  unfolding advance test_capacity no_room_slot refuse_full_room
  found-Moves name none out = rw known (valid, tt, Others-refl c s.world)
  found-Moves name (some room) out = elim (Option-cases (s.room_at room)) [
    | inl e ↦ rw e tt
    | inr (r, e) ↦ rw e (
        Moves-if c s.world (leb room_capacity r.member_count)
          (refuse_full_room t name >> pure between) (pure (tested name room)) s
          (rw known (valid, tt, Others-refl c s.world))
          (valid, (v, known, out), Others-refl c s.world))
  ]

  outside-Moves :
      (name : Bytes)
      → v.room ≡ none
      → length name < room_name_len
      → Moves c s.world (advance t none (outside name) s)
  unfolding advance room_find
  outside-Moves name out fits = elim (Option-cases (find_room s.room_at name s.rooms)) [
    | inl e ↦ rw e tt
    | inr (room, e) ↦ rw e (valid, ((v, known, out), fits), Others-refl c s.world)
  ]

-- The next call of a thread inside `/join` or the clean-up, if it returns, keeps the tables valid and
-- changes no connection but its own.
pub advance-Moves :
    (t : Thread) (s : Server) (fresh : Ptr) (place : Place)
    → IsValid s.world
    → s.room_at fresh ≡ none
    → Held place (s.conn_at t.connection)
    → place ≢ between
    → Moves t.connection s.world (advance t (some fresh) place s)
unfolding advance
advance-Moves t s fresh between valid unused held busy = absurd (busy refl)
advance-Moves t s fresh closing valid unused (v, known, out) busy =
    closing-Moves t s v valid known out
advance-Moves t s fresh (outside name) valid unused ((v, known, out), fits) busy =
    outside-Moves t s v valid known name out fits
advance-Moves t s fresh (searched name room) valid unused ((v, known, out), fits) busy =
    searched-Moves t s v valid known name out fits fresh unused room
advance-Moves t s fresh (found name room) valid unused (v, known, out) busy =
    found-Moves t s v valid known name room out
advance-Moves t s fresh (tested name room) valid unused (v, known, out) busy =
    tested-Moves t s v valid known name room out
advance-Moves t s fresh (entered name room) valid unused (v, known, out) busy =
    entered-Moves t s v valid known name room

-- So does the first call of `/join`, and of the clean-up.
pub begin-Moves :
    (t : Thread) (s : Server) (v : Connection) (place : Place)
    → IsValid s.world
    → s.conn_at t.connection ≡ some v
    → ((o : Option Connection) → OutOfRoom o → Held place o)
    → Moves t.connection s.world (bind_result (leave_current t.connection s) (λ _. pure place))
begin-Moves t s v place valid known may =
    Moves-bind t.connection s.world
      (λ _ w. (IsValid w × InNoRoom t.connection v w) × Others t.connection s.world w)
      (leave_current t.connection s) _
      (Returns-Framed t.connection s.world (λ _ w. IsValid w × InNoRoom t.connection v w) _
        (leave_current_returns s t.connection v valid known)
        (leave_current-Framed t (others t.connection s.world) s (Others-refl t.connection s.world)))
      (λ _ s' ((ok, gone), others). (ok, may _ (_, gone, refl), others))
