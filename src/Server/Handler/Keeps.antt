-- ===== src/Server/Handler/Keeps.antt =====
-- Each command of a client but `/sendfile` returns and keeps the invariant.
use mathlib.Core.Path.{subst}
use chat_app_in_c.Common.{
  ℕ, ◌≡◌, refl, ap, ◌∙◌, Bool, true, false, Option, none, some, ◌==◌, if◌then◌else◌, inl, inr,
  Option-cases, Bool-cases, arith,
}
use chat_app_in_c.CString.{Bytes}
use chat_app_in_c.Server.{Ptr, Connection, World, Server, M, bind_result, pure}
use chat_app_in_c.Server.Names.{is_valid_roomname, is_valid_roomname_iff}
use chat_app_in_c.Server.Rooms.{room_remove_member}
use chat_app_in_c.Server.Rooms.Leaving.{remove_member_returns}
use chat_app_in_c.Server.Connections.Lookup.{UserFound, find_slot_returns}
use chat_app_in_c.Server.Invariant.{live, IsValid, Returns, Returns_mono}
use chat_app_in_c.Server.Handler.{
  Thread, whisper_to, leave_current, join_args, join_room, reject_room_name, leave_room, do_leave,
  broadcast_message, do_unknown,
}
use chat_app_in_c.Server.Handler.Loop.{Supply}
use chat_app_in_c.Server.Handler.Commands.{
  Returns-bind, InNoRoom, JoinResult, room_of, join_room_returns,
}
use chat_app_in_c.Server.Handler.Talk.{
  whisper_to_online, whisper_to_offline, broadcast_in_room, broadcast_outside,
}

-- The invariant holds, and the connection is as it was but for its room pointer.
abbrev pub Kept : Ptr → Connection → World → Type 0
Kept connection v w =
    IsValid w × (o : Option Ptr) × (w.conn_at connection ≡ some (record v { room = o }))

-- The address that `calloc` gives holds no room when the client has left its room.
abbrev pub Fresh : Ptr → Supply → World → Type 0
Fresh connection supply w =
    (fresh : Ptr) × (supply.calloc ≡ some fresh)
    × ((s s' : Server)
        → s.world ≡ w
        → leave_current connection s ≡ some (tt, s')
        → s'.room_at fresh ≡ none)

pub Returns-if :
    {A : Type 0} (Q : A → World → Type 0) (b : Bool) (m k : M A) (s : Server)
    → Returns (m s) Q
    → Returns (k s) Q
    → Returns ((if b then m else k) s) Q
Returns-if Q true m k s h h' = h
Returns-if Q false m k s h h' = h'

pub Returns-then :
    {A B : Type 0} (Q : World → Type 0) (o : Option (A × Server)) (b : B)
    → Returns o (λ _ w. Q w)
    → Returns (bind_result o (λ _. pure b)) (λ _ w. Q w)
Returns-then Q none b h = h
Returns-then Q (some (a, s)) b h = h

module _ (t : Thread) (s : Server) (v : Connection) (valid : IsValid s.world)
    (known : s.conn_at t.connection ≡ some v) where
  pub unchanged : Kept t.connection v s.world
  unchanged = (valid, v.room, known)

  whisper_found :
      (cmd target message : Bytes) (o : Option (ℕ × Ptr))
      → UserFound s.conn_at target s.connections o
      → Returns (whisper_to t cmd (some target) (some message) s) (λ _ w. Kept t.connection v w)
  whisper_found cmd target message none nobody =
      rw
        (whisper_to_offline t s v valid known cmd target message
          (λ p u there. nobody p u (ground (arith, valid.conns_once p)) there))
        unchanged
  whisper_found cmd target message (some (i, p)) (u, there, same, _) =
      subst
        (λ x. Returns (whisper_to t cmd (some x) (some message) s) (λ _ w. Kept t.connection v w))
        same (rw (whisper_to_online t s v valid known cmd message p u there) unchanged)

  pub whisper_keeps :
      (cmd : Bytes) (o o' : Option Bytes)
      → Returns (whisper_to t cmd o o' s) (λ _ w. Kept t.connection v w)
  unfolding whisper_to
  whisper_keeps cmd none o' = unchanged
  whisper_keeps cmd (some target) none = unchanged
  whisper_keeps cmd (some target) (some message) =
      let (o, _, h) = find_slot_returns s target valid in whisper_found cmd target message o h

  pub broadcast_keeps :
      (o : Option Bytes) → Returns (broadcast_message t o s) (λ _ w. Kept t.connection v w)
  unfolding broadcast_message
  broadcast_keeps none = unchanged
  broadcast_keeps (some message) = elim (Option-cases v.room) [
    | inl out ↦ rw (broadcast_outside t s v message known out) unchanged
    | inr (room, inside) ↦
        let (r, there) = room_of s.world t.connection v room valid known inside in
        rw (broadcast_in_room t s v valid known message room r inside there) unchanged
  ]

  -- `/leave` of a connected client of a valid server returns; the client is then in no room, and the
  -- invariant holds.
  pub leave_room_returns :
      (o : Option Ptr)
      → v.room ≡ o
      → Returns (leave_room t v o s) (λ _ w. IsValid w × InNoRoom t.connection v w)
  unfolding leave_room
  leave_room_returns none e = (valid, known ∙ ap (λ x. some (record v { room = x })) e)
  leave_room_returns (some room) e =
      let (r, there) = room_of s.world t.connection v room valid known e in
      rw there (
        Returns-bind
          (λ _ w.
            IsValid w
            × InNoRoom t.connection v w
            × (live (w.room_at room) ≡ (if r.member_count == 1 then 0 else 1)))
          (λ _ w. IsValid w × InNoRoom t.connection v w)
          (room_remove_member (some room) t.connection s) _
          (remove_member_returns s room t.connection r v valid there known e)
          (λ _ s' (a, b, _). (a, b)))

  pub leave_keeps : Returns (do_leave t s) (λ _ w. Kept t.connection v w)
  unfolding do_leave
  leave_keeps = rw known (
      Returns_mono _ (λ _ w. Kept t.connection v w) (leave_room t v v.room s)
        (λ _ w (ok, gone). (ok, none, gone)) (leave_room_returns v.room refl))

  pub unknown_keeps : Returns (do_unknown t s) (λ _ w. Kept t.connection v w)
  unfolding do_unknown
  unknown_keeps = rw known unchanged

  reject_keeps : (name : Bytes) → Returns (reject_room_name t name s) (λ _ w. Kept t.connection v w)
  unfolding reject_room_name
  reject_keeps name = rw known unchanged

  pub join_keeps :
      (fresh : Ptr)
      → ((s' : Server) → leave_current t.connection s ≡ some (tt, s') → s'.room_at fresh ≡ none)
      → (o o' : Option Bytes)
      → Returns (join_args t (some fresh) o o' s) (λ _ w. Kept t.connection v w)
  unfolding join_args
  join_keeps fresh unused none o' = unchanged
  join_keeps fresh unused (some name) (some extra) = unchanged
  join_keeps fresh unused (some name) none = elim (Bool-cases (is_valid_roomname name)) [
    | inl good ↦ rw good (
        Returns_mono (λ _ w. JoinResult t v name w) (λ _ w. Kept t.connection v w)
          (join_room t (some fresh) name s) (λ _ w. where_it_is w)
          (join_room_returns t s v fresh name valid known unused
            (ground (arith, is_valid_roomname_iff name))))
    | inr bad ↦ rw bad (reject_keeps name)
  ]
    where
      where_it_is : (w : World) → JoinResult t v name w → Kept t.connection v w
      where_it_is w (ok, inl (p, inside, _, _, _)) = (ok, some p, inside)
      where_it_is w (ok, inr (gone, _)) = (ok, none, gone)
