-- ===== src/Server/Handler/Talk.antt =====
-- `/whisper` and `/broadcast`: what the server writes, and to whom.
use chat_app_in_c.Common.{
  ℕ, ◌+◌, ◌-◌, ◌<◌, ◌≤◌, ◌≡◌, refl, Option, none, some, ◌≢◌, List, [], ◌∷◌, ◌++◌, length, take,
}
use chat_app_in_c.CString.{Bytes}
use chat_app_in_c.Server.{Ptr, Room, Connection, Server, Event, write_formatted}
use chat_app_in_c.Server.Message
use chat_app_in_c.Server.Rooms.Broadcast.{
  deliveries, room_broadcast_lem, times, notices, room_broadcast-notices, chat_line_whole,
  chat_line_over,
}
use chat_app_in_c.Server.Rooms.{room_broadcast}
use mathlib.Core.Path.{subst, fun_ext}
use chat_app_in_c.Server.Connections.{find_slot, find_connection}
use chat_app_in_c.Server.Connections.Lookup.{
  UserFound, find_slot_returns, find_own_slot, broadcast_message_via_notify_lem,
}
use chat_app_in_c.Server.Invariant.{in_room, IsValid}
use chat_app_in_c.Server.Handler.{
  Thread, whisper_to, whisper_online, whisper_offline, broadcast_message, broadcast_no_room,
}

-- What the server has done with a whisper to an online user, newest first
abbrev pub whisper_trace : Connection → Connection → Bytes → Bytes → List Event → List Event
whisper_trace v u cmd message older =
    write_formatted u.notify_writer (Message.chat_line v.username message)
    ∷ Event.printed (Message.whispered v u.username)
    ∷ Event.logged (Message.whispered v u.username)
    ∷ Event.printed (Message.whisper_out cmd v u.username message)
    ∷ older

module _ (t : Thread) (s : Server) (v : Connection) (valid : IsValid s.world)
    (known : s.conn_at t.connection ≡ some v) where
  pub whisper_to_online :
      (cmd message : Bytes) (p : Ptr) (u : Connection)
      → s.conn_at p ≡ some u
      → whisper_to t cmd (some u.username) (some message) s
        ≡ some (tt, record s { trace = whisper_trace v u cmd message s.trace })
  unfolding whisper_to whisper_online find_connection
  whisper_to_online cmd message p u there =
      let (i, e, _) = find_own_slot s p u valid there in
      rw (e, known)
        (broadcast_message_via_notify_lem
          (record s {
            trace =
                Event.printed (Message.whispered v u.username)
                ∷ Event.logged (Message.whispered v u.username)
                ∷ Event.printed (Message.whisper_out cmd v u.username message)
                ∷ s.trace;
          })
          p u v.username message valid there)

  -- `/whisper` to a name that nobody has returns: the client is told so, and nothing else is sent.
  pub whisper_to_offline :
      (cmd target message : Bytes)
      → ((p : Ptr) (u : Connection) → s.conn_at p ≡ some u → u.username ≢ target)
      → whisper_to t cmd (some target) (some message) s
        ≡ some (
          tt,
          record s {
            trace =
                Event.printed (Message.whispered_offline v target)
                ∷ Event.logged (Message.whispered_offline v target)
                ∷ Event.sent t.tcp_fd (Message.not_online target)
                ∷ s.trace;
          },
        )
  unfolding whisper_to whisper_offline find_connection
  whisper_to_offline cmd target message nobody = go (find_slot_returns s target valid)
    where
      go :
          (o : Option (ℕ × Ptr)) × (find_slot target s ≡ some (o, s))
            × UserFound s.conn_at target s.connections o
          → whisper_to t cmd (some target) (some message) s
            ≡ some (
              tt,
              record s {
                trace =
                    Event.printed (Message.whispered_offline v target)
                    ∷ Event.logged (Message.whispered_offline v target)
                    ∷ Event.sent t.tcp_fd (Message.not_online target)
                    ∷ s.trace;
              },
            )
      go (none, e, h) = rw (e, known) refl
      go (some (i, p), e, (c, there, same, _)) = absurd (nobody p c there same)

  -- `/broadcast` of a client in a room returns, and only the trace changes.
  pub broadcast_in_room :
      (message : Bytes) (room : Ptr) (r : Room)
      → v.room ≡ some room
      → s.room_at room ≡ some r
      → broadcast_message t (some message) s
        ≡ some (
          tt,
          record s {
            trace = deliveries s.conn_at (Message.chat_line v.username message) r.members s.trace;
          },
        )
  unfolding broadcast_message
  broadcast_in_room message room r inside there =
      rw (known, inside) (room_broadcast_lem s room r v.username message valid there).0

-- `/broadcast` of a client in a room of a valid server, whose line `[user] message` has at most 4095 bytes:
-- it returns, and it writes exactly that line, once to the notify socket of each connection whose room
-- pointer is the room, the client's own included, and nothing else; tables and queue stay as they are.
pub broadcast_reaches_members :
    (t : Thread) (s : Server) (v : Connection) (message : Bytes) (room : Ptr) (r : Room)
    → IsValid s.world
    → s.conn_at t.connection ≡ some v
    → v.room ≡ some room
    → s.room_at room ≡ some r
    → length v.username + length message ≤ 4091
    → (ps : List Ptr) × ((d : Ptr) → times d ps ≡ in_room (s.conn_at d) room)
      × (broadcast_message t (some message) s
          ≡ some (
            tt,
            record s {
              trace =
                  notices s.conn_at
                    (λ fd. Event.written fd (Message.chat_line v.username message))
                    ps
                  ++ s.trace;
            },
          ))
unfolding broadcast_message
broadcast_reaches_members t s v message room r valid known inside there short =
    let (ps, counted, e) = room_broadcast-notices s room r v.username message valid there in
    (
      ps,
      counted,
      rw (known, inside)
          (subst
            (λ (note : ℕ → Event).
              room_broadcast (some room) v.username message s
              ≡ some (tt, record s { trace = notices s.conn_at note ps ++ s.trace }))
            (fun_ext λ fd. chat_line_whole fd v.username message short) e),
    )

-- `/broadcast` of a client in a room of a valid server, whose line `[user] message` has more than 4095
-- bytes: it writes, to the notify socket of each connection whose room pointer is the room, the client's
-- own included, the first 4095 bytes of the line and a zero, and behind them as many bytes of the memory
-- behind the buffer as the line is longer than 4096 bytes.
pub broadcast_overreads :
    (t : Thread) (s : Server) (v : Connection) (message : Bytes) (room : Ptr) (r : Room)
    → IsValid s.world
    → s.conn_at t.connection ≡ some v
    → v.room ≡ some room
    → s.room_at room ≡ some r
    → 4091 < length v.username + length message
    → (ps : List Ptr) × ((d : Ptr) → times d ps ≡ in_room (s.conn_at d) room)
      × (broadcast_message t (some message) s
          ≡ some (
            tt,
            record s {
              trace =
                  notices s.conn_at
                    (λ fd.
                      Event.written_past fd
                        (take 4095 (Message.chat_line v.username message) ++ 0 ∷ [])
                        (length v.username + length message - 4092))
                    ps
                  ++ s.trace;
            },
          ))
unfolding broadcast_message
broadcast_overreads t s v message room r valid known inside there long =
    let (ps, counted, e) = room_broadcast-notices s room r v.username message valid there in
    (
      ps,
      counted,
      rw (known, inside)
          (subst
            (λ (note : ℕ → Event).
              room_broadcast (some room) v.username message s
              ≡ some (tt, record s { trace = notices s.conn_at note ps ++ s.trace }))
            (fun_ext λ fd. chat_line_over fd v.username message long) e),
    )

-- `/broadcast` of a client in no room returns, sends nobody the line, and tells the client to join a room.
pub broadcast_outside :
    (t : Thread) (s : Server) (v : Connection) (message : Bytes)
    → s.conn_at t.connection ≡ some v
    → v.room ≡ none
    → broadcast_message t (some message) s
      ≡ some (
        tt,
        record s {
          trace =
              Event.printed (Message.broadcast_no_room_log v)
              ∷ Event.logged (Message.broadcast_no_room_log v)
              ∷ Event.sent t.tcp_fd Message.join_first
              ∷ s.trace;
        },
      )
unfolding broadcast_message broadcast_no_room
broadcast_outside t s v message known out = rw (known, out) refl
