-- ===== src/Server/Rooms/Broadcast.antt =====
-- `room_broadcast`: who gets a message, and what is written.
use chat_app_in_c.Common.{
  ℕ, ◌+◌, ◌-◌, ◌<◌, ◌≤◌, ◌≡◌, refl, ap, sym, ◌∙◌, ◌==◌, true, false, Option, none, some, inl, inr,
  List, [], ◌∷◌, ◌++◌, Option-cases, length, length-append, arith, leb, take,
}
use chat_app_in_c.CString.{Bytes, codes}
use chat_app_in_c.Server.{Ptr, Room, Connection, Server, Event, buf_size, write_formatted}
use chat_app_in_c.Server.Message
use chat_app_in_c.Server.Rooms.{broadcast_to, room_broadcast}
use chat_app_in_c.Server.Rooms.Slots.{Slots, uses, one_if}
use chat_app_in_c.Server.Invariant.{live, in_room, IsValid}

-- The events of a broadcast to these slots, newest first, in front of the older ones
abbrev pub deliveries : (Ptr → Option Connection) → Bytes → Slots → List Event → List Event
deliveries heap line [] older = older
deliveries heap line (none ∷ slots) older = deliveries heap line slots older
deliveries heap line (some m ∷ slots) older = elim (heap m) [
  | none ↦ older
  | some c ↦ deliveries heap line slots (write_formatted c.notify_writer line ∷ older)
]

broadcast_to_lem :
    (line : Bytes) (slots : Slots) (s : Server)
    → ((c : Ptr) → 0 < uses c slots → live (s.conn_at c) ≡ 1)
    → broadcast_to line slots s
      ≡ some (tt, record s { trace = deliveries s.conn_at line slots s.trace })
unfolding broadcast_to uses
broadcast_to_lem line [] s safe = refl
broadcast_to_lem line (none ∷ slots) s safe = broadcast_to_lem line slots s safe
broadcast_to_lem line (some m ∷ slots) s safe = elim (Option-cases (s.conn_at m)) [
  | inl e ↦ absurd (ground (arith, safe m))
  | inr (c, e) ↦
      let s' = record s { trace = write_formatted c.notify_writer line ∷ s.trace } in
      rw (e, deliveries) (broadcast_to_lem line slots s' (λ d used. safe d (omega (arith, used))))
]

-- `room_broadcast` on a room of a valid server returns; it changes only the trace, by one write to the
-- notify socket of each slot's member, in the order of the slots; and a connection stands in the slots
-- once if its room pointer is the room, and not at all otherwise.
pub room_broadcast_lem :
    (s : Server) (room : Ptr) (r : Room) (from msg : Bytes)
    → IsValid s.world
    → s.room_at room ≡ some r
    → (room_broadcast (some room) from msg s
        ≡ some (
          tt,
          record s { trace = deliveries s.conn_at (Message.chat_line from msg) r.members s.trace },
        ))
      × ((c : Ptr) → uses c r.members ≡ in_room (s.conn_at c) room)
unfolding room_broadcast
room_broadcast_lem s room r from msg valid there = (
  rw there (broadcast_to_lem (Message.chat_line from msg) r.members s safe),
  valid.members_agree room r there,
)
  where
    safe : (c : Ptr) → 0 < uses c r.members → live (s.conn_at c) ≡ 1
    safe c used = ground (arith, valid.members_agree room r there c)

length-chat_line :
    (from msg : Bytes) → length (Message.chat_line from msg) ≡ length from + length msg + 4
unfolding Message.chat_line
length-chat_line from msg =
    omega (arith, length-append from (codes "] " ++ (msg ++ 10 ∷ [])), length-append msg (10 ∷ []))

pub written_whole :
    (fd : ℕ) (text : Bytes) → length text ≤ 4095 → write_formatted fd text ≡ Event.written fd text
unfolding write_formatted
written_whole fd text h =
    let fits : leb (length text) (buf_size - 1) ≡ true = ground arith in rw fits

written_over :
    (fd : ℕ) (text : Bytes)
    → 4095 < length text
    → write_formatted fd text
      ≡ Event.written_past fd (take (buf_size - 1) text ++ 0 ∷ []) (length text - buf_size)
unfolding write_formatted
written_over fd text h =
    let over : leb (length text) (buf_size - 1) ≡ false = ground arith in rw over

-- How often an address stands in a list
abbrev pub times : Ptr → List Ptr → ℕ
times p [] = 0
times p (q ∷ ps) = one_if (q == p) + times p ps

-- One event for the notify socket of each of these connections
abbrev pub notices : (Ptr → Option Connection) → (ℕ → Event) → List Ptr → List Event
notices heap note [] = []
notices heap note (p ∷ ps) = elim (heap p) [
  | none ↦ notices heap note ps
  | some c ↦ note c.notify_writer ∷ notices heap note ps
]

module _ (heap : Ptr → Option Connection) (line : Bytes) where
  abbrev note : ℕ → Event
  note fd = write_formatted fd line

  notices-snoc :
      (ps : List Ptr) (m : Ptr) (c : Connection) (older : List Event)
      → heap m ≡ some c
      → notices heap note (ps ++ m ∷ []) ++ older
        ≡ notices heap note ps ++ note c.notify_writer ∷ older
  notices-snoc [] m c older e = rw e refl
  notices-snoc (p ∷ ps) m c older e = elim (Option-cases (heap p)) [
    | inl f ↦ rw (notices, f) (notices-snoc ps m c older e)
    | inr (d, f) ↦
        rw (notices, f) (ap (λ es. note d.notify_writer ∷ es) (notices-snoc ps m c older e))
  ]

  times-snoc : (d m : Ptr) (ps : List Ptr) → times d (ps ++ m ∷ []) ≡ one_if (m == d) + times d ps
  times-snoc d m [] = refl
  times-snoc d m (p ∷ ps) = omega (arith, times-snoc d m ps)

  -- The slots' pointers, the last first, are those whose sockets the events are for.
  deliveries-notices :
      (slots : Slots) (older : List Event)
      → ((c : Ptr) → 0 < uses c slots → live (heap c) ≡ 1)
      → (ps : List Ptr) × (deliveries heap line slots older ≡ notices heap note ps ++ older)
        × ((d : Ptr) → times d ps ≡ uses d slots)
  unfolding uses
  deliveries-notices [] older safe = ([], refl, λ d. refl)
  deliveries-notices (none ∷ slots) older safe = deliveries-notices slots older safe
  deliveries-notices (some m ∷ slots) older safe = elim (Option-cases (heap m)) [
    | inl e ↦ absurd (ground (arith, safe m))
    | inr (c, e) ↦
        let (ps, f, g) =
          deliveries-notices slots (note c.notify_writer ∷ older)
            (λ d used. safe d (omega (arith, used))) in
        (
          ps ++ m ∷ [],
          rw (deliveries, e) (f ∙ sym (notices-snoc ps m c older e)),
          λ d. times-snoc d m ps ∙ omega (arith, g d),
        )
  ]

-- `room_broadcast` on a room of a valid server: one event for each connection whose room pointer is the
-- room, and no other.
pub room_broadcast-notices :
    (s : Server) (room : Ptr) (r : Room) (from msg : Bytes)
    → IsValid s.world
    → s.room_at room ≡ some r
    → (ps : List Ptr) × ((d : Ptr) → times d ps ≡ in_room (s.conn_at d) room)
      × (room_broadcast (some room) from msg s
          ≡ some (
            tt,
            record s {
              trace =
                  notices s.conn_at (λ fd. write_formatted fd (Message.chat_line from msg)) ps
                  ++ s.trace;
            },
          ))
room_broadcast-notices s room r from msg valid there =
    let (e, counted) = room_broadcast_lem s room r from msg valid there in
    let (ps, f, g) =
      deliveries-notices s.conn_at (Message.chat_line from msg) r.members s.trace
        (λ c used. ground (arith, counted c)) in
    (ps, λ d. g d ∙ counted d, e ∙ ap (λ (es : List Event). some (tt, record s { trace = es })) f)

-- A chat line `[from] msg` is written whole, and nothing but it, if the two texts have at most 4091
-- bytes together.
pub chat_line_whole :
    (fd : ℕ) (from msg : Bytes)
    → length from + length msg ≤ 4091
    → write_formatted fd (Message.chat_line from msg)
      ≡ Event.written fd (Message.chat_line from msg)
chat_line_whole fd from msg h = written_whole fd _ (omega (arith, length-chat_line from msg))

-- If the two texts of a chat line have more than 4091 bytes together, the code writes its full buffer,
-- which holds the first 4095 bytes of the line and a zero, and as many bytes of the memory behind it as
-- the line is longer than 4096 bytes.
pub chat_line_over :
    (fd : ℕ) (from msg : Bytes)
    → 4091 < length from + length msg
    → write_formatted fd (Message.chat_line from msg)
      ≡ Event.written_past fd
          (take 4095 (Message.chat_line from msg) ++ 0 ∷ [])
          (length from + length msg - 4092)
chat_line_over fd from msg h =
    written_over fd _ (omega (arith, length-chat_line from msg))
    ∙ ap (Event.written_past fd (take 4095 (Message.chat_line from msg) ++ 0 ∷ []))
        (omega (arith, length-chat_line from msg))
