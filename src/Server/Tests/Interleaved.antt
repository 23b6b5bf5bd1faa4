-- ===== src/Server/Tests/Interleaved.antt =====
-- Turns of the threads between the calls of `/join`, and the theorems on them at concrete states.
use chat_app_in_c.Common.{◌≡◌, refl, ◌==◌, if◌then◌else◌, none, some, [], ◌∷◌, replicate, arith}
use chat_app_in_c.CString.{codes}
use chat_app_in_c.Queue.{FileItem, zero_item}
use chat_app_in_c.Server.{Ptr, Room, Server, Event, update}
use chat_app_in_c.Server.Message
use chat_app_in_c.Server.Rooms.{new_room, room_add_member}
use chat_app_in_c.Server.Accept.{Line, accepted}
use chat_app_in_c.Server.Handler.{Thread, leave_current}
use chat_app_in_c.Server.Handler.Loop.{clean_up}
use chat_app_in_c.Server.Worker.{send_to}
use chat_app_in_c.Server.Steps.{started}
use chat_app_in_c.Server.Threads.{
  between, outside, found, tested, Places, begin_join, advance, Turns, stay, turn, handshake_turn,
  join_turn,
}
use chat_app_in_c.Server.Threads.Safe.{IsDefined, next_call-IsDefined}
use chat_app_in_c.Server.Threads.Emptied.{remove_member_around, member_of_freed_room}
use chat_app_in_c.Server.Threads.Stale.{
  found_room_freed, go_on, joined_though_full, recipient_freed, join_both, twin_rooms,
}
use chat_app_in_c.Server.Rooms.{find_room}
use chat_app_in_c.Server.Rooms.Slots.{uses, filled}
use chat_app_in_c.CString.{str_eq}
use chat_app_in_c.Server.Shutdown.{begin_goodbye, end_goodbye}
use chat_app_in_c.Server.Shutdown.Interrupted.{goodbye_interrupted}
use chat_app_in_c.Server.Tests.{
  empty_queue, alice, bob, lobby, two_users, running, two_users-IsValid,
}
use chat_app_in_c.Server.Tests.Threads.{alices, bobs, first_user, carol_first}

abbrev carols : Thread
carols = record { connection = 3; tcp_fd = 12 }

abbrev idle : Places
idle = λ _. between

-- Carol is inside `/join lobby`.
abbrev joining : Places
joining = update idle 3 (outside (codes "lobby"))

carol_begins :
    begin_join carols (codes "lobby") first_user ≡ some (outside (codes "lobby"), first_user)
unfolding begin_join leave_current
carol_begins = refl

carol_joins : Turns (started empty_queue) idle first_user joining
carol_joins =
    turn
      (turn stay (
        handshake_turn 12 (some 3) (Line.bytes (codes "carol\n")) (accepted 0 3) unused
          carol_first))
      (join_turn carols _ (codes "lobby") (outside (codes "lobby")) refl refl (omega arith)
        carol_begins)
  where
    unused : (p : Ptr) → some 3 ≡ some p → (started empty_queue).conn_at p ≡ none
    unused p e = refl

next_call-IsDefined_example : IsDefined (advance carols (some 8) (joining 3) first_user)
next_call-IsDefined_example =
    next_call-IsDefined {q = empty_queue} {s = first_user} {f = joining} carols 8 carol_joins refl
      tt

-- Bob has found the room that Alice leaves.
found_room_freed_example :
    (s' : Server) × (leave_current 1 running ≡ some (tt, s'))
    × (advance bobs (some 8) (found (codes "lobby") (some 7)) s' ≡ none)
    × (advance bobs (some 8) (tested (codes "lobby") 7) s' ≡ none)
found_room_freed_example =
    found_room_freed running 1 alice 7 lobby bobs (some 8) (codes "lobby") two_users-IsValid refl
      refl refl refl

-- Bob comes into the lobby while Alice, its only member, leaves it.
member_of_freed_room_example :
    (s' : Server) × (remove_member_around (room_add_member (some 7) 2) 7 1 running ≡ some (tt, s'))
    × (s'.conn_at 2 ≡ some (record bob { room = some 7 }))
    × (s'.room_at 7 ≡ none)
member_of_freed_room_example =
    member_of_freed_room running 7 1 2 lobby alice bob two_users-IsValid refl refl refl refl refl
      (omega arith)

abbrev crowded_lobby : Room
crowded_lobby = record lobby { members = replicate 15 (some 1); member_count = 15 }

abbrev crowded : Server
crowded = record running {
  world = record two_users { room_at = λ p. if p == 7 then some crowded_lobby else none };
}

joined_though_full_example :
    (s' : Server) × (go_on 2 bobs (some 8) (tested (codes "lobby") 7) crowded ≡ some (between, s'))
    × (s'.world ≡ crowded.world)
    × (s'.trace
        ≡ Event.printed (Message.joined_log bob (codes "lobby"))
          ∷ Event.logged (Message.joined_log bob (codes "lobby"))
          ∷ Event.sent 8 (Message.joined (codes "bob") (codes "lobby"))
          ∷ Event.printed (Message.not_added_full bob (codes "lobby"))
          ∷ Event.logged (Message.not_added_full bob (codes "lobby"))
          ∷ [])
joined_though_full_example =
    joined_though_full crowded bobs (some 8) (codes "lobby") 7 crowded_lobby bob refl refl
      (omega arith)

abbrev letter : FileItem
letter = record zero_item { filename = codes "a.txt"; sender = codes "alice"; target = codes "bob" }

recipient_freed_example :
    (s' : Server) × (clean_up bobs running ≡ some (tt, s')) × (send_to letter [] (some 2) s' ≡ none)
recipient_freed_example = recipient_freed running bobs bob letter [] two_users-IsValid refl

twin_rooms_example :
    (s' : Server) × (join_both alices bobs 8 9 (codes "games") running
      ≡ some ((found (codes "games") (some 8), found (codes "games") (some 9)), s'))
    × (s'.room_at 8 ≡ some (new_room (codes "games")))
    × (s'.room_at 9 ≡ some (new_room (codes "games")))
    × (uses 8 s'.rooms ≡ 1)
    × (uses 9 s'.rooms ≡ 1)
unfolding find_room str_eq filled
twin_rooms_example =
    twin_rooms running alices bobs alice bob 8 9 (codes "games") two_users-IsValid refl refl refl
      refl (omega arith) refl (omega arith)

-- Bob is in no room.
goodbye_interrupted_example :
    (s1 s2 : Server) × (begin_goodbye 1 running ≡ some (tt, s1))
    × (clean_up bobs s1 ≡ some (tt, s2))
    × (end_goodbye 1 s2 ≡ none)
goodbye_interrupted_example =
    goodbye_interrupted running 1 bobs bob two_users-IsValid refl refl refl
