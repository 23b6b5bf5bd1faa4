-- ===== src/Server/Tests/Threads.antt =====
-- The clients' threads of the two users, and the theorems on `client_handler` at them.
use chat_app_in_c.Common.{
  List, ℕ, ◌+◌, ◌-◌, ◌++◌, length, take, replicate, length-replicate, ◌≡◌, refl, sym, none, some,
  [], ◌∷◌, arith,
}
use mathlib.Core.Path.{subst}
use chat_app_in_c.CString.{Bytes, codes, c_string, isalnum, str_eq}
use chat_app_in_c.Server.{Ptr, Server, Event}
use chat_app_in_c.Server.Message
use chat_app_in_c.Server.Rooms.Broadcast.{times, notices}
use chat_app_in_c.Server.Invariant.{in_room, IsValid, Returns, Returns_result}
use chat_app_in_c.Server.Handler.{Thread, leave_current, join_room, broadcast_message}
use chat_app_in_c.Server.Handler.Loop.{Supply, bytes, ready, round, clean_up}
use chat_app_in_c.Server.Handler.Commands.{JoinResult, join_room_returns}
use chat_app_in_c.Server.Handler.Keeps.{Kept}
use chat_app_in_c.Server.Handler.Session.{round_returns}
use chat_app_in_c.Server.Handler.Ending.{clean_up_returns}
use chat_app_in_c.Server.Handler.Talk.{broadcast_reaches_members, broadcast_overreads}
use chat_app_in_c.Server.Names.{is_valid_username, all_alnum}
use chat_app_in_c.Server.Rooms.{find_free}
use chat_app_in_c.Server.Connections.{find_connection, find_slot, find_user, find_free_slot}
use chat_app_in_c.Server.Accept.{
  Line, accepted, drop_newline, handshake_round, register_name, unless_taken, take_slot,
  insert_user,
}
use chat_app_in_c.Server.Accept.Text
use chat_app_in_c.Server.Accept.Register.{registered}
use chat_app_in_c.Server.Steps.{started}
use chat_app_in_c.Server.Tests.{
  empty_queue, alice, bob, lobby, two_users, running, two_users-IsValid,
}

abbrev pub alices : Thread
alices = record { connection = 1; tcp_fd = 4 }

abbrev pub bobs : Thread
bobs = record { connection = 2; tcp_fd = 8 }

abbrev pub supply : Supply
supply = record { calloc = some 8; malloc = some 50; chunks = codes "hi" ∷ [] }

bob_frees_nothing :
    (s s' : Server) → s.world ≡ two_users → leave_current 2 s ≡ some (tt, s') → s'.room_at 8 ≡ none
unfolding leave_current
bob_frees_nothing s s' e h =
    Returns_result (λ w. w.room_at 8 ≡ none) (leave_current 2 s) tt s' h
      (subst
        (λ w.
          Returns
            (leave_current 2 (record { world = w; upload_queue = s.upload_queue; trace = s.trace }))
            (λ _ w'. w'.room_at 8 ≡ none))
        (sym e) refl)

join_room_returns_example :
    Returns
      (join_room bobs (some 8) (codes "lobby") running)
      (λ _ w. JoinResult bobs bob (codes "lobby") w)
join_room_returns_example =
    join_room_returns bobs running bob 8 (codes "lobby") two_users-IsValid refl
      (λ s' h. bob_frees_nothing running s' refl h) (omega arith)

broadcast_reaches_members_example :
    (ps : List Ptr) × ((d : Ptr) → times d ps ≡ in_room (running.conn_at d) 7)
    × (broadcast_message alices (some (codes "hi")) running
        ≡ some (
          tt,
          record running {
            trace =
                notices running.conn_at
                  (λ fd. Event.written fd (Message.chat_line (codes "alice") (codes "hi")))
                  ps
                ++ [];
          },
        ))
broadcast_reaches_members_example =
    broadcast_reaches_members alices running alice (codes "hi") 7 lobby two_users-IsValid refl refl
      refl (omega arith)

abbrev long_message : Bytes
long_message = replicate 4087 b'x'

broadcast_overreads_example :
    (ps : List Ptr) × ((d : Ptr) → times d ps ≡ in_room (running.conn_at d) 7)
    × (broadcast_message alices (some long_message) running
        ≡ some (
          tt,
          record running {
            trace =
                notices running.conn_at
                  (λ fd.
                    Event.written_past fd
                      (take 4095 (Message.chat_line (codes "alice") long_message) ++ 0 ∷ [])
                      (length (codes "alice") + length long_message - 4092))
                  ps
                ++ [];
          },
        ))
broadcast_overreads_example =
    broadcast_overreads alices running alice long_message 7 lobby two_users-IsValid refl refl refl
      (omega (arith, length-replicate {A = ℕ} 4087 b'x'))

round_returns_example :
    Returns
      (round bobs supply (ready (some (bytes (codes "/join lobby\n"))) none) running)
      (λ _ w. Kept 2 bob w)
round_returns_example =
    round_returns bobs running bob supply (ready (some (bytes (codes "/join lobby\n"))) none)
      two_users-IsValid refl (8, refl, bob_frees_nothing)

clean_up_returns_example :
    Returns (clean_up alices running) (λ _ w. IsValid w × (w.conn_at 1 ≡ none))
clean_up_returns_example = clean_up_returns alices running alice two_users-IsValid refl

-- Carol comes first.
abbrev pub first_user : Server
first_user = record (started empty_queue) {
  world = registered (started empty_queue).world 3 0 12 (codes "carol");
  trace =
      Event.printed (Text.username_ok_log (codes "carol"))
      ∷ Event.logged (Text.username_ok_log (codes "carol"))
      ∷ Event.sent 12 Text.username_ok
      ∷ [];
}

pub carol_first :
    handshake_round 12 (some 3) (Line.bytes (codes "carol\n")) (started empty_queue)
    ≡ some (accepted 0 3, first_user)
unfolding handshake_round drop_newline is_valid_username all_alnum register_name find_connection
    find_slot find_user unless_taken find_free_slot find_free take_slot insert_user c_string isalnum
    str_eq
carol_first = refl
