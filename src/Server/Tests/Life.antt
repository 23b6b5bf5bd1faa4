-- ===== src/Server/Tests/Life.antt =====
-- A server that starts, gets its first user and is shut down while that user joins a room.
use chat_app_in_c.Common.{◌≡◌, refl, true, false, none, some, List, ℕ, [], ◌∷◌, replicate, arith}
use chat_app_in_c.CString.{codes, c_string, isalnum, str_eq}
use chat_app_in_c.Queue.{
  zero_item, file_queue_init, FileItem, put, file_queue_enqueue, file_queue_is_full,
}
use chat_app_in_c.Queue.Contents.{contents}
use chat_app_in_c.Server.{Ptr, Connection, Server, Event, update, room_capacity}
use chat_app_in_c.Server.Names.{is_valid_username, all_alnum}
use chat_app_in_c.Server.Connections.{find_connection, find_slot, find_user, find_free_slot}
use chat_app_in_c.Server.Rooms.{find_free}
use chat_app_in_c.Server.Accept.{
  Line, accepted, handshake_round, drop_newline, register_name, unless_taken, take_slot,
  insert_user,
}
use chat_app_in_c.Server.Accept.Text
use chat_app_in_c.Server.Accept.Register.{registered}
use chat_app_in_c.Server.Message
use chat_app_in_c.Server.Accept.{new_connection}
use chat_app_in_c.Server.Handler.Upload.{
  goes_on, upload_item, enqueue_upload, enqueued, acknowledge,
}
use chat_app_in_c.Server.Handler.{Thread, leave_current}
use chat_app_in_c.Server.Start.{
  Calls, listens, start_server, open_socket, bind_and_listen, started_text, no_reuse_text,
  listening_text,
}
use chat_app_in_c.Server.Steps.{started}
use chat_app_in_c.Server.Threads.{
  between, outside, Places, Turns, stay, turn, handshake_turn, wait_turn, join_turn, begin_join,
}
use chat_app_in_c.Server.Threads.Held.{AllHeld}
use chat_app_in_c.Server.Uploads.{HoldsFiles}
use chat_app_in_c.Server.Shutdown.{shut_down}
use chat_app_in_c.Server.Shutdown.Drain.{results, rounds}
use chat_app_in_c.Server.Shutdown.Goodbye.{Told}
use chat_app_in_c.Server.Life.{running_server-AllHeld, whole_life}
use chat_app_in_c.Server.Tests.{empty_queue}

-- `setsockopt` alone fails.
abbrev calls : Calls
calls = record {
  pid = 7;
  malloc_ok = true;
  calloc_ok = true;
  socket = some 3;
  setsockopt_ok = false;
  bind_ok = true;
  listen_ok = true;
}

abbrev opened : Server
opened = record (started empty_queue) {
  upload_queue = record {
    buffer = replicate room_capacity zero_item;
    capacity = room_capacity;
    head = 0;
    tail = 0;
    count = 0;
  };
  trace =
      Event.logged (listening_text (codes "8080"))
      ∷ Event.printed (listening_text (codes "8080"))
      ∷ Event.printed no_reuse_text
      ∷ Event.logged no_reuse_text
      ∷ Event.printed (started_text 7)
      ∷ Event.logged (started_text 7)
      ∷ [];
}

opens :
    start_server true (codes "./chatserver") calls (codes "8080") (started empty_queue)
    ≡ some (listens 3, opened)
unfolding start_server open_socket bind_and_listen file_queue_init
opens = refl

abbrev peopled : Server
peopled = record opened {
  world = registered opened.world 3 0 12 (codes "carol");
  trace =
      Event.printed (Text.username_ok_log (codes "carol"))
      ∷ Event.logged (Text.username_ok_log (codes "carol"))
      ∷ Event.sent 12 Text.username_ok
      ∷ opened.trace;
}

carol_comes :
    handshake_round 12 (some 3) (Line.bytes (codes "carol\n")) opened ≡ some (accepted 0 3, peopled)
unfolding handshake_round drop_newline is_valid_username all_alnum register_name find_connection
    find_slot find_user unless_taken find_free_slot find_free take_slot insert_user c_string isalnum
    str_eq
carol_comes = refl

abbrev carols : Thread
carols = record { connection = 3; tcp_fd = 12 }

-- Carol sends herself a file, and has waited for space in the queue.
abbrev carol : Connection
carol = new_connection 12 (codes "carol")

abbrev letter : FileItem
letter =
    upload_item carol (codes "a.txt") (codes "carol") 5
      (record { address = 50; bytes = codes "hello" })

abbrev busy : Server
busy = record peopled {
  upload_queue = put opened.upload_queue letter;
  trace =
      Event.printed (Message.file_queued_log (codes "a.txt") (codes "carol") (codes "carol"))
      ∷ Event.logged (Message.file_queued_log (codes "a.txt") (codes "carol") (codes "carol"))
      ∷ Event.sent 12 (Message.file_queued (codes "a.txt") (codes "carol") 5)
      ∷ peopled.trace;
}

letter_queued :
    enqueue_upload carols letter (codes "a.txt") (codes "carol") peopled ≡ some (goes_on, busy)
unfolding enqueue_upload enqueued acknowledge file_queue_enqueue file_queue_is_full
letter_queued = refl

carol_begins : begin_join carols (codes "lobby") busy ≡ some (outside (codes "lobby"), busy)
unfolding begin_join leave_current
carol_begins = refl

abbrev in_join : Places
in_join = update (λ _. between) 3 (outside (codes "lobby"))

served : Turns opened (λ _. between) busy in_join
served =
    turn
      (turn (turn stay (handshake_turn 12 (some 3) _ (accepted 0 3) unused carol_comes)) (
        wait_turn carols _ letter (codes "a.txt") (codes "carol") goes_on refl refl
          (refl, record { address = 50; bytes = codes "hello" }, refl, refl) letter_queued))
      (join_turn carols _ (codes "lobby") (outside (codes "lobby")) refl refl (omega arith)
        carol_begins)
  where
    unused : (p : Ptr) → some 3 ≡ some p → opened.conn_at p ≡ none
    unused p e = refl

running_server-AllHeld_example : AllHeld busy in_join × HoldsFiles busy.upload_queue
running_server-AllHeld_example =
    running_server-AllHeld (codes "./chatserver") (codes "8080") calls empty_queue 3 opened busy
      in_join opens served

abbrev six : List (List ℕ)
six = (5 ∷ []) ∷ [] ∷ [] ∷ [] ∷ [] ∷ [] ∷ []

whole_life_example :
    (s1 s2 : Server) × (shut_down busy ≡ some (true, s1))
    × ((p : Ptr) (c : Connection) → busy.conn_at p ≡ some c → Told c s1.trace)
    × (rounds six s1 ≡ some (results (contents busy.upload_queue) 5, s2))
    × (contents s2.upload_queue ≡ [])
unfolding put
whole_life_example =
    whole_life (codes "./chatserver") (codes "8080") calls empty_queue 3 opened busy in_join opens
      served six (omega arith) refl
