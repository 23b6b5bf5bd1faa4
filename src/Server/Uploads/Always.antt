-- ===== src/Server/Uploads/Always.antt =====
-- What the upload queue holds in every state that the threads reach.
use mathlib.Core.Path.{subst}
use chat_app_in_c.Common.{◌≡◌, Option, none, some, leb, inl, inr, Option-cases}
use chat_app_in_c.CString.{Bytes}
use chat_app_in_c.Server.{Ptr, Server, room_capacity}
use chat_app_in_c.Server.Rooms.{find_room, room_find, create_unless, room_add_member}
use chat_app_in_c.Server.Handler.{Thread, no_room_slot, refuse_full_room, tell_joined}
use chat_app_in_c.Server.Handler.Loop.{close_down}
use chat_app_in_c.Server.Frames.{call-Framed, if_Framed}
use chat_app_in_c.Server.Frames.Rooms.{create_unless-Framed, room_add_member-Framed}
use chat_app_in_c.Server.Frames.Handler.{
  no_room_slot-Framed, refuse_full_room-Framed, tell_joined-Framed,
}
use chat_app_in_c.Server.Frames.Upload.{enqueue_upload-Framed}
use chat_app_in_c.Server.Frames.Session.{round-Framed, start_thread-Framed}
use chat_app_in_c.Server.Threads.{
  Place, between, closing, outside, searched, found, tested, entered, Places, test_capacity,
  advance, Turn, handshake_turn, start_turn, round_turn, wait_turn, worker_turn, join_turn,
  end_turn, next_turn, Turns, stay, turn,
}
use chat_app_in_c.Server.Uploads.{HoldsFiles, queue}
use chat_app_in_c.Server.Uploads.Kept.{
  Kept, handshake_round-Kept, worker_round-Kept, begin_join-Kept, begin_end-Kept, close_down-Kept,
}

module _ (t : Thread) where
  test_capacity-Kept :
      (name : Bytes) (room : Option Ptr) (s : Server)
      → HoldsFiles s.upload_queue
      → Kept t.connection (test_capacity t name room s)
  unfolding test_capacity
  test_capacity-Kept name none s h =
      call-Framed t.connection (queue t.connection) (no_room_slot t name s) _
        (no_room_slot-Framed t (queue t.connection) name s h) (λ _ s' h'. h')
  test_capacity-Kept name (some room) s h = elim (Option-cases (s.room_at room)) [
    | inl e ↦ rw e tt
    | inr (r, e) ↦ rw e (
        if_Framed t.connection (queue t.connection) (leb room_capacity r.member_count) _ _ s
          (call-Framed t.connection (queue t.connection) (refuse_full_room t name s) _
            (refuse_full_room-Framed t (queue t.connection) name s h) (λ _ s' h'. h'))
          h)
  ]

  advance-Kept :
      (calloc : Option Ptr) (place : Place) (s : Server)
      → HoldsFiles s.upload_queue
      → Kept t.connection (advance t calloc place s)
  unfolding advance room_find
  advance-Kept calloc between s h = h
  advance-Kept calloc closing s h =
      call-Framed t.connection (queue t.connection) (close_down t s) _ (close_down-Kept t s h)
        (λ _ s' h'. h')
  advance-Kept calloc (outside name) s h = elim (Option-cases (find_room s.room_at name s.rooms)) [
    | inl e ↦ rw e tt
    | inr (room, e) ↦ rw e h
  ]
  advance-Kept calloc (searched name room) s h =
      call-Framed t.connection (queue t.connection) (create_unless calloc name t.connection room s)
        _ (create_unless-Framed t.connection (queue t.connection) calloc name room s h)
        (λ _ s' h'. h')
  advance-Kept calloc (found name room) s h = test_capacity-Kept name room s h
  advance-Kept calloc (tested name room) s h =
      call-Framed t.connection (queue t.connection) (room_add_member (some room) t.connection s) _
        (room_add_member-Framed t.connection (queue t.connection) (some room) s h) (λ _ s' h'. h')
  advance-Kept calloc (entered name room) s h =
      call-Framed t.connection (queue t.connection) (tell_joined t name room s) _
        (tell_joined-Framed t (queue t.connection) name room s h) (λ _ s' h'. h')

-- What has been kept by an action that returns
Kept-result :
    {A : Type 0} (c : Ptr) (o : Option (A × Server)) (a : A) (s : Server)
    → o ≡ some (a, s)
    → Kept c o
    → HoldsFiles s.upload_queue
Kept-result c o a s e h = subst (λ x. Kept c x) e h

Turn-HoldsFiles :
    {s s' : Server} {f f' : Places}
    → Turn s f s' f'
    → HoldsFiles s.upload_queue
    → HoldsFiles s'.upload_queue
Turn-HoldsFiles {s} {s'} (handshake_turn client_fd calloc line outcome unused e) h =
    Kept-result 0 _ outcome s' e (handshake_round-Kept 0 client_fd calloc line s h)
Turn-HoldsFiles {s} {s'} (start_turn connection v tid fds t known idle e) h =
    Kept-result connection _ t s' e (start_thread-Framed connection (queue connection) tid fds s h)
Turn-HoldsFiles {s} {s'} (round_turn t v supply selected next known idle fresh e) h =
    Kept-result t.connection _ next s' e (round-Framed t (queue t.connection) supply selected s h)
Turn-HoldsFiles {s} {s'} (wait_turn t v item filename target next known idle file e) h =
    Kept-result t.connection _ next s' e
      (enqueue_upload-Framed t (queue t.connection) item filename target s file h)
Turn-HoldsFiles {s} {s'} (worker_turn writes served e) h =
    Kept-result 0 _ served s' e (worker_round-Kept 0 writes s h)
Turn-HoldsFiles {s} {s'} (join_turn t v name place known idle fits e) h =
    Kept-result t.connection _ place s' e (begin_join-Kept t name s h)
Turn-HoldsFiles {s} {s'} (end_turn t v place known idle e) h =
    Kept-result t.connection _ place s' e (begin_end-Kept t s h)
Turn-HoldsFiles {s} {s'} (next_turn t fresh place place' there busy unused e) h =
    Kept-result t.connection _ place' s' e (advance-Kept t (some fresh) place s h)

-- Whatever turns the threads take, in any order, an upload queue that is valid, of the capacity of a
-- room and holds nothing but files with their bytes stays so: no turn puts a sentinel into it.
pub Turns-HoldsFiles :
    {s s' : Server} {f f' : Places}
    → Turns s f s' f'
    → HoldsFiles s.upload_queue
    → HoldsFiles s'.upload_queue
Turns-HoldsFiles stay h = h
Turns-HoldsFiles (turn before last) h = Turn-HoldsFiles last (Turns-HoldsFiles before h)
