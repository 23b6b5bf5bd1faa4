-- ===== src/Server/Frames/Handler.antt =====
-- The commands of a client keep every condition of Server/Frames.
use chat_app_in_c.Common.{
  Option, none, some, List, [], ◌∷◌, leb, inl, inr, Option-cases, is_some, if◌then◌else◌,
}
use chat_app_in_c.CString.{Bytes}
use chat_app_in_c.Server.{Ptr, Connection, Server, pure, ◌>>=◌, read_conn, say, room_capacity}
use chat_app_in_c.Server.Message
use chat_app_in_c.Server.Names.{is_valid_roomname}
use chat_app_in_c.Server.Rooms.{
  room_add_member, room_remove_member, room_create, broadcast_to, room_broadcast,
}
use chat_app_in_c.Server.Connections.{
  find_slot, find_user, find_connection, broadcast_message_via_notify,
}
use chat_app_in_c.Server.Frames.{Frame, Holds, Framed, call-Framed, if_Framed}
use chat_app_in_c.Server.Frames.Rooms.{
  room_add_member-Framed, room_remove_member-Framed, room_create-Framed,
}
use chat_app_in_c.Server.Handler.{
  Thread, leave_current, no_room_slot, refuse_full_room, tell_joined, enter_room, join_found,
  join_room, reject_room_name, join_args, leave_room, do_leave, broadcast_no_room,
  broadcast_message, do_unknown, whisper_to, whisper_online, whisper_offline,
}

module _ (t : Thread) (w : Frame t.connection) where
  abbrev Kept : {A : Type 0} → Option (A × Server) → Type 0
  Kept o = Framed t.connection w o

  -- A line in the log about the client
  noted :
      (text : Connection → Bytes) (s : Server)
      → Holds t.connection w s
      → Kept ((do v ← read_conn t.connection; say (text v)) s)
  noted text s h = elim (Option-cases (s.conn_at t.connection)) [
    | inl e ↦ rw e tt
    | inr (v, e) ↦ rw e h
  ]

  pub leave_current-Framed :
      (s : Server) → Holds t.connection w s → Kept (leave_current t.connection s)
  unfolding leave_current
  leave_current-Framed s h = elim (Option-cases (s.conn_at t.connection)) [
    | inl e ↦ rw e tt
    | inr (v, e) ↦ rw e (
        if_Framed t.connection w (is_some v.room) (room_remove_member v.room t.connection) (pure tt)
          s (room_remove_member-Framed t.connection w v.room s h) h)
  ]

  pub no_room_slot-Framed :
      (name : Bytes) (s : Server) → Holds t.connection w s → Kept (no_room_slot t name s)
  unfolding no_room_slot
  no_room_slot-Framed name s h = noted (λ v. Message.room_slots_full_log v name) _ h

  pub refuse_full_room-Framed :
      (name : Bytes) (s : Server) → Holds t.connection w s → Kept (refuse_full_room t name s)
  unfolding refuse_full_room
  refuse_full_room-Framed name s h = noted (λ v. Message.room_full_log v name) _ h

  pub tell_joined-Framed :
      (name : Bytes) (room : Ptr) (s : Server)
      → Holds t.connection w s
      → Kept (tell_joined t name room s)
  unfolding tell_joined
  tell_joined-Framed name room s h = elim (Option-cases (s.conn_at t.connection)) [
    | inl e ↦ rw e tt
    | inr (v, e) ↦ elim (Option-cases (s.room_at room)) [
      | inl f ↦ rw (e, f) tt
      | inr (r, f) ↦ rw (e, f) h
    ]
  ]

  enter_room-Framed :
      (name : Bytes) (room : Ptr) (s : Server)
      → Holds t.connection w s
      → Kept (enter_room t name room s)
  unfolding enter_room
  enter_room-Framed name room s h =
      call-Framed t.connection w (room_add_member (some room) t.connection s) _
        (room_add_member-Framed t.connection w (some room) s h)
        (λ _ s' h'. tell_joined-Framed name room s' h')

  join_found-Framed :
      (name : Bytes) (found : Option Ptr) (s : Server)
      → Holds t.connection w s
      → Kept (join_found t name found s)
  unfolding join_found
  join_found-Framed name none s h = no_room_slot-Framed name s h
  join_found-Framed name (some room) s h = elim (Option-cases (s.room_at room)) [
    | inl e ↦ rw e tt
    | inr (r, e) ↦ rw e (
        if_Framed t.connection w (leb room_capacity r.member_count) (refuse_full_room t name)
          (enter_room t name room) s (refuse_full_room-Framed name s h)
          (enter_room-Framed name room s h))
  ]

  join_room-Framed :
      (calloc : Option Ptr) (name : Bytes) (s : Server)
      → Holds t.connection w s
      → Kept (join_room t calloc name s)
  unfolding join_room
  join_room-Framed calloc name s h =
      call-Framed t.connection w (leave_current t.connection s) _ (leave_current-Framed s h)
        (λ _ s' h'.
          call-Framed t.connection w (room_create calloc name (some t.connection) s') _
            (room_create-Framed t.connection w calloc name s' h')
            (λ found s'' h''. join_found-Framed name found s'' h''))

  reject_room_name-Framed :
      (name : Bytes) (s : Server) → Holds t.connection w s → Kept (reject_room_name t name s)
  unfolding reject_room_name
  reject_room_name-Framed name s h = noted (λ v. Message.sent_bad_room_name v name) _ h

  pub join_args-Framed :
      (calloc : Option Ptr) (name extra : Option Bytes) (s : Server)
      → Holds t.connection w s
      → Kept (join_args t calloc name extra s)
  unfolding join_args
  join_args-Framed calloc none extra s h = h
  join_args-Framed calloc (some name) (some extra) s h = h
  join_args-Framed calloc (some name) none s h =
      if_Framed t.connection w (is_valid_roomname name) (join_room t calloc name)
        (reject_room_name t name) s (join_room-Framed calloc name s h)
        (reject_room_name-Framed name s h)

  leave_room-Framed :
      (v : Connection) (room : Option Ptr) (s : Server)
      → Holds t.connection w s
      → Kept (leave_room t v room s)
  unfolding leave_room
  leave_room-Framed v none s h = h
  leave_room-Framed v (some room) s h = elim (Option-cases (s.room_at room)) [
    | inl e ↦ rw e tt
    | inr (r, e) ↦ rw e (
        call-Framed t.connection w (room_remove_member (some room) t.connection s) _
          (room_remove_member-Framed t.connection w (some room) s h) (λ _ s' h'. h'))
  ]

  pub do_leave-Framed : (s : Server) → Holds t.connection w s → Kept (do_leave t s)
  unfolding do_leave
  do_leave-Framed s h = elim (Option-cases (s.conn_at t.connection)) [
    | inl e ↦ rw e tt
    | inr (v, e) ↦ rw e (leave_room-Framed v v.room s h)
  ]

  broadcast_to-Framed :
      (text : Bytes) (slots : List (Option Ptr)) (s : Server)
      → Holds t.connection w s
      → Kept (broadcast_to text slots s)
  unfolding broadcast_to
  broadcast_to-Framed text [] s h = h
  broadcast_to-Framed text (none ∷ slots) s h = broadcast_to-Framed text slots s h
  broadcast_to-Framed text (some m ∷ slots) s h =
      let more =
        λ (s' : Server) (h' : Holds t.connection w s'). broadcast_to-Framed text slots s' h' in
      elim (Option-cases (s.conn_at m)) [ inl e ↦ rw e tt | inr (v, e) ↦ rw e (more _ h) ]

  room_broadcast-Framed :
      (room : Option Ptr) (from message : Bytes) (s : Server)
      → Holds t.connection w s
      → Kept (room_broadcast room from message s)
  unfolding room_broadcast
  room_broadcast-Framed none from message s h = h
  room_broadcast-Framed (some room) from message s h = elim (Option-cases (s.room_at room)) [
    | inl e ↦ rw e tt
    | inr (r, e) ↦ rw e (broadcast_to-Framed (Message.chat_line from message) r.members s h)
  ]

  pub broadcast_message-Framed :
      (message : Option Bytes) (s : Server)
      → Holds t.connection w s
      → Kept (broadcast_message t message s)
  unfolding broadcast_message broadcast_no_room
  broadcast_message-Framed none s h = h
  broadcast_message-Framed (some message) s h = elim (Option-cases (s.conn_at t.connection)) [
    | inl e ↦ rw e tt
    | inr (v, e) ↦ rw e (
        if_Framed t.connection w (is_some v.room) (room_broadcast v.room v.username message)
          (broadcast_no_room t v) s (room_broadcast-Framed v.room v.username message s h) h)
  ]

  pub do_unknown-Framed : (s : Server) → Holds t.connection w s → Kept (do_unknown t s)
  unfolding do_unknown
  do_unknown-Framed s h = noted Message.unknown_command_log _ h

  notify-Framed :
      (from to message : Bytes) (s : Server)
      → Holds t.connection w s
      → Kept (broadcast_message_via_notify from to message s)
  unfolding broadcast_message_via_notify find_connection find_slot
  notify-Framed from to message s h = elim (Option-cases (find_user s.conn_at to s.connections)) [
    | inl e ↦ rw e tt
    | inr (none, e) ↦ rw e h
    | inr (some (i, p), e) ↦ elim (Option-cases (s.conn_at p)) [
      | inl f ↦ rw (e, f) tt
      | inr (v, f) ↦ rw (e, f) h
    ]
  ]

  whisper_sent :
      (cmd target message : Bytes) (found : Option Ptr) (s : Server)
      → Holds t.connection w s
      → Kept (
          (do
            c ← read_conn t.connection
            if is_some found
                then whisper_online cmd c target message
                else whisper_offline t c target)
            s)
  unfolding whisper_online whisper_offline
  whisper_sent cmd target message found s h = elim (Option-cases (s.conn_at t.connection)) [
    | inl e ↦ rw e tt
    | inr (v, e) ↦ rw e (
        if_Framed t.connection w (is_some found) (whisper_online cmd v target message)
          (whisper_offline t v target) s (notify-Framed v.username target message _ h) h)
  ]

  pub whisper_to-Framed :
      (cmd : Bytes) (target message : Option Bytes) (s : Server)
      → Holds t.connection w s
      → Kept (whisper_to t cmd target message s)
  unfolding whisper_to find_connection find_slot
  whisper_to-Framed cmd none message s h = h
  whisper_to-Framed cmd (some target) none s h = h
  whisper_to-Framed cmd (some target) (some message) s h =
      elim (Option-cases (find_user s.conn_at target s.connections)) [
        | inl e ↦ rw e tt
        | inr (slot, e) ↦ rw e (whisper_sent cmd target message _ s h)
      ]
