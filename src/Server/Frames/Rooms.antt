-- ===== src/Server/Frames/Rooms.antt =====
-- The room functions keep every condition of Server/Frames.
use chat_app_in_c.Common.{ℕ, Option, none, some, List, inl, inr, Option-cases}
use chat_app_in_c.CString.{Bytes}
use chat_app_in_c.Server.{Ptr, Room, Server, pure, when, ◌>>=◌, read_conn, write_conn}
use chat_app_in_c.Server.Frames.{Frame, Holds, Framed, call-Framed, if_Framed, own_write}
use chat_app_in_c.Server.Rooms.{
  insert_member, refuse_member, add_to, room_add_member, drop_member, delete_room, forget_room,
  points_to, all_null, room_remove_member, create_at, create_unless, find_room, room_find,
  room_create,
}

module _ (c : Ptr) (w : Frame c) where
  insert_member-Framed :
      (room : Ptr) (r : Room) (o : Option (List (Option Ptr))) (s : Server)
      → Holds c w s
      → Framed c w (insert_member room c r o s)
  unfolding insert_member
  insert_member-Framed room r none s h = h
  insert_member-Framed room r (some members) s h = elim (Option-cases (s.conn_at c)) [
    | inl e ↦ rw e tt
    | inr (v, e) ↦ rw e h
  ]

  refuse_member-Framed : (r : Room) (s : Server) → Holds c w s → Framed c w (refuse_member c r s)
  unfolding refuse_member
  refuse_member-Framed r s h = elim (Option-cases (s.conn_at c)) [
    | inl e ↦ rw e tt
    | inr (v, e) ↦ rw e h
  ]

  set_room-Framed :
      (room : Ptr) (s : Server)
      → Holds c w s
      → Framed c w ((do v ← read_conn c; write_conn c (record v { room = some room })) s)
  set_room-Framed room s h = elim (Option-cases (s.conn_at c)) [
    | inl e ↦ rw e tt
    | inr (v, e) ↦ rw e (own_write c w s _ h)
  ]

  add_to-Framed :
      (room : Ptr) (r : Room) (s : Server) → Holds c w s → Framed c w (add_to room c r s)
  unfolding add_to
  add_to-Framed room r s h =
      call-Framed c w (insert_member room c r _ s) _ (insert_member-Framed room r _ s h)
        (λ _ s' h'. set_room-Framed room s' h')

  pub room_add_member-Framed :
      (room : Option Ptr) (s : Server) → Holds c w s → Framed c w (room_add_member room c s)
  unfolding room_add_member
  room_add_member-Framed none s h = elim (Option-cases (s.conn_at c)) [
    | inl e ↦ rw e tt
    | inr (v, e) ↦ rw e h
  ]
  room_add_member-Framed (some room) s h = elim (Option-cases (s.room_at room)) [
    | inl e ↦ rw e tt
    | inr (r, e) ↦ rw e (
        if_Framed c w _ (refuse_member c r) (add_to room c r) s (refuse_member-Framed r s h)
          (add_to-Framed room r s h))
  ]

  drop_member-Framed :
      (room : Ptr) (r : Room) (o : Option (List (Option Ptr))) (s : Server)
      → Holds c w s
      → Framed c w (drop_member room c r o s)
  unfolding drop_member
  drop_member-Framed room r none s h = h
  drop_member-Framed room r (some members) s h = elim (Option-cases (s.conn_at c)) [
    | inl e ↦ rw e tt
    | inr (v, e) ↦ rw e h
  ]

  delete_room-Framed :
      (room : Ptr) (r : Room) (s : Server) → Holds c w s → Framed c w (delete_room room c r s)
  unfolding delete_room
  delete_room-Framed room r s h = elim (Option-cases (s.conn_at c)) [
    | inl e ↦ rw e tt
    | inr (v, e) ↦ rw e h
  ]

  forget_room-Framed : (room : Ptr) (s : Server) → Holds c w s → Framed c w (forget_room room c s)
  unfolding forget_room
  forget_room-Framed room s h = elim (Option-cases (s.conn_at c)) [
    | inl e ↦ rw e tt
    | inr (v, e) ↦ rw e (
        if_Framed c w (points_to v.room room) (write_conn c (record v { room = none })) (pure tt) s
          (own_write c w s (some (record v { room = none })) h) h)
  ]

  pub room_remove_member-Framed :
      (room : Option Ptr) (s : Server) → Holds c w s → Framed c w (room_remove_member room c s)
  unfolding room_remove_member
  room_remove_member-Framed none s h = h
  room_remove_member-Framed (some room) s h = elim (Option-cases (s.room_at room)) [
    | inl e ↦ rw e tt
    | inr (r, e) ↦ rw e (
        call-Framed c w (drop_member room c r _ s) _ (drop_member-Framed room r _ s h) (λ r' s' h'.
          call-Framed c w (when (all_null r'.members) (delete_room room c r') s') _
            (if_Framed c w (all_null r'.members) (delete_room room c r') (pure tt) s'
              (delete_room-Framed room r' s' h') h')
            (λ _ s'' h''. forget_room-Framed room s'' h'')))
  ]

  create_at-Framed :
      (calloc : Option Ptr) (name : Bytes) (idx : Option ℕ) (s : Server)
      → Holds c w s
      → Framed c w (create_at calloc name c idx s)
  unfolding create_at
  create_at-Framed calloc name none s h = elim (Option-cases (s.conn_at c)) [
    | inl e ↦ rw e tt
    | inr (v, e) ↦ rw e h
  ]
  create_at-Framed none name (some idx) s h = tt
  create_at-Framed (some p) name (some idx) s h = elim (Option-cases (s.conn_at c)) [
    | inl e ↦ rw e tt
    | inr (v, e) ↦ rw e h
  ]

  pub create_unless-Framed :
      (calloc : Option Ptr) (name : Bytes) (found : Option Ptr) (s : Server)
      → Holds c w s
      → Framed c w (create_unless calloc name c found s)
  unfolding create_unless
  create_unless-Framed calloc name (some p) s h = h
  create_unless-Framed calloc name none s h = create_at-Framed calloc name _ s h

  pub room_create-Framed :
      (calloc : Option Ptr) (name : Bytes) (s : Server)
      → Holds c w s
      → Framed c w (room_create calloc name (some c) s)
  unfolding room_create room_find
  room_create-Framed calloc name s h = elim (Option-cases (find_room s.room_at name s.rooms)) [
    | inl e ↦ rw e tt
    | inr (found, e) ↦ rw e (create_unless-Framed calloc name found s h)
  ]
