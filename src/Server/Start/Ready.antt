-- ===== src/Server/Start/Ready.antt =====
-- When the start of `main` in server/src/chatserver.c gets to its accept loop, and with which state.
use chat_app_in_c.Common.{
  ℕ, ◌≡◌, refl, sym, ap, ◌∙◌, Option, none, inl, inr, Bool, Bool-cases, true, some, [], arith,
}
use mathlib.Core.Path.{subst}
use chat_app_in_c.CString.{Bytes}
use chat_app_in_c.Queue.{FileQueue, file_queue_init}
use chat_app_in_c.Queue.Invariant
use chat_app_in_c.Queue.Contents.{contents}
use chat_app_in_c.Server.{Server, room_capacity}
use chat_app_in_c.Server.Start.{Calls, Started, listens, start_server, open_socket, bind_and_listen}

-- All calls succeed but, perhaps, `setsockopt`; the socket is `fd`.
pub record IsOpen (calls : Calls) (fd : ℕ) : Type 0 where
  pub queue_made : calls.malloc_ok ≡ true
  pub buffer_made : calls.calloc_ok ≡ true
  pub socket_made : calls.socket ≡ some fd
  pub bound : calls.bind_ok ≡ true
  pub listened : calls.listen_ok ≡ true

-- The tables are as before, and the upload queue is a valid, empty one of the capacity of a room.
pub record IsReady (before after : Server) : Type 0 where
  pub world_kept : after.world ≡ before.world
  pub queue_valid : Invariant.IsValid after.upload_queue
  pub queue_empty : contents after.upload_queue ≡ []
  pub capacity : after.upload_queue.capacity ≡ room_capacity

made :
    (m c : Bool)
    → m ≡ true
    → c ≡ true
    → (q : FileQueue) × (file_queue_init m c room_capacity ≡ some q)
unfolding file_queue_init
made m c e f = rw (e, f) (_, refl)

with_queue :
    (s after : Server) (q : FileQueue)
    → after.world ≡ s.world
    → after.upload_queue ≡ q
    → file_queue_init true true room_capacity ≡ some q
    → IsReady s after
with_queue s after q kept same e =
    let (valid, none_in, size) =
      Invariant.init-IsValid true true room_capacity (omega arith) (omega arith) e in
    record {
      world_kept = kept;
      queue_valid = rw same valid;
      queue_empty = rw (same, none_in) refl;
      capacity = rw same size;
    }

module _ (program port : Bytes) (calls : Calls) (s : Server) where
  opened :
      (fd : ℕ)
      → IsOpen calls fd
      → (after : Server) × (start_server true program calls port s ≡ some (listens fd, after))
        × IsReady s after
  unfolding start_server open_socket bind_and_listen
  opened fd h =
      let (q, e) = made true true refl refl in
      elim (Bool-cases calls.setsockopt_ok) [
        | inl f ↦
            rw (h.queue_made, h.buffer_made, e, h.socket_made, h.bound, h.listened, f)
              (_, refl, with_queue s _ q refl refl e)
        | inr f ↦
            rw (h.queue_made, h.buffer_made, e, h.socket_made, h.bound, h.listened, f)
              (_, refl, with_queue s _ q refl refl e)
      ]

  closed :
      (fd : ℕ) (after : Server)
      → start_server true program calls port s ≡ some (listens fd, after)
      → IsOpen calls fd
  unfolding start_server open_socket bind_and_listen file_queue_init
  closed fd after h = ground arith

  abbrev state_of : Option (Started × Server) → Server
  state_of none = s
  state_of (some (a, after)) = after

  pub listens-IsReady :
      (fd : ℕ) (after : Server)
      → start_server true program calls port s ≡ some (listens fd, after)
      → IsReady s after
  listens-IsReady fd after e =
      let (after', e', ready) = opened fd (closed fd after e) in
      subst (IsReady s) (ap state_of (sym e' ∙ e)) ready
