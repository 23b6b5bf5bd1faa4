-- ===== src/Server.antt =====
-- The state of the server, server/include/chatserver.h, and the actions that its functions are made of.
-- `connection_t` and `room_t` live on a heap; the two global arrays hold pointers into it. An action
-- that reads through a pointer to nothing, NULL or freed, is `none`: what C leaves undefined.
pub mod Message
pub mod Names
pub mod Rooms
pub mod Connections
pub mod Invariant
pub mod Handler
pub mod Accept
pub mod Worker
pub mod Steps
pub mod Frames
pub mod Threads
pub mod Uploads
pub mod Spawn
pub mod Shutdown
pub mod Start
pub mod Life
pub mod Tests
use chat_app_in_c.Common.{
  ℕ, zero, suc, ◌+◌, ◌-◌, Bool, true, false, Option, none, some, List, [], ◌∷◌, ◌++◌, leb, ◌==◌,
  if◌then◌else◌, length, take, set, replicate,
}
use chat_app_in_c.CString.{Bytes}
use chat_app_in_c.Queue.{FileQueue}

abbrev pub max_conn : ℕ
max_conn = 256

abbrev pub username_len : ℕ
username_len = 16

abbrev pub buf_size : ℕ
buf_size = 4096

abbrev pub room_name_len : ℕ
room_name_len = 32

abbrev pub max_rooms : ℕ
max_rooms = 256

abbrev pub room_capacity : ℕ
room_capacity = 15

-- The address of a heap object. NULL is no address: a pointer that may be NULL is an `Option Ptr`.
abbrev pub Ptr : Type 0
Ptr = ℕ

-- `room_t`, less its mutex
pub record Room : Type 0 where
  pub name : Bytes
  pub members : List (Option Ptr)
  pub member_count : ℕ

-- `connection_t`; of `thread_info`, the thread id and the flag `initialized`
pub record Connection : Type 0 where
  pub username : Bytes
  pub sockfd : ℕ
  pub notify_fd : ℕ
  pub notify_writer : ℕ
  pub tid : ℕ
  pub initialized : Bool
  pub room : Option Ptr

-- What the process does to the outside, newest first in the trace. `written_past` is a `write` that
-- goes on past its buffer: the bytes of the buffer, and how many bytes behind it are written too.
pub data Event : Type 0 where
  logged printed : Bytes → Event
  sent written : ℕ → Bytes → Event
  written_past : ℕ → Bytes → ℕ → Event
  shut closed : ℕ → Event

-- The global arrays and the heap
pub record World : Type 0 where
  pub connections : List (Option Ptr)
  pub rooms : List (Option Ptr)
  pub conn_at : Ptr → Option Connection
  pub room_at : Ptr → Option Room

pub record Server : Type 0 where
  pub world : World
  pub open world use *
  pub upload_queue : FileQueue
  pub trace : List Event

abbrev pub M : Type 0 → Type 0
M A = Server → Option (A × Server)

abbrev pub pure : {A : Type 0} → A → M A
pure a s = some (a, s)

abbrev pub undefined : {A : Type 0} → M A
undefined s = none

abbrev pub bind_result : {A B : Type 0} → Option (A × Server) → (A → M B) → Option (B × Server)
bind_result none f = none
bind_result (some (a, s)) f = f a s

infixl 5 ◌>>=◌ ◌>>◌
abbrev pub ◌>>=◌ : {A B : Type 0} → M A → (A → M B) → M B
◌>>=◌ m f s = bind_result (m s) f

abbrev pub ◌>>◌ : {B : Type 0} → M (Unit {0}) → M B → M B
m >> k = m >>= λ _. k

abbrev pub update {ℓ} : {A : Type ℓ} → (Ptr → A) → Ptr → A → Ptr → A
update f p v q = if p == q then v else f q

abbrev pub gets : {A : Type 0} → (Server → A) → M A
gets f s = some (f s, s)

-- A load through a pointer
abbrev pub deref : {A : Type 0} → Option A → M A
deref none = undefined
deref (some a) = pure a

abbrev pub read_conn : Ptr → M Connection
read_conn c s = deref (s.conn_at c) s

abbrev pub read_room : Ptr → M Room
read_room r s = deref (s.room_at r) s

abbrev pub modify : (World → World) → M (Unit {0})
modify f s = some (tt, record s { world = f s.world })

abbrev pub write_conn : Ptr → Connection → M (Unit {0})
write_conn c v = modify λ w. record w { conn_at = update w.conn_at c (some v) }

abbrev pub write_room : Ptr → Room → M (Unit {0})
write_room r v = modify λ w. record w { room_at = update w.room_at r (some v) }

abbrev pub free_conn : Ptr → M (Unit {0})
free_conn c = modify λ w. record w { conn_at = update w.conn_at c none }

abbrev pub free_room : Ptr → M (Unit {0})
free_room r = modify λ w. record w { room_at = update w.room_at r none }

abbrev pub emit : Event → M (Unit {0})
emit e s = some (tt, record s { trace = e ∷ s.trace })

-- `log_write(msg); safe_print(msg);`
abbrev pub say : Bytes → M (Unit {0})
say msg s = some (tt, record s { trace = Event.printed msg ∷ Event.logged msg ∷ s.trace })

abbrev pub when : Bool → M (Unit {0}) → M (Unit {0})
when b m = if b then m else pure tt

-- `write(fd, buf, len)` where `len` is what `snprintf(buf, BUF_SIZE, …)` returned: the length of the
-- whole text, though the buffer holds at most 4095 bytes of it and a zero.
unfoldable pub write_formatted : ℕ → Bytes → Event
write_formatted fd text =
    if leb (length text) (buf_size - 1)
    then Event.written fd text
    else Event.written_past fd (take (buf_size - 1) text ++ 0 ∷ []) (length text - buf_size)
