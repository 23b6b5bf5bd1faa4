-- ===== src/Server/Worker/Unchanged.antt =====
-- A worker changes the upload queue and no table.
use chat_app_in_c.Common.{
  ℕ, zero, suc, ◌≡◌, refl, Bool, true, false, Option, none, some, List, [], ◌∷◌, ◌==◌, length, drop,
}
use mathlib.Core.Path.{subst}
use chat_app_in_c.CString.{Bytes}
use chat_app_in_c.Queue.{Block, FileItem, FileQueue, file_queue_dequeue}
use chat_app_in_c.Server.{Ptr, Connection, World, Server, M, bind_result}
use chat_app_in_c.Server.Connections.{find_slot, find_connection, find_user}
use chat_app_in_c.Server.Worker.{
  send_bytes, report, send_file, drop_file, send_to, serve, dequeued, worker_round,
}

-- If the action returns, the tables and the heap are as they were.
abbrev pub Leaves : {A : Type 0} → World → Option (A × Server) → Type 0
Leaves w none = Unit {0}
Leaves w (some (a, s)) = s.world ≡ w

Leaves-bind :
    {A B : Type 0} (w : World) (o : Option (A × Server)) (f : A → M B)
    → Leaves w o
    → ((a : A) (s : Server) → Leaves s.world (f a s))
    → Leaves w (bind_result o f)
Leaves-bind w none f h k = tt
Leaves-bind {A} {B} w (some (a, s)) f h k = subst (λ x. Leaves x (f a s)) h (k a s)

send_bytes-Leaves :
    (fd : ℕ) (bytes : Bytes) (writes : List ℕ) (s : Server)
    → Leaves s.world (send_bytes fd bytes writes s)
unfolding send_bytes
send_bytes-Leaves fd [] writes s = refl
send_bytes-Leaves fd (b ∷ bs) [] s = refl
send_bytes-Leaves fd (b ∷ bs) (zero ∷ writes) s = refl
send_bytes-Leaves fd (b ∷ bs) (suc n ∷ writes) s = send_bytes-Leaves fd (drop n bs) writes _

send_whole-Leaves :
    (item : FileItem) (writes : List ℕ) (c : Connection) (block : Block) (b : Bool)
    → length block.bytes == item.size ≡ b
    → (s : Server) → Leaves s.world (send_file item writes c (some block) s)
unfolding send_file report
send_whole-Leaves item writes c block true e s = simp e (
    Leaves-bind s.world (send_bytes c.notify_writer block.bytes writes _) _
      (send_bytes-Leaves c.notify_writer block.bytes writes _) (λ sent s'. refl))
send_whole-Leaves item writes c block false e s = simp e tt

send_file-Leaves :
    (item : FileItem) (writes : List ℕ) (c : Connection) (o : Option Block) (s : Server)
    → Leaves s.world (send_file item writes c o s)
unfolding send_file
send_file-Leaves item writes c none s = tt
send_file-Leaves item writes c (some block) s = send_whole-Leaves item writes c block _ refl s

send_to-Leaves :
    (item : FileItem) (writes : List ℕ) (o : Option Ptr) (s : Server)
    → Leaves s.world (send_to item writes o s)
unfolding send_to drop_file
send_to-Leaves item writes none s = refl
send_to-Leaves item writes (some p) s = go (s.conn_at p) refl
  where
    go : (o : Option Connection) → s.conn_at p ≡ o → Leaves s.world (send_to item writes (some p) s)
    go none e = simp e tt
    go (some c) e = simp e (send_file-Leaves item writes c item.payload s)

find_connection-Leaves : (name : Bytes) (s : Server) → Leaves s.world (find_connection name s)
unfolding find_connection find_slot
find_connection-Leaves name s = go (find_user s.conn_at name s.connections) refl
  where
    go :
        (o : Option (Option (ℕ × Ptr)))
        → find_user s.conn_at name s.connections ≡ o
        → Leaves s.world (find_connection name s)
    go none e = simp e tt
    go (some slot) e = simp e refl

serve-Leaves :
    (item : FileItem) (writes : List ℕ) (s : Server) → Leaves s.world (serve item writes s)
unfolding serve
serve-Leaves item writes s = go item.is_sentinel refl
  where
    go : (b : Bool) → item.is_sentinel ≡ b → Leaves s.world (serve item writes s)
    go true e = simp e refl
    go false e = simp e (
        Leaves-bind s.world (find_connection item.target s) _ (find_connection-Leaves item.target s)
          (λ o s'. send_to-Leaves item writes o s'))

pub worker_round-Leaves : (writes : List ℕ) (s : Server) → Leaves s.world (worker_round writes s)
unfolding worker_round dequeued
worker_round-Leaves writes s = go (file_queue_dequeue s.upload_queue)
  where
    go : (o : Option (FileItem × FileQueue)) → Leaves s.world (dequeued writes o s)
    go none = refl
    go (some (item, q)) =
        Leaves-bind s.world (serve item writes (record s { upload_queue = q })) _
          (serve-Leaves item writes (record s { upload_queue = q })) (λ served s'. refl)
