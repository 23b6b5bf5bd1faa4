-- ===== src/Server/Frames.antt =====
-- What a client's thread keeps of the connections and of the upload queue, stated for any condition
-- that its own writes keep.
pub mod Rooms
pub mod Handler
pub mod Upload
pub mod Session
use chat_app_in_c.Common.{
  ℕ, ◌≡◌, refl, ◌≢◌, Bool, true, false, Option, none, some, if◌then◌else◌, ◌==◌, arith,
}
use chat_app_in_c.Queue.{FileItem, FileQueue, file_queue_enqueue}
use chat_app_in_c.Queue.Contents.{IsFile}
use chat_app_in_c.Server.{Ptr, Connection, World, Server, M, bind_result, update}

-- A condition on the connections and on the queue that a write to the connection `c` keeps, and that
-- putting a file into the queue keeps
pub record Frame (c : Ptr) : Type 1 where
  pub keeps : (Ptr → Option Connection) → FileQueue → Type 0
  pub write :
      (f : Ptr → Option Connection) (q : FileQueue) (o : Option Connection)
      → keeps f q
      → keeps (update f c o) q
  pub enqueue :
      (f : Ptr → Option Connection) (q q' : FileQueue) (item : FileItem)
      → IsFile item
      → file_queue_enqueue q item ≡ some q'
      → keeps f q
      → keeps f q'

abbrev pub Holds : (c : Ptr) → Frame c → Server → Type 0
Holds c w s = w.keeps s.conn_at s.upload_queue

-- If the action returns, the condition holds afterwards.
abbrev pub Framed : {A : Type 0} (c : Ptr) → Frame c → Option (A × Server) → Type 0
Framed c w none = Unit {0}
Framed c w (some (a, s)) = Holds c w s

module _ (c : Ptr) (w : Frame c) where
  -- Behind a call
  pub call-Framed :
      {A B : Type 0} (o : Option (A × Server)) (f : A → M B)
      → Framed c w o
      → ((a : A) (s : Server) → Holds c w s → Framed c w (f a s))
      → Framed c w (bind_result o f)
  call-Framed none f h k = tt
  call-Framed (some (a, s)) f h k = k a s h

  pub if_Framed :
      {A : Type 0} (b : Bool) (m k : M A) (s : Server)
      → Framed c w (m s)
      → Framed c w (k s)
      → Framed c w ((if b then m else k) s)
  if_Framed true m k s h h' = h
  if_Framed false m k s h h' = h'

  -- A write to `c` itself
  pub own_write :
      (s : Server) (o : Option Connection)
      → Holds c w s
      → w.keeps (update s.conn_at c o) s.upload_queue
  own_write s o h = w.write s.conn_at s.upload_queue o h

-- Every connection but `c` is as it was.
abbrev pub Others : Ptr → World → World → Type 0
Others c w w' = (d : Ptr) → d ≢ c → w'.conn_at d ≡ w.conn_at d

abbrev pub others : (c : Ptr) → World → Frame c
others c w = record {
  keeps = λ f q. (d : Ptr) → d ≢ c → f d ≡ w.conn_at d;
  write = λ f q o h d other. ground (arith, h d);
  enqueue = λ f q q' item file e h. h;
}

pub Others-refl : (c : Ptr) (w : World) → Others c w w
Others-refl c w d other = refl
