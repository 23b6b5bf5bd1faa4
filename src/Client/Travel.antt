-- ===== src/Client/Travel.antt =====
-- A file from the line that one user types to the disk of another: both clients, and the server between
-- them.
use chat_app_in_c.Common.{
  ℕ, suc, ◌+◌, ◌*◌, ◌<◌, ◌≤◌, ◌≡◌, refl, ap, sym, ◌∙◌, true, false, some, List, [], ◌∷◌, ◌++◌,
  length, length-append, length-take, take-all, append_assoc, arith,
}
use mathlib.Core.Option
use mathlib.Core.Path.{subst}
use chat_app_in_c.CString.{Bytes, isalnum, copy_into}
use chat_app_in_c.CString.Token.{AllBytes}
use chat_app_in_c.CString.Words.{IsWord, length-decimal}
use chat_app_in_c.Queue.{FileItem}
use chat_app_in_c.Queue.Invariant.{IsValid as QueueIsValid}
use chat_app_in_c.Queue.Contents.{contents, length-contents}
use chat_app_in_c.Server.{Ptr, Connection, World, Server}
use chat_app_in_c.Server.Invariant.{IsValid, name_of}
use chat_app_in_c.Server.Handler.{Thread}
use chat_app_in_c.Server.Handler.Upload.{goes_on}
use chat_app_in_c.Server.Handler.Upload.Queued.{NoneEmpty, joined_bytes}
use chat_app_in_c.Server.Handler.Loop.{Supply, bytes, client_ready}
use chat_app_in_c.Server.Worker.{frees, file_header, worker_round}
use chat_app_in_c.Server.Worker.Delivery.{output, NoneFails, total}
use chat_app_in_c.Server.Worker.Transfer.{worker_delivers}
use chat_app_in_c.Client.{Client, buf_size}
use chat_app_in_c.Client.Commands.{FileSystem, process_command, sendfile_header}
use chat_app_in_c.Client.Sending.{Sendable, sendfile_typed, client_sends_file}
use chat_app_in_c.Client.Requests.{sent_bytes}
use chat_app_in_c.Client.Sending.Queued.{file_item, sendfile_reaches_queue}
use chat_app_in_c.Client.Receiver.{System, Receiver, local_name, receive_all}
use chat_app_in_c.Client.Receiver.Header.{length-file_header}
use chat_app_in_c.Client.Receiver.Naming.{FindsFree}
use chat_app_in_c.Client.Receiver.Saved.{Finished}
use chat_app_in_c.Client.Receiver.Arrival.{opened, file_is_saved}

-- The sender: a file that the client agrees to send, all of which `read` gives
pub record Sender (files : FileSystem) (c : Client) (user filename : Bytes) (size : ℕ)
    (chunks : List Bytes) : Type 0 where
  pub sendable : Sendable files c user filename size chunks
  pub name_fits : length filename ≤ 255
  pub reads : NoneEmpty chunks
  pub whole : length (joined_bytes chunks) ≡ size

-- The server: both users are connected, the queue is empty, memory for the file is given, the bytes
-- come as they were sent, cut in any way, and no `write` fails.
pub record Ready (s : Server) (t : Thread) (supply : Supply) (v : Connection) (p : Ptr)
    (u : Connection) (user : Bytes) (size address : ℕ) (chunks : List Bytes) (writes : List ℕ)
    : Type 0 where
  pub valid : IsValid s.world
  pub queue_valid : QueueIsValid s.upload_queue
  pub empty : contents s.upload_queue ≡ []
  pub from : s.conn_at t.connection ≡ some v
  pub name_alnum : AllBytes isalnum v.username
  pub there : s.conn_at p ≡ some u
  pub named : u.username ≡ user
  pub allocated : supply.malloc ≡ some address
  pub arriving : NoneEmpty supply.chunks
  pub same : joined_bytes supply.chunks ≡ joined_bytes chunks
  pub ok : NoneFails writes
  pub enough : size ≤ total writes

-- The recipient's client: it is idle, gets the bytes cut in any way behind the header, can create files,
-- and the name leaves room for its variants.
pub record Waiting (sys : System) (r : Receiver) (item : FileItem) (d : Bytes) (bufs : List Bytes)
    (content : Bytes) : Type 0 where
  pub idle : r.receiving_file ≡ false
  pub short : length (file_header item ++ d) < buf_size
  pub pieces : NoneEmpty bufs
  pub stream : d ++ joined_bytes bufs ≡ content
  pub creates : (name : Bytes) → sys.creates name ≡ true
  pub room :
      length (local_name sys item.filename).0
        + length (local_name sys item.filename).1
        + 2 * length r.disk
      ≤ 255

module _ (files : FileSystem) (c : Client) (user filename : Bytes) (size : ℕ) (chunks : List Bytes)
    (h : Sender files c user filename size chunks) (s : Server) (t : Thread) (supply : Supply)
    (v : Connection) (p : Ptr) (u : Connection) (address : ℕ) (writes : List ℕ)
    (k : Ready s t supply v p u user size address chunks writes) where
  abbrev sent_item : FileItem
  sent_item = file_item v user filename size address (joined_bytes chunks)

  name_kept : copy_into 256 filename ≡ filename
  name_kept = take-all 255 filename h.name_fits

  user_fits : (q : Ptr) (w : Connection) → s.conn_at q ≡ some w → length w.username ≤ 15
  user_fits q w e = ground (arith, k.valid.users_fit q w.username (ap name_of e))

  sender_kept : copy_into 16 v.username ≡ v.username
  sender_kept = take-all 15 v.username (user_fits t.connection v k.from)

  target_kept : u.username ≡ copy_into 16 user
  target_kept =
      k.named ∙ sym (take-all 15 user (ground (arith, user_fits p u k.there, ap length k.named)))

  header_short : length (file_header sent_item) ≤ 4095
  header_short = ground (
    arith,
    length-file_header sent_item,
    length-decimal size,
    ap length name_kept,
    ap length sender_kept,
    h.name_fits,
    user_fits t.connection v k.from,
  )

  -- The server's part, from the sender's line to the recipient's notify socket
  server_part :
      (s1 s2 : Server) × (client_ready t supply (bytes (sendfile_header filename user size)) s
        ≡ some (goes_on, s1))
      × (worker_round writes s1 ≡ some (some (frees sent_item.payload), s2))
      × (output u.notify_writer s2.trace
          ≡ output u.notify_writer s1.trace ++ (file_header sent_item ++ joined_bytes chunks))
  server_part =
      let space : s.upload_queue.count < s.upload_queue.capacity =
        omega (
          arith,
          sym (length-contents s.upload_queue) ∙ ap length k.empty,
          k.queue_valid.head_in,
        ) in
      let (_, s1, received, valid1, queued, same_world) =
        sendfile_reaches_queue files c user filename size chunks h.sendable t supply s v address
          h.reads h.whole k.queue_valid space k.from k.allocated k.arriving k.same in
      let (s2, round, out) =
        worker_delivers s1 p u sent_item []
          (record { address = address; bytes = joined_bytes chunks }) writes
          (subst IsValid (sym same_world) k.valid) valid1
          (queued ∙ ap (λ xs. xs ++ sent_item ∷ []) k.empty)
          (ap (λ (w : World). w.conn_at p) same_world ∙ k.there) target_kept refl refl h.whole
          header_short k.ok k.enough in
      (s1, s2, received, round, out)

  -- The whole way of a file. A user types `/sendfile` with a connected user's name and a file that may be
  -- sent; then the sender's client sends its header and its bytes. If one `recv` of the sender's thread
  -- gives this header, whole and alone, and later ones give the bytes, cut in any way, then the thread
  -- puts them into the queue, which was empty, and the next worker writes a header and these bytes to the
  -- recipient's notify socket. If the first `recv` of the recipient's client, which is idle, gives that
  -- whole header, with any number of the bytes behind it that leave space in the buffer, and later ones
  -- give the rest, cut in any way, then that client saves exactly the sender's bytes, under a name that no
  -- file had, and reports it. The calls that can fail do not: `malloc`, `read`, the worker's `write`, and
  -- the opening of the new file; and the file's name has at most 255 bytes, also with `_1` appended for
  -- each file that is there.
  pub file_travels :
      (sys : System) (c' : Client) (r : Receiver) (d : Bytes) (bufs : List Bytes)
      → Waiting sys r sent_item d bufs (joined_bytes chunks)
      → (Option.map sent_bytes (process_command files c (sendfile_typed user filename))
          ≡ some (sendfile_header filename user size ++ joined_bytes chunks))
        × (s1 s2 : Server) × (client_ready t supply (bytes (sendfile_header filename user size)) s
            ≡ some (goes_on, s1))
        × (worker_round writes s1 ≡ some (some (frees sent_item.payload), s2))
        × (output u.notify_writer s2.trace
            ≡ output u.notify_writer s1.trace
              ++ ((file_header sent_item ++ d) ++ joined_bytes bufs))
        × (found : Bytes) × FindsFree r.disk
            (local_name sys sent_item.filename).0
            (local_name sys sent_item.filename).1
            (some found)
        × Finished c'
            (opened r sent_item found)
            (joined_bytes chunks)
            (receive_all sys (suc (length r.disk)) c' r ((file_header sent_item ++ d) ∷ bufs))
  file_travels sys c' r d bufs w =
      let (s1, s2, received, round, out) = server_part in
      let word : IsWord sent_item.filename = subst IsWord (sym name_kept) h.sendable.file_word in
      let sender : AllBytes isalnum sent_item.sender =
        subst (AllBytes isalnum) (sym sender_kept) k.name_alnum in
      let counted : length d + length (joined_bytes bufs) ≡ size =
        sym (length-append d (joined_bytes bufs)) ∙ ap length w.stream ∙ h.whole in
      let sender_short : length sent_item.sender ≤ 15 = omega (arith, length-take 15 v.username) in
      let (found, free, saved) =
        file_is_saved sys c' r sent_item d bufs w.idle word sender sender_short h.sendable.not_empty
          (omega (arith, h.sendable.not_large)) w.short w.pieces counted w.creates w.room in
      (
        client_sends_file files c user filename size chunks h.sendable h.reads h.whole,
        s1,
        s2,
        received,
        round,
        out
            ∙ ap (λ x. output u.notify_writer s1.trace ++ x)
                (ap (λ x. file_header sent_item ++ x) (sym w.stream)
                  ∙ sym (append_assoc (file_header sent_item) d (joined_bytes bufs))),
        found,
        free,
        subst
            (λ x.
              Finished c' (opened r sent_item found) x
                (receive_all sys (suc (length r.disk)) c' r ((file_header sent_item ++ d) ∷ bufs)))
            w.stream saved,
      )
