-- ===== src/Client/Sending/Queued.antt =====
-- `/sendfile` from the line that the user types to the upload queue of the server.
use chat_app_in_c.Common.{
  ℕ, ◌<◌, ◌≤◌, ◌≡◌, refl, ap, ◌∙◌, false, ◌||◌, some, List, [], ◌∷◌, ◌++◌, ◌==◌, ltb, length, take,
  take-all, arith,
}
use mathlib.Core.Option
use chat_app_in_c.CString.{Bytes, codes, str_eq, strtok, is_blank_crnl, decimal}
use chat_app_in_c.CString.Token.{Lacks}
use chat_app_in_c.CString.Number.{strtoul-decimal}
use chat_app_in_c.CString.Words.{
  IsWord, Lacks-append, IsWord-Lacks, c_string_self, strtok-word, decimal-IsWord, blank_crnl_Within,
  zero_Within,
}
use chat_app_in_c.Queue.{FileItem}
use chat_app_in_c.Queue.Invariant.{IsValid}
use chat_app_in_c.Queue.Contents.{contents}
use chat_app_in_c.Client.{Client, newline}
use chat_app_in_c.Client.Commands.{FileSystem, process_command, max_file_size, sendfile_header}
use chat_app_in_c.Client.Sending.{Sendable, sendfile_typed, client_sends_file}
use chat_app_in_c.Client.Requests.{sent_bytes}
use chat_app_in_c.Server.{Event as Trace, Connection, Server, M, ◌>>=◌, ◌>>◌, read_conn, say}
use chat_app_in_c.Server.Message
use chat_app_in_c.Server.Handler.{Thread}
use chat_app_in_c.Server.Handler.Upload.{
  Next, goes_on, upload_item, recv_file, receive_file, sendfile_args, do_sendfile,
}
use chat_app_in_c.Server.Handler.Upload.Queued.{
  NoneEmpty, joined_bytes, recv_file_exact, receive_file_queues,
}
use chat_app_in_c.Server.Handler.Loop.{Supply, bytes, dispatch, run_command, client_ready}

-- The server's part: the line after its first word, with the size read back from its decimal form
module _ (t : Thread) (supply : Supply) (user filename : Bytes) (size : ℕ) (is_user : IsWord user)
    (is_file : IsWord filename) (positive : 0 < size) (limited : size ≤ max_file_size) where
  pub header_Lacks : Lacks (λ b. b == 0) (sendfile_header filename user size)
  header_Lacks = ground (
    arith,
    Lacks-append (λ b. b == 0) filename (b' ' ∷ (user ++ b' ' ∷ (decimal size ++ newline)))
        (IsWord-Lacks filename zero_Within is_file),
    Lacks-append (λ b. b == 0) user (b' ' ∷ (decimal size ++ newline))
        (IsWord-Lacks user zero_Within is_user),
    Lacks-append (λ b. b == 0) (decimal size) newline
        (IsWord-Lacks (decimal size) zero_Within (decimal-IsWord size)),
  )

  do_sendfile-header :
      do_sendfile t supply.malloc supply.chunks
        (filename ++ b' ' ∷ (user ++ b' ' ∷ (decimal size ++ newline)))
      ≡ receive_file t filename user size supply.malloc supply.chunks
  unfolding do_sendfile sendfile_args
  do_sendfile-header =
      let sized : ((size == 0) || ltb max_file_size size) ≡ false = ground arith in
      rw
        (
          strtok-word is_blank_crnl filename (user ++ b' ' ∷ (decimal size ++ newline)) (b' ')
              blank_crnl_Within is_file refl,
          strtok-word is_blank_crnl user (decimal size ++ newline) (b' ') blank_crnl_Within is_user
              refl,
          strtok-word is_blank_crnl (decimal size) [] 10 blank_crnl_Within (decimal-IsWord size)
              refl,
          strtoul-decimal size (omega arith),
          sized,
        )
        refl

  header_first_word :
      strtok is_blank_crnl (sendfile_header filename user size)
      ≡ (some (codes "/sendfile"), filename ++ b' ' ∷ (user ++ b' ' ∷ (decimal size ++ newline)))
  unfolding strtok
  header_first_word = refl

  abbrev pub log_and_receive : M Next
  log_and_receive = do
    v ← read_conn t.connection
    say (Message.sent_command v (codes "/sendfile"))
    receive_file t filename user size supply.malloc supply.chunks

  client_ready-sendfile :
      (s : Server)
      → client_ready t supply (bytes (sendfile_header filename user size)) s ≡ log_and_receive s
  unfolding client_ready run_command dispatch str_eq
  client_ready-sendfile s =
      rw
        (
          c_string_self (sendfile_header filename user size) header_Lacks,
          header_first_word,
          do_sendfile-header,
        )
        refl

-- What the thread queues: the file's bytes under the name and for the user that were typed
abbrev pub file_item : Connection → Bytes → Bytes → ℕ → ℕ → Bytes → FileItem
file_item v user filename size address content =
    upload_item v filename user size (record { address = address; bytes = content })

module _ (files : FileSystem) (c : Client) (user filename : Bytes) (size : ℕ) (chunks : List Bytes)
    (h : Sendable files c user filename size chunks) where
  module _ (t : Thread) (supply : Supply) (s : Server) (v : Connection) (address : ℕ) where
    -- `/sendfile` typed by a user puts the file into the server's queue. The client accepts the line and
    -- sends its header and the bytes of the file; the server's thread for that client, given the header
    -- by one `recv` and the bytes by later ones, cut in any way, appends one item to the queue: these
    -- bytes, from this client, under the name and for the user that were typed. The tables stay as they
    -- are. No `read` and no `recv` may fail, `read` gives as many bytes as `stat` said, and the queue must
    -- have space.
    pub sendfile_reaches_queue :
        NoneEmpty chunks
        → length (joined_bytes chunks) ≡ size
        → IsValid s.upload_queue
        → s.upload_queue.count < s.upload_queue.capacity
        → s.conn_at t.connection ≡ some v
        → supply.malloc ≡ some address
        → NoneEmpty supply.chunks
        → joined_bytes supply.chunks ≡ joined_bytes chunks
        → (Option.map sent_bytes (process_command files c (sendfile_typed user filename))
            ≡ some (sendfile_header filename user size ++ joined_bytes chunks))
          × (s' : Server) × (client_ready t supply (bytes (sendfile_header filename user size)) s
              ≡ some (goes_on, s'))
          × IsValid s'.upload_queue
          × (contents s'.upload_queue
              ≡ contents s.upload_queue
                ++ file_item v user filename size address (joined_bytes chunks) ∷ [])
          × (s'.world ≡ s.world)
    sendfile_reaches_queue some_bytes whole valid space known allocated arriving same =
        let got : recv_file size supply.chunks ≡ joined_bytes chunks =
          recv_file_exact size supply.chunks arriving
          ∙ ap (take size) same
          ∙ take-all size (joined_bytes chunks) (omega (arith, whole)) in
        let (s', e, valid', queued, same_world) =
          receive_file_queues t logged v filename user size address supply.chunks valid known
            (ap length got ∙ whole) space in
        (
          client_sends_file files c user filename size chunks h some_bytes whole,
          s',
          client_ready-sendfile t supply user filename size h.user_word h.file_word h.not_empty
                h.not_large s
              ∙ rw (known, allocated) e,
          valid',
          queued
              ∙ ap (λ b. contents s.upload_queue ++ file_item v user filename size address b ∷ [])
                  got,
          same_world,
        )
      where
        logged : Server
        logged = record s {
          trace =
              Trace.printed (Message.sent_command v (codes "/sendfile"))
              ∷ Trace.logged (Message.sent_command v (codes "/sendfile"))
              ∷ s.trace;
        }
