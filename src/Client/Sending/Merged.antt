-- ===== src/Client/Sending/Merged.antt =====
-- A file whose first bytes reach `client_handler` of server/src/chatserver.c in the `recv` that gives the
-- `/sendfile` line.
use chat_app_in_c.Common.{
  ℕ, ◌+◌, ◌<◌, ◌≤◌, ◌≡◌, refl, ap, ◌∙◌, false, ◌||◌, some, [], ◌∷◌, ◌++◌, append_assoc, ◌==◌, ltb,
  length, length-take, arith,
}
use chat_app_in_c.CString.{Bytes, codes, c_string, str_eq, strtok, is_blank_crnl, decimal}
use chat_app_in_c.CString.Token.{Lacks}
use chat_app_in_c.CString.Number.{strtoul-decimal}
use chat_app_in_c.CString.Words.{IsWord, strtok-word, decimal-IsWord, blank_crnl_Within}
use chat_app_in_c.Client.{newline}
use chat_app_in_c.Client.Commands.{max_file_size, sendfile_header}
use chat_app_in_c.Client.Sending.Queued.{header_Lacks}
use chat_app_in_c.Server.{Connection, Server, Event}
use chat_app_in_c.Server.Message
use chat_app_in_c.Server.Handler.{Thread}
use chat_app_in_c.Server.Handler.Upload.{continues, receive_file, sendfile_args, do_sendfile}
use chat_app_in_c.Server.Handler.Upload.Queued.{
  NoneEmpty, joined_bytes, recv_file_exact, receive_file_short,
}
use chat_app_in_c.Server.Handler.Loop.{Supply, bytes, dispatch, run_command, client_ready}

-- A string ends at the first zero, which is not in its first part.
c_string-append : (a b : Bytes) → Lacks (λ x. x == 0) a → c_string (a ++ b) ≡ a ++ c_string b
unfolding c_string
c_string-append [] b h = refl
c_string-append (x ∷ a) b (h, rest) = rw h (ap (λ s. x ∷ s) (c_string-append a b rest))

module _ (t : Thread) (supply : Supply) (user filename : Bytes) (size : ℕ) (is_user : IsWord user)
    (is_file : IsWord filename) (positive : 0 < size) (limited : size ≤ max_file_size)
    (early : Bytes) where
  do_sendfile-merged :
      (tail : Bytes)
      → do_sendfile t supply.malloc supply.chunks
          (filename ++ b' ' ∷ (user ++ b' ' ∷ (decimal size ++ 10 ∷ tail)))
        ≡ receive_file t filename user size supply.malloc supply.chunks
  unfolding do_sendfile sendfile_args
  do_sendfile-merged tail =
      let sized : ((size == 0) || ltb max_file_size size) ≡ false = ground arith in
      rw
        (
          strtok-word is_blank_crnl filename (user ++ b' ' ∷ (decimal size ++ 10 ∷ tail)) (b' ')
              blank_crnl_Within is_file refl,
          strtok-word is_blank_crnl user (decimal size ++ 10 ∷ tail) (b' ') blank_crnl_Within
              is_user refl,
          strtok-word is_blank_crnl (decimal size) tail 10 blank_crnl_Within (decimal-IsWord size)
              refl,
          strtoul-decimal size (omega arith),
          sized,
        )
        refl

  first_word_merged :
      (tail : Bytes)
      → strtok is_blank_crnl (sendfile_header filename user size ++ tail) ≡ (
        some (codes "/sendfile"),
        filename ++ b' ' ∷ (user ++ b' ' ∷ (decimal size ++ 10 ∷ tail)),
      )
  unfolding strtok
  first_word_merged tail =
      ap (λ rest. (some (codes "/sendfile"), rest))
        (append_assoc filename (b' ' ∷ (user ++ b' ' ∷ (decimal size ++ newline))) tail
          ∙ ap (λ rest. filename ++ b' ' ∷ rest)
              (append_assoc user (b' ' ∷ (decimal size ++ newline)) tail
                ∙ ap (λ rest. user ++ b' ' ∷ rest) (append_assoc (decimal size) newline tail)))

  -- A file is lost whose first bytes come in the `recv` that gives the `/sendfile` line: if the bytes
  -- behind the line and those that later calls of `recv` give, none of which fails, are together the
  -- whole file, and then no more come, the thread takes the file for a short one. It tells the client
  -- so, and neither the queue nor a table changes. The two names of the line are words without blanks, the
  -- size is one that the client may send, and `malloc` gives memory.
  pub merged_file_lost :
      (s : Server) (v : Connection) (address : ℕ)
      → s.conn_at t.connection ≡ some v
      → supply.malloc ≡ some address
      → NoneEmpty supply.chunks
      → 0 < length early
      → length early + length (joined_bytes supply.chunks) ≡ size
      → client_ready t supply (bytes (sendfile_header filename user size ++ early)) s
        ≡ some (
          continues,
          record s {
            trace =
                Event.sent t.tcp_fd Message.short_file
                ∷ Event.printed (Message.sent_command v (codes "/sendfile"))
                ∷ Event.logged (Message.sent_command v (codes "/sendfile"))
                ∷ s.trace;
          },
        )
  unfolding client_ready run_command dispatch str_eq
  merged_file_lost s v address known allocated arriving some_data whole =
      rw
        (
          c_string-append (sendfile_header filename user size) early
              (header_Lacks t supply user filename size is_user is_file positive limited),
          first_word_merged (c_string early),
          do_sendfile-merged (c_string early),
          known,
          allocated,
        )
        (receive_file_short t _ filename user size address supply.chunks (
          omega (
            arith,
            ap length (recv_file_exact size supply.chunks arriving),
            length-take size (joined_bytes supply.chunks),
            some_data,
            whole,
          )))
