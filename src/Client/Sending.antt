-- ===== src/Client/Sending.antt =====
-- `/sendfile` at the client: the line that the user types, and what is sent for it.
pub mod Queued
pub mod Merged
use chat_app_in_c.Common.{
  ℕ, ◌+◌, ◌<◌, ◌≤◌, ◌≡◌, refl, ap, ap₂, sym, ◌∙◌, ◌≢◌, true, false, Option, ◌&&◌, ◌||◌, some, List,
  [], ◌∷◌, ◌++◌, ◌==◌, ltb, length, length-append, take, take-all, append_assoc, arith,
}
use mathlib.Core.Option
use chat_app_in_c.CString.{
  Bytes, codes, str_eq, strrchr, strtok, is_blank_nl, is_blank_crnl, decimal,
}
use chat_app_in_c.CString.Token.{Lacks}
use chat_app_in_c.CString.Number.{strtoul-decimal}
use chat_app_in_c.CString.Words.{
  IsWord, Lacks-append, IsWord-Lacks, c_string_self, strtok-word, strtok-word_last, decimal-IsWord,
  length-decimal, blank_nl_Within, blank_crnl_Within, zero_Within,
}
use chat_app_in_c.Terminal.{ti_maxline}
use chat_app_in_c.Queue.{FileItem}
use chat_app_in_c.Queue.Invariant.{IsValid}
use chat_app_in_c.Queue.Contents.{contents}
use chat_app_in_c.Client.{Event, Client, newline, buf_size}
use chat_app_in_c.Client.Commands.{
  FileSystem, request, process_command, allowed_extension, max_file_size, sendfile_header,
  send_chunks,
}
use chat_app_in_c.Client.Requests.{sent_bytes, sent_bytes-request, whisper_not_self}
use chat_app_in_c.Server.{Event as Trace, Connection, Server, M, ◌>>=◌, ◌>>◌, read_conn, say}
use chat_app_in_c.Server.Message
use chat_app_in_c.Server.Handler.{Thread}
use chat_app_in_c.Server.Handler.Upload.{
  Next, goes_on, upload_item, recv_file, receive_file, sendfile_args, do_sendfile,
}
use chat_app_in_c.Server.Handler.Upload.Queued.{
  NoneEmpty, joined_bytes, recv_file_exact, receive_file_queues,
}
use chat_app_in_c.Server.Handler.Loop.{Supply, bytes, dispatch, run_command, client_ready}

-- A file that the client agrees to send: what the user typed, and what the file system answers
pub record Sendable (files : FileSystem) (c : Client) (user filename : Bytes) (size : ℕ)
    (chunks : List Bytes) : Type 0 where
  pub user_word : IsWord user
  pub file_word : IsWord filename
  pub not_self : user ≢ c.username
  pub fits : length (codes "/sendfile " ++ (user ++ b' ' ∷ filename)) < ti_maxline
  pub has_size : files.stat filename ≡ some size
  pub not_empty : 0 < size
  pub not_large : size ≤ max_file_size
  pub extension : allowed_extension (strrchr b'.' filename) ≡ true
  pub readable : files.open_read filename ≡ some chunks

-- The line to type
abbrev pub sendfile_typed : Bytes → Bytes → Bytes
sendfile_typed user filename = codes "/sendfile " ++ (user ++ b' ' ∷ filename)

first_word_typed :
    (user filename : Bytes)
    → strtok is_blank_nl (sendfile_typed user filename)
      ≡ (some (codes "/sendfile"), user ++ b' ' ∷ filename)
unfolding strtok
first_word_typed user filename = refl

module _ (files : FileSystem) (c : Client) (user filename : Bytes) (size : ℕ) (chunks : List Bytes)
    (h : Sendable files c user filename size chunks) where
  process_command_sendfile :
      process_command files c (sendfile_typed user filename)
      ≡ some (request c (sendfile_header filename user size) ++ send_chunks 0 size chunks)
  unfolding process_command str_eq
  process_command_sendfile =
      let sized : ((size == 0) || ltb max_file_size size) ≡ false =
        ground (arith, h.not_empty, h.not_large) in
      rw
        (
          first_word_typed user filename,
          strtok-word is_blank_nl user filename (b' ') blank_nl_Within h.user_word refl,
          whisper_not_self user c.username h.not_self,
          strtok-word_last is_blank_nl filename blank_nl_Within h.file_word,
          h.has_size,
          sized,
          h.extension,
          h.readable,
        )
        refl

-- The chunks are sent until the size is reached.
send_chunks_all :
    (total size : ℕ) (chunks : List Bytes)
    → NoneEmpty chunks
    → total + length (joined_bytes chunks) ≡ size
    → sent_bytes (send_chunks total size chunks) ≡ joined_bytes chunks
unfolding send_chunks
send_chunks_all total size [] _ e = refl
send_chunks_all total size (chunk ∷ chunks) (some_bytes, rest) e = rw (below) (
    ap (◌++◌ chunk) (
      send_chunks_all (total + length chunk) size chunks rest
        (omega (arith, e, length-append chunk (joined_bytes chunks)))))
  where
    below : (ltb total size && ltb 0 (length chunk)) ≡ true
    below = ground (arith, e, length-append chunk (joined_bytes chunks))

sent_bytes-append : (es fs : List Event) → sent_bytes (es ++ fs) ≡ sent_bytes es ++ sent_bytes fs
sent_bytes-append [] fs = refl
sent_bytes-append (Event.sent text ∷ es) fs =
    ap (◌++◌ text) (sent_bytes-append es fs)
    ∙ sym (append_assoc text (sent_bytes es) (sent_bytes fs))
sent_bytes-append (Event.shown text ∷ es) fs = sent_bytes-append es fs
sent_bytes-append (Event.printed text ∷ es) fs = sent_bytes-append es fs
sent_bytes-append (Event.shut ∷ es) fs = sent_bytes-append es fs
sent_bytes-append (Event.closed ∷ es) fs = sent_bytes-append es fs
sent_bytes-append (Event.exited n ∷ es) fs = sent_bytes-append es fs

module _ (files : FileSystem) (c : Client) (user filename : Bytes) (size : ℕ) (chunks : List Bytes)
    (h : Sendable files c user filename size chunks) where
  header_fits : length (sendfile_header filename user size) < buf_size
  header_fits = omega (
    arith,
    h.fits,
    length-append user (b' ' ∷ filename),
    length-append filename (b' ' ∷ (user ++ b' ' ∷ (decimal size ++ newline))),
    length-append user (b' ' ∷ (decimal size ++ newline)),
    length-append (decimal size) newline,
    length-decimal size,
  )

  -- What the client sends for a file that it agrees to send: the header and then the file.
  pub client_sends_file :
      NoneEmpty chunks
      → length (joined_bytes chunks) ≡ size
      → Option.map sent_bytes (process_command files c (sendfile_typed user filename))
        ≡ some (sendfile_header filename user size ++ joined_bytes chunks)
  client_sends_file some_bytes whole =
      ap (Option.map sent_bytes) (process_command_sendfile files c user filename size chunks h)
      ∙ ap some (
          sent_bytes-append (request c (sendfile_header filename user size))
            (send_chunks 0 size chunks)
          ∙ ap₂ (λ a b. a ++ b)
              (sent_bytes-request c (sendfile_header filename user size) header_fits)
              (send_chunks_all 0 size chunks some_bytes (omega (arith, whole))))
