-- ===== src/Client/Requests/Merged.antt =====
-- Two requests in one `recv` of `client_handler` of server/src/chatserver.c: the line that comes first
-- is the only one that is looked at.
use chat_app_in_c.Common.{◌≡◌, refl, ap, some, ◌∷◌, ◌++◌, ◌==◌, append_assoc}
use chat_app_in_c.CString.{
  Bytes, codes, str_eq, strtok, is_blank, is_newline, is_blank_nl, is_blank_crnl,
}
use chat_app_in_c.CString.Words.{
  Lacks-append, c_string_self, strtok-word, strtok-message, blank_Within, blank_nl_Within,
  newline_Within,
}
use chat_app_in_c.Client.{Client, newline}
use chat_app_in_c.Client.Requests.{
  Request, join, broadcast, leave, exit, whisper, keyword, typed, IsRequest,
}
use chat_app_in_c.Client.Requests.Handled.{typed-Lacks, perform}
use chat_app_in_c.Server.{Server, M, pure, ◌>>=◌, ◌>>◌, read_conn, say}
use chat_app_in_c.Server.Message
use chat_app_in_c.Server.Handler.{Thread, reply, do_whisper, do_join, join_args, do_broadcast}
use chat_app_in_c.Server.Handler.Upload.{Next, goes_on}
use chat_app_in_c.Server.Handler.Loop.{Supply, bytes, dispatch, run_command, client_ready}

-- What becomes of a request with another line behind it
abbrev pub perform_first : Thread → Supply → Request → M Next
perform_first t supply (join name) = reply t Message.join_usage >> pure goes_on
perform_first t supply r = perform t supply r

abbrev pub log_and_perform_first : Thread → Supply → Request → M Next
log_and_perform_first t supply r = do
  c ← read_conn t.connection
  say (Message.sent_command c (keyword r))
  perform_first t supply r

-- What stands behind the first word
behind : Request → Bytes → Bytes
behind (join name) tail = name ++ 10 ∷ tail
behind (broadcast message) tail = message ++ 10 ∷ tail
behind leave tail = tail
behind exit tail = tail
behind (whisper user message) tail = user ++ b' ' ∷ (message ++ 10 ∷ tail)

strtok-merged :
    (r : Request) (tail : Bytes)
    → strtok is_blank_crnl (typed r ++ 10 ∷ tail) ≡ (some (keyword r), behind r tail)
unfolding strtok behind
strtok-merged (join name) tail = refl
strtok-merged (broadcast message) tail = refl
strtok-merged leave tail = refl
strtok-merged exit tail = refl
strtok-merged (whisper user message) tail =
    ap (λ x. (some (codes "/whisper"), x)) (append_assoc user (b' ' ∷ message) (10 ∷ tail))

-- A request begins with a word.
starts_with_word :
    (r : Request) → (w : Bytes) × ((strtok is_blank_nl (typed r ++ newline)).0 ≡ some w)
unfolding strtok
starts_with_word (join name) = (_, refl)
starts_with_word (broadcast message) = (_, refl)
starts_with_word leave = (_, refl)
starts_with_word exit = (_, refl)
starts_with_word (whisper user message) = (_, refl)

module _ (t : Thread) (supply : Supply) (c : Client) (next : Request) where
  dispatch-merged :
      (r : Request)
      → IsRequest c r
      → dispatch t supply (keyword r) (behind r (typed next ++ newline)) ≡ perform_first t supply r
  unfolding dispatch str_eq behind do_join do_broadcast do_whisper join_args
  dispatch-merged (join name) h =
      let (w, e) = starts_with_word next in
      rw (strtok-word is_blank_nl name (typed next ++ newline) 10 blank_nl_Within h refl, e) refl
  dispatch-merged (broadcast message) h =
      rw (strtok-message is_newline message (typed next ++ newline) 10 newline_Within h refl) refl
  dispatch-merged leave h = refl
  dispatch-merged exit h = refl
  dispatch-merged (whisper user message) h =
      rw
        (
          strtok-word is_blank user (message ++ 10 ∷ (typed next ++ newline)) (b' ') blank_Within
              h.0 refl,
          strtok-message is_newline message (typed next ++ newline) 10 newline_Within h.1 refl,
        )
        refl

  -- Of two requests that reach the server in one `recv`, the second is not performed: the thread logs and
  -- performs the first alone, and refuses it with the usage text if it is a `/join`.
  pub merged_requests :
      (r : Request) (s : Server)
      → IsRequest c r
      → IsRequest c next
      → client_ready t supply (bytes ((typed r ++ newline) ++ (typed next ++ newline))) s
        ≡ log_and_perform_first t supply r s
  unfolding client_ready run_command
  merged_requests r s h h' =
      rw
        (
          c_string_self ((typed r ++ newline) ++ (typed next ++ newline)) (
              Lacks-append (λ b. b == 0) (typed r ++ newline) (typed next ++ newline)
                (typed-Lacks c r h) (typed-Lacks c next h')),
          append_assoc (typed r) newline (typed next ++ newline),
          strtok-merged r (typed next ++ newline),
          dispatch-merged r h,
        )
        refl
