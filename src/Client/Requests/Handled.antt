-- ===== src/Client/Requests/Handled.antt =====
-- A request from the keys that the user presses to what the server does with it: the line editor and
-- `process_command` of the client, and `client_handler` of server/src/chatserver.c, together.
use chat_app_in_c.Common.{
  ◌<◌, ◌≡◌, refl, none, some, [], ◌∷◌, ◌++◌, ◌==◌, length, arith, append_assoc,
}
use chat_app_in_c.CString.{
  Bytes, codes, str_eq, strtok, is_blank, is_newline, is_blank_nl, is_blank_crnl,
}
use chat_app_in_c.CString.Token.{Lacks}
use chat_app_in_c.CString.Words.{
  Lacks-append, IsWord-Lacks, IsMessage-Lacks, c_string_self, strtok-word, strtok-message,
  blank_Within, blank_nl_Within, zero_Within, zero_Within_line, newline_Within,
}
use chat_app_in_c.Terminal.{ti_maxline, InputHandler}
use chat_app_in_c.Terminal.Editing.{session}
use chat_app_in_c.Terminal.Editing.Typing.{is_control, IsFresh, session-plain}
use chat_app_in_c.Client.{Client, newline}
use chat_app_in_c.Client.Requests.{
  Request, join, broadcast, leave, exit, whisper, keyword, typed, IsRequest, sends, sends-typed,
}
use chat_app_in_c.Client.Commands.{FileSystem}
use chat_app_in_c.Server.{Server, M, pure, ◌>>=◌, ◌>>◌, read_conn, say}
use chat_app_in_c.Server.Message
use chat_app_in_c.Server.Handler.{
  Thread, do_exit, whisper_to, do_whisper, join_args, do_join, do_leave, broadcast_message,
  do_broadcast,
}
use chat_app_in_c.Server.Handler.Upload.{Next, goes_on, stops}
use chat_app_in_c.Server.Handler.Loop.{Supply, bytes, dispatch, run_command, client_ready}

-- What the request asks of the server
abbrev pub perform : Thread → Supply → Request → M Next
perform t supply (join name) = join_args t supply.calloc (some name) none >> pure goes_on
perform t supply (broadcast message) = broadcast_message t (some message) >> pure goes_on
perform t supply leave = do_leave t >> pure goes_on
perform t supply exit = do_exit t >> pure stops
perform t supply (whisper user message) =
    whisper_to t (codes "/whisper") (some user) (some message) >> pure goes_on

-- The same behind its line in the log
abbrev pub log_and_perform : Thread → Supply → Request → M Next
log_and_perform t supply r = do
  c ← read_conn t.connection
  say (Message.sent_command c (keyword r))
  perform t supply r

pub typed-Lacks :
    (c : Client) (r : Request) → IsRequest c r → Lacks (λ b. b == 0) (typed r ++ newline)
typed-Lacks c (join name) h =
    ground (arith, Lacks-append (λ b. b == 0) name newline (IsWord-Lacks name zero_Within h))
typed-Lacks c (broadcast message) h =
    ground (
      arith,
      Lacks-append (λ b. b == 0) message newline (IsMessage-Lacks message zero_Within_line h),
    )
typed-Lacks c leave h = ground arith
typed-Lacks c exit h = ground arith
typed-Lacks c (whisper user message) h = ground (
  arith,
  Lacks-append (λ b. b == 0) (user ++ b' ' ∷ message) newline
      (Lacks-append (λ b. b == 0) user (b' ' ∷ message) (IsWord-Lacks user zero_Within h.0)
        (refl, IsMessage-Lacks message zero_Within_line h.1)),
)

-- What the server finds behind the first word
arguments : Request → Bytes
arguments (join name) = name ++ newline
arguments (broadcast message) = message ++ newline
arguments leave = []
arguments exit = []
arguments (whisper user message) = (user ++ b' ' ∷ message) ++ newline

strtok-typed :
    (r : Request) → strtok is_blank_crnl (typed r ++ newline) ≡ (some (keyword r), arguments r)
unfolding strtok arguments
strtok-typed (join name) = refl
strtok-typed (broadcast message) = refl
strtok-typed leave = refl
strtok-typed exit = refl
strtok-typed (whisper user message) = refl

dispatch-typed :
    (t : Thread) (supply : Supply) (c : Client) (r : Request)
    → IsRequest c r
    → dispatch t supply (keyword r) (arguments r) ≡ perform t supply r
unfolding dispatch str_eq arguments do_join do_broadcast do_whisper strtok
dispatch-typed t supply c (join name) h =
    rw (strtok-word is_blank_nl name [] 10 blank_nl_Within h refl) refl
dispatch-typed t supply c (broadcast message) h =
    rw (strtok-message is_newline message [] 10 newline_Within h refl) refl
dispatch-typed t supply c leave h = refl
dispatch-typed t supply c exit h = refl
dispatch-typed t supply c (whisper user message) h =
    rw
      (
        append_assoc user (b' ' ∷ message) newline,
        strtok-word is_blank user (message ++ newline) (b' ') blank_Within h.0 refl,
        strtok-message is_newline message [] 10 newline_Within h.1 refl,
      )
      refl

-- The server's part
pub client_ready-typed :
    (t : Thread) (supply : Supply) (c : Client) (r : Request) (s : Server)
    → IsRequest c r
    → client_ready t supply (bytes (typed r ++ newline)) s ≡ log_and_perform t supply r s
unfolding client_ready run_command
client_ready-typed t supply c r s h =
    rw
      (
        c_string_self (typed r ++ newline) (typed-Lacks c r h),
        strtok-typed r,
        dispatch-typed t supply c r h,
      )
      refl

pub some_text : (r : Request) → 0 < length (typed r)
some_text (join name) = omega arith
some_text (broadcast message) = omega arith
some_text leave = omega arith
some_text exit = omega arith
some_text (whisper user message) = omega arith

-- A request that a user types is what the server performs. The editor, at the start of a line, hands
-- the line to the client as it was typed; the client sends it; and the server's thread for that client,
-- given these bytes by one `recv`, logs the command word and does what the command does with the same
-- names and the same message. The names are words, the message is in one line, a whisper is not to the
-- user himself, no byte typed is a control byte and the line fits the editor.
pub request_reaches_server :
    (ih : InputHandler) (files : FileSystem) (c : Client) (r : Request) (t : Thread)
    (supply : Supply) (s : Server)
    → IsFresh ih
    → IsRequest c r
    → Lacks is_control (typed r)
    → length (typed r) < ti_maxline
    → (session ih (typed r ++ newline) ≡ typed r ∷ [])
      × (text : Bytes) × (sends files c r ≡ some text)
      × (client_ready t supply (bytes text) s ≡ log_and_perform t supply r s)
request_reaches_server ih files c r t supply s fresh h plain fits = (
  session-plain ih (typed r) fresh plain fits (some_text r),
  typed r ++ newline,
  sends-typed files c r h fits,
  client_ready-typed t supply c r s h,
)
