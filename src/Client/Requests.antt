-- ===== src/Client/Requests.antt =====
-- A request from the line that the user types to what the server does with it: `process_command` of
-- client/src/chatclient.c and `client_handler` of server/src/chatserver.c together.
pub mod Handled
pub mod Merged
use chat_app_in_c.Common.{
  ℕ, ◌+◌, ◌<◌, ◌≡◌, refl, ap, ◌∙◌, ◌≢◌, Bool, true, false, Option, none, some, List, [], ◌∷◌, ◌++◌,
  ◌==◌, inl, inr, Bool-cases, length, length-append, take, take-all, append-nil, ◌-◌, arith,
  append_assoc,
}
use mathlib.Core.Option
use chat_app_in_c.CString.{
  Bytes, codes, c_string, str_eq, str_eq_iff, strtok, is_blank, is_newline, is_blank_nl,
  is_blank_crnl, decimal,
}
use chat_app_in_c.CString.Token.{Lacks}
use chat_app_in_c.CString.Words.{
  IsWord, IsMessage, Lacks-append, IsWord-Lacks, IsMessage-Lacks, c_string_self, strtok-word,
  strtok-word_last, strtok-message, strtok-message_last, blank_Within, blank_nl_Within,
  blank_crnl_Within, zero_Within, zero_Within_line, newline_Within,
}
use chat_app_in_c.Terminal.{ti_maxline}
use chat_app_in_c.Client.{Event, Client, newline, buf_size}
use chat_app_in_c.Client.Commands.{FileSystem, request, process_command}
use chat_app_in_c.Server.{Server, M, pure, ◌>>=◌, ◌>>◌, read_conn, say}
use chat_app_in_c.Server.Message
use chat_app_in_c.Server.Handler.{
  Thread, do_exit, whisper_to, do_whisper, join_args, do_join, do_leave, broadcast_message,
  do_broadcast,
}
use chat_app_in_c.Server.Handler.Upload.{Next, goes_on, stops}
use chat_app_in_c.Server.Handler.Loop.{Supply, bytes, dispatch, run_command, client_ready}

-- What a user may ask of the server, but for a file
pub data Request : Type 0 where
  join broadcast : Bytes → Request
  leave exit : Request
  whisper : Bytes → Bytes → Request

abbrev pub keyword : Request → Bytes
keyword (join name) = codes "/join"
keyword (broadcast message) = codes "/broadcast"
keyword leave = codes "/leave"
keyword exit = codes "/exit"
keyword (whisper user message) = codes "/whisper"

-- The line to type for it
abbrev pub typed : Request → Bytes
typed (join name) = codes "/join " ++ name
typed (broadcast message) = codes "/broadcast " ++ message
typed leave = codes "/leave"
typed exit = codes "/exit"
typed (whisper user message) = codes "/whisper " ++ (user ++ b' ' ∷ message)

-- The names are words, the message is a line, and nobody whispers to himself.
abbrev pub IsRequest : Client → Request → Type 0
IsRequest c (join name) = IsWord name
IsRequest c (broadcast message) = IsMessage message
IsRequest c leave = Unit
IsRequest c exit = Unit
IsRequest c (whisper user message) = IsWord user × IsMessage message × (user ≢ c.username)

-- What the client gives to `send`, all calls together
abbrev pub sent_bytes : List Event → Bytes
sent_bytes [] = []
sent_bytes (Event.sent text ∷ events) = text ++ sent_bytes events
sent_bytes (_ ∷ events) = sent_bytes events

-- The client's part
arguments_typed : Request → Bytes
arguments_typed (join name) = name
arguments_typed (broadcast message) = message
arguments_typed leave = []
arguments_typed exit = []
arguments_typed (whisper user message) = user ++ b' ' ∷ message

strtok-line : (r : Request) → strtok is_blank_nl (typed r) ≡ (some (keyword r), arguments_typed r)
unfolding strtok arguments_typed
strtok-line (join name) = refl
strtok-line (broadcast message) = refl
strtok-line leave = refl
strtok-line exit = refl
strtok-line (whisper user message) = refl

pub strtok-nil : (delim : ℕ → Bool) → strtok delim [] ≡ (none, [])
unfolding strtok
strtok-nil delim = refl

pub sent_bytes-request :
    (c : Client) (text : Bytes) → length text < buf_size → sent_bytes (request c text) ≡ text
sent_bytes-request c text h =
    append-nil (take (buf_size - 1) text) ∙ take-all (buf_size - 1) text (omega arith)

pub whisper_not_self : (user name : Bytes) → user ≢ name → str_eq user name ≡ false
whisper_not_self user name h = ground (arith, str_eq_iff user name)

-- What the client sends for the request, all together
abbrev pub sends : FileSystem → Client → Request → Option Bytes
sends files c r = Option.map sent_bytes (process_command files c (typed r))

pub sends-typed :
    (files : FileSystem) (c : Client) (r : Request)
    → IsRequest c r
    → length (typed r) < ti_maxline
    → sends files c r ≡ some (typed r ++ newline)
unfolding process_command arguments_typed str_eq
sends-typed files c (join name) h fits =
    rw
      (
        strtok-line (join name),
        strtok-word_last is_blank_nl name blank_nl_Within h,
        strtok-nil is_blank_nl,
      )
      (ap some (
        sent_bytes-request c (codes "/join " ++ (name ++ newline))
          (omega (arith, length-append name newline))))
sends-typed files c (broadcast message) h fits =
    rw (strtok-line (broadcast message), strtok-message_last is_newline message newline_Within h)
      (ap some (
        sent_bytes-request c (codes "/broadcast " ++ (message ++ newline))
          (omega (arith, length-append message newline))))
sends-typed files c leave h fits = rw (strtok-line leave) refl
sends-typed files c exit h fits = rw (strtok-line exit) refl
sends-typed files c (whisper user message) h fits =
    rw
      (
        strtok-line (whisper user message),
        strtok-word is_blank_nl user message (b' ') blank_nl_Within h.0 refl,
        strtok-message_last is_newline message newline_Within h.1,
        whisper_not_self user c.username h.2,
        append_assoc user (b' ' ∷ message) newline,
      )
      (ap some (
        sent_bytes-request c (codes "/whisper " ++ (user ++ b' ' ∷ (message ++ newline))) (
          omega (
            arith,
            length-append user (b' ' ∷ message),
            length-append message newline,
            length-append user (b' ' ∷ (message ++ newline)),
          ))))
