-- ===== src/Client/Main/Session.antt =====
-- A user's session from the keys to what the server does: `main` of client/src/chatclient.c and the
-- thread of `client_handler` in server/src/chatserver.c together.
use chat_app_in_c.Common.{
  ℕ, ◌+◌, ◌≡◌, refl, ap, ◌∙◌, true, Option, none, some, List, [], ◌∷◌, ◌++◌, length, append_assoc,
}
use chat_app_in_c.CString.{Bytes}
use chat_app_in_c.Terminal.{ti_maxline}
use chat_app_in_c.Client.{Client, newline}
use chat_app_in_c.Client.Commands.{FileSystem}
use chat_app_in_c.Client.Main.{run_client}
use chat_app_in_c.Client.Main.Typed.{Ran, AreTypable, typed_all, typed_requests_sent}
use chat_app_in_c.Client.Requests.{Request, typed}
use chat_app_in_c.Client.Requests.Handled.{log_and_perform, client_ready-typed}
use chat_app_in_c.Server.{Server, M, pure, bind_result, ◌>>=◌}
use chat_app_in_c.Server.Handler.{Thread}
use chat_app_in_c.Server.Handler.Upload.{Next, goes_on}
use chat_app_in_c.Server.Handler.Loop.{Supply, bytes, client_ready}

-- The loop goes on behind a round that lets it.
abbrev pub go_on : M Next → Next → M Next
go_on m goes_on = m
go_on m next = pure next

-- The loop of a thread whose `recv` gives these texts, each in one round
abbrev pub serve_all : Thread → (ℕ → Supply) → ℕ → List Bytes → M Next
serve_all t supplies n [] = pure goes_on
serve_all t supplies n (text ∷ texts) =
    client_ready t (supplies n) (bytes text) >>= go_on (serve_all t supplies (n + 1) texts)

-- What the requests ask of the server, one after another, each behind its line in the log; none behind
-- an `/exit`
abbrev pub perform_all : Thread → (ℕ → Supply) → ℕ → List Request → M Next
perform_all t supplies n [] = pure goes_on
perform_all t supplies n (r ∷ rs) =
    log_and_perform t (supplies n) r >>= go_on (perform_all t supplies (n + 1) rs)

abbrev pub lines_of : List Request → List Bytes
lines_of [] = []
lines_of (r ∷ rs) = (typed r ++ newline) ∷ lines_of rs

abbrev pub joined_up : List Bytes → Bytes
joined_up [] = []
joined_up (text ∷ texts) = text ++ joined_up texts

joined_up-lines : (rs : List Request) → joined_up (lines_of rs) ≡ typed_all rs
joined_up-lines [] = refl
joined_up-lines (r ∷ rs) =
    append_assoc (typed r) newline (joined_up (lines_of rs))
    ∙ ap (λ x. typed r ++ 10 ∷ x) (joined_up-lines rs)

go_on-same :
    (m k : M Next)
    → ((s : Server) → m s ≡ k s)
    → (o : Option (Next × Server)) → bind_result o (go_on m) ≡ bind_result o (go_on k)
go_on-same m k same none = refl
go_on-same m k same (some (goes_on, s)) = same s
go_on-same m k same (some (Next.continues, s)) = refl
go_on-same m k same (some (Next.stops, s)) = refl
go_on-same m k same (some (Next.waits_full item filename target, s)) = refl

serve_all-lines :
    (t : Thread) (supplies : ℕ → Supply) (c : Client) (n : ℕ) (rs : List Request)
    → AreTypable c rs
    → (s : Server) → serve_all t supplies n (lines_of rs) s ≡ perform_all t supplies n rs s
serve_all-lines t supplies c n [] typable s = refl
serve_all-lines t supplies c n (r ∷ rs) (ok, _, _, more) s =
    ap (λ o. bind_result o (go_on (serve_all t supplies (n + 1) (lines_of rs))))
      (client_ready-typed t (supplies n) c r s ok)
    ∙ go_on-same _ _ (serve_all-lines t supplies c (n + 1) rs more)
        (log_and_perform t (supplies n) r s)

-- What a user types is what the server performs. A user who types requests, one line each, makes the
-- client send exactly these lines, in this order and byte by byte; the client then waits with an empty
-- line. The server's thread for that client, if each of its calls of `recv` gives one of these lines,
-- performs the requests in this order, with the same names and messages, each behind its line in the
-- log, up to an `/exit`. No line has a control byte, each fits the editor, the names are words, a
-- message is in one line, a whisper is not to the user himself, and the client has memory for the
-- argument of its receiver.
pub typed_requests_performed :
    (files : FileSystem) (c : Client) (rs : List Request) (t : Thread) (supplies : ℕ → Supply)
    (s : Server)
    → length c.handler.buffer ≡ ti_maxline
    → AreTypable c rs
    → Ran (run_client files c true (typed_all rs)) c.username [] (joined_up (lines_of rs))
      × (serve_all t supplies 0 (lines_of rs) s ≡ perform_all t supplies 0 rs s)
typed_requests_performed files c rs t supplies s size typable = (
  rw (joined_up-lines rs) (typed_requests_sent files c rs size typable),
  serve_all-lines t supplies c 0 rs typable s,
)
