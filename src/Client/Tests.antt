-- ===== src/Client/Tests.antt =====
-- A user's client and the theorems on its commands at concrete lines.
mod Files
mod Login
use chat_app_in_c.Common.{
  ℕ, ◌<◌, true, List, ◌≡◌, refl, ◌≢◌, ◌↔◌, none, some, ◌⊎◌, inl, inr, [], ◌∷◌, ◌++◌, length,
  replicate, length-replicate, if◌then◌else◌, arith,
}
use chat_app_in_c.CString.{Bytes, codes, strtok, is_blank_nl, str_eq}
use chat_app_in_c.Terminal.{InputHandler}
use chat_app_in_c.Server.Handler.Loop.{client_ready, bytes}
use chat_app_in_c.Server.Tests.{running}
use chat_app_in_c.Server.Tests.Threads.{alices, supply}
use chat_app_in_c.Client.{Client, newline}
use chat_app_in_c.Client.Commands.{FileSystem, process_command, sendfile_words}
use chat_app_in_c.Client.Requests.{Request, join, leave, exit, whisper, typed, sent_bytes}
use chat_app_in_c.Client.Requests.Merged.{log_and_perform_first, merged_requests}
use chat_app_in_c.Client.Main.{run_client}
use chat_app_in_c.Client.Main.Typed.{Ran, typed_all}
use chat_app_in_c.Client.Main.Session.{
  joined_up, lines_of, serve_all, perform_all, typed_requests_performed,
}
use chat_app_in_c.Client.Guards.{IsAcceptable, sendfile_sends_iff, process_command_undefined_iff}

abbrev pub alices_client : Client
alices_client = record {
  handler = record { buffer = replicate 1024 0; length = 0; prompt = codes "> "; esc_state = 0 };
  username = codes "alice";
}

-- One file, `a.txt`, of five bytes
abbrev pub one_file : FileSystem
one_file = record {
  stat = λ name. if str_eq name (codes "a.txt") then some 5 else none;
  open_read =
      λ name. if str_eq name (codes "a.txt") then some (codes "he" ∷ codes "llo" ∷ []) else none;
}

abbrev conversation : List Request
conversation = join (codes "lobby") ∷ whisper (codes "bob") (codes "hi there") ∷ exit ∷ []

typed_requests_performed_example :
    Ran
      (run_client one_file alices_client true (typed_all conversation))
      (codes "alice")
      []
      (joined_up (lines_of conversation))
    × (serve_all alices (λ _. supply) 0 (lines_of conversation) running
        ≡ perform_all alices (λ _. supply) 0 conversation running)
typed_requests_performed_example =
    typed_requests_performed one_file alices_client conversation alices (λ _. supply) running
      (omega (arith, length-replicate {A = ℕ} 1024 0)) (ground arith)

merged_requests_example :
    client_ready alices supply
      (bytes ((typed (join (codes "lobby")) ++ newline) ++ (typed leave ++ newline)))
      running
    ≡ log_and_perform_first alices supply (join (codes "lobby")) running
merged_requests_example =
    merged_requests alices supply alices_client leave (join (codes "lobby")) running (ground arith)
      (ground arith)

sendfile_sends_iff_example :
    (sent_bytes (sendfile_words one_file alices_client (codes "bob") (some (codes "a.txt"))) ≢ [])
    ↔ IsAcceptable one_file (codes "a.txt")
sendfile_sends_iff_example = sendfile_sends_iff one_file alices_client (codes "bob") (codes "a.txt")

process_command_undefined_iff_example :
    (process_command one_file alices_client (codes "/whisper ") ≡ none)
    ↔ ((strtok is_blank_nl (codes "/whisper ")).0 ≡ some (codes "/whisper"))
      × ((strtok is_blank_nl (strtok is_blank_nl (codes "/whisper ")).1).0 ≡ none)
process_command_undefined_iff_example =
    process_command_undefined_iff one_file alices_client (codes "/whisper ")
