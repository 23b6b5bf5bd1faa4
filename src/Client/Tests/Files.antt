-- ===== src/Client/Tests/Files.antt =====
-- Files that a client receives, and the theorems on the receiver at them.
use chat_app_in_c.Common.{◌≡◌, refl, true, false, none, some, [], ◌∷◌, ◌++◌, replicate, arith}
use mathlib.Core.Option
use chat_app_in_c.CString.{
  Bytes, codes, decimal, decimal_digits, isalnum, str_eq, strchr, strrchr, strtoul, starts_with,
  c_string,
}
use chat_app_in_c.Disk.{Disk, find, exists, append_to}
use chat_app_in_c.Queue.{FileItem}
use chat_app_in_c.Server.{Server, Event}
use chat_app_in_c.Server.Message
use chat_app_in_c.Server.Handler.Loop.{Supply, bytes, client_ready}
use chat_app_in_c.Server.Handler.Upload.{goes_on, continues}
use chat_app_in_c.Server.Worker.{frees, file_header, worker_round}
use chat_app_in_c.Server.Worker.Delivery.{output}
use chat_app_in_c.Server.Tests.{alice, bob, running, two_users-IsValid}
use chat_app_in_c.Server.Tests.Files.{empty_queue-IsValid}
use chat_app_in_c.Server.Tests.Threads.{alices}
use chat_app_in_c.Client.{display, color_magenta}
use chat_app_in_c.Client.Commands.{process_command, sendfile_header, allowed_extension}
use chat_app_in_c.Client.Requests.{sent_bytes}
use chat_app_in_c.Client.Sending.{sendfile_typed}
use chat_app_in_c.Client.Sending.Queued.{file_item}
use chat_app_in_c.Client.Sending.Merged.{merged_file_lost}
use chat_app_in_c.Client.Receiver.{
  System, Receiver, file_saved, write_data, parse_header, free_name, first_data, open_file,
  begin_file, receive, split_extension, receive_all,
}
use chat_app_in_c.Client.Receiver.Naming.{FindsFree, free_name_terminates, free_name_stuck}
use chat_app_in_c.Client.Receiver.Keeps.{receive_all_keeps}
use chat_app_in_c.Client.Receiver.Saved.{Finished}
use chat_app_in_c.Client.Receiver.Arrival.{opened, file_is_saved}
use chat_app_in_c.Client.Travel.{file_travels}
use chat_app_in_c.Client.Tests.{alices_client, one_file}

-- There is a file `a.txt` already.
abbrev disk : Disk
disk = (codes "a.txt", codes "old") ∷ []

abbrev local_system : System
local_system = record { basename = λ name. name; creates = λ _. true }

abbrev idle : Receiver
idle = record {
  receiving_file = false;
  file_remain = 0;
  incoming_fname = [];
  incoming_sender = [];
  disk = disk;
}

free_name_terminates_example :
    FindsFree disk (codes "a") (codes ".txt") (free_name 2 disk (codes "a") (codes ".txt"))
free_name_terminates_example = free_name_terminates disk (codes "a") (codes ".txt") (omega arith)

abbrev long_name : Bytes
long_name = replicate 253 b'a' ++ codes "_1"

free_name_stuck_example : free_name 1000 ((long_name, []) ∷ []) long_name [] ≡ none
unfolding exists str_eq
free_name_stuck_example =
    free_name_stuck 1000 ((long_name, []) ∷ []) long_name [] (omega arith) refl refl

abbrev letter : FileItem
letter = file_item alice (codes "bob") (codes "a.txt") 5 50 (codes "hello")

file_is_saved_example :
    (found : Bytes) × FindsFree disk (codes "a") (codes ".txt") (some found)
    × Finished alices_client (opened idle letter found) (codes "hello") (
        receive_all local_system 2 alices_client idle
          ((file_header letter ++ codes "he") ∷ codes "llo" ∷ []))
unfolding split_extension strrchr isalnum file_header decimal decimal_digits
file_is_saved_example =
    file_is_saved local_system alices_client idle letter (codes "he") (codes "llo" ∷ []) refl
      (ground arith) (ground arith) (omega arith) (omega arith) (omega arith) (omega arith)
      (ground arith) (omega arith) (λ _. refl) (omega arith)

-- The receiver once the file of `letter` is saved, as `a_1.txt`
abbrev saved : Receiver
saved = record {
  receiving_file = false;
  file_remain = 0;
  incoming_fname = codes "a_1.txt";
  incoming_sender = codes "alice";
  disk = (codes "a_1.txt", codes "hello") ∷ disk;
}

receive_all_keeps_example : find (codes "a.txt") saved.disk ≡ some (codes "old")
unfolding find str_eq receive_all receive starts_with c_string parse_header strchr begin_file
    split_extension strrchr free_name open_file first_data write_data strtoul file_header decimal
    decimal_digits exists append_to
receive_all_keeps_example =
    receive_all_keeps alices_client (codes "a.txt") (codes "old") local_system 2 idle saved
      ((file_header letter ++ codes "hello") ∷ [])
      (display alices_client (file_saved saved) color_magenta ∷ []) refl refl refl

abbrev upload : Supply
upload = record { calloc = none; malloc = some 50; chunks = codes "hel" ∷ codes "lo" ∷ [] }

file_travels_example :
    (Option.map sent_bytes
        (process_command one_file alices_client (sendfile_typed (codes "bob") (codes "a.txt")))
      ≡ some (sendfile_header (codes "a.txt") (codes "bob") 5 ++ codes "hello"))
    × (s1 s2 : Server) × (client_ready alices upload
          (bytes (sendfile_header (codes "a.txt") (codes "bob") 5))
          running
        ≡ some (goes_on, s1))
    × (worker_round (2 ∷ 7 ∷ []) s1 ≡ some (some (frees letter.payload), s2))
    × (output 10 s2.trace
        ≡ output 10 s1.trace ++ ((file_header letter ++ codes "he") ++ codes "llo"))
    × (found : Bytes) × FindsFree disk (codes "a") (codes ".txt") (some found)
    × Finished alices_client (opened idle letter found) (codes "hello") (
        receive_all local_system 2 alices_client idle
          ((file_header letter ++ codes "he") ∷ codes "llo" ∷ []))
unfolding split_extension strrchr isalnum file_header decimal decimal_digits allowed_extension
    str_eq
file_travels_example =
    file_travels one_file alices_client (codes "bob") (codes "a.txt") 5
      (codes "he" ∷ codes "llo" ∷ [])
      (record {
        sendable = record {
          user_word = ground arith;
          file_word = ground arith;
          not_self = λ e. absurd (ground (arith, e));
          fits = omega arith;
          has_size = refl;
          not_empty = omega arith;
          not_large = omega arith;
          extension = refl;
          readable = refl;
        };
        name_fits = omega arith;
        reads = (omega arith, (omega arith, tt));
        whole = refl;
      })
      running alices upload alice 2 bob 50 (2 ∷ 7 ∷ [])
      (record {
        valid = two_users-IsValid;
        queue_valid = empty_queue-IsValid;
        empty = refl;
        from = refl;
        name_alnum = ground arith;
        there = refl;
        named = refl;
        allocated = refl;
        arriving = (omega arith, (omega arith, tt));
        same = refl;
        ok = (omega arith, (omega arith, tt));
        enough = omega arith;
      })
      local_system alices_client idle (codes "he") (codes "llo" ∷ [])
      (record {
        idle = refl;
        short = omega arith;
        pieces = ground arith;
        stream = refl;
        creates = λ _. refl;
        room = omega arith;
      })

-- The first two bytes come with the line.
abbrev later : Supply
later = record { calloc = none; malloc = some 50; chunks = codes "llo" ∷ [] }

merged_file_lost_example :
    client_ready alices later
      (bytes (sendfile_header (codes "a.txt") (codes "bob") 5 ++ codes "he"))
      running
    ≡ some (
      continues,
      record running {
        trace =
            Event.sent 4 Message.short_file
            ∷ Event.printed (Message.sent_command alice (codes "/sendfile"))
            ∷ Event.logged (Message.sent_command alice (codes "/sendfile"))
            ∷ [];
      },
    )
merged_file_lost_example =
    merged_file_lost alices later (codes "bob") (codes "a.txt") 5 (ground arith) (ground arith)
      (omega arith) (omega arith) (codes "he") running alice 50 refl refl (omega arith, tt)
      (omega arith) refl
