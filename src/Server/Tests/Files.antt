-- ===== src/Server/Tests/Files.antt =====
-- A file on its way through the server, and the theorems on `/sendfile` and on the workers at it.
use chat_app_in_c.Common.{◌≡◌, refl, some, [], ◌∷◌, ◌++◌, take, arith}
use chat_app_in_c.CString.{codes}
use chat_app_in_c.Queue.Invariant.{IsValid as QueueIsValid}
use chat_app_in_c.Server.{Server}
use chat_app_in_c.Server.Handler.Upload.{goes_on, receive_file, recv_file}
use chat_app_in_c.Server.Handler.Upload.Queued.{joined_bytes, stored, recv_file_exact}
use chat_app_in_c.Server.Handler.Upload.{upload_item}
use chat_app_in_c.CString.{decimal, decimal_digits}
use chat_app_in_c.Queue.{FileItem}
use chat_app_in_c.Server.Worker.{frees, file_header, worker_round}
use chat_app_in_c.Server.Worker.Transfer.{file_reaches_target}
use chat_app_in_c.Server.Worker.Delivery.{output}
use chat_app_in_c.Server.Tests.{alice, bob, running, empty_queue, two_users-IsValid}
use chat_app_in_c.Server.Tests.Threads.{alices}

pub empty_queue-IsValid : QueueIsValid empty_queue
empty_queue-IsValid = omega arith

recv_file_exact_example :
    recv_file 5 (codes "ab" ∷ codes "cdef" ∷ [])
    ≡ take 5 (joined_bytes (codes "ab" ∷ codes "cdef" ∷ []))
recv_file_exact_example =
    recv_file_exact 5 (codes "ab" ∷ codes "cdef" ∷ []) (omega arith, (omega arith, tt))

abbrev letter : FileItem
letter =
    upload_item alice (codes "a.txt") (codes "bob") 5
      (record { address = 50; bytes = codes "hello" })

abbrev lost_letter : FileItem
lost_letter =
    upload_item alice (codes "a.txt") (codes "carol") 5
      (record { address = 50; bytes = codes "hello" })

file_reaches_target_example :
    (s1 s2 : Server) × (receive_file alices
        (codes "a.txt")
        (codes "bob")
        5
        (some 50)
        (codes "hel" ∷ codes "lo!" ∷ [])
        running
      ≡ some (goes_on, s1))
    × (worker_round (2 ∷ 7 ∷ []) s1
        ≡ some (
          some (
              frees
                (stored alice
                  (codes "a.txt")
                  (codes "bob")
                  5
                  50
                  (codes "hel" ∷ codes "lo!" ∷ [])).payload),
          s2,
        ))
    × (output 10 s2.trace
        ≡ output 10 running.trace
          ++ (file_header
                (stored alice (codes "a.txt") (codes "bob") 5 50 (codes "hel" ∷ codes "lo!" ∷ []))
              ++ take 5 (joined_bytes (codes "hel" ∷ codes "lo!" ∷ []))))
unfolding file_header decimal decimal_digits
file_reaches_target_example =
    file_reaches_target alices running alice (codes "a.txt") (codes "bob") 5 50
      (codes "hel" ∷ codes "lo!" ∷ []) 2 bob (2 ∷ 7 ∷ []) two_users-IsValid empty_queue-IsValid refl
      refl refl refl (omega arith, (omega arith, tt)) (omega arith) (omega arith)
      (omega arith, (omega arith, tt)) (omega arith)
