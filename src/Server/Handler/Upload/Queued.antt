-- ===== src/Server/Handler/Upload/Queued.antt =====
-- What `/sendfile` receives and queues.
use chat_app_in_c.Common.{
  length-append, ℕ, zero, suc, ◌-◌, ◌<◌, ◌≤◌, ◌≡◌, refl, ap, sym, ◌∙◌, true, false, ◌||◌, some,
  List, [], ◌∷◌, ◌++◌, ◌==◌, Bool-cases, inl, inr, length, take, length-take, arith,
}
use chat_app_in_c.CString.{Bytes}
use chat_app_in_c.Queue.{put, FileItem, file_queue_enqueue, file_queue_is_full}
use chat_app_in_c.Queue.Invariant.{IsValid, put-IsValid}
use chat_app_in_c.Queue.Contents.{contents, contents-put}
use chat_app_in_c.Server.{Connection, Server, Event}
use chat_app_in_c.Server.Message
use chat_app_in_c.Server.Handler.{Thread}
use chat_app_in_c.Server.Handler.Upload.{
  goes_on, continues, acknowledge, enqueued, enqueue_upload, upload_item, file_received,
  receive_file, recv_file,
}

-- No `recv` of the list gives an empty chunk, which would be the end of the stream.
abbrev pub NoneEmpty : List Bytes → Type 0
NoneEmpty [] = Unit
NoneEmpty (chunk ∷ chunks) = (0 < length chunk) × NoneEmpty chunks

abbrev pub joined_bytes : List Bytes → Bytes
joined_bytes [] = []
joined_bytes (chunk ∷ chunks) = chunk ++ joined_bytes chunks

take-append :
    (n : ℕ) (xs ys : Bytes) → take n (xs ++ ys) ≡ take n xs ++ take (n - length (take n xs)) ys
take-append zero xs ys = refl
take-append (suc n) [] ys = let same : suc n ≡ suc n - 0 = omega arith in ap (λ k. take k ys) same
take-append (suc n) (x ∷ xs) ys =
    let same : n - length (take n xs) ≡ suc n - suc (length (take n xs)) = omega arith in
    ap (◌∷◌ x) (take-append n xs ys ∙ ap (λ k. take n xs ++ take k ys) same)

-- The receive loop never stores more bytes than are still missing, so it stays inside the block that
-- `malloc` gave.
pub recv_file_bounds :
    (missing : ℕ) (chunks : List Bytes) → length (recv_file missing chunks) ≤ missing
unfolding recv_file
recv_file_bounds missing [] = omega arith
recv_file_bounds missing (chunk ∷ chunks) =
    let got = take missing chunk in
    elim (Bool-cases ((missing == 0) || (length got == 0))) [
      | inl done ↦ rw done (omega arith)
      | inr more ↦ rw more (
          omega (
            arith,
            recv_file_bounds (missing - length got) chunks,
            length-append got (recv_file (missing - length got) chunks),
            length-take missing chunk,
          ))
    ]

-- If no `recv` gives an empty chunk, the receive loop stores the start of the stream, in order, up to
-- the size of the file.
pub recv_file_exact :
    (missing : ℕ) (chunks : List Bytes)
    → NoneEmpty chunks
    → recv_file missing chunks ≡ take missing (joined_bytes chunks)
unfolding recv_file
recv_file_exact zero [] _ = refl
recv_file_exact (suc n) [] _ = refl
recv_file_exact missing (chunk ∷ chunks) (some_bytes, rest) =
    let got = take missing chunk in
    elim (Bool-cases ((missing == 0) || (length got == 0))) [
      | inl done ↦ rw (done, nothing_missing done) refl
      | inr more ↦
          rw (more, recv_file_exact (missing - length got) chunks rest)
            (sym (take-append missing chunk (joined_bytes chunks)))
    ]
  where
    nothing_missing : ((missing == 0) || (length (take missing chunk) == 0)) ≡ true → missing ≡ 0
    nothing_missing done = ground (arith, length-take missing chunk)

-- The server once the thread has queued the file and told the client
abbrev pub with_queued : Server → Thread → Connection → Bytes → Bytes → FileItem → Server
with_queued s t v filename target item = record s {
  upload_queue = put s.upload_queue item;
  trace =
      Event.printed (Message.file_queued_log filename v.username target)
      ∷ Event.logged (Message.file_queued_log filename v.username target)
      ∷ Event.sent t.tcp_fd (Message.file_queued filename target item.size)
      ∷ s.trace;
}

-- The item of a received file
abbrev pub stored : Connection → Bytes → Bytes → ℕ → ℕ → List Bytes → FileItem
stored v filename target size address chunks =
    upload_item v filename target size (record { address = address; bytes = recv_file size chunks })

module _ (t : Thread) (s : Server) (v : Connection) (filename target : Bytes) (size address : ℕ)
    (chunks : List Bytes) (valid : IsValid s.upload_queue)
    (known : s.conn_at t.connection ≡ some v) where
  pub receive_file_run :
      length (recv_file size chunks) ≡ size
      → s.upload_queue.count < s.upload_queue.capacity
      → receive_file t filename target size (some address) chunks s
        ≡ some (
          goes_on,
          with_queued s t v filename target (stored v filename target size address chunks),
        )
  unfolding receive_file file_received enqueue_upload enqueued acknowledge file_queue_enqueue
      file_queue_is_full
  receive_file_run whole space =
      let a : (length (recv_file size chunks) == size) ≡ true = ground arith in
      let b : (s.upload_queue.count == s.upload_queue.capacity) ≡ false = ground arith in
      rw (a, known, b, b, known) refl

  -- `/sendfile`, once the arguments are accepted: if all bytes come and the queue has space, the file is
  -- queued last, behind what was queued, with the bytes received, and the client is told.
  pub receive_file_queues :
      length (recv_file size chunks) ≡ size
      → s.upload_queue.count < s.upload_queue.capacity
      → (s' : Server) × (receive_file t filename target size (some address) chunks s
          ≡ some (goes_on, s'))
        × IsValid s'.upload_queue
        × (contents s'.upload_queue
            ≡ contents s.upload_queue ++ stored v filename target size address chunks ∷ [])
        × (s'.world ≡ s.world)
  receive_file_queues whole space = (
    with_queued s t v filename target (stored v filename target size address chunks),
    receive_file_run whole space,
    put-IsValid _ valid space,
    contents-put _ valid space,
    refl,
  )

-- If too few bytes come, `/sendfile` queues nothing and tells the client.
pub receive_file_short :
    (t : Thread) (s : Server) (filename target : Bytes) (size address : ℕ) (chunks : List Bytes)
    → length (recv_file size chunks) < size
    → receive_file t filename target size (some address) chunks s
      ≡ some (continues, record s { trace = Event.sent t.tcp_fd Message.short_file ∷ s.trace })
unfolding receive_file
receive_file_short t s filename target size address chunks short =
    let a : (length (recv_file size chunks) == size) ≡ false = ground arith in rw a refl
