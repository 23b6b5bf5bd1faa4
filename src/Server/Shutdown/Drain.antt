-- ===== src/Server/Shutdown/Drain.antt =====
-- What becomes of the workers and of the queued files when the server shuts down.
use chat_app_in_c.Common.{
  ℕ, zero, suc, ◌+◌, ◌<◌, ◌≤◌, ◌≡◌, refl, ap, sym, ◌∙◌, Bool, true, false, Option, none, some, List,
  [], ◌∷◌, ◌++◌, append_assoc, append-nil, ◌==◌, if◌then◌else◌, length, length-append, replicate,
  take, drop, arith,
}
use mathlib.Core.Path.{subst}
use chat_app_in_c.CString.{Bytes}
use chat_app_in_c.Queue.{
  Block, FileItem, FileQueue, put, get, file_queue_enqueue, file_queue_is_full,
}
use chat_app_in_c.Queue.Invariant.{IsValid as QueueIsValid, put-IsValid, get-IsValid}
use chat_app_in_c.Queue.Contents.{
  IsFile, AllFiles, contents, contents-get, contents-put, length-contents, capacity-put,
}
use chat_app_in_c.Server.{Ptr, Connection, Server, Event, write_formatted, M, pure, ◌>>=◌}
use chat_app_in_c.Server.Invariant.{IsValid}
use chat_app_in_c.Server.Connections.{find_slot, find_connection}
use chat_app_in_c.Server.Connections.Lookup.{UserFound, find_slot_returns}
use chat_app_in_c.Server.Worker.{
  file_header, sending_done, sending_failed, recipient_missing, Served, exits, frees, send_bytes,
  report, send_file, drop_file, send_to, serve, worker_round,
}
use chat_app_in_c.Server.Worker.Transfer.{worker_serves}
use chat_app_in_c.Server.Shutdown.{sentinel, enqueue_sentinels}

-- With space for the sentinels, `main` does not wait, and they stand behind what was queued.
pub enqueue_sentinels_lem :
    (n : ℕ) (q : FileQueue)
    → QueueIsValid q
    → q.count + n ≤ q.capacity
    → (q' : FileQueue) × (enqueue_sentinels n q ≡ some q')
      × QueueIsValid q'
      × (contents q' ≡ contents q ++ replicate n sentinel)
unfolding enqueue_sentinels file_queue_enqueue file_queue_is_full
enqueue_sentinels_lem zero q valid space = (q, refl, valid, sym (append-nil (contents q)))
enqueue_sentinels_lem (suc n) q valid space =
    let room : q.count < q.capacity = omega (arith, space) in
    let not_full : (q.count == q.capacity) ≡ false = ground (arith, room) in
    let now = contents-put sentinel valid room in
    let counted : (put q sentinel).count ≡ q.count + 1 =
      sym (length-contents (put q sentinel))
      ∙ ap length now
      ∙ omega (arith, length-append (contents q) (sentinel ∷ []), length-contents q) in
    let (q', e, valid', later) =
      enqueue_sentinels_lem n (put q sentinel) (put-IsValid sentinel valid room)
        (omega (arith, counted, capacity-put q sentinel, space)) in
    (
      q',
      simp (enqueue_sentinels, not_full) e,
      valid',
      later
          ∙ ap (λ xs. xs ++ replicate n sentinel) now
          ∙ append_assoc (contents q) (sentinel ∷ []) (replicate n sentinel),
    )

send_bytes_returns :
    (fd : ℕ) (bytes : Bytes) (writes : List ℕ) (s : Server)
    → (b : Bool) × (older : List Event) × (send_bytes fd bytes writes s
        ≡ some (b, record s { trace = older }))
unfolding send_bytes
send_bytes_returns fd [] writes s = (true, s.trace, refl)
send_bytes_returns fd (b ∷ bs) [] s = (false, s.trace, refl)
send_bytes_returns fd (b ∷ bs) (zero ∷ writes) s = (false, s.trace, refl)
send_bytes_returns fd (b ∷ bs) (suc n ∷ writes) s =
    send_bytes_returns fd (drop n bs) writes
      (record s { trace = Event.written fd (take (suc n) (b ∷ bs)) ∷ s.trace })

-- What a round leaves as it was
abbrev Unchanged : Server → Server → Type 0
Unchanged s s' = (s'.world ≡ s.world) × (s'.upload_queue ≡ s.upload_queue)

send_file_returns :
    (s : Server) (item : FileItem) (block : Block) (writes : List ℕ) (c : Connection)
    → item.payload ≡ some block
    → length block.bytes ≡ item.size
    → (s' : Server) × (send_file item writes c item.payload s ≡ some (frees item.payload, s'))
      × Unchanged s s'
unfolding send_file report
send_file_returns s item block writes c full size =
    let fits : (length block.bytes == item.size) ≡ true = ground (arith, size) in
    let (b, older, e) =
      send_bytes_returns c.notify_writer block.bytes writes
        (record s { trace = write_formatted c.notify_writer (file_header item) ∷ s.trace }) in
    (
      record s {
        trace =
            Event.printed (if b then sending_done item else sending_failed item)
            ∷ Event.logged (if b then sending_done item else sending_failed item)
            ∷ older;
      },
      simp (full, fits, e) refl,
      (refl, refl),
    )

-- A worker that takes a file returns, whether the recipient is there or not and whether writes fail.
serve_returns :
    (s : Server) (item : FileItem) (writes : List ℕ)
    → IsValid s.world
    → IsFile item
    → (s' : Server) × (serve item writes s ≡ some (frees item.payload, s')) × Unchanged s s'
unfolding serve find_connection send_to drop_file
serve_returns s item writes valid (real, block, full, size) =
    go (find_slot_returns s item.target valid)
  where
    go :
        (o : Option (ℕ × Ptr)) × (find_slot item.target s ≡ some (o, s))
          × UserFound s.conn_at item.target s.connections o
        → (s' : Server) × (serve item writes s ≡ some (frees item.payload, s')) × Unchanged s s'
    go (none, e, h) = (
      record s {
        trace =
            Event.printed (recipient_missing item)
            ∷ Event.logged (recipient_missing item)
            ∷ s.trace;
      },
      simp (real, e) refl,
      (refl, refl),
    )
    go (some (i, p), e, (c, there, same, _)) =
        let (s', f, unchanged) = send_file_returns s item block writes c full size in
        (s', simp (real, e, there) f, unchanged)

-- Rounds of workers, one after another
abbrev pub rounds : List (List ℕ) → M (List (Option Served))
rounds [] = pure []
rounds (writes ∷ more) = do
  served ← worker_round writes
  others ← rounds more
  pure (served ∷ others)

-- What the rounds come to: each file is done with, and each sentinel ends a worker.
abbrev pub results : List FileItem → ℕ → List (Option Served)
results [] k = replicate k (some exits)
results (item ∷ items) k = some (frees item.payload) ∷ results items k

tail_of : List FileItem → List FileItem
tail_of [] = []
tail_of (x ∷ xs) = xs

-- The queue once its oldest item is taken
got :
    (q : FileQueue) (item : FileItem) (items : List FileItem)
    → QueueIsValid q
    → contents q ≡ item ∷ items
    → QueueIsValid (get q).1 × (contents (get q).1 ≡ items)
unfolding tail_of
got q item items valid e =
    let some_left : 0 < q.count = omega (arith, sym (length-contents q) ∙ ap length e) in
    (get-IsValid valid some_left, ap tail_of (sym (contents-get valid some_left) ∙ e))

serve-sentinel : (s : Server) (writes : List ℕ) → serve sentinel writes s ≡ some (exits, s)
unfolding serve
serve-sentinel s writes = refl

-- Files in front of sentinels: as many rounds as there are items leave the queue empty.
pub rounds_return :
    (items : List FileItem) (k : ℕ) (more : List (List ℕ)) (s : Server)
    → IsValid s.world
    → QueueIsValid s.upload_queue
    → contents s.upload_queue ≡ items ++ replicate k sentinel
    → AllFiles items
    → length more ≡ length items + k
    → (s' : Server) × (rounds more s ≡ some (results items k, s'))
      × (contents s'.upload_queue ≡ [])
      × (s'.world ≡ s.world)
rounds_return [] zero [] s valid qvalid e files n = (s, refl, e, refl)
rounds_return [] zero (writes ∷ more) s valid qvalid e files n = absurd (omega (arith, n))
rounds_return [] (suc k) [] s valid qvalid e files n = absurd (omega (arith, n))
rounds_return [] (suc k) (writes ∷ more) s valid qvalid e files n =
    let (qvalid', e') = got s.upload_queue sentinel (replicate k sentinel) qvalid e in
    let after : Server = record s { upload_queue = (get s.upload_queue).1 } in
    let round =
      worker_serves s after sentinel (replicate k sentinel) writes exits qvalid e
        (serve-sentinel after writes) in
    let (s', f, empty, same) =
      rounds_return [] k more after valid qvalid' e' files (omega (arith, n)) in
    (s', simp (rounds, round, f) refl, empty, same)
rounds_return (item ∷ items) k [] s valid qvalid e files n = absurd (omega (arith, n))
rounds_return (item ∷ items) k (writes ∷ more) s valid qvalid e (file, files) n =
    let (qvalid', e') = got s.upload_queue item (items ++ replicate k sentinel) qvalid e in
    let after : Server = record s { upload_queue = (get s.upload_queue).1 } in
    let (s1, f, (same, queue)) = serve_returns after item writes valid file in
    let round =
      worker_serves s s1 item (items ++ replicate k sentinel) writes (frees item.payload) qvalid e
        f in
    let (s', g, empty, same') =
      rounds_return items k more s1 (subst IsValid (sym same) valid)
        (subst QueueIsValid (sym queue) qvalid') (ap contents queue ∙ e') files
        (omega (arith, n)) in
    (s', simp (rounds, round, g) refl, empty, same' ∙ same)
