-- ===== src/Server/Worker/Delivery.antt =====
-- What the recipient of a file gets.
use chat_app_in_c.Common.{
  ℕ, zero, suc, ◌+◌, ◌-◌, ◌<◌, ◌≤◌, ◌≡◌, refl, ap, sym, ◌∙◌, true, false, Option, none, some, ◌≢◌,
  List, [], ◌∷◌, ◌++◌, append_assoc, append-nil, ◌==◌, ==_refl, if◌then◌else◌, length, take, drop,
  arith,
}
use mathlib.Core.Path.{subst}
use chat_app_in_c.CString.{Bytes}
use chat_app_in_c.Queue.{Block, FileItem}
use chat_app_in_c.Server.{Ptr, Connection, Server, Event, write_formatted}
use chat_app_in_c.Server.Rooms.Broadcast.{written_whole}
use chat_app_in_c.Server.Connections.{find_slot, find_connection}
use chat_app_in_c.Server.Connections.Lookup.{UserFound, find_slot_returns, find_own_slot}
use chat_app_in_c.Server.Invariant.{IsValid}
use chat_app_in_c.Server.Worker.{
  frees, file_header, sending_done, recipient_missing, send_bytes, report, send_file, drop_file,
  send_to, serve,
}

-- The bytes that the trace says were written to a descriptor, oldest first
abbrev pub written_by : ℕ → Event → Bytes
written_by fd (Event.written fd' bytes) = if fd' == fd then bytes else []
written_by fd _ = []

abbrev pub output : ℕ → List Event → Bytes
output fd [] = []
output fd (e ∷ es) = output fd es ++ written_by fd e

-- No `write` fails.
abbrev pub NoneFails : List ℕ → Type 0
NoneFails [] = Unit {0}
NoneFails (n ∷ ns) = (0 < n) × NoneFails ns

abbrev pub total : List ℕ → ℕ
total [] = 0
total (n ∷ ns) = n + total ns

take-drop : (n : ℕ) (xs : Bytes) → take n xs ++ drop n xs ≡ xs
take-drop zero xs = refl
take-drop (suc n) [] = refl
take-drop (suc n) (x ∷ xs) = ap (◌∷◌ x) (take-drop n xs)

length-drop : (n : ℕ) (xs : Bytes) → length (drop n xs) ≤ length xs - n
length-drop zero xs = omega arith
length-drop (suc n) [] = omega arith
length-drop (suc n) (x ∷ xs) = omega (arith, length-drop n xs)

-- The write loop, if no `write` fails and they take enough bytes, writes all of the bytes in order.
send_bytes_lem :
    (fd : ℕ) (bytes : Bytes) (writes : List ℕ) (s : Server)
    → NoneFails writes
    → length bytes ≤ total writes
    → (older : List Event) × (send_bytes fd bytes writes s
        ≡ some (true, record s { trace = older }))
      × (output fd older ≡ output fd s.trace ++ bytes)
unfolding send_bytes
send_bytes_lem fd [] writes s ok enough = (s.trace, refl, sym (append-nil (output fd s.trace)))
send_bytes_lem fd (b ∷ bs) [] s ok enough = absurd (omega arith)
send_bytes_lem fd (b ∷ bs) (zero ∷ writes) s (pos, ok) enough = absurd (omega arith)
send_bytes_lem fd (b ∷ bs) (suc n ∷ writes) s (pos, ok) enough =
    let s' = record s { trace = Event.written fd (take (suc n) (b ∷ bs)) ∷ s.trace } in
    let (older, e, out) =
      send_bytes_lem fd (drop n bs) writes s' ok (omega (arith, length-drop n bs)) in
    (
      older,
      e,
      out
          ∙ rw (==_refl fd) (append_assoc (output fd s.trace) (take (suc n) (b ∷ bs)) (drop n bs))
          ∙ ap (λ xs. output fd s.trace ++ xs) (take-drop (suc n) (b ∷ bs)),
    )

header_output :
    (fd : ℕ) (text : Bytes) (older : List Event)
    → length text ≤ 4095
    → output fd (write_formatted fd text ∷ older) ≡ output fd older ++ text
header_output fd text older short = rw (written_whole fd text short, ==_refl fd) refl

-- The state in which the write loop of a file starts
abbrev begun : Server → Connection → FileItem → Server
begun s u item = record s { trace = write_formatted u.notify_writer (file_header item) ∷ s.trace }

abbrev finished : Server → FileItem → List Event → Server
finished s item older = record s {
  trace = Event.printed (sending_done item) ∷ Event.logged (sending_done item) ∷ older;
}

module _ (s : Server) (p : Ptr) (u : Connection) (item : FileItem) (block : Block) (writes : List ℕ)
    (valid : IsValid s.world) (known : s.conn_at p ≡ some u) (same : u.username ≡ item.target)
    (real : item.is_sentinel ≡ false) (full : item.payload ≡ some block)
    (size : length block.bytes ≡ item.size) where
  send_file_run :
      (older : List Event)
      → send_bytes u.notify_writer block.bytes writes (begun s u item)
        ≡ some (true, record s { trace = older })
      → send_file item writes u (some block) s ≡ some (frees item.payload, finished s item older)
  unfolding send_file report
  send_file_run older e =
      let fits : (length block.bytes == item.size) ≡ true = ground (arith, size) in
      simp (fits, e) refl

  serve_run :
      (older : List Event) (i : ℕ)
      → find_slot item.target s ≡ some (some (i, p), s)
      → send_bytes u.notify_writer block.bytes writes (begun s u item)
        ≡ some (true, record s { trace = older })
      → serve item writes s ≡ some (frees item.payload, finished s item older)
  unfolding serve find_connection send_to
  serve_run older i found e =
      simp (real, found, known, full)
        (send_file_run older e ∙ ap (λ o. some (frees o, finished s item older)) full)

  served_output :
      (older : List Event)
      → length (file_header item) ≤ 4095
      → output u.notify_writer older ≡ output u.notify_writer (begun s u item).trace ++ block.bytes
      → output u.notify_writer (finished s item older).trace
        ≡ output u.notify_writer s.trace ++ (file_header item ++ block.bytes)
  served_output older short out =
      append-nil (output u.notify_writer older ++ [])
      ∙ append-nil (output u.notify_writer older)
      ∙ out
      ∙ ap (λ xs. xs ++ block.bytes)
          (header_output u.notify_writer (file_header item) s.trace short)
      ∙ append_assoc (output u.notify_writer s.trace) (file_header item) block.bytes

-- The worker, with an item for a connected user, if the header fits its buffer, no `write` fails and the
-- writes take enough bytes: the user's notify socket gets the header and then exactly the bytes of the
-- file, in order; the tables stay as they are, and the item's data is to be freed.
pub file_is_delivered :
    (s : Server) (p : Ptr) (u : Connection) (item : FileItem) (block : Block) (writes : List ℕ)
    → IsValid s.world
    → s.conn_at p ≡ some u
    → u.username ≡ item.target
    → item.is_sentinel ≡ false
    → item.payload ≡ some block
    → length block.bytes ≡ item.size
    → length (file_header item) ≤ 4095
    → NoneFails writes
    → item.size ≤ total writes
    → (s' : Server) × (serve item writes s ≡ some (frees item.payload, s'))
      × (s'.world ≡ s.world)
      × (output u.notify_writer s'.trace
          ≡ output u.notify_writer s.trace ++ (file_header item ++ block.bytes))
file_is_delivered s p u item block writes valid known same real full size short ok enough =
    let (i, found, _) = find_own_slot s p u valid known in
    let (older, e, out) =
      send_bytes_lem u.notify_writer block.bytes writes (begun s u item) ok
        (omega (arith, size, enough)) in
    (
      finished s item older,
      serve_run s p u item block writes valid known same real full size older i
          (subst (λ n. find_slot n s ≡ some (some (i, p), s)) same found) e,
      refl,
      served_output s p u item block writes valid known same real full size older short out,
    )

-- A worker's item for a user that is not connected is dropped: nothing is written to any socket, and its
-- data is to be freed.
pub file_is_dropped :
    (s : Server) (item : FileItem) (writes : List ℕ)
    → IsValid s.world
    → item.is_sentinel ≡ false
    → ((p : Ptr) (u : Connection) → s.conn_at p ≡ some u → u.username ≢ item.target)
    → serve item writes s
      ≡ some (
        frees item.payload,
        record s {
          trace =
              Event.printed (recipient_missing item)
              ∷ Event.logged (recipient_missing item)
              ∷ s.trace;
        },
      )
unfolding serve find_connection send_to drop_file
file_is_dropped s item writes valid real nobody = go (find_slot_returns s item.target valid)
  where
    go :
        (o : Option (ℕ × Ptr)) × (find_slot item.target s ≡ some (o, s))
          × UserFound s.conn_at item.target s.connections o
        → serve item writes s
          ≡ some (
            frees item.payload,
            record s {
              trace =
                  Event.printed (recipient_missing item)
                  ∷ Event.logged (recipient_missing item)
                  ∷ s.trace;
            },
          )
    go (none, e, h) = simp (real, e) refl
    go (some (i, p), e, (c, there, same, _)) = absurd (nobody p c there same)
