-- ===== src/Server/Shutdown/Goodbye.antt =====
-- Whom the server says goodbye to, and the shutdown as a whole.
use chat_app_in_c.Common.{
  ℕ, zero, suc, get_or, ◌+◌, ◌<◌, ◌≤◌, ◌≡◌, refl, ap, sym, ◌∙◌, ◌⊎◌, inl, inr, true, Option, none,
  some, List, [], ◌∷◌, ◌==◌, ==_iff, Bool-cases, Option-cases, length, arith,
}
use mathlib.Core.Path.{subst}
use chat_app_in_c.Queue.Invariant.{IsValid as QueueIsValid}
use chat_app_in_c.Queue.Contents.{AllFiles, contents}
use chat_app_in_c.Server.{Ptr, Connection, Server, Event, max_conn}
use chat_app_in_c.Server.Invariant.{live, IsValid}
use chat_app_in_c.Server.Rooms.Slots.{uses}
use chat_app_in_c.Server.Shutdown.{
  goodbye, connection_at, begin_goodbye, end_goodbye, say_goodbye, goodbyes, after_sentinels,
  shut_down, num_upload_workers,
}
use chat_app_in_c.Server.Shutdown.Drain.{results, rounds, rounds_return, enqueue_sentinels_lem}

abbrev pub Occurs : Event → List Event → Type 0
Occurs e [] = ⊥
Occurs e (x ∷ xs) = (x ≡ e) ⊎ Occurs e xs

-- The client is told goodbye, and its three sockets are closed.
abbrev pub Told : Connection → List Event → Type 0
Told c trace =
    Occurs (Event.sent c.sockfd goodbye) trace
    × Occurs (Event.closed c.sockfd) trace
    × Occurs (Event.closed c.notify_fd) trace
    × Occurs (Event.closed c.notify_writer) trace

-- The trace behind one goodbye
abbrev told_trace : Connection → List Event → List Event
told_trace c older =
    Event.closed c.notify_writer
    ∷ Event.shut c.notify_writer
    ∷ Event.closed c.notify_fd
    ∷ Event.shut c.notify_fd
    ∷ Event.closed c.sockfd
    ∷ Event.shut c.sockfd
    ∷ Event.sent c.sockfd goodbye
    ∷ older

abbrev trace_of : Option Connection → List Event → List Event
trace_of none older = older
trace_of (some c) older = told_trace c older

Told-told_trace : (c : Connection) (older : List Event) → Told c (told_trace c older)
Told-told_trace c older = (
  inr (inr (inr (inr (inr (inr (inl refl)))))),
  inr (inr (inr (inr (inl refl)))),
  inr (inr (inl refl)),
  inl refl,
)

-- What happened before is still in the trace.
abbrev Extends : List Event → List Event → Type 0
Extends older newer = (e : Event) → Occurs e older → Occurs e newer

told_trace-Extends : (c : Connection) (older : List Event) → Extends older (told_trace c older)
told_trace-Extends c older e h = inr (inr (inr (inr (inr (inr (inr h))))))

Told-Extends :
    (c : Connection) (older newer : List Event) → Extends older newer → Told c older → Told c newer
Told-Extends c older newer h (a, b, d, e) = (h _ a, h _ b, h _ d, h _ e)

get_or-uses :
    (slots : List (Option Ptr)) (i : ℕ) (p : Ptr) → get_or slots i none ≡ some p → 0 < uses p slots
unfolding uses
get_or-uses [] i p e = absurd (ground (arith, e))
get_or-uses (none ∷ slots) zero p e = absurd (ground (arith, e))
get_or-uses (none ∷ slots) (suc i) p e = get_or-uses slots i p e
get_or-uses (some q ∷ slots) zero p e = ground (arith, e)
get_or-uses (some q ∷ slots) (suc i) p e = omega (arith, get_or-uses slots i p e)

uses-get_or :
    (slots : List (Option Ptr)) (p : Ptr)
    → 0 < uses p slots
    → (i : ℕ) × (i < length slots) × (get_or slots i none ≡ some p)
unfolding uses
uses-get_or [] p used = absurd (omega (arith, used))
uses-get_or (none ∷ slots) p used =
    let (i, lt, e) = uses-get_or slots p used in (suc i, omega (arith, lt), e)
uses-get_or (some q ∷ slots) p used = elim (Bool-cases (q == p)) [
  | inl same ↦ (0, omega arith, ap some ((==_iff q p).0 same))
  | inr other ↦
      let (i, lt, e) = uses-get_or slots p (ground (arith, used, other)) in
      (suc i, omega (arith, lt), e)
]

say_goodbye_lem :
    (i : ℕ) (s : Server) (p : Ptr) (c : Connection)
    → get_or s.connections i none ≡ some p
    → s.conn_at p ≡ some c
    → say_goodbye i s ≡ some (tt, record s { trace = told_trace c s.trace })
unfolding say_goodbye begin_goodbye end_goodbye connection_at
say_goodbye_lem i s p c e f = simp (e, f) refl

-- Every slot that is read points to a connection.
abbrev Listed : Server → Type 0
Listed s = (k : ℕ) (p : Ptr) → get_or s.connections k none ≡ some p → live (s.conn_at p) ≡ 1

goodbyes_return :
    (n i : ℕ) (s : Server)
    → Listed s
    → (newer : List Event) × (goodbyes n i s ≡ some (tt, record s { trace = newer }))
      × Extends s.trace newer
      × ((k : ℕ) (p : Ptr) (c : Connection)
          → i ≤ k
          → k < i + n
          → get_or s.connections k none ≡ some p
          → s.conn_at p ≡ some c
          → Told c newer)
unfolding goodbyes
goodbyes_return zero i s listed =
    (s.trace, refl, λ e h. h, λ k p c le lt. absurd (omega (arith, le, lt)))
goodbyes_return (suc n) i s listed = elim (Option-cases (get_or s.connections i none)) [
  | inl e ↦
      let (newer, f, extends, all) = goodbyes_return n (suc i) s listed in
      (
        newer,
        rw e f,
        extends,
        λ k p c le lt at there. elim (Bool-cases (i == k)) [
          | inl same ↦
              absurd
                (ground (arith, ap (λ j. get_or s.connections j none) ((==_iff i k).0 same), e, at))
          | inr other ↦ all k p c (ground (arith, le, other)) (omega (arith, lt)) at there
        ],
      )
  | inr (q, e) ↦ elim (Option-cases (s.conn_at q)) [
    | inl g ↦ absurd (ground (arith, g, listed i q e))
    | inr (d, g) ↦
        let (newer, f, extends, all) =
          goodbyes_return n (suc i) (record s { trace = told_trace d s.trace }) listed in
        (
          newer,
          rw (e, say_goodbye_lem i s q d e g) f,
          λ x h. extends x (told_trace-Extends d s.trace x h),
          λ k p c le lt at there. elim (Bool-cases (i == k)) [
            | inl same ↦
                let same_slot : some q ≡ some p =
                  sym e ∙ ap (λ j. get_or s.connections j none) ((==_iff i k).0 same) ∙ at in
                let same_user : some d ≡ some c =
                  sym g ∙ ap (λ (o : Option Ptr). found_at s o) same_slot ∙ there in
                Told-Extends c (told_trace c s.trace) newer
                  (subst (λ o. Extends (trace_of o s.trace) newer) same_user extends)
                  (Told-told_trace c s.trace)
            | inr other ↦ all k p c (ground (arith, le, other)) (omega (arith, lt)) at there
          ],
        )
  ]
]
  where
    found_at : Server → Option Ptr → Option Connection
    found_at s' none = none
    found_at s' (some p) = s'.conn_at p

-- The shutdown of a server with space for the sentinels in its queue, in which no other thread takes a turn
-- until `main` has come to its joins: `main` gets past them without
-- waiting, every connected client is told goodbye and its sockets are closed, and as many rounds of the
-- workers as there are queued files and sentinels serve the files, in order, end all five workers and
-- leave the queue empty. The server is valid, and each queued item is a file with its bytes.
pub shut_down_ends :
    (s : Server) (more : List (List ℕ))
    → IsValid s.world
    → QueueIsValid s.upload_queue
    → AllFiles (contents s.upload_queue)
    → s.upload_queue.count + num_upload_workers ≤ s.upload_queue.capacity
    → length more ≡ length (contents s.upload_queue) + num_upload_workers
    → (s1 s2 : Server) × (shut_down s ≡ some (true, s1))
      × ((p : Ptr) (c : Connection) → s.conn_at p ≡ some c → Told c s1.trace)
      × (rounds more s1 ≡ some (results (contents s.upload_queue) num_upload_workers, s2))
      × (contents s2.upload_queue ≡ [])
unfolding shut_down after_sentinels
shut_down_ends s more valid qvalid files space enough =
    let (q, e, qvalid', queued) =
      enqueue_sentinels_lem num_upload_workers s.upload_queue qvalid space in
    let (newer, f, _, told) =
      goodbyes_return max_conn 0 (record s { upload_queue = q })
        (λ k p at. ground (arith, valid.conns_once p, get_or-uses s.connections k p at)) in
    let s1 : Server = record s { upload_queue = q; trace = newer } in
    let (s2, g, empty, _) =
      rounds_return (contents s.upload_queue) num_upload_workers more s1 valid qvalid' queued files
        enough in
    (
      s1,
      s2,
      simp (e, f) refl,
      λ p c there.
          let (k, lt, at) =
            uses-get_or s.connections p (ground (arith, valid.conns_once p, there)) in
          told k p c (omega arith) (omega (arith, lt, valid.conns_size)) at there,
      g,
      empty,
    )
