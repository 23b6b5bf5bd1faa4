-- ===== src/Server/Threads/Reached.antt =====
-- What every state satisfies that the threads reach, cut as finely as `/join` is.
use mathlib.Core.Path.{subst}
use chat_app_in_c.Common.{ℕ, ◌≡◌, refl, sym, ap, ◌∙◌, Option, none, some, arith}
use chat_app_in_c.CString.{Bytes, c_string}
use chat_app_in_c.Queue.{FileQueue}
use chat_app_in_c.Server.{Ptr, Connection, Server, update}
use chat_app_in_c.Server.Invariant.{IsValid, Returns_result, Returns_mono}
use chat_app_in_c.Server.Handler.Session.{round_returns}
use chat_app_in_c.Server.Handler.Starting.{start_thread_returns}
use chat_app_in_c.Server.Handler.Loop.{round, start_thread}
use chat_app_in_c.Server.Accept.{
  Line, Outcome, again, given_up, accepted, failed, ended, bytes, drop_newline, handshake_round,
}
use chat_app_in_c.Server.Accept.Register.{Registered, handshake_round_returns}
use chat_app_in_c.Server.Worker.Unchanged.{Leaves, worker_round-Leaves}
use chat_app_in_c.Server.Handler.Upload.{enqueue_upload}
use chat_app_in_c.Server.Handler.Upload.Unchanged.{enqueue_upload_same}
use chat_app_in_c.Server.Frames.{Others-refl, others}
use chat_app_in_c.Server.Frames.Session.{round-Framed, start_thread-Framed}
use chat_app_in_c.Server.Threads.{
  Place, between, closing, outside, searched, found, tested, entered, Places, begin_join, begin_end,
  Turn, handshake_turn, start_turn, round_turn, wait_turn, worker_turn, join_turn, end_turn,
  next_turn, Turns, stay, turn,
}
use chat_app_in_c.Server.Threads.Held.{Held, AllHeld, moved, stood, left_alone, result_of, Moves}
use chat_app_in_c.Server.Threads.Calls.{advance-Moves, begin-Moves}
use chat_app_in_c.Server.Steps.{started, started-IsValid}

-- After a turn to a new place
moved_by :
    (s s' : Server) (f : Places) (c : Ptr) (place : Place)
    → AllHeld s f
    → Moves c s.world (some (place, s'))
    → AllHeld s' (update f c place)
moved_by s s' f c place all (valid, mine, others) = moved s s' f c all valid others place mine

-- A place that relies on a connection is not one of an address without a connection.
absent_idle : (place : Place) (o : Option Connection) → o ≡ none → Held place o → place ≡ between
absent_idle between o e h = refl
absent_idle closing o e (v, f, _) = absurd (ground (arith, e, f))
absent_idle (outside name) o e ((v, f, _), _) = absurd (ground (arith, e, f))
absent_idle (searched name room) o e ((v, f, _), _) = absurd (ground (arith, e, f))
absent_idle (found name room) o e (v, f, _) = absurd (ground (arith, e, f))
absent_idle (tested name room) o e (v, f, _) = absurd (ground (arith, e, f))
absent_idle (entered name room) o e (v, f, _) = absurd (ground (arith, e, f))

same_tables : (s s' : Server) (f : Places) → AllHeld s f → s'.world ≡ s.world → AllHeld s' f
same_tables s s' f all e = record {
  valid = subst IsValid (sym e) all.valid;
  held = λ c. subst (λ w. Held (f c) (w.conn_at c)) (sym e) (all.held c);
}

handshake-AllHeld :
    (s s' : Server) (f : Places) (client_fd : ℕ) (calloc : Option Ptr) (text : Bytes)
    (outcome : Outcome)
    → AllHeld s f
    → IsValid s'.world
    → Registered s.world client_fd text outcome s'.world
    → AllHeld s' f
handshake-AllHeld s s' f client_fd calloc text again all valid e = same_tables s s' f all e
handshake-AllHeld s s' f client_fd calloc text given_up all valid e = same_tables s s' f all e
handshake-AllHeld s s' f client_fd calloc text (accepted i p) all valid (_, unused, e) =
    stood s s' f p all valid (λ d other. ap (λ w. w.conn_at d) e ∙ ground arith)
      (absent_idle (f p) (s.conn_at p) unused (all.held p))

any_line-AllHeld :
    (s s' : Server) (f : Places) (client_fd : ℕ) (calloc : Option Ptr) (line : Line)
    (outcome : Outcome)
    → ((p : Ptr) → calloc ≡ some p → s.conn_at p ≡ none)
    → handshake_round client_fd calloc line s ≡ some (outcome, s')
    → AllHeld s f
    → AllHeld s' f
unfolding handshake_round
any_line-AllHeld s s' f client_fd calloc ended outcome unused e all =
    same_tables s s' f all (ground (arith, e))
any_line-AllHeld s s' f client_fd calloc (failed errno text) outcome unused e all =
    same_tables s s' f all (ground (arith, e))
any_line-AllHeld s s' f client_fd calloc (bytes buf) outcome unused e all =
    let (ok, registered) =
      result_of (λ o w. IsValid w × Registered s.world client_fd (c_string (drop_newline buf)) o w)
        (handshake_round client_fd calloc (bytes buf) s) outcome s' e
        (handshake_round_returns client_fd s calloc buf all.valid unused) in
    handshake-AllHeld s s' f client_fd calloc (c_string (drop_newline buf)) outcome all ok
      registered

Turn-AllHeld : {s s' : Server} {f f' : Places} → Turn s f s' f' → AllHeld s f → AllHeld s' f'
unfolding begin_join begin_end
Turn-AllHeld {s} {s'} {f} (handshake_turn client_fd calloc line outcome unused e) all =
    any_line-AllHeld s s' f client_fd calloc line outcome unused e all
Turn-AllHeld {s} {s'} {f} (start_turn connection v tid fds t known idle e) all =
    stood s s' f connection all
      (Returns_result IsValid (start_thread connection tid fds s) t s' e
        (start_thread_returns s connection v tid fds all.valid known))
      (left_alone connection s.world (start_thread connection tid fds s) t s' e (
        start_thread-Framed connection (others connection s.world) tid fds s
          (Others-refl connection s.world)))
      idle
Turn-AllHeld {s} {s'} {f} (round_turn t v supply selected next known idle fresh e) all =
    stood s s' f t.connection all
      (Returns_result IsValid (round t supply selected s) next s' e (
        Returns_mono _ (λ _ w. IsValid w) (round t supply selected s) (λ _ w (ok, _, _). ok)
          (round_returns t s v supply selected all.valid known fresh)))
      (left_alone t.connection s.world (round t supply selected s) next s' e (
        round-Framed t (others t.connection s.world) supply selected s
          (Others-refl t.connection s.world)))
      idle
Turn-AllHeld {s} {s'} {f} (wait_turn t v item filename target next known idle file e) all =
    same_tables s s' f all (
      Returns_result (λ w. w ≡ s.world) (enqueue_upload t item filename target s) next s' e
        (enqueue_upload_same t v s item filename target known))
Turn-AllHeld {s} {s'} {f} (worker_turn writes served e) all =
    same_tables s s' f all (subst (λ o. Leaves s.world o) e (worker_round-Leaves writes s))
Turn-AllHeld {s} {s'} {f} (join_turn t v name place known idle fits e) all =
    moved_by s s' f t.connection place all (
      subst (Moves t.connection s.world) e
        (begin-Moves t s v (outside name) all.valid known (λ o out. (out, fits))))
Turn-AllHeld {s} {s'} {f} (end_turn t v place known idle e) all =
    moved_by s s' f t.connection place all (
      subst (Moves t.connection s.world) e
        (begin-Moves t s v closing all.valid known (λ o out. out)))
Turn-AllHeld {s} {s'} {f} (next_turn t fresh place place' there busy unused e) all =
    moved_by s s' f t.connection place' all (
      subst (Moves t.connection s.world) e (
        advance-Moves t s fresh place all.valid unused
          (subst (λ x. Held x (s.conn_at t.connection)) there (all.held t.connection)) busy))

pub Turns-AllHeld : {s s' : Server} {f f' : Places} → Turns s f s' f' → AllHeld s f → AllHeld s' f'
Turns-AllHeld stay all = all
Turns-AllHeld (turn before last) all = Turn-AllHeld last (Turns-AllHeld before all)

-- In every state that the server reaches from its start, the threads taking turns in any order between
-- the calls of `/join` and of the clean-up, the tables are valid, and a thread inside `/join` or its
-- clean-up finds its own connection there: in no room, or in the one that it has just entered. Each turn
-- is one that C defines; `calloc` gives memory that is not in use.
pub reached-AllHeld :
    {q : FileQueue} {s : Server} {f : Places} → Turns (started q) (λ _. between) s f → AllHeld s f
reached-AllHeld {q} turns =
    Turns-AllHeld turns (record { valid = started-IsValid q; held = λ c. tt })
