-- ===== src/Server/Handler/Session.antt =====
-- One round of `client_handler`, whatever the client sends: it returns and keeps the invariant.
use chat_app_in_c.Common.{◌≡◌, refl, Option, none, some}
use chat_app_in_c.CString.{Bytes, codes, str_eq}
use chat_app_in_c.Server.{Connection, Server}
use chat_app_in_c.Server.Invariant.{IsValid, Returns, Returns_world}
use chat_app_in_c.Server.Handler.{
  Thread, do_exit, do_whisper, do_join, do_leave, do_broadcast, do_unknown,
}
use chat_app_in_c.Server.Handler.Upload.{Next, goes_on, continues, stops, waits_full, do_sendfile}
use chat_app_in_c.Server.Handler.Upload.Unchanged.{do_sendfile_same}
use chat_app_in_c.Server.Handler.Loop.{
  Supply, dispatch, run_command, Received, failed, ended, bytes, client_ready, notify_ready,
  notify_part, after_client, Selected, select_error, ready, round,
}
use chat_app_in_c.Server.Handler.Commands.{Returns-bind}
use chat_app_in_c.Server.Handler.Keeps.{
  Kept, Fresh, Returns-if, Returns-then, unchanged, whisper_keeps, broadcast_keeps, leave_keeps,
  unknown_keeps, join_keeps,
}

module _ (t : Thread) (s : Server) (v : Connection) (supply : Supply) (valid : IsValid s.world)
    (known : s.conn_at t.connection ≡ some v) (fresh : Fresh t.connection supply s.world) where
  abbrev Keeps : Option (Next × Server) → Type 0
  Keeps o = Returns o (λ _ w. Kept t.connection v w)

  do_join_keeps :
      (args : Bytes) → Returns (do_join t supply.calloc args s) (λ _ w. Kept t.connection v w)
  unfolding do_join
  do_join_keeps args =
      let (p, e, unused) = fresh in
      rw e (join_keeps t s v valid known p (λ s'. unused s s' refl) _ _)

  do_sendfile-Keeps : (args : Bytes) → Keeps (do_sendfile t supply.malloc supply.chunks args s)
  do_sendfile-Keeps args =
      Returns_world (Kept t.connection v) (do_sendfile t supply.malloc supply.chunks args s)
        (do_sendfile_same t v s supply.malloc supply.chunks args known)
        (unchanged t s v valid known)

  dispatch-Keeps : (cmd args : Bytes) → Keeps (dispatch t supply cmd args s)
  unfolding dispatch do_exit do_whisper do_broadcast
  dispatch-Keeps cmd args =
      Returns-if _ (str_eq cmd (codes "/exit")) _ _ s (unchanged t s v valid known) (
        Returns-if _ (str_eq cmd (codes "/whisper")) _ _ s
          (Returns-then (Kept t.connection v) (do_whisper t cmd args s) goes_on
            (whisper_keeps t s v valid known cmd _ _))
          (Returns-if _ (str_eq cmd (codes "/join")) _ _ s
            (Returns-then (Kept t.connection v) (do_join t supply.calloc args s) goes_on
              (do_join_keeps args))
            (Returns-if _ (str_eq cmd (codes "/leave")) _ _ s
              (Returns-then (Kept t.connection v) (do_leave t s) goes_on
                (leave_keeps t s v valid known))
              (Returns-if _ (str_eq cmd (codes "/broadcast")) _ _ s
                (Returns-then (Kept t.connection v) (do_broadcast t args s) goes_on
                  (broadcast_keeps t s v valid known _))
                (Returns-if _ (str_eq cmd (codes "/sendfile")) _ _ s (do_sendfile-Keeps args) (
                  Returns-then (Kept t.connection v) (do_unknown t s) goes_on
                    (unknown_keeps t s v valid known)))))))

run_command_keeps :
    (t : Thread) (s : Server) (v : Connection) (supply : Supply)
    → IsValid s.world
    → s.conn_at t.connection ≡ some v
    → Fresh t.connection supply s.world
    → (cmd : Option Bytes) (args : Bytes)
    → Returns (run_command t supply cmd args s) (λ _ w. Kept t.connection v w)
unfolding run_command do_unknown
run_command_keeps t s v supply valid known fresh none args =
    rw (known, known) (unchanged t s v valid known)
run_command_keeps t s v supply valid known fresh (some cmd) args =
    rw known (dispatch-Keeps t _ v supply valid known fresh cmd args)

client_ready_keeps :
    (t : Thread) (s : Server) (v : Connection) (supply : Supply)
    → IsValid s.world
    → s.conn_at t.connection ≡ some v
    → Fresh t.connection supply s.world
    → (received : Received)
    → Returns (client_ready t supply received s) (λ _ w. Kept t.connection v w)
unfolding client_ready
client_ready_keeps t s v supply valid known fresh failed = rw known (unchanged t s v valid known)
client_ready_keeps t s v supply valid known fresh ended = rw known (unchanged t s v valid known)
client_ready_keeps t s v supply valid known fresh (bytes buf) =
    run_command_keeps t s v supply valid known fresh _ _

pub notify_part_world :
    (t : Thread) (notify : Option Received) (s : Server)
    → Returns (notify_part t notify s) (λ _ w. w ≡ s.world)
unfolding notify_part notify_ready
notify_part_world t none s = refl
notify_part_world t (some (bytes buf)) s = refl
notify_part_world t (some failed) s = refl
notify_part_world t (some ended) s = refl

pub after_client_world :
    (t : Thread) (notify : Option Received) (next : Next) (s : Server)
    → Returns (after_client t notify next s) (λ _ w. w ≡ s.world)
unfolding after_client
after_client_world t notify goes_on s = notify_part_world t notify s
after_client_world t notify continues s = refl
after_client_world t notify stops s = refl
after_client_world t notify (waits_full item filename target) s = refl

-- One round of a client's thread returns, whatever the client sends and whatever the sockets give; the
-- invariant holds afterwards, and the client's connection is as it was but for its room pointer.
-- `calloc` must give memory, and memory that is not in use for a room.
pub round_returns :
    (t : Thread) (s : Server) (v : Connection) (supply : Supply) (selected : Selected)
    → IsValid s.world
    → s.conn_at t.connection ≡ some v
    → Fresh t.connection supply s.world
    → Returns (round t supply selected s) (λ _ w. Kept t.connection v w)
unfolding round
round_returns t s v supply (select_error text) valid known fresh =
    rw known (unchanged t s v valid known)
round_returns t s v supply (ready none notify) valid known fresh =
    Returns_world (Kept t.connection v) (notify_part t notify s) (notify_part_world t notify s)
      (unchanged t s v valid known)
round_returns t s v supply (ready (some received) notify) valid known fresh =
    Returns-bind (λ _ w. Kept t.connection v w) (λ _ w. Kept t.connection v w)
      (client_ready t supply received s) _
      (client_ready_keeps t s v supply valid known fresh received)
      (λ next s' kept.
        Returns_world (Kept t.connection v) (after_client t notify next s')
          (after_client_world t notify next s') kept)
