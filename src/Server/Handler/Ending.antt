-- ===== src/Server/Handler/Ending.antt =====
-- The clean-up behind the loop of `client_handler`.
use chat_app_in_c.Common.{◌≤◌, ◌≡◌, refl, ap, ◌∙◌, none, some, arith, take-all, length}
use chat_app_in_c.Server.{Connection, Server, update}
use chat_app_in_c.Server.Invariant.{name_of, IsValid, Returns, Returns_mono}
use chat_app_in_c.Server.Handler.{Thread, leave_current}
use chat_app_in_c.Server.Handler.Loop.{close_down, clean_up}
use chat_app_in_c.Server.Handler.Commands.{Returns-bind, InNoRoom, leave_current_returns}
use chat_app_in_c.Server.Connections.{remove_connection}
use chat_app_in_c.Server.Connections.Removal.{remove_connection_returns}

-- Once the client is out of its room, the clean-up frees its connection and leaves the others alone.
pub close_down_returns :
    (t : Thread) (s : Server) (v : Connection)
    → IsValid s.world
    → s.conn_at t.connection ≡ some v
    → v.room ≡ none
    → Returns (close_down t s) (λ _ w. IsValid w × (w.conn_at ≡ update s.conn_at t.connection none))
unfolding close_down
close_down_returns t s v valid known out =
    rw (known, take-all 15 v.username fits)
      (Returns_mono _ (λ _ w. IsValid w × (w.conn_at ≡ update s.conn_at t.connection none))
        (remove_connection v.username _) (λ _ w (ok, e, _). (ok, e))
        (remove_connection_returns _ t.connection v valid known out))
  where
    fits : length v.username ≤ 15
    fits = ground (arith, valid.users_fit t.connection v.username (ap name_of known))

-- The clean-up of the thread of a connected client of a valid server returns: the connection has left
-- its room and is freed, and the invariant holds.
pub clean_up_returns :
    (t : Thread) (s : Server) (v : Connection)
    → IsValid s.world
    → s.conn_at t.connection ≡ some v
    → Returns (clean_up t s) (λ _ w. IsValid w × (w.conn_at t.connection ≡ none))
unfolding clean_up
clean_up_returns t s v valid known =
    Returns-bind (λ _ w. IsValid w × InNoRoom t.connection v w)
      (λ _ w. IsValid w × (w.conn_at t.connection ≡ none)) (leave_current t.connection s) _
      (leave_current_returns s t.connection v valid known)
      (λ _ s' (ok, gone).
        Returns_mono _ (λ _ w. IsValid w × (w.conn_at t.connection ≡ none)) (close_down t s')
          (λ _ w (ok', e). (ok', ap (λ f. f t.connection) e ∙ ground arith))
          (close_down_returns t s' (record v { room = none }) ok gone refl))
