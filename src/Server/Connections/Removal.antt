-- ===== src/Server/Connections/Removal.antt =====
-- `remove_connection`: it takes the user's connection out of the table and frees it.
use chat_app_in_c.Common.{ℕ, ◌≡◌, refl, sym, ◌∙◌, none, some, set, arith}
use chat_app_in_c.CString.{Bytes}
use chat_app_in_c.Server.{Ptr, Connection, World, Server, update}
use chat_app_in_c.Server.Rooms.Slots.{Gains}
use chat_app_in_c.Server.Connections.{remove_connection}
use chat_app_in_c.Server.Connections.Lookup.{find_own_slot}
use chat_app_in_c.Server.Invariant.{name_of, IsValid, Returns}

-- The tables and heap without the connection `p`, which was in the slot `i`
abbrev pub removed : World → Ptr → ℕ → World
removed w p i = record w {
  connections = set w.connections i none;
  conn_at = update w.conn_at p none;
}

module _ (w : World) (p : Ptr) (v : Connection) (i : ℕ) (valid : IsValid w)
    (known : w.conn_at p ≡ some v) (out : v.room ≡ none)
    (gains : Gains p (set w.connections i none) w.connections) where
  name_kept :
      (c : Ptr) (n : Bytes)
      → name_of (update w.conn_at p none c) ≡ some n
      → name_of (w.conn_at c) ≡ some n
  name_kept c n e = ground arith

  removed-IsValid : IsValid (removed w p i)
  removed-IsValid = record {
    conns_size = sym gains.size ∙ valid.conns_size;
    rooms_size = valid.rooms_size;
    conns_once = λ c. ground (arith, valid.conns_once c, gains.gained c);
    rooms_once = valid.rooms_once;
    rooms_valid = valid.rooms_valid;
    members_agree = λ q r e c. ground (arith, valid.members_agree q r e c);
    no_dangling =
        λ c u q e f. ground (arith, λ (h : w.conn_at c ≡ some u). valid.no_dangling c u q h f);
    users_fit = λ c n e. valid.users_fit c n (name_kept c n e);
    users_distinct = λ c d n e f. valid.users_distinct c d n (name_kept c n e) (name_kept d n f);
  }

-- `remove_connection` for the name of a connected user that is in no room returns: the connection is
-- freed, no other connection changes, no room leaves the table, and the invariant holds.
pub remove_connection_returns :
    (s : Server) (p : Ptr) (v : Connection)
    → IsValid s.world
    → s.conn_at p ≡ some v
    → v.room ≡ none
    → Returns
        (remove_connection v.username s)
        (λ _ w. IsValid w × (w.conn_at ≡ update s.conn_at p none) × (w.rooms ≡ s.rooms))
unfolding remove_connection
remove_connection_returns s p v valid known out =
    let (i, e, gains) = find_own_slot s p v valid known in
    rw (e, known) (removed-IsValid s.world p v i valid known out gains, refl, refl)
