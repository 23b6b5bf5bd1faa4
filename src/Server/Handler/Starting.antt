-- ===== src/Server/Handler/Starting.antt =====
-- The start of `client_handler`: the thread's id and its socket pair.
use chat_app_in_c.Common.{
  ℕ, ◌≡◌, refl, sym, ◌∙◌, true, Option, none, some, ◌==◌, Bool-cases, inl, inr, ==_refl, arith,
}
use chat_app_in_c.Server.{Ptr, Connection, World, Server, update}
use chat_app_in_c.Server.Invariant.{in_room, name_of, IsValid, Returns}
use chat_app_in_c.Server.Handler.Loop.{start_thread}

-- A write to a connection that leaves its user name and its room pointer alone
abbrev touched : World → Ptr → Connection → World
touched w connection u = record w { conn_at = update w.conn_at connection (some u) }

module _ (w : World) (connection : Ptr) (u v : Connection) (valid : IsValid w)
    (known : w.conn_at connection ≡ some v) (same_name : u.username ≡ v.username)
    (same_room : u.room ≡ v.room) where
  named : (c : Ptr) → name_of (update w.conn_at connection (some u) c) ≡ name_of (w.conn_at c)
  named c = ground arith

  inside :
      (c p : Ptr) → in_room (update w.conn_at connection (some u) c) p ≡ in_room (w.conn_at c) p
  inside c p = elim (Bool-cases (connection == c)) [
    | inl here ↦
        let at : connection ≡ c = ground arith in rw (here, same_room) (rw (← at, known) refl)
    | inr elsewhere ↦ rw elsewhere refl
  ]

  touched-IsValid : IsValid (touched w connection u)
  touched-IsValid = record {
    conns_size = valid.conns_size;
    rooms_size = valid.rooms_size;
    conns_once = λ c. ground (arith, valid.conns_once c);
    rooms_once = valid.rooms_once;
    rooms_valid = valid.rooms_valid;
    members_agree = λ p r e c. valid.members_agree p r e c ∙ sym (inside c p);
    no_dangling = λ c x p e f.
        ground (
          arith,
          λ (h : w.conn_at c ≡ some x). valid.no_dangling c x p h f,
          valid.no_dangling c v p,
        );
    users_fit = λ c n e. valid.users_fit c n (sym (named c) ∙ e);
    users_distinct =
        λ c d n e f. valid.users_distinct c d n (sym (named c) ∙ e) (sym (named d) ∙ f);
  }

-- The start of a client's thread returns and keeps the invariant, whether or not there is a socket pair.
pub start_thread_returns :
    (s : Server) (connection : Ptr) (v : Connection) (tid : ℕ) (fds : Option (ℕ × ℕ))
    → IsValid s.world
    → s.conn_at connection ≡ some v
    → Returns (start_thread connection tid fds s) (λ _ w. IsValid w)
unfolding start_thread
start_thread_returns s connection v tid none valid known =
    rw (known, ==_refl connection) (touched-IsValid s.world connection _ v valid known refl refl)
start_thread_returns s connection v tid (some (reader, writer)) valid known =
    rw (known, ==_refl connection)
      (touched-IsValid (touched s.world connection (record v { tid = tid; initialized = true }))
        connection
        (record v { tid = tid; initialized = true; notify_fd = reader; notify_writer = writer })
        (record v { tid = tid; initialized = true })
        (touched-IsValid s.world connection _ v valid known refl refl) (ground arith) refl refl)
