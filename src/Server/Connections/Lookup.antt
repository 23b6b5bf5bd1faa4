-- ===== src/Server/Connections/Lookup.antt =====
-- `find_slot`, `find_connection` and `broadcast_message_via_notify` on valid tables.
use mathlib.Core.Path.{subst}
use chat_app_in_c.Common.{
  ℕ, suc, ◌<◌, ◌≡◌, refl, ap, ◌∙◌, false, Option, none, some, ◌≢◌, [], ◌∷◌, Bool-cases,
  Option-cases, set, inl, inr, arith,
}
use chat_app_in_c.CString.{Bytes, str_eq, str_eq_iff}
use chat_app_in_c.Server.{Ptr, Connection, Server, write_formatted}
use chat_app_in_c.Server.Message
use chat_app_in_c.Server.Rooms.Slots.{Slots, uses, Gains, Gains-head, Gains-tail, Gains-none}
use chat_app_in_c.Server.Connections.{
  find_user, find_slot, find_connection, broadcast_message_via_notify,
}
use chat_app_in_c.Server.Invariant.{live, name_of, IsValid}

-- A search by name found the slot of a user with that name, or no listed user has it.
abbrev pub UserFound : (Ptr → Option Connection) → Bytes → Slots → Option (ℕ × Ptr) → Type 0
UserFound heap username slots none =
    (p : Ptr) (c : Connection) → 0 < uses p slots → heap p ≡ some c → c.username ≢ username
UserFound heap username slots (some (i, p)) =
    (c : Connection) × (heap p ≡ some c)
    × (c.username ≡ username)
    × Gains p (set slots i none) slots

module _ (heap : Ptr → Option Connection) (username : Bytes) where
  find_user-Found :
      (slots : Slots)
      → ((p : Ptr) → 0 < uses p slots → live (heap p) ≡ 1)
      → (o : Option (ℕ × Ptr)) × (find_user heap username slots ≡ some o)
        × UserFound heap username slots o
  unfolding find_user uses
  find_user-Found [] safe = (none, refl, λ p c used. absurd (omega arith))
  find_user-Found (none ∷ slots) safe = past (find_user-Found slots safe)
    where
      past :
          (o : Option (ℕ × Ptr)) × (find_user heap username slots ≡ some o)
            × UserFound heap username slots o
          → (o : Option (ℕ × Ptr)) × (find_user heap username (none ∷ slots) ≡ some o)
            × UserFound heap username (none ∷ slots) o
      past (none, e, h) = (none, rw e, h)
      past (some (i, p), e, (c, there, same, gains)) =
          (some (suc i, p), rw e, (c, there, same, Gains-none gains))
  find_user-Found (some q ∷ slots) safe = elim (Option-cases (heap q)) [
    | inl e ↦ absurd (ground (arith, safe q))
    | inr (d, e) ↦ elim (Bool-cases (str_eq d.username username)) [
      | inl hit ↦ (
        some (0, q),
        rw (e, find_user, hit),
        (d, e, (str_eq_iff d.username username).0 hit, Gains-head q slots),
      )
      | inr miss ↦ past d e miss (find_user-Found slots (λ p used. safe p (omega (arith, used))))
    ]
  ]
    where
      past :
          (d : Connection)
          → heap q ≡ some d
          → str_eq d.username username ≡ false
          → (o : Option (ℕ × Ptr)) × (find_user heap username slots ≡ some o)
            × UserFound heap username slots o
          → (o : Option (ℕ × Ptr)) × (find_user heap username (some q ∷ slots) ≡ some o)
            × UserFound heap username (some q ∷ slots) o
      past d e miss (none, f, h) = (
        none,
        rw (e, find_user, miss, f),
        λ p c used there same. ground (arith, h p c, str_eq_iff d.username username),
      )
      past d e miss (some (i, p), f, (c, there, same, gains)) =
          (some (suc i, p), rw (e, find_user, miss, f), (c, there, same, Gains-tail q gains))

-- `find_slot` on valid tables returns and changes nothing.
pub find_slot_returns :
    (s : Server) (username : Bytes)
    → IsValid s.world
    → (o : Option (ℕ × Ptr)) × (find_slot username s ≡ some (o, s))
      × UserFound s.conn_at username s.connections o
unfolding find_slot
find_slot_returns s username valid =
    let (o, e, h) = find_user-Found s.conn_at username s.connections listed in (o, rw e, h)
  where
    listed : (p : Ptr) → 0 < uses p s.connections → live (s.conn_at p) ≡ 1
    listed p used = ground (arith, valid.conns_once p)

-- A connection of a valid server is the one that its user name finds.
pub find_own_slot :
    (s : Server) (p : Ptr) (v : Connection)
    → IsValid s.world
    → s.conn_at p ≡ some v
    → (i : ℕ) × (find_slot v.username s ≡ some (some (i, p), s))
      × Gains p (set s.connections i none) s.connections
find_own_slot s p v valid known = own (find_slot_returns s v.username valid)
  where
    own :
        (o : Option (ℕ × Ptr)) × (find_slot v.username s ≡ some (o, s))
          × UserFound s.conn_at v.username s.connections o
        → (i : ℕ) × (find_slot v.username s ≡ some (some (i, p), s))
          × Gains p (set s.connections i none) s.connections
    own (none, e, h) = absurd (h p v (ground (arith, valid.conns_once p)) known refl)
    own (some (i, q), e, (c, there, same, gains)) =
        let same_user : q ≡ p =
          valid.users_distinct q p v.username (ap name_of there ∙ ap some same)
            (ap name_of known) in
        (
          i,
          e ∙ ap (λ x. some (some (i, x), s)) same_user,
          subst (λ x. Gains x (set s.connections i none) s.connections) same_user gains,
        )

-- `broadcast_message_via_notify` on a valid server returns: for the name of a connected user it writes
-- the line to that user's notify socket, once, and changes nothing else.
pub broadcast_message_via_notify_lem :
    (s : Server) (p : Ptr) (v : Connection) (from msg : Bytes)
    → IsValid s.world
    → s.conn_at p ≡ some v
    → broadcast_message_via_notify from v.username msg s
      ≡ some (
        tt,
        record s { trace = write_formatted v.notify_writer (Message.chat_line from msg) ∷ s.trace },
      )
unfolding broadcast_message_via_notify find_connection
broadcast_message_via_notify_lem s p v from msg valid known =
    let (i, e, _) = find_own_slot s p v valid known in rw (e, known) refl
