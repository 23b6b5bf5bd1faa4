-- ===== src/Server/Accept/Register.antt =====
-- A round of the handshake returns and keeps the invariant; user names stay distinct.
use mathlib.Core.Option
use chat_app_in_c.Common.{
  ℕ, ◌<◌, ◌≡◌, refl, ap, sym, ◌∙◌, Option, none, some, ◌≢◌, ◌⊎◌, inl, inr, ◌==◌, set, Bool-cases,
  Option-cases, take-all, length, arith,
}
use chat_app_in_c.CString.{Bytes, c_string, copy_into}
use chat_app_in_c.Server.{Ptr, Connection, World, Server, username_len, update}
use chat_app_in_c.Server.Names.{is_valid_username, is_valid_username_iff}
use chat_app_in_c.Server.Rooms.{find_free}
use chat_app_in_c.Server.Rooms.Slots.{Gains, find_free-some}
use chat_app_in_c.Server.Connections.{find_connection, find_free_slot}
use chat_app_in_c.Server.Connections.Lookup.{UserFound, find_slot_returns}
use chat_app_in_c.Server.Invariant.{name_of, IsValid, Returns, Returns_mono}
use chat_app_in_c.Server.Accept.{
  Line, failed, ended, bytes, Outcome, again, given_up, accepted, drop_newline, new_connection,
  insert_user, take_slot, refuse_taken, unless_taken, refuse_invalid, register_name,
  handshake_round,
}

-- The tables and heap with a new connection at `p`, in the slot `i`
abbrev pub registered : World → Ptr → ℕ → ℕ → Bytes → World
registered w p i client_fd username = record w {
  conn_at = update w.conn_at p (some (new_connection client_fd username));
  connections = set w.connections i (some p);
}

module _ (w : World) (p : Ptr) (i client_fd : ℕ) (username : Bytes) (valid : IsValid w)
    (unused : w.conn_at p ≡ none) (fits : length username < username_len)
    (nobody : (c : Ptr) (v : Connection) → w.conn_at c ≡ some v → v.username ≢ username)
    (gains : Gains p w.connections (set w.connections i (some p))) where
  whole : copy_into username_len username ≡ username
  whole = take-all 15 username (omega arith)

  name_after :
      (c : Ptr) (n : Bytes)
      → name_of ((registered w p i client_fd username).conn_at c) ≡ some n
      → (name_of (w.conn_at c) ≡ some n) ⊎ ((c ≡ p) × (n ≡ username))
  name_after c n e = elim (Bool-cases (p == c)) [
    | inl here ↦ inr (ground arith, ground (arith, whole))
    | inr elsewhere ↦ inl (ground arith)
  ]

  nobody_named : (c : Ptr) → name_of (w.conn_at c) ≢ some username
  nobody_named c e = elim (Option-cases (w.conn_at c)) [
    | inl f ↦ ground arith
    | inr (v, f) ↦ nobody c v f (ground arith)
  ]

  registered-IsValid : IsValid (registered w p i client_fd username)
  registered-IsValid = record {
    conns_size = gains.size ∙ valid.conns_size;
    rooms_size = valid.rooms_size;
    conns_once = λ c. ground (arith, valid.conns_once c, gains.gained c);
    rooms_once = valid.rooms_once;
    rooms_valid = valid.rooms_valid;
    members_agree = λ q r e c. ground (arith, valid.members_agree q r e c);
    no_dangling =
        λ c u q e f. ground (arith, λ (h : w.conn_at c ≡ some u). valid.no_dangling c u q h f);
    users_fit = λ c n e. elim (name_after c n e) [
      | inl old ↦ valid.users_fit c n old
      | inr (_, new) ↦ ground arith
    ];
    users_distinct = λ c d n e f. distinct c d n (name_after c n e) (name_after d n f);
  }
    where
      distinct :
          (c d : Ptr) (n : Bytes)
          → (name_of (w.conn_at c) ≡ some n) ⊎ ((c ≡ p) × (n ≡ username))
          → (name_of (w.conn_at d) ≡ some n) ⊎ ((d ≡ p) × (n ≡ username))
          → c ≡ d
      distinct c d n (inl e) (inl f) = valid.users_distinct c d n e f
      distinct c d n (inl e) (inr (_, f)) = absurd (nobody_named c (e ∙ ap some f))
      distinct c d n (inr (_, e)) (inl f) = absurd (nobody_named d (f ∙ ap some e))
      distinct c d n (inr (e, _)) (inr (f, _)) = e ∙ sym f

-- What a round of the handshake with the line of a name leaves: nothing changed, or a new connection
-- with that name, at an address where there was none, in the slot that it answers.
abbrev pub Registered : World → ℕ → Bytes → Outcome → World → Type 0
Registered w client_fd username again w' = w' ≡ w
Registered w client_fd username given_up w' = w' ≡ w
Registered w client_fd username (accepted i p) w' =
    (find_free w.connections ≡ some i)
    × (w.conn_at p ≡ none)
    × (w' ≡ registered w p i client_fd username)

module _ (client_fd : ℕ) (s : Server) (username : Bytes) (calloc : Option Ptr)
    (valid : IsValid s.world) (unused : (p : Ptr) → calloc ≡ some p → s.conn_at p ≡ none)
    (fits : length username < username_len) where
  abbrev Ok : Outcome → World → Type 0
  Ok o w = IsValid w × Registered s.world client_fd username o w

  module _
      (nobody : (c : Ptr) (v : Connection) → s.conn_at c ≡ some v → v.username ≢ username) where
    insert_user_returns :
        (i : ℕ) (o : Option Ptr)
        → calloc ≡ o
        → find_free s.connections ≡ some i
        → Returns (insert_user client_fd username i o s) Ok
    unfolding insert_user
    insert_user_returns i none e free = (valid, refl)
    insert_user_returns i (some p) e free = (
      registered-IsValid s.world p i client_fd username valid (unused p e) fits nobody
          (find_free-some p s.connections i free),
      (free, unused p e, refl),
    )

    take_slot_returns :
        (o : Option ℕ)
        → find_free s.connections ≡ o
        → Returns (take_slot client_fd username calloc o s) Ok
    unfolding take_slot
    take_slot_returns none e = (valid, refl)
    take_slot_returns (some i) e = insert_user_returns i calloc refl e

  unless_taken_returns :
      (o : Option (ℕ × Ptr))
      → UserFound s.conn_at username s.connections o
      → Returns (unless_taken client_fd username calloc (Option.map (λ (i, p). p) o) s) Ok
  unfolding unless_taken refuse_taken find_free_slot
  unless_taken_returns (some (i, p)) h = (valid, refl)
  unless_taken_returns none h =
      take_slot_returns (λ c v e. h c v (ground (arith, valid.conns_once c)) e)
        (find_free s.connections) refl

  register_name_returns : Returns (register_name client_fd username calloc s) Ok
  unfolding register_name find_connection
  register_name_returns =
      let (o, e, h) = find_slot_returns s username valid in rw e (unless_taken_returns o h)

-- One round of the handshake on a line that came returns and keeps the invariant: user names stay
-- distinct, and each connection stands in one slot. Either nothing changes, or the first free slot now
-- holds a new connection with the name that was sent, at an address where there was none. `calloc` must
-- give no memory that is in use.
pub handshake_round_returns :
    (client_fd : ℕ) (s : Server) (calloc : Option Ptr) (buf : Bytes)
    → IsValid s.world
    → ((p : Ptr) → calloc ≡ some p → s.conn_at p ≡ none)
    → Returns
        (handshake_round client_fd calloc (bytes buf) s)
        (λ o w. IsValid w × Registered s.world client_fd (c_string (drop_newline buf)) o w)
unfolding handshake_round refuse_invalid
handshake_round_returns client_fd s calloc buf valid unused =
    elim (Bool-cases (is_valid_username (c_string (drop_newline buf)))) [
      | inl good ↦ rw good (
          register_name_returns client_fd s (c_string (drop_newline buf)) calloc valid unused
            (ground (arith, is_valid_username_iff (c_string (drop_newline buf)))))
      | inr bad ↦ rw bad (valid, refl)
    ]

-- So too on an error and on the end of the stream
pub any_line_returns :
    (client_fd : ℕ) (s : Server) (calloc : Option Ptr) (line : Line)
    → IsValid s.world
    → ((p : Ptr) → calloc ≡ some p → s.conn_at p ≡ none)
    → Returns (handshake_round client_fd calloc line s) (λ _ w. IsValid w)
unfolding handshake_round
any_line_returns client_fd s calloc ended valid unused = valid
any_line_returns client_fd s calloc (failed errno text) valid unused = valid
any_line_returns client_fd s calloc (bytes buf) valid unused =
    Returns_mono _ (λ _ w. IsValid w) (handshake_round client_fd calloc (bytes buf) s)
      (λ _ w (ok, _). ok) (handshake_round_returns client_fd s calloc buf valid unused)
