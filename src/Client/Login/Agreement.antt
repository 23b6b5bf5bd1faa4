-- ===== src/Client/Login/Agreement.antt =====
-- The rounds of the client and of the server in which a user gets a name: `main` of
-- client/src/chatclient.c and the handshake in `main` of server/src/chatserver.c.
use chat_app_in_c.Common.{
  ℕ, ◌≡◌, refl, ap, sym, ◌∙◌, Bool, true, false, Option, none, some, List, [], ◌∷◌, ◌==◌, ==_refl,
  if◌then◌else◌, Bool-cases, Option-cases, inl, inr, take-all,
}
use mathlib.Core.Path.{subst}
use chat_app_in_c.CString.{Bytes, codes, c_string, starts_with, copy_into}
use chat_app_in_c.CString.Token.{Lacks, Lacks-c_string}
use chat_app_in_c.CString.Words.{c_string_self}
use chat_app_in_c.Server.{Ptr, Connection, Server, Event, username_len}
use chat_app_in_c.Server.Names.{is_valid_username, is_valid_username_iff}
use chat_app_in_c.Server.Connections.{find_connection, find_free_slot}
use chat_app_in_c.Server.Accept as Accept
use chat_app_in_c.Server.Accept.{
  drop_newline, insert_user, take_slot, refuse_taken, unless_taken, refuse_invalid, register_name,
  handshake_round,
}
use chat_app_in_c.Client.Login.{Outcome, again, accepted, strip_newline, login_round}

-- What the server sent last to a socket
abbrev pub reply_to : ℕ → List Event → Bytes
reply_to fd [] = []
reply_to fd (Event.sent fd' text ∷ events) = if fd' == fd then text else reply_to fd events
reply_to fd (_ ∷ events) = reply_to fd events

-- The reply starts with `[OK]`.
abbrev pub says_ok : ℕ → Server → Bool
says_ok fd s = starts_with (c_string (reply_to fd s.trace)) (codes "[OK]")

-- The name of the new connection, if there is one
abbrev pub Connected : Bytes → Ptr → Server → Type 0
Connected name p s = (v : Connection) × (s.conn_at p ≡ some v) × (v.username ≡ name)

-- The reply says `[OK]` exactly if the server has accepted the name.
abbrev Answers : ℕ → Bytes → Option (Accept.Outcome × Server) → Type 0
Answers fd name none = Unit
Answers fd name (some (Accept.again, s)) = says_ok fd s ≡ false
Answers fd name (some (Accept.given_up, s)) = ⊥
Answers fd name (some (Accept.accepted idx p, s)) = (says_ok fd s ≡ true) × Connected name p s

module _ (fd : ℕ) (name : Bytes) where
  insert_user-Answers :
      (idx : ℕ) (calloc : Option Ptr) (s : Server)
      → copy_into username_len name ≡ name
      → Answers fd name (insert_user fd name idx calloc s)
  unfolding insert_user starts_with c_string
  insert_user-Answers idx none s fits = rw (==_refl fd) refl
  insert_user-Answers idx (some p) s fits =
      rw (==_refl fd, ==_refl p) (refl, (Accept.new_connection fd name, refl, fits))

  take_slot-Answers :
      (slot : Option ℕ) (calloc : Option Ptr) (s : Server)
      → copy_into username_len name ≡ name
      → Answers fd name (take_slot fd name calloc slot s)
  unfolding take_slot starts_with c_string
  take_slot-Answers none calloc s fits = rw (==_refl fd) refl
  take_slot-Answers (some idx) calloc s fits = insert_user-Answers idx calloc s fits

  unless_taken-Answers :
      (taken : Option Ptr) (calloc : Option Ptr) (s : Server)
      → copy_into username_len name ≡ name
      → Answers fd name (unless_taken fd name calloc taken s)
  unfolding unless_taken find_free_slot refuse_taken starts_with c_string
  unless_taken-Answers (some p) calloc s fits = rw (==_refl fd) refl
  unless_taken-Answers none calloc s fits = take_slot-Answers _ calloc s fits

  register_name-Answers :
      (calloc : Option Ptr) (s : Server)
      → copy_into username_len name ≡ name
      → Answers fd name (register_name fd name calloc s)
  unfolding register_name
  register_name-Answers calloc s fits = elim (Option-cases (find_connection name s)) [
    | inl e ↦ simp e tt
    | inr ((taken, s'), e) ↦ simp e (unless_taken-Answers taken calloc s' fits)
  ]

  refuse_invalid-Answers : (s : Server) → Answers fd name (refuse_invalid fd s)
  unfolding refuse_invalid starts_with c_string
  refuse_invalid-Answers s = rw (==_refl fd) refl

strip-drop : (s : Bytes) → strip_newline s ≡ drop_newline s
unfolding strip_newline drop_newline
strip-drop [] = refl
strip-drop (c ∷ []) = refl
strip-drop (c ∷ d ∷ s) = ap (◌∷◌ c) (strip-drop (d ∷ s))

strip-Lacks : (s : Bytes) → Lacks (λ c. c == 0) s → Lacks (λ c. c == 0) (strip_newline s)
unfolding strip_newline
strip-Lacks [] h = tt
strip-Lacks (c ∷ []) h = elim (Bool-cases (c == 10)) [ inl e ↦ rw e tt | inr e ↦ rw e h ]
strip-Lacks (c ∷ d ∷ s) h = (h.0, strip-Lacks (d ∷ s) h.1)

-- The name that the client keeps is the one that the server reads from what the client has sent.
same_name : (line : Bytes) → c_string (drop_newline (c_string line)) ≡ strip_newline (c_string line)
same_name line =
    ap c_string (sym (strip-drop (c_string line)))
    ∙ c_string_self _ (strip-Lacks (c_string line) (Lacks-c_string line))

handshake-Answers :
    (fd : ℕ) (calloc : Option Ptr) (line : Bytes) (s : Server)
    → Answers fd
        (strip_newline (c_string line))
        (handshake_round fd calloc (Accept.bytes (c_string line)) s)
unfolding handshake_round
handshake-Answers fd calloc line s =
    let name = strip_newline (c_string line) in
    elim (Bool-cases (is_valid_username name)) [
      | inl valid ↦
          let fits : copy_into username_len name ≡ name =
            take-all 15 name ((is_valid_username_iff name).0 valid).1 in
          simp (same_name line, valid) (register_name-Answers fd name calloc s fits)
      | inr invalid ↦ simp (same_name line, invalid) (refuse_invalid-Answers fd name s)
    ]

-- The client's name is the one of its connection, or both sides go into another round.
abbrev pub Agree : Accept.Outcome → Outcome → Server → Type 0
Agree (Accept.accepted idx p) (accepted name) s = Connected name p s
Agree Accept.again again s = Unit
Agree _ _ s = ⊥

-- After a round of the handshake the client and the server agree: whatever the user typed, if the server
-- has read what the client sent and the client reads what the server sent last, then both go on with
-- the same name, which is that of the new connection, or both go into another round.
pub login_agrees :
    (fd : ℕ) (calloc : Option Ptr) (line : Bytes) (s s' : Server) (outcome : Accept.Outcome)
    → handshake_round fd calloc (Accept.bytes (c_string line)) s ≡ some (outcome, s')
    → Agree outcome (login_round (some line) (some (reply_to fd s'.trace))).1 s'
unfolding login_round
login_agrees fd calloc line s s' outcome e =
    go outcome
      (subst (Answers fd (strip_newline (c_string line))) e (handshake-Answers fd calloc line s))
  where
    go :
        (o : Accept.Outcome)
        → Answers fd (strip_newline (c_string line)) (some (o, s'))
        → Agree o (login_round (some line) (some (reply_to fd s'.trace))).1 s'
    go Accept.again h = simp h tt
    go Accept.given_up h = absurd h
    go (Accept.accepted idx p) (ok, connected) = simp ok connected
