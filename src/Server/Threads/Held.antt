-- ===== src/Server/Threads/Held.antt =====
-- What every state that the threads reach satisfies, cut as finely as `/join` is.
use mathlib.Core.Path.{subst}
use chat_app_in_c.Common.{
  ◌<◌, ◌≡◌, sym, ◌⊎◌, inl, inr, Option, none, some, ◌==◌, Bool-cases, length, arith,
}
use chat_app_in_c.Server.{Ptr, Connection, World, Server, room_name_len, update}
use chat_app_in_c.Server.Invariant.{IsValid, Returns}
use chat_app_in_c.Server.Frames.{Others, others, Framed}
use chat_app_in_c.Server.Threads.{
  Place, between, closing, outside, searched, found, tested, entered, Places,
}

-- The connection is there, and in no room.
abbrev pub OutOfRoom : Option Connection → Type 0
OutOfRoom o = (v : Connection) × (o ≡ some v) × (v.room ≡ none)

-- What a thread at that place may rely on of its own connection
abbrev pub Held : Place → Option Connection → Type 0
Held between o = Unit
Held closing o = OutOfRoom o
Held (outside name) o = OutOfRoom o × (length name < room_name_len)
Held (searched name room) o = OutOfRoom o × (length name < room_name_len)
Held (found name room) o = OutOfRoom o
Held (tested name room) o = OutOfRoom o
Held (entered name room) o =
    (v : Connection) × (o ≡ some v) × ((v.room ≡ none) ⊎ (v.room ≡ some room))

-- The tables are valid, and each thread may rely on its connection.
pub record AllHeld (s : Server) (f : Places) : Type 0 where
  pub valid : IsValid s.world
  pub held : (c : Ptr) → Held (f c) (s.conn_at c)

-- A turn that leaves the other connections alone
module _ (s s' : Server) (f : Places) (c : Ptr) (all : AllHeld s f) (valid : IsValid s'.world)
    (others : Others c s.world s'.world) where
  pub moved : (place : Place) → Held place (s'.conn_at c) → AllHeld s' (update f c place)
  moved place mine = record {
    valid = valid;
    held = λ d. elim (Bool-cases (c == d)) [
      | inl here ↦ rw here (subst (λ x. Held place (s'.conn_at x)) (ground arith) mine)
      | inr there ↦ rw there (subst (Held (f d)) (sym (others d (ground arith))) (all.held d))
    ];
  }

  pub stood : f c ≡ between → AllHeld s' f
  stood e = record {
    valid = valid;
    held = λ d. elim (Bool-cases (c == d)) [
      | inl here ↦
          let at : c ≡ d = ground arith in subst (λ x. Held (f x) (s'.conn_at x)) at (rw e tt)
      | inr there ↦ subst (Held (f d)) (sym (others d (ground arith))) (all.held d)
    ];
  }

-- What a call that returns is known to do, of the state that it leaves
pub result_of :
    {A : Type 0} (Q : A → World → Type 0) (o : Option (A × Server)) (a : A) (s : Server)
    → o ≡ some (a, s)
    → Returns o Q
    → Q a s.world
result_of Q o a s e h = subst (λ x. Returns x Q) e h

pub left_alone :
    {A : Type 0} (c : Ptr) (w : World) (o : Option (A × Server)) (a : A) (s : Server)
    → o ≡ some (a, s)
    → Framed c (others c w) o
    → Others c w s.world
left_alone c w o a s e h = subst (λ x. Framed c (others c w) x) e h

-- What a call of the thread of `c` leaves, if it returns, the thread being at the place that it gives
abbrev pub Moves : Ptr → World → Option (Place × Server) → Type 0
Moves c w none = Unit
Moves c w (some (place, s)) = IsValid s.world × Held place (s.conn_at c) × Others c w s.world
