-- ===== src/Server/Shutdown/Interrupted.antt =====
-- What may come between the calls of one goodbye of `main` in server/src/chatserver.c.
use chat_app_in_c.Common.{
  ℕ, zero, suc, ◌≤◌, ◌≡◌, refl, ap, ◌⊎◌, inl, inr, Option, none, some, List, [], ◌∷◌, get_or, set,
  length, take-all, arith,
}
use chat_app_in_c.Server.{Ptr, Connection, World, Server, Event}
use chat_app_in_c.Server.Invariant.{name_of, IsValid, Returns}
use chat_app_in_c.Server.Connections.{remove_connection}
use chat_app_in_c.Server.Connections.Lookup.{find_own_slot}
use chat_app_in_c.Server.Handler.{Thread, leave_current}
use chat_app_in_c.Server.Handler.Loop.{close_down, clean_up}
use chat_app_in_c.Server.Threads.Stale.{returned}
use chat_app_in_c.Server.Shutdown.{goodbye, connection_at, begin_goodbye, end_goodbye}

-- The connection is freed, and some slot is emptied.
abbrev Emptied : Server → Ptr → World → Type 0
Emptied s p w = (w.conn_at p ≡ none) × (j : ℕ) × (w.connections ≡ set s.connections j none)

remove_connection_empties :
    (s : Server) (p : Ptr) (v : Connection)
    → IsValid s.world
    → s.conn_at p ≡ some v
    → Returns (remove_connection v.username s) (λ _ w. Emptied s p w)
unfolding remove_connection
remove_connection_empties s p v valid known =
    let (j, e, _) = find_own_slot s p v valid known in rw (e, known) (ground arith, j, refl)

clean_up_empties :
    (t : Thread) (s : Server) (v : Connection)
    → IsValid s.world
    → s.conn_at t.connection ≡ some v
    → v.room ≡ none
    → Returns (clean_up t s) (λ _ w. Emptied s t.connection w)
unfolding clean_up leave_current close_down
clean_up_empties t s v valid known out =
    rw (known, out, known, take-all 15 v.username fits)
      (remove_connection_empties _ t.connection v valid known)
  where
    fits : length v.username ≤ 15
    fits = ground (arith, valid.users_fit t.connection v.username (ap name_of known))

slot_after :
    (slots : List (Option Ptr)) (j i : ℕ)
    → (get_or (set slots j none) i none ≡ none)
      ⊎ (get_or (set slots j none) i none ≡ get_or slots i none)
slot_after [] j i = inr refl
slot_after (x ∷ slots) zero zero = inl refl
slot_after (x ∷ slots) zero (suc i) = inr refl
slot_after (x ∷ slots) (suc j) zero = inr refl
slot_after (x ∷ slots) (suc j) (suc i) = slot_after slots j i

end_goodbye-undefined :
    (s s' : Server) (p : Ptr) (i : ℕ)
    → get_or s.connections i none ≡ some p
    → Emptied s p s'.world
    → end_goodbye i s' ≡ none
unfolding end_goodbye connection_at
end_goodbye-undefined s s' p i at (gone, j, e) = elim (slot_after s.connections j i) [
  | inl empty ↦ rw (e, empty) refl
  | inr same ↦ rw (e, same, at, gone) refl
]

-- `main` may say goodbye to a connection that is no longer there. Its call of `shutdown` wakes the client's
-- thread, and if that thread, of a client in no room, then comes to the end of its clean-up, which
-- returns, the next call of `main` reads through an emptied slot, or freed memory.
pub goodbye_interrupted :
    (s : Server) (i : ℕ) (t : Thread) (v : Connection)
    → IsValid s.world
    → get_or s.connections i none ≡ some t.connection
    → s.conn_at t.connection ≡ some v
    → v.room ≡ none
    → (s1 s2 : Server) × (begin_goodbye i s ≡ some (tt, s1))
      × (clean_up t s1 ≡ some (tt, s2))
      × (end_goodbye i s2 ≡ none)
unfolding begin_goodbye connection_at
goodbye_interrupted s i t v valid at known out =
    let s1 : Server = record s {
      trace = Event.shut v.sockfd ∷ Event.sent v.sockfd goodbye ∷ s.trace;
    } in
    let (_, s2, e, emptied) =
      returned _ (clean_up t s1) (clean_up_empties t s1 v valid known out) in
    rw (at, known, at, known)
      (s1, s2, refl, e, end_goodbye-undefined s s2 t.connection i at emptied)
