-- ===== src/Server/Spawn/Ending.antt =====
-- `main` and the new thread come to the end of their meeting under every schedule, if `main` has
-- initialised the mutex and the condition before the thread locks.
use chat_app_in_c.Common.{
  ℕ, ◌+◌, ◌<◌, ◌≤◌, ◌≡◌, refl, ◌⊎◌, inl, inr, Bool, true, false, Option, none, some, List, [], ◌∷◌,
  length, Option-cases, arith,
}
use chat_app_in_c.Server.{Connection}
use chat_app_in_c.Server.Spawn.{
  Mutex, free, held, MainAt, created, mutex_made, cond_made, testing, waiting, leaving, asleep,
  woken, passed, announced, crashed, ThreadAt, starting, stored, locked, flagged, signalled,
  running, ended, Spawn, main_step, thread_step, Reached,
}
use chat_app_in_c.Server.Spawn.Meeting.{is_flagged, HasId, Agrees, Reached-Agrees}

-- The mutex, as the places of the two tell it
abbrev mutex_of : MainAt → ThreadAt → Mutex
mutex_of testing t = held
mutex_of waiting t = held
mutex_of leaving t = held
mutex_of m locked = held
mutex_of m flagged = held
mutex_of m signalled = held
mutex_of m t = free

-- The places that cannot be taken at the same time: those before the initialisations and behind the end of
-- the thread, two in their critical sections, one past a flag that is not set, one asleep behind the
-- signal that it needs
abbrev Together : MainAt → ThreadAt → Type 0
Together created t = ⊥
Together mutex_made t = ⊥
Together crashed t = ⊥
Together m ended = ⊥
Together testing locked = ⊥
Together testing flagged = ⊥
Together testing signalled = ⊥
Together waiting locked = ⊥
Together waiting flagged = ⊥
Together waiting signalled = ⊥
Together waiting running = ⊥
Together leaving starting = ⊥
Together leaving stored = ⊥
Together leaving locked = ⊥
Together leaving flagged = ⊥
Together leaving signalled = ⊥
Together asleep signalled = ⊥
Together asleep running = ⊥
Together passed starting = ⊥
Together passed stored = ⊥
Together passed locked = ⊥
Together announced starting = ⊥
Together announced stored = ⊥
Together announced locked = ⊥
Together m t = Unit

-- What every state satisfies behind the initialisations
abbrev Fits : ℕ → MainAt → ThreadAt → Mutex → Option Connection → Type 0
Fits tid m t mutex none = ⊥
Fits tid m t mutex (some c) =
    (mutex ≡ mutex_of m t) × (c.initialized ≡ is_flagged t) × Together m t × HasId tid t c

-- How far the two are from the end
abbrev rank_main : MainAt → Bool → ℕ
rank_main cond_made b = 9
rank_main testing false = 8
rank_main waiting b = 7
rank_main asleep b = 6
rank_main woken true = 5
rank_main woken false = 9
rank_main testing true = 4
rank_main leaving b = 3
rank_main passed b = 2
rank_main m b = 0

abbrev rank_thread : ThreadAt → ℕ
rank_thread starting = 5
rank_thread stored = 4
rank_thread locked = 3
rank_thread flagged = 2
rank_thread signalled = 1
rank_thread t = 0

abbrev rank : MainAt → ThreadAt → Option Connection → ℕ
rank m t none = 0
rank m t (some c) = rank_main m c.initialized + rank_thread t

abbrev rank_of : Spawn → ℕ
rank_of s = rank s.main s.thread s.connection

abbrev FitsOf : ℕ → Spawn → Type 0
FitsOf tid s = Fits tid s.main s.thread s.mutex s.connection

abbrev at_places : MainAt → ThreadAt → Mutex → Connection → Spawn
at_places m t mutex c = record { main = m; thread = t; mutex = mutex; connection = some c }

after_main :
    (tid : ℕ) (m : MainAt) (t : ThreadAt) (mutex : Mutex) (c : Connection) (s' : Spawn)
    → Fits tid m t mutex (some c)
    → main_step (at_places m t mutex c) (some c) ≡ some s'
    → FitsOf tid s' × (rank_of s' < rank m t (some c))
unfolding main_step
after_main tid m starting mutex c s' h e = ground arith
after_main tid m stored mutex c s' h e = ground arith
after_main tid m locked mutex c s' h e = ground arith
after_main tid m flagged mutex c s' h e = ground arith
after_main tid m signalled mutex c s' h e = ground arith
after_main tid m running mutex c s' h e = ground arith
after_main tid m ended mutex c s' h e = ground arith

after_thread :
    (tid : ℕ) (m : MainAt) (t : ThreadAt) (mutex : Mutex) (c : Connection) (s' : Spawn)
    → Fits tid m t mutex (some c)
    → thread_step tid (at_places m t mutex c) (some c) ≡ some s'
    → FitsOf tid s' × (rank_of s' < rank m t (some c))
unfolding thread_step
after_thread tid created t mutex c s' h e = ground arith
after_thread tid mutex_made t mutex c s' h e = ground arith
after_thread tid cond_made t mutex c s' h e = ground arith
after_thread tid testing t mutex c s' h e = ground arith
after_thread tid waiting t mutex c s' h e = ground arith
after_thread tid leaving t mutex c s' h e = ground arith
after_thread tid asleep t mutex c s' h e = ground arith
after_thread tid woken t mutex c s' h e = ground arith
after_thread tid passed t mutex c s' h e = ground arith
after_thread tid announced t mutex c s' h e = ground arith
after_thread tid crashed t mutex c s' h e = ground arith

-- If neither can take a step, both are at the end.
both_done :
    (tid : ℕ) (m : MainAt) (t : ThreadAt) (mutex : Mutex) (c : Connection)
    → Fits tid m t mutex (some c)
    → main_step (at_places m t mutex c) (some c) ≡ none
    → thread_step tid (at_places m t mutex c) (some c) ≡ none
    → (m ≡ announced) × (t ≡ running)
unfolding main_step thread_step
both_done tid created t mutex c h e f = ground arith
both_done tid mutex_made t mutex c h e f = ground arith
both_done tid cond_made t mutex c h e f = ground arith
both_done tid testing t mutex c h e f = ground arith
both_done tid waiting t mutex c h e f = ground arith
both_done tid leaving t mutex c h e f = ground arith
both_done tid asleep t mutex c h e f = ground arith
both_done tid woken t mutex c h e f = ground arith
both_done tid passed t mutex c h e f = ground arith
both_done tid announced t mutex c h e f = ground arith
both_done tid crashed t mutex c h e f = ground arith

-- The first of two steps that can be taken; without one nothing changes.
abbrev first_of : Option Spawn → Option Spawn → Spawn → Spawn
first_of (some s') o s = s'
first_of none (some s') s = s'
first_of none none s = s

-- A schedule's choice: `main` first, or the thread first; the other takes the step if that one cannot.
abbrev pub take_step : ℕ → Bool → Spawn → Spawn
take_step tid true s = first_of (main_step s s.connection) (thread_step tid s s.connection) s
take_step tid false s = first_of (thread_step tid s s.connection) (main_step s s.connection) s

unfoldable pub run_schedule : ℕ → List Bool → Spawn → Spawn
run_schedule tid [] s = s
run_schedule tid (b ∷ bs) s = run_schedule tid bs (take_step tid b s)

-- Both are at the end, and the connection has the thread's id.
abbrev pub HasMet : ℕ → Spawn → Type 0
HasMet tid s =
    (s.main ≡ announced)
    × (s.thread ≡ running)
    × (c : Connection) × (s.connection ≡ some c)
    × (c.tid ≡ tid)

-- A step goes on, or there is none left.
abbrev Goes : ℕ → Spawn → Spawn → Type 0
Goes tid s s' =
    FitsOf tid s'
    × (((s.main ≡ announced) × (s.thread ≡ running) × (s' ≡ s)) ⊎ (rank_of s' < rank_of s))

module _ (tid : ℕ) (m : MainAt) (t : ThreadAt) (mutex : Mutex) (c : Connection)
    (h : Fits tid m t mutex (some c)) where
  abbrev here : Spawn
  here = at_places m t mutex c

  on_main : (s' : Spawn) → main_step here (some c) ≡ some s' → Goes tid here s'
  on_main s' e = let (fits, falls) = after_main tid m t mutex c s' h e in (fits, inr falls)

  on_thread : (s' : Spawn) → thread_step tid here (some c) ≡ some s' → Goes tid here s'
  on_thread s' e = let (fits, falls) = after_thread tid m t mutex c s' h e in (fits, inr falls)

  at_rest :
      main_step here (some c) ≡ none → thread_step tid here (some c) ≡ none → Goes tid here here
  at_rest e f = let (at_end, on) = both_done tid m t mutex c h e f in (h, inl (at_end, on, refl))

  one_step : (b : Bool) → Goes tid here (take_step tid b here)
  one_step true = elim (Option-cases (main_step here (some c))) [
    | inr (s', e) ↦ rw e (on_main s' e)
    | inl e ↦ elim (Option-cases (thread_step tid here (some c))) [
      | inr (s', f) ↦ rw (e, f) (on_thread s' f)
      | inl f ↦ rw (e, f) (at_rest e f)
    ]
  ]
  one_step false = elim (Option-cases (thread_step tid here (some c))) [
    | inr (s', e) ↦ rw e (on_thread s' e)
    | inl e ↦ elim (Option-cases (main_step here (some c))) [
      | inr (s', f) ↦ rw (e, f) (on_main s' f)
      | inl f ↦ rw (e, f) (at_rest f e)
    ]
  ]

no_rank :
    (tid : ℕ) (m : MainAt) (t : ThreadAt) (mutex : Mutex) (c : Connection)
    → Fits tid m t mutex (some c)
    → rank m t (some c) ≡ 0
    → (m ≡ announced) × (t ≡ running) × (c.tid ≡ tid)
no_rank tid m starting mutex c h e = absurd (omega arith)
no_rank tid m stored mutex c h e = absurd (omega arith)
no_rank tid m locked mutex c h e = absurd (omega arith)
no_rank tid m flagged mutex c h e = absurd (omega arith)
no_rank tid m signalled mutex c h e = absurd (omega arith)
no_rank tid m running mutex c h e = ground arith
no_rank tid m ended mutex c h e = ground arith

run_schedule-HasMet :
    (tid : ℕ) (bs : List Bool) (m : MainAt) (t : ThreadAt) (mutex : Mutex) (o : Option Connection)
    → Fits tid m t mutex o
    → rank m t o ≤ length bs
    → HasMet tid
        (run_schedule tid bs (record { main = m; thread = t; mutex = mutex; connection = o }))
unfolding run_schedule
run_schedule-HasMet tid bs m t mutex none h le = absurd h
run_schedule-HasMet tid [] m t mutex (some c) h le =
    let (at_end, on, same) = no_rank tid m t mutex c h (omega arith) in (at_end, on, c, refl, same)
run_schedule-HasMet tid (b ∷ bs) m t mutex (some c) h le =
    let (h', goes) = one_step tid m t mutex c h b in
    let s' = take_step tid b (at_places m t mutex c) in
    run_schedule-HasMet tid bs s'.main s'.thread s'.mutex s'.connection h' (falls s' goes)
  where
    falls :
        (s' : Spawn)
        → ((m ≡ announced) × (t ≡ running) × (s' ≡ at_places m t mutex c))
          ⊎ (rank_of s' < rank m t (some c))
        → rank_of s' ≤ length bs
    falls s' (inl (at_end, on, e)) = rw (e, at_end, on) (omega arith)
    falls s' (inr lt) = omega arith

-- The thread has not come to its lock.
abbrev pub IsEarly : ThreadAt → Type 0
IsEarly t = (t ≡ starting) ⊎ (t ≡ stored)

-- `main` and the new thread meet if `main` has initialised the mutex and the condition before the thread
-- comes to its lock: from such a state on, under every schedule of 14 steps or more, `main` has passed its
-- wait and written its line to the log, the thread is running, and the connection holds the thread's id. A
-- schedule prefers one of the two in each step and gives the step to the other if that one is blocked. The
-- thread does not end within these steps, and the connection was not marked as initialised at the start.
pub schedule_meets :
    {tid : ℕ} {c : Connection} {s : Spawn} (bs : List Bool)
    → c.initialized ≡ false
    → Reached tid c s
    → s.main ≡ cond_made
    → IsEarly s.thread
    → 14 ≤ length bs
    → HasMet tid (run_schedule tid bs s)
schedule_meets {tid} {c} {s} bs off reached made early enough =
    let (fits, small) =
      begins s.main s.thread s.mutex s.connection (Reached-Agrees off reached) made early in
    run_schedule-HasMet tid bs s.main s.thread s.mutex s.connection fits (omega arith)
  where
    begins :
        (m : MainAt) (t : ThreadAt) (mutex : Mutex) (o : Option Connection)
        → Agrees tid m t mutex o
        → m ≡ cond_made
        → IsEarly t
        → Fits tid m t mutex o × (rank m t o ≤ 14)
    begins m t mutex none h e early = absurd (ground (arith, h, early))
    begins cond_made starting mutex (some d) h e early = ground arith
    begins cond_made stored mutex (some d) h e early = ground arith
    begins m locked mutex (some d) h e early = absurd (ground (arith, early))
    begins m flagged mutex (some d) h e early = absurd (ground (arith, early))
    begins m signalled mutex (some d) h e early = absurd (ground (arith, early))
    begins m running mutex (some d) h e early = absurd (ground (arith, early))
    begins m ended mutex (some d) h e early = absurd (ground (arith, early))
    begins m t mutex (some d) h e early = absurd (ground (arith, e))
