-- ===== src/Server/Spawn/Meeting.antt =====
-- What `main` and the new thread keep in every order of their steps.
use chat_app_in_c.Common.{ℕ, ◌≡◌, Bool, true, false, Option, none, some, arith}
use chat_app_in_c.Server.{Connection}
use chat_app_in_c.Server.Spawn.{
  Mutex, free, MainAt, created, mutex_made, cond_made, testing, waiting, leaving, asleep, woken,
  passed, announced, crashed, ThreadAt, starting, stored, locked, flagged, signalled, running,
  ended, Spawn, main_step, thread_step, thread_ends, spurious, Reached, start, by_main, by_thread,
  by_end, by_chance,
}

-- `initialized`, as the place of the thread tells it
abbrev pub is_flagged : ThreadAt → Bool
is_flagged flagged = true
is_flagged signalled = true
is_flagged running = true
is_flagged t = false

abbrev pub HasId : ℕ → ThreadAt → Connection → Type 0
HasId tid starting c = Unit
HasId tid t c = c.tid ≡ tid

-- `main` has found the flag set.
abbrev pub HasSeen : MainAt → Bool → Type 0
HasSeen leaving b = b ≡ true
HasSeen passed b = b ≡ true
HasSeen announced b = b ≡ true
HasSeen m b = Unit

-- Nobody has locked the mutex since its initialisation.
abbrev pub Unlocked : MainAt → ThreadAt → Mutex → Type 0
Unlocked mutex_made starting mutex = mutex ≡ free
Unlocked mutex_made stored mutex = mutex ≡ free
Unlocked cond_made starting mutex = mutex ≡ free
Unlocked cond_made stored mutex = mutex ≡ free
Unlocked m t mutex = Unit

-- What every state satisfies that the two reach, while the connection is there
abbrev pub Agrees : ℕ → MainAt → ThreadAt → Mutex → Option Connection → Type 0
Agrees tid m t mutex none = t ≡ ended
Agrees tid m t mutex (some c) =
    (c.initialized ≡ is_flagged t) × HasId tid t c × HasSeen m c.initialized × Unlocked m t mutex

abbrev AgreesOf : ℕ → Spawn → Type 0
AgreesOf tid s = Agrees tid s.main s.thread s.mutex s.connection

after_main :
    (tid : ℕ) (m : MainAt) (t : ThreadAt) (mutex : Mutex) (o : Option Connection) (s' : Spawn)
    → Agrees tid m t mutex o
    → main_step (record { main = m; thread = t; mutex = mutex; connection = o }) o ≡ some s'
    → AgreesOf tid s'
unfolding main_step
after_main tid m t mutex none s' h e = ground arith
after_main tid m starting mutex (some c) s' h e = ground arith
after_main tid m stored mutex (some c) s' h e = ground arith
after_main tid m locked mutex (some c) s' h e = ground arith
after_main tid m flagged mutex (some c) s' h e = ground arith
after_main tid m signalled mutex (some c) s' h e = ground arith
after_main tid m running mutex (some c) s' h e = ground arith
after_main tid m ended mutex (some c) s' h e = ground arith

after_thread :
    (tid : ℕ) (m : MainAt) (t : ThreadAt) (mutex : Mutex) (o : Option Connection) (s' : Spawn)
    → Agrees tid m t mutex o
    → thread_step tid (record { main = m; thread = t; mutex = mutex; connection = o }) o ≡ some s'
    → AgreesOf tid s'
unfolding thread_step
after_thread tid m t mutex none s' h e = ground arith
after_thread tid created t mutex (some c) s' h e = ground arith
after_thread tid mutex_made t mutex (some c) s' h e = ground arith
after_thread tid cond_made t mutex (some c) s' h e = ground arith
after_thread tid testing t mutex (some c) s' h e = ground arith
after_thread tid waiting t mutex (some c) s' h e = ground arith
after_thread tid leaving t mutex (some c) s' h e = ground arith
after_thread tid asleep t mutex (some c) s' h e = ground arith
after_thread tid woken t mutex (some c) s' h e = ground arith
after_thread tid passed t mutex (some c) s' h e = ground arith
after_thread tid announced t mutex (some c) s' h e = ground arith
after_thread tid crashed t mutex (some c) s' h e = ground arith

after_end : (tid : ℕ) (s s' : Spawn) (t : ThreadAt) → thread_ends s t ≡ some s' → AgreesOf tid s'
unfolding thread_ends
after_end tid s s' starting e = ground arith
after_end tid s s' stored e = ground arith
after_end tid s s' locked e = ground arith
after_end tid s s' flagged e = ground arith
after_end tid s s' signalled e = ground arith
after_end tid s s' running e = ground arith
after_end tid s s' ended e = ground arith

after_spurious :
    (tid : ℕ) (m : MainAt) (t : ThreadAt) (mutex : Mutex) (o : Option Connection) (s' : Spawn)
    → Agrees tid m t mutex o
    → spurious (record { main = m; thread = t; mutex = mutex; connection = o }) m ≡ some s'
    → AgreesOf tid s'
unfolding spurious
after_spurious tid m t mutex none s' h e = ground arith
after_spurious tid m starting mutex (some c) s' h e = ground arith
after_spurious tid m stored mutex (some c) s' h e = ground arith
after_spurious tid m locked mutex (some c) s' h e = ground arith
after_spurious tid m flagged mutex (some c) s' h e = ground arith
after_spurious tid m signalled mutex (some c) s' h e = ground arith
after_spurious tid m running mutex (some c) s' h e = ground arith
after_spurious tid m ended mutex (some c) s' h e = ground arith

pub Reached-Agrees :
    {tid : ℕ} {c : Connection} {s : Spawn}
    → c.initialized ≡ false
    → Reached tid c s
    → Agrees tid s.main s.thread s.mutex s.connection
Reached-Agrees off start = (off, tt, tt, tt)
Reached-Agrees {tid} off (by_main {s} {s'} before e) =
    after_main tid s.main s.thread s.mutex s.connection s' (Reached-Agrees off before) e
Reached-Agrees {tid} off (by_thread {s} {s'} before e) =
    after_thread tid s.main s.thread s.mutex s.connection s' (Reached-Agrees off before) e
Reached-Agrees {tid} off (by_end {s} {s'} before e) = after_end tid s s' s.thread e
Reached-Agrees {tid} off (by_chance {s} {s'} before e) =
    after_spurious tid s.main s.thread s.mutex s.connection s' (Reached-Agrees off before) e

-- Once `main` has passed its wait, the connection, if it is still there, holds the id of its thread and is
-- marked as initialised, in whatever order the two have taken their steps: also if the thread has locked
-- the mutex or signalled before `main` has initialised them, and if the wait has returned without a
-- signal. The connection was not marked at the start. A mutex of zero bytes counts as a free one.
pub passed_with_id :
    {tid : ℕ} {c : Connection} {s : Spawn} (c' : Connection)
    → c.initialized ≡ false
    → Reached tid c s
    → s.main ≡ passed
    → s.connection ≡ some c'
    → (c'.tid ≡ tid) × (c'.initialized ≡ true)
passed_with_id {tid} {c} {s} c' off reached at_end there =
    go s.main s.thread s.connection (Reached-Agrees off reached) at_end there
  where
    go :
        (m : MainAt) (t : ThreadAt) (o : Option Connection)
        → Agrees tid m t s.mutex o
        → m ≡ passed
        → o ≡ some c'
        → (c'.tid ≡ tid) × (c'.initialized ≡ true)
    go m t none h e f = ground arith
    go m starting (some d) h e f = ground arith
    go m stored (some d) h e f = ground arith
    go m locked (some d) h e f = ground arith
    go m flagged (some d) h e f = ground arith
    go m signalled (some d) h e f = ground arith
    go m running (some d) h e f = ground arith
    go m ended (some d) h e f = ground arith
