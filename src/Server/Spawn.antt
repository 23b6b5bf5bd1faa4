-- ===== src/Server/Spawn.antt =====
-- The two threads that meet when `main` of server/src/chatserver.c starts the thread of a client: `main`
-- waits on `init_cond` until `client_handler` has said that it has its id.
--
-- `main` initialises the mutex and the condition after `pthread_create`, so that the thread may come
-- first. POSIX leaves that undefined; here, as in the C libraries in which a mutex of zero bytes, which
-- `calloc` has given, is a free one, the thread's call does not block, and the initialisation that follows
-- makes the mutex free again.
pub mod Meeting
pub mod Ending
pub mod Missed
use chat_app_in_c.Common.{ℕ, ◌≡◌, Bool, true, false, Option, none, some, if◌then◌else◌}
use chat_app_in_c.Server.{Connection}

-- `init_mutex`
pub data Mutex : Type 0 where
  free held : Mutex

-- Where `main` stands, from the return of `pthread_create` on: before and behind each
-- of `pthread_mutex_init` and `pthread_cond_init`, with the mutex at the test of the loop, at
-- `pthread_cond_wait` and behind the loop, asleep in `pthread_cond_wait`, woken and without the mutex,
-- behind `pthread_mutex_unlock`, or behind the line in the log; or it has read through the pointer to a
-- connection that is no longer there
pub data MainAt : Type 0 where
  created mutex_made cond_made testing waiting leaving asleep woken passed announced crashed :
      MainAt

-- Where the thread stands: at its start, behind the store of its id, with the mutex, behind the store of
-- `initialized`, behind the signal, behind `pthread_mutex_unlock`, or at its end
pub data ThreadAt : Type 0 where
  starting stored locked flagged signalled running ended : ThreadAt

-- `connection` is what the slot of `connections` points to, `none` once the thread has removed it.
pub record Spawn : Type 0 where
  pub main : MainAt
  pub thread : ThreadAt
  pub mutex : Mutex
  pub connection : Option Connection

-- `pthread_mutex_lock` by `main`, which then stands at the test; it blocks while the mutex is held.
unfoldable pub main_locks : Spawn → Mutex → Option Spawn
main_locks s free = some (record s { main = testing; mutex = held })
main_locks s held = none

-- `pthread_mutex_lock` by the thread
unfoldable pub thread_locks : Spawn → Mutex → Option Spawn
thread_locks s free = some (record s { thread = locked; mutex = held })
thread_locks s held = none

-- The next step of `main` with the connection in its slot; `none` is a step that it cannot take.
unfoldable pub main_acts : Spawn → Connection → MainAt → Option Spawn
unfolding main_locks
main_acts s c created = some (record s { main = mutex_made; mutex = free })
main_acts s c mutex_made = some (record s { main = cond_made })
main_acts s c cond_made = main_locks s s.mutex
main_acts s c testing =
    if c.initialized then some (record s { main = leaving }) else some (record s { main = waiting })
main_acts s c waiting = some (record s { main = asleep; mutex = free })
main_acts s c leaving = some (record s { main = passed; mutex = free })
main_acts s c asleep = none
main_acts s c woken = main_locks s s.mutex
main_acts s c passed = some (record s { main = announced })
main_acts s c announced = none
main_acts s c crashed = none

-- The same without one: each further step reads the slot, but for a sleep that nobody ends.
unfoldable pub main_gone : Spawn → MainAt → Option Spawn
main_gone s asleep = none
main_gone s announced = none
main_gone s crashed = none
main_gone s m = some (record s { main = crashed })

-- The next step of `main`
unfoldable pub main_step : Spawn → Option Connection → Option Spawn
unfolding main_acts main_gone
main_step s (some c) = main_acts s c s.main
main_step s none = main_gone s s.main

-- `pthread_cond_signal`; a signal that nobody waits for is lost.
abbrev pub wake : MainAt → MainAt
wake asleep = woken
wake m = m

-- The next of the thread's first steps; its id is `tid`.
unfoldable pub thread_acts : ℕ → Spawn → Connection → ThreadAt → Option Spawn
unfolding thread_locks
thread_acts tid s c starting =
    some (record s { thread = stored; connection = some (record c { tid = tid }) })
thread_acts tid s c stored = thread_locks s s.mutex
thread_acts tid s c locked =
    some (record s { thread = flagged; connection = some (record c { initialized = true }) })
thread_acts tid s c flagged = some (record s { main = wake s.main; thread = signalled })
thread_acts tid s c signalled = some (record s { thread = running; mutex = free })
thread_acts tid s c running = none
thread_acts tid s c ended = none

unfoldable pub thread_step : ℕ → Spawn → Option Connection → Option Spawn
unfolding thread_acts
thread_step tid s (some c) = thread_acts tid s c s.thread
thread_step tid s none = none

-- The end of the thread, whose clean-up empties the slot and frees the connection
unfoldable pub thread_ends : Spawn → ThreadAt → Option Spawn
thread_ends s running = some (record s { thread = ended; connection = none })
thread_ends s t = none

-- `pthread_cond_wait` may also return without a signal.
unfoldable pub spurious : Spawn → MainAt → Option Spawn
spurious s asleep = some (record s { main = woken })
spurious s m = none

-- Behind `pthread_create`, for a new connection
abbrev pub spawned : Connection → Spawn
spawned c = record { main = created; thread = starting; mutex = free; connection = some c }

-- The states that the two reach, in any order of their steps
pub data Reached (tid : ℕ) (c : Connection) : Spawn → Type 0 where
  start : Reached tid c (spawned c)
  by_main : {s s' : Spawn} → Reached tid c s → main_step s s.connection ≡ some s' → Reached tid c s'
  by_thread :
      {s s' : Spawn} → Reached tid c s → thread_step tid s s.connection ≡ some s' → Reached tid c s'
  by_end : {s s' : Spawn} → Reached tid c s → thread_ends s s.thread ≡ some s' → Reached tid c s'
  by_chance : {s s' : Spawn} → Reached tid c s → spurious s s.main ≡ some s' → Reached tid c s'
