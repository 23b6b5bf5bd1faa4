-- ===== src/Server/Spawn/Missed.antt =====
-- Orders of steps in which `main` and the new thread do not meet.
use chat_app_in_c.Common.{ℕ, ◌≡◌, refl}
use chat_app_in_c.Server.{Connection}
use chat_app_in_c.Server.Spawn.{
  crashed, Spawn, main_step, thread_step, thread_ends, Reached, start, by_main, by_thread, by_end,
}

-- `main` may read a connection that is no longer there: the thread may come to its end before `main` has
-- passed its wait.
main_outlives : (tid : ℕ) (c : Connection) → (s : Spawn) × Reached tid c s × (s.main ≡ crashed)
unfolding main_step thread_step thread_ends
main_outlives tid c = (
  _,
  by_main
      (by_end
        (by_thread (by_thread (by_thread (by_thread (by_thread start refl) refl) refl) refl) refl)
        refl)
      refl,
  refl,
)
