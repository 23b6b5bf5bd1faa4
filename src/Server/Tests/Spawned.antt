-- ===== src/Server/Tests/Spawned.antt =====
-- The meeting of `main` and a new thread at concrete schedules.
use chat_app_in_c.Common.{
  ◌≡◌, refl, true, some, inr, List, ◌∷◌, [], Bool, replicate, length-replicate, arith,
}
use chat_app_in_c.CString.{codes}
use chat_app_in_c.Server.{Connection}
use chat_app_in_c.Server.Accept.{new_connection}
use chat_app_in_c.Server.Spawn.{
  Mutex, ThreadAt, Spawn, passed, asleep, running, cond_made, main_step, thread_step, Reached,
  start, by_main, by_thread,
}
use chat_app_in_c.Server.Spawn.Meeting.{passed_with_id}
use chat_app_in_c.Server.Spawn.Ending.{HasMet, run_schedule, schedule_meets}

abbrev carol : Connection
carol = new_connection 12 (codes "carol")

-- The thread has stored its id, and `main` has made its initialisations.
abbrev made : Spawn
made = record {
  main = cond_made;
  thread = ThreadAt.stored;
  mutex = Mutex.free;
  connection = some (record carol { tid = 9 });
}

made-Reached : Reached 9 carol made
unfolding main_step thread_step
made-Reached = by_main (by_main (by_thread start refl) refl) refl

-- `main` falls asleep before the thread goes on.
abbrev main_first : List Bool
main_first = replicate 14 true

main_sleeps : (run_schedule 9 (true ∷ true ∷ true ∷ []) made).main ≡ asleep
unfolding run_schedule main_step
main_sleeps = refl

schedule_meets_example : HasMet 9 (run_schedule 9 main_first made)
schedule_meets_example =
    schedule_meets {c = carol} {s = made} main_first refl made-Reached refl (inr refl)
      (omega (arith, length-replicate {A = Bool} 14 true))

abbrev known_carol : Connection
known_carol = record carol { tid = 9; initialized = true }

-- The thread has locked and signalled before the initialisations.
abbrev met : Spawn
met = record {
  main = passed;
  thread = ThreadAt.running;
  mutex = Mutex.free;
  connection = some known_carol;
}

met-Reached : Reached 9 carol met
unfolding main_step thread_step
met-Reached =
    by_main
      (by_main
        (by_main
          (by_main
            (by_main
              (by_thread (by_thread (by_thread (by_thread (by_thread start refl) refl) refl) refl)
                refl)
              refl)
            refl)
          refl)
        refl)
      refl

passed_with_id_example : (known_carol.tid ≡ 9) × (known_carol.initialized ≡ true)
passed_with_id_example = passed_with_id {s = met} known_carol refl met-Reached refl refl
