-- ===== src/Log/Tests.antt =====
-- A log file of two lines, and the theorem on the log at it.
use chat_app_in_c.Common.{◌≡◌, refl, ◌≢◌, true, none, some, [], ◌∷◌, ◌++◌, arith}
use chat_app_in_c.CString.{Bytes, codes, decimal, decimal_digits}
use chat_app_in_c.Disk.{find}
use chat_app_in_c.Log.{Tm, padded, stamp, Log, log_path, log_init_ts, log_close}
use chat_app_in_c.Log.Lines.{IsTime, log_all, lines, content_of, log_life}

-- 2025-06-01 09:05:07
abbrev morning : Tm
morning = record { tm_year = 125; tm_mon = 5; tm_mday = 1; tm_hour = 9; tm_min = 5; tm_sec = 7 }

morning-IsTime : IsTime morning
morning-IsTime = omega arith

stamp_run : stamp morning ≡ codes "2025-06-01 09:05:07"
unfolding padded decimal decimal_digits
stamp_run = refl

log_path_run : log_path (codes "logs") morning ≡ codes "logs/20250601_090507.log"
unfolding padded decimal decimal_digits
log_path_run = refl

abbrev no_log : Log
no_log = record { log_fp = none; files = []; dirs = [] }

log_life_example :
    (log' : Log) × (log_all
        ((morning, codes "hello") ∷ (morning, codes "bye") ∷ [])
        (log_init_ts true true morning (codes "logs") no_log)
      ≡ some log')
    × (find (log_path (codes "logs") morning) log'.files
        ≡ some (
            content_of (log_path (codes "logs") morning) []
            ++ lines ((morning, codes "hello") ∷ (morning, codes "bye") ∷ [])))
    × ((other : Bytes)
        → other ≢ log_path (codes "logs") morning
        → find other log'.files ≡ find other no_log.files)
    × (log_all ((morning, codes "late") ∷ []) (log_close log') ≡ some (log_close log'))
log_life_example =
    log_life true morning (codes "logs") no_log
      ((morning, codes "hello") ∷ (morning, codes "bye") ∷ []) ((morning, codes "late") ∷ [])
      (morning-IsTime, (morning-IsTime, tt)) (morning-IsTime, tt)
