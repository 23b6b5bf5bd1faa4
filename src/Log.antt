-- ===== src/Log.antt =====
-- server/src/log.c: the server's log file. The files are those of the file system, the time is what
-- `localtime_r` gives.
pub mod Lines
mod Tests
use chat_app_in_c.Common.{
  ℕ, ◌+◌, ◌-◌, Bool, true, false, Option, none, some, List, [], ◌∷◌, ◌++◌, ltb, if◌then◌else◌,
  length, replicate, take,
}
use chat_app_in_c.CString.{Bytes, codes, str_eq, decimal}
use chat_app_in_c.Disk.{Disk, exists, append_to}

-- `struct tm`, less the fields that are not printed
pub record Tm : Type 0 where
  pub tm_year : ℕ
  pub tm_mon : ℕ
  pub tm_mday : ℕ
  pub tm_hour : ℕ
  pub tm_min : ℕ
  pub tm_sec : ℕ

-- `%0*d`: at least that many digits
unfoldable pub padded : ℕ → ℕ → Bytes
padded width n = replicate (width - length (decimal n)) b'0' ++ decimal n

-- `%Y-%m-%d %H:%M:%S`
abbrev pub stamp : Tm → Bytes
stamp t =
    decimal (1900 + t.tm_year)
    ++ (b'-' ∷ padded 2 (t.tm_mon + 1))
    ++ (b'-' ∷ padded 2 t.tm_mday)
    ++ (b' ' ∷ padded 2 t.tm_hour)
    ++ (b':' ∷ padded 2 t.tm_min)
    ++ (b':' ∷ padded 2 t.tm_sec)

-- `make_timestamp`; `strftime` leaves the buffer undefined if the text and its zero do not fit.
unfoldable pub make_timestamp : Tm → Option Bytes
make_timestamp t = if ltb (length (stamp t)) 20 then some (stamp t) else none

-- The open log file, the files, and the directories
pub record Log : Type 0 where
  pub log_fp : Option Bytes
  pub files : Disk
  pub dirs : List Bytes

-- The file that `fopen(path, "a")` opens is created if it is not there.
unfoldable pub touch : Bytes → Disk → Disk
touch path files = if exists path files then files else (path, []) ∷ files

-- `log_init`; the flag says whether `fopen` succeeds.
unfoldable pub log_init : Bool → Bytes → Log → Log
log_init false path log = record log { log_fp = none }
log_init true path log = record log { log_fp = some path; files = touch path log.files }

unfoldable pub is_directory : Bytes → List Bytes → Bool
is_directory path [] = false
is_directory path (d ∷ dirs) = if str_eq d path then true else is_directory path dirs

-- `stat` and `mkdir`; the flag says whether `mkdir` succeeds.
unfoldable pub make_directory : Bool → Bytes → Log → Log
make_directory mkdir path log =
    if is_directory path log.dirs
    then log
    else if mkdir
    then record log { dirs = path ∷ log.dirs }
    else log

-- `%s/%04d%02d%02d_%02d%02d%02d.log` in a buffer of 128 bytes
abbrev pub log_path : Bytes → Tm → Bytes
log_path prefix t = take 127 (
    prefix
    ++ codes "/"
    ++ padded 4 (t.tm_year + 1900)
    ++ padded 2 (t.tm_mon + 1)
    ++ padded 2 t.tm_mday
    ++ codes "_"
    ++ padded 2 t.tm_hour
    ++ padded 2 t.tm_min
    ++ padded 2 t.tm_sec
    ++ codes ".log")

-- `log_init_ts`
unfoldable pub log_init_ts : Bool → Bool → Tm → Bytes → Log → Log
log_init_ts mkdir opens t prefix log =
    log_init opens (log_path prefix t) (make_directory mkdir prefix log)

-- `%s - %s\n`
abbrev pub log_line : Bytes → Bytes → Bytes
log_line ts msg = ts ++ (codes " - " ++ (msg ++ 10 ∷ []))

unfoldable pub write_line : Option Bytes → Bytes → Log → Log
write_line none line log = log
write_line (some path) line log = record log { files = append_to path line log.files }

unfoldable pub write_stamped : Option Bytes → Bytes → Log → Option Log
write_stamped none msg log = none
write_stamped (some ts) msg log = some (write_line log.log_fp (log_line ts msg) log)

-- `log_write`
unfoldable pub log_write : Tm → Bytes → Log → Option Log
log_write t msg log = write_stamped (make_timestamp t) msg log

-- `log_close`
unfoldable pub log_close : Log → Log
log_close log = record log { log_fp = none }
