-- ===== src/Log/Lines.antt =====
-- What the log file holds.
use chat_app_in_c.Common.{
  ℕ, zero, suc, ◌+◌, ◌-◌, ◌/◌, ◌%◌, ◌^◌, ◌<◌, ◌≤◌, ◌≡◌, refl, ap, sym, ◌∙◌, ◌≢◌, Bool, true, false,
  Option, none, some, List, [], ◌∷◌, ◌++◌, append_assoc, append-nil, ltb, length, length-append,
  length-replicate, replicate, Bool-cases, Option-cases, inl, inr, arith,
}
use native.Mathlib.Nat.{pow-suc}
use chat_app_in_c.CString.{Bytes, decimal, decimal_digits, str_eq, str_eq_iff}
use chat_app_in_c.Disk.{Disk, find, exists, append_to, find-append_to, find-append_to_self}
use chat_app_in_c.Log.{
  Tm, padded, stamp, make_timestamp, Log, touch, log_init, make_directory, is_directory, log_path,
  log_init_ts, log_line, write_line, write_stamped, log_write, log_close,
}

digits_few :
    (fuel k n : ℕ) (out : Bytes)
    → n < 10 ^ suc k
    → length (decimal_digits fuel n out) ≤ suc k + length out
unfolding decimal_digits
digits_few zero k n out h = omega arith
digits_few (suc fuel) zero n out h =
    let e : ltb n 10 ≡ true = ground (arith, h) in rw e (omega arith)
digits_few (suc fuel) (suc k) n out h =
    let rest =
      digits_few fuel k (n / 10) ((b'0' + n % 10) ∷ out) (omega (arith, h, pow-suc 10 (suc k))) in
    elim (Bool-cases (ltb n 10)) [ inl e ↦ rw e (omega arith) | inr e ↦ rw e (omega (arith, rest)) ]

decimal_few : (k n : ℕ) → n < 10 ^ suc k → length (decimal n) ≤ suc k
unfolding decimal
decimal_few k n h = omega (arith, digits_few 20 k n [] h)

length-padded : (n : ℕ) → n < 100 → length (padded 2 n) ≤ 2
unfolding padded
length-padded n h = omega (
  arith,
  decimal_few 1 n h,
  length-append (replicate (2 - length (decimal n)) b'0') (decimal n),
  length-replicate {A = ℕ} (2 - length (decimal n)) b'0',
)

-- The fields are in their ranges, and the year has at most four digits.
pub record IsTime (t : Tm) : Type 0 where
  pub year : t.tm_year ≤ 8099
  pub mon : t.tm_mon < 12
  pub mday : t.tm_mday ≤ 31
  pub hour : t.tm_hour < 24
  pub min : t.tm_min < 60
  pub sec : t.tm_sec ≤ 60

length-stamp : (t : Tm) → IsTime t → length (stamp t) ≤ 19
length-stamp t h =
    let year = decimal (1900 + t.tm_year) in
    let mon = b'-' ∷ padded 2 (t.tm_mon + 1) in
    let mday = b'-' ∷ padded 2 t.tm_mday in
    let hour = b' ' ∷ padded 2 t.tm_hour in
    let minute = b':' ∷ padded 2 t.tm_min in
    let second = b':' ∷ padded 2 t.tm_sec in
    omega (
      arith,
      length-append year mon,
      length-append (year ++ mon) mday,
      length-append (year ++ mon ++ mday) hour,
      length-append (year ++ mon ++ mday ++ hour) minute,
      length-append (year ++ mon ++ mday ++ hour ++ minute) second,
      decimal_few 3 (1900 + t.tm_year) (omega (arith, h.year)),
      length-padded (t.tm_mon + 1) (omega (arith, h.mon)),
      length-padded t.tm_mday (omega (arith, h.mday)),
      length-padded t.tm_hour (omega (arith, h.hour)),
      length-padded t.tm_min (omega (arith, h.min)),
      length-padded t.tm_sec (omega (arith, h.sec)),
    )

-- The time stamp fits the 20 bytes of its buffer.
pub make_timestamp_fits : (t : Tm) → IsTime t → make_timestamp t ≡ some (stamp t)
unfolding make_timestamp
make_timestamp_fits t h =
    let fits : ltb (length (stamp t)) 20 ≡ true = ground (arith, length-stamp t h) in rw fits refl

abbrev pub and_then : Option Log → (Log → Option Log) → Option Log
and_then none next = none
and_then (some log) next = next log

-- The calls of `log_write`, one after another
abbrev pub log_all : List (Tm × Bytes) → Log → Option Log
log_all [] log = some log
log_all ((t, msg) ∷ entries) log = and_then (log_write t msg log) (log_all entries)

abbrev pub AllTimes : List (Tm × Bytes) → Type 0
AllTimes [] = Unit
AllTimes ((t, msg) ∷ entries) = IsTime t × AllTimes entries

-- Their lines
abbrev pub lines : List (Tm × Bytes) → Bytes
lines [] = []
lines ((t, msg) ∷ entries) = log_line (stamp t) msg ++ lines entries

-- The content of a file; nothing if it is not there
abbrev pub content_of : Bytes → Disk → Bytes
content_of path files = elim (find path files) [ none ↦ [] | some content ↦ content ]

log_write-is_open :
    (t : Tm) (msg path : Bytes) (log : Log)
    → IsTime t
    → log.log_fp ≡ some path
    → log_write t msg log
      ≡ some (record log { files = append_to path (log_line (stamp t) msg) log.files })
unfolding log_write write_stamped write_line
log_write-is_open t msg path log h is_open = simp (make_timestamp_fits t h, is_open) refl

log_all-is_open :
    (entries : List (Tm × Bytes)) (path old : Bytes) (log : Log)
    → AllTimes entries
    → log.log_fp ≡ some path
    → find path log.files ≡ some old
    → (log' : Log) × (log_all entries log ≡ some log')
      × (find path log'.files ≡ some (old ++ lines entries))
      × ((other : Bytes) → other ≢ path → find other log'.files ≡ find other log.files)
log_all-is_open [] path old log h is_open there =
    (log, refl, there ∙ ap some (sym (append-nil old)), λ other _. refl)
log_all-is_open ((t, msg) ∷ entries) path old log (now, later) is_open there =
    let line = log_line (stamp t) msg in
    let (log', e, content, others) =
      log_all-is_open entries path (old ++ line)
        (record log { files = append_to path line log.files }) later is_open
        (find-append_to_self path old line log.files there) in
    (
      log',
      simp (log_all, log_write-is_open t msg path log now is_open) e,
      content ∙ ap some (append_assoc old line (lines entries)),
      λ other differs. others other differs ∙ find-append_to other path line log.files differs,
    )

log_all-closed :
    (entries : List (Tm × Bytes)) (log : Log)
    → AllTimes entries
    → log.log_fp ≡ none
    → log_all entries log ≡ some log
unfolding log_write write_stamped write_line
log_all-closed [] log h closed = refl
log_all-closed ((t, msg) ∷ entries) log (now, later) closed =
    simp (log_all, make_timestamp_fits t now, closed) (log_all-closed entries log later closed)

touch_there :
    (path : Bytes) (files : Disk) → find path (touch path files) ≡ some (content_of path files)
unfolding touch exists find
touch_there path files = elim (Option-cases (find path files)) [
  | inl e ↦
      let same = (str_eq_iff path path).1 refl in
      let empty : content_of path files ≡ [] = rw (content_of, e) refl in
      simp (e, same) (ap some (sym empty))
  | inr (content, e) ↦
      let held : content_of path files ≡ content = rw (content_of, e) refl in
      simp (e, e) (ap some (sym held))
]

touch_other :
    (other path : Bytes) (files : Disk)
    → other ≢ path
    → find other (touch path files) ≡ find other files
unfolding touch find
touch_other other path files differs = elim (Bool-cases (exists path files)) [
  | inl e ↦ simp e refl
  | inr e ↦
      let other_name : str_eq path other ≡ false = ground (arith, str_eq_iff path other, differs) in
      simp (e, other_name) refl
]

files-log_init_ts :
    (mkdir : Bool) (t : Tm) (prefix : Bytes) (log : Log)
    → (log_init_ts mkdir true t prefix log).files ≡ touch (log_path prefix t) log.files
unfolding log_init_ts log_init make_directory
files-log_init_ts mkdir t prefix log = elim (Bool-cases (is_directory prefix log.dirs)) [
  | inl e ↦ simp e refl
  | inr e ↦ elim (Bool-cases mkdir) [ inl f ↦ simp (e, f) refl | inr f ↦ simp (e, f) refl ]
]

-- A log that is started, written to and closed: the calls of `log_write` return, the file holds what it
-- held before and then one line for each call, in order, the other files are as before, and what is
-- logged after the file is closed changes nothing. The file can be opened, and the times are in range.
pub log_life :
    (mkdir : Bool) (t : Tm) (prefix : Bytes) (log : Log) (entries later : List (Tm × Bytes))
    → AllTimes entries
    → AllTimes later
    → (log' : Log) × (log_all entries (log_init_ts mkdir true t prefix log) ≡ some log')
      × (find (log_path prefix t) log'.files
          ≡ some (content_of (log_path prefix t) log.files ++ lines entries))
      × ((other : Bytes) → other ≢ log_path prefix t → find other log'.files ≡ find other log.files)
      × (log_all later (log_close log') ≡ some (log_close log'))
unfolding log_close log_init_ts log_init
log_life mkdir t prefix log entries later now after =
    let path = log_path prefix t in
    let files = files-log_init_ts mkdir t prefix log in
    let (log', e, content, others) =
      log_all-is_open entries path (content_of path log.files) (log_init_ts mkdir true t prefix log)
        now refl (ap (find path) files ∙ touch_there path log.files) in
    (
      log',
      e,
      content,
      λ other differs.
          others other differs ∙ ap (find other) files ∙ touch_other other path log.files differs,
      log_all-closed later (record log' { log_fp = none }) after refl,
    )
