-- ===== src/Client/Receiver.antt =====
-- `recv_thread` of client/src/chatclient.c: the thread that shows what the server sends and saves the
-- files that it sends. One step takes what one `recv` gave. A step is `none` where C leaves it
-- undefined, and where the search for a free file name has not ended within its fuel.
pub mod Naming
pub mod Keeps
pub mod Saved
pub mod Header
pub mod Arrival
use chat_app_in_c.Common.{
  ℕ, zero, suc, ◌+◌, ◌-◌, ◌^◌, Bool, true, false, ◌&&◌, Option, none, some, List, [], ◌∷◌, ◌++◌,
  ltb, leb, ◌==◌, if◌then◌else◌, length, take, drop, is_some,
}
use chat_app_in_c.CString.{
  Bytes, codes, c_string, str_eq, strchr, strrchr, starts_with, strtoul, copy_into,
}
use chat_app_in_c.Disk.{Disk, find, exists, append_to}
use chat_app_in_c.Client.{
  Event, Client, newline, fmt, display, buf_size, color_red, color_green, color_magenta,
}

-- `MAX_FILENAME`
abbrev pub max_filename : ℕ
max_filename = 256

-- `USERNAME_LEN`
abbrev pub username_len : ℕ
username_len = 16

-- What the system answers: `basename`, and whether `fopen(name, "wb")` gives a file
pub record System : Type 0 where
  pub basename : Bytes → Bytes
  pub creates : Bytes → Bool

-- The variables of the thread that outlive a round, and the files. While a file is received, `fp` is
-- open on the file of the name `incoming_fname`.
pub record Receiver : Type 0 where
  pub receiving_file : Bool
  pub file_remain : ℕ
  pub incoming_fname : Bytes
  pub incoming_sender : Bytes
  pub disk : Disk

abbrev pub Step : Type 0
Step = Option (List Event × Receiver)

-- `[INFO] Received file '%s' from %s (saved).\n`
abbrev pub file_saved : Receiver → Bytes
file_saved r = fmt (
    codes "[INFO] Received file '"
    ++ r.incoming_fname
    ++ codes "' from "
    ++ r.incoming_sender
    ++ codes " (saved)."
    ++ newline)

abbrev pub not_created : Bytes → Bytes
not_created name =
    fmt (codes "[ERROR] Could not create file '" ++ name ++ codes "' for writing." ++ newline)

-- Bytes are written to the open file; with the last one the file is closed and reported.
unfoldable pub write_data : Client → Receiver → Bytes → List Event × Receiver
write_data c r bytes =
    let left = r.file_remain - length bytes in
    let r' : Receiver = record r {
      file_remain = left;
      disk = append_to r.incoming_fname bytes r.disk;
    } in
    if left == 0
    then (display c (file_saved r') color_magenta ∷ [], record r' { receiving_file = false })
    else ([], r')

-- In the middle of a file. A rest of 2^63 bytes or more is negative as an `ssize_t`; then the code
-- writes the whole rest, past the end of its buffer.
unfoldable pub receive_data : Client → Receiver → Bytes → Step
receive_data c r buf =
    if leb (2 ^ 63) r.file_remain then none else some (write_data c r (take r.file_remain buf))

-- What the parse of a header gives: the text that the buffer holds when it is given up, which is cut
-- at the first blank that has become a zero; or the name, the size and the sender as they stand there.
pub data Parsed : Type 0 where
  malformed : Bytes → Parsed
  header : Bytes → Bytes → Bytes → Parsed

unfoldable pub parse_sender : Bytes → Bytes → Option (Bytes × Bytes) → Parsed
parse_sender name size none = malformed (codes "[FILE " ++ name)
parse_sender name size (some (sender, _)) = header name size sender

unfoldable pub parse_size : Bytes → Option (Bytes × Bytes) → Parsed
parse_size name none = malformed (codes "[FILE " ++ name)
parse_size name (some (size, rest)) = parse_sender name size (strchr b']' rest)

unfoldable pub parse_name : Bytes → Option (Bytes × Bytes) → Parsed
parse_name text none = malformed text
parse_name text (some (name, rest)) = parse_size name (strchr b' ' rest)

-- The text is known to start with `[FILE `.
unfoldable pub parse_header : Bytes → Parsed
unfolding parse_name parse_size parse_sender
parse_header text = parse_name text (strchr b' ' (drop 6 text))

-- `name_only` and `ext_only`, by the last dot of the name
unfoldable pub split_extension : Bytes → Bytes × Bytes
split_extension name = elim (strrchr b'.' name) [
  | none ↦ (copy_into max_filename name, [])
  | some ext ↦
      let base_len = length name - length ext in
      (take base_len name, copy_into (max_filename - base_len) ext)
]

-- `snprintf(candidate, sizeof(candidate), "%s%s", name_only, ext_only)`
abbrev pub candidate : Bytes → Bytes → Bytes
candidate name ext = take (max_filename - 1) (name ++ ext)

-- `%.*s_1` with at most `MAX_FILENAME - 3` bytes of the name
abbrev pub next_base : Bytes → Bytes
next_base name =
    copy_into max_filename (take (max_filename - 1) (take (max_filename - 3) name ++ codes "_1"))

-- The loop that looks for a name that no file has, for at most that many calls of `stat`
unfoldable pub free_name : ℕ → Disk → Bytes → Bytes → Option Bytes
free_name zero disk name ext = none
free_name (suc fuel) disk name ext =
    let later = free_name fuel disk (next_base name) ext in
    if exists (candidate name ext) disk then later else some (candidate name ext)

-- The length of `[FILE %s %s %s]` and the byte behind it
abbrev pub header_len : Bytes → Bytes → Bytes → ℕ
header_len name size sender = 6 + length name + 1 + length size + 1 + length sender + 2

-- The bytes that came with the header. With a header that ends in the last byte received, `data_len`
-- wraps around, and the code writes bytes that it has not received; then the step is undefined, but for
-- a file of no bytes.
unfoldable pub first_data : Client → Receiver → ℕ → Bytes → Step
first_data c r header_len buf =
    if length buf == header_len
    then some ([], r)
    else if ltb (length buf) header_len && ltb 0 r.file_remain
    then none
    else some (write_data c r (take r.file_remain (drop header_len buf)))

-- The file is opened, for writing from its start.
unfoldable pub open_file : System → Client → Receiver → ℕ → Bytes → Step
open_file sys c r header_len buf =
    if sys.creates r.incoming_fname
    then first_data c (record r { disk = (r.incoming_fname, []) ∷ r.disk }) header_len buf
    else some (
      display c (not_created r.incoming_fname) color_red ∷ [],
      record r { receiving_file = false },
    )

-- With the free name, if there is one
unfoldable pub with_name :
    System → Client → Receiver → Bytes → Bytes → Bytes → Bytes → Option Bytes → Step
unfolding open_file
with_name sys c r buf name size sender none = none
with_name sys c r buf name size sender (some free) =
    open_file sys c
      (record {
        receiving_file = true;
        file_remain = strtoul size;
        incoming_fname = copy_into max_filename free;
        incoming_sender = copy_into username_len (copy_into username_len sender);
        disk = r.disk;
      })
      (header_len name size sender) buf

-- The name without directories, split at its last dot
abbrev pub local_name : System → Bytes → Bytes × Bytes
local_name sys name =
    split_extension (copy_into max_filename (sys.basename (copy_into max_filename name)))

unfoldable pub begin_file : System → ℕ → Client → Receiver → Bytes → Bytes → Bytes → Bytes → Step
unfolding with_name
begin_file sys fuel c r buf name size sender =
    let (name_only, ext_only) = local_name sys name in
    with_name sys c r buf name size sender (free_name fuel r.disk name_only ext_only)

unfoldable pub receive_parsed : System → ℕ → Client → Receiver → Bytes → Parsed → Step
unfolding begin_file
receive_parsed sys fuel c r buf (malformed text) = some (display c text color_green ∷ [], r)
receive_parsed sys fuel c r buf (header name size sender) =
    begin_file sys fuel c r buf name size sender

-- Text, or the header of a file. A buffer that is full gets its zero behind its end.
unfoldable pub receive_text : System → ℕ → Client → Receiver → Bytes → Step
unfolding receive_parsed
receive_text sys fuel c r buf =
    let text = c_string buf in
    if leb buf_size (length buf)
    then none
    else if starts_with text (codes "[FILE ")
    then receive_parsed sys fuel c r buf (parse_header text)
    else some (display c text color_green ∷ [], r)

-- One round of the loop
unfoldable pub receive : System → ℕ → Client → Receiver → Bytes → Step
unfolding receive_data receive_text
receive sys fuel c r buf =
    if r.receiving_file then receive_data c r buf else receive_text sys fuel c r buf

abbrev pub with_events : List Event → Step → Step
with_events events none = none
with_events events (some (more, r)) = some (events ++ more, r)

-- A step and what follows it
abbrev pub and_then : Step → (Receiver → Step) → Step
and_then none next = none
and_then (some (events, r)) next = with_events events (next r)

-- The rounds of the loop, one for each `recv`
unfoldable pub receive_all : System → ℕ → Client → Receiver → List Bytes → Step
receive_all sys fuel c r [] = some ([], r)
receive_all sys fuel c r (buf ∷ bufs) =
    and_then (receive sys fuel c r buf) (λ r'. receive_all sys fuel c r' bufs)
