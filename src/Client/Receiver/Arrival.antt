-- ===== src/Client/Receiver/Arrival.antt =====
-- A file from the server's worker to the disk of the client: `file_upload_worker` writes the header that
-- `recv_thread` reads.
use chat_app_in_c.Common.{
  ℕ, suc, ◌+◌, ◌*◌, ◌^◌, ◌<◌, ◌≤◌, ◌≡◌, refl, ap, ◌∙◌, true, false, ◌&&◌, some, List, [], ◌∷◌, ◌++◌,
  append-nil, leb, ltb, ◌==◌, length, length-append, take, take-all, drop-append_left, arith,
}
use chat_app_in_c.CString.{Bytes, c_string, str_eq_iff, starts_with, isalnum, decimal, copy_into}
use chat_app_in_c.CString.Token.{AllBytes}
use chat_app_in_c.CString.Number.{strtoul-decimal}
use chat_app_in_c.CString.Words.{IsWord, IsWord-Lacks, decimal-IsWord, blank_Within}
use chat_app_in_c.Queue.{FileItem}
use chat_app_in_c.Server.Worker.{file_header}
use chat_app_in_c.Server.Handler.Upload.Queued.{NoneEmpty, joined_bytes}
use chat_app_in_c.Client.{Client, buf_size}
use chat_app_in_c.Disk.{find, find-append_to_self}
use chat_app_in_c.Client.Receiver.{
  System, Receiver, header_len, local_name, free_name, first_data, with_name, receive, receive_all,
  and_then, write_data, max_filename, username_len,
}
use chat_app_in_c.Client.Receiver.Header.{
  parse_header-fields, alnum_Lacks, length-file_header, c_string-header,
}
use chat_app_in_c.Client.Receiver.Naming.{FindsFree, numbered, free_name_terminates}
use chat_app_in_c.Client.Receiver.Keeps.{free_name_free}
use chat_app_in_c.Client.Receiver.Saved.{
  Finished, Finished-silent, finished, receive_all-data, wrote,
}

-- The receiver once the file is open
abbrev pub opened : Receiver → FileItem → Bytes → Receiver
opened r item found = record {
  receiving_file = true;
  file_remain = item.size;
  incoming_fname = found;
  incoming_sender = item.sender;
  disk = (found, []) ∷ r.disk;
}

module _ (sys : System) (c : Client) (r : Receiver) (item : FileItem) (fuel : ℕ) (found : Bytes)
    (idle : r.receiving_file ≡ false) (name_word : IsWord item.filename)
    (sender_alnum : AllBytes isalnum item.sender) (sender_fits : length item.sender ≤ 15)
    (sized : item.size < 2 ^ 63) (creates : sys.creates found ≡ true)
    (free : free_name fuel r.disk (local_name sys item.filename).0 (local_name sys item.filename).1
      ≡ some found) where
  found_fits : copy_into max_filename found ≡ found
  found_fits =
      (free_name_free fuel r.disk (local_name sys item.filename).0 (local_name sys item.filename).1
        found free).1

  with_name-found :
      (buf : Bytes)
      → with_name sys c r buf item.filename (decimal item.size) item.sender (some found)
        ≡ first_data c
            (opened r item found)
            (header_len item.filename (decimal item.size) item.sender)
            buf
  unfolding with_name
  with_name-found buf =
      let twice : copy_into username_len (copy_into username_len item.sender) ≡ item.sender =
        ap (take 15) (take-all 15 item.sender sender_fits) ∙ take-all 15 item.sender sender_fits in
      rw (found_fits, twice, strtoul-decimal item.size (omega (arith, sized)), creates) refl

  receive-header :
      (d : Bytes)
      → length (file_header item ++ d) < buf_size
      → receive sys fuel c r (file_header item ++ d)
        ≡ first_data c
            (opened r item found)
            (header_len item.filename (decimal item.size) item.sender)
            (file_header item ++ d)
  unfolding receive starts_with isalnum
  receive-header d fits =
      let text = c_string-header item d name_word sender_alnum in
      let small : leb buf_size (length (file_header item ++ d)) ≡ false = ground (arith, fits) in
      let parsed =
        parse_header-fields item.filename (decimal item.size) item.sender (10 ∷ c_string d)
          (IsWord-Lacks item.filename blank_Within name_word)
          (IsWord-Lacks (decimal item.size) blank_Within (decimal-IsWord item.size))
          (alnum_Lacks b']' item.sender refl sender_alnum) in
      simp (idle, small, text, parsed, free) (with_name-found (file_header item ++ d))

  first_data-none :
      first_data c
        (opened r item found)
        (header_len item.filename (decimal item.size) item.sender)
        (file_header item ++ [])
      ≡ some ([], opened r item found)
  unfolding first_data
  first_data-none =
      let whole : (length (file_header item ++ [])
            == header_len item.filename (decimal item.size) item.sender)
          ≡ true =
        ground (arith, ap length (append-nil (file_header item)), length-file_header item) in
      simp whole refl

  first_data-some :
      (b : ℕ) (d : Bytes)
      → length (b ∷ d) ≤ item.size
      → first_data c
          (opened r item found)
          (header_len item.filename (decimal item.size) item.sender)
          (file_header item ++ b ∷ d)
        ≡ some (write_data c (opened r item found) (b ∷ d))
  unfolding first_data
  first_data-some b d fits =
      let size = length-append (file_header item) (b ∷ d) in
      let head = length-file_header item in
      let longer : (length (file_header item ++ b ∷ d)
            == header_len item.filename (decimal item.size) item.sender)
          ≡ false =
        ground (arith, size, head) in
      let no_wrap : (ltb (length (file_header item ++ b ∷ d))
              (header_len item.filename (decimal item.size) item.sender)
            && ltb 0 item.size)
          ≡ false =
        ground (arith, size, head) in
      let behind =
        drop-append_left (header_len item.filename (decimal item.size) item.sender)
          (file_header item) (b ∷ d) head in
      simp (longer, no_wrap, behind, take-all item.size (b ∷ d) fits) refl

  opened_empty : find found (opened r item found).disk ≡ some []
  unfolding find
  opened_empty = let same = (str_eq_iff found found).1 refl in rw same refl

  -- The bytes behind the header, and the later ones
  first_data-Finished :
      (d : Bytes) (bufs : List Bytes)
      → 0 < item.size
      → NoneEmpty bufs
      → length d + length (joined_bytes bufs) ≡ item.size
      → Finished c (opened r item found) (d ++ joined_bytes bufs) (
          and_then
            (first_data c
              (opened r item found)
              (header_len item.filename (decimal item.size) item.sender)
              (file_header item ++ d))
            (λ r'. receive_all sys fuel c r' bufs))
  first_data-Finished [] bufs positive some_bytes e = simp first_data-none (
      Finished-silent c (opened r item found) (joined_bytes bufs) _ (
        receive_all-data sys fuel c (opened r item found) [] bufs refl positive sized opened_empty
          some_bytes (omega (arith, e))))
  first_data-Finished (b ∷ d) bufs positive some_bytes e =
      let fits : length (b ∷ d) ≤ item.size = omega (arith, e) in
      finished sys fuel c (opened r item found) [] (b ∷ d) bufs opened_empty some_bytes e _
        (first_data-some b d fits)
        (λ less.
          receive_all-data sys fuel c (wrote (opened r item found) (b ∷ d)) (b ∷ d) bufs refl
            (omega (arith, less)) (omega (arith, sized))
            (find-append_to_self found [] (b ∷ d) (opened r item found).disk opened_empty)
            some_bytes (omega (arith, e)))

-- A file that the server's worker sends to an idle client is saved, whole and in order, under a name
-- that no file had, and reported. The bytes may come in any number of pieces, the first of them in the
-- same `recv` as the header. The name is the first free one of the announced name without directories
-- and its variants with `_1`, `_1_1` and so on before the extension. The file has from 1 byte to less
-- than 2^63; its name has no blanks, its sender is a user name, the header and the bytes that come with
-- it fit the buffer, the name leaves room for two bytes for each file on the disk, and `fopen` succeeds.
pub file_is_saved :
    (sys : System) (c : Client) (r : Receiver) (item : FileItem) (d : Bytes) (bufs : List Bytes)
    → r.receiving_file ≡ false
    → IsWord item.filename
    → AllBytes isalnum item.sender
    → length item.sender ≤ 15
    → 0 < item.size
    → item.size < 2 ^ 63
    → length (file_header item ++ d) < buf_size
    → NoneEmpty bufs
    → length d + length (joined_bytes bufs) ≡ item.size
    → ((name : Bytes) → sys.creates name ≡ true)
    → length (local_name sys item.filename).0
        + length (local_name sys item.filename).1
        + 2 * length r.disk
      ≤ 255
    → (found : Bytes) × FindsFree r.disk
        (local_name sys item.filename).0
        (local_name sys item.filename).1
        (some found)
      × Finished c
          (opened r item found)
          (d ++ joined_bytes bufs)
          (receive_all sys (suc (length r.disk)) c r ((file_header item ++ d) ∷ bufs))
unfolding receive_all
file_is_saved sys c r item d bufs idle name_word alnum fits positive small short some_bytes e
      creates room =
    let (name, ext) = local_name sys item.filename in
    let (k, free, unused, before) = free_name_terminates r.disk name ext room in
    let found = numbered k name ext in
    let fuel = suc (length r.disk) in
    (
      found,
      (k, refl, unused, before),
      simp
          (receive-header sys c r item fuel found idle name_word alnum fits small (creates found)
            free d short)
          (first_data-Finished sys c r item fuel found idle name_word alnum fits small
            (creates found) free d bufs positive some_bytes e),
    )
