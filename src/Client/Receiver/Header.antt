-- ===== src/Client/Receiver/Header.antt =====
-- The header of a file: `file_upload_worker` of server/src/chatserver.c writes it, and `recv_thread` of
-- client/src/chatclient.c reads it.
use chat_app_in_c.Common.{
  ℕ, ◌≡◌, refl, ap, sym, ◌∙◌, false, some, [], ◌∷◌, ◌++◌, append_assoc, append-nil, ◌==◌, ==_refl,
  length, length-append, arith,
}
use mathlib.Core.Path.{subst}
use chat_app_in_c.CString.{Bytes, codes, c_string, strchr, isalnum, decimal}
use chat_app_in_c.CString.Token.{AllBytes, Lacks}
use chat_app_in_c.CString.Words.{IsWord, IsWord-Lacks, Lacks-append, decimal-IsWord, zero_Within}
use chat_app_in_c.Queue.{FileItem}
use chat_app_in_c.Server.Worker.{file_header}
use chat_app_in_c.Client.Receiver.{header, parse_header, header_len}

-- What `strchr` finds behind a text without that byte
strchr-append : (d : ℕ) (t s : Bytes) → Lacks (λ c. c == d) t → strchr d (t ++ d ∷ s) ≡ some (t, s)
unfolding strchr
strchr-append d [] s h = rw (==_refl d) refl
strchr-append d (c ∷ t) s h = rw (h.0, strchr-append d t s h.1) refl

c_string-append : (s t : Bytes) → Lacks (λ c. c == 0) s → c_string (s ++ t) ≡ s ++ c_string t
unfolding c_string
c_string-append [] t h = refl
c_string-append (c ∷ s) t h = rw h.0 (ap (◌∷◌ c) (c_string-append s t h.1))

pub parse_header-fields :
    (name size sender rest : Bytes)
    → Lacks (λ c. c == b' ') name
    → Lacks (λ c. c == b' ') size
    → Lacks (λ c. c == b']') sender
    → parse_header (codes "[FILE " ++ (name ++ b' ' ∷ (size ++ b' ' ∷ (sender ++ b']' ∷ rest))))
      ≡ header name size sender
unfolding parse_header
parse_header-fields name size sender rest h k l =
    rw
      (
        strchr-append b' ' name (size ++ b' ' ∷ (sender ++ b']' ∷ rest)) h,
        strchr-append b' ' size (sender ++ b']' ∷ rest) k,
        strchr-append b']' sender rest l,
      )
      refl

-- The header with what follows it, field by field
abbrev pub header_text : FileItem → Bytes → Bytes
header_text item d =
    codes "[FILE "
    ++ (item.filename ++ b' ' ∷ (decimal item.size ++ b' ' ∷ (item.sender ++ b']' ∷ 10 ∷ d)))

file_header_fields : (item : FileItem) (d : Bytes) → file_header item ++ d ≡ header_text item d
unfolding file_header
file_header_fields item d = simp (append_assoc) refl

file_header_lem : (item : FileItem) → file_header item ≡ header_text item []
file_header_lem item = sym (append-nil (file_header item)) ∙ file_header_fields item []

pub alnum_Lacks :
    (d : ℕ) (s : Bytes) → isalnum d ≡ false → AllBytes isalnum s → Lacks (λ c. c == d) s
alnum_Lacks d [] e h = tt
alnum_Lacks d (c ∷ s) e h = (ground (arith, e, h.0), alnum_Lacks d s e h.1)

header_text-Lacks :
    (item : FileItem)
    → IsWord item.filename
    → AllBytes isalnum item.sender
    → Lacks (λ c. c == 0) (header_text item [])
unfolding isalnum
header_text-Lacks item h k =
    let sender = alnum_Lacks 0 item.sender refl k in
    let size = IsWord-Lacks (decimal item.size) zero_Within (decimal-IsWord item.size) in
    let a = Lacks-append (λ c. c == 0) item.sender (b']' ∷ 10 ∷ []) sender (refl, (refl, tt)) in
    let b =
      Lacks-append (λ c. c == 0) (decimal item.size) (b' ' ∷ (item.sender ++ b']' ∷ 10 ∷ [])) size
        (refl, a) in
    ground (
      arith,
      Lacks-append (λ c. c == 0) item.filename
          (b' ' ∷ (decimal item.size ++ b' ' ∷ (item.sender ++ b']' ∷ 10 ∷ [])))
          (IsWord-Lacks item.filename zero_Within h) (refl, b),
    )

pub length-file_header :
    (item : FileItem)
    → length (file_header item) ≡ header_len item.filename (decimal item.size) item.sender
length-file_header item =
    ap length (file_header_lem item)
    ∙ omega (
      arith,
      length-append item.filename
          (b' ' ∷ (decimal item.size ++ b' ' ∷ (item.sender ++ b']' ∷ 10 ∷ []))),
      length-append (decimal item.size) (b' ' ∷ (item.sender ++ b']' ∷ 10 ∷ [])),
      length-append item.sender (b']' ∷ 10 ∷ []),
    )

-- What the client reads of a buffer that starts with the header
pub c_string-header :
    (item : FileItem) (d : Bytes)
    → IsWord item.filename
    → AllBytes isalnum item.sender
    → c_string (file_header item ++ d) ≡ header_text item (c_string d)
c_string-header item d h k =
    c_string-append (file_header item) d
      (subst (λ x. Lacks (λ c. c == 0) x) (sym (file_header_lem item)) (header_text-Lacks item h k))
    ∙ file_header_fields item (c_string d)
