-- ===== src/Client/Guards.antt =====
-- What `process_command` of client/src/chatclient.c lets through.
use chat_app_in_c.Common.{
  ℕ, ◌<◌, ◌≤◌, ◌≡◌, refl, ap, sym, ◌∙◌, ◌≢◌, ◌↔◌, ◌⊎◌, inl, inr, true, false, ◌||◌, none, some, [],
  ◌∷◌, ◌++◌, ◌==◌, ltb, Bool-cases, Option-cases, arith,
}
use chat_app_in_c.CString.{Bytes, codes, str_eq, str_eq_iff, strrchr, strtok, is_blank_nl}
use chat_app_in_c.CString.Token.{Lacks}
use chat_app_in_c.CString.Last.{strrchr-append, strrchr_suffix}
use chat_app_in_c.Client.{Client}
use chat_app_in_c.Client.Commands.{
  FileSystem, allowed_extension, max_file_size, request, sendfile_header, send_opened,
  sendfile_words, process_command, command, whisper_line,
}
use chat_app_in_c.Client.Requests.{sent_bytes}

-- The name ends in this extension.
abbrev EndsIn : Bytes → Bytes → Type 0
EndsIn name ext = (base : Bytes) × (name ≡ base ++ ext)

abbrev pub HasAllowedExtension : Bytes → Type 0
HasAllowedExtension name =
    EndsIn name (codes ".txt")
    ⊎ EndsIn name (codes ".pdf")
    ⊎ EndsIn name (codes ".jpg")
    ⊎ EndsIn name (codes ".png")

allowed_extension_cases :
    (ext : Bytes)
    → allowed_extension (some ext) ≡ true
    → (ext ≡ codes ".txt") ⊎ (ext ≡ codes ".pdf") ⊎ (ext ≡ codes ".jpg") ⊎ (ext ≡ codes ".png")
unfolding allowed_extension
allowed_extension_cases ext h = ground (
  arith,
  str_eq_iff ext (codes ".txt"),
  str_eq_iff ext (codes ".pdf"),
  str_eq_iff ext (codes ".jpg"),
  str_eq_iff ext (codes ".png"),
)

ends_in :
    (name base ext : Bytes)
    → name ≡ base ++ ext
    → HasAllowedExtension (base ++ ext)
    → HasAllowedExtension name
ends_in name base ext e (inl (b, f)) = inl (b, e ∙ f)
ends_in name base ext e (inr (inl (b, f))) = inr (inl (b, e ∙ f))
ends_in name base ext e (inr (inr (inl (b, f)))) = inr (inr (inl (b, e ∙ f)))
ends_in name base ext e (inr (inr (inr (b, f)))) = inr (inr (inr (b, e ∙ f)))

suffix_allowed :
    (base ext : Bytes) → allowed_extension (some ext) ≡ true → HasAllowedExtension (base ++ ext)
suffix_allowed base ext h = elim (allowed_extension_cases ext h) [
  | inl e ↦ inl (base, ap (◌++◌ base) e)
  | inr (inl e) ↦ inr (inl (base, ap (◌++◌ base) e))
  | inr (inr (inl e)) ↦ inr (inr (inl (base, ap (◌++◌ base) e)))
  | inr (inr (inr e)) ↦ inr (inr (inr (base, ap (◌++◌ base) e)))
]

extension_of :
    (name : Bytes)
    → allowed_extension (strrchr b'.' name) ≡ true
    → (ext : Bytes) × (strrchr b'.' name ≡ some ext) × (allowed_extension (some ext) ≡ true)
unfolding allowed_extension
extension_of name h = elim (Option-cases (strrchr b'.' name)) [
  | inl e ↦ absurd (ground (arith, h, e))
  | inr (ext, e) ↦ (ext, e, ap allowed_extension (sym e) ∙ h)
]

-- The test on the extension accepts exactly the names that end in `.txt`, `.pdf`, `.jpg` or `.png`.
pub allowed_extension_iff :
    (name : Bytes) → (allowed_extension (strrchr b'.' name) ≡ true) ↔ HasAllowedExtension name
unfolding allowed_extension str_eq
allowed_extension_iff name = (forward, backward)
  where
    forward : allowed_extension (strrchr b'.' name) ≡ true → HasAllowedExtension name
    forward h =
        let (ext, found, ok) = extension_of name h in
        let (base, e) = strrchr_suffix b'.' name ext found in
        ends_in name base ext e (suffix_allowed base ext ok)

    accepts :
        (base rest : Bytes)
        → name ≡ base ++ b'.' ∷ rest
        → Lacks (λ c. c == b'.') rest
        → allowed_extension (some (b'.' ∷ rest)) ≡ true
        → allowed_extension (strrchr b'.' name) ≡ true
    accepts base rest e lacks ok =
        ap (λ n. allowed_extension (strrchr b'.' n)) e
        ∙ ap allowed_extension (strrchr-append b'.' base rest lacks)
        ∙ ok

    backward : HasAllowedExtension name → allowed_extension (strrchr b'.' name) ≡ true
    backward (inl (base, e)) = accepts base (codes "txt") e (ground arith) refl
    backward (inr (inl (base, e))) = accepts base (codes "pdf") e (ground arith) refl
    backward (inr (inr (inl (base, e)))) = accepts base (codes "jpg") e (ground arith) refl
    backward (inr (inr (inr (base, e)))) = accepts base (codes "png") e (ground arith) refl

-- A file that may be sent: `stat` knows it, its size is from 1 byte to 3 MB, and its name has one of
-- the four extensions.
abbrev pub IsAcceptable : FileSystem → Bytes → Type 0
IsAcceptable files filename =
    (size : ℕ) × (files.stat filename ≡ some size)
    × (0 < size)
    × (size ≤ max_file_size)
    × HasAllowedExtension filename

-- `/sendfile` to another user sends something to the server exactly for the files that `stat` knows,
-- whose size is from 1 byte to 3 MB, and whose name ends in one of the four extensions. For any other
-- file not a byte is sent.
pub sendfile_sends_iff :
    (files : FileSystem) (c : Client) (user filename : Bytes)
    → (sent_bytes (sendfile_words files c user (some filename)) ≢ []) ↔ IsAcceptable files filename
unfolding sendfile_words
sendfile_sends_iff files c user filename = (forward, backward)
  where
    forward :
        sent_bytes (sendfile_words files c user (some filename)) ≢ [] → IsAcceptable files filename
    forward sends = elim (Option-cases (files.stat filename)) [
      | inl e ↦ absurd (sends (rw e refl))
      | inr (size, e) ↦ elim (Bool-cases ((size == 0) || ltb max_file_size size)) [
        | inl bad ↦ absurd (sends (rw (e, bad) refl))
        | inr good ↦ elim (Bool-cases (allowed_extension (strrchr b'.' filename))) [
          | inr f ↦ absurd (sends (rw (e, good, f) refl))
          | inl ok ↦ (size, e, ground arith, ground arith, (allowed_extension_iff filename).0 ok)
        ]
      ]
    ]

    backward :
        IsAcceptable files filename → sent_bytes (sendfile_words files c user (some filename)) ≢ []
    backward (size, e, some_bytes, few, ext) nothing =
        let sized : ((size == 0) || ltb max_file_size size) ≡ false = ground arith in
        let ok : allowed_extension (strrchr b'.' filename) ≡ true =
          (allowed_extension_iff filename).1 ext in
        let sent : sendfile_words files c user (some filename)
            ≡ request c (sendfile_header filename user size)
              ++ send_opened c size (files.open_read filename) =
          rw (e, sized, ok) refl in
        absurd (ground (arith, ap sent_bytes (sym sent) ∙ nothing))

whisper_line_undefined_iff :
    (c : Client) (args : Bytes)
    → (whisper_line c args ≡ none) ↔ ((strtok is_blank_nl args).0 ≡ none)
unfolding whisper_line
whisper_line_undefined_iff c args = elim (Option-cases (strtok is_blank_nl args).0) [
  | inl e ↦ (λ _. e, λ _. rw e refl)
  | inr (user, e) ↦ (λ h. absurd (ground (arith, h, e)), λ h. absurd (ground (arith, h, e)))
]

command_whisper :
    (files : FileSystem) (c : Client) (args : Bytes)
    → command files c (codes "/whisper") args ≡ whisper_line c args
unfolding command str_eq
command_whisper files c args = refl

command_other :
    (files : FileSystem) (c : Client) (tok args : Bytes)
    → str_eq tok (codes "/whisper") ≡ false
    → command files c tok args ≢ none
unfolding command
command_other files c tok args e h = ground (arith, e, h)

command_undefined_iff :
    (files : FileSystem) (c : Client) (tok args : Bytes)
    → (command files c tok args ≡ none)
      ↔ ((tok ≡ codes "/whisper") × ((strtok is_blank_nl args).0 ≡ none))
command_undefined_iff files c tok args = elim (Bool-cases (str_eq tok (codes "/whisper"))) [
  | inl e ↦
      let is_whisper = (str_eq_iff tok (codes "/whisper")).0 e in
      let same = ap (λ w. command files c w args) is_whisper ∙ command_whisper files c args in
      let (there, back) = whisper_line_undefined_iff c args in
      (λ h. (is_whisper, there (sym same ∙ h)), λ (_, h). same ∙ back h)
  | inr e ↦ (
    λ h. absurd (command_other files c tok args e h),
    λ (is_whisper, _). absurd (ground (arith, e, (str_eq_iff tok (codes "/whisper")).1 is_whisper)),
  )
]

-- `process_command` is undefined for a line exactly if its first word is `/whisper` and there is no
-- second word: then `printf` is given NULL for a string. It returns for every other line.
pub process_command_undefined_iff :
    (files : FileSystem) (c : Client) (line : Bytes)
    → (process_command files c line ≡ none)
      ↔ ((strtok is_blank_nl line).0 ≡ some (codes "/whisper"))
        × ((strtok is_blank_nl (strtok is_blank_nl line).1).0 ≡ none)
unfolding process_command
process_command_undefined_iff files c line = elim (Option-cases (strtok is_blank_nl line).0) [
  | inl e ↦ (λ h. absurd (ground (arith, h, e)), λ (h, _). absurd (ground (arith, h, e)))
  | inr (tok, e) ↦
      let (there, back) = command_undefined_iff files c tok (strtok is_blank_nl line).1 in
      rw e (λ h. (ap some (there h).0, (there h).1), λ (same, h). back (ground (arith, same), h))
]
