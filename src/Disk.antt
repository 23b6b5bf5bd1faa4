-- ===== src/Disk.antt =====
-- The files of a client's working directory, as client/src/chatclient.c reads and writes them.
use chat_app_in_c.Common.{
  ◌≡◌, refl, ap, ◌≢◌, Bool, false, Option, none, some, List, [], ◌∷◌, ◌++◌, if◌then◌else◌, is_some,
  Bool-cases, inl, inr, arith,
}
use chat_app_in_c.CString.{Bytes, str_eq, str_eq_iff}

-- The files of the working directory, by name; the first of a name counts.
abbrev pub Disk : Type 0
Disk = List (Bytes × Bytes)

unfoldable pub find : Bytes → Disk → Option Bytes
find name [] = none
find name ((n, content) ∷ disk) = if str_eq n name then some content else find name disk

-- `stat(name, &st) == 0`
unfoldable pub exists : Bytes → Disk → Bool
unfolding find
exists name disk = is_some (find name disk)

-- `fwrite` at the end of the file
unfoldable pub append_to : Bytes → Bytes → Disk → Disk
append_to name more [] = []
append_to name more ((n, content) ∷ disk) =
    if str_eq n name then (n, content ++ more) ∷ disk else (n, content) ∷ append_to name more disk

-- A write leaves the other files as they are.
pub find-append_to :
    (name other more : Bytes) (disk : Disk)
    → name ≢ other
    → find name (append_to other more disk) ≡ find name disk
unfolding find append_to
find-append_to name other more [] h = refl
find-append_to name other more ((n, content) ∷ disk) h = elim (Bool-cases (str_eq n other)) [
  | inl e ↦
      let differs : str_eq n name ≡ false =
        ground (arith, h, (str_eq_iff n other).0 e, str_eq_iff n name) in
      rw (e, differs) refl
  | inr e ↦ ground (arith, e, find-append_to name other more disk h)
]

pub find-append_to_self :
    (name old more : Bytes) (disk : Disk)
    → find name disk ≡ some old
    → find name (append_to name more disk) ≡ some (old ++ more)
unfolding find append_to
find-append_to_self name old more [] h = absurd (ground (arith, h))
find-append_to_self name old more ((n, content) ∷ disk) h = elim (Bool-cases (str_eq n name)) [
  | inl e ↦
      let same : content ≡ old = ground (arith, h, e) in rw (e, e) (ap (λ x. some (x ++ more)) same)
  | inr e ↦
      let there : find name disk ≡ some old = ground (arith, h, e) in
      rw (e, e) (find-append_to_self name old more disk there)
]
