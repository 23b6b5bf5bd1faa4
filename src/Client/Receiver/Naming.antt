-- ===== src/Client/Receiver/Naming.antt =====
-- The loop of `recv_thread` that looks for a free file name: when it ends, and when it does not.
use chat_app_in_c.Common.{
  ℕ, zero, suc, ◌+◌, ◌*◌, ◌<◌, ◌≤◌, ◌≡◌, refl, ap, sym, ◌∙◌, true, false, Option, none, some, [],
  ◌∷◌, ◌++◌, append_assoc, leb, if◌then◌else◌, Bool-cases, inl, inr, length, length-append,
  length-take, take, take-all, take-append_left, arith,
}
use chat_app_in_c.CString.{Bytes, codes, str_eq, str_eq_iff}
use chat_app_in_c.Disk.{Disk, exists}
use chat_app_in_c.Client.Receiver.{candidate, next_base, free_name}

-- How many files have a name of at least that length
abbrev at_least : ℕ → Disk → ℕ
at_least m [] = 0
at_least m ((n, content) ∷ disk) = (if leb m (length n) then 1 else 0) + at_least m disk

at_least-le-length : (m : ℕ) (disk : Disk) → at_least m disk ≤ length disk
at_least-le-length m [] = omega arith
at_least-le-length m ((n, content) ∷ disk) = ground (arith, at_least-le-length m disk)

at_least_antitone : (m : ℕ) (disk : Disk) → at_least (m + 2) disk ≤ at_least m disk
at_least_antitone m [] = omega arith
at_least_antitone m ((n, content) ∷ disk) = ground (arith, at_least_antitone m disk)

-- A file that exists is not counted among the longer names.
at_least-exists :
    (m : ℕ) (name : Bytes) (disk : Disk)
    → exists name disk ≡ true
    → length name ≡ m
    → at_least (m + 2) disk < at_least m disk
unfolding exists
at_least-exists m name [] h e = absurd (ground (arith, h))
at_least-exists m name ((n, content) ∷ disk) h e = elim (Bool-cases (str_eq n name)) [
  | inl same ↦
      let sized : length n ≡ m = ap length ((str_eq_iff n name).0 same) ∙ e in
      ground (arith, at_least_antitone m disk, sized)
  | inr other ↦
      let there : exists name disk ≡ true = ground (arith, h, other) in
      ground (arith, at_least-exists m name disk there e)
]

-- `_1` that many times
abbrev suffixes : ℕ → Bytes
suffixes zero = []
suffixes (suc k) = b'_' ∷ b'1' ∷ suffixes k

-- The name that the loop tries after that many rounds, while there is room
abbrev pub numbered : ℕ → Bytes → Bytes → Bytes
numbered k name ext = name ++ (suffixes k ++ ext)

numbered_next :
    (k : ℕ) (name ext : Bytes) → numbered k (name ++ codes "_1") ext ≡ numbered (suc k) name ext
numbered_next k name ext = append_assoc name (codes "_1") (suffixes k ++ ext)

candidate_whole :
    (name ext : Bytes) → length name + length ext ≤ 255 → candidate name ext ≡ name ++ ext
candidate_whole name ext h = take-all 255 (name ++ ext) (omega (arith, h, length-append name ext))

next_base_lem : (name : Bytes) → next_base name ≡ take 253 name ++ codes "_1"
next_base_lem name =
    let short : length (take 253 name ++ codes "_1") ≤ 255 =
      omega (arith, length-append (take 253 name) (codes "_1"), length-take 253 name) in
    let whole = take-all 255 (take 253 name ++ codes "_1") short in ap (take 255) whole ∙ whole

next_base_whole : (name : Bytes) → length name + 2 ≤ 255 → next_base name ≡ name ++ codes "_1"
next_base_whole name h =
    next_base_lem name ∙ ap (λ n. n ++ codes "_1") (take-all 253 name (omega (arith, h)))

-- The loop ends with the first of the names that no file has.
abbrev pub FindsFree : Disk → Bytes → Bytes → Option Bytes → Type 0
FindsFree disk name ext o =
    (k : ℕ) × (o ≡ some (numbered k name ext))
    × (exists (numbered k name ext) disk ≡ false)
    × ((j : ℕ) → j < k → exists (numbered j name ext) disk ≡ true)

finds_later :
    (disk : Disk) (name ext : Bytes) (o : Option Bytes)
    → exists (name ++ ext) disk ≡ true
    → FindsFree disk (name ++ codes "_1") ext o
    → FindsFree disk name ext o
finds_later disk name ext o taken (k, e, free, before) = (
  suc k,
  e ∙ ap some (numbered_next k name ext),
  ap (λ n. exists n disk) (sym (numbered_next k name ext)) ∙ free,
  earlier,
)
  where
    earlier : (j : ℕ) → j < suc k → exists (numbered j name ext) disk ≡ true
    earlier zero h = taken
    earlier (suc j) h =
        ap (λ n. exists n disk) (sym (numbered_next j name ext)) ∙ before j (omega (arith, h))

free_name_finds :
    (fuel : ℕ) (disk : Disk) (name ext : Bytes)
    → at_least (length name + length ext) disk < fuel
    → length name + length ext + 2 * at_least (length name + length ext) disk ≤ 255
    → FindsFree disk name ext (free_name fuel disk name ext)
unfolding free_name
free_name_finds zero disk name ext fuel_left room = absurd (omega (arith, fuel_left))
free_name_finds (suc fuel) disk name ext fuel_left room =
    let whole = candidate_whole name ext (omega (arith, room)) in
    elim (Bool-cases (exists (name ++ ext) disk)) [
      | inr free ↦ rw (whole, free) (0, refl, free, λ j h. absurd (omega (arith, h)))
      | inl taken ↦
          let counted =
            at_least-exists (length name + length ext) (name ++ ext) disk taken
              (length-append name ext) in
          let longer : length (name ++ codes "_1") + length ext ≡ (length name + length ext) + 2 =
            omega (arith, length-append name (codes "_1")) in
          let fewer = ap (λ m. at_least m disk) longer in
          let next = next_base_whole name (omega (arith, counted, room)) in
          rw (whole, taken, next)
            (finds_later disk name ext _ taken (
              free_name_finds fuel disk (name ++ codes "_1") ext
                (omega (arith, fewer, counted, fuel_left))
                (omega (arith, fewer, counted, room, longer))))
    ]

-- With at least one round for each file and one more, the loop ends, if the name with its extension
-- leaves room for `_1` as many times as there are files. It ends with the first of the names `name`,
-- `name_1`, `name_1_1` and so on, each with the extension, that no file has.
pub free_name_terminates :
    (disk : Disk) (name ext : Bytes)
    → length name + length ext + 2 * length disk ≤ 255
    → FindsFree disk name ext (free_name (suc (length disk)) disk name ext)
free_name_terminates disk name ext room =
    let few = at_least-le-length (length name + length ext) disk in
    free_name_finds (suc (length disk)) disk name ext (omega (arith, few))
      (omega (arith, few, room))

next_base_twice : (name : Bytes) → 253 ≤ length name → next_base (next_base name) ≡ next_base name
next_base_twice name h =
    let whole : length (take 253 name) ≡ 253 = omega (arith, h, length-take 253 name) in
    next_base_lem (next_base name)
    ∙ ap (λ n. take 253 n ++ codes "_1") (next_base_lem name)
    ∙ ap (λ n. n ++ codes "_1") (take-append_left 253 (take 253 name) (codes "_1") whole)
    ∙ sym (next_base_lem name)

next_base_long : (name : Bytes) → 253 ≤ length name → 253 ≤ length (next_base name)
next_base_long name h = omega (
  arith,
  h,
  length-take 253 name,
  length-append (take 253 name) (codes "_1"),
  ap length (next_base_lem name),
)

-- For a name of 253 bytes or more the loop does not end if its first two candidates are taken: then all
-- later candidates are the second one again.
pub free_name_stuck :
    (fuel : ℕ) (disk : Disk) (name ext : Bytes)
    → 253 ≤ length name
    → exists (candidate name ext) disk ≡ true
    → exists (candidate (next_base name) ext) disk ≡ true
    → free_name fuel disk name ext ≡ none
unfolding free_name
free_name_stuck zero disk name ext h first second = refl
free_name_stuck (suc fuel) disk name ext h first second = rw first (
    free_name_stuck fuel disk (next_base name) ext (next_base_long name h) second
      (ap (λ n. exists (candidate n ext) disk) (next_base_twice name h) ∙ second))
