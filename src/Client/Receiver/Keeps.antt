-- ===== src/Client/Receiver/Keeps.antt =====
-- What `recv_thread` leaves as it is: the files that were there before.
use chat_app_in_c.Common.{
  ℕ, zero, suc, ◌^◌, ◌-◌, ◌≡◌, refl, ap, sym, ◌∙◌, ◌≢◌, true, false, ◌&&◌, none, some, List, [],
  ◌∷◌, ◌++◌, leb, ltb, ◌==◌, Bool-cases, Option-cases, inl, inr, length, length-take, take,
  take-all, arith, drop,
}
use mathlib.Core.Path.{subst}
use chat_app_in_c.CString.{Bytes, codes, c_string, str_eq, str_eq_iff, starts_with, copy_into}
use chat_app_in_c.Client.{Client, Event, buf_size}
use chat_app_in_c.Disk.{Disk, find, exists, find-append_to}
use chat_app_in_c.Client.Receiver.{
  System, Receiver, Step, write_data, Parsed, malformed, header, parse_header, candidate, next_base,
  free_name, first_data, open_file, local_name, begin_file, receive_parsed, receive, receive_all,
  with_events, and_then, max_filename,
}

-- The name that the loop ends with is no file's, and fits its buffer.
pub free_name_free :
    (fuel : ℕ) (disk : Disk) (name ext found : Bytes)
    → free_name fuel disk name ext ≡ some found
    → (exists found disk ≡ false) × (copy_into max_filename found ≡ found)
unfolding free_name
free_name_free zero disk name ext found h = absurd (ground (arith, h))
free_name_free (suc fuel) disk name ext found h =
    elim (Bool-cases (exists (candidate name ext) disk)) [
      | inl e ↦ free_name_free fuel disk (next_base name) ext found (ground (arith, e, h))
      | inr e ↦
          let same : candidate name ext ≡ found = ground (arith, e, h) in
          (
            ap (λ n. exists n disk) (sym same) ∙ e,
            take-all 255 found (omega (arith, length-take 255 (name ++ ext), ap length same)),
          )
    ]

-- The file has this content, and is not the one that is being received.
abbrev pub Kept : Bytes → Bytes → Receiver → Type 0
Kept name content r =
    (find name r.disk ≡ some content) × (r.receiving_file ≡ true → name ≢ r.incoming_fname)

-- What holds of the receiver after a step that returns
abbrev pub After : Step → (Receiver → Type 0) → Type 0
After none P = Unit
After (some (events, r)) P = P r

After-with_events :
    (P : Receiver → Type 0) (events : List Event) (o : Step)
    → After o P
    → After (with_events events o) P
After-with_events P events none h = tt
After-with_events P events (some (more, r)) h = h

pub After-and_then :
    (P Q : Receiver → Type 0) (o : Step) (next : Receiver → Step)
    → After o P
    → ((r : Receiver) → P r → After (next r) Q)
    → After (and_then o next) Q
After-and_then P Q none next h k = tt
After-and_then P Q (some (events, r)) next h k = After-with_events Q events (next r) (k r h)

module _ (c : Client) (name content : Bytes) where
  write_data-Kept :
      (r : Receiver) (bytes : Bytes)
      → find name r.disk ≡ some content
      → name ≢ r.incoming_fname
      → Kept name content (write_data c r bytes).1
  unfolding write_data
  write_data-Kept r bytes there differs = elim (Bool-cases (r.file_remain - length bytes == 0)) [
    | inl e ↦ rw e (find-append_to name r.incoming_fname bytes r.disk differs ∙ there, λ _. differs)
    | inr e ↦ rw e (find-append_to name r.incoming_fname bytes r.disk differs ∙ there, λ _. differs)
  ]

  first_data-Kept :
      (r : Receiver) (header_len : ℕ) (buf : Bytes)
      → find name r.disk ≡ some content
      → name ≢ r.incoming_fname
      → After (first_data c r header_len buf) (Kept name content)
  unfolding first_data
  first_data-Kept r header_len buf there differs = elim (Bool-cases (length buf == header_len)) [
    | inl e ↦ rw e (there, λ _. differs)
    | inr e ↦ elim (Bool-cases (ltb (length buf) header_len && ltb 0 r.file_remain)) [
      | inl f ↦ simp (e, f) tt
      | inr f ↦
          simp (e, f) (write_data-Kept r (take r.file_remain (drop header_len buf)) there differs)
    ]
  ]

  open_file-Kept :
      (sys : System) (r : Receiver) (header_len : ℕ) (buf : Bytes)
      → find name r.disk ≡ some content
      → name ≢ r.incoming_fname
      → After (open_file sys c r header_len buf) (Kept name content)
  unfolding open_file find
  open_file-Kept sys r header_len buf there differs =
      elim (Bool-cases (sys.creates r.incoming_fname)) [
        | inl e ↦ rw e (
            first_data-Kept (record r { disk = (r.incoming_fname, []) ∷ r.disk }) header_len buf
              (let other : str_eq r.incoming_fname name ≡ false =
                  ground (arith, str_eq_iff r.incoming_fname name, differs) in
                rw other there)
              differs)
        | inr e ↦ rw e (there, λ _. differs)
      ]

  exists_there : (r : Receiver) → find name r.disk ≡ some content → exists name r.disk ≡ true
  unfolding exists
  exists_there r there = rw there refl

  begin_file-Kept :
      (sys : System) (fuel : ℕ) (r : Receiver) (buf fname size sender : Bytes)
      → find name r.disk ≡ some content
      → After (begin_file sys fuel c r buf fname size sender) (Kept name content)
  unfolding begin_file
  begin_file-Kept sys fuel r buf fname size sender there =
      let (name_only, ext_only) = local_name sys fname in
      elim (Option-cases (free_name fuel r.disk name_only ext_only)) [
        | inl e ↦ rw e tt
        | inr (found, e) ↦
            let (free, short) = free_name_free fuel r.disk name_only ext_only found e in
            rw e (open_file-Kept sys _ _ buf there (not_free found free short))
      ]
    where
      not_free :
          (found : Bytes)
          → exists found r.disk ≡ false
          → copy_into max_filename found ≡ found
          → name ≢ copy_into max_filename found
      not_free found free short same = absurd (
          ground
            (arith, sym (exists_there r there) ∙ ap (λ n. exists n r.disk) (same ∙ short) ∙ free))

  receive-Kept :
      (sys : System) (fuel : ℕ) (r : Receiver) (buf : Bytes)
      → Kept name content r
      → After (receive sys fuel c r buf) (Kept name content)
  unfolding receive
  receive-Kept sys fuel r buf (there, differs) = elim (Bool-cases r.receiving_file) [
    | inl e ↦ elim (Bool-cases (leb (2 ^ 63) r.file_remain)) [
      | inl f ↦ simp (e, f) tt
      | inr f ↦ simp (e, f) (write_data-Kept r (take r.file_remain buf) there (differs e))
    ]
    | inr e ↦ elim (Bool-cases (leb buf_size (length buf))) [
      | inl f ↦ simp (e, f) tt
      | inr f ↦ elim (Bool-cases (starts_with (c_string buf) (codes "[FILE "))) [
        | inr g ↦ simp (e, f, g) (there, λ h. absurd (ground (arith, h)))
        | inl g ↦ simp (e, f, g) (go (parse_header (c_string buf)))
      ]
    ]
  ]
    where
      go : (p : Parsed) → After (receive_parsed sys fuel c r buf p) (Kept name content)
      go (malformed text) = (there, differs)
      go (header fname size sender) = begin_file-Kept sys fuel r buf fname size sender there

  receive_all-Kept :
      (sys : System) (fuel : ℕ) (r : Receiver) (bufs : List Bytes)
      → Kept name content r
      → After (receive_all sys fuel c r bufs) (Kept name content)
  unfolding receive_all
  receive_all-Kept sys fuel r [] kept = kept
  receive_all-Kept sys fuel r (buf ∷ bufs) kept =
      After-and_then _ _ (receive sys fuel c r buf) _ (receive-Kept sys fuel r buf kept)
        (λ r' kept'. receive_all-Kept sys fuel r' bufs kept')

  -- The receiver never changes a file that it is not just receiving: whatever the server sends, a file
  -- that is there when no file is being received is there, with the same content, after any number of
  -- rounds that return.
  pub receive_all_keeps :
      (sys : System) (fuel : ℕ) (r r' : Receiver) (bufs : List Bytes) (events : List Event)
      → r.receiving_file ≡ false
      → find name r.disk ≡ some content
      → receive_all sys fuel c r bufs ≡ some (events, r')
      → find name r'.disk ≡ some content
  receive_all_keeps sys fuel r r' bufs events idle there e =
      (subst (λ o. After o (Kept name content)) e
        (receive_all-Kept sys fuel r bufs (there, λ h. absurd (ground (arith, h, idle))))).0
