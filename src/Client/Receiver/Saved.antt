-- ===== src/Client/Receiver/Saved.antt =====
-- The bytes of a file that `recv_thread` receives, from the first to the last.
use chat_app_in_c.Common.{
  ℕ, suc, ◌+◌, ◌-◌, ◌^◌, ◌<◌, ◌≡◌, refl, ap, sym, ◌∙◌, true, false, some, List, [], ◌∷◌, ◌++◌,
  append_assoc, append-nil, leb, ◌==◌, Bool-cases, inl, inr, length, length-append, take, take-all,
  arith,
}
use mathlib.Core.Path.{subst}
use chat_app_in_c.CString.{Bytes}
use chat_app_in_c.Client.{Client, display, color_magenta}
use chat_app_in_c.Disk.{find, append_to, find-append_to_self}
use chat_app_in_c.Client.Receiver.{
  System, Receiver, Step, file_saved, write_data, receive_data, receive, with_events, and_then,
  receive_all,
}
use chat_app_in_c.Server.Handler.Upload.Queued.{NoneEmpty, joined_bytes}

-- The round saved the file: it is closed and reported, and holds this content.
abbrev pub Finished : Client → Receiver → Bytes → Step → Type 0
Finished c r content o =
    (r' : Receiver) × (o ≡ some (display c (file_saved r') color_magenta ∷ [], r'))
    × (r'.receiving_file ≡ false)
    × (r'.incoming_fname ≡ r.incoming_fname)
    × (r'.incoming_sender ≡ r.incoming_sender)
    × (find r.incoming_fname r'.disk ≡ some content)

-- The receiver with these bytes written, before it looks whether they are the last
abbrev pub wrote : Receiver → Bytes → Receiver
wrote r bytes = record r {
  file_remain = r.file_remain - length bytes;
  disk = append_to r.incoming_fname bytes r.disk;
}

pub write_data_last :
    (c : Client) (r : Receiver) (bytes : Bytes)
    → length bytes ≡ r.file_remain
    → write_data c r bytes ≡ (
      display c (file_saved (wrote r bytes)) color_magenta ∷ [],
      record (wrote r bytes) { receiving_file = false },
    )
unfolding write_data
write_data_last c r bytes h =
    let last : (r.file_remain - length bytes == 0) ≡ true = ground (arith, h) in rw last refl

pub write_data_more :
    (c : Client) (r : Receiver) (bytes : Bytes)
    → length bytes < r.file_remain
    → write_data c r bytes ≡ ([], wrote r bytes)
unfolding write_data
write_data_more c r bytes h =
    let more : (r.file_remain - length bytes == 0) ≡ false = ground (arith, h) in rw more refl

-- A round in the middle of a file, for a `recv` that gives no more than is missing
receive-data :
    (sys : System) (fuel : ℕ) (c : Client) (r : Receiver) (buf : Bytes)
    → r.receiving_file ≡ true
    → r.file_remain < 2 ^ 63
    → length buf < suc r.file_remain
    → receive sys fuel c r buf ≡ some (write_data c r buf)
unfolding receive receive_data
receive-data sys fuel c r buf on small fits =
    let all : leb (2 ^ 63) r.file_remain ≡ false = ground (arith, small) in
    let whole : take r.file_remain buf ≡ buf = take-all r.file_remain buf (omega (arith, fits)) in
    simp (on, all, whole) refl

nothing_more : (bufs : List Bytes) → NoneEmpty bufs → length (joined_bytes bufs) ≡ 0 → bufs ≡ []
nothing_more [] h e = refl
nothing_more (buf ∷ bufs) (some_bytes, _) e =
    absurd (omega (arith, some_bytes, e, length-append buf (joined_bytes bufs)))

pub Finished-silent :
    (c : Client) (r : Receiver) (content : Bytes) (o : Step)
    → Finished c r content o
    → Finished c r content (with_events [] o)
Finished-silent c r content o (r', e, idle, name, sender, there) =
    (r', rw e refl, idle, name, sender, there)

module _ (sys : System) (fuel : ℕ) (c : Client) (r : Receiver) (old buf : Bytes) (bufs : List Bytes)
    (there : find r.incoming_fname r.disk ≡ some old) (some_bytes : NoneEmpty bufs)
    (e : length buf + length (joined_bytes bufs) ≡ r.file_remain) where
  finished_last :
      (o : Step)
      → o ≡ some (write_data c r buf)
      → bufs ≡ []
      → length buf ≡ r.file_remain
      → Finished c r
          (old ++ (buf ++ joined_bytes bufs))
          (and_then o (λ r'. receive_all sys fuel c r' bufs))
  unfolding receive_all
  finished_last o step none_left last =
      rw (step, none_left, write_data_last c r buf last)
        (
          record (wrote r buf) { receiving_file = false },
          refl,
          refl,
          refl,
          refl,
          find-append_to_self r.incoming_fname old buf r.disk there
              ∙ ap (λ x. some (old ++ x)) (sym (append-nil buf)),
        )

  finished_more :
      (o : Step)
      → o ≡ some (write_data c r buf)
      → length buf < r.file_remain
      → Finished c
          (wrote r buf)
          ((old ++ buf) ++ joined_bytes bufs)
          (receive_all sys fuel c (wrote r buf) bufs)
      → Finished c r
          (old ++ (buf ++ joined_bytes bufs))
          (and_then o (λ r'. receive_all sys fuel c r' bufs))
  finished_more o step more later =
      rw (step, write_data_more c r buf more)
        (Finished-silent c r (old ++ (buf ++ joined_bytes bufs)) _ (
          subst (λ x. Finished c (wrote r buf) x (receive_all sys fuel c (wrote r buf) bufs))
            (append_assoc old buf (joined_bytes bufs)) later))

  -- A round that writes its bytes, and the rounds that follow
  pub finished :
      (o : Step)
      → o ≡ some (write_data c r buf)
      → (length buf < r.file_remain
          → Finished c
              (wrote r buf)
              ((old ++ buf) ++ joined_bytes bufs)
              (receive_all sys fuel c (wrote r buf) bufs))
      → Finished c r
          (old ++ (buf ++ joined_bytes bufs))
          (and_then o (λ r'. receive_all sys fuel c r' bufs))
  finished o step later = elim (Bool-cases (length buf == r.file_remain)) [
    | inl last ↦
        finished_last o step (nothing_more bufs some_bytes (ground (arith, last, e)))
          (ground (arith, last))
    | inr more ↦
        let less : length buf < r.file_remain = ground (arith, more, e) in
        finished_more o step less (later less)
  ]

-- The rest of a file that comes in any number of pieces is written to it in order, and the file is
-- closed with the last piece.
pub receive_all-data :
    (sys : System) (fuel : ℕ) (c : Client) (r : Receiver) (old : Bytes) (bufs : List Bytes)
    → r.receiving_file ≡ true
    → 0 < r.file_remain
    → r.file_remain < 2 ^ 63
    → find r.incoming_fname r.disk ≡ some old
    → NoneEmpty bufs
    → length (joined_bytes bufs) ≡ r.file_remain
    → Finished c r (old ++ joined_bytes bufs) (receive_all sys fuel c r bufs)
unfolding receive_all
receive_all-data sys fuel c r old [] on positive small there _ e =
    absurd (omega (arith, positive, e))
receive_all-data sys fuel c r old (buf ∷ bufs) on positive small there (some_bytes, rest) e =
    let sized = length-append buf (joined_bytes bufs) in
    let step = receive-data sys fuel c r buf on small (omega (arith, e, sized)) in
    let grown = find-append_to_self r.incoming_fname old buf r.disk there in
    finished sys fuel c r old buf bufs there rest (omega (arith, e, sized))
      (receive sys fuel c r buf) step
      (λ less.
        receive_all-data sys fuel c (wrote r buf) (old ++ buf) bufs on (omega (arith, less))
          (omega (arith, small)) grown rest (omega (arith, e, sized)))
