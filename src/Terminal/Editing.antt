-- ===== src/Terminal/Editing.antt =====
-- The line editor refines an editor of plain text with an escape filter.
pub mod Typing
use native.Mathlib.Numerals.{add-one}
use chat_app_in_c.Common.{
  ℕ, zero, suc, ◌+◌, ◌-◌, ◌<◌, ◌≤◌, ◌≡◌, refl, sym, ap, ap₂, ◌∙◌, Bool, true, false, ◌||◌, Option,
  none, some, ◌≢◌, inl, inr, List, [], ◌∷◌, ◌++◌, ltb, ◌==◌, if◌then◌else◌, Bool-cases, get_or, set,
  take, length-take, length-set, arith, min,
}
use chat_app_in_c.Common
use chat_app_in_c.CString.{Bytes, c_string}
use chat_app_in_c.Terminal.{
  InputHandler, ti_process_backspace, store_char, ti_process_char, esc_byte, enter_pressed,
  key_pressed,
}
use chat_app_in_c.Terminal.Invariant.{IsValid, process_char-IsValid, key_pressed-IsValid}

take-set_le : (n : ℕ) (xs : Bytes) (i v : ℕ) → n ≤ i → take n (set xs i v) ≡ take n xs
take-set_le zero xs i v h = refl
take-set_le (suc n) [] i v h = refl
take-set_le (suc n) (x ∷ xs) zero v h = elim h [ ]
take-set_le (suc n) (x ∷ xs) (suc i) v h = ap (◌∷◌ x) (take-set_le n xs i v (omega arith))

take-set_self :
    (n : ℕ) (xs : Bytes) (c : ℕ)
    → n < Common.length xs
    → take (suc n) (set xs n c) ≡ take n xs ++ c ∷ []
take-set_self n [] c h = absurd (omega arith)
take-set_self zero (x ∷ xs) c h = refl
take-set_self (suc n) (x ∷ xs) c h = ap (◌∷◌ x) (take-set_self n xs c (omega arith))

-- The text without its last byte
abbrev pub drop_last : Bytes → Bytes
drop_last [] = []
drop_last (x ∷ []) = []
drop_last (x ∷ y ∷ xs) = x ∷ drop_last (y ∷ xs)

drop_last-take :
    (n : ℕ) (xs : Bytes) → n < Common.length xs → drop_last (take (suc n) xs) ≡ take n xs
drop_last-take n [] h = absurd (omega arith)
drop_last-take zero (x ∷ xs) h = refl
drop_last-take (suc n) (x ∷ []) h = absurd (omega arith)
drop_last-take (suc n) (x ∷ y ∷ xs) h = ap (◌∷◌ x) (drop_last-take n (y ∷ xs) (omega arith))

drop_last-append : (xs : Bytes) (c : ℕ) → drop_last (xs ++ c ∷ []) ≡ xs
drop_last-append [] c = refl
drop_last-append (x ∷ []) c = refl
drop_last-append (x ∷ y ∷ xs) c = ap (◌∷◌ x) (drop_last-append (y ∷ xs) c)

c_string-set :
    (n : ℕ) (xs : Bytes) → n < Common.length xs → c_string (set xs n 0) ≡ c_string (take n xs)
unfolding c_string
c_string-set n [] h = absurd (omega arith)
c_string-set zero (x ∷ xs) h = refl
c_string-set (suc n) (x ∷ xs) h = ground (arith, c_string-set n xs)

-- What the user sees of the editor: the text of the line, and where the escape filter stands.
pub record Line : Type 0 where
  pub text : Bytes
  pub filter : ℕ

abbrev pub line : InputHandler → Line
line ih = record { text = take ih.length ih.buffer; filter = ih.esc_state }

-- A byte of text: it goes to the end of the line, if the line has fewer than 1023 bytes.
pub append : Line → ℕ → Line
append l c = if ltb (Common.length l.text) 1023 then record l { text = l.text ++ c ∷ [] } else l

-- ESC starts a sequence; `[` after it goes on with it; the byte behind those two, or another byte than
-- `[` behind ESC, ends it. All of these are swallowed.
pub type_byte : Line → ℕ → Line
unfolding append
type_byte l c =
    if l.filter == 0
    then (if c == esc_byte then record l { filter = 1 } else append l c)
    else record l { filter = if (l.filter == 1) then (if c == b'[' then 2 else 0) else 0 }

pub press : Line → ℕ → Option Bytes × Line
unfolding type_byte
press l c =
    if (c == 13) || (c == 10)
    then (
      if Common.length l.text == 0 then none else some (c_string l.text),
      record l { text = [] },
    )
    else if (c == 127) || (c == 8)
    then (none, record l { text = drop_last l.text })
    else (none, type_byte l c)

module _ {ih : InputHandler} (v : IsValid ih) where
  pub length-line : Common.length (line ih).text ≡ ih.length
  length-line = omega (arith, length-take ih.length ih.buffer)

  backspace-line :
      line (ti_process_backspace ih).1
      ≡ record { text = drop_last (line ih).text; filter = ih.esc_state }
  unfolding ti_process_backspace
  backspace-line = elim (Bool-cases (ltb 0 ih.length)) [
    | inl e ↦
        let n = ih.length - 1 in
        let some_text : ih.length ≡ suc n = ground arith in
        rw e (
          ap (λ t. record { text = t; filter = ih.esc_state })
            (take-set_le n ih.buffer n 0 (omega arith)
              ∙ sym (drop_last-take n ih.buffer (omega (arith, v.size, v.fits)))
              ∙ ap (λ k. drop_last (take k ih.buffer)) (sym some_text)))
    | inr e ↦
        let no_text : ih.length ≡ 0 = ground arith in
        rw e (ap (λ t. record { text = t; filter = ih.esc_state }) (rw no_text))
  ]

  store_char-line : (c : ℕ) → line (store_char ih c).1 ≡ append (line ih) c
  unfolding store_char append
  store_char-line c = ground (
    arith,
    length-line,
    add-one ih.length,
    take-set_le (suc ih.length) (set ih.buffer ih.length c) (ih.length + 1) 0,
    take-set_self ih.length ih.buffer c,
  )

  process_char-line : (c : ℕ) → line (ti_process_char ih c).1 ≡ type_byte (line ih) c
  unfolding ti_process_char type_byte
  process_char-line c = ground (arith, store_char-line c)

  enter-line : line (enter_pressed ih).handler ≡ record { text = []; filter = ih.esc_state }
  unfolding enter_pressed
  enter-line = ground arith

  enter-command :
      (enter_pressed ih).command
      ≡ (if Common.length (line ih).text == 0 then none else some (c_string (line ih).text))
  unfolding enter_pressed
  enter-command = ground (arith, length-line, c_string-set ih.length ih.buffer)

-- Each key has on a valid handler the effect that `press` states on its line: the line handed to
-- `process_command`, if any, and the text and filter state afterwards.
pub key_pressed_refines :
    {ih : InputHandler} (c : ℕ)
    → IsValid ih
    → ((key_pressed ih c).command ≡ (press (line ih) c).0)
      × (line (key_pressed ih c).handler ≡ (press (line ih) c).1)
unfolding key_pressed press
key_pressed_refines {ih} c v =
    ground (arith, enter-command v, enter-line v, backspace-line v, process_char-line v c)

-- A session: the keys in order, and the lines that are handed to `process_command`.
abbrev pub submit : Option Bytes → List Bytes → List Bytes
submit none ls = ls
submit (some l) ls = l ∷ ls

unfoldable pub session : InputHandler → List ℕ → List Bytes
session ih [] = []
session ih (c ∷ cs) = submit (key_pressed ih c).command (session (key_pressed ih c).handler cs)

pub spec_session : Line → List ℕ → List Bytes
spec_session l [] = []
spec_session l (c ∷ cs) = submit (press l c).0 (spec_session (press l c).1 cs)

-- For every sequence of keys, the lines that the client hands to `process_command` are those of the
-- plain text editor: the buffer, its terminating zeros and its resets cannot be told from it.
pub session_refines :
    (cs : List ℕ) {ih : InputHandler} → IsValid ih → session ih cs ≡ spec_session (line ih) cs
unfolding session spec_session
session_refines [] v = refl
session_refines (c ∷ cs) {ih} v =
    let step = key_pressed_refines c v in
    ap₂ submit step.0
      (session_refines cs (key_pressed-IsValid c v) ∙ ap (λ l. spec_session l cs) step.1)

-- An escape sequence of three bytes `ESC [ c` leaves the line and the filter as they were, whatever
-- `c` is, and writes nothing, if the filter stands at its start.
pub escape_sequence_swallowed :
    (ih : InputHandler) (c : ℕ)
    → ih.esc_state ≡ 0
    → let ih1 = (ti_process_char ih esc_byte).1 in
      let ih2 = (ti_process_char ih1 b'[').1 in
      let (out, ih3) = ti_process_char ih2 c in (line ih3 ≡ line ih) × (out ≡ [])
unfolding ti_process_char
escape_sequence_swallowed ih c e = ground arith

-- Backspace takes back the byte typed before it, if that byte is not ESC, the filter stands at its
-- start and the line has room.
pub backspace-process_char :
    {ih : InputHandler} (c : ℕ)
    → IsValid ih
    → ih.esc_state ≡ 0
    → c ≢ esc_byte
    → ih.length < 1023
    → line (ti_process_backspace (ti_process_char ih c).1).1 ≡ line ih
unfolding type_byte append
backspace-process_char {ih} c v e ne room =
    backspace-line (process_char-IsValid c v)
    ∙ ap (λ (l : Line). record { text = drop_last l.text; filter = l.filter })
        (process_char-line v c)
    ∙ drop_typed
  where
    drop_typed :
        record {
          text = drop_last (type_byte (line ih) c).text;
          filter = (type_byte (line ih) c).filter;
        }
        ≡ line ih
    drop_typed = ground (arith, drop_last-append (line ih).text c, length-line v)
